-- ===== src/CommandLine/Parse.antt =====
-- src/main.rs: parsing of the values of options.
use geocode_csv.Base.{
  ℕ, ◌≡◌, refl, ap, ◌↔◌, false, Option, none, some, [], ◌∷◌, ◌++◌, ◌==◌, ==_iff, if◌then◌else◌,
  arith, Bool-cases, Option-cases, inl, inr,
}
use mathlib.Core.Option.{some-injective}
use geocode_csv.Base.Text.{Text, codes, text_eq, contains_char}
use geocode_csv.Base.Outcome.{Outcome, ok, err, unknown_name}
use geocode_csv.CommandLine.{GeocoderName, smarty, lib_postal, MetricsLabel}

-- `GeocoderName::from_str`
unfoldable pub parse_geocoder_name : Text → Outcome GeocoderName
parse_geocoder_name s =
    if text_eq s (codes "smarty")
    then ok smarty
    else if text_eq s (codes "libpostal")
    then ok lib_postal
    else err (unknown_name s)

-- `str::split_once` of a character
unfoldable pub split_once : ℕ → Text → Option (Text × Text)
split_once c [] = none
split_once c (d ∷ s) =
    let rest = split_once c s in
    if d == c
    then some ([], s)
    else elim rest [ none ↦ none | some (before, after) ↦ some (d ∷ before, after) ]

-- `MetricsLabel::from_str`
unfoldable pub parse_metrics_label : Text → Outcome MetricsLabel
unfolding split_once
parse_metrics_label s = elim (split_once b'=' s) [
  | none ↦ err (unknown_name s)
  | some (before, after) ↦ ok (record { key = before; value = after })
]

split_once-join :
    (c : ℕ) (k v : Text) → contains_char c k ≡ false → split_once c (k ++ (c ∷ v)) ≡ some (k, v)
unfolding split_once
split_once-join c [] v h = rw ((==_iff c c).1 refl) refl
split_once-join c (d ∷ k) v h = elim (Bool-cases (d == c)) [
  | inl e ↦ absurd (ground (arith, h, e))
  | inr e ↦ rw (e, split_once-join c k v (rw e at h)) refl
]

some-pair :
    (a b k v : Text)
    → ◌≡◌ {A = Option (Text × Text)} (some (a, b)) (some (k, v))
    → (a ≡ k) × (b ≡ v)
some-pair a b k v h =
    let same : ◌≡◌ {A = Text × Text} (a, b) (k, v) = some-injective _ _ h in
    (ap (λ p. p.0) same, ap (λ p. p.1) same)

split_once-parts :
    (c : ℕ) (s k v : Text)
    → split_once c s ≡ some (k, v)
    → (s ≡ k ++ (c ∷ v)) × (contains_char c k ≡ false)
unfolding split_once
split_once-parts c [] k v h = cc
split_once-parts c (d ∷ s) k v h = elim (Bool-cases (d == c)) [
  | inl e ↦
      let h' : some ([], s) ≡ some (k, v) = rw (split_once, e) at h in
      let (same_k, same_v) = some-pair [] s k v h' in
      rw (← same_k, ← same_v, (==_iff d c).0 e) (refl, refl)
  | inr e ↦ elim (Option-cases (split_once c s)) [
    | inl f ↦ absurd (let h' : none ≡ some (k, v) = rw (split_once, e, f) at h in cc)
    | inr ((before, after), f) ↦
        let h' : some (d ∷ before, after) ≡ some (k, v) = rw (split_once, e, f) at h in
        let (same_k, same_v) = some-pair (d ∷ before) after k v h' in
        let (joined, free) = split_once-parts c s before after f in
        rw (← same_k, ← same_v, e) (ap (λ l. d ∷ l) joined, free)
  ]
]

-- A text parses to a label exactly when it is the label's key, without `=`, then `=` and its value.
-- So the value may hold further `=`, and a text without `=` is an error.
pub parse_metrics_label_iff :
    (s : Text) (label : MetricsLabel)
    → (parse_metrics_label s ≡ ok label)
      ↔ ((s ≡ label.key ++ (b'=' ∷ label.value)) × (contains_char b'=' label.key ≡ false))
unfolding parse_metrics_label
parse_metrics_label_iff s label = (
  λ h. elim (Option-cases (split_once b'=' s)) [
    | inl e ↦
        absurd (let h' : err (unknown_name s) ≡ ok label = rw (parse_metrics_label, e) at h in cc)
    | inr ((before, after), e) ↦
        let h' : ok (record { key = before; value = after }) ≡ ok label =
          rw (parse_metrics_label, e) at h in
        let same : record { key = before; value = after } ≡ label = cc in
        rw (← same) (split_once-parts b'=' s before after e)
  ],
  λ (joined, free).
      rw (joined, parse_metrics_label, split_once-join b'=' label.key label.value free) refl,
)
