-- ===== src/Addresses/Spec/Order.antt =====
-- src/addresses.rs: the order in which the hash map of a spec is iterated does not matter.
use geocode_csv.Base.{
  ◌≡◌, refl, sym, ap, ◌∙◌, true, false, some, none, List, [], ◌∷◌, arith, Bool-cases, inl, inr,
  if◌then◌else◌,
}
use geocode_csv.Base.Text.{Text, text_leb, text_eq, text_eq_iff}
use geocode_csv.Base.Dict.{Dict, lookup, keys}
use mathlib.Core.Path.{subst}
use mathlib.Core.List.{Permᴰ}
use mathlib.Core.List.Permᴰ.{nil, cons, swap, trans}
use geocode_csv.Addresses.Spec.{AddressColumnSpec, insert_sorted, sort, prefixes, get}

text_leb_total : (s t : Text) → text_leb s t ≡ false → text_leb t s ≡ true
text_leb_total [] t h = cc
text_leb_total (c ∷ s) [] h = refl
text_leb_total (c ∷ s) (d ∷ t) h = ground (arith, text_leb_total s t, h)

text_leb_antisym : (s t : Text) → text_leb s t ≡ true → text_leb t s ≡ true → s ≡ t
text_leb_antisym [] [] h k = refl
text_leb_antisym [] (d ∷ t) h k = cc
text_leb_antisym (c ∷ s) [] h k = cc
text_leb_antisym (c ∷ s) (d ∷ t) h k = ground (arith, text_leb_antisym s t, h, k)

text_leb_trans : (s t u : Text) → text_leb s t ≡ true → text_leb t u ≡ true → text_leb s u ≡ true
text_leb_trans [] t u h k = refl
text_leb_trans (c ∷ s) [] u h k = cc
text_leb_trans (c ∷ s) (d ∷ t) [] h k = cc
text_leb_trans (c ∷ s) (d ∷ t) (e ∷ u) h k = ground (arith, text_leb_trans s t u, h, k)

insert_sorted_comm :
    (a b : Text) (l : List Text)
    → insert_sorted a (insert_sorted b l) ≡ insert_sorted b (insert_sorted a l)
unfolding insert_sorted
insert_sorted_comm a b [] = ground (arith, text_leb_total a b, text_leb_antisym a b)
insert_sorted_comm a b (c ∷ l) = ground (
  arith,
  insert_sorted_comm a b l,
  text_leb_total a b,
  text_leb_antisym a b,
  text_leb_trans a b c,
  text_leb_trans b a c,
)

sort-Permᴰ : {xs ys : List Text} → Permᴰ xs ys → sort xs ≡ sort ys
unfolding sort
sort-Permᴰ nil = refl
sort-Permᴰ (cons e p) = cc (e, sort-Permᴰ p)
sort-Permᴰ (swap {a = a} {b = b} {l = l} e f) = insert_sorted_comm a b (sort l) ∙ cc (e, f)
sort-Permᴰ (trans p q) = sort-Permᴰ p ∙ sort-Permᴰ q

module _ {V : Type 0} where
  abbrev pub DistinctKeys : Dict V → Type 0
  DistinctKeys [] = Unit
  DistinctKeys ((k, v) ∷ m) = (lookup k m ≡ none) × DistinctKeys m

  keys-Permᴰ : {m n : Dict V} → Permᴰ m n → Permᴰ (keys m) (keys n)
  keys-Permᴰ nil = nil
  keys-Permᴰ (cons e p) = cons (ap (λ x. x.0) e) (keys-Permᴰ p)
  keys-Permᴰ (swap e f) = swap (ap (λ x. x.0) e) (ap (λ x. x.0) f)
  keys-Permᴰ (trans p q) = trans (keys-Permᴰ p) (keys-Permᴰ q)

  lookup-swap :
      (a b : Text × V) (m : Dict V) (k : Text)
      → text_eq a.0 b.0 ≡ false
      → lookup k (a ∷ b ∷ m) ≡ lookup k (b ∷ a ∷ m)
  lookup-swap a b m k h = ground (arith, text_eq_iff a.0 k, text_eq_iff b.0 k, text_eq_iff a.0 b.0)

  swap-DistinctKeys :
      (a b : Text × V) (m : Dict V)
      → DistinctKeys (a ∷ b ∷ m)
      → (text_eq a.0 b.0 ≡ false) × DistinctKeys (b ∷ a ∷ m)
  swap-DistinctKeys a b m (h, (k, d)) =
      let parts : (text_eq a.0 b.0 ≡ false) × (lookup a.0 m ≡ none) =
        elim (Bool-cases (text_eq b.0 a.0)) [
          | inl e ↦ absurd (let h' : some b.1 ≡ none = rw e at h in cc)
          | inr e ↦ (ground (arith, e, text_eq_iff a.0 b.0, text_eq_iff b.0 a.0), rw e at h)
        ] in
      (parts.0, (rw (parts.0) k, (parts.1, d)))

  lookup-Permᴰ :
      {m n : Dict V}
      → Permᴰ m n
      → DistinctKeys m
      → DistinctKeys n × ((k : Text) → lookup k m ≡ lookup k n)
  lookup-Permᴰ nil d = (tt, λ k. refl)
  lookup-Permᴰ (cons {a = a} {b = b} {l₂ = n} e p) (h, d) =
      let (d', same) = lookup-Permᴰ p d in
      (
        (rw (← e) (sym (same a.0) ∙ h), d'),
        λ k. rw (← e) (ap (λ o. if text_eq a.0 k then some a.1 else o) (same k)),
      )
  lookup-Permᴰ (swap {a = a} {b = b} {a' = a'} {b' = b'} {l = l} e f) d =
      let (other, d') = swap-DistinctKeys a b l d in
      let swapped : b ∷ a ∷ l ≡ a' ∷ b' ∷ l = cc (e, f) in
      subst (λ n. DistinctKeys n × ((k : Text) → lookup k (a ∷ b ∷ l) ≡ lookup k n)) swapped
        (d', λ k. lookup-swap a b l k other)
  lookup-Permᴰ (trans p q) d =
      let (d', same) = lookup-Permᴰ p d in
      let (d'', same') = lookup-Permᴰ q d' in (d'', λ k. same k ∙ same' k)

-- Two specs with the same entries in different orders, no prefix twice, have the same prefixes, in the
-- same order, with the same columns under each.
pub prefixes-Perm :
    {K : Type 0} (spec spec' : AddressColumnSpec K)
    → Permᴰ spec.address_columns_by_prefix spec'.address_columns_by_prefix
    → DistinctKeys spec.address_columns_by_prefix
    → (prefixes spec ≡ prefixes spec') × ((prefix : Text) → get spec prefix ≡ get spec' prefix)
unfolding prefixes get
prefixes-Perm spec spec' p d = (sort-Permᴰ (keys-Permᴰ p), (lookup-Permᴰ p d).1)
