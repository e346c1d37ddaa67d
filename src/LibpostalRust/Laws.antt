-- ===== src/LibpostalRust/Laws.antt =====
-- crates/libpostal-rust: calls are safe, and so the geocoder over them implements the trait.
use geocode_csv.Base.{
  ℕ, ◌≡◌, refl, ◌∙◌, Bool, true, false, some, List, [], ◌∷◌, ◌++◌, All, if◌then◌else◌, Bool-cases,
  inl, inr,
}
use geocode_csv.Base.Text.{Text, contains_char}
use geocode_csv.Base.Dict.{Dict, insert}
use geocode_csv.Base.Outcome.{Outcome, ok, err, panicked, Ensures, Ensures-bind, expect}
use geocode_csv.Base.Effect.{M}
use geocode_csv.Base.Effect.Safe.{Safe, Safe-bind, Safe-lift}
use geocode_csv.Geocoders.{Implements}
use geocode_csv.Geocoders.LibPostal.{libpostal}
use geocode_csv.Geocoders.LibPostal.Laws.{libpostal-Implements}
use geocode_csv.LibpostalRust.Init.{
  Bytes, Component, base, parser, language_classifier, Library, Process, initialize,
}
use geocode_csv.LibpostalRust.Setup.{Counted, SetUpOnce, initialize-Safe}
use geocode_csv.LibpostalRust.{
  c_string, poison_on_panic, with_lock, read_components, read_expansions, call_parse, call_expand,
  parse_address, expand_address,
}

if-false : {A : Type 0} (b : Bool) (x y : A) → b ≡ false → (if b then x else y) ≡ y
if-false true x y h = cc
if-false false x y h = refl

c_string-Ensures : (s : Text) → Ensures (λ b. Unit) (c_string s)
unfolding c_string
c_string-Ensures s = elim (Bool-cases (contains_char 0 s)) [ inl e ↦ rw e tt | inr e ↦ rw e tt ]

module _ {W : Type 0} (library : Library W) where
  abbrev pub IsText : Bytes → Type 0
  IsText b = (s : Text) × (library.to_str b ≡ some s)

  -- The library counts its setups and answers with UTF-8.
  pub record Answers (setups : W → Component → ℕ) : Type 0 where
    pub counted : Counted library setups
    pub parses :
        (addr : Bytes) (w : W)
        → All (λ (c : Bytes × Bytes). IsText c.0 × IsText c.1) (library.parse addr w).0
    pub expands : (addr : Bytes) (w : W) → All IsText (library.expand addr w).0

  expect-IsText : (b : Bytes) → IsText b → Ensures (λ s. Unit) (expect (library.to_str b))
  expect-IsText b (s, e) = rw e tt

  read_components-Ensures :
      (parsed : List (Bytes × Bytes)) (result : Dict Text)
      → All (λ (c : Bytes × Bytes). IsText c.0 × IsText c.1) parsed
      → Ensures (λ d. Unit) (read_components library parsed result)
  unfolding read_components
  read_components-Ensures [] result h = tt
  read_components-Ensures ((label, component) ∷ parsed) result ((l, c), h) =
      Ensures-bind _ _ (expect (library.to_str label)) _ (expect-IsText label l) λ label' u.
        Ensures-bind _ _ (expect (library.to_str component)) _ (expect-IsText component c)
          λ component' v. read_components-Ensures parsed (insert label' component' result) h

  read_expansions-Ensures :
      (expansions : List Bytes) (result : List Text)
      → All IsText expansions
      → Ensures (λ d. Unit) (read_expansions library expansions result)
  unfolding read_expansions
  read_expansions-Ensures [] result h = tt
  read_expansions-Ensures (e ∷ expansions) result (t, h) =
      Ensures-bind _ _ (expect (library.to_str e)) _ (expect-IsText e t)
        λ expansion' u. read_expansions-Ensures expansions (result ++ (expansion' ∷ [])) h

  module _ (setups : W → Component → ℕ) where
    with_lock-Safe :
        {A : Type 0} (body : M (Process W) A)
        → Safe (SetUpOnce library setups) (λ a. Unit) body
        → Safe (SetUpOnce library setups) (λ a. Unit) (with_lock library body)
    unfolding with_lock
    with_lock-Safe {A = A} body s = record {
      at = λ p i.
          let (j, e) = s.at p i in
          rw (if-false p.poisoned (panicked, p) (poison_on_panic library (body p)) i.0)
            (unpoisoned (body p).0 (body p).1 j e);
    }
      where
        unpoisoned :
            (r : Outcome A) (p : Process W)
            → SetUpOnce library setups p
            → Ensures (λ a. Unit) r
            → SetUpOnce library setups (poison_on_panic library (r, p)).1
              × Ensures (λ a. Unit) (poison_on_panic library (r, p)).0
        unpoisoned (ok a) p j e = (j, tt)
        unpoisoned (err x) p j e = (j, tt)
        unpoisoned panicked p j e = absurd e

    call_parse-Safe :
        (addr : Bytes)
        → Answers setups
        → Safe
            (SetUpOnce library setups)
            (All (λ (c : Bytes × Bytes). IsText c.0 × IsText c.1))
            (call_parse library addr)
    call_parse-Safe addr a = record {
      at = λ p (clean, once).
          ((clean, λ d. a.counted.parse_counts addr p.world d ∙ once d), a.parses addr p.world);
    }

    call_expand-Safe :
        (addr : Bytes)
        → Answers setups
        → Safe (SetUpOnce library setups) (All IsText) (call_expand library addr)
    call_expand-Safe addr a = record {
      at = λ p (clean, once).
          ((clean, λ d. a.counted.expand_counts addr p.world d ∙ once d), a.expands addr p.world);
    }

    -- From a state where each part of the library was set up as often as its flag says, so at most
    -- once, and the lock is not poisoned, a call of `parse_address` or of `expand_address` does not
    -- panic and leaves such a state, if the library counts its setups and answers with UTF-8.
    pub address_calls-Safe :
        (addr : Text)
        → Answers setups
        → Safe (SetUpOnce library setups) (λ d. Unit) (parse_address library addr)
          × Safe (SetUpOnce library setups) (λ l. Unit) (expand_address library addr)
    unfolding parse_address expand_address
    address_calls-Safe addr a = (
      with_lock-Safe _ (
          Safe-bind (initialize library base) _ (initialize-Safe library setups base a.counted)
            λ t u.
              Safe-bind (initialize library parser) _
                (initialize-Safe library setups parser a.counted)
                λ t' u'.
                  Safe-bind _ _ (Safe-lift (c_string addr) (c_string-Ensures addr)) λ addr' v.
                    Safe-bind (call_parse library addr') _ (call_parse-Safe addr' a)
                      λ parsed h. Safe-lift _ (read_components-Ensures parsed [] h)),
      with_lock-Safe _ (
          Safe-bind (initialize library base) _ (initialize-Safe library setups base a.counted)
            λ t u.
              Safe-bind (initialize library language_classifier) _
                (initialize-Safe library setups language_classifier a.counted)
                λ t' u'.
                  Safe-bind _ _ (Safe-lift (c_string addr) (c_string-Ensures addr)) λ addr' v.
                    Safe-bind (call_expand library addr') _ (call_expand-Safe addr' a)
                      λ expansions h. Safe-lift _ (read_expansions-Ensures expansions [] h)),
    )

    -- So the geocoder over `parse_address` implements the trait.
    pub libpostal_rust-Implements :
        Answers setups → Implements (SetUpOnce library setups) (libpostal (parse_address library))
    libpostal_rust-Implements a =
        libpostal-Implements (parse_address library) (λ s. (address_calls-Safe s a).0)
