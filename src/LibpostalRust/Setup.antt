-- ===== src/LibpostalRust/Setup.antt =====
-- crates/libpostal-rust/src/init.rs: each part of the library is set up successfully at most once.
use geocode_csv.Base.{
  ℕ, ◌+◌, ◌≡◌, refl, ap, ◌∙◌, Bool, true, false, ◌||◌, List, [], ◌∷◌, if◌then◌else◌, arith,
  Bool-cases, Option-cases, inl, inr,
}
use geocode_csv.Base.Text.{Text, contains_char}
use geocode_csv.Base.Outcome.{Ensures}
use geocode_csv.Base.Effect.{lift}
use geocode_csv.Base.Effect.Safe.{Safe, Safe-bind_weaken, Safe-lift}
use geocode_csv.LibpostalRust.Init.{
  Bytes, Component, base, parser, language_classifier, Library, InitializationState, Process,
  is_initialized, set_initialized, data_dir_paths, path_as_c_string, has_data, probe_paths,
  probe_data_directory, call_setup, set_up, initialize,
}

abbrev pub same_component : Component → Component → Bool
same_component base base = true
same_component parser parser = true
same_component language_classifier language_classifier = true
same_component c d = false

abbrev pub one_if : Bool → ℕ
one_if true = 1
one_if false = 0

is_initialized-set :
    (c d : Component) (s : InitializationState)
    → is_initialized d (set_initialized c s) ≡ (same_component c d || is_initialized d s)
is_initialized-set base base s = refl
is_initialized-set base parser s = refl
is_initialized-set base language_classifier s = refl
is_initialized-set parser base s = refl
is_initialized-set parser parser s = refl
is_initialized-set parser language_classifier s = refl
is_initialized-set language_classifier base s = refl
is_initialized-set language_classifier parser s = refl
is_initialized-set language_classifier language_classifier s = refl

same_component-eq : (c d : Component) → same_component c d ≡ true → c ≡ d
same_component-eq base base h = refl
same_component-eq base parser h = cc
same_component-eq base language_classifier h = cc
same_component-eq parser base h = cc
same_component-eq parser parser h = refl
same_component-eq parser language_classifier h = cc
same_component-eq language_classifier base h = cc
same_component-eq language_classifier parser h = cc
same_component-eq language_classifier language_classifier h = refl

one_if-set :
    (c d : Component) (s : InitializationState)
    → is_initialized c s ≡ false
    → one_if (is_initialized d s) + one_if (same_component c d)
      ≡ one_if (is_initialized d (set_initialized c s))
one_if-set c d s h = elim (Bool-cases (same_component c d)) [
  | inl e ↦
      let off : is_initialized d s ≡ false = rw (← same_component-eq c d e) h in
      rw (is_initialized-set c d s, e, off) refl
  | inr e ↦ rw (is_initialized-set c d s, e) (omega arith)
]

-- A library in whose world `setups` counts the successful setups of each part.
module _ {W : Type 0} (library : Library W) (setups : W → Component → ℕ) where
  pub record Counted : Type 0 where
    pub counts :
        (c : Component) (datadir : Bytes) (w : W) (d : Component)
        → setups (library.setup c datadir w).1 d
          ≡ setups w d + (if (library.setup c datadir w).0 then one_if (same_component c d) else 0)
    pub parse_counts :
        (addr : Bytes) (w : W) (d : Component) → setups (library.parse addr w).1 d ≡ setups w d
    pub expand_counts :
        (addr : Bytes) (w : W) (d : Component) → setups (library.expand addr w).1 d ≡ setups w d

  -- Each part was set up as often as its flag says, and the lock is not poisoned.
  abbrev pub SetUpOnce : Process W → Type 0
  SetUpOnce p =
      (p.poisoned ≡ false)
      × ((d : Component) → setups p.world d ≡ one_if (is_initialized d p.state))

  -- The same, before a part is set up.
  abbrev Before : Component → Process W → Type 0
  Before c p = SetUpOnce p × (is_initialized c p.state ≡ false)

  probe_paths-Safe :
      (c : Component) (paths : List Text) → Safe (Before c) (λ d. Unit) (probe_paths library paths)
  unfolding probe_paths
  probe_paths-Safe c [] = record { at = λ p i. (i, tt) }
  probe_paths-Safe c (path ∷ paths) = record {
    at = λ p i. elim (Bool-cases (has_data library p.world path)) [
      | inl e ↦ rw e (i, tt)
      | inr e ↦ rw e ((probe_paths-Safe c paths).at p i)
    ];
  }

  probe_data_directory-Safe :
      (c : Component) → Safe (Before c) (λ d. Unit) (probe_data_directory library)
  unfolding probe_data_directory
  probe_data_directory-Safe c = record {
    at = λ p i. elim (Option-cases p.data_directory) [
      | inl e ↦ rw (probe_data_directory, e) ((probe_paths-Safe c data_dir_paths).at p i)
      | inr (path, e) ↦ rw (probe_data_directory, e) (i, tt)
    ];
  }

  path_as_c_string-Ensures : (path : Text) → Ensures (λ d. Unit) (path_as_c_string path)
  unfolding path_as_c_string
  path_as_c_string-Ensures path = elim (Bool-cases (contains_char 0 path)) [
    | inl e ↦ rw e tt
    | inr e ↦ rw e tt
  ]

  call_setup-SetUpOnce :
      (c : Component) (datadir : Bytes) (p : Process W)
      → Counted
      → Before c p
      → SetUpOnce (call_setup library c datadir p).1
        × Ensures (λ u. Unit) (call_setup library c datadir p).0
  unfolding call_setup
  call_setup-SetUpOnce c datadir p counted ((clean, once), off) =
      elim (Bool-cases (library.setup c datadir p.world).0) [
        | inl e ↦ rw e (
          (
            clean,
            λ d.
                (rw e at (counted.counts c datadir p.world d))
                ∙ ap (λ n. n + one_if (same_component c d)) (once d)
                ∙ one_if-set c d p.state off,
          ),
          tt,
        )
        | inr e ↦
            rw e (
              (clean, λ d. omega (arith, rw e at (counted.counts c datadir p.world d), once d)),
              tt,
            )
      ]

  -- From any state, a call leaves each part set up as often as its flag says.
  pub initialize-Safe :
      (c : Component) → Counted → Safe SetUpOnce (λ u. Unit) (initialize library c)
  unfolding initialize set_up
  initialize-Safe c counted = record {
    at = λ p i. elim (Bool-cases (is_initialized c p.state)) [
      | inl e ↦ rw e (i, tt)
      | inr e ↦ rw e (
          Safe-bind_weaken (λ d. Unit) (λ u. Unit) (probe_data_directory library) _ p (i, e)
            (probe_data_directory-Safe c) (λ q j. j.0)
            λ datadir u q j.
              Safe-bind_weaken (λ d. Unit) (λ u. Unit) (lift (path_as_c_string datadir)) _ q j
                (Safe-lift _ (path_as_c_string-Ensures datadir)) (λ q' j'. j'.0)
                λ bytes u' q' j'. call_setup-SetUpOnce c bytes q' counted j')
    ];
  }
