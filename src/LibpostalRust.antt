-- ===== src/LibpostalRust.antt =====
-- crates/libpostal-rust: the wrapper of the C library libpostal. The library is a parameter, with
-- the file system that it and the probe read.
pub mod Init
pub mod Setup
pub mod Laws
use geocode_csv.Base.{ℕ, Bool, true, false, Option, List, [], ◌∷◌, ◌++◌, if◌then◌else◌}
use geocode_csv.Base.Text.{Text, contains_char, into_bytes}
use geocode_csv.Base.Dict.{Dict, insert}
use geocode_csv.Base.Outcome
use geocode_csv.Base.Outcome.{Outcome, ok, err, panicked, expect, null_byte_in_string}
use geocode_csv.Base.Effect.{M, lift, ◌>>=◌}
use geocode_csv.LibpostalRust.Init.{
  Bytes, Library, Process, initialize, base, parser, language_classifier,
}

-- `CString::new`
unfoldable pub c_string : Text → Outcome Bytes
unfolding into_bytes
c_string addr =
    if contains_char 0 addr then err (null_byte_in_string addr) else ok (into_bytes addr)

module _ {W : Type 0} (library : Library W) where
  -- `GLOBAL_LOCK.lock().expect("mutex poisoned")`, held for a call: a panic poisons the lock.
  abbrev pub poison_on_panic : {A : Type 0} → Outcome A × Process W → Outcome A × Process W
  poison_on_panic (ok a, p) = (ok a, p)
  poison_on_panic (err e, p) = (err e, p)
  poison_on_panic (panicked, p) = (panicked, record p { poisoned = true })

  unfoldable pub with_lock : {A : Type 0} → M (Process W) A → M (Process W) A
  with_lock body p = let run = poison_on_panic (body p) in if p.poisoned then (panicked, p) else run

  -- The components that the library found, into a `HashMap`.
  unfoldable pub read_components : List (Bytes × Bytes) → Dict Text → Outcome (Dict Text)
  read_components [] result = ok result
  read_components ((label, component) ∷ parsed) result =
      Outcome.◌>>=◌ (expect (library.to_str label)) λ label'.
        Outcome.◌>>=◌ (expect (library.to_str component))
          λ component'. read_components parsed (insert label' component' result)

  unfoldable pub read_expansions : List Bytes → List Text → Outcome (List Text)
  read_expansions [] result = ok result
  read_expansions (expansion ∷ expansions) result =
      Outcome.◌>>=◌ (expect (library.to_str expansion))
        λ expansion'. read_expansions expansions (result ++ (expansion' ∷ []))

  abbrev pub call_parse : Bytes → M (Process W) (List (Bytes × Bytes))
  call_parse addr p =
      let called = library.parse addr p.world in (ok called.0, record p { world = called.1 })

  abbrev pub call_expand : Bytes → M (Process W) (List Bytes)
  call_expand addr p =
      let called = library.expand addr p.world in (ok called.0, record p { world = called.1 })

  unfoldable pub parse_address : Text → M (Process W) (Dict Text)
  unfolding with_lock initialize c_string read_components
  parse_address addr = with_lock do
    base_ready ← initialize library base
    parser_ready ← initialize library parser
    addr' ← lift (c_string addr)
    parsed ← call_parse addr'
    lift (read_components parsed [])

  unfoldable pub expand_address : Text → M (Process W) (List Text)
  unfolding with_lock initialize c_string read_expansions
  expand_address addr = with_lock do
    base_ready ← initialize library base
    classifier_ready ← initialize library language_classifier
    addr' ← lift (c_string addr)
    expansions ← call_expand addr'
    lift (read_expansions expansions [])
