-- ===== src/Base/Dict.antt =====
-- `HashMap` with keys that are strings or byte strings: an association list. A key that is
-- inserted again keeps its place. The iteration order of a `HashMap` is not specified: the order
-- of the list stands for whichever it is, and theorems about iteration hold for each.
use mathlib.Core.Path.{◌≡◌, refl}
use mathlib.Core.Bool.{Bool, false, ◌||◌}
use mathlib.Core.Option.{Option, none, some}
use mathlib.Core.List.{List, [], ◌∷◌}
use native.Mathlib.Omega.{arith}
use geocode_csv.Base.Tests.{if◌then◌else◌}
use geocode_csv.Base.Text.{Text, text_eq, text_eq_iff}

abbrev pub Dict {ℓ} : Type ℓ → Type ℓ
Dict V = List (Text × V)

module _ {ℓ} {V : Type ℓ} where
  -- `get`
  abbrev pub lookup : Text → Dict V → Option V
  lookup key [] = none
  lookup key ((k, value) ∷ entries) = if text_eq k key then some value else lookup key entries

  abbrev pub insert : Text → V → Dict V → Dict V
  insert key value [] = (key, value) ∷ []
  insert key value ((k, old) ∷ entries) =
      if text_eq k key then (key, value) ∷ entries else (k, old) ∷ insert key value entries

  pub lookup-insert :
      (entries : Dict V) (key other : Text) (value : V)
      → lookup other (insert key value entries)
        ≡ (if text_eq key other then some value else lookup other entries)
  lookup-insert [] key other value = refl
  lookup-insert ((k, old) ∷ entries) key other value = ground (
    arith,
    lookup-insert entries key other value,
    text_eq_iff k key,
    text_eq_iff k other,
    text_eq_iff key other,
  )

module _ {ℓ} {V : Type ℓ} where
  abbrev pub keys : Dict V → List Text
  keys [] = []
  keys ((k, v) ∷ m) = k ∷ keys m

-- Membership in a list or a `HashSet` of strings.
abbrev pub contains : List Text → Text → Bool
contains [] k = false
contains (j ∷ js) k = text_eq j k || contains js k
