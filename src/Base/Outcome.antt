-- ===== src/Base/Outcome.antt =====
-- What a call of fallible code comes to: a value, an `Err`, or a panic.
use Prim.Native.Nat.{ℕ}
use mathlib.Core.Path.{◌≡◌, refl}
use mathlib.Core.Bool.{Bool, true, false}
use mathlib.Core.Option.{Option, none, some}
use mathlib.Core.List.{List}
use geocode_csv.Base.Tests.{if◌then◌else◌}
use geocode_csv.Base.Text.{Text}

-- The errors that the source makes by `format_err!`, with what they report. `external` is an error
-- of a library or a service.
pub data Error : Type 0 where
  external : ℕ → Error
  duplicate_column_name : Text → Error
  duplicate_header_column : Text → Error
  missing_column : Text → Error
  index_too_large : ℕ → ℕ → Error
  index_appears_twice : ℕ → Error
  conflicting_columns : List Text → Error
  wrong_number_of_results : ℕ → ℕ → Error
  unknown_compression : ℕ → Error
  wrong_number_of_values : ℕ → ℕ → Error
  null_byte : Error
  null_byte_in_string : Text → Error
  invalid_structure : List Text → Error
  unexpected_value : List Text → Error
  http_status : ℕ → Error
  unexpected_family : Text → Error
  unexpected_qualifier : Text → Error
  unexpected_url : Text → Error
  unknown_name : Text → Error
  no_end_of_stream : Error
  channel_closed : Error
  stdio_failed : Error
  missing_header : Text → Error
  unexpected_header : Text → Text → Error
  initialization_failed : Text → Error
  no_data_dir : Error
  missing_variable : Text → Error

pub data Outcome {ℓ} (A : Type ℓ) : Type ℓ where
  ok : A → Outcome A
  err : Error → Outcome A
  panicked : Outcome A

-- The operator `?`: an error, or a panic, ends the function.
infixl 5 ◌>>=◌
abbrev pub ◌>>=◌ {ℓ κ} : {B : Type κ} {A : Type ℓ} → Outcome A → (A → Outcome B) → Outcome B
panicked >>= next = panicked
err x >>= next = err x
ok a >>= next = next a

-- `expect`, and indexing: a panic where there is no value.
abbrev pub expect {ℓ} : {A : Type ℓ} → Option A → Outcome A
expect none = panicked
expect (some a) = ok a

abbrev pub ok_or {ℓ} : {A : Type ℓ} → Option A → Error → Outcome A
ok_or none e = err e
ok_or (some a) e = ok a

-- What holds of a call that does not panic, whatever it returns.
abbrev pub Ensures {ℓ} : {A : Type ℓ} → (A → Type 0) → Outcome A → Type 0
Ensures P (ok a) = P a
Ensures P (err e) = Unit
Ensures P panicked = ⊥

pub forget : {A : Type 0} (Q : A → Type 0) (r : Outcome A) → Ensures Q r → Ensures (λ a. Unit) r
forget Q (ok a) h = tt
forget Q (err e) h = tt
forget Q panicked h = h

-- A bind that succeeds: its first part did, and so did the rest on what that part gave.
module _ {A B : Type 0} (next : A → Outcome B) {b : B} where
  pub both_ok :
      (first : Outcome A) → (first >>= next) ≡ ok b → (a : A) × (first ≡ ok a) × (next a ≡ ok b)
  both_ok panicked e = cc
  both_ok (err x) e = cc
  both_ok (ok a) e = (a, refl, e)

-- A contract of a bind, from contracts of its parts.
module _ {A B : Type 0} (P : A → Type 0) (Q : B → Type 0) where
  pub Ensures-bind :
      (m : Outcome A) (f : A → Outcome B)
      → Ensures P m
      → ((a : A) → P a → Ensures Q (f a))
      → Ensures Q (m >>= f)
  Ensures-bind (ok a) f p h = h a p
  Ensures-bind (err e) f p h = tt
  Ensures-bind panicked f p h = absurd p

-- What a call that does not panic returns is what it returns.
pub keep_ok : {A : Type 0} (r : Outcome A) → Ensures (λ a. Unit) r → Ensures (λ a. r ≡ ok a) r
keep_ok (ok a) h = refl
keep_ok (err e) h = tt
keep_ok panicked h = h

pub Ensures-if :
    {A : Type 0} (P : A → Type 0) (b : Bool) (m n : Outcome A)
    → Ensures P m
    → Ensures P n
    → Ensures P (if b then m else n)
Ensures-if P true m n h k = h
Ensures-if P false m n h k = k
