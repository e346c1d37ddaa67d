-- ===== src/Base/Effect.antt =====
-- Effectful code: what it does to the world outside (the network, the stores, the libraries'
-- state), an unknown type `W`, and its outcome. What was done before an error or a panic stays done.
pub mod Safe
pub mod Runs
use geocode_csv.Base.Outcome.{Error, Outcome, ok, err, panicked}

abbrev pub M : Type 0 → Type 0 → Type 0
M W A = W → Outcome A × W

module _ {W A : Type 0} where
  abbrev pub pure : A → M W A
  pure a w = (ok a, w)

  abbrev pub raise : Error → M W A
  raise e w = (err e, w)

  abbrev pub lift : Outcome A → M W A
  lift r w = (r, w)

module _ {W A B : Type 0} where
  abbrev pub proceed : Outcome A → (A → M W B) → M W B
  proceed (ok a) f w = f a w
  proceed (err e) f w = (err e, w)
  proceed panicked f w = (panicked, w)

  infixl 5 ◌>>=◌
  abbrev pub ◌>>=◌ : M W A → (A → M W B) → M W B
  ◌>>=◌ m f w = proceed (m w).0 f (m w).1
