-- ===== src/Base/Effect/Safe.antt =====
-- Contracts of effectful code: from each world that satisfies `Inv` a call does not panic, leaves a
-- world that satisfies `Inv`, and what it returns, if it returns, satisfies `Q`.
use mathlib.Core.Path.{◌≡◌, refl}
use mathlib.Core.Bool.{Bool, true, false}
use geocode_csv.Base.Tests.{if◌then◌else◌}
use geocode_csv.Base.Outcome.{Error, Outcome, ok, err, panicked, Ensures}
use geocode_csv.Base.Effect.{M, pure, raise, lift, proceed, ◌>>=◌}

pub record Safe {W A : Type 0} (Inv : W → Type 0) (Q : A → Type 0) (m : M W A) : Type 0 where
  pub at : (w : W) → Inv w → Inv (m w).1 × Ensures Q (m w).0

module _ {W A : Type 0} {Inv : W → Type 0} {Q : A → Type 0} where
  pub Safe-lift : (r : Outcome A) → Ensures Q r → Safe Inv Q (lift r)
  Safe-lift r h = record { at = λ w i. (i, h) }

  pub Safe-pure : (a : A) → Q a → Safe Inv Q (pure a)
  Safe-pure a h = record { at = λ w i. (i, h) }

  pub Safe-raise : (e : Error) → Safe Inv Q (raise e)
  Safe-raise e = record { at = λ w i. (i, tt) }

  pub Safe-if :
      (b : Bool) (m n : M W A)
      → (b ≡ true → Safe Inv Q m)
      → (b ≡ false → Safe Inv Q n)
      → Safe Inv Q (if b then m else n)
  Safe-if true m n sm sn = sm refl
  Safe-if false m n sm sn = sn refl

  pub Safe-weaken :
      {P : A → Type 0} (m : M W A) → ((a : A) → P a → Q a) → Safe Inv P m → Safe Inv Q m
  Safe-weaken {P} m f s = record { at = λ w i. ((s.at w i).0, weaken (m w).0 (s.at w i).1) }
    where
      weaken : (r : Outcome A) → Ensures P r → Ensures Q r
      weaken (ok a) h = f a h
      weaken (err e) h = tt
      weaken panicked h = h

module _ {W A B : Type 0} {Inv : W → Type 0} {P : A → Type 0} {Q : B → Type 0} where
  Safe-proceed :
      (r : Outcome A) (f : A → M W B) (w : W)
      → Inv w
      → Ensures P r
      → ((a : A) → P a → Safe Inv Q (f a))
      → Inv (proceed r f w).1 × Ensures Q (proceed r f w).0
  Safe-proceed (ok a) f w i p sf = (sf a p).at w i
  Safe-proceed (err e) f w i p sf = (i, tt)
  Safe-proceed panicked f w i p sf = absurd p

  pub Safe-bind :
      (m : M W A) (f : A → M W B)
      → Safe Inv P m
      → ((a : A) → P a → Safe Inv Q (f a))
      → Safe Inv Q (m >>= f)
  Safe-bind m f sm sf = record {
    at = λ w i. Safe-proceed (m w).0 f (m w).1 (sm.at w i).0 (sm.at w i).1 sf;
  }

-- A bind whose second part keeps a weaker invariant.
module _ {W A B : Type 0} {Inv Inv' : W → Type 0} (P : A → Type 0) (Q : B → Type 0) where
  proceed-weaken :
      (r : Outcome A) (f : A → M W B) (w : W)
      → Inv w
      → Ensures P r
      → ((u : W) → Inv u → Inv' u)
      → ((a : A) → P a → (u : W) → Inv u → Inv' (f a u).1 × Ensures Q (f a u).0)
      → Inv' (proceed r f w).1 × Ensures Q (proceed r f w).0
  proceed-weaken (ok a) f w i p weaken sf = sf a p w i
  proceed-weaken (err e) f w i p weaken sf = (weaken w i, tt)
  proceed-weaken panicked f w i p weaken sf = absurd p

  pub Safe-bind_weaken :
      (m : M W A) (f : A → M W B) (w : W)
      → Inv w
      → Safe Inv P m
      → ((u : W) → Inv u → Inv' u)
      → ((a : A) → P a → (u : W) → Inv u → Inv' (f a u).1 × Ensures Q (f a u).0)
      → Inv' ((m >>= f) w).1 × Ensures Q ((m >>= f) w).0
  Safe-bind_weaken m f w i sm weaken sf =
      proceed-weaken (m w).0 f (m w).1 (sm.at w i).0 (sm.at w i).1 weaken sf
