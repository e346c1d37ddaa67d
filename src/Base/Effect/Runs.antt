-- ===== src/Base/Effect/Runs.antt =====
-- Effectful code that succeeds: so did its first part, and the rest on what that part gave.
use mathlib.Core.Path.{◌≡◌, refl, ap}
use geocode_csv.Base.Outcome.{Outcome, ok, err, panicked}
use geocode_csv.Base.Effect.{M, lift, proceed, ◌>>=◌}

module _ {W A B : Type 0} (next : A → M W B) {b : B} {w' : W} where
  proceed-both_ok :
      (r : Outcome A × W)
      → proceed r.0 next r.1 ≡ (ok b, w')
      → (a : A) × (u : W) × (r ≡ (ok a, u)) × (next a u ≡ (ok b, w'))
  proceed-both_ok (ok a, u) e = (a, u, refl, e)
  proceed-both_ok (err x, u) e = absurd cc
  proceed-both_ok (panicked, u) e = absurd cc

  pub bind-both_ok :
      (m : M W A) (w : W)
      → (m >>= next) w ≡ (ok b, w')
      → (a : A) × (u : W) × (m w ≡ (ok a, u)) × (next a u ≡ (ok b, w'))
  bind-both_ok m w e = proceed-both_ok (m w) e

pub lift-both_ok :
    {W A : Type 0} {a : A} {w' : W} (r : Outcome A) (w : W)
    → lift r w ≡ (ok a, w')
    → (r ≡ ok a) × (w ≡ w')
lift-both_ok r w h = (ap (λ p. p.0) h, ap (λ p. p.1) h)
