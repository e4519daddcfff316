-- ===== src/Exec/Laws.antt =====
-- Facts about every chain of steps.
use diplomatic.Base.{refl, ◌≡◌}
use diplomatic.Exec.{ValStat, diverged, err, ok, thrown}

-- The value of a result, as a case split that keeps the equation.
pub data Outcome {ℓ} {A : Type ℓ} (r : ValStat A) : Type ℓ where
  is_ok : (a : A) → r ≡ ok a → Outcome r
  is_err : (e : _) → r ≡ err e → Outcome r
  is_thrown : r ≡ thrown → Outcome r
  is_diverged : r ≡ diverged → Outcome r

pub outcome {ℓ} : {A : Type ℓ} (r : ValStat A) → Outcome r
outcome (ok a) = is_ok a refl
outcome (err e) = is_err e refl
outcome thrown = is_thrown refl
outcome diverged = is_diverged refl
