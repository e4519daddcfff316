-- ===== src/Exec/Results.antt =====
-- shared/valstat.ts: a chain of calls that stops at the first status other than Success.
use diplomatic.Exec.{ValStat, diverged, err, ok, thrown}
use diplomatic.Base.{Option, ap, none, refl, some, ◌≡◌}
use diplomatic.Consts.{Status}

module _ {ℓ} {A B : Type ℓ} where
  infixl 10 ◌>>=◌
  abbrev pub ◌>>=◌ : ValStat A → (A → ValStat B) → ValStat B
  ok a >>= f = f a
  err s >>= f = err s
  thrown >>= f = thrown
  diverged >>= f = diverged

-- `try { return ok(…); } catch { return err(status); }`, where `none` is a call that throws.
abbrev pub or_status : {A : Type 0} → Status → Option A → ValStat A
or_status status none = err status
or_status status (some a) = ok a

-- A chain that succeeds succeeds in its first call, and in the rest on its value.
pub bind_ok :
    {A B : Type 0} (r : ValStat A) (f : A → ValStat B) (b : B)
    → (r >>= f) ≡ ok b
    → (a : A) × (r ≡ ok a) × (f a ≡ ok b)
bind_ok (ok a) f b e = (a, refl, e)
bind_ok (err s) f b e = cc
bind_ok thrown f b e = cc
bind_ok diverged f b e = cc

pub or_status_ok :
    {A : Type 0} (status : Status) (r : Option A) (a : A) → or_status status r ≡ ok a → r ≡ some a
or_status_ok status none a e = cc
or_status_ok status (some b) a e = ap some (cc e)

pub ok_injective : {A : Type 0} (a b : A) → ok a ≡ ok b → a ≡ b
ok_injective a b e = ap (λ (r : ValStat _). elim r [ ok x ↦ x | _ ↦ a ]) e
