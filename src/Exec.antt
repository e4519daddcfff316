-- ===== src/Exec.antt =====
-- shared/valstat.ts, and methods that change an object and report a status.
-- `ok a` is `[a, Status.Success]`, or `Status.Success` alone where the method returns no value, and
-- `err s` is a status other than Success. `thrown` is a JavaScript exception, and `diverged` is no
-- outcome of the program: a loop of the model ran out of fuel.
pub mod Laws
pub mod Results
pub mod Ends
use diplomatic.Base.{Bool, false, true}
use diplomatic.Consts.{Status}

pub data ValStat {ℓ} (A : Type ℓ) : Type ℓ where
  ok : A → ValStat A
  err : Status → ValStat A
  thrown : ValStat A
  diverged : ValStat A

-- The object that was changed before an error stays changed, so it comes back beside the error too.
abbrev pub Exec {ℓ} : Type ℓ → Type ℓ → Type ℓ
Exec S A = S → ValStat A × S

module _ {ℓ} {S A : Type ℓ} where
  unfoldable pub pure : A → Exec S A
  pure a s = (ok a, s)

  unfoldable pub fail : Status → Exec S A
  fail e s = (err e, s)

  unfoldable pub raise : Exec S A
  raise s = (thrown, s)

  unfoldable pub lift : ValStat A → Exec S A
  lift r s = (r, s)

  -- A computation that reads the object and leaves it alone.
  unfoldable pub query : (S → ValStat A) → Exec S A
  query f s = (f s, s)

abbrev pub Done : Type 0
Done = Unit {0}

unfoldable pub modify : {S : Type 0} → (S → S) → Exec S Done
modify f s = (ok tt, f s)

-- `if (!b) return status;`
unfoldable pub check : {S : Type 0} → Bool → Status → Exec S Done
check true status s = (ok tt, s)
check false status s = (err status, s)

abbrev pub settle : {S : Type 0} → ValStat Done × S → ValStat Done × S
settle (err e, s) = (ok tt, s)
settle r = r

-- The status of a step is ignored where the source makes the call a statement of its own.
-- An exception still ends the method.
unfoldable pub ignore : {S : Type 0} → Exec S Done → Exec S Done
ignore m s = settle (m s)

module _ {ℓ} {S A B : Type ℓ} where
  abbrev pub continue : ValStat A × S → (A → Exec S B) → ValStat B × S
  continue (ok a, s) f = f a s
  continue (err e, s) f = (err e, s)
  continue (thrown, s) f = (thrown, s)
  continue (diverged, s) f = (diverged, s)

  infixl 10 ◌>>=◌
  -- Opening this opens the steps that it joins too.
  unfoldable pub ◌>>=◌ : Exec S A → (A → Exec S B) → Exec S B
  unfolding pure fail raise lift query modify check ignore
  ◌>>=◌ m f s = continue (m s) f

infixl 10 ◌>>◌
abbrev pub ◌>>◌ : {S B : Type 0} → Exec S Done → Exec S B → Exec S B
m >> n = m >>= λ _. n
