-- ===== src/Exec/Ends.antt =====
-- Chains of calls that come to an end, and the rules for one step.
-- From a state with `P` the step ends, in a state with `P`.
use diplomatic.Base.{Bool, false, refl, true, ◌≢◌}
use diplomatic.Consts.{Status}
use diplomatic.Exec.{
  Done, Exec, ValStat, check, continue, diverged, err, ignore, lift, ok, pure, raise, settle,
  thrown, ◌>>=◌,
}

pub record Ends {S A : Type 0} (P : S → Type 0) (m : Exec S A) : Type 0 where
  pub run : (s : S) → P s → ((m s).0 ≢ diverged) × P (m s).1

Ends-continue :
    {S A B : Type 0} {P : S → Type 0} (f : A → Exec S B) (r : ValStat A × S)
    → ((x : A) → Ends P (f x))
    → (r.0 ≢ diverged) × P r.1
    → ((continue r f).0 ≢ diverged) × P (continue r f).1
Ends-continue f (ok x, s) k (n, h) = (k x).run s h
Ends-continue f (err e, s) k (n, h) = ((λ p. cc), h)
Ends-continue f (thrown, s) k (n, h) = ((λ p. cc), h)
Ends-continue f (diverged, s) k (n, h) = absurd (n refl)

pub Ends-bind :
    {S A B : Type 0} {P : S → Type 0} (m : Exec S A) (f : A → Exec S B)
    → Ends P m
    → ((x : A) → Ends P (f x))
    → Ends P (m >>= f)
unfolding ◌>>=◌
Ends-bind m f e k = record { run = λ s h. Ends-continue f (m s) k (e.run s h) }

pub Ends-pure : {S A : Type 0} {P : S → Type 0} (x : A) → Ends P (pure x)
unfolding pure
Ends-pure x = record { run = λ s h. ((λ p. cc), h) }

pub Ends-lift : {S A : Type 0} {P : S → Type 0} (r : ValStat A) → r ≢ diverged → Ends P (lift r)
unfolding lift
Ends-lift r n = record { run = λ s h. (n, h) }

pub Ends-raise : {S A : Type 0} {P : S → Type 0} → Ends P (raise {S = S} {A = A})
unfolding raise
Ends-raise = record { run = λ s h. ((λ p. cc), h) }

pub Ends-check : {S : Type 0} {P : S → Type 0} (b : Bool) (e : Status) → Ends P (check b e)
unfolding check
Ends-check true e = record { run = λ s h. ((λ p. cc), h) }
Ends-check false e = record { run = λ s h. ((λ p. cc), h) }

abbrev pub AnyState : {S : Type 0} → S → Type 0
AnyState s = Unit {0}

pub Ends-alone : {S A : Type 0} (m : Exec S A) → ((s : S) → (m s).0 ≢ diverged) → Ends AnyState m
Ends-alone m h = record { run = λ s u. (h s, tt) }

pub Ends-ignore : {S : Type 0} (m : Exec S Done) → Ends AnyState m → Ends AnyState (ignore m)
unfolding ignore
Ends-ignore {S = S} m e = record { run = λ s u. go (m s) ((e.run s tt).0) }
  where
    go : (r : ValStat Done × S) → r.0 ≢ diverged → ((settle r).0 ≢ diverged) × Unit {0}
    go (ok x, s) n = ((λ p. cc), tt)
    go (err x, s) n = ((λ p. cc), tt)
    go (thrown, s) n = ((λ p. cc), tt)
    go (diverged, s) n = absurd (n refl)
