-- ===== src/Codec/Bounds.antt =====
-- The cursor of shared/codec.ts's Decoder after each read, on every outcome, and the end of its loops.
use diplomatic.Base.{
  Bool, Bool-cases, List, ap, arith, false, inl, inr, length, refl, suc, true, zero, ℕ, ◌<◌, ◌∙◌,
  ◌∷◌, ◌≡◌, ◌≢◌, ◌≤◌,
}
use diplomatic.Base.Int.{negsuc, pos, ℤ}
use diplomatic.Codec.{
  Codec, Decoder, Read, decode_var_int, done, read_bytes, read_date, read_rest, read_structs,
  read_until_done, read_var_bytes, read_var_int, remaining,
}
use diplomatic.Codec.Structs.{read_until_done-go, read_until_done-stop}
use diplomatic.Codec.VarInt.{decode_var_int_bounds, decode_var_int_settles}
use diplomatic.Consts.{Status}
use diplomatic.Exec.{ValStat, check, continue, diverged, err, fail, lift, ok, pure, thrown, ◌>>=◌}
use diplomatic.Exec.Laws.{Outcome, is_diverged, is_err, is_ok, is_thrown, outcome}

-- What holds of the decoder and the result after a step from `d`.
abbrev pub IsInside : {A : Type 0} → Decoder → ValStat A × Decoder → Type 0
IsInside d r = (r.1.input ≡ d.input) × (d.pos ≤ r.1.pos) × (r.1.pos ≤ length d.input)

pub record Bounded {A : Type 0} (m : Read A) : Type 0 where
  pub within : (d : Decoder) → d.pos ≤ length d.input → IsInside d (m d)
  pub settles : (d : Decoder) → d.pos ≤ length d.input → (m d).0 ≢ diverged

-- A success takes a byte at least.
pub record Advances {A : Type 0} (m : Read A) : Type 0 where
  pub inside : Bounded m
  pub progress :
      (d : Decoder) (x : A) → d.pos ≤ length d.input → (m d).0 ≡ ok x → d.pos < (m d).1.pos

pub Bounded-pure : {A : Type 0} (x : A) → Bounded (pure x)
unfolding pure
Bounded-pure x = record { within = λ d h. (refl, omega arith, h); settles = λ d h e. cc }

pub Bounded-fail : {A : Type 0} (s : Status) → Bounded (fail {A = A} s)
unfolding fail
Bounded-fail s = record { within = λ d h. (refl, omega arith, h); settles = λ d h e. cc }

pub Bounded-lift : {A : Type 0} (r : ValStat A) → r ≢ diverged → Bounded (lift r)
unfolding lift
Bounded-lift r n = record { within = λ d h. (refl, omega arith, h); settles = λ d h. n }

pub Bounded-check : (b : Bool) (s : Status) → Bounded (check b s)
unfolding check
Bounded-check true s = record { within = λ d h. (refl, omega arith, h); settles = λ d h e. cc }
Bounded-check false s = record { within = λ d h. (refl, omega arith, h); settles = λ d h e. cc }

within_continue :
    {A B : Type 0} (f : A → Read B) (d : Decoder) (r : ValStat A × Decoder)
    → ((x : A) → Bounded (f x))
    → IsInside d r
    → IsInside d (continue r f)
within_continue f d (ok x, d') bf h =
    let at_f = (bf x).within d' (omega (arith, h.2, ap length h.0)) in
    (at_f.0 ∙ h.0, omega (arith, at_f.1, h.1), omega (arith, at_f.2, ap length h.0))
within_continue f d (err e, d') bf h = h
within_continue f d (thrown, d') bf h = h
within_continue f d (diverged, d') bf h = h

settles_continue :
    {A B : Type 0} (f : A → Read B) (r : ValStat A × Decoder)
    → ((x : A) → Bounded (f x))
    → r.1.pos ≤ length r.1.input
    → r.0 ≢ diverged
    → (continue r f).0 ≢ diverged
settles_continue f (ok x, d') bf h n = (bf x).settles d' h
settles_continue f (err e, d') bf h n = λ p. cc
settles_continue f (thrown, d') bf h n = λ p. cc
settles_continue f (diverged, d') bf h n = absurd (n refl)

progress_continue :
    {A B : Type 0} (f : A → Read B) (d : Decoder) (r : ValStat A × Decoder) (y : B)
    → ((x : A) → Bounded (f x))
    → ((x : A) → r.0 ≡ ok x → d.pos < r.1.pos)
    → r.1.pos ≤ length r.1.input
    → (continue r f).0 ≡ ok y
    → d.pos < (continue r f).1.pos
progress_continue f d (ok x, d') y bf ahead h e =
    omega (arith, ((bf x).within d' h).1, ahead x refl)
progress_continue f d (err e, d') y bf ahead h p = cc
progress_continue f d (thrown, d') y bf ahead h p = cc
progress_continue f d (diverged, d') y bf ahead h p = cc

pub Bounded-bind :
    {A B : Type 0} (m : Read A) (f : A → Read B)
    → Bounded m
    → ((x : A) → Bounded (f x))
    → Bounded (m >>= f)
unfolding ◌>>=◌
Bounded-bind m f bm bf = record {
  within = λ d h. within_continue f d (m d) bf (bm.within d h);
  settles = λ d h.
      let i = bm.within d h in
      settles_continue f (m d) bf (omega (arith, i.2, ap length i.0)) (bm.settles d h);
}

pub Advances-bind :
    {A B : Type 0} (m : Read A) (f : A → Read B)
    → Advances m
    → ((x : A) → Bounded (f x))
    → Advances (m >>= f)
unfolding ◌>>=◌
Advances-bind m f am bf = record {
  inside = Bounded-bind m f am.inside bf;
  progress = λ d y h e.
      let i = am.inside.within d h in
      progress_continue f d (m d) y bf (λ x p. am.progress d x h p)
        (omega (arith, i.2, ap length i.0)) e;
}

module _ {A : Type 0} {m : Read A} (adv : Advances m) where
  -- What a round makes of the first read and of the rounds behind it.
  round_settles :
      (fuel : ℕ) (r : ValStat A × Decoder)
      → r.0 ≢ diverged
      → ((x : A) → r.0 ≡ ok x → (read_until_done fuel m r.1).0 ≢ diverged)
      → (continue r (λ x. read_until_done fuel m >>= λ xs. pure (x ∷ xs))).0 ≢ diverged
  unfolding ◌>>=◌
  round_settles fuel (ok x, d) nd ih = let more = read_until_done fuel m d in rest more (ih x refl)
    where
      rest :
          (s : ValStat (List A) × Decoder)
          → s.0 ≢ diverged
          → (continue s (λ xs. pure (x ∷ xs))).0 ≢ diverged
      rest (ok xs, d') n = λ e. cc
      rest (err e, d') n = λ e. cc
      rest (thrown, d') n = λ e. cc
      rest (diverged, d') n = n
  round_settles fuel (err e, d) nd ih = λ p. cc
  round_settles fuel (thrown, d) nd ih = λ p. cc
  round_settles fuel (diverged, d) nd ih = absurd (nd refl)

  -- With a round for each byte left the loop comes to its end.
  pub read_until_done-ne-diverged :
      (fuel : ℕ) (d : Decoder)
      → d.pos ≤ length d.input
      → remaining d ≤ fuel
      → (read_until_done fuel m d).0 ≢ diverged
  unfolding ◌>>=◌
  read_until_done-ne-diverged zero d h hf =
      let e : done d ≡ true = unfold done in ground arith in
      rw (read_until_done-stop m d 0 e) (λ p. cc)
  read_until_done-ne-diverged (suc fuel) d h hf = elim (Bool-cases (done d)) [
    | inl e ↦ rw (read_until_done-stop m d (suc fuel) e) (λ p. cc)
    | inr e ↦ rw (read_until_done-go m d fuel e) (
        round_settles fuel (m d) (adv.inside.settles d h) λ x p.
          let ahead = adv.progress d x h p in
          let inside = adv.inside.within d h in
          read_until_done-ne-diverged fuel (m d).1 (omega (arith, inside.2, ap length inside.0))
            (omega (arith, ahead, inside.2, ap length inside.0)))
  ]

-- The loop over the whole input ends for every codec whose `decode` takes a byte at least.
pub read_structs-ne-diverged :
    {A : Type 0} (c : Codec A) (d : Decoder)
    → Advances c.decode
    → d.pos ≤ length d.input
    → (read_structs c d).0 ≢ diverged
unfolding read_structs
read_structs-ne-diverged c d adv h = read_until_done-ne-diverged adv (remaining d) d h (omega arith)

pub Bounded-bytes : (n : ℤ) → Bounded (read_bytes n)
unfolding read_bytes
Bounded-bytes (negsuc n) = record { within = λ d h. (refl, omega arith, h); settles = λ d h e. cc }
Bounded-bytes (pos n) = record { within = λ d h. ground arith; settles = λ d h e. ground arith }

pub Advances-bytes : (n : ℕ) → 0 < n → Advances (read_bytes (pos n))
unfolding read_bytes
Advances-bytes n p = record { inside = Bounded-bytes (pos n); progress = λ d x h e. ground arith }

var_int_moves :
    (d : Decoder)
    → d.pos ≤ length d.input
    → Outcome (decode_var_int d.input d.pos)
    → IsInside d (read_var_int d)
unfolding read_var_int ◌>>=◌
var_int_moves d h (is_ok p e) =
    rw e (refl, omega arith, (decode_var_int_bounds d.input d.pos p h e).2)
var_int_moves d h (is_err s e) = rw e (refl, omega arith, h)
var_int_moves d h (is_thrown e) = rw e (refl, omega arith, h)
var_int_moves d h (is_diverged e) = rw e (refl, omega arith, h)

var_int_settles :
    (d : Decoder) → Outcome (decode_var_int d.input d.pos) → (read_var_int d).0 ≢ diverged
unfolding read_var_int ◌>>=◌
var_int_settles d (is_ok p e) = rw e (λ q. cc)
var_int_settles d (is_err s e) = rw e (λ q. cc)
var_int_settles d (is_thrown e) = rw e (λ q. cc)
var_int_settles d (is_diverged e) = absurd ((decode_var_int_settles d.input d.pos).1 e)

var_int_progress :
    (d : Decoder) (x : ℤ)
    → d.pos ≤ length d.input
    → Outcome (decode_var_int d.input d.pos)
    → (read_var_int d).0 ≡ ok x
    → d.pos < (read_var_int d).1.pos
unfolding read_var_int ◌>>=◌
var_int_progress d x h (is_ok p e) q =
    rw e (omega (arith, (decode_var_int_bounds d.input d.pos p h e).0))
var_int_progress d x h (is_err s e) q = cc (q, e)
var_int_progress d x h (is_thrown e) q = cc (q, e)
var_int_progress d x h (is_diverged e) q = cc (q, e)

pub Advances-var_int : Advances read_var_int
Advances-var_int = record {
  inside = record {
    within = λ d h. var_int_moves d h (outcome _);
    settles = λ d h. var_int_settles d (outcome _);
  };
  progress = λ d x h. var_int_progress d x h (outcome _);
}

pub Bounded-var_int : Bounded read_var_int
Bounded-var_int = Advances-var_int.inside

pub Advances-date : Advances read_date
unfolding read_date
Advances-date = Advances-bind _ _ Advances-var_int (λ n. Bounded-pure _)

pub Advances-var_bytes : Advances read_var_bytes
unfolding read_var_bytes
Advances-var_bytes = Advances-bind _ _ Advances-var_int Bounded-bytes

pub Bounded-var_bytes : Bounded read_var_bytes
Bounded-var_bytes = Advances-var_bytes.inside

pub Bounded-date : Bounded read_date
Bounded-date = Advances-date.inside

pub Bounded-rest : Bounded read_rest
unfolding read_rest
Bounded-rest = record { within = λ d h. (refl, h, omega arith); settles = λ d h e. cc }

pub ruleset bounded_rules = (
  Bounded-pure, Bounded-fail, Bounded-bind, Bounded-check, Bounded-bytes, Bounded-var_int,
  Bounded-var_bytes, Bounded-date, Bounded-rest,
)
