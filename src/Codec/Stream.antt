-- ===== src/Codec/Stream.antt =====
-- What a `Read` takes from a decoder and what a `Write` leaves in an encoder, with one rule for each
-- primitive and one for a sequence of two, so that a codec's round trip follows its code.
use diplomatic.Base.{
  Bool, List, [], append-nil, append_assoc, arith, concat, concat-append, drop-append, false,
  length, length-append, ltb, refl, sym, take-append, true, ℕ, ◌++◌, ◌+◌, ◌<◌, ◌^◌, ◌∷◌, ◌≡◌, ◌≤◌,
}
use diplomatic.Base.Int.{negsuc, pos, pos_part, ℤ}
use diplomatic.Codec.{
  Bytes, Date, Decoder, Encoder, Read, Write, invalid_date, max_time, new_date, num, numeric,
  read_bytes, read_date, read_var_bytes, read_var_int, time, write_bytes, write_date,
  write_var_bytes, write_var_int,
}
use diplomatic.Codec.Septets.{encode_var_int-wire, var_int_wire}
use diplomatic.Codec.VarInt.{decode_var_int-wire}
use diplomatic.Consts.{Status}
use diplomatic.Exec.{ValStat, check, ignore, lift, modify, ok, pure, ◌>>=◌, ◌>>◌}
use mathlib.Core.Path.{subst}

-- A decoder that has read `pre` and has `rest` before it.
abbrev pub at : Bytes → Bytes → Decoder
at pre rest = record { input = pre ++ rest; pos = length pre }

-- `m` takes exactly `bs` and returns `x`, wherever it starts and whatever follows.
pub record Reads {A : Type 0} (m : Read A) (bs : Bytes) (x : A) : Type 0 where
  pub run : (pre rest : Bytes) → m (at pre (bs ++ rest)) ≡ (ok x, at (pre ++ bs) rest)

-- `w` succeeds and appends the parts `ps`.
pub record Writes (w : Write) (ps : List Bytes) : Type 0 where
  pub run : (enc : Encoder) → w enc ≡ (ok tt, record { parts = enc.parts ++ ps })

pub Reads-pure : {A : Type 0} (x : A) → Reads (pure x) [] x
unfolding pure
Reads-pure x = record { run = λ pre rest. rw append-nil }

pub Reads-bind :
    {A B : Type 0} {m : Read A} (f : A → Read B) {bs cs : Bytes} {x : A} {y : B}
    → Reads m bs x
    → Reads (f x) cs y
    → Reads (m >>= f) (bs ++ cs) y
unfolding ◌>>=◌
Reads-bind f {bs = bs} {cs = cs} r s = record {
  run = λ pre rest.
      rw
        (
          append_assoc bs cs rest,
          r.run pre (cs ++ rest),
          s.run (pre ++ bs) rest,
          append_assoc pre bs cs,
        )
        refl;
}

pub Reads-bytes : (bs : Bytes) (n : ℕ) → n ≡ length bs → Reads (read_bytes (pos n)) bs bs
unfolding read_bytes
Reads-bytes bs n e = record {
  run = λ pre rest.
      let fits : ltb (length (pre ++ (bs ++ rest))) (length pre + n) ≡ false =
        ground (arith, e, length-append pre (bs ++ rest), length-append bs rest) in
      rw
        (
          fits,
          drop-append pre (bs ++ rest),
          e,
          take-append bs rest,
          append_assoc pre bs rest,
          length-append pre bs,
        )
        refl;
}

pub Reads-var_int : (n : ℕ) → n < 2 ^ 53 → Reads read_var_int (var_int_wire n) (pos n)
unfolding read_var_int ◌>>=◌
Reads-var_int n h = record {
  run = λ pre rest.
      let small : numeric n ≡ num n = ground arith in
      rw
        (
          decode_var_int-wire n pre rest (omega arith),
          small,
          append_assoc pre (var_int_wire n) rest,
          length-append pre (var_int_wire n),
        )
        refl;
}

-- The integers that a double holds exactly, and the dates that a varint carries.
abbrev pub IsSafe : ℤ → Type 0
IsSafe (pos n) = n < 2 ^ 53
IsSafe (negsuc n) = ⊥

abbrev pub IsTime : Date → Type 0
IsTime (time (pos n)) = n ≤ max_time
IsTime _ = ⊥

abbrev pub int_wire : ℤ → Bytes
int_wire z = var_int_wire (pos_part z)

abbrev pub date_wire : Date → Bytes
date_wire (time z) = int_wire z
date_wire invalid_date = []

abbrev pub var_bytes_wire : Bytes → Bytes
var_bytes_wire bs = var_int_wire (length bs) ++ bs

pub Reads-int : (z : ℤ) → IsSafe z → Reads read_var_int (int_wire z) z
Reads-int (pos n) h = Reads-var_int n h
Reads-int (negsuc n) h = absurd h

-- The last step of a chain reads nothing.
pub Reads-last :
    {A B : Type 0} {m : Read A} (f : A → Read B) {bs : Bytes} {x : A} {y : B}
    → Reads m bs x
    → Reads (f x) [] y
    → Reads (m >>= f) bs y
Reads-last {B = B} {m = m} f {bs = bs} {y = y} r s =
    subst (λ cs. Reads {A = B} (m >>= f) cs y) (append-nil bs) (Reads-bind f r s)

pub Reads-date : (d : Date) → IsTime d → Reads read_date (date_wire d) d
unfolding read_date
Reads-date (time (pos n)) h =
    let valid : new_date (pos n) ≡ time (pos n) = ground arith in
    Reads-last _ (Reads-var_int n (omega arith))
      (subst (λ (t : Date). Reads (pure (new_date (pos n))) [] t) valid (Reads-pure _))
Reads-date (time (negsuc n)) h = absurd h
Reads-date invalid_date h = absurd h

pub Reads-var_bytes :
    (bs : Bytes) → length bs < 2 ^ 53 → Reads read_var_bytes (var_bytes_wire bs) bs
unfolding read_var_bytes
Reads-var_bytes bs h = Reads-bind _ (Reads-var_int (length bs) h) (Reads-bytes bs (length bs) refl)

-- The two parts of a var-bytes field stand side by side in a chain.
pub Reads-var_bytes-then :
    {B : Type 0} (f : Bytes → Read B) (bs : Bytes) {cs : Bytes} {y : B}
    → length bs < 2 ^ 53
    → Reads (f bs) cs y
    → Reads (read_var_bytes >>= f) (var_int_wire (length bs) ++ (bs ++ cs)) y
Reads-var_bytes-then f bs {cs = cs} {y = y} h r =
    subst (λ ds. Reads (read_var_bytes >>= f) ds y) (append_assoc (var_int_wire (length bs)) bs cs)
      (Reads-bind f (Reads-var_bytes bs h) r)

-- A structure inside another one brings its list of parts.
pub Reads-parts :
    {A B : Type 0} {m : Read A} (f : A → Read B) (ps qs : List Bytes) {x : A} {y : B}
    → Reads m (concat ps) x
    → Reads (f x) (concat qs) y
    → Reads (m >>= f) (concat (ps ++ qs)) y
Reads-parts {B = B} {m = m} f ps qs {y = y} r s =
    subst (λ bs. Reads {A = B} (m >>= f) bs y) (sym (concat-append ps qs)) (Reads-bind f r s)

pub Reads-lift : {A : Type 0} (r : ValStat A) {x : A} → r ≡ ok x → Reads (lift r) [] x
unfolding lift
Reads-lift r e = record { run = λ pre rest. rw (e, append-nil) refl }

pub Reads-check : (b : Bool) (s : Status) → b ≡ true → Reads (check b s) [] tt
unfolding check
Reads-check b s e = record { run = λ pre rest. rw (e, append-nil) refl }

pub Writes-check : (b : Bool) (s : Status) → b ≡ true → Writes (check b s) []
unfolding check
Writes-check b s e = record { run = λ enc. rw (e, append-nil) refl }

pub Writes-pure : Writes (pure tt) []
unfolding pure
Writes-pure = record { run = λ enc. rw append-nil }

pub Writes-then :
    {v w : Write} {ps qs : List Bytes} → Writes v ps → Writes w qs → Writes (v >> w) (ps ++ qs)
unfolding ◌>>=◌
Writes-then {ps = ps} {qs = qs} r s = record {
  run = λ enc.
      rw (r.run enc, s.run (record { parts = enc.parts ++ ps }), append_assoc enc.parts ps qs) refl;
}

pub Writes-ignore : {w : Write} {ps : List Bytes} → Writes w ps → Writes (ignore w) ps
unfolding ignore
Writes-ignore r = record { run = λ enc. rw (r.run enc) }

pub Writes-bytes : (bs : Bytes) → Writes (write_bytes bs) (bs ∷ [])
unfolding write_bytes modify
Writes-bytes bs = record { run = λ enc. refl }

pub Writes-var_int : (n : ℕ) → n < 2 ^ 56 → Writes (write_var_int (pos n)) (var_int_wire n ∷ [])
unfolding write_var_int write_bytes ◌>>=◌
Writes-var_int n h = record { run = λ enc. rw (encode_var_int-wire n h) refl }

pub Writes-int : (z : ℤ) → IsSafe z → Writes (write_var_int z) (int_wire z ∷ [])
Writes-int (pos n) h = Writes-var_int n (omega arith)
Writes-int (negsuc n) h = absurd h

pub Writes-date : (d : Date) → IsTime d → Writes (write_date d) (date_wire d ∷ [])
unfolding write_date
Writes-date (time (pos n)) h = Writes-var_int n (omega arith)
Writes-date (time (negsuc n)) h = absurd h
Writes-date invalid_date h = absurd h

pub Writes-var_bytes :
    (bs : Bytes)
    → length bs < 2 ^ 53
    → Writes (write_var_bytes bs) (var_int_wire (length bs) ∷ bs ∷ [])
unfolding write_var_bytes
Writes-var_bytes bs h = Writes-then (Writes-var_int (length bs) (omega arith)) (Writes-bytes bs)
