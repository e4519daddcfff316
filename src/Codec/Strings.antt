-- ===== src/Codec/Strings.antt =====
-- `readVarString`, `writeVarString` and their lists, from shared/codec.ts.
use diplomatic.Base.{
  All, List, [], append_assoc, arith, concat, length, length-append, not, refl, suc, zero, ℕ, ◌++◌,
  ◌<◌, ◌^◌, ◌||◌, ◌∷◌, ◌≤◌,
}
use diplomatic.Base.Int.{ltb_ℤ, pos, pos_part}
use diplomatic.Codec.Structs.{RoundTrip, round_trip}
use diplomatic.Codec.{
  Codec, Bytes, Read, Write, read_bytes, read_var_int, remaining, write_bytes, write_var_int,
}
use diplomatic.Codec.Bounds.{
  Advances, Advances-bind, Advances-var_int, Bounded, Bounded-bind, Bounded-bytes, Bounded-check,
  Bounded-pure,
}
use diplomatic.Codec.Septets.{length-base128, var_int_wire}
use diplomatic.Codec.Stream.{
  Reads, Reads-bind, Reads-bytes, Reads-check, Reads-last, Reads-pure, Reads-var_int, Writes,
  Writes-bytes, Writes-pure, Writes-then, Writes-var_int,
}
use diplomatic.Consts.{invalid_message}
use diplomatic.Exec.{check, ok, pure, query, ◌>>=◌, ◌>>◌}
use diplomatic.Text.{Str, utf8_decode, utf8_encode}
use diplomatic.Text.Utf8.{IsText, utf8_decode-utf8_encode}
use mathlib.Core.Path.{subst}

pub read_var_string : Read Str
read_var_string = do len ← read_var_int; bytes ← read_bytes len; pure (utf8_decode bytes)

pub write_var_string : Str → Write
write_var_string s = do
  let bytes = utf8_encode s
  write_var_int (pos (length bytes))
  write_bytes bytes
  pure tt

-- `for (let i = 0; i < n; i++)`
pub read_times : {A : Type 0} → ℕ → Read A → Read (List A)
read_times zero m = pure []
read_times (suc n) m = do x ← m; xs ← read_times n m; pure (x ∷ xs)

-- A count past the buffer is invalid.
pub read_var_strings : Read (List Str)
read_var_strings = do
  n ← read_var_int
  left ← query (λ d. ok (remaining d))
  check (not (ltb_ℤ n (pos 0) || ltb_ℤ (pos left) n)) invalid_message
  read_times (pos_part n) read_var_string

write_each : List Str → Write
write_each [] = pure tt
write_each (s ∷ strs) = do write_var_string s; write_each strs

pub write_var_strings : List Str → Write
unfolding write_each
write_var_strings strs = do write_var_int (pos (length strs)); write_each strs

-- A text that is shorter than 2 ^ 53 bytes in UTF-8.
pub record IsShort (s : Str) : Type 0 where
  pub text : IsText s
  pub size : length (utf8_encode s) < 2 ^ 53

pub Reads-var_string :
    (s : Str)
    → IsShort s
    → Reads read_var_string (var_int_wire (length (utf8_encode s)) ++ utf8_encode s) s
unfolding read_var_string
Reads-var_string s h = Reads-bind _ (Reads-var_int (length (utf8_encode s)) h.size) (
    Reads-last _ (Reads-bytes (utf8_encode s) _ refl) (
      subst (λ t. Reads (pure (utf8_decode (utf8_encode s))) [] t)
        (utf8_decode-utf8_encode s h.text) (Reads-pure _)))

pub Reads-var_string-then :
    {B : Type 0} (f : Str → Read B) (s : Str) {cs : Bytes} {y : B}
    → IsShort s
    → Reads (f s) cs y
    → Reads
        (read_var_string >>= f)
        (var_int_wire (length (utf8_encode s)) ++ (utf8_encode s ++ cs))
        y
Reads-var_string-then f s {cs = cs} {y = y} h r =
    subst (λ ds. Reads (read_var_string >>= f) ds y)
      (append_assoc (var_int_wire (length (utf8_encode s))) (utf8_encode s) cs)
      (Reads-bind f (Reads-var_string s h) r)

pub Writes-var_string :
    (s : Str)
    → IsShort s
    → Writes (write_var_string s) (var_int_wire (length (utf8_encode s)) ∷ utf8_encode s ∷ [])
unfolding write_var_string
Writes-var_string s h =
    Writes-then (Writes-var_int _ (omega (arith, h.size)))
      (Writes-then (Writes-bytes _) Writes-pure)

pub Advances-var_string : Advances read_var_string
unfolding read_var_string
Advances-var_string =
    Advances-bind _ _ Advances-var_int
      (λ n. Bounded-bind _ _ (Bounded-bytes n) (λ b. Bounded-pure _))

pub Bounded-times : {A : Type 0} (n : ℕ) (m : Read A) → Bounded m → Bounded (read_times n m)
unfolding read_times
Bounded-times zero m h = Bounded-pure []
Bounded-times (suc n) m h =
    let more = Bounded-times n m h in
    Bounded-bind _ _ h (λ x. Bounded-bind _ _ more (λ xs. Bounded-pure _))

Bounded-remaining : Bounded (query (λ d. ok (remaining d)))
unfolding query
Bounded-remaining = record { within = λ d h. (refl, omega arith, h); settles = λ d h e. cc }

pub Advances-var_strings : Advances read_var_strings
unfolding read_var_strings
Advances-var_strings = Advances-bind _ _ Advances-var_int λ n.
    Bounded-bind _ _ Bounded-remaining λ left.
      Bounded-bind _ _ (Bounded-check _ _)
        λ _. Bounded-times (pos_part n) _ Advances-var_string.inside

abbrev pub strings_wire : List Str → List Bytes
strings_wire [] = []
strings_wire (s ∷ strs) = var_int_wire (length (utf8_encode s)) ∷ utf8_encode s ∷ strings_wire strs

Writes-each : (strs : List Str) → All IsShort strs → Writes (write_each strs) (strings_wire strs)
unfolding write_each
Writes-each [] h = Writes-pure
Writes-each (s ∷ strs) (h, hs) = Writes-then (Writes-var_string s h) (Writes-each strs hs)

pub Writes-var_strings :
    (strs : List Str)
    → length strs < 2 ^ 53
    → All IsShort strs
    → Writes (write_var_strings strs) (var_int_wire (length strs) ∷ strings_wire strs)
unfolding write_var_strings
Writes-var_strings strs n h = Writes-then (Writes-var_int _ (omega arith)) (Writes-each strs h)

Reads-times :
    (strs : List Str)
    → All IsShort strs
    → Reads (read_times (length strs) read_var_string) (concat (strings_wire strs)) strs
unfolding read_times
Reads-times [] h = Reads-pure []
Reads-times (s ∷ strs) (h, hs) =
    Reads-var_string-then _ s h (Reads-last _ (Reads-times strs hs) (Reads-pure _))

-- Each string takes a byte at least, so the count is never past the buffer.
length-strings_wire : (strs : List Str) → length strs ≤ length (concat (strings_wire strs))
length-strings_wire [] = omega arith
length-strings_wire (s ∷ strs) = omega (
  arith,
  length-strings_wire strs,
  length-append (var_int_wire (length (utf8_encode s)))
      (utf8_encode s ++ concat (strings_wire strs)),
  length-append (utf8_encode s) (concat (strings_wire strs)),
  length-base128 8 (length (utf8_encode s)),
)

-- What is to be read is still there when the remaining bytes are counted.
pub Reads-remaining :
    {B : Type 0} (f : ℕ → Read B) {bs : Bytes} {y : B}
    → ((left : ℕ) → length bs ≤ left → Reads (f left) bs y)
    → Reads (query (λ d. ok (remaining d)) >>= f) bs y
unfolding ◌>>=◌
Reads-remaining f {bs = bs} r = record {
  run = λ pre rest.
      (r _ (omega (arith, length-append pre (bs ++ rest), length-append bs rest))).run pre rest;
}

pub Reads-var_strings :
    (strs : List Str)
    → length strs < 2 ^ 53
    → All IsShort strs
    → Reads read_var_strings (concat (var_int_wire (length strs) ∷ strings_wire strs)) strs
unfolding read_var_strings
Reads-var_strings strs n h = Reads-bind _ (Reads-var_int _ n) (
    Reads-remaining _ λ left fits.
      Reads-bind _ (Reads-check _ _ (ground (arith, length-strings_wire strs)))
        (Reads-times strs h))

-- `writeVarStrings` and `readVarStrings` as a codec.
abbrev pub var_strings_codec : Codec (List Str)
var_strings_codec = record { encode = write_var_strings; decode = read_var_strings }

-- A list of fewer than 2 ^ 53 strings comes back as written, where each is text that does not start with
-- U+FEFF and takes fewer than 2 ^ 53 bytes.
pub var_strings-RoundTrip :
    (strs : List Str) → length strs < 2 ^ 53 → All IsShort strs → RoundTrip var_strings_codec strs
var_strings-RoundTrip strs n h =
    round_trip {P = λ strs. (length strs < 2 ^ 53) × All IsShort strs}
      {wire = λ strs. var_int_wire (length strs) ∷ strings_wire strs}
      (record {
        writes = λ strs p. Writes-var_strings strs p.0 p.1;
        reads = λ strs p. Reads-var_strings strs p.0 p.1;
      })
      strs (n, h)
