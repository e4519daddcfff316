-- ===== src/Codec/VarInt.antt =====
-- `decode_var_int`: what it reads back, and its bounds on any input.
use Prim.Native.Nat.{bit_and, bit_or}
use diplomatic.Base.{
  Bool-cases, [], ap, arith, drop, drop-append, inl, inr, length, length-drop, ltb, ltb→lt, suc,
  true, zero, ℕ, ◌%◌, ◌*◌, ◌++◌, ◌+◌, ◌/◌, ◌<◌, ◌^◌, ◌∙◌, ◌∷◌, ◌≡◌, ◌≢◌, ◌≤◌,
}
use diplomatic.Base.Bits.{bit_and-0x7f, bit_and-top, bit_or-shifted}
use diplomatic.Codec.{Bytes, Parsed, decode_loop, decode_var_int, numeric, result}
use diplomatic.Codec.Septets.{base128, var_int_wire}
use diplomatic.Exec.{diverged, ok, thrown}
use mathlib.Core.Path.{ap₂}
use native.Mathlib.Nat.{div-add-mod, pow-suc}
use native.Mathlib.Numerals.{towards_suc}

shift_seven : (s : ℕ) → 2 ^ (s + 7) ≡ 128 * 2 ^ s
shift_seven s = simp towards_suc (omega arith)

-- One round of the loop on a last byte, and on a byte with the top bit set over the group `g`.
decode_last :
    (w result shift read : ℕ) (rest : Bytes)
    → w < 128
    → result < 2 ^ shift
    → read < 8
    → decode_loop (w ∷ rest) result shift read
      ≡ ok (record { value = numeric (result + w * 2 ^ shift); bytes_read = read + 1 })
unfolding decode_loop
decode_last w result shift read rest hw hr h8 =
    let low : bit_and w 0x7f ≡ w = rw (bit_and-0x7f w) (omega arith) in
    let top : bit_and w 0x80 ≡ 0 = rw (bit_and-top w (omega arith)) (omega arith) in
    rw (low, top, bit_or-shifted shift result w hr) (ground arith)

decode_inner :
    (g result shift read : ℕ) (rest : Bytes)
    → g < 128
    → result < 2 ^ shift
    → shift + 7 < 56
    → decode_loop ((g + 128) ∷ rest) result shift read
      ≡ decode_loop rest (result + g * 2 ^ shift) (shift + 7) (read + 1)
unfolding decode_loop
decode_inner g result shift read rest hg hr hs =
    let low : bit_and (g + 128) 0x7f ≡ g = rw (bit_and-0x7f (g + 128)) (omega arith) in
    let top : bit_and (g + 128) 0x80 ≡ 128 =
      rw (bit_and-top (g + 128) (omega arith)) (omega arith) in
    rw (low, top, bit_or-shifted shift result g hr) (ground arith)

-- The lowest group of `n` and the rest, both shifted by `s`.
split_group : (n s : ℕ) → n * 2 ^ s ≡ n % 128 * 2 ^ s + n / 128 * 2 ^ (s + 7)
split_group n s = omega (
  arith,
  ap (λ (t : ℕ). t * 2 ^ s) (div-add-mod n 128),
  ap (λ (t : ℕ). n / 128 * t) (shift_seven s),
)

group_below : (g result s : ℕ) → g < 128 → result < 2 ^ s → result + g * 2 ^ s < 2 ^ (s + 7)
group_below g result s hg hr = grind (arith, shift_seven s)

-- `n` is what is still to be read, and it counts from bit `shift` on.
decode_loop-base128 :
    (k n result shift read : ℕ) (rest : Bytes)
    → n < 128 ^ suc k
    → result < 2 ^ shift
    → shift + 7 * k < 56
    → read + k < 8
    → decode_loop (base128 (suc k) n ++ rest) result shift read
      ≡ ok (record {
        value = numeric (result + n * 2 ^ shift);
        bytes_read = read + length (base128 (suc k) n);
      })
unfolding base128
decode_loop-base128 zero n result shift read rest hn hr hs h8 =
    let small : ltb n 128 ≡ true = ground arith in
    rw small (decode_last n result shift read rest (omega arith) hr (omega arith))
decode_loop-base128 (suc k) n result shift read rest hn hr hs h8 = elim (Bool-cases (ltb n 128)) [
  | inl small ↦
      rw small (decode_last n result shift read rest (ltb→lt n 128 small) hr (omega arith))
  | inr large ↦
      let more = base128 (suc k) (n / 128) in
      let below = group_below (n % 128) result shift (omega arith) hr in
      let ih =
        decode_loop-base128 k (n / 128) (result + n % 128 * 2 ^ shift) (shift + 7) (read + 1) rest
          (omega (arith, pow-suc 128 (suc k))) below (omega arith) (omega arith) in
      rw large (
        decode_inner (n % 128) result shift read (more ++ rest) (omega arith) hr (omega arith)
        ∙ ih
        ∙ ap₂ (λ v r. ok (record { value = numeric v; bytes_read = r }))
            (omega (arith, split_group n shift)) (omega arith))
]

-- Reading from an encoding gives the number back and says how many bytes it took.
pub decode_var_int-wire :
    (n : ℕ) (pre rest : Bytes)
    → n < 2 ^ 56
    → decode_var_int (pre ++ (var_int_wire n ++ rest)) (length pre)
      ≡ ok (record { value = numeric n; bytes_read = length (var_int_wire n) })
unfolding decode_var_int
decode_var_int-wire n pre rest h = rw drop-append (
    decode_loop-base128 7 n 0 0 0 rest (omega arith) (omega arith) (omega arith) (omega arith)
    ∙ ap₂ (λ v r. ok (record { value = numeric v; bytes_read = r })) (omega arith) (omega arith))

-- A successful round of decoding takes the bytes that it counts.
decode_loop_bounds :
    (bytes : Bytes) (result shift read : ℕ) (p : Parsed)
    → shift ≡ 7 * read
    → decode_loop bytes result shift read ≡ ok p
    → (read < p.bytes_read) × (p.bytes_read ≤ 8) × (p.bytes_read ≤ read + length bytes)
unfolding decode_loop
decode_loop_bounds [] result shift read p hs e = cc
decode_loop_bounds (b ∷ bs) result shift read p hs e = ground (
  arith,
  decode_loop_bounds bs (bit_or result (bit_and b 0x7f * 2 ^ shift)) (shift + 7) (read + 1) p,
)

-- On any input, a successful decoding takes one to eight bytes, and they stand in the input.
pub decode_var_int_bounds :
    (bytes : Bytes) (offset : ℕ) (p : Parsed)
    → offset ≤ length bytes
    → decode_var_int bytes offset ≡ ok p
    → (0 < p.bytes_read) × (p.bytes_read ≤ 8) × (offset + p.bytes_read ≤ length bytes)
unfolding decode_var_int
decode_var_int_bounds bytes offset p h e = omega (
  arith,
  decode_loop_bounds (drop offset bytes) 0 0 0 p (omega arith) e,
  length-drop offset bytes,
)

-- Decoding ends with a value or a status on every input: no exception, no loop without an end.
decode_loop_settles :
    (bytes : Bytes) (result shift read : ℕ)
    → (decode_loop bytes result shift read ≢ thrown)
      × (decode_loop bytes result shift read ≢ diverged)
unfolding decode_loop
decode_loop_settles [] result shift read = (λ e. cc, λ e. cc)
decode_loop_settles (b ∷ bs) result shift read =
    let (t, d) =
      decode_loop_settles bs (bit_or result (bit_and b 0x7f * 2 ^ shift)) (shift + 7) (read + 1) in
    (λ e. ground arith, λ e. ground arith)

-- Decoding ends with a value or a status on every input and offset: no exception, no loop without an end.
pub decode_var_int_settles :
    (bytes : Bytes) (offset : ℕ)
    → (decode_var_int bytes offset ≢ thrown) × (decode_var_int bytes offset ≢ diverged)
unfolding decode_var_int
decode_var_int_settles bytes offset = decode_loop_settles (drop offset bytes) 0 0 0
