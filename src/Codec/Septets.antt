-- ===== src/Codec/Septets.antt =====
-- What `encode_var_int` writes: the groups of seven bits, lowest first.
use Prim.Native.Nat.{bit_and, bit_or}
use diplomatic.Base.{
  Bool-cases, [], ap, arith, if◌then◌else◌, inl, inr, length, ltb, ltb→lt, refl, suc, zero, ℕ, ◌%◌,
  ◌+◌, ◌/◌, ◌<◌, ◌^◌, ◌∙◌, ◌∷◌, ◌≡◌, ◌≤◌,
}
use diplomatic.Base.Bits.{bit_and-0x7f, bit_or-top}
use diplomatic.Base.Int.{ltb_ℤ, negsuc, pos, pos_part, ℤ}
use diplomatic.Codec.{Byte, Bytes, checked, encode_var_int, septet_shrinks, septets}
use diplomatic.Consts.{invalid_param, var_limit_exceeded}
use diplomatic.Exec.{err, ok}
use mathlib.Core.Logic.{dif_neg, dif_pos}
use mathlib.Core.WellFounded.{Acc}
use native.Mathlib.Bridge.{le_prop}
use native.Mathlib.Decide.{dec_lt}
use native.Mathlib.Nat.{pow-suc}

-- At most `k` bytes for `n`: the top bit says that more follow.
unfoldable pub base128 : ℕ → ℕ → Bytes
base128 zero n = []
base128 (suc k) n =
    let rest = base128 k (n / 128) in if ltb n 128 then n ∷ [] else (n % 128 + 128) ∷ rest

-- The wire form of a number below 2 ^ 56.
abbrev pub var_int_wire : ℕ → Bytes
var_int_wire n = base128 8 n

inner_septet : (n : ℕ) → bit_or (bit_and n 0x7f) 0x80 ≡ n % 128 + 128
inner_septet n = rw bit_and-0x7f (bit_or-top (n % 128) (omega arith))

septets-zero : (n : ℕ) (w : Acc ◌<◌ n) → n ≡ 0 → septets n w ≡ []
unfolding septets
septets-zero n (Acc.intro _ smaller) h = dif_neg (dec_lt 0 n) (omega arith) _ _

septet_byte :
    (n : ℕ)
    → (if ltb 0 (n / 128) then bit_or (bit_and n 0x7f) 0x80 else bit_and n 0x7f)
      ≡ (if ltb n 128 then n else n % 128 + 128)
septet_byte n = ground (arith, bit_and-0x7f n, inner_septet n)

-- One round of the loop, in plain arithmetic.
septets_step :
    (n : ℕ) (w : Acc ◌<◌ n)
    → 0 < n
    → (v : Acc ◌<◌ (n / 128)) × (septets n w
        ≡ (if ltb n 128 then n else n % 128 + 128) ∷ septets (n / 128) v)
unfolding septets
septets_step n (Acc.intro _ smaller) p =
    let v = smaller (n / 128) (septet_shrinks n p) in
    (
      v,
      dif_pos (dec_lt 0 n) le_prop p _ _
          ∙ ap (λ (b : Byte). b ∷ septets (n / 128) v) (septet_byte n),
    )

septets-base128 : (k n : ℕ) (w : Acc ◌<◌ n) → 0 < n → n < 128 ^ k → septets n w ≡ base128 k n
unfolding base128
septets-base128 zero n w p q = absurd (omega arith)
septets-base128 (suc k) n w p q =
    let (v, e) = septets_step n w p in
    ground (arith, e, pow-suc 128 k, septets-zero (n / 128) v, septets-base128 k (n / 128) v)

pub length-base128 : (k n : ℕ) → 0 < k → (0 < length (base128 k n)) × (length (base128 k n) ≤ k)
unfolding base128
length-base128 zero n p = absurd (omega arith)
length-base128 (suc zero) n p = ground arith
length-base128 (suc (suc k)) n p = ground (arith, length-base128 (suc k) (n / 128))

pow_pos : (k : ℕ) → 0 < 128 ^ k
pow_pos zero = omega arith
pow_pos (suc k) = omega (arith, pow-suc 128 k, pow_pos k)

length-septets : (k n : ℕ) (w : Acc ◌<◌ n) → 128 ^ k ≤ n → k < length (septets n w)
length-septets zero n w q = let (v, e) = septets_step n w (omega arith) in rw e (omega arith)
length-septets (suc k) n w q =
    let room : 128 ^ k ≤ n / 128 = omega (arith, pow-suc 128 k) in
    let (v, e) = septets_step n w (omega (arith, pow-suc 128 k, pow_pos k)) in
    rw e (omega (arith, length-septets k (n / 128) v room))

checked-ok : (bs : Bytes) → 0 < length bs → length bs ≤ 8 → checked bs ≡ ok bs
checked-ok [] p q = absurd (omega arith)
checked-ok (b ∷ bs) p q = ground arith

checked-err : (bs : Bytes) → 8 < length bs → checked bs ≡ err var_limit_exceeded
checked-err [] q = absurd (omega arith)
checked-err (b ∷ bs) q = ground arith

checked-septets :
    (n : ℕ) (w : Acc ◌<◌ n)
    → 0 < n
    → checked (septets n w)
      ≡ (if ltb n (2 ^ 56) then ok (var_int_wire n) else err var_limit_exceeded)
checked-septets n w p = elim (Bool-cases (ltb n (2 ^ 56))) [
  | inl e ↦
      let (lo, hi) = length-base128 8 n (omega arith) in
      rw (e, septets-base128 8 n w p (ltb→lt _ _ e)) (checked-ok (base128 8 n) lo hi)
  | inr e ↦ rw e (checked-err (septets n w) (length-septets 8 n w (ground arith)))
]

-- The answer of `encode_var_int` on every integer: a negative one is refused, one of eight groups
-- at most is written, and any other is beyond the limit.
pub encode_var_int_total :
    (z : ℤ)
    → encode_var_int z ≡ (
        if ltb_ℤ z (pos 0)
        then err invalid_param
        else if ltb (pos_part z) (2 ^ 56)
        then ok (var_int_wire (pos_part z))
        else err var_limit_exceeded)
unfolding encode_var_int
encode_var_int_total (negsuc n) = ground arith
encode_var_int_total (pos zero) = unfold base128 in rw (septets-zero 0 _ refl)
encode_var_int_total (pos (suc n)) = checked-septets (suc n) _ (omega arith) ∙ ground arith

pub encode_var_int-wire : (n : ℕ) → n < 2 ^ 56 → encode_var_int (pos n) ≡ ok (var_int_wire n)
encode_var_int-wire n h = encode_var_int_total (pos n) ∙ ground arith
