-- ===== src/Base/Bits.antt =====
-- Masks and shifts as arithmetic, at any width.
use Prim.Native.Nat.{
  bit_and, bit_and-bitwise, bit_or, bit_or-bitwise, digits, max, min, suc, zero, ℕ, ◌%◌, ◌*◌, ◌+◌,
  ◌/◌, ◌<◌, ◌^◌, ◌≤◌,
}
use mathlib.Core.Path.{ap, refl, ◌∙◌, ◌≡◌}
use native.Mathlib.Nat.{pow-suc}
use native.Mathlib.Omega.{arith}

-- The definition that the native `bit_or` stands for, with its count of digits free.
abbrev or_digits : ℕ → ℕ → ℕ → ℕ
or_digits n a b = digits (λ b. b) max n a b

shifted_suc : (s y : ℕ) → y * 2 ^ suc s ≡ 2 * (y * 2 ^ s)
shifted_suc s y = omega (arith, ap (λ (t : ℕ). y * t) (pow-suc 2 s))

-- A number below 2 ^ s and a multiple of 2 ^ s share no digit.
or_digits-disjoint : (n s a y : ℕ) → a ≤ n → a < 2 ^ s → or_digits n a (y * 2 ^ s) ≡ a + y * 2 ^ s
or_digits-disjoint zero s zero y p q = omega arith
or_digits-disjoint zero s (suc a) y p q = absurd (omega arith)
or_digits-disjoint (suc n) s zero y p q = omega arith
or_digits-disjoint (suc n) zero (suc a) y p q = absurd (omega arith)
or_digits-disjoint (suc n) (suc s) (suc a) y p q =
    let half : y * 2 ^ suc s / 2 ≡ y * 2 ^ s = omega (arith, shifted_suc s y) in
    let even : y * 2 ^ suc s % 2 ≡ 0 = omega (arith, shifted_suc s y) in
    rw (half, even)
      (omega
        (arith, or_digits-disjoint n s (suc a / 2) y (omega arith) (omega (arith, pow-suc 2 s))))

-- So `a | (y << s)` is a sum.
pub bit_or-shifted : (s a y : ℕ) → a < 2 ^ s → bit_or a (y * 2 ^ s) ≡ a + y * 2 ^ s
bit_or-shifted s a y h = bit_or-bitwise a (y * 2 ^ s) ∙ or_digits-disjoint a s a y (omega arith) h

-- A byte with its top bit free, and the bit set.
pub bit_or-top : (x : ℕ) → x < 128 → bit_or x 0x80 ≡ x + 128
bit_or-top x h = bit_or-shifted 7 x 1 (omega arith)

abbrev common_digits : ℕ → ℕ → ℕ → ℕ
common_digits n a b = digits (λ b. zero) min n a b

-- The mask `m` keeps the remainder by `p`, with any count of digits that is not below the operand.
Keeps : ℕ → ℕ → Type 0
Keeps m p = (n a : ℕ) → a ≤ n → common_digits n a m ≡ a % p

Keeps-none : Keeps 0 1
unfolding Keeps
Keeps-none zero zero h = refl
Keeps-none zero (suc a) h = absurd (omega arith)
Keeps-none (suc n) zero h = refl
Keeps-none (suc n) (suc a) h = omega (arith, Keeps-none n (suc a / 2) (omega arith))

-- One digit more.
Keeps-more :
    (m k p q : ℕ)
    → k / 2 ≡ m
    → k % 2 ≡ 1
    → ((a : ℕ) → a / 2 % p * 2 + a % 2 ≡ a % q)
    → Keeps m p
    → Keeps k q
unfolding Keeps
Keeps-more m k p q half odd split keep zero zero h = omega (arith, split 0)
Keeps-more m k p q half odd split keep zero (suc a) h = absurd (omega arith)
Keeps-more m k p q half odd split keep (suc n) zero h = omega (arith, split 0)
Keeps-more m k p q half odd split keep (suc n) (suc a) h =
    rw (half, odd) (omega (arith, split (suc a), keep n (suc a / 2) (omega arith)))

Keeps-seven : Keeps 127 128
Keeps-seven =
    Keeps-more 63 127 64 128 (omega arith) (omega arith) (λ a. omega arith)
      (Keeps-more 31 63 32 64 (omega arith) (omega arith) (λ a. omega arith)
        (Keeps-more 15 31 16 32 (omega arith) (omega arith) (λ a. omega arith)
          (Keeps-more 7 15 8 16 (omega arith) (omega arith) (λ a. omega arith)
            (Keeps-more 3 7 4 8 (omega arith) (omega arith) (λ a. omega arith)
              (Keeps-more 1 3 2 4 (omega arith) (omega arith) (λ a. omega arith)
                (Keeps-more 0 1 1 2 (omega arith) (omega arith) (λ a. omega arith) Keeps-none))))))

-- The mask 0x7f keeps the seven low digits.
pub bit_and-0x7f : (a : ℕ) → bit_and a 0x7f ≡ a % 128
unfolding Keeps
bit_and-0x7f a = bit_and-bitwise a 127 ∙ Keeps-seven a a (omega arith)

-- The mask `m` of one digit keeps that digit.
Picks : ℕ → Type 0
Picks m = (n a : ℕ) → a ≤ n → common_digits n a m ≡ a / m % 2 * m

Picks-more :
    (m k : ℕ)
    → k / 2 ≡ m
    → k % 2 ≡ 0
    → 0 / k % 2 * k ≡ 0
    → ((a : ℕ) → a / 2 / m % 2 * m * 2 ≡ a / k % 2 * k)
    → Picks m
    → Picks k
unfolding Picks
Picks-more m k half even none split pick zero zero h = omega (arith, none)
Picks-more m k half even none split pick zero (suc a) h = absurd (omega arith)
Picks-more m k half even none split pick (suc n) zero h = omega (arith, none)
Picks-more m k half even none split pick (suc n) (suc a) h =
    rw (half, even) (omega (arith, split (suc a), pick n (suc a / 2) (omega arith)))

Picks-one : Picks 1
unfolding Picks Keeps
Picks-one n a h =
    let low = Keeps-more 0 1 1 2 (omega arith) (omega arith) (λ a. omega arith) Keeps-none n a h in
    omega (arith, low)

Picks-top : Picks 128
Picks-top =
    Picks-more 64 128 (omega arith) (omega arith) (omega arith) (λ a. omega arith)
      (Picks-more 32 64 (omega arith) (omega arith) (omega arith) (λ a. omega arith)
        (Picks-more 16 32 (omega arith) (omega arith) (omega arith) (λ a. omega arith)
          (Picks-more 8 16 (omega arith) (omega arith) (omega arith) (λ a. omega arith)
            (Picks-more 4 8 (omega arith) (omega arith) (omega arith) (λ a. omega arith)
              (Picks-more 2 4 (omega arith) (omega arith) (omega arith) (λ a. omega arith)
                (Picks-more 1 2 (omega arith) (omega arith) (omega arith) (λ a. omega arith)
                  Picks-one))))))

pub bit_and-top : (x : ℕ) → x < 256 → bit_and x 0x80 ≡ x / 128 * 128
unfolding Picks
bit_and-top x h = bit_and-bitwise x 128 ∙ Picks-top x x (omega arith) ∙ omega arith
