-- ===== src/Stores/Keys.antt =====
-- The keys of web/src/stores/cursor.ts, with a number in decimal as in a template string.
use diplomatic.Base.{
  All, Bool-cases, [], ap, arith, drop, false, if◌then◌else◌, inl, inr, ltb, refl, suc, sym, zero,
  ℕ, ◌%◌, ◌*◌, ◌++◌, ◌+◌, ◌-◌, ◌/◌, ◌∙◌, ◌∷◌, ◌≡◌, ◌≢◌, ◌≤◌,
}
use diplomatic.Base.Int.{negsuc, pos, ℤ}
use diplomatic.Base.Keyed.{bytes_key}
use diplomatic.Text.{Str}
use diplomatic.Wire.Kdm.{Kdm}
use mathlib.Core.Path.{ap₂}

-- `${n}`: one round for each digit but the first.
digits_of : ℕ → ℕ → Str
digits_of zero n = (48 + n) ∷ []
digits_of (suc fuel) n =
    let rest = digits_of fuel (n / 10) in
    if ltb n 10 then (48 + n) ∷ [] else rest ++ ((48 + n % 10) ∷ [])

pub decimal : ℕ → Str
unfolding digits_of
decimal n = digits_of n n

pub decimal_ℤ : ℤ → Str
decimal_ℤ (pos n) = decimal n
decimal_ℤ (negsuc n) = 45 ∷ decimal (suc n)

pub realm_key : Kdm → Str
realm_key realm = realm.label ++ (0 ∷ decimal_ℤ realm.index)

-- What a row of digits stands for.
abbrev value : ℕ → Str → ℕ
value acc [] = acc
value acc (c ∷ cs) = value (acc * 10 + (c - 48)) cs

value-append :
    (acc : ℕ) (cs : Str) (c : ℕ) → value acc (cs ++ (c ∷ [])) ≡ value acc cs * 10 + (c - 48)
value-append acc [] c = refl
value-append acc (d ∷ cs) c = value-append (acc * 10 + (d - 48)) cs c

digits_of-value : (fuel n : ℕ) → n ≤ fuel → value 0 (digits_of fuel n) ≡ n
unfolding digits_of
digits_of-value zero n h = omega arith
digits_of-value (suc fuel) n h = elim (Bool-cases (ltb n 10)) [
  | inl e ↦ rw e (omega arith)
  | inr e ↦
      rw
        (
          e,
          value-append 0 (digits_of fuel (n / 10)) (48 + n % 10),
          digits_of-value fuel (n / 10) (shorter n fuel e h),
        )
        (omega arith)
]
  where
    shorter : (n fuel : ℕ) → ltb n 10 ≡ false → n ≤ suc fuel → n / 10 ≤ fuel
    shorter n fuel e h = ground arith

-- Digits and the sign are characters from 45 on.
IsDigits : Str → Type 0
IsDigits cs = All (λ c. 45 ≤ c) cs

All-snoc : (cs : Str) (c : ℕ) → IsDigits cs → 45 ≤ c → IsDigits (cs ++ (c ∷ []))
unfolding IsDigits
All-snoc [] c h k = (k, tt)
All-snoc (d ∷ cs) c h k = (h.0, All-snoc cs c h.1 k)

digits_of-IsDigits : (fuel n : ℕ) → IsDigits (digits_of fuel n)
unfolding digits_of IsDigits
digits_of-IsDigits zero n = (omega arith, tt)
digits_of-IsDigits (suc fuel) n = elim (Bool-cases (ltb n 10)) [
  | inl e ↦ rw e (omega arith, tt)
  | inr e ↦
      rw e (All-snoc (digits_of fuel (n / 10)) _ (digits_of-IsDigits fuel (n / 10)) (omega arith))
]

decimal_ℤ-IsDigits : (i : ℤ) → IsDigits (decimal_ℤ i)
unfolding decimal_ℤ decimal IsDigits
decimal_ℤ-IsDigits (pos n) = digits_of-IsDigits n n
decimal_ℤ-IsDigits (negsuc n) = (omega arith, digits_of-IsDigits (suc n) (suc n))

decimal_injective : (m n : ℕ) → decimal m ≡ decimal n → m ≡ n
unfolding decimal
decimal_injective m n e =
    sym (digits_of-value m m (omega arith)) ∙ ap (value 0) e ∙ digits_of-value n n (omega arith)

abbrev first : Str → ℕ
first [] = 48
first (c ∷ cs) = c

first-snoc : (cs : Str) (c : ℕ) → 48 ≤ first cs → 48 ≤ c → 48 ≤ first (cs ++ (c ∷ []))
first-snoc [] c h k = k
first-snoc (d ∷ cs) c h k = h

first_digit : (fuel n : ℕ) → 48 ≤ first (digits_of fuel n)
unfolding digits_of
first_digit zero n = omega arith
first_digit (suc fuel) n = elim (Bool-cases (ltb n 10)) [
  | inl e ↦ rw e (omega arith)
  | inr e ↦ rw e (first-snoc (digits_of fuel (n / 10)) _ (first_digit fuel (n / 10)) (omega arith))
]

-- The first of the digits is no sign.
digits_of-head : (fuel n : ℕ) (cs : Str) → digits_of fuel n ≢ 45 ∷ cs
digits_of-head fuel n cs e = omega (arith, first_digit fuel n, ap first e)

decimal_ℤ_injective : (i j : ℤ) → decimal_ℤ i ≡ decimal_ℤ j → i ≡ j
unfolding decimal_ℤ decimal
decimal_ℤ_injective (pos m) (pos n) e = ap pos (decimal_injective m n e)
decimal_ℤ_injective (negsuc m) (negsuc n) e =
    let same : suc m ≡ suc n = decimal_injective (suc m) (suc n) (ap (drop 1) e) in
    ap negsuc (omega (arith, same))
decimal_ℤ_injective (pos m) (negsuc n) e = absurd (digits_of-head m m _ e)
decimal_ℤ_injective (negsuc m) (pos n) e = absurd (digits_of-head n n _ (sym e))

no_zero : (ys ds cs : Str) → IsDigits cs → cs ≢ ys ++ (0 ∷ ds)
unfolding IsDigits
no_zero [] ds [] h e = cc
no_zero (y ∷ ys) ds [] h e = cc
no_zero [] ds (c ∷ cs) h e = omega (arith, h.0, ap first e)
no_zero (y ∷ ys) ds (c ∷ cs) h e = no_zero ys ds cs h.1 (ap (drop 1) e)

-- The label ends at the last 0 of a key.
key_split :
    (xs ys cs ds : Str)
    → IsDigits cs
    → IsDigits ds
    → xs ++ (0 ∷ cs) ≡ ys ++ (0 ∷ ds)
    → (xs ≡ ys) × (cs ≡ ds)
unfolding IsDigits
key_split [] [] cs ds h k e = (refl, ap (drop 1) e)
key_split [] (y ∷ ys) cs ds h k e = absurd (no_zero ys ds cs h (ap (drop 1) e))
key_split (x ∷ xs) [] cs ds h k e = absurd (no_zero xs cs ds k (ap (drop 1) (sym e)))
key_split (x ∷ xs) (y ∷ ys) cs ds h k e =
    let (p, q) = key_split xs ys cs ds h k (ap (drop 1) e) in (ap₂ (λ c l. c ∷ l) (ap first e) p, q)

-- Two realms share a key only where they are one: same label, same index.
pub realm_key_injective : (a b : Kdm) → realm_key a ≡ realm_key b → a ≡ b
unfolding realm_key
realm_key_injective a b e =
    let (p, q) =
      key_split a.label b.label _ _ (decimal_ℤ-IsDigits a.index) (decimal_ℤ-IsDigits b.index) e in
    ap₂ (λ l i. record { label = l; index = i }) p (decimal_ℤ_injective a.index b.index q)
