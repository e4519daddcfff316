-- ===== src/Checksum/Order.antt =====
-- The order of byte strings by which `checksumSet` of shared/checksum.ts sorts.
use diplomatic.Base.{
  ==_iff, Bool-cases, [], arith, inl, inr, length, refl, true, ℕ, ◌<◌, ◌==◌, ◌↔◌, ◌∷◌, ◌≡◌, ◌≤◌,
  ◌⊎◌,
}
use diplomatic.Base.Int.{pos, -ℤ_parts}
use diplomatic.Base.Sort.{IsOrder}
use diplomatic.Checksum.{cmp_bytes, in_order}
use diplomatic.Codec.{Bytes}
use mathlib.Core.Path.{ap₂}

-- The lexicographic order, where a prefix comes first.
abbrev Lex : Bytes → Bytes → Type 0
Lex [] bs = Unit {0}
Lex (a ∷ as') [] = ⊥
Lex (a ∷ as') (b ∷ bs) = (a < b) ⊎ ((a ≡ b) × Lex as' bs)

in_order_iff : (a b : Bytes) → (in_order a b ≡ true) ↔ Lex a b
unfolding in_order cmp_bytes
in_order_iff [] bs = let parts = -ℤ_parts (pos 0) (pos (length bs)) in (λ e. tt, λ e. ground arith)
in_order_iff (a ∷ as') [] =
    let parts = -ℤ_parts (pos (length (a ∷ as'))) (pos 0) in (λ e. ground arith, λ e. absurd e)
in_order_iff (a ∷ as') (b ∷ bs) =
    let rest = in_order_iff as' bs in
    let parts = -ℤ_parts (pos a) (pos b) in
    elim (Bool-cases (a == b)) [
      | inl e ↦
          rw e
            (λ f. inr ((==_iff a b).0 e, rest.0 f), λ l. rest.1 (behind a b ((==_iff a b).0 e) l))
      | inr e ↦ rw e (λ f. inl (ground arith), λ l. ground (arith, ahead a b l))
    ]
  where
    behind : (a b : ℕ) → a ≡ b → {P : Type 0} → (a < b) ⊎ ((a ≡ b) × P) → P
    behind a b e (inl l) = absurd (omega (arith, l, e))
    behind a b e (inr p) = p.1

    ahead : (a b : ℕ) → {P : Type 0} → (a < b) ⊎ ((a ≡ b) × P) → a ≤ b
    ahead a b (inl l) = omega (arith, l)
    ahead a b (inr p) = omega (arith, p.0)

Lex-total : (a b : Bytes) → Lex a b ⊎ Lex b a
Lex-total [] b = inl tt
Lex-total (a ∷ as') [] = inr tt
Lex-total (a ∷ as') (b ∷ bs) = ground (arith, Lex-total as' bs)

Lex-trans : (a b c : Bytes) → Lex a b → Lex b c → Lex a c
Lex-trans [] b c l k = tt
Lex-trans (a ∷ as') [] c l k = absurd l
Lex-trans (a ∷ as') (b ∷ bs) [] l k = absurd k
Lex-trans (a ∷ as') (b ∷ bs) (c ∷ cs) l k = ground (arith, Lex-trans as' bs cs)

Lex-antisym : (a b : Bytes) → Lex a b → Lex b a → a ≡ b
Lex-antisym [] [] l k = refl
Lex-antisym [] (b ∷ bs) l k = absurd k
Lex-antisym (a ∷ as') [] l k = absurd l
Lex-antisym (a ∷ as') (b ∷ bs) (inl l) (inl k) = absurd (omega (arith, l, k))
Lex-antisym (a ∷ as') (b ∷ bs) (inl l) (inr k) = absurd (omega (arith, l, k.0))
Lex-antisym (a ∷ as') (b ∷ bs) (inr l) (inl k) = absurd (omega (arith, l.0, k))
Lex-antisym (a ∷ as') (b ∷ bs) (inr l) (inr k) =
    ap₂ (λ x xs. x ∷ xs) l.0 (Lex-antisym as' bs l.1 k.1)

abbrev pub Always : Bytes → Type 0
Always b = Unit {0}

pub in_order-IsOrder : IsOrder in_order Always
in_order-IsOrder = record {
  total = λ x y px py e. elim (Lex-total x y) [
    | inl l ↦ cc (e, (in_order_iff x y).1 l)
    | inr l ↦ (in_order_iff y x).1 l
  ];
  trans = λ x y z px py pz e f.
      (in_order_iff x z).1 (Lex-trans x y z ((in_order_iff x y).0 e) ((in_order_iff y z).0 f));
}

pub in_order-antisym : (x y : Bytes) → in_order x y ≡ true → in_order y x ≡ true → x ≡ y
in_order-antisym x y e f = Lex-antisym x y ((in_order_iff x y).0 e) ((in_order_iff y x).0 f)
