-- ===== src/Codec/Loops.antt =====
-- The cursor of the Decoder of shared/codec.ts after a loop over the whole input.
use diplomatic.Base.{
  Bool-cases, List, ap, arith, inl, inr, length, refl, suc, zero, ℕ, ◌∙◌, ◌∷◌, ◌≤◌,
}
use diplomatic.Codec.{Codec, Decoder, Read, done, read_structs, read_until_done, remaining}
use diplomatic.Codec.Bounds.{Advances, Bounded, IsInside, read_until_done-ne-diverged}
use diplomatic.Codec.Structs.{read_until_done-go, read_until_done-stop}
use diplomatic.Exec.{ValStat, continue, diverged, err, ok, pure, thrown, ◌>>=◌}

module _ {A : Type 0} {m : Read A} (b : Bounded m) where
  added :
      (d : Decoder) (x : A) (s : ValStat (List A) × Decoder)
      → IsInside d s
      → IsInside d (continue s (λ xs. pure (x ∷ xs)))
  unfolding pure
  added d x (ok xs, d') h = h
  added d x (err e, d') h = h
  added d x (thrown, d') h = h
  added d x (diverged, d') h = h

  round :
      (fuel : ℕ) (d : Decoder) (r : ValStat A × Decoder)
      → ((d' : Decoder) → d'.pos ≤ length d'.input → IsInside d' (read_until_done fuel m d'))
      → IsInside d r
      → IsInside d (continue r (λ x. read_until_done fuel m >>= λ xs. pure (x ∷ xs)))
  unfolding ◌>>=◌
  round fuel d (ok x, d') ih h =
      let i = added d' x (read_until_done fuel m d') (ih d' (omega (arith, h.2, ap length h.0))) in
      (i.0 ∙ h.0, omega (arith, i.1, h.1), omega (arith, i.2, ap length h.0))
  round fuel d (err e, d') ih h = h
  round fuel d (thrown, d') ih h = h
  round fuel d (diverged, d') ih h = h

  IsInside-until :
      (fuel : ℕ) (d : Decoder) → d.pos ≤ length d.input → IsInside d (read_until_done fuel m d)
  unfolding ◌>>=◌ read_until_done
  IsInside-until zero d h = elim (Bool-cases (done d)) [
    | inl e ↦ rw e (refl, omega arith, h)
    | inr e ↦ rw e (refl, omega arith, h)
  ]
  IsInside-until (suc fuel) d h = elim (Bool-cases (done d)) [
    | inl e ↦ rw (read_until_done-stop m d (suc fuel) e) (refl, omega arith, h)
    | inr e ↦
        rw (read_until_done-go m d fuel e) (round fuel d (m d) (IsInside-until fuel) (b.within d h))
  ]

pub Bounded-until :
    {A : Type 0} {m : Read A} → Advances m → Bounded (λ d. read_until_done (remaining d) m d)
Bounded-until adv = record {
  within = λ d h. IsInside-until adv.inside (remaining d) d h;
  settles = λ d h. read_until_done-ne-diverged adv (remaining d) d h (omega arith);
}

pub Bounded-structs : {A : Type 0} (c : Codec A) → Advances c.decode → Bounded (read_structs c)
unfolding read_structs
Bounded-structs c adv = Bounded-until adv
