-- ===== src/Codec/Structs.antt =====
-- Sequences of structures: `write_structs` and `read_structs` of a lawful codec, and the termination
-- of the reading loop.
use diplomatic.Base.{
  All, List, [], ap, append-nil, append_assoc, arith, concat, concat-append, false, length,
  length-append, refl, suc, sym, true, zero, ℕ, ◌++◌, ◌-◌, ◌<◌, ◌∙◌, ◌∷◌, ◌≡◌, ◌≤◌,
}
use diplomatic.Codec.{
  Bytes, Codec, Decoder, Encoder, Read, decoder, done, new_encoder, prepend_bytes, read_structs,
  read_until_done, result, write_structs,
}
use diplomatic.Codec.Stream.{Reads, Writes, Writes-pure, Writes-then, at}
use diplomatic.Exec.{modify, ok, pure, ◌>>=◌}

-- A codec writes `wire x` for each `x` with `P x`, and reads it back.
pub record IsLawful {A : Type 0} (c : Codec A) (P : A → Type 0) (wire : A → List Bytes)
    : Type 0 where
  pub writes : (x : A) → P x → Writes (c.encode x) (wire x)
  pub reads : (x : A) → P x → Reads c.decode (concat (wire x)) x

-- What `encode` leaves in a new encoder.
abbrev pub encoding : {A : Type 0} → Codec A → A → Bytes
encoding c x = result (c.encode x new_encoder).1

-- Encoding succeeds, and decoding returns the value and stops behind its bytes, wherever they stand.
abbrev pub RoundTrip : {A : Type 0} → Codec A → A → Type 0
RoundTrip c x =
    ((c.encode x new_encoder).0 ≡ ok tt)
    × ((pre rest : Bytes)
        → c.decode (at pre (encoding c x ++ rest)) ≡ (ok x, at (pre ++ encoding c x) rest))

done-end : (pre : Bytes) → done (at pre []) ≡ true
unfolding done
done-end pre = rw append-nil (ground arith)

done-more : (pre bs : Bytes) → 0 < length bs → done (at pre bs) ≡ false
unfolding done
done-more pre bs h = ground (arith, length-append pre bs)

module _ {A : Type 0} (m : Read A) (d : Decoder) where
  pub read_until_done-stop : (fuel : ℕ) → done d ≡ true → read_until_done fuel m d ≡ (ok [], d)
  unfolding read_until_done
  read_until_done-stop zero h = rw h
  read_until_done-stop (suc fuel) h = rw (h, read_until_done)

  pub read_until_done-go :
      (fuel : ℕ)
      → done d ≡ false
      → read_until_done (suc fuel) m d
        ≡ (m >>= λ x. read_until_done fuel m >>= λ xs. pure (x ∷ xs)) d
  unfolding read_until_done
  read_until_done-go fuel h = rw (h, read_until_done)

module _ {A : Type 0} {c : Codec A} {P : A → Type 0} {wire : A → List Bytes}
    (laws : IsLawful c P wire) where
  pub encoding-wire : (x : A) → P x → encoding c x ≡ concat (wire x)
  unfolding result
  encoding-wire x h = rw ((laws.writes x h).run new_encoder) refl

  pub round_trip : (x : A) → P x → RoundTrip c x
  round_trip x h = (
    rw ((laws.writes x h).run new_encoder) refl,
    λ pre rest. rw (encoding-wire x h) ((laws.reads x h).run pre rest),
  )

  abbrev wires : List A → List Bytes
  wires [] = []
  wires (x ∷ xs) = wire x ++ wires xs

  pub Writes-structs : (xs : List A) → All P xs → Writes (write_structs c xs) (wires xs)
  unfolding write_structs
  Writes-structs [] h = Writes-pure
  Writes-structs (x ∷ xs) (h, hs) = Writes-then (laws.writes x h) (Writes-structs xs hs)

  -- The end of the input stops the loop, so nothing may follow.
  read_until_done-wires :
      (xs : List A) (fuel : ℕ) (pre : Bytes)
      → All P xs
      → ((x : A) → P x → 0 < length (concat (wire x)))
      → length (concat (wires xs)) ≤ fuel
      → read_until_done fuel c.decode (at pre (concat (wires xs)))
        ≡ (ok xs, at (pre ++ concat (wires xs)) [])
  unfolding ◌>>=◌
  read_until_done-wires [] fuel pre h ne hf =
      read_until_done-stop c.decode (at pre []) fuel (done-end pre)
      ∙ ap (λ (p : Bytes). (ok [], at p [])) (sym (append-nil pre))
  read_until_done-wires (x ∷ xs) zero pre (h, hs) ne hf = absurd (
      omega (
        arith,
        ap length (concat-append (wire x) (wires xs)),
        length-append (concat (wire x)) (concat (wires xs)),
        ne x h,
      ))
  read_until_done-wires (x ∷ xs) (suc fuel) pre (h, hs) ne hf =
      let b = concat (wire x) in
      let bs = concat (wires xs) in
      let e : concat (wire x ++ wires xs) ≡ b ++ bs = concat-append (wire x) (wires xs) in
      let size = length-append b bs in
      let short : length bs ≤ fuel = omega (arith, ap length e, size, ne x h) in
      rw e (
        rw
          (
            read_until_done-go c.decode (at pre (b ++ bs)) fuel
                (done-more pre (b ++ bs) (omega (arith, size, ne x h))),
            (laws.reads x h).run pre bs,
            read_until_done-wires xs fuel (pre ++ b) hs ne short,
            append_assoc pre b bs,
          )
          refl)

  -- What `write_structs` leaves in a new encoder, `read_structs` reads back, and then it is done.
  pub read_structs-write_structs :
      (xs : List A)
      → All P xs
      → ((x : A) → P x → 0 < length (concat (wire x)))
      → ((write_structs c xs new_encoder).0 ≡ ok tt)
        × ((read_structs c (decoder (result (write_structs c xs new_encoder).1))).0 ≡ ok xs)
  unfolding read_structs result
  read_structs-write_structs xs h ne =
      let w = (Writes-structs xs h).run new_encoder in
      (
        rw w refl,
        rw w (
            rw (read_until_done-wires xs (length (concat (wires xs)) - 0) [] h ne (omega arith))
              refl),
      )

pub result-prepend_bytes :
    (bytes : Bytes) (enc : Encoder) → result (prepend_bytes bytes enc).1 ≡ bytes ++ result enc
unfolding result prepend_bytes modify
result-prepend_bytes bytes enc = refl
