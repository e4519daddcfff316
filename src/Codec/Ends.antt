-- ===== src/Codec/Ends.antt =====
-- The encoder of shared/codec.ts comes to an end in each call.
use diplomatic.Base.{Bool, List, [], false, if◌then◌else◌, ltb, sym, true, ◌^◌, ◌∙◌, ◌∷◌, ◌≡◌, ◌≢◌}
use diplomatic.Base.Int.{ltb_ℤ, pos, pos_part, ℤ}
use diplomatic.Codec.{
  Bytes, Codec, Date, encode_var_int, invalid_date, time, write_bytes, write_date, write_structs,
  write_var_bytes, write_var_int,
}
use diplomatic.Codec.Septets.{encode_var_int_total, var_int_wire}
use diplomatic.Consts.{invalid_param, var_limit_exceeded}
use diplomatic.Exec.{diverged, err, modify, ok, query}
use diplomatic.Exec.Ends.{
  AnyState, Ends, Ends-bind, Ends-check, Ends-ignore, Ends-pure, Ends-raise, Ends-alone,
}

pub Ends-bytes : (bytes : Bytes) → Ends AnyState (write_bytes bytes)
unfolding write_bytes modify
Ends-bytes bytes = Ends-alone _ (λ s p. cc)

encode_var_int-ne-diverged : (z : ℤ) → encode_var_int z ≢ diverged
encode_var_int-ne-diverged z e =
    go (ltb_ℤ z (pos 0)) (ltb (pos_part z) (2 ^ 56)) (sym (encode_var_int_total z) ∙ e)
  where
    go :
        (b c : Bool)
        → (if b
            then err invalid_param
            else if c
            then ok (var_int_wire (pos_part z))
            else err var_limit_exceeded)
          ≡ diverged
        → ⊥
    go true c p = cc
    go false true p = cc
    go false false p = cc

pub Ends-int : (z : ℤ) → Ends AnyState (write_var_int z)
unfolding write_var_int query
Ends-int z =
    Ends-bind _ _ (Ends-alone _ (λ s. encode_var_int-ne-diverged z)) (λ bytes. Ends-bytes bytes)

pub Ends-var_bytes : (bytes : Bytes) → Ends AnyState (write_var_bytes bytes)
unfolding write_var_bytes
Ends-var_bytes bytes = Ends-bind _ _ (Ends-int _) (λ x. Ends-bytes bytes)

pub Ends-date : (date : Date) → Ends AnyState (write_date date)
unfolding write_date
Ends-date (time ms) = Ends-int ms
Ends-date invalid_date = Ends-raise

pub Ends-structs :
    {A : Type 0} (c : Codec A)
    → ((x : A) → Ends AnyState (c.encode x))
    → (xs : List A) → Ends AnyState (write_structs c xs)
unfolding write_structs
Ends-structs c h [] = Ends-pure _
Ends-structs c h (x ∷ xs) = Ends-bind _ _ (h x) (λ u. Ends-structs c h xs)

-- The rules for `search`.
pub ruleset ends_rules =
    (Ends-pure, Ends-bind, Ends-check, Ends-ignore, Ends-bytes, Ends-int, Ends-var_bytes)
