-- ===== src/Codec/Calm.antt =====
-- Exceptions in the reads of shared/codec.ts.
use diplomatic.Base.{arith, refl, ◌≢◌}
use diplomatic.Base.Int.{negsuc, pos, ℤ}
use diplomatic.Codec.{
  Decoder, Read, decode_var_int, read_bytes, read_date, read_var_bytes, read_var_int,
}
use diplomatic.Codec.VarInt.{decode_var_int_settles}
use diplomatic.Exec.{ValStat, continue, diverged, err, ok, pure, thrown, ◌>>=◌}

-- A step that raises no exception.
unfoldable pub Calm : {A : Type 0} → Read A → Type 0
Calm m = (d : Decoder) → (m d).0 ≢ thrown

Calm-continue :
    {A B : Type 0} (f : A → Read B) (r : ValStat A × Decoder)
    → ((x : A) → Calm (f x))
    → r.0 ≢ thrown
    → (continue r f).0 ≢ thrown
unfolding Calm
Calm-continue f (ok x, d) h n e = h x d e
Calm-continue f (err s, d) h n e = cc
Calm-continue f (thrown, d) h n e = absurd (n refl)
Calm-continue f (diverged, d) h n e = cc

pub Calm-bind :
    {A B : Type 0} (m : Read A) (f : A → Read B) → Calm m → ((x : A) → Calm (f x)) → Calm (m >>= f)
unfolding ◌>>=◌ Calm
Calm-bind m f h k d = Calm-continue f (m d) k (h d)

pub Calm-pure : {A : Type 0} (x : A) → Calm (pure x)
unfolding Calm pure
Calm-pure x d e = cc

Calm-var_int : Calm read_var_int
unfolding Calm read_var_int ◌>>=◌
Calm-var_int d =
    Calm-continue _ (decode_var_int d.input d.pos, d) (λ p. unfold Calm in (λ d e. cc))
      ((decode_var_int_settles d.input d.pos).0)

Calm-bytes : (n : ℤ) → Calm (read_bytes n)
unfolding Calm read_bytes
Calm-bytes (negsuc n) d e = cc
Calm-bytes (pos n) d e = ground arith

pub Calm-var_bytes : Calm read_var_bytes
unfolding read_var_bytes
Calm-var_bytes = Calm-bind _ _ Calm-var_int (λ len. Calm-bytes len)

pub Calm-date : Calm read_date
unfolding read_date
Calm-date = Calm-bind _ _ Calm-var_int (λ offset. Calm-pure _)
