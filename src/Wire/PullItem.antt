-- ===== src/Wire/PullItem.antt =====
-- shared/codecs/pullItem.ts: one body in the answer to PULL. The status of `writeVarInt` is not read.
use diplomatic.Exec.Ends.{AnyState, Ends}
use diplomatic.Codec.Ends.{ends_rules}
use diplomatic.Base.{List, [], length, ◌<◌, ◌^◌, ◌∷◌}
use diplomatic.Base.Int.{ℤ}
use diplomatic.Codec.{
  Bytes, Codec, Read, Write, read_var_bytes, read_var_int, write_var_bytes, write_var_int,
}
use diplomatic.Codec.Bounds.{Advances, Advances-bind, Advances-var_int, bounded_rules}
use diplomatic.Codec.Septets.{var_int_wire}
use diplomatic.Codec.Stream.{
  IsSafe, Reads-bind, Reads-int, Reads-pure, Reads-var_bytes-then, Writes-ignore, Writes-int,
  Writes-pure, Writes-then, Writes-var_bytes, int_wire,
}
use diplomatic.Codec.Structs.{IsLawful}
use diplomatic.Exec.{ignore, pure, ◌>>=◌, ◌>>◌}

pub record PullItem : Type 0 where
  pub seq : ℤ
  pub body_cph : Bytes

pub encode : PullItem → Write
encode item = do ignore (write_var_int item.seq); write_var_bytes item.body_cph; pure tt

pub decode : Read PullItem
decode = do
  seq ← read_var_int
  body_cph ← read_var_bytes
  pure (record { seq = seq; body_cph = body_cph })

abbrev pub pull_item_codec : Codec PullItem
pull_item_codec = record { encode = encode; decode = decode }

abbrev pub IsWellFormed : PullItem → Type 0
IsWellFormed item = IsSafe item.seq × (length item.body_cph < 2 ^ 53)

abbrev pub wire : PullItem → List Bytes
wire item = int_wire item.seq ∷ var_int_wire (length item.body_cph) ∷ item.body_cph ∷ []

pub pull_item_laws : IsLawful pull_item_codec IsWellFormed wire
unfolding encode decode
pull_item_laws = record {
  writes = λ item h.
      Writes-then (Writes-ignore (Writes-int item.seq h.0))
        (Writes-then (Writes-var_bytes item.body_cph h.1) Writes-pure);
  reads = λ item h.
      Reads-bind _ (Reads-int item.seq h.0)
        (Reads-var_bytes-then _ item.body_cph h.1 (Reads-pure _));
}

pub Advances-pull_item : Advances pull_item_codec.decode
unfolding decode
Advances-pull_item = Advances-bind _ _ Advances-var_int (λ seq. search bounded_rules)

pub Ends-pull_item : (item : PullItem) → Ends AnyState (pull_item_codec.encode item)
unfolding encode
Ends-pull_item item = search ends_rules
