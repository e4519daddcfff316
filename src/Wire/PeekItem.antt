-- ===== src/Wire/PeekItem.antt =====
-- shared/codecs/peekItem.ts: a bag's head as PEEK lists it.
use diplomatic.Exec.Ends.{AnyState, Ends}
use diplomatic.Codec.Ends.{ends_rules}
use diplomatic.Base.{List, [], length, ◌<◌, ◌^◌, ◌∷◌}
use diplomatic.Base.Int.{ℤ}
use diplomatic.Codec.{
  Bytes, Codec, Read, Write, read_var_bytes, read_var_int, write_var_bytes, write_var_int,
}
use diplomatic.Codec.Bounds.{Advances, Advances-bind, Advances-var_bytes, bounded_rules}
use diplomatic.Codec.Septets.{var_int_wire}
use diplomatic.Codec.Stream.{
  IsSafe, Reads-bind, Reads-int, Reads-pure, Reads-var_bytes-then, Writes-int, Writes-pure,
  Writes-then, Writes-var_bytes, int_wire,
}
use diplomatic.Codec.Structs.{IsLawful}
use diplomatic.Exec.{pure, ◌>>=◌, ◌>>◌}

pub record PeekItem : Type 0 where
  pub seq : ℤ
  pub head_cph : Bytes

pub encode : PeekItem → Write
encode item = do write_var_bytes item.head_cph; write_var_int item.seq; pure tt

pub decode : Read PeekItem
decode = do
  head_cph ← read_var_bytes
  seq ← read_var_int
  pure (record { seq = seq; head_cph = head_cph })

abbrev pub peek_item_codec : Codec PeekItem
peek_item_codec = record { encode = encode; decode = decode }

abbrev pub IsWellFormed : PeekItem → Type 0
IsWellFormed item = (length item.head_cph < 2 ^ 53) × IsSafe item.seq

abbrev pub wire : PeekItem → List Bytes
wire item = var_int_wire (length item.head_cph) ∷ item.head_cph ∷ int_wire item.seq ∷ []

pub peek_item_laws : IsLawful peek_item_codec IsWellFormed wire
unfolding encode decode
peek_item_laws = record {
  writes = λ item h.
      Writes-then (Writes-var_bytes item.head_cph h.0)
        (Writes-then (Writes-int item.seq h.1) Writes-pure);
  reads = λ item h.
      Reads-var_bytes-then _ item.head_cph h.0
        (Reads-bind _ (Reads-int item.seq h.1) (Reads-pure _));
}

pub Advances-peek_item : Advances peek_item_codec.decode
unfolding decode
Advances-peek_item = Advances-bind _ _ Advances-var_bytes (λ head. search bounded_rules)

pub Ends-peek_item : (item : PeekItem) → Ends AnyState (peek_item_codec.encode item)
unfolding encode
Ends-peek_item item = search ends_rules
