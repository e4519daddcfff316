-- ===== src/Wire/PeekItemHead.antt =====
-- shared/codecs/peekItemHead.ts: what a host stores of a bag beside its body.
use diplomatic.Exec.Ends.{AnyState, Ends}
use diplomatic.Codec.Ends.{ends_rules}
use diplomatic.Base.{List, [], length, sym, ◌<◌, ◌^◌, ◌∷◌, ◌≡◌}
use diplomatic.Base.Int.{pos}
use diplomatic.Codec.{
  Bytes, Codec, Read, Write, read_bytes, read_var_bytes, write_bytes, write_var_bytes,
}
use diplomatic.Codec.Septets.{var_int_wire}
use diplomatic.Codec.Stream.{
  Reads-bind, Reads-bytes, Reads-pure, Reads-var_bytes-then, Writes, Writes-bytes, Writes-pure,
  Writes-then, Writes-var_bytes,
}
use diplomatic.Codec.Structs.{IsLawful}
use diplomatic.Consts.{kdm_bytes, sig_bytes}
use diplomatic.Exec.{pure, ◌>>=◌, ◌>>◌}

pub record PeekItemHead : Type 0 where
  pub sig : Bytes
  pub kdm : Bytes
  pub head_cph : Bytes

pub encode : PeekItemHead → Write
encode item = do write_bytes item.sig; write_bytes item.kdm; write_var_bytes item.head_cph; pure tt

pub decode : Read PeekItemHead
decode = do
  sig ← read_bytes (pos sig_bytes)
  kdm ← read_bytes (pos kdm_bytes)
  head_cph ← read_var_bytes
  pure (record { sig = sig; kdm = kdm; head_cph = head_cph })

abbrev pub peek_item_head_codec : Codec PeekItemHead
peek_item_head_codec = record { encode = encode; decode = decode }

pub record IsWellFormed (item : PeekItemHead) : Type 0 where
  pub sig : length item.sig ≡ sig_bytes
  pub kdm : length item.kdm ≡ kdm_bytes
  pub head : length item.head_cph < 2 ^ 53

abbrev pub wire : PeekItemHead → List Bytes
wire item = item.sig ∷ item.kdm ∷ var_int_wire (length item.head_cph) ∷ item.head_cph ∷ []

pub peek_item_head_laws : IsLawful peek_item_head_codec IsWellFormed wire
unfolding encode decode
peek_item_head_laws = record {
  writes = λ item h. Writes-then (Writes-bytes item.sig) (
      Writes-then (Writes-bytes item.kdm)
        (Writes-then (Writes-var_bytes item.head_cph h.head) Writes-pure));
  reads = λ item h. Reads-bind _ (Reads-bytes item.sig sig_bytes (sym h.sig)) (
      Reads-bind _ (Reads-bytes item.kdm kdm_bytes (sym h.kdm))
        (Reads-var_bytes-then _ item.head_cph h.head (Reads-pure _)));
}

-- To write it, only the head has to be short enough for its length to be written.
pub peek_item_head-Writes :
    (item : PeekItemHead)
    → length item.head_cph < 2 ^ 53
    → Writes (peek_item_head_codec.encode item) (wire item)
unfolding encode
peek_item_head-Writes item h = Writes-then (Writes-bytes item.sig) (
    Writes-then (Writes-bytes item.kdm)
      (Writes-then (Writes-var_bytes item.head_cph h) Writes-pure))

pub Ends-peek_item_head : (item : PeekItemHead) → Ends AnyState (peek_item_head_codec.encode item)
unfolding encode
Ends-peek_item_head item = search ends_rules
