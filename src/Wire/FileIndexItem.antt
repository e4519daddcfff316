-- ===== src/Wire/FileIndexItem.antt =====
-- shared/codecs/fileIndexItem.ts: one bag in the head section of an export.
use diplomatic.Base.{List, [], arith, length, sym, ◌<◌, ◌^◌, ◌∷◌, ◌≡◌}
use diplomatic.Base.Int.{pos, ℤ}
use diplomatic.Codec.{
  Bytes, Codec, Read, Write, read_bytes, read_var_bytes, read_var_int, write_bytes, write_var_bytes,
  write_var_int,
}
use diplomatic.Codec.Bounds.{Advances, Advances-bind, Advances-bytes, bounded_rules}
use diplomatic.Codec.Septets.{var_int_wire}
use diplomatic.Codec.Stream.{
  IsSafe, Reads-bind, Reads-bytes, Reads-int, Reads-pure, Reads-var_bytes-then, Writes-bytes,
  Writes-int, Writes-then, Writes-var_bytes, int_wire,
}
use diplomatic.Codec.Structs.{IsLawful, RoundTrip, round_trip}
use diplomatic.Consts.{kdm_bytes}
use diplomatic.Exec.{pure, ◌>>=◌, ◌>>◌}

pub record FileIndexItem : Type 0 where
  pub kdm : Bytes
  pub head_cph : Bytes
  pub len_body : ℤ

pub encode : FileIndexItem → Write
encode item = do write_bytes item.kdm; write_var_bytes item.head_cph; write_var_int item.len_body

pub decode : Read FileIndexItem
decode = do
  kdm ← read_bytes (pos kdm_bytes)
  head_cph ← read_var_bytes
  len_body ← read_var_int
  pure (record { kdm = kdm; head_cph = head_cph; len_body = len_body })

abbrev pub file_index_item_codec : Codec FileIndexItem
file_index_item_codec = record { encode = encode; decode = decode }

pub record IsWellFormed (item : FileIndexItem) : Type 0 where
  pub kdm : length item.kdm ≡ kdm_bytes
  pub head : length item.head_cph < 2 ^ 53
  pub len_body : IsSafe item.len_body

abbrev pub wire : FileIndexItem → List Bytes
wire item =
    item.kdm ∷ var_int_wire (length item.head_cph) ∷ item.head_cph ∷ int_wire item.len_body ∷ []

pub file_index_item_laws : IsLawful file_index_item_codec IsWellFormed wire
unfolding encode decode
file_index_item_laws = record {
  writes = λ item h.
      Writes-then (Writes-bytes item.kdm)
        (Writes-then (Writes-var_bytes item.head_cph h.head) (Writes-int item.len_body h.len_body));
  reads = λ item h. Reads-bind _ (Reads-bytes item.kdm kdm_bytes (sym h.kdm)) (
      Reads-var_bytes-then _ item.head_cph h.head
        (Reads-bind _ (Reads-int item.len_body h.len_body) (Reads-pure _)));
}

pub Advances-file_index_item : Advances file_index_item_codec.decode
unfolding decode
Advances-file_index_item =
    Advances-bind _ _ (Advances-bytes kdm_bytes (omega arith)) (λ kdm. search bounded_rules)

-- A row of the file index with an 8-byte kdm comes back as written.
pub file_index_item-RoundTrip :
    (item : FileIndexItem) → IsWellFormed item → RoundTrip file_index_item_codec item
file_index_item-RoundTrip item h = round_trip file_index_item_laws item h
