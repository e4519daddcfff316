-- ===== src/Wire/FileRealm.antt =====
-- shared/codecs/fileRealm.ts: one realm of an export. `Number.isInteger` holds of every number here.
use diplomatic.Wire.Kdm
use diplomatic.Base.{List, [], arith, length, not, sym, ◌++◌, ◌==◌, ◌∷◌, ◌≡◌}
use diplomatic.Base.Int.{ltb_ℤ, pos, ℤ, ◌≤ℤ◌}
use diplomatic.Codec.{
  Bytes, Codec, Read, Write, read_bytes, read_var_int, write_bytes, write_var_int,
}
use diplomatic.Codec.Bounds.{Advances, Advances-bind, bounded_rules}
use diplomatic.Codec.Stream.{
  IsSafe, Reads-bind, Reads-bytes, Reads-check, Reads-int, Reads-parts, Reads-pure, Writes-bytes,
  Writes-check, Writes-int, Writes-pure, Writes-then, int_wire,
}
use diplomatic.Codec.Structs.{IsLawful, RoundTrip, round_trip}
use diplomatic.Consts.{hsh_bytes, invalid_message, invalid_param}
use diplomatic.Exec.{check, pure, ◌>>=◌, ◌>>◌}
use diplomatic.Wire.Kdm.{Advances-kdm, Kdm, kdm_codec, kdm_laws}

pub record FileRealm : Type 0 where
  pub realm : Kdm
  pub num : ℤ
  pub hsh : Bytes

pub encode : FileRealm → Write
encode row = do
  check (not (ltb_ℤ row.num (pos 1))) invalid_message
  check (length row.hsh == hsh_bytes) invalid_param
  kdm_codec.encode row.realm
  write_var_int row.num
  write_bytes row.hsh
  pure tt

pub decode : Read FileRealm
decode = do
  realm ← kdm_codec.decode
  num ← read_var_int
  check (not (ltb_ℤ num (pos 1))) invalid_message
  hsh ← read_bytes (pos hsh_bytes)
  pure (record { realm = realm; num = num; hsh = hsh })

abbrev pub file_realm_codec : Codec FileRealm
file_realm_codec = record { encode = encode; decode = decode }

pub record IsWellFormed (row : FileRealm) : Type 0 where
  pub realm : Kdm.IsWellFormed row.realm
  pub num : IsSafe row.num
  pub some_bags : pos 1 ≤ℤ row.num
  pub hsh : length row.hsh ≡ hsh_bytes

abbrev pub wire : FileRealm → List Bytes
wire row = Kdm.wire row.realm ++ (int_wire row.num ∷ row.hsh ∷ [])

pub file_realm_laws : IsLawful file_realm_codec IsWellFormed wire
unfolding encode decode
file_realm_laws = record {
  writes = λ row h. Writes-then (Writes-check _ _ (ground (arith, h.some_bags))) (
      Writes-then (Writes-check _ _ (ground (arith, h.hsh))) (
        Writes-then (kdm_laws.writes row.realm h.realm) (
          Writes-then (Writes-int row.num h.num)
            (Writes-then (Writes-bytes row.hsh) Writes-pure))));
  reads = λ row h.
      Reads-parts _ (Kdm.wire row.realm) (int_wire row.num ∷ row.hsh ∷ [])
        (kdm_laws.reads row.realm h.realm)
        (Reads-bind _ (Reads-int row.num h.num) (
          Reads-bind _ (Reads-check _ _ (ground (arith, h.some_bags)))
            (Reads-bind _ (Reads-bytes row.hsh hsh_bytes (sym h.hsh)) (Reads-pure _))));
}

pub Advances-file_realm : Advances file_realm_codec.decode
unfolding decode
Advances-file_realm = Advances-bind _ _ Advances-kdm (λ realm. search bounded_rules)

-- A row of an export header with at least one bag and a 32-byte hash comes back as written.
pub file_realm-RoundTrip : (row : FileRealm) → IsWellFormed row → RoundTrip file_realm_codec row
file_realm-RoundTrip row h = round_trip file_realm_laws row h
