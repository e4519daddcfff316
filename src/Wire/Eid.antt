-- ===== src/Wire/Eid.antt =====
-- shared/codecs/eid.ts: an entity id is an id and a time of creation.
use diplomatic.Codec.Calm.{Calm, Calm-bind, Calm-date, Calm-pure, Calm-var_bytes}
use diplomatic.Base.{List, [], length, ◌<◌, ◌^◌, ◌∷◌}
use diplomatic.Codec.{
  Bytes, Codec, Date, Encoder, Read, Write, new_encoder, read_date, read_var_bytes, result,
  write_date, write_var_bytes,
}
use diplomatic.Codec.Bounds.{Advances, Advances-bind, Advances-var_bytes, bounded_rules}
use diplomatic.Codec.Septets.{var_int_wire}
use diplomatic.Codec.Stream.{
  IsTime, Reads-bind, Reads-date, Reads-pure, Reads-var_bytes-then, Writes-date, Writes-pure,
  Writes-then, Writes-var_bytes, date_wire,
}
use diplomatic.Codec.Structs.{IsLawful, RoundTrip, round_trip}
use diplomatic.Exec.{ValStat, diverged, err, ok, pure, thrown, ◌>>=◌, ◌>>◌}

pub record EntityId : Type 0 where
  pub id : Bytes
  pub ts : Date

pub encode : EntityId → Write
encode eid = do write_var_bytes eid.id; write_date eid.ts; pure tt

pub decode : Read EntityId
decode = do id ← read_var_bytes; ts ← read_date; pure (record { id = id; ts = ts })

abbrev pub eid_codec : Codec EntityId
eid_codec = record { encode = encode; decode = decode }

abbrev pub IsWellFormed : EntityId → Type 0
IsWellFormed eid = (length eid.id < 2 ^ 53) × IsTime eid.ts

abbrev pub wire : EntityId → List Bytes
wire eid = var_int_wire (length eid.id) ∷ eid.id ∷ date_wire eid.ts ∷ []

pub eid_laws : IsLawful eid_codec IsWellFormed wire
unfolding encode decode
eid_laws = record {
  writes = λ eid h.
      Writes-then (Writes-var_bytes eid.id h.0) (Writes-then (Writes-date eid.ts h.1) Writes-pure);
  reads = λ eid h.
      Reads-var_bytes-then _ eid.id h.0 (Reads-bind _ (Reads-date eid.ts h.1) (Reads-pure _));
}

-- An id that is shorter than 2 ^ 53 bytes and a valid date that is not before 1970 come back as written.
pub eid-RoundTrip : (eid : EntityId) → IsWellFormed eid → RoundTrip eid_codec eid
eid-RoundTrip eid h = round_trip eid_laws eid h

pub Advances-eid : Advances eid_codec.decode
unfolding decode
Advances-eid = Advances-bind _ _ Advances-var_bytes (λ id. search bounded_rules)

-- `makeEID`.
finish : ValStat (Unit {0}) × Encoder → ValStat Bytes
finish (ok _, enc) = ok (result enc)
finish (err s, enc) = err s
finish (thrown, enc) = thrown
finish (diverged, enc) = diverged

pub make_eid : EntityId → ValStat Bytes
unfolding finish
make_eid eid = finish (eid_codec.encode eid new_encoder)

pub Calm-eid : Calm eid_codec.decode
unfolding decode
Calm-eid = Calm-bind _ _ Calm-var_bytes (λ id. Calm-bind _ _ Calm-date (λ ts. Calm-pure _))
