-- ===== src/Wire/AuthTimestamp.antt =====
-- shared/codecs/authTimestamp.ts: the proof of identity at the front of each request.
use diplomatic.Base.{List, [], arith, length, sym, ◌∷◌, ◌≡◌}
use diplomatic.Base.Int.{pos}
use diplomatic.Codec.{
  Bytes, Codec, Date, Read, Write, read_bytes, read_date, write_bytes, write_date,
}
use diplomatic.Codec.Bounds.{Advances, Advances-bind, Advances-bytes, bounded_rules}
use diplomatic.Codec.Stream.{
  IsTime, Reads-bind, Reads-bytes, Reads-date, Reads-pure, Writes-bytes, Writes-date, Writes-pure,
  Writes-then, date_wire,
}
use diplomatic.Codec.Structs.{IsLawful, RoundTrip, round_trip}
use diplomatic.Consts.{pub_key_bytes, sig_bytes}
use diplomatic.Exec.{pure, ◌>>=◌, ◌>>◌}

pub record AuthTimestamp : Type 0 where
  pub pub_key : Bytes
  pub sig : Bytes
  pub timestamp : Date

pub encode : AuthTimestamp → Write
encode item = do write_bytes item.pub_key; write_bytes item.sig; write_date item.timestamp; pure tt

pub decode : Read AuthTimestamp
decode = do
  pub_key ← read_bytes (pos pub_key_bytes)
  sig ← read_bytes (pos sig_bytes)
  timestamp ← read_date
  pure (record { pub_key = pub_key; sig = sig; timestamp = timestamp })

abbrev pub auth_timestamp_codec : Codec AuthTimestamp
auth_timestamp_codec = record { encode = encode; decode = decode }

pub record IsWellFormed (item : AuthTimestamp) : Type 0 where
  pub pub_key : length item.pub_key ≡ pub_key_bytes
  pub sig : length item.sig ≡ sig_bytes
  pub timestamp : IsTime item.timestamp

abbrev pub wire : AuthTimestamp → List Bytes
wire item = item.pub_key ∷ item.sig ∷ date_wire item.timestamp ∷ []

pub auth_timestamp_laws : IsLawful auth_timestamp_codec IsWellFormed wire
unfolding encode decode
auth_timestamp_laws = record {
  writes = λ item h. Writes-then (Writes-bytes item.pub_key) (
      Writes-then (Writes-bytes item.sig)
        (Writes-then (Writes-date item.timestamp h.timestamp) Writes-pure));
  reads = λ item h. Reads-bind _ (Reads-bytes item.pub_key pub_key_bytes (sym h.pub_key)) (
      Reads-bind _ (Reads-bytes item.sig sig_bytes (sym h.sig))
        (Reads-bind _ (Reads-date item.timestamp h.timestamp) (Reads-pure _)));
}

pub Advances-auth_timestamp : Advances auth_timestamp_codec.decode
unfolding decode
Advances-auth_timestamp =
    Advances-bind _ _ (Advances-bytes pub_key_bytes (omega arith)) (λ pub_key. search bounded_rules)

-- A signed timestamp with a 32-byte key and a 64-byte signature comes back as written.
pub auth_timestamp-RoundTrip :
    (item : AuthTimestamp) → IsWellFormed item → RoundTrip auth_timestamp_codec item
auth_timestamp-RoundTrip item h = round_trip auth_timestamp_laws item h
