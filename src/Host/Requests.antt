-- ===== src/Host/Requests.antt =====
-- The requests and responses of shared/api: what a client writes and what it reads back.
pub mod Bounds
use diplomatic.Wire.AuthTimestamp
use diplomatic.Base.{List, [], arith, length, sym, ◌++◌, ◌==◌, ◌∷◌, ◌≡◌}
use diplomatic.Base.Int.{pos, ℤ}
use diplomatic.Codec.{
  Bytes, Codec, Read, Write, read_bytes, read_structs, read_until_done, read_var_int, remaining,
  write_bytes, write_structs, write_var_int,
}
use diplomatic.Codec.Stream.{
  IsSafe, Reads-bind, Reads-bytes, Reads-int, Reads-last, Reads-lift, Reads-parts, Reads-pure,
  Writes-bytes, Writes-check, Writes-int, Writes-then, int_wire,
}
use diplomatic.Codec.Structs.{IsLawful, RoundTrip, round_trip}
use diplomatic.Consts.{hash_bytes, invalid_param}
use diplomatic.Exec.{check, lift, pure, ◌>>=◌, ◌>>◌}
use diplomatic.Wire.AuthTimestamp.{AuthTimestamp, auth_timestamp_codec, auth_timestamp_laws}
use diplomatic.Wire.Bag.{Bag, as_host_rlm, as_host_rlm-ok, bag_codec}
use diplomatic.Wire.PeekItem.{PeekItem, peek_item_codec}
use diplomatic.Wire.PullItem.{PullItem, pull_item_codec}
use diplomatic.Wire.PushItem.{PushItem, push_item_codec}

-- `IPeekCursor` and `peekCursorCodec`
pub record PeekCursor : Type 0 where
  pub rlm : Bytes
  pub seq : ℤ

pub write_cursor : PeekCursor → Write
write_cursor cursor = do
  check (length cursor.rlm == hash_bytes) invalid_param
  write_bytes cursor.rlm
  write_var_int cursor.seq

pub read_cursor : Read PeekCursor
read_cursor = do
  raw ← read_bytes (pos hash_bytes)
  rlm ← lift (as_host_rlm raw)
  seq ← read_var_int
  pure (record { rlm = rlm; seq = seq })

abbrev pub peek_cursor_codec : Codec PeekCursor
peek_cursor_codec = record { encode = write_cursor; decode = read_cursor }

-- `IPullReq` and `pullReqCodec`
pub record PullReq : Type 0 where
  pub rlm : Bytes
  pub seqs : List ℤ

pub write_seqs : List ℤ → Write
write_seqs [] = pure tt
write_seqs (seq ∷ seqs) = do write_var_int seq; write_seqs seqs

pub write_pull_req : PullReq → Write
write_pull_req req = do
  check (length req.rlm == hash_bytes) invalid_param
  write_bytes req.rlm
  write_seqs req.seqs

-- The loop goes on while there is input; each round takes a byte at least.
pub read_seqs : Read (List ℤ)
read_seqs d = read_until_done (remaining d) read_var_int d

pub read_pull_req : Read PullReq
read_pull_req = do
  raw ← read_bytes (pos hash_bytes)
  rlm ← lift (as_host_rlm raw)
  seqs ← read_seqs
  pure (record { rlm = rlm; seqs = seqs })

abbrev pub pull_req_codec : Codec PullReq
pull_req_codec = record { encode = write_pull_req; decode = read_pull_req }

-- `encodeReq` of the four endpoints.
pub encode_user_req : AuthTimestamp → Write
encode_user_req auth = auth_timestamp_codec.encode auth

pub encode_peek_req : AuthTimestamp → PeekCursor → Write
encode_peek_req auth cursor = do auth_timestamp_codec.encode auth; peek_cursor_codec.encode cursor

pub encode_pull_req : AuthTimestamp → PullReq → Write
encode_pull_req auth req = do auth_timestamp_codec.encode auth; pull_req_codec.encode req

pub encode_push_req : AuthTimestamp → List Bag → Write
encode_push_req auth bags = do auth_timestamp_codec.encode auth; write_structs bag_codec bags

-- `decodeResp` of PEEK, PULL and PUSH.
pub decode_peek_resp : Read (List PeekItem)
decode_peek_resp = read_structs peek_item_codec

pub decode_pull_resp : Read (List PullItem)
decode_pull_resp = read_structs pull_item_codec

pub decode_push_resp : Read (List PushItem)
decode_push_resp = read_structs push_item_codec

-- A cursor that a client may send.
pub record IsSendable (cursor : PeekCursor) : Type 0 where
  pub rlm : length cursor.rlm ≡ hash_bytes
  pub seq : IsSafe cursor.seq

abbrev cursor_wire : PeekCursor → List Bytes
cursor_wire cursor = cursor.rlm ∷ int_wire cursor.seq ∷ []

cursor_laws : IsLawful peek_cursor_codec IsSendable cursor_wire
unfolding write_cursor read_cursor
cursor_laws = record {
  writes = λ cursor h.
      Writes-then (Writes-check _ _ (ground (arith, h.rlm)))
        (Writes-then (Writes-bytes cursor.rlm) (Writes-int cursor.seq h.seq));
  reads = λ cursor h. Reads-bind _ (Reads-bytes cursor.rlm hash_bytes (sym h.rlm)) (
      Reads-bind _ (Reads-lift _ (as_host_rlm-ok cursor.rlm h.rlm))
        (Reads-bind _ (Reads-int cursor.seq h.seq) (Reads-pure _)));
}

-- What the client writes, and what the host's handler reads first.
abbrev pub peek_req_codec : Codec (AuthTimestamp × PeekCursor)
peek_req_codec = record {
  encode = λ p. encode_peek_req p.0 p.1;
  decode = auth_timestamp_codec.decode >>= λ auth.
      peek_cursor_codec.decode >>= λ cursor. pure (auth, cursor);
}

abbrev pub IsComplete : AuthTimestamp × PeekCursor → Type 0
IsComplete p = AuthTimestamp.IsWellFormed p.0 × IsSendable p.1

peek_req_laws : IsLawful peek_req_codec IsComplete (λ p. AuthTimestamp.wire p.0 ++ cursor_wire p.1)
unfolding encode_peek_req
peek_req_laws = record {
  writes = λ p h. Writes-then (auth_timestamp_laws.writes p.0 h.0) (cursor_laws.writes p.1 h.1);
  reads = λ p h.
      Reads-parts _ (AuthTimestamp.wire p.0) (cursor_wire p.1) (auth_timestamp_laws.reads p.0 h.0)
        (Reads-last _ (cursor_laws.reads p.1 h.1) (Reads-pure (p.0, p.1)));
}

-- The timestamp and the cursor of a PEEK request come back as the client wrote them, and nothing of the
-- request is left.
pub peek_req-RoundTrip :
    (p : AuthTimestamp × PeekCursor) → IsComplete p → RoundTrip peek_req_codec p
peek_req-RoundTrip p h = round_trip peek_req_laws p h
