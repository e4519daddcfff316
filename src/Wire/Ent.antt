-- ===== src/Wire/Ent.antt =====
-- shared/codecs/ent.ts: the body of a message as parent, tags and raw bytes; and `minimalMessageHeadCodec`
-- of shared/codecs/messageHead.ts.
use diplomatic.Base.{List, Option, [], if◌then◌else◌, length, none, some, ◌<◌, ◌^◌, ◌∷◌, ◌≡◌}
use diplomatic.Base.Int.{ℤ}
use diplomatic.Codec.{
  Bytes, Codec, Decoder, Read, Write, decoder, done, read_rest, read_var_bytes, read_var_int,
  write_bytes, write_var_bytes, write_var_int,
}
use diplomatic.Codec.Septets.{var_int_wire}
use diplomatic.Codec.Stream.{
  IsSafe, Reads-bind, Reads-int, Reads-lift, Reads-pure, Reads-var_bytes-then, Writes-int,
  Writes-then, Writes-var_bytes, int_wire,
}
use diplomatic.Codec.Strings.{read_var_strings, write_var_strings}
use diplomatic.Codec.Structs.{IsLawful, RoundTrip, round_trip}
use diplomatic.Consts.{invalid_message}
use diplomatic.Exec.{ValStat, diverged, err, lift, ok, pure, thrown, ◌>>=◌, ◌>>◌}
use diplomatic.Text.{Str}
use diplomatic.Wire.Eid.{EntityId, eid_codec, make_eid}
use diplomatic.Wire.MessageHead.{parse_eid}

-- `IMsgEntBody<Uint8Array>`
pub record EntBody : Type 0 where
  pub pid : Option Bytes
  pub tags : Option (List Str)
  pub body : Option Bytes

-- `x ?? []`
abbrev pub or_nil : {A : Type 0} → Option (List A) → List A
or_nil none = []
or_nil (some xs) = xs

-- `undefined` for an empty list.
abbrev pub some_list : {A : Type 0} → List A → Option (List A)
some_list [] = none
some_list (x ∷ xs) = some (x ∷ xs)

write_raw : Option Bytes → Write
write_raw none = pure tt
write_raw (some []) = pure tt
write_raw (some (b ∷ bs)) = write_bytes (b ∷ bs)

pub encode : EntBody → Write
encode ent = do
  write_var_bytes (or_nil ent.pid)
  write_var_strings (or_nil ent.tags)
  write_raw ent.body
  pure tt

canonical : ValStat Bytes → ValStat (Option Bytes)
canonical (ok eid) = ok (some eid)
canonical (err s) = err s
canonical thrown = thrown
canonical diverged = diverged

-- The parent's eid must end with its bytes, and is written again.
whole_eid : ValStat EntityId × Decoder → ValStat (Option Bytes)
whole_eid (ok eid, d) = if done d then canonical (make_eid eid) else err invalid_message
whole_eid (err s, d) = err s
whole_eid (thrown, d) = thrown
whole_eid (diverged, d) = diverged

parse_pid : Bytes → ValStat (Option Bytes)
parse_pid [] = ok none
parse_pid (b ∷ bs) = whole_eid (eid_codec.decode (decoder (b ∷ bs)))

pub decode : Read EntBody
decode = do
  pid_bytes ← read_var_bytes
  pid ← lift (parse_pid pid_bytes)
  tags ← read_var_strings
  rest ← read_rest
  pure (record { pid = pid; tags = some_list tags; body = some_list rest })

abbrev pub ent_codec : Codec EntBody
ent_codec = record { encode = encode; decode = decode }

-- `IMinimalMessageHead`
pub record MinimalHead : Type 0 where
  pub eid : Bytes
  pub off : ℤ
  pub ctr : ℤ

pub write_minimal_head : MinimalHead → Write
write_minimal_head msg = do write_var_bytes msg.eid; write_var_int msg.off; write_var_int msg.ctr

pub read_minimal_head : Read MinimalHead
read_minimal_head = do
  eid ← read_var_bytes
  parsed ← lift (parse_eid eid)
  off ← read_var_int
  ctr ← read_var_int
  pure (record { eid = eid; off = off; ctr = ctr })

abbrev pub minimal_head_codec : Codec MinimalHead
minimal_head_codec = record { encode = write_minimal_head; decode = read_minimal_head }

-- The bytes that the minimal head takes.
abbrev pub minimal_wire : MinimalHead → List Bytes
minimal_wire msg =
    var_int_wire (length msg.eid) ∷ msg.eid ∷ int_wire msg.off ∷ int_wire msg.ctr ∷ []

pub record IsWritable (msg : MinimalHead) : Type 0 where
  pub source : EntityId
  pub source_ok : parse_eid msg.eid ≡ ok source
  pub eid : length msg.eid < 2 ^ 53
  pub off : IsSafe msg.off
  pub ctr : IsSafe msg.ctr

minimal_head_laws : IsLawful minimal_head_codec IsWritable minimal_wire
unfolding write_minimal_head read_minimal_head
minimal_head_laws = record {
  writes = λ msg h.
      Writes-then (Writes-var_bytes msg.eid h.eid)
        (Writes-then (Writes-int msg.off h.off) (Writes-int msg.ctr h.ctr));
  reads = λ msg h. Reads-var_bytes-then _ msg.eid h.eid (
      Reads-bind _ (Reads-lift _ h.source_ok) (
        Reads-bind _ (Reads-int msg.off h.off)
          (Reads-bind _ (Reads-int msg.ctr h.ctr) (Reads-pure _))));
}

-- A minimal head comes back as written where its eid can be parsed and its numbers are not negative and
-- below 2 ^ 53.
pub minimal_head-RoundTrip : (msg : MinimalHead) → IsWritable msg → RoundTrip minimal_head_codec msg
minimal_head-RoundTrip msg h = round_trip minimal_head_laws msg h
