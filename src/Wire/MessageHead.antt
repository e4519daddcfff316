-- ===== src/Wire/MessageHead.antt =====
-- shared/codecs/messageHead.ts: the head of a message.
use diplomatic.Codec.Calm.{Calm}
use diplomatic.Wire.Eid.{Calm-eid, Advances-eid}
use diplomatic.Exec.{thrown, diverged}
use diplomatic.Base.{◌≢◌}
use diplomatic.Wire.Eid
use diplomatic.Base.{
  List, Option, [], ap, append-nil, arith, concat, if◌then◌else◌, length, none, some, sym, true,
  ◌++◌, ◌<◌, ◌^◌, ◌∷◌, ◌≡◌,
}
use diplomatic.Base.Int.{ltb_ℤ, pos, ℤ, ◌<ℤ◌}
use diplomatic.Codec.{
  Bytes, Codec, Decoder, Read, Write, decoder, read_bytes, read_var_bytes, read_var_int,
  write_bytes, write_var_bytes, write_var_int,
}
use diplomatic.Codec.Septets.{var_int_wire}
use diplomatic.Codec.Stream.{
  IsSafe, Reads, Reads-bind, Reads-bytes, Reads-int, Reads-lift, Reads-parts, Reads-pure,
  Reads-var_bytes-then, Writes, Writes-bytes, Writes-int, Writes-pure, Writes-then,
  Writes-var_bytes, int_wire,
}
use diplomatic.Codec.Strings.{
  IsShort, Reads-var_string-then, Writes-var_string, read_var_string, write_var_string,
}
use diplomatic.Codec.Structs.{IsLawful}
use diplomatic.Consts.{hsh_bytes}
use diplomatic.Exec.{ValStat, lift, ok, pure, ◌>>=◌, ◌>>◌}
use diplomatic.Text.{Str, utf8_encode}
use diplomatic.Wire.Eid.{EntityId, eid_codec, eid_laws}
use mathlib.Core.Path.{subst}

pub record MessageHead : Type 0 where
  pub typ : Option Str
  pub eid : Bytes
  pub off : ℤ
  pub ctr : ℤ
  pub len : ℤ
  pub hsh : Option Bytes

-- `msg.typ ?? ""`
abbrev pub typ_of : Option Str → Str
typ_of none = []
typ_of (some typ) = typ

write_hsh : Option Bytes → Write
write_hsh none = pure tt
write_hsh (some hsh) = write_bytes hsh

pub encode : MessageHead → Write
encode msg = do
  write_var_string (typ_of msg.typ)
  write_var_bytes msg.eid
  write_var_int msg.off
  write_var_int msg.ctr
  write_var_int msg.len
  write_hsh msg.hsh
  pure tt

read_hsh : ℤ → Read (Option Bytes)
read_hsh len =
    if ltb_ℤ (pos 0) len then (do h ← read_bytes (pos hsh_bytes); pure (some h)) else pure none

-- `eidCodec.decode(new Decoder(eid))`
pub parse_eid : Bytes → ValStat EntityId
parse_eid eid = (eid_codec.decode (decoder eid)).0

pub decode : Read MessageHead
decode = do
  typ ← read_var_string
  eid ← read_var_bytes
  parsed ← lift (parse_eid eid)
  off ← read_var_int
  ctr ← read_var_int
  len ← read_var_int
  hsh ← read_hsh len
  pure (record { typ = some typ; eid = eid; off = off; ctr = ctr; len = len; hsh = hsh })

abbrev pub message_head_codec : Codec MessageHead
message_head_codec = record { encode = encode; decode = decode }

-- The hash is there exactly where the body is not empty.
abbrev pub IsHsh : ℤ → Option Bytes → Type 0
IsHsh len none = len ≡ pos 0
IsHsh len (some hsh) = (pos 0 <ℤ len) × (length hsh ≡ hsh_bytes)

-- `source` is the entity id that the bytes `eid` stand for.
pub record IsWellFormed (msg : MessageHead) : Type 0 where
  pub typ : IsShort (typ_of msg.typ)
  pub present : msg.typ ≡ some (typ_of msg.typ)
  pub source : EntityId
  pub source_ok : parse_eid msg.eid ≡ ok source
  pub eid : length msg.eid < 2 ^ 53
  pub off : IsSafe msg.off
  pub ctr : IsSafe msg.ctr
  pub len : IsSafe msg.len
  pub hsh : IsHsh msg.len msg.hsh

abbrev hsh_wire : Option Bytes → List Bytes
hsh_wire none = []
hsh_wire (some hsh) = hsh ∷ []

abbrev pub wire : MessageHead → List Bytes
wire msg =
    var_int_wire (length (utf8_encode (typ_of msg.typ)))
    ∷ utf8_encode (typ_of msg.typ)
    ∷ var_int_wire (length msg.eid)
    ∷ msg.eid
    ∷ int_wire msg.off
    ∷ int_wire msg.ctr
    ∷ int_wire msg.len
    ∷ (hsh_wire msg.hsh ++ [])

Writes-hsh : (len : ℤ) (hsh : Option Bytes) → Writes (write_hsh hsh) (hsh_wire hsh)
unfolding write_hsh
Writes-hsh len none = Writes-pure
Writes-hsh len (some hsh) = Writes-bytes hsh

Reads-hsh :
    (len : ℤ) (hsh : Option Bytes)
    → IsHsh len hsh
    → Reads (read_hsh len) (concat (hsh_wire hsh)) hsh
unfolding read_hsh
Reads-hsh len none h = rw h (Reads-pure none)
Reads-hsh len (some hsh) h =
    let more : ltb_ℤ (pos 0) len ≡ true = ground (arith, h.0) in
    rw more (Reads-bind _ (Reads-bytes hsh hsh_bytes (sym h.1)) (Reads-pure _))

-- The bytes of an entity id are parsed as that entity id.
pub parse_eid-wire :
    (eid : EntityId) → Eid.IsWellFormed eid → parse_eid (concat (Eid.wire eid)) ≡ ok eid
unfolding parse_eid
parse_eid-wire eid h =
    subst (λ (b : Bytes). parse_eid b ≡ ok eid) (append-nil (concat (Eid.wire eid)))
      (ap (λ (r : ValStat EntityId × Decoder). r.0) ((eid_laws.reads eid h).run [] []))

pub message_head_laws : IsLawful message_head_codec IsWellFormed wire
unfolding encode decode
message_head_laws = record {
  writes = λ msg h. Writes-then (Writes-var_string (typ_of msg.typ) h.typ) (
      Writes-then (Writes-var_bytes msg.eid h.eid) (
        Writes-then (Writes-int msg.off h.off) (
          Writes-then (Writes-int msg.ctr h.ctr) (
            Writes-then (Writes-int msg.len h.len)
              (Writes-then (Writes-hsh msg.len msg.hsh) Writes-pure)))));
  reads = λ msg h.
      let same : Path MessageHead (record msg { typ = some (typ_of msg.typ) }) msg =
        ap (λ (t : Option Str). record msg { typ = t }) (sym h.present) in
      Reads-var_string-then _ (typ_of msg.typ) h.typ (
        Reads-var_bytes-then _ msg.eid h.eid (
          Reads-bind _ (Reads-lift _ h.source_ok) (
            Reads-bind _ (Reads-int msg.off h.off) (
              Reads-bind _ (Reads-int msg.ctr h.ctr) (
                Reads-bind _ (Reads-int msg.len h.len) (
                  Reads-parts _ (hsh_wire msg.hsh) [] (Reads-hsh msg.len msg.hsh h.hsh) (
                    subst
                      (λ (t : MessageHead).
                        Reads (pure (record msg { typ = some (typ_of msg.typ) })) [] t)
                      same (Reads-pure _))))))));
}

-- Whatever the bytes are, the parser ends with an entity id or a status.
pub parse_eid_settles : (eid : Bytes) → (parse_eid eid ≢ thrown) × (parse_eid eid ≢ diverged)
unfolding parse_eid Calm
parse_eid_settles eid =
    (Calm-eid (decoder eid), Advances-eid.inside.settles (decoder eid) (omega arith))
