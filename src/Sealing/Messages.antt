-- ===== src/Sealing/Messages.antt =====
-- shared/message.ts: the head of a message that inserts, changes or deletes an entity. BLAKE3 and the
-- random bytes of a new id are parameters.
pub mod Heads
use diplomatic.Base.{Option, [], length, none, some, ℕ, ◌∷◌}
use diplomatic.Base.Int.{pos, ℤ, ◌-ℤ◌}
use diplomatic.Codec.{Bytes, Date, decoder, encoded, new_encoder, time}
use diplomatic.EntDb.State.{Message}
use diplomatic.Exec.{ValStat, ok, ◌>>◌}
use diplomatic.Exec.Results.{◌>>=◌}
use diplomatic.Text.{Str}
use diplomatic.Wire.Eid.{eid_codec}
use diplomatic.Wire.MessageHead.{MessageHead}

-- `now.getTime() - eidParsed.ts.getTime()`, where `none` is NaN.
offset_from : Date → Date → Option ℤ
offset_from (time now) (time ts) = some (now -ℤ ts)
offset_from _ _ = none

-- `bod?.length ?? 0`
body_len : Option Bytes → ℕ
body_len none = 0
body_len (some bod) = length bod

-- The hash of a body that is not empty.
pub body_hsh : (Bytes → Bytes) → Option Bytes → Option Bytes
body_hsh blake3 (some (b ∷ bs)) = some (blake3 (b ∷ bs))
body_hsh blake3 _ = none

-- A head whose `off` is NaN is `none`.
head_with : Option ℤ → (ℤ → MessageHead) → Option MessageHead
head_with none head = none
head_with (some off) head = some (head off)

with_bod : Bytes → Option MessageHead → Option Message
with_bod bod none = none
with_bod bod (some head) = some (record { head = head; bod = some bod })

-- Of the head, `genDelete` keeps eid, off, ctr and typ.
deletion : Option MessageHead → Option Message
deletion none = none
deletion (some head) = some (record { head = record head { len = pos 0; hsh = none }; bod = none })

module _ (blake3 : Bytes → Bytes) where
  pub gen_upsert_head : Date → Bytes → ℤ → Str → Option Bytes → ValStat (Option MessageHead)
  gen_upsert_head now eid ctr typ bod = do
    eid_parsed ← (eid_codec.decode (decoder eid)).0
    ok (
        head_with (offset_from now eid_parsed.ts) (λ off. record {
          typ = some typ;
          eid = eid;
          off = off;
          ctr = ctr;
          len = pos (body_len bod);
          hsh = body_hsh blake3 bod;
        }))

  -- `id` is the eight random bytes.
  pub gen_insert_head : Bytes → Date → Str → Bytes → ValStat (Option MessageHead)
  gen_insert_head id now typ bod = do
    eid ← encoded (eid_codec.encode (record { id = id; ts = now }) new_encoder)
    gen_upsert_head now eid (pos 0) typ (some bod)

  pub gen_delete_head : Date → Bytes → ℤ → Str → ValStat (Option MessageHead)
  gen_delete_head now eid ctr typ = gen_upsert_head now eid ctr typ none

  pub gen_insert : Bytes → Date → Bytes → ValStat (Option Message)
  gen_insert id now bod = do head ← gen_insert_head id now [] bod; ok (with_bod bod head)

  pub gen_delete : Date → Bytes → ℤ → Str → ValStat (Option Message)
  gen_delete now eid ctr typ = do head ← gen_delete_head now eid ctr typ; ok (deletion head)
