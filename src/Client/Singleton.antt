-- ===== src/Client/Singleton.antt =====
-- shared/singleton.ts: the entity that a type has once, by an id that is the encoded type.
pub mod Latest
use diplomatic.Base.{
  Bool, List, Option, [], false, if◌then◌else◌, length, map, none, not, some, true, ℕ, ◌&&◌, ◌+◌,
  ◌||◌, ◌∷◌,
}
use diplomatic.Base.Int.{ltb_ℤ, negsuc, pos, ℤ}
use diplomatic.Base.Keyed.{bytes_same}
use diplomatic.Codec.{Bytes, Date, decoder, encoded, invalid_date, new_encoder, result, time}
use diplomatic.Codec.Strings.{write_var_string}
use diplomatic.Consts.{Status, success}
use diplomatic.EntDb.State.{Message}
use diplomatic.Exec.{Done, Exec, ValStat, modify, ok, ◌>>◌}
use diplomatic.Exec.Results.{◌>>=◌}
use diplomatic.Text.{Str}
use diplomatic.Wire.Eid.{EntityId, eid_codec, make_eid}

-- `SingletonStateManager`, with the number of events that it has emitted.
pub record Singleton : Type 0 where
  pub latest : Option Bytes
  pub latest_off : ℤ
  pub emitted : ℕ

abbrev pub new_singleton : Singleton
new_singleton = record { latest = none; latest_off = negsuc 0; emitted = 0 }

-- The id of the entity; the status of `writeVarString` is not looked at.
type_bytes : Str → Bytes
type_bytes type = result (write_var_string type new_encoder).1

-- The message is about the singleton.
id_matches : Str → ValStat EntityId → Bool
id_matches type (ok eid) = bytes_same eid.id (type_bytes type)
id_matches type r = false

pub is_about : Str → Message → Bool
is_about type msg = id_matches type (eid_codec.decode (decoder msg.head.eid)).0

unfoldable pub is_present : Option Bytes → Bool
is_present none = false
is_present (some content) = true

-- `this.latest === undefined || msg.off > this.latestOff`
supersedes : Message → Singleton → Bool
supersedes msg s = not (is_present s.latest) || ltb_ℤ s.latest_off msg.head.off

take_message : Str → Message → Singleton → Singleton
take_message type msg s =
    if is_about type msg && supersedes msg s
    then record { latest = msg.bod; latest_off = msg.head.off; emitted = s.emitted + 1 }
    else s

take_messages : Str → List Message → Singleton → Singleton
take_messages type [] s = s
take_messages type (msg ∷ msgs) s = take_messages type msgs (take_message type msg s)

-- `apply`
pub apply_singleton : Str → List Message → Exec Singleton (List Status)
apply_singleton type msgs s = (ok (map (λ msg. success) msgs), take_messages type msgs s)

pub clear_singleton : Exec Singleton Status
clear_singleton s =
    (ok success, record { latest = none; latest_off = negsuc 0; emitted = s.emitted + 1 })

notified : Str → List Str → ℕ
notified type [] = 0
notified type (t ∷ types) = (if bytes_same t type then 1 else 0) + notified type types

pub notify_singleton : Str → List Str → Exec Singleton Done
notify_singleton type types = modify (λ s. record s { emitted = s.emitted + notified type types })

-- The upsert message; `none` is an offset that is NaN.
upsert_at : Bytes → Bytes → ℤ → Date → Option Message
upsert_at eid content ctr (time ms) = some (record {
  head = record {
    typ = some [];
    eid = eid;
    off = ms;
    ctr = ctr;
    len = pos (length content);
    hsh = none;
  };
  bod = some content;
})
upsert_at eid content ctr invalid_date = none

-- `genSingletonUpsert`
pub gen_singleton_upsert : Str → Date → Bytes → ℤ → ValStat (Option Message)
gen_singleton_upsert type now content ctr = do
  text_bytes ← encoded (write_var_string type new_encoder)
  eid ← make_eid (record { id = text_bytes; ts = time (pos 0) })
  ok (upsert_at eid content ctr now)
