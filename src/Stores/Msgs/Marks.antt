-- ===== src/Stores/Msgs/Marks.antt =====
-- What `markApplied` of web/src/stores/memory/msgs.ts changes, as `get` and `count` show it.
use diplomatic.Base.{
  Bool, Bool-cases, List, Option, [], false, if◌then◌else◌, inl, inr, none, refl, some, true, ◌||◌,
  ◌∷◌, ◌≡◌,
}
use diplomatic.Base.Keyed.{bytes_key, bytes_same, bytes_same_iff, lookup, lookup-insert}
use diplomatic.Codec.{Bytes}
use diplomatic.Consts.{Status}
use diplomatic.Stores.Msgs.{
  ApldState, MessageStore, StoredData, StoredMessage, apld_from_stored, applied, err_of,
  failed_apply, get_message, mark_applied, mark_row, pending, set_apld, shown, to_stored_message,
}

-- The message with another state of its application, and the status that goes with it.
pub marked : ApldState → Option Status → Option StoredMessage → Option StoredMessage
unfolding err_of
marked state status none = none
marked state status (some msg) =
    some (record msg { apld = state; err_status = err_of state status })

pub listed : Bytes → List Bytes → Bool
listed key [] = false
listed key (k ∷ keys) = bytes_same k key || listed key keys

shown-set_apld :
    (blake3 : Bytes → Bytes) (key : Bytes) (state : ApldState) (status : Option Status)
    (row : StoredData)
    → shown blake3 key (some (set_apld state status row))
      ≡ marked state status (shown blake3 key (some row))
unfolding shown marked set_apld to_stored_message apld_from_stored bytes_same
shown-set_apld blake3 key pending status row = refl
shown-set_apld blake3 key applied status row = refl
shown-set_apld blake3 key failed_apply status row = refl

get_message-mark_row :
    (blake3 : Bytes → Bytes) (key wanted : Bytes) (state : ApldState) (status : Option Status)
    (m : MessageStore)
    → get_message blake3 wanted (mark_row key state status (lookup key m) m) ≡ (
        if bytes_same key wanted
        then marked state status (get_message blake3 wanted m)
        else get_message blake3 wanted m)
unfolding get_message mark_row marked
get_message-mark_row blake3 key wanted state status m = go (lookup key m) refl
  where
    go :
        (r : Option StoredData)
        → lookup key m ≡ r
        → shown blake3 wanted (lookup wanted (mark_row key state status r m)) ≡ (
            if bytes_same key wanted
            then marked state status (shown blake3 wanted (lookup wanted m))
            else shown blake3 wanted (lookup wanted m))
    go none e = elim (Bool-cases (bytes_same key wanted)) [
      | inl f ↦ rw (f, ← (bytes_same_iff key wanted).0 f, e) refl
      | inr f ↦ rw f refl
    ]
    go (some row) e = elim (Bool-cases (bytes_same key wanted)) [
      | inl f ↦
          rw
            (
              lookup-insert key wanted (set_apld state status row) m,
              f,
              ← (bytes_same_iff key wanted).0 f,
              e,
            )
            (shown-set_apld blake3 key state status row)
      | inr f ↦ rw (lookup-insert key wanted (set_apld state status row) m, f) refl
    ]

marked-marked :
    (state : ApldState) (status : Option Status) (msg : Option StoredMessage)
    → marked state status (marked state status msg) ≡ marked state status msg
unfolding marked
marked-marked state status none = refl
marked-marked state status (some msg) = refl

-- After `markApplied`, `get` shows each message whose key is listed as applied and without an error,
-- with all else as it was, and any other message as it was.
pub mark_applied_lem :
    (blake3 : Bytes → Bytes) (keys : List Bytes) (wanted : Bytes) (m : MessageStore)
    → get_message blake3 wanted (mark_applied keys m) ≡ (
        if listed wanted keys
        then marked applied none (get_message blake3 wanted m)
        else get_message blake3 wanted m)
unfolding mark_applied listed
mark_applied_lem blake3 [] wanted m = refl
mark_applied_lem blake3 (key ∷ keys) wanted m =
    rw
      (
        mark_applied_lem blake3 keys wanted (mark_row key applied none (lookup key m) m),
        get_message-mark_row blake3 key wanted applied none m,
      )
      (go (bytes_same key wanted) (listed wanted keys))
  where
    go :
        (b c : Bool)
        → (if c
            then marked applied none (
                if b
                then marked applied none (get_message blake3 wanted m)
                else get_message blake3 wanted m)
            else (if b
                then marked applied none (get_message blake3 wanted m)
                else get_message blake3 wanted m))
          ≡ (if b || c
              then marked applied none (get_message blake3 wanted m)
              else get_message blake3 wanted m)
    go true true = marked-marked applied none (get_message blake3 wanted m)
    go true false = refl
    go false true = refl
    go false false = refl
