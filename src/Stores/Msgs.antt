-- ===== src/Stores/Msgs.antt =====
-- web/src/stores/memory/msgs.ts and the archive rows of web/src/types.ts: `MemoryMessageStore`.
-- Keys are the bytes whose base64 strings the source uses. BLAKE3 is a parameter.
pub mod Last
pub mod Marks
use diplomatic.Base.{
  Bool, List, Option, [], false, if◌then◌else◌, length, map, none, not, some, suc, true, ℕ, ◌&&◌,
  ◌==◌, ◌||◌, ◌∷◌,
}
use diplomatic.Base.Int.{ltb_ℤ, pos, ℤ, ◌==ℤ◌}
use diplomatic.Base.Keyed.{bytes_key, bytes_same, erase, insert, lookup}
use diplomatic.Codec.{Bytes}
use diplomatic.Consts.{Status, database_error, no_change, storage_error, success}
use diplomatic.Exec.{Done, Exec, modify, ok}
use diplomatic.Text.{Str}
use diplomatic.Wire.MessageHead.{MessageHead, typ_of}

pub data ApldState : Type 0 where
  pending : ApldState
  applied : ApldState
  failed_apply : ApldState

-- What may stand in the `apld` of a stored row.
pub data RawApld : Type 0 where
  missing : RawApld
  flag : Bool → RawApld
  chars : Str → RawApld

-- The characters f, t and e.
abbrev pub apld_chars : ApldState → Str
apld_chars pending = 102 ∷ []
apld_chars applied = 116 ∷ []
apld_chars failed_apply = 101 ∷ []

unfoldable pub apld_from_stored : RawApld → ApldState
apld_from_stored missing = pending
apld_from_stored (flag b) = if b then applied else pending
apld_from_stored (chars s) =
    if bytes_same s (apld_chars applied)
    then applied
    else if bytes_same s (apld_chars failed_apply)
    then failed_apply
    else pending

abbrev pub same_apld : ApldState → ApldState → Bool
same_apld a b = bytes_same (apld_chars a) (apld_chars b)

-- `isTerminalApplyFailure`
pub is_terminal_apply_failure : Status → Bool
is_terminal_apply_failure st =
    not (st == success)
    && not (st == no_change)
    && not (st == database_error)
    && not (st == storage_error)

-- `IStoredMessageData`
pub record StoredData : Type 0 where
  pub eid : Bytes
  pub off : Option ℤ
  pub ctr : Option ℤ
  pub typ : Option Str
  pub body : Option Bytes
  pub rlm : Option Str
  pub apld : RawApld
  pub err_status : Option Status

pub is_pending_apply : StoredData → Bool
is_pending_apply row = same_apld (apld_from_stored row.apld) pending

-- `omitDefaultRealm`
not_empty : Option Str → Option Str
not_empty (some []) = none
not_empty rlm = rlm

pub omit_default_realm : StoredData → StoredData
omit_default_realm row = record row { rlm = not_empty row.rlm }

-- `setApld`
err_of : ApldState → Option Status → Option Status
err_of failed_apply status = status
err_of _ status = none

pub set_apld : ApldState → Option Status → StoredData → StoredData
set_apld state status row = record row {
  apld = chars (apld_chars state);
  err_status = err_of state status;
}

-- `IStoredMessage`
pub record StoredMessage : Type 0 where
  pub hash : Bytes
  pub head : MessageHead
  pub body : Option Bytes
  pub apld : ApldState
  pub rlm : Option Str
  pub err_status : Option Status

abbrev pub or_zero : Option ℤ → ℤ
or_zero none = pos 0
or_zero (some n) = n

len_of : Option Bytes → ℕ
len_of none = 0
len_of (some body) = length body

-- The hash of the body, where it is included and not empty.
hsh_of : (Bytes → Bytes) → Bool → Option Bytes → Option Bytes
hsh_of blake3 true (some (b ∷ bs)) = some (blake3 (b ∷ bs))
hsh_of blake3 _ _ = none

pub to_stored_message : (Bytes → Bytes) → Bool → Bytes → StoredData → StoredMessage
to_stored_message blake3 include_body hash row =
    let apld = apld_from_stored row.apld in
    record {
      hash = hash;
      head = record {
        typ = some (typ_of row.typ);
        eid = row.eid;
        off = or_zero row.off;
        ctr = or_zero row.ctr;
        len = pos (len_of row.body);
        hsh = hsh_of blake3 include_body row.body;
      };
      body = if include_body then row.body else none;
      apld = apld;
      rlm = not_empty row.rlm;
      err_status = if same_apld apld failed_apply then row.err_status else none;
    }

abbrev pub MessageStore : Type 0
MessageStore = List (Bytes × StoredData)

add_rows : List (Bytes × StoredData) → MessageStore → MessageStore
add_rows [] m = m
add_rows ((key, row) ∷ rows) m = add_rows rows (insert key (omit_default_realm row) m)

pub add_messages : List (Bytes × StoredData) → Exec MessageStore (List Status)
unfolding add_rows
add_messages rows m = (ok (map (λ r. success) rows), add_rows rows m)

erase_keys : List Bytes → MessageStore → MessageStore
erase_keys [] m = m
erase_keys (key ∷ keys) m = erase_keys keys (erase key m)

pub del_messages : List Bytes → Exec MessageStore Done
unfolding erase_keys
del_messages keys = modify (erase_keys keys)

shown : (Bytes → Bytes) → Bytes → Option StoredData → Option StoredMessage
shown blake3 key none = none
shown blake3 key (some row) = some (to_stored_message blake3 true key row)

pub get_message : (Bytes → Bytes) → Bytes → MessageStore → Option StoredMessage
unfolding shown
get_message blake3 key m = shown blake3 key (lookup key m)

pub has_message : Bytes → MessageStore → Bool
has_message key [] = false
has_message key ((k, row) ∷ m) = bytes_same k key || has_message key m

-- The filter of `list` and `count`; without one every row counts.
in_state : Option ApldState → StoredData → Bool
in_state none row = true
in_state (some apld) row = same_apld (apld_from_stored row.apld) apld

pub list_messages : (Bytes → Bytes) → Option ApldState → Bool → MessageStore → List StoredMessage
unfolding in_state
list_messages blake3 apld body [] = []
list_messages blake3 apld body ((key, row) ∷ m) =
    let rest = list_messages blake3 apld body m in
    if in_state apld row then to_stored_message blake3 body key row ∷ rest else rest

pub count_messages : Option ApldState → MessageStore → ℕ
unfolding in_state
count_messages apld [] = 0
count_messages apld ((key, row) ∷ m) =
    let rest = count_messages apld m in if in_state apld row then suc rest else rest

pub list_keys : MessageStore → List Bytes
list_keys [] = []
list_keys ((key, row) ∷ m) = key ∷ list_keys m

-- A higher counter, or the same one and a higher offset.
pub is_later : StoredData → StoredData → Bool
is_later row latest =
    ltb_ℤ (or_zero latest.ctr) (or_zero row.ctr)
    || ((or_zero row.ctr ==ℤ or_zero latest.ctr) && ltb_ℤ (or_zero latest.off) (or_zero row.off))

replaces : StoredData → Option (Bytes × StoredData) → Bool
unfolding is_later
replaces row none = true
replaces row (some latest) = is_later row latest.1

last_from : Bytes → MessageStore → Option (Bytes × StoredData) → Option (Bytes × StoredData)
unfolding replaces
last_from eid [] latest = latest
last_from eid ((key, row) ∷ m) latest =
    let newer = last_from eid m (some (key, row)) in
    let rest = last_from eid m latest in
    if not (bytes_same eid row.eid) then rest else if replaces row latest then newer else rest

last_shown : (Bytes → Bytes) → Option (Bytes × StoredData) → Option StoredMessage
last_shown blake3 none = none
last_shown blake3 (some (key, row)) = some (to_stored_message blake3 true key row)

pub last_message : (Bytes → Bytes) → Bytes → MessageStore → Option StoredMessage
unfolding last_from last_shown
last_message blake3 eid m = last_shown blake3 (last_from eid m none)

mark_row : Bytes → ApldState → Option Status → Option StoredData → MessageStore → MessageStore
mark_row key state status none m = m
mark_row key state status (some row) m = insert key (set_apld state status row) m

pub mark_applied : List Bytes → MessageStore → MessageStore
unfolding mark_row
mark_applied [] m = m
mark_applied (key ∷ keys) m = mark_applied keys (mark_row key applied none (lookup key m) m)

pub mark_failed : List (Bytes × Status) → MessageStore → MessageStore
unfolding mark_row
mark_failed [] m = m
mark_failed ((key, status) ∷ entries) m =
    mark_failed entries (mark_row key failed_apply (some status) (lookup key m) m)

pub wipe_messages : Exec MessageStore Done
wipe_messages = modify (λ m. [])
