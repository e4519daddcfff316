-- ===== src/Tests/Archive.antt =====
-- The archive of messages and the accounts at concrete rows.
use diplomatic.Base.{[], if◌then◌else◌, none, refl, some, suc, zero, ℕ, ◌∷◌, ◌≡◌}
use diplomatic.Base.Int.{pos, ℤ}
use diplomatic.Base.Keyed.{bytes_key}
use diplomatic.Client.Singleton.{apply_singleton, is_present, new_singleton}
use diplomatic.Client.Singleton.Latest.{IsLatest, apply_singleton_lem}
use diplomatic.Codec.{Bytes}
use diplomatic.EntDb.State.{Message}
use diplomatic.Exec.{ValStat, ok}
use diplomatic.Stores.Accounts.{
  AccountStore, account_label, is_space, save_account, snoc_trimmed, trim, trim_end, trim_start,
}
use diplomatic.Stores.Accounts.Save.{IsSave, save_account_lem}
use diplomatic.Stores.Msgs.{
  MessageStore, StoredData, applied, get_message, last_message, mark_applied, missing,
}
use diplomatic.Stores.Msgs.Last.{IsLast, last_message_lem}
use diplomatic.Stores.Msgs.Marks.{listed, mark_applied_lem, marked}
use diplomatic.Tests.{zeros}
use diplomatic.Tests.Wire.{small_head}

-- Two messages about one entity.
abbrev row_at : ℤ → StoredData
row_at ctr = record {
  eid = 4 ∷ [];
  off = none;
  ctr = some ctr;
  typ = none;
  body = some (1 ∷ []);
  rlm = none;
  apld = missing;
  err_status = none;
}

abbrev archive : MessageStore
archive = (1 ∷ [], row_at (pos 3)) ∷ (2 ∷ [], row_at (pos 7)) ∷ []

last_message_lem_example :
    IsLast (λ bytes. bytes) (4 ∷ []) archive (last_message (λ bytes. bytes) (4 ∷ []) archive)
last_message_lem_example = last_message_lem (λ bytes. bytes) (4 ∷ []) archive

mark_applied_lem_example :
    get_message (λ bytes. bytes) (1 ∷ []) (mark_applied ((1 ∷ []) ∷ []) archive) ≡ (
      if listed (1 ∷ []) ((1 ∷ []) ∷ [])
      then marked applied none (get_message (λ bytes. bytes) (1 ∷ []) archive)
      else get_message (λ bytes. bytes) (1 ∷ []) archive)
mark_applied_lem_example = mark_applied_lem (λ bytes. bytes) ((1 ∷ []) ∷ []) (1 ∷ []) archive

-- The master is a number, and its fingerprint that number, 32 times.
abbrev fingerprint : ℕ → Bytes → ValStat Bytes
fingerprint master nonce = ok (times 32)
  where
    times : ℕ → Bytes
    times zero = []
    times (suc n) = master ∷ times n

-- The account "a" of master 0, saved under " a" by master 2.
abbrev accounts : AccountStore
accounts = (97 ∷ [], some (record { n = 5 ∷ []; h = zeros 32 })) ∷ []

save_account_lem_example :
    IsSave fingerprint 2
      (97 ∷ [])
      accounts
      (save_account fingerprint (6 ∷ []) 2 (some (32 ∷ 97 ∷ [])) accounts)
unfolding account_label trim trim_start trim_end snoc_trimmed is_space
save_account_lem_example =
    save_account_lem fingerprint (6 ∷ []) 2 (some (32 ∷ 97 ∷ [])) (97 ∷ []) accounts refl

-- A message with content.
abbrev content_msg : Message
content_msg = record { head = small_head; bod = some (1 ∷ []) }

apply_singleton_lem_example :
    IsLatest
      (104 ∷ [])
      (content_msg ∷ [])
      (apply_singleton (104 ∷ []) (content_msg ∷ []) new_singleton).1
unfolding is_present
apply_singleton_lem_example = apply_singleton_lem (104 ∷ []) (content_msg ∷ []) ((λ q. refl), tt)
