-- ===== src/Stores/Queues.antt =====
-- web/src/stores/memory/uplds.ts and dnlds.ts: the messages that wait for an upload or a download.
-- A set of hex strings is the list of the hashes that they stand for, in the order of insertion.
use diplomatic.Base.{
  Bool, List, Option, [], false, if◌then◌else◌, length, none, some, ℕ, ◌++◌, ◌+◌, ◌||◌, ◌∷◌,
}
use diplomatic.Base.Int.{ℤ}
use diplomatic.Base.Keyed.{bytes_key, bytes_same, erase, insert, lookup}
use diplomatic.Codec.{Bytes}
use diplomatic.Exec.{Done, Exec, modify}
use diplomatic.Stores.Cursor.{download_key}
use diplomatic.Stores.Cursor.Project.{values}
use diplomatic.Text.{Str}
use diplomatic.Wire.Kdm.{Kdm}
use diplomatic.Wire.MessageHead.{MessageHead}

abbrev pub UploadQueue : Type 0
UploadQueue = List (Str × List Bytes)

pub in_set : Bytes → List Bytes → Bool
in_set hash [] = false
in_set hash (h ∷ hs) = bytes_same h hash || in_set hash hs

-- `Set.add` and `Set.delete`
set_adds : List Bytes → List Bytes → List Bytes
set_adds [] set = set
set_adds (hash ∷ hashes) set = set_adds hashes (if in_set hash set then set else set ++ (hash ∷ []))

set_delete : Bytes → List Bytes → List Bytes
set_delete hash [] = []
set_delete hash (h ∷ hs) =
    let rest = set_delete hash hs in if bytes_same h hash then hs else h ∷ rest

set_deletes : List Bytes → List Bytes → List Bytes
unfolding set_delete
set_deletes [] set = set
set_deletes (hash ∷ hashes) set = set_deletes hashes (set_delete hash set)

or_no_set : Option (List Bytes) → List Bytes
or_no_set none = []
or_no_set (some set) = set

pub enq_uploads : Str → List Bytes → Exec UploadQueue Done
unfolding set_adds or_no_set
enq_uploads host hashes = modify (λ q. insert host (set_adds hashes (or_no_set (lookup host q))) q)

deq_from : Str → List Bytes → Option (List Bytes) → UploadQueue → UploadQueue
deq_from host hashes none q = q
deq_from host hashes (some set) q = insert host (set_deletes hashes set) q

pub deq_uploads : Str → List Bytes → Exec UploadQueue Done
unfolding set_deletes deq_from
deq_uploads host hashes = modify (λ q. deq_from host hashes (lookup host q) q)

pub list_uploads : Str → UploadQueue → List Bytes
unfolding or_no_set
list_uploads host q = or_no_set (lookup host q)

pub count_uploads : UploadQueue → ℕ
count_uploads [] = 0
count_uploads ((host, set) ∷ q) = length set + count_uploads q

pub wipe_uploads : Exec UploadQueue Done
wipe_uploads = modify (λ q. [])

-- `IDownloadMessage`
pub record DownloadMessage : Type 0 where
  pub kdm : Bytes
  pub seq : ℤ
  pub head : MessageHead
  pub host : Str
  pub head_enc : Option Bytes
  pub head_enc_hash : Option Bytes
  pub realm : Option Kdm

abbrev pub DownloadQueue : Type 0
DownloadQueue = List (Str × DownloadMessage)

enq_rows : List DownloadMessage → DownloadQueue → DownloadQueue
enq_rows [] q = q
enq_rows (msg ∷ msgs) q = enq_rows msgs (insert (download_key msg.host msg.seq msg.realm) msg q)

pub enq_downloads : List DownloadMessage → Exec DownloadQueue Done
unfolding enq_rows
enq_downloads msgs = modify (enq_rows msgs)

deq_rows : Str → List ℤ → Option Kdm → DownloadQueue → DownloadQueue
deq_rows host [] realm q = q
deq_rows host (seq ∷ seqs) realm q =
    deq_rows host seqs realm (erase (download_key host seq realm) q)

pub deq_downloads : Str → List ℤ → Option Kdm → Exec DownloadQueue Done
unfolding deq_rows
deq_downloads host seqs realm = modify (deq_rows host seqs realm)

pub list_downloads : DownloadQueue → List DownloadMessage
list_downloads q = values q

pub count_downloads : DownloadQueue → ℕ
count_downloads q = length q

pub wipe_downloads : Exec DownloadQueue Done
wipe_downloads = modify (λ q. [])
