-- ===== src/Stores/Accounts.antt =====
-- web/src/stores/label.ts, keyTag.ts and memory/account.ts: the accounts and the masters they belong to.
-- The fingerprint of a master and the nonces that are drawn are parameters.
pub mod Save
use diplomatic.Base.{
  Bool, List, Option, [], false, if◌then◌else◌, leb, length, none, not, some, ℕ, ◌&&◌, ◌==◌, ◌||◌,
  ◌∷◌,
}
use diplomatic.Base.Keyed.{bytes_key, bytes_same, insert, lookup}
use diplomatic.Codec.{Bytes}
use diplomatic.Consts.{hash_bytes, hash_mismatch, invalid_param}
use diplomatic.Exec.{
  Done, Exec, ValStat, diverged, err, fail, lift, modify, ok, pure, query, raise, thrown, ◌>>=◌,
  ◌>>◌,
}
use diplomatic.Text.{Str}

-- White space and line ends of JavaScript, which `trim` takes off.
unfoldable pub is_space : ℕ → Bool
is_space c =
    (leb 9 c && leb c 13)
    || (c == 32)
    || (c == 160)
    || (c == 5760)
    || (leb 8192 c && leb c 8202)
    || (c == 8232)
    || (c == 8233)
    || (c == 8239)
    || (c == 8287)
    || (c == 12288)
    || (c == 65279)

unfoldable pub trim_start : Str → Str
trim_start [] = []
trim_start (c ∷ cs) = let rest = trim_start cs in if is_space c then rest else c ∷ cs

unfoldable pub snoc_trimmed : ℕ → Str → Str
snoc_trimmed c [] = if is_space c then [] else c ∷ []
snoc_trimmed c (d ∷ ds) = c ∷ d ∷ ds

unfoldable pub trim_end : Str → Str
unfolding snoc_trimmed
trim_end [] = []
trim_end (c ∷ cs) = snoc_trimmed c (trim_end cs)

unfoldable pub trim : Str → Str
unfolding trim_start trim_end
trim s = trim_end (trim_start s)

-- `accountLabel`, whose argument is a string or missing by its type.
unfoldable pub account_label : Option Str → ValStat Str
account_label none = ok []
account_label (some raw) = ok (trim raw)

-- `current !== undefined && current !== label`
differs : Option Str → Str → Bool
differs none label = false
differs (some current) label = not (bytes_same current label)

pub single_account_label : Option Str → Option Str → Bool → ValStat Str
unfolding differs
single_account_label current raw occupied = elim (account_label raw) [
  | ok label ↦ if occupied && differs current label then err invalid_param else ok label
  | _ ↦ err invalid_param
]

pub record KeyTag : Type 0 where
  pub n : Bytes
  pub h : Bytes

-- `asChildKey`
as_child_key : Bytes → ValStat Bytes
as_child_key key = if length key == hash_bytes then ok key else err invalid_param

child_of : ValStat Bytes → ValStat Bytes
child_of (ok child) = as_child_key child
child_of (err s) = err s
child_of thrown = thrown
child_of diverged = diverged

tag_of : Bytes → ValStat Bytes → ValStat KeyTag
tag_of n (ok h) = ok (record { n = n; h = h })
tag_of n (err s) = err s
tag_of n thrown = thrown
tag_of n diverged = diverged

same_digest : Bytes → ValStat Bytes → ValStat Bool
same_digest h (ok digest) = ok (bytes_same digest h)
same_digest h (err s) = ok false
same_digest h thrown = thrown
same_digest h diverged = diverged

-- `E` is the type of enclaves.
module _ {E : Type 0} (fingerprint : E → Bytes → ValStat Bytes) where
  pub key_tag_digest : E → Bytes → ValStat Bytes
  key_tag_digest enclave nonce = child_of (fingerprint enclave nonce)

  -- `nonce` is the seed that is drawn.
  pub make_key_tag : Bytes → E → ValStat KeyTag
  make_key_tag nonce enclave = tag_of nonce (key_tag_digest enclave nonce)

  pub key_tag_matches : E → KeyTag → ValStat Bool
  key_tag_matches enclave tag = same_digest tag.h (key_tag_digest enclave tag.n)

-- The slots of `MemoryAccountStore`, by label.
abbrev pub AccountStore : Type 0
AccountStore = List (Str × Option KeyTag)

or_no_tag : Option (Option KeyTag) → Option KeyTag
or_no_tag none = none
or_no_tag (some tag) = tag

-- The tag that the slot gets: the one that it has where that names this master, or a new one.
kept_tag : KeyTag → ValStat Bool → ValStat KeyTag
kept_tag tag (ok hit) = if hit then ok tag else err hash_mismatch
kept_tag tag (err s) = err s
kept_tag tag thrown = thrown
kept_tag tag diverged = diverged

module _ {E : Type 0} (fingerprint : E → Bytes → ValStat Bytes) where
  slot_tag : Bytes → E → Option KeyTag → ValStat KeyTag
  slot_tag nonce enclave none = make_key_tag fingerprint nonce enclave
  slot_tag nonce enclave (some tag) = kept_tag tag (key_tag_matches fingerprint enclave tag)

  save_at : Bytes → E → Str → Exec AccountStore E
  save_at nonce enclave label = do
    tag ← query (λ slots. slot_tag nonce enclave (or_no_tag (lookup label slots)))
    modify (insert label (some tag))
    pure enclave

  save_labelled : Bytes → E → ValStat Str → Exec AccountStore E
  save_labelled nonce enclave (ok label) = save_at nonce enclave label
  save_labelled nonce enclave (err s) = fail invalid_param
  save_labelled nonce enclave thrown = raise
  save_labelled nonce enclave diverged = lift diverged

  -- `opts` is the label that is asked for.
  pub save_account : Bytes → E → Option Str → Exec AccountStore E
  save_account nonce enclave opts = save_labelled nonce enclave (account_label opts)

pub wipe_accounts : Exec AccountStore Done
wipe_accounts = modify (λ slots. [])

pub peek_key_tag : Str → AccountStore → Option KeyTag
peek_key_tag label slots = or_no_tag (lookup label slots)
