-- ===== src/Sealing/Bags.antt =====
-- shared/bag.ts and sync.ts: a message is sealed into a bag, and a bag or a head of PEEK is opened.
pub mod Opens
pub mod Steps
pub mod Peeks
pub mod Sends
pub mod Sound
use diplomatic.Base.{Option, [], if◌then◌else◌, length, none, some, ◌++◌, ◌==◌, ◌∷◌}
use diplomatic.Base.Int.{ltb_ℤ, pos, ℤ}
use diplomatic.Base.Keyed.{bytes_same}
use diplomatic.Codec.{Bytes, checked, decoder, encoded, new_encoder}
use diplomatic.Consts.{
  hash_bytes, hash_mismatch, invalid_message, invalid_param, invalid_signature, not_found,
}
use diplomatic.EntDb.State.{Message}
use diplomatic.Exec.{Done, ValStat, err, ok, ◌>>◌}
use diplomatic.Exec.Results.{◌>>=◌}
use diplomatic.Host.Server.{bag_sig_valid}
use diplomatic.Sealing.{BagManager, Primitives, bag_kdm_of, decrypt_with, encrypt_with, sign_with}
use diplomatic.Wire.Bag.{Bag}
use diplomatic.Wire.MessageHead.{MessageHead, message_head_codec}
use diplomatic.Wire.PeekItem.{PeekItem}
use diplomatic.Wire.PeekItemHead.{PeekItemHead, peek_item_head_codec}

-- `IOpenBag`, and with its message the `IMessageWithHash` that `openBag` returns.
pub record OpenBag : Type 0 where
  pub msg : Message
  pub head_hash : Bytes

-- `IDecryptedBagPeekItem`
pub record DecryptedPeekItem : Type 0 where
  pub kdm : Bytes
  pub head_enc : Bytes

-- `bagSigMsg`
abbrev pub bag_sig_msg : Bytes → Bytes → Bytes
bag_sig_msg rlm head_cph = rlm ++ head_cph

-- `if (bodyMissing || hashMissing) …`, and the comparison of the two hashes.
check_body : (Bytes → Bytes) → Option Bytes → Option Bytes → ValStat Done
check_body blake3 none none = ok tt
check_body blake3 (some hsh) none = err hash_mismatch
check_body blake3 none (some bod) = err hash_mismatch
check_body blake3 (some hsh) (some bod) =
    if bytes_same (blake3 bod) hsh then ok tt else err hash_mismatch

-- A head that cannot be decoded is an invalid message.
parsed_head : ValStat MessageHead → ValStat MessageHead
parsed_head (err s) = err invalid_message
parsed_head r = r

-- An empty ciphertext is no body.
pub open_body : (Bytes → ValStat Bytes) → Option Bytes → ValStat (Option Bytes)
open_body cipher (some (b ∷ bs)) = do bod ← cipher (b ∷ bs); ok (some bod)
open_body cipher _ = ok none

known_or : Bytes → Option Bytes → Bytes
known_or hash none = hash
known_or hash (some known) = known

abbrev pub with_hsh : MessageHead → Option Bytes → MessageHead
with_hsh head hsh = record head { hsh = hsh }

module _ {VerifyKey : Type 0} (crypto : Primitives VerifyKey) where
  -- `hsh` of `sealBag`.
  unfoldable pub hsh_for : ℤ → Option Bytes → Option Bytes
  hsh_for len none = none
  hsh_for len (some bod) = if ltb_ℤ (pos 0) len then some (crypto.blake3 bod) else none

  unfoldable pub sealed_hsh : Message → Option Bytes
  sealed_hsh msg = hsh_for msg.head.len msg.bod

  pub seal_body : BagManager → Bytes → Option Bytes → ValStat Bytes
  seal_body mgr kdm none = ok []
  seal_body mgr kdm (some bod) = encrypt_with crypto mgr kdm bod

  pub seal_bag : Message → BagManager → ValStat Bag
  seal_bag msg mgr = do
    head_enc ← encoded (message_head_codec.encode (with_hsh msg.head (sealed_hsh msg)) new_encoder)
    kdm ← bag_kdm_of crypto mgr head_enc
    head_cph ← encrypt_with crypto mgr kdm head_enc
    body_cph ← seal_body mgr kdm msg.bod
    sig ← sign_with crypto mgr (bag_sig_msg mgr.rlm head_cph)
    ok (record { rlm = mgr.rlm; sig = sig; kdm = kdm; head_cph = head_cph; body_cph = body_cph })

  pub open_bag_body :
      Bytes → Option Bytes → (Bytes → ValStat Bytes) → Option Bytes → ValStat OpenBag
  open_bag_body head_enc body_cph cipher head_hash_known = do
    msg_head ← parsed_head (message_head_codec.decode (decoder head_enc)).0
    bod ← open_body cipher body_cph
    checked ← check_body crypto.blake3 msg_head.hsh bod
    ok (record {
      msg = record { head = msg_head; bod = bod };
      head_hash = known_or (crypto.blake3 head_enc) head_hash_known;
    })

  open_checked : Bag → BagManager → ValStat OpenBag
  open_checked bag mgr = do
    head_enc ← decrypt_with crypto mgr bag.kdm bag.head_cph
    open_bag_body head_enc (some bag.body_cph) (decrypt_with crypto mgr bag.kdm) none

  pub open_bag : Bag → VerifyKey → BagManager → ValStat OpenBag
  open_bag bag verify_key mgr =
      if bag_sig_valid crypto.host bag verify_key
      then (if bytes_same mgr.rlm bag.rlm then open_checked bag mgr else err not_found)
      else err invalid_signature

  decrypted : PeekItemHead → VerifyKey → BagManager → ValStat DecryptedPeekItem
  decrypted item verify_key mgr =
      if crypto.host.check_sig item.sig (bag_sig_msg mgr.rlm item.head_cph) verify_key
      then (do
        head_enc ← decrypt_with crypto mgr item.kdm item.head_cph
        ok (record { kdm = item.kdm; head_enc = head_enc }))
      else err invalid_signature

  pub decrypt_peek_item : PeekItem → VerifyKey → BagManager → ValStat DecryptedPeekItem
  decrypt_peek_item item verify_key mgr =
      if length mgr.rlm == hash_bytes
      then (do
        head ← (peek_item_head_codec.decode (decoder item.head_cph)).0
        decrypted head verify_key mgr)
      else err invalid_param
