-- ===== src/Sealing/Bags/Peeks.antt =====
-- The head of a sealed bag as PEEK hands it out, opened by `decryptPeekItem` of shared/sync.ts.
use diplomatic.Wire.MessageHead
use diplomatic.Wire.PeekItemHead
use diplomatic.Base.{==_iff, [], ap, append-nil, length, refl, some, true, ◌≡◌}
use diplomatic.Base.Int.{ℤ}
use diplomatic.Codec.{Bytes, Decoder, decoder}
use diplomatic.Codec.Structs.{encoding, round_trip}
use diplomatic.Consts.{hash_bytes}
use diplomatic.EntDb.State.{Message}
use diplomatic.Exec.{ValStat, ok}
use diplomatic.Host.Storage.{head_of_bag}
use diplomatic.Sealing.{BagManager, Primitives}
use diplomatic.Sealing.Bags.{bag_sig_msg, decrypt_peek_item, decrypted, seal_bag}
use diplomatic.Sealing.Bags.Opens.{sealed_head}
use diplomatic.Sealing.Bags.Sends.{Confirms}
use diplomatic.Sealing.Bags.Steps.{
  IsSound, head_read, Sealed, decrypt_with-encrypt_with, seal_bag-Sealed, sign_with-confirmed,
}
use diplomatic.Wire.Bag.{Bag}
use diplomatic.Wire.MessageHead.{MessageHead, message_head_codec}
use diplomatic.Wire.PeekItem.{PeekItem}
use diplomatic.Wire.PeekItemHead.{PeekItemHead, peek_item_head_codec, peek_item_head_laws}
use mathlib.Core.Path.{subst}

module _ {VerifyKey : Type 0} (crypto : Primitives VerifyKey) where
  -- What PEEK serves for the bag, at some seq.
  abbrev pub served : Bag → ℤ → PeekItem
  served bag seq = record { seq = seq; head_cph = encoding peek_item_head_codec (head_of_bag bag) }

  served_read :
      (head : PeekItemHead)
      → PeekItemHead.IsWellFormed head
      → (peek_item_head_codec.decode (decoder (encoding peek_item_head_codec head))).0 ≡ ok head
  served_read head h =
      let (w, reads) = round_trip peek_item_head_laws head h in
      subst (λ b. (peek_item_head_codec.decode (decoder b)).0 ≡ ok head)
        (append-nil (encoding peek_item_head_codec head))
        (ap (λ (r : ValStat PeekItemHead × Decoder). r.0) (reads [] []))

  decrypt_peek_item-Sealed :
      (sound : IsSound crypto) (mgr : BagManager) (msg : Message) (bag : Bag) (keys : Bytes × Bytes)
      (verify_key : VerifyKey) (seq : ℤ)
      → crypto.key_pair mgr.idnt ≡ some keys
      → crypto.host.import_verify_key keys.0 ≡ some verify_key
      → length mgr.rlm ≡ hash_bytes
      → MessageHead.IsWellFormed (sealed_head crypto msg)
      → PeekItemHead.IsWellFormed (head_of_bag bag)
      → Sealed crypto msg mgr bag
      → decrypt_peek_item crypto (served bag seq) verify_key mgr
        ≡ ok (record {
          kdm = bag.kdm;
          head_enc = encoding message_head_codec (sealed_head crypto msg);
        })
  unfolding decrypt_peek_item decrypted
  decrypt_peek_item-Sealed sound mgr msg bag keys verify_key seq k i l h w s =
      let (parsed, enc) = head_read crypto (sealed_head crypto msg) s.head_enc h s.head_enc_ok in
      let signed : crypto.host.check_sig s.sig (bag_sig_msg mgr.rlm s.head_cph) verify_key ≡ true =
        sign_with-confirmed crypto sound mgr (bag_sig_msg mgr.rlm s.head_cph) s.sig keys verify_key
          k i s.sig_ok in
      let read =
        (decrypt_with-encrypt_with crypto sound mgr s.kdm s.head_enc s.head_cph s.head_ok).0 in
      subst
        (λ b.
          PeekItemHead.IsWellFormed (head_of_bag b)
          → decrypt_peek_item crypto (served b seq) verify_key mgr
            ≡ ok (record {
              kdm = b.kdm;
              head_enc = encoding message_head_codec (sealed_head crypto msg);
            }))
        s.made
        (λ w'.
          rw
            (
              (==_iff (length mgr.rlm) hash_bytes).1 l,
              served_read (record { sig = s.sig; kdm = s.kdm; head_cph = s.head_cph }) w',
              signed,
              read,
              enc,
            )
            refl)
        w

  -- A reader of the realm that gets the head of a sealed bag from PEEK finds the encoded head of the
  -- message in it, where the library keeps its laws, the realm has 32 bytes, both heads can be encoded,
  -- and the key is that of the manager's identity.
  pub decrypt_peek_item-seal_bag :
      (sound : IsSound crypto) (mgr : BagManager) (msg : Message) (bag : Bag)
      (verify_key : VerifyKey) (seq : ℤ)
      → Confirms crypto verify_key mgr
      → length mgr.rlm ≡ hash_bytes
      → MessageHead.IsWellFormed (sealed_head crypto msg)
      → PeekItemHead.IsWellFormed (head_of_bag bag)
      → seal_bag crypto msg mgr ≡ ok bag
      → decrypt_peek_item crypto (served bag seq) verify_key mgr
        ≡ ok (record {
          kdm = bag.kdm;
          head_enc = encoding message_head_codec (sealed_head crypto msg);
        })
  decrypt_peek_item-seal_bag sound mgr msg bag verify_key seq (keys, k, i) l h w e =
      decrypt_peek_item-Sealed sound mgr msg bag keys verify_key seq k i l h w
        (seal_bag-Sealed crypto msg mgr bag e)
