-- ===== src/Sealing/Bags/Opens.antt =====
-- A bag that `sealBag` of shared/bag.ts makes, opened by a manager of the same realm.
use diplomatic.Wire.MessageHead
use diplomatic.Base.{==_iff, Option, arith, inl, inr, length, none, refl, some, true, ◌∙◌, ◌≡◌, ◌⊎◌}
use diplomatic.Base.Int.{ltb_ℤ, pos, ℤ, ◌<ℤ◌}
use diplomatic.Base.Keyed.{bytes_same_iff}
use diplomatic.Codec.{Bytes, decoder}
use diplomatic.Codec.Structs.{encoding}
use diplomatic.Consts.{hash_bytes, hash_mismatch}
use diplomatic.EntDb.State.{Message}
use diplomatic.Exec.{err, ok}
use diplomatic.Exec.Results.{◌>>=◌}
use diplomatic.Host.Server.{bag_sig_valid}
use diplomatic.Sealing.{BagManager, Primitives, decrypt_with}
use diplomatic.Sealing.Bags.{
  OpenBag, bag_sig_msg, check_body, hsh_for, known_or, open_bag, open_bag_body, open_body,
  open_checked, parsed_head, seal_bag, sealed_hsh, with_hsh,
}
use diplomatic.Sealing.Bags.Steps.{
  IsSound, head_read, Sealed, decrypt_with-encrypt_with, open_body-seal_body, seal_bag-Sealed,
  sign_with-confirmed,
}
use diplomatic.Wire.Bag.{Bag}
use diplomatic.Wire.MessageHead.{MessageHead, message_head_codec}
use mathlib.Core.Path.{subst}

module _ {VerifyKey : Type 0} (crypto : Primitives VerifyKey) where
  -- The message with its head as it was sealed, and the hash of that head.
  abbrev pub sealed_head : Message → MessageHead
  sealed_head msg = with_hsh msg.head (sealed_hsh crypto msg)

  abbrev pub sent : Message → OpenBag
  sent msg = record {
    msg = record { head = sealed_head msg; bod = msg.bod };
    head_hash = crypto.blake3 (encoding message_head_codec (sealed_head msg));
  }

  open_body_first :
      (mgr : BagManager) (msg : Message) (kdm head_enc body_cph : Bytes)
      → (message_head_codec.decode (decoder head_enc)).0 ≡ ok (sealed_head msg)
      → head_enc ≡ encoding message_head_codec (sealed_head msg)
      → open_body (decrypt_with crypto mgr kdm) (some body_cph) ≡ ok msg.bod
      → open_bag_body crypto head_enc (some body_cph) (decrypt_with crypto mgr kdm) none
        ≡ (check_body crypto.blake3 (sealed_hsh crypto msg) msg.bod >>= λ _. ok (sent msg))
  unfolding open_bag_body parsed_head known_or
  open_body_first mgr msg kdm head_enc body_cph parsed enc body_read =
      rw (parsed, body_read, enc) refl

  -- The answer of `openBag` on a bag that `sealBag` made, from the comparison of the two hashes on.
  open_bag-Sealed :
      (sound : IsSound crypto) (mgr : BagManager) (msg : Message) (bag : Bag) (keys : Bytes × Bytes)
      (verify_key : VerifyKey)
      → crypto.key_pair mgr.idnt ≡ some keys
      → crypto.host.import_verify_key keys.0 ≡ some verify_key
      → length mgr.rlm ≡ hash_bytes
      → MessageHead.IsWellFormed (sealed_head msg)
      → Sealed crypto msg mgr bag
      → open_bag crypto bag verify_key mgr
        ≡ (check_body crypto.blake3 (sealed_hsh crypto msg) msg.bod >>= λ _. ok (sent msg))
  unfolding open_bag open_checked bag_sig_valid
  open_bag-Sealed sound mgr msg bag keys verify_key k i l h s =
      let (parsed, enc) = head_read crypto (sealed_head msg) s.head_enc h s.head_enc_ok in
      let signed : crypto.host.check_sig s.sig (bag_sig_msg mgr.rlm s.head_cph) verify_key ≡ true =
        sign_with-confirmed crypto sound mgr (bag_sig_msg mgr.rlm s.head_cph) s.sig keys verify_key
          k i s.sig_ok in
      let read =
        (decrypt_with-encrypt_with crypto sound mgr s.kdm s.head_enc s.head_cph s.head_ok).0 in
      let body_read = open_body-seal_body crypto sound mgr s.kdm s.body_cph msg.bod s.body_ok in
      subst
        (λ b.
          open_bag crypto b verify_key mgr
          ≡ (check_body crypto.blake3 (sealed_hsh crypto msg) msg.bod >>= λ _. ok (sent msg)))
        s.made
        (rw
          (
            (==_iff (length mgr.rlm) hash_bytes).1 l,
            signed,
            (bytes_same_iff mgr.rlm mgr.rlm).1 refl,
            read,
          )
          (open_body_first mgr msg s.kdm s.head_enc s.body_cph parsed enc body_read))

  -- A message whose body is there exactly where its length is not 0.
  abbrev pub IsSealable : Message → Type 0
  IsSealable msg = (msg.bod ≡ none) ⊎ (pos 0 <ℤ msg.head.len)

  check_body-hsh_for :
      (len : ℤ) (bod : Option Bytes)
      → (bod ≡ none) ⊎ (pos 0 <ℤ len)
      → check_body crypto.blake3 (hsh_for crypto len bod) bod ≡ ok tt
  unfolding check_body hsh_for
  check_body-hsh_for len none h = refl
  check_body-hsh_for len (some bod) (inl e) = cc
  check_body-hsh_for len (some bod) (inr l) =
      let more : ltb_ℤ (pos 0) len ≡ true = ground (arith, l) in
      rw (more, (bytes_same_iff (crypto.blake3 bod) (crypto.blake3 bod)).1 refl) refl

  -- A message whose body is there exactly where its length is not 0 comes back from `sealBag` and
  -- `openBag` with the hash of its body and that of its encoded head, where the library keeps its laws,
  -- the realm has 32 bytes, the head can be encoded, and the key is that of the manager's identity.
  pub open_bag-seal_bag :
      (sound : IsSound crypto) (mgr : BagManager) (msg : Message) (bag : Bag) (keys : Bytes × Bytes)
      (verify_key : VerifyKey)
      → crypto.key_pair mgr.idnt ≡ some keys
      → crypto.host.import_verify_key keys.0 ≡ some verify_key
      → length mgr.rlm ≡ hash_bytes
      → MessageHead.IsWellFormed (sealed_head msg)
      → IsSealable msg
      → seal_bag crypto msg mgr ≡ ok bag
      → open_bag crypto bag verify_key mgr ≡ ok (sent msg)
  unfolding sealed_hsh
  open_bag-seal_bag sound mgr msg bag keys verify_key k i l h p e =
      open_bag-Sealed sound mgr msg bag keys verify_key k i l h
        (seal_bag-Sealed crypto msg mgr bag e)
      ∙ rw (check_body-hsh_for msg.head.len msg.bod p) refl

  -- A message of length 0 with a body_read, an empty one too, is sealed all the same, and the bag that it
  -- leaves is refused with HashMismatch under the same conditions.
  pub open_bag-empty :
      (sound : IsSound crypto) (mgr : BagManager) (msg : Message) (bag : Bag) (keys : Bytes × Bytes)
      (verify_key : VerifyKey) (bod : Bytes)
      → crypto.key_pair mgr.idnt ≡ some keys
      → crypto.host.import_verify_key keys.0 ≡ some verify_key
      → length mgr.rlm ≡ hash_bytes
      → MessageHead.IsWellFormed (sealed_head msg)
      → msg.head.len ≡ pos 0
      → msg.bod ≡ some bod
      → seal_bag crypto msg mgr ≡ ok bag
      → open_bag crypto bag verify_key mgr ≡ err hash_mismatch
  unfolding sealed_hsh hsh_for check_body
  open_bag-empty sound mgr msg bag keys verify_key bod k i l h z b e =
      open_bag-Sealed sound mgr msg bag keys verify_key k i l h
        (seal_bag-Sealed crypto msg mgr bag e)
      ∙ rw (b, z) refl
