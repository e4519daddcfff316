-- ===== src/Sealing/Bags/Steps.antt =====
-- The steps of `sealBag` of shared/bag.ts, and what each leaves for `openBag`.
use diplomatic.Wire.MessageHead
use diplomatic.Base.{
  Option, [], ap, append-nil, arith, length, none, refl, some, sym, true, ◌<◌, ◌∙◌, ◌∷◌, ◌≡◌,
}
use diplomatic.Codec.{Bytes, Decoder, Encoder, decoder, encoded, new_encoder, result}
use diplomatic.Codec.Structs.{encoding, round_trip}
use diplomatic.Consts.{crypto_error}
use diplomatic.EntDb.State.{Message}
use diplomatic.Exec.{Done, ValStat, diverged, err, ok, thrown}
use diplomatic.Exec.Results.{bind_ok, ok_injective, or_status, or_status_ok, ◌>>=◌}
use diplomatic.Sealing.{
  BagManager, Primitives, bag_kdm_of, cipher_of, decrypt_with, encrypt_with, sign_with,
}
use diplomatic.Sealing.Bags.{bag_sig_msg, open_body, seal_bag, seal_body, sealed_hsh, with_hsh}
use diplomatic.Wire.Bag.{Bag}
use diplomatic.Wire.MessageHead.{MessageHead, message_head_codec, message_head_laws}
use mathlib.Core.Path.{subst}

pub encoded_ok : (r : ValStat Done × Encoder) → r.0 ≡ ok tt → encoded r ≡ ok (result r.1)
encoded_ok (ok _, enc) e = refl
encoded_ok (err s, enc) e = cc
encoded_ok (thrown, enc) e = cc
encoded_ok (diverged, enc) e = cc

module _ {VerifyKey : Type 0} (crypto : Primitives VerifyKey) where
  -- What the crypto library documents: decryption undoes encryption under the same key, a ciphertext
  -- is not empty, and a signature by a private key is confirmed by the public key of its pair.
  pub record IsSound : Type 0 where
    pub decrypts :
        (bytes key cph : Bytes)
        → crypto.encrypt bytes key ≡ some cph
        → crypto.decrypt cph key ≡ some bytes
    pub not_empty : (bytes key cph : Bytes) → crypto.encrypt bytes key ≡ some cph → 0 < length cph
    pub confirms :
        (seed message sig : Bytes) (keys : Bytes × Bytes) (verify_key : VerifyKey)
        → crypto.key_pair seed ≡ some keys
        → crypto.sign message keys.1 ≡ some sig
        → crypto.host.import_verify_key keys.0 ≡ some verify_key
        → crypto.host.check_sig sig message verify_key ≡ true

  -- The steps that `sealBag` takes where it succeeds.
  pub record Sealed (msg : Message) (mgr : BagManager) (bag : Bag) : Type 0 where
    pub head_enc : Bytes
    pub kdm : Bytes
    pub head_cph : Bytes
    pub body_cph : Bytes
    pub sig : Bytes
    pub head_enc_ok :
        encoded (message_head_codec.encode (with_hsh msg.head (sealed_hsh crypto msg)) new_encoder)
        ≡ ok head_enc
    pub head_ok : encrypt_with crypto mgr kdm head_enc ≡ ok head_cph
    pub body_ok : seal_body crypto mgr kdm msg.bod ≡ ok body_cph
    pub sig_ok : sign_with crypto mgr (bag_sig_msg mgr.rlm head_cph) ≡ ok sig
    pub made :
        record { rlm = mgr.rlm; sig = sig; kdm = kdm; head_cph = head_cph; body_cph = body_cph }
        ≡ bag

  pub seal_bag-Sealed :
      (msg : Message) (mgr : BagManager) (bag : Bag)
      → seal_bag crypto msg mgr ≡ ok bag
      → Sealed msg mgr bag
  unfolding seal_bag
  seal_bag-Sealed msg mgr bag e =
      let (head_enc, p, e1) = bind_ok _ _ bag e in
      let (kdm, q, e2) = bind_ok (bag_kdm_of crypto mgr head_enc) _ bag e1 in
      let (head_cph, r, e3) = bind_ok (encrypt_with crypto mgr kdm head_enc) _ bag e2 in
      let (body_cph, s, e4) = bind_ok (seal_body crypto mgr kdm msg.bod) _ bag e3 in
      let (sig, t, e5) = bind_ok (sign_with crypto mgr (bag_sig_msg mgr.rlm head_cph)) _ bag e4 in
      record {
        head_enc = head_enc;
        kdm = kdm;
        head_cph = head_cph;
        body_cph = body_cph;
        sig = sig;
        head_enc_ok = p;
        head_ok = r;
        body_ok = s;
        sig_ok = t;
        made = ok_injective _ _ e5;
      }

  pub decrypt_with-encrypt_with :
      (sound : IsSound) (mgr : BagManager) (kdm bytes cph : Bytes)
      → encrypt_with crypto mgr kdm bytes ≡ ok cph
      → (decrypt_with crypto mgr kdm cph ≡ ok bytes) × (0 < length cph)
  unfolding encrypt_with decrypt_with
  decrypt_with-encrypt_with sound mgr kdm bytes cph e =
      let (key, p, f) = bind_ok (cipher_of crypto mgr kdm) _ cph e in
      let encrypted = or_status_ok crypto_error (crypto.encrypt bytes key) cph f in
      (rw (p, sound.decrypts bytes key cph encrypted) refl, sound.not_empty bytes key cph encrypted)

  pub sign_with-confirmed :
      (sound : IsSound) (mgr : BagManager) (message sig : Bytes) (keys : Bytes × Bytes)
      (verify_key : VerifyKey)
      → crypto.key_pair mgr.idnt ≡ some keys
      → crypto.host.import_verify_key keys.0 ≡ some verify_key
      → sign_with crypto mgr message ≡ ok sig
      → crypto.host.check_sig sig message verify_key ≡ true
  unfolding sign_with
  sign_with-confirmed sound mgr message sig keys verify_key k i e =
      sound.confirms mgr.idnt message sig keys verify_key k
        (or_status_ok crypto_error (crypto.sign message keys.1) sig (
          subst
            (λ r.
              (or_status crypto_error r >>= λ keys.
              or_status crypto_error (crypto.sign message keys.1))
              ≡ ok sig)
            k e))
        i

  pub open_body-seal_body :
      (sound : IsSound) (mgr : BagManager) (kdm cph : Bytes) (bod : Option Bytes)
      → seal_body crypto mgr kdm bod ≡ ok cph
      → open_body (decrypt_with crypto mgr kdm) (some cph) ≡ ok bod
  unfolding seal_body open_body
  open_body-seal_body sound mgr kdm cph none e = rw (← ok_injective _ _ e) refl
  open_body-seal_body sound mgr kdm [] (some bod) e =
      absurd (omega (arith, (decrypt_with-encrypt_with sound mgr kdm bod [] e).1))
  open_body-seal_body sound mgr kdm (b ∷ bs) (some bod) e =
      rw ((decrypt_with-encrypt_with sound mgr kdm bod (b ∷ bs) e).0) refl

  -- The head that `openBag` reads is the one that was sealed.
  pub head_read :
      (head : MessageHead) (head_enc : Bytes)
      → MessageHead.IsWellFormed head
      → encoded (message_head_codec.encode head new_encoder) ≡ ok head_enc
      → ((message_head_codec.decode (decoder head_enc)).0 ≡ ok head)
        × (head_enc ≡ encoding message_head_codec head)
  head_read head head_enc h e =
      let (writes, reads) = round_trip message_head_laws head h in
      let same : head_enc ≡ encoding message_head_codec head =
        ok_injective _ _ (sym e ∙ encoded_ok _ writes) in
      (
        subst (λ b. (message_head_codec.decode (decoder b)).0 ≡ ok head)
            (append-nil (encoding message_head_codec head) ∙ sym same)
            (ap (λ (r : ValStat MessageHead × Decoder). r.0) (reads [] [])),
        same,
      )
