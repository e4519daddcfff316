-- ===== src/Sealing/Bags/Sends.antt =====
-- `sealBag` of shared/bag.ts where the crypto library answers each call, and the bag opened again.
use diplomatic.Wire.MessageHead
use diplomatic.Base.{Option, [], length, none, refl, some, take, ◌≡◌}
use diplomatic.Codec.{Bytes, new_encoder}
use diplomatic.Codec.Structs.{encoding, round_trip}
use diplomatic.Consts.{hash_bytes, kdm_bytes}
use diplomatic.EntDb.State.{Message}
use diplomatic.Exec.{ok}
use diplomatic.Sealing.{
  BagManager, Primitives, bag_kdm_of, bag_kdm_purpose, cipher_of, cipher_purpose, derive_child,
  derive_key, derive_pdk, encrypt_with, kdm_to_bytes, raw_bytes, sign_with,
}
use diplomatic.Sealing.Bags.{bag_sig_msg, open_bag, seal_bag, seal_body}
use diplomatic.Sealing.Bags.Steps.{IsSound, encoded_ok}
use diplomatic.Sealing.Bags.Opens.{IsSealable, open_bag-seal_bag, sealed_head, sent}
use diplomatic.Text.{Str}
use diplomatic.Wire.Bag.{Bag}
use diplomatic.Wire.MessageHead.{MessageHead, message_head_codec, message_head_laws}

-- The call does not throw.
abbrev Answers : {A : Type 0} → Option A → Type 0
Answers {A} r = (a : A) × (r ≡ some a)

module _ {VerifyKey : Type 0} (crypto : Primitives VerifyKey) where
  -- What the crypto library documents: BLAKE3 gives 32 bytes, in derivation from a context whatever
  -- the material is, and with a key where that has 32 bytes; XSalsa20-Poly1305 takes keys of 32 bytes;
  -- and a private key that was derived can sign. On any other key the library may throw.
  pub record IsWorking : Type 0 where
    pub contexts :
        (bytes : Bytes) (purpose : Str)
        → (key : Bytes) × (crypto.hash_context bytes purpose ≡ some key) × (length key ≡ hash_bytes)
    pub keyed :
        (bytes key : Bytes)
        → length key ≡ hash_bytes
        → (child : Bytes) × (crypto.hash_keyed bytes key ≡ some child) × (length child ≡ hash_bytes)
    pub encrypts :
        (bytes key : Bytes) → length key ≡ hash_bytes → Answers (crypto.encrypt bytes key)
    pub signs :
        (seed message : Bytes) (keys : Bytes × Bytes)
        → crypto.key_pair seed ≡ some keys
        → Answers (crypto.sign message keys.1)

  derive_key_ok :
      (works : IsWorking) (parent : Bytes) (purpose : Str) (bytes : Bytes)
      → (key : Bytes) × (derive_key crypto parent purpose (raw_bytes bytes) ≡ ok key)
        × (length key ≡ hash_bytes)
  unfolding derive_key derive_pdk derive_child kdm_to_bytes
  derive_key_ok works parent purpose bytes =
      let (pdk, p, l) = works.contexts parent purpose in
      let (key, q, m) = works.keyed bytes pdk l in (key, rw (p, q) refl, m)

  encrypt_with_ok :
      (works : IsWorking) (mgr : BagManager) (kdm bytes : Bytes)
      → (cph : Bytes) × (encrypt_with crypto mgr kdm bytes ≡ ok cph)
  unfolding encrypt_with cipher_of
  encrypt_with_ok works mgr kdm bytes =
      let (key, p, l) = derive_key_ok works mgr.realm cipher_purpose kdm in
      let (cph, q) = works.encrypts bytes key l in (cph, rw (p, q) refl)

  sign_with_ok :
      (works : IsWorking) (mgr : BagManager) (message : Bytes) (keys : Bytes × Bytes)
      → crypto.key_pair mgr.idnt ≡ some keys
      → (sig : Bytes) × (sign_with crypto mgr message ≡ ok sig)
  unfolding sign_with
  sign_with_ok works mgr message keys k =
      let (sig, q) = works.signs mgr.idnt message keys k in (sig, rw (k, q) refl)

  bag_kdm_of_ok :
      (works : IsWorking) (mgr : BagManager) (head_enc : Bytes)
      → (kdm : Bytes) × (bag_kdm_of crypto mgr head_enc ≡ ok kdm)
  unfolding bag_kdm_of
  bag_kdm_of_ok works mgr head_enc =
      let (pdk, p, l) = derive_key_ok works mgr.idnt bag_kdm_purpose head_enc in
      (take kdm_bytes pdk, rw p refl)

  seal_body_ok :
      (works : IsWorking) (mgr : BagManager) (kdm : Bytes) (bod : Option Bytes)
      → (cph : Bytes) × (seal_body crypto mgr kdm bod ≡ ok cph)
  unfolding seal_body
  seal_body_ok works mgr kdm none = ([], refl)
  seal_body_ok works mgr kdm (some bod) = encrypt_with_ok works mgr kdm bod

  -- A message is sealed where its head can be encoded, the identity has a key pair, and the library
  -- answers.
  pub seal_bag_ok :
      (works : IsWorking) (mgr : BagManager) (msg : Message) (keys : Bytes × Bytes)
      → crypto.key_pair mgr.idnt ≡ some keys
      → MessageHead.IsWellFormed (sealed_head crypto msg)
      → (bag : Bag) × (seal_bag crypto msg mgr ≡ ok bag)
  unfolding seal_bag
  seal_bag_ok works mgr msg keys k h =
      let enc =
        encoded_ok (message_head_codec.encode (sealed_head crypto msg) new_encoder)
          (round_trip message_head_laws (sealed_head crypto msg) h).0 in
      let (kdm, p) =
        bag_kdm_of_ok works mgr (encoding message_head_codec (sealed_head crypto msg)) in
      let (head_cph, q) =
        encrypt_with_ok works mgr kdm (encoding message_head_codec (sealed_head crypto msg)) in
      let (body_cph, r) = seal_body_ok works mgr kdm msg.bod in
      let (sig, s) = sign_with_ok works mgr (bag_sig_msg mgr.rlm head_cph) keys k in
      (
        record { rlm = mgr.rlm; sig = sig; kdm = kdm; head_cph = head_cph; body_cph = body_cph },
        rw (enc, p, q, r, s) refl,
      )

  -- The key that confirms what the manager signs.
  abbrev pub Confirms : VerifyKey → BagManager → Type 0
  Confirms verify_key mgr =
      (keys : Bytes × Bytes) × (crypto.key_pair mgr.idnt ≡ some keys)
      × (crypto.host.import_verify_key keys.0 ≡ some verify_key)

  pub seal_bag-open_bag :
      (works : IsWorking) (sound : IsSound crypto) (mgr : BagManager) (msg : Message)
      (verify_key : VerifyKey)
      → Confirms verify_key mgr
      → length mgr.rlm ≡ hash_bytes
      → MessageHead.IsWellFormed (sealed_head crypto msg)
      → IsSealable crypto msg
      → (bag : Bag) × (seal_bag crypto msg mgr ≡ ok bag)
        × (open_bag crypto bag verify_key mgr ≡ ok (sent crypto msg))
  seal_bag-open_bag works sound mgr msg verify_key (keys, k, i) l h p =
      let (bag, e) = seal_bag_ok works mgr msg keys k h in
      (bag, e, open_bag-seal_bag crypto sound mgr msg bag keys verify_key k i l h p e)
