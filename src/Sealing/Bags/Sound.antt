-- ===== src/Sealing/Bags/Sound.antt =====
-- What a bag is that `openBag` of shared/bag.ts accepts.
use diplomatic.Base.{
  ==_iff, Bool, Option, false, if◌then◌else◌, length, none, refl, some, sym, true, ◌==◌, ◌≡◌,
}
use diplomatic.Base.Keyed.{bytes_same, bytes_same_iff}
use diplomatic.Codec.{Bytes, decoder, done}
use diplomatic.Consts.{Status, hash_bytes, hash_mismatch, invalid_signature, not_found}
use diplomatic.Exec.{ValStat, diverged, err, ok, thrown}
use diplomatic.Exec.Results.{bind_ok, ok_injective}
use diplomatic.Host.Server.{bag_sig_valid}
use diplomatic.Sealing.{BagManager, Primitives, decrypt_with}
use diplomatic.Sealing.Bags.{
  OpenBag, bag_sig_msg, check_body, known_or, open_bag, open_bag_body, open_body, open_checked,
  parsed_head,
}
use diplomatic.Wire.Bag.{Bag}
use diplomatic.Wire.MessageHead.{MessageHead, message_head_codec}
use mathlib.Core.Path.{subst}

-- The guard of an early return held where the code went on.
guarded :
    {A : Type 0} (b : Bool) (r : ValStat A) (s : Status) (a : A)
    → (if b then r else err s) ≡ ok a
    → (b ≡ true) × (r ≡ ok a)
guarded true r s a e = (refl, e)
guarded false r s a e = cc

both : (b c : Bool) → (if b then c else false) ≡ true → (b ≡ true) × (c ≡ true)
both true c e = (refl, e)
both false c e = cc

module _ {VerifyKey : Type 0} (crypto : Primitives VerifyKey) where
  -- The body is there exactly where the head has a hash, and has that hash.
  pub data BodyMatches : Option Bytes → Option Bytes → Type 0 where
    no_body : BodyMatches none none
    body_hashed : (bod : Bytes) → BodyMatches (some (crypto.blake3 bod)) (some bod)

  check_body-BodyMatches :
      (hsh bod : Option Bytes) → check_body crypto.blake3 hsh bod ≡ ok tt → BodyMatches hsh bod
  unfolding check_body
  check_body-BodyMatches none none e = no_body
  check_body-BodyMatches (some hsh) none e = cc
  check_body-BodyMatches none (some bod) e = cc
  check_body-BodyMatches (some hsh) (some bod) e =
      let (f, e1) = guarded (bytes_same (crypto.blake3 bod) hsh) (ok tt) hash_mismatch tt e in
      subst (λ h. BodyMatches (some h) (some bod)) ((bytes_same_iff (crypto.blake3 bod) hsh).0 f)
        (body_hashed bod)

  -- What holds of a message that came out of a bag: the signature over its realm and its encrypted head
  -- is confirmed, the realm is the manager's and has 32 bytes, the head is what the decrypted bytes
  -- encode, and the body is what its ciphertext decrypts to, with the hash that the head names.
  pub record IsGenuine (bag : Bag) (verify_key : VerifyKey) (mgr : BagManager) (out : OpenBag)
      : Type 0 where
    pub signed : crypto.host.check_sig bag.sig (bag_sig_msg bag.rlm bag.head_cph) verify_key ≡ true
    pub size : length bag.rlm ≡ hash_bytes
    pub ours : bag.rlm ≡ mgr.rlm
    pub head_enc : Bytes
    pub head_enc_ok : decrypt_with crypto mgr bag.kdm bag.head_cph ≡ ok head_enc
    pub head_ok : (message_head_codec.decode (decoder head_enc)).0 ≡ ok out.msg.head
    pub hashed : out.head_hash ≡ crypto.blake3 head_enc
    pub body_read : open_body (decrypt_with crypto mgr bag.kdm) (some bag.body_cph) ≡ ok out.msg.bod
    pub body : BodyMatches out.msg.head.hsh out.msg.bod

  parsed_head_ok :
      (r : ValStat MessageHead) (head : MessageHead) → parsed_head r ≡ ok head → r ≡ ok head
  unfolding parsed_head
  parsed_head_ok (ok a) head e = e
  parsed_head_ok (err s) head e = cc
  parsed_head_ok thrown head e = e
  parsed_head_ok diverged head e = e

  opened :
      (bag : Bag) (verify_key : VerifyKey) (mgr : BagManager) (out : OpenBag)
      → crypto.host.check_sig bag.sig (bag_sig_msg bag.rlm bag.head_cph) verify_key ≡ true
      → length bag.rlm ≡ hash_bytes
      → bag.rlm ≡ mgr.rlm
      → open_checked crypto bag mgr ≡ ok out
      → IsGenuine bag verify_key mgr out
  unfolding open_checked open_bag_body known_or
  opened bag verify_key mgr out signed size ours e =
      let (head_enc, p, e1) = bind_ok (decrypt_with crypto mgr bag.kdm bag.head_cph) _ out e in
      let (head, q, e2) =
        bind_ok (parsed_head (message_head_codec.decode (decoder head_enc)).0) _ out e1 in
      let (bod, r, e3) =
        bind_ok (open_body (decrypt_with crypto mgr bag.kdm) (some bag.body_cph)) _ out e2 in
      let (done, c, e4) = bind_ok (check_body crypto.blake3 head.hsh bod) _ out e3 in
      subst (IsGenuine bag verify_key mgr) (ok_injective _ _ e4) (record {
        signed = signed;
        size = size;
        ours = ours;
        head_enc = head_enc;
        head_enc_ok = p;
        head_ok = parsed_head_ok _ head q;
        hashed = refl;
        body_read = r;
        body = check_body-BodyMatches head.hsh bod c;
      })

  -- A bag is opened only where all of that holds.
  pub open_bag-IsGenuine :
      (bag : Bag) (verify_key : VerifyKey) (mgr : BagManager) (out : OpenBag)
      → open_bag crypto bag verify_key mgr ≡ ok out
      → IsGenuine bag verify_key mgr out
  unfolding open_bag bag_sig_valid
  open_bag-IsGenuine bag verify_key mgr out e =
      let (valid, e1) =
        guarded (bag_sig_valid crypto.host bag verify_key) _ invalid_signature out e in
      let (size, signed) = both (length bag.rlm == hash_bytes) _ valid in
      let (ours, e2) =
        guarded (bytes_same mgr.rlm bag.rlm) (open_checked crypto bag mgr) not_found out e1 in
      opened bag verify_key mgr out signed ((==_iff (length bag.rlm) hash_bytes).0 size)
        (sym ((bytes_same_iff mgr.rlm bag.rlm).0 ours)) e2
