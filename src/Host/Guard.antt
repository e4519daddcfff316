-- ===== src/Host/Guard.antt =====
-- What the handlers of shared/api may change, and the check of shared/auth.ts.
pub mod Push
use diplomatic.Base.{
  Bool, Bool-cases, List, Option, arith, false, if◌then◌else◌, inl, inr, length, none, refl, some,
  sym, true, ◌==◌, ◌∙◌, ◌≡◌, ◌≤◌,
}
use diplomatic.Base.Int.{abs, ℤ, ◌-ℤ◌}
use diplomatic.Codec.{
  Bytes, Date, Decoder, Encoder, Read, Write, new_encoder, result, time, write_date,
}
use diplomatic.Consts.{Status, clock_tolerance_ms, hash_bytes}
use diplomatic.Exec.{
  Done, Exec, ValStat, check, continue, diverged, err, lift, ok, pure, query, thrown, ◌>>=◌,
}
use diplomatic.Host.Server.{
  Call, HostCrypto, at_end, authenticate, by_key, clock_off, handle_peek, handle_pull, handle_push,
  handle_user, reading, registered, signed, storing, validate_auth, verify, writing,
}
use diplomatic.Host.Storage.{Storage, get_bodies, has_user, list_heads}
use diplomatic.Wire.AuthTimestamp.{AuthTimestamp, auth_timestamp_codec}
use mathlib.Core.Path.{ap₂}

-- A step that leaves the storage and the notifications alone, whatever comes of it.
pub record KeepsStorage {A : Type 0} (m : Exec Call A) : Type 0 where
  pub storage : (c : Call) → (m c).1.storage ≡ c.storage
  pub pushed : (c : Call) → (m c).1.pushed ≡ c.pushed

KeepsStorage-pure : {A : Type 0} (x : A) → KeepsStorage (pure x)
unfolding pure
KeepsStorage-pure x = record { storage = λ c. refl; pushed = λ c. refl }

KeepsStorage-lift : {A : Type 0} (r : ValStat A) → KeepsStorage (lift r)
unfolding lift
KeepsStorage-lift r = record { storage = λ c. refl; pushed = λ c. refl }

KeepsStorage-reading : {A : Type 0} (m : Read A) → KeepsStorage (reading m)
unfolding reading
KeepsStorage-reading m = record { storage = λ c. refl; pushed = λ c. refl }

KeepsStorage-writing : (m : Write) → KeepsStorage (writing m)
unfolding writing
KeepsStorage-writing m = record { storage = λ c. refl; pushed = λ c. refl }

KeepsStorage-storing :
    {A : Type 0} (m : Exec Storage A) → ((s : Storage) → (m s).1 ≡ s) → KeepsStorage (storing m)
unfolding storing
KeepsStorage-storing m same = record { storage = λ c. same c.storage; pushed = λ c. refl }

KeepsStorage-at_end : KeepsStorage at_end
unfolding at_end
KeepsStorage-at_end = record { storage = λ c. ground arith; pushed = λ c. ground arith }

keeps_continue :
    {A B : Type 0} (f : A → Exec Call B) (r : ValStat A × Call) (c : Call)
    → ((x : A) → KeepsStorage (f x))
    → r.1.storage ≡ c.storage
    → r.1.pushed ≡ c.pushed
    → ((continue r f).1.storage ≡ c.storage) × ((continue r f).1.pushed ≡ c.pushed)
keeps_continue f (ok x, d) c k s p = ((k x).storage d ∙ s, (k x).pushed d ∙ p)
keeps_continue f (err e, d) c k s p = (s, p)
keeps_continue f (thrown, d) c k s p = (s, p)
keeps_continue f (diverged, d) c k s p = (s, p)

KeepsStorage-bind :
    {A B : Type 0} (m : Exec Call A) (f : A → Exec Call B)
    → KeepsStorage m
    → ((x : A) → KeepsStorage (f x))
    → KeepsStorage (m >>= f)
unfolding ◌>>=◌
KeepsStorage-bind m f km kf = record {
  storage = λ c. (keeps_continue f (m c) c kf (km.storage c) (km.pushed c)).0;
  pushed = λ c. (keeps_continue f (m c) c kf (km.storage c) (km.pushed c)).1;
}

KeepsStorage-has_user : (key : Bytes) → KeepsStorage (storing (has_user key))
unfolding has_user query
KeepsStorage-has_user key = KeepsStorage-storing _ (λ s. refl)

KeepsStorage-check : (b : Bool) (s : Status) → KeepsStorage (storing (check b s))
unfolding check
KeepsStorage-check true s = KeepsStorage-storing _ (λ s. refl)
KeepsStorage-check false s = KeepsStorage-storing _ (λ s. refl)

list_heads_keeps : (key rlm : Bytes) (seq : ℤ) (s : Storage) → (list_heads key rlm seq s).1 ≡ s
unfolding list_heads ◌>>=◌
list_heads_keeps key rlm seq s = elim (Bool-cases (length rlm == hash_bytes)) [
  | inl e ↦ rw e refl
  | inr e ↦ rw e refl
]

get_bodies_keeps :
    (key rlm : Bytes) (seqs : List ℤ) (s : Storage) → (get_bodies key rlm seqs s).1 ≡ s
unfolding get_bodies ◌>>=◌
get_bodies_keeps key rlm seqs s = elim (Bool-cases (length rlm == hash_bytes)) [
  | inl e ↦ rw e refl
  | inr e ↦ rw e refl
]

by_key_sound :
    {VerifyKey : Type 0} (k : Option VerifyKey) (valid : VerifyKey → Bool)
    → by_key k valid ≡ ok tt
    → (key : VerifyKey) × (k ≡ some key) × (valid key ≡ true)
unfolding by_key
by_key_sound none valid e = cc
by_key_sound (some key) valid e = elim (Bool-cases (valid key)) [
  | inl b ↦ (key, refl, b)
  | inr b ↦ ground arith
]

passed :
    (b : Bool) (s : Status) (r : ValStat Done)
    → (if b then err s else r) ≡ ok tt
    → (b ≡ false) × (r ≡ ok tt)
passed true s r e = cc
passed false s r e = (refl, e)

clock_on : (n t : ℤ) → clock_off (time n) (time t) ≡ false → abs (n -ℤ t) ≤ clock_tolerance_ms
unfolding clock_off
clock_on n t e = ground arith

module _ {VerifyKey : Type 0} (crypto : HostCrypto VerifyKey) (now : Date) where
  KeepsStorage-authenticate : KeepsStorage (authenticate crypto now)
  unfolding authenticate
  KeepsStorage-authenticate =
      KeepsStorage-bind _ _ (KeepsStorage-reading _)
        (λ auth. KeepsStorage-bind _ _ (KeepsStorage-lift _) (λ valid. KeepsStorage-pure auth))

  KeepsStorage-registered : KeepsStorage (registered crypto now)
  unfolding registered
  KeepsStorage-registered = KeepsStorage-bind _ _ KeepsStorage-authenticate λ auth.
      KeepsStorage-bind _ _ (KeepsStorage-has_user _)
        λ known. KeepsStorage-bind _ _ (KeepsStorage-check _ _) λ u. KeepsStorage-pure auth

  -- PEEK changes neither the storage nor the notifications, whatever the request holds.
  pub handle_peek-KeepsStorage : KeepsStorage (handle_peek crypto now)
  unfolding handle_peek
  handle_peek-KeepsStorage = KeepsStorage-bind _ _ KeepsStorage-registered λ auth.
      KeepsStorage-bind _ _ (KeepsStorage-reading _) λ cursor.
        KeepsStorage-bind _ _ KeepsStorage-at_end λ u.
          KeepsStorage-bind _ _
            (KeepsStorage-storing _ (list_heads_keeps auth.pub_key cursor.rlm cursor.seq))
            λ items. KeepsStorage-writing _

  -- PULL changes neither the storage nor the notifications, whatever the request holds.
  pub handle_pull-KeepsStorage : KeepsStorage (handle_pull crypto now)
  unfolding handle_pull
  handle_pull-KeepsStorage = KeepsStorage-bind _ _ KeepsStorage-registered λ auth.
      KeepsStorage-bind _ _ (KeepsStorage-reading _) λ req.
        KeepsStorage-bind _ _
          (KeepsStorage-storing _ (get_bodies_keeps auth.pub_key req.rlm req.seqs))
          λ items. KeepsStorage-writing _

  rejected :
      (c : Call) (auth : AuthTimestamp) (s : Status) (d : Decoder)
      → auth_timestamp_codec.decode c.dec ≡ (ok auth, d)
      → validate_auth crypto now auth ≡ err s
      → authenticate crypto now c ≡ (err s, record c { dec = d })
  unfolding authenticate reading ◌>>=◌
  rejected c auth s d e v = rw (e, v) refl

  -- Where the signed timestamp of a request is refused, each of the four calls answers with the reason, and
  -- neither the storage, nor the response, nor the notifications change.
  pub handlers_reject :
      (c : Call) (auth : AuthTimestamp) (s : Status) (d : Decoder)
      → auth_timestamp_codec.decode c.dec ≡ (ok auth, d)
      → validate_auth crypto now auth ≡ err s
      → (handle_user crypto now c ≡ (err s, record c { dec = d }))
        × (handle_peek crypto now c ≡ (err s, record c { dec = d }))
        × (handle_pull crypto now c ≡ (err s, record c { dec = d }))
        × (handle_push crypto now c ≡ (err s, record c { dec = d }))
  unfolding handle_user handle_peek handle_pull handle_push registered ◌>>=◌
  handlers_reject c auth s d e v =
      let r = rejected c auth s d e v in (rw r refl, rw r refl, rw r refl, rw r refl)

  signed_sound :
      (auth : AuthTimestamp) (r : ValStat Done × Encoder)
      → signed crypto now auth r ≡ ok tt
      → verify crypto now auth (result r.1) ≡ ok tt
  unfolding signed
  signed_sound auth (ok _, enc) e = e
  signed_sound auth (err s, enc) e = e
  signed_sound auth (thrown, enc) e = cc
  signed_sound auth (diverged, enc) e = cc

  -- A timestamp is accepted only with a clock difference of at most 30 seconds, where both times are valid,
  -- and with a signature of the encoded time that the sender's key confirms.
  pub validate_auth_sound :
      (auth : AuthTimestamp) (n t : ℤ)
      → now ≡ time n
      → auth.timestamp ≡ time t
      → validate_auth crypto now auth ≡ ok tt
      → (abs (n -ℤ t) ≤ clock_tolerance_ms)
        × ((key : VerifyKey) × (crypto.import_verify_key auth.pub_key ≡ some key)
            × (crypto.check_sig auth.sig (result (write_date auth.timestamp new_encoder).1) key
                ≡ true))
  unfolding validate_auth verify
  validate_auth_sound auth n t en et e =
      let (off, s) = passed (clock_off now auth.timestamp) _ _ e in
      (clock_on n t (sym (ap₂ clock_off en et) ∙ off), by_key_sound _ _ (signed_sound auth _ s))
