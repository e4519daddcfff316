-- ===== src/Sealing.antt =====
-- shared/crypto/derivation.ts and bagman.ts: the keys of a bag, and `BagManager`, which seals and signs
-- for one identity and one realm. The primitives of the crypto library are parameters.
pub mod Bags
pub mod Messages
use diplomatic.Base.{Option, [], take, ◌++◌, ◌∷◌}
use diplomatic.Codec.{Bytes, encoded, new_encoder}
use diplomatic.Consts.{crypto_error, decryption_error, kdm_bytes}
use diplomatic.Exec.{ValStat, ok, ◌>>◌}
use diplomatic.Exec.Results.{or_status, ◌>>=◌}
use diplomatic.Host.Server.{HostCrypto}
use diplomatic.Text.{Str}
use diplomatic.Wire.Kdm.{Kdm, kdm_codec}

-- `none` is a call that throws. `key_pair` gives the public key and the private one.
pub record Primitives (VerifyKey : Type 0) : Type 0 where
  pub host : HostCrypto VerifyKey
  pub blake3 : Bytes → Bytes
  pub hash_context : Bytes → Str → Option Bytes
  pub hash_keyed : Bytes → Bytes → Option Bytes
  pub encrypt : Bytes → Bytes → Option Bytes
  pub decrypt : Bytes → Bytes → Option Bytes
  pub key_pair : Bytes → Option (Bytes × Bytes)
  pub sign : Bytes → Bytes → Option Bytes

-- `Purpose.Cipher` is diplomatic.cipher.v1, and `Purpose.BagKdm` is diplomatic.bagkdm.v1.
abbrev diplomatic_dot : Str
diplomatic_dot = 100 ∷ 105 ∷ 112 ∷ 108 ∷ 111 ∷ 109 ∷ 97 ∷ 116 ∷ 105 ∷ 99 ∷ 46 ∷ []

abbrev versioned : Str → Str
versioned name = diplomatic_dot ++ (name ++ (46 ∷ 118 ∷ 49 ∷ []))

abbrev cipher_purpose : Str
cipher_purpose = versioned (99 ∷ 105 ∷ 112 ∷ 104 ∷ 101 ∷ 114 ∷ [])

abbrev bag_kdm_purpose : Str
bag_kdm_purpose = versioned (98 ∷ 97 ∷ 103 ∷ 107 ∷ 100 ∷ 109 ∷ [])

-- Raw bytes, or structured material that is encoded first.
pub data KdmInput : Type 0 where
  raw_bytes : Bytes → KdmInput
  structured : Kdm → KdmInput

kdm_to_bytes : KdmInput → ValStat Bytes
kdm_to_bytes (raw_bytes bytes) = ok bytes
kdm_to_bytes (structured kdm) = encoded (kdm_codec.encode kdm new_encoder)

pub record BagManager : Type 0 where
  pub public_key : Bytes
  pub idnt : Bytes
  pub realm : Bytes
  pub rlm : Bytes
  pub id_kdm : Kdm
  pub realm_kdm : Kdm

module _ {VerifyKey : Type 0} (crypto : Primitives VerifyKey) where
  unfoldable pub derive_pdk : Bytes → Str → ValStat Bytes
  derive_pdk parent purpose = or_status crypto_error (crypto.hash_context parent purpose)

  pub derive_child : Bytes → KdmInput → ValStat Bytes
  unfolding kdm_to_bytes
  derive_child pdk kdm = do
    bytes ← kdm_to_bytes kdm
    or_status crypto_error (crypto.hash_keyed bytes pdk)

  pub derive_key : Bytes → Str → KdmInput → ValStat Bytes
  derive_key parent purpose kdm = do pdk ← derive_pdk parent purpose; derive_child pdk kdm

  -- `BagManager.init`
  new_manager : Bytes → Bytes → Bytes → Kdm → Kdm → Bytes × Bytes → BagManager
  new_manager idnt realm rlm id_kdm realm_kdm keys = record {
    public_key = keys.0;
    idnt = idnt;
    realm = realm;
    rlm = rlm;
    id_kdm = id_kdm;
    realm_kdm = realm_kdm;
  }

  pub init_manager : Bytes → Bytes → Bytes → Kdm → Kdm → ValStat BagManager
  unfolding new_manager
  init_manager idnt realm rlm id_kdm realm_kdm = do
    keys ← or_status crypto_error (crypto.key_pair idnt)
    ok (new_manager idnt realm rlm id_kdm realm_kdm keys)

  pub sign_with : BagManager → Bytes → ValStat Bytes
  sign_with mgr message = do
    keys ← or_status crypto_error (crypto.key_pair mgr.idnt)
    or_status crypto_error (crypto.sign message keys.1)

  pub bag_kdm_of : BagManager → Bytes → ValStat Bytes
  bag_kdm_of mgr head_enc = do
    pdk ← derive_key mgr.idnt bag_kdm_purpose (raw_bytes head_enc)
    ok (take kdm_bytes pdk)

  pub cipher_of : BagManager → Bytes → ValStat Bytes
  cipher_of mgr kdm = derive_key mgr.realm cipher_purpose (raw_bytes kdm)

  pub encrypt_with : BagManager → Bytes → Bytes → ValStat Bytes
  encrypt_with mgr kdm bytes = do
    key ← cipher_of mgr kdm
    or_status crypto_error (crypto.encrypt bytes key)

  pub decrypt_with : BagManager → Bytes → Bytes → ValStat Bytes
  decrypt_with mgr kdm bytes = do
    key ← cipher_of mgr kdm
    or_status decryption_error (crypto.decrypt bytes key)
