-- ===== src/SecurityHandshake/Ops.antt =====
-- OpenSSL and the files as TransferCore/SecurityHandshake.cpp calls them, with its functions around
-- one call.
use transfer_udt.Common.{
  ◌%◌, ◌/◌, Bool, false, not, ◌||◌, Option, List, length, ◌==◌, if◌then◌else◌,
}
use transfer_udt.Common.Bytes.{Bytes}
use transfer_udt.SecurePacket.Hex.{to_hex}
use transfer_udt.SecurityHandshake.Texts.{
  Result, ok, err, ◌>>=◌, ◌>>◌, throw_if, or_throw, random_failed, digest_failed, key_pair_failed,
  key_file_failed, signing_failed, verification_failed, derivation_failed, x25519_key_bytes,
  from_hex, is_lower_hex, is_empty,
}

-- `none` is a call, or one of a row of calls, that reports failure.
pub record OpenSsl : Type 1 where
  pub PrivateKey : Type 0
  pub PublicKey : Type 0
  pub X509 : Type 0
  pub Crl : Type 0
  pub Store : Type 0
  -- HMAC-SHA256: message, key
  pub hmac : Bytes → Bytes → Option Bytes
  -- X25519: private key, public key of the peer
  pub x25519 : Bytes → Bytes → Option Bytes
  -- HKDF-SHA256 to 32 bytes: secret, info, salt
  pub hkdf : Bytes → Bytes → Bytes → Option Bytes
  pub read_private_key : Bytes → Option PrivateKey
  pub read_public_key : Bytes → Option PublicKey
  -- EVP_DigestSign with SHA-256
  pub digest_sign : PrivateKey → Bytes → Option Bytes
  -- EVP_DigestVerify with SHA-256: key, message, signature; `none` fails before the last call
  pub digest_verify : PublicKey → Bytes → Bytes → Option Bool
  -- the content of a file
  pub read_file : Bytes → Option Bytes
  -- what PEM_read_bio_X509 and PEM_read_bio_X509_CRL give, one after the other, until they fail
  pub pem_certificates : Bytes → List X509
  pub pem_crls : Bytes → List Crl
  -- X509_STORE_load_locations into a new store
  pub load_locations : Bytes → Option Store
  pub add_crl : Crl → Store → Option Store
  pub check_crls : Store → Option Store
  -- X509_verify_cert of a certificate with its intermediates, for a server or a client
  pub verify_cert : Store → X509 → List X509 → Bool → Bool
  pub check_ip : X509 → Bytes → Bool
  pub check_host : X509 → Bytes → Bool
  pub check_private_key : X509 → PrivateKey → Bool
  pub get_pubkey : X509 → Option PublicKey

-- CreateChallenge and CreateSessionId: `random` is what RAND_bytes gives.
unfoldable pub create_challenge : Option Bytes → Result Bytes
create_challenge random = do challenge ← or_throw random random_failed; ok (to_hex challenge)

unfoldable pub create_session_id : Option Bytes → Result Bytes
create_session_id random = do session_id ← or_throw random random_failed; ok (to_hex session_id)

pub record EphemeralKeyPair : Type 0 where
  pub private_key_hex : Bytes
  pub public_key_hex : Bytes

-- `generated` is what EVP_PKEY_keygen gives, as exported.
unfoldable pub create_ephemeral_key_pair : Option (Bytes × Bytes) → Result EphemeralKeyPair
create_ephemeral_key_pair generated = do
  (private_key, public_key) ← or_throw generated key_pair_failed
  throw_if
      (not (length private_key == x25519_key_bytes) || not (length public_key == x25519_key_bytes))
      key_pair_failed
  ok (record { private_key_hex = to_hex private_key; public_key_hex = to_hex public_key })

abbrev pub is_bad_signature : Bytes → Bool
is_bad_signature signature_hex =
    is_empty signature_hex
    || not (length signature_hex % 2 == 0)
    || not (is_lower_hex signature_hex)

module _ (ssl : OpenSsl) where
  unfoldable pub hmac_sha256_hex : Bytes → Bytes → Result Bytes
  hmac_sha256_hex message pre_shared_key = do
    digest ← or_throw (ssl.hmac message pre_shared_key) digest_failed
    throw_if (length digest == 0) digest_failed
    ok (to_hex digest)

  unfoldable pub load_private_key : Bytes → Result (ssl.PrivateKey)
  load_private_key path = or_throw (ssl.read_private_key path) key_file_failed

  unfoldable pub load_public_key : Bytes → Result (ssl.PublicKey)
  load_public_key path = or_throw (ssl.read_public_key path) key_file_failed

  unfoldable pub sign_message_hex : Bytes → Bytes → Result Bytes
  sign_message_hex message private_key_path = do
    key ← load_private_key private_key_path
    signature ← or_throw (ssl.digest_sign key message) signing_failed
    ok (to_hex signature)

  unfoldable pub verify_message_signature_hex : Bytes → Bytes → Bytes → Result Bool
  verify_message_signature_hex message signature_hex public_key_path =
      if is_bad_signature signature_hex
      then ok false
      else elim (from_hex signature_hex (length signature_hex / 2)) [
        | err e ↦ ok false
        | ok signature ↦
            load_public_key public_key_path
            >>= (λ key. or_throw (ssl.digest_verify key message signature) verification_failed)
      ]

  unfoldable pub derive_x25519_shared_secret : Bytes → Bytes → Result Bytes
  derive_x25519_shared_secret private_key_hex public_key_hex = do
    private_bytes ← from_hex private_key_hex x25519_key_bytes
    public_bytes ← from_hex public_key_hex x25519_key_bytes
    or_throw (ssl.x25519 private_bytes public_bytes) derivation_failed

  unfoldable pub hkdf_session_secret_hex : Bytes → Bytes → Bytes → Result Bytes
  hkdf_session_secret_hex shared_secret transcript salt_label = do
    key ← or_throw (ssl.hkdf shared_secret transcript salt_label) derivation_failed
    throw_if (not (length key == 32)) derivation_failed
    ok (to_hex key)
