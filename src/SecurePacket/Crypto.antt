-- ===== src/SecurePacket/Crypto.antt =====
-- The errors of TransferCore/SecurePacket.cpp, and the operations of OpenSSL that it calls, with
-- DeriveKey, Aes256GcmEncrypt and Aes256GcmDecrypt around them.
use transfer_udt.Common.{ℕ, ◌^◌, ◌-◌, Bool, true, false, Option, none, some, length, ltb, ◌==◌}
use transfer_udt.Common.Bytes.{Bytes}

-- The exceptions that the file throws.
pub data SecureError : Type 0 where
  truncated too_small length_mismatch : SecureError
  invalid_hex : SecureError
  too_large_for_int : SecureError
  empty_key key_derivation_failed : SecureError
  encryption_failed decryption_setup_failed authentication_failed : SecureError
  not_encrypted invalid_session_metadata session_id_truncated unsupported_version : SecureError
  invalid_nonce_or_tag_length payload_length_mismatch : SecureError
  plaintext_too_long nonce_failed packet_too_long unexpected_cipher_length : SecureError
  control_too_long control_length_mismatch : SecureError
  session_packet_unexpected session_version_required session_mismatch : SecureError
  invalid_session_or_sequence invalid_expected_session : SecureError

pub data Result {ℓ} (A : Type ℓ) : Type ℓ where
  ok : A → Result A
  err : SecureError → Result A

infixl 5 ◌>>=◌ ◌>>◌
abbrev pub ◌>>=◌ {ℓ κ} : {A : Type ℓ} {B : Type κ} → Result A → (A → Result B) → Result B
err e >>= f = err e
ok value >>= f = f value

abbrev pub ◌>>◌ {ℓ} : {B : Type ℓ} → Result (Unit {0}) → Result B → Result B
m >> k = m >>= λ _. k

-- `if (b) throw e;`
abbrev pub throw_if : Bool → SecureError → Result (Unit {0})
throw_if true e = err e
throw_if false e = ok tt

abbrev pub or_throw : {A : Type 0} → Option A → SecureError → Result A
or_throw none e = err e
or_throw (some a) e = ok a

-- What EVP_DecryptFinal_ex and the calls before it come to.
pub data Opened : Type 0 where
  opened : Bytes → Opened
  setup_failed not_authentic : Opened

-- OpenSSL, as this file calls it: HKDF-SHA256 with the fixed salt and info to a 32-byte key, and
-- AES-256-GCM. `none` is a call that reports failure.
pub record CryptoOps : Type 0 where
  pub hkdf : Bytes → Option Bytes
  -- key, nonce, authenticated data, plain text; the cipher text and the tag
  pub gcm_encrypt : Bytes → Bytes → Bytes → Bytes → Option (Bytes × Bytes)
  -- key, nonce, tag, authenticated data, cipher text
  pub gcm_decrypt : Bytes → Bytes → Bytes → Bytes → Bytes → Opened

abbrev pub int_max : ℕ
int_max = 2 ^ 31 - 1

abbrev pub check_int_size : ℕ → Result (Unit {0})
check_int_size value = throw_if (ltb int_max value) SecureError.too_large_for_int

module _ (ops : CryptoOps) where
  unfoldable pub derive_key : Bytes → Result Bytes
  derive_key pre_shared_key = do
    throw_if (length pre_shared_key == 0) SecureError.empty_key
    or_throw (ops.hkdf pre_shared_key) SecureError.key_derivation_failed

  unfoldable pub aes_256_gcm_encrypt : Bytes → Bytes → Bytes → Bytes → Result (Bytes × Bytes)
  aes_256_gcm_encrypt plain key nonce authenticated = do
    check_int_size (length plain)
    check_int_size (length authenticated)
    or_throw (ops.gcm_encrypt key nonce authenticated plain) SecureError.encryption_failed

  abbrev after_decrypt : Opened → Result Bytes
  after_decrypt (opened plain) = ok plain
  after_decrypt setup_failed = err SecureError.decryption_setup_failed
  after_decrypt not_authentic = err SecureError.authentication_failed

  unfoldable pub aes_256_gcm_decrypt : Bytes → Bytes → Bytes → Bytes → Bytes → Result Bytes
  aes_256_gcm_decrypt cipher key nonce tag authenticated = do
    check_int_size (length cipher)
    check_int_size (length nonce)
    check_int_size (length tag)
    check_int_size (length authenticated)
    after_decrypt (ops.gcm_decrypt key nonce tag authenticated cipher)
