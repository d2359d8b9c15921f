-- ===== src/Handshake/Keys.antt =====
-- Signatures and key exchange between the two ends (TransferCore/SecurityHandshake.cpp).
use transfer_udt.Common.{ℕ, suc, ◌/◌, ◌≡◌, refl, true, false, Option, some, length, arith, All}
use transfer_udt.Common.Bytes.{Bytes, IsByte, codes}
use transfer_udt.SecurePacket.Hex.{to_hex}
use transfer_udt.SecurityHandshake.Texts.{ok, is_empty, is_lower_hex, from_hex}
use transfer_udt.SecurityHandshake.Splits.{
  length-to_hex, to_hex-is_lower_hex, to_hex-is_empty, from_hex-to_hex, no_space, all_hex-no_space,
  to_hex-all_hex,
}
use transfer_udt.SecurityHandshake.Ops.{
  OpenSsl, EphemeralKeyPair, create_ephemeral_key_pair, create_challenge, sign_message_hex,
  verify_message_signature_hex, is_bad_signature, derive_x25519_shared_secret,
  hkdf_session_secret_hex, load_private_key, load_public_key,
}
use transfer_udt.Server.ClientHandler.Handshake.{ServerRandom}
use transfer_udt.UdtConnectionPool.CreateConnection.{AgentRandom}

-- A private key in a file that signs every message, with some bytes.
pub record Signer (ssl : OpenSsl) (path : Bytes) : Type 0 where
  pub private_key : ssl.PrivateKey
  pub signature : Bytes → Bytes
  pub size : Bytes → ℕ
  pub read : ssl.read_private_key path ≡ some private_key
  pub signs : (message : Bytes) → ssl.digest_sign private_key message ≡ some (signature message)
  pub sized : (message : Bytes) → length (signature message) ≡ suc (size message)
  pub bytes : (message : Bytes) → All IsByte (signature message)

-- The public key that belongs to it.
abbrev pub IsPublicKey : (ssl : OpenSsl) (path : Bytes) → Signer ssl path → ssl.PublicKey → Type 0
IsPublicKey ssl path signer public_key =
    (message : Bytes) → ssl.digest_verify public_key message (signer.signature message) ≡ some true

-- HKDF gives 32 bytes.
pub record HkdfLaws (ssl : OpenSsl) : Type 0 where
  pub derived : Bytes → Bytes → Bytes → Bytes
  pub hkdf-derived :
      (secret info salt : Bytes) → ssl.hkdf secret info salt ≡ some (derived secret info salt)
  pub length-derived : (secret info salt : Bytes) → length (derived secret info salt) ≡ 32

-- A random string of 32 bytes.
pub record IsNonce (given : Option Bytes) (nonce : Bytes) : Type 0 where
  pub is_given : given ≡ some nonce
  pub length_32 : length nonce ≡ 32
  pub bytes : All IsByte nonce

-- A key pair that OpenSSL has generated.
pub record IsKeyPair (given : Option (Bytes × Bytes)) (private public : Bytes) : Type 0 where
  pub is_given : given ≡ some (private, public)
  pub private_32 : length private ≡ 32
  pub public_32 : length public ≡ 32
  pub private_bytes : All IsByte private
  pub public_bytes : All IsByte public

-- Both ends compute one secret from their own private key and the public key of the other.
pub record IsExchange (ssl : OpenSsl) (private public private' public' shared : Bytes)
    : Type 0 where
  pub here : ssl.x25519 private public' ≡ some shared
  pub there : ssl.x25519 private' public ≡ some shared

-- What both ends get from the random generator and X25519 in one handshake.
pub record Draw (ssl : OpenSsl) (server : ServerRandom) (agent : AgentRandom) : Type 0 where
  pub server_nonce : Bytes
  pub agent_nonce : Bytes
  pub session : Bytes
  pub server_private : Bytes
  pub server_public : Bytes
  pub agent_private : Bytes
  pub agent_public : Bytes
  pub shared : Bytes
  pub server_nonce_given : IsNonce server.nonce server_nonce
  pub agent_nonce_given : IsNonce agent.nonce agent_nonce
  pub session_given : server.session ≡ some session
  pub session_16 : length session ≡ 16
  pub server_keys : IsKeyPair server.key_pair server_private server_public
  pub agent_keys : IsKeyPair agent.key_pair agent_private agent_public
  pub exchange : IsExchange ssl server_private server_public agent_private agent_public shared

pub create_challenge_lem :
    {given : Option Bytes} {nonce : Bytes}
    → IsNonce given nonce
    → create_challenge given ≡ ok (to_hex nonce)
unfolding create_challenge
create_challenge_lem n = rw n.is_given refl

pub from_hex-32 : (bs : Bytes) → length bs ≡ 32 → All IsByte bs → from_hex (to_hex bs) 32 ≡ ok bs
from_hex-32 bs e h = from_hex-to_hex bs 31 e h

abbrev pub keys_of : Bytes → Bytes → EphemeralKeyPair
keys_of private public = record { private_key_hex = to_hex private; public_key_hex = to_hex public }

pub create_ephemeral_key_pair_lem :
    {given : Option (Bytes × Bytes)} {private public : Bytes}
    → IsKeyPair given private public
    → create_ephemeral_key_pair given ≡ ok (keys_of private public)
unfolding create_ephemeral_key_pair
create_ephemeral_key_pair_lem k = rw (k.is_given, k.private_32, k.public_32) refl

to_hex-is_bad_signature :
    (bs : Bytes) (n : ℕ) → length bs ≡ suc n → is_bad_signature (to_hex bs) ≡ false
to_hex-is_bad_signature bs n e =
    ground (arith, length-to_hex bs, to_hex-is_empty bs n e, to_hex-is_lower_hex bs n e)

module _ (ssl : OpenSsl) where
  module _ (path : Bytes) (signer : Signer ssl path) where
    abbrev pub signature_hex : Bytes → Bytes
    signature_hex message = to_hex (signer.signature message)

    pub sign_message_hex_lem :
        (message : Bytes) → sign_message_hex ssl message path ≡ ok (signature_hex message)
    unfolding sign_message_hex load_private_key
    sign_message_hex_lem message = rw (signer.read, signer.signs message) refl

    pub signature_hex-is_bad : (message : Bytes) → is_bad_signature (signature_hex message) ≡ false
    signature_hex-is_bad message =
        to_hex-is_bad_signature (signer.signature message) (signer.size message)
          (signer.sized message)

    pub from_hex-signature :
        (message : Bytes)
        → from_hex (signature_hex message) (length (signature_hex message) / 2)
          ≡ ok (signer.signature message)
    from_hex-signature message = rw half (
        from_hex-to_hex (signer.signature message) (signer.size message) (signer.sized message)
          (signer.bytes message))
      where
        half : length (signature_hex message) / 2 ≡ suc (signer.size message)
        half = omega (arith, length-to_hex (signer.signature message), signer.sized message)

    pub verify_message_signature_hex_lem :
        (public_path : Bytes) (public_key : ssl.PublicKey)
        → ssl.read_public_key public_path ≡ some public_key
        → IsPublicKey ssl path signer public_key
        → (message : Bytes)
        → verify_message_signature_hex ssl message (signature_hex message) public_path ≡ ok true
    unfolding verify_message_signature_hex load_public_key
    verify_message_signature_hex_lem public_path public_key r p message =
        rw (signature_hex-is_bad message, from_hex-signature message, r, p message) refl

  pub derive_x25519_shared_secret_lem :
      (private public shared : Bytes)
      → length private ≡ 32
      → length public ≡ 32
      → All IsByte private
      → All IsByte public
      → ssl.x25519 private public ≡ some shared
      → derive_x25519_shared_secret ssl (to_hex private) (to_hex public) ≡ ok shared
  unfolding derive_x25519_shared_secret
  derive_x25519_shared_secret_lem private public shared a b c d e =
      rw (from_hex-32 private a c, from_hex-32 public b d, e) refl

  module _ (laws : HkdfLaws ssl) where
    abbrev pub derived_hex : Bytes → Bytes → Bytes → Bytes
    derived_hex secret info salt = to_hex (laws.derived secret info salt)

    pub hkdf_session_secret_hex_lem :
        (secret info salt : Bytes)
        → hkdf_session_secret_hex ssl secret info salt ≡ ok (derived_hex secret info salt)
    unfolding hkdf_session_secret_hex
    hkdf_session_secret_hex_lem secret info salt =
        rw (laws.hkdf-derived secret info salt, laws.length-derived secret info salt) refl

    pub derived_hex-is_empty :
        (secret info salt : Bytes) → is_empty (derived_hex secret info salt) ≡ false
    derived_hex-is_empty secret info salt =
        to_hex-is_empty (laws.derived secret info salt) 31 (laws.length-derived secret info salt)

-- The signature that a response is checked with before it is signed.
pub zeros-is_bad_signature : is_bad_signature (codes "00") ≡ false
unfolding is_lower_hex
zeros-is_bad_signature = refl

pub to_hex-no_space : (bs : Bytes) → no_space (to_hex bs) ≡ true
to_hex-no_space bs = all_hex-no_space (to_hex bs) (to_hex-all_hex bs)
