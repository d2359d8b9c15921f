-- ===== src/SecurityHandshake/Signed.antt =====
-- The messages of the signed handshake (TransferCore/SecurityHandshake.cpp).
use transfer_udt.Common.{
  Bool, true, false, not, Option, none, some, List, [], ◌∷◌, ◌++◌, if◌then◌else◌,
}
use transfer_udt.Common.Bytes.{Bytes, codes}
use transfer_udt.SecurityHandshake.Texts.{
  Result, ok, ◌>>=◌, ◌>>◌, throw_if, is_ok, challenge_bytes, x25519_key_bytes, is_valid_client_id,
  after_prefix, find_space, split_space_separated, joined, invalid_client_id, invalid_signature,
  from_hex,
}
use transfer_udt.SecurityHandshake.Ops.{
  OpenSsl, sign_message_hex, verify_message_signature_hex, derive_x25519_shared_secret,
  hkdf_session_secret_hex, is_bad_signature,
}

abbrev pub signed_challenge_prefix : Bytes
signed_challenge_prefix = codes "AUTH_SIGNED_CHALLENGE_V1 "

abbrev pub signed_response_prefix : Bytes
signed_response_prefix = codes "AUTH_SIGNED_RESPONSE_V1 "

abbrev pub signed_ok_prefix : Bytes
signed_ok_prefix = codes "AUTH_SIGNED_OK_V1 "

pub record SignedChallenge : Type 0 where
  pub server_nonce_hex : Bytes
  pub server_ephemeral_public_key_hex : Bytes

pub record SignedResponse : Type 0 where
  pub client_id : Bytes
  pub client_nonce_hex : Bytes
  pub client_ephemeral_public_key_hex : Bytes
  pub signature_hex : Bytes

abbrev pub signed_label : Bytes
signed_label = codes "TransferUDT signed handshake v1"

unfoldable pub build_client_transcript : SignedChallenge → Bytes → Bytes → Bytes → Bytes
build_client_transcript challenge client_id client_nonce_hex client_public_key_hex = joined b'|' (
    signed_label
    ∷ codes "client"
    ∷ client_id
    ∷ challenge.server_nonce_hex
    ∷ challenge.server_ephemeral_public_key_hex
    ∷ client_nonce_hex
    ∷ client_public_key_hex
    ∷ [])

unfoldable pub build_server_transcript : SignedChallenge → SignedResponse → Bytes
build_server_transcript challenge response = joined b'|' (
    signed_label
    ∷ codes "server"
    ∷ response.client_id
    ∷ challenge.server_nonce_hex
    ∷ challenge.server_ephemeral_public_key_hex
    ∷ response.client_nonce_hex
    ∷ response.client_ephemeral_public_key_hex
    ∷ response.signature_hex
    ∷ [])

unfoldable pub build_kdf_transcript : SignedChallenge → SignedResponse → Bytes → Bytes
build_kdf_transcript challenge response server_signature_hex = joined b'|' (
    signed_label
    ∷ codes "kdf"
    ∷ response.client_id
    ∷ challenge.server_nonce_hex
    ∷ challenge.server_ephemeral_public_key_hex
    ∷ response.client_nonce_hex
    ∷ response.client_ephemeral_public_key_hex
    ∷ response.signature_hex
    ∷ server_signature_hex
    ∷ [])

unfoldable pub validate_signed_challenge : SignedChallenge → Result (Unit {0})
validate_signed_challenge challenge = do
  _ ← from_hex challenge.server_nonce_hex challenge_bytes
  _ ← from_hex challenge.server_ephemeral_public_key_hex x25519_key_bytes
  ok tt

unfoldable pub validate_signed_response : SignedResponse → Result (Unit {0})
validate_signed_response response = do
  throw_if (not (is_valid_client_id response.client_id)) invalid_client_id
  _ ← from_hex response.client_nonce_hex challenge_bytes
  _ ← from_hex response.client_ephemeral_public_key_hex x25519_key_bytes
  throw_if (is_bad_signature response.signature_hex) invalid_signature

unfoldable pub build_signed_challenge_message : SignedChallenge → Result Bytes
build_signed_challenge_message challenge = do
  validate_signed_challenge challenge
  ok (
      signed_challenge_prefix
      ++ joined b' ' (challenge.server_nonce_hex ∷ challenge.server_ephemeral_public_key_hex ∷ []))

abbrev if_challenge : SignedChallenge → Option SignedChallenge
if_challenge challenge =
    if is_ok (validate_signed_challenge challenge) then some challenge else none

abbrev challenge_parts : Option (Bytes × Bytes) → Option SignedChallenge
challenge_parts none = none
challenge_parts (some (nonce, key)) =
    if_challenge (record { server_nonce_hex = nonce; server_ephemeral_public_key_hex = key })

abbrev challenge_after : Option Bytes → Option SignedChallenge
challenge_after none = none
challenge_after (some payload) = challenge_parts (find_space payload)

unfoldable pub try_parse_signed_challenge_message : Bytes → Option SignedChallenge
try_parse_signed_challenge_message message =
    challenge_after (after_prefix signed_challenge_prefix message)

abbrev if_response : SignedResponse → Option SignedResponse
if_response response = if is_ok (validate_signed_response response) then some response else none

-- Its loop over the payload is that of splitSpaceSeparated.
abbrev response_parts : List Bytes → Option SignedResponse
response_parts (id ∷ nonce ∷ key ∷ signature ∷ []) = if_response (record {
  client_id = id;
  client_nonce_hex = nonce;
  client_ephemeral_public_key_hex = key;
  signature_hex = signature;
})
response_parts _ = none

abbrev response_after : Option Bytes → Option SignedResponse
response_after none = none
response_after (some payload) = response_parts (split_space_separated payload)

unfoldable pub try_parse_signed_response_message : Bytes → Option SignedResponse
try_parse_signed_response_message message =
    response_after (after_prefix signed_response_prefix message)

module _ (ssl : OpenSsl) where
  unfoldable pub build_signed_response_message :
      SignedChallenge → Bytes → Bytes → Bytes → Bytes → Result Bytes
  build_signed_response_message challenge client_id nonce public_key private_key_path = do
    validate_signed_challenge challenge
    validate_signed_response (record {
      client_id = client_id;
      client_nonce_hex = nonce;
      client_ephemeral_public_key_hex = public_key;
      signature_hex = codes "00";
    })
    signature ←
        sign_message_hex ssl (build_client_transcript challenge client_id nonce public_key)
          private_key_path
    ok (signed_response_prefix ++ joined b' ' (client_id ∷ nonce ∷ public_key ∷ signature ∷ []))

  unfoldable pub verify_signed_response_message :
      SignedChallenge → SignedResponse → Bytes → Result Bool
  verify_signed_response_message challenge response client_public_key_path = do
    validate_signed_challenge challenge
    validate_signed_response response
    verify_message_signature_hex ssl
        (build_client_transcript challenge response.client_id response.client_nonce_hex
          response.client_ephemeral_public_key_hex)
        response.signature_hex client_public_key_path

  unfoldable pub build_signed_ok_message : SignedChallenge → SignedResponse → Bytes → Result Bytes
  build_signed_ok_message challenge response server_private_key_path = do
    validate_signed_challenge challenge
    validate_signed_response response
    signature ←
        sign_message_hex ssl (build_server_transcript challenge response) server_private_key_path
    ok (signed_ok_prefix ++ signature)

  abbrev if_verified : Bytes → Bool → Option Bytes
  if_verified signature true = some signature
  if_verified signature false = none

  abbrev verify_ok_after :
      SignedChallenge → SignedResponse → Bytes → Option Bytes → Result (Option Bytes)
  verify_ok_after challenge response server_public_key_path none = ok none
  verify_ok_after challenge response server_public_key_path (some signature_hex) = do
    validate_signed_challenge challenge
    validate_signed_response response
    valid ←
        verify_message_signature_hex ssl (build_server_transcript challenge response) signature_hex
          server_public_key_path
    ok (if_verified signature_hex valid)

  -- When it returns true: the signature of the server.
  unfoldable pub verify_signed_ok_message :
      SignedChallenge → SignedResponse → Bytes → Bytes → Result (Option Bytes)
  verify_signed_ok_message challenge response signed_ok_message server_public_key_path =
      verify_ok_after challenge response server_public_key_path
        (after_prefix signed_ok_prefix signed_ok_message)

  unfoldable pub derive_signed_session_secret :
      Bytes → Bytes → SignedChallenge → SignedResponse → Bytes → Result Bytes
  derive_signed_session_secret own_private_key peer_public_key challenge response server_signature =
      do
        validate_signed_challenge challenge
        validate_signed_response response
        throw_if (is_bad_signature server_signature) invalid_signature
        shared_secret ← derive_x25519_shared_secret ssl own_private_key peer_public_key
        hkdf_session_secret_hex ssl shared_secret
            (build_kdf_transcript challenge response server_signature) signed_label
