-- ===== src/SecurityHandshake/Certificate.antt =====
-- The messages of the handshake by certificates (TransferCore/SecurityHandshake.cpp).
use transfer_udt.Common.{
  Bool, true, false, not, Option, none, some, List, [], ◌∷◌, ◌++◌, if◌then◌else◌,
}
use transfer_udt.Common.Bytes.{Bytes, codes}
use transfer_udt.SecurityHandshake.Texts.{
  Result, ok, ◌>>=◌, ◌>>◌, throw_if, is_ok, or_false, challenge_bytes, x25519_key_bytes,
  is_valid_client_id, after_prefix, split_space_separated, joined, invalid_client_id,
  invalid_signature, from_hex, validate_certificate_hex, key_mismatch,
}
use transfer_udt.SecurityHandshake.Ops.{
  OpenSsl, sign_message_hex, derive_x25519_shared_secret, hkdf_session_secret_hex, is_bad_signature,
}
use transfer_udt.SecurityHandshake.Bundles.{
  validate_bundle, certificate_matches_private_key, verify_certificate_signature_hex,
  load_certificate_bundle_hex,
}

abbrev pub certificate_challenge_prefix : Bytes
certificate_challenge_prefix = codes "AUTH_CERT_CHALLENGE_V1 "

abbrev pub certificate_response_prefix : Bytes
certificate_response_prefix = codes "AUTH_CERT_RESPONSE_V1 "

abbrev pub certificate_ok_prefix : Bytes
certificate_ok_prefix = codes "AUTH_CERT_OK_V1 "

pub record CertificateChallenge : Type 0 where
  pub server_nonce_hex : Bytes
  pub server_ephemeral_public_key_hex : Bytes
  pub server_certificate_hex : Bytes

pub record CertificateResponse : Type 0 where
  pub client_id : Bytes
  pub client_nonce_hex : Bytes
  pub client_ephemeral_public_key_hex : Bytes
  pub client_certificate_hex : Bytes
  pub signature_hex : Bytes

abbrev pub certificate_label : Bytes
certificate_label = codes "TransferUDT certificate handshake v1"

unfoldable pub build_certificate_client_transcript :
    CertificateChallenge → Bytes → Bytes → Bytes → Bytes → Bytes
build_certificate_client_transcript challenge client_id nonce public_key certificate = joined b'|' (
    certificate_label
    ∷ codes "client"
    ∷ client_id
    ∷ challenge.server_nonce_hex
    ∷ challenge.server_ephemeral_public_key_hex
    ∷ challenge.server_certificate_hex
    ∷ nonce
    ∷ public_key
    ∷ certificate
    ∷ [])

unfoldable pub build_certificate_server_transcript :
    CertificateChallenge → CertificateResponse → Bytes
build_certificate_server_transcript challenge response = joined b'|' (
    certificate_label
    ∷ codes "server"
    ∷ response.client_id
    ∷ challenge.server_nonce_hex
    ∷ challenge.server_ephemeral_public_key_hex
    ∷ challenge.server_certificate_hex
    ∷ response.client_nonce_hex
    ∷ response.client_ephemeral_public_key_hex
    ∷ response.client_certificate_hex
    ∷ response.signature_hex
    ∷ [])

unfoldable pub build_certificate_kdf_transcript :
    CertificateChallenge → CertificateResponse → Bytes → Bytes
build_certificate_kdf_transcript challenge response server_signature_hex = joined b'|' (
    certificate_label
    ∷ codes "kdf"
    ∷ response.client_id
    ∷ challenge.server_nonce_hex
    ∷ challenge.server_ephemeral_public_key_hex
    ∷ challenge.server_certificate_hex
    ∷ response.client_nonce_hex
    ∷ response.client_ephemeral_public_key_hex
    ∷ response.client_certificate_hex
    ∷ response.signature_hex
    ∷ server_signature_hex
    ∷ [])

unfoldable pub validate_certificate_challenge : CertificateChallenge → Result (Unit {0})
validate_certificate_challenge challenge = do
  _ ← from_hex challenge.server_nonce_hex challenge_bytes
  _ ← from_hex challenge.server_ephemeral_public_key_hex x25519_key_bytes
  validate_certificate_hex challenge.server_certificate_hex

unfoldable pub validate_certificate_response : CertificateResponse → Result (Unit {0})
validate_certificate_response response = do
  throw_if (not (is_valid_client_id response.client_id)) invalid_client_id
  _ ← from_hex response.client_nonce_hex challenge_bytes
  _ ← from_hex response.client_ephemeral_public_key_hex x25519_key_bytes
  validate_certificate_hex response.client_certificate_hex
  throw_if (is_bad_signature response.signature_hex) invalid_signature

unfoldable pub build_certificate_challenge_message : CertificateChallenge → Result Bytes
build_certificate_challenge_message challenge = do
  validate_certificate_challenge challenge
  ok (
      certificate_challenge_prefix
      ++ joined b' ' (
          challenge.server_nonce_hex ∷ challenge.server_ephemeral_public_key_hex
          ∷ challenge.server_certificate_hex ∷ []))

abbrev if_challenge : CertificateChallenge → Option CertificateChallenge
if_challenge challenge =
    if is_ok (validate_certificate_challenge challenge) then some challenge else none

abbrev challenge_parts : List Bytes → Option CertificateChallenge
challenge_parts (nonce ∷ key ∷ certificate ∷ []) = if_challenge (record {
  server_nonce_hex = nonce;
  server_ephemeral_public_key_hex = key;
  server_certificate_hex = certificate;
})
challenge_parts _ = none

abbrev challenge_after : Option Bytes → Option CertificateChallenge
challenge_after none = none
challenge_after (some payload) = challenge_parts (split_space_separated payload)

unfoldable pub try_parse_certificate_challenge_message : Bytes → Option CertificateChallenge
try_parse_certificate_challenge_message message =
    challenge_after (after_prefix certificate_challenge_prefix message)

abbrev if_response : CertificateResponse → Option CertificateResponse
if_response response =
    if is_ok (validate_certificate_response response) then some response else none

abbrev response_parts : List Bytes → Option CertificateResponse
response_parts (id ∷ nonce ∷ key ∷ certificate ∷ signature ∷ []) = if_response (record {
  client_id = id;
  client_nonce_hex = nonce;
  client_ephemeral_public_key_hex = key;
  client_certificate_hex = certificate;
  signature_hex = signature;
})
response_parts _ = none

abbrev response_after : Option Bytes → Option CertificateResponse
response_after none = none
response_after (some payload) = response_parts (split_space_separated payload)

unfoldable pub try_parse_certificate_response_message : Bytes → Option CertificateResponse
try_parse_certificate_response_message message =
    response_after (after_prefix certificate_response_prefix message)

module _ (ssl : OpenSsl) where
  unfoldable pub build_certificate_response_message :
      CertificateChallenge → Bytes → Bytes → Bytes → Bytes → Bytes → Result Bytes
  build_certificate_response_message challenge client_id nonce public_key certificate_path
        private_key_path =
      do
        validate_certificate_challenge challenge
        certificate ← load_certificate_bundle_hex ssl certificate_path
        validate_certificate_response (record {
          client_id = client_id;
          client_nonce_hex = nonce;
          client_ephemeral_public_key_hex = public_key;
          client_certificate_hex = certificate;
          signature_hex = codes "00";
        })
        matches ← certificate_matches_private_key ssl certificate private_key_path
        throw_if (not matches) key_mismatch
        signature ←
            sign_message_hex ssl
              (build_certificate_client_transcript challenge client_id nonce public_key certificate)
              private_key_path
        ok (
            certificate_response_prefix
            ++ joined b' ' (client_id ∷ nonce ∷ public_key ∷ certificate ∷ signature ∷ []))

  abbrev verify_signature_if : Bool → CertificateChallenge → CertificateResponse → Result Bool
  verify_signature_if false challenge response = ok false
  verify_signature_if true challenge response =
      verify_certificate_signature_hex ssl
        (build_certificate_client_transcript challenge response.client_id response.client_nonce_hex
          response.client_ephemeral_public_key_hex response.client_certificate_hex)
        response.signature_hex response.client_certificate_hex

  abbrev verify_response : CertificateChallenge → CertificateResponse → Bytes → Bytes → Result Bool
  verify_response challenge response ca_bundle_path crl_path = do
    validate_certificate_challenge challenge
    validate_certificate_response response
    trusted ←
        validate_bundle ssl response.client_certificate_hex ca_bundle_path response.client_id false
          crl_path
    verify_signature_if trusted challenge response

  unfoldable pub verify_certificate_response_message :
      CertificateChallenge → CertificateResponse → Bytes → Bytes → Bool
  verify_certificate_response_message challenge response ca_bundle_path crl_path =
      or_false (verify_response challenge response ca_bundle_path crl_path)

  unfoldable pub build_certificate_ok_message :
      CertificateChallenge → CertificateResponse → Bytes → Result Bytes
  build_certificate_ok_message challenge response server_private_key_path = do
    validate_certificate_challenge challenge
    validate_certificate_response response
    matches ←
        certificate_matches_private_key ssl challenge.server_certificate_hex server_private_key_path
    throw_if (not matches) key_mismatch
    signature ←
        sign_message_hex ssl (build_certificate_server_transcript challenge response)
          server_private_key_path
    ok (certificate_ok_prefix ++ signature)

  abbrev verify_proof_if : Bool → CertificateChallenge → CertificateResponse → Bytes → Result Bool
  verify_proof_if false challenge response signature_hex = ok false
  verify_proof_if true challenge response signature_hex =
      verify_certificate_signature_hex ssl (build_certificate_server_transcript challenge response)
        signature_hex challenge.server_certificate_hex

  abbrev verify_ok :
      CertificateChallenge → CertificateResponse → Bytes → Bytes → Bytes → Bytes → Result Bool
  verify_ok challenge response signature_hex ca_bundle_path expected_server_identity crl_path = do
    validate_certificate_challenge challenge
    validate_certificate_response response
    trusted ←
        validate_bundle ssl challenge.server_certificate_hex ca_bundle_path expected_server_identity
          true crl_path
    verify_proof_if trusted challenge response signature_hex

  abbrev verify_ok_after :
      CertificateChallenge
      → CertificateResponse
      → Option Bytes
      → Bytes
      → Bytes
      → Bytes
      → Option Bytes
  verify_ok_after challenge response none ca_bundle_path expected_server_identity crl_path = none
  verify_ok_after challenge response (some signature_hex) ca_bundle_path expected_server_identity
        crl_path =
      if or_false (
        verify_ok challenge response signature_hex ca_bundle_path expected_server_identity crl_path)
      then some signature_hex
      else none

  -- When it returns true: the signature of the server.
  unfoldable pub verify_certificate_ok_message :
      CertificateChallenge → CertificateResponse → Bytes → Bytes → Bytes → Bytes → Option Bytes
  verify_certificate_ok_message challenge response ok_message ca_bundle_path
        expected_server_identity crl_path =
      verify_ok_after challenge response (after_prefix certificate_ok_prefix ok_message)
        ca_bundle_path expected_server_identity crl_path

  unfoldable pub derive_certificate_session_secret :
      Bytes → Bytes → CertificateChallenge → CertificateResponse → Bytes → Result Bytes
  derive_certificate_session_secret own_private_key peer_public_key challenge response
        server_signature =
      do
        validate_certificate_challenge challenge
        validate_certificate_response response
        throw_if (is_bad_signature server_signature) invalid_signature
        shared_secret ← derive_x25519_shared_secret ssl own_private_key peer_public_key
        hkdf_session_secret_hex ssl shared_secret
            (build_certificate_kdf_transcript challenge response server_signature) certificate_label
