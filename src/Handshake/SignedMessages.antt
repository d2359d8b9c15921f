-- ===== src/Handshake/SignedMessages.antt =====
-- The messages of the signed handshake (TransferCore/SecurityHandshake.cpp).
use transfer_udt.Common.{◌≡◌, refl, true, false, some, [], ◌∷◌, ◌++◌}
use transfer_udt.Common.Bytes.{Bytes}
use transfer_udt.SecurePacket.Hex.{to_hex}
use transfer_udt.SecurityHandshake.Texts.{ok, joined, is_valid_client_id}
use transfer_udt.SecurityHandshake.Splits.{find_space-append, split-joined, client_id-no_space}
use transfer_udt.SecurityHandshake.Ops.{OpenSsl, derive_x25519_shared_secret}
use transfer_udt.SecurityHandshake.Signed.{
  SignedChallenge, SignedResponse, signed_challenge_prefix, signed_response_prefix,
  signed_ok_prefix, signed_label, build_client_transcript, build_server_transcript,
  build_kdf_transcript, validate_signed_challenge, validate_signed_response,
  try_parse_signed_challenge_message, build_signed_response_message,
  try_parse_signed_response_message, verify_signed_response_message, build_signed_ok_message,
  verify_signed_ok_message, derive_signed_session_secret,
}
use transfer_udt.Server.ServerConfig.{
  SecurityConfig, is_signed_identity_mode, is_certificate_identity_mode, is_client_identity_allowed,
  get_client_public_key_path,
}
use transfer_udt.Server.ClientHandler.Handshake.{ServerRandom}
use transfer_udt.UdtConnectionPool.CreateConnection.{AgentRandom, ConnectionSettings}
use transfer_udt.Handshake.Keys.{
  Signer, IsPublicKey, HkdfLaws, Draw, from_hex-32, signature_hex, sign_message_hex_lem,
  signature_hex-is_bad, verify_message_signature_hex_lem, derived_hex, hkdf_session_secret_hex_lem,
  zeros-is_bad_signature, to_hex-no_space,
}

-- What the settings have to be, besides: the mode, a client id that is valid and allowed, and the
-- public key of each end in the files of the other.
pub record IsSignedPair (ssl : OpenSsl) (config : SecurityConfig) (settings : ConnectionSettings)
    : Type 0 where
  pub not_certificate : is_certificate_identity_mode config ≡ false
  pub signed : is_signed_identity_mode config ≡ true
  pub valid_id : is_valid_client_id settings.security_client_id ≡ true
  pub allowed : is_client_identity_allowed config settings.security_client_id ≡ true
  pub server : Signer ssl config.security_server_private_key_path
  pub agent : Signer ssl settings.security_client_private_key_path
  pub server_key : ssl.PublicKey
  pub agent_key : ssl.PublicKey
  pub server_key_read :
      ssl.read_public_key settings.security_server_public_key_path ≡ some server_key
  pub agent_key_read :
      ssl.read_public_key (get_client_public_key_path config settings.security_client_id)
      ≡ some agent_key
  pub server_key_matches : IsPublicKey ssl config.security_server_private_key_path server server_key
  pub agent_key_matches : IsPublicKey ssl settings.security_client_private_key_path agent agent_key

module _ {ssl : OpenSsl} {config : SecurityConfig} {settings : ConnectionSettings}
    {server_random : ServerRandom} {agent_random : AgentRandom} (hkdf : HkdfLaws ssl)
    (pair : IsSignedPair ssl config settings) (draw : Draw ssl server_random agent_random) where
  abbrev id : Bytes
  id = settings.security_client_id

  abbrev pub challenge : SignedChallenge
  challenge = record {
    server_nonce_hex = to_hex draw.server_nonce;
    server_ephemeral_public_key_hex = to_hex draw.server_public;
  }

  abbrev client_signature : Bytes
  client_signature =
      signature_hex ssl settings.security_client_private_key_path pair.agent
        (build_client_transcript challenge id (to_hex draw.agent_nonce) (to_hex draw.agent_public))

  abbrev pub response : SignedResponse
  response = record {
    client_id = id;
    client_nonce_hex = to_hex draw.agent_nonce;
    client_ephemeral_public_key_hex = to_hex draw.agent_public;
    signature_hex = client_signature;
  }

  abbrev pub server_signature : Bytes
  server_signature =
      signature_hex ssl config.security_server_private_key_path pair.server
        (build_server_transcript challenge response)

  abbrev pub secret : Bytes
  secret =
      derived_hex ssl hkdf draw.shared (build_kdf_transcript challenge response server_signature)
        signed_label

  pub validate_signed_challenge_lem : validate_signed_challenge challenge ≡ ok tt
  unfolding validate_signed_challenge
  validate_signed_challenge_lem =
      rw
        (
          from_hex-32 draw.server_nonce draw.server_nonce_given.length_32
              draw.server_nonce_given.bytes,
          from_hex-32 draw.server_public draw.server_keys.public_32 draw.server_keys.public_bytes,
        )
        refl

  validate_signed_response_lem : validate_signed_response response ≡ ok tt
  unfolding validate_signed_response
  validate_signed_response_lem =
      rw
        (
          pair.valid_id,
          from_hex-32 draw.agent_nonce draw.agent_nonce_given.length_32
              draw.agent_nonce_given.bytes,
          from_hex-32 draw.agent_public draw.agent_keys.public_32 draw.agent_keys.public_bytes,
          signature_hex-is_bad ssl settings.security_client_private_key_path pair.agent (
              build_client_transcript challenge id (to_hex draw.agent_nonce)
                (to_hex draw.agent_public)),
        )
        refl

  abbrev pub challenge_message : Bytes
  challenge_message =
      signed_challenge_prefix
      ++ joined b' ' (to_hex draw.server_nonce ∷ to_hex draw.server_public ∷ [])

  abbrev pub response_message : Bytes
  response_message =
      signed_response_prefix
      ++ joined b' '
          (id ∷ to_hex draw.agent_nonce ∷ to_hex draw.agent_public ∷ client_signature ∷ [])

  pub try_parse_signed_challenge_message_lem :
      try_parse_signed_challenge_message challenge_message ≡ some challenge
  unfolding try_parse_signed_challenge_message
  try_parse_signed_challenge_message_lem =
      rw
        (
          find_space-append (to_hex draw.server_nonce) (to_hex draw.server_public)
              (to_hex-no_space draw.server_nonce),
          validate_signed_challenge_lem,
        )
        refl

  pub try_parse_signed_response_message_lem :
      try_parse_signed_response_message response_message ≡ some response
  unfolding try_parse_signed_response_message
  try_parse_signed_response_message_lem =
      rw
        (
          split-joined id
              (to_hex draw.agent_nonce ∷ to_hex draw.agent_public ∷ client_signature ∷ [])
              (
                client_id-no_space id pair.valid_id,
                (
                  to_hex-no_space draw.agent_nonce,
                  (to_hex-no_space draw.agent_public, (to_hex-no_space _, tt)),
                ),
              ),
          validate_signed_response_lem,
        )
        refl

  pub build_signed_response_message_lem :
      build_signed_response_message ssl challenge id
        (to_hex draw.agent_nonce)
        (to_hex draw.agent_public)
        settings.security_client_private_key_path
      ≡ ok response_message
  unfolding build_signed_response_message validate_signed_response
  build_signed_response_message_lem =
      rw
        (
          validate_signed_challenge_lem,
          pair.valid_id,
          from_hex-32 draw.agent_nonce draw.agent_nonce_given.length_32
              draw.agent_nonce_given.bytes,
          from_hex-32 draw.agent_public draw.agent_keys.public_32 draw.agent_keys.public_bytes,
          zeros-is_bad_signature,
          sign_message_hex_lem ssl _ pair.agent (
              build_client_transcript challenge id (to_hex draw.agent_nonce)
                (to_hex draw.agent_public)),
        )
        refl

  pub verify_signed_response_message_lem :
      verify_signed_response_message ssl challenge response (get_client_public_key_path config id)
      ≡ ok true
  unfolding verify_signed_response_message
  verify_signed_response_message_lem =
      rw
        (
          validate_signed_challenge_lem,
          validate_signed_response_lem,
          verify_message_signature_hex_lem ssl _ pair.agent _ pair.agent_key pair.agent_key_read
              pair.agent_key_matches
              (build_client_transcript challenge id (to_hex draw.agent_nonce)
                (to_hex draw.agent_public)),
        )
        refl

  pub build_signed_ok_message_lem :
      build_signed_ok_message ssl challenge response config.security_server_private_key_path
      ≡ ok (signed_ok_prefix ++ server_signature)
  unfolding build_signed_ok_message
  build_signed_ok_message_lem =
      rw
        (
          validate_signed_challenge_lem,
          validate_signed_response_lem,
          sign_message_hex_lem ssl _ pair.server (build_server_transcript challenge response),
        )
        refl

  pub verify_signed_ok_message_lem :
      verify_signed_ok_message ssl challenge response
        (signed_ok_prefix ++ server_signature)
        settings.security_server_public_key_path
      ≡ ok (some server_signature)
  unfolding verify_signed_ok_message
  verify_signed_ok_message_lem =
      rw
        (
          validate_signed_challenge_lem,
          validate_signed_response_lem,
          verify_message_signature_hex_lem ssl _ pair.server _ pair.server_key pair.server_key_read
              pair.server_key_matches (build_server_transcript challenge response),
        )
        refl

  -- With a private key and the public key of the other end.
  pub derive_signed_session_secret_lem :
      (private public : Bytes)
      → derive_x25519_shared_secret ssl (to_hex private) (to_hex public) ≡ ok draw.shared
      → derive_signed_session_secret ssl
          (to_hex private)
          (to_hex public)
          challenge
          response
          server_signature
        ≡ ok secret
  unfolding derive_signed_session_secret
  derive_signed_session_secret_lem private public e =
      rw
        (
          validate_signed_challenge_lem,
          validate_signed_response_lem,
          signature_hex-is_bad ssl _ pair.server (build_server_transcript challenge response),
          e,
          hkdf_session_secret_hex_lem ssl hkdf draw.shared
              (build_kdf_transcript challenge response server_signature) signed_label,
        )
        refl
