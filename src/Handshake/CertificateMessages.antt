-- ===== src/Handshake/CertificateMessages.antt =====
-- The messages of the certificate handshake (TransferCore/SecurityHandshake.cpp).
use transfer_udt.Common.{◌≡◌, refl, true, false, some, [], ◌∷◌, ◌++◌}
use transfer_udt.Common.Bytes.{Bytes}
use transfer_udt.SecurePacket.Hex.{to_hex}
use transfer_udt.SecurityHandshake.Texts.{ok, joined, is_valid_client_id}
use transfer_udt.SecurityHandshake.Splits.{split-joined, client_id-no_space}
use transfer_udt.SecurityHandshake.Ops.{OpenSsl, derive_x25519_shared_secret}
use transfer_udt.SecurityHandshake.Certificate.{
  CertificateChallenge, CertificateResponse, certificate_challenge_prefix,
  certificate_response_prefix, certificate_ok_prefix, certificate_label,
  build_certificate_client_transcript, build_certificate_server_transcript,
  build_certificate_kdf_transcript, validate_certificate_challenge, validate_certificate_response,
  try_parse_certificate_challenge_message, build_certificate_response_message,
  try_parse_certificate_response_message, verify_certificate_response_message,
  build_certificate_ok_message, verify_certificate_ok_message, derive_certificate_session_secret,
}
use transfer_udt.SecurityHandshake.Bundles.{validate_bundle}
use transfer_udt.Handshake.Certificates.{
  Certified, validate_certificate_hex_lem, load_certificate_bundle_hex_lem,
  certificate_matches_private_key_lem, verify_certificate_signature_hex_lem,
}
use transfer_udt.Server.ServerConfig.{
  SecurityConfig, is_certificate_identity_mode, is_client_identity_allowed,
}
use transfer_udt.Server.ClientHandler.Handshake.{ServerRandom}
use transfer_udt.UdtConnectionPool.CreateConnection.{
  AgentRandom, ConnectionSettings, expected_server_identity,
}
use transfer_udt.Handshake.Keys.{
  HkdfLaws, Draw, from_hex-32, signature_hex, sign_message_hex_lem, signature_hex-is_bad,
  derived_hex, hkdf_session_secret_hex_lem, zeros-is_bad_signature, to_hex-no_space,
}

-- What the settings have to be, besides: the mode, a client id that is valid and allowed, and for
-- each end a certificate with its key that the other end trusts.
pub record IsCertificatePair (ssl : OpenSsl) (config : SecurityConfig)
    (settings : ConnectionSettings) : Type 0 where
  pub certificates : is_certificate_identity_mode config ≡ true
  pub valid_id : is_valid_client_id settings.security_client_id ≡ true
  pub allowed : is_client_identity_allowed config settings.security_client_id ≡ true
  pub server :
      Certified ssl config.security_server_certificate_path config.security_server_private_key_path
  pub agent :
      Certified ssl settings.security_client_certificate_path
        settings.security_client_private_key_path
  pub server_trusted :
      validate_bundle ssl
        (to_hex server.content)
        settings.security_ca_bundle_path
        (expected_server_identity settings)
        true
        settings.security_crl_path
      ≡ ok true
  pub agent_trusted :
      validate_bundle ssl
        (to_hex agent.content)
        config.security_ca_bundle_path
        settings.security_client_id
        false
        config.security_crl_path
      ≡ ok true

module _ {ssl : OpenSsl} {config : SecurityConfig} {settings : ConnectionSettings}
    {server_random : ServerRandom} {agent_random : AgentRandom} (hkdf : HkdfLaws ssl)
    (pair : IsCertificatePair ssl config settings)
    (draw : Draw ssl server_random agent_random) where
  abbrev id : Bytes
  id = settings.security_client_id

  abbrev pub challenge : CertificateChallenge
  challenge = record {
    server_nonce_hex = to_hex draw.server_nonce;
    server_ephemeral_public_key_hex = to_hex draw.server_public;
    server_certificate_hex = to_hex pair.server.content;
  }

  abbrev client_transcript : Bytes
  client_transcript =
      build_certificate_client_transcript challenge id (to_hex draw.agent_nonce)
        (to_hex draw.agent_public) (to_hex pair.agent.content)

  abbrev client_signature : Bytes
  client_signature =
      signature_hex ssl settings.security_client_private_key_path pair.agent.signer
        client_transcript

  abbrev pub response : CertificateResponse
  response = record {
    client_id = id;
    client_nonce_hex = to_hex draw.agent_nonce;
    client_ephemeral_public_key_hex = to_hex draw.agent_public;
    client_certificate_hex = to_hex pair.agent.content;
    signature_hex = client_signature;
  }

  abbrev pub server_signature : Bytes
  server_signature =
      signature_hex ssl config.security_server_private_key_path pair.server.signer
        (build_certificate_server_transcript challenge response)

  abbrev pub secret : Bytes
  secret =
      derived_hex ssl hkdf draw.shared
        (build_certificate_kdf_transcript challenge response server_signature) certificate_label

  pub validate_certificate_challenge_lem : validate_certificate_challenge challenge ≡ ok tt
  unfolding validate_certificate_challenge
  validate_certificate_challenge_lem =
      rw
        (
          from_hex-32 draw.server_nonce draw.server_nonce_given.length_32
              draw.server_nonce_given.bytes,
          from_hex-32 draw.server_public draw.server_keys.public_32 draw.server_keys.public_bytes,
          validate_certificate_hex_lem ssl _ _ pair.server,
        )
        refl

  validate_certificate_response_lem : validate_certificate_response response ≡ ok tt
  unfolding validate_certificate_response
  validate_certificate_response_lem =
      rw
        (
          pair.valid_id,
          from_hex-32 draw.agent_nonce draw.agent_nonce_given.length_32
              draw.agent_nonce_given.bytes,
          from_hex-32 draw.agent_public draw.agent_keys.public_32 draw.agent_keys.public_bytes,
          validate_certificate_hex_lem ssl _ _ pair.agent,
          signature_hex-is_bad ssl settings.security_client_private_key_path pair.agent.signer
              client_transcript,
        )
        refl

  abbrev pub challenge_message : Bytes
  challenge_message =
      certificate_challenge_prefix
      ++ joined b' '
          (to_hex draw.server_nonce ∷ to_hex draw.server_public ∷ to_hex pair.server.content ∷ [])

  abbrev pub response_message : Bytes
  response_message =
      certificate_response_prefix
      ++ joined b' ' (
          id
          ∷ to_hex draw.agent_nonce
          ∷ to_hex draw.agent_public
          ∷ to_hex pair.agent.content
          ∷ client_signature
          ∷ [])

  pub try_parse_certificate_challenge_message_lem :
      try_parse_certificate_challenge_message challenge_message ≡ some challenge
  unfolding try_parse_certificate_challenge_message
  try_parse_certificate_challenge_message_lem =
      rw
        (
          split-joined (to_hex draw.server_nonce)
              (to_hex draw.server_public ∷ to_hex pair.server.content ∷ [])
              (
                to_hex-no_space draw.server_nonce,
                (to_hex-no_space draw.server_public, (to_hex-no_space pair.server.content, tt)),
              ),
          validate_certificate_challenge_lem,
        )
        refl

  pub try_parse_certificate_response_message_lem :
      try_parse_certificate_response_message response_message ≡ some response
  unfolding try_parse_certificate_response_message
  try_parse_certificate_response_message_lem =
      rw
        (
          split-joined id
              (to_hex draw.agent_nonce
                ∷ to_hex draw.agent_public
                ∷ to_hex pair.agent.content
                ∷ client_signature
                ∷ [])
              (
                client_id-no_space id pair.valid_id,
                (
                  to_hex-no_space draw.agent_nonce,
                  (
                    to_hex-no_space draw.agent_public,
                    (to_hex-no_space pair.agent.content, (to_hex-no_space _, tt)),
                  ),
                ),
              ),
          validate_certificate_response_lem,
        )
        refl

  pub build_certificate_response_message_lem :
      build_certificate_response_message ssl challenge id
        (to_hex draw.agent_nonce)
        (to_hex draw.agent_public)
        settings.security_client_certificate_path
        settings.security_client_private_key_path
      ≡ ok response_message
  unfolding build_certificate_response_message validate_certificate_response
  build_certificate_response_message_lem =
      rw
        (
          validate_certificate_challenge_lem,
          load_certificate_bundle_hex_lem ssl _ _ pair.agent,
          pair.valid_id,
          from_hex-32 draw.agent_nonce draw.agent_nonce_given.length_32
              draw.agent_nonce_given.bytes,
          from_hex-32 draw.agent_public draw.agent_keys.public_32 draw.agent_keys.public_bytes,
          validate_certificate_hex_lem ssl _ _ pair.agent,
          zeros-is_bad_signature,
          certificate_matches_private_key_lem ssl _ _ pair.agent,
          sign_message_hex_lem ssl _ pair.agent.signer client_transcript,
        )
        refl

  pub verify_certificate_response_message_lem :
      verify_certificate_response_message ssl challenge response config.security_ca_bundle_path
        config.security_crl_path
      ≡ true
  unfolding verify_certificate_response_message
  verify_certificate_response_message_lem =
      rw
        (
          validate_certificate_challenge_lem,
          validate_certificate_response_lem,
          pair.agent_trusted,
          verify_certificate_signature_hex_lem ssl _ _ pair.agent client_transcript,
        )
        refl

  pub build_certificate_ok_message_lem :
      build_certificate_ok_message ssl challenge response config.security_server_private_key_path
      ≡ ok (certificate_ok_prefix ++ server_signature)
  unfolding build_certificate_ok_message
  build_certificate_ok_message_lem =
      rw
        (
          validate_certificate_challenge_lem,
          validate_certificate_response_lem,
          certificate_matches_private_key_lem ssl _ _ pair.server,
          sign_message_hex_lem ssl _ pair.server.signer
              (build_certificate_server_transcript challenge response),
        )
        refl

  pub verify_certificate_ok_message_lem :
      verify_certificate_ok_message ssl challenge response
        (certificate_ok_prefix ++ server_signature)
        settings.security_ca_bundle_path
        (expected_server_identity settings)
        settings.security_crl_path
      ≡ some server_signature
  unfolding verify_certificate_ok_message
  verify_certificate_ok_message_lem =
      rw
        (
          validate_certificate_challenge_lem,
          validate_certificate_response_lem,
          pair.server_trusted,
          verify_certificate_signature_hex_lem ssl _ _ pair.server
              (build_certificate_server_transcript challenge response),
        )
        refl

  -- With a private key and the public key of the other end.
  pub derive_certificate_session_secret_lem :
      (private public : Bytes)
      → derive_x25519_shared_secret ssl (to_hex private) (to_hex public) ≡ ok draw.shared
      → derive_certificate_session_secret ssl
          (to_hex private)
          (to_hex public)
          challenge
          response
          server_signature
        ≡ ok secret
  unfolding derive_certificate_session_secret
  derive_certificate_session_secret_lem private public e =
      rw
        (
          validate_certificate_challenge_lem,
          validate_certificate_response_lem,
          signature_hex-is_bad ssl _ pair.server.signer
              (build_certificate_server_transcript challenge response),
          e,
          hkdf_session_secret_hex_lem ssl hkdf draw.shared
              (build_certificate_kdf_transcript challenge response server_signature)
              certificate_label,
        )
        refl
