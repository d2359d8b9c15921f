-- ===== src/Handshake/Signed.antt =====
-- The signed handshake, from end to end (TransferCore/SecurityHandshake.cpp).
use transfer_udt.Common.{◌≡◌, refl, true, false, some, ◌++◌}
use transfer_udt.Common.Bytes.{Bytes, bytes_eq, codes}
use transfer_udt.SecurityHandshake.Ops.{OpenSsl, EphemeralKeyPair}
use transfer_udt.SecurityHandshake.Signed.{signed_ok_prefix, build_signed_challenge_message}
use transfer_udt.SecurityHandshake.Dialogue.{send, recv, talk}
use transfer_udt.Server.ServerConfig.{
  SecurityConfig, is_signed_identity_mode, is_certificate_identity_mode,
}
use transfer_udt.Server.ClientHandler.{build_authenticated_client_namespace}
use transfer_udt.Server.ClientHandler.Handshake.{
  serving, ServerRandom, opens_session, if_sent, signed_handshake, signed_answered, handle_client,
}
use transfer_udt.UdtConnectionPool.CreateConnection.{
  connected, AgentRandom, ConnectionSettings, session_from, if_received, when_sent, signed_proof,
  authenticates, first_message, create_connection,
}
use transfer_udt.Handshake.Steps.{HmacLaws, IsMatched, talk-to_agent, talk-to_server}
use transfer_udt.Handshake.Session.{agreed_id, session_lem, create_connection_lem}
use transfer_udt.Handshake.Keys.{
  HkdfLaws, Draw, keys_of, create_challenge_lem, create_ephemeral_key_pair_lem,
  derive_x25519_shared_secret_lem, derived_hex-is_empty,
}
use transfer_udt.Handshake.SignedMessages.{
  IsSignedPair, challenge, response, server_signature, secret, validate_signed_challenge_lem,
  challenge_message, response_message, try_parse_signed_challenge_message_lem,
  try_parse_signed_response_message_lem, build_signed_response_message_lem,
  verify_signed_response_message_lem, build_signed_ok_message_lem, verify_signed_ok_message_lem,
  derive_signed_session_secret_lem,
}

module _ (ssl : OpenSsl) (laws : HmacLaws ssl) (hkdf : HkdfLaws ssl) (config : SecurityConfig)
    (settings : ConnectionSettings) (client_no_port : Bytes) (server_random : ServerRandom)
    (agent_random : AgentRandom) (matched : IsMatched config settings)
    (pair : IsSignedPair ssl config settings) (draw : Draw ssl server_random agent_random) where
  abbrev id : Bytes
  id = settings.security_client_id

  abbrev name : Bytes
  name = build_authenticated_client_namespace client_no_port id

  abbrev server_ephemeral : EphemeralKeyPair
  server_ephemeral = keys_of draw.server_private draw.server_public

  abbrev agent_ephemeral : EphemeralKeyPair
  agent_ephemeral = keys_of draw.agent_private draw.agent_public

  server_starts :
      handle_client ssl config client_no_port server_random true
      ≡ send (challenge_message hkdf pair draw) (
          if_sent (
            recv (
              signed_answered ssl config client_no_port server_random server_ephemeral
                (challenge hkdf pair draw))))
  unfolding handle_client signed_handshake build_signed_challenge_message
  server_starts =
      rw
        (
          pair.not_certificate,
          pair.signed,
          matched.handshake_config,
          create_ephemeral_key_pair_lem draw.server_keys,
          create_challenge_lem draw.server_nonce_given,
          (validate_signed_challenge_lem hkdf pair draw),
        )
        refl

  modes :
      (bytes_eq settings.security_identity_mode (codes "certificate_handshake") ≡ false)
      × (bytes_eq settings.security_identity_mode (codes "signed_handshake") ≡ true)
  unfolding is_signed_identity_mode is_certificate_identity_mode
  modes = (rw matched.same_mode pair.not_certificate, rw matched.same_mode pair.signed)

  agent_responds :
      first_message ssl settings agent_random (challenge_message hkdf pair draw)
      ≡ send (response_message hkdf pair draw) (
          when_sent (
            recv (
              if_received (
                signed_proof ssl settings agent_random agent_ephemeral
                  (challenge hkdf pair draw)
                  (response hkdf pair draw)))))
  unfolding authenticates
  agent_responds =
      rw
        (
          modes.0,
          modes.1,
          matched.handshake_settings,
          (try_parse_signed_challenge_message_lem hkdf pair draw),
          create_ephemeral_key_pair_lem draw.agent_keys,
          create_challenge_lem draw.agent_nonce_given,
          (build_signed_response_message_lem hkdf pair draw),
          (try_parse_signed_response_message_lem hkdf pair draw),
        )
        refl

  server_accepts :
      signed_answered ssl config client_no_port server_random server_ephemeral
        (challenge hkdf pair draw)
        (some (response_message hkdf pair draw))
      ≡ send (signed_ok_prefix ++ (server_signature hkdf pair draw)) (
          if_sent
            (opens_session ssl config client_no_port server_random (secret hkdf pair draw) name))
  server_accepts =
      rw
        (
          (try_parse_signed_response_message_lem hkdf pair draw),
          pair.allowed,
          (verify_signed_response_message_lem hkdf pair draw),
          (build_signed_ok_message_lem hkdf pair draw),
          (derive_signed_session_secret_lem hkdf pair draw) draw.server_private draw.agent_public (
              derive_x25519_shared_secret_lem ssl draw.server_private draw.agent_public draw.shared
                draw.server_keys.private_32 draw.agent_keys.public_32 draw.server_keys.private_bytes
                draw.agent_keys.public_bytes draw.exchange.here),
        )
        refl

  agent_verifies :
      signed_proof ssl settings agent_random agent_ephemeral
        (challenge hkdf pair draw)
        (response hkdf pair draw)
        (signed_ok_prefix ++ (server_signature hkdf pair draw))
      ≡ recv (if_received (session_from ssl settings agent_random (secret hkdf pair draw)))
  agent_verifies =
      rw
        (
          (verify_signed_ok_message_lem hkdf pair draw),
          (derive_signed_session_secret_lem hkdf pair draw) draw.agent_private draw.server_public (
              derive_x25519_shared_secret_lem ssl draw.agent_private draw.server_public draw.shared
                draw.agent_keys.private_32 draw.server_keys.public_32 draw.agent_keys.private_bytes
                draw.server_keys.public_bytes draw.exchange.there),
        )
        refl

  pub signed_agrees :
      talk
        (handle_client ssl config client_no_port server_random true)
        (create_connection ssl settings agent_random false true true)
      ≡ some (
        serving (secret hkdf pair draw) (agreed_id config.security_enabled draw.session) name,
        connected (secret hkdf pair draw) (agreed_id config.security_enabled draw.session),
      )
  signed_agrees =
      talk-to_agent _ _ (challenge_message hkdf pair draw) _ _ _ server_starts
        (create_connection_lem ssl config settings agent_random matched)
        (talk-to_server _ _ (response_message hkdf pair draw) _ _ _ refl agent_responds (
          talk-to_agent _ _ (signed_ok_prefix ++ (server_signature hkdf pair draw)) _ _ _
            server_accepts refl
            (rw agent_verifies (
              session_lem ssl laws config settings client_no_port server_random agent_random matched
                (secret hkdf pair draw) draw.session name draw.session_given draw.session_16
                (derived_hex-is_empty ssl hkdf _ _ _)
                (session_from ssl settings agent_random (secret hkdf pair draw))
                (λ session_id. refl) refl))))
