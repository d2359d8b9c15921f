-- ===== src/Handshake/Psk.antt =====
-- The handshake by a pre-shared key, from end to end (TransferCore/SecurityHandshake.cpp).
use transfer_udt.Common.{
  ◌≡◌, refl, Bool, true, false, not, ◌||◌, ◌&&◌, some, length, [], ◌∷◌, ◌++◌, arith,
}
use transfer_udt.Common.Bytes.{Bytes, bytes_eq, bytes_eq_iff, codes}
use transfer_udt.SecurePacket.Hex.{to_hex}
use transfer_udt.SecurityHandshake.Texts.{ok, is_empty, joined, is_valid_client_id}
use transfer_udt.SecurityHandshake.Splits.{
  find_space-append, find_space-none, length-to_hex, to_hex-is_lower_hex, constant_time_equals_refl,
  client_id-no_space,
}
use transfer_udt.SecurityHandshake.Ops.{OpenSsl, create_challenge}
use transfer_udt.SecurityHandshake.Psk.{
  challenge_prefix, response_prefix, is_challenge, build_challenge_message,
  try_parse_challenge_message, build_response_message, try_extract_client_id,
  verify_response_message, derive_psk_session_secret,
}
use transfer_udt.SecurityHandshake.Dialogue.{send, recv, talk}
use transfer_udt.Server.ServerConfig.{
  SecurityConfig, is_signed_identity_mode, is_certificate_identity_mode, is_client_identity_allowed,
  get_security_pre_shared_key_for_client,
}
use transfer_udt.Server.ClientHandler.{build_authenticated_client_namespace}
use transfer_udt.Server.ClientHandler.Handshake.{
  serving, ServerRandom, opens_session, if_sent, psk_handshake, psk_answered, handle_client,
}
use transfer_udt.UdtConnectionPool.CreateConnection.{
  connected, AgentRandom, ConnectionSettings, if_received, when_sent, psk_ready, psk_derives,
  authenticates, first_message, create_connection,
}
use transfer_udt.Handshake.Steps.{HmacLaws, hmac_hex, IsMatched, talk-to_agent, talk-to_server}
use transfer_udt.Handshake.Session.{
  digest, digest-is_digest, digest-no_space, digest-is_empty, agreed_id, session_lem,
  create_connection_lem,
}

abbrev is_client_id : Bytes → Bool
is_client_id id = is_empty id || is_valid_client_id id

module _ (ssl : OpenSsl) (laws : HmacLaws ssl) where
  abbrev pub response : Bytes → Bytes → Bytes → Bytes
  response challenge key [] = response_prefix ++ digest ssl laws challenge key
  response challenge key (c ∷ id) =
      response_prefix
      ++ joined b' ' ((c ∷ id) ∷ digest ssl laws (joined b'|' (challenge ∷ (c ∷ id) ∷ [])) key ∷ [])

  build_response_message_lem :
      (challenge key id : Bytes)
      → is_challenge challenge ≡ true
      → is_client_id id ≡ true
      → build_response_message ssl challenge key id ≡ ok (response challenge key id)
  unfolding build_response_message
  build_response_message_lem challenge key [] h v = rw (h, hmac_hex laws challenge key) refl
  build_response_message_lem challenge key (c ∷ id) h v =
      rw (h, v, hmac_hex laws (joined b'|' (challenge ∷ (c ∷ id) ∷ [])) key) refl

  try_extract_client_id_lem :
      (challenge key id : Bytes)
      → is_client_id id ≡ true
      → try_extract_client_id (response challenge key id) ≡ some id
  unfolding try_extract_client_id
  try_extract_client_id_lem challenge key [] v =
      rw
        (
          find_space-none (digest ssl laws challenge key) (digest-no_space ssl laws challenge key),
          digest-is_digest ssl laws challenge key,
        )
        refl
  try_extract_client_id_lem challenge key (c ∷ id) v =
      let m = joined b'|' (challenge ∷ (c ∷ id) ∷ []) in
      rw
        (
          find_space-append (c ∷ id) (digest ssl laws m key) (client_id-no_space (c ∷ id) v),
          v,
          digest-is_digest ssl laws m key,
        )
        refl

  verify_response_message_lem :
      (challenge key id : Bytes)
      → is_client_id id ≡ true
      → verify_response_message ssl challenge key (response challenge key id) ≡ ok (true, id)
  unfolding verify_response_message
  verify_response_message_lem challenge key [] v =
      let signature = digest ssl laws challenge key in
      rw
        (
          hmac_hex laws challenge key,
          find_space-none signature (digest-no_space ssl laws challenge key),
          constant_time_equals_refl signature,
        )
        refl
  verify_response_message_lem challenge key (c ∷ id) v =
      let m = joined b'|' (challenge ∷ (c ∷ id) ∷ []) in
      rw
        (
          hmac_hex laws challenge key,
          find_space-append (c ∷ id) (digest ssl laws m key) (client_id-no_space (c ∷ id) v),
          hmac_hex laws m key,
          constant_time_equals_refl (digest ssl laws m key),
        )
        refl

  abbrev pub psk_secret : Bytes → Bytes → Bytes → Bytes
  psk_secret challenge key id =
      digest ssl laws (joined b'|' (codes "TransferUDT PSK session v1" ∷ challenge ∷ id ∷ [])) key

  derive_psk_session_secret_lem :
      (challenge key id : Bytes)
      → is_challenge challenge ≡ true
      → is_empty key ≡ false
      → is_client_id id ≡ true
      → derive_psk_session_secret ssl challenge key id ≡ ok (psk_secret challenge key id)
  unfolding derive_psk_session_secret
  derive_psk_session_secret_lem challenge key id h k v =
      rw
        (
          h,
          k,
          passes,
          hmac_hex laws (joined b'|' (codes "TransferUDT PSK session v1" ∷ challenge ∷ id ∷ []))
              key,
        )
        refl
    where
      passes : (not (is_empty id) && not (is_valid_client_id id)) ≡ false
      passes = ground (arith, v)

-- What the settings have to be, besides: no other mode, a client id that is valid and allowed or
-- none, and one key for it on both ends.
pub record IsPskPair (config : SecurityConfig) (settings : ConnectionSettings) : Type 0 where
  pub not_certificate : is_certificate_identity_mode config ≡ false
  pub not_signed : is_signed_identity_mode config ≡ false
  pub valid_id : is_client_id settings.security_client_id ≡ true
  pub allowed : is_client_identity_allowed config settings.security_client_id ≡ true
  pub same_key :
      get_security_pre_shared_key_for_client config settings.security_client_id
      ≡ settings.security_pre_shared_key
  pub has_key : is_empty settings.security_pre_shared_key ≡ false

module _ (ssl : OpenSsl) (laws : HmacLaws ssl) (config : SecurityConfig)
    (settings : ConnectionSettings) (client_no_port : Bytes) (server_random : ServerRandom)
    (agent_random : AgentRandom) (matched : IsMatched config settings)
    (pair : IsPskPair config settings) (nonce session_random : Bytes)
    (nonce_given : server_random.nonce ≡ some nonce) (nonce_length : length nonce ≡ 32)
    (session_given : server_random.session ≡ some session_random)
    (session_length : length session_random ≡ 16) where
  abbrev challenge : Bytes
  challenge = to_hex nonce

  abbrev id : Bytes
  id = settings.security_client_id

  abbrev key : Bytes
  key = settings.security_pre_shared_key

  abbrev secret : Bytes
  secret = psk_secret ssl laws challenge key id

  abbrev name : Bytes
  name = build_authenticated_client_namespace client_no_port id

  is_challenge_lem : is_challenge challenge ≡ true
  is_challenge_lem =
      rw (length-to_hex nonce, nonce_length, to_hex-is_lower_hex nonce 31 nonce_length) refl

  server_starts :
      handle_client ssl config client_no_port server_random true
      ≡ send
          (challenge_prefix ++ challenge)
          (if_sent (recv (psk_answered ssl config client_no_port server_random challenge)))
  unfolding handle_client psk_handshake create_challenge build_challenge_message
  server_starts =
      rw
        (
          pair.not_certificate, pair.not_signed, matched.handshake_config, nonce_given,
          is_challenge_lem,
        )
        refl

  other_modes :
      (bytes_eq settings.security_identity_mode (codes "certificate_handshake") ≡ false)
      × (bytes_eq settings.security_identity_mode (codes "signed_handshake") ≡ false)
  unfolding is_signed_identity_mode is_certificate_identity_mode
  other_modes = (rw matched.same_mode pair.not_certificate, rw matched.same_mode pair.not_signed)

  agent_responds :
      first_message ssl settings agent_random (challenge_prefix ++ challenge)
      ≡ send
          (response ssl laws challenge key id)
          (when_sent (psk_derives ssl settings agent_random challenge))
  unfolding authenticates try_parse_challenge_message
  agent_responds =
      rw
        (
          other_modes.0,
          other_modes.1,
          matched.handshake_settings,
          is_challenge_lem,
          build_response_message_lem ssl laws challenge key id is_challenge_lem pair.valid_id,
        )
        refl

  server_accepts :
      psk_answered ssl config client_no_port server_random challenge
        (some (response ssl laws challenge key id))
      ≡ opens_session ssl config client_no_port server_random secret name
  server_accepts =
      rw
        (
          try_extract_client_id_lem ssl laws challenge key id pair.valid_id,
          pair.allowed,
          pair.same_key,
          verify_response_message_lem ssl laws challenge key id pair.valid_id,
          (bytes_eq_iff id id).1 refl,
          derive_psk_session_secret_lem ssl laws challenge key id is_challenge_lem pair.has_key
              pair.valid_id,
        )
        refl

  agent_derives :
      psk_derives ssl settings agent_random challenge
      ≡ recv (if_received (psk_ready ssl settings agent_random secret))
  agent_derives =
      rw
        (derive_psk_session_secret_lem ssl laws challenge key id is_challenge_lem pair.has_key
          pair.valid_id)
        refl

  pub psk_agrees :
      talk
        (handle_client ssl config client_no_port server_random true)
        (create_connection ssl settings agent_random false true true)
      ≡ some (
        serving secret (agreed_id config.security_enabled session_random) name,
        connected secret (agreed_id config.security_enabled session_random),
      )
  psk_agrees =
      talk-to_agent _ _ (challenge_prefix ++ challenge) _ _ _ server_starts
        (create_connection_lem ssl config settings agent_random matched)
        (talk-to_server _ _ (response ssl laws challenge key id) _ _ _ refl agent_responds (
          rw (server_accepts, agent_derives)
            (session_lem ssl laws config settings client_no_port server_random agent_random matched
              secret session_random name session_given session_length
              (digest-is_empty ssl laws _ key) (psk_ready ssl settings agent_random secret)
              (λ session_id. refl) refl)))
