-- ===== src/UdtConnectionPool/CreateConnection.antt =====
-- UDTConnectionPool::_createConnection (AgentUDTC++_v7.2/UDTConnectionPool.cpp): the agent's end of the
-- handshake. The timeouts of the greeting and the warnings on certificates that expire soon are
-- left out.
use transfer_udt.Common.{Bool, true, false, not, ◌||◌, ◌&&◌, Option, none, some, [], if◌then◌else◌}
use transfer_udt.Common.Bytes.{Bytes, bytes_eq, codes}
use transfer_udt.SecurityHandshake.Texts.{is_empty}
use transfer_udt.SecurityHandshake.Ops.{
  OpenSsl, EphemeralKeyPair, create_challenge, create_ephemeral_key_pair,
}
use transfer_udt.SecurityHandshake.Bundles.{validate_certificate_bundle}
use transfer_udt.SecurityHandshake.Dialogue.{Dialogue, done, send, recv, attempt}
use transfer_udt.SecurityHandshake.Psk.{
  auth_failed, try_parse_challenge_message, build_response_message, derive_psk_session_secret,
  try_parse_secure_session_message,
}
use transfer_udt.SecurityHandshake.Signed.{
  SignedChallenge, SignedResponse, try_parse_signed_challenge_message,
  build_signed_response_message, try_parse_signed_response_message, verify_signed_ok_message,
  derive_signed_session_secret,
}
use transfer_udt.SecurityHandshake.Certificate.{
  CertificateChallenge, CertificateResponse, try_parse_certificate_challenge_message,
  build_certificate_response_message, try_parse_certificate_response_message,
  verify_certificate_ok_message, derive_certificate_session_secret,
}

-- The settings that the constructor of the pool stores.
pub record ConnectionSettings : Type 0 where
  pub server_host : Bytes
  pub require_greeting : Bool
  pub expected_greeting : Bytes
  pub security_enabled : Bool
  pub security_handshake_enabled : Bool
  pub security_pre_shared_key : Bytes
  pub security_client_id : Bytes
  pub security_identity_mode : Bytes
  pub security_client_private_key_path : Bytes
  pub security_server_public_key_path : Bytes
  pub security_client_certificate_path : Bytes
  pub security_ca_bundle_path : Bytes
  pub security_crl_path : Bytes
  pub security_server_identity : Bytes

-- A null pointer without an attempt; one after a failure that the circuit breaker is told; an
-- exception that leaves the function; a connection with its session key and id.
pub data AgentEnd : Type 0 where
  denied failed thrown : AgentEnd
  connected : Bytes → Bytes → AgentEnd

-- What the random generator of OpenSSL gives to this call.
pub record AgentRandom : Type 0 where
  pub nonce : Option Bytes
  pub key_pair : Option (Bytes × Bytes)

abbrev fails : Dialogue AgentEnd
fails = done failed

abbrev pub when_sent : Dialogue AgentEnd → Bool → Dialogue AgentEnd
when_sent next true = next
when_sent next false = fails

abbrev pub if_received : (Bytes → Dialogue AgentEnd) → Option Bytes → Dialogue AgentEnd
if_received next none = fails
if_received next (some response) = next response

abbrev pub expected_server_identity : ConnectionSettings → Bytes
expected_server_identity settings =
    if is_empty settings.security_server_identity
    then settings.server_host
    else settings.security_server_identity

module _ (ssl : OpenSsl) (settings : ConnectionSettings) (random : AgentRandom) where
  -- The test of the greeting, with the key and the id of the session.
  unfoldable pub greeted : Bytes → Bytes → Bytes → Dialogue AgentEnd
  greeted key session_id response =
      if not (is_empty settings.expected_greeting)
        && not (bytes_eq response settings.expected_greeting)
      then fails
      else done (connected key session_id)

  abbrev session_given : Bytes → Option Bytes → Dialogue AgentEnd
  session_given key none = fails
  session_given key (some session_id) =
      if is_empty session_id then fails else recv (if_received (greeted key session_id))

  abbrev session_secret : Bytes → Bytes
  session_secret key = if is_empty key then settings.security_pre_shared_key else key

  -- No handler is around TryParseSecureSessionMessage.
  unfoldable pub session_from : Bytes → Bytes → Dialogue AgentEnd
  session_from key response =
      if settings.security_enabled
      then attempt (try_parse_secure_session_message ssl response (session_secret key))
          (done thrown) (session_given key)
      else greeted key [] response

  -- The pre-shared key.
  abbrev pub psk_ready : Bytes → Bytes → Dialogue AgentEnd
  psk_ready key response =
      if bytes_eq response auth_failed then fails else session_from key response

  abbrev pub psk_derives : Bytes → Dialogue AgentEnd
  psk_derives challenge =
      attempt
        (derive_psk_session_secret ssl challenge settings.security_pre_shared_key
          settings.security_client_id)
        fails (λ key. recv (if_received (psk_ready key)))

  abbrev psk_responds : Option Bytes → Dialogue AgentEnd
  psk_responds none = fails
  psk_responds (some challenge) =
      attempt
        (build_response_message ssl challenge settings.security_pre_shared_key
          settings.security_client_id)
        fails (λ message. send message (when_sent (psk_derives challenge)))

  -- The signed handshake.
  abbrev signed_verified :
      EphemeralKeyPair → SignedChallenge → SignedResponse → Option Bytes → Dialogue AgentEnd
  signed_verified keys challenge response none = fails
  signed_verified keys challenge response (some server_signature) =
      attempt
        (derive_signed_session_secret ssl keys.private_key_hex
          challenge.server_ephemeral_public_key_hex challenge response server_signature)
        fails (λ key. recv (if_received (session_from key)))

  abbrev pub signed_proof :
      EphemeralKeyPair → SignedChallenge → SignedResponse → Bytes → Dialogue AgentEnd
  signed_proof keys challenge response message =
      if bytes_eq message auth_failed
      then fails
      else attempt
          (verify_signed_ok_message ssl challenge response message
            settings.security_server_public_key_path)
          fails (signed_verified keys challenge response)

  abbrev signed_sends :
      EphemeralKeyPair → SignedChallenge → Bytes → Option SignedResponse → Dialogue AgentEnd
  signed_sends keys challenge message none = fails
  signed_sends keys challenge message (some response) =
      send message (when_sent (recv (if_received (signed_proof keys challenge response))))

  abbrev signed_responds : Option SignedChallenge → Dialogue AgentEnd
  signed_responds none = fails
  signed_responds (some challenge) =
      attempt (create_ephemeral_key_pair random.key_pair) fails (λ keys.
        attempt (create_challenge random.nonce) fails (λ nonce.
          attempt
            (build_signed_response_message ssl challenge settings.security_client_id nonce
              keys.public_key_hex settings.security_client_private_key_path)
            fails
            (λ message.
              signed_sends keys challenge message (try_parse_signed_response_message message))))

  -- The handshake by certificates.
  abbrev certificate_verified :
      EphemeralKeyPair
      → CertificateChallenge
      → CertificateResponse
      → Option Bytes
      → Dialogue AgentEnd
  certificate_verified keys challenge response none = fails
  certificate_verified keys challenge response (some server_signature) =
      attempt
        (derive_certificate_session_secret ssl keys.private_key_hex
          challenge.server_ephemeral_public_key_hex challenge response server_signature)
        fails (λ key. recv (if_received (session_from key)))

  abbrev pub certificate_proof :
      EphemeralKeyPair → CertificateChallenge → CertificateResponse → Bytes → Dialogue AgentEnd
  certificate_proof keys challenge response message =
      if bytes_eq message auth_failed
      then fails
      else certificate_verified keys challenge response (
          verify_certificate_ok_message ssl challenge response message
            settings.security_ca_bundle_path (expected_server_identity settings)
            settings.security_crl_path)

  abbrev certificate_sends :
      EphemeralKeyPair
      → CertificateChallenge
      → Bytes
      → Option CertificateResponse
      → Dialogue AgentEnd
  certificate_sends keys challenge message none = fails
  certificate_sends keys challenge message (some response) =
      send message (when_sent (recv (if_received (certificate_proof keys challenge response))))

  abbrev certificate_responds : Option CertificateChallenge → Dialogue AgentEnd
  certificate_responds none = fails
  certificate_responds (some challenge) =
      if not (
        validate_certificate_bundle ssl challenge.server_certificate_hex
          settings.security_ca_bundle_path (expected_server_identity settings) true
          settings.security_crl_path)
      then fails
      else attempt (create_ephemeral_key_pair random.key_pair) fails (λ keys.
        attempt (create_challenge random.nonce) fails (λ nonce.
          attempt
            (build_certificate_response_message ssl challenge settings.security_client_id nonce
              keys.public_key_hex settings.security_client_certificate_path
              settings.security_client_private_key_path)
            fails
            (λ message.
              certificate_sends keys challenge message
                (try_parse_certificate_response_message message))))

  unfoldable pub authenticates : Bytes → Dialogue AgentEnd
  authenticates response =
      if bytes_eq settings.security_identity_mode (codes "certificate_handshake")
      then certificate_responds (try_parse_certificate_challenge_message response)
      else if bytes_eq settings.security_identity_mode (codes "signed_handshake")
      then signed_responds (try_parse_signed_challenge_message response)
      else psk_responds (try_parse_challenge_message response)

  abbrev pub first_message : Bytes → Dialogue AgentEnd
  first_message response =
      if settings.security_handshake_enabled
      then authenticates response
      else session_from [] response

  -- `may_attempt` is the answer of the circuit breaker, `is_connected` that of the UDT library.
  unfoldable pub create_connection : Bool → Bool → Bool → Dialogue AgentEnd
  create_connection shutting_down may_attempt is_connected =
      if shutting_down || not may_attempt
      then done denied
      else if not is_connected
      then fails
      else if settings.require_greeting || settings.security_handshake_enabled
          || settings.security_enabled
      then recv (if_received first_message)
      else done (connected [] [])
