-- ===== src/Server/ClientHandler/Handshake.antt =====
-- The start of ClientHandler::handleClient (ServerUDTC++_v3/ClientHandler.cpp): the handshake, the
-- session and the greeting, up to the loop over packets. The warnings on certificates that expire
-- soon are log lines and are left out.
use transfer_udt.Common.{
  Bool, true, false, not, ◌||◌, Option, none, some, [], drop, length, if◌then◌else◌,
}
use transfer_udt.Common.Bytes.{Bytes, bytes_eq, codes}
use transfer_udt.SecurityHandshake.Ops.{
  OpenSsl, EphemeralKeyPair, create_challenge, create_session_id, create_ephemeral_key_pair,
}
use transfer_udt.SecurityHandshake.Bundles.{load_certificate_bundle_hex}
use transfer_udt.SecurityHandshake.Dialogue.{Dialogue, done, send, recv, attempt}
use transfer_udt.SecurityHandshake.Psk.{
  auth_failed, build_challenge_message, try_extract_client_id, verify_response_message,
  derive_psk_session_secret, build_secure_session_message,
}
use transfer_udt.SecurityHandshake.Signed.{
  SignedChallenge, SignedResponse, signed_ok_prefix, build_signed_challenge_message,
  try_parse_signed_response_message, verify_signed_response_message, build_signed_ok_message,
  derive_signed_session_secret,
}
use transfer_udt.SecurityHandshake.Certificate.{
  CertificateChallenge, CertificateResponse, certificate_ok_prefix,
  build_certificate_challenge_message, try_parse_certificate_response_message,
  verify_certificate_response_message, build_certificate_ok_message,
  derive_certificate_session_secret,
}
use transfer_udt.Server.ServerConfig.{
  SecurityConfig, is_signed_identity_mode, is_certificate_identity_mode, is_client_identity_allowed,
  get_security_pre_shared_key_for_client, get_client_public_key_path,
}
use transfer_udt.Server.ClientHandler.{build_authenticated_client_namespace}

-- How the handler gets to its loop; `refused` is each return before it.
pub data ServerEnd : Type 0 where
  refused : ServerEnd
  -- the key of the connection, the session id, the name of the client
  serving : Bytes → Bytes → Bytes → ServerEnd

-- What the random generator of OpenSSL gives to this handler.
pub record ServerRandom : Type 0 where
  pub nonce : Option Bytes
  pub key_pair : Option (Bytes × Bytes)
  pub session : Option Bytes

abbrev pub gives_up : Dialogue ServerEnd
gives_up = done refused

-- AUTH_FAILED is sent, whether or not it arrives.
abbrev pub rejects : Dialogue ServerEnd
rejects = send auth_failed (λ sent. gives_up)

abbrev pub if_sent : Dialogue ServerEnd → Bool → Dialogue ServerEnd
if_sent next true = next
if_sent next false = gives_up

module _ (ssl : OpenSsl) (config : SecurityConfig) (client_no_port : Bytes)
    (random : ServerRandom) where
  unfoldable pub says_ready : Bytes → Bytes → Bytes → Dialogue ServerEnd
  says_ready key session_id client_namespace =
      send (codes "READY") (if_sent (done (serving key session_id client_namespace)))

  abbrev pub announces : Bytes → Bytes → Bytes → Dialogue ServerEnd
  announces key client_namespace session_id =
      attempt (build_secure_session_message ssl session_id key) gives_up
        (λ message. send message (if_sent (says_ready key session_id client_namespace)))

  unfoldable pub opens_session : Bytes → Bytes → Dialogue ServerEnd
  opens_session key client_namespace =
      if config.security_enabled
      then attempt (create_session_id random.session) gives_up (announces key client_namespace)
      else says_ready key [] client_namespace

  abbrev named : Bytes → Bytes
  named client_id = build_authenticated_client_namespace client_no_port client_id

  -- The pre-shared key of the client.
  abbrev pub psk_accepts : Bytes → Bytes → Bytes → Bool × Bytes → Dialogue ServerEnd
  psk_accepts challenge key claimed_id (valid, client_id) =
      if not valid || not (bytes_eq client_id claimed_id)
      then rejects
      else attempt (derive_psk_session_secret ssl challenge key client_id) gives_up
          (λ secret. opens_session secret (named client_id))

  abbrev pub psk_checks : Bytes → Bytes → Option Bytes → Dialogue ServerEnd
  psk_checks challenge response none = rejects
  psk_checks challenge response (some claimed_id) =
      if not (is_client_identity_allowed config claimed_id)
      then rejects
      else let key = get_security_pre_shared_key_for_client config claimed_id in
        attempt (verify_response_message ssl challenge key response) gives_up
          (psk_accepts challenge key claimed_id)

  abbrev pub psk_answered : Bytes → Option Bytes → Dialogue ServerEnd
  psk_answered challenge none = rejects
  psk_answered challenge (some response) =
      psk_checks challenge response (try_extract_client_id response)

  unfoldable pub psk_handshake : Dialogue ServerEnd
  psk_handshake = attempt (create_challenge random.nonce) gives_up (λ challenge.
      attempt (build_challenge_message challenge) gives_up
        (λ message. send message (if_sent (recv (psk_answered challenge)))))

  -- The public key of the client.
  abbrev signed_proves :
      EphemeralKeyPair → SignedChallenge → SignedResponse → Bytes → Dialogue ServerEnd
  signed_proves keys challenge response ok_message =
      attempt
        (derive_signed_session_secret ssl keys.private_key_hex
          response.client_ephemeral_public_key_hex challenge response
          (drop (length signed_ok_prefix) ok_message))
        gives_up
        (λ secret. send ok_message (if_sent (opens_session secret (named response.client_id))))

  abbrev signed_accepts :
      EphemeralKeyPair → SignedChallenge → SignedResponse → Bool → Dialogue ServerEnd
  signed_accepts keys challenge response false = rejects
  signed_accepts keys challenge response true =
      attempt
        (build_signed_ok_message ssl challenge response config.security_server_private_key_path)
        gives_up (signed_proves keys challenge response)

  abbrev signed_checks :
      EphemeralKeyPair → SignedChallenge → Option SignedResponse → Dialogue ServerEnd
  signed_checks keys challenge none = rejects
  signed_checks keys challenge (some response) =
      if not (is_client_identity_allowed config response.client_id)
      then rejects
      else attempt
          (verify_signed_response_message ssl challenge response
            (get_client_public_key_path config response.client_id))
          gives_up (signed_accepts keys challenge response)

  abbrev pub signed_answered :
      EphemeralKeyPair → SignedChallenge → Option Bytes → Dialogue ServerEnd
  signed_answered keys challenge none = rejects
  signed_answered keys challenge (some response) =
      signed_checks keys challenge (try_parse_signed_response_message response)

  abbrev signed_challenges : EphemeralKeyPair → SignedChallenge → Dialogue ServerEnd
  signed_challenges keys challenge =
      attempt (build_signed_challenge_message challenge) gives_up
        (λ message. send message (if_sent (recv (signed_answered keys challenge))))

  unfoldable pub signed_handshake : Dialogue ServerEnd
  signed_handshake = attempt (create_ephemeral_key_pair random.key_pair) gives_up (λ keys.
      attempt (create_challenge random.nonce) gives_up (λ nonce. signed_challenges keys (record {
        server_nonce_hex = nonce;
        server_ephemeral_public_key_hex = keys.public_key_hex;
      })))

  -- Certificates of both.
  abbrev certificate_proves :
      EphemeralKeyPair → CertificateChallenge → CertificateResponse → Bytes → Dialogue ServerEnd
  certificate_proves keys challenge response ok_message =
      attempt
        (derive_certificate_session_secret ssl keys.private_key_hex
          response.client_ephemeral_public_key_hex challenge response
          (drop (length certificate_ok_prefix) ok_message))
        gives_up
        (λ secret. send ok_message (if_sent (opens_session secret (named response.client_id))))

  abbrev certificate_checks :
      EphemeralKeyPair → CertificateChallenge → Option CertificateResponse → Dialogue ServerEnd
  certificate_checks keys challenge none = rejects
  certificate_checks keys challenge (some response) =
      if not (is_client_identity_allowed config response.client_id)
      then rejects
      else if not (
          verify_certificate_response_message ssl challenge response config.security_ca_bundle_path
            config.security_crl_path)
      then rejects
      else attempt
          (build_certificate_ok_message ssl challenge response
            config.security_server_private_key_path)
          gives_up (certificate_proves keys challenge response)

  abbrev pub certificate_answered :
      EphemeralKeyPair → CertificateChallenge → Option Bytes → Dialogue ServerEnd
  certificate_answered keys challenge none = rejects
  certificate_answered keys challenge (some response) =
      certificate_checks keys challenge (try_parse_certificate_response_message response)

  abbrev certificate_challenges : EphemeralKeyPair → CertificateChallenge → Dialogue ServerEnd
  certificate_challenges keys challenge =
      attempt (build_certificate_challenge_message challenge) gives_up
        (λ message. send message (if_sent (recv (certificate_answered keys challenge))))

  unfoldable pub certificate_handshake : Dialogue ServerEnd
  certificate_handshake = attempt (create_ephemeral_key_pair random.key_pair) gives_up (λ keys.
      attempt (create_challenge random.nonce) gives_up (λ nonce.
        attempt (load_certificate_bundle_hex ssl config.security_server_certificate_path) gives_up
          (λ certificate. certificate_challenges keys (record {
            server_nonce_hex = nonce;
            server_ephemeral_public_key_hex = keys.public_key_hex;
            server_certificate_hex = certificate;
          }))))

  unfoldable pub handle_client : Bool → Dialogue ServerEnd
  handle_client is_connected =
      if not is_connected
      then gives_up
      else if not config.security_handshake_enabled
      then opens_session config.security_pre_shared_key client_no_port
      else if is_certificate_identity_mode config
      then certificate_handshake
      else if is_signed_identity_mode config
      then signed_handshake
      else psk_handshake
