-- ===== src/Handshake/Agreement.antt =====
-- The handshake in each of its modes, from end to end (ServerUDTC++_v3/ClientHandler.cpp,
-- AgentUDTC++_v7.2/UDTConnectionPool.cpp).
use transfer_udt.Common.{◌≡◌, true, false, ◌⊎◌, inl, inr, some}
use transfer_udt.Common.Bytes.{Bytes}
use transfer_udt.SecurityHandshake.Texts.{is_empty}
use transfer_udt.SecurityHandshake.Ops.{OpenSsl}
use transfer_udt.SecurityHandshake.Dialogue.{talk}
use transfer_udt.Server.ServerConfig.{SecurityConfig}
use transfer_udt.Server.ClientHandler.{build_authenticated_client_namespace}
use transfer_udt.Server.ClientHandler.Handshake.{ServerRandom, serving, handle_client}
use transfer_udt.UdtConnectionPool.CreateConnection.{
  AgentRandom, ConnectionSettings, connected, create_connection,
}
use transfer_udt.Handshake.Steps.{HmacLaws, IsMatched}
use transfer_udt.Handshake.Session.{agreed_id, digest-is_empty}
use transfer_udt.Handshake.Keys.{HkdfLaws, Draw, derived_hex-is_empty}
use transfer_udt.Handshake.Psk.{IsPskPair, psk_agrees}
use transfer_udt.Handshake.SignedMessages.{IsSignedPair}
use transfer_udt.Handshake.Signed.{signed_agrees}
use transfer_udt.Handshake.CertificateMessages.{IsCertificatePair}
use transfer_udt.Handshake.Certificate.{certificate_agrees}

-- The two ends agree on a key that is not empty, on the session id and on the client's name.
abbrev pub Agree :
    OpenSsl
    → SecurityConfig
    → ConnectionSettings
    → Bytes
    → ServerRandom
    → AgentRandom
    → Bytes
    → Type 0
Agree ssl config settings client_no_port server_random agent_random session =
    let id = agreed_id config.security_enabled session in
    (key : Bytes) × (is_empty key ≡ false)
    × (talk (handle_client ssl config client_no_port server_random true)
          (create_connection ssl settings agent_random false true true)
        ≡ some (
          serving key id
              (build_authenticated_client_namespace client_no_port settings.security_client_id),
          connected key id,
        ))

-- If both ends are configured for the same mode with keys that belong together (one pre-shared key
-- for a client id that the server allows, the public key of each end in the files of the other, or
-- certificates that each end trusts), if OpenSSL's calls succeed and X25519 gives both ends the same
-- secret, then over a connection that delivers handleClient and _createConnection come to their
-- ends, without waiting for each other: with the same key, which is not empty, the same session id,
-- which is the one that the server drew if sessions are enabled, and the server with the name of the
-- client that the agent is configured with.
pub handshake_agrees :
    (ssl : OpenSsl) (hmac : HmacLaws ssl) (hkdf : HkdfLaws ssl) (config : SecurityConfig)
    (settings : ConnectionSettings) (client_no_port : Bytes) (server_random : ServerRandom)
    (agent_random : AgentRandom) (draw : Draw ssl server_random agent_random)
    → IsMatched config settings
    → (IsPskPair config settings
        ⊎ (IsSignedPair ssl config settings ⊎ IsCertificatePair ssl config settings))
    → Agree ssl config settings client_no_port server_random agent_random draw.session
handshake_agrees ssl hmac hkdf config settings client_no_port s a draw matched (inl pair) = (
  _,
  digest-is_empty ssl hmac _ settings.security_pre_shared_key,
  psk_agrees ssl hmac config settings client_no_port s a matched pair draw.server_nonce draw.session
      draw.server_nonce_given.is_given draw.server_nonce_given.length_32 draw.session_given
      draw.session_16,
)
handshake_agrees ssl hmac hkdf config settings client_no_port s a draw matched (inr (inl pair)) = (
  _,
  derived_hex-is_empty ssl hkdf draw.shared _ _,
  signed_agrees ssl hmac hkdf config settings client_no_port s a matched pair draw,
)
handshake_agrees ssl hmac hkdf config settings client_no_port s a draw matched (inr (inr pair)) = (
  _,
  derived_hex-is_empty ssl hkdf draw.shared _ _,
  certificate_agrees ssl hmac hkdf config settings client_no_port s a matched pair draw,
)
