-- ===== src/Handshake/Session.antt =====
-- The end of every handshake: the message that opens the session and the greeting.
use transfer_udt.Common.{
  ◌≡◌, refl, ◌∙◌, Bool, true, false, not, ◌||◌, ◌&&◌, Option, some, length, [], ◌∷◌, ◌++◌, arith,
}
use transfer_udt.Common.Bytes.{Bytes, bytes_eq, codes}
use transfer_udt.SecurePacket.Hex.{to_hex}
use transfer_udt.SecurityHandshake.Texts.{ok, is_empty, joined, is_valid_session_id}
use transfer_udt.SecurityHandshake.Splits.{
  find_space-append, find_space-none, lower_hex-no_space, length-to_hex, no_space,
  to_hex-is_lower_hex, to_hex-is_empty, constant_time_equals_refl,
}
use transfer_udt.SecurityHandshake.Ops.{OpenSsl, create_session_id}
use transfer_udt.SecurityHandshake.Psk.{
  secure_session_prefix, build_secure_session_message, try_parse_secure_session_message,
  session_transcript, is_digest, has_space,
}
use transfer_udt.SecurityHandshake.Dialogue.{Dialogue, send, recv, talk}
use transfer_udt.Server.ServerConfig.{SecurityConfig}
use transfer_udt.Server.ClientHandler.Handshake.{
  ServerEnd, serving, ServerRandom, opens_session, says_ready, if_sent,
}
use transfer_udt.UdtConnectionPool.CreateConnection.{
  AgentEnd, connected, AgentRandom, ConnectionSettings, session_from, greeted, if_received,
  first_message, create_connection,
}
use transfer_udt.Handshake.Steps.{HmacLaws, hmac_hex, IsMatched, talk-to_agent, talk-done}

-- The id that both ends have after the handshake: that of the session, if one is opened.
abbrev pub agreed_id : Bool → Bytes → Bytes
agreed_id true random = to_hex random
agreed_id false random = []

module _ (ssl : OpenSsl) (laws : HmacLaws ssl) where
  -- The digest of a message, in hexadecimal.
  abbrev pub digest : Bytes → Bytes → Bytes
  digest message key = to_hex (laws.mac message key)

  pub digest-is_digest : (message key : Bytes) → is_digest (digest message key) ≡ true
  digest-is_digest message key =
      rw
        (
          length-to_hex (laws.mac message key),
          laws.length-mac message key,
          to_hex-is_lower_hex (laws.mac message key) 31 (laws.length-mac message key),
        )
        refl

  pub digest-no_space : (message key : Bytes) → no_space (digest message key) ≡ true
  digest-no_space message key =
      lower_hex-no_space (digest message key)
        (to_hex-is_lower_hex (laws.mac message key) 31 (laws.length-mac message key))

  digest-has_space : (message key : Bytes) → has_space (digest message key) ≡ false
  digest-has_space message key =
      rw (has_space, find_space-none (digest message key) (digest-no_space message key)) refl

  pub digest-is_empty : (message key : Bytes) → is_empty (digest message key) ≡ false
  digest-is_empty message key =
      to_hex-is_empty (laws.mac message key) 31 (laws.length-mac message key)

  abbrev session_message : Bytes → Bytes → Bytes
  session_message session_id key =
      secure_session_prefix
      ++ joined b' ' (session_id ∷ digest (session_transcript session_id) key ∷ [])

  build_secure_session_message_lem :
      (session_id key : Bytes)
      → is_valid_session_id session_id ≡ true
      → is_empty key ≡ false
      → build_secure_session_message ssl session_id key ≡ ok (session_message session_id key)
  unfolding build_secure_session_message
  build_secure_session_message_lem session_id key h k =
      rw (h, k, hmac_hex laws (session_transcript session_id) key) refl

  session_id-no_space :
      (session_id : Bytes) → is_valid_session_id session_id ≡ true → no_space session_id ≡ true
  unfolding is_valid_session_id
  session_id-no_space session_id h = lower_hex-no_space session_id (ground (arith, h))

  try_parse_secure_session_message_lem :
      (session_id key : Bytes)
      → is_valid_session_id session_id ≡ true
      → is_empty key ≡ false
      → try_parse_secure_session_message ssl (session_message session_id key) key
        ≡ ok (some session_id)
  unfolding try_parse_secure_session_message
  try_parse_secure_session_message_lem session_id key h k =
      let transcript = session_transcript session_id in
      let signature = digest transcript key in
      rw
        (
          k,
          find_space-append session_id signature (session_id-no_space session_id h),
          digest-has_space transcript key,
          h,
          digest-is_digest transcript key,
          hmac_hex laws transcript key,
          constant_time_equals_refl signature,
        )
        refl

  to_hex-is_valid_session_id :
      (random : Bytes) → length random ≡ 16 → is_valid_session_id (to_hex random) ≡ true
  unfolding is_valid_session_id
  to_hex-is_valid_session_id random e =
      rw (length-to_hex random, e, to_hex-is_lower_hex random 15 e) refl

  module _ (config : SecurityConfig) (settings : ConnectionSettings) (client_no_port : Bytes)
      (server_random : ServerRandom) (agent_random : AgentRandom)
      (matched : IsMatched config settings) where
    abbrev agrees : Bytes → Bytes → Bytes → Option (ServerEnd × AgentEnd)
    agrees key session_id client_namespace =
        some (serving key session_id client_namespace, connected key session_id)

    greeting_lem :
        (key session_id client_namespace : Bytes) (j : Option Bytes → Dialogue AgentEnd)
        → j (some (codes "READY"))
          ≡ greeted ssl settings agent_random key session_id (codes "READY")
        → talk
            (says_ready ssl config client_no_port server_random key session_id client_namespace)
            (recv j)
          ≡ agrees key session_id client_namespace
    unfolding says_ready greeted
    greeting_lem key session_id client_namespace j p =
        talk-to_agent _ _ (codes "READY") _ _ _ refl refl (
          talk-done _ _ (serving key session_id client_namespace) (connected key session_id) refl
            (p ∙ rw passes refl))
      where
        passes :
            (not (is_empty settings.expected_greeting)
              && not (bytes_eq (codes "READY") settings.expected_greeting))
            ≡ false
        passes = ground (arith, matched.greeting)

    module _ (key session_random client_namespace : Bytes)
        (r : server_random.session ≡ some session_random) (e : length session_random ≡ 16)
        (k : is_empty key ≡ false) (first : Bytes → Dialogue AgentEnd)
        (takes_session : (id : Bytes)
          → first (session_message id key)
            ≡ session_from ssl settings agent_random key (session_message id key))
        (takes_ready : first (codes "READY")
          ≡ session_from ssl settings agent_random key (codes "READY")) where
      abbrev session_id : Bytes
      session_id = to_hex session_random

      opens :
          config.security_enabled ≡ true
          → opens_session ssl config client_no_port server_random key client_namespace
            ≡ send (session_message session_id key) (
                if_sent (
                  says_ready ssl config client_no_port server_random key session_id
                    client_namespace))
      unfolding opens_session create_session_id
      opens b =
          rw
            (
              b,
              r,
              build_secure_session_message_lem session_id key
                  (to_hex-is_valid_session_id session_random e) k,
            )
            refl

      finds :
          settings.security_enabled ≡ true
          → session_from ssl settings agent_random key (session_message session_id key)
            ≡ recv (if_received (greeted ssl settings agent_random key session_id))
      unfolding session_from
      finds b =
          rw
            (
              b,
              k,
              try_parse_secure_session_message_lem session_id key
                  (to_hex-is_valid_session_id session_random e) k,
              to_hex-is_empty session_random 15 e,
            )
            refl

      closed :
          config.security_enabled ≡ false
          → opens_session ssl config client_no_port server_random key client_namespace
            ≡ says_ready ssl config client_no_port server_random key [] client_namespace
      unfolding opens_session
      closed b = rw b refl

      plain :
          settings.security_enabled ≡ false
          → session_from ssl settings agent_random key (codes "READY")
            ≡ greeted ssl settings agent_random key [] (codes "READY")
      unfolding session_from
      plain b = rw b refl

      pub session_lem :
          talk
            (opens_session ssl config client_no_port server_random key client_namespace)
            (recv (if_received first))
          ≡ agrees key (agreed_id config.security_enabled session_random) client_namespace
      session_lem = here config.security_enabled refl
        where
          here :
              (b : Bool)
              → config.security_enabled ≡ b
              → talk
                  (opens_session ssl config client_no_port server_random key client_namespace)
                  (recv (if_received first))
                ≡ agrees key (agreed_id b session_random) client_namespace
          here true b = talk-to_agent _ _ (session_message session_id key) _ _ _ (opens b) refl (
              rw (takes_session session_id ∙ finds (matched.same_security ∙ b))
                (greeting_lem key session_id client_namespace _ refl))
          here false b = rw (closed b) (
              greeting_lem key [] client_namespace _
                (takes_ready ∙ plain (matched.same_security ∙ b)))

-- The agent's end waits for the first message.
pub create_connection_lem :
    (ssl : OpenSsl) (config : SecurityConfig) (settings : ConnectionSettings) (random : AgentRandom)
    (matched : IsMatched config settings)
    → create_connection ssl settings random false true true
      ≡ recv (if_received (first_message ssl settings random))
unfolding create_connection
create_connection_lem ssl config settings random matched = rw wants_greeting refl
  where
    wants_greeting :
        (settings.require_greeting || settings.security_handshake_enabled
          || settings.security_enabled)
        ≡ true
    wants_greeting = ground (arith, matched.handshake_settings)
