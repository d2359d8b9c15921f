-- ===== src/Handshake/Authentic.antt =====
-- Whom the server serves after a handshake by a pre-shared key
-- (ServerUDTC++_v3/ClientHandler.cpp).
use transfer_udt.Common.{
  ◌≡◌, refl, sym, ap, subst, true, false, Option, none, some, List, [], ◌∷◌, arith, All,
}
use transfer_udt.Common.Bytes.{Bytes, IsByte}
use transfer_udt.SecurePacket.Hex.{to_hex}
use transfer_udt.SecurityHandshake.Texts.{ok}
use transfer_udt.SecurityHandshake.Ops.{OpenSsl, create_challenge}
use transfer_udt.SecurityHandshake.Psk.{build_challenge_message, try_extract_client_id}
use transfer_udt.SecurityHandshake.Dialogue.{
  Dialogue, send, recv, Event, sent, received, run, attempt,
}
use transfer_udt.Server.ServerConfig.{
  SecurityConfig, is_signed_identity_mode, is_certificate_identity_mode, is_client_identity_allowed,
  get_security_pre_shared_key_for_client,
}
use transfer_udt.Server.ClientHandler.{build_authenticated_client_namespace}
use transfer_udt.Server.ClientHandler.Handshake.{
  ServerEnd, serving, ServerRandom, gives_up, if_sent, psk_handshake, psk_answered, handle_client,
}
use transfer_udt.Handshake.Steps.{HmacLaws}
use transfer_udt.Handshake.Psk.{response, psk_secret}
use transfer_udt.Handshake.Served.{
  Serves, psk_checks-Serves, attempt-Serves, send-Serves, rejects-Serves, not_none,
}
use transfer_udt.Handshake.Responses.{verify_sound, derive_inv}

create_challenge_inv :
    (given : Option Bytes) (challenge : Bytes)
    → create_challenge given ≡ ok challenge
    → (nonce : Bytes) × (given ≡ some nonce) × (challenge ≡ to_hex nonce)
unfolding create_challenge
create_challenge_inv none challenge e = absurd (ground (arith, e))
create_challenge_inv (some nonce) challenge e = (nonce, refl, ground (arith, e))

abbrev pub IsByteEvent : Event → Type 0
IsByteEvent (received (some message)) = All IsByte message
IsByteEvent _ = Unit

-- What has happened when the server serves: its challenge was sent, and the peer answered with the
-- response of an allowed client to this very challenge.
abbrev pub IsAnswered :
    (ssl : OpenSsl) (laws : HmacLaws ssl) (config : SecurityConfig)
    → Bytes
    → ServerRandom
    → List Event
    → Bytes
    → Bytes
    → Type 0
IsAnswered ssl laws config client_no_port random events key name =
    (nonce : Bytes) × (id : Bytes) × (rest : List Event) × (random.nonce ≡ some nonce)
    × (is_client_identity_allowed config id ≡ true)
    × (events
        ≡ sent true
          ∷ received (
              some (
                response ssl laws (to_hex nonce) (get_security_pre_shared_key_for_client config id)
                  id))
          ∷ rest)
    × (key
        ≡ psk_secret ssl laws (to_hex nonce) (get_security_pre_shared_key_for_client config id) id)
    × (name ≡ build_authenticated_client_namespace client_no_port id)

starts :
    (ssl : OpenSsl) (config : SecurityConfig) (client_no_port : Bytes) (random : ServerRandom)
    → config.security_handshake_enabled ≡ true
    → is_certificate_identity_mode config ≡ false
    → is_signed_identity_mode config ≡ false
    → handle_client ssl config client_no_port random true
      ≡ psk_handshake ssl config client_no_port random
unfolding handle_client
starts ssl config client_no_port random h c d = rw (c, d, h) refl

psk_handshake-Serves :
    (ssl : OpenSsl) (laws : HmacLaws ssl) (config : SecurityConfig) (client_no_port : Bytes)
    (random : ServerRandom) (key session_id name : Bytes) (events : List Event)
    → All IsByteEvent events
    → Serves key session_id name (psk_handshake ssl config client_no_port random) events
    → IsAnswered ssl laws config client_no_port random events key name
unfolding psk_handshake
psk_handshake-Serves ssl laws config client_no_port random key session_id name events bytes e =
    let (challenge, p, q) =
      attempt-Serves key session_id name (create_challenge random.nonce) challenged events e in
    let (message, u, v) =
      attempt-Serves key session_id name (build_challenge_message challenge)
        (λ message. send message (if_sent (waiting challenge))) events q in
    let (rest, w, x) = send-Serves key session_id name message (waiting challenge) events v in
    let (nonce, y, z) = create_challenge_inv random.nonce challenge p in
    subst (λ es. IsAnswered ssl laws config client_no_port random es key name) (sym w)
      (answered nonce y rest (subst (All IsByteEvent) w bytes).1
        (subst (λ t. Serves key session_id name (waiting t) rest) z x))
  where
    waiting : Bytes → Dialogue ServerEnd
    waiting challenge = recv (psk_answered ssl config client_no_port random challenge)

    challenged : Bytes → Dialogue ServerEnd
    challenged challenge =
        attempt (build_challenge_message challenge) gives_up
          (λ message. send message (if_sent (waiting challenge)))

    answered :
        (nonce : Bytes)
        → random.nonce ≡ some nonce
        → (rest : List Event) → All IsByteEvent rest
        → Serves key session_id name (waiting (to_hex nonce)) rest
        → IsAnswered ssl laws config client_no_port random (sent true ∷ rest) key name
    answered nonce y [] b e = absurd (not_none key session_id name e)
    answered nonce y (sent t ∷ rest) b e = absurd (not_none key session_id name e)
    answered nonce y (received none ∷ rest) b e = absurd (rejects-Serves key session_id name rest e)
    answered nonce y (received (some message) ∷ rest) b e =
        let (id, p, q, r, s, t) =
          psk_checks-Serves key session_id name ssl config client_no_port random (to_hex nonce)
            message (try_extract_client_id message) rest e in
        let k = get_security_pre_shared_key_for_client config id in
        (
          nonce,
          id,
          rest,
          y,
          q,
          ap (λ m. sent true ∷ received (some m) ∷ rest)
              (verify_sound ssl laws (to_hex nonce) k id message b.0 p r),
          derive_inv ssl laws (to_hex nonce) k id key s,
          sym t,
        )

-- With any peer, whatever it sends: if the server is configured for pre-shared keys and the
-- handshake ends in a connection that is served, then the peer has sent, in answer to the challenge
-- that the server drew, exactly the response that the key of an allowed client gives; the connection
-- has the key that this challenge, client and key give, and the name of this client.
pub psk_authentic :
    (ssl : OpenSsl) (laws : HmacLaws ssl) (config : SecurityConfig) (client_no_port : Bytes)
    (random : ServerRandom) (events : List Event) (key session_id name : Bytes)
    → config.security_handshake_enabled ≡ true
    → is_certificate_identity_mode config ≡ false
    → is_signed_identity_mode config ≡ false
    → All IsByteEvent events
    → run (handle_client ssl config client_no_port random true) events
      ≡ some (serving key session_id name)
    → IsAnswered ssl laws config client_no_port random events key name
psk_authentic ssl laws config client_no_port random events key session_id name h c d bytes e =
    psk_handshake-Serves ssl laws config client_no_port random key session_id name events bytes (
      subst (λ d. Serves key session_id name d events)
        (starts ssl config client_no_port random h c d) e)
