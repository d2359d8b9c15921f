-- ===== src/Handshake/Served.antt =====
-- What a handler has gone through when it serves (ServerUDTC++_v3/ClientHandler.cpp).
use transfer_udt.Common.{
  ◌≡◌, refl, sym, ap, subst, ◌∙◌, Bool, true, false, not, ◌||◌, Option, none, some, if◌then◌else◌,
  List, [], ◌∷◌, arith,
}
use transfer_udt.Common.Bytes.{Bytes, bytes_eq, bytes_eq_iff, codes}
use transfer_udt.SecurityHandshake.Texts.{Result, ok, err}
use transfer_udt.SecurityHandshake.Ops.{OpenSsl, create_session_id}
use transfer_udt.SecurityHandshake.Psk.{
  claimed, verify_response_message, derive_psk_session_secret, build_secure_session_message,
}
use transfer_udt.SecurityHandshake.Dialogue.{
  Dialogue, done, send, Event, sent, received, run, attempt,
}
use transfer_udt.Server.ServerConfig.{
  SecurityConfig, is_client_identity_allowed, get_security_pre_shared_key_for_client,
}
use transfer_udt.Server.ClientHandler.{build_authenticated_client_namespace}
use transfer_udt.Server.ClientHandler.Handshake.{
  ServerEnd, refused, serving, ServerRandom, gives_up, rejects, if_sent, says_ready, announces,
  opens_session, psk_accepts, psk_checks,
}

pair_path : {a b : Bool} {x y : Bytes} → a ≡ b → x ≡ y → ◌≡◌ {A = Bool × Bytes} (a, x) (b, y)
pair_path p q = λ i. (p i, q i)

module _ (key session_id name : Bytes) where
  abbrev pub Serves : Dialogue ServerEnd → List Event → Type 0
  Serves d events = run d events ≡ some (serving key session_id name)

  not_served : some refused ≡ some (serving key session_id name) → ⊥
  not_served e = ground arith

  pub not_none : ◌≡◌ {A = Option ServerEnd} none (some (serving key session_id name)) → ⊥
  not_none e = ground arith

  gives_up-Serves : (events : List Event) → Serves gives_up events → ⊥
  gives_up-Serves [] e = not_served e
  gives_up-Serves (x ∷ events) e = not_none e

  pub rejects-Serves : (events : List Event) → Serves rejects events → ⊥
  rejects-Serves [] e = not_none e
  rejects-Serves (sent b ∷ events) e = gives_up-Serves events e
  rejects-Serves (received r ∷ events) e = not_none e

  -- A call that did not throw.
  pub attempt-Serves :
      {A : Type 0} (r : Result A) (next : A → Dialogue ServerEnd) (events : List Event)
      → Serves (attempt r gives_up next) events
      → (a : A) × (r ≡ ok a) × Serves (next a) events
  attempt-Serves (ok a) next events e = (a, refl, e)
  attempt-Serves (err x) next events e = absurd (gives_up-Serves events e)

  pub send-Serves :
      (message : Bytes) (next : Dialogue ServerEnd) (events : List Event)
      → Serves (send message (if_sent next)) events
      → (rest : List Event) × (events ≡ sent true ∷ rest) × Serves next rest
  send-Serves message next (sent true ∷ rest) e = (rest, refl, e)
  send-Serves message next (sent false ∷ rest) e = absurd (gives_up-Serves rest e)
  send-Serves message next (received r ∷ rest) e = absurd (not_none e)
  send-Serves message next [] e = absurd (not_none e)

  done-Serves :
      (k i n : Bytes) (events : List Event)
      → Serves (done (serving k i n)) events
      → (k ≡ key) × (n ≡ name)
  done-Serves k i n [] e = ground arith
  done-Serves k i n (x ∷ events) e = absurd (not_none e)

  module _ (ssl : OpenSsl) (config : SecurityConfig) (client_no_port : Bytes)
      (random : ServerRandom) where
    says_ready-Serves :
        (k i n : Bytes) (events : List Event)
        → Serves (says_ready ssl config client_no_port random k i n) events
        → (k ≡ key) × (n ≡ name)
    unfolding says_ready
    says_ready-Serves k i n events e =
        let (rest, p, q) = send-Serves (codes "READY") (done (serving k i n)) events e in
        done-Serves k i n rest q

    opens_session-Serves :
        (k n : Bytes) (events : List Event)
        → Serves (opens_session ssl config client_no_port random k n) events
        → (k ≡ key) × (n ≡ name)
    unfolding opens_session
    opens_session-Serves k n events e = here config.security_enabled e
      where
        announced :
            (id : Bytes)
            → Serves (announces ssl config client_no_port random k n id) events
            → (k ≡ key) × (n ≡ name)
        announced id e =
            let ready = says_ready ssl config client_no_port random k id n in
            let (message, p, q) =
              attempt-Serves (build_secure_session_message ssl id k)
                (λ message. send message (if_sent ready)) events e in
            let (rest, u, v) = send-Serves message ready events q in says_ready-Serves k id n rest v

        here :
            (b : Bool)
            → Serves
                (if b
                  then attempt
                      (create_session_id random.session)
                      gives_up
                      (announces ssl config client_no_port random k n)
                  else says_ready ssl config client_no_port random k [] n)
                events
            → (k ≡ key) × (n ≡ name)
        here true e =
            let (id, p, q) =
              attempt-Serves (create_session_id random.session)
                (announces ssl config client_no_port random k n) events e in
            announced id q
        here false e = says_ready-Serves k [] n events e

    abbrev name_of : Bytes → Bytes
    name_of id = build_authenticated_client_namespace client_no_port id

    psk_accepts-Serves :
        (challenge k claimed id : Bytes) (valid : Bool) (events : List Event)
        → Serves
            (psk_accepts ssl config client_no_port random challenge k claimed (valid, id))
            events
        → (valid ≡ true)
          × (id ≡ claimed)
          × (derive_psk_session_secret ssl challenge k id ≡ ok key)
          × (name_of id ≡ name)
    psk_accepts-Serves challenge k claimed id valid events e =
        here (not valid || not (bytes_eq id claimed)) refl e
      where
        here :
            (b : Bool)
            → (not valid || not (bytes_eq id claimed)) ≡ b
            → Serves
                (if b
                  then rejects
                  else attempt (derive_psk_session_secret ssl challenge k id) gives_up (λ secret.
                    opens_session ssl config client_no_port random secret (name_of id)))
                events
            → (valid ≡ true)
              × (id ≡ claimed)
              × (derive_psk_session_secret ssl challenge k id ≡ ok key)
              × (name_of id ≡ name)
        here true b e = absurd (rejects-Serves events e)
        here false b e =
            let (secret, p, q) =
              attempt-Serves (derive_psk_session_secret ssl challenge k id)
                (λ secret. opens_session ssl config client_no_port random secret (name_of id))
                events e in
            let (u, v) = opens_session-Serves secret (name_of id) events q in
            (ground (arith, b), (bytes_eq_iff id claimed).0 (ground (arith, b)), p ∙ ap ok u, v)

    pub psk_checks-Serves :
        (challenge message : Bytes) (claimed : Option Bytes) (events : List Event)
        → Serves (psk_checks ssl config client_no_port random challenge message claimed) events
        → (id : Bytes) × (claimed ≡ some id)
          × (is_client_identity_allowed config id ≡ true)
          × (verify_response_message ssl challenge
                (get_security_pre_shared_key_for_client config id)
                message
              ≡ ok (true, id))
          × (derive_psk_session_secret ssl challenge
                (get_security_pre_shared_key_for_client config id)
                id
              ≡ ok key)
          × (name_of id ≡ name)
    psk_checks-Serves challenge message none events e = absurd (rejects-Serves events e)
    psk_checks-Serves challenge message (some id) events e =
        here (not (is_client_identity_allowed config id)) refl e
      where
        k : Bytes
        k = get_security_pre_shared_key_for_client config id

        here :
            (b : Bool)
            → not (is_client_identity_allowed config id) ≡ b
            → Serves
                (if b
                  then rejects
                  else attempt
                      (verify_response_message ssl challenge k message)
                      gives_up
                      (psk_accepts ssl config client_no_port random challenge k id))
                events
            → (x : Bytes) × (◌≡◌ {A = Option Bytes} (some id) (some x))
              × (is_client_identity_allowed config x ≡ true)
              × (verify_response_message ssl challenge
                    (get_security_pre_shared_key_for_client config x)
                    message
                  ≡ ok (true, x))
              × (derive_psk_session_secret ssl challenge
                    (get_security_pre_shared_key_for_client config x)
                    x
                  ≡ ok key)
              × (name_of x ≡ name)
        here true b e = absurd (rejects-Serves events e)
        here false b e =
            let ((valid, x), p, q) =
              attempt-Serves (verify_response_message ssl challenge k message)
                (psk_accepts ssl config client_no_port random challenge k id) events e in
            let (u, v, w, y) = psk_accepts-Serves challenge k id x valid events q in
            (
              id,
              refl,
              ground (arith, b),
              p ∙ ap ok (pair_path u v),
              subst (λ z. derive_psk_session_secret ssl challenge k z ≡ ok key) v w,
              ap name_of (sym v) ∙ y,
            )
