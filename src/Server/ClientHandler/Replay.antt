-- ===== src/Server/ClientHandler/Replay.antt =====
-- Packets that come again (ServerUDTC++_v3/ClientHandler.cpp).
use transfer_udt.Common.{
  ◌+◌, ◌≤◌, ◌≡◌, ◌≢◌, sym, ap, ◌∙◌, true, false, Option, none, some, List, [], ◌∷◌, arith,
}
use transfer_udt.Common.Bytes.{Bytes, bytes_eq}
use transfer_udt.SecurePacket.Crypto.{CryptoOps, Result, ok, err}
use transfer_udt.SecurePacket.Envelope.{is_encrypted_packet}
use transfer_udt.SecurePacket.Unseal.{SessionMetadata, decrypt_session_packet}
use transfer_udt.SecurePacket.Control.{decrypt_session_control_message}
use transfer_udt.Server.ClientHandler.{
  Session, closed, stopped, count_up, check_sequence, open_packet, receive_control_message,
  send_control_message,
}

-- What the handler does with its session.
pub data Exchange : Type 0 where
  packet : Bytes → Exchange
  control : Bytes → Exchange
  reply : Option Bytes → Bytes → Exchange

module _ (ops : CryptoOps) where
  unfoldable pub after_exchange : Session → Exchange → Session
  after_exchange s (packet buffer) = (open_packet ops buffer s).1
  after_exchange s (control buffer) = (receive_control_message ops buffer s).1
  after_exchange s (reply random message) = (send_control_message ops random message s).1

  unfoldable pub run : Session → List Exchange → Session
  run s [] = s
  run s (e ∷ rest) = run (after_exchange s e) rest

  -- The session stays the same and its numbers only grow.
  pub record IsLater (s later : Session) : Type 0 where
    pub same_key : later.pre_shared_key ≡ s.pre_shared_key
    pub same_session : later.session_id ≡ s.session_id
    pub inbound : s.expected_secure_inbound_sequence ≤ later.expected_secure_inbound_sequence
    pub outbound : s.next_secure_outbound_sequence ≤ later.next_secure_outbound_sequence

  IsLater-trans : (a b c : Session) → IsLater a b → IsLater b c → IsLater a c
  IsLater-trans a b c h k = record {
    same_key = k.same_key ∙ h.same_key;
    same_session = k.same_session ∙ h.same_session;
    inbound = omega (arith, h.inbound, k.inbound);
    outbound = omega (arith, h.outbound, k.outbound);
  }

  check-IsLater :
      (refuse : Session → Session) (s : Session) (r : Result (Bytes × SessionMetadata))
      → IsLater s (refuse s)
      → IsLater s (check_sequence refuse s r).1
  check-IsLater refuse s (err e) h = h
  check-IsLater refuse s (ok (plain, metadata)) h = ground (arith, h, counted)
    where
      counted : IsLater s (count_up s)
      counted = ground arith

  exchange-IsLater : (s : Session) (e : Exchange) → IsLater s (after_exchange s e)
  unfolding after_exchange open_packet receive_control_message send_control_message
  exchange-IsLater s (packet buffer) = ground (
    arith,
    check-IsLater stopped s (decrypt_session_packet ops buffer s.pre_shared_key s.session_id)
        (ground arith),
  )
  exchange-IsLater s (control buffer) = ground (
    arith,
    check-IsLater closed s
        (decrypt_session_control_message ops buffer s.pre_shared_key s.session_id) (ground arith),
  )
  exchange-IsLater s (reply random message) = ground arith

  run-IsLater : (s : Session) (es : List Exchange) → IsLater s (run s es)
  unfolding run
  run-IsLater s [] = ground arith
  run-IsLater s (e ∷ rest) =
      IsLater-trans s (after_exchange s e) (run (after_exchange s e) rest) (exchange-IsLater s e)
        (run-IsLater (after_exchange s e) rest)

  opened_sequence :
      (refuse : Session → Session) (s : Session) (r : Result (Bytes × SessionMetadata))
      (plain : Bytes)
      → (check_sequence refuse s r).0 ≡ some plain
      → (metadata : SessionMetadata) × (r ≡ ok (plain, metadata))
        × (metadata.sequence_number ≡ s.expected_secure_inbound_sequence)
        × ((check_sequence refuse s r).1.expected_secure_inbound_sequence
            ≡ s.expected_secure_inbound_sequence + 1)
  opened_sequence refuse s (err e) plain h = absurd (ground (arith, h))
  opened_sequence refuse s (ok (p, metadata)) plain h =
      (metadata, ground (arith, h), ground (arith, h), ground (arith, h))

  -- A packet that was opened before.
  record IsOpened (buffer plain : Bytes) (s : Session) : Type 0 where
    encrypted : is_encrypted_packet buffer ≡ true
    has_session : bytes_eq s.session_id [] ≡ false
    metadata : SessionMetadata
    decrypted :
        decrypt_session_packet ops buffer s.pre_shared_key s.session_id ≡ ok (plain, metadata)
    in_turn : metadata.sequence_number ≡ s.expected_secure_inbound_sequence
    counted :
        (open_packet ops buffer s).1.expected_secure_inbound_sequence
        ≡ s.expected_secure_inbound_sequence + 1

  opened_lem :
      (buffer plain : Bytes) (s : Session)
      → (open_packet ops buffer s).0 ≡ some plain
      → (is_encrypted_packet buffer ≡ true)
        × (bytes_eq s.session_id [] ≡ false)
        × (open_packet ops buffer s
            ≡ check_sequence stopped s
                (decrypt_session_packet ops buffer s.pre_shared_key s.session_id))
  unfolding open_packet
  opened_lem buffer plain s h = ground (arith, h)

  open_packet-IsOpened :
      (buffer plain : Bytes) (s : Session)
      → (open_packet ops buffer s).0 ≡ some plain
      → IsOpened buffer plain s
  open_packet-IsOpened buffer plain s h = record {
    encrypted = (opened_lem buffer plain s h).0;
    has_session = (opened_lem buffer plain s h).1;
    metadata = o.0;
    decrypted = o.1;
    in_turn = o.2;
    counted = ap (λ r. r.1.expected_secure_inbound_sequence) (opened_lem buffer plain s h).2 ∙ o.3;
  }
    where
      o :
          (metadata : SessionMetadata) × (decrypt_session_packet ops buffer s.pre_shared_key
              s.session_id
            ≡ ok (plain, metadata))
          × (metadata.sequence_number ≡ s.expected_secure_inbound_sequence)
          × ((check_sequence stopped s (
                decrypt_session_packet ops buffer s.pre_shared_key
                  s.session_id)).1.expected_secure_inbound_sequence
              ≡ s.expected_secure_inbound_sequence + 1)
      o =
          opened_sequence stopped s
            (decrypt_session_packet ops buffer s.pre_shared_key s.session_id) plain
            (ap (λ r. r.0) (sym (opened_lem buffer plain s h).2) ∙ h)

  out_of_turn :
      (s : Session) (plain : Bytes) (metadata : SessionMetadata)
      → metadata.sequence_number ≢ s.expected_secure_inbound_sequence
      → check_sequence stopped s (ok (plain, metadata)) ≡ (none, stopped s)
  out_of_turn s plain metadata h = ground (arith, h)

  refuse_again :
      (buffer plain : Bytes) (s later : Session)
      → IsOpened buffer plain s
      → IsLater s (open_packet ops buffer s).1
      → IsLater (open_packet ops buffer s).1 later
      → open_packet ops buffer later ≡ (none, stopped later)
  unfolding open_packet
  refuse_again buffer plain s later o h k =
      rw (o.encrypted, same_id, same_result)
        (out_of_turn later plain o.metadata
          (λ e. absurd (omega (arith, e, o.in_turn, o.counted, k.inbound))))
    where
      same_id : bytes_eq later.session_id [] ≡ false
      same_id = ap (λ i. bytes_eq i []) (k.same_session ∙ h.same_session) ∙ o.has_session

      same_result :
          decrypt_session_packet ops buffer later.pre_shared_key later.session_id
          ≡ ok (plain, o.metadata)
      same_result =
          ap (λ i. decrypt_session_packet ops buffer later.pre_shared_key i)
            (k.same_session ∙ h.same_session)
          ∙ ap (λ i. decrypt_session_packet ops buffer i s.session_id) (k.same_key ∙ h.same_key)
          ∙ o.decrypted

  -- A packet that was opened is not opened again, whatever packets, control messages and replies come
  -- between: it ends the handler.
  pub no_replay :
      (s : Session) (buffer plain : Bytes) (es : List Exchange)
      → (open_packet ops buffer s).0 ≡ some plain
      → open_packet ops buffer (run (open_packet ops buffer s).1 es)
        ≡ (none, stopped (run (open_packet ops buffer s).1 es))
  unfolding after_exchange
  no_replay s buffer plain es h =
      refuse_again buffer plain s (run (open_packet ops buffer s).1 es)
        (open_packet-IsOpened buffer plain s h) (exchange-IsLater s (packet buffer))
        (run-IsLater (open_packet ops buffer s).1 es)
