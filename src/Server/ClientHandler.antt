-- ===== src/Server/ClientHandler.antt =====
-- ServerUDTC++_v3/ClientHandler.cpp: how a handler opens packets of the secure session, exchanges
-- control messages and names a client. The bytes of a packet are what recvAll has read; logging and
-- the time that a reply is delayed are left out.
use transfer_udt.Common.{
  ℕ, ◌+◌, ◌^◌, ◌-◌, ◌/◌, ◌%◌, Bool, true, false, not, ◌||◌, ◌&&◌, Option, none, some, List, [], ◌∷◌,
  ◌++◌, ltb, leb, length, ◌==◌, if◌then◌else◌,
}
use transfer_udt.Common.Bytes.{Bytes, bytes_eq, codes}
use transfer_udt.SecurePacket.Crypto.{CryptoOps, Result, ok, err}
use transfer_udt.SecurePacket.Hex.{hex_digit}
use transfer_udt.SecurePacket.Envelope.{is_encrypted_packet}
use transfer_udt.SecurePacket.Unseal.{SessionMetadata, decrypt_session_packet}
use transfer_udt.SecurePacket.Control.{
  encrypt_session_control_message, decrypt_session_control_message,
}
pub mod Handshake
mod Replay
mod Names
mod Tests

-- The fields that the secure session uses, the flag `running` and whether the connection is open.
pub record Session : Type 0 where
  pub pre_shared_key : Bytes
  pub session_id : Bytes
  pub expected_secure_inbound_sequence : ℕ
  pub next_secure_outbound_sequence : ℕ
  pub running : Bool
  pub connected : Bool

abbrev pub uint64_max : ℕ
uint64_max = 2 ^ 64 - 1

abbrev pub closed : Session → Session
closed s = record s { connected = false }

abbrev pub stopped : Session → Session
stopped s = record s { connected = false; running = false }

abbrev pub count_up : Session → Session
count_up s = record s { expected_secure_inbound_sequence = s.expected_secure_inbound_sequence + 1 }

-- The test on the sequence number, and the state after it is passed or failed.
abbrev pub check_sequence :
    (Session → Session) → Session → Result (Bytes × SessionMetadata) → Option Bytes × Session
check_sequence refuse s (err e) = (none, refuse s)
check_sequence refuse s (ok (plain, metadata)) =
    if s.expected_secure_inbound_sequence == uint64_max
      || not (metadata.sequence_number == s.expected_secure_inbound_sequence)
    then (none, refuse s)
    else (some plain, count_up s)

module _ (ops : CryptoOps) where
  -- handleClient, from a whole packet to its content; `none` is an exception.
  unfoldable pub open_packet : Bytes → Session → Option Bytes × Session
  open_packet buffer s =
      if not (is_encrypted_packet buffer)
      then (none, s)
      else if bytes_eq s.session_id []
      then (none, stopped s)
      else check_sequence stopped s
          (decrypt_session_packet ops buffer s.pre_shared_key s.session_id)

  unfoldable pub receive_control_message : Bytes → Session → Option Bytes × Session
  receive_control_message buffer s =
      if bytes_eq s.session_id []
      then (none, closed s)
      else check_sequence closed s
          (decrypt_session_control_message ops buffer s.pre_shared_key s.session_id)

  abbrev sent : Result Bytes → Option Bytes
  sent (ok packet) = some packet
  sent (err e) = none

  -- The packet to send, where there is one. The number is used up before the encryption can throw.
  unfoldable pub send_control_message : Option Bytes → Bytes → Session → Option Bytes × Session
  send_control_message random message s =
      if bytes_eq s.session_id [] || (s.next_secure_outbound_sequence == uint64_max)
      then (none, s)
      else (
        sent (
            encrypt_session_control_message ops random message s.pre_shared_key s.session_id
              s.next_secure_outbound_sequence),
        record s { next_secure_outbound_sequence = s.next_secure_outbound_sequence + 1 },
      )

-- std::isalnum in the C locale, and the other characters that stay.
abbrev pub is_plain : ℕ → Bool
is_plain ch =
    (leb 48 ch && leb ch 57)
    || (leb 65 ch && leb ch 90)
    || (leb 97 ch && leb ch 122)
    || (ch == 45)
    || (ch == 46)
    || (ch == 64)

abbrev pub sanitize_char : ℕ → Bytes
sanitize_char ch =
    if is_plain ch then ch ∷ [] else 95 ∷ hex_digit (ch / 16 % 16) ∷ hex_digit (ch % 16) ∷ []

unfoldable pub sanitize : Bytes → Bytes
sanitize [] = []
sanitize (ch ∷ rest) = sanitize_char ch ++ sanitize rest

unfoldable pub build_authenticated_client_namespace : Bytes → Bytes → Bytes
build_authenticated_client_namespace client_ip client_id =
    let sanitized = sanitize client_id in
    if bytes_eq client_id []
    then client_ip
    else if bytes_eq sanitized []
        || bytes_eq sanitized (codes ".")
        || bytes_eq sanitized (codes "..")
    then client_ip
    else codes "id_" ++ sanitized
