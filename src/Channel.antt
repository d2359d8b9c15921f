-- ===== src/Channel.antt =====
-- The secure session as a channel: chunks that _sendChunkInternal of
-- AgentUDTC++_v7.2/NetworkManager.cpp seals, one after the other, and handleClient of
-- ServerUDTC++_v3/ClientHandler.cpp opens and parses.
use transfer_udt.Common.{
  ℕ, ◌+◌, ◌-◌, ◌^◌, ◌<◌, ◌≤◌, ◌≡◌, refl, sym, ap, ◌∙◌, Bool, true, false, not, Option, none, some,
  List, [], ◌∷◌, length, map, arith, All, ◌==◌, length-append,
}
use transfer_udt.Common.Bytes.{Bytes, bytes_eq, uint32_bytes, length-uint32_bytes}
use transfer_udt.Common.Cuts.{Took-split_at, Took-whole}
use transfer_udt.ChunkMetadata.{ChunkMetadata, empty_chunk}
use transfer_udt.ChunkPacketParser.Paths.{PathOps}
use transfer_udt.ChunkPacketParser.Reads.{Outcome}
use transfer_udt.ChunkPacketParser.Packet.{
  Message, IsAcceptable, content, encode, store, length-content, content-le-max, content_length,
}
use transfer_udt.ChunkPacketParser.{parse}
use transfer_udt.SecurePacket.Crypto.{CryptoOps, Result, ok, err, int_max}
use transfer_udt.SecurePacket.Hex.{is_valid_session_id, pairs_to_bytes}
use transfer_udt.SecurePacket.Envelope.{is_encrypted_packet, validate_packet_length, parse_envelope}
use transfer_udt.SecurePacket.Reading.{validate-ok}
use transfer_udt.SecurePacket.Seal.{encrypt_session_packet}
use transfer_udt.SecurePacket.Unseal.{SessionMetadata, decrypt_session_packet}
use transfer_udt.SecurePacket.RoundTrip.{CryptoLaws, header_of, decrypt-encrypt_session}
use transfer_udt.SecurityHandshake.Texts.{is_empty}
use transfer_udt.NetworkManager.Serialize.{serialize_chunk_message}
use transfer_udt.NetworkManager.Serialize.Encodes.{serialize-eq-encode, parse-serialize}
use transfer_udt.NetworkManager.SendChunk.{
  SecureConnection, seal_chunk, sealed_with, take_next_secure_outbound_sequence,
  secure_key_for_connection,
}
use transfer_udt.Server.ClientHandler.{Session, open_packet, check_sequence, count_up, stopped}
mod Tests

abbrev parsed : Outcome Unit → Option ChunkMetadata
parsed (Outcome.ok a offset chunk) = some chunk
parsed (Outcome.err e chunk) = none

abbrev read : PathOps → Option Bytes → Option ChunkMetadata
read fs none = none
read fs (some plain) = parsed (parse fs plain empty_chunk)

module _ (ops : CryptoOps) (fs : PathOps) (psk : Bytes) where
  abbrev arrives : Option Bytes → Session → Option ChunkMetadata × Session
  arrives none s = (none, s)
  arrives (some packet) s = let (plain, after) = open_packet ops packet s in (read fs plain, after)

  -- Each chunk with the nonce that is drawn for it; what the server reads of it.
  unfoldable transmit :
      List (Bytes × Message) → SecureConnection → Session → List (Option ChunkMetadata)
  transmit [] connection s = []
  transmit ((nonce, m) ∷ rest) connection s =
      let (packet, next) = seal_chunk ops (some nonce) psk m connection in
      let (chunk, after) = arrives packet s in chunk ∷ transmit rest next after

length-encode : (m : Message) → length (encode m) ≡ 4 + length (content m)
length-encode m = omega (
  arith,
  length-append (uint32_bytes (length (content m))) (content m),
  length-uint32_bytes (length (content m)),
)

framed :
    (fs : PathOps) (m : Message)
    → IsAcceptable fs m
    → validate_packet_length (serialize_chunk_message m) ≡ ok tt
framed fs m v =
    rw (serialize-eq-encode m (omega (arith, content-le-max fs m v, length-content m))) valid
  where
    valid : validate_packet_length (encode m) ≡ ok tt
    valid =
        let (t, _) =
          Took-split_at 4 (uint32_bytes (length (content m))) (content m)
            (omega (arith, length-uint32_bytes (length (content m))))
            (Took-whole (encode m) (encode m) refl) in
        validate-ok (encode m) (length (content m)) (omega (arith, content-le-max fs m v)) t
          (length-encode m)

decrypted-is_encrypted :
    (ops : CryptoOps) (packet key id plain : Bytes) (metadata : SessionMetadata)
    → decrypt_session_packet ops packet key id ≡ ok (plain, metadata)
    → is_encrypted_packet packet ≡ true
unfolding decrypt_session_packet parse_envelope
decrypted-is_encrypted ops packet key id plain metadata e = ground (arith, e)

valid-is_empty : (id : Bytes) → is_valid_session_id id ≡ true → is_empty id ≡ false
unfolding is_valid_session_id
valid-is_empty [] h = absurd (ground (arith, h))
valid-is_empty (c ∷ id) h = refl

valid-bytes_eq : (id : Bytes) → is_valid_session_id id ≡ true → bytes_eq id [] ≡ false
unfolding is_valid_session_id
valid-bytes_eq [] h = absurd (ground (arith, h))
valid-bytes_eq (c ∷ id) h = refl

-- Both ends of one session: the same key and id, from which a cipher key is derived, and the number
-- of the next packet.
pub record IsLinked (ops : CryptoOps) (psk cipher_key : Bytes) (c : SecureConnection) (s : Session)
    : Type 0 where
  pub same_id : c.secure_session_id ≡ s.session_id
  pub valid : is_valid_session_id s.session_id ≡ true
  pub same_key : secure_key_for_connection c psk ≡ s.pre_shared_key
  pub has_key : 0 < length s.pre_shared_key
  pub derived : ops.hkdf s.pre_shared_key ≡ some cipher_key
  pub same_number : c.next_secure_outbound_sequence ≡ s.expected_secure_inbound_sequence
  pub positive : 0 < s.expected_secure_inbound_sequence

abbrev advanced : SecureConnection → SecureConnection
advanced c = record c { next_secure_outbound_sequence = c.next_secure_outbound_sequence + 1 }

module _ (ops : CryptoOps) (laws : CryptoLaws ops) (fs : PathOps) (psk cipher_key : Bytes)
    (cipher tag : Bytes → Bytes → Bytes → Bytes)
    (encrypts : (nonce aad plain : Bytes)
      → ops.gcm_encrypt cipher_key nonce aad plain
        ≡ some (cipher nonce aad plain, tag nonce aad plain)) where
  step :
      (nonce : Bytes) (m : Message) (c : SecureConnection) (s : Session)
      → length nonce ≡ 12
      → IsAcceptable fs m
      → IsLinked ops psk cipher_key c s
      → s.expected_secure_inbound_sequence < 2 ^ 64 - 1
      → (packet : Bytes) × (seal_chunk ops (some nonce) psk m c ≡ (some packet, advanced c))
        × (open_packet ops packet s ≡ (some (serialize_chunk_message m), count_up s))
  unfolding seal_chunk take_next_secure_outbound_sequence open_packet
  step nonce m c s n v h l =
      let (packet, e, x, d) =
        decrypt-encrypt_session ops laws s.session_id s.pre_shared_key plain cipher_key nonce
          (cipher nonce header plain) (tag nonce header plain) sequence h.valid h.positive
          (omega (arith, l)) (framed fs m v) small n h.has_key h.derived
          (encrypts nonce header plain) in
      (
        packet,
        sealed packet e,
        opened packet d (decrypted-is_encrypted ops packet s.pre_shared_key s.session_id plain _ d),
      )
    where
      plain : Bytes
      plain = serialize_chunk_message m

      sequence : ℕ
      sequence = s.expected_secure_inbound_sequence

      header : Bytes
      header = header_of (pairs_to_bytes s.session_id) sequence plain

      small : length plain ≤ int_max
      small =
          rw (serialize-eq-encode m (omega (arith, content-le-max fs m v, length-content m)))
            (omega (arith, length-encode m, content-le-max fs m v))

      sealed :
          (packet : Bytes)
          → encrypt_session_packet ops (some nonce) plain s.pre_shared_key s.session_id sequence
            ≡ ok packet
          → seal_chunk ops (some nonce) psk m c ≡ (some packet, advanced c)
      sealed packet e = rw (has_id, in_range, h.same_key, h.same_id, h.same_number, e) refl
        where
          has_id : is_empty c.secure_session_id ≡ false
          has_id = ap is_empty h.same_id ∙ valid-is_empty s.session_id h.valid

          in_range : (c.next_secure_outbound_sequence == 2 ^ 64 - 1) ≡ false
          in_range = ground (arith, h.same_number, l)

      opened :
          (packet : Bytes)
          → decrypt_session_packet ops packet s.pre_shared_key s.session_id
            ≡ ok (plain, record { session_id = s.session_id; sequence_number = sequence })
          → is_encrypted_packet packet ≡ true
          → open_packet ops packet s ≡ (some plain, count_up s)
      opened packet d e = rw (e, has_id, d) in_turn
        where
          has_id : bytes_eq s.session_id [] ≡ false
          has_id = valid-bytes_eq s.session_id h.valid

          in_turn :
              check_sequence stopped s
                (ok (plain, record { session_id = s.session_id; sequence_number = sequence }))
              ≡ (some plain, count_up s)
          in_turn = ground (arith, l)

  next-IsLinked :
      (c : SecureConnection) (s : Session)
      → IsLinked ops psk cipher_key c s
      → IsLinked ops psk cipher_key (advanced c) (count_up s)
  unfolding secure_key_for_connection
  next-IsLinked c s h = record {
    same_id = h.same_id;
    valid = h.valid;
    same_key = h.same_key;
    has_key = h.has_key;
    derived = h.derived;
    same_number = omega (arith, h.same_number);
    positive = omega arith;
  }

  -- If both ends have the same key, from which a cipher key is derived, the same valid session id and
  -- the same positive number for the next packet, and encryption with the cipher key succeeds and can
  -- be undone: whatever list of chunks the agent sends over the session, each acceptable to the
  -- parser and with a nonce of 12 bytes, and with enough sequence numbers left for all of them, the
  -- server reads exactly these chunks, each once and in this order.
  transmit-map :
      (chunks : List (Bytes × Message)) (c : SecureConnection) (s : Session)
      → All (λ p. (length p.0 ≡ 12) × IsAcceptable fs p.1) chunks
      → IsLinked ops psk cipher_key c s
      → s.expected_secure_inbound_sequence + length chunks < 2 ^ 64
      → transmit ops fs psk chunks c s ≡ map (λ p. some (store p.1 empty_chunk)) chunks
  unfolding transmit
  transmit-map [] c s a h l = refl
  transmit-map ((nonce, m) ∷ rest) c s a h l =
      let (packet, e, o) = step nonce m c s a.0.0 a.0.1 h (omega (arith, l)) in
      rw (transmit, e, o, parse-serialize fs m empty_chunk a.0.1)
        (ap (◌∷◌ (some (store m empty_chunk))) (
          transmit-map rest (advanced c) (count_up s) a.1 (next-IsLinked c s h) (omega (arith, l))))
