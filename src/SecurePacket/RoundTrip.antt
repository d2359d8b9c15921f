-- ===== src/SecurePacket/RoundTrip.antt =====
-- What EncryptPacket seals, DecryptPacket opens (TransferCore/SecurePacket.cpp).
use transfer_udt.Common.{
  ℕ, ◌+◌, ◌%◌, ◌^◌, ◌≤◌, ◌<◌, ◌≡◌, ◌≢◌, refl, sym, ap, ◌∙◌, true, false, not, ◌||◌, ◌++◌, length,
  ltb, ◌==◌, arith, take, some, append_assoc, take-length-append,
}
use transfer_udt.Common.Bytes.{
  Bytes, slice, uint32_bytes, uint64_bytes, bytes_eq, bytes_eq_iff, bytes_ne,
}
use transfer_udt.Common.Cuts.{slice_of_Took-length}
use transfer_udt.SecurePacket.Crypto.{
  ok, err, SecureError, CryptoOps, opened, derive_key, int_max, aes_256_gcm_encrypt,
  aes_256_gcm_decrypt,
}
use transfer_udt.SecurePacket.Hex.{
  to_hex, from_hex, is_lower_hex, is_valid_session_id, pairs_to_bytes, to_hex-pairs_to_bytes,
  length-pairs_to_bytes,
}
use transfer_udt.SecurePacket.Envelope.{ParsedEnvelope, validate_packet_length}
use transfer_udt.SecurePacket.Reading.{bind-ok, pass, thrown}
use transfer_udt.SecurePacket.Parsed.{
  session_envelope, parsed, parse_envelope-session, length-packet, cuts,
}
use transfer_udt.SecurePacket.Seal.{encrypt_session_packet, session_header}
use transfer_udt.SecurePacket.Unseal.{decrypt_session_packet, decrypt_packet, decrypt_envelope}
use transfer_udt.SecurePacket.Control.{max_session_encrypted_content_length}

-- What is documented of OpenSSL's calls: GCM keeps the length, makes a tag of 16 bytes, and
-- decryption under the same key, nonce and authenticated data undoes encryption.
pub record CryptoLaws (ops : CryptoOps) : Type 0 where
  pub cipher_length :
      (key nonce aad plain cipher tag : Bytes)
      → ops.gcm_encrypt key nonce aad plain ≡ some (cipher, tag)
      → length cipher ≡ length plain
  pub tag_length :
      (key nonce aad plain cipher tag : Bytes)
      → ops.gcm_encrypt key nonce aad plain ≡ some (cipher, tag)
      → length tag ≡ 16
  pub undone :
      (key nonce aad plain cipher tag : Bytes)
      → ops.gcm_encrypt key nonce aad plain ≡ some (cipher, tag)
      → ops.gcm_decrypt key nonce tag aad cipher ≡ opened plain

-- The header that is authenticated.
abbrev pub header_of : Bytes → ℕ → Bytes → Bytes
header_of raw_id sequence plain = session_header (80 + length plain) raw_id plain sequence

valid_id :
    (sid : Bytes) → is_valid_session_id sid ≡ true → (length sid ≡ 32) × (is_lower_hex sid ≡ true)
unfolding is_valid_session_id
valid_id sid h = (ground arith, ground arith)

from_hex-ok :
    (sid : Bytes) → is_valid_session_id sid ≡ true → from_hex sid ≡ ok (pairs_to_bytes sid)
unfolding from_hex
from_hex-ok sid h = let (len, hex) = valid_id sid h in ground (arith, len, hex)

length-raw_id : (sid : Bytes) → is_valid_session_id sid ≡ true → length (pairs_to_bytes sid) ≡ 16
length-raw_id sid h = length-pairs_to_bytes sid 16 (omega (arith, valid_id sid h))

to_hex-raw_id : (sid : Bytes) → is_valid_session_id sid ≡ true → to_hex (pairs_to_bytes sid) ≡ sid
to_hex-raw_id sid h =
    let (len, hex) = valid_id sid h in to_hex-pairs_to_bytes sid hex (omega (arith, len))

length-header :
    (raw_id : Bytes) (sequence : ℕ) (plain : Bytes)
    → length raw_id ≡ 16
    → length (header_of raw_id sequence plain) ≡ 56
unfolding uint32_bytes
length-header raw_id sequence plain id_16 = omega (arith, id_16)

module _ (raw_id : Bytes) (sequence : ℕ) (plain nonce tag cipher : Bytes)
    (id_16 : length raw_id ≡ 16) (small : 80 + length plain < 2 ^ 32)
    (same : length cipher ≡ length plain) where
  sealed :
      ((header_of raw_id sequence plain ++ nonce) ++ tag) ++ cipher
      ≡ session_envelope raw_id sequence nonce tag cipher
  unfolding uint64_bytes
  sealed = rw (id_16, same, plain_fits, content_fits) (simp append_assoc)
    where
      plain_fits : length plain % 2 ^ 32 ≡ length plain
      plain_fits = omega (arith, small)

      content_fits : (80 + length plain) % 2 ^ 32 ≡ 80 + length plain
      content_fits = omega (arith, small)

  header_taken :
      take 56 (session_envelope raw_id sequence nonce tag cipher) ≡ header_of raw_id sequence plain
  header_taken =
      rw
        (
          ← sealed,
          ← length-header raw_id sequence plain id_16,
          append_assoc (h ++ nonce) tag cipher,
          append_assoc h nonce (tag ++ cipher),
        )
        (take-length-append h (nonce ++ (tag ++ cipher)))
    where
      h : Bytes
      h = header_of raw_id sequence plain

module _ (ops : CryptoOps) (laws : CryptoLaws ops) (sid psk plain key nonce cipher tag : Bytes)
    (sequence : ℕ) (valid : is_valid_session_id sid ≡ true) (positive : 0 < sequence)
    (fits : sequence < 2 ^ 64) (framed : validate_packet_length plain ≡ ok tt)
    (small : length plain ≤ int_max) (nonce_12 : length nonce ≡ 12) (has_key : 0 < length psk)
    (derived : ops.hkdf psk ≡ some key)
    (gcm : ops.gcm_encrypt key nonce (header_of (pairs_to_bytes sid) sequence plain) plain
      ≡ some (cipher, tag)) where
  abbrev raw : Bytes
  raw = pairs_to_bytes sid

  abbrev header : Bytes
  header = header_of raw sequence plain

  abbrev the_packet : Bytes
  the_packet = session_envelope raw sequence nonce tag cipher

  key-ok : derive_key ops psk ≡ ok key
  unfolding derive_key
  key-ok = pass (length psk == 0) SecureError.empty_key _ (ground arith) ∙ rw derived

  id_16 : length raw ≡ 16
  id_16 = length-raw_id sid valid

  header_56 : length header ≡ 56
  header_56 = length-header raw sequence plain id_16

  same : length cipher ≡ length plain
  same = laws.cipher_length key nonce header plain cipher tag gcm

  tag_16 : length tag ≡ 16
  tag_16 = laws.tag_length key nonce header plain cipher tag gcm

  encrypted-ok : aes_256_gcm_encrypt ops plain key nonce header ≡ ok (cipher, tag)
  unfolding aes_256_gcm_encrypt
  encrypted-ok =
      pass (ltb int_max (length plain)) SecureError.too_large_for_int _ (ground arith)
      ∙ pass (ltb int_max (length header)) SecureError.too_large_for_int _
          (ground (arith, header_56))
      ∙ rw gcm

  decrypted-ok : aes_256_gcm_decrypt ops cipher key nonce tag header ≡ ok plain
  unfolding aes_256_gcm_decrypt
  decrypted-ok =
      pass (ltb int_max (length cipher)) SecureError.too_large_for_int _ (ground (arith, same))
      ∙ pass (ltb int_max (length nonce)) SecureError.too_large_for_int _ (ground arith)
      ∙ pass (ltb int_max (length tag)) SecureError.too_large_for_int _ (ground (arith, tag_16))
      ∙ pass (ltb int_max (length header)) SecureError.too_large_for_int _
          (ground (arith, header_56))
      ∙ rw (laws.undone key nonce header plain cipher tag gcm)

  content_80 : 36 + length raw + length nonce + 16 + length plain ≡ 80 + length plain
  content_80 = omega (arith, id_16)

  content : ℕ
  content = 36 + length raw + length nonce + 16 + length plain

  encrypted_at :
      aes_256_gcm_encrypt ops plain key nonce (session_header content raw plain sequence)
      ≡ ok (cipher, tag)
  unfolding content
  encrypted_at = rw content_80 encrypted-ok

  sealed_at : ((session_header content raw plain sequence ++ nonce) ++ tag) ++ cipher ≡ the_packet
  unfolding content
  sealed_at = rw content_80 (sealed raw sequence plain nonce tag cipher id_16 (omega arith) same)

  encrypt-ok : encrypt_session_packet ops (some nonce) plain psk sid sequence ≡ ok the_packet
  unfolding encrypt_session_packet content
  encrypt-ok =
      bind-ok _ framed
      ∙ pass (not (is_valid_session_id sid) || sequence == 0)
          SecureError.invalid_session_or_sequence _ (ground arith)
      ∙ pass (ltb 4294967295 (length plain)) SecureError.plaintext_too_long _ (ground arith)
      ∙ bind-ok _ (from_hex-ok sid valid)
      ∙ pass (ltb 4294967295 (36 + length raw + length nonce + 16 + length plain))
          SecureError.packet_too_long _ (ground (arith, content_80))
      ∙ bind-ok _ key-ok
      ∙ bind-ok _ encrypted_at
      ∙ pass (not (length cipher == length plain)) SecureError.unexpected_cipher_length _
          (ground (arith, same))
      ∙ ap ok sealed_at

  the_envelope : ParsedEnvelope
  the_envelope =
      parsed raw sequence nonce tag cipher id_16 nonce_12 tag_16 (omega (arith, same)) positive fits

  cipher_taken : slice 84 (length cipher) the_packet ≡ cipher
  cipher_taken =
      let found =
        cuts raw sequence nonce tag cipher id_16 nonce_12 tag_16 (omega (arith, same)) positive
          fits in
      slice_of_Took-length cipher (length cipher) refl found.the_cipher

  opened_at :
      aes_256_gcm_decrypt ops
        (slice 84 (length cipher) the_packet)
        key
        nonce
        tag
        (take 56 the_packet)
      ≡ ok plain
  opened_at =
      rw (cipher_taken, header_taken raw sequence plain nonce tag cipher id_16 (omega arith) same)
        decrypted-ok

  envelope-ok : decrypt_envelope ops the_packet psk the_envelope (take 56 the_packet) ≡ ok plain
  unfolding decrypt_envelope the_envelope
  envelope-ok = bind-ok _ key-ok ∙ bind-ok _ opened_at ∙ bind-ok _ framed

  decrypt-ok :
      decrypt_session_packet ops the_packet psk sid
      ≡ ok (plain, record { session_id = sid; sequence_number = sequence })
  unfolding decrypt_session_packet the_envelope
  decrypt-ok =
      pass (not (is_valid_session_id sid)) SecureError.invalid_expected_session _ (ap not valid)
      ∙ bind-ok _ (
          parse_envelope-session raw sequence nonce tag cipher id_16 nonce_12 tag_16
            (omega (arith, same)) positive fits)
      ∙ pass (not (2 == 2)) SecureError.session_version_required _ refl
      ∙ pass (not (bytes_eq (to_hex raw) sid)) SecureError.session_mismatch _
          (ap not ((bytes_eq_iff (to_hex raw) sid).1 (to_hex-raw_id sid valid)))
      ∙ bind-ok _ envelope-ok
      ∙ (λ i.
          ok (plain, record { session_id = to_hex-raw_id sid valid i; sequence_number = sequence }))

  -- With a valid session id, a positive 64-bit sequence number, a well-formed plain packet below
  -- 2 GiB, a nonce of 12 bytes, a pre-shared key from which a key is derived, and an encryption call
  -- that succeeds: EncryptPacket returns a packet, its content has exactly the length that
  -- MaxSessionEncryptedContentLength allows, and DecryptPacket for the same session and key returns
  -- the plain packet with that session id and sequence number.
  pub decrypt-encrypt_session :
      (packet : Bytes) × (encrypt_session_packet ops (some nonce) plain psk sid sequence
        ≡ ok packet)
      × (length packet ≡ 4 + max_session_encrypted_content_length (length plain))
      × (decrypt_session_packet ops packet psk sid
          ≡ ok (plain, record { session_id = sid; sequence_number = sequence }))
  decrypt-encrypt_session = (
    the_packet,
    encrypt-ok,
    omega (
      arith,
      same,
      length-packet raw sequence nonce tag cipher id_16 nonce_12 tag_16 (omega (arith, same))
          positive fits,
    ),
    decrypt-ok,
  )

  mismatch :
      (other other_key : Bytes)
      → is_valid_session_id other ≡ true
      → other ≢ sid
      → decrypt_session_packet ops the_packet other_key other ≡ err SecureError.session_mismatch
  unfolding decrypt_session_packet the_envelope
  mismatch other other_key v ne =
      pass (not (is_valid_session_id other)) SecureError.invalid_expected_session _ (ap not v)
      ∙ bind-ok _ (
          parse_envelope-session raw sequence nonce tag cipher id_16 nonce_12 tag_16
            (omega (arith, same)) positive fits)
      ∙ pass (not (2 == 2)) SecureError.session_version_required _ refl
      ∙ thrown (not (bytes_eq (to_hex raw) other)) SecureError.session_mismatch _ (ap not differs)
    where
      differs : bytes_eq (to_hex raw) other ≡ false
      differs = bytes_ne (to_hex raw) other (λ e. ne (sym e ∙ to_hex-raw_id sid valid))

  no_session :
      (other_key : Bytes)
      → decrypt_packet ops the_packet other_key ≡ err SecureError.session_packet_unexpected
  unfolding decrypt_packet
  no_session other_key = bind-ok _ (
      parse_envelope-session raw sequence nonce tag cipher id_16 nonce_12 tag_16
        (omega (arith, same)) positive fits)

  -- Under the same conditions, the packet is refused by DecryptPacket for any other valid session
  -- id, whatever key is given, and by the DecryptPacket that takes no session id.
  pub session_packet_refused :
      (other other_key : Bytes)
      → is_valid_session_id other ≡ true
      → other ≢ sid
      → (packet : Bytes) × (encrypt_session_packet ops (some nonce) plain psk sid sequence
          ≡ ok packet)
        × (decrypt_session_packet ops packet other_key other ≡ err SecureError.session_mismatch)
        × (decrypt_packet ops packet other_key ≡ err SecureError.session_packet_unexpected)
  session_packet_refused other other_key v ne =
      (the_packet, encrypt-ok, mismatch other other_key v ne, no_session other_key)
