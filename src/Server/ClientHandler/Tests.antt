-- ===== src/Server/ClientHandler/Tests.antt =====
-- The theorems on the handler of a client (ServerUDTC++_v3/ClientHandler.cpp), at a session whose
-- cipher hides nothing.
use transfer_udt.Common.{◌≡◌, ◌≢◌, refl, true, none, some, List, [], ◌∷◌, replicate, All, arith}
use transfer_udt.Common.Bytes.{Bytes, codes, uint32_bytes, uint32_of}
use transfer_udt.SecurePacket.Crypto.{
  CryptoOps, Result, ok, err, opened, derive_key, aes_256_gcm_encrypt, aes_256_gcm_decrypt,
}
use transfer_udt.SecurePacket.Hex.{
  is_lower_hex, is_valid_session_id, from_hex, pairs_to_bytes, hex_value, hex_digit, to_hex,
}
use transfer_udt.SecurePacket.Envelope.{
  validate_packet_length, read_uint32, read_uint64, is_encrypted_packet, parse_envelope,
  parse_header, parse_session_header, parse_payload,
}
use transfer_udt.SecurePacket.Seal.{encrypt_session_packet}
use transfer_udt.SecurePacket.Unseal.{decrypt_session_packet, decrypt_envelope}
use transfer_udt.Server.ClientHandler.{
  Session, stopped, open_packet, build_authenticated_client_namespace,
}
use transfer_udt.Server.ClientHandler.Replay.{Exchange, packet, reply, run, no_replay}
use transfer_udt.Server.ClientHandler.Names.{IsPlain, IsNamed, namespaces_differ}

abbrev clear : CryptoOps
clear = record {
  hkdf = λ psk. some (replicate 32 1);
  gcm_encrypt = λ key nonce aad plain. some (plain, replicate 16 0);
  gcm_decrypt = λ key nonce tag aad cipher. opened cipher;
}

abbrev session_id : Bytes
session_id = replicate 32 b'a'

abbrev message : Bytes
message = 0 ∷ 0 ∷ 0 ∷ 2 ∷ b'h' ∷ b'i' ∷ []

abbrev or_empty : Result Bytes → Bytes
or_empty (ok bytes) = bytes
or_empty (err e) = []

abbrev first_packet : Bytes
first_packet =
    or_empty
      (encrypt_session_packet clear (some (replicate 12 9)) message (codes "secret") session_id 1)

abbrev begin : Session
begin = record {
  pre_shared_key = codes "secret";
  session_id = session_id;
  expected_secure_inbound_sequence = 1;
  next_secure_outbound_sequence = 1;
  running = true;
  connected = true;
}

first_opened : (open_packet clear first_packet begin).0 ≡ some message
unfolding open_packet encrypt_session_packet decrypt_session_packet decrypt_envelope derive_key
    aes_256_gcm_encrypt aes_256_gcm_decrypt validate_packet_length read_uint32 read_uint64
    is_encrypted_packet parse_envelope parse_header parse_session_header parse_payload uint32_of
    uint32_bytes is_valid_session_id is_lower_hex from_hex pairs_to_bytes hex_value hex_digit to_hex
first_opened = refl

abbrev between : List Exchange
between = reply (some (replicate 12 8)) (codes "SUCCESS") ∷ packet [] ∷ []

no_replay_example :
    open_packet clear first_packet (run clear (open_packet clear first_packet begin).1 between)
    ≡ (none, stopped (run clear (open_packet clear first_packet begin).1 between))
no_replay_example = no_replay clear begin first_packet message between first_opened

slash_IsNamed : IsNamed (codes "/")
slash_IsNamed = record {
  bytes = (omega arith, tt);
  not_empty = λ e. absurd (ground (arith, e));
  not_here = λ e. absurd (ground (arith, e));
  not_above = λ e. absurd (ground (arith, e));
}

escaped_IsNamed : IsNamed (codes "2f")
escaped_IsNamed = record {
  bytes = (omega arith, (omega arith, tt));
  not_empty = λ e. absurd (ground (arith, e));
  not_here = λ e. absurd (ground (arith, e));
  not_above = λ e. absurd (ground (arith, e));
}

namespaces_differ_example :
    (build_authenticated_client_namespace (codes "::1") (codes "/")
      ≢ build_authenticated_client_namespace (codes "::1") (codes "2f"))
    × All IsPlain (build_authenticated_client_namespace (codes "::1") (codes "/"))
namespaces_differ_example =
    namespaces_differ (codes "::1") (codes "::1") (codes "/") (codes "2f") slash_IsNamed
      escaped_IsNamed (λ e. absurd (ground (arith, e)))
