-- ===== src/Channel/Tests.antt =====
-- Two packets over a session, and the theorem applied to them.
use transfer_udt.Common.{◌≡◌, refl, true, some, [], ◌∷◌, replicate, arith}
use transfer_udt.Common.Bytes.{Bytes, codes}
use transfer_udt.ChunkMetadata.{empty_chunk}
use transfer_udt.ChunkPacketParser.Packet.{store}
use transfer_udt.ChunkPacketParser.Tests.{posix, small_message, small_message-IsAcceptable}
use transfer_udt.SecurePacket.Crypto.{CryptoOps, opened}
use transfer_udt.SecurePacket.Hex.{is_lower_hex, is_valid_session_id}
use transfer_udt.SecurePacket.RoundTrip.{CryptoLaws}
use transfer_udt.NetworkManager.SendChunk.{
  SecureConnection, set_secure_session_id, secure_key_for_connection,
}
use transfer_udt.Server.ClientHandler.{Session}
use transfer_udt.Channel.{transmit, transmit-map, IsLinked}

-- A cipher that hides nothing, with a constant tag.
abbrev toy : CryptoOps
toy = record {
  hkdf = λ psk. some (replicate 32 1);
  gcm_encrypt = λ key nonce aad plain. some (plain, replicate 16 0);
  gcm_decrypt = λ key nonce tag aad cipher. opened cipher;
}

toy-laws : CryptoLaws toy
toy-laws = record {
  cipher_length = λ key nonce aad plain cipher tag h. ground (arith, h);
  tag_length = λ key nonce aad plain cipher tag h. ground (arith, h);
  undone = λ key nonce aad plain cipher tag h. ground (arith, h);
}

abbrev session_id : Bytes
session_id = replicate 32 b'a'

abbrev connection : SecureConnection
connection = record {
  secure_session_key = codes "secret";
  secure_session_id = session_id;
  next_secure_outbound_sequence = 1;
}

-- It is what setSecureSessionId leaves.
connection_set :
    set_secure_session_id session_id
      (record connection { secure_session_id = []; next_secure_outbound_sequence = 9 })
    ≡ some connection
unfolding set_secure_session_id
connection_set = refl

abbrev session : Session
session = record {
  pre_shared_key = codes "secret";
  session_id = session_id;
  expected_secure_inbound_sequence = 1;
  next_secure_outbound_sequence = 1;
  running = true;
  connected = true;
}

linked : IsLinked toy [] (replicate 32 1) connection session
unfolding is_valid_session_id is_lower_hex secure_key_for_connection
linked = record {
  same_id = refl;
  valid = refl;
  same_key = refl;
  has_key = omega arith;
  derived = refl;
  same_number = refl;
  positive = omega arith;
}

abbrev nonce : Bytes
nonce = replicate 12 9

transmit-map_example :
    transmit toy posix [] ((nonce, small_message) ∷ (nonce, small_message) ∷ []) connection session
    ≡ some (store small_message empty_chunk) ∷ some (store small_message empty_chunk) ∷ []
transmit-map_example =
    transmit-map toy toy-laws posix [] (replicate 32 1) (λ nonce aad plain. plain)
      (λ nonce aad plain. replicate 16 0) (λ nonce aad plain. refl)
      ((nonce, small_message) ∷ (nonce, small_message) ∷ []) connection session
      ((refl, small_message-IsAcceptable), ((refl, small_message-IsAcceptable), tt)) linked
      (omega arith)
