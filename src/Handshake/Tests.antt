-- ===== src/Handshake/Tests.antt =====
-- A handshake with concrete settings, and the theorems applied to it.
use transfer_udt.Common.{ℕ, ◌≡◌, refl, true, false, inl, none, some, List, [], ◌∷◌, replicate, All}
use transfer_udt.Common.Bytes.{Bytes, IsByte, codes, all_bytes_sound}
use transfer_udt.SecurePacket.Hex.{to_hex, hex_digit}
use transfer_udt.SecurityHandshake.Texts.{
  is_lower_hex, is_valid_client_id, is_valid_session_id, constant_time_equals,
}
use transfer_udt.SecurityHandshake.Ops.{
  OpenSsl, create_challenge, create_session_id, hmac_sha256_hex,
}
use transfer_udt.SecurityHandshake.Psk.{
  build_challenge_message, try_extract_client_id, verify_response_message,
  derive_psk_session_secret, build_secure_session_message,
}
use transfer_udt.SecurityHandshake.Dialogue.{Event, sent, received, run}
use transfer_udt.Server.ServerConfig.{
  SecurityConfig, is_signed_identity_mode, is_certificate_identity_mode, is_client_identity_allowed,
  get_security_pre_shared_key_for_client,
}
use transfer_udt.Server.ClientHandler.Handshake.{
  ServerRandom, ServerEnd, serving, psk_handshake, opens_session, says_ready, handle_client,
}
use transfer_udt.Server.ClientHandler.{build_authenticated_client_namespace, sanitize}
use transfer_udt.UdtConnectionPool.CreateConnection.{AgentRandom, ConnectionSettings}
use transfer_udt.Handshake.Steps.{HmacLaws, IsMatched}
use transfer_udt.Handshake.Keys.{HkdfLaws, Draw}
use transfer_udt.Handshake.Psk.{IsPskPair, response}
use transfer_udt.Handshake.Authentic.{IsByteEvent, IsAnswered, psk_authentic}
use transfer_udt.Handshake.Agreement.{Agree, handshake_agrees}

abbrev bytes_32 : Bytes
bytes_32 = replicate 32 9

abbrev toy : OpenSsl
toy = record {
  PrivateKey = ℕ;
  PublicKey = ℕ;
  X509 = ℕ;
  Crl = ℕ;
  Store = ℕ;
  hmac = λ message key. some bytes_32;
  x25519 = λ private public. some bytes_32;
  hkdf = λ secret info salt. some bytes_32;
  read_private_key = λ path. some 1;
  read_public_key = λ path. some 1;
  digest_sign = λ key message. some (1 ∷ []);
  digest_verify = λ key message signature. some true;
  read_file = λ path. none;
  pem_certificates = λ content. [];
  pem_crls = λ content. [];
  load_locations = λ path. none;
  add_crl = λ crl store. none;
  check_crls = λ store. none;
  verify_cert = λ store leaf rest server. false;
  check_ip = λ certificate ip. false;
  check_host = λ certificate host. false;
  check_private_key = λ certificate key. false;
  get_pubkey = λ certificate. none;
}

abbrev toy_hmac : HmacLaws toy
toy_hmac = record {
  mac = λ message key. bytes_32;
  hmac-mac = λ message key. refl;
  length-mac = λ message key. refl;
}

abbrev toy_hkdf : HkdfLaws toy
toy_hkdf = record {
  derived = λ secret info salt. bytes_32;
  hkdf-derived = λ secret info salt. refl;
  length-derived = λ secret info salt. refl;
}

abbrev config : SecurityConfig
config = record {
  security_enabled = true;
  security_handshake_enabled = true;
  security_pre_shared_key = codes "shared";
  security_identity_mode = codes "psk";
  client_pre_shared_keys = (codes "radar-1", codes "own") ∷ [];
  client_public_key_paths = [];
  allowed_client_ids = [];
  security_server_private_key_path = [];
  security_server_certificate_path = [];
  security_ca_bundle_path = [];
  security_crl_path = [];
}

abbrev settings : ConnectionSettings
settings = record {
  server_host = codes "server";
  require_greeting = true;
  expected_greeting = codes "READY";
  security_enabled = true;
  security_handshake_enabled = true;
  security_pre_shared_key = codes "own";
  security_client_id = codes "radar-1";
  security_identity_mode = codes "psk";
  security_client_private_key_path = [];
  security_server_public_key_path = [];
  security_client_certificate_path = [];
  security_ca_bundle_path = [];
  security_crl_path = [];
  security_server_identity = [];
}

abbrev server_random : ServerRandom
server_random = record {
  nonce = some bytes_32;
  key_pair = some (bytes_32, bytes_32);
  session = some (replicate 16 5);
}

abbrev agent_random : AgentRandom
agent_random = record { nonce = some bytes_32; key_pair = some (bytes_32, bytes_32) }

bytes_32-IsByte : All IsByte bytes_32
bytes_32-IsByte = all_bytes_sound bytes_32 refl

abbrev draw : Draw toy server_random agent_random
draw = record {
  server_nonce = bytes_32;
  agent_nonce = bytes_32;
  session = replicate 16 5;
  server_private = bytes_32;
  server_public = bytes_32;
  agent_private = bytes_32;
  agent_public = bytes_32;
  shared = bytes_32;
  server_nonce_given = record { is_given = refl; length_32 = refl; bytes = bytes_32-IsByte };
  agent_nonce_given = record { is_given = refl; length_32 = refl; bytes = bytes_32-IsByte };
  session_given = refl;
  session_16 = refl;
  server_keys = record {
    is_given = refl;
    private_32 = refl;
    public_32 = refl;
    private_bytes = bytes_32-IsByte;
    public_bytes = bytes_32-IsByte;
  };
  agent_keys = record {
    is_given = refl;
    private_32 = refl;
    public_32 = refl;
    private_bytes = bytes_32-IsByte;
    public_bytes = bytes_32-IsByte;
  };
  exchange = record { here = refl; there = refl };
}

matched : IsMatched config settings
matched = record {
  handshake_config = refl;
  handshake_settings = refl;
  same_security = refl;
  same_mode = refl;
  greeting = refl;
}

psk_pair : IsPskPair config settings
unfolding is_certificate_identity_mode is_signed_identity_mode is_valid_client_id
    is_client_identity_allowed get_security_pre_shared_key_for_client
psk_pair = record {
  not_certificate = refl;
  not_signed = refl;
  valid_id = refl;
  allowed = refl;
  same_key = refl;
  has_key = refl;
}

handshake_agrees_example :
    Agree toy config settings (codes "10.0.0.7") server_random agent_random (replicate 16 5)
handshake_agrees_example =
    handshake_agrees toy toy_hmac toy_hkdf config settings (codes "10.0.0.7") server_random
      agent_random draw matched (inl psk_pair)

-- The answer of the client to the challenge of the server, and what follows.
abbrev events : List Event
events =
    sent true
    ∷ received (some (response toy toy_hmac (to_hex bytes_32) (codes "own") (codes "radar-1")))
    ∷ sent true
    ∷ sent true
    ∷ []

abbrev served : ServerEnd
served = serving (to_hex bytes_32) (to_hex (replicate 16 5)) (codes "id_radar-1")

serves_radar :
    run (handle_client toy config (codes "10.0.0.7") server_random true) events ≡ some served
unfolding handle_client is_certificate_identity_mode is_signed_identity_mode psk_handshake
    create_challenge build_challenge_message to_hex hex_digit is_lower_hex try_extract_client_id
    is_valid_client_id is_client_identity_allowed verify_response_message hmac_sha256_hex
    constant_time_equals derive_psk_session_secret get_security_pre_shared_key_for_client
    opens_session create_session_id is_valid_session_id build_secure_session_message says_ready
    build_authenticated_client_namespace sanitize
serves_radar = refl

bytes_of : All IsByteEvent events
unfolding to_hex hex_digit
bytes_of = (
  tt,
  (
    all_bytes_sound (response toy toy_hmac (to_hex bytes_32) (codes "own") (codes "radar-1")) refl,
    (tt, (tt, tt)),
  ),
)

psk_authentic_example :
    IsAnswered toy toy_hmac config
      (codes "10.0.0.7")
      server_random
      events
      (to_hex bytes_32)
      (codes "id_radar-1")
psk_authentic_example =
    psk_authentic toy toy_hmac config (codes "10.0.0.7") server_random events (to_hex bytes_32)
      (to_hex (replicate 16 5)) (codes "id_radar-1") refl psk_pair.not_certificate
      psk_pair.not_signed bytes_of serves_radar
