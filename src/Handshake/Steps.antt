-- ===== src/Handshake/Steps.antt =====
-- One message from one end to the other, and what is assumed of OpenSSL and of the settings.
use transfer_udt.Common.{◌≡◌, refl, Bool, true, ◌||◌, Option, some, length}
use transfer_udt.Common.Bytes.{Bytes, bytes_eq, codes}
use transfer_udt.SecurePacket.Hex.{to_hex}
use transfer_udt.SecurityHandshake.Texts.{ok, is_empty}
use transfer_udt.SecurityHandshake.Ops.{OpenSsl, hmac_sha256_hex}
use transfer_udt.SecurityHandshake.Dialogue.{Dialogue, done, send, recv, talk}
use transfer_udt.Server.ServerConfig.{SecurityConfig}
use transfer_udt.UdtConnectionPool.CreateConnection.{ConnectionSettings}

-- HMAC-SHA256 does not fail, and gives 32 bytes.
pub record HmacLaws (ssl : OpenSsl) : Type 0 where
  pub mac : Bytes → Bytes → Bytes
  pub hmac-mac : (message key : Bytes) → ssl.hmac message key ≡ some (mac message key)
  pub length-mac : (message key : Bytes) → length (mac message key) ≡ 32

-- The settings of both ends that every handshake needs: the same mode and the same security, and a
-- greeting that the server sends, or none.
pub record IsMatched (config : SecurityConfig) (settings : ConnectionSettings) : Type 0 where
  pub handshake_config : config.security_handshake_enabled ≡ true
  pub handshake_settings : settings.security_handshake_enabled ≡ true
  pub same_security : settings.security_enabled ≡ config.security_enabled
  pub same_mode : settings.security_identity_mode ≡ config.security_identity_mode
  pub greeting :
      (is_empty settings.expected_greeting || bytes_eq (codes "READY") settings.expected_greeting)
      ≡ true

module _ {A B : Type 0} where
  pub talk-to_agent :
      (server : Dialogue A) (agent : Dialogue B) (message : Bytes) (r : Option (A × B))
      (k : Bool → Dialogue A) (j : Option Bytes → Dialogue B)
      → server ≡ send message k
      → agent ≡ recv j
      → talk (k true) (j (some message)) ≡ r
      → talk server agent ≡ r
  unfolding talk
  talk-to_agent server agent message r k j p q e = rw (p, q) e

  pub talk-to_server :
      (server : Dialogue A) (agent : Dialogue B) (message : Bytes) (r : Option (A × B))
      (k : Option Bytes → Dialogue A) (j : Bool → Dialogue B)
      → server ≡ recv k
      → agent ≡ send message j
      → talk (k (some message)) (j true) ≡ r
      → talk server agent ≡ r
  unfolding talk
  talk-to_server server agent message r k j p q e = rw (p, q) e

  pub talk-done :
      (server : Dialogue A) (agent : Dialogue B) (a : A) (b : B)
      → server ≡ done a
      → agent ≡ done b
      → talk server agent ≡ some (a, b)
  unfolding talk
  talk-done server agent a b p q = rw (p, q) refl

pub hmac_hex :
    {ssl : OpenSsl} (laws : HmacLaws ssl) (message key : Bytes)
    → hmac_sha256_hex ssl message key ≡ ok (to_hex (laws.mac message key))
unfolding hmac_sha256_hex
hmac_hex laws message key = rw (laws.hmac-mac message key, laws.length-mac message key) refl
