-- ===== src/Server/ServerConfig.antt =====
-- The settings of the handshake (ServerUDTC++_v3/ServerConfig.h). A map is a list of pairs with
-- distinct keys; the settings are read once, at the start.
use transfer_udt.Common.{
  Bool, true, false, not, ◌&&◌, ◌||◌, List, [], ◌∷◌, Option, none, some, if◌then◌else◌,
}
use transfer_udt.Common.Bytes.{Bytes, bytes_eq, codes}

pub record SecurityConfig : Type 0 where
  pub security_enabled : Bool
  pub security_handshake_enabled : Bool
  pub security_pre_shared_key : Bytes
  pub security_identity_mode : Bytes
  pub client_pre_shared_keys : List (Bytes × Bytes)
  pub client_public_key_paths : List (Bytes × Bytes)
  pub allowed_client_ids : List Bytes
  pub security_server_private_key_path : Bytes
  pub security_server_certificate_path : Bytes
  pub security_ca_bundle_path : Bytes
  pub security_crl_path : Bytes

abbrev find : Bytes → List (Bytes × Bytes) → Option Bytes
find key [] = none
find key ((k, value) ∷ rest) = if bytes_eq k key then some value else find key rest

abbrev is_found : Option Bytes → Bool
is_found none = false
is_found (some value) = true

abbrev has_none : {A : Type 0} → List A → Bool
has_none [] = true
has_none (a ∷ rest) = false

abbrev is_member : Bytes → List Bytes → Bool
is_member id [] = false
is_member id (x ∷ rest) = bytes_eq x id || is_member id rest

unfoldable pub is_signed_identity_mode : SecurityConfig → Bool
is_signed_identity_mode config = bytes_eq config.security_identity_mode (codes "signed_handshake")

unfoldable pub is_certificate_identity_mode : SecurityConfig → Bool
is_certificate_identity_mode config =
    bytes_eq config.security_identity_mode (codes "certificate_handshake")

unfoldable pub is_client_identity_allowed : SecurityConfig → Bytes → Bool
is_client_identity_allowed config client_id =
    if is_signed_identity_mode config
      && not (is_found (find client_id config.client_public_key_paths))
    then false
    else if bytes_eq config.security_identity_mode (codes "psk")
        && not (has_none config.client_pre_shared_keys)
        && not (is_found (find client_id config.client_pre_shared_keys))
    then false
    else if has_none config.allowed_client_ids
    then true
    else is_member client_id config.allowed_client_ids

abbrev or_else : Option Bytes → Bytes → Bytes
or_else none other = other
or_else (some value) other = value

unfoldable pub get_security_pre_shared_key_for_client : SecurityConfig → Bytes → Bytes
get_security_pre_shared_key_for_client config client_id =
    or_else (find client_id config.client_pre_shared_keys) config.security_pre_shared_key

unfoldable pub get_client_public_key_path : SecurityConfig → Bytes → Bytes
get_client_public_key_path config client_id =
    or_else (find client_id config.client_public_key_paths) []
