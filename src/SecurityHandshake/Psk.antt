-- ===== src/SecurityHandshake/Psk.antt =====
-- The messages of the handshake by a pre-shared key, and the message that opens a session
-- (TransferCore/SecurityHandshake.cpp). A test that returns false after it has set its result gives
-- none: its callers only log what was set.
use transfer_udt.Common.{
  ◌*◌, Bool, true, false, not, ◌&&◌, ◌||◌, Option, none, some, [], ◌∷◌, ◌++◌, length, ◌==◌,
  if◌then◌else◌,
}
use transfer_udt.Common.Bytes.{Bytes, codes}
use transfer_udt.SecurityHandshake.Texts.{
  Result, ok, ◌>>=◌, ◌>>◌, throw_if, challenge_bytes, is_empty, is_lower_hex, constant_time_equals,
  is_valid_client_id, is_valid_session_id, after_prefix, find_space, joined, invalid_challenge,
  invalid_client_id, invalid_session_id, empty_secret,
}
use transfer_udt.SecurityHandshake.Ops.{OpenSsl, hmac_sha256_hex}

abbrev pub challenge_prefix : Bytes
challenge_prefix = codes "AUTH_CHALLENGE_V1 "

abbrev pub response_prefix : Bytes
response_prefix = codes "AUTH_RESPONSE_V1 "

abbrev pub secure_session_prefix : Bytes
secure_session_prefix = codes "SECURE_SESSION_V1 "

abbrev pub auth_failed : Bytes
auth_failed = codes "AUTH_FAILED"

abbrev pub is_challenge : Bytes → Bool
is_challenge challenge_hex =
    length challenge_hex == challenge_bytes * 2 && is_lower_hex challenge_hex

unfoldable pub build_challenge_message : Bytes → Result Bytes
build_challenge_message challenge_hex = do
  throw_if (not (is_challenge challenge_hex)) invalid_challenge
  ok (challenge_prefix ++ challenge_hex)

abbrev if_valid : (Bytes → Bool) → Option Bytes → Option Bytes
if_valid test none = none
if_valid test (some payload) = if test payload then some payload else none

unfoldable pub try_parse_challenge_message : Bytes → Option Bytes
try_parse_challenge_message message = if_valid is_challenge (after_prefix challenge_prefix message)

abbrev pub is_digest : Bytes → Bool
is_digest digest = length digest == 64 && is_lower_hex digest

abbrev pub claimed : Option (Bytes × Bytes) → Bytes → Option Bytes
claimed none payload = if is_digest payload then some [] else none
claimed (some (client_id, digest)) payload =
    if is_valid_client_id client_id && is_digest digest then some client_id else none

abbrev pub claimed_in : Option Bytes → Option Bytes
claimed_in none = none
claimed_in (some payload) = claimed (find_space payload) payload

unfoldable pub try_extract_client_id : Bytes → Option Bytes
try_extract_client_id response_message = claimed_in (after_prefix response_prefix response_message)

abbrev pub session_transcript : Bytes → Bytes
session_transcript session_id_hex = codes "TransferUDT secure session v1|" ++ session_id_hex

abbrev pub has_space : Bytes → Bool
has_space text = elim (find_space text) [ none ↦ false | some _ ↦ true ]

module _ (ssl : OpenSsl) where
  abbrev build_anonymous : Bytes → Bytes → Result Bytes
  build_anonymous challenge_hex pre_shared_key = do
    digest ← hmac_sha256_hex ssl challenge_hex pre_shared_key
    ok (response_prefix ++ digest)

  abbrev build_named : Bytes → Bytes → Bytes → Result Bytes
  build_named challenge_hex pre_shared_key client_id = do
    throw_if (not (is_valid_client_id client_id)) invalid_client_id
    digest ← hmac_sha256_hex ssl (joined b'|' (challenge_hex ∷ client_id ∷ [])) pre_shared_key
    ok (response_prefix ++ joined b' ' (client_id ∷ digest ∷ []))

  unfoldable pub build_response_message : Bytes → Bytes → Bytes → Result Bytes
  build_response_message challenge_hex pre_shared_key client_id = do
    throw_if (not (is_challenge challenge_hex)) invalid_challenge
    (if is_empty client_id
        then build_anonymous challenge_hex pre_shared_key
        else build_named challenge_hex pre_shared_key client_id)

  -- Whether the digest is the expected one, and the claimed client id.
  abbrev pub verify_payload :
      Bytes → Bytes → Bytes → Option (Bytes × Bytes) → Bytes → Result (Bool × Bytes)
  verify_payload challenge_hex pre_shared_key expected none payload =
      ok (constant_time_equals payload expected, [])
  verify_payload challenge_hex pre_shared_key expected (some (client_id, actual)) payload = do
    expected ← hmac_sha256_hex ssl (joined b'|' (challenge_hex ∷ client_id ∷ [])) pre_shared_key
    ok (constant_time_equals actual expected, client_id)

  abbrev pub verify_after : Bytes → Bytes → Option Bytes → Result (Bool × Bytes)
  verify_after challenge_hex pre_shared_key none = ok (false, [])
  verify_after challenge_hex pre_shared_key (some payload) = do
    expected ← hmac_sha256_hex ssl challenge_hex pre_shared_key
    verify_payload challenge_hex pre_shared_key expected (find_space payload) payload

  unfoldable pub verify_response_message : Bytes → Bytes → Bytes → Result (Bool × Bytes)
  verify_response_message challenge_hex pre_shared_key response_message =
      verify_after challenge_hex pre_shared_key (after_prefix response_prefix response_message)

  unfoldable pub derive_psk_session_secret : Bytes → Bytes → Bytes → Result Bytes
  derive_psk_session_secret challenge_hex pre_shared_key client_id = do
    throw_if (not (is_challenge challenge_hex)) invalid_challenge
    throw_if (is_empty pre_shared_key) empty_secret
    throw_if (not (is_empty client_id) && not (is_valid_client_id client_id)) invalid_client_id
    hmac_sha256_hex ssl
        (joined b'|' (codes "TransferUDT PSK session v1" ∷ challenge_hex ∷ client_id ∷ []))
        pre_shared_key

  unfoldable pub build_secure_session_message : Bytes → Bytes → Result Bytes
  build_secure_session_message session_id_hex session_secret = do
    throw_if (not (is_valid_session_id session_id_hex)) invalid_session_id
    throw_if (is_empty session_secret) empty_secret
    digest ← hmac_sha256_hex ssl (session_transcript session_id_hex) session_secret
    ok (secure_session_prefix ++ joined b' ' (session_id_hex ∷ digest ∷ []))

  abbrev session_in : Bytes → Option (Bytes × Bytes) → Result (Option Bytes)
  session_in session_secret none = ok none
  session_in session_secret (some (candidate, signature)) =
      if has_space signature
      then ok none
      else if not (is_valid_session_id candidate) || not (is_digest signature)
      then ok none
      else do
        expected ← hmac_sha256_hex ssl (session_transcript candidate) session_secret
        ok (if not (constant_time_equals signature expected) then none else some candidate)

  abbrev session_after : Bytes → Option Bytes → Result (Option Bytes)
  session_after session_secret none = ok none
  session_after session_secret (some payload) = session_in session_secret (find_space payload)

  unfoldable pub try_parse_secure_session_message : Bytes → Bytes → Result (Option Bytes)
  try_parse_secure_session_message message session_secret =
      if is_empty session_secret
      then ok none
      else session_after session_secret (after_prefix secure_session_prefix message)
