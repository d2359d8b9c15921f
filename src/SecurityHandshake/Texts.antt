-- ===== src/SecurityHandshake/Texts.antt =====
-- The helpers on texts of TransferCore/SecurityHandshake.cpp.
use transfer_udt.Common.{
  ℕ, zero, suc, ◌+◌, ◌*◌, ◌/◌, ◌%◌, Bool, true, false, not, ◌&&◌, ◌||◌, Option, none, some, List,
  [], ◌∷◌, ◌++◌, length, leb, ltb, ◌==◌, if◌then◌else◌,
}
use transfer_udt.Common.Bytes.{Bytes}
use transfer_udt.SecurePacket.Hex.{pairs_to_bytes}

abbrev pub challenge_bytes : ℕ
challenge_bytes = 32

abbrev pub x25519_key_bytes : ℕ
x25519_key_bytes = 32

abbrev session_id_length : ℕ
session_id_length = 16

abbrev pub max_certificate_bundle_bytes : ℕ
max_certificate_bundle_bytes = 24 * 1024

abbrev pub max_crl_bundle_bytes : ℕ
max_crl_bundle_bytes = 4 * 1024 * 1024

-- The exceptions of the file, one per function that throws them.
pub data HandshakeError : Type 0 where
  invalid_field invalid_challenge invalid_client_id invalid_session_id : HandshakeError
  empty_secret invalid_signature invalid_certificate : HandshakeError
  random_failed digest_failed key_pair_failed key_file_failed signing_failed : HandshakeError
  verification_failed derivation_failed certificate_failed key_mismatch : HandshakeError

pub data Result {ℓ} (A : Type ℓ) : Type ℓ where
  ok : A → Result A
  err : HandshakeError → Result A

infixl 5 ◌>>=◌ ◌>>◌
abbrev pub ◌>>=◌ {ℓ κ} : {A : Type ℓ} {B : Type κ} → Result A → (A → Result B) → Result B
err e >>= f = err e
ok value >>= f = f value

abbrev pub ◌>>◌ {ℓ} : {B : Type ℓ} → Result (Unit {0}) → Result B → Result B
m >> k = m >>= λ _. k

-- `if (b) throw e;`
abbrev pub throw_if : Bool → HandshakeError → Result (Unit {0})
throw_if true e = err e
throw_if false e = ok tt

abbrev pub or_throw : {A : Type 0} → Option A → HandshakeError → Result A
or_throw none e = err e
or_throw (some a) e = ok a

-- `catch (const std::exception &) { return false; }`
abbrev pub or_false : Result Bool → Bool
or_false (ok b) = b
or_false (err e) = false

abbrev pub is_ok : Result (Unit {0}) → Bool
is_ok (ok _) = true
is_ok (err e) = false

abbrev pub is_hex_digit : ℕ → Bool
is_hex_digit c = leb b'0' c && leb c b'9' || leb b'a' c && leb c b'f'

abbrev pub all_hex : Bytes → Bool
all_hex [] = true
all_hex (c ∷ rest) = is_hex_digit c && all_hex rest

abbrev pub is_empty : Bytes → Bool
is_empty [] = true
is_empty (c ∷ rest) = false

unfoldable pub is_lower_hex : Bytes → Bool
is_lower_hex value = not (is_empty value) && all_hex value

unfoldable pub from_hex : Bytes → ℕ → Result Bytes
from_hex value expected_bytes =
    if not (length value == expected_bytes * 2) || not (is_lower_hex value)
    then err invalid_field
    else ok (pairs_to_bytes value)

-- `a ^ b` on the given number of bits.
abbrev pub xor_bits : ℕ → ℕ → ℕ → ℕ
xor_bits zero a b = 0
xor_bits (suc n) a b = (a % 2 + b % 2) % 2 + 2 * xor_bits n (a / 2) (b / 2)

-- `a | b` on the given number of bits.
abbrev pub or_bits : ℕ → ℕ → ℕ → ℕ
or_bits zero a b = 0
or_bits (suc n) a b = (if a % 2 + b % 2 == 0 then 0 else 1) + 2 * or_bits n (a / 2) (b / 2)

-- The loop of constantTimeEquals, over two strings of one length.
abbrev pub differences : ℕ → Bytes → Bytes → ℕ
differences diff (a ∷ left) (b ∷ right) = differences (or_bits 8 diff (xor_bits 8 a b)) left right
differences diff _ _ = diff

unfoldable pub constant_time_equals : Bytes → Bytes → Bool
constant_time_equals left right =
    if not (length left == length right) then false else differences 0 left right == 0

-- find_first_of(" \t\r\n") finds one.
abbrev pub has_blank : Bytes → Bool
has_blank [] = false
has_blank (c ∷ rest) = (c == 32 || c == 9 || c == 13 || c == 10) || has_blank rest

unfoldable pub is_valid_client_id : Bytes → Bool
is_valid_client_id client_id =
    not (is_empty client_id) && leb (length client_id) 128 && not (has_blank client_id)

unfoldable pub is_valid_session_id : Bytes → Bool
is_valid_session_id session_id =
    length session_id == session_id_length * 2 && is_lower_hex session_id

-- `if (message.rfind(prefix, 0) != 0) return false;`, and the substring after the prefix.
abbrev pub after_prefix : Bytes → Bytes → Option Bytes
after_prefix [] message = some message
after_prefix (p ∷ prefix) [] = none
after_prefix (p ∷ prefix) (c ∷ message) = if p == c then after_prefix prefix message else none

abbrev cons_first : ℕ → Option (Bytes × Bytes) → Option (Bytes × Bytes)
cons_first c none = none
cons_first c (some (before, after)) = some (c ∷ before, after)

-- find(' '): what stands before and after the first space.
abbrev pub find_space : Bytes → Option (Bytes × Bytes)
find_space [] = none
find_space (c ∷ rest) = if c == 32 then some ([], rest) else cons_first c (find_space rest)

abbrev cons_part : ℕ → List Bytes → List Bytes
cons_part c [] = (c ∷ []) ∷ []
cons_part c (part ∷ parts) = (c ∷ part) ∷ parts

unfoldable pub split_space_separated : Bytes → List Bytes
split_space_separated [] = [] ∷ []
split_space_separated (c ∷ rest) =
    let parts = split_space_separated rest in if c == 32 then [] ∷ parts else cons_part c parts

unfoldable pub validate_certificate_hex : Bytes → Result (Unit {0})
validate_certificate_hex certificate_hex =
    throw_if
      (is_empty certificate_hex
        || not (length certificate_hex % 2 == 0)
        || ltb (max_certificate_bundle_bytes * 2) (length certificate_hex)
        || not (is_lower_hex certificate_hex))
      invalid_certificate

-- Texts one after the other, with a separator between them.
abbrev pub joined : ℕ → List Bytes → Bytes
joined separator [] = []
joined separator (part ∷ []) = part
joined separator (part ∷ next ∷ parts) = part ++ (separator ∷ joined separator (next ∷ parts))
