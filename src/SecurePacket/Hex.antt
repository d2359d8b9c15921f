-- ===== src/SecurePacket/Hex.antt =====
-- IsLowerHex, HexValue, FromHex, ToHex and IsValidSessionId of TransferCore/SecurePacket.cpp.
use transfer_udt.Common.{
  ℕ, ◌+◌, ◌-◌, ◌*◌, ◌/◌, ◌%◌, ◌≡◌, refl, Bool, true, not, ◌&&◌, ◌||◌, [], ◌∷◌, length, leb, ltb,
  ◌==◌, if◌then◌else◌, arith, All,
}
use transfer_udt.Common.Bytes.{Bytes, IsByte}
use transfer_udt.SecurePacket.Crypto.{Result, ok, err, SecureError}

-- Here the empty string passes.
unfoldable pub is_lower_hex : Bytes → Bool
is_lower_hex [] = true
is_lower_hex (ch ∷ rest) =
    (leb b'0' ch && leb ch b'9' || leb b'a' ch && leb ch b'f') && is_lower_hex rest

unfoldable pub hex_value : ℕ → ℕ
hex_value v = if leb b'0' v && leb v b'9' then v - b'0' else (v + 256 - b'a' + 10) % 256

-- The loop over pairs of digits: `(HexValue(a) << 4) | HexValue(b)` in a byte.
unfoldable pub pairs_to_bytes : Bytes → Bytes
unfolding hex_value
pairs_to_bytes (a ∷ b ∷ rest) = (hex_value a * 16 + hex_value b) % 256 ∷ pairs_to_bytes rest
pairs_to_bytes _ = []

unfoldable pub from_hex : Bytes → Result Bytes
from_hex value =
    if not (length value % 2 == 0) || not (is_lower_hex value)
    then err SecureError.invalid_hex
    else ok (pairs_to_bytes value)

-- kHex[d]
unfoldable pub hex_digit : ℕ → ℕ
hex_digit d = if ltb d 10 then b'0' + d else b'a' + (d - 10)

unfoldable pub to_hex : Bytes → Bytes
to_hex [] = []
to_hex (b ∷ rest) = hex_digit (b / 16 % 16) ∷ hex_digit (b % 16) ∷ to_hex rest

abbrev pub session_id_bytes : ℕ
session_id_bytes = 16

abbrev pub session_id_hex_chars : ℕ
session_id_hex_chars = session_id_bytes * 2

unfoldable pub is_valid_session_id : Bytes → Bool
is_valid_session_id session_id =
    length session_id == session_id_hex_chars && is_lower_hex session_id

hex_digit-hex_value :
    (a b : ℕ)
    → (leb b'0' a && leb a b'9' || leb b'a' a && leb a b'f') ≡ true
    → (leb b'0' b && leb b b'9' || leb b'a' b && leb b b'f') ≡ true
    → let v = (hex_value a * 16 + hex_value b) % 256 in
      (hex_digit (v / 16 % 16) ≡ a) × (hex_digit (v % 16) ≡ b)
unfolding hex_digit hex_value
hex_digit-hex_value a b p q = (ground arith, ground arith)

-- ToHex undoes FromHex on lower-case hexadecimal strings of even length.
pub to_hex-pairs_to_bytes :
    (s : Bytes) → is_lower_hex s ≡ true → length s % 2 ≡ 0 → to_hex (pairs_to_bytes s) ≡ s
unfolding is_lower_hex pairs_to_bytes to_hex
to_hex-pairs_to_bytes [] h e = refl
to_hex-pairs_to_bytes (a ∷ []) h e = absurd (omega arith)
to_hex-pairs_to_bytes (a ∷ b ∷ rest) h e =
    let (p, q) = hex_digit-hex_value a b (ground arith) (ground arith) in
    λ i. p i ∷ q i ∷ to_hex-pairs_to_bytes rest (ground arith) (omega (arith, e)) i

pub length-pairs_to_bytes : (s : Bytes) (n : ℕ) → length s ≡ n * 2 → length (pairs_to_bytes s) ≡ n
unfolding pairs_to_bytes
length-pairs_to_bytes [] n e = omega arith
length-pairs_to_bytes (a ∷ []) n e = absurd (omega arith)
length-pairs_to_bytes (a ∷ b ∷ rest) n e =
    omega (arith, length-pairs_to_bytes rest (n - 1) (omega arith))

pub pairs_to_bytes-IsByte : (s : Bytes) → All IsByte (pairs_to_bytes s)
unfolding pairs_to_bytes
pairs_to_bytes-IsByte [] = tt
pairs_to_bytes-IsByte (a ∷ []) = tt
pairs_to_bytes-IsByte (a ∷ b ∷ rest) = (omega arith, pairs_to_bytes-IsByte rest)
