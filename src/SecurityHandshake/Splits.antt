-- ===== src/SecurityHandshake/Splits.antt =====
-- Cutting and checking texts that were put together (TransferCore/SecurityHandshake.cpp).
use transfer_udt.Common.{
  ℕ, zero, suc, ◌*◌, ◌/◌, ◌%◌, ◌<◌, ◌^◌, ◌≡◌, refl, ap, ◌∙◌, Bool, true, false, not, ◌&&◌, none,
  some, List, [], ◌∷◌, ◌++◌, length, ◌==◌, arith, All,
}
use transfer_udt.Common.Bytes.{Bytes, IsByte}
use transfer_udt.SecurePacket.Hex.{to_hex, hex_digit, pairs_to_bytes, hex_value}
use transfer_udt.SecurityHandshake.Texts.{
  ok, is_hex_digit, all_hex, is_empty, is_lower_hex, from_hex, has_blank, is_valid_client_id,
  after_prefix, find_space, split_space_separated, joined, constant_time_equals, differences,
  xor_bits, or_bits,
}

abbrev pub no_space : Bytes → Bool
no_space [] = true
no_space (c ∷ rest) = not (c == 32) && no_space rest

after_prefix-append : (prefix m : Bytes) → after_prefix prefix (prefix ++ m) ≡ some m
after_prefix-append [] m = refl
after_prefix-append (p ∷ prefix) m = ground (arith, after_prefix-append prefix m)

pub find_space-append : (a b : Bytes) → no_space a ≡ true → find_space (a ++ (32 ∷ b)) ≡ some (a, b)
find_space-append [] b h = refl
find_space-append (c ∷ a) b h = ground (arith, find_space-append a b)

pub find_space-none : (a : Bytes) → no_space a ≡ true → find_space a ≡ none
find_space-none [] h = refl
find_space-none (c ∷ a) h = ground (arith, find_space-none a)

split-append :
    (a b : Bytes)
    → no_space a ≡ true
    → split_space_separated (a ++ (32 ∷ b)) ≡ a ∷ split_space_separated b
unfolding split_space_separated
split-append [] b h = refl
split-append (c ∷ a) b h = ground (arith, split-append a b)

split-whole : (a : Bytes) → no_space a ≡ true → split_space_separated a ≡ a ∷ []
unfolding split_space_separated
split-whole [] h = refl
split-whole (c ∷ a) h = ground (arith, split-whole a)

pub split-joined :
    (part : Bytes) (parts : List Bytes)
    → All (λ p. no_space p ≡ true) (part ∷ parts)
    → split_space_separated (joined b' ' (part ∷ parts)) ≡ part ∷ parts
split-joined part [] h = split-whole part h.0
split-joined part (next ∷ parts) h =
    split-append part (joined b' ' (next ∷ parts)) h.0 ∙ ap (◌∷◌ part) (split-joined next parts h.1)

pub all_hex-no_space : (a : Bytes) → all_hex a ≡ true → no_space a ≡ true
all_hex-no_space [] h = refl
all_hex-no_space (c ∷ a) h = ground (arith, all_hex-no_space a)

pub lower_hex-no_space : (a : Bytes) → is_lower_hex a ≡ true → no_space a ≡ true
unfolding is_lower_hex
lower_hex-no_space a h = ground (arith, all_hex-no_space a)

no_blank-no_space : (a : Bytes) → has_blank a ≡ false → no_space a ≡ true
no_blank-no_space [] h = refl
no_blank-no_space (c ∷ a) h = ground (arith, no_blank-no_space a)

pub client_id-no_space : (a : Bytes) → is_valid_client_id a ≡ true → no_space a ≡ true
unfolding is_valid_client_id
client_id-no_space a h = ground (arith, no_blank-no_space a)

pub length-to_hex : (bs : Bytes) → length (to_hex bs) ≡ length bs * 2
unfolding to_hex
length-to_hex [] = refl
length-to_hex (b ∷ bs) = omega (arith, length-to_hex bs)

hex_digit-is_hex_digit : (d : ℕ) → d < 16 → is_hex_digit (hex_digit d) ≡ true
unfolding hex_digit
hex_digit-is_hex_digit d h = ground (arith, h)

pub to_hex-all_hex : (bs : Bytes) → all_hex (to_hex bs) ≡ true
unfolding to_hex
to_hex-all_hex [] = refl
to_hex-all_hex (b ∷ bs) =
    rw
      (
        hex_digit-is_hex_digit (b / 16 % 16) (omega arith),
        hex_digit-is_hex_digit (b % 16) (omega arith),
        to_hex-all_hex bs,
      )
      refl

pub to_hex-is_lower_hex : (bs : Bytes) (n : ℕ) → length bs ≡ suc n → is_lower_hex (to_hex bs) ≡ true
unfolding is_lower_hex to_hex
to_hex-is_lower_hex [] n e = absurd (omega arith)
to_hex-is_lower_hex (b ∷ bs) n e = ground (arith, to_hex-all_hex (b ∷ bs))

pub to_hex-is_empty : (bs : Bytes) (n : ℕ) → length bs ≡ suc n → is_empty (to_hex bs) ≡ false
unfolding to_hex
to_hex-is_empty [] n e = absurd (omega (arith, e))
to_hex-is_empty (b ∷ bs) n e = refl

hex_value-hex_digit : (d : ℕ) → d < 16 → hex_value (hex_digit d) ≡ d
unfolding hex_digit hex_value
hex_value-hex_digit d h = ground (arith, h)

cons_path : {x y : ℕ} {xs ys : Bytes} → x ≡ y → xs ≡ ys → x ∷ xs ≡ y ∷ ys
cons_path p q = λ i. p i ∷ q i

pairs_to_bytes-to_hex : (bs : Bytes) → All IsByte bs → pairs_to_bytes (to_hex bs) ≡ bs
unfolding pairs_to_bytes to_hex
pairs_to_bytes-to_hex [] h = refl
pairs_to_bytes-to_hex (b ∷ bs) h =
    let p = hex_value-hex_digit (b / 16 % 16) (omega arith) in
    let q = hex_value-hex_digit (b % 16) (omega arith) in
    cons_path (omega (arith, p, q, h.0)) (pairs_to_bytes-to_hex bs h.1)

pub from_hex-to_hex :
    (bs : Bytes) (n : ℕ) → length bs ≡ suc n → All IsByte bs → from_hex (to_hex bs) (suc n) ≡ ok bs
unfolding from_hex
from_hex-to_hex bs n e h =
    ground (arith, length-to_hex bs, e, to_hex-is_lower_hex bs n e, pairs_to_bytes-to_hex bs h)

xor_bits-same : (n a : ℕ) → xor_bits n a a ≡ 0
xor_bits-same zero a = refl
xor_bits-same (suc n) a = omega (arith, xor_bits-same n (a / 2))

xor_bits-zero : (n a b : ℕ) → a < 2 ^ n → b < 2 ^ n → xor_bits n a b ≡ 0 → a ≡ b
xor_bits-zero zero a b h k e = omega arith
xor_bits-zero (suc n) a b h k e =
    omega (arith, xor_bits-zero n (a / 2) (b / 2) (omega arith) (omega arith) (omega arith))

or_bits-zero : (n a b : ℕ) → a < 2 ^ n → b < 2 ^ n → or_bits n a b ≡ 0 → (a ≡ 0) × (b ≡ 0)
or_bits-zero zero a b h k e = omega arith
or_bits-zero (suc n) a b h k e =
    ground (arith, h, k, e, or_bits-zero n (a / 2) (b / 2) (omega arith) (omega arith))

differences_refl : (a : Bytes) → differences 0 a a ≡ 0
differences_refl [] = refl
differences_refl (x ∷ a) = rw xor_bits-same (differences_refl a)

pub constant_time_equals_refl : (a : Bytes) → constant_time_equals a a ≡ true
unfolding constant_time_equals
constant_time_equals_refl a = ground (arith, differences_refl a)

xor_bits-lt : (n a b : ℕ) → xor_bits n a b < 2 ^ n
xor_bits-lt zero a b = omega arith
xor_bits-lt (suc n) a b = omega (arith, xor_bits-lt n (a / 2) (b / 2))

or_bits-lt : (n a b : ℕ) → or_bits n a b < 2 ^ n
or_bits-lt zero a b = omega arith
or_bits-lt (suc n) a b = ground (arith, or_bits-lt n (a / 2) (b / 2))

differences-zero :
    (d : ℕ) (a b : Bytes)
    → d < 2 ^ 8
    → All IsByte a
    → All IsByte b
    → length a ≡ length b
    → differences d a b ≡ 0
    → (d ≡ 0) × (a ≡ b)
differences-zero d [] [] l h k e z = (z, refl)
differences-zero d (x ∷ a) (y ∷ b) l h k e z =
    let diff = xor_bits 8 x y in
    let (p, q) =
      differences-zero (or_bits 8 d diff) a b (or_bits-lt 8 d diff) h.1 k.1 (omega (arith, e)) z in
    let (u, v) = or_bits-zero 8 d diff l (xor_bits-lt 8 x y) p in
    (u, cons_path (xor_bits-zero 8 x y h.0 k.0 v) q)
differences-zero d [] (y ∷ b) l h k e z = absurd (omega (arith, e))
differences-zero d (x ∷ a) [] l h k e z = absurd (omega (arith, e))

-- The comparison is the equality of byte strings.
pub constant_time_equals_sound :
    (a b : Bytes) → All IsByte a → All IsByte b → constant_time_equals a b ≡ true → a ≡ b
unfolding constant_time_equals
constant_time_equals_sound a b h k e =
    (differences-zero 0 a b (omega arith) h k (ground (arith, e)) (ground (arith, e))).1

pub after_prefix_inv :
    (prefix m rest : Bytes) → after_prefix prefix m ≡ some rest → m ≡ prefix ++ rest
after_prefix_inv [] m rest e = ground (arith, e)
after_prefix_inv (p ∷ prefix) [] rest e = ground (arith, e)
after_prefix_inv (p ∷ prefix) (c ∷ m) rest e = ground (arith, e, after_prefix_inv prefix m rest)

pub find_space_inv : (m a b : Bytes) → find_space m ≡ some (a, b) → m ≡ a ++ (32 ∷ b)
find_space_inv [] a b e = ground (arith, e)
find_space_inv (c ∷ m) [] b e = ground (arith, e)
find_space_inv (c ∷ m) (x ∷ a) b e = ground (arith, e, find_space_inv m a b)

hex_digit-IsByte : (d : ℕ) → d < 16 → IsByte (hex_digit d)
unfolding hex_digit
hex_digit-IsByte d h = ground (arith, h)

pub to_hex-IsByte : (bs : Bytes) → All IsByte (to_hex bs)
unfolding to_hex
to_hex-IsByte [] = tt
to_hex-IsByte (b ∷ bs) = (
  hex_digit-IsByte (b / 16 % 16) (omega arith),
  (hex_digit-IsByte (b % 16) (omega arith), to_hex-IsByte bs),
)
