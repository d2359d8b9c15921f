-- ===== src/Common/Bytes.antt =====
-- Byte strings (`std::vector<char>`, `std::string`) as lists of numbers below 256, and integers in
-- network byte order.
use Prim.Native.Nat.{ℕ, ◌+◌, ◌*◌, ◌/◌, ◌%◌, ◌^◌, ◌<◌}
use Prim.Native.Char.{code}
use Prim.Native.String.{String}
use mathlib.Core.Path.{◌≡◌, refl}
use mathlib.Core.Logic.{◌↔◌, ◌≢◌}
use mathlib.Core.Bool.{Bool, true, false, ◌&&◌}
use mathlib.Core.List.{List, [], ◌∷◌, ◌++◌}
use native.Mathlib.Omega.{arith}
use transfer_udt.Common.Tests.{◌==◌, ltb}
use transfer_udt.Common.Lists.{length, take, drop, All}

abbrev pub Bytes : Type 0
Bytes = List ℕ

abbrev pub IsByte : ℕ → Type 0
IsByte b = b < 256

-- The code points of an ASCII literal.
abbrev pub codes : String → Bytes
codes String.[] = []
codes (String.◌∷◌ c s) = code c ∷ codes s

-- `buffer[offset .. offset + n)`
abbrev pub slice : ℕ → ℕ → Bytes → Bytes
slice offset n buffer = take n (drop offset buffer)

-- operator== on strings
abbrev pub bytes_eq : Bytes → Bytes → Bool
bytes_eq [] [] = true
bytes_eq (x ∷ xs) (y ∷ ys) = (x == y) && bytes_eq xs ys
bytes_eq _ _ = false

pub bytes_eq_iff : (a b : Bytes) → (bytes_eq a b ≡ true) ↔ (a ≡ b)
bytes_eq_iff (x ∷ a) (y ∷ b) = ground (arith, bytes_eq_iff a b)
bytes_eq_iff _ _ = ground arith

pub bytes_ne : (a b : Bytes) → a ≢ b → bytes_eq a b ≡ false
bytes_ne a b h = ground (arith, bytes_eq_iff a b)

-- The four bytes of a `uint32_t`, most significant first.
unfoldable pub uint32_bytes : ℕ → Bytes
uint32_bytes v = v / 2 ^ 24 % 256 ∷ v / 2 ^ 16 % 256 ∷ v / 2 ^ 8 % 256 ∷ v % 256 ∷ []

unfoldable pub uint32_of : Bytes → ℕ
uint32_of (a ∷ b ∷ c ∷ d ∷ _) = a * 2 ^ 24 + b * 2 ^ 16 + c * 2 ^ 8 + d
uint32_of _ = 0

-- The eight bytes of a `uint64_t`: its high and its low word.
unfoldable pub uint64_bytes : ℕ → Bytes
uint64_bytes v = uint32_bytes (v / 2 ^ 32 % 2 ^ 32) ++ uint32_bytes (v % 2 ^ 32)

pub length-uint32_bytes : (v : ℕ) → length (uint32_bytes v) ≡ 4
unfolding uint32_bytes
length-uint32_bytes v = refl

pub length-uint64_bytes : (v : ℕ) → length (uint64_bytes v) ≡ 8
unfolding uint64_bytes uint32_bytes
length-uint64_bytes v = refl

pub uint32_of-uint32_bytes : (v : ℕ) → v < 2 ^ 32 → uint32_of (uint32_bytes v) ≡ v
unfolding uint32_bytes uint32_of
uint32_of-uint32_bytes v h = omega arith

pub uint32_of-lt : (bs : Bytes) → All IsByte bs → uint32_of bs < 2 ^ 32
unfolding uint32_of
uint32_of-lt (a ∷ b ∷ c ∷ d ∷ rest) h = omega arith
uint32_of-lt [] h = omega arith
uint32_of-lt (a ∷ []) h = omega arith
uint32_of-lt (a ∷ b ∷ []) h = omega arith
uint32_of-lt (a ∷ b ∷ c ∷ []) h = omega arith

pub uint64_bytes_value : (v : ℕ) → v < 2 ^ 64 → v / 2 ^ 32 % 2 ^ 32 * 2 ^ 32 + v % 2 ^ 32 ≡ v
uint64_bytes_value v h = omega arith

cons_path : {x y : ℕ} {xs ys : Bytes} → x ≡ y → xs ≡ ys → x ∷ xs ≡ y ∷ ys
cons_path p q = λ i. p i ∷ q i

pub uint32_bytes-uint32_of :
    (bs : Bytes) → All IsByte bs → length bs ≡ 4 → uint32_bytes (uint32_of bs) ≡ bs
unfolding uint32_bytes uint32_of
uint32_bytes-uint32_of (a ∷ b ∷ c ∷ d ∷ []) h e =
    cons_path (omega arith)
      (cons_path (omega arith) (cons_path (omega arith) (cons_path (omega arith) refl)))
uint32_bytes-uint32_of (a ∷ b ∷ c ∷ d ∷ x ∷ rest) h e = absurd (omega arith)
uint32_bytes-uint32_of [] h e = absurd (omega arith)
uint32_bytes-uint32_of (a ∷ []) h e = absurd (omega arith)
uint32_bytes-uint32_of (a ∷ b ∷ []) h e = absurd (omega arith)
uint32_bytes-uint32_of (a ∷ b ∷ c ∷ []) h e = absurd (omega arith)

pub uint32_bytes-IsByte : (v : ℕ) → All IsByte (uint32_bytes v)
unfolding uint32_bytes
uint32_bytes-IsByte v = omega arith

-- A test for concrete buffers.
abbrev pub all_bytes : Bytes → Bool
all_bytes [] = true
all_bytes (b ∷ rest) = ltb b 256 && all_bytes rest

pub all_bytes_sound : (bs : Bytes) → all_bytes bs ≡ true → All IsByte bs
all_bytes_sound [] h = tt
all_bytes_sound (b ∷ rest) h = (ground arith, all_bytes_sound rest (ground arith))
