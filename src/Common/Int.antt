-- ===== src/Common/Int.antt =====
-- The C++ `int`: a signed number, and the conversion from `uint32_t`, which is modulo 2 ^ 32.
use Prim.Native.Nat.{ℕ, ◌-◌, ◌^◌, ◌<◌, ◌%◌}
use mathlib.Core.Path.{◌≡◌}
use mathlib.Core.Logic.{◌↔◌}
use mathlib.Core.Bool.{Bool, true, false, not}
use native.Mathlib.Omega.{arith}
use transfer_udt.Common.Tests.{ltb, ◌==◌, if◌then◌else◌}

-- `negsuc n` is -(n + 1).
pub data ℤ : Type 0 where
  pos : ℕ → ℤ
  negsuc : ℕ → ℤ

-- static_cast<int>(uint32_t)
abbrev pub to_int : ℕ → ℤ
to_int w = if ltb w (2 ^ 31) then pos w else negsuc (2 ^ 32 - w - 1)

-- static_cast<uint32_t>(int)
abbrev pub to_uint32 : ℤ → ℕ
to_uint32 (pos n) = n % 2 ^ 32
to_uint32 (negsuc n) = (2 ^ 32 - 1 - n % 2 ^ 32) % 2 ^ 32

pub to_uint32-to_int : (w : ℕ) → w < 2 ^ 32 → to_uint32 (to_int w) ≡ w
to_uint32-to_int w h = ground arith

-- The comparisons of two signed numbers.
abbrev pub int_eq : ℤ → ℤ → Bool
int_eq (pos m) (pos n) = m == n
int_eq (pos m) (negsuc n) = false
int_eq (negsuc m) (pos n) = false
int_eq (negsuc m) (negsuc n) = m == n

abbrev pub int_lt : ℤ → ℤ → Bool
int_lt (pos m) (pos n) = ltb m n
int_lt (pos m) (negsuc n) = false
int_lt (negsuc m) (pos n) = true
int_lt (negsuc m) (negsuc n) = ltb n m

abbrev pub int_le : ℤ → ℤ → Bool
int_le a b = not (int_lt b a)

abbrev pub int_max : ℤ → ℤ → ℤ
int_max a b = if int_lt a b then b else a

pub int_eq_iff : (a b : ℤ) → (int_eq a b ≡ true) ↔ (a ≡ b)
int_eq_iff (pos m) (pos n) = ground arith
int_eq_iff (pos m) (negsuc n) = ground arith
int_eq_iff (negsuc m) (pos n) = ground arith
int_eq_iff (negsuc m) (negsuc n) = ground arith

pub int_le_total : (a b : ℤ) → int_le a b ≡ false → int_le b a ≡ true
int_le_total (pos m) (pos n) h = ground arith
int_le_total (pos m) (negsuc n) h = ground arith
int_le_total (negsuc m) (pos n) h = ground arith
int_le_total (negsuc m) (negsuc n) h = ground arith
