-- ===== src/Base/Int.antt =====
-- Go's signed integers as ℤ over the native numbers, and its conversions between widths.
use Prim.Native.Nat.{ℕ, suc, ◌-◌, ◌%◌, ◌^◌, ◌<◌}
use mathlib.Core.Path.{◌≡◌}
use mathlib.Core.Logic.{◌↔◌}
use mathlib.Core.Bool.{Bool, true, false}
use native.Mathlib.Omega.{arith}
use gldap.Base.Tests.{ltb, ◌==◌, if◌then◌else◌}

-- `negsuc n` is -(n + 1).
pub data ℤ : Type 0 where
  pos : ℕ → ℤ
  negsuc : ℕ → ℤ

abbrev pub minus_one : ℤ
minus_one = negsuc 0

abbrev pub int_eq : ℤ → ℤ → Bool
int_eq (pos a) (pos b) = a == b
int_eq (pos a) (negsuc b) = false
int_eq (negsuc a) (pos b) = false
int_eq (negsuc a) (negsuc b) = a == b

pub int_eq_iff : (a b : ℤ) → (int_eq a b ≡ true) ↔ (a ≡ b)
int_eq_iff (pos a) (pos b) = ground arith
int_eq_iff (pos a) (negsuc b) = ground arith
int_eq_iff (negsuc a) (pos b) = ground arith
int_eq_iff (negsuc a) (negsuc b) = ground arith

-- `a >= 0`
abbrev pub is_nonneg : ℤ → Bool
is_nonneg (pos n) = true
is_nonneg (negsuc n) = false

-- The `w` low bits of a two's complement number.
abbrev pub low_bits : ℕ → ℤ → ℕ
low_bits w (pos n) = n % 2 ^ w
low_bits w (negsuc n) = 2 ^ w - 1 - n % 2 ^ w

-- The signed reading of `w + 1` bits.
abbrev pub signed : ℕ → ℕ → ℤ
signed w n = if ltb n (2 ^ w) then pos n else negsuc (2 ^ suc w - 1 - n)

-- `int8(a)`, `int16(a)`, `uint32(a)`
abbrev pub to_int8 : ℤ → ℤ
to_int8 a = signed 7 (low_bits 8 a)

abbrev pub to_int16 : ℤ → ℤ
to_int16 a = signed 15 (low_bits 16 a)

abbrev pub to_uint32 : ℤ → ℕ
to_uint32 a = low_bits 32 a

-- The range of an int with `w + 1` bits.
abbrev pub Fits : ℕ → ℤ → Type 0
Fits w (pos n) = n < 2 ^ w
Fits w (negsuc n) = n < 2 ^ w

pub to_int16_of_Fits : (a : ℤ) → Fits 15 a → to_int16 a ≡ a
to_int16_of_Fits (pos n) h = ground arith
to_int16_of_Fits (negsuc n) h = ground arith

pub to_int8_of_Fits : (a : ℤ) → Fits 7 a → to_int8 a ≡ a
to_int8_of_Fits (pos n) h = ground arith
to_int8_of_Fits (negsuc n) h = ground arith

pub to_int16-Fits : (a : ℤ) → Fits 15 (to_int16 a)
to_int16-Fits (pos n) = ground arith
to_int16-Fits (negsuc n) = ground arith
