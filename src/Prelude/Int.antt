-- ===== src/Prelude/Int.antt =====
-- Signed integers over the native numbers, and the int32 that the source's `int` is.
use Prim.Native.Nat.{ℕ, ◌+◌, ◌-◌, ◌%◌, ◌^◌, ◌<◌}
use mathlib.Core.Path.{◌≡◌}
use mathlib.Core.Logic.{◌↔◌}
use mathlib.Core.Bool.{Bool, true, false}
use native.Mathlib.Omega.{arith}
use net_chat.Prelude.Tests.{ltb, ◌==◌, if◌then◌else◌}

-- `negsuc n` is -(n + 1).
pub data ℤ : Type 0 where
  pos : ℕ → ℤ
  negsuc : ℕ → ℤ

abbrev pub int_eq : ℤ → ℤ → Bool
int_eq (pos a) (pos b) = a == b
int_eq (negsuc a) (negsuc b) = a == b
int_eq _ _ = false

abbrev pub int_lt : ℤ → ℤ → Bool
int_lt (pos a) (pos b) = ltb a b
int_lt (pos a) (negsuc b) = false
int_lt (negsuc a) (pos b) = true
int_lt (negsuc a) (negsuc b) = ltb b a

pub int_eq_iff : (a b : ℤ) → (int_eq a b ≡ true) ↔ (a ≡ b)
int_eq_iff (pos a) (pos b) = ground arith
int_eq_iff (pos a) (negsuc b) = ground arith
int_eq_iff (negsuc a) (pos b) = ground arith
int_eq_iff (negsuc a) (negsuc b) = ground arith

abbrev pub int_mod : ℕ
int_mod = 2 ^ 32

abbrev pub int_max_suc : ℕ
int_max_suc = 2 ^ 31

-- The int32 with a bit pattern below 2^32.
unfoldable pub signed : ℕ → ℤ
signed u = if ltb u int_max_suc then pos u else negsuc (int_mod - 1 - u)

-- Conversion to `int`: the value modulo 2^32, between -2^31 and 2^31 - 1.
unfoldable pub to_int : ℤ → ℤ
unfolding signed
to_int (pos n) = signed (n % int_mod)
to_int (negsuc n) = signed (int_mod - 1 - n % int_mod)

abbrev pub IsInt : ℤ → Type 0
IsInt (pos n) = n < int_max_suc
IsInt (negsuc n) = n < int_max_suc

pub to_int-id : (z : ℤ) → IsInt z → to_int z ≡ z
unfolding to_int
to_int-id (pos n) h = ground arith
to_int-id (negsuc n) h = ground arith

pub to_int-IsInt : (z : ℤ) → IsInt (to_int z)
unfolding to_int
to_int-IsInt (pos n) = ground arith
to_int-IsInt (negsuc n) = ground arith

-- `z + 1` on an `int`. (The overflow, undefined in C++, is modelled by the usual wrap-around.)
unfoldable pub inc : ℤ → ℤ
inc (pos n) = to_int (pos (n + 1))
inc (negsuc n) = if n == 0 then pos 0 else negsuc (n - 1)
