-- ===== src/Base/Words.antt =====
-- `i32` and `u32` arithmetic. An `i32` is an integer that is kept in range by `to_i32`, a `u32` a
-- number below 2^32; the operators wrap around.
use battleship_plus.Base.Tests.{ltb, if◌then◌else◌}
use battleship_plus.Base.Int.{ℤ, pos, negsuc, ◌+ℤ◌, ◌-ℤ◌, ◌≤ℤ◌}
use battleship_plus.Base.Int.{ltb_ℤ}
use Prim.Native.Nat.{ℕ, ◌+◌, ◌-◌, ◌*◌, ◌%◌, ◌^◌, ◌<◌}
use mathlib.Core.Path.{◌≡◌}
use native.Mathlib.Omega.{arith}

abbrev pub u32_mod : ℕ
u32_mod = 2 ^ 32

abbrev pub i32_max : ℤ
i32_max = pos (2 ^ 31 - 1)

abbrev pub i32_min : ℤ
i32_min = negsuc (2 ^ 31 - 1)

-- An integer modulo 2^32, as a number.
unfoldable pub as_u32 : ℤ → ℕ
as_u32 (pos n) = n % u32_mod
as_u32 (negsuc n) = u32_mod - 1 - n % u32_mod

-- The `i32` with the bits of a `u32`.
unfoldable pub as_i32 : ℕ → ℤ
as_i32 n = let u = n % u32_mod in if ltb u (2 ^ 31) then pos u else negsuc (u32_mod - 1 - u)

abbrev pub IsI32 : ℤ → Type 0
IsI32 z = (i32_min ≤ℤ z) × (z ≤ℤ i32_max)

-- An integer reduced to the `i32` range.
unfoldable pub to_i32 : ℤ → ℤ
unfolding as_u32 as_i32
to_i32 z = as_i32 (as_u32 z)

unfoldable pub add_i32 : ℤ → ℤ → ℤ
unfolding to_i32 ◌+ℤ◌
add_i32 a b = to_i32 (a +ℤ b)

unfoldable pub sub_i32 : ℤ → ℤ → ℤ
unfolding to_i32 ◌-ℤ◌
sub_i32 a b = to_i32 (a -ℤ b)

-- `i32::abs`, which wraps at the least value.
unfoldable pub abs_i32 : ℤ → ℤ
abs_i32 a = if ltb_ℤ a (pos 0) then sub_i32 (pos 0) a else a

unfoldable pub add_u32 : ℕ → ℕ → ℕ
add_u32 a b = (a + b) % u32_mod

unfoldable pub sub_u32 : ℕ → ℕ → ℕ
sub_u32 a b = (a + u32_mod - b) % u32_mod

unfoldable pub mul_u32 : ℕ → ℕ → ℕ
mul_u32 a b = (a * b) % u32_mod

pub as_i32-small : (n : ℕ) → n < 2 ^ 31 → as_i32 n ≡ pos n
unfolding as_i32
as_i32-small n h = ground arith

-- In range nothing wraps.
pub to_i32_exact : (z : ℤ) → IsI32 z → to_i32 z ≡ z
unfolding to_i32
to_i32_exact (pos n) h = ground arith
to_i32_exact (negsuc n) h = ground arith

pub to_i32-IsI32 : (z : ℤ) → IsI32 (to_i32 z)
unfolding to_i32
to_i32-IsI32 (pos n) = ground arith
to_i32-IsI32 (negsuc n) = ground arith

pub add_i32_exact : (a b : ℤ) → IsI32 (a +ℤ b) → add_i32 a b ≡ a +ℤ b
add_i32_exact a b h = unfold add_i32 in to_i32_exact (a +ℤ b) h

pub sub_i32_exact : (a b : ℤ) → IsI32 (a -ℤ b) → sub_i32 a b ≡ a -ℤ b
sub_i32_exact a b h = unfold sub_i32 in to_i32_exact (a -ℤ b) h

-- A step and the step back, wrapped around or not.
pub add_i32-sub_i32 :
    (a : ℤ)
    → IsI32 a
    → (add_i32 (add_i32 a (pos 1)) (negsuc 0) ≡ a) × (add_i32 (add_i32 a (negsuc 0)) (pos 1) ≡ a)
unfolding add_i32
add_i32-sub_i32 (pos n) h = ground arith
add_i32-sub_i32 (negsuc n) h = ground arith

pub sub_i32-sub_i32 :
    (a : ℤ)
    → IsI32 a
    → (sub_i32 (sub_i32 a (pos 1)) (negsuc 0) ≡ a) × (sub_i32 (sub_i32 a (negsuc 0)) (pos 1) ≡ a)
unfolding sub_i32
sub_i32-sub_i32 (pos n) h = ground arith
sub_i32-sub_i32 (negsuc n) h = ground arith
