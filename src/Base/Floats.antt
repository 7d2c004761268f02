-- ===== src/Base/Floats.antt =====
-- The `f64` numbers that the square root of a whole number goes through.
use battleship_plus.Base.Tests.{leb, ltb, if◌then◌else◌}
use Prim.Native.Nat.{ℕ, zero, suc, ◌+◌, ◌-◌, ◌*◌, ◌/◌, ◌^◌}

-- A number that is not negative: the mantissa divided by the unit, a power of two. The mantissa has
-- at most 53 binary digits.
pub record F64 : Type 0 where
  pub mantissa : ℕ
  pub unit : ℕ

-- The root of a number of at most `k` pairs of binary digits, rounded down.
unfoldable pub next_digit : ℕ → ℕ → ℕ
next_digit r n = if leb ((r + 1) * (r + 1)) n then r + 1 else r

unfoldable pub root : ℕ → ℕ → ℕ
unfolding next_digit
root zero n = 0
root (suc k) n = next_digit (2 * root k (n / 4)) n

-- The unit for which a number with the whole part `w` has a mantissa of 53 binary digits, from the
-- unit `u` on, in at most `k` steps.
unfoldable pub unit_of : ℕ → ℕ → ℕ → ℕ
unit_of zero w u = u
unit_of (suc k) w u = let later = unit_of k w (2 * u) in if leb (2 ^ 52) (w * u) then u else later

-- The number next to the root of `n`, which lies nowhere in the middle between two.
unfoldable pub nearest_root : ℕ → ℕ
unfolding root
nearest_root n = let r = root 70 n in if ltb r (n - r * r) then r + 1 else r

-- `f64::sqrt` of a whole number below 2^32, rounded to the nearest `f64`.
unfoldable pub sqrt : ℕ → F64
unfolding unit_of nearest_root
sqrt n =
    let u = unit_of 52 (root 70 n) 1 in record { mantissa = nearest_root (n * (u * u)); unit = u }

-- `f64::ceil`, as a whole number.
unfoldable pub ceil : F64 → ℕ
ceil x = (x.mantissa + (x.unit - 1)) / x.unit

-- `as u32`, which stops at the greatest `u32`.
unfoldable pub to_u32 : ℕ → ℕ
to_u32 n = if ltb n (2 ^ 32) then n else 2 ^ 32 - 1
