-- ===== src/Board/Rows.antt =====
-- How many quadrants stand in a row.
use battleship_plus.Base.{
  ℕ, zero, suc, ◌+◌, ◌-◌, ◌*◌, ◌/◌, ◌^◌, ◌≤◌, ◌<◌, ◌≡◌, ◌⊎◌, refl, sym, arith, false, leb, ltb,
  Bool-cases, inl, inr,
}
use native.Mathlib.Nat.{
  suc-mul, mul-lt-mul_of_pos_right, mul-le-mul, mul-le-mul_right, mul-le-mul_left, mul-mul-mul_comm,
  div-mul-le_self, lt-div-mul-add, pow-suc, mul_assoc,
}
use battleship_plus.Base.Floats.{root, next_digit, unit_of, nearest_root, sqrt, ceil, to_u32}
use battleship_plus.Board.{quadrants_per_row}

-- The root of a number, rounded down.
abbrev IsRoot : ℕ → ℕ → Type 0
IsRoot n r = (r * r ≤ n) × (n < (r + 1) * (r + 1))

digit_lem : (n r : ℕ) → r * r ≤ n / 4 → n / 4 < (r + 1) * (r + 1) → IsRoot n (next_digit (2 * r) n)
unfolding next_digit
digit_lem n r low high = elim (Bool-cases (leb ((2 * r + 1) * (2 * r + 1)) n)) [
  | inl e ↦ rw e (ground arith, grind arith)
  | inr e ↦ rw e (grind arith, ground arith)
]

root_lem : (k n : ℕ) → n < 4 ^ k → IsRoot n (root k n)
unfolding root
root_lem zero n h = (omega arith, omega arith)
root_lem (suc k) n h =
    let (low, high) = root_lem k (n / 4) (omega (arith, pow-suc 4 k)) in
    digit_lem n (root k (n / 4)) low high

power_pos : (k : ℕ) → 0 < 2 ^ k
power_pos zero = omega arith
power_pos (suc k) = omega (arith, pow-suc 2 k, power_pos k)

at_least : (k u : ℕ) → u ≤ 2 ^ k * u
at_least k u = omega (arith, mul-le-mul_right u (power_pos k))

-- The unit is at most the greatest one, and less only if it makes the number large.
unit_lem :
    (k w u : ℕ)
    → 0 < u
    → (0 < unit_of k w u)
      × (unit_of k w u ≤ 2 ^ k * u)
      × ((2 ^ 52 ≤ w * unit_of k w u) ⊎ (unit_of k w u ≡ 2 ^ k * u))
unfolding unit_of
unit_lem zero w u h = (omega arith, omega arith, inr (omega arith))
unit_lem (suc k) w u h =
    let (positive, small, large) = unit_lem k w (2 * u) (omega arith) in
    let same : 2 ^ k * (2 * u) ≡ 2 ^ suc k * u = rw (pow-suc 2 k) (sym (mul_assoc (2 ^ k) 2 u)) in
    elim (Bool-cases (leb (2 ^ 52) (w * u))) [
      | inl e ↦ rw e (omega arith, at_least (suc k) u, inl (ground arith))
      | inr e ↦ rw e (rw (← same) (positive, small, large))
    ]

nearest_lem :
    (n : ℕ)
    → n < 4 ^ 70
    → (r : ℕ) × IsRoot n r
      × ((nearest_root n ≡ r) × (n ≤ r * r + r) ⊎ (nearest_root n ≡ r + 1) × (r * r + r < n))
unfolding nearest_root
nearest_lem n h =
    let found = root_lem 70 n h in
    (
      root 70 n,
      found,
      elim (Bool-cases (ltb (root 70 n) (n - root 70 n * root 70 n))) [
        | inl e ↦ inr (rw e refl, ground (arith, found))
        | inr e ↦ inl (rw e refl, ground (arith, found))
      ],
    )

-- What rounds up to a multiple of the unit.
ceil_lem : (m u : ℕ) → 0 < u → let c = (m + (u - 1)) / u in (m ≤ c * u) × (c * u < m + u)
ceil_lem m u h = (
  omega (arith, lt-div-mul-add {a = m + (u - 1)} h),
  omega (arith, div-mul-le_self (m + (u - 1)) u),
)

square_suc : (r : ℕ) → (r + 1) * (r + 1) ≡ r * r + (2 * r + 1)
square_suc r = grind arith

square_le : (a b : ℕ) → a ≤ b → a * a ≤ b * b
square_le a b h = mul-le-mul h h

of_square_lt : (a b : ℕ) → a * a < b * b → a < b
of_square_lt a b h = elim (Bool-cases (leb b a)) [
  | inl e ↦ absurd (omega (arith, square_le b a (ground arith)))
  | inr e ↦ ground arith
]

of_square_le : (a b : ℕ) → a * a ≤ b * b → a ≤ b
of_square_le a b h = elim (Bool-cases (leb a b)) [
  | inl e ↦ ground arith
  | inr e ↦ absurd (omega (arith, h, square_le (b + 1) a (ground arith), square_suc b))
]

full_lt : (n r : ℕ) → leb n (r * r) ≡ false → r * r < n
full_lt n r h = ground arith

-- A whole number lies between the roots of two squares as the numbers lie.
scaled_square : (a u : ℕ) → (a * u) * (a * u) ≡ (a * a) * (u * u)
scaled_square a u = mul-mul-mul_comm a u a u

module _ (n u m r : ℕ) where
  -- No square of a smaller number reaches the number.
  too_small :
      (c k : ℕ)
      → IsRoot (n * (u * u)) r
      → (m ≡ r) ⊎ (m ≡ r + 1) × (r * r + r < n * (u * u))
      → k * u < m
      → k * k < n
  too_small c k (low, high) near above = elim (Bool-cases (leb n (k * k))) [
    | inl e ↦
        let reaches : n * (u * u) ≤ (k * u) * (k * u) =
          rw (scaled_square k u) (mul-le-mul_right (u * u) (ground arith)) in
        let less : r ≤ k * u = of_square_le r (k * u) (omega (arith, low, reaches)) in
        absurd (elim near [
          | inl q ↦ omega (arith, q, less, above)
          | inr (q, over) ↦
              omega (arith, q, over, reaches, square_le (k * u) r (omega (arith, q, above)))
        ])
    | inr e ↦ ground arith
  ]

  -- The square of what the root rounds up to reaches the number.
  large_enough :
      (c : ℕ)
      → IsRoot (n * (u * u)) r
      → (m ≡ r) × (n * (u * u) ≤ r * r + r) ⊎ (m ≡ r + 1)
      → m ≤ c * u
      → (c * c < n → c < u)
      → n ≤ c * c
  large_enough c (low, high) near below wide = elim (Bool-cases (leb n (c * c))) [
    | inl e ↦ ground arith
    | inr e ↦
        let beyond : (c * u) * (c * u) + u * u ≤ n * (u * u) =
          rw (scaled_square c u)
            (omega (arith, suc-mul (c * c) (u * u), mul-le-mul_right (u * u) (full_lt n c e))) in
        let under : c * u < r + 1 = of_square_lt (c * u) (r + 1) (omega (arith, high, beyond)) in
        let tight : c * u < u * u =
          mul-lt-mul_of_pos_right (wide (full_lt n c e)) (omega (arith, wide (full_lt n c e))) in
        absurd (elim near [
          | inl (q, over) ↦
              let equal : r ≡ c * u = omega (arith, q, under, below) in
              let squares = square_le r (c * u) (omega (arith, equal)) in
              omega (arith, over, beyond, squares, tight, equal)
          | inr q ↦ omega (arith, q, under, below)
        ])
  ]

-- A number whose square is the least of those that reach another number.
abbrev Reaches : ℕ → ℕ → Type 0
Reaches n c = (n ≤ c * c) × ((k : ℕ) → k < c → k * k < n)

rounded_up :
    (n u : ℕ)
    → n < 2 ^ 32
    → 0 < u
    → u ≤ 2 ^ 52
    → root 70 n < u
    → Reaches n (ceil (record { mantissa = nearest_root (n * (u * u)); unit = u }))
unfolding ceil
rounded_up n u h positive small wide =
    let least : n ≤ 2 ^ 32 = omega (arith, h) in
    let product : n * (u * u) ≤ 2 ^ 32 * (2 ^ 52 * 2 ^ 52) =
      mul-le-mul least (mul-le-mul small small) in
    let (r, found, near) = nearest_lem (n * (u * u)) (omega (arith, product)) in
    let m = nearest_root (n * (u * u)) in
    let c = (m + (u - 1)) / u in
    let (below, above) = ceil_lem m u positive in
    let (low, high) = root_lem 70 n (omega (arith, h)) in
    (
      large_enough n u m r c found (elim near [ inl x ↦ inl x | inr (q, over) ↦ inr q ]) below
          (λ less.
            let under = of_square_lt c (root 70 n + 1) (omega (arith, less, high)) in
            omega (arith, under, wide)),
      λ k less.
          too_small n u m r c k found (elim near [ inl (q, over) ↦ inl q | inr x ↦ inr x ])
            (omega (arith, above, suc-mul k u, mul-le-mul_right u less)),
    )

small_root : (n : ℕ) → n < 2 ^ 32 → root 70 n < 2 ^ 16
small_root n h =
    let (low, high) = root_lem 70 n (omega (arith, h)) in
    of_square_lt (root 70 n) (2 ^ 16) (omega (arith, low, h))

unit_wide : (n u : ℕ) → n < 2 ^ 32 → (2 ^ 52 ≤ root 70 n * u) ⊎ (u ≡ 2 ^ 52 * 1) → root 70 n < u
unit_wide n u h (inr e) = omega (arith, e, small_root n h)
unit_wide n u h (inl large) = elim (Bool-cases (leb u (root 70 n))) [
  | inl e ↦
      let (low, high) = root_lem 70 n (omega (arith, h)) in
      let over : root 70 n * u ≤ root 70 n * root 70 n =
        mul-le-mul_left (root 70 n) (ground arith) in
      absurd (omega (arith, large, over, low, h))
  | inr e ↦ ground arith
]

sqrt_lem : (n : ℕ) → n < 2 ^ 32 → Reaches n (ceil (sqrt n))
unfolding sqrt
sqrt_lem n h =
    let (positive, small, large) = unit_lem 52 (root 70 n) 1 (omega arith) in
    rounded_up n (unit_of 52 (root 70 n) 1) h positive (omega (arith, small))
      (unit_wide n (unit_of 52 (root 70 n) 1) h large)

fits : (n c : ℕ) → n < 2 ^ 32 → Reaches n c → to_u32 c ≡ c
unfolding to_u32
fits zero c h (room, least) = elim (Bool-cases (ltb c (2 ^ 32))) [
  | inl e ↦ rw e refl
  | inr e ↦ absurd (omega (arith, least 0 (ground arith)))
]
fits (suc n) c h (room, least) = elim (Bool-cases (ltb c (2 ^ 32))) [
  | inl e ↦ rw e refl
  | inr e ↦ absurd (omega (arith, h, least (2 ^ 16) (ground arith)))
]

-- For less than 2^32 players, rounding the root up, after it has been rounded to an f64, gives the
-- least number of quadrants in a row that suffices: its square is at least the number of players,
-- and that of any smaller number is not.
pub quadrants_per_row_lem :
    (n : ℕ)
    → n < 2 ^ 32
    → (n ≤ quadrants_per_row n * quadrants_per_row n)
      × ((k : ℕ) → k < quadrants_per_row n → k * k < n)
unfolding quadrants_per_row
quadrants_per_row_lem n h = rw (fits n (ceil (sqrt n)) h (sqrt_lem n h)) (sqrt_lem n h)
