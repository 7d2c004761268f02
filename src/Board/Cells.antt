-- ===== src/Board/Cells.antt =====
-- The quadrants as cells of a grid, in numbers.
use battleship_plus.Base.{
  ℕ, zero, suc, ◌+◌, ◌*◌, ◌/◌, ◌^◌, ◌≤◌, ◌<◌, ◌≡◌, ◌≢◌, refl, ap, ◌∙◌, sym, arith, ◌⊎◌, inl, inr,
  Bool-cases, some, List, [], ◌∷◌, ◌++◌, map, flat_map, ◌∈◌, true, nat_beq, ltb,
}
use battleship_plus.Base.Words.{add_u32, sub_u32, mul_u32}
use battleship_plus.Types.{Config}
use native.Mathlib.Nat.{suc-mul, mul-le-mul_right, div-mul-le_self, mul_comm}
use battleship_plus.Board.{
  quadrants, check_game_config, quadrants_per_row, quadrant_size, player_count, tile_offset, below,
  Quadrant,
}

member-append : {B : Type 0} (y : B) (xs ys : List B) → y ∈ (xs ++ ys) → (y ∈ xs) ⊎ (y ∈ ys)
member-append y [] ys h = inr h
member-append y (x ∷ xs) ys (inl e) = inl (inl e)
member-append y (x ∷ xs) ys (inr h) = elim (member-append y xs ys h) [
  | inl a ↦ inl (inr a)
  | inr b ↦ inr b
]

module _ {A B : Type 0} where
  member-map : (f : A → B) (y : B) (xs : List A) → y ∈ map f xs → (x : A) × (x ∈ xs) × (y ≡ f x)
  member-map f y [] h = elim h [ ]
  member-map f y (x ∷ xs) (inl e) = (x, inl refl, e)
  member-map f y (x ∷ xs) (inr h) = let (z, there, e) = member-map f y xs h in (z, inr there, e)

  member-flat_map :
      (f : A → List B) (y : B) (xs : List A) → y ∈ flat_map f xs → (x : A) × (x ∈ xs) × (y ∈ f x)
  member-flat_map f y [] h = elim h [ ]
  member-flat_map f y (x ∷ xs) h = elim (member-append y (f x) (flat_map f xs) h) [
    | inl a ↦ (x, inl refl, a)
    | inr b ↦ let (z, there, e) = member-flat_map f y xs b in (z, inr there, e)
  ]

below-lt : (n x : ℕ) → x ∈ below n → x < n
unfolding below
below-lt zero x h = elim h [ ]
below-lt (suc n) x (inl e) = omega arith
below-lt (suc n) x (inr h) =
    let (z, there, e) = member-map suc x (below n) h in omega (arith, below-lt n z there)

-- A quadrant in a row and a column of a board, as numbers.
pub record Cell (offset size r : ℕ) (q : Quadrant) : Type 0 where
  pub column : ℕ
  pub row : ℕ
  pub column_in : column < r
  pub row_in : row < r
  pub corner_x : q.0 ≡ offset + column * size
  pub corner_y : q.1 ≡ offset + row * size
  pub sized : q.2 ≡ size

next_step : (x y size : ℕ) → x < y → x * size + size ≤ y * size
next_step x y size h = omega (arith, suc-mul x size, mul-le-mul_right {m = suc x} {n = y} size h)

exact :
    (offset x size r board : ℕ)
    → x < r
    → offset + r * size ≤ board
    → board < 2 ^ 31
    → add_u32 offset (mul_u32 x size) ≡ offset + x * size
unfolding add_u32 mul_u32
exact offset x size r board h fits small = omega (arith, next_step x r size h)

pub fits_board : (b r : ℕ) → b < 2 ^ 31 → tile_offset b r (b / r) + r * (b / r) ≤ b
unfolding tile_offset sub_u32 mul_u32
fits_board b r small = omega (arith, div-mul-le_self b r, mul_comm r (b / r))

-- The quadrants of a board, by columns.
unfoldable pub grid : ℕ → ℕ → ℕ → List Quadrant
grid offset size r =
    flat_map
      (λ x.
        map (λ y. (add_u32 offset (mul_u32 x size), add_u32 offset (mul_u32 y size), size))
          (below r))
      (below r)

pub grid-Cell :
    (offset size r board : ℕ) (q : Quadrant)
    → offset + r * size ≤ board
    → board < 2 ^ 31
    → q ∈ grid offset size r
    → Cell offset size r q
unfolding grid
grid-Cell offset size r board q fits small there =
    let (x, in_x, col) = member-flat_map _ q (below r) there in
    let (y, in_y, e) = member-map _ q (below r) col in
    let hx = below-lt r x in_x in
    let hy = below-lt r y in_y in
    record {
      column = x;
      row = y;
      column_in = hx;
      row_in = hy;
      corner_x = ap (λ (c : Quadrant). c.0) e ∙ exact offset x size r board hx fits small;
      corner_y = ap (λ (c : Quadrant). c.1) e ∙ exact offset y size r board hy fits small;
      sized = ap (λ (c : Quadrant). c.2) e;
    }

pub quadrants-grid :
    (config : Config) (qs : List Quadrant)
    → quadrants config ≡ some qs
    → let r = quadrants_per_row (player_count config) in
      let size = config.board_size / r in qs ≡ grid (tile_offset config.board_size r size) size r
unfolding quadrants quadrant_size grid
quadrants-grid config qs h =
    elim (Bool-cases (nat_beq (quadrants_per_row (player_count config)) 0)) [
      | inl e ↦ absurd (ground (arith, e))
      | inr e ↦ ground (arith, e)
    ]

-- One of two quadrants lies beside, above or below the other.
abbrev pub Separate : Quadrant → Quadrant → Type 0
Separate p q = (p.0 + p.2 ≤ q.0) ⊎ (q.0 + q.2 ≤ p.0) ⊎ (p.1 + p.2 ≤ q.1) ⊎ (q.1 + q.2 ≤ p.1)

pub cells-Separate :
    (offset size r : ℕ) (p q : Quadrant)
    → Cell offset size r p
    → Cell offset size r q
    → p ≢ q
    → Separate p q
cells-Separate offset size r p q c d ne = elim (Bool-cases (ltb c.column d.column)) [
  | inl h ↦ inl (step c.column d.column p.0 q.0 p.2 h c.corner_x d.corner_x c.sized)
  | inr h ↦ elim (Bool-cases (ltb d.column c.column)) [
    | inl k ↦ inr (inl (step d.column c.column q.0 p.0 q.2 k d.corner_x c.corner_x d.sized))
    | inr k ↦ elim (Bool-cases (ltb c.row d.row)) [
      | inl l ↦ inr (inr (inl (step c.row d.row p.1 q.1 p.2 l c.corner_y d.corner_y c.sized)))
      | inr l ↦ elim (Bool-cases (ltb d.row c.row)) [
        | inl o ↦ inr (inr (inr (step d.row c.row q.1 p.1 q.2 o d.corner_y c.corner_y d.sized)))
        | inr o ↦
            let same_column : c.column ≡ d.column = ground arith in
            let same_row : c.row ≡ d.row = ground arith in
            let x : p.0 ≡ q.0 =
              c.corner_x ∙ ap (λ n. offset + n * size) same_column ∙ sym d.corner_x in
            let y : p.1 ≡ q.1 =
              c.corner_y ∙ ap (λ n. offset + n * size) same_row ∙ sym d.corner_y in
            let z : p.2 ≡ q.2 = c.sized ∙ sym d.sized in absurd (ne (triple p q x y z))
      ]
    ]
  ]
]
  where
    step :
        (a b x y n : ℕ)
        → ltb a b ≡ true
        → x ≡ offset + a * size
        → y ≡ offset + b * size
        → n ≡ size
        → x + n ≤ y
    step a b x y n h ex ey en = omega (arith, next_step a b size (ground arith))

    triple : (p q : Quadrant) → p.0 ≡ q.0 → p.1 ≡ q.1 → p.2 ≡ q.2 → p ≡ q
    triple (a, b, n) (c, d, m) x y z = cc (x, y, z)

pub Cell-room :
    (offset size r board : ℕ) (q : Quadrant)
    → Cell offset size r q
    → offset + r * size ≤ board
    → (q.0 + q.2 ≤ board) × (q.1 + q.2 ≤ board) × (q.2 ≡ size)
Cell-room offset size r board q c fits = (
  omega (arith, next_step c.column r size c.column_in, c.corner_x, c.sized),
  omega (arith, next_step c.row r size c.row_in, c.corner_y, c.sized),
  c.sized,
)

-- A configuration that passes the check has quadrants of a size.
pub size_checked :
    (config : Config)
    → check_game_config config ≡ some true
    → 0 < config.board_size / quadrants_per_row (player_count config)
unfolding check_game_config quadrant_size
size_checked config h = elim (Bool-cases (nat_beq (quadrants_per_row (player_count config)) 0)) [
  | inl e ↦ absurd (ground (arith, e))
  | inr e ↦ ground (arith, e)
]
