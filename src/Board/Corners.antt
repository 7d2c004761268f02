-- ===== src/Board/Corners.antt =====
-- The quadrants lie on the board and do not overlap.
use battleship_plus.Base.{
  ℕ, ◌+◌, ◌-◌, ◌/◌, ◌%◌, ◌^◌, ◌≤◌, ◌<◌, ◌≡◌, ◌≢◌, arith, ◌⊎◌, some, List, ◌∈◌, true, false,
}
use battleship_plus.Base.Int.{pos}
use battleship_plus.Base.Words.{as_i32, as_i32-small, add_u32, sub_u32}
use battleship_plus.Rstar.{Geometry}
use battleship_plus.Types.{Config}
use battleship_plus.Board.{
  quadrants, check_game_config, quadrants_per_row, quadrant_from_corner, board_bounds, player_count,
  tile_offset, Quadrant,
}
use battleship_plus.Board.Cells.{
  Cell, grid-Cell, quadrants-grid, fits_board, cells-Separate, Cell-room, size_checked,
}

last_of : (n : ℕ) → 0 < n → n < 2 ^ 31 → as_i32 (sub_u32 n 1) ≡ pos (n - 1)
unfolding sub_u32
last_of n some_n h =
    let e : (n + 2 ^ 32 - 1) % 2 ^ 32 ≡ n - 1 = omega arith in
    rw e (as_i32-small (n - 1) (omega arith))

last_tile :
    (x size : ℕ)
    → 0 < size
    → x + size < 2 ^ 31
    → as_i32 (sub_u32 (add_u32 x size) 1) ≡ pos (x + size - 1)
unfolding add_u32
last_tile x size some_size h =
    let e : (x + size) % 2 ^ 32 ≡ x + size = omega arith in
    rw e (last_of (x + size) (omega arith) h)

module _ ⦃g : Geometry⦄ where
  open g use {
    lower, upper, intersects, contains_envelope, from_corners, lower-from_corners,
    upper-from_corners, contains_envelope_lem, intersects_lem,
  }

  box_corners :
      (a b c d : ℕ)
      → a ≤ c
      → b ≤ d
      → (lower (from_corners (pos a, pos b) (pos c, pos d)) ≡ (pos a, pos b))
        × (upper (from_corners (pos a, pos b) (pos c, pos d)) ≡ (pos c, pos d))
  box_corners a b c d h k =
      rw
        (
          lower-from_corners (pos a, pos b) (pos c, pos d),
          upper-from_corners (pos a, pos b) (pos c, pos d),
        )
        (ground arith, ground arith)

  quadrant_shape :
      (x y size : ℕ)
      → 0 < size
      → x + size < 2 ^ 31
      → y + size < 2 ^ 31
      → quadrant_from_corner (x, y) size
        ≡ from_corners (pos x, pos y) (pos (x + size - 1), pos (y + size - 1))
  unfolding quadrant_from_corner
  quadrant_shape x y size some_size hx hy = cc (
    last_tile x size some_size hx,
    last_tile y size some_size hy,
    as_i32-small x (omega arith),
    as_i32-small y (omega arith),
  )

  board_shape :
      (config : Config)
      → 0 < config.board_size
      → config.board_size < 2 ^ 31
      → board_bounds config
        ≡ from_corners (pos 0, pos 0) (pos (config.board_size - 1), pos (config.board_size - 1))
  unfolding board_bounds
  board_shape config some_board small = cc (last_of config.board_size some_board small)

  boxes_held :
      (n a b c d : ℕ)
      → a ≤ c
      → b ≤ d
      → c ≤ n
      → d ≤ n
      → contains_envelope
          (from_corners (pos 0, pos 0) (pos n, pos n))
          (from_corners (pos a, pos b) (pos c, pos d))
        ≡ true
  boxes_held n a b c d h k l o =
      let (u, v) = box_corners a b c d h k in
      let (x, y) = box_corners 0 0 n n (omega arith) (omega arith) in
      rw
        (
          contains_envelope_lem (from_corners (pos 0, pos 0) (pos n, pos n))
              (from_corners (pos a, pos b) (pos c, pos d)),
          u,
          v,
          x,
          y,
        )
        (ground arith)

  boxes_apart :
      (a b c d a' b' c' d' : ℕ)
      → a ≤ c
      → b ≤ d
      → a' ≤ c'
      → b' ≤ d'
      → (c < a') ⊎ (c' < a) ⊎ (d < b') ⊎ (d' < b)
      → intersects
          (from_corners (pos a, pos b) (pos c, pos d))
          (from_corners (pos a', pos b') (pos c', pos d'))
        ≡ false
  boxes_apart a b c d a' b' c' d' h k h' k' far =
      let (u, v) = box_corners a b c d h k in
      let (x, y) = box_corners a' b' c' d' h' k' in
      rw
        (
          intersects_lem (from_corners (pos a, pos b) (pos c, pos d))
              (from_corners (pos a', pos b') (pos c', pos d')),
          u,
          v,
          x,
          y,
        )
        (ground arith)

  -- On a board of less than 2^31 tiles a side, for a configuration that passes the check, each
  -- quadrant lies within the bounds of the board, and different quadrants do not meet.
  pub quadrants_lem :
      (config : Config) (qs : List Quadrant)
      → config.board_size < 2 ^ 31
      → check_game_config config ≡ some true
      → quadrants config ≡ some qs
      → ((q : Quadrant)
          → q ∈ qs
          → contains_envelope (board_bounds config) (quadrant_from_corner (q.0, q.1) q.2) ≡ true)
        × ((p q : Quadrant)
            → p ∈ qs
            → q ∈ qs
            → p ≢ q
            → intersects (quadrant_from_corner (p.0, p.1) p.2) (quadrant_from_corner (q.0, q.1) q.2)
              ≡ false)
  quadrants_lem config qs small fine h =
      let r = quadrants_per_row (player_count config) in
      let size = config.board_size / r in
      let offset = tile_offset config.board_size r size in
      let fits = fits_board config.board_size r small in
      let some_size : 0 < size = size_checked config fine in
      let cell : (q : Quadrant) → q ∈ qs → Cell offset size r q = λ q there.
        grid-Cell offset size r config.board_size q fits small
          (rw (quadrants-grid config qs h) at there) in
      (
        λ q there.
            let (rx, ry, sz) = Cell-room offset size r config.board_size q (cell q there) fits in
            rw
              (
                quadrant_shape q.0 q.1 q.2 (omega arith) (omega arith) (omega arith),
                board_shape config (omega arith) small,
              )
              (boxes_held (config.board_size - 1) q.0 q.1 (q.0 + q.2 - 1) (q.1 + q.2 - 1)
                (omega arith) (omega arith) (omega arith) (omega arith)),
        λ p q hp hq ne.
            let (rx, ry, sz) = Cell-room offset size r config.board_size q (cell q hq) fits in
            let (px, py, pz) = Cell-room offset size r config.board_size p (cell p hp) fits in
            let far = cells-Separate offset size r p q (cell p hp) (cell q hq) ne in
            rw
              (
                quadrant_shape q.0 q.1 q.2 (omega arith) (omega arith) (omega arith),
                quadrant_shape p.0 p.1 p.2 (omega arith) (omega arith) (omega arith),
              )
              (boxes_apart p.0 p.1 (p.0 + p.2 - 1) (p.1 + p.2 - 1) q.0 q.1 (q.0 + q.2 - 1)
                (q.1 + q.2 - 1) (omega arith) (omega arith) (omega arith) (omega arith)
                (ground arith)),
      )
