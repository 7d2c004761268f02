-- ===== src/Board.antt =====
-- The division of the board into the quadrants of the players: crates/battleship_plus_common/src/lib.rs
-- (module `util`) and crates/battleship_plus_server/src/game/data.rs. A division by zero, which
-- panics, is `none`.
pub mod Rows
pub mod Cells
pub mod Corners
use battleship_plus.Base.{
  ℕ, zero, suc, ◌*◌, ◌/◌, Option, none, some, List, [], ◌∷◌, Bool, true, false,
}
use battleship_plus.Base.{map, flat_map, if◌then◌else◌, leb, nat_beq}
use battleship_plus.Base.Int.{pos}
use battleship_plus.Base.Words.{as_i32, add_u32, sub_u32, mul_u32}
use battleship_plus.Base.Floats.{sqrt, ceil, to_u32}
use battleship_plus.Rstar.{Geometry}
use battleship_plus.Types.{Config}

-- `(player_count as f64).sqrt().ceil() as u32`
unfoldable pub quadrants_per_row : ℕ → ℕ
unfolding sqrt ceil to_u32
quadrants_per_row player_count = to_u32 (ceil (sqrt player_count))

unfoldable pub quadrant_size : ℕ → ℕ → Option ℕ
quadrant_size board_size player_count =
    let r = quadrants_per_row player_count in if nat_beq r 0 then none else some (board_size / r)

-- `0..n`
unfoldable pub below : ℕ → List ℕ
below zero = []
below (suc n) = 0 ∷ map suc (below n)

-- The corner and the size of a quadrant.
abbrev pub Quadrant : Type 0
Quadrant = ℕ × ℕ × ℕ

unfoldable pub player_count : Config → ℕ
player_count config = add_u32 config.team_size_a config.team_size_b

unfoldable pub tile_offset : ℕ → ℕ → ℕ → ℕ
tile_offset board_size r size = sub_u32 board_size (mul_u32 r size) / 2

unfoldable pub quadrants : Config → Option (List Quadrant)
unfolding player_count tile_offset below
quadrants config = elim (quadrant_size config.board_size (player_count config)) [
  | none ↦ none
  | some size ↦
      let r = quadrants_per_row (player_count config) in
      let offset = tile_offset config.board_size r size in
      some (
        flat_map
          (λ x.
            map (λ y. (add_u32 offset (mul_u32 x size), add_u32 offset (mul_u32 y size), size))
              (below r))
          (below r))
]

-- Whether the board has room for all players.
unfoldable pub check_game_config : Config → Option Bool
unfolding player_count
check_game_config config = elim (quadrant_size config.board_size (player_count config)) [
  | none ↦ none
  | some size ↦ some (if nat_beq size 0 then false else true)
]

module _ ⦃g : Geometry⦄ where
  open g use {Aabb, from_corners}

  unfoldable pub board_bounds : Config → Aabb
  board_bounds config =
      let end = as_i32 (sub_u32 config.board_size 1) in from_corners (pos 0, pos 0) (end, end)

  unfoldable pub quadrant_from_corner : ℕ × ℕ → ℕ → Aabb
  quadrant_from_corner corner size =
      from_corners (as_i32 corner.0, as_i32 corner.1)
        (as_i32 (sub_u32 (add_u32 corner.0 size) 1), as_i32 (sub_u32 (add_u32 corner.1 size) 1))
