-- ===== src/Ship/Steps.antt =====
-- Moves on the plane.
use battleship_plus.Base.{◌≡◌, ◌-◌, ◌^◌, refl, if◌then◌else◌, arith}
use battleship_plus.Base.Int.{ℤ, pos, negsuc, ◌+ℤ◌, ◌-ℤ◌, ◌≤ℤ◌, int_laws}
use battleship_plus.Base.Words.{add_i32, sub_i32, add_i32_exact, sub_i32_exact}
use battleship_plus.Rstar.{Point, Geometry}
use battleship_plus.Types.{MoveDirection, forward, backward, out_of_map, ok, err}
use battleship_plus.Ship.{
  Ship, Orientation, north, south, east, west, carrier, battleship, cruiser, submarine, destroyer,
  position, orientation, set_position, moved_position, step_of, envelope, do_move, ship_data,
  set_data,
}
use battleship_plus.Ship.Steering.{do_move_cases}

-- The tile in front of or behind a tile.
abbrev pub neighbour : MoveDirection → Orientation → Point → Point
neighbour forward north (x, y) = (x, y +ℤ pos 1)
neighbour forward south (x, y) = (x, y -ℤ pos 1)
neighbour forward east (x, y) = (x +ℤ pos 1, y)
neighbour forward west (x, y) = (x -ℤ pos 1, y)
neighbour backward north (x, y) = (x, y -ℤ pos 1)
neighbour backward south (x, y) = (x, y +ℤ pos 1)
neighbour backward east (x, y) = (x -ℤ pos 1, y)
neighbour backward west (x, y) = (x +ℤ pos 1, y)

-- A ship that differs in its position only.
abbrev pub at_tile : Point → Ship → Ship
at_tile p (carrier b d c) = carrier b (record d { pos_x = p.0; pos_y = p.1 }) c
at_tile p (battleship b d c) = battleship b (record d { pos_x = p.0; pos_y = p.1 }) c
at_tile p (cruiser b d c) = cruiser b (record d { pos_x = p.0; pos_y = p.1 }) c
at_tile p (submarine b d c) = submarine b (record d { pos_x = p.0; pos_y = p.1 }) c
at_tile p (destroyer b d c) = destroyer b (record d { pos_x = p.0; pos_y = p.1 }) c

-- The ship at the tile in front of it or behind it.
abbrev pub stepped : MoveDirection → Ship → Ship
stepped d s = at_tile (neighbour d (orientation s) (position s)) s

-- Away from the ends of the `i32` range.
abbrev pub IsInner : ℤ → Type 0
IsInner z = (negsuc (2 ^ 31 - 2) ≤ℤ z) × (z ≤ℤ pos (2 ^ 31 - 2))

set_position-at_tile : (p : Point) (s : Ship) → set_position p.0 p.1 s ≡ at_tile p s
unfolding set_position ship_data set_data
set_position-at_tile p (carrier b d c) = refl
set_position-at_tile p (battleship b d c) = refl
set_position-at_tile p (cruiser b d c) = refl
set_position-at_tile p (submarine b d c) = refl
set_position-at_tile p (destroyer b d c) = refl

add_one : (z : ℤ) → IsInner z → add_i32 z (pos 1) ≡ z +ℤ pos 1
add_one z h = add_i32_exact z (pos 1) (omega int_laws, omega int_laws)

add_minus_one : (z : ℤ) → IsInner z → add_i32 z (negsuc 0) ≡ z -ℤ pos 1
unfolding ◌-ℤ◌ ◌+ℤ◌
add_minus_one z h = add_i32_exact z (negsuc 0) (omega int_laws, omega int_laws)

sub_one : (z : ℤ) → IsInner z → sub_i32 z (pos 1) ≡ z -ℤ pos 1
sub_one z h = sub_i32_exact z (pos 1) (omega int_laws, omega int_laws)

sub_minus_one : (z : ℤ) → IsInner z → sub_i32 z (negsuc 0) ≡ z +ℤ pos 1
unfolding ◌+ℤ◌ ◌-ℤ◌
sub_minus_one z h = sub_i32_exact z (negsuc 0) (omega int_laws, omega int_laws)

moved_position-neighbour :
    (d : MoveDirection) (o : Orientation) (x y : ℤ)
    → IsInner x
    → IsInner y
    → moved_position o (step_of d) (x, y) ≡ neighbour d o (x, y)
unfolding moved_position step_of
moved_position-neighbour d o x y hx hy = ground (
  arith,
  add_one x hx,
  add_one y hy,
  add_minus_one x hx,
  add_minus_one y hy,
  sub_one x hx,
  sub_one y hy,
  sub_minus_one x hx,
  sub_minus_one y hy,
)

module _ ⦃g : Geometry⦄ where
  open g use {Aabb, contains_envelope}

  -- For a ship whose position is away from the ends of the i32 range, a move puts it on the next
  -- tile, ahead of it for a move forward and behind it for a move backward, if its envelope there
  -- is within the bounds, and changes nothing else; otherwise the move is refused with the ship as
  -- it was.
  pub do_move_lem :
      (bounds : Aabb) (d : MoveDirection) (s : Ship)
      → IsInner (position s).0
      → IsInner (position s).1
      → do_move d bounds s ≡ (
          if contains_envelope bounds (envelope (stepped d s))
          then (ok (envelope (stepped d s)), stepped d s)
          else (err out_of_map, s))
  do_move_lem bounds d s hx hy =
      rw
        (
          ← set_position-at_tile (neighbour d (orientation s) (position s)) s,
          ← moved_position-neighbour d (orientation s) (position s).0 (position s).1 hx hy,
        )
        (do_move_cases s bounds d)
