-- ===== src/Tests/Vessels.antt =====
-- Single ships: tiles, sight, moves and damage.
use battleship_plus.Base.{ℕ, ◌-◌, ◌≡◌, ◌↔◌, refl, arith, some, true, if◌then◌else◌}
use battleship_plus.Base.Int.{pos, negsuc, ◌≤ℤ◌, ◌<ℤ◌, int_laws}
use battleship_plus.Base.Words.{as_i32, to_i32, add_i32, sub_i32, IsI32}
use battleship_plus.Rstar.Model.{boxes}
use battleship_plus.Types.{forward, backward, clockwise, counter_clockwise, ok, err, out_of_map}
use battleship_plus.Ship.{
  position, orientation, health, apply_damage, envelope, ship_data, set_data, set_position,
  set_orientation, moved_position, step_of, rotated, len, get_envelope,
  get_envelope_with_orientation, do_move, do_rotation, vision_range, vision_envelope,
  common_balancing, ship_distance,
}
use battleship_plus.Ship.Damage.{with_health, apply_damage_lem}
use battleship_plus.Ship.Steering.{moved, turned, do_move-do_move, do_rotation-do_rotation}
use battleship_plus.Ship.Steps.{stepped, do_move_lem}
use battleship_plus.Ship.Tiles.{ahead, envelope-tiles}
use battleship_plus.Ship.Range.{IsTame, ship_distance-contains_point, vision_envelope-ship_distance}
use battleship_plus.Tests.Fixture.{flagship, board}

apply_damage_lem_example :
    ((apply_damage 40 flagship).1 ≡ with_health (health flagship - 40) flagship)
    × (((apply_damage 40 flagship).0 ≡ true) ↔ (health (apply_damage 40 flagship).1 ≡ 0))
apply_damage_lem_example = apply_damage_lem 40 flagship

do_move_lem_example : do_move forward board flagship ≡ (
    if boxes.contains_envelope board (envelope (stepped forward flagship))
    then (ok (envelope (stepped forward flagship)), stepped forward flagship)
    else (err out_of_map, flagship))
do_move_lem_example =
    do_move_lem board forward flagship
      (unfold position ship_data in (omega int_laws, omega int_laws))
      (unfold position ship_data in (omega int_laws, omega int_laws))

envelope-tiles_example : (boxes.contains_point (envelope flagship) (pos 2, pos 5) ≡ true) ↔ (
    (k : ℕ) × (pos k <ℤ len flagship)
    × ((pos 2, pos 5) ≡ ahead (orientation flagship) (position flagship) k))
envelope-tiles_example =
    envelope-tiles flagship (pos 2, pos 5)
      (unfold position ship_data in (omega int_laws, omega int_laws))
      (unfold position ship_data in (omega int_laws, omega int_laws))

flagship-IsTame : IsTame (envelope flagship)
unfolding envelope ship_data len position orientation get_envelope get_envelope_with_orientation
    to_i32 add_i32 sub_i32
flagship-IsTame = record {
  low_x = (omega int_laws, omega int_laws);
  low_y = (omega int_laws, omega int_laws);
  high_x = (omega int_laws, omega int_laws);
  high_y = (omega int_laws, omega int_laws);
  ordered_x = omega int_laws;
  ordered_y = omega int_laws;
}

ship_distance-contains_point_example :
    (ship_distance (envelope flagship) (pos 2, pos 5) ≤ℤ pos 0)
    ↔ (boxes.contains_point (envelope flagship) (pos 2, pos 5) ≡ true)
ship_distance-contains_point_example =
    ship_distance-contains_point (envelope flagship) (pos 2, pos 5) flagship-IsTame
      (omega int_laws, omega int_laws) (omega int_laws, omega int_laws)

flagship_moves :
    do_move forward board flagship
    ≡ (ok (record { low = (pos 2, pos 4); high = (pos 2, pos 7) }), moved flagship forward)
unfolding do_move moved_position step_of set_position set_data envelope ship_data len position
    orientation get_envelope get_envelope_with_orientation to_i32 add_i32 sub_i32
flagship_moves = refl

flagship_turns :
    do_rotation clockwise board flagship
    ≡ (ok (record { low = (pos 2, pos 3); high = (pos 5, pos 3) }), turned flagship clockwise)
unfolding do_rotation rotated set_orientation set_data envelope ship_data len position orientation
    get_envelope get_envelope_with_orientation to_i32 add_i32 sub_i32
flagship_turns = refl

flagship_x : IsI32 (position flagship).0
unfolding position ship_data
flagship_x = (omega int_laws, omega int_laws)

flagship_y : IsI32 (position flagship).1
unfolding position ship_data
flagship_y = (omega int_laws, omega int_laws)

flagship_on_board : boxes.contains_envelope board (envelope flagship) ≡ true
unfolding envelope ship_data len position orientation get_envelope get_envelope_with_orientation
    to_i32 add_i32 sub_i32
flagship_on_board = refl

do_move-do_move_example :
    do_move backward board (moved flagship forward) ≡ (ok (envelope flagship), flagship)
do_move-do_move_example =
    do_move-do_move board (record { low = (pos 2, pos 4); high = (pos 2, pos 7) }) flagship
      (moved flagship forward) forward flagship_x flagship_y flagship_on_board flagship_moves

do_rotation-do_rotation_example :
    do_rotation counter_clockwise board (turned flagship clockwise)
    ≡ (ok (envelope flagship), flagship)
do_rotation-do_rotation_example =
    do_rotation-do_rotation board (record { low = (pos 2, pos 3); high = (pos 5, pos 3) }) flagship
      (turned flagship clockwise) clockwise flagship_on_board flagship_turns

flagship_range : vision_range flagship ≡ some 8
unfolding vision_range common_balancing
flagship_range = refl

flagship_sight :
    vision_envelope flagship ≡ some (record { low = (negsuc 5, negsuc 4); high = (pos 10, pos 14) })
unfolding vision_envelope vision_range common_balancing envelope ship_data len position orientation
    get_envelope get_envelope_with_orientation as_i32 to_i32 add_i32 sub_i32
flagship_sight = refl

vision_envelope-ship_distance_example :
    (boxes.contains_point
        (record { low = (negsuc 5, negsuc 4); high = (pos 10, pos 14) })
        (pos 9, pos 9)
      ≡ true)
    ↔ (ship_distance (envelope flagship) (pos 9, pos 9) ≤ℤ pos 8)
vision_envelope-ship_distance_example =
    vision_envelope-ship_distance flagship 8
      (record { low = (negsuc 5, negsuc 4); high = (pos 10, pos 14) }) (pos 9, pos 9)
      flagship-IsTame (omega arith) (omega int_laws, omega int_laws)
      (omega int_laws, omega int_laws) flagship_range flagship_sight
