-- ===== src/Tests/Battle.antt =====
-- Shots, moves and missiles on the small fleet.
use battleship_plus.Base.{nat_eq, nat_pair_eq, ◌≡◌, ◌≤◌, refl, arith, some, [], ◌∷◌, true, false}
use battleship_plus.Base.Int.{pos}
use battleship_plus.Base.Words.{as_i32, to_i32, add_i32, sub_i32, abs_i32}
use battleship_plus.Base.Collections.{get, contains}
use battleship_plus.Base.Collections
use battleship_plus.Rstar.Model.{boxes}
use battleship_plus.Types.{forward, clockwise, ok, panic, is_ok}
use battleship_plus.ShipTree.{node_of}
use battleship_plus.Ship
use battleship_plus.Ship.{
  Ship, ability, apply_damage, envelope, health, ship_data, set_data, set_cool_downs, cool_downs,
  common_balancing, len, position, orientation, get_envelope, get_envelope_with_orientation,
  distance, ship_distance,
}
use battleship_plus.ShipManager.{ShipManager, forget_ship, put_ship, as_point}
use battleship_plus.ShipManager.Sync.{InSync}
use battleship_plus.Actions.{
  attack_with_ship, move_ship, rotate_ship, aim, charge, find_ship, check_cooldown, check_points,
  cannon_rounds, ability_rounds,
}
use battleship_plus.Actions.Agreement.{move_ship-InSync, rotate_ship-InSync}
use battleship_plus.Actions.Shots.{Attacks, attack_with_ship-Attacks}
use battleship_plus.Abilities.{
  AreaOfEffect, predator_missile, check_predator_missile, check_ability, as_battleship, around,
  ids_in, strike, strike_area,
}
use battleship_plus.Abilities.Strikes.{StrikesArea, strike-ids_in}
use battleship_plus.Abilities.Missile.{predator_missile_wreck}
use battleship_plus.Tests.Fixture.{
  index, costs, common, fleet, fleet-Sound, raider, flagship, board,
}

attack_with_ship-Attacks_example :
    Attacks 5 (1, 0) (8, 9) board fleet (attack_with_ship 5 (1, 0) (8, 9) board fleet)
attack_with_ship-Attacks_example =
    attack_with_ship-Attacks 5 (1, 0) (8, 9) board fleet (fleet-Sound.0)

move_ship-InSync_example :
    InSync (move_ship 5 true (3, 0) forward board fleet).1.0
    × (is_ok (move_ship 5 true (3, 0) forward board fleet).0 ≡ false
        → (move_ship 5 true (3, 0) forward board fleet).1 ≡ (fleet, 5))
move_ship-InSync_example = move_ship-InSync 5 true (3, 0) forward board fleet (fleet-Sound.0)

rotate_ship-InSync_example :
    InSync (rotate_ship 5 (3, 0) clockwise board fleet).1.0
    × (is_ok (rotate_ship 5 (3, 0) clockwise board fleet).0 ≡ false
        → (rotate_ship 5 (3, 0) clockwise board fleet).1 ≡ (fleet, 5))
rotate_ship-InSync_example = rotate_ship-InSync 5 (3, 0) clockwise board fleet (fleet-Sound.0)

strike-ids_in_example : StrikesArea 30 board fleet
strike-ids_in_example = strike-ids_in 30 board fleet (fleet-Sound.0)

-- A missile at the second destroyer, which sinks both.
abbrev blast : AreaOfEffect
blast = record {
  hit_ships = [];
  destroyed_ships = (apply_damage 40 (raider 3 9 8)).1 ∷ (apply_damage 40 (raider 2 8 8)).1 ∷ [];
  damage_per_hit = 40;
  area = record { low = (pos 8, pos 8); high = (pos 10, pos 10) };
}

abbrev after : ShipManager
after =
    forget_ship (2, 0) (forget_ship (3, 0) (put_ship (1, 0) (charge ability costs flagship) fleet))

launched : predator_missile 10 (1, 0) (pos 9, pos 9) board fleet ≡ (ok blast, (after, 7))
unfolding predator_missile check_predator_missile check_ability find_ship check_cooldown
    check_points ability_rounds as_battleship around ids_in strike strike_area apply_damage envelope
    ship_data set_data set_cool_downs cool_downs len position orientation get_envelope
    get_envelope_with_orientation distance ship_distance charge get Collections.insert
    Collections.remove as_i32 to_i32 add_i32 sub_i32 abs_i32 node_of Ship.id
launched = refl

aimed :
    aim 7 (1, 0) (as_point (8, 8)) board after ≡ ok (charge ability costs flagship, common, costs)
unfolding aim find_ship check_cooldown check_points cannon_rounds envelope ship_data set_cool_downs
    cool_downs common_balancing len position orientation get_envelope get_envelope_with_orientation
    distance ship_distance charge get Collections.insert Collections.remove as_point as_i32 to_i32
    add_i32 sub_i32 abs_i32
aimed = refl

target_known : get (2, 0) fleet.ships ≡ some (raider 2 8 8)
unfolding get
target_known = refl

target_covered : boxes.contains_point (envelope (raider 2 8 8)) (as_point (8, 8)) ≡ true
unfolding envelope ship_data len position orientation get_envelope get_envelope_with_orientation
    as_point as_i32 to_i32 add_i32 sub_i32
target_covered = refl

target_struck : boxes.intersects blast.area (envelope (raider 2 8 8)) ≡ true
unfolding envelope ship_data len position orientation get_envelope get_envelope_with_orientation
    to_i32 add_i32 sub_i32
target_struck = refl

target_weak : health (raider 2 8 8) ≤ 40
unfolding health ship_data
target_weak = omega arith

predator_missile_wreck_example : (attack_with_ship 7 (1, 0) (8, 8) board after).0 ≡ panic
predator_missile_wreck_example =
    predator_missile_wreck 10 (1, 0) (2, 0) (pos 9, pos 9) board fleet after blast 7 (raider 2 8 8)
      (8, 8) (fleet-Sound.0) (fleet-Sound.1) launched target_known (ground arith) target_struck
      target_weak target_covered 7 (1, 0) board (charge ability costs flagship) common costs aimed
