-- ===== src/Tests/Fixture.antt =====
-- A battleship and two destroyers on a board of 24 by 24 tiles, and what the calls of the ship
-- manager make of them.
use battleship_plus.Base.{nat_eq, nat_pair_eq, ℕ, ◌≡◌, refl, arith, some, [], ◌∷◌}
use battleship_plus.Base.Int.{pos}
use battleship_plus.Base.Words.{to_i32, add_i32, sub_i32}
use battleship_plus.Base.Collections
use battleship_plus.Base.Collections.{get}
use battleship_plus.Rstar.Model.{boxes, Box, lists}
use battleship_plus.Types.{Costs, CommonBalancing, ShipId}
use battleship_plus.ShipTree.{node_of, Index, same_node, same_node_iff}
use battleship_plus.Ship
use battleship_plus.Ship.{
  Ship, ShipData, north, battleship, destroyer, envelope, ship_data, len, position, orientation,
  get_envelope, get_envelope_with_orientation,
}
use battleship_plus.ShipManager.{ShipManager, new, place_ship}
use battleship_plus.ShipManager.Sync.{InSync, new-InSync}
use battleship_plus.ShipManager.Placement.{Apart, place_ship-Apart}

instance abbrev pub index : Index
index = lists same_node same_node_iff (λ n. n.envelope)

abbrev pub costs : Costs
costs = record { cooldown = 2; action_points = 3 }

abbrev pub common : CommonBalancing
common = record {
  shoot_costs = some costs;
  shoot_range = 16;
  shoot_damage = 20;
  movement_costs = some costs;
  rotation_costs = some costs;
  ability_costs = some costs;
  vision_range = 8;
  initial_health = 100;
}

abbrev pub flagship : Ship
flagship =
    battleship
      (record {
        common_balancing = some common;
        predator_missile_range = 20;
        predator_missile_radius = 1;
        predator_missile_damage = 40;
      })
      (record { id = (1, 0); pos_x = pos 2; pos_y = pos 3; orientation = north; health = 100 }) []

-- A destroyer of a player with its stern at a tile.
abbrev pub raider : ℕ → ℕ → ℕ → Ship
raider player x y =
    destroyer
      (record {
        common_balancing = some common;
        multi_missile_radius = 1;
        multi_missile_damage = 5;
      })
      (record { id = (player, 0); pos_x = pos x; pos_y = pos y; orientation = north; health = 30 })
      []

abbrev pub board : Box
board = record { low = (pos 0, pos 0); high = (pos 23, pos 23) }

-- The fleet of the three ships.
abbrev pub fleet : ShipManager
fleet = record {
  ships = ((1, 0), flagship) ∷ ((2, 0), raider 2 8 8) ∷ ((3, 0), raider 3 9 8) ∷ [];
  ships_geo_lookup = node_of (raider 3 9 8) ∷ node_of (raider 2 8 8) ∷ node_of flagship ∷ [];
}

-- What the ship manager keeps.
abbrev pub Sound : ShipManager → Type 0
Sound m = InSync m × Apart m

empty-Sound : Sound new
unfolding new get
empty-Sound = (new-InSync, λ i j s t h. absurd (ground arith))

place-Sound :
    (i : ShipId) (s : Ship) (m : ShipManager) → Ship.id s ≡ i → Sound m → Sound (place_ship i s m).1
place-Sound i s m e (v, apart) = place_ship-Apart i s m e v apart

pub raider-id : (player x y : ℕ) → Ship.id (raider player x y) ≡ (player, 0)
unfolding Ship.id ship_data
raider-id player x y = refl

flagship-id : Ship.id flagship ≡ (1, 0)
unfolding Ship.id ship_data
flagship-id = refl

-- The fleet comes from three placements on an empty board.
fleet_placed :
    (place_ship
      (3, 0)
      (raider 3 9 8)
      (place_ship (2, 0) (raider 2 8 8) (place_ship (1, 0) flagship new).1).1).1
    ≡ fleet
unfolding place_ship new get Collections.insert node_of envelope Ship.id len position orientation
    get_envelope get_envelope_with_orientation ship_data sub_i32 add_i32 to_i32
fleet_placed = refl

pub fleet-Sound : Sound fleet
fleet-Sound = rw fleet_placed at (
    place-Sound (3, 0) (raider 3 9 8) _ (raider-id 3 9 8)
      (place-Sound (2, 0) (raider 2 8 8) _ (raider-id 2 8 8)
        (place-Sound (1, 0) flagship new flagship-id empty-Sound)))
