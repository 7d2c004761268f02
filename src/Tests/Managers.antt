-- ===== src/Tests/Managers.antt =====
-- The ship manager on the small fleet.
use battleship_plus.Base.{
  nat_eq, nat_pair_eq, ◌≡◌, ◌≢◌, none, some, List, [], ◌∷◌, true, ◌⊎◌, if◌then◌else◌,
}
use battleship_plus.Base.Collections.{get}
use battleship_plus.Rstar.Model.{boxes}
use battleship_plus.Types.{ShipId}
use battleship_plus.Ship.{Ship}
use battleship_plus.ShipManager.{
  ShipManager, place_ship, destroy_ships, destroy_colliding_ships_in_envelope,
}
use battleship_plus.ShipManager.Sync.{InSync, destroy_ships-InSync}
use battleship_plus.ShipManager.Placement.{Places, place_ship-Places, Apart, place_ship-Apart}
use battleship_plus.ShipManager.Collision.{destroy_colliding_lem, hit}
use battleship_plus.Tests.Fixture.{index, fleet, fleet-Sound, raider, raider-id, board}

-- A destroyer at the place of another.
place_ship-Places_example : Places (4, 0) (raider 4 8 9) fleet
place_ship-Places_example = place_ship-Places (4, 0) (raider 4 8 9) fleet (fleet-Sound.0)

place_ship-Apart_example :
    InSync (place_ship (4, 0) (raider 4 8 12) fleet).1
    × Apart (place_ship (4, 0) (raider 4 8 12) fleet).1
place_ship-Apart_example =
    place_ship-Apart (4, 0) (raider 4 8 12) fleet (raider-id 4 8 12) (fleet-Sound.0) (fleet-Sound.1)

destroy_ships-InSync_example : InSync (destroy_ships ((3, 0) ∷ (9, 9) ∷ (1, 0) ∷ []) fleet)
destroy_ships-InSync_example =
    destroy_ships-InSync ((3, 0) ∷ (9, 9) ∷ (1, 0) ∷ []) fleet (fleet-Sound.0)

destroy_colliding_lem_example :
    (m' : ShipManager) × InSync m'
    × ((destroy_colliding_ships_in_envelope board fleet ≡ some (none, m'))
          × (m' ≡ fleet)
          × ((i j : ShipId) → hit board fleet i ≡ true → hit board fleet j ≡ true → i ≡ j)
        ⊎ ((ss : List Ship) × (destroy_colliding_ships_in_envelope board fleet ≡ some (some ss, m'))
            × ((j : ShipId)
                → get j m'.ships ≡ (if hit board fleet j then none else get j fleet.ships))
            × ((i : ShipId) × (j : ShipId) × (i ≢ j)
                × (hit board fleet i ≡ true)
                × (hit board fleet j ≡ true))))
destroy_colliding_lem_example = destroy_colliding_lem fleet board (fleet-Sound.0)
