-- ===== src/Results.antt =====
-- crates/battleship_plus_server/src/game/actions.rs: what an action reports to the players. A
-- division by zero and a missing balancing, which panic, are `none`.
pub mod Shares
pub mod Reports
pub mod Sums
use battleship_plus.Base.{nat_eq, nat_pair_eq, ℕ, zero, suc, ◌-◌, ◌*◌, ◌/◌, not, Option, none, some}
use battleship_plus.Base.{List, [], ◌∷◌, ◌++◌, map, filter, flat_map, length, replicate}
use battleship_plus.Base.Words.{as_i32, i32_min, i32_max}
use battleship_plus.Base.Collections
use battleship_plus.Base.Collections.{HashMap, HashSet, contains, collect_set}
use battleship_plus.Rstar.{Geometry}
use battleship_plus.Types.{ShipId, Coordinate}
use battleship_plus.ShipTree.{envelope_to_points}
use battleship_plus.Ship
use battleship_plus.Ship.{Ship, health, initial_health}

-- `ActionResult::Single`
pub record Single : Type 0 where
  pub inflicted_damage_at : HashMap Coordinate ℕ
  pub inflicted_damage_by_ship : HashMap ShipId ℕ
  pub ships_destroyed : List Ship
  pub gain_vision_at : HashSet Coordinate
  pub lost_vision_at : HashSet Coordinate
  pub temp_vision_at : HashSet Coordinate
  pub gain_enemy_vision : HashSet Coordinate
  pub lost_enemy_vision : HashSet Coordinate
  pub splash_tiles : HashSet Coordinate

unfoldable pub difference : List Coordinate → List Coordinate → HashSet Coordinate
difference left right = collect_set (filter (λ c. not (contains c right)) left)

-- The first `n` entries raised by one.
unfoldable pub bump : ℕ → List ℕ → List ℕ
bump zero xs = xs
bump (suc n) [] = []
bump (suc n) (x ∷ xs) = suc x ∷ bump n xs

unfoldable pub zip : {A B : Type 0} → List A → List B → List (A × B)
zip [] ys = []
zip (x ∷ xs) [] = []
zip (x ∷ xs) (y ∷ ys) = (x, y) ∷ zip xs ys

-- The damage divided among a number of tiles.
unfoldable pub damage_splits : ℕ → ℕ → Option (List ℕ)
damage_splits damage zero = none
damage_splits damage (suc n) =
    let each = damage / suc n in some (bump (damage - each * suc n) (replicate (suc n) each))

-- A list of pairs collected into a map.
unfoldable pub collect_map :
    {V : Type 0} → List ((ℕ × ℕ) × V) → HashMap (ℕ × ℕ) V → HashMap (ℕ × ℕ) V
collect_map [] m = m
collect_map ((k, v) ∷ es) m = collect_map es (Collections.insert k v m)

module _ ⦃g : Geometry⦄ where
  open g use {Aabb, contains_point, from_corners}

  unfoldable pub split_damage : List Coordinate → ℕ → Aabb → Option (List (Coordinate × ℕ))
  split_damage tiles damage blast_radius =
      let hit = filter (λ c. contains_point blast_radius (as_i32 c.0, as_i32 c.1)) tiles in
      elim (damage_splits damage (length hit)) [ none ↦ none | some splits ↦ some (zip hit splits) ]

  -- The damage to the tiles of the ships that a collision destroyed.
  unfoldable pub collision_damage : List Ship → Option (List (Coordinate × ℕ))
  collision_damage [] = some []
  collision_damage (s ∷ ss) =
      let rest = collision_damage ss in
      elim (initial_health s) [
        | none ↦ none
        | some damage ↦
            elim (split_damage (envelope_to_points (Ship.envelope s)) damage
              (from_corners (i32_min, i32_min) (i32_max, i32_max))) [
                | none ↦ none
                | some tiles ↦ elim rest [ none ↦ none | some more ↦ some (tiles ++ more) ]
              ]
      ]

  unfoldable pub movement_result :
      Option (List Ship)
      → List Coordinate
      → List Coordinate
      → List Coordinate
      → List Coordinate
      → Option Single
  movement_result destroyed_ships old_vision new_vision old_enemy_vision new_enemy_vision =
      let ships : List Ship = elim destroyed_ships [ none ↦ [] | some ss ↦ ss ] in
      let wrecks = flat_map (λ s. envelope_to_points (Ship.envelope s)) ships in
      elim (collision_damage ships) [
        | none ↦ none
        | some damage ↦ some (record {
          inflicted_damage_at = collect_map damage [];
          inflicted_damage_by_ship = collect_map (map (λ s. (Ship.id s, health s)) ships) [];
          ships_destroyed = ships;
          gain_vision_at = difference new_vision old_vision;
          lost_vision_at = collect_set (difference old_vision new_vision ++ wrecks);
          temp_vision_at = [];
          gain_enemy_vision = difference new_enemy_vision old_enemy_vision;
          lost_enemy_vision = collect_set (difference old_enemy_vision new_enemy_vision ++ wrecks);
          splash_tiles = [];
        })
      ]
