-- ===== src/Results/Reports.antt =====
-- crates/battleship_plus_server/src/game/actions.rs: the reports on shots, scout planes and missiles.
use battleship_plus.Base.{nat_eq, nat_pair_eq, ℕ, Bool, true, false, Option, none, some}
use battleship_plus.Base.{List, [], ◌∷◌, ◌++◌, map, filter, flat_map}
use battleship_plus.Base.Words.{add_u32}
use battleship_plus.Base.Collections
use battleship_plus.Base.Collections.{HashMap, HashSet, get, contains, collect_set}
use battleship_plus.Rstar.{Geometry}
use battleship_plus.Types.{ShipId, Coordinate}
use battleship_plus.ShipTree.{Index, envelope_to_points}
use battleship_plus.Ship
use battleship_plus.Ship.{Ship}
use battleship_plus.Results.{Single, split_damage, collect_map}
use battleship_plus.Abilities.{AreaOfEffect}

-- A report that names nothing.
abbrev pub quiet : Single
quiet = record {
  inflicted_damage_at = [];
  inflicted_damage_by_ship = [];
  ships_destroyed = [];
  gain_vision_at = [];
  lost_vision_at = [];
  temp_vision_at = [];
  gain_enemy_vision = [];
  lost_enemy_vision = [];
  splash_tiles = [];
}

-- `ActionResult::hit`
unfoldable pub hit : ShipId → Coordinate → ℕ → Single
hit i target damage = record quiet {
  inflicted_damage_at = (target, damage) ∷ [];
  inflicted_damage_by_ship = (i, damage) ∷ [];
}

-- `ActionResult::destroyed`
unfoldable pub destroyed : Ship → Coordinate → ℕ → HashSet Coordinate → Single
destroyed s target damage vision_lost = record quiet {
  inflicted_damage_at = (target, damage) ∷ [];
  inflicted_damage_by_ship = (Ship.id s, damage) ∷ [];
  ships_destroyed = s ∷ [];
  lost_vision_at = vision_lost;
  lost_enemy_vision = vision_lost;
}

-- `ActionResult::scouting`
unfoldable pub scouting : HashSet Coordinate → Single
scouting vision = record quiet { temp_vision_at = vision }

-- Pairs collected into a map, where the values of a key are added up.
unfoldable pub add_up : List ((ℕ × ℕ) × ℕ) → HashMap (ℕ × ℕ) ℕ → HashMap (ℕ × ℕ) ℕ
add_up [] acc = acc
add_up ((k, v) ∷ src) acc = elim (get k acc) [
  | none ↦ add_up src (Collections.insert k v acc)
  | some previous ↦ add_up src (Collections.insert k (add_u32 previous v) acc)
]

unfoldable pub collect_and_sum : List ((ℕ × ℕ) × ℕ) → HashMap (ℕ × ℕ) ℕ
unfolding add_up
collect_and_sum src = add_up src []

-- The tiles that are not in a map.
unfoldable pub untouched : HashMap Coordinate ℕ → List Coordinate → List Coordinate
untouched inflicted tiles =
    filter (λ c. elim (get c inflicted) as (λ _. Bool) [ none ↦ true | some n ↦ false ]) tiles

module _ ⦃g : Geometry⦄ where
  -- The damage to the tiles of the ships in an area.
  unfoldable pub area_damage : ℕ → g.Aabb → List Ship → Option (List (Coordinate × ℕ))
  area_damage damage area [] = some []
  area_damage damage area (s ∷ ss) =
      let rest = area_damage damage area ss in
      elim (split_damage (envelope_to_points (Ship.envelope s)) damage area) [
        | none ↦ none
        | some tiles ↦ elim rest [ none ↦ none | some more ↦ some (tiles ++ more) ]
      ]

  unfoldable pub ship_tiles : List Ship → List Coordinate
  ship_tiles ships = flat_map (λ s. envelope_to_points (Ship.envelope s)) ships

module _ ⦃g : Geometry⦄ ⦃index : Index⦄ where
  -- The ships that an area of effect names.
  unfoldable pub ships_in : AreaOfEffect → List Ship
  ships_in aoe = aoe.hit_ships ++ aoe.destroyed_ships

  -- `ActionResult::from` an area of effect
  unfoldable pub area_report : AreaOfEffect → Option Single
  unfolding ship_tiles untouched ships_in
  area_report aoe = elim (area_damage aoe.damage_per_hit aoe.area (ships_in aoe)) [
    | none ↦ none
    | some tiles ↦
        let inflicted = collect_map tiles [] in
        some (record quiet {
          inflicted_damage_at = inflicted;
          inflicted_damage_by_ship =
              collect_map (map (λ s. (Ship.id s, aoe.damage_per_hit)) (ships_in aoe)) [];
          ships_destroyed = aoe.destroyed_ships;
          lost_vision_at = collect_set (ship_tiles aoe.destroyed_ships);
          splash_tiles = collect_set (untouched inflicted (envelope_to_points aoe.area));
        })
  ]

  -- The damage to tiles in all the areas of a volley of missiles.
  unfoldable pub volley_damage : List AreaOfEffect → Option (List (Coordinate × ℕ))
  volley_damage [] = some []
  volley_damage (aoe ∷ more) =
      let rest = volley_damage more in
      elim (area_damage aoe.damage_per_hit aoe.area (ships_in aoe)) [
        | none ↦ none
        | some tiles ↦ elim rest [ none ↦ none | some others ↦ some (tiles ++ others) ]
      ]

  -- The report on a volley, in which the damage of its missiles adds up.
  unfoldable pub volley_report : List AreaOfEffect → Option Single
  unfolding ship_tiles untouched ships_in
  volley_report areas = elim (volley_damage areas) [
    | none ↦ none
    | some tiles ↦
        let inflicted = collect_and_sum tiles in
        let wrecks = flat_map (λ a. a.destroyed_ships) areas in
        let lost = collect_set (ship_tiles wrecks) in
        some (record quiet {
          inflicted_damage_at = inflicted;
          inflicted_damage_by_ship =
              collect_and_sum
                (flat_map (λ a. map (λ s. (Ship.id s, a.damage_per_hit)) (ships_in a)) areas);
          ships_destroyed = wrecks;
          lost_enemy_vision = lost;
          lost_vision_at = lost;
          splash_tiles =
              collect_set (untouched inflicted (flat_map (λ a. envelope_to_points a.area) areas));
        })
  ]
