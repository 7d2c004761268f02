-- ===== src/Abilities.antt =====
-- crates/battleship_plus_common/src/game/ship_manager.rs: the special abilities of the five types
-- of ships. The action points of the player are passed along with the manager.
pub mod Strikes
pub mod Wrecks
pub mod Missile
use battleship_plus.Base.{
  nat_eq, nat_pair_eq, ℕ, ◌-◌, Bool, true, false, not, Option, none, some, List, [], ◌∷◌,
}
use battleship_plus.Base.{map, filter, filter_map, flat_map, any, if◌then◌else◌, ◌==◌}
use battleship_plus.Base.Int.{pos, leb_ℤ}
use battleship_plus.Base.Words.{as_i32, add_i32, sub_i32}
use battleship_plus.Base.Collections.{HashSet, get, contains, collect_set}
use battleship_plus.Rstar.{Point, Geometry}
use battleship_plus.Types.{
  Costs, CommonBalancing, CruiserBalancing, CarrierBalancing, BattleshipBalancing,
  SubmarineBalancing, DestroyerBalancing, ShipId, PlayerId, Coordinate, Direction, north, east,
  south, west,
}
use battleship_plus.Types.{unreachable, out_of_map, invalid_ship_type}
use battleship_plus.Types.{ok, err, panic, Outcome, ◌>>=◌, ◌>>◌, unwrap, ensure}
use battleship_plus.ShipTree.{Index, envelope_to_points}
use battleship_plus.Ship
use battleship_plus.Ship.{
  Ship, ability, cool_downs, distance, apply_damage, carrier, battleship, cruiser, submarine,
  destroyer, direction_of, position, orientation, len,
}
use battleship_plus.ShipManager.{ShipManager, as_point, forget_ship, put_ship}
use battleship_plus.Actions.{
  Checked, State, check_cooldown, check_points, ability_rounds, charge, find_ship,
}

-- The matches on the type of the acting ship.
unfoldable pub as_cruiser : Ship → Checked CruiserBalancing
as_cruiser (cruiser b d c) = ok b
as_cruiser _ = err invalid_ship_type

unfoldable pub as_submarine : Ship → Checked SubmarineBalancing
as_submarine (submarine b d c) = ok b
as_submarine _ = err invalid_ship_type

unfoldable pub as_battleship : Ship → Checked BattleshipBalancing
as_battleship (battleship b d c) = ok b
as_battleship _ = err invalid_ship_type

unfoldable pub as_carrier : Ship → Checked CarrierBalancing
as_carrier (carrier b d c) = ok b
as_carrier _ = err invalid_ship_type

unfoldable pub as_destroyer : Ship → Checked DestroyerBalancing
as_destroyer (destroyer b d c) = ok b
as_destroyer _ = err invalid_ship_type

-- The cooldown and the costs of an ability.
unfoldable pub check_ability : Ship → Option CommonBalancing → ℕ → Checked Costs
check_ability ship common points = do
  check_cooldown ability_rounds (cool_downs ship)
  balancing ← unwrap common
  costs ← unwrap balancing.ability_costs
  check_points points costs
  ok costs

unfoldable pub same_direction : Direction → Direction → Bool
same_direction north north = true
same_direction east east = true
same_direction south south = true
same_direction west west = true
same_direction _ _ = false

module _ ⦃g : Geometry⦄ ⦃index : Index⦄ where
  open g use {Aabb, contains_point, from_corners}

  pub record AreaOfEffect : Type 0 where
    pub hit_ships : List Ship
    pub destroyed_ships : List Ship
    pub damage_per_hit : ℕ
    pub area : Aabb

  -- Damages the ships with the given ids one after the other and takes the destroyed ones out of
  -- the map. A missing ship panics.
  unfoldable pub strike : ℕ → List ShipId → ShipManager → Option (List Ship) × ShipManager
  strike damage [] m = (some [], m)
  strike damage (i ∷ is) m = elim (get i m.ships) [
    | none ↦ (none, m)
    | some s ↦
        let blow = apply_damage damage s in
        let rest = strike damage is (if blow.0 then forget_ship i m else put_ship i blow.1 m) in
        (
          elim rest.0 [ none ↦ none | some gone ↦ some (if blow.0 then blow.1 ∷ gone else gone) ],
          rest.1,
        )
  ]

  -- The same, passing over missing ships.
  unfoldable pub strike_present : ℕ → List ShipId → ShipManager → List Ship × ShipManager
  strike_present damage [] m = ([], m)
  strike_present damage (i ∷ is) m = elim (get i m.ships) [
    | none ↦ strike_present damage is m
    | some s ↦
        let blow = apply_damage damage s in
        let rest =
          strike_present damage is (if blow.0 then forget_ship i m else put_ship i blow.1 m) in
        (if blow.0 then blow.1 ∷ rest.0 else rest.0, rest.1)
  ]

  -- The end of an ability that strikes an area.
  unfoldable pub strike_area :
      ℕ → Aabb → List ShipId → ShipManager → Checked AreaOfEffect × ShipManager
  strike_area damage area ids m =
      let struck = strike damage ids m in
      elim struck.0 [
        | none ↦ (panic, struck.1)
        | some gone ↦ (
          ok (record {
            hit_ships = filter_map (λ i. get i struck.1.ships) ids;
            destroyed_ships = gone;
            damage_per_hit = damage;
            area = area;
          }),
          struck.1,
        )
      ]

  unfoldable pub ids_in : Aabb → ShipManager → List ShipId
  ids_in area m =
      map (λ n. n.ship_id) (index.locate_in_envelope_intersecting area m.ships_geo_lookup)

  -- The tiles in front of a submarine, or at its side or rear.
  unfoldable pub trajectory : Ship → Direction → ℕ → Aabb
  trajectory ship direction range =
      let x = (position ship).0 in
      let y = (position ship).1 in
      let o =
        if same_direction direction (direction_of (orientation ship))
        then sub_i32 (len ship) (pos 1)
        else pos 0 in
      let r = as_i32 range in
      elim direction [
        | north ↦ from_corners (x, add_i32 y o) (x, add_i32 (add_i32 y o) r)
        | east ↦ from_corners (add_i32 x o, y) (add_i32 (add_i32 x o) r, y)
        | south ↦ from_corners (x, sub_i32 y o) (x, sub_i32 (sub_i32 y o) r)
        | west ↦ from_corners (sub_i32 x o, y) (sub_i32 (sub_i32 x o) r, y)
      ]

  unfoldable pub check_torpedo :
      ℕ → ShipId → ShipManager → Checked (Ship × SubmarineBalancing × Costs)
  check_torpedo points i m = do
    ship ← find_ship i m
    balancing ← as_submarine ship
    costs ← check_ability ship balancing.common_balancing points
    ok (ship, balancing, costs)

  unfoldable pub torpedo : ℕ → ShipId → Direction → ShipManager → Outcome State AreaOfEffect
  torpedo points i direction m = elim (check_torpedo points i m) [
    | err e ↦ (err e, (m, points))
    | panic ↦ (panic, (m, points))
    | ok (ship, balancing, costs) ↦
        let paid = put_ship i (charge ability costs ship) m in
        let area = trajectory ship direction balancing.torpedo_range in
        let struck =
          strike_area balancing.torpedo_damage area (filter (λ j. not (j == i)) (ids_in area paid))
            paid in
        (struck.0, (struck.1, points - costs.action_points))
  ]

  -- The box around a point.
  unfoldable pub around : Point → ℕ → Aabb
  around center radius =
      let r = as_i32 radius in
      from_corners (add_i32 center.0 r, add_i32 center.1 r) (sub_i32 center.0 r, sub_i32 center.1 r)

  unfoldable pub check_predator_missile :
      ℕ → ShipId → Point → Aabb → ShipManager → Checked (Ship × BattleshipBalancing × Costs)
  check_predator_missile points i center bounds m = do
    ensure (contains_point bounds center) out_of_map
    ship ← find_ship i m
    balancing ← as_battleship ship
    costs ← check_ability ship balancing.common_balancing points
    ensure (leb_ℤ (distance ship center) (as_i32 balancing.predator_missile_range)) unreachable
    ok (ship, balancing, costs)

  unfoldable pub predator_missile :
      ℕ → ShipId → Point → Aabb → ShipManager → Outcome State AreaOfEffect
  predator_missile points i center bounds m =
      elim (check_predator_missile points i center bounds m) [
        | err e ↦ (err e, (m, points))
        | panic ↦ (panic, (m, points))
        | ok (ship, balancing, costs) ↦
            let paid = put_ship i (charge ability costs ship) m in
            let area = around center balancing.predator_missile_radius in
            let struck =
              strike_area balancing.predator_missile_damage area (ids_in area paid) paid in
            (struck.0, (struck.1, points - costs.action_points))
      ]

  unfoldable pub check_scout_plane :
      ℕ → ShipId → Point → Aabb → ShipManager → Checked (Ship × CarrierBalancing × Costs)
  check_scout_plane points i center bounds m = do
    ensure (contains_point bounds center) out_of_map
    ship ← find_ship i m
    balancing ← as_carrier ship
    costs ← check_ability ship balancing.common_balancing points
    ensure (leb_ℤ (distance ship center) (as_i32 balancing.scout_plane_range)) unreachable
    ok (ship, balancing, costs)

  -- The tiles of enemy ships within an area.
  unfoldable pub scouted : HashSet PlayerId → Aabb → ShipManager → HashSet Coordinate
  scouted enemy_team area m = collect_set (
      filter (λ c. contains_point area (as_point c))
        (flat_map (λ n. envelope_to_points n.envelope)
          (filter (λ n. contains n.ship_id.0 enemy_team)
            (index.locate_in_envelope_intersecting area m.ships_geo_lookup))))

  unfoldable pub scout_plane :
      ℕ
      → ShipId
      → Point
      → Aabb
      → HashSet PlayerId
      → ShipManager
      → Outcome State (HashSet Coordinate)
  scout_plane points i center bounds enemy_team m =
      elim (check_scout_plane points i center bounds m) [
        | err e ↦ (err e, (m, points))
        | panic ↦ (panic, (m, points))
        | ok (ship, balancing, costs) ↦
            let paid = put_ship i (charge ability costs ship) m in
            let area = around center balancing.scout_plane_radius in
            (ok (scouted enemy_team area paid), (paid, points - costs.action_points))
      ]

  unfoldable pub check_multi_missile :
      ℕ
      → Aabb
      → ShipId
      → List Coordinate
      → ShipManager
      → Checked (Ship × DestroyerBalancing × Costs)
  check_multi_missile points bounds i positions m = do
    ensure (not (any (λ p. not (contains_point bounds (as_point p))) positions)) out_of_map
    ship ← find_ship i m
    balancing ← as_destroyer ship
    costs ← check_ability ship balancing.common_balancing points
    ok (ship, balancing, costs)

  -- One missile after the other; the tree does not change between them.
  unfoldable pub missiles : ℕ → ℕ → List Coordinate → ShipManager → List AreaOfEffect × ShipManager
  missiles radius damage [] m = ([], m)
  missiles radius damage (p ∷ ps) m =
      let r = as_i32 radius in
      let c = as_point p in
      let area = from_corners (sub_i32 c.0 r, sub_i32 c.1 r) (add_i32 c.0 r, add_i32 c.1 r) in
      let ids = collect_set (ids_in area m) in
      let struck = strike_present damage ids m in
      let rest = missiles radius damage ps struck.1 in
      (
        record {
          hit_ships = filter_map (λ i. get i struck.1.ships) ids;
          destroyed_ships = struck.0;
          damage_per_hit = damage;
          area = area;
        }
            ∷ rest.0,
        rest.1,
      )

  unfoldable pub multi_missile :
      ℕ → Aabb → ShipId → List Coordinate → ShipManager → Outcome State (List AreaOfEffect)
  multi_missile points bounds i positions m =
      elim (check_multi_missile points bounds i positions m) [
        | err e ↦ (err e, (m, points))
        | panic ↦ (panic, (m, points))
        | ok (ship, balancing, costs) ↦
            let paid = put_ship i (charge ability costs ship) m in
            let struck =
              missiles balancing.multi_missile_radius balancing.multi_missile_damage positions
                paid in
            (ok struck.0, (struck.1, points - costs.action_points))
      ]

  unfoldable pub check_engine_boost : ℕ → ShipId → ShipManager → Checked (CruiserBalancing × Costs)
  check_engine_boost points i m = do
    ship ← find_ship i m
    balancing ← as_cruiser ship
    common ← unwrap balancing.common_balancing
    costs ← unwrap common.ability_costs
    check_cooldown ability_rounds (cool_downs ship)
    check_points points costs
    ok (balancing, costs)

  -- The cooldown of a boosted cruiser, if it is still there.
  unfoldable pub cool_boosted : ShipId → Costs → ShipManager → Checked (Unit {0}) × ShipManager
  cool_boosted i costs m = elim (get i m.ships) [
    | none ↦ (ok tt, m)
    | some s ↦ elim (as_cruiser s) [
      | ok b ↦ (ok tt, put_ship i (charge ability costs s) m)
      | err e ↦ (panic, m)
      | panic ↦ (panic, m)
    ]
  ]

  -- The movement is a closure of the caller, which may destroy the ship.
  unfoldable pub engine_boost :
      {R : Type 0}
      → ℕ
      → ShipId
      → (ShipManager → CruiserBalancing → Checked R × ShipManager)
      → ShipManager
      → Outcome State R
  engine_boost points i do_movement m = elim (check_engine_boost points i m) [
    | err e ↦ (err e, (m, points))
    | panic ↦ (panic, (m, points))
    | ok (balancing, costs) ↦
        let moved = do_movement m balancing in
        elim moved.0 [
          | err e ↦ (err e, (moved.1, points))
          | panic ↦ (panic, (moved.1, points))
          | ok result ↦
              let cooled = cool_boosted i costs moved.1 in
              ((cooled.0 >>= λ _. ok result), (cooled.1, points - costs.action_points))
        ]
  ]
