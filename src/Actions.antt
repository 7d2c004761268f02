-- ===== src/Actions.antt =====
-- crates/battleship_plus_common/src/game/ship_manager.rs: shots, moves, rotations and the special
-- abilities of ships. The action points of the player are passed along with the manager.
pub mod Agreement
pub mod Shots
use battleship_plus.Base.{
  nat_eq, nat_pair_eq, ℕ, ◌-◌, Bool, true, false, Option, none, some, List, [], ◌∷◌, ◌++◌,
}
use battleship_plus.Base.{find_map, if◌then◌else◌, ltb}
use battleship_plus.Base.Int.{leb_ℤ}
use battleship_plus.Base.Words.{as_i32}
use battleship_plus.Base.Collections.{HashSet, get, collect_set}
use battleship_plus.Rstar.{Point, Geometry}
use battleship_plus.Types.{Costs, CommonBalancing, ShipId, Coordinate}
use battleship_plus.Types.{
  ActionValidationError, non_existent_ship, on_cooldown, insufficient_points, unreachable,
  out_of_map,
}
use battleship_plus.Types.{
  Result, ok, err, panic, Outcome, ◌>>=◌, ◌>>◌, unwrap, ensure, MoveDirection, RotateDirection,
}
use battleship_plus.ShipTree.{node_of, Index, envelope_to_points}
use battleship_plus.Ship
use battleship_plus.Ship.{
  Ship, Cooldown, movement, rotate, cannon, ability, cool_downs, set_cool_downs, common_balancing,
  distance, do_move, do_rotation, apply_damage,
}
use battleship_plus.ShipManager.{
  ShipManager, as_point, forget_node, forget_ship, put_ship, mutate_ship_by_id,
}

abbrev pub Checked : Type 0 → Type 0
Checked = Result ActionValidationError

-- The patterns of the cooldown checks.
unfoldable pub movement_rounds : Cooldown → Option ℕ
movement_rounds (movement n) = some n
movement_rounds (rotate n) = none
movement_rounds (cannon n) = none
movement_rounds (ability n) = none

unfoldable pub rotate_rounds : Cooldown → Option ℕ
rotate_rounds (movement n) = none
rotate_rounds (rotate n) = some n
rotate_rounds (cannon n) = none
rotate_rounds (ability n) = none

unfoldable pub cannon_rounds : Cooldown → Option ℕ
cannon_rounds (movement n) = none
cannon_rounds (rotate n) = none
cannon_rounds (cannon n) = some n
cannon_rounds (ability n) = none

unfoldable pub ability_rounds : Cooldown → Option ℕ
ability_rounds (movement n) = none
ability_rounds (rotate n) = none
ability_rounds (cannon n) = none
ability_rounds (ability n) = some n

-- A ship with a cooldown of the given kind cannot act.
unfoldable pub check_cooldown : (Cooldown → Option ℕ) → List Cooldown → Checked (Unit {0})
check_cooldown rounds cds = elim (find_map rounds cds) [
  | none ↦ ok tt
  | some n ↦ err (on_cooldown n)
]

unfoldable pub check_points : ℕ → Costs → Checked (Unit {0})
check_points points costs =
    if ltb points costs.action_points then err (insufficient_points costs.action_points) else ok tt

-- `if costs.cooldown > 0 { cool_downs.push(..) }`
unfoldable pub charge : (ℕ → Cooldown) → Costs → Ship → Ship
charge kind costs s =
    if ltb 0 costs.cooldown then set_cool_downs s (cool_downs s ++ kind costs.cooldown ∷ []) else s

-- The costs of a move; none where they are not handled.
unfoldable pub check_move : Bool → Ship → ℕ → Checked (Option Costs)
unfolding check_cooldown movement_rounds check_points
check_move false ship points = ok none
check_move true ship points = do
  balancing ← unwrap (common_balancing ship)
  costs ← unwrap balancing.movement_costs
  check_cooldown movement_rounds (cool_downs ship)
  check_points points costs
  ok (some costs)

unfoldable pub check_rotation : Ship → ℕ → Checked Costs
unfolding check_cooldown rotate_rounds check_points
check_rotation ship points = do
  check_cooldown rotate_rounds (cool_downs ship)
  balancing ← unwrap (common_balancing ship)
  costs ← unwrap balancing.rotation_costs
  check_points points costs
  ok costs

module _ ⦃g : Geometry⦄ where
  open g use {Aabb}

  -- The closure that `move_ship` runs on the ship.
  unfoldable pub move_mutation : Bool → MoveDirection → Aabb → Ship → ℕ → Checked Aabb × (Ship × ℕ)
  move_mutation handle_costs direction bounds ship points =
      elim (check_move handle_costs ship points) [
        | err e ↦ (err e, (ship, points))
        | panic ↦ (panic, (ship, points))
        | ok costs ↦
            let moved = do_move direction bounds ship in
            elim moved.0 [
              | err e ↦ (err e, (moved.1, points))
              | panic ↦ (panic, (moved.1, points))
              | ok area ↦ elim costs [
                | none ↦ (ok area, (moved.1, points))
                | some c ↦ (ok area, (charge movement c moved.1, points - c.action_points))
              ]
            ]
      ]

  -- The closure that `rotate_ship` runs on the ship.
  unfoldable pub rotate_mutation : RotateDirection → Aabb → Ship → ℕ → Checked Aabb × (Ship × ℕ)
  rotate_mutation direction bounds ship points = elim (check_rotation ship points) [
    | err e ↦ (err e, (ship, points))
    | panic ↦ (panic, (ship, points))
    | ok c ↦
        let turned = do_rotation direction bounds ship in
        elim turned.0 [
          | err e ↦ (err e, (turned.1, points))
          | panic ↦ (panic, (turned.1, points))
          | ok area ↦ (ok area, (charge rotate c turned.1, points - c.action_points))
        ]
  ]

pub data ShotResult : Type 0 where
  miss : ShotResult
  hit : ShipId → ℕ → ShotResult
  destroyed : Ship → ℕ → HashSet Coordinate → ShotResult

module _ ⦃g : Geometry⦄ ⦃index : Index⦄ where
  open g use {Aabb, contains_point, from_corners}

  abbrev pub State : Type 0
  State = ShipManager × ℕ

  unfoldable pub find_ship : ShipId → ShipManager → Checked Ship
  find_ship i m = elim (get i m.ships) [ none ↦ err (non_existent_ship i) | some s ↦ ok s ]

  -- The checks of `attack_with_ship`, in their order.
  unfoldable pub aim :
      ℕ → ShipId → Point → Aabb → ShipManager → Checked (Ship × CommonBalancing × Costs)
  unfolding find_ship check_cooldown cannon_rounds check_points
  aim points i target bounds m = do
    ensure (contains_point bounds target) out_of_map
    ship ← find_ship i m
    check_cooldown cannon_rounds (cool_downs ship)
    balancing ← unwrap (common_balancing ship)
    costs ← unwrap balancing.shoot_costs
    check_points points costs
    ensure (leb_ℤ (distance ship target) (as_i32 balancing.shoot_range)) unreachable
    ok (ship, balancing, costs)

  -- The end of a ship that was shot: it leaves the map, and its node leaves the tree.
  unfoldable pub sink : ShipId → Ship → ℕ → ShipManager → Checked ShotResult × ShipManager
  sink i s damage m =
      let gone = forget_node s (forget_ship i m) in
      elim (index.remove (node_of s) m.ships_geo_lookup).0 [
        | none ↦ (panic, gone)
        | some node ↦
            (ok (destroyed s damage (collect_set (envelope_to_points node.envelope))), gone)
      ]

  -- The shot at the ship that the tree reports at the target.
  unfoldable pub fire : Point → ℕ → ShipManager → Checked ShotResult × ShipManager
  fire target damage m = elim (index.locate_at_point target m.ships_geo_lookup) [
    | none ↦ (ok miss, m)
    | some node ↦ elim (get node.ship_id m.ships) [
      | none ↦ (panic, m)
      | some s ↦
          let shot = apply_damage damage s in
          if shot.0
          then sink node.ship_id shot.1 damage m
          else (ok (hit node.ship_id damage), put_ship node.ship_id shot.1 m)
    ]
  ]

  unfoldable pub attack_with_ship :
      ℕ → ShipId → Coordinate → Aabb → ShipManager → Outcome State ShotResult
  attack_with_ship points i target bounds m = elim (aim points i (as_point target) bounds m) [
    | err e ↦ (err e, (m, points))
    | panic ↦ (panic, (m, points))
    | ok (ship, balancing, costs) ↦
        let shot =
          fire (as_point target) balancing.shoot_damage (put_ship i (charge cannon costs ship) m) in
        (shot.0, (shot.1, points - costs.action_points))
  ]

  unfoldable pub move_ship :
      ℕ → Bool → ShipId → MoveDirection → Aabb → ShipManager → Outcome State Aabb
  move_ship points handle_costs i direction bounds m =
      mutate_ship_by_id i true (non_existent_ship i) (move_mutation handle_costs direction bounds) m
        points

  unfoldable pub rotate_ship :
      ℕ → ShipId → RotateDirection → Aabb → ShipManager → Outcome State Aabb
  rotate_ship points i direction bounds m =
      mutate_ship_by_id i true (non_existent_ship i) (rotate_mutation direction bounds) m points
