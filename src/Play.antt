-- ===== src/Play.antt =====
-- crates/battleship_plus_server/src/game/actions.rs and states.rs: the execution of actions on a game.
-- The order in which a hash map of ships is read is a parameter.
pub mod Fleet
pub mod Boost
pub mod Sparing
pub mod Bursts
pub mod Frame
use battleship_plus.Base.{
  nat_eq, nat_pair_eq, ℕ, zero, suc, Bool, true, false, not, ◌&&◌, Option, none, some,
}
use battleship_plus.Base.{List, [], ◌∷◌, map, if◌then◌else◌, nat_beq}
use battleship_plus.Base.Int.{ℤ}
use battleship_plus.Base.Collections
use battleship_plus.Base.Collections.{HashMap, HashSet, get, contains, remove_set, insert_set}
use battleship_plus.Rstar.{Geometry}
use battleship_plus.Types.{
  ShipId, PlayerId, Coordinate, Direction, MoveDirection, forward, CruiserBalancing, ignored,
  ActionValidationError, ShipPlacementError, invalid_ship_placement, Result, ok, err, panic,
  Outcome, ◌>>=◌, ◌>>◌, unwrap,
}
use battleship_plus.Board.{board_bounds}
use battleship_plus.ShipTree.{Index}
use battleship_plus.Ship.{Ship, direction_of, orientation}
use battleship_plus.ShipManager.{ShipManager, as_point, get_by_id, get_for_players, place_ship}
use battleship_plus.Actions.{Checked, State, ShotResult, miss, attack_with_ship, move_ship}
use battleship_plus.Actions
use battleship_plus.Abilities
use battleship_plus.Abilities.{AreaOfEffect}
use battleship_plus.Game.{
  Game, Player, Turn, ShipAssignment, unready_players, validate_placement_request,
}
use battleship_plus.Movement.{
  Steering, steer_move, steer_rotation, general_movement, general_movement_inner,
  check_player_exists, check_players_turn, enemy_team,
}
use battleship_plus.Results.{Single}
use battleship_plus.Results.Reports.{hit, destroyed, scouting, area_report, volley_report}
use battleship_plus.Orders
use battleship_plus.Orders.{
  Protocol, Action, Executed, ActionResult, nothing, single, boosted, validation, out_of_state,
  inconsistent_state, bad_request, validated, is_action_valid,
}
use battleship_plus.Turns.{
  take_shot, send_plane, launch_missile, launch_torpedo, all_positions, launch_volley, boost_engine,
}

module _ ⦃g : Geometry⦄ ⦃index : Index⦄ where
  open g use {Aabb}

  unfoldable pub switch_team : PlayerId → Game → Executed ActionResult × Game
  switch_team player game = elim (check_player_exists player game) [
    | err e ↦ (err (validation e), game)
    | panic ↦ (panic, game)
    | ok _ ↦
        let in_a = contains player game.team_a in
        let in_b = contains player game.team_b in
        let a = remove_set player game.team_a in
        let b = remove_set player game.team_b in
        if in_a && not in_b
        then (
          ok nothing,
          unready_players (record game { team_a = a; team_b = insert_set player b }),
        )
        else if not in_a && in_b
        then (
          ok nothing,
          unready_players (record game { team_a = insert_set player a; team_b = b }),
        )
        else (err inconsistent_state, record game { team_a = a; team_b = b })
  ]

  unfoldable pub make_ready : PlayerId → Bool → Game → Executed ActionResult × Game
  make_ready player ready game = elim (check_player_exists player game) [
    | err e ↦ (err (validation e), game)
    | panic ↦ (panic, game)
    | ok _ ↦ elim (get player game.players) [
      | none ↦ (panic, game)
      | some p ↦ (
        ok nothing,
        record game {
          players = Collections.insert player (record p { is_ready = ready }) game.players;
        },
      )
    ]
  ]

  -- Places ships up to the first that is refused.
  unfoldable pub place_all :
      List (ShipId × Ship) → ShipManager → Result ShipPlacementError (Unit {0}) × ShipManager
  place_all [] m = (ok tt, m)
  place_all ((i, s) ∷ rest) m =
      let placed = place_ship i s m in
      elim placed.0 [
        | err e ↦ (err e, placed.1)
        | panic ↦ (panic, placed.1)
        | ok _ ↦ place_all rest placed.1
      ]

  refused_placement : {A : Type 0} → Result ShipPlacementError A → Executed ActionResult
  refused_placement (ok a) = ok nothing
  refused_placement (err e) = err (validation (invalid_ship_placement e))
  refused_placement panic = panic

  module _ (protocol : Protocol) (in_order : List (ℕ × ShipAssignment) → List (ℕ × ShipAssignment))
      (ships_in_order : HashMap ShipId Ship → List (ShipId × Ship)) where
    open protocol use {ship_type_from_i32, direction_from_i32, move_direction, rotate_direction}

    unfoldable pub place_fleet :
        PlayerId → List ShipAssignment → Game → Executed ActionResult × Game
    unfolding refused_placement
    place_fleet player assignments game =
        elim (validate_placement_request ship_type_from_i32 direction_from_i32 in_order player
          assignments game) [
            | err e ↦ (err (validation (invalid_ship_placement e)), game)
            | panic ↦ (panic, game)
            | ok ships ↦
                let placed = place_all (ships_in_order ships) game.ships in
                (refused_placement placed.0, record game { ships = placed.1 })
          ]

    move_on : ShipId → Steering → Game → Executed ActionResult × Game
    move_on i act game =
        let moved = general_movement i act game in
        (validated moved.0 >>= λ s. ok (single s), moved.1)

    unfoldable pub apply_on : Action → Game → Executed ActionResult × Game
    unfolding move_on
    apply_on (Action.team_switch p) game = switch_team p game
    apply_on (Action.set_ready p r) game = make_ready p r game
    apply_on (Action.place_ships p l) game = place_fleet p l game
    apply_on (Action.move i d) game = move_on i (steer_move (move_direction d)) game
    apply_on (Action.rotate i d) game = move_on i (steer_rotation (rotate_direction d)) game
    apply_on (Action.shoot i t) game = take_shot i t game
    apply_on (Action.scout_plane i c) game = send_plane i c game
    apply_on (Action.predator_missile i c) game = launch_missile i c game
    apply_on (Action.engine_boost i) game = boost_engine i game
    apply_on (Action.torpedo i d) game = launch_torpedo i (direction_from_i32 d) game
    apply_on (Action.multi_missile i a b c) game = launch_volley i (all_positions a b c) game
    apply_on Action.idle game = (ok nothing, game)

    unfoldable pub execute_action : Action → Game → Executed ActionResult × Game
    execute_action action game =
        if is_action_valid game.state action
        then apply_on action game
        else (err (out_of_state game.state), game)
