-- ===== src/Movement.antt =====
-- crates/battleship_plus_server/src/game/actions.rs: moves and rotations of ships in a game, with
-- the collisions that they cause.
pub mod Clearance
pub mod Steered
pub mod Safety
use battleship_plus.Base.{
  nat_eq, nat_pair_eq, ℕ, Bool, true, false, Option, none, some, List, [], ◌∷◌, if◌then◌else◌, ◌==◌,
}
use battleship_plus.Base.Collections.{HashSet, get, contains}
use battleship_plus.Rstar.{Geometry}
use battleship_plus.Types.{ShipId, Coordinate, PlayerId, MoveDirection, RotateDirection}
use battleship_plus.Types.{
  non_existent_player, not_players_turn, ok, err, panic, Outcome, ◌>>=◌, ◌>>◌, unwrap,
}
use battleship_plus.Board.{board_bounds}
use battleship_plus.ShipTree.{Index}
use battleship_plus.Ship.{Ship}
use battleship_plus.ShipManager.{
  ShipManager, get_ship_parts_seen_by, get_for_players, destroy_colliding_ships_in_envelope,
}
use battleship_plus.Actions.{Checked, State, move_ship, rotate_ship}
use battleship_plus.Game.{Game, Turn}
use battleship_plus.Results.{Single, movement_result}

module _ ⦃g : Geometry⦄ ⦃index : Index⦄ where
  open g use {Aabb}

  -- The closures that `general_movement` runs.
  abbrev pub Steering : Type 0
  Steering = ShipManager → ℕ → ShipId → Aabb → Outcome State Aabb

  unfoldable pub steer_move : MoveDirection → Steering
  steer_move d m points i bounds = move_ship points true i d bounds m

  unfoldable pub steer_rotation : RotateDirection → Steering
  steer_rotation d m points i bounds = rotate_ship points i d bounds m

  -- The report on a movement, after the collisions.
  unfoldable pub report_movement :
      ShipId
      → List ShipId
      → List Coordinate
      → List Coordinate
      → Option (List Ship)
      → ShipManager
      → Checked Single
  report_movement i enemy_ships old_enemy_vision old_vision destroyed_ships m = do
    new_vision ← unwrap (get_ship_parts_seen_by (i ∷ []) m)
    new_enemy_vision ← unwrap (get_ship_parts_seen_by enemy_ships m)
    unwrap (movement_result destroyed_ships old_vision new_vision old_enemy_vision new_enemy_vision)

  unfoldable pub general_movement_inner :
      ℕ → ShipId → Aabb → List ShipId → Steering → ShipManager → Outcome State Single
  general_movement_inner points i board_bounds enemy_ships do_movement m =
      elim (get_ship_parts_seen_by enemy_ships m) [
        | none ↦ (panic, (m, points))
        | some old_enemy_vision ↦ elim (get_ship_parts_seen_by (i ∷ []) m) [
          | none ↦ (panic, (m, points))
          | some old_vision ↦
              let moved = do_movement m points i board_bounds in
              elim moved.0 [
                | err e ↦ (err e, moved.1)
                | panic ↦ (panic, moved.1)
                | ok trajectory ↦ elim (destroy_colliding_ships_in_envelope trajectory moved.1.0) [
                  | none ↦ (panic, moved.1)
                  | some (destroyed_ships, m') ↦ (
                    report_movement i enemy_ships old_enemy_vision old_vision destroyed_ships m',
                    (m', moved.1.1),
                  )
                ]
              ]
        ]
      ]

  unfoldable pub check_player_exists : PlayerId → Game → Checked (Unit {0})
  check_player_exists player game = elim (get player game.players) [
    | none ↦ err (non_existent_player player)
    | some p ↦ ok tt
  ]

  -- The turn of a player.
  unfoldable pub check_players_turn : PlayerId → Game → Checked Turn
  check_players_turn player game = elim game.turn [
    | none ↦ err not_players_turn
    | some t ↦ if t.player_id == player then ok t else err not_players_turn
  ]

  -- The team opposite to a player's; a player in both or in no team panics.
  unfoldable pub enemy_team : PlayerId → Game → Checked (HashSet PlayerId)
  enemy_team player game =
      if contains player game.team_a
      then (if contains player game.team_b then panic else ok game.team_b)
      else (if contains player game.team_b then ok game.team_a else panic)

  check_movement : ShipId → Game → Checked (Turn × HashSet PlayerId)
  unfolding check_player_exists check_players_turn enemy_team
  check_movement i game = do
    check_player_exists i.0 game
    t ← check_players_turn i.0 game
    enemies ← enemy_team i.0 game
    ok (t, enemies)

  unfoldable pub general_movement : ShipId → Steering → Game → Outcome Game Single
  unfolding check_movement
  general_movement i do_movement game = elim (check_movement i game) [
    | err e ↦ (err e, game)
    | panic ↦ (panic, game)
    | ok (t, enemies) ↦
        let moved =
          general_movement_inner t.action_points_left i (board_bounds game.config)
            (get_for_players enemies game.ships) do_movement game.ships in
        (
          moved.0,
          record game {
            ships = moved.1.0;
            turn = some (record t { action_points_left = moved.1.1 });
          },
        )
  ]
