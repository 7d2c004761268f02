-- ===== src/Turns.antt =====
-- crates/battleship_plus_server/src/game/actions.rs: the actions of a player whose turn it is, but for
-- the moves and rotations.
use battleship_plus.Base.{
  nat_eq, nat_pair_eq, ℕ, zero, suc, Bool, true, false, not, Option, none, some,
}
use battleship_plus.Base.{List, [], ◌∷◌, map, if◌then◌else◌}
use battleship_plus.Base.Collections
use battleship_plus.Base.Collections.{HashSet, get, contains}
use battleship_plus.Rstar.{Geometry}
use battleship_plus.Types.{
  ShipId, PlayerId, Coordinate, Direction, forward, CruiserBalancing, ok, err, panic, ◌>>=◌, ◌>>◌,
  unwrap,
}
use battleship_plus.Board.{board_bounds}
use battleship_plus.ShipTree.{Index}
use battleship_plus.Ship.{direction_of, orientation}
use battleship_plus.ShipManager.{ShipManager, as_point, get_by_id, get_for_players}
use battleship_plus.Actions.{Checked, State, ShotResult, miss, attack_with_ship, move_ship}
use battleship_plus.Abilities
use battleship_plus.Abilities.{AreaOfEffect}
use battleship_plus.Game.{Game, Turn}
use battleship_plus.Movement.{
  Steering, general_movement_inner, check_player_exists, check_players_turn, enemy_team,
}
use battleship_plus.Results.{Single}
use battleship_plus.Results.Reports.{hit, destroyed, scouting, area_report, volley_report}
use battleship_plus.Orders.{
  Executed, ActionResult, nothing, single, boosted, validation, inconsistent_state, bad_request,
  validated,
}

module _ ⦃g : Geometry⦄ ⦃index : Index⦄ where
  open g use {Aabb}

  -- The checks of an action of a player whose turn it is.
  unfoldable pub check_turn : PlayerId → Game → Checked Turn
  check_turn player game = do check_player_exists player game; check_players_turn player game

  -- The game after an action on its ships and on the points of the turn.
  abbrev pub resume : Game → Turn → State → Game
  resume game t s = record game { ships = s.0; turn = some (record t { action_points_left = s.1 }) }

  report_shot : Coordinate → ShotResult → ActionResult
  report_shot target miss = nothing
  report_shot target (ShotResult.hit i damage) = single (hit i target damage)
  report_shot target (ShotResult.destroyed s damage parts) =
      single (destroyed s target damage parts)

  -- The shot at a target; without one, it panics.
  unfoldable pub shoot_at : Turn → ShipId → Option Coordinate → Game → Executed ActionResult × Game
  unfolding report_shot
  shoot_at t i none game = (panic, game)
  shoot_at t i (some c) game = elim (get i.0 game.players) [
    | none ↦ (panic, game)
    | some player ↦
        let shot =
          attack_with_ship t.action_points_left i c (board_bounds game.config) game.ships in
        elim shot.0 [
          | err e ↦ (err (validation e), record game { ships = shot.1.0 })
          | panic ↦ (panic, record game { ships = shot.1.0 })
          | ok result ↦ (
            ok (report_shot c result),
            record (resume game t shot.1) { players = Collections.insert i.0 player game.players },
          )
        ]
  ]

  -- An action of a player whose turn it is.
  abbrev pub in_turn :
      {A : Type 0} → PlayerId → Game → (Turn → Executed A × Game) → Executed A × Game
  in_turn player game act = elim (check_turn player game) [
    | err e ↦ (err (validation e), game)
    | panic ↦ (panic, game)
    | ok t ↦ act t
  ]

  unfoldable pub take_shot : ShipId → Option Coordinate → Game → Executed ActionResult × Game
  take_shot i target game = in_turn i.0 game (λ t. shoot_at t i target game)

  -- An action that reports, or panics on the way.
  abbrev pub reported : {A : Type 0} → (A → Option Single) → Checked A → Executed ActionResult
  reported report r = validated r >>= λ a. unwrap (report a) >>= λ s. ok (single s)

  -- The enemies of a player; a player in both or in no team is an inconsistency.
  unfoldable pub scouted_team : PlayerId → Game → Executed (HashSet PlayerId)
  scouted_team player game =
      if contains player game.team_a
      then (if contains player game.team_b then err inconsistent_state else ok game.team_b)
      else (if contains player game.team_b then ok game.team_a else err inconsistent_state)

  unfoldable pub plane_at : Turn → ShipId → Option Coordinate → Game → Executed ActionResult × Game
  plane_at t i center game = elim (scouted_team i.0 game) [
    | err e ↦ (err e, game)
    | panic ↦ (panic, game)
    | ok enemies ↦ elim center [
      | none ↦ (err bad_request, game)
      | some c ↦
          let seen =
            Abilities.scout_plane t.action_points_left i (as_point c) (board_bounds game.config)
              enemies game.ships in
          (reported (λ v. some (scouting v)) seen.0, resume game t seen.1)
    ]
  ]

  unfoldable pub send_plane : ShipId → Option Coordinate → Game → Executed ActionResult × Game
  send_plane i center game = in_turn i.0 game (λ t. plane_at t i center game)

  unfoldable pub missile_at :
      Turn → ShipId → Option Coordinate → Game → Executed ActionResult × Game
  missile_at t i none game = (err bad_request, game)
  missile_at t i (some c) game =
      let struck =
        Abilities.predator_missile t.action_points_left i (as_point c) (board_bounds game.config)
          game.ships in
      (reported area_report struck.0, resume game t struck.1)

  unfoldable pub launch_missile : ShipId → Option Coordinate → Game → Executed ActionResult × Game
  launch_missile i center game = in_turn i.0 game (λ t. missile_at t i center game)

  unfoldable pub torpedo_at : Turn → ShipId → Option Direction → Game → Executed ActionResult × Game
  torpedo_at t i none game = (err bad_request, game)
  torpedo_at t i (some d) game =
      let struck = Abilities.torpedo t.action_points_left i d game.ships in
      (reported area_report struck.0, resume game t struck.1)

  unfoldable pub launch_torpedo : ShipId → Option Direction → Game → Executed ActionResult × Game
  launch_torpedo i direction game = in_turn i.0 game (λ t. torpedo_at t i direction game)

  -- Three positions, if none is missing.
  unfoldable pub all_positions :
      Option Coordinate → Option Coordinate → Option Coordinate → Option (List Coordinate)
  all_positions (some a) (some b) (some c) = some (a ∷ b ∷ c ∷ [])
  all_positions _ _ _ = none

  unfoldable pub volley_at :
      Turn → ShipId → Option (List Coordinate) → Game → Executed ActionResult × Game
  volley_at t i none game = (err bad_request, game)
  volley_at t i (some positions) game =
      let struck =
        Abilities.multi_missile t.action_points_left (board_bounds game.config) i positions
          game.ships in
      (reported volley_report struck.0, resume game t struck.1)

  unfoldable pub launch_volley :
      ShipId → Option (List Coordinate) → Game → Executed ActionResult × Game
  launch_volley i positions game = in_turn i.0 game (λ t. volley_at t i positions game)

  -- A move without costs, whose points are those of a counter of its own.
  unfoldable pub steer_boost : Steering
  steer_boost m points i bounds =
      let moved = move_ship 0 false i forward bounds m in (moved.0, (moved.1.0, points))

  -- The moves of a boost. After a first error, which is kept, the flag is set, and the next
  -- attempt ends the sequence without a move.
  unfoldable pub boost_moves :
      ShipId
      → Aabb
      → List ShipId
      → ℕ
      → Bool
      → ShipManager
      → Option (List (Checked Single)) × ShipManager
  boost_moves i bounds enemies zero failed m = (some [], m)
  boost_moves i bounds enemies (suc n) true m = (some [], m)
  boost_moves i bounds enemies (suc n) false m =
      let moved = general_movement_inner 0 i bounds enemies steer_boost m in
      let later = boost_moves i bounds enemies n (not (is_fine moved.0)) moved.1.0 in
      elim moved.0 [
        | panic ↦ (none, moved.1.0)
        | ok s ↦ (also (ok s) later.0, later.1)
        | err e ↦ (also (err e) later.0, later.1)
      ]
    where
      is_fine : Checked Single → Bool
      is_fine (ok s) = true
      is_fine (err e) = false
      is_fine panic = false

      also : Checked Single → Option (List (Checked Single)) → Option (List (Checked Single))
      also r none = none
      also r (some rs) = some (r ∷ rs)

  -- The closure of an engine boost. Without any move, and in a boost of a missing ship, it panics.
  unfoldable pub boost :
      ShipId
      → Aabb
      → List ShipId
      → ShipManager
      → CruiserBalancing
      → Checked (Direction × List (Checked Single)) × ShipManager
  boost i bounds enemies m balancing = elim (get_by_id i m) [
    | none ↦ (panic, m)
    | some s ↦
        let moved = boost_moves i bounds enemies balancing.engine_boost_distance false m in
        elim moved.0 [
          | none ↦ (panic, moved.1)
          | some [] ↦ (panic, moved.1)
          | some (ok first ∷ rest) ↦ (ok (direction_of (orientation s), ok first ∷ rest), moved.1)
          | some (err e ∷ rest) ↦ (err e, moved.1)
          | some (panic ∷ rest) ↦ (panic, moved.1)
        ]
  ]

  unfoldable pub boost_at : Turn → ShipId → Game → Executed ActionResult × Game
  boost_at t i game = elim (enemy_team i.0 game) [
    | err e ↦ (err (validation e), game)
    | panic ↦ (panic, game)
    | ok enemies ↦
        let moved =
          Abilities.engine_boost t.action_points_left i
            (boost i (board_bounds game.config) (get_for_players enemies game.ships)) game.ships in
        (validated moved.0 >>= λ r. ok (boosted r.0 (map validated r.1)), resume game t moved.1)
  ]

  unfoldable pub boost_engine : ShipId → Game → Executed ActionResult × Game
  boost_engine i game = in_turn i.0 game (λ t. boost_at t i game)
