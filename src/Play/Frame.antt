-- ===== src/Play/Frame.antt =====
-- What an action leaves alone: the phase, and what belongs to the other phases.
use battleship_plus.Base.{nat_eq, nat_pair_eq, ℕ, ◌≡◌, refl, inl, inr}
use battleship_plus.Base.{Bool, true, Option, none, some, List, arith, Bool-cases, Option-cases}
use battleship_plus.Base.Collections.{HashMap, HashSet, get, insert_back}
use battleship_plus.Rstar.{Geometry}
use battleship_plus.Types.{Config, Coordinate, Direction, ShipId, PlayerId, Result-cases}
use battleship_plus.ShipTree.{Index}
use battleship_plus.Ship.{Ship}
use battleship_plus.Game.{
  Game, GameState, lobby, preparation, in_game, Player, Turn, ShipAssignment, unready_players,
}
use battleship_plus.Movement.{Steering, general_movement, steer_move, steer_rotation}
use battleship_plus.Orders.{Protocol, Action, Executed, is_action_valid}
use battleship_plus.Turns.{
  in_turn, take_shot, send_plane, launch_missile, launch_torpedo, launch_volley, boost_engine,
  shoot_at, plane_at, missile_at, torpedo_at, volley_at, boost_at, check_turn,
}
use battleship_plus.Play.{switch_team, make_ready, place_fleet, apply_on, execute_action}

module _ ⦃g : Geometry⦄ ⦃index : Index⦄ where
  -- The rules of a game and its phase.
  abbrev pub Frame : Type 0
  Frame = Config × GameState

  abbrev pub frame : Game → Frame
  frame game = (game.config, game.state)

  -- The players and their teams.
  abbrev pub Roll : Type 0
  Roll = HashMap PlayerId Player × HashSet PlayerId × HashSet PlayerId

  abbrev pub roll : Game → Roll
  roll game = (game.players, game.team_a, game.team_b)

  -- All but the ships and the turn is as before.
  abbrev pub Fights : Game → Game → Type 0
  Fights before after = (frame after ≡ frame before) × (roll after ≡ roll before)

  -- All but the players and their teams is as before.
  abbrev pub Musters : Game → Game → Type 0
  Musters before after =
      (frame after ≡ frame before) × (after.ships ≡ before.ships) × (after.turn ≡ before.turn)

  switch_team-Musters : (p : PlayerId) (game : Game) → Musters game (switch_team p game).1
  unfolding switch_team unready_players
  switch_team-Musters p game = (ground arith, ground arith, ground arith)

  make_ready-Musters :
      (p : PlayerId) (r : Bool) (game : Game) → Musters game (make_ready p r game).1
  unfolding make_ready
  make_ready-Musters p r game = (ground arith, ground arith, ground arith)

  in_turn-Fights :
      {A : Type 0} (player : PlayerId) (game : Game) (act : Turn → Executed A × Game)
      → ((t : Turn) → Fights game (act t).1)
      → Fights game (in_turn player game act).1
  in_turn-Fights player game act each = elim (Result-cases (check_turn player game)) [
    | inr (inl (x, e)) ↦ rw (e, in_turn) (refl, refl)
    | inr (inr e) ↦ rw (e, in_turn) (refl, refl)
    | inl (t, e) ↦ rw (e, in_turn) (each t)
  ]

  shoot_at-Fights :
      (t : Turn) (i : ShipId) (c : Option Coordinate) (game : Game)
      → Fights game (shoot_at t i c game).1
  unfolding shoot_at
  shoot_at-Fights t i none game = (refl, refl)
  shoot_at-Fights t i (some c) game = elim (Option-cases (get i.0 game.players)) [
    | inl absent ↦ rw (absent, shoot_at) (refl, refl)
    | inr (player, there) ↦
        let same = insert_back i.0 player game.players there in
        rw (there, shoot_at) (ground arith, ground (arith, same))
  ]

  plane_at-Fights :
      (t : Turn) (i : ShipId) (c : Option Coordinate) (game : Game)
      → Fights game (plane_at t i c game).1
  unfolding plane_at
  plane_at-Fights t i c game = (ground arith, ground arith)

  missile_at-Fights :
      (t : Turn) (i : ShipId) (c : Option Coordinate) (game : Game)
      → Fights game (missile_at t i c game).1
  unfolding missile_at
  missile_at-Fights t i none game = (refl, refl)
  missile_at-Fights t i (some c) game = (refl, refl)

  torpedo_at-Fights :
      (t : Turn) (i : ShipId) (d : Option Direction) (game : Game)
      → Fights game (torpedo_at t i d game).1
  unfolding torpedo_at
  torpedo_at-Fights t i none game = (refl, refl)
  torpedo_at-Fights t i (some d) game = (refl, refl)

  volley_at-Fights :
      (t : Turn) (i : ShipId) (l : Option (List Coordinate)) (game : Game)
      → Fights game (volley_at t i l game).1
  unfolding volley_at
  volley_at-Fights t i none game = (refl, refl)
  volley_at-Fights t i (some l) game = (refl, refl)

  boost_at-Fights : (t : Turn) (i : ShipId) (game : Game) → Fights game (boost_at t i game).1
  unfolding boost_at
  boost_at-Fights t i game = (ground arith, ground arith)

  general_movement-Fights :
      (i : ShipId) (act : Steering) (game : Game) → Fights game (general_movement i act game).1
  unfolding general_movement
  general_movement-Fights i act game = (ground arith, ground arith)

module _ ⦃g : Geometry⦄ ⦃index : Index⦄ (protocol : Protocol)
    (in_order : List (ℕ × ShipAssignment) → List (ℕ × ShipAssignment))
    (ships_in_order : HashMap ShipId Ship → List (ShipId × Ship)) where
  -- What an action in a phase may change: the players and teams in the lobby, the ships before the
  -- fight, and the ships and the turn during it.
  abbrev pub Confined : Game → Game → Type 0
  Confined before after =
      (frame after ≡ frame before)
      × (before.state ≡ lobby → (after.ships ≡ before.ships) × (after.turn ≡ before.turn))
      × (before.state ≡ preparation → (roll after ≡ roll before) × (after.turn ≡ before.turn))
      × (before.state ≡ in_game → roll after ≡ roll before)

  place_fleet-Confined :
      (p : PlayerId) (l : List ShipAssignment) (game : Game)
      → game.state ≡ preparation
      → Confined game (place_fleet protocol in_order ships_in_order p l game).1
  unfolding place_fleet
  place_fleet-Confined p l game e = (
    ground arith,
    λ f. absurd (ground arith),
    λ f. (ground arith, ground arith),
    λ f. absurd (ground arith),
  )

  mustered :
      (before after : Game) → before.state ≡ lobby → Musters before after → Confined before after
  mustered before after e (same, ships, turn) =
      (same, λ f. (ships, turn), λ f. absurd (ground arith), λ f. absurd (ground arith))

  fought :
      (before after : Game) → before.state ≡ in_game → Fights before after → Confined before after
  fought before after e (same, people) =
      (same, λ f. absurd (ground arith), λ f. absurd (ground arith), λ f. people)

  apply_on-Confined :
      (action : Action) (game : Game)
      → is_action_valid game.state action ≡ true
      → Confined game (apply_on protocol in_order ships_in_order action game).1
  unfolding apply_on is_action_valid take_shot send_plane launch_missile launch_torpedo
      launch_volley boost_engine
  apply_on-Confined (Action.team_switch p) game e =
      mustered game _ (ground arith) (switch_team-Musters p game)
  apply_on-Confined (Action.set_ready p r) game e =
      mustered game _ (ground arith) (make_ready-Musters p r game)
  apply_on-Confined (Action.place_ships p l) game e = place_fleet-Confined p l game (ground arith)
  apply_on-Confined (Action.move i d) game e =
      fought game _ (ground arith)
        (general_movement-Fights i (steer_move (protocol.move_direction d)) game)
  apply_on-Confined (Action.rotate i d) game e =
      fought game _ (ground arith)
        (general_movement-Fights i (steer_rotation (protocol.rotate_direction d)) game)
  apply_on-Confined (Action.shoot i c) game e =
      fought game _ (ground arith) (in_turn-Fights i.0 game _ (λ t. shoot_at-Fights t i c game))
  apply_on-Confined (Action.scout_plane i c) game e =
      fought game _ (ground arith) (in_turn-Fights i.0 game _ (λ t. plane_at-Fights t i c game))
  apply_on-Confined (Action.predator_missile i c) game e =
      fought game _ (ground arith) (in_turn-Fights i.0 game _ (λ t. missile_at-Fights t i c game))
  apply_on-Confined (Action.engine_boost i) game e =
      fought game _ (ground arith) (in_turn-Fights i.0 game _ (λ t. boost_at-Fights t i game))
  apply_on-Confined (Action.torpedo i d) game e =
      fought game _ (ground arith) (
        in_turn-Fights i.0 game _ (λ t. torpedo_at-Fights t i (protocol.direction_from_i32 d) game))
  apply_on-Confined (Action.multi_missile i a b c) game e =
      fought game _ (ground arith) (in_turn-Fights i.0 game _ (λ t. volley_at-Fights t i _ game))
  apply_on-Confined Action.idle game e = (refl, λ f. (refl, refl), λ f. (refl, refl), λ f. refl)

  -- No action changes the rules or the phase of a game; in the lobby none changes the ships or the
  -- turn, in the preparation none the players, the teams or the turn, and during the fight none the
  -- players or the teams.
  pub execute_action-Confined :
      (action : Action) (game : Game)
      → Confined game (execute_action protocol in_order ships_in_order action game).1
  unfolding execute_action
  execute_action-Confined action game = elim (Bool-cases (is_action_valid game.state action)) [
    | inl e ↦ rw e (apply_on-Confined action game e)
    | inr e ↦ rw e (refl, λ f. (refl, refl), λ f. (refl, refl), λ f. refl)
  ]
