-- ===== src/Game.antt =====
-- crates/battleship_plus_server/src/game/data.rs: the state of a game, the change between its
-- phases, the placement of ships, the turns and the result. The `from_i32` functions of the
-- generated message types, the order in which a hash map is read and the random choice of a player
-- are parameters.
pub mod Outcome
pub mod Rounds
pub mod Placements
use battleship_plus.Base.{
  nat_eq, nat_pair_eq, ℕ, suc, ◌-◌, Bool, true, false, ◌&&◌, not, Option, none, some,
}
use battleship_plus.Base.{
  List, [], ◌∷◌, map, any, filter_map, length, get_elem?, if◌then◌else◌, ltb, nat_beq,
}
use battleship_plus.Base.Int.{ℤ}
use battleship_plus.Base.Collections
use battleship_plus.Base.Collections.{HashMap, HashSet, get, contains, remove_set}
use battleship_plus.Rstar.{Geometry}
use battleship_plus.Types.{
  Config, ShipType, Direction, PlayerId, ShipId, Coordinate, ShipPlacementError,
}
use battleship_plus.Types.{
  player_not_in_game, player_has_already_placed_ships, invalid_ship_set, invalid_ship_number,
}
use battleship_plus.Types.{invalid_ship_direction, invalid_ship_position, ship_out_of_quadrant}
use battleship_plus.Types.{Result, ok, err, panic, ◌>>=◌, ◌>>◌, unwrap, ensure}
use battleship_plus.Board.{Quadrant, below, quadrant_from_corner}
use battleship_plus.ShipTree.{Index}
use battleship_plus.Ship
use battleship_plus.Ship.{
  Ship, Cooldown, movement, rotate, cannon, ability, orientation_of, cool_downs, set_cool_downs,
  new_from_type,
}
use battleship_plus.ShipManager.{ShipManager, new, get_by_id, get_for_players, place_ship}

pub data GameState : Type 0 where
  lobby preparation in_game : GameState

pub data Teams : Type 0 where
  team_a team_b : Teams

pub data GameResult : Type 0 where
  pending draw : GameResult
  win : Teams → GameResult

pub record Player : Type 0 where
  pub id : PlayerId
  pub name : List ℕ
  pub is_ready : Bool
  pub quadrant : Option Quadrant

pub record Turn : Type 0 where
  pub player_id : PlayerId
  pub action_points_left : ℕ
  pub temp_vision : HashSet Coordinate

pub record ShipAssignment : Type 0 where
  pub coordinate : Option Coordinate
  pub direction : ℤ

-- `Turn::new`
unfoldable pub new_turn : PlayerId → ℕ → Turn
new_turn player points = record {
  player_id = player;
  action_points_left = points;
  temp_vision = [];
}

-- `retain_mut` of the cooldowns at the end of a turn.
unfoldable pub tick : Cooldown → Option Cooldown
tick (movement n) = if ltb 0 (n - 1) then some (movement (n - 1)) else none
tick (rotate n) = if ltb 0 (n - 1) then some (rotate (n - 1)) else none
tick (cannon n) = if ltb 0 (n - 1) then some (cannon (n - 1)) else none
tick (ability n) = if ltb 0 (n - 1) then some (ability (n - 1)) else none

-- A ship after a turn.
unfoldable pub rested : Ship → Ship
rested s = set_cool_downs s (filter_map tick (cool_downs s))

require : {E A : Type 0} → Option A → E → Result E A
require none e = err e
require (some a) e = ok a

-- `enumerate`
unfoldable pub numbered : {A : Type 0} → ℕ → List A → List (ℕ × A)
numbered n [] = []
numbered n (x ∷ xs) = (n, x) ∷ numbered (suc n) xs

module _ ⦃g : Geometry⦄ ⦃index : Index⦄ where
  open g use {Aabb, contains_envelope}

  pub record Game : Type 0 where
    pub config : Config
    pub players : HashMap PlayerId Player
    pub team_a : HashSet PlayerId
    pub team_b : HashSet PlayerId
    pub ships : ShipManager
    pub state : GameState
    pub turn : Option Turn

  -- `Game::new`
  unfoldable pub new_game : Config → Game
  new_game config = record {
    config = config;
    players = [];
    team_a = [];
    team_b = [];
    ships = new;
    state = lobby;
    turn = none;
  }

  is_lobby : GameState → Bool
  is_lobby lobby = true
  is_lobby preparation = false
  is_lobby in_game = false

  is_preparation : GameState → Bool
  is_preparation lobby = false
  is_preparation preparation = true
  is_preparation in_game = false

  unfoldable pub can_change_into_preparation_phase : Game → Bool
  unfolding is_lobby
  can_change_into_preparation_phase game =
      is_lobby game.state
      && (nat_beq (length game.team_a) game.config.team_size_a
          && (nat_beq (length game.team_b) game.config.team_size_b
              && not (any (λ e. not e.1.is_ready) game.players)))

  is_some : {A : Type 0} → Option A → Bool
  is_some none = false
  is_some (some a) = true

  unfoldable pub check_players_placed_ships : List PlayerId → List ℤ → Game → Bool
  unfolding is_some below
  check_players_placed_ships team ship_set game = not (
      any (λ p. any (λ n. not (is_some (get_by_id (p, n) game.ships))) (below (length ship_set)))
        team)

  unfoldable pub can_change_into_game_phase : Game → Bool
  unfolding is_preparation
  can_change_into_game_phase game =
      is_preparation game.state
      && (check_players_placed_ships game.team_a game.config.ship_set_team_a game
          && check_players_placed_ships game.team_b game.config.ship_set_team_b game)

  unready : Player → Player
  unready p = record p { is_ready = false }

  unfoldable pub unready_players : Game → Game
  unfolding unready
  unready_players game = record game { players = map (λ e. (e.0, unready e.1)) game.players }

  -- Whether the game should be aborted, and the game without the player.
  unfoldable pub remove_player : PlayerId → Game → Bool × Game
  unfolding is_lobby
  remove_player player game = elim (get player game.players) [
    | none ↦ (false, game)
    | some p ↦ (
      not (is_lobby game.state),
      record game {
        players = Collections.remove player game.players;
        team_a = remove_set player game.team_a;
        team_b = remove_set player game.team_b;
      },
    )
  ]

  -- The set of ships of a player's team.
  unfoldable pub ship_set_of : PlayerId → Game → Result ShipPlacementError (List ℤ)
  ship_set_of player game =
      if contains player game.team_a
      then (if contains player game.team_b then panic else ok game.config.ship_set_team_a)
      else (if contains player game.team_b
          then ok game.config.ship_set_team_b
          else err player_not_in_game)

  module _ (ship_type_from_i32 : ℤ → Option ShipType)
      (direction_from_i32 : ℤ → Option Direction) where
    -- The ship that an assignment asks for.
    unfoldable pub assigned_ship :
        PlayerId → List ℤ → Aabb → Config → ℕ → ShipAssignment → Result ShipPlacementError Ship
    unfolding require
    assigned_ship player ship_set quadrant config number assignment = do
      ensure (ltb number (length ship_set)) invalid_ship_number
      wanted ← unwrap (get_elem? ship_set number)
      ship_type ← require (ship_type_from_i32 wanted) ShipPlacementError.invalid_ship_type
      direction ← require (direction_from_i32 assignment.direction) invalid_ship_direction
      position ← require assignment.coordinate invalid_ship_position
      ship ←
          unwrap
            (new_from_type ship_type (player, number) position (orientation_of direction) config)
      ensure (contains_envelope quadrant (Ship.envelope ship)) ship_out_of_quadrant
      ok ship

    -- Tries the assignments out on a manager of their own.
    unfoldable pub place_assignments :
        PlayerId
        → List ℤ
        → Aabb
        → Config
        → List (ℕ × ShipAssignment)
        → ShipManager
        → Result ShipPlacementError ShipManager
    place_assignments player ship_set quadrant config [] m = ok m
    place_assignments player ship_set quadrant config ((number, assignment) ∷ rest) m =
        elim (assigned_ship player ship_set quadrant config number assignment) [
          | err e ↦ err e
          | panic ↦ panic
          | ok ship ↦
              let placed = place_ship (player, number) ship m in
              elim placed.0 [
                | err e ↦ err e
                | panic ↦ panic
                | ok _ ↦ place_assignments player ship_set quadrant config rest placed.1
              ]
        ]

    -- `in_order` is the order in which the assignments, collected by their numbers, are read.
    unfoldable pub validate_placement_request :
        (List (ℕ × ShipAssignment) → List (ℕ × ShipAssignment))
        → PlayerId
        → List ShipAssignment
        → Game
        → Result ShipPlacementError (HashMap ShipId Ship)
    unfolding numbered below is_some
    validate_placement_request in_order player assignments game = do
      ship_set ← ship_set_of player game
      p ← unwrap (get player game.players)
      q ← unwrap p.quadrant
      ensure (not (any (λ n. is_some (get_by_id (player, n) game.ships)) (below (length ship_set))))
          player_has_already_placed_ships
      ensure (nat_beq (length assignments) (length ship_set)) invalid_ship_set
      m ←
          place_assignments player ship_set (quadrant_from_corner (q.0, q.1) q.2) game.config
            (in_order (numbered 0 assignments)) new
      ok m.ships

  -- `choose` is the random choice among the players; without players it panics.
  unfoldable pub advance_turn : (List PlayerId → Option PlayerId) → Game → Option (Turn × Game)
  advance_turn choose game = elim (choose (map (λ e. e.0) game.players)) [
    | none ↦ none
    | some player ↦
        let turn = new_turn player game.config.action_point_gain in
        let ships = record (game.ships) { ships = map (λ e. (e.0, rested e.1)) game.ships.ships } in
        some (turn, record game { ships = ships; turn = some turn })
  ]

  unfoldable pub game_result : Game → GameResult
  game_result game =
      let a = length (get_for_players game.team_a game.ships) in
      let b = length (get_for_players game.team_b game.ships) in
      if nat_beq a 0
      then (if nat_beq b 0 then draw else win Teams.team_b)
      else (if nat_beq b 0 then win Teams.team_a else pending)
