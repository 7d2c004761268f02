-- ===== src/Orders.antt =====
-- crates/battleship_plus_server/src/game/actions.rs and states.rs: the actions, their results and
-- errors, and the actions that a phase of the game allows. The enumerations of the protocol are
-- decoded by generated code, which is a parameter.
use battleship_plus.Base.{Bool, true, false, Option, List}
use battleship_plus.Base.Int.{ℤ}
use battleship_plus.Types.{
  ShipId, PlayerId, Coordinate, Direction, ShipType, MoveDirection, RotateDirection, Result,
  ActionValidationError, ok, err, panic,
}
use battleship_plus.Game.{GameState, lobby, preparation, in_game, ShipAssignment}
use battleship_plus.Results.{Single}

-- The decoding of the enumerations of the protocol. The accessors of the movements yield a default
-- for an unknown number.
pub record Protocol : Type 0 where
  pub ship_type_from_i32 : ℤ → Option ShipType
  pub direction_from_i32 : ℤ → Option Direction
  pub move_direction : ℤ → MoveDirection
  pub rotate_direction : ℤ → RotateDirection

pub data Action : Type 0 where
  team_switch : PlayerId → Action
  set_ready : PlayerId → Bool → Action
  place_ships : PlayerId → List ShipAssignment → Action
  move : ShipId → ℤ → Action
  rotate : ShipId → ℤ → Action
  shoot : ShipId → Option Coordinate → Action
  scout_plane : ShipId → Option Coordinate → Action
  predator_missile : ShipId → Option Coordinate → Action
  engine_boost : ShipId → Action
  torpedo : ShipId → ℤ → Action
  multi_missile : ShipId → Option Coordinate → Option Coordinate → Option Coordinate → Action
  idle : Action

pub data ActionExecutionError : Type 0 where
  validation : ActionValidationError → ActionExecutionError
  out_of_state : GameState → ActionExecutionError
  inconsistent_state bad_request : ActionExecutionError

abbrev pub Executed : Type 0 → Type 0
Executed = Result ActionExecutionError

-- The moves of an engine boost report one by one; each that succeeds reports a `Single`.
pub data ActionResult : Type 0 where
  nothing : ActionResult
  single : Single → ActionResult
  boosted : Direction → List (Executed Single) → ActionResult

-- `map_err(ActionExecutionError::Validation)`
unfoldable pub validated : {A : Type 0} → Result ActionValidationError A → Executed A
validated (ok a) = ok a
validated (err e) = err (validation e)
validated panic = panic

unfoldable pub is_action_valid : GameState → Action → Bool
is_action_valid lobby (team_switch p) = true
is_action_valid lobby (set_ready p r) = true
is_action_valid preparation (place_ships p l) = true
is_action_valid in_game (move i d) = true
is_action_valid in_game (rotate i d) = true
is_action_valid in_game (shoot i t) = true
is_action_valid in_game (scout_plane i c) = true
is_action_valid in_game (predator_missile i c) = true
is_action_valid in_game (engine_boost i) = true
is_action_valid in_game (torpedo i d) = true
is_action_valid in_game (multi_missile i a b c) = true
is_action_valid _ _ = false
