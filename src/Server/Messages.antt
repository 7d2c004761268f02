-- ===== src/Server/Messages.antt =====
-- The messages that crates/battleship_plus_server/src/server.rs receives and sends, and which of them
-- a phase of the game allows (game/states.rs, game/actions.rs). Their types are generated code; texts
-- are left out.
use battleship_plus.Base.{
  nat_eq, nat_pair_eq, ℕ, Bool, true, false, Option, none, some, List, [], ◌∷◌,
}
use battleship_plus.Base.{if◌then◌else◌}
use battleship_plus.Base.Int.{ℤ}
use battleship_plus.Base.Words.{as_u32}
use battleship_plus.Types.{Config, Coordinate, PlayerId, ShipType, Direction, Result, ok, err}
use battleship_plus.Game.{GameState, lobby, preparation, in_game, ShipAssignment, Teams}
use battleship_plus.Ship.{
  Ship, Cooldown, movement, rotate, cannon, ability, ship_type, position, orientation, direction_of,
  health, cool_downs, get_player_id, remaining_rounds,
}
use battleship_plus.Orders.{Action, ActionExecutionError}

abbrev pub ClientId : Type 0
ClientId = ℕ

-- The properties of a `ShipActionRequest`.
pub data ActionProperties : Type 0 where
  move_properties rotate_properties torpedo_properties : ℤ → ActionProperties
  shoot_properties scout_plane_properties predator_missile_properties :
      Option Coordinate → ActionProperties
  multi_missile_properties :
      Option Coordinate → Option Coordinate → Option Coordinate → ActionProperties
  engine_boost_properties : ActionProperties

pub record ShipActionRequest : Type 0 where
  pub ship_number : ℕ
  pub action_properties : Option ActionProperties

-- The messages that clients send; `event_message` and `other` are for the server to send.
pub data Inbound : Type 0 where
  server_config_request team_switch_request server_state_request : Inbound
  join_request : List ℕ → Inbound
  set_ready_state_request : Bool → Inbound
  set_placement_request : List ShipAssignment → Inbound
  action_request : ShipActionRequest → Inbound
  status_message server_advertisement event_message other : Inbound

pub data Refusal : Type 0 where
  not_server_bound : Refusal
  not_in_phase : GameState → Refusal

unfoldable pub expects : GameState → Inbound → Bool
expects state server_config_request = true
expects lobby (join_request name) = true
expects lobby team_switch_request = true
expects lobby (set_ready_state_request r) = true
expects preparation (set_placement_request l) = true
expects in_game server_state_request = true
expects in_game (action_request r) = true
expects _ _ = false

unfoldable pub client_bound : Inbound → Bool
client_bound status_message = true
client_bound server_advertisement = true
client_bound event_message = true
client_bound _ = false

unfoldable pub validate_inbound_message_allowed : GameState → Inbound → Result Refusal (Unit {0})
unfolding expects client_bound
validate_inbound_message_allowed state msg =
    if client_bound msg
    then err not_server_bound
    else if expects state msg
    then ok tt
    else err (not_in_phase state)

-- `From<(ClientId, &ShipActionRequest)> for Action`
unfoldable pub action_of : ClientId → ShipActionRequest → Action
action_of client request = elim request.action_properties [
  | none ↦ Action.idle
  | some p ↦ elim p [
    | move_properties d ↦ Action.move (client, request.ship_number) d
    | rotate_properties d ↦ Action.rotate (client, request.ship_number) d
    | torpedo_properties d ↦ Action.torpedo (client, request.ship_number) d
    | shoot_properties c ↦ Action.shoot (client, request.ship_number) c
    | scout_plane_properties c ↦ Action.scout_plane (client, request.ship_number) c
    | predator_missile_properties c ↦ Action.predator_missile (client, request.ship_number) c
    | multi_missile_properties a b c ↦ Action.multi_missile (client, request.ship_number) a b c
    | engine_boost_properties ↦ Action.engine_boost (client, request.ship_number)
  ]
]

pub data StatusCode : Type 0 where
  fine fine_with_warning bad_request username_is_taken insufficient_resources : StatusCode
  invalid_move server_error unsupported_version : StatusCode

pub record ShipState : Type 0 where
  pub type_of_ship : ShipType
  pub position : Coordinate
  pub direction : Direction
  pub health : ℕ
  pub owner_id : PlayerId
  pub remaining_cooldown_move : ℕ
  pub remaining_cooldown_rotate : ℕ
  pub remaining_cooldown_shoot : ℕ
  pub remaining_cooldown_ability : ℕ

pub record ServerState : Type 0 where
  pub team_ships : List ShipState
  pub action_points : ℕ
  pub visible_hostile_ships : List Coordinate

pub record PlayerLobbyState : Type 0 where
  pub ready : Bool
  pub player_id : PlayerId
  pub name : List ℕ

-- The data of a status message.
pub data StatusData : Type 0 where
  no_data team_switch_response set_ready_state_response : StatusData
  placement_response ship_action_response : StatusData
  server_config_response : Config → StatusData
  join_response : PlayerId → StatusData
  server_state_response : ServerState → StatusData

pub data Outbound : Type 0 where
  status : StatusCode → StatusData → Outbound
  lobby_change_event : List PlayerLobbyState → List PlayerLobbyState → Outbound
  placement_phase : Coordinate → ℕ → Outbound
  game_start : ServerState → Outbound
  next_turn : PlayerId → Outbound
  ship_action_event : ℕ → Option ActionProperties → Outbound
  vision_event : List Coordinate → List Coordinate → Outbound
  hit_event : Coordinate → ℕ → Outbound
  destruction_event : Coordinate → Direction → ℕ → PlayerId → Outbound
  splash_event : List Coordinate → Outbound
  -- The winner, and whether the game came to its regular end.
  game_over_event : Option Teams → Bool → Outbound

pub data MessageHandlerError : Type 0 where
  network broadcast : MessageHandlerError
  protocol : ActionExecutionError → MessageHandlerError
  invalid_inbound_message : Refusal → MessageHandlerError

-- `find` with `map_or(0, ...)`.
first_rounds : (Cooldown → Bool) → List Cooldown → ℕ
first_rounds p [] = 0
first_rounds p (c ∷ cs) = if p c then remaining_rounds c else first_rounds p cs

is_movement : Cooldown → Bool
is_movement (movement n) = true
is_movement _ = false

is_rotate : Cooldown → Bool
is_rotate (rotate n) = true
is_rotate _ = false

is_cannon : Cooldown → Bool
is_cannon (cannon n) = true
is_cannon _ = false

is_ability : Cooldown → Bool
is_ability (ability n) = true
is_ability _ = false

unfoldable pub create_ship_state : Ship → ShipState
unfolding first_rounds is_movement is_rotate is_cannon is_ability
create_ship_state ship = record {
  type_of_ship = ship_type ship;
  position = (as_u32 (position ship).0, as_u32 (position ship).1);
  direction = direction_of (orientation ship);
  health = health ship;
  owner_id = get_player_id ship;
  remaining_cooldown_move = first_rounds is_movement (cool_downs ship);
  remaining_cooldown_rotate = first_rounds is_rotate (cool_downs ship);
  remaining_cooldown_shoot = first_rounds is_cannon (cool_downs ship);
  remaining_cooldown_ability = first_rounds is_ability (cool_downs ship);
}
