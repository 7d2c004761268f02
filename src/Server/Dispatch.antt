-- ===== src/Server/Dispatch.antt =====
-- crates/battleship_plus_server/src/server.rs: the handling of each message of a client. The decoding of
-- the protocol's enumerations, the orders of hash maps and the random choices are parameters.
use battleship_plus.Base.{
  nat_eq, nat_pair_eq, ℕ, Bool, true, false, Option, none, some, List, [], ◌∷◌, nat_beq,
  if◌then◌else◌,
}
use battleship_plus.Base.Int.{ℤ}
use battleship_plus.Base.Collections.{HashMap, get, contains}
use battleship_plus.Base.Counts.{keys}
use battleship_plus.Rstar.{Geometry}
use battleship_plus.Types.{Config, PlayerId, ShipId, Direction, not_players_turn, ok, err, panic}
use battleship_plus.Board.{Quadrant}
use battleship_plus.ShipTree.{Index}
use battleship_plus.Ship.{Ship}
use battleship_plus.Game.{Turn, in_game, ShipAssignment, advance_turn, can_change_into_game_phase}
use battleship_plus.Results.{Single}
use battleship_plus.Orders.{
  Protocol, Action, Executed, ActionResult, nothing, single, boosted, validation, out_of_state,
}
use battleship_plus.Play.{execute_action}
use battleship_plus.Server.Messages
use battleship_plus.Server.Messages.{
  ClientId, Inbound, ShipActionRequest, action_of, validate_inbound_message_allowed, status,
  no_data, protocol, invalid_inbound_message, fine, fine_with_warning, server_config_response,
  team_switch_response, set_ready_state_response, placement_response, server_state_response,
  ship_action_response, ship_action_event, vision_event, next_turn,
}
use battleship_plus.Server.Lobby.{
  broadcast_lobby_change_event, handle_join, action_validation_error_reply, start_preparation,
}
use battleship_plus.Server.Views.{
  of_team, team_views, get_server_state_for_player, broadcast_game_start, broadcast_game_result,
  handle_action_result,
}
use battleship_plus.Server.{
  Channels, Handler, ◌>>=◌, ◌>>◌, pure, fails, crashes, read_game, write_game, send_message,
  send_broadcast, broadcast_message, disconnect_client, for_each, attempt,
}

-- What the server draws on: the decoding of the protocol's enumerations and the encoding of a
-- direction, the orders in which maps are read, and the random choices.
pub record Surroundings : Type 0 where
  pub protocol : Protocol
  pub direction_to_i32 : Direction → ℤ
  pub in_order : List (ℕ × ShipAssignment) → List (ℕ × ShipAssignment)
  pub ships_in_order : HashMap ShipId Ship → List (ShipId × Ship)
  pub choose : List PlayerId → Option PlayerId
  pub coin : Bool
  pub dealt : List Quadrant → List Quadrant

module _ ⦃g : Geometry⦄ ⦃index : Index⦄ ⦃channels : Channels⦄ (around : Surroundings) where
  open around use {
    protocol as decoding, direction_to_i32, in_order, ships_in_order, choose, coin, dealt,
  }

  -- Runs an action on the game; its error is a value.
  unfoldable pub executed : Action → Handler (Executed ActionResult)
  executed action w =
      let r = execute_action decoding in_order ships_in_order action w.game in
      elim r.0 [
        | panic ↦ (panic, record w { game = r.1 })
        | ok a ↦ (ok (ok a), record w { game = r.1 })
        | err e ↦ (ok (err e), record w { game = r.1 })
      ]

  -- An action whose error is that of the handler.
  unfoldable pub performed : Action → Handler ActionResult
  performed action = executed action >>= λ r. elim r [
    | ok a ↦ pure a
    | err e ↦ fails (Messages.protocol e)
    | panic ↦ crashes
  ]

  -- An action of the lobby, with its reply and the news for all.
  unfoldable pub handle_lobby_action : ClientId → Action → Messages.StatusData → Handler Bool
  handle_lobby_action client action reply = executed action >>= λ r. elim r [
    | panic ↦ crashes
    | err e ↦ (action_validation_error_reply client e >> pure false)
    | ok a ↦ do
      send_message client (status fine reply)
      game ← read_game
      broadcast_lobby_change_event game
      pure true
  ]

  unfoldable pub handle_set_ready : ClientId → Bool → Handler (Unit {0})
  handle_set_ready client ready =
      handle_lobby_action client (Action.set_ready client ready) set_ready_state_response
      >>= λ done. if done then start_preparation dealt else pure tt

  -- `advance_turn`; without players it panics.
  unfoldable pub advance : Handler Turn
  advance w = elim (advance_turn choose w.game) [
    | none ↦ (panic, w)
    | some (turn, game) ↦ (ok turn, record w { game = game })
  ]

  unfoldable pub handle_placement : ClientId → List ShipAssignment → Handler (Unit {0})
  unfolding advance
  handle_placement client assignments = do
    _ ← performed (Action.place_ships client assignments)
    send_message client (status fine placement_response)
    game ← read_game
    if can_change_into_game_phase game
        then (write_game (record game { state = in_game }) >> advance >>= λ turn.
            read_game >>= λ after. broadcast_game_start after)
        else pure tt

  unfoldable pub handle_server_state : ClientId → Handler (Unit {0})
  handle_server_state client = do
    game ← read_game
    elim (get client game.players) [
      | none ↦ send_message client (status Messages.bad_request no_data)
      | some player ↦ elim (team_views game) [
        | none ↦ crashes
        | some (ships, seen) ↦ elim (get_server_state_for_player player game ships seen) [
          | none ↦ crashes
          | some state ↦ send_message client (status fine (server_state_response state))
        ]
      ]
    ]

  unfoldable pub clear_temp_vision_and_advance_turn : List PlayerId → Handler Turn
  unfolding advance
  clear_temp_vision_and_advance_turn team = do
    game ← read_game
    elim game.turn [
      | none ↦ pure tt
      | some t ↦ elim t.temp_vision [
        | [] ↦ pure tt
        | c ∷ cs ↦ send_broadcast team (vision_event [] t.temp_vision)
      ]
    ]
    advance

  -- The report of an action to the players, and the end of the game when it has come.
  unfoldable pub report_result : ClientId → Single → Handler (Unit {0})
  report_result client result = do
    outcome ← handle_action_result client result
    game ← read_game
    broadcast_game_result outcome (keys game.players)

  -- The reports of an action.
  unfoldable pub report_action : ClientId → ℕ → List PlayerId → ActionResult → Handler (Unit {0})
  unfolding report_result
  report_action client number team nothing = pure tt
  report_action client number team (single result) = report_result client result
  report_action client number team (boosted direction results) = for_each results (λ r. elim r [
    | panic ↦ crashes
    | err e ↦ send_message client (status fine_with_warning no_data)
    | ok result ↦ do
      send_broadcast team
          (ship_action_event number (some (Messages.move_properties (direction_to_i32 direction))))
      report_result client result
  ])

  -- An action of the player whose turn it is, in a team.
  unfoldable pub act : ClientId → ShipActionRequest → List PlayerId → Handler (Unit {0})
  act client request team = do
    result ← performed (action_of client request)
    send_broadcast team (ship_action_event request.ship_number request.action_properties)
    report_action client request.ship_number team result
    send_message client (status fine ship_action_response)

  -- A request without an action ends the turn.
  unfoldable pub end_turn : List PlayerId → Handler (Unit {0})
  end_turn team = do
    turn ← clear_temp_vision_and_advance_turn team
    broadcast_message (next_turn turn.player_id)

  unfoldable pub handle_action_request : ClientId → ShipActionRequest → Handler (Unit {0})
  unfolding act end_turn
  handle_action_request client request = do
    game ← read_game
    elim game.turn [
      | none ↦ fails (Messages.protocol (out_of_state game.state))
      | some turn ↦
          if nat_beq turn.player_id client
          then elim (of_team (contains turn.player_id game.team_a)
              (contains turn.player_id game.team_b) (game.team_a, game.team_b)) [
                | none ↦ crashes
                | some team ↦ elim request.action_properties [
                  | none ↦ end_turn team
                  | some p ↦ act client request team
                ]
              ]
          else fails (Messages.protocol (validation not_players_turn))
    ]

  -- What a message is answered with, once it is allowed.
  unfoldable pub handle_allowed : Config → ClientId → Inbound → Handler (Unit {0})
  handle_allowed config client Messages.server_config_request =
      send_message client (status fine (server_config_response config))
  handle_allowed config client (Messages.join_request name) = handle_join coin client name
  handle_allowed config client Messages.team_switch_request =
      handle_lobby_action client (Action.team_switch client) team_switch_response >>= λ _. pure tt
  handle_allowed config client (Messages.set_ready_state_request r) = handle_set_ready client r
  handle_allowed config client (Messages.set_placement_request l) = handle_placement client l
  handle_allowed config client Messages.server_state_request = handle_server_state client
  handle_allowed config client (Messages.action_request r) = handle_action_request client r
  handle_allowed config client _ = do
    send_message client (status Messages.bad_request no_data)
    disconnect_client client

  unfoldable pub handle_message : Config → ClientId → Inbound → Handler (Unit {0})
  handle_message config client msg = do
    game ← read_game
    elim (validate_inbound_message_allowed game.state msg) [
      | ok _ ↦ handle_allowed config client msg
      | panic ↦ crashes
      | err reason ↦
          send_message client (status Messages.bad_request no_data)
          >> fails (invalid_inbound_message reason)
    ]

  -- A payload of a client; an error is answered, and the server goes on.
  unfoldable pub handle_payload : Config → ClientId → Option Inbound → Handler (Unit {0})
  handle_payload config client none w = (ok tt, w)
  handle_payload config client (some msg) w =
      let r = handle_message config client msg w in
      elim r.0 [
        | ok _ ↦ (ok tt, r.1)
        | panic ↦ (panic, r.1)
        | err e ↦ attempt (send_message client (status Messages.bad_request no_data)) r.1
      ]
