-- ===== src/Server/Lobby.antt =====
-- The lobby of crates/battleship_plus_server/src/server.rs: joining, teams, readiness, the start of the
-- preparation, and the end of a connection. The random choices are parameters.
use battleship_plus.Base.{
  nat_eq, nat_pair_eq, ℕ, Bool, true, false, ◌&&◌, Option, none, some, List, [], ◌∷◌, any, length,
  leb, ltb, nat_beq, if◌then◌else◌,
}
use battleship_plus.Base.Collections
use battleship_plus.Base.Collections.{HashMap, HashSet, get, contains, insert_set}
use battleship_plus.Base.Counts.{keys}
use battleship_plus.Rstar.{Geometry}
use battleship_plus.Types.{
  PlayerId, ActionValidationError, non_existent_player, non_existent_ship, on_cooldown,
  insufficient_points, unreachable, out_of_map, invalid_ship_placement, not_players_turn, ignored,
}
use battleship_plus.Board.{Quadrant, quadrants}
use battleship_plus.ShipTree.{Index}
use battleship_plus.Game.{
  Game, Player, lobby, preparation, in_game, GameState, unready_players, remove_player,
  can_change_into_preparation_phase,
}
use battleship_plus.Orders.{
  ActionExecutionError, validation, out_of_state, inconsistent_state, bad_request,
}
use battleship_plus.Server.Messages
use battleship_plus.Server.Messages.{
  ClientId, Outbound, PlayerLobbyState, StatusCode, status, no_data, lobby_change_event,
  placement_phase, protocol, game_over_event, join_response, username_is_taken,
  team_switch_response, set_ready_state_response,
}
use battleship_plus.Server.{
  Channels, Handler, ◌>>=◌, ◌>>◌, pure, fails, crashes, read_game, write_game, send_message,
  send_broadcast, broadcast_message, disconnect_client, finish_game, attempt,
  disconnect_all_clients,
}

unfoldable pub same_name : List ℕ → List ℕ → Bool
same_name [] [] = true
same_name (a ∷ as_) (b ∷ bs) = nat_beq a b && same_name as_ bs
same_name _ _ = false

-- The states of the players of a team; a player that is not in the game is a panic.
unfoldable pub build_team_states :
    List PlayerId → HashMap PlayerId Player → Option (List PlayerLobbyState)
build_team_states [] players = some []
build_team_states (i ∷ is) players =
    let rest = build_team_states is players in
    elim (get i players) [
      | none ↦ none
      | some p ↦ elim rest [
        | none ↦ none
        | some ps ↦ some (record { ready = p.is_ready; player_id = p.id; name = p.name } ∷ ps)
      ]
    ]

unfoldable pub in_lobby : GameState → Bool
in_lobby lobby = true
in_lobby preparation = false
in_lobby in_game = false

-- The code of the reply to an action that the validation refuses.
unfoldable pub reply_code : ActionValidationError → StatusCode
reply_code (non_existent_player p) = Messages.bad_request
reply_code (non_existent_ship i) = Messages.bad_request
reply_code (on_cooldown n) = Messages.insufficient_resources
reply_code (insufficient_points n) = Messages.insufficient_resources
reply_code unreachable = Messages.invalid_move
reply_code out_of_map = Messages.invalid_move
reply_code (invalid_ship_placement e) = Messages.bad_request
reply_code not_players_turn = Messages.invalid_move
reply_code ActionValidationError.invalid_ship_type = Messages.invalid_move
reply_code ignored = Messages.invalid_move

module _ ⦃g : Geometry⦄ ⦃index : Index⦄ where
  -- `coin` is the random choice of a team when none has room.
  unfoldable pub place_into_team : Bool → PlayerId → Game → Game
  place_into_team coin player game =
      let into_a = record game { team_a = insert_set player game.team_a } in
      let into_b = record game { team_b = insert_set player game.team_b } in
      let room_a = ltb (length game.team_a) game.config.team_size_a in
      let room_b = ltb (length game.team_b) game.config.team_size_b in
      if leb (length game.team_a) (length game.team_b)
      then (if room_a then into_a else if room_b then into_b else if coin then into_a else into_b)
      else (if room_b then into_b else if room_a then into_a else if coin then into_a else into_b)

  -- The game that a client has joined.
  unfoldable pub joined : Bool → ClientId → List ℕ → Game → Game
  joined coin client name game =
      let player : Player = record {
        id = client;
        name = name;
        is_ready = false;
        quadrant = none;
      } in
      unready_players (
        place_into_team coin client
          (record game { players = Collections.insert client player game.players }))

module _ ⦃g : Geometry⦄ ⦃index : Index⦄ ⦃channels : Channels⦄ where
  -- The news of two teams for all players.
  unfoldable pub announce :
      Game → Option (List PlayerLobbyState) → Option (List PlayerLobbyState) → Handler (Unit {0})
  announce game (some a) (some b) = send_broadcast (keys game.players) (lobby_change_event a b)
  announce game _ _ = crashes

  unfoldable pub broadcast_lobby_change_event : Game → Handler (Unit {0})
  broadcast_lobby_change_event game =
      announce game (build_team_states game.team_a game.players)
        (build_team_states game.team_b game.players)

  -- Sends a reply if a test says so, and goes on in any case.
  unfoldable pub reply_if : Bool → ClientId → StatusCode → Handler (Unit {0})
  reply_if true client code = send_message client (status code no_data)
  reply_if false client code = pure tt

  unfoldable pub handle_join : Bool → ClientId → List ℕ → Handler (Unit {0})
  unfolding reply_if
  handle_join coin client name = do
    game ← read_game
    reply_if (elim (get client game.players) [ none ↦ false | some p ↦ true ]) client
        Messages.bad_request
    reply_if (any (λ e. same_name e.1.name name) game.players) client username_is_taken
    write_game (joined coin client name game)
    send_message client (status Messages.fine (join_response client))
    broadcast_lobby_change_event (joined coin client name game)

  unfoldable pub action_validation_error_reply :
      ClientId → ActionExecutionError → Handler (Unit {0})
  action_validation_error_reply client (validation e) =
      send_message client (status (reply_code e) no_data)
  action_validation_error_reply client (out_of_state s) = do
    send_message client (status Messages.bad_request no_data)
    disconnect_client client
  action_validation_error_reply client inconsistent_state = do
    attempt (broadcast_message (status Messages.server_error no_data))
    finish_game
    fails (protocol inconsistent_state)
  action_validation_error_reply client bad_request = do
    send_message client (status Messages.bad_request no_data)
    disconnect_client client

  -- The quadrants are dealt from the end of the shuffled list.
  unfoldable pub deal : HashMap PlayerId Player → List Quadrant → Handler (Unit {0})
  deal [] qs = pure tt
  deal ((i, p) ∷ ps) [] = crashes
  deal ((i, p) ∷ ps) (q ∷ qs) = do
    game ← read_game
    write_game (record game {
      players = Collections.insert i (record p { quadrant = some q }) game.players;
    })
    send_broadcast (p.id ∷ []) (placement_phase (q.0, q.1) q.2)
    deal ps qs

  -- `dealt` is the shuffled list, read from its end.
  unfoldable pub broadcast_game_preparation_start :
      (List Quadrant → List Quadrant) → List Quadrant → Handler (Unit {0})
  broadcast_game_preparation_start dealt qs = do
    game ← read_game
    if ltb (length qs) (length game.players) then crashes else deal game.players (dealt qs)

  -- What follows on a change of readiness.
  unfoldable pub start_preparation : (List Quadrant → List Quadrant) → Handler (Unit {0})
  start_preparation dealt = do
    game ← read_game
    if can_change_into_preparation_phase game
        then (write_game (record game { state = preparation }) >> elim (quadrants game.config) [
          | none ↦ crashes
          | some qs ↦ broadcast_game_preparation_start dealt qs
        ])
        else pure tt

  -- The end of a game that has lost a player.
  unfoldable pub abort : Handler (Unit {0})
  abort = do
    attempt (broadcast_message (game_over_event none false))
    attempt disconnect_all_clients
    finish_game

  -- `EndpointEvent::Disconnect`
  unfoldable pub handle_disconnect : ClientId → Handler (Unit {0})
  unfolding abort in_lobby
  handle_disconnect client = do
    game ← read_game
    write_game (remove_player client game).1
    if (remove_player client game).0 then abort else pure tt
    if in_lobby game.state
        then attempt (broadcast_lobby_change_event (remove_player client game).1)
        else pure tt
