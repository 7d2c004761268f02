-- ===== src/Server/Replies.antt =====
-- The teams after each message, and what a second request to join does to them.
use battleship_plus.Base.{nat_eq, nat_pair_eq, ℕ, ◌≡◌, refl}
use battleship_plus.Base.{Bool, true, false, none, List}
use battleship_plus.Base.Collections.{get}
use battleship_plus.Rstar.{Geometry}
use battleship_plus.Types.{Config, Result, ok, err, panic}
use battleship_plus.ShipTree.{Index}
use battleship_plus.Game.{Game}
use battleship_plus.Server
use battleship_plus.Server.Messages
use battleship_plus.Server.Messages.{ClientId, Inbound, ShipActionRequest}
use battleship_plus.Server.Lobby
use battleship_plus.Server.Lobby.{
  deal, place_into_team, broadcast_game_preparation_start, start_preparation, handle_disconnect,
  handle_join, joined,
}
use battleship_plus.Server.Dispatch.{Surroundings, handle_allowed, handle_message}
use battleship_plus.Server.{
  Channels, World, Handler, ◌>>=◌, ◌>>◌, pure, fails, crashes, read_game, write_game,
}
use battleship_plus.Server.Roster.{Roster, joined-Roster}
use battleship_plus.Server.Upkeep.{
  Keeps, keeps, bind-Keeps, then-Keeps, write-Keeps, pure-Keeps, fails-Keeps, crashes-Keeps,
  send_message-Keeps, disconnect_client-Keeps, broadcast_lobby_change_event-Keeps,
}
use battleship_plus.Server.Teams.{lobby_action-Keeps, set_ready-Keeps}
use battleship_plus.Server.Messages.{validate_inbound_message_allowed}
use battleship_plus.Server.Handlers.{
  handle_disconnect-Keeps, placement-Keeps, server_state-Keeps, action_request-Keeps,
}

module _ ⦃g : Geometry⦄ ⦃index : Index⦄ ⦃channels : Channels⦄ where
  -- If every player of a game is in exactly one team and nobody else is in one, then so it is after
  -- a client has left, whatever the network accepts.
  pub handle_disconnect-Roster :
      (client : ClientId) (w : World) → Roster w.game → Roster (handle_disconnect client w).1.game
  handle_disconnect-Roster client w r = keeps Roster (handle_disconnect-Keeps client) w r

  reply_if-Keeps :
      (b : Bool) (client : ClientId) (code : Messages.StatusCode)
      → Keeps Roster (Lobby.reply_if b client code)
  unfolding Lobby.reply_if
  reply_if-Keeps true client code = send_message-Keeps _ _
  reply_if-Keeps false client code = pure-Keeps _

  join-Roster :
      (coin : Bool) (client : ClientId) (name : List ℕ) (w : World)
      → get client w.game.players ≡ none
      → Roster w.game
      → Roster (handle_join coin client name w).1.game
  unfolding handle_join ◌>>=◌ read_game
  join-Roster coin client name w fresh r =
      let rest = then-Keeps (reply_if-Keeps _ client _) (
        then-Keeps (reply_if-Keeps _ client _) (
          then-Keeps (write-Keeps _ (joined-Roster coin client name w.game fresh r))
            (then-Keeps (send_message-Keeps _ _) (broadcast_lobby_change_event-Keeps _)))) in
      keeps Roster rest w r

module _ ⦃g : Geometry⦄ ⦃index : Index⦄ where
  -- A client that asks to join is not in the game yet.
  abbrev pub Newcomer : ClientId → Inbound → Game → Type 0
  Newcomer client msg game =
      (name : List ℕ) → msg ≡ Messages.join_request name → get client game.players ≡ none

module _ ⦃g : Geometry⦄ ⦃index : Index⦄ ⦃channels : Channels⦄ (around : Surroundings) where
  allowed-Roster :
      (config : Config) (client : ClientId) (msg : Inbound) (w : World)
      → Newcomer client msg w.game
      → Roster w.game
      → Roster (handle_allowed around config client msg w).1.game
  unfolding handle_allowed
  allowed-Roster config client Messages.server_config_request w new r =
      keeps Roster (send_message-Keeps _ _) w r
  allowed-Roster config client (Messages.join_request name) w new r =
      join-Roster around.coin client name w (new name refl) r
  allowed-Roster config client Messages.team_switch_request w new r =
      keeps Roster (bind-Keeps (lobby_action-Keeps around client _ _) (λ _. pure-Keeps _)) w r
  allowed-Roster config client (Messages.set_ready_state_request b) w new r =
      keeps Roster (set_ready-Keeps around client b) w r
  allowed-Roster config client (Messages.set_placement_request l) w new r =
      keeps Roster (placement-Keeps around client l) w r
  allowed-Roster config client Messages.server_state_request w new r =
      keeps Roster (server_state-Keeps around client) w r
  allowed-Roster config client (Messages.action_request q) w new r =
      keeps Roster (action_request-Keeps around client q) w r
  allowed-Roster config client _ w new r =
      keeps Roster (then-Keeps (send_message-Keeps _ _) (disconnect_client-Keeps client)) w r

  -- If every player of a game is in exactly one team and nobody else is in one, and a client who
  -- asks to join is not in the game yet, then so it is after any message, in any phase, whatever
  -- the network accepts and however the handling ends.
  pub handle_message-Roster :
      (config : Config) (client : ClientId) (msg : Inbound) (w : World)
      → Newcomer client msg w.game
      → Roster w.game
      → Roster (handle_message around config client msg w).1.game
  unfolding handle_message ◌>>=◌ read_game
  handle_message-Roster config client msg w new r =
      answered (validate_inbound_message_allowed w.game.state msg)
    where
      answered :
          (v : Result Messages.Refusal (Unit {0}))
          → Roster
              ((elim v as (λ _. Handler (Unit {0})) [
                | ok _ ↦ handle_allowed around config client msg
                | panic ↦ crashes
                | err reason ↦
                    Server.send_message client
                      (Messages.status Messages.bad_request Messages.no_data)
                    >> fails (Messages.invalid_inbound_message reason)
              ])
                w).1.game
      answered (ok u) = allowed-Roster config client msg w new r
      answered panic = keeps Roster crashes-Keeps w r
      answered (err x) = keeps Roster (then-Keeps (send_message-Keeps _ _) (fails-Keeps _)) w r
