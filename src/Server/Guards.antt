-- ===== src/Server/Guards.antt =====
-- During the fight, only the player whose turn it is can change the game.
use battleship_plus.Base.{nat_eq, nat_pair_eq, ◌≡◌, ◌≢◌, refl, arith}
use battleship_plus.Base.{true, false, some, nat_beq}
use battleship_plus.Rstar.{Geometry}
use battleship_plus.Types.{Config, Result, ok, err, panic}
use battleship_plus.ShipTree.{Index}
use battleship_plus.Game.{GameState, in_game, Turn}
use battleship_plus.Server
use battleship_plus.Server.Messages
use battleship_plus.Server.Messages.{
  ClientId, Inbound, ShipActionRequest, validate_inbound_message_allowed, expects, client_bound,
}
use battleship_plus.Server.Dispatch.{
  Surroundings, handle_action_request, handle_allowed, handle_message,
}
use battleship_plus.Server.{Channels, World, Handler, ◌>>=◌, ◌>>◌, read_game, fails, crashes}
use battleship_plus.Server.Upkeep.{
  Keeps, keeps, then-Keeps, fails-Keeps, crashes-Keeps, send_message-Keeps,
}
use battleship_plus.Server.Handlers.{server_state-Keeps}

module _ ⦃g : Geometry⦄ ⦃index : Index⦄ ⦃channels : Channels⦄ (around : Surroundings) where
  -- A handler that leaves the game as it is.
  Still : {A : Type 0} → Handler A → World → Type 0
  Still h w = (h w).1.game ≡ w.game

  kept : {A : Type 0} (h : Handler A) (w : World) → Keeps (λ game. game ≡ w.game) h → Still h w
  unfolding Still
  kept h w k = keeps (λ game. game ≡ w.game) k w refl

  request-Still :
      (client : ClientId) (q : ShipActionRequest) (w : World) (t : Turn)
      → w.game.turn ≡ some t
      → t.player_id ≢ client
      → Still (handle_action_request around client q) w
  unfolding Still handle_action_request ◌>>=◌ read_game fails
  request-Still client q w t e other =
      let differs : nat_beq t.player_id client ≡ false = ground arith in rw e (rw differs refl)

  expected-Still :
      (config : Config) (client : ClientId) (msg : Inbound) (w : World) (t : Turn)
      → w.game.turn ≡ some t
      → t.player_id ≢ client
      → expects in_game msg ≡ true
      → Still (handle_allowed around config client msg) w
  unfolding expects handle_allowed
  expected-Still config client Messages.server_config_request w t e other x =
      kept _ w (send_message-Keeps _ _)
  expected-Still config client Messages.server_state_request w t e other x =
      kept _ w (server_state-Keeps around client)
  expected-Still config client (Messages.action_request q) w t e other x =
      request-Still client q w t e other
  expected-Still config client (Messages.join_request name) w t e other x = absurd (ground arith)
  expected-Still config client Messages.team_switch_request w t e other x = absurd (ground arith)
  expected-Still config client (Messages.set_ready_state_request b) w t e other x =
      absurd (ground arith)
  expected-Still config client (Messages.set_placement_request l) w t e other x =
      absurd (ground arith)
  expected-Still config client Messages.status_message w t e other x = absurd (ground arith)
  expected-Still config client Messages.server_advertisement w t e other x = absurd (ground arith)
  expected-Still config client Messages.event_message w t e other x = absurd (ground arith)
  expected-Still config client Messages.other w t e out x = absurd (ground arith)

  now_expected :
      (msg : Inbound) (s : GameState)
      → s ≡ in_game
      → validate_inbound_message_allowed s msg ≡ ok tt
      → expects in_game msg ≡ true
  unfolding validate_inbound_message_allowed
  now_expected msg s fights q = ground (arith, fights, q)

  -- During the fight, a message of a client other than the player whose turn it is leaves the game
  -- as it is, whatever the network accepts.
  pub handle_message-bystander :
      (config : Config) (client : ClientId) (msg : Inbound) (w : World) (t : Turn)
      → w.game.state ≡ in_game
      → w.game.turn ≡ some t
      → t.player_id ≢ client
      → (handle_message around config client msg w).1.game ≡ w.game
  unfolding Still handle_message ◌>>=◌ read_game
  handle_message-bystander config client msg w t fights e other =
      cases (validate_inbound_message_allowed w.game.state msg)
        (λ q. expected-Still config client msg w t e other (now_expected msg w.game.state fights q))
    where
      cases :
          (v : Result Messages.Refusal (Unit {0}))
          → (v ≡ ok tt → (handle_allowed around config client msg w).1.game ≡ w.game)
          → ((elim v as (λ _. Handler (Unit {0})) [
            | ok _ ↦ handle_allowed around config client msg
            | panic ↦ crashes
            | err reason ↦
                Server.send_message client (Messages.status Messages.bad_request Messages.no_data)
                >> fails (Messages.invalid_inbound_message reason)
          ])
              w).1.game
            ≡ w.game
      cases (ok u) allowed = allowed refl
      cases panic allowed = keeps (λ game. game ≡ w.game) crashes-Keeps w refl
      cases (err x) allowed =
          keeps (λ game. game ≡ w.game) (then-Keeps (send_message-Keeps _ _) (fails-Keeps _)) w refl
