-- ===== src/Server/Rejoin.antt =====
-- A second request to join.
use battleship_plus.Base.{
  nat_eq, nat_pair_eq, ℕ, ◌<◌, ◌≡◌, ◌≢◌, refl, sym, ap, ◌∙◌, inl, inr, arith,
}
use battleship_plus.Base.{Bool, true, false, none, some, List, length, Option-cases}
use battleship_plus.Base.Collections
use battleship_plus.Base.Collections.{
  HashMap, get, insert_set, contains, contains-insert_set, get-insert,
}
use battleship_plus.Base.Counts.{count, get-count, keys-map}
use battleship_plus.Rstar.{Geometry}
use battleship_plus.Types.{Config, PlayerId, Result, ok, err, panic}
use battleship_plus.ShipTree.{Index}
use battleship_plus.Game.{Game, Player, lobby, unready_players}
use battleship_plus.Movement.{check_player_exists}
use battleship_plus.Orders
use battleship_plus.Orders.{Action, is_action_valid}
use battleship_plus.Play.{switch_team, execute_action, apply_on}
use battleship_plus.Server.Messages
use battleship_plus.Server.Messages.{
  ClientId, StatusCode, validate_inbound_message_allowed, expects, client_bound,
}
use battleship_plus.Server.Lobby.{
  place_into_team, handle_join, joined, reply_if, action_validation_error_reply,
  broadcast_lobby_change_event,
}
use battleship_plus.Server.Dispatch.{
  Surroundings, handle_allowed, handle_message, handle_lobby_action, executed,
}
use battleship_plus.Server.{
  Channels, Delivery, World, Handler, ◌>>=◌, ◌>>◌, pure, fails, crashes, attempt, finish_game,
  read_game, write_game, send_message, deliver, broadcast_message,
}
use battleship_plus.Server.Upkeep.{
  keeps, then-Keeps, send_message-Keeps, broadcast_lobby_change_event-Keeps,
}

module _ ⦃g : Geometry⦄ ⦃index : Index⦄ where
  switch_team-both :
      (p : PlayerId) (q : Player) (game : Game)
      → get p game.players ≡ some q
      → contains p game.team_a ≡ true
      → contains p game.team_b ≡ true
      → (switch_team p game).0 ≡ err Orders.inconsistent_state
  unfolding switch_team check_player_exists
  switch_team-both p q game e a b = ground (arith, e, a, b)

  unready_known :
      (p : PlayerId) (game : Game)
      → get p (unready_players game).players ≡ none
      → get p game.players ≡ none
  unfolding unready_players
  unready_known p game h =
      let same = keys-map _ game.players in
      let zero = (get-count p (unready_players game).players).0 h in
      (get-count p game.players).1 (ap (count p) (sym same) ∙ zero)

  same_players :
      (coin : Bool) (client : ClientId) (game : Game)
      → (place_into_team coin client game).players ≡ game.players
  unfolding place_into_team
  same_players coin client game = ground arith

  joined_known :
      (coin : Bool) (client : ClientId) (name : List ℕ) (game : Game)
      → get client (joined coin client name game).players ≢ none
  unfolding joined
  joined_known coin client name game h =
      let seat : Player = record { id = client; name = name; is_ready = false; quadrant = none } in
      let entered : Game = record game { players = Collections.insert client seat game.players } in
      let gone = unready_known client (place_into_team coin client entered) h in
      let none_left =
        ap (λ (m : HashMap PlayerId Player). get client m) (sym (same_players coin client entered))
        ∙ gone in
      ground (arith, none_left, get-insert client client seat game.players)

  joined-both :
      (coin : Bool) (client : ClientId) (name : List ℕ) (game : Game)
      → contains client game.team_a ≡ true
      → length game.team_b < length game.team_a
      → length game.team_b < game.config.team_size_b
      → (contains client (joined coin client name game).team_a ≡ true)
        × (contains client (joined coin client name game).team_b ≡ true)
        × ((switch_team client (joined coin client name game)).0 ≡ err Orders.inconsistent_state)
  unfolding joined place_into_team unready_players
  joined-both coin client name game a fewer room =
      let after = joined coin client name game in
      let still : contains client after.team_a ≡ true = ground (arith, a) in
      let too : contains client after.team_b ≡ true =
        ground (arith, contains-insert_set client client game.team_b) in
      elim (Option-cases (get client after.players)) [
        | inl e ↦ absurd (joined_known coin client name game e)
        | inr (q, e) ↦ (still, too, switch_team-both client q after e still too)
      ]

  joined_state :
      (coin : Bool) (client : ClientId) (name : List ℕ) (game : Game)
      → (joined coin client name game).state ≡ game.state
  unfolding joined place_into_team unready_players
  joined_state coin client name game = ground arith

module _ ⦃g : Geometry⦄ ⦃index : Index⦄ ⦃channels : Channels⦄
    (reaches : (sent : List Delivery) (d : Delivery) → channels.accepts sent d ≡ true) where
  -- A handler that returns with the game as it was.
  Passes : Handler (Unit {0}) → World → Type 0
  Passes h w = ((h w).0 ≡ ok tt) × ((h w).1.game ≡ w.game)

  reply-Passes :
      (b : Bool) (client : ClientId) (code : StatusCode) (w : World)
      → Passes (reply_if b client code) w
  unfolding Passes reply_if send_message deliver pure
  reply-Passes true client code w = rw reaches (refl, refl)
  reply-Passes false client code w = (refl, refl)

  join_rest : Bool → ClientId → List ℕ → Game → Handler (Unit {0})
  join_rest coin client name game = do
    write_game (joined coin client name game)
    send_message client (Messages.status Messages.fine (Messages.join_response client))
    broadcast_lobby_change_event (joined coin client name game)

  join_rest_game :
      (coin : Bool) (client : ClientId) (name : List ℕ) (game : Game) (w : World)
      → (join_rest coin client name game w).1.game ≡ joined coin client name game
  unfolding join_rest ◌>>=◌ write_game
  join_rest_game coin client name game w =
      keeps (λ x. x ≡ joined coin client name game)
        (then-Keeps (send_message-Keeps _ _) (broadcast_lobby_change_event-Keeps _))
        (record w { game = joined coin client name game }) refl

  passed :
      (h : Handler (Unit {0})) (k : Handler (Unit {0})) (w : World)
      → Passes h w
      → (h >> k) w ≡ k (h w).1
  unfolding Passes ◌>>=◌
  passed h k w p = rw (p.0, ◌>>=◌) refl

  bind_returns :
      {A B : Type 0} (h : Handler A) (k : A → Handler B) (w : World) {a : A}
      → (h w).0 ≡ ok a
      → (h >>= k) w ≡ k a (h w).1
  unfolding ◌>>=◌
  bind_returns h k w e = rw (e, ◌>>=◌) refl

  bind_fails :
      {A B : Type 0} (h : Handler A) (k : A → Handler B) (w : World)
      {e : Messages.MessageHandlerError}
      → (h w).0 ≡ err e
      → ((h >>= k) w).0 ≡ err e
  unfolding ◌>>=◌
  bind_fails h k w e = rw (e, ◌>>=◌) refl

  attempted : (h : Handler (Unit {0})) (w : World) → (h w).0 ≡ ok tt → (attempt h w).0 ≡ ok tt
  unfolding attempt
  attempted h w e = rw (e, attempt) refl

  sent_to_all : (m : Messages.Outbound) (w : World) → (broadcast_message m w).0 ≡ ok tt
  unfolding broadcast_message deliver
  sent_to_all m w = rw reaches refl

  inconsistent_fails :
      (client : ClientId) (w : World)
      → (action_validation_error_reply client Orders.inconsistent_state w).0
        ≡ err (Messages.protocol Orders.inconsistent_state)
  unfolding action_validation_error_reply ◌>>=◌ finish_game fails
  inconsistent_fails client w =
      let all = broadcast_message (Messages.status Messages.server_error Messages.no_data) in
      let rest : Handler (Unit {0}) =
        finish_game >> fails (Messages.protocol Orders.inconsistent_state) in
      ap (λ (r : Result Messages.MessageHandlerError (Unit {0}) × World). r.0)
        (bind_returns (attempt all) (λ _. rest) w (attempted all w (sent_to_all _ w)))

  replies_then_rest :
      (b c : Bool) (coin : Bool) (client : ClientId) (name : List ℕ) (w : World)
      → ((reply_if b client Messages.bad_request
            >> (reply_if c client Messages.username_is_taken >> join_rest coin client name w.game))
          w).1.game
        ≡ joined coin client name w.game
  replies_then_rest b c coin client name w =
      let first = reply-Passes b client Messages.bad_request w in
      let between = (reply_if b client Messages.bad_request w).1 in
      let second = reply-Passes c client Messages.username_is_taken between in
      rw
        (passed _
          (reply_if c client Messages.username_is_taken >> join_rest coin client name w.game) w
          first)
        (rw (passed _ (join_rest coin client name w.game) between second)
          (join_rest_game coin client name w.game _))

  handle_join_game :
      (coin : Bool) (client : ClientId) (name : List ℕ) (w : World)
      → (handle_join coin client name w).1.game ≡ joined coin client name w.game
  unfolding handle_join join_rest ◌>>=◌ read_game
  handle_join_game coin client name w = replies_then_rest _ _ coin client name w

  module _ (around : Surroundings) (config : Config) where
    open around use {coin}

    allowed :
        (client : ClientId) (msg : Messages.Inbound) (w : World)
        → validate_inbound_message_allowed w.game.state msg ≡ ok tt
        → handle_message around config client msg w ≡ handle_allowed around config client msg w
    unfolding handle_message ◌>>=◌ read_game
    allowed client msg w e =
        ap
          (λ (v : Result Messages.Refusal (Unit {0})).
            (elim v as (λ _. Handler (Unit {0})) [
              | ok _ ↦ handle_allowed around config client msg
              | panic ↦ crashes
              | err reason ↦
                  send_message client (Messages.status Messages.bad_request Messages.no_data)
                  >> fails (Messages.invalid_inbound_message reason)
            ])
              w)
          e

    rejoined :
        (client : ClientId) (name : List ℕ) (w : World)
        → w.game.state ≡ lobby
        → (handle_message around config client (Messages.join_request name) w).1.game
          ≡ joined coin client name w.game
    unfolding handle_allowed validate_inbound_message_allowed
    rejoined client name w h =
        rw (allowed client (Messages.join_request name) w (ground (arith, h)))
          (handle_join_game coin client name w)

    switched :
        (client : ClientId) (w : World)
        → w.game.state ≡ lobby
        → (switch_team client w.game).0 ≡ err Orders.inconsistent_state
        → (executed around (Action.team_switch client) w).0 ≡ ok (err Orders.inconsistent_state)
    unfolding executed execute_action is_action_valid apply_on
    switched client w h e = ground (arith, h, e)

    switch_fails :
        (client : ClientId) (w : World)
        → w.game.state ≡ lobby
        → (switch_team client w.game).0 ≡ err Orders.inconsistent_state
        → (handle_message around config client Messages.team_switch_request w).0
          ≡ err (Messages.protocol Orders.inconsistent_state)
    unfolding handle_allowed handle_lobby_action validate_inbound_message_allowed
    switch_fails client w h e =
        rw (allowed client Messages.team_switch_request w (ground (arith, h))) (
          bind_fails _ _ w (
            ap (λ (r : Result Messages.MessageHandlerError Bool × World). r.0)
              (bind_returns (executed around (Action.team_switch client)) _ w
                (switched client w h e))
            ∙ bind_fails _ _ _ (inconsistent_fails client _)))

    -- In the lobby, on a network that accepts everything, a client who is in the game and in the
    -- first team, while the second team has fewer players and room, is in both teams after asking
    -- to join again, and the request to switch the team that follows fails with an inconsistent
    -- state.
    pub handle_message-rejoin :
        (client : ClientId) (name : List ℕ) (w : World) (player : Player)
        → w.game.state ≡ lobby
        → get client w.game.players ≡ some player
        → contains client w.game.team_a ≡ true
        → length w.game.team_b < length w.game.team_a
        → length w.game.team_b < w.game.config.team_size_b
        → (contains client
              (handle_message around config client (Messages.join_request name) w).1.game.team_a
            ≡ true)
          × (contains client
                (handle_message around config client (Messages.join_request name) w).1.game.team_b
              ≡ true)
          × ((handle_message around config client Messages.team_switch_request
                (handle_message around config client (Messages.join_request name) w).1).0
              ≡ err (Messages.protocol Orders.inconsistent_state))
    handle_message-rejoin client name w player quiet known a fewer room =
        let game = rejoined client name w quiet in
        let (in_a, in_b, stuck) = joined-both coin client name w.game a fewer room in
        (
          rw game in_a,
          rw game in_b,
          switch_fails client (handle_message around config client (Messages.join_request name) w).1
              (rw game (joined_state coin client name w.game ∙ quiet)) (rw game stuck),
        )
