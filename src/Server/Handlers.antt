-- ===== src/Server/Handlers.antt =====
-- The handlers of the preparation and of the fight leave the players in exactly one team each.
use battleship_plus.Base.{nat_eq, nat_pair_eq, ℕ, ◌≡◌, inl, inr, arith}
use battleship_plus.Base.{some, List, [], ◌∷◌, ◌++◌, ◌&&◌, map, nat_beq, Option-cases}
use battleship_plus.Base.Collections.{get, insert_set, contains}
use battleship_plus.Base.Counts.{keys}
use battleship_plus.Rstar.{Geometry}
use battleship_plus.Types.{PlayerId, Coordinate}
use battleship_plus.ShipTree.{Index}
use battleship_plus.Game.{
  Game, ShipAssignment, advance_turn, can_change_into_game_phase, remove_player,
}
use battleship_plus.Results.{Single}
use battleship_plus.Orders.{ActionResult, nothing, single, boosted}
use battleship_plus.Play.Frame.{roll}
use battleship_plus.Server
use battleship_plus.Server.Messages
use battleship_plus.Server.Messages.{ClientId, Inbound, ShipActionRequest}
use battleship_plus.Server.Lobby
use battleship_plus.Server.Lobby.{
  deal, broadcast_game_preparation_start, start_preparation, handle_disconnect, handle_join, joined,
}
use battleship_plus.Server.Views.{see_for_turn, handle_action_result}
use battleship_plus.Server.Dispatch
use battleship_plus.Server.Dispatch.{
  Surroundings, executed, performed, handle_lobby_action, handle_set_ready, handle_placement,
  handle_server_state, clear_temp_vision_and_advance_turn, report_action, handle_action_request,
  handle_allowed, handle_message,
}
use battleship_plus.Server.{
  Channels, World, Handler, ◌>>=◌, ◌>>◌, pure, fails, crashes, read_game, write_game,
}
use battleship_plus.Server.Roster.{Roster, remove_player-Roster}
use battleship_plus.Server.Upkeep.{
  Keeps, keeping, bind-Keeps, then-Keeps, read-Keeps, write-Keeps, pure-Keeps, fails-Keeps,
  crashes-Keeps, option-Keeps, option_with-Keeps, result-Keeps, attempt-Keeps, for_each-Keeps,
  finish_game-Keeps, if-Keeps, send_message-Keeps, send_broadcast-Keeps, broadcast_message-Keeps,
  disconnect_all_clients-Keeps, broadcast_lobby_change_event-Keeps, broadcast_game_result-Keeps,
}
use battleship_plus.Server.Teams.{performed-Keeps, same_roll}
use battleship_plus.Server.Views.{
  team_views, get_server_state_for_player, broadcast_game_start, of_team, unless_empty, is_empty,
  show_vision, show_damage, team_pick,
}
use battleship_plus.Server.Messages.{validate_inbound_message_allowed}

module _ ⦃g : Geometry⦄ ⦃index : Index⦄ ⦃channels : Channels⦄ where
  game_start-Keeps : (game : Game) → Keeps Roster (broadcast_game_start game)
  unfolding broadcast_game_start
  game_start-Keeps game = option-Keeps (team_views game) crashes-Keeps (λ v.
      then-Keeps
        (for_each-Keeps game.players (λ e.
          option-Keeps (get_server_state_for_player e.1 game v.0 v.1) crashes-Keeps
            (λ s. send_broadcast-Keeps _ _)))
        (option-Keeps game.turn crashes-Keeps (λ t. send_broadcast-Keeps _ _)))

  -- What is seen for a turn is kept with the turn.
  see_for_turn-roll :
      (l : List Coordinate) (game after : Game) (fresh : List Coordinate)
      → see_for_turn l game ≡ some (fresh, after)
      → roll after ≡ roll game
  unfolding see_for_turn
  see_for_turn-roll [] game after fresh h = ground arith
  see_for_turn-roll (c ∷ cs) game after fresh h = elim (Option-cases game.turn) [
    | inl e ↦ absurd (ground (arith, e))
    | inr (t, e) ↦
        let next : Game = record game {
          turn = some (record t { temp_vision = insert_set c t.temp_vision });
        } in
        elim (Option-cases (see_for_turn cs next)) [
          | inl f ↦ absurd (ground (arith, e, f))
          | inr ((some_fresh, last), f) ↦
              let same : last ≡ after = ground (arith, e, f) in
              rw (← same) (see_for_turn-roll cs next last some_fresh f)
        ]
  ]

  abort-Keeps : Keeps Roster Lobby.abort
  unfolding Lobby.abort
  abort-Keeps =
      then-Keeps (attempt-Keeps (broadcast_message-Keeps _))
        (then-Keeps (attempt-Keeps disconnect_all_clients-Keeps) finish_game-Keeps)

  -- A client that leaves, whatever the network accepts, leaves each player in exactly one team.
  pub handle_disconnect-Keeps : (client : ClientId) → Keeps Roster (handle_disconnect client)
  unfolding handle_disconnect
  handle_disconnect-Keeps client = read-Keeps (λ game r.
      then-Keeps (write-Keeps _ (remove_player-Roster client game r)) (
        then-Keeps (if-Keeps (remove_player client game).0 abort-Keeps (pure-Keeps _)) (
          if-Keeps (Lobby.in_lobby game.state)
            (attempt-Keeps (broadcast_lobby_change_event-Keeps _)) (pure-Keeps _))))

  same_people : (game after : Game) → roll after ≡ roll game → Roster game → Roster after
  same_people game after e r = same_roll after game e r

  unless_empty-Keeps :
      {A B : Type 0} (l : List A) (k : List B) {h : Handler (Unit {0})}
      → Keeps Roster h
      → Keeps Roster (unless_empty l k h)
  unfolding unless_empty
  unless_empty-Keeps l k kh = if-Keeps (is_empty l && is_empty k) (pure-Keeps _) kh

  show_vision-Keeps :
      (client : ClientId) (result : Single) (gained : List Coordinate) (game : Game)
      → Keeps Roster (show_vision client result gained game)
  unfolding show_vision team_pick
  show_vision-Keeps client result gained game =
      option-Keeps
        (of_team (contains client game.team_a) (contains client game.team_b)
          ((game.team_a, game.team_b), (game.team_b, game.team_a)))
        crashes-Keeps
        (λ sides.
          then-Keeps (unless_empty-Keeps gained result.lost_vision_at (send_broadcast-Keeps _ _)) (
            unless_empty-Keeps result.gain_enemy_vision result.lost_enemy_vision
              (send_broadcast-Keeps _ _)))

  show_damage-Keeps :
      (result : Single) (players : List ClientId) → Keeps Roster (show_damage result players)
  unfolding show_damage
  show_damage-Keeps result players =
      then-Keeps
        (then-Keeps (for_each-Keeps result.inflicted_damage_at (λ e. send_broadcast-Keeps _ _))
          (for_each-Keeps result.ships_destroyed (λ s. send_broadcast-Keeps _ _)))
        (unless_empty-Keeps result.splash_tiles result.splash_tiles (send_broadcast-Keeps _ _))

  handle_action_result-Keeps :
      (client : ClientId) (result : Single) → Keeps Roster (handle_action_result client result)
  unfolding handle_action_result
  handle_action_result-Keeps client result = read-Keeps (λ game r.
      option_with-Keeps (see_for_turn result.temp_vision_at game) crashes-Keeps (λ v seen.
        then-Keeps
          (then-Keeps
            (then-Keeps
              (write-Keeps _ (
                same_people game v.1 (see_for_turn-roll result.temp_vision_at game v.1 v.0 seen) r))
              (show_vision-Keeps client result (result.gain_vision_at ++ v.0) v.1))
            (show_damage-Keeps result (keys v.1.players)))
          (pure-Keeps _)))

module _ ⦃g : Geometry⦄ ⦃index : Index⦄ ⦃channels : Channels⦄ (around : Surroundings) where
  advance-Keeps : Keeps Roster (Dispatch.advance around)
  unfolding Dispatch.advance advance_turn
  advance-Keeps = keeping (λ w r.
      elim (Option-cases (around.choose (map (λ e. e.0) w.game.players))) [
        | inl e ↦ rw (e, Dispatch.advance) r
        | inr (p, e) ↦ rw (e, Dispatch.advance) r
      ])

  pub placement-Keeps :
      (client : ClientId) (l : List ShipAssignment)
      → Keeps Roster (handle_placement around client l)
  unfolding handle_placement
  placement-Keeps client l = bind-Keeps (performed-Keeps around _) (λ _.
      then-Keeps (send_message-Keeps _ _) (
        read-Keeps (λ game r.
          if-Keeps (can_change_into_game_phase game)
            (bind-Keeps (then-Keeps (write-Keeps _ r) advance-Keeps)
              (λ t. read-Keeps (λ after q. game_start-Keeps after)))
            (pure-Keeps _))))

  pub server_state-Keeps :
      {P : Game → Type 0} (client : ClientId) → Keeps P (handle_server_state around client)
  unfolding handle_server_state
  server_state-Keeps client = read-Keeps (λ game r.
      option-Keeps (get client game.players) (send_message-Keeps _ _) (λ p.
        option-Keeps (team_views game) crashes-Keeps (λ v.
          option-Keeps (get_server_state_for_player p game v.0 v.1) crashes-Keeps
            (λ s. send_message-Keeps _ _))))

  report_result-Keeps :
      (client : ClientId) (result : Single)
      → Keeps Roster (Dispatch.report_result around client result)
  unfolding Dispatch.report_result
  report_result-Keeps client result =
      bind-Keeps (handle_action_result-Keeps client result)
        (λ outcome. read-Keeps (λ game r. broadcast_game_result-Keeps outcome _))

  report_action-Keeps :
      (client : ClientId) (n : ℕ) (team : List PlayerId) (r : ActionResult)
      → Keeps Roster (report_action around client n team r)
  unfolding report_action
  report_action-Keeps client n team nothing = pure-Keeps _
  report_action-Keeps client n team (single result) = report_result-Keeps client result
  report_action-Keeps client n team (boosted d results) = for_each-Keeps results (λ r.
      result-Keeps r crashes-Keeps (λ e. send_message-Keeps _ _)
        (λ s. then-Keeps (send_broadcast-Keeps _ _) (report_result-Keeps client s)))

  next_turn-Keeps :
      (team : List PlayerId) → Keeps Roster (clear_temp_vision_and_advance_turn around team)
  unfolding clear_temp_vision_and_advance_turn
  next_turn-Keeps team = read-Keeps (λ game r.
      then-Keeps
        (option-Keeps game.turn (pure-Keeps _) (λ t. forgets team t.temp_vision t.temp_vision))
        advance-Keeps)
    where
      forgets :
          (team : List PlayerId) (all l : List Coordinate)
          → Keeps Roster (elim l as (λ _. Handler (Unit {0})) [
            | [] ↦ pure tt
            | c ∷ cs ↦ Server.send_broadcast team (Messages.vision_event [] all)
          ])
      forgets team all [] = pure-Keeps _
      forgets team all (c ∷ cs) = send_broadcast-Keeps _ _

  act-Keeps :
      (client : ClientId) (q : ShipActionRequest) (team : List PlayerId)
      → Keeps Roster (Dispatch.act around client q team)
  unfolding Dispatch.act
  act-Keeps client q team = bind-Keeps (performed-Keeps around _) (λ result.
      then-Keeps (send_broadcast-Keeps _ _) (
        then-Keeps (report_action-Keeps client q.ship_number team result) (send_message-Keeps _ _)))

  end_turn-Keeps : (team : List PlayerId) → Keeps Roster (Dispatch.end_turn around team)
  unfolding Dispatch.end_turn
  end_turn-Keeps team = bind-Keeps (next_turn-Keeps team) (λ turn. broadcast_message-Keeps _)

  pub action_request-Keeps :
      (client : ClientId) (q : ShipActionRequest)
      → Keeps Roster (handle_action_request around client q)
  unfolding handle_action_request
  action_request-Keeps client q = read-Keeps (λ game r.
      option-Keeps game.turn (fails-Keeps _) (λ turn.
        if-Keeps (nat_beq turn.player_id client)
          (option-Keeps
            (of_team (contains turn.player_id game.team_a) (contains turn.player_id game.team_b)
              (game.team_a, game.team_b))
            crashes-Keeps
            (λ team.
              option-Keeps q.action_properties (end_turn-Keeps team)
                (λ p. act-Keeps client q team)))
          (fails-Keeps _)))
