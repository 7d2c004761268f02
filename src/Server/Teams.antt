-- ===== src/Server/Teams.antt =====
-- Actions and the start of the preparation leave the players in exactly one team each.
use battleship_plus.Base.{nat_eq, nat_pair_eq, ℕ, ◌≤◌, ◌≡◌, ◌≢◌, refl, ap, inl, inr, ◌⊎◌, arith}
use battleship_plus.Base.{Bool, true, false, List, [], ◌∷◌, ltb, length, Bool-cases, Option-cases}
use battleship_plus.Base.Collections
use battleship_plus.Base.Collections.{HashMap, get}
use battleship_plus.Base.Counts.{count, keys, get-count, keys-insert_known}
use battleship_plus.Rstar.{Geometry}
use battleship_plus.Types.{PlayerId, ShipId, Result-cases}
use battleship_plus.Board.{Quadrant, quadrants}
use battleship_plus.ShipTree.{Index}
use battleship_plus.Ship.{Ship}
use battleship_plus.Game.{
  Game, Player, GameState, lobby, preparation, in_game, ShipAssignment,
  can_change_into_preparation_phase,
}
use battleship_plus.Orders.{Protocol, Action, is_action_valid}
use battleship_plus.Play.{execute_action, apply_on}
use battleship_plus.Play.Frame.{roll, execute_action-Confined}
use battleship_plus.Server.Messages
use battleship_plus.Server.Messages.{ClientId, Inbound, ShipActionRequest}
use battleship_plus.Server.Lobby.{deal, broadcast_game_preparation_start, start_preparation}
use battleship_plus.Server.Dispatch.{
  Surroundings, executed, performed, handle_lobby_action, handle_set_ready,
}
use battleship_plus.Server.{Channels, crashes}
use battleship_plus.Server.Roster.{Roster, switch_team-Roster, make_ready-Roster}
use battleship_plus.Server.Upkeep.{
  Keeps, keeping, keeps, bind-Keeps, then-Keeps, read-Keeps, read_here-Keeps, write-Keeps,
  pure-Keeps, fails-Keeps, crashes-Keeps, option-Keeps, result-Keeps, if-Keeps, send_message-Keeps,
  send_broadcast-Keeps, broadcast_lobby_change_event-Keeps, action_validation_error_reply-Keeps,
}

module _ ⦃g : Geometry⦄ ⦃index : Index⦄ where
  pub same_roll : (a b : Game) → roll a ≡ roll b → Roster b → Roster a
  same_roll a b e r p =
      let players = ap (λ (x : HashMap PlayerId Player × List PlayerId × List PlayerId). x.0) e in
      let left = ap (λ (x : HashMap PlayerId Player × List PlayerId × List PlayerId). x.1) e in
      let right = ap (λ (x : HashMap PlayerId Player × List PlayerId × List PlayerId). x.2) e in
      rw (players, left, right) (r p)

  in_lobby_or_not : (s : GameState) → (s ≡ lobby) ⊎ (s ≢ lobby)
  in_lobby_or_not lobby = inl refl
  in_lobby_or_not preparation = inr (λ h. ground arith)
  in_lobby_or_not in_game = inr (λ h. ground arith)

  phase : (s : GameState) → s ≢ lobby → (s ≡ preparation) ⊎ (s ≡ in_game)
  phase lobby h = absurd (h refl)
  phase preparation h = inl refl
  phase in_game h = inr refl

module _ ⦃g : Geometry⦄ ⦃index : Index⦄ (protocol : Protocol)
    (in_order : List (ℕ × ShipAssignment) → List (ℕ × ShipAssignment))
    (ships_in_order : HashMap ShipId Ship → List (ShipId × Ship)) where
  Acts : Action → Game → Type 0
  Acts action game =
      Roster game → Roster (execute_action protocol in_order ships_in_order action game).1

  -- Outside the lobby, the players and teams are as before.
  outside : (action : Action) (game : Game) → game.state ≢ lobby → Acts action game
  unfolding Acts
  outside action game h r =
      let after = (execute_action protocol in_order ships_in_order action game).1 in
      let c = execute_action-Confined protocol in_order ships_in_order action game in
      elim (phase game.state h) [
        | inl e ↦ same_roll after game ((c.2 e).0) r
        | inr e ↦ same_roll after game (c.3 e) r
      ]

  applied :
      (action : Action) (game : Game)
      → game.state ≡ lobby
      → is_action_valid game.state action ≡ true
      → Roster game
      → Roster (apply_on protocol in_order ships_in_order action game).1
  unfolding is_action_valid apply_on
  applied (Action.team_switch p) game e v r = switch_team-Roster p game r
  applied (Action.set_ready p b) game e v r = make_ready-Roster p b game r
  applied (Action.place_ships p l) game e v r = absurd (ground (arith, e))
  applied (Action.move i d) game e v r = absurd (ground (arith, e))
  applied (Action.rotate i d) game e v r = absurd (ground (arith, e))
  applied (Action.shoot i c) game e v r = absurd (ground (arith, e))
  applied (Action.scout_plane i c) game e v r = absurd (ground (arith, e))
  applied (Action.predator_missile i c) game e v r = absurd (ground (arith, e))
  applied (Action.engine_boost i) game e v r = absurd (ground (arith, e))
  applied (Action.torpedo i d) game e v r = absurd (ground (arith, e))
  applied (Action.multi_missile i a b c) game e v r = absurd (ground (arith, e))
  applied Action.idle game e v r = r

  inside : (action : Action) (game : Game) → game.state ≡ lobby → Acts action game
  unfolding Acts execute_action
  inside action game e r = elim (Bool-cases (is_action_valid game.state action)) [
    | inl v ↦ rw v (applied action game e v r)
    | inr v ↦ rw v r
  ]

  pub execute_action-Roster :
      (action : Action) (game : Game)
      → Roster game
      → Roster (execute_action protocol in_order ships_in_order action game).1
  unfolding Acts
  execute_action-Roster action game = elim (in_lobby_or_not game.state) [
    | inl e ↦ inside action game e
    | inr e ↦ outside action game e
  ]

module _ ⦃g : Geometry⦄ ⦃index : Index⦄ ⦃channels : Channels⦄ where
  -- A game in order that has certain players.
  abbrev Holds : List PlayerId → Game → Type 0
  Holds ids game = Roster game × ((p : PlayerId) → count p ids ≤ count p (keys game.players))

  dealt-Holds :
      (ids : List PlayerId) (i : PlayerId) (p : Player) (game : Game)
      → 1 ≤ count i ids
      → Holds ids game
      → Holds ids (record game { players = Collections.insert i p game.players })
  dealt-Holds ids i p game here (r, known) = elim (Option-cases (get i game.players)) [
    | inl e ↦ absurd (omega (arith, here, known i, (get-count i game.players).0 e))
    | inr (q, e) ↦
        let same = keys-insert_known i p q game.players e in
        (λ j. rw same (r j), λ j. rw same (known j))
  ]

  deal-Keeps :
      (ids : List PlayerId) (ps : HashMap PlayerId Player) (qs : List Quadrant)
      → ((p : PlayerId) → count p (keys ps) ≤ count p ids)
      → Keeps (Holds ids) (deal ps qs)
  unfolding deal
  deal-Keeps ids [] qs sub = pure-Keeps _
  deal-Keeps ids ((i, p) ∷ ps) [] sub = crashes-Keeps
  deal-Keeps ids ((i, p) ∷ ps) (q ∷ qs) sub = read-Keeps (λ game h.
      then-Keeps (write-Keeps _ (dealt-Holds ids i _ game (ground (arith, sub i)) h))
        (then-Keeps (send_broadcast-Keeps _ _) (deal-Keeps ids ps qs (λ j. ground (arith, sub j)))))

  dealing-Keeps :
      (dealt : List Quadrant → List Quadrant) (qs : List Quadrant)
      → Keeps Roster (broadcast_game_preparation_start dealt qs)
  unfolding broadcast_game_preparation_start crashes
  dealing-Keeps dealt qs = read_here-Keeps _ (λ w r.
      elim (Bool-cases (ltb (length qs) (length w.game.players))) [
        | inl e ↦ rw e r
        | inr e ↦
            let ids = keys w.game.players in
            let all = deal-Keeps ids w.game.players (dealt qs) (λ p. omega arith) in
            rw e (keeps (Holds ids) all w (r, λ p. omega arith)).0
      ])

  pub start_preparation-Keeps :
      (dealt : List Quadrant → List Quadrant) → Keeps Roster (start_preparation dealt)
  unfolding start_preparation
  start_preparation-Keeps dealt = read-Keeps (λ game r.
      if-Keeps (can_change_into_preparation_phase game)
        (then-Keeps (write-Keeps _ r)
          (option-Keeps (quadrants game.config) crashes-Keeps (λ qs. dealing-Keeps dealt qs)))
        (pure-Keeps _))

module _ ⦃g : Geometry⦄ ⦃index : Index⦄ ⦃channels : Channels⦄ (around : Surroundings) where
  pub executed-Keeps : (action : Action) → Keeps Roster (executed around action)
  unfolding executed
  executed-Keeps action = keeping (λ w r.
      let next =
        execute_action-Roster around.protocol around.in_order around.ships_in_order action w.game
          r in
      elim (Result-cases
        (execute_action around.protocol around.in_order around.ships_in_order action w.game).0) [
          | inl (a, e) ↦ rw (e, executed) next
          | inr (inl (x, e)) ↦ rw (e, executed) next
          | inr (inr e) ↦ rw (e, executed) next
        ])

  pub performed-Keeps : (action : Action) → Keeps Roster (performed around action)
  unfolding performed
  performed-Keeps action =
      bind-Keeps (executed-Keeps action)
        (λ r. result-Keeps r crashes-Keeps (λ e. fails-Keeps _) (λ a. pure-Keeps a))

  pub lobby_action-Keeps :
      (client : ClientId) (action : Action) (reply : Messages.StatusData)
      → Keeps Roster (handle_lobby_action around client action reply)
  unfolding handle_lobby_action
  lobby_action-Keeps client action reply = bind-Keeps (executed-Keeps action) (λ r.
      result-Keeps r crashes-Keeps
        (λ e. then-Keeps (action_validation_error_reply-Keeps client e) (pure-Keeps false))
        (λ a. then-Keeps (send_message-Keeps _ _) (
          read-Keeps
            (λ game r. then-Keeps (broadcast_lobby_change_event-Keeps game) (pure-Keeps true)))))

  pub set_ready-Keeps :
      (client : ClientId) (b : Bool) → Keeps Roster (handle_set_ready around client b)
  unfolding handle_set_ready
  set_ready-Keeps client b =
      bind-Keeps (lobby_action-Keeps client _ _)
        (λ done. if-Keeps done (start_preparation-Keeps around.dealt) (pure-Keeps _))
