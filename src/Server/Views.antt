-- ===== src/Server/Views.antt =====
-- What crates/battleship_plus_server/src/server.rs tells the players of the ships: the state of a team, the
-- start of the fight, the outcome of an action and of the game.
use battleship_plus.Base.{
  nat_eq, nat_pair_eq, ℕ, Bool, true, false, ◌&&◌, Option, none, some, List, [], ◌∷◌, ◌++◌, map,
  ltb, nat_beq, if◌then◌else◌,
}
use battleship_plus.Base.Words.{as_u32}
use battleship_plus.Base.Collections.{HashMap, contains, insert_set}
use battleship_plus.Rstar.{Geometry}
use battleship_plus.Types.{PlayerId, ShipId, Coordinate}
use battleship_plus.ShipTree.{Index}
use battleship_plus.Ship
use battleship_plus.Ship.{Ship, position, orientation, direction_of, ship_data}
use battleship_plus.ShipManager.{get_ship_parts_seen_by}
use battleship_plus.Game.{Game, Player, Turn, GameResult, pending, draw, win, game_result}
use battleship_plus.Results.{Single}
use battleship_plus.Server.Messages.{
  ClientId, ShipState, ServerState, create_ship_state, game_start, next_turn, vision_event,
  hit_event, destruction_event, splash_event, game_over_event,
}
use battleship_plus.Base.Counts.{keys}
use battleship_plus.Server.{
  Channels, Handler, ◌>>=◌, ◌>>◌, pure, crashes, read_game, write_game, send_broadcast, finish_game,
  for_each,
}

-- `sort_by_key` with the number of a ship; it is stable.
sorted_in : Ship → List Ship → List Ship
sorted_in s [] = s ∷ []
sorted_in s (t ∷ ts) = if ltb (Ship.id s).1 (Ship.id t).1 then s ∷ t ∷ ts else t ∷ sorted_in s ts

unfoldable pub sort_by_number : List Ship → List Ship
unfolding sorted_in
sort_by_number ships = go [] ships
  where
    go : List Ship → List Ship → List Ship
    go done [] = done
    go done (s ∷ ss) = go (sorted_in s done) ss

unfoldable pub is_empty : {A : Type 0} → List A → Bool
is_empty [] = true
is_empty (a ∷ rest) = false

-- Something for each of two teams.
abbrev pub Both : Type 0 → Type 0
Both A = A × A

-- What the player's team has, if the player is in exactly one; otherwise it panics.
unfoldable pub of_team : {A : Type 0} → Bool → Bool → Both A → Option A
of_team true false both = some both.0
of_team false true both = some both.1
of_team _ _ both = none

module _ ⦃g : Geometry⦄ ⦃index : Index⦄ where
  unfoldable pub team_pick : {A : Type 0} → PlayerId → Game → Both A → Option A
  team_pick p game = of_team (contains p game.team_a) (contains p game.team_b)

  -- Sorts the ships into those of the teams.
  unfoldable pub ships_by_team :
      Game → HashMap ShipId Ship → Both (List Ship) → Option (Both (List Ship))
  unfolding team_pick
  ships_by_team game [] teams = some teams
  ships_by_team game ((i, s) ∷ rest) teams =
      let with_a : Both (List Ship) =
        (sort_by_number (teams.0 ++ s ∷ []), sort_by_number (teams.1)) in
      let with_b : Both (List Ship) =
        (sort_by_number (teams.0), sort_by_number (teams.1 ++ s ∷ [])) in
      let after_a = ships_by_team game rest with_a in
      let after_b = ships_by_team game rest with_b in
      elim (team_pick i.0 game (after_a, after_b)) [ none ↦ none | some r ↦ r ]

  unfoldable pub get_ships_by_team : Game → Option (Both (List Ship))
  get_ships_by_team game = ships_by_team game game.ships.ships ([], [])

  -- The states of the ships of the teams, and what they see.
  unfoldable pub team_views : Game → Option (Both (List ShipState) × Both (List Coordinate))
  team_views game = elim (get_ships_by_team game) [
    | none ↦ none
    | some (a, b) ↦ elim (get_ship_parts_seen_by (map Ship.id a) game.ships) [
      | none ↦ none
      | some seen_a ↦ elim (get_ship_parts_seen_by (map Ship.id b) game.ships) [
        | none ↦ none
        | some seen_b ↦ some ((map create_ship_state a, map create_ship_state b), (seen_a, seen_b))
      ]
    ]
  ]

  points_of : PlayerId → Option Turn → ℕ
  points_of p none = 0
  points_of p (some t) = if nat_beq t.player_id p then t.action_points_left else 0

  unfoldable pub get_server_state_for_player :
      Player → Game → Both (List ShipState) → Both (List Coordinate) → Option ServerState
  unfolding points_of team_pick
  get_server_state_for_player player game ships seen = elim (team_pick player.id game ships) [
    | none ↦ none
    | some own ↦ elim (team_pick player.id game seen) [
      | none ↦ none
      | some visible ↦ some (record {
        team_ships = own;
        action_points = points_of player.id game.turn;
        visible_hostile_ships = visible;
      })
    ]
  ]

  -- The tiles that are new among those seen for the turn; the turn remembers them.
  unfoldable pub see_for_turn : List Coordinate → Game → Option (List Coordinate × Game)
  see_for_turn [] game = some ([], game)
  see_for_turn (c ∷ cs) game = elim game.turn [
    | none ↦ none
    | some t ↦
        let rest =
          see_for_turn cs
            (record game { turn = some (record t { temp_vision = insert_set c t.temp_vision }) }) in
        elim rest [
          | none ↦ none
          | some (fresh, after) ↦
              some (if contains c t.temp_vision then fresh else c ∷ fresh, after)
        ]
  ]

module _ ⦃g : Geometry⦄ ⦃index : Index⦄ ⦃channels : Channels⦄ where
  unfoldable pub broadcast_game_start : Game → Handler (Unit {0})
  broadcast_game_start game = elim (team_views game) [
    | none ↦ crashes
    | some (ships, seen) ↦
        for_each game.players (λ e. elim (get_server_state_for_player e.1 game ships seen) [
          | none ↦ crashes
          | some state ↦ send_broadcast (e.0 ∷ []) (game_start state)
        ])
        >> elim game.turn [
          | none ↦ crashes
          | some t ↦ send_broadcast (t.player_id ∷ []) (next_turn t.player_id)
        ]
  ]

  unfoldable pub broadcast_game_result : GameResult → List ClientId → Handler (Unit {0})
  broadcast_game_result pending players = pure tt
  broadcast_game_result draw players =
      send_broadcast players (game_over_event none true) >> finish_game
  broadcast_game_result (win t) players =
      send_broadcast players (game_over_event (some t) true) >> finish_game

  unfoldable pub unless_empty :
      {A B : Type 0} → List A → List B → Handler (Unit {0}) → Handler (Unit {0})
  unfolding is_empty
  unless_empty as_ bs h = if is_empty as_ && is_empty bs then pure tt else h

  -- Tells the teams what an action has shown them.
  unfoldable pub show_vision : ClientId → Single → List Coordinate → Game → Handler (Unit {0})
  unfolding unless_empty team_pick
  show_vision client result gained game =
      let views : Both (Both (List PlayerId)) =
        ((game.team_a, game.team_b), (game.team_b, game.team_a)) in
      elim (team_pick client game views) [
        | none ↦ crashes
        | some sides ↦
            unless_empty gained result.lost_vision_at
              (send_broadcast sides.0 (vision_event gained result.lost_vision_at))
            >> unless_empty result.gain_enemy_vision result.lost_enemy_vision (
                send_broadcast sides.1
                  (vision_event result.gain_enemy_vision result.lost_enemy_vision))
      ]

  -- Tells all players what an action has hit.
  unfoldable pub show_damage : Single → List ClientId → Handler (Unit {0})
  unfolding unless_empty
  show_damage result players =
      for_each result.inflicted_damage_at (λ e. send_broadcast players (hit_event e.0 e.1))
      >> for_each result.ships_destroyed (λ s. send_broadcast players (
          destruction_event (as_u32 (position s).0, as_u32 (position s).1)
            (direction_of (orientation s)) (Ship.id s).1 (Ship.id s).0))
      >> unless_empty result.splash_tiles result.splash_tiles
          (send_broadcast players (splash_event result.splash_tiles))

  unfoldable pub handle_action_result : ClientId → Single → Handler GameResult
  unfolding show_vision show_damage
  handle_action_result client result = do
    game ← read_game
    elim (see_for_turn result.temp_vision_at game) [
      | none ↦ crashes
      | some (fresh, after) ↦
          write_game after
          >> show_vision client result (result.gain_vision_at ++ fresh) after
          >> show_damage result (keys after.players)
          >> pure (game_result after)
    ]
