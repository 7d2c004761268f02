-- ===== src/Server/Roster.antt =====
-- The players of a game and their teams.
use battleship_plus.Base.{nat_eq, nat_pair_eq, ℕ, ◌+◌, ◌≤◌, ◌≡◌, refl, inl, inr, ◌⊎◌, arith}
use battleship_plus.Base.{Bool, true, false, none, some, List, Option-cases}
use battleship_plus.Base.Collections
use battleship_plus.Base.Collections.{HashMap, HashSet, get, contains, insert_set, remove_set}
use battleship_plus.Base.Counts.{
  count, keys, contains-count, count-insert_set, count-remove_set, get-count, count-insert_fresh,
  keys-insert_known, count-remove, keys-map,
}
use battleship_plus.Rstar.{Geometry}
use battleship_plus.Types.{PlayerId, ok}
use battleship_plus.ShipTree.{Index}
use battleship_plus.Game.{Game, Player, unready_players, remove_player}
use battleship_plus.Movement.{check_player_exists}
use battleship_plus.Orders
use battleship_plus.Orders.{Protocol, Action, is_action_valid, inconsistent_state}
use battleship_plus.Play.{switch_team, make_ready}
use battleship_plus.Server.Messages.{ClientId}
use battleship_plus.Server.Lobby.{joined, place_into_team}

module _ ⦃g : Geometry⦄ ⦃index : Index⦄ where
  -- Every player stands once among the players and in exactly one team, and nobody else is in one.
  abbrev pub Roster : Game → Type 0
  Roster game =
      (p : PlayerId)
      → (count p (keys game.players) ≡ count p game.team_a + count p game.team_b)
        × (count p (keys game.players) ≤ 1)

  -- A player of the game is in one of the teams.
  pub one_team :
      (p : PlayerId) (q : Player) (game : Game)
      → Roster game
      → get p game.players ≡ some q
      → ((contains p game.team_a ≡ true) × (contains p game.team_b ≡ false))
        ⊎ ((contains p game.team_a ≡ false) × (contains p game.team_b ≡ true))
  one_team p q game r h = ground (
    arith,
    r p,
    get-count p game.players,
    contains-count p game.team_a,
    contains-count p game.team_b,
  )

  -- Somebody who is not in the game is in no team.
  no_team :
      (p : PlayerId) (game : Game)
      → Roster game
      → get p game.players ≡ none
      → (contains p game.team_a ≡ false) × (contains p game.team_b ≡ false)
  no_team p game r h = (
    ground (arith, r p, get-count p game.players, contains-count p game.team_a),
    ground (arith, r p, get-count p game.players, contains-count p game.team_b),
  )

  into_team :
      (coin : Bool) (p : PlayerId) (game : Game)
      → (place_into_team coin p game ≡ record game { team_a = insert_set p game.team_a })
        ⊎ (place_into_team coin p game ≡ record game { team_b = insert_set p game.team_b })
  unfolding place_into_team
  into_team coin p game = ground arith

  unready_players-Roster : (game : Game) → Roster game → Roster (unready_players game)
  unfolding unready_players
  unready_players-Roster game r p =
      let same : keys (unready_players game).players ≡ keys game.players =
        keys-map _ game.players in
      rw same (r p)

  -- A client that is not in the game yet joins one team.
  pub joined-Roster :
      (coin : Bool) (client : ClientId) (name : List ℕ) (game : Game)
      → get client game.players ≡ none
      → Roster game
      → Roster (joined coin client name game)
  unfolding joined
  joined-Roster coin client name game fresh r =
      unready_players-Roster _
        (seated (record { id = client; name = name; is_ready = false; quadrant = none }))
    where
      seated :
          (q : Player)
          → Roster (
              place_into_team coin client
                (record game { players = Collections.insert client q game.players }))
      seated q =
          let entered : Game = record game { players = Collections.insert client q game.players } in
          let (no_a, no_b) = no_team client game r fresh in
          elim (into_team coin client entered) [
            | inl e ↦ rw e (λ p. ground (
              arith,
              r p,
              count-insert_fresh client p q game.players fresh,
              count-insert_set client p game.team_a no_a,
              get-count client game.players,
              r client,
            ))
            | inr e ↦ rw e (λ p. ground (
              arith,
              r p,
              count-insert_fresh client p q game.players fresh,
              count-insert_set client p game.team_b no_b,
              get-count client game.players,
              r client,
            ))
          ]

  -- A player who leaves is in no team.
  pub remove_player-Roster :
      (p : PlayerId) (game : Game) → Roster game → Roster (remove_player p game).1
  unfolding remove_player
  remove_player-Roster p game r = elim (Option-cases (get p game.players)) [
    | inl e ↦ rw (e, remove_player) r
    | inr (q, e) ↦
        rw (e, remove_player)
          (λ j. ground (
            arith,
            r j,
            count-remove p j game.players,
            count-remove_set p j game.team_a,
            count-remove_set p j game.team_b,
          ))
  ]

  pub make_ready-Roster :
      (p : PlayerId) (b : Bool) (game : Game) → Roster game → Roster (make_ready p b game).1
  unfolding make_ready check_player_exists
  make_ready-Roster p b game r = elim (Option-cases (get p game.players)) [
    | inl e ↦ rw (e, make_ready) r
    | inr (q, e) ↦
        rw (e, make_ready) (rw e (λ j. rw (keys-insert_known p _ q game.players e) (r j)))
  ]

  -- A player who changes the team.
  to_b : PlayerId → Game → Game
  to_b p game = unready_players (record game {
    team_a = remove_set p game.team_a;
    team_b = insert_set p (remove_set p game.team_b);
  })

  to_a : PlayerId → Game → Game
  to_a p game = unready_players (record game {
    team_a = insert_set p (remove_set p game.team_a);
    team_b = remove_set p game.team_b;
  })

  -- A player of the game who switches the team goes over from one to the other.
  switch_team_goes :
      (p : PlayerId) (q : Player) (game : Game)
      → Roster game
      → get p game.players ≡ some q
      → ((contains p game.team_a ≡ true)
          × (contains p game.team_b ≡ false)
          × (switch_team p game ≡ (ok Orders.nothing, to_b p game)))
        ⊎ ((contains p game.team_a ≡ false)
            × (contains p game.team_b ≡ true)
            × (switch_team p game ≡ (ok Orders.nothing, to_a p game)))
  unfolding switch_team check_player_exists to_a to_b
  switch_team_goes p q game r e = elim (one_team p q game r e) [
    | inl (a, b) ↦ inl (a, b, rw (e, switch_team) (rw (a, switch_team) (rw (b, switch_team) refl)))
    | inr (a, b) ↦ inr (a, b, rw (e, switch_team) (rw (a, switch_team) (rw (b, switch_team) refl)))
  ]

  removed_set : (p : PlayerId) (s : HashSet PlayerId) → contains p (remove_set p s) ≡ false
  removed_set p s = ground (arith, contains-count p (remove_set p s), count-remove_set p p s)

  to_b-Roster :
      (p : PlayerId) (q : Player) (game : Game)
      → get p game.players ≡ some q
      → Roster game
      → Roster (to_b p game)
  unfolding to_b
  to_b-Roster p q game e r = unready_players-Roster _ (λ j. ground (
    arith,
    r j,
    get-count p game.players,
    r p,
    count-remove_set p j game.team_a,
    count-remove_set p j game.team_b,
    count-insert_set p j (remove_set p game.team_b) (removed_set p game.team_b),
  ))

  to_a-Roster :
      (p : PlayerId) (q : Player) (game : Game)
      → get p game.players ≡ some q
      → Roster game
      → Roster (to_a p game)
  unfolding to_a
  to_a-Roster p q game e r = unready_players-Roster _ (λ j. ground (
    arith,
    r j,
    get-count p game.players,
    r p,
    count-remove_set p j game.team_a,
    count-remove_set p j game.team_b,
    count-insert_set p j (remove_set p game.team_a) (removed_set p game.team_a),
  ))

  pub switch_team-Roster :
      (p : PlayerId) (game : Game) → Roster game → Roster (switch_team p game).1
  unfolding switch_team check_player_exists
  switch_team-Roster p game r = elim (Option-cases (get p game.players)) [
    | inl e ↦ rw (e, switch_team) r
    | inr (q, e) ↦ elim (switch_team_goes p q game r e) [
      | inl (a, b, same) ↦ rw same (to_b-Roster p q game e r)
      | inr (a, b, same) ↦ rw same (to_a-Roster p q game e r)
    ]
  ]
