-- ===== src/Server/Runs.antt =====
-- The states that the server reaches.
use battleship_plus.Base.{nat_eq, nat_pair_eq, ◌≤◌, ◌≢◌, inl, inr, arith}
use battleship_plus.Base.{none, some, List, [], ◌∷◌, Option-cases}
use battleship_plus.Base.Collections.{HashMap, get}
use battleship_plus.Base.Counts.{count, keys, get-count}
use battleship_plus.Rstar.{Geometry}
use battleship_plus.Types.{Config, PlayerId, Result-cases}
use battleship_plus.ShipTree.{Index}
use battleship_plus.Game.{Player, new_game}
use battleship_plus.Server.Messages.{ClientId, Inbound}
use battleship_plus.Server.Lobby.{build_team_states, handle_disconnect}
use battleship_plus.Server.Dispatch.{Surroundings, handle_message, handle_payload}
use battleship_plus.Server.{Channels, World}
use battleship_plus.Server.Roster.{Roster}
use battleship_plus.Server.Upkeep.{keeps, send_message-Keeps, attempt-Keeps}
use battleship_plus.Server.Replies.{Newcomer, handle_message-Roster, handle_disconnect-Roster}

-- The news of a team have all its players, if they are in the game.
told :
    (team : List PlayerId) (players : HashMap PlayerId Player)
    → ((p : PlayerId) → count p team ≤ count p (keys players))
    → build_team_states team players ≢ none
unfolding build_team_states
told [] players h q = ground arith
told (i ∷ rest) players h q = elim (Option-cases (get i players)) [
  | inl e ↦ absurd (ground (arith, h i, (get-count i players).0 e))
  | inr (p, e) ↦ elim (Option-cases (build_team_states rest players)) [
    | inl f ↦ told rest players (λ j. ground (arith, h j)) f
    | inr (ps, f) ↦ absurd (ground (arith, e, f))
  ]
]

module _ ⦃g : Geometry⦄ ⦃index : Index⦄ ⦃channels : Channels⦄ (around : Surroundings)
    (config : Config) where
  -- What a server with a configuration comes to: a new game, and what is left after a payload of a
  -- client, who joins at most once, and after the end of a connection.
  pub data Reached : World → Type 0 where
    opened : Reached (record { game = new_game config; sent = [] })
    answered :
        {w : World} (client : ClientId) (msg : Inbound)
        → Newcomer client msg w.game
        → Reached w
        → Reached (handle_payload around config client (some msg) w).1
    empty :
        {w : World} (client : ClientId)
        → Reached w
        → Reached (handle_payload around config client none w).1
    left : {w : World} (client : ClientId) → Reached w → Reached (handle_disconnect client w).1

  payload-Roster :
      (client : ClientId) (msg : Inbound) (w : World)
      → Newcomer client msg w.game
      → Roster w.game
      → Roster (handle_payload around config client (some msg) w).1.game
  unfolding handle_payload
  payload-Roster client msg w new r =
      let after = handle_message-Roster around config client msg w new r in
      elim (Result-cases (handle_message around config client msg w).0) [
        | inl (u, e) ↦ rw (e, handle_payload) after
        | inr (inr e) ↦ rw (e, handle_payload) after
        | inr (inl (x, e)) ↦
            rw (e, handle_payload) (keeps Roster (attempt-Keeps (send_message-Keeps _ _)) _ after)
      ]

  Reached-Roster : {w : World} → Reached w → Roster w.game
  unfolding new_game handle_payload
  Reached-Roster opened = λ p. (omega arith, omega arith)
  Reached-Roster (answered {w = w} client msg new r) =
      payload-Roster client msg w new (Reached-Roster r)
  Reached-Roster (empty client r) = Reached-Roster r
  Reached-Roster (left {w = w} client r) = handle_disconnect-Roster client w (Reached-Roster r)

  -- In every state that the server reaches from a new game, by messages of clients, who join once
  -- at most, and by ends of connections, every player is in exactly one team, nobody else is in
  -- one, and listing the members of both teams does not panic.
  pub Reached-told :
      (w : World)
      → Reached w
      → Roster w.game
        × (build_team_states w.game.team_a w.game.players ≢ none)
        × (build_team_states w.game.team_b w.game.players ≢ none)
  Reached-told w h =
      let r = Reached-Roster h in
      (
        r,
        told w.game.team_a w.game.players (λ p. omega (arith, r p)),
        told w.game.team_b w.game.players (λ p. omega (arith, r p)),
      )
