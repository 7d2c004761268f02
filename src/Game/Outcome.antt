-- ===== src/Game/Outcome.antt =====
-- Who has won, and players who leave.
use battleship_plus.Base.{nat_eq, nat_pair_eq, ℕ, ◌≡◌, ◌≢◌, ◌↔◌, refl, inl, inr}
use battleship_plus.Base.{
  Bool, true, false, none, List, [], ◌∷◌, map, filter, length, if◌then◌else◌, nat_beq, arith,
  Option-cases, nat_pair_beq_iff,
}
use battleship_plus.Base.Collections.{HashMap, HashSet, get, contains, contains-collect_set}
use battleship_plus.Rstar.{Geometry}
use battleship_plus.Types.{PlayerId, ShipId}
use battleship_plus.ShipTree.{Index}
use battleship_plus.Ship.{Ship}
use battleship_plus.ShipManager.{ShipManager, get_for_players}
use battleship_plus.Game.{Game, GameResult, pending, draw, win, Teams, game_result}

-- The ids in a map are those that it has values for.
contains-keys :
    (i : ShipId) (m : HashMap ShipId Ship)
    → (contains i (map (λ e. e.0) m) ≡ true) ↔ (get i m ≢ none)
unfolding contains get
contains-keys i [] = (λ h. ground arith, λ h. absurd (h refl))
contains-keys i ((j, s) ∷ m) = ground (arith, contains-keys i m)

contains-filter :
    (p : ShipId → Bool) (i : ShipId) (l : List ShipId)
    → contains i (filter p l) ≡ (if p i then contains i l else false)
unfolding contains
contains-filter p i [] = ground arith
contains-filter p i (j ∷ l) = ground (arith, contains-filter p i l, nat_pair_beq_iff j i)

empty_set : (s : HashSet ShipId) → ((i : ShipId) → contains i s ≡ false) → length s ≡ 0
unfolding contains
empty_set [] h = refl
empty_set (i ∷ s) h = absurd (ground (arith, h i, nat_pair_beq_iff i i))

no_member : (s : HashSet ShipId) (i : ShipId) → length s ≡ 0 → contains i s ≡ false
unfolding contains
no_member [] i h = refl
no_member (j ∷ s) i h = absurd (omega arith)

verdict : ℕ → ℕ → GameResult
verdict a b =
    if nat_beq a 0
    then (if nat_beq b 0 then draw else win Teams.team_b)
    else (if nat_beq b 0 then win Teams.team_a else pending)

verdict_lem :
    {A B : Type 0} (a b : ℕ)
    → (a ≡ 0) ↔ A
    → (b ≡ 0) ↔ B
    → ((verdict a b ≡ draw) ↔ (A × B))
      × ((verdict a b ≡ win Teams.team_a) ↔ ((¬ A) × B))
      × ((verdict a b ≡ win Teams.team_b) ↔ (A × (¬ B)))
      × ((verdict a b ≡ pending) ↔ ((¬ A) × (¬ B)))
unfolding verdict
verdict_lem {A = A} {B = B} a b p q =
    let not_a : ¬ A → a ≢ 0 = λ n e. n (p.0 e) in
    let not_b : ¬ B → b ≢ 0 = λ n e. n (q.0 e) in
    (
      (λ h. (p.0 (ground arith), q.0 (ground arith)), λ (x, y). ground (arith, p.1 x, q.1 y)),
      (
        λ h. (λ x. ground (arith, p.1 x), q.0 (ground arith)),
        λ (x, y). ground (arith, not_a x, q.1 y),
      ),
      (
        λ h. (p.0 (ground arith), λ y. ground (arith, q.1 y)),
        λ (x, y). ground (arith, p.1 x, not_b y),
      ),
      (
        λ h. (λ x. ground (arith, p.1 x), λ y. ground (arith, q.1 y)),
        λ (x, y). ground (arith, not_a x, not_b y),
      ),
    )

module _ ⦃g : Geometry⦄ ⦃index : Index⦄ where
  -- A team without ships.
  abbrev pub Sunk : HashSet PlayerId → ShipManager → Type 0
  Sunk team m = (i : ShipId) → contains i.0 team ≡ true → get i m.ships ≡ none

  -- Whether a set of players has ships.
  fleet_empty :
      (team : HashSet PlayerId) (m : ShipManager)
      → (length (get_for_players team m) ≡ 0) ↔ Sunk team m
  unfolding get_for_players
  fleet_empty team m = (
    λ h i on. elim (Option-cases (get i m.ships)) [
      | inl e ↦ e
      | inr (s, e) ↦ absurd (
          ground (
            arith,
            e,
            no_member _ i h,
            contains-collect_set i (filter (λ i. contains i.0 team) (map (λ e. e.0) m.ships)),
            contains-filter (λ i. contains i.0 team) i (map (λ e. e.0) m.ships),
            contains-keys i m.ships,
          ))
    ],
    λ h. empty_set _ (λ i. ground (
      arith,
      h i,
      contains-collect_set i (filter (λ i. contains i.0 team) (map (λ e. e.0) m.ships)),
      contains-filter (λ i. contains i.0 team) i (map (λ e. e.0) m.ships),
      contains-keys i m.ships,
    )),
  )

  -- The result of a game is a draw if neither team has a ship left, a win of a team if it has one
  -- and the other has none, and pending if both have one.
  pub game_result_lem :
      (game : Game)
      → ((game_result game ≡ draw) ↔ (Sunk game.team_a game.ships × Sunk game.team_b game.ships))
        × ((game_result game ≡ win Teams.team_a)
            ↔ ((¬ Sunk game.team_a game.ships) × Sunk game.team_b game.ships))
        × ((game_result game ≡ win Teams.team_b)
            ↔ (Sunk game.team_a game.ships × (¬ Sunk game.team_b game.ships)))
        × ((game_result game ≡ pending)
            ↔ ((¬ Sunk game.team_a game.ships) × (¬ Sunk game.team_b game.ships)))
  unfolding game_result verdict
  game_result_lem game =
      verdict_lem _ _ (fleet_empty game.team_a game.ships) (fleet_empty game.team_b game.ships)
