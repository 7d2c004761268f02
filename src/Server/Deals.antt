-- ===== src/Server/Deals.antt =====
-- The start of the preparation: there is a quadrant for each player.
use battleship_plus.Base.{
  nat_eq, nat_pair_eq, ℕ, zero, suc, ◌+◌, ◌*◌, ◌/◌, ◌^◌, ◌≤◌, ◌<◌, ◌≡◌, ◌≢◌, refl, ap, ◌∙◌, inl,
  inr, arith,
}
use battleship_plus.Base.{
  true, false, none, some, List, [], ◌∷◌, map, length, flat_map, length-append, ltb, Bool-cases,
  Option-cases,
}
use battleship_plus.Base.Words.{add_u32}
use battleship_plus.Base.Collections.{HashMap, remove_set}
use battleship_plus.Base.Counts.{count, keys, count-remove_set}
use battleship_plus.Rstar.{Geometry}
use battleship_plus.Types.{Config, PlayerId, panic, Result-cases}
use battleship_plus.Board.{
  Quadrant, quadrants, quadrants_per_row, player_count, tile_offset, check_game_config, below,
}
use battleship_plus.Board.Cells.{quadrants-grid, grid}
use battleship_plus.Board.Rows.{quadrants_per_row_lem}
use battleship_plus.ShipTree.{Index}
use battleship_plus.Game.{Game, Player, can_change_into_preparation_phase}
use battleship_plus.Server.Messages.{ClientId, Outbound}
use battleship_plus.Server
use battleship_plus.Server.Lobby.{deal, broadcast_game_preparation_start, start_preparation}
use battleship_plus.Server.{
  Channels, World, Handler, Delivery, ◌>>=◌, ◌>>◌, pure, crashes, read_game, write_game,
  send_broadcast,
}
use battleship_plus.Server.Roster.{Roster}

length-map : {A B : Type 0} (f : A → B) (l : List A) → length (map f l) ≡ length l
length-map f [] = refl
length-map f (a ∷ l) = ap suc (length-map f l)

length-below : (n : ℕ) → length (below n) ≡ n
unfolding below
length-below zero = refl
length-below (suc n) = ap suc (length-map suc (below n) ∙ length-below n)

length-flat_map :
    {A B : Type 0} (f : A → List B) (m : ℕ) (l : List A)
    → ((a : A) → length (f a) ≡ m)
    → length (flat_map f l) ≡ length l * m
length-flat_map f m [] h = omega arith
length-flat_map f m (a ∷ l) h =
    omega (arith, length-append (f a) (flat_map f l), h a, length-flat_map f m l h)

length-grid : (offset size r : ℕ) → length (grid offset size r) ≡ r * r
unfolding grid
length-grid offset size r =
    length-flat_map _ r (below r) (λ x. length-map _ (below r) ∙ length-below r)
    ∙ ap (λ (n : ℕ). n * r) (length-below r)

length-remove_set : (x : ℕ) (s : List ℕ) → length (remove_set x s) + count x s ≡ length s
unfolding remove_set
length-remove_set x [] = omega arith
length-remove_set x (y ∷ s) = ground (arith, length-remove_set x s)

no_keys : (s : List ℕ) → ((p : ℕ) → count p s ≡ 0) → s ≡ []
no_keys [] h = refl
no_keys (x ∷ s) h = absurd (ground (arith, h x))

-- A list that has each key as often as two others together is as long as they are.
length-counts :
    (n : ℕ) (k a b : List ℕ)
    → length k ≤ n
    → ((p : ℕ) → count p k ≡ count p a + count p b)
    → length k ≡ length a + length b
length-counts n [] a b h same =
    let no_a = ap length (no_keys a (λ p. omega (arith, same p))) in
    let no_b = ap length (no_keys b (λ p. omega (arith, same p))) in omega (arith, no_a, no_b)
length-counts zero (x ∷ k) a b h same = absurd (omega arith)
length-counts (suc n) (x ∷ k) a b h same =
    let rest =
      length-counts n (remove_set x (x ∷ k)) (remove_set x a) (remove_set x b)
        (ground (arith, length-remove_set x (x ∷ k)))
        (λ p. ground (
          arith,
          same p,
          count-remove_set x p (x ∷ k),
          count-remove_set x p a,
          count-remove_set x p b,
        )) in
    omega (
      arith,
      rest,
      same x,
      length-remove_set x (x ∷ k),
      length-remove_set x a,
      length-remove_set x b,
    )

-- There are at least as many quadrants as players.
pub length-quadrants :
    (config : Config) (qs : List Quadrant)
    → quadrants config ≡ some qs
    → config.team_size_a + config.team_size_b < 2 ^ 32
    → config.team_size_a + config.team_size_b ≤ length qs
unfolding player_count add_u32
length-quadrants config qs h small =
    let many = (quadrants_per_row_lem (player_count config) (omega (arith, small))).0 in
    let size = ap length (quadrants-grid config qs h) in
    let r = quadrants_per_row (player_count config) in
    let grid_size =
      length-grid (tile_offset config.board_size r (config.board_size / r)) (config.board_size / r)
        r in
    omega (arith, many, size ∙ grid_size)

-- A configuration that passes the check has quadrants.
checked_quadrants :
    (config : Config) → check_game_config config ≡ some true → quadrants config ≢ none
unfolding check_game_config quadrants
checked_quadrants config h q = ground (arith, h, q)

module _ ⦃g : Geometry⦄ ⦃index : Index⦄ ⦃channels : Channels⦄ where
  send_broadcast_calm :
      (cs : List ClientId) (m : Outbound) (w : World) → (send_broadcast cs m w).0 ≢ panic
  unfolding send_broadcast Server.deliver
  send_broadcast_calm cs m w h = ground (arith, h)

  -- A handler that does not panic.
  Calm : {A : Type 0} → Handler A → Type 0
  Calm h = (w : World) → (h w).0 ≢ panic

  then-Calm :
      {B : Type 0} (m : Handler (Unit {0})) (k : Handler B) → Calm m → Calm k → Calm (m >> k)
  unfolding Calm ◌>>=◌
  then-Calm m k cm ck w = elim (Result-cases (m w).0) [
    | inl (u, e) ↦ rw (e, ◌>>=◌) (ck (m w).1)
    | inr (inl (x, e)) ↦ rw (e, ◌>>=◌) (λ h. ground arith)
    | inr (inr e) ↦ absurd (cm w e)
  ]

  read-Calm :
      {B : Type 0} (f : Game → Handler B)
      → ((w : World) → (f w.game w).0 ≢ panic)
      → Calm (read_game >>= f)
  unfolding Calm ◌>>=◌ read_game
  read-Calm f each = each

  write-Calm : (game : Game) → Calm (write_game game)
  unfolding Calm write_game
  write-Calm game w h = ground arith

  send-Calm : (cs : List ClientId) (m : Outbound) → Calm (send_broadcast cs m)
  unfolding Calm
  send-Calm = send_broadcast_calm

  Calm-at : {A : Type 0} (h : Handler A) (w : World) → Calm h → (h w).0 ≢ panic
  unfolding Calm
  Calm-at h w c = c w

  done-Calm : {A : Type 0} (a : A) → Calm (pure a)
  unfolding Calm pure
  done-Calm a w h = ground arith

  deal-Calm :
      (ps : HashMap PlayerId Player) (qs : List Quadrant)
      → length ps ≤ length qs
      → Calm (deal ps qs)
  unfolding deal
  deal-Calm [] qs h = done-Calm _
  deal-Calm ((i, p) ∷ ps) [] h = absurd (omega arith)
  deal-Calm ((i, p) ∷ ps) (q ∷ qs) h = read-Calm _ (λ w. Calm-at _ w (
      then-Calm _ _ (write-Calm _) (then-Calm _ _ (send-Calm _ _) (deal-Calm ps qs (omega arith)))))

  dealing_calm :
      (dealt : List Quadrant → List Quadrant) (qs : List Quadrant) (w : World)
      → ((qs : List Quadrant) → length (dealt qs) ≡ length qs)
      → length w.game.players ≤ length qs
      → (broadcast_game_preparation_start dealt qs w).0 ≢ panic
  unfolding broadcast_game_preparation_start ◌>>=◌ read_game
  dealing_calm dealt qs w keeps_number room =
      let enough : ltb (length qs) (length w.game.players) ≡ false = ground arith in
      rw enough (
        Calm-at (deal w.game.players (dealt qs)) w
          (deal-Calm w.game.players (dealt qs) (omega (arith, keeps_number qs))))

  -- All players have a place in the teams.
  complete :
      (game : Game)
      → Roster game
      → can_change_into_preparation_phase game ≡ true
      → length game.players ≡ game.config.team_size_a + game.config.team_size_b
  unfolding can_change_into_preparation_phase
  complete game r h =
      let ids = keys game.players in
      let all =
        length-counts (length ids) ids game.team_a game.team_b (omega arith) (λ p. (r p).0) in
      let same = length-map (λ (e : PlayerId × Player). e.0) game.players in
      ground (arith, h, all, same)

  -- For a shuffle that keeps the number of quadrants, a configuration that passes the check, with
  -- team sizes that add up to less than 2^32, and a game with every player in exactly one team and
  -- nobody else in one, the start of the preparation does not panic, whatever the network accepts.
  pub start_preparation_lem :
      (dealt : List Quadrant → List Quadrant) (w : World)
      → ((qs : List Quadrant) → length (dealt qs) ≡ length qs)
      → check_game_config w.game.config ≡ some true
      → w.game.config.team_size_a + w.game.config.team_size_b < 2 ^ 32
      → Roster w.game
      → (start_preparation dealt w).0 ≢ panic
  unfolding start_preparation ◌>>=◌ read_game write_game pure
  start_preparation_lem dealt w keeps_number fine small r =
      elim (Bool-cases (can_change_into_preparation_phase w.game)) [
        | inr e ↦ rw e (λ h. ground arith)
        | inl e ↦ elim (Option-cases (quadrants w.game.config)) [
          | inl f ↦ absurd (checked_quadrants w.game.config fine f)
          | inr (qs, f) ↦ rw e (
              rw f (
                dealing_calm dealt qs _ keeps_number
                  (omega (arith, complete w.game r e, length-quadrants w.game.config qs f small))))
        ]
      ]
