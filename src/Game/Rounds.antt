-- ===== src/Game/Rounds.antt =====
-- The end of a turn: cooldowns run down, and the next player gets the turn.
use battleship_plus.Base.{nat_eq, nat_pair_eq, ℕ, zero, suc, ◌-◌, ◌≡◌, ◌≢◌, refl, ap, ◌∙◌, inl, inr}
use battleship_plus.Base.{
  true, Option, none, some, List, [], ◌∷◌, map, filter_map, if◌then◌else◌, ltb, arith, Option-cases,
}
use battleship_plus.Base.Collections.{HashMap, get, contains}
use battleship_plus.Rstar.{Geometry}
use battleship_plus.Types.{PlayerId, ShipId}
use battleship_plus.ShipTree.{Index, same_node, node_of, ShipTreeNode}
use battleship_plus.Ship
use battleship_plus.Ship.{
  Ship, Cooldown, movement, rotate, cannon, ability, cool_downs, set_cool_downs, decremented,
  envelope,
}
use battleship_plus.Ship.Fields.{
  cool_downs-set_cool_downs, ship_data-set_cool_downs, len-set_cool_downs,
}
use battleship_plus.ShipManager.{ShipManager}
use battleship_plus.ShipManager.Sync.{InSync}
use battleship_plus.ShipManager.Placement.{Apart}
use battleship_plus.Actions.Agreement.{node_of-data}
use battleship_plus.Game.{Game, Turn, tick, rested, advance_turn, new_turn}

-- The turns that pass for a ship.
pub rest_for : ℕ → Ship → Ship
rest_for zero s = s
rest_for (suc k) s = rested (rest_for k s)

-- What is left of a cooldown after a number of turns.
unfoldable pub after_turns : ℕ → Cooldown → Option Cooldown
after_turns k (movement n) = if ltb k n then some (movement (n - k)) else none
after_turns k (rotate n) = if ltb k n then some (rotate (n - k)) else none
after_turns k (cannon n) = if ltb k n then some (cannon (n - k)) else none
after_turns k (ability n) = if ltb k n then some (ability (n - k)) else none

filter_map-filter_map :
    (f h fh : Cooldown → Option Cooldown)
    → ((c d : Cooldown) → f c ≡ some d → h d ≡ fh c)
    → ((c : Cooldown) → f c ≡ none → fh c ≡ none)
    → (l : List Cooldown) → filter_map h (filter_map f l) ≡ filter_map fh l
filter_map-filter_map f h fh p q [] = refl
filter_map-filter_map f h fh p q (c ∷ l) = elim (Option-cases (f c)) [
  | inl e ↦ ground (arith, e, q c e, filter_map-filter_map f h fh p q l)
  | inr (d, e) ↦ ground (arith, e, p c d e, filter_map-filter_map f h fh p q l)
]

tick-after :
    (k : ℕ) (c d : Cooldown) → after_turns (suc k) c ≡ some d → tick d ≡ after_turns (suc (suc k)) c
unfolding tick after_turns
tick-after k c d h = ground arith

after-none :
    (k : ℕ) (c : Cooldown) → after_turns (suc k) c ≡ none → after_turns (suc (suc k)) c ≡ none
unfolding after_turns
after-none k c h = ground arith

tick_once : (c : Cooldown) → tick c ≡ after_turns 1 c
unfolding tick after_turns
tick_once c = ground arith

filter_map-ext :
    (f h : Cooldown → Option Cooldown)
    → ((c : Cooldown) → f c ≡ h c)
    → (l : List Cooldown) → filter_map f l ≡ filter_map h l
filter_map-ext f h p [] = refl
filter_map-ext f h p (c ∷ l) = ground (arith, p c, filter_map-ext f h p l)

cool_downs-rested : (s : Ship) → cool_downs (rested s) ≡ filter_map tick (cool_downs s)
unfolding rested
cool_downs-rested s = cool_downs-set_cool_downs s _

-- After one turn or more, exactly those cooldowns of a ship are left that had more rounds to go, in
-- their order, each shorter by the number of turns.
pub cool_downs-rest_for :
    (k : ℕ) (s : Ship)
    → cool_downs (rest_for (suc k) s) ≡ filter_map (after_turns (suc k)) (cool_downs s)
unfolding rest_for
cool_downs-rest_for zero s = cool_downs-rested s ∙ filter_map-ext tick (after_turns 1) tick_once _
cool_downs-rest_for (suc k) s =
    cool_downs-rested _
    ∙ ap (filter_map tick) (cool_downs-rest_for k s)
    ∙ filter_map-filter_map _ tick _ (tick-after k) (after-none k) (cool_downs s)

-- The end of a turn on the server shortens a cooldown as `Cooldown::decremented` does.
tick-decremented : (c : Cooldown) → tick c ≡ decremented c
unfolding tick decremented
tick-decremented c = ground arith

get-map :
    (f : Ship → Ship) (i : ShipId) (m : HashMap ShipId Ship)
    → get i (map (λ e. (e.0, f e.1)) m)
      ≡ elim (get i m) as (λ _. Option Ship) [ none ↦ none | some s ↦ some (f s) ]
unfolding get
get-map f i [] = refl
get-map f i ((j, s) ∷ m) = ground (arith, get-map f i m)

module _ ⦃g : Geometry⦄ where
  pub node_of-rested : (s : Ship) → node_of (rested s) ≡ node_of s
  unfolding rested
  node_of-rested s = node_of-data s _ (ship_data-set_cool_downs s _) (len-set_cool_downs s _)

  id-rested : (s : Ship) → Ship.id (rested s) ≡ Ship.id s
  unfolding node_of
  id-rested s = ap (λ (n : ShipTreeNode). n.ship_id) (node_of-rested s)

  envelope-rested : (s : Ship) → envelope (rested s) ≡ envelope s
  unfolding node_of
  envelope-rested s = ap (λ (n : ShipTreeNode). n.envelope) (node_of-rested s)

  same_rested :
      (n : ShipTreeNode) (s : Ship) → same_node n (node_of (rested s)) ≡ same_node n (node_of s)
  same_rested n s = ap (same_node n) (node_of-rested s)

module _ ⦃g : Geometry⦄ ⦃index : Index⦄ where
  open g use {intersects}

  unfoldable rest_all : ShipManager → ShipManager
  rest_all m = record m { ships = map (λ e. (e.0, rested e.1)) m.ships }

  rest_all-InSync : (m : ShipManager) → InSync m → InSync (rest_all m)
  unfolding node_of rest_all
  rest_all-InSync m v = record {
    keyed = λ i s h. elim (Option-cases (get i m.ships)) [
      | inl e ↦ absurd (ground (arith, get-map rested i m.ships, e))
      | inr (t, e) ↦ ground (arith, get-map rested i m.ships, e, v.keyed i t e, id-rested t)
    ];
    followed = λ n. elim (Option-cases (get n.ship_id m.ships)) [
      | inl e ↦ ground (arith, get-map rested n.ship_id m.ships, e, v.followed n)
      | inr (t, e) ↦
          ground (arith, get-map rested n.ship_id m.ships, e, v.followed n, same_rested n t)
    ];
  }

  rest_all-Apart : (m : ShipManager) → Apart m → Apart (rest_all m)
  unfolding rest_all
  rest_all-Apart m apart i j s t hs ht ne = elim (Option-cases (get i m.ships)) [
    | inl e ↦ absurd (ground (arith, get-map rested i m.ships, e))
    | inr (a, e) ↦ elim (Option-cases (get j m.ships)) [
      | inl f ↦ absurd (ground (arith, get-map rested j m.ships, f))
      | inr (b, f) ↦ ground (
        arith,
        get-map rested i m.ships,
        get-map rested j m.ships,
        e,
        f,
        apart i j a b e f ne,
        envelope-rested a,
        envelope-rested b,
      )
    ]
  ]

  -- What the end of a turn promises.
  pub record Advances (game : Game) (r : Option (Turn × Game)) : Type 0 where
    pub next_turn : Turn
    pub after : Game
    pub returned : r ≡ some (next_turn, after)
    pub plays : contains next_turn.player_id (map (λ e. e.0) game.players) ≡ true
    pub gains : next_turn.action_points_left ≡ game.config.action_point_gain
    pub recorded : after.turn ≡ some next_turn
    pub in_sync : InSync after.ships
    pub apart : Apart after.ships
    pub rests :
        (i : ShipId)
        → get i after.ships.ships ≡ elim (get i game.ships.ships) as (λ _. Option Ship) [
          | none ↦ none
          | some s ↦ some (rested s)
        ]

  -- In a game with players and a fleet in order without overlaps, the end of a turn gives one of
  -- the players a turn with the configured action points, lets every ship rest, and leaves the
  -- fleet in order without overlaps, for every choice that picks a member of each list but the
  -- empty one.
  pub advance_turn-Advances :
      (choose : List PlayerId → Option PlayerId)
      → ((ps : List PlayerId) (p : PlayerId) → choose ps ≡ some p → contains p ps ≡ true)
      → ((ps : List PlayerId) → choose ps ≡ none → ps ≡ [])
      → (game : Game) → map (λ e. e.0) game.players ≢ []
      → InSync game.ships
      → Apart game.ships
      → Advances game (advance_turn choose game)
  unfolding advance_turn new_turn
  advance_turn-Advances choose picks offers game manned v apart =
      elim (Option-cases (choose (map (λ e. e.0) game.players))) [
        | inl e ↦ absurd (manned (offers _ e))
        | inr (p, e) ↦ record {
          next_turn = new_turn p game.config.action_point_gain;
          after = record game {
            ships = rest_all game.ships;
            turn = some (new_turn p game.config.action_point_gain);
          };
          returned = unfold rest_all in (rw (e, advance_turn));
          plays = picks _ p e;
          gains = refl;
          recorded = refl;
          in_sync = rest_all-InSync game.ships v;
          apart = rest_all-Apart game.ships apart;
          rests = λ i. unfold rest_all in (get-map rested i game.ships.ships);
        }
      ]
