-- ===== src/Movement/Safety.antt =====
-- After a move or a rotation in a game and its collisions no two ships overlap.
use battleship_plus.Base.{nat_eq, nat_pair_eq, ℕ, ◌≡◌, ◌≢◌, refl, sym, ap, inl, inr}
use battleship_plus.Base.{false, Option, none, some, List, [], ◌∷◌, arith, Option-cases}
use battleship_plus.Rstar.{Geometry}
use battleship_plus.Types.{
  ShipId, PlayerId, Coordinate, Outcome, ActionValidationError, MoveDirection, RotateDirection, ok,
  err, is_ok, Result-cases,
}
use battleship_plus.ShipTree.{Index}
use battleship_plus.Ship.{Ship}
use battleship_plus.ShipManager.{
  ShipManager, destroy_colliding_ships_in_envelope, get_ship_parts_seen_by, get_for_players,
}
use battleship_plus.ShipManager.Sync.{InSync}
use battleship_plus.ShipManager.Placement.{Apart}
use battleship_plus.ShipManager.Collision.{destroy_colliding_lem}
use battleship_plus.Actions.{State}
use battleship_plus.Movement.{
  report_movement, check_players_turn, Steering, steer_move, steer_rotation, general_movement_inner,
  general_movement, check_movement,
}
use battleship_plus.Game.{Game, Turn}
use battleship_plus.Board.{board_bounds}
use battleship_plus.Base.Collections.{HashSet}
use battleship_plus.Results.{Single}
use battleship_plus.Movement.Clearance.{Sound, cleared}
use battleship_plus.Movement.Steered.{Steers, steer_move-Steers, steer_rotation-Steers}

module _ ⦃g : Geometry⦄ ⦃index : Index⦄ where
  open g use {Aabb, intersects}

  -- What a movement in a game does to the fleet: it stays in order, and a movement that the checks
  -- refuse changes neither the fleet nor the action points.
  abbrev pub MovesSafely : ShipManager → ℕ → Outcome State Single → Type 0
  MovesSafely m points r =
      Sound r.1.0 × ((e : ActionValidationError) → r.0 ≡ err e → r.1 ≡ (m, points))

  -- The report never refuses a movement.
  report_fine :
      (i : ShipId) (enemies : List ShipId) (old_enemy old : List Coordinate)
      (taken : Option (List Ship)) (m : ShipManager) (e : ActionValidationError)
      → report_movement i enemies old_enemy old taken m ≢ err e
  unfolding report_movement
  report_fine i enemies old_enemy old taken m e h = ground arith

  undone_Sound :
      (m : ShipManager) (points : ℕ) (i : ShipId) (r : Outcome State Aabb)
      → Sound m
      → Steers i m points r
      → is_ok r.0 ≡ false
      → Sound r.1.0
  undone_Sound m points i r h st failed = rw (st.kept failed) h

  destroyed_some :
      (m : ShipManager) (e : Aabb)
      → InSync m
      → (taken : Option (List Ship)) × (n : ShipManager) × (destroy_colliding_ships_in_envelope e m
          ≡ some (taken, n))
  destroyed_some m e v =
      let (n, w, what) = destroy_colliding_lem m e v in
      elim what [ inl (r, same, once) ↦ (none, n, r) | inr (ss, r, left, two) ↦ (some ss, n, r) ]

  pub general_movement_inner-Sound :
      (points : ℕ) (i : ShipId) (bounds : Aabb) (enemies : List ShipId) (act : Steering)
      (m : ShipManager)
      → Sound m
      → Steers i m points (act m points i bounds)
      → MovesSafely m points (general_movement_inner points i bounds enemies act m)
  unfolding general_movement_inner
  general_movement_inner-Sound points i bounds enemies act m h st =
      elim (Option-cases (get_ship_parts_seen_by enemies m)) [
        | inl a ↦ rw (a, general_movement_inner) (h, λ e q. refl)
        | inr (v, a) ↦ elim (Option-cases (get_ship_parts_seen_by (i ∷ []) m)) [
          | inl b ↦ rw (a, general_movement_inner) (rw b (h, λ e q. refl))
          | inr (w, b) ↦ elim (Result-cases (act m points i bounds).0) [
            | inr (inl (x, c)) ↦
                rw (a, general_movement_inner)
                  (rw b (rw (c, st.kept (ground (arith, c))) (h, λ e q. refl)))
            | inr (inr c) ↦
                rw (a, general_movement_inner)
                  (rw b (rw (c, st.kept (ground (arith, c))) (h, λ e q. refl)))
            | inl (area, c) ↦
                let (t, same, sync, but, here) = st.steered area c in
                let (taken, n, done) = destroyed_some (act m points i bounds).1.0 area sync in
                let clear =
                  cleared (act m points i bounds).1.0 n i t taken sync but here
                    (rw (← same) done) in
                rw (a, general_movement_inner)
                  (rw b
                    (rw c (rw done (clear, λ e q. absurd (report_fine i enemies v w taken n e q)))))
          ]
        ]
      ]

  -- A move in a game keeps the fleet in order.
  abbrev pub FleetSafe : Game → Outcome Game Single → Type 0
  FleetSafe game r = Sound r.1.ships × ((e : ActionValidationError) → r.0 ≡ err e → r.1 ≡ game)

  turn_found :
      (i : ShipId) (game : Game) (t : Turn) (enemies : HashSet PlayerId)
      → check_movement i game ≡ ok (t, enemies)
      → game.turn ≡ some t
  unfolding check_movement check_players_turn
  turn_found i game t enemies h = ground arith

  same_game :
      (game : Game) (t : Turn)
      → game.turn ≡ some t
      → record game { ships = game.ships; turn = some t } ≡ game
  same_game game t h = ap (λ (u : Option Turn). record game { turn = u }) (sym h)

  general_movement-FleetSafe :
      (i : ShipId) (act : Steering) (game : Game)
      → ((points : ℕ) (bounds : Aabb) → Steers i game.ships points (act game.ships points i bounds))
      → Sound game.ships
      → FleetSafe game (general_movement i act game)
  unfolding general_movement
  general_movement-FleetSafe i act game st h = elim (Result-cases (check_movement i game)) [
    | inr (inl (x, c)) ↦ rw (c, general_movement) (h, λ e q. refl)
    | inr (inr c) ↦ rw (c, general_movement) (h, λ e q. refl)
    | inl ((t, enemies), c) ↦
        let bounds = board_bounds game.config in
        let points = t.action_points_left in
        let foes = get_for_players enemies game.ships in
        let (clear, refused) =
          general_movement_inner-Sound points i bounds foes act game.ships h (st points bounds) in
        rw (c, general_movement)
          (clear, λ e q. rw (refused e q) (same_game game t (turn_found i game t enemies c)))
  ]

  -- On a fleet in order without overlaps, a move or a rotation in a game, whatever its outcome,
  -- leaves a fleet in order without overlaps; and one that is refused leaves the game as it was.
  pub general_movement_lem :
      (i : ShipId) (game : Game)
      → InSync game.ships
      → Apart game.ships
      → ((d : MoveDirection) → FleetSafe game (general_movement i (steer_move d) game))
        × ((d : RotateDirection) → FleetSafe game (general_movement i (steer_rotation d) game))
  general_movement_lem i game v apart = (
    λ d.
        general_movement-FleetSafe i (steer_move d) game
          (λ points bounds. steer_move-Steers d game.ships points i bounds (v, apart)) (v, apart),
    λ d.
        general_movement-FleetSafe i (steer_rotation d) game
          (λ points bounds. steer_rotation-Steers d game.ships points i bounds (v, apart))
          (v, apart),
  )
