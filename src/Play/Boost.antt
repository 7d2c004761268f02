-- ===== src/Play/Boost.antt =====
-- The engine boost: a sequence of moves that ends with the first that fails.
use battleship_plus.Base.{nat_eq, nat_pair_eq, ℕ, zero, suc, ◌≡◌, ap, inl, inr}
use battleship_plus.Base.{Bool, true, false, List, arith, Option-cases}
use battleship_plus.Base.Collections.{get}
use battleship_plus.Rstar.{Geometry}
use battleship_plus.Types.{ShipId, Costs, CruiserBalancing, forward, Result-cases}
use battleship_plus.Board.{board_bounds}
use battleship_plus.ShipTree.{Index}
use battleship_plus.Ship.{ability}
use battleship_plus.ShipManager.{ShipManager, get_for_players, get_by_id}
use battleship_plus.Actions.{Checked, State}
use battleship_plus.Abilities
use battleship_plus.Abilities.{check_engine_boost, as_cruiser, cool_boosted}
use battleship_plus.Game.{Game, Turn}
use battleship_plus.Movement.Clearance.{Sound}
use battleship_plus.Movement.{general_movement_inner, enemy_team}
use battleship_plus.Movement.Steered.{Steers, move_ship-Steers}
use battleship_plus.Movement.Safety.{general_movement_inner-Sound}
use battleship_plus.Turns.{boost_moves, boost, boost_at, steer_boost}
use battleship_plus.Play.Fleet.{charge-Sound}

module _ ⦃g : Geometry⦄ ⦃index : Index⦄ where
  open g use {Aabb}

  pub steer_boost-Steers :
      (m : ShipManager) (points : ℕ) (i : ShipId) (bounds : Aabb)
      → Sound m
      → Steers i m points (steer_boost m points i bounds)
  unfolding steer_boost
  steer_boost-Steers m points i bounds h =
      let s = move_ship-Steers false forward m 0 i bounds h in
      record { kept = λ f. ap (λ (p : State). (p.0, points)) (s.kept f); steered = s.steered }

  boosted_move-Sound :
      (i : ShipId) (bounds : Aabb) (enemies : List ShipId) (m : ShipManager)
      → Sound m
      → Sound (general_movement_inner 0 i bounds enemies steer_boost m).1.0
  boosted_move-Sound i bounds enemies m h =
      (general_movement_inner-Sound 0 i bounds enemies steer_boost m h
        (steer_boost-Steers m 0 i bounds h)).0

  boost_moves-Sound :
      (i : ShipId) (bounds : Aabb) (enemies : List ShipId) (n : ℕ) (failed : Bool) (m : ShipManager)
      → Sound m
      → Sound (boost_moves i bounds enemies n failed m).1
  unfolding boost_moves
  boost_moves-Sound i bounds enemies zero failed m h = h
  boost_moves-Sound i bounds enemies (suc n) true m h = h
  boost_moves-Sound i bounds enemies (suc n) false m h =
      let moved = general_movement_inner 0 i bounds enemies steer_boost m in
      let after = boosted_move-Sound i bounds enemies m h in
      elim (Result-cases moved.0) [
        | inl (s, e) ↦ rw (e, boost_moves) (boost_moves-Sound i bounds enemies n _ moved.1.0 after)
        | inr (inl (x, e)) ↦
            rw (e, boost_moves) (boost_moves-Sound i bounds enemies n _ moved.1.0 after)
        | inr (inr e) ↦ rw (e, boost_moves) after
      ]

  boost-Sound :
      (i : ShipId) (bounds : Aabb) (enemies : List ShipId) (m : ShipManager) (b : CruiserBalancing)
      → Sound m
      → Sound (boost i bounds enemies m b).1
  unfolding boost
  boost-Sound i bounds enemies m b h = elim (Option-cases (get_by_id i m)) [
    | inl e ↦ rw (e, boost) h
    | inr (s, e) ↦
        let after = boost_moves-Sound i bounds enemies b.engine_boost_distance false m h in
        let same : (boost i bounds enemies m b).1
            ≡ (boost_moves i bounds enemies b.engine_boost_distance false m).1 =
          ground (arith, e) in
        rw same after
  ]

  boost_kept : (i : ShipId) (c : Costs) (m : ShipManager) → Sound m → Sound (cool_boosted i c m).1
  unfolding cool_boosted
  boost_kept i c m sound = elim (Option-cases (get i m.ships)) [
    | inl e ↦ rw (e, cool_boosted) sound
    | inr (s, e) ↦ elim (Result-cases (as_cruiser s)) [
      | inl (b, f) ↦
          rw (e, cool_boosted) (rw (f, cool_boosted) (charge-Sound m i s ability c e sound))
      | inr (inl (x, f)) ↦ rw (e, cool_boosted) (rw (f, cool_boosted) sound)
      | inr (inr f) ↦ rw (e, cool_boosted) (rw (f, cool_boosted) sound)
    ]
  ]

  engine_boost-Sound :
      {R : Type 0} (points : ℕ) (i : ShipId)
      (act : ShipManager → CruiserBalancing → Checked R × ShipManager) (m : ShipManager)
      → ((b : CruiserBalancing) → Sound (act m b).1)
      → Sound m
      → Sound (Abilities.engine_boost points i act m).1.0
  unfolding Abilities.engine_boost
  engine_boost-Sound points i act m each sound =
      elim (Result-cases (check_engine_boost points i m)) [
        | inr (inl (x, e)) ↦ rw (e, Abilities.engine_boost) sound
        | inr (inr e) ↦ rw (e, Abilities.engine_boost) sound
        | inl ((b, c), e) ↦ elim (Result-cases (act m b).0) [
          | inr (inl (x, f)) ↦
              rw (e, Abilities.engine_boost) (rw (f, Abilities.engine_boost) (each b))
          | inr (inr f) ↦ rw (e, Abilities.engine_boost) (rw (f, Abilities.engine_boost) (each b))
          | inl (r, f) ↦
              rw (e, Abilities.engine_boost)
                (rw (f, Abilities.engine_boost) (boost_kept i c (act m b).1 (each b)))
        ]
      ]

  pub boost_at-Sound :
      (i : ShipId) (game : Game) (t : Turn) → Sound game.ships → Sound (boost_at t i game).1.ships
  unfolding boost_at
  boost_at-Sound i game t sound = elim (Result-cases (enemy_team i.0 game)) [
    | inr (inl (x, e)) ↦ rw (e, boost_at) sound
    | inr (inr e) ↦ rw (e, boost_at) sound
    | inl (enemies, e) ↦
        let bounds = board_bounds game.config in
        let foes = get_for_players enemies game.ships in
        rw (e, boost_at)
          (engine_boost-Sound t.action_points_left i (boost i bounds foes) game.ships
            (λ b. boost-Sound i bounds foes game.ships b sound) sound)
  ]
