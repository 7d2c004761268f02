-- ===== src/Play/Fleet.antt =====
-- Which actions leave the fleet in order without overlaps.
use battleship_plus.Base.{nat_eq, nat_pair_eq, ℕ, ◌≡◌, ap, inl, inr}
use battleship_plus.Base.{Option, none, some, arith, Option-cases}
use battleship_plus.Base.Collections.{HashSet, get}
use battleship_plus.Rstar.{Geometry, Point}
use battleship_plus.Types.{ShipId, PlayerId, Coordinate, Costs, CarrierBalancing, ok, Result-cases}
use battleship_plus.Board.{board_bounds}
use battleship_plus.ShipTree.{Index, node_of, ShipTreeNode}
use battleship_plus.Ship.{Ship, Cooldown, cannon, ability, apply_damage, envelope}
use battleship_plus.ShipManager.{ShipManager, as_point, put_ship}
use battleship_plus.ShipManager.Sync.{put_ship-InSync}
use battleship_plus.ShipManager.Placement.{Apart, put_ship-Apart, forget_ship-Apart}
use battleship_plus.Actions.{Checked, State, ShotResult, attack_with_ship, charge, find_ship}
use battleship_plus.Actions.Agreement.{node_of-charge}
use battleship_plus.Actions.Shots.{
  Shoots, misses, hits, sinks, Attacks, refused, broken, shot, attack_with_ship-Attacks,
  node_of-apply_damage, aim_found,
}
use battleship_plus.Abilities
use battleship_plus.Abilities.{check_scout_plane, check_engine_boost, as_cruiser, as_carrier}
use battleship_plus.Game.{Game, Turn}
use battleship_plus.Movement.Clearance.{Sound, charged_envelope}
use battleship_plus.Orders.{Executed}
use battleship_plus.Turns.{in_turn, shoot_at, plane_at, check_turn, scouted_team}

module _ ⦃g : Geometry⦄ ⦃index : Index⦄ where
  open g use {Aabb, intersects}

  -- A ship that pays for an action keeps its place.
  pub charge-Sound :
      (m : ShipManager) (i : ShipId) (s : Ship) (kind : ℕ → Cooldown) (c : Costs)
      → get i m.ships ≡ some s
      → Sound m
      → Sound (put_ship i (charge kind c s) m)
  charge-Sound m i s kind c found (v, apart) = (
    put_ship-InSync m i s _ found (node_of-charge kind c s) v,
    put_ship-Apart m i s _ found (charged_envelope kind c s) apart,
  )

  hurt_envelope : (n : ℕ) (s : Ship) → envelope (apply_damage n s).1 ≡ envelope s
  unfolding node_of
  hurt_envelope n s = ap (λ (k : ShipTreeNode). k.envelope) (node_of-apply_damage n s)

  Shoots-Apart :
      {p : Point} {damage : ℕ} {m : ShipManager} {r : Checked ShotResult × ShipManager}
      → Shoots p damage m r
      → Apart m
      → Apart r.1
  Shoots-Apart (misses free) apart = apart
  Shoots-Apart {damage = d} {m = m} (hits i s found inside afloat) apart =
      put_ship-Apart m i s _ found (hurt_envelope d s) apart
  Shoots-Apart {m = m} (sinks i s found inside sunk) apart = forget_ship-Apart m i s apart

  Attacks-Sound :
      {points : ℕ} {i : ShipId} {target : Coordinate} {bounds : Aabb} {m : ShipManager}
      {r : Checked ShotResult × State}
      → Attacks points i target bounds m r
      → Sound m
      → Sound r.1.0
  Attacks-Sound (refused e h) sound = sound
  Attacks-Sound (broken h) sound = sound
  Attacks-Sound {points = n} {i = i} {target = c} {bounds = b} {m = m}
        (shot s bal cost r aimed falls sync fine) sound =
      let found = (aim_found n i (as_point c) b m s bal cost aimed).0 in
      (sync, Shoots-Apart falls (charge-Sound m i s cannon cost found sound).1)

  -- An action in a turn keeps what all its turns keep.
  pub in_turn-Sound :
      {A : Type 0} (player : PlayerId) (game : Game) (act : Turn → Executed A × Game)
      → Sound game.ships
      → ((t : Turn) → Sound (act t).1.ships)
      → Sound (in_turn player game act).1.ships
  in_turn-Sound player game act sound each = elim (Result-cases (check_turn player game)) [
    | inr (inl (x, e)) ↦ rw (e, in_turn) sound
    | inr (inr e) ↦ rw (e, in_turn) sound
    | inl (t, e) ↦ rw (e, in_turn) (each t)
  ]

  pub shoot_at-Sound :
      (i : ShipId) (target : Option Coordinate) (game : Game) (t : Turn)
      → Sound game.ships
      → Sound (shoot_at t i target game).1.ships
  unfolding shoot_at
  shoot_at-Sound i none game t sound = sound
  shoot_at-Sound i (some c) game t sound =
      let bounds = board_bounds game.config in
      let after =
        Attacks-Sound (attack_with_ship-Attacks t.action_points_left i c bounds game.ships sound.0)
          sound in
      elim (Option-cases (get i.0 game.players)) [
        | inl absent ↦ rw (absent, shoot_at) sound
        | inr (player, there) ↦
            elim (Result-cases (attack_with_ship t.action_points_left i c bounds game.ships).0) [
              | inr (inl (x, e)) ↦ rw (there, shoot_at) (rw e after)
              | inr (inr e) ↦ rw (there, shoot_at) (rw e after)
              | inl (result, e) ↦ rw (there, shoot_at) (rw e after)
            ]
      ]

  plane_found :
      (points : ℕ) (i : ShipId) (center : Point) (bounds : Aabb) (m : ShipManager) (ship : Ship)
      (b : CarrierBalancing) (c : Costs)
      → check_scout_plane points i center bounds m ≡ ok (ship, b, c)
      → get i m.ships ≡ some ship
  unfolding check_scout_plane find_ship
  plane_found points i center bounds m ship b c h = ground arith

  scout_plane-Sound :
      (points : ℕ) (i : ShipId) (center : Point) (bounds : Aabb) (enemies : HashSet PlayerId)
      (m : ShipManager)
      → Sound m
      → Sound (Abilities.scout_plane points i center bounds enemies m).1.0
  unfolding Abilities.scout_plane
  scout_plane-Sound points i center bounds enemies m sound =
      elim (Result-cases (check_scout_plane points i center bounds m)) [
        | inr (inl (x, e)) ↦ rw (e, Abilities.scout_plane) sound
        | inr (inr e) ↦ rw (e, Abilities.scout_plane) sound
        | inl ((ship, b, c), e) ↦
            rw (e, Abilities.scout_plane)
              (charge-Sound m i ship ability c (plane_found points i center bounds m ship b c e)
                sound)
      ]

  pub plane_at-Sound :
      (i : ShipId) (center : Option Coordinate) (game : Game) (t : Turn)
      → Sound game.ships
      → Sound (plane_at t i center game).1.ships
  unfolding plane_at
  plane_at-Sound i center game t sound = elim (Result-cases (scouted_team i.0 game)) [
    | inr (inl (x, e)) ↦ rw (e, plane_at) sound
    | inr (inr e) ↦ rw (e, plane_at) sound
    | inl (enemies, e) ↦ elim (Option-cases center) [
      | inl f ↦ rw (e, plane_at) (rw f sound)
      | inr (c, f) ↦
          rw (e, plane_at)
            (rw f (
              scout_plane-Sound t.action_points_left i (as_point c) (board_bounds game.config)
                enemies game.ships sound))
    ]
  ]
