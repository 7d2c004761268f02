-- ===== src/Abilities/Missile.antt =====
-- The predator missile leaves wrecks, which later shots run into.
use battleship_plus.Base.{nat_eq, nat_pair_eq, ℕ, ◌≤◌, ◌≡◌, ◌≢◌, ap, inl, inr}
use battleship_plus.Base.{true, some, arith}
use battleship_plus.Base.{nat_pair_beq_iff}
use battleship_plus.Base.Collections.{get, get-insert}
use battleship_plus.Rstar.{Geometry, Point}
use battleship_plus.Types.{
  ShipId, Costs, CommonBalancing, BattleshipBalancing, Coordinate, ok, panic, Result-cases,
}
use battleship_plus.ShipTree.{ShipTreeNode, node_of, Index}
use battleship_plus.Ship.{Ship, envelope, health, ability}
use battleship_plus.ShipManager.{ShipManager, put_ship, as_point}
use battleship_plus.ShipManager.Sync.{InSync, put_ship-InSync}
use battleship_plus.ShipManager.Placement.{put_ship-Apart, Apart}
use battleship_plus.Actions.{find_ship, aim, attack_with_ship, charge}
use battleship_plus.Actions.Agreement.{node_of-charge}
use battleship_plus.Abilities.{AreaOfEffect, predator_missile, check_predator_missile, around}
use battleship_plus.Abilities.Strikes.{strike_found}
use battleship_plus.Abilities.Wrecks.{attack-Wreck, strike-Wreck, strike_area_lem}

module _ ⦃g : Geometry⦄ ⦃index : Index⦄ where
  open g use {Aabb, intersects, contains_point, contains_point_lem, intersects_lem}

  pub envelope-charge : (c : Costs) (s : Ship) → envelope (charge ability c s) ≡ envelope s
  unfolding node_of
  envelope-charge c s = ap (λ (n : ShipTreeNode). n.envelope) (node_of-charge ability c s)

  missile_found :
      (points : ℕ) (i : ShipId) (center : Point) (bounds : Aabb) (m : ShipManager) (ship : Ship)
      (b : BattleshipBalancing) (c : Costs)
      → check_predator_missile points i center bounds m ≡ ok (ship, b, c)
      → get i m.ships ≡ some ship
  unfolding check_predator_missile find_ship
  missile_found points i center bounds m ship b c h = ground arith

  missile_struck :
      (points : ℕ) (i : ShipId) (center : Point) (bounds : Aabb) (m m' : ShipManager)
      (aoe : AreaOfEffect) (left : ℕ) (ship : Ship) (b : BattleshipBalancing) (c : Costs)
      (e : check_predator_missile points i center bounds m ≡ ok (ship, b, c))
      (ready : InSync (put_ship i (charge ability c ship) m))
      → predator_missile points i center bounds m ≡ (ok aoe, (m', left))
      → let area = around center b.predator_missile_radius in
        (m'
          ≡ (strike_found b.predator_missile_damage area
              (put_ship i (charge ability c ship) m)
              ready).left)
        × (aoe.area ≡ area)
        × (aoe.damage_per_hit ≡ b.predator_missile_damage)
  unfolding predator_missile
  missile_struck points i center bounds m m' aoe left ship b c e ready launched =
      let area = around center b.predator_missile_radius in
      let paid = put_ship i (charge ability c ship) m in
      let shown =
        rw (e, predator_missile, strike_area_lem b.predator_missile_damage area paid ready) at
          launched in
      ground (arith, shown)

  missile_checked :
      (points : ℕ) (i : ShipId) (center : Point) (bounds : Aabb) (m m' : ShipManager)
      (aoe : AreaOfEffect) (left : ℕ)
      → predator_missile points i center bounds m ≡ (ok aoe, (m', left))
      → (x : Ship × BattleshipBalancing × Costs) × (check_predator_missile points i center bounds m
          ≡ ok x)
  unfolding predator_missile
  missile_checked points i center bounds m m' aoe left launched =
      elim (Result-cases (check_predator_missile points i center bounds m)) [
        | inl found ↦ found
        | inr (inl (x, e)) ↦ absurd (ground (arith, e))
        | inr (inr e) ↦ absurd (ground (arith, e))
      ]

  -- On a fleet in order without overlaps, after a predator missile that succeeds has destroyed a
  -- ship other than the launching one, every shot at a tile of the destroyed ship that passes the
  -- checks panics.
  pub predator_missile_wreck :
      (points : ℕ) (i j : ShipId) (center : Point) (bounds : Aabb) (m m' : ShipManager)
      (aoe : AreaOfEffect) (left : ℕ) (s : Ship) (target : Coordinate)
      → InSync m
      → Apart m
      → predator_missile points i center bounds m ≡ (ok aoe, (m', left))
      → get j m.ships ≡ some s
      → i ≢ j
      → intersects aoe.area (envelope s) ≡ true
      → health s ≤ aoe.damage_per_hit
      → contains_point (envelope s) (as_point target) ≡ true
      → (again : ℕ) (k : ShipId) (later : Aabb) (ship : Ship) (b : CommonBalancing) (c : Costs)
      → aim again k (as_point target) later m' ≡ ok (ship, b, c)
      → (attack_with_ship again k target later m').0 ≡ panic
  predator_missile_wreck points i j center bounds m m' aoe left s target v apart launched found ne
        meets weak inside again k later ship b c aimed =
      let ((launcher, bal, costs), e) =
        missile_checked points i center bounds m m' aoe left launched in
      let own = missile_found points i center bounds m launcher bal costs e in
      let paid = put_ship i (charge ability costs launcher) m in
      let ready = put_ship-InSync m i launcher _ own (node_of-charge ability costs launcher) v in
      let spread = put_ship-Apart m i launcher _ own (envelope-charge costs launcher) apart in
      let (here, there, hurt) =
        missile_struck points i center bounds m m' aoe left launcher bal costs e ready launched in
      let still : get j paid.ships ≡ some s =
        ground
          (arith, get-insert i j (charge ability costs launcher) m.ships, nat_pair_beq_iff i j) in
      let w =
        strike-Wreck bal.predator_missile_damage (around center bal.predator_missile_radius) paid j
          s (as_point target) ready spread still (rw there at meets) (rw hurt at weak) inside in
      attack-Wreck again k target later m' ship b c (rw (← here) at w) aimed
