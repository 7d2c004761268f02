-- ===== src/Movement/Clearance.antt =====
-- Destroying what collides with a ship that has moved leaves no overlap.
use battleship_plus.Base.{nat_eq, nat_pair_eq, ℕ, ◌≡◌, ◌≢◌, sym, ap, inl, inr}
use battleship_plus.Base.{
  Bool, true, false, Option, none, some, List, if◌then◌else◌, arith, ◌==◌, Bool-cases,
  nat_pair_beq_iff,
}
use battleship_plus.Base.Int.{ℤ, min_ℤ, max_ℤ}
use battleship_plus.Base.Collections.{get, get-insert}
use battleship_plus.Rstar.{Geometry, boxes_meet, Point}
use battleship_plus.Types.{ShipId, Costs, MoveDirection, RotateDirection, ok}
use battleship_plus.ShipTree.{Index, node_of, ShipTreeNode}
use battleship_plus.Ship.{
  Ship, Cooldown, Orientation, north, south, east, west, envelope, get_envelope,
  get_envelope_with_orientation,
}
use battleship_plus.Ship.Steering.{do_move_cases, do_rotation_lem}
use battleship_plus.ShipManager.{ShipManager, destroy_colliding_ships_in_envelope}
use battleship_plus.ShipManager.Sync.{InSync}
use battleship_plus.ShipManager.Placement.{Apart, intersects_comm}
use battleship_plus.ShipManager.Collision.{destroy_colliding_lem, hit}
use battleship_plus.Actions.{charge, move_mutation, rotate_mutation}
use battleship_plus.Actions.Agreement.{node_of-charge, replaced}

corners_meet :
    (p q : Point)
    → boxes_meet
        (min_ℤ p.0 q.0, min_ℤ p.1 q.1)
        (max_ℤ p.0 q.0, max_ℤ p.1 q.1)
        (min_ℤ p.0 q.0, min_ℤ p.1 q.1)
        (max_ℤ p.0 q.0, max_ℤ p.1 q.1)
      ≡ true
corners_meet p q = ground arith

module _ ⦃g : Geometry⦄ where
  open g use {
    Aabb, from_corners, intersects, intersects_lem, lower-from_corners, upper-from_corners,
  }

  corners-intersect : (p q : Point) → intersects (from_corners p q) (from_corners p q) ≡ true
  corners-intersect p q =
      rw
        (
          intersects_lem (from_corners p q) (from_corners p q),
          lower-from_corners p q,
          upper-from_corners p q,
        )
        (corners_meet p q)

  turned_envelope :
      (s : Ship) (x y : ℤ) (o : Orientation)
      → let e = get_envelope_with_orientation s x y o in intersects e e ≡ true
  unfolding get_envelope_with_orientation
  turned_envelope s x y north = corners-intersect _ _
  turned_envelope s x y south = corners-intersect _ _
  turned_envelope s x y east = corners-intersect _ _
  turned_envelope s x y west = corners-intersect _ _

  -- A ship meets its own envelope.
  pub envelope-intersects : (s : Ship) → intersects (envelope s) (envelope s) ≡ true
  unfolding envelope get_envelope
  envelope-intersects s = turned_envelope s _ _ _

  pub charged_envelope :
      (kind : ℕ → Cooldown) (c : Costs) (s : Ship) → envelope (charge kind c s) ≡ envelope s
  unfolding node_of
  charged_envelope kind c s = ap (λ (n : ShipTreeNode). n.envelope) (node_of-charge kind c s)

  -- A mutation that succeeds returns the new envelope of the ship.
  pub move_mutation_area :
      (costed : Bool) (d : MoveDirection) (bounds : Aabb) (s : Ship) (points : ℕ) (e : Aabb)
      → (move_mutation costed d bounds s points).0 ≡ ok e
      → e ≡ envelope (move_mutation costed d bounds s points).1.0
  unfolding move_mutation
  move_mutation_area costed d bounds s points e h =
      grind (arith, do_move_cases s bounds d, charged_envelope)

  pub rotate_mutation_area :
      (d : RotateDirection) (bounds : Aabb) (s : Ship) (points : ℕ) (e : Aabb)
      → (rotate_mutation d bounds s points).0 ≡ ok e
      → e ≡ envelope (rotate_mutation d bounds s points).1.0
  unfolding rotate_mutation
  rotate_mutation_area d bounds s points e h =
      grind (arith, do_rotation_lem s bounds d, charged_envelope)

module _ ⦃g : Geometry⦄ ⦃index : Index⦄ where
  open g use {Aabb, intersects}

  abbrev pub Sound : ShipManager → Type 0
  Sound m = InSync m × Apart m

  -- All pairs of ships but those with one ship are known to be apart.
  abbrev pub ApartBut : ShipId → ShipManager → Type 0
  ApartBut i m =
      (j k : ShipId) (s t : Ship)
      → i ≢ j
      → i ≢ k
      → get j m.ships ≡ some s
      → get k m.ships ≡ some t
      → j ≢ k
      → intersects (envelope s) (envelope t) ≡ false

  alone-Apart :
      (m : ShipManager) (i : ShipId) (t : Ship)
      → ApartBut i m
      → get i m.ships ≡ some t
      → ((j k : ShipId) → hit (envelope t) m j ≡ true → hit (envelope t) m k ≡ true → j ≡ k)
      → Apart m
  alone-Apart m i t but here once j k s u hs hu ne =
      let self = envelope-intersects t in
      let j_is : j ≢ i → k ≢ i → intersects (envelope s) (envelope u) ≡ false =
        λ p q. but j k s u (λ e. p (sym e)) (λ e. q (sym e)) hs hu ne in
      elim (Bool-cases (i == j)) [
        | inl a ↦
            ground (
              arith,
              nat_pair_beq_iff i j,
              once i k,
              self,
              intersects_comm (envelope s) (envelope u),
            )
        | inr a ↦ elim (Bool-cases (i == k)) [
          | inl b ↦ ground (
            arith,
            nat_pair_beq_iff i k,
            once i j,
            self,
            intersects_comm (envelope s) (envelope u),
          )
          | inr b ↦
              j_is (ground (arith, nat_pair_beq_iff i j)) (ground (arith, nat_pair_beq_iff i k))
        ]
      ]

  crash-Apart :
      (m n : ShipManager) (i : ShipId) (t : Ship)
      → ApartBut i m
      → get i m.ships ≡ some t
      → ((j : ShipId) → get j n.ships ≡ (if hit (envelope t) m j then none else get j m.ships))
      → Apart n
  crash-Apart m n i t but here left j k s u hs hu ne =
      let self = envelope-intersects t in
      but j k s u (λ q. ground (arith, q, left j, self, here))
        (λ q. ground (arith, q, left k, self, here)) (ground (arith, left j))
        (ground (arith, left k)) ne

  -- Destroying what collides at a ship leaves no overlap, if that ship alone could overlap.
  pub cleared :
      (m m' : ShipManager) (i : ShipId) (t : Ship) (taken : Option (List Ship))
      → InSync m
      → ApartBut i m
      → get i m.ships ≡ some t
      → destroy_colliding_ships_in_envelope (envelope t) m ≡ some (taken, m')
      → Sound m'
  cleared m m' i t taken v but here done =
      let (n, w, what) = destroy_colliding_lem m (envelope t) v in
      elim what [
        | inl (r, same, once) ↦
            let q : n ≡ m' = ground (arith, r, done) in
            rw (← q, same) (v, alone-Apart m i t but here once)
        | inr (ss, r, left, some_two) ↦
            let q : n ≡ m' = ground (arith, r, done) in
            rw (← q) (w, crash-Apart m n i t but here left)
      ]

  pub replaced-ApartBut :
      (m : ShipManager) (i : ShipId) (s t : Ship) → Apart m → ApartBut i (replaced m i s t)
  replaced-ApartBut m i s t apart j k x y nj nk hx hy ne =
      apart j k x y (ground (arith, get-insert i j t m.ships, nat_pair_beq_iff i j))
        (ground (arith, get-insert i k t m.ships, nat_pair_beq_iff i k)) ne
