-- ===== src/Actions/Shots.antt =====
-- Shots: what `attack_with_ship` hits, and that it never panics on a manager in order.
use battleship_plus.Base.{nat_eq, nat_pair_eq, ℕ, ◌-◌, ◌≤◌, ◌<◌, ◌≡◌, refl, ap, ◌∙◌, inl, inr}
use battleship_plus.Base.{true, false, none, some, arith}
use battleship_plus.Base.{Bool-cases, Option-cases, leb}
use battleship_plus.Base.Collections.{get, collect_set}
use battleship_plus.Rstar.{Geometry, Point}
use battleship_plus.Types.{
  ShipId, Costs, CommonBalancing, ok, err, panic, is_ok, Result-cases, ActionValidationError,
  Coordinate,
}
use battleship_plus.ShipTree.{ShipTreeNode, node_of, Index, same_node_iff, envelope_to_points}
use battleship_plus.Ship.{
  Ship, ShipData, ship_data, set_data, apply_damage, envelope, get_envelope,
  get_envelope_with_orientation, orientation, position, id, health, cannon,
}
use battleship_plus.Ship.Fields.{ship_data-set_data, len-set_data}
use battleship_plus.Ship.Steering.{get_envelope_with_orientation-len}
use battleship_plus.ShipManager.{ShipManager, put_ship, forget_node, forget_ship, as_point}
use battleship_plus.ShipManager.Sync.{InSync, put_ship-InSync, forget_ship-InSync}
use battleship_plus.Actions.{
  Checked, State, charge, ShotResult, miss, hit, destroyed, aim, sink, fire, attack_with_ship,
}
use battleship_plus.Actions.Agreement.{node_of-charge}

pub destroyed_iff : (n : ℕ) (s : Ship) → (apply_damage n s).0 ≡ leb (health s) n
unfolding apply_damage health
destroyed_iff n s = ground arith

module _ ⦃g : Geometry⦄ where
  open g use {Aabb}

  node_of-set_health :
      (s : Ship) (h : ℕ) → node_of (set_data s (record (ship_data s) { health = h })) ≡ node_of s
  unfolding node_of envelope get_envelope orientation position id
  node_of-set_health s h =
      let node : Aabb → ShipId → ShipTreeNode = λ e i. record { envelope = e; ship_id = i } in
      let t = set_data s (record (ship_data s) { health = h }) in
      ap
        (λ (x : ShipData).
          node (get_envelope_with_orientation t x.pos_x x.pos_y x.orientation) x.id)
        (ship_data-set_data s (record (ship_data s) { health = h }))
      ∙ ap (λ (e : Aabb). node e (ship_data s).id)
          (get_envelope_with_orientation-len t s (ship_data s).pos_x (ship_data s).pos_y
            (ship_data s).orientation (len-set_data s (record (ship_data s) { health = h })))

  -- Damage does not move a ship.
  pub node_of-apply_damage : (n : ℕ) (s : Ship) → node_of (apply_damage n s).1 ≡ node_of s
  unfolding apply_damage
  node_of-apply_damage n s = elim (Bool-cases (leb (ship_data s).health n)) [
    | inl sunk ↦ rw sunk (node_of-set_health s 0)
    | inr afloat ↦ rw afloat (node_of-set_health s ((ship_data s).health - n))
  ]

module _ ⦃g : Geometry⦄ ⦃index : Index⦄ where
  open g use {Aabb, contains_point}

  pub present :
      (m : ShipManager) (n : ShipTreeNode)
      → InSync m
      → 0 < index.count n m.ships_geo_lookup
      → (s : Ship) × (get n.ship_id m.ships ≡ some s) × (n ≡ node_of s)
  present m n v h = elim (Option-cases (get n.ship_id m.ships)) [
    | inl missing ↦ absurd (ground (arith, v.followed n))
    | inr (s, found) ↦ (s, found, ground (arith, v.followed n, same_node_iff n (node_of s)))
  ]

  sink_lem :
      (m : ShipManager) (i : ShipId) (s t : Ship) (damage : ℕ)
      → InSync m
      → get i m.ships ≡ some s
      → node_of t ≡ node_of s
      → sink i t damage m ≡ (
        ok (destroyed t damage (collect_set (envelope_to_points (envelope s)))),
        forget_node s (forget_ship i m),
      )
  unfolding sink node_of
  sink_lem m i s t damage v found same =
      let taken : (index.remove (node_of s) m.ships_geo_lookup).0 ≡ some (node_of s) = ground (
        arith,
        index.removed (node_of s) m.ships_geo_lookup,
        v.followed (node_of s),
        v.keyed i s found,
        same_node_iff (node_of s) (node_of s),
      ) in
      rw (same, sink) (rw taken (cc same))

  -- What a shot at a point does to the fleet.
  pub data Shoots (p : Point) (damage : ℕ) (m : ShipManager)
      : Checked ShotResult × ShipManager → Type 0 where
    misses :
        ((j : ShipId) (t : Ship) → get j m.ships ≡ some t → contains_point (envelope t) p ≡ false)
        → Shoots p damage m (ok miss, m)
    hits :
        (i : ShipId) (s : Ship)
        → get i m.ships ≡ some s
        → contains_point (envelope s) p ≡ true
        → damage < health s
        → Shoots p damage m (ok (hit i damage), put_ship i (apply_damage damage s).1 m)
    sinks :
        (i : ShipId) (s : Ship)
        → get i m.ships ≡ some s
        → contains_point (envelope s) p ≡ true
        → health s ≤ damage
        → Shoots p damage m (
          ok (
              destroyed
                (apply_damage damage s).1
                damage
                (collect_set (envelope_to_points (envelope s)))),
          forget_node s (forget_ship i m),
        )

  nobody_there :
      (m : ShipManager) (p : Point) (j : ShipId) (t : Ship)
      → InSync m
      → index.locate_at_point p m.ships_geo_lookup ≡ none
      → get j m.ships ≡ some t
      → contains_point (envelope t) p ≡ false
  unfolding node_of
  nobody_there m p j t v nobody found = elim (Bool-cases (contains_point (envelope t) p)) [
    | inl inside ↦ absurd (
        ground (
          arith,
          index.locate_at_point_none p m.ships_geo_lookup nobody (node_of t) inside,
          v.followed (node_of t),
          v.keyed j t found,
          same_node_iff (node_of t) (node_of t),
        ))
    | inr outside ↦ outside
  ]

  pub node_inside :
      (n : ShipTreeNode) (s : Ship) (p : Point)
      → n ≡ node_of s
      → contains_point n.envelope p ≡ true
      → contains_point (envelope s) p ≡ true
  unfolding node_of
  node_inside n s p same inside = cc (ap (λ (k : ShipTreeNode). contains_point k.envelope p) same)

  pub fire-Shoots :
      (p : Point) (damage : ℕ) (m : ShipManager) → InSync m → Shoots p damage m (fire p damage m)
  unfolding fire
  fire-Shoots p damage m v = elim (Option-cases (index.locate_at_point p m.ships_geo_lookup)) [
    | inl nobody ↦ rw (nobody, fire) (misses (λ j t found. nobody_there m p j t v nobody found))
    | inr (n, there) ↦
        let (often, inside) = index.locate_at_point_some p m.ships_geo_lookup n there in
        let (s, found, same) = present m n v often in
        elim (Bool-cases (apply_damage damage s).0) [
          | inl sunk ↦
              rw (there, fire)
                (rw found (
                  rw
                    (
                      sunk,
                      sink_lem m n.ship_id s (apply_damage damage s).1 damage v found
                          (node_of-apply_damage damage s),
                    )
                    (sinks n.ship_id s found (node_inside n s p same inside)
                      (ground (arith, destroyed_iff damage s)))))
          | inr afloat ↦
              rw (there, fire)
                (rw found (
                  rw afloat (
                    hits n.ship_id s found (node_inside n s p same inside)
                      (ground (arith, destroyed_iff damage s)))))
        ]
  ]

  Shoots-InSync :
      {p : Point} {damage : ℕ} {m : ShipManager} {r : Checked ShotResult × ShipManager}
      → Shoots p damage m r
      → InSync m
      → InSync r.1
  Shoots-InSync (misses apart) v = v
  Shoots-InSync {damage = d} {m = m} (hits i s found inside afloat) v =
      put_ship-InSync m i s (apply_damage d s).1 found (node_of-apply_damage d s) v
  Shoots-InSync {m = m} (sinks i s found inside sunk) v = forget_ship-InSync m i s found v

  Shoots-ok :
      {p : Point} {damage : ℕ} {m : ShipManager} {r : Checked ShotResult × ShipManager}
      → Shoots p damage m r
      → is_ok r.0 ≡ true
  Shoots-ok (misses apart) = refl
  Shoots-ok (hits i s found inside afloat) = refl
  Shoots-ok (sinks i s found inside sunk) = refl

  -- What `attack_with_ship` promises. Either the checks fail, and nothing changes; or the costs are
  -- paid by the player and by the cooldowns of the ship, and the shot falls on the fleet so changed.
  pub data Attacks (points : ℕ) (i : ShipId) (target : Coordinate) (bounds : Aabb) (m : ShipManager)
      : Checked ShotResult × State → Type 0 where
    refused :
        (e : ActionValidationError)
        → aim points i (as_point target) bounds m ≡ err e
        → Attacks points i target bounds m (err e, (m, points))
    broken :
        aim points i (as_point target) bounds m ≡ panic
        → Attacks points i target bounds m (panic, (m, points))
    shot :
        (ship : Ship) (b : CommonBalancing) (c : Costs) (r : Checked ShotResult × ShipManager)
        → aim points i (as_point target) bounds m ≡ ok (ship, b, c)
        → Shoots (as_point target) b.shoot_damage (put_ship i (charge cannon c ship) m) r
        → InSync r.1
        → is_ok r.0 ≡ true
        → Attacks points i target bounds m (r.0, (r.1, points - c.action_points))

  pub aim_found :
      (points : ℕ) (i : ShipId) (p : Point) (bounds : Aabb) (m : ShipManager) (ship : Ship)
      (b : CommonBalancing) (c : Costs)
      → aim points i p bounds m ≡ ok (ship, b, c)
      → (get i m.ships ≡ some ship) × (c.action_points ≤ points)
  unfolding aim
  aim_found points i p bounds m ship b c h = (ground arith, ground arith)

  -- On a manager whose tree follows its map, a shot is refused or breaks without any change, or its
  -- costs are paid and it misses, hits or sinks exactly a ship that covers the target; a shot that
  -- passes the checks does not panic.
  pub attack_with_ship-Attacks :
      (points : ℕ) (i : ShipId) (target : Coordinate) (bounds : Aabb) (m : ShipManager)
      → InSync m
      → Attacks points i target bounds m (attack_with_ship points i target bounds m)
  unfolding attack_with_ship
  attack_with_ship-Attacks points i target bounds m v =
      elim (Result-cases (aim points i (as_point target) bounds m)) [
        | inl ((ship, b, c), e) ↦
            let found = (aim_found points i (as_point target) bounds m ship b c e).0 in
            let paid =
              put_ship-InSync m i ship (charge cannon c ship) found (node_of-charge cannon c ship)
                v in
            let s =
              fire-Shoots (as_point target) b.shoot_damage (put_ship i (charge cannon c ship) m)
                paid in
            rw (e, attack_with_ship) (shot ship b c _ e s (Shoots-InSync s paid) (Shoots-ok s))
        | inr (inl (x, e)) ↦ rw (e, attack_with_ship) (refused x e)
        | inr (inr e) ↦ rw (e, attack_with_ship) (broken e)
      ]
