-- ===== src/Abilities/Wrecks.antt =====
-- Ships that an ability destroys leave the map, and their nodes stay in the tree.
use battleship_plus.Base.{nat_eq, nat_pair_eq, ℕ, ◌≤◌, ◌<◌, ◌≡◌, ap, inl, inr}
use battleship_plus.Base.{true, none, some, arith}
use battleship_plus.Base.{Bool-cases, Option-cases, ◌==◌, nat_pair_beq_iff, filter_map}
use battleship_plus.Base.Int.{le-leb_ℤ}
use battleship_plus.Base.Collections.{get, get-insert, contains}
use battleship_plus.Rstar.{Geometry, Point, in_box, boxes_meet}
use battleship_plus.Types.{ShipId, Costs, CommonBalancing, Coordinate, ok, panic}
use battleship_plus.ShipTree.{ShipTreeNode, node_of, Index, same_node_iff}
use battleship_plus.Ship.{Ship, envelope, health, cannon}
use battleship_plus.Ship.Range.{in_box_iff}
use battleship_plus.ShipManager.{ShipManager, put_ship, as_point}
use battleship_plus.ShipManager.Sync.{InSync, locate_complete}
use battleship_plus.ShipManager.Placement.{Apart}
use battleship_plus.ShipManager.Collision.{ids_complete}
use battleship_plus.Actions.{aim, fire, attack_with_ship, charge}
use battleship_plus.Actions.Shots.{present, aim_found, node_inside}
use battleship_plus.Abilities.{strike_area, ids_in}
use battleship_plus.Abilities.Strikes.{strike_found}

meet_at :
    (l u l' u' p : Point)
    → in_box l u p ≡ true
    → in_box l' u' p ≡ true
    → boxes_meet l u l' u' ≡ true
meet_at l u l' u' p h k =
    let (a, b, c, d) = (in_box_iff l u p).0 h in
    let (e, f, x, y) = (in_box_iff l' u' p).0 k in
    rw (
      le-leb_ℤ l.0 u'.0 (omega arith),
      le-leb_ℤ l'.0 u.0 (omega arith),
      le-leb_ℤ l.1 u'.1 (omega arith),
      le-leb_ℤ l'.1 u.1 (omega arith),
    )

module _ ⦃g : Geometry⦄ ⦃index : Index⦄ where
  open g use {Aabb, intersects, contains_point, contains_point_lem, intersects_lem}

  -- At a point the tree has a node, and every node there belongs to a ship that is gone.
  pub record Wreck (p : Point) (m : ShipManager) : Type 0 where
    pub node : ShipTreeNode
    pub listed : 0 < index.count node m.ships_geo_lookup
    pub there : contains_point node.envelope p ≡ true
    pub lost :
        (n : ShipTreeNode)
        → 0 < index.count n m.ships_geo_lookup
        → contains_point n.envelope p ≡ true
        → get n.ship_id m.ships ≡ none

  fire-Wreck : (p : Point) (damage : ℕ) (m : ShipManager) → Wreck p m → fire p damage m ≡ (panic, m)
  unfolding fire
  fire-Wreck p damage m w = elim (Option-cases (index.locate_at_point p m.ships_geo_lookup)) [
    | inl nobody ↦ absurd (
        ground
          (arith, index.locate_at_point_none p m.ships_geo_lookup nobody w.node w.there, w.listed))
    | inr (n, found) ↦
        let (often, inside) = index.locate_at_point_some p m.ships_geo_lookup n found in
        rw (found, fire) (rw (w.lost n often inside))
  ]

  -- A shot at a wreck that passes the checks panics.
  pub attack-Wreck :
      (points : ℕ) (i : ShipId) (target : Coordinate) (bounds : Aabb) (m : ShipManager)
      (ship : Ship) (b : CommonBalancing) (c : Costs)
      → Wreck (as_point target) m
      → aim points i (as_point target) bounds m ≡ ok (ship, b, c)
      → (attack_with_ship points i target bounds m).0 ≡ panic
  unfolding attack_with_ship
  attack-Wreck points i target bounds m ship b c w e =
      let found = (aim_found points i (as_point target) bounds m ship b c e).0 in
      let paid = put_ship i (charge cannon c ship) m in
      let still : Wreck (as_point target) paid = record {
        node = w.node;
        listed = w.listed;
        there = w.there;
        lost = λ n often inside. ground (
          arith,
          w.lost n often inside,
          found,
          get-insert i n.ship_id (charge cannon c ship) m.ships,
          nat_pair_beq_iff i n.ship_id,
        );
      } in
      rw (e, attack_with_ship) (cc (fire-Wreck (as_point target) b.shoot_damage paid still))

  touching :
      (a b : Aabb) (p : Point)
      → contains_point a p ≡ true
      → contains_point b p ≡ true
      → intersects a b ≡ true
  touching a b p h k = rw intersects_lem (
      meet_at (g.lower a) (g.upper a) (g.lower b) (g.upper b) p (rw contains_point_lem at h)
        (rw contains_point_lem at k))

  node_listed :
      (m : ShipManager) (j : ShipId) (s : Ship)
      → InSync m
      → get j m.ships ≡ some s
      → 0 < index.count (node_of s) m.ships_geo_lookup
  unfolding node_of
  node_listed m j s v found =
      ground
        (arith, v.followed (node_of s), v.keyed j s found, same_node_iff (node_of s) (node_of s))

  at_node :
      (s : Ship) (p : Point)
      → contains_point (envelope s) p ≡ true
      → contains_point (node_of s).envelope p ≡ true
  unfolding node_of
  at_node s p h = h

  struck_id :
      (area : Aabb) (m : ShipManager) (j : ShipId) (s : Ship)
      → InSync m
      → get j m.ships ≡ some s
      → intersects area (envelope s) ≡ true
      → contains j (ids_in area m) ≡ true
  unfolding ids_in node_of
  struck_id area m j s v found meets =
      let listed = ids_complete (node_of s) _ (locate_complete m area j s v found meets) in
      ground (arith, listed, v.keyed j s found)

  -- Where a strike destroys a ship, it leaves a wreck.
  pub strike-Wreck :
      (damage : ℕ) (area : Aabb) (m : ShipManager) (j : ShipId) (s : Ship) (p : Point)
      (v : InSync m)
      → Apart m
      → get j m.ships ≡ some s
      → intersects area (envelope s) ≡ true
      → health s ≤ damage
      → contains_point (envelope s) p ≡ true
      → Wreck p (strike_found damage area m v).left
  strike-Wreck damage area m j s p v apart found meets weak inside =
      let struck = strike_found damage area m v in
      let hit = struck_id area m j s v found meets in
      record {
        node = node_of s;
        listed =
            ground
              (arith, node_listed m j s v found, ap (index.count (node_of s)) struck.same_tree);
        there = at_node s p inside;
        lost = λ n often here.
            let (t, ft, same) =
              present m n v (ground (arith, ap (index.count n) struck.same_tree)) in
            elim (Bool-cases (j == n.ship_id)) [
              | inl e ↦
                  let q = (nat_pair_beq_iff j n.ship_id).0 e in
                  ground (arith, struck.blows n.ship_id, q, hit, ft, found)
              | inr e ↦
                  let clear =
                    apart j n.ship_id s t found ft
                      (λ q. ground (arith, nat_pair_beq_iff j n.ship_id)) in
                  absurd (
                    ground (
                      arith,
                      touching (envelope s) (envelope t) p inside (node_inside n t p same here),
                    ))
            ];
      }

  pub strike_area_lem :
      (damage : ℕ) (area : Aabb) (m : ShipManager) (v : InSync m)
      → let struck = strike_found damage area m v in
        strike_area damage area (ids_in area m) m ≡ (
          ok (record {
            hit_ships = filter_map (λ i. get i struck.left.ships) (ids_in area m);
            destroyed_ships = struck.gone;
            damage_per_hit = damage;
            area = area;
          }),
          struck.left,
        )
  unfolding strike_area
  strike_area_lem damage area m v =
      let e = (strike_found damage area m v).returns in ground (arith, e)
