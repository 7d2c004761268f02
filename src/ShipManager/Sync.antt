-- ===== src/ShipManager/Sync.antt =====
-- The tree of a ship manager follows its map of ships: the invariant, and what keeps it.
use battleship_plus.Base.{nat_eq, nat_pair_eq, ℕ, ◌<◌, ◌≡◌, ap, inl, inr}
use battleship_plus.Base.{true, none, some, List, [], ◌∷◌, if◌then◌else◌, arith}
use battleship_plus.Base.{Option-cases, nat_pair_beq_iff}
use battleship_plus.Base.Collections
use battleship_plus.Base.Collections.{HashMap, get, get-insert, get-remove}
use battleship_plus.Rstar.{Geometry, occurrences}
use battleship_plus.Types.{ShipId}
use battleship_plus.ShipTree.{ShipTreeNode, node_of, Index, same_node, same_node_iff}
use battleship_plus.Ship
use battleship_plus.Ship.{Ship}
use battleship_plus.ShipManager.{ShipManager, new, destroy_ships}
use battleship_plus.ShipManager.{forget_node, forget_ship, put_ship}

module _ ⦃g : Geometry⦄ ⦃index : Index⦄ where
  open index use {Tree, count, count-new, count-insert, count-remove}

  -- How often a node belongs into the tree: once if it is the node of the ship with its id.
  abbrev pub expected : ShipTreeNode → HashMap ShipId Ship → ℕ
  expected n ships = elim (get n.ship_id ships) [
    | none ↦ 0
    | some s ↦ if same_node n (node_of s) then 1 else 0
  ]

  -- Each ship stands under its own id, and the tree holds the node of each ship once and no other.
  pub record InSync (m : ShipManager) : Type 0 where
    pub keyed : (i : ShipId) (s : Ship) → get i m.ships ≡ some s → Ship.id s ≡ i
    pub followed : (n : ShipTreeNode) → count n m.ships_geo_lookup ≡ expected n m.ships

  pub new-InSync : InSync new
  unfolding new get
  new-InSync = record { keyed = λ i s h. absurd (ground arith); followed = λ n. count-new n }

  -- The tree after a ship is gone from both.
  pub forget_ship-InSync :
      (m : ShipManager) (i : ShipId) (s : Ship)
      → get i m.ships ≡ some s
      → InSync m
      → InSync (forget_node s (forget_ship i m))
  unfolding node_of
  forget_ship-InSync m i s h v = record {
    keyed = λ j t e. ground (arith, get-remove i j m.ships, v.keyed j t);
    followed = λ n. ground (
      arith,
      get-remove i n.ship_id m.ships,
      nat_pair_beq_iff i n.ship_id,
      count-remove n (node_of s) m.ships_geo_lookup,
      v.followed n,
      v.keyed i s h,
      same_node_iff n (node_of s),
    );
  }

  -- A ship replaced in the map and in the tree.
  pub replace-InSync :
      (m : ShipManager) (i : ShipId) (s t : Ship)
      → get i m.ships ≡ some s
      → Ship.id t ≡ i
      → InSync m
      → InSync (record (put_ship i t m) {
        ships_geo_lookup = index.insert (node_of t) (index.remove (node_of s) m.ships_geo_lookup).1;
      })
  unfolding node_of
  replace-InSync m i s t h e v = record {
    keyed = λ j u q. ground (arith, get-insert i j t m.ships, v.keyed j u, nat_pair_beq_iff i j);
    followed = λ n. ground (
      arith,
      get-insert i n.ship_id t m.ships,
      nat_pair_beq_iff i n.ship_id,
      count-insert n (node_of t) (index.remove (node_of s) m.ships_geo_lookup).1,
      count-remove n (node_of s) m.ships_geo_lookup,
      v.followed n,
      v.keyed i s h,
      same_node_iff n (node_of s),
      same_node_iff n (node_of t),
    );
  }

  -- A ship changed in the map alone keeps the agreement if its node does not change.
  pub put_ship-InSync :
      (m : ShipManager) (i : ShipId) (s t : Ship)
      → get i m.ships ≡ some s
      → node_of t ≡ node_of s
      → InSync m
      → InSync (put_ship i t m)
  unfolding node_of
  put_ship-InSync m i s t h e v = record {
    keyed = λ j u q. ground (
      arith,
      get-insert i j t m.ships,
      v.keyed j u,
      v.keyed i s h,
      ap (λ (n : ShipTreeNode). n.ship_id) e,
      nat_pair_beq_iff i j,
    );
    followed = λ n.
        ground
          (arith, get-insert i n.ship_id t m.ships, nat_pair_beq_iff i n.ship_id, v.followed n);
  }

  -- A new ship in the map and in the tree.
  pub add-InSync :
      (m : ShipManager) (i : ShipId) (s : Ship)
      → get i m.ships ≡ none
      → Ship.id s ≡ i
      → InSync m
      → InSync (record {
        ships = Collections.insert i s m.ships;
        ships_geo_lookup = index.insert (node_of s) m.ships_geo_lookup;
      })
  unfolding node_of
  add-InSync m i s h e v = record {
    keyed = λ j u q. ground (arith, get-insert i j s m.ships, v.keyed j u, nat_pair_beq_iff i j);
    followed = λ n. ground (
      arith,
      get-insert i n.ship_id s m.ships,
      nat_pair_beq_iff i n.ship_id,
      count-insert n (node_of s) m.ships_geo_lookup,
      v.followed n,
      same_node_iff n (node_of s),
    );
  }

  -- On a manager whose tree follows its map, destroying the ships of any list of ids, present or
  -- not, keeps the tree in agreement with the map.
  pub destroy_ships-InSync :
      (is : List ShipId) (m : ShipManager) → InSync m → InSync (destroy_ships is m)
  unfolding destroy_ships
  destroy_ships-InSync [] m v = v
  destroy_ships-InSync (i ∷ is) m v = elim (Option-cases (get i m.ships)) [
    | inl h ↦ rw (h, destroy_ships) (destroy_ships-InSync is m v)
    | inr (s, h) ↦
        rw (h, destroy_ships)
          (destroy_ships-InSync is (forget_node s (forget_ship i m)) (forget_ship-InSync m i s h v))
  ]

  -- The nodes that a search finds are those of the ships whose envelopes meet the given one.
  pub locate-ships :
      (m : ShipManager) (e : g.Aabb) (n : ShipTreeNode)
      → InSync m
      → 0 < occurrences same_node n (index.locate_in_envelope_intersecting e m.ships_geo_lookup)
      → (s : Ship) × (get n.ship_id m.ships ≡ some s) × (g.intersects e (Ship.envelope s) ≡ true)
  unfolding node_of
  locate-ships m e n v h = elim (Option-cases (get n.ship_id m.ships)) [
    | inl missing ↦
        absurd (ground (arith, index.occurrences-locate n e m.ships_geo_lookup, v.followed n))
    | inr (s, found) ↦ (
      s,
      found,
      ground (
        arith,
        index.occurrences-locate n e m.ships_geo_lookup,
        v.followed n,
        same_node_iff n (node_of s),
      ),
    )
  ]

  pub locate_complete :
      (m : ShipManager) (e : g.Aabb) (i : ShipId) (s : Ship)
      → InSync m
      → get i m.ships ≡ some s
      → g.intersects e (Ship.envelope s) ≡ true
      → 0
        < occurrences same_node
            (node_of s)
            (index.locate_in_envelope_intersecting e m.ships_geo_lookup)
  unfolding node_of
  locate_complete m e i s v h meets = ground (
    arith,
    index.occurrences-locate (node_of s) e m.ships_geo_lookup,
    v.followed (node_of s),
    v.keyed i s h,
    same_node_iff (node_of s) (node_of s),
  )
