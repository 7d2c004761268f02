-- ===== src/Abilities/Strikes.antt =====
-- What a strike on an area does to the ships in it.
use battleship_plus.Base.{nat_eq, nat_pair_eq, ℕ, ◌≤◌, ◌<◌, ◌≡◌, ◌≢◌, refl, ap, ◌∙◌, inl, inr}
use battleship_plus.Base.{
  ◌-◌, Bool, true, false, Option, none, some, List, [], ◌∷◌, if◌then◌else◌, arith,
}
use battleship_plus.Base.{Bool-cases, Option-cases, ◌==◌, nat_pair_beq_iff, leb, map}
use battleship_plus.Base.Collections.{get, get-insert, get-remove, contains, Distinct}
use battleship_plus.Rstar.{Geometry, occurrences}
use battleship_plus.Types.{ShipId}
use battleship_plus.ShipTree.{ShipTreeNode, Index, same_node, same_node_iff}
use battleship_plus.Ship
use battleship_plus.Ship.{Ship, apply_damage, health, envelope, ship_data}
use battleship_plus.Ship.Damage.{with_health, apply_damage_left}
use battleship_plus.ShipManager.{ShipManager, put_ship, forget_ship}
use battleship_plus.ShipManager.Sync.{InSync}
use battleship_plus.ShipManager.Collision.{ids_found, hit, contains-located}
use battleship_plus.Actions.Shots.{destroyed_iff, present}
use battleship_plus.Abilities.{strike, ids_in}

module _ ⦃g : Geometry⦄ ⦃index : Index⦄ where
  open g use {Aabb, intersects}

  -- A ship after one blow.
  abbrev pub after_blow : ℕ → Option Ship → Option Ship
  after_blow damage none = none
  after_blow damage (some s) =
      if leb (health s) damage then none else some (apply_damage damage s).1

  -- The manager that a strike hands on after its first blow.
  abbrev pub blown : ℕ → ShipId → Ship → ShipManager → ShipManager
  blown damage i s m =
      if (apply_damage damage s).0 then forget_ship i m else put_ship i (apply_damage damage s).1 m

  get-blown :
      (damage : ℕ) (i j : ShipId) (s : Ship) (m : ShipManager)
      → get i m.ships ≡ some s
      → get j (blown damage i s m).ships
        ≡ (if i == j then after_blow damage (some s) else get j m.ships)
  get-blown damage i j s m h = ground (
    arith,
    destroyed_iff damage s,
    get-insert i j (apply_damage damage s).1 m.ships,
    get-remove i j m.ships,
  )

  tree-blown :
      (damage : ℕ) (i : ShipId) (s : Ship) (m : ShipManager)
      → (blown damage i s m).ships_geo_lookup ≡ m.ships_geo_lookup
  tree-blown damage i s m = ground arith

  -- What a strike returns, and what it makes of the manager.
  pub record Strikes (damage : ℕ) (is : List ShipId) (m : ShipManager) : Type 0 where
    pub gone : List Ship
    pub left : ShipManager
    pub returns : strike damage is m ≡ (some gone, left)
    pub same_tree : left.ships_geo_lookup ≡ m.ships_geo_lookup
    pub blows :
        (j : ShipId)
        → get j left.ships
          ≡ (if contains j is then after_blow damage (get j m.ships) else get j m.ships)

  -- If the ids are distinct and stand for ships of the manager, a strike does not panic: it lowers
  -- the health of each of these ships once, takes out those that are down to 0, and leaves the
  -- others and the tree alone.
  pub strike-Strikes :
      (damage : ℕ) (is : List ShipId) (m : ShipManager)
      → Distinct is
      → ((i : ShipId) → contains i is ≡ true → get i m.ships ≢ none)
      → Strikes damage is m
  unfolding strike contains
  strike-Strikes damage [] m d h = record {
    gone = [];
    left = m;
    returns = refl;
    same_tree = refl;
    blows = λ j. refl;
  }
  strike-Strikes damage (i ∷ is) m d h = elim (Option-cases (get i m.ships)) [
    | inl missing ↦ absurd (h i (ground (arith, nat_pair_beq_iff i i)) missing)
    | inr (s, found) ↦
        let rest =
          strike-Strikes damage is (blown damage i s m) d.1
            (λ j c. ground (arith, h j, get-blown damage i j s m found, nat_pair_beq_iff i j)) in
        record {
          gone =
              if (apply_damage damage s).0
              then (apply_damage damage s).1 ∷ rest.gone
              else rest.gone;
          left = rest.left;
          returns = rw (found, strike) (rw rest.returns);
          same_tree = rest.same_tree ∙ tree-blown damage i s m;
          blows = λ j.
              ground (arith, rest.blows j, get-blown damage i j s m found, nat_pair_beq_iff i j);
        }
  ]

  -- Nodes of the tree with one id are one node, and it is there once.
  same_id_once :
      (m : ShipManager) (n k : ShipTreeNode)
      → InSync m
      → 0 < index.count n m.ships_geo_lookup
      → 0 < index.count k m.ships_geo_lookup
      → k.ship_id ≡ n.ship_id
      → (k ≡ n) × (index.count n m.ships_geo_lookup ≤ 1)
  same_id_once m n k v hn hk e =
      let (s, fs, es) = present m n v hn in
      let (t, ft, et) = present m k v hk in
      let found = rw e at ft in (cc (es, et, fs, found), ground (arith, v.followed n))

  Distinct-ids :
      (m : ShipManager) (ns : List ShipTreeNode)
      → InSync m
      → ((n : ShipTreeNode) → occurrences same_node n ns ≤ index.count n m.ships_geo_lookup)
      → Distinct (map (λ n. n.ship_id) ns)
  Distinct-ids m [] v h = tt
  Distinct-ids m (n ∷ ns) v h = (fresh, Distinct-ids m ns v (λ k. omega (arith, h k)))
    where
      twice : (k : ShipTreeNode) → k.ship_id ≡ n.ship_id → 0 < occurrences same_node k ns → ⊥
      twice k e often =
          let (q, once) =
            same_id_once m n k v (ground (arith, h n, same_node_iff n n)) (omega (arith, h k)) e in
          ground
            (arith, h n, same_node_iff n n, ap (λ (x : ShipTreeNode). occurrences same_node x ns) q)

      fresh : contains n.ship_id (map (λ x. x.ship_id) ns) ≡ false
      fresh = elim (Bool-cases (contains n.ship_id (map (λ x. x.ship_id) ns))) [
        | inl c ↦ let (k, e, often) = ids_found n.ship_id ns c in absurd (twice k e often)
        | inr free ↦ free
      ]

  pub ids_in-Distinct : (area : Aabb) (m : ShipManager) → InSync m → Distinct (ids_in area m)
  unfolding ids_in
  ids_in-Distinct area m v =
      Distinct-ids m _ v (λ n. ground (arith, index.occurrences-locate n area m.ships_geo_lookup))

  -- A strike at the ids that the tree finds in an area.
  pub strike_found :
      (damage : ℕ) (area : Aabb) (m : ShipManager) → InSync m → Strikes damage (ids_in area m) m
  unfolding ids_in
  strike_found damage area m v =
      strike-Strikes damage (ids_in area m) m (ids_in-Distinct area m v) (λ i c missing.
        let (n, e, often) = ids_found i _ c in
        let (s, found, same) =
          present m n v (ground (arith, index.occurrences-locate n area m.ships_geo_lookup)) in
        ground (arith, e, found, missing))

  -- Whether a blow sinks a ship.
  abbrev pub sinks : ℕ → Option Ship → Bool
  sinks damage none = false
  sinks damage (some s) = leb (health s) damage

  id-apply_damage : (damage : ℕ) (s : Ship) → Ship.id (apply_damage damage s).1 ≡ Ship.id s
  unfolding Ship.id ship_data
  id-apply_damage damage s = rw (apply_damage_left damage s) (same s)
    where
      same : (t : Ship) → Ship.id (with_health (health s - damage) t) ≡ Ship.id t
      same t = ground arith

  -- The ships that a strike takes out are reported.
  gone-sinks :
      (damage : ℕ) (is : List ShipId) (m left : ShipManager) (gone : List Ship)
      → Distinct is
      → ((i : ShipId) (s : Ship) → get i m.ships ≡ some s → Ship.id s ≡ i)
      → strike damage is m ≡ (some gone, left)
      → (j : ShipId)
      → contains j (map Ship.id gone)
        ≡ (if contains j is then sinks damage (get j m.ships) else false)
  unfolding strike contains
  gone-sinks damage [] m left gone d keyed h j = ground arith
  gone-sinks damage (i ∷ is) m left gone d keyed h j = elim (Option-cases (get i m.ships)) [
    | inl missing ↦ absurd (ground (arith, missing))
    | inr (s, found) ↦ elim (Option-cases (strike damage is (blown damage i s m)).0) [
      | inl lost ↦ absurd (ground (arith, found, lost))
      | inr (g, e) ↦
          let rest =
            gone-sinks damage is (blown damage i s m) (strike damage is (blown damage i s m)).1 g
              d.1
              (λ k t there. ground (
                arith,
                keyed k t,
                keyed i s found,
                id-apply_damage damage s,
                get-blown damage i k s m found,
                there,
                nat_pair_beq_iff i k,
              ))
              (cc e) j in
          let all : gone
              ≡ (if (apply_damage damage s).0 then (apply_damage damage s).1 ∷ g else g) =
            ground (arith, found, e) in
          ground (
            arith,
            all,
            rest,
            found,
            keyed i s found,
            id-apply_damage damage s,
            d.0,
            destroyed_iff damage s,
            get-blown damage i j s m found,
            nat_pair_beq_iff i j,
          )
    ]
  ]

  -- What a strike on an area leaves of a ship.
  abbrev pub afterwards : ℕ → Aabb → Option Ship → Option Ship
  afterwards damage area none = none
  afterwards damage area (some s) =
      if intersects area (envelope s)
      then (if leb (health s) damage then none else some (with_health (health s - damage) s))
      else some s

  -- What a strike on an area returns, and what it makes of the manager.
  pub record StrikesArea (damage : ℕ) (area : Aabb) (m : ShipManager) : Type 0 where
    pub gone : List Ship
    pub left : ShipManager
    pub returns : strike damage (ids_in area m) m ≡ (some gone, left)
    pub same_tree : left.ships_geo_lookup ≡ m.ships_geo_lookup
    pub reported :
        (j : ShipId)
        → contains j (map Ship.id gone)
          ≡ (if hit area m j then sinks damage (get j m.ships) else false)
    pub outcome : (j : ShipId) → get j left.ships ≡ afterwards damage area (get j m.ships)

  found_in :
      (area : Aabb) (m : ShipManager) (j : ShipId)
      → InSync m
      → contains j (ids_in area m) ≡ hit area m j
  unfolding ids_in
  found_in area m j v = contains-located m area j v

  -- On a manager whose tree follows its map, a strike at the ships that the tree finds in an area
  -- does not panic; a ship whose envelope meets the area loses the damage from its health, and
  -- nothing else, or is taken out of the map and reported if its health is at most the damage; the
  -- other ships and the tree stay as they are.
  pub strike-ids_in :
      (damage : ℕ) (area : Aabb) (m : ShipManager) → InSync m → StrikesArea damage area m
  strike-ids_in damage area m v =
      let struck = strike_found damage area m v in
      record {
        gone = struck.gone;
        left = struck.left;
        returns = struck.returns;
        same_tree = struck.same_tree;
        reported = λ j. ground (
          arith,
          found_in area m j v,
          gone-sinks damage (ids_in area m) m struck.left struck.gone (ids_in-Distinct area m v)
              v.keyed struck.returns j,
        );
        outcome = λ j.
            struck.blows j
            ∙ blow (get j m.ships) (contains j (ids_in area m)) (found_in area m j v);
      }
    where
      blow :
          (o : Option Ship) (b : Bool)
          → b ≡ (elim o [ none ↦ false | some s ↦ intersects area (envelope s) ])
          → (if b then after_blow damage o else o) ≡ afterwards damage area o
      blow none b e = ground arith
      blow (some s) b e = rw e (ground (arith, apply_damage_left damage s))
