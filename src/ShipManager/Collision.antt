-- ===== src/ShipManager/Collision.antt =====
-- Collisions: which ships `destroy_colliding_ships_in_envelope` takes out.
use battleship_plus.Base.{nat_eq, nat_pair_eq, ◌≤◌, ◌<◌, ◌≡◌, ◌≢◌, refl, ◌⊎◌, inl, inr}
use battleship_plus.Base.{Bool, true, false, none, some, List, [], ◌∷◌, if◌then◌else◌, arith}
use battleship_plus.Base.{Bool-cases, Option-cases, ◌==◌, nat_pair_beq_iff, ltb, map, length}
use battleship_plus.Base.Collections.{
  HashSet, get, get-remove, contains, collect_set, Distinct, contains-collect_set,
  collect_set-Distinct,
}
use battleship_plus.Rstar.{Geometry, occurrences}
use battleship_plus.Types.{ShipId}
use battleship_plus.ShipTree.{ShipTreeNode, node_of, Index, same_node, same_node_iff}
use battleship_plus.Ship
use battleship_plus.Ship.{Ship}
use battleship_plus.ShipManager.{
  ShipManager, destroy_ships, remove_all, forget_nodes, forget_node, forget_ship,
  destroy_colliding_ships_in_envelope,
}
use battleship_plus.ShipManager.Sync.{InSync, locate-ships, locate_complete, destroy_ships-InSync}

-- Two members of a set with at most one entry.
at_most_one :
    (s : HashSet ShipId) (i j : ShipId)
    → length s ≤ 1
    → contains i s ≡ true
    → contains j s ≡ true
    → i ≡ j
unfolding contains
at_most_one [] i j h p q = cc
at_most_one (k ∷ []) i j h p q = ground (arith, nat_pair_beq_iff k i, nat_pair_beq_iff k j)
at_most_one (k ∷ l ∷ s) i j h p q = absurd (omega arith)

two_members :
    (s : HashSet ShipId)
    → 1 < length s
    → Distinct s
    → (i : ShipId) × (j : ShipId) × (i ≢ j) × (contains i s ≡ true) × (contains j s ≡ true)
unfolding contains
two_members [] h d = absurd (omega arith)
two_members (k ∷ []) h d = absurd (omega arith)
two_members (k ∷ l ∷ s) h d = (
  k,
  l,
  ground (arith, nat_pair_beq_iff l k),
  ground (arith, nat_pair_beq_iff k k),
  ground (arith, nat_pair_beq_iff l l),
)

Bool-ext : (a b : Bool) → (a ≡ true → b ≡ true) → (b ≡ true → a ≡ true) → a ≡ b
Bool-ext a b f h = ground arith

module _ ⦃g : Geometry⦄ ⦃index : Index⦄ where
  open g use {Aabb, intersects}

  -- Whether the ship with an id meets an envelope.
  abbrev pub hit : Aabb → ShipManager → ShipId → Bool
  hit e m i = elim (get i m.ships) [ none ↦ false | some s ↦ intersects e (Ship.envelope s) ]

  pub get-destroy_ships :
      (is : List ShipId) (m : ShipManager) (j : ShipId)
      → get j (destroy_ships is m).ships ≡ (if contains j is then none else get j m.ships)
  unfolding destroy_ships contains
  get-destroy_ships [] m j = refl
  get-destroy_ships (i ∷ is) m j = elim (Option-cases (get i m.ships)) [
    | inl h ↦ rw (h, destroy_ships) (ground (arith, get-destroy_ships is m j, nat_pair_beq_iff i j))
    | inr (s, h) ↦
        rw (h, destroy_ships)
          (ground (
            arith,
            get-destroy_ships is (forget_node s (forget_ship i m)) j,
            get-remove i j m.ships,
            nat_pair_beq_iff i j,
          ))
  ]

  remove_all-cons :
      (i : ShipId) (is : List ShipId) (m m' : ShipManager) (ss : List Ship)
      → remove_all (i ∷ is) m ≡ some (ss, m')
      → (s : Ship) × (rest : List Ship) × (get i m.ships ≡ some s)
        × (remove_all is (forget_ship i m) ≡ some (rest, m'))
        × (ss ≡ s ∷ rest)
  unfolding remove_all
  remove_all-cons i is m m' ss h = elim (Option-cases (get i m.ships)) [
    | inl missing ↦ absurd (ground arith)
    | inr (s, found) ↦ elim (Option-cases (remove_all is (forget_ship i m))) [
      | inl e ↦ absurd (ground arith)
      | inr ((rest, m''), e) ↦ (s, rest, found, ground arith, ground arith)
    ]
  ]

  remove_all-forget_node :
      (is : List ShipId) (s : Ship) (m m' : ShipManager) (ss : List Ship)
      → remove_all is m ≡ some (ss, m')
      → remove_all is (forget_node s m) ≡ some (ss, forget_node s m')
  unfolding remove_all
  remove_all-forget_node [] s m m' ss h = ground arith
  remove_all-forget_node (i ∷ is) s m m' ss h =
      let (t, rest, found, e, q) = remove_all-cons i is m m' ss h in
      rw (found, remove_all) (rw (remove_all-forget_node is s (forget_ship i m) m' rest e) (cc q))

  -- Taking the ships out first and their nodes after comes to the same as one ship at a time.
  forget_nodes-remove_all :
      (is : List ShipId) (m m' : ShipManager) (ss : List Ship)
      → remove_all is m ≡ some (ss, m')
      → forget_nodes ss m' ≡ destroy_ships is m
  unfolding remove_all forget_nodes destroy_ships
  forget_nodes-remove_all [] m m' ss h = ground arith
  forget_nodes-remove_all (i ∷ is) m m' ss h =
      let (s, rest, found, e, q) = remove_all-cons i is m m' ss h in
      rw (q, found, destroy_ships)
        (forget_nodes-remove_all is (forget_node s (forget_ship i m)) (forget_node s m') rest
          (remove_all-forget_node is s (forget_ship i m) m' rest e))

  remove_all_total :
      (is : List ShipId) (m : ShipManager)
      → Distinct is
      → ((i : ShipId) → contains i is ≡ true → get i m.ships ≢ none)
      → (r : List Ship × ShipManager) × (remove_all is m ≡ some r)
  unfolding remove_all contains
  remove_all_total [] m d h = (([], m), refl)
  remove_all_total (i ∷ is) m d h = elim (Option-cases (get i m.ships)) [
    | inl missing ↦ absurd (h i (ground (arith, nat_pair_beq_iff i i)) missing)
    | inr (s, found) ↦
        let ((ss, m'), e) =
          remove_all_total is (forget_ship i m) d.1
            (λ j c. ground (arith, h j, get-remove i j m.ships, nat_pair_beq_iff i j)) in
        ((s ∷ ss, m'), rw (found, remove_all) (rw e))
  ]

  pub ids_found :
      (i : ShipId) (ns : List ShipTreeNode)
      → contains i (map (λ n. n.ship_id) ns) ≡ true
      → (n : ShipTreeNode) × (n.ship_id ≡ i) × (0 < occurrences same_node n ns)
  unfolding contains
  ids_found i [] h = absurd (ground arith)
  ids_found i (n ∷ ns) h = elim (Bool-cases (n.ship_id == i)) [
    | inl e ↦ (n, (nat_pair_beq_iff n.ship_id i).0 e, ground (arith, same_node_iff n n))
    | inr e ↦ let (k, q, more) = ids_found i ns (ground arith) in (k, q, omega arith)
  ]

  pub ids_complete :
      (n : ShipTreeNode) (ns : List ShipTreeNode)
      → 0 < occurrences same_node n ns
      → contains n.ship_id (map (λ n. n.ship_id) ns) ≡ true
  unfolding contains
  ids_complete n [] h = absurd (omega arith)
  ids_complete n (k ∷ ns) h =
      ground (arith, same_node_iff n k, nat_pair_beq_iff k.ship_id n.ship_id, ids_complete n ns)

  abbrev colliding : Aabb → ShipManager → HashSet ShipId
  colliding e m =
      collect_set
        (map (λ n. n.ship_id) (index.locate_in_envelope_intersecting e m.ships_geo_lookup))

  -- The nodes that the tree finds in an envelope are those of the ships that meet it.
  pub contains-located :
      (m : ShipManager) (e : Aabb) (i : ShipId)
      → InSync m
      → contains i
          (map (λ n. n.ship_id) (index.locate_in_envelope_intersecting e m.ships_geo_lookup))
        ≡ hit e m i
  unfolding node_of
  contains-located m e i v =
      Bool-ext _ _
        (λ h.
          let (n, q, often) = ids_found i _ h in
          let (s, found, meets) = locate-ships m e n v often in ground (arith, q, found, meets))
        (λ h. elim (Option-cases (get i m.ships)) [
          | inl missing ↦ absurd (ground arith)
          | inr (s, found) ↦
              rw (v.keyed i s found) at
                (ids_complete (node_of s) _ (locate_complete m e i s v found (ground arith)))
        ])

  contains-colliding :
      (m : ShipManager) (e : Aabb) (i : ShipId) → InSync m → contains i (colliding e m) ≡ hit e m i
  contains-colliding m e i v = rw contains-collect_set (contains-located m e i v)

  -- On a manager whose tree follows its map, the call does not panic; if at most one ship meets the
  -- envelope, nothing changes, and if two or more do, exactly these are taken out of the map, and
  -- the tree follows.
  pub destroy_colliding_lem :
      (m : ShipManager) (e : Aabb)
      → InSync m
      → (m' : ShipManager) × InSync m'
        × ((destroy_colliding_ships_in_envelope e m ≡ some (none, m'))
              × (m' ≡ m)
              × ((i j : ShipId) → hit e m i ≡ true → hit e m j ≡ true → i ≡ j)
            ⊎ ((ss : List Ship) × (destroy_colliding_ships_in_envelope e m ≡ some (some ss, m'))
                × ((j : ShipId) → get j m'.ships ≡ (if hit e m j then none else get j m.ships))
                × ((i : ShipId) × (j : ShipId) × (i ≢ j)
                    × (hit e m i ≡ true)
                    × (hit e m j ≡ true))))
  unfolding destroy_colliding_ships_in_envelope
  destroy_colliding_lem m e v = elim (Bool-cases (ltb 1 (length (colliding e m)))) [
    | inl many ↦
        let ((ss, m'), r) =
          remove_all_total (colliding e m) m (collect_set-Distinct _)
            (λ i c missing. ground (arith, contains-colliding m e i v)) in
        let (i, j, ne, hi, hj) =
          two_members (colliding e m) (ground arith) (collect_set-Distinct _) in
        (
          destroy_ships (colliding e m) m,
          destroy_ships-InSync (colliding e m) m v,
          inr (
            ss,
            rw (many, r) (cc (forget_nodes-remove_all (colliding e m) m m' ss r)),
            λ k. ground (arith, get-destroy_ships (colliding e m) m k, contains-colliding m e k v),
            (
              i,
              j,
              ne,
              ground (arith, contains-colliding m e i v),
              ground (arith, contains-colliding m e j v),
            ),
          ),
        )
    | inr few ↦ (
      m,
      v,
      inl (
        rw few,
        refl,
        λ i j hi hj.
            at_most_one (colliding e m) i j (ground arith)
              (ground (arith, contains-colliding m e i v))
              (ground (arith, contains-colliding m e j v)),
      ),
    )
  ]
