-- ===== src/ShipManager/Placement.antt =====
-- Placing ships: no two ships of a manager overlap.
use battleship_plus.Base.{nat_eq, nat_pair_eq, ◌≡◌, ◌≢◌, ◌⊎◌, inl, inr}
use battleship_plus.Base.{true, false, none, some, [], arith}
use battleship_plus.Base.{Bool-cases, Option-cases, List-cases, nat_pair_beq_iff}
use battleship_plus.Base.Collections
use battleship_plus.Base.Collections.{HashMap, get, get-insert, get-remove}
use battleship_plus.Rstar.{Geometry, boxes_meet, Point}
use battleship_plus.Types.{ShipId, collision, id_already_placed, ok, err}
use battleship_plus.ShipTree.{node_of, Index, same_node_iff}
use battleship_plus.Ship
use battleship_plus.Ship.{Ship}
use battleship_plus.ShipManager.{ShipManager, place_ship, put_ship, forget_ship, forget_node}
use battleship_plus.ShipManager.Sync.{InSync, add-InSync, locate-ships, locate_complete}

meet_comm : (l u l' u' : Point) → boxes_meet l u l' u' ≡ boxes_meet l' u' l u
meet_comm l u l' u' = ground arith

module _ ⦃g : Geometry⦄ ⦃index : Index⦄ where
  open g use {Aabb, intersects, intersects_lem, lower, upper}

  abbrev pub with_ship : ShipId → Ship → ShipManager → ShipManager
  with_ship i s m = record {
    ships = Collections.insert i s m.ships;
    ships_geo_lookup = index.insert (node_of s) m.ships_geo_lookup;
  }

  -- What `place_ship` promises, by its three results.
  abbrev pub Places : ShipId → Ship → ShipManager → Type 0
  Places i s m =
      (((t : Ship) × (get i m.ships ≡ some t)) × (place_ship i s m ≡ (err id_already_placed, m)))
      ⊎ ((get i m.ships ≡ none)
          × ((j : ShipId) × (t : Ship) × (get j m.ships ≡ some t)
              × (intersects (Ship.envelope s) (Ship.envelope t) ≡ true))
          × (place_ship i s m ≡ (err collision, m)))
      ⊎ ((get i m.ships ≡ none)
          × ((j : ShipId) (t : Ship)
              → get j m.ships ≡ some t
              → intersects (Ship.envelope s) (Ship.envelope t) ≡ false)
          × (place_ship i s m ≡ (ok tt, with_ship i s m)))

  free_place :
      (i : ShipId) (s : Ship) (m : ShipManager) (j : ShipId) (t : Ship)
      → InSync m
      → index.locate_in_envelope_intersecting (Ship.envelope s) m.ships_geo_lookup ≡ []
      → get j m.ships ≡ some t
      → intersects (Ship.envelope s) (Ship.envelope t) ≡ false
  free_place i s m j t v h found =
      elim (Bool-cases (intersects (Ship.envelope s) (Ship.envelope t))) [
        | inl meets ↦
            absurd (omega (arith, rw h at (locate_complete m (Ship.envelope s) j t v found meets)))
        | inr apart ↦ apart
      ]

  -- On a manager whose tree follows its map, a ship is refused if its id is taken, or else if its
  -- envelope meets that of a placed ship, and in both cases nothing changes; otherwise it is added.
  pub place_ship-Places : (i : ShipId) (s : Ship) (m : ShipManager) → InSync m → Places i s m
  unfolding place_ship
  place_ship-Places i s m v = elim (Option-cases (get i m.ships)) [
    | inr (t, taken) ↦ inl ((t, taken), rw (taken, place_ship))
    | inl fresh ↦
        elim (List-cases
          (index.locate_in_envelope_intersecting (Ship.envelope s) m.ships_geo_lookup)) [
            | inl free ↦ inr (
                inr (
                  fresh,
                  λ j t found. free_place i s m j t v free found,
                  rw (fresh, place_ship) (rw free),
                ))
            | inr (n, ns, hit) ↦
                let (t, found, meets) =
                  locate-ships m (Ship.envelope s) n v
                    (rw hit (ground (arith, same_node_iff n n))) in
                inr (inl (fresh, (n.ship_id, t, found, meets), rw (fresh, place_ship) (rw hit)))
          ]
  ]

  -- Ships under different ids do not overlap.
  abbrev pub Apart : ShipManager → Type 0
  Apart m =
      (i j : ShipId) (s t : Ship)
      → get i m.ships ≡ some s
      → get j m.ships ≡ some t
      → i ≢ j
      → intersects (Ship.envelope s) (Ship.envelope t) ≡ false

  pub intersects_comm : (a b : Aabb) → intersects a b ≡ intersects b a
  intersects_comm a b =
      rw (intersects_lem a b, intersects_lem b a)
        (meet_comm (lower a) (upper a) (lower b) (upper b))

  with_ship-Apart :
      (i : ShipId) (s : Ship) (m : ShipManager)
      → ((j : ShipId) (t : Ship)
          → get j m.ships ≡ some t
          → intersects (Ship.envelope s) (Ship.envelope t) ≡ false)
      → Apart m
      → Apart (with_ship i s m)
  with_ship-Apart i s m free apart j k t u ht hu ne = ground (
    arith,
    get-insert i j s m.ships,
    get-insert i k s m.ships,
    nat_pair_beq_iff i j,
    nat_pair_beq_iff i k,
    free j t,
    free k u,
    apart j k t u,
    intersects_comm (Ship.envelope t) (Ship.envelope u),
  )

  -- Whatever the result, a placement under the ship's own id leaves the tree in agreement with the
  -- map and no two ships overlapping, if it was so before.
  pub place_ship-Apart :
      (i : ShipId) (s : Ship) (m : ShipManager)
      → Ship.id s ≡ i
      → InSync m
      → Apart m
      → InSync (place_ship i s m).1 × Apart (place_ship i s m).1
  place_ship-Apart i s m e v apart = elim (place_ship-Places i s m v) [
    | inl (taken, r) ↦ rw r (v, apart)
    | inr (inl (fresh, meets, r)) ↦ rw r (v, apart)
    | inr (inr (fresh, free, r)) ↦
        rw r (add-InSync m i s fresh e v, with_ship-Apart i s m free apart)
  ]

  -- A ship replaced by one with the same node overlaps nobody new.
  pub put_ship-Apart :
      (m : ShipManager) (i : ShipId) (s t : Ship)
      → get i m.ships ≡ some s
      → Ship.envelope t ≡ Ship.envelope s
      → Apart m
      → Apart (put_ship i t m)
  put_ship-Apart m i s t found same apart j k x y hx hy ne = ground (
    arith,
    get-insert i j t m.ships,
    get-insert i k t m.ships,
    nat_pair_beq_iff i j,
    nat_pair_beq_iff i k,
    apart j k x y,
    apart j k s y,
    apart j k x s,
  )

  -- A fleet with fewer ships overlaps no more.
  pub fewer-Apart :
      (m n : ShipManager)
      → ((i : ShipId) (s : Ship) → get i n.ships ≡ some s → get i m.ships ≡ some s)
      → Apart m
      → Apart n
  fewer-Apart m n old apart i j s t hs ht ne = apart i j s t (old i s hs) (old j t ht) ne

  pub forget_ship-Apart :
      (m : ShipManager) (i : ShipId) (s : Ship) → Apart m → Apart (forget_node s (forget_ship i m))
  forget_ship-Apart m i s =
      fewer-Apart m (forget_node s (forget_ship i m))
        (λ j t h. ground (arith, get-remove i j m.ships))
