-- ===== src/Actions/Agreement.antt =====
-- Moves, rotations and shots keep the tree in agreement with the map of ships, and an action that
-- fails changes nothing.
use battleship_plus.Base.{nat_eq, nat_pair_eq, ℕ, ◌≡◌, ap, ◌∙◌, ◌⊎◌, inl, inr}
use battleship_plus.Base.{Bool, true, false, none, some, [], ◌∷◌, arith}
use battleship_plus.Base.{Bool-cases, Option-cases, nat_pair_beq_iff, ltb}
use battleship_plus.Base.Collections
use battleship_plus.Base.Collections.{HashMap, HashSet, get, get-insert, get-remove}
use battleship_plus.Rstar.{Geometry}
use battleship_plus.Types.{
  ShipId, Costs, err, is_ok, MoveDirection, RotateDirection, ActionValidationError,
}
use battleship_plus.ShipTree.{ShipTreeNode, node_of, Index}
use battleship_plus.Base.Int.{ℤ}
use battleship_plus.Ship.{
  Ship, ShipData, Orientation, get_envelope_with_orientation, Cooldown, ship_data, len,
  set_position, set_orientation, envelope, get_envelope, orientation, position, id,
}
use battleship_plus.Ship.Fields.{ship_data-set_data, ship_data-set_cool_downs, len-set_cool_downs}
use battleship_plus.Ship.Steering.{
  do_move_cases, do_rotation_lem, moved, turned, get_envelope_with_orientation-len,
}
use battleship_plus.ShipManager.{ShipManager, mutate_ship_by_id, put_ship}
use battleship_plus.ShipManager.Sync.{InSync, replace-InSync}
use battleship_plus.Actions.{
  Checked, charge, move_mutation, move_ship, rotate_mutation, rotate_ship,
}

-- Writing back what stands in a map changes nothing.
pub insert_same :
    (i : ShipId) (s : Ship) (m : HashMap ShipId Ship)
    → get i m ≡ some s
    → Collections.insert i s m ≡ m
unfolding get Collections.insert
insert_same i s [] h = absurd (ground arith)
insert_same i s ((j, t) ∷ m) h = ground (arith, nat_pair_beq_iff j i, insert_same i s m)

module _ ⦃g : Geometry⦄ where
  open g use {Aabb, contains_envelope}

  -- The node of a ship depends on its data and its length alone.
  pub node_of-data :
      (s t : Ship) → ship_data t ≡ ship_data s → len t ≡ len s → node_of t ≡ node_of s
  unfolding node_of envelope get_envelope orientation position id
  node_of-data s t d l =
      let node : Aabb → ShipId → ShipTreeNode = λ e i. record { envelope = e; ship_id = i } in
      ap
        (λ (x : ShipData).
          node (get_envelope_with_orientation t x.pos_x x.pos_y x.orientation) x.id)
        d
      ∙ ap (λ (e : Aabb). node e (ship_data s).id)
          (get_envelope_with_orientation-len t s (ship_data s).pos_x (ship_data s).pos_y
            (ship_data s).orientation l)

  pub node_of-charge :
      (kind : ℕ → Cooldown) (c : Costs) (s : Ship) → node_of (charge kind c s) ≡ node_of s
  unfolding charge
  node_of-charge kind c s = elim (Bool-cases (ltb 0 c.cooldown)) [
    | inl cooling ↦
        rw cooling (node_of-data s _ (ship_data-set_cool_downs s _) (len-set_cool_downs s _))
    | inr free ↦ rw free
  ]

  id-charge : (kind : ℕ → Cooldown) (c : Costs) (s : Ship) → id (charge kind c s) ≡ id s
  unfolding node_of
  id-charge kind c s = ap (λ (n : ShipTreeNode). n.ship_id) (node_of-charge kind c s)

  pub id-set_position : (x y : ℤ) (s : Ship) → id (set_position x y s) ≡ id s
  unfolding id set_position
  id-set_position x y s = ap (λ (d : ShipData). d.id) (ship_data-set_data s _)

  pub id-set_orientation : (o : Orientation) (s : Ship) → id (set_orientation o s) ≡ id s
  unfolding id set_orientation
  id-set_orientation o s = ap (λ (d : ShipData). d.id) (ship_data-set_data s _)

  id-moved : (s : Ship) (d : MoveDirection) → id (moved s d) ≡ id s
  id-moved s d = id-set_position _ _ s

  id-turned : (s : Ship) (d : RotateDirection) → id (turned s d) ≡ id s
  id-turned s d = id-set_orientation _ s

  -- What a mutation of a ship by its id must leave alone.
  pub record KeepsNode {T : Type 0} (s : Ship) (r : Checked T × (Ship × ℕ)) (points : ℕ)
      : Type 0 where
    pub same_id : id r.1.0 ≡ id s
    pub undone : is_ok r.0 ≡ false → (r.1.0 ≡ s) × (r.1.1 ≡ points)

  pub move_mutation-KeepsNode :
      (costed : Bool) (d : MoveDirection) (bounds : Aabb) (s : Ship) (points : ℕ)
      → KeepsNode s (move_mutation costed d bounds s points) points
  unfolding move_mutation
  move_mutation-KeepsNode costed d bounds s points = record {
    same_id = grind (arith, do_move_cases s bounds d, id-moved s d, id-charge);
    undone = ground (arith, do_move_cases s bounds d);
  }

  pub rotate_mutation-KeepsNode :
      (d : RotateDirection) (bounds : Aabb) (s : Ship) (points : ℕ)
      → KeepsNode s (rotate_mutation d bounds s points) points
  unfolding rotate_mutation
  rotate_mutation-KeepsNode d bounds s points = record {
    same_id = grind (arith, do_rotation_lem s bounds d, id-turned s d, id-charge);
    undone = ground (arith, do_rotation_lem s bounds d);
  }

module _ ⦃g : Geometry⦄ ⦃index : Index⦄ where
  open g use {Aabb, contains_envelope}

  put_ship_same :
      (m : ShipManager) (i : ShipId) (s : Ship) → get i m.ships ≡ some s → put_ship i s m ≡ m
  put_ship_same m i s found =
      ap (λ (l : HashMap ShipId Ship). record m { ships = l }) (insert_same i s m.ships found)

  -- The map and the tree with another value of a ship.
  abbrev pub replaced : ShipManager → ShipId → Ship → Ship → ShipManager
  replaced m i s t = record (put_ship i t m) {
    ships_geo_lookup = index.insert (node_of t) (index.remove (node_of s) m.ships_geo_lookup).1;
  }

  module _ {T : Type 0} (m : ShipManager) (i : ShipId) (e : ActionValidationError) (points : ℕ)
      (mutation : Ship → ℕ → Checked T × (Ship × ℕ))
      (keeps : (s : Ship) → KeepsNode s (mutation s points) points) where
    -- The three ways through `mutate_ship_by_id`.
    pub mutate_cases :
        ((get i m.ships ≡ none)
          × (mutate_ship_by_id i true e mutation m points ≡ (err e, (m, points))))
        ⊎ ((s : Ship) × (get i m.ships ≡ some s)
            × (is_ok (mutation s points).0 ≡ true)
            × (mutate_ship_by_id i true e mutation m points ≡ (
              (mutation s points).0,
              (replaced m i s (mutation s points).1.0, (mutation s points).1.1),
            )))
        ⊎ ((s : Ship) × (get i m.ships ≡ some s)
            × (is_ok (mutation s points).0 ≡ false)
            × (mutate_ship_by_id i true e mutation m points ≡ ((mutation s points).0, (m, points))))
    unfolding mutate_ship_by_id
    mutate_cases = elim (Option-cases (get i m.ships)) [
      | inl missing ↦ inl (missing, rw (missing, mutate_ship_by_id))
      | inr (s, found) ↦ elim (Bool-cases (is_ok (mutation s points).0)) [
        | inl fine ↦ inr (inl (s, found, fine, rw (found, mutate_ship_by_id) (rw fine)))
        | inr failed ↦
            let same = (keeps s).undone failed in
            inr (
              inr (
                s,
                found,
                failed,
                rw (found, mutate_ship_by_id)
                    (rw (failed, same.0, same.1) (cc (put_ship_same m i s found))),
              ))
      ]
    ]

    mutate-InSync : InSync m → InSync (mutate_ship_by_id i true e mutation m points).1.0
    mutate-InSync v = elim mutate_cases [
      | inl (missing, r) ↦ rw r v
      | inr (inl (s, found, fine, r)) ↦ rw r (
          replace-InSync m i s (mutation s points).1.0 found ((keeps s).same_id ∙ v.keyed i s found)
            v)
      | inr (inr (s, found, failed, r)) ↦ rw r v
    ]

    mutate_undone :
        is_ok (mutate_ship_by_id i true e mutation m points).0 ≡ false
        → (mutate_ship_by_id i true e mutation m points).1 ≡ (m, points)
    mutate_undone h = elim mutate_cases [
      | inl (missing, r) ↦ rw r
      | inr (inl (s, found, fine, r)) ↦ absurd (ground arith)
      | inr (inr (s, found, failed, r)) ↦ rw r
    ]

  -- On a manager whose tree follows its map, a move keeps the tree in agreement with the map, and
  -- one that fails changes nothing at all.
  pub move_ship-InSync :
      (points : ℕ) (costed : Bool) (i : ShipId) (d : MoveDirection) (bounds : Aabb)
      (m : ShipManager)
      → InSync m
      → InSync (move_ship points costed i d bounds m).1.0
        × (is_ok (move_ship points costed i d bounds m).0 ≡ false
            → (move_ship points costed i d bounds m).1 ≡ (m, points))
  unfolding move_ship
  move_ship-InSync points costed i d bounds m v =
      let keeps = λ (s : Ship). move_mutation-KeepsNode costed d bounds s points in
      (mutate-InSync m i _ points _ keeps v, mutate_undone m i _ points _ keeps)

  -- On a manager whose tree follows its map, a rotation keeps the tree in agreement with the map,
  -- and one that fails changes nothing at all.
  pub rotate_ship-InSync :
      (points : ℕ) (i : ShipId) (d : RotateDirection) (bounds : Aabb) (m : ShipManager)
      → InSync m
      → InSync (rotate_ship points i d bounds m).1.0
        × (is_ok (rotate_ship points i d bounds m).0 ≡ false
            → (rotate_ship points i d bounds m).1 ≡ (m, points))
  unfolding rotate_ship
  rotate_ship-InSync points i d bounds m v =
      let keeps = λ (s : Ship). rotate_mutation-KeepsNode d bounds s points in
      (mutate-InSync m i _ points _ keeps v, mutate_undone m i _ points _ keeps)
