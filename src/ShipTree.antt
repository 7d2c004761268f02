-- ===== src/ShipTree.antt =====
-- crates/battleship_plus_common/src/game/ship_manager.rs: the entries of the tree of ships, and
-- the tiles of an envelope.
use battleship_plus.Base.{
  nat_eq, nat_pair_eq, ℕ, zero, suc, ◌≡◌, ◌↔◌, Bool, true, ◌&&◌, List, [], ◌∷◌,
}
use battleship_plus.Base.{map, flat_map, if◌then◌else◌, arith, ◌==◌, nat_pair_beq_iff}
use battleship_plus.Base.Int.{ℤ, pos, pos_part, leb_ℤ, ◌-ℤ◌}
use battleship_plus.Base.Words.{as_u32, add_i32}
use battleship_plus.Rstar.{Geometry, SpatialIndex}
use battleship_plus.Types.{ShipId, Coordinate}
use battleship_plus.Ship
use battleship_plus.Ship.{Ship}

-- `a, a + 1, …`, with `n` entries.
run_from : ℕ → ℤ → List ℤ
run_from zero a = []
run_from (suc n) a = a ∷ run_from n (add_i32 a (pos 1))

-- `a..=b`
unfoldable pub range_inclusive : ℤ → ℤ → List ℤ
unfolding run_from ◌-ℤ◌ add_i32
range_inclusive a b = if leb_ℤ a b then run_from (suc (pos_part (b -ℤ a))) a else []

module _ ⦃g : Geometry⦄ where
  open g use {Aabb, lower, upper, same_aabb, same_aabb_iff}

  unfoldable pub envelope_to_points : Aabb → List Coordinate
  unfolding range_inclusive
  envelope_to_points e =
      flat_map (λ x. map (λ y. (as_u32 x, as_u32 y)) (range_inclusive (lower e).1 (upper e).1))
        (range_inclusive (lower e).0 (upper e).0)

  pub record ShipTreeNode : Type 0 where
    pub envelope : Aabb
    pub ship_id : ShipId

  -- The derived `PartialEq`.
  unfoldable pub same_node : ShipTreeNode → ShipTreeNode → Bool
  same_node a b = same_aabb a.envelope b.envelope && (a.ship_id == b.ship_id)

  -- `ShipTreeNode::from`
  unfoldable pub node_of : Ship → ShipTreeNode
  node_of s = record { envelope = Ship.envelope s; ship_id = Ship.id s }

  abbrev pub Index : Type 1
  Index = SpatialIndex ShipTreeNode (λ n. n.envelope) same_node

  pub same_node_iff : (a b : ShipTreeNode) → (same_node a b ≡ true) ↔ (a ≡ b)
  unfolding same_node
  same_node_iff a b =
      ground (arith, same_aabb_iff a.envelope b.envelope, nat_pair_beq_iff a.ship_id b.ship_id)
