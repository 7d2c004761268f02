-- ===== src/ShipManager.antt =====
-- crates/battleship_plus_common/src/game/ship_manager.rs: the ships by their ids together with the
-- tree of their envelopes. Where an `unwrap` can fail the model returns `none` or `panic`.
pub mod Sync
pub mod Placement
pub mod Collision
use battleship_plus.Base.{
  nat_eq, nat_pair_eq, Bool, not, ◌&&◌, Option, none, some, List, [], ◌∷◌, ◌++◌,
}
use battleship_plus.Base.{map, filter, flat_map, if◌then◌else◌, ltb, length, ◌==◌}
use battleship_plus.Base.Words.{as_i32}
use battleship_plus.Base.Collections
use battleship_plus.Base.Collections.{HashMap, HashSet, get, contains, collect_set}
use battleship_plus.Rstar.{Point, Geometry}
use battleship_plus.Types.{
  ShipId, PlayerId, Coordinate, ShipPlacementError, collision, id_already_placed,
}
use battleship_plus.Types.{Result, ok, err, is_ok}
use battleship_plus.ShipTree.{node_of, Index, envelope_to_points}
use battleship_plus.Ship
use battleship_plus.Ship.{Ship}

module _ ⦃g : Geometry⦄ ⦃index : Index⦄ where
  open g use {Aabb, contains_point}
  open index use {Tree}

  pub record ShipManager : Type 0 where
    pub ships : HashMap ShipId Ship
    pub ships_geo_lookup : Tree

  unfoldable pub new : ShipManager
  new = record { ships = []; ships_geo_lookup = index.new }

  insert_all : List Ship → HashMap ShipId Ship → HashMap ShipId Ship
  insert_all [] m = m
  insert_all (s ∷ ss) m = insert_all ss (Collections.insert (Ship.id s) s m)

  unfoldable pub new_with_ships : List Ship → ShipManager
  unfolding insert_all
  new_with_ships ships = record {
    ships = insert_all ships [];
    ships_geo_lookup = index.bulk_load (map node_of ships);
  }

  unfoldable pub get_by_id : ShipId → ShipManager → Option Ship
  get_by_id i m = get i m.ships

  unfoldable pub as_point : Coordinate → Point
  as_point c = (as_i32 c.0, as_i32 c.1)

  unfoldable pub get_by_position : Coordinate → ShipManager → Option Ship
  unfolding as_point get_by_id
  get_by_position c m = elim (index.locate_at_point (as_point c) m.ships_geo_lookup) [
    | none ↦ none
    | some node ↦ get_by_id node.ship_id m
  ]

  -- The ids of the ships of a set of players.
  unfoldable pub get_for_players : HashSet PlayerId → ShipManager → HashSet ShipId
  get_for_players players m =
      collect_set (filter (λ i. contains i.0 players) (map (λ e. e.0) m.ships))

  -- What one ship sees of the others: the tiles of their nodes within its vision envelope.
  unfoldable pub seen_by : ShipManager → ShipId → Option (List Coordinate)
  unfolding as_point get_by_id envelope_to_points
  seen_by m i = elim (get_by_id i m) [
    | none ↦ some []
    | some ship ↦ elim (Ship.vision_envelope ship) [
      | none ↦ none
      | some vision ↦ some (
          filter (λ c. contains_point vision (as_point c))
            (flat_map (λ n. envelope_to_points n.envelope)
              (filter (λ n. not (n.ship_id == i))
                (index.locate_in_envelope_intersecting vision m.ships_geo_lookup))))
    ]
  ]

  unfoldable pub get_ship_parts_seen_by : List ShipId → ShipManager → Option (List Coordinate)
  unfolding seen_by
  get_ship_parts_seen_by [] m = some []
  get_ship_parts_seen_by (i ∷ is) m =
      let rest = get_ship_parts_seen_by is m in
      elim (seen_by m i) [
        | none ↦ none
        | some tiles ↦ elim rest [ none ↦ none | some more ↦ some (tiles ++ more) ]
      ]

  -- Takes the node of a ship out of the tree.
  abbrev pub forget_node : Ship → ShipManager → ShipManager
  forget_node s m = record m { ships_geo_lookup = (index.remove (node_of s) m.ships_geo_lookup).1 }

  abbrev pub forget_ship : ShipId → ShipManager → ShipManager
  forget_ship i m = record m { ships = Collections.remove i m.ships }

  abbrev pub put_ship : ShipId → Ship → ShipManager → ShipManager
  put_ship i s m = record m { ships = Collections.insert i s m.ships }

  unfoldable pub destroy_ships : List ShipId → ShipManager → ShipManager
  destroy_ships [] m = m
  destroy_ships (i ∷ is) m =
      destroy_ships is
        (elim (get i m.ships) [ none ↦ m | some ship ↦ forget_node ship (forget_ship i m) ])

  -- Removes every ship of a list; a missing one panics.
  unfoldable pub remove_all : List ShipId → ShipManager → Option (List Ship × ShipManager)
  remove_all [] m = some ([], m)
  remove_all (i ∷ is) m =
      let rest = remove_all is (forget_ship i m) in
      elim (get i m.ships) [
        | none ↦ none
        | some ship ↦ elim rest [ none ↦ none | some (ships, m') ↦ some (ship ∷ ships, m') ]
      ]

  unfoldable pub forget_nodes : List Ship → ShipManager → ShipManager
  forget_nodes [] m = m
  forget_nodes (s ∷ ss) m = forget_nodes ss (forget_node s m)

  -- More than one ship in the envelope is a collision, which destroys them all.
  unfoldable pub destroy_colliding_ships_in_envelope :
      Aabb → ShipManager → Option (Option (List Ship) × ShipManager)
  unfolding remove_all forget_nodes
  destroy_colliding_ships_in_envelope e m =
      let colliding =
        collect_set
          (map (λ n. n.ship_id) (index.locate_in_envelope_intersecting e m.ships_geo_lookup)) in
      let removed = remove_all colliding m in
      if ltb 1 (length colliding)
      then elim removed [
        | none ↦ none
        | some (destroyed, m') ↦ some (some destroyed, forget_nodes destroyed m')
      ]
      else some (none, m)

  unfoldable pub place_ship :
      ShipId → Ship → ShipManager → Result ShipPlacementError (Unit {0}) × ShipManager
  place_ship i ship m = elim (get i m.ships) [
    | some _ ↦ (err id_already_placed, m)
    | none ↦ elim (index.locate_in_envelope_intersecting (Ship.envelope ship) m.ships_geo_lookup) [
      | _ ∷ _ ↦ (err collision, m)
      | [] ↦ (
        ok tt,
        record {
          ships = Collections.insert i ship m.ships;
          ships_geo_lookup = index.insert (node_of ship) m.ships_geo_lookup;
        },
      )
    ]
  ]

  -- Runs a mutation on a ship, with a state of the caller; the tree follows a success.
  unfoldable pub mutate_ship_by_id :
      {E S T : Type 0}
      → ShipId
      → Bool
      → E
      → (Ship → S → Result E T × (Ship × S))
      → ShipManager
      → S
      → Result E T × (ShipManager × S)
  mutate_ship_by_id i invalidates_tree missing mutation m st = elim (get i m.ships) [
    | none ↦ (err missing, (m, st))
    | some ship ↦
        let res = mutation ship st in
        let ship' = res.1.0 in
        let m' = put_ship i ship' m in
        if is_ok res.0 && invalidates_tree
        then (
          res.0,
          (
            record m' {
              ships_geo_lookup =
                  index.insert (node_of ship') (index.remove (node_of ship) m'.ships_geo_lookup).1;
            },
            res.1.1,
          ),
        )
        else (res.0, (m', res.1.1))
  ]
