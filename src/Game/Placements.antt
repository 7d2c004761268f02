-- ===== src/Game/Placements.antt =====
-- What the validation of a player's placement of ships lets through.
use battleship_plus.Base.{nat_eq, nat_pair_eq, ℕ, ◌<◌, ◌≡◌, refl, inl, inr}
use battleship_plus.Base.{
  true, Option, some, List, [], ◌∷◌, get_elem?, length, arith, ◌==◌, Option-cases, Bool-cases,
  nat_pair_beq_iff,
}
use battleship_plus.Base.Int.{ℤ}
use battleship_plus.Base.Collections.{HashMap, get, get-insert}
use battleship_plus.Rstar.{Geometry}
use battleship_plus.Types.{Config, ShipType, Direction, PlayerId, ShipId, ok, Result-cases}
use battleship_plus.Board.{Quadrant, quadrant_from_corner}
use battleship_plus.ShipTree.{Index}
use battleship_plus.Ship
use battleship_plus.Ship.{Ship, ship_type, new_from_type, envelope, ship_data, id, orientation_of}
use battleship_plus.ShipManager.{ShipManager, new, place_ship}
use battleship_plus.ShipManager.Sync.{InSync, new-InSync}
use battleship_plus.ShipManager.Placement.{Apart, place_ship-Apart, place_ship-Places}
use battleship_plus.Game.{
  Game, numbered, Player, ShipAssignment, ship_set_of, assigned_ship, place_assignments,
  validate_placement_request,
}

-- A new ship has the type and the id that were asked for.
new_from_type-id :
    (t : ShipType) (i : ShipId) (p : ℕ × ℕ) (o : Ship.Orientation) (c : Config) (s : Ship)
    → new_from_type t i p o c ≡ some s
    → (id s ≡ i) × (ship_type s ≡ t)
unfolding new_from_type id ship_data ship_type
new_from_type-id t i p o c s h = ground arith

module _ ⦃g : Geometry⦄ ⦃index : Index⦄ (ship_type_from_i32 : ℤ → Option ShipType)
    (direction_from_i32 : ℤ → Option Direction) where
  open g use {Aabb, contains_envelope, intersects}

  -- A ship that a player may place: under a number of the set of ships, with the type that the set
  -- has there, within the quadrant.
  abbrev pub Allowed : PlayerId → List ℤ → Aabb → ShipId → Ship → Type 0
  Allowed player ship_set quadrant i s =
      (i.0 ≡ player)
      × (i.1 < length ship_set)
      × (id s ≡ i)
      × ((wanted : ℤ) × (get_elem? ship_set i.1 ≡ some wanted)
          × (ship_type_from_i32 wanted ≡ some (ship_type s)))
      × (contains_envelope quadrant (envelope s) ≡ true)

  assigned_ship-Allowed :
      (player : PlayerId) (ship_set : List ℤ) (quadrant : Aabb) (c : Config) (n : ℕ)
      (a : ShipAssignment) (s : Ship)
      → assigned_ship ship_type_from_i32 direction_from_i32 player ship_set quadrant c n a ≡ ok s
      → Allowed player ship_set quadrant (player, n) s
  unfolding assigned_ship
  assigned_ship-Allowed player ship_set quadrant c n a s h =
      elim (Option-cases (get_elem? ship_set n)) [
        | inl e ↦ absurd (ground (arith, e))
        | inr (w, ew) ↦ elim (Option-cases (ship_type_from_i32 w)) [
          | inl e ↦ absurd (ground (arith, ew, e))
          | inr (t, et) ↦ elim (Option-cases (direction_from_i32 a.direction)) [
            | inl e ↦ absurd (ground (arith, ew, et, e))
            | inr (d, ed) ↦ elim (Option-cases a.coordinate) [
              | inl e ↦ absurd (ground (arith, ew, et, ed, e))
              | inr (p, ep) ↦
                  elim (Option-cases (new_from_type t (player, n) p (orientation_of d) c)) [
                    | inl e ↦ absurd (ground (arith, ew, et, ed, ep, e))
                    | inr (u, eu) ↦
                        let (same_id, same_type) =
                          new_from_type-id t (player, n) p (orientation_of d) c u eu in
                        let same : u ≡ s = ground (arith, ew, et, ed, ep, eu) in
                        rw (← same) (
                          refl,
                          ground (arith, ew, et, ed, ep, eu),
                          same_id,
                          (w, ew, cc (et, same_type)),
                          ground (arith, ew, et, ed, ep, eu),
                        )
                  ]
            ]
          ]
        ]
      ]

  -- What the placement of a player's ships must be.
  pub record FineFleet (player : PlayerId) (ship_set : List ℤ) (quadrant : Aabb) (m : ShipManager)
      : Type 0 where
    pub allowed :
        (i : ShipId) (s : Ship) → get i m.ships ≡ some s → Allowed player ship_set quadrant i s
    pub in_sync : InSync m
    pub apart : Apart m

  place_ship-FineFleet :
      (player : PlayerId) (ship_set : List ℤ) (quadrant : Aabb) (m : ShipManager) (i : ShipId)
      (s : Ship)
      → FineFleet player ship_set quadrant m
      → Allowed player ship_set quadrant i s
      → FineFleet player ship_set quadrant (place_ship i s m).1
  place_ship-FineFleet player ship_set quadrant m i s fine may =
      let (sync, apart) = place_ship-Apart i s m (may.2) fine.in_sync fine.apart in
      record {
        allowed = elim (place_ship-Places i s m fine.in_sync) [
          | inl (taken, r) ↦ rw r fine.allowed
          | inr (inl (fresh, meets, r)) ↦ rw r fine.allowed
          | inr (inr (fresh, free, r)) ↦ rw r (λ j t found. elim (Bool-cases (i == j)) [
            | inl e ↦
                let q : i ≡ j = (nat_pair_beq_iff i j).0 e in
                let z : s ≡ t = ground (arith, get-insert i j s m.ships) in rw (← q, ← z) may
            | inr e ↦ fine.allowed j t (ground (arith, get-insert i j s m.ships))
          ])
        ];
        in_sync = sync;
        apart = apart;
      }

  place_assignments-FineFleet :
      (player : PlayerId) (ship_set : List ℤ) (quadrant : Aabb) (c : Config)
      (l : List (ℕ × ShipAssignment)) (m n : ShipManager)
      → FineFleet player ship_set quadrant m
      → place_assignments ship_type_from_i32 direction_from_i32 player ship_set quadrant c l m
        ≡ ok n
      → FineFleet player ship_set quadrant n
  unfolding place_assignments
  place_assignments-FineFleet player ship_set quadrant c [] m n fine h =
      let same : m ≡ n = ground arith in rw (← same) fine
  place_assignments-FineFleet player ship_set quadrant c ((k, a) ∷ l) m n fine h =
      elim (Result-cases
        (assigned_ship ship_type_from_i32 direction_from_i32 player ship_set quadrant c k a)) [
          | inr (inl (x, e)) ↦ absurd (ground (arith, e))
          | inr (inr e) ↦ absurd (ground (arith, e))
          | inl (s, e) ↦
              let next =
                place_ship-FineFleet player ship_set quadrant m (player, k) s fine
                  (assigned_ship-Allowed player ship_set quadrant c k a s e) in
              elim (Result-cases (place_ship (player, k) s m).0) [
                | inr (inl (x, f)) ↦ absurd (ground (arith, e, f))
                | inr (inr f) ↦ absurd (ground (arith, e, f))
                | inl (x, f) ↦
                    place_assignments-FineFleet player ship_set quadrant c l
                      (place_ship (player, k) s m).1 n next (ground (arith, e, f))
              ]
        ]

  new-FineFleet :
      (player : PlayerId) (ship_set : List ℤ) (quadrant : Aabb)
      → FineFleet player ship_set quadrant new
  unfolding new get
  new-FineFleet player ship_set quadrant = record {
    allowed = λ i s h. absurd (ground arith);
    in_sync = new-InSync;
    apart = λ i j s t h. absurd (ground arith);
  }

  -- A placement that the validation accepts consists of ships with numbers and types of the set of
  -- the player's team, within the player's quadrant and without overlaps.
  pub validate_placement_request_lem :
      (in_order : List (ℕ × ShipAssignment) → List (ℕ × ShipAssignment)) (player : PlayerId)
      (assignments : List ShipAssignment) (game : Game) (ships : HashMap ShipId Ship)
      → validate_placement_request ship_type_from_i32 direction_from_i32 in_order player assignments
          game
        ≡ ok ships
      → (ship_set : List ℤ) × (p : Player) × (q : Quadrant) × (m : ShipManager) × (ship_set_of
            player game
          ≡ ok ship_set)
        × (get player game.players ≡ some p)
        × (p.quadrant ≡ some q)
        × (m.ships ≡ ships)
        × FineFleet player ship_set (quadrant_from_corner (q.0, q.1) q.2) m
  unfolding validate_placement_request
  validate_placement_request_lem in_order player assignments game ships h =
      elim (Result-cases (ship_set_of player game)) [
        | inr (inl (x, e)) ↦ absurd (ground (arith, e))
        | inr (inr e) ↦ absurd (ground (arith, e))
        | inl (ship_set, es) ↦ elim (Option-cases (get player game.players)) [
          | inl e ↦ absurd (ground (arith, es, e))
          | inr (p, ep) ↦ elim (Option-cases p.quadrant) [
            | inl e ↦ absurd (ground (arith, es, ep, e))
            | inr (q, eq) ↦
                let area = quadrant_from_corner (q.0, q.1) q.2 in
                elim (Result-cases (
                  place_assignments ship_type_from_i32 direction_from_i32 player ship_set area
                    game.config (in_order (numbered 0 assignments)) new)) [
                      | inr (inl (x, e)) ↦ absurd (ground (arith, es, ep, eq, e))
                      | inr (inr e) ↦ absurd (ground (arith, es, ep, eq, e))
                      | inl (m, em) ↦ (
                        ship_set,
                        p,
                        q,
                        m,
                        es,
                        ep,
                        eq,
                        ground (arith, es, ep, eq, em),
                        place_assignments-FineFleet player ship_set area game.config _ new m
                            (new-FineFleet player ship_set area) em,
                      )
                    ]
          ]
        ]
      ]
