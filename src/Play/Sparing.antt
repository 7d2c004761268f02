-- ===== src/Play/Sparing.antt =====
-- Every action but the missiles and the torpedo leaves the fleet in order without overlaps.
use battleship_plus.Base.{nat_eq, nat_pair_eq, ℕ, ◌≡◌, refl, inl, inr}
use battleship_plus.Base.{Bool, true, false, some, List, [], ◌∷◌, ◌∈◌, arith, Bool-cases}
use battleship_plus.Base.Collections.{HashMap, get}
use battleship_plus.Rstar.{Geometry}
use battleship_plus.Types.{ShipId, PlayerId, Result-cases}
use battleship_plus.ShipTree.{Index}
use battleship_plus.Ship.{Ship, id}
use battleship_plus.ShipManager.{ShipManager, place_ship}
use battleship_plus.ShipManager.Placement.{Apart, place_ship-Apart}
use battleship_plus.ShipManager.Sync.{InSync}
use battleship_plus.Game.{Game, ShipAssignment, validate_placement_request, unready_players}
use battleship_plus.Game.Placements.{validate_placement_request_lem}
use battleship_plus.Movement.Clearance.{Sound}
use battleship_plus.Movement.Safety.{general_movement_lem}
use battleship_plus.Orders.{Protocol, Action, is_action_valid}
use battleship_plus.Turns.{take_shot, send_plane, boost_engine}
use battleship_plus.Play.{switch_team, make_ready, place_all, place_fleet, apply_on, execute_action}
use battleship_plus.Play.Fleet.{in_turn-Sound, shoot_at-Sound, plane_at-Sound}
use battleship_plus.Play.Boost.{boost_at-Sound}

module _ ⦃g : Geometry⦄ ⦃index : Index⦄ where
  switch_team-Sound :
      (p : PlayerId) (game : Game) → Sound game.ships → Sound (switch_team p game).1.ships
  unfolding switch_team unready_players
  switch_team-Sound p game sound =
      let same : (switch_team p game).1.ships ≡ game.ships = ground arith in rw same sound

  make_ready-Sound :
      (p : PlayerId) (r : Bool) (game : Game)
      → Sound game.ships
      → Sound (make_ready p r game).1.ships
  unfolding make_ready
  make_ready-Sound p r game sound =
      let same : (make_ready p r game).1.ships ≡ game.ships = ground arith in rw same sound

  place_all-Sound :
      (l : List (ShipId × Ship)) (m : ShipManager)
      → ((i : ShipId) (s : Ship) → (i, s) ∈ l → id s ≡ i)
      → Sound m
      → Sound (place_all l m).1
  unfolding place_all
  place_all-Sound [] m named sound = sound
  place_all-Sound ((i, s) ∷ l) m named (v, apart) =
      let next = place_ship-Apart i s m (named i s (inl refl)) v apart in
      elim (Result-cases (place_ship i s m).0) [
        | inr (inl (x, e)) ↦ rw (e, place_all) next
        | inr (inr e) ↦ rw (e, place_all) next
        | inl (x, e) ↦
            rw (e, place_all)
              (place_all-Sound l (place_ship i s m).1 (λ j t h. named j t (inr h)) next)
      ]

-- The actions but those that leave the nodes of destroyed ships in the tree.
unfoldable pub spares : Action → Bool
spares (Action.predator_missile i c) = false
spares (Action.torpedo i d) = false
spares (Action.multi_missile i a b c) = false
spares _ = true

module _ ⦃g : Geometry⦄ ⦃index : Index⦄ (protocol : Protocol)
    (in_order : List (ℕ × ShipAssignment) → List (ℕ × ShipAssignment))
    (ships_in_order : HashMap ShipId Ship → List (ShipId × Ship)) where
  -- The order of a map has entries of the map only.
  abbrev pub ReadsEntries : Type 0
  ReadsEntries =
      (m : HashMap ShipId Ship) (i : ShipId) (s : Ship)
      → (i, s) ∈ ships_in_order m
      → get i m ≡ some s

  place_fleet-Sound :
      ReadsEntries
      → (p : PlayerId) (l : List ShipAssignment) (game : Game) → Sound game.ships
      → Sound (place_fleet protocol in_order ships_in_order p l game).1.ships
  unfolding place_fleet
  place_fleet-Sound entries p l game sound =
      let request =
        validate_placement_request protocol.ship_type_from_i32 protocol.direction_from_i32 in_order
          p l game in
      elim (Result-cases request) [
        | inr (inl (x, e)) ↦ rw (e, place_fleet) sound
        | inr (inr e) ↦ rw (e, place_fleet) sound
        | inl (ships, e) ↦
            let (set, q, a, m, _, _, _, same, fine) =
              validate_placement_request_lem protocol.ship_type_from_i32 protocol.direction_from_i32
                in_order p l game ships e in
            rw (e, place_fleet)
              (place_all-Sound (ships_in_order ships) game.ships
                (λ i s h. (fine.allowed i s (rw same (entries ships i s h))).2) sound)
      ]

  apply_on-Sound :
      ReadsEntries
      → (action : Action) (game : Game) → spares action ≡ true
      → Sound game.ships
      → Sound (apply_on protocol in_order ships_in_order action game).1.ships
  unfolding apply_on spares take_shot send_plane boost_engine
  apply_on-Sound entries (Action.team_switch p) game spared sound = switch_team-Sound p game sound
  apply_on-Sound entries (Action.set_ready p r) game spared sound = make_ready-Sound p r game sound
  apply_on-Sound entries (Action.place_ships p l) game spared sound =
      place_fleet-Sound entries p l game sound
  apply_on-Sound entries (Action.move i d) game spared sound =
      ((general_movement_lem i game sound.0 sound.1).0 (protocol.move_direction d)).0
  apply_on-Sound entries (Action.rotate i d) game spared sound =
      ((general_movement_lem i game sound.0 sound.1).1 (protocol.rotate_direction d)).0
  apply_on-Sound entries (Action.shoot i t) game spared sound =
      in_turn-Sound i.0 game _ sound (λ turn. shoot_at-Sound i t game turn sound)
  apply_on-Sound entries (Action.scout_plane i c) game spared sound =
      in_turn-Sound i.0 game _ sound (λ turn. plane_at-Sound i c game turn sound)
  apply_on-Sound entries (Action.engine_boost i) game spared sound =
      in_turn-Sound i.0 game _ sound (λ turn. boost_at-Sound i game turn sound)
  apply_on-Sound entries Action.idle game spared sound = sound
  apply_on-Sound entries (Action.predator_missile i c) game spared sound = absurd (ground arith)
  apply_on-Sound entries (Action.torpedo i d) game spared sound = absurd (ground arith)
  apply_on-Sound entries (Action.multi_missile i a b c) game spared sound = absurd (ground arith)

  -- On a fleet in order without overlaps, every action but the two kinds of missiles and the
  -- torpedo, in any phase and whatever its outcome, leaves a fleet in order without overlaps, if
  -- the order in which a map is read has only entries of the map.
  pub execute_action-Sound :
      ReadsEntries
      → (action : Action) (game : Game) → spares action ≡ true
      → InSync game.ships
      → Apart game.ships
      → Sound (execute_action protocol in_order ships_in_order action game).1.ships
  unfolding execute_action
  execute_action-Sound entries action game spared v apart =
      elim (Bool-cases (is_action_valid game.state action)) [
        | inl e ↦ rw e (apply_on-Sound entries action game spared (v, apart))
        | inr e ↦ rw e (v, apart)
      ]
