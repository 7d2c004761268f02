-- ===== src/Tests/Orders.antt =====
-- Actions of the three players, run on their game.
use battleship_plus.Base.{
  nat_eq, nat_pair_eq, ◌≡◌, refl, sym, ap, none, some, Option, List, [], ◌∷◌, true, ◌∈◌, inl, inr,
}
use battleship_plus.Base.Collections.{HashMap, get}
use battleship_plus.Rstar.Model.{boxes}
use battleship_plus.Types.{ShipId, CruiserBalancing, forward, clockwise}
use battleship_plus.Ship.{Ship}
use battleship_plus.Movement.Clearance.{Sound}
use battleship_plus.Turns.{boost}
use battleship_plus.Orders.{Protocol, Action}
use battleship_plus.Play.{execute_action}
use battleship_plus.Play.Sparing.{spares, execute_action-Sound}
use battleship_plus.Play.Frame.{Confined, execute_action-Confined}
use battleship_plus.Play.Bursts.{Boosts, boost-Boosts}
use battleship_plus.Tests.Fixture.{index, board, common, fleet, fleet-Sound}
use battleship_plus.Tests.Matches.{battle, type_of, heading_of}

abbrev pub protocol : Protocol
protocol = record {
  ship_type_from_i32 = type_of;
  direction_from_i32 = heading_of;
  move_direction = λ z. forward;
  rotate_direction = λ z. clockwise;
}

-- The entries of a map that stand first under their keys.
abbrev pub entries : HashMap ShipId Ship → HashMap ShipId Ship → List (ShipId × Ship)
entries whole [] = []
entries whole ((i, s) ∷ m) = elim (get i whole) [
  | none ↦ entries whole m
  | some t ↦ (i, t) ∷ entries whole m
]

entries_read :
    (whole m : HashMap ShipId Ship) (i : ShipId) (s : Ship)
    → (i, s) ∈ entries whole m
    → get i whole ≡ some s
entries_read whole [] i s h = elim h [ ]
entries_read whole ((j, t) ∷ m) i s h = found (get j whole) refl h (λ k. entries_read whole m i s k)
  where
    found :
        (o : Option Ship)
        → get j whole ≡ o
        → (i, s) ∈ elim o [ none ↦ entries whole m | some u ↦ (j, u) ∷ entries whole m ]
        → ((i, s) ∈ entries whole m → get i whole ≡ some s)
        → get i whole ≡ some s
    found none e h later = later h
    found (some u) e (inl q) later =
        let same : j ≡ i = ap (λ (x : ShipId × Ship). x.0) (sym q) in
        let thing : u ≡ s = ap (λ (x : ShipId × Ship). x.1) (sym q) in rw (← same, ← thing) e
    found (some u) e (inr h) later = later h

boost_spares : spares (Action.engine_boost (2, 0)) ≡ true
unfolding spares
boost_spares = refl

execute_action-Sound_example :
    Sound
      (execute_action protocol
        (λ l. l)
        (λ m. entries m m)
        (Action.engine_boost (2, 0))
        battle).1.ships
execute_action-Sound_example =
    execute_action-Sound protocol (λ l. l) (λ m. entries m m) (λ m. entries_read m m)
      (Action.engine_boost (2, 0)) battle boost_spares (fleet-Sound.0) (fleet-Sound.1)

execute_action-Confined_example :
    Confined protocol
      (λ l. l)
      (λ m. entries m m)
      battle
      (execute_action protocol
        (λ l. l)
        (λ m. entries m m)
        (Action.shoot (2, 0) (some (9, 8)))
        battle).1
execute_action-Confined_example =
    execute_action-Confined protocol (λ l. l) (λ m. entries m m) (Action.shoot (2, 0) (some (9, 8)))
      battle

abbrev fast : CruiserBalancing
fast = record { common_balancing = some common; engine_boost_distance = 3 }

boost-Boosts_example : Boosts 3 fleet (boost (2, 0) board ((3, 0) ∷ []) fleet fast)
boost-Boosts_example = boost-Boosts (2, 0) board ((3, 0) ∷ []) fleet fast fleet-Sound
