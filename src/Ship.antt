-- ===== src/Ship.antt =====
-- crates/battleship_plus_common/src/game/ship.rs: ships, their envelopes, damage, movement and
-- cooldowns. Where an `unwrap` can fail the model returns `none`.
pub mod Fields
pub mod Damage
pub mod Steering
pub mod Steps
pub mod Tiles
pub mod Range
use battleship_plus.Base.{ℕ, ◌-◌, Bool, true, false, Option, none, some, List, []}
use battleship_plus.Base.{if◌then◌else◌, leb}
use battleship_plus.Base.Int.{ℤ, pos, negsuc, max_ℤ}
use battleship_plus.Base.Words.{add_i32, sub_i32, abs_i32, as_i32}
use battleship_plus.Rstar.{Point, Geometry}
use battleship_plus.Types.{CommonBalancing, CarrierBalancing, BattleshipBalancing}
use battleship_plus.Types.{CruiserBalancing, SubmarineBalancing, DestroyerBalancing, Config}
use battleship_plus.Types.{ShipType, Direction, MoveDirection, forward, backward, RotateDirection}
use battleship_plus.Types.{clockwise, counter_clockwise, ShipId, PlayerId}
use battleship_plus.Types.{out_of_map, ok, err, Outcome}

pub data Orientation : Type 0 where
  north south east west : Orientation

pub data Cooldown : Type 0 where
  movement rotate cannon ability : ℕ → Cooldown

pub record ShipData : Type 0 where
  pub id : ShipId
  pub pos_x : ℤ
  pub pos_y : ℤ
  pub orientation : Orientation
  pub health : ℕ

pub data Ship : Type 0 where
  carrier : CarrierBalancing → ShipData → List Cooldown → Ship
  battleship : BattleshipBalancing → ShipData → List Cooldown → Ship
  cruiser : CruiserBalancing → ShipData → List Cooldown → Ship
  submarine : SubmarineBalancing → ShipData → List Cooldown → Ship
  destroyer : DestroyerBalancing → ShipData → List Cooldown → Ship

unfoldable pub len : Ship → ℤ
len (carrier b d c) = pos 5
len (battleship b d c) = pos 4
len (cruiser b d c) = pos 3
len (submarine b d c) = pos 3
len (destroyer b d c) = pos 2

-- `Ship::data`
unfoldable pub ship_data : Ship → ShipData
ship_data (carrier b d c) = d
ship_data (battleship b d c) = d
ship_data (cruiser b d c) = d
ship_data (submarine b d c) = d
ship_data (destroyer b d c) = d

unfoldable pub id : Ship → ShipId
id s = (ship_data s).id

unfoldable pub get_player_id : Ship → PlayerId
get_player_id s = (ship_data s).id.0

unfoldable pub position : Ship → Point
position s = ((ship_data s).pos_x, (ship_data s).pos_y)

unfoldable pub orientation : Ship → Orientation
orientation s = (ship_data s).orientation

unfoldable pub health : Ship → ℕ
health s = (ship_data s).health

unfoldable pub common_balancing : Ship → Option CommonBalancing
common_balancing (carrier b d c) = b.common_balancing
common_balancing (battleship b d c) = b.common_balancing
common_balancing (cruiser b d c) = b.common_balancing
common_balancing (submarine b d c) = b.common_balancing
common_balancing (destroyer b d c) = b.common_balancing

unfoldable pub cool_downs : Ship → List Cooldown
cool_downs (carrier b d c) = c
cool_downs (battleship b d c) = c
cool_downs (cruiser b d c) = c
cool_downs (submarine b d c) = c
cool_downs (destroyer b d c) = c

unfoldable pub ship_type : Ship → ShipType
ship_type (carrier b d c) = ShipType.carrier
ship_type (battleship b d c) = ShipType.battleship
ship_type (cruiser b d c) = ShipType.cruiser
ship_type (submarine b d c) = ShipType.submarine
ship_type (destroyer b d c) = ShipType.destroyer

-- A write through the `data` of a matched ship.
unfoldable pub set_data : Ship → ShipData → Ship
set_data (carrier b d c) e = carrier b e c
set_data (battleship b d c) e = battleship b e c
set_data (cruiser b d c) e = cruiser b e c
set_data (submarine b d c) e = submarine b e c
set_data (destroyer b d c) e = destroyer b e c

-- A write through `cool_downs_mut`.
unfoldable pub set_cool_downs : Ship → List Cooldown → Ship
set_cool_downs (carrier b d c) l = carrier b d l
set_cool_downs (battleship b d c) l = battleship b d l
set_cool_downs (cruiser b d c) l = cruiser b d l
set_cool_downs (submarine b d c) l = submarine b d l
set_cool_downs (destroyer b d c) l = destroyer b d l

initial_health_of : Option CommonBalancing → Option ℕ
initial_health_of none = none
initial_health_of (some b) = some b.initial_health

unfoldable pub initial_health : Ship → Option ℕ
unfolding initial_health_of
initial_health s = initial_health_of (common_balancing s)

vision_range_of : Option CommonBalancing → Option ℕ
vision_range_of none = none
vision_range_of (some b) = some b.vision_range

unfoldable pub vision_range : Ship → Option ℕ
unfolding vision_range_of
vision_range s = vision_range_of (common_balancing s)

-- The `data` of a new ship, with the initial health of its type.
launch :
    (ShipData → List Cooldown → Ship)
    → ShipId
    → ℕ × ℕ
    → Orientation
    → Option CommonBalancing
    → Option Ship
launch f i p o none = none
launch f i p o (some b) = some (
    f
      (record {
        id = i;
        pos_x = as_i32 p.0;
        pos_y = as_i32 p.1;
        orientation = o;
        health = b.initial_health;
      })
      [])

-- `none` where the configuration lacks the balancing of the type.
unfoldable pub new_from_type : ShipType → ShipId → ℕ × ℕ → Orientation → Config → Option Ship
unfolding launch
new_from_type ShipType.carrier i p o cfg = elim cfg.carrier_balancing [
  | none ↦ none
  | some b ↦ launch (carrier b) i p o b.common_balancing
]
new_from_type ShipType.battleship i p o cfg = elim cfg.battleship_balancing [
  | none ↦ none
  | some b ↦ launch (battleship b) i p o b.common_balancing
]
new_from_type ShipType.cruiser i p o cfg = elim cfg.cruiser_balancing [
  | none ↦ none
  | some b ↦ launch (cruiser b) i p o b.common_balancing
]
new_from_type ShipType.submarine i p o cfg = elim cfg.submarine_balancing [
  | none ↦ none
  | some b ↦ launch (submarine b) i p o b.common_balancing
]
new_from_type ShipType.destroyer i p o cfg = elim cfg.destroyer_balancing [
  | none ↦ none
  | some b ↦ launch (destroyer b) i p o b.common_balancing
]

-- The ship after the damage, and whether it got destroyed.
unfoldable pub apply_damage : ℕ → Ship → Bool × Ship
apply_damage damage s =
    let d = ship_data s in
    if leb d.health damage
    then (true, set_data s (record d { health = 0 }))
    else (false, set_data s (record d { health = d.health - damage }))

unfoldable pub set_position : ℤ → ℤ → Ship → Ship
set_position x y s = set_data s (record (ship_data s) { pos_x = x; pos_y = y })

unfoldable pub set_orientation : Orientation → Ship → Ship
set_orientation o s = set_data s (record (ship_data s) { orientation = o })

unfoldable pub step_of : MoveDirection → ℤ
step_of forward = pos 1
step_of backward = negsuc 0

-- The position one step along an orientation.
unfoldable pub moved_position : Orientation → ℤ → Point → Point
moved_position north m (x, y) = (x, add_i32 y m)
moved_position south m (x, y) = (x, sub_i32 y m)
moved_position east m (x, y) = (add_i32 x m, y)
moved_position west m (x, y) = (sub_i32 x m, y)

unfoldable pub rotated : RotateDirection → Orientation → Orientation
rotated clockwise north = east
rotated clockwise west = north
rotated clockwise south = west
rotated clockwise east = south
rotated counter_clockwise north = west
rotated counter_clockwise west = south
rotated counter_clockwise south = east
rotated counter_clockwise east = north

unfoldable pub direction_of : Orientation → Direction
direction_of north = Direction.north
direction_of east = Direction.east
direction_of south = Direction.south
direction_of west = Direction.west

unfoldable pub orientation_of : Direction → Orientation
orientation_of Direction.north = north
orientation_of Direction.east = east
orientation_of Direction.south = south
orientation_of Direction.west = west

unfoldable pub remaining_rounds : Cooldown → ℕ
remaining_rounds (movement n) = n
remaining_rounds (rotate n) = n
remaining_rounds (cannon n) = n
remaining_rounds (ability n) = n

unfoldable pub decremented : Cooldown → Option Cooldown
decremented (movement n) = if leb n 1 then none else some (movement (n - 1))
decremented (rotate n) = if leb n 1 then none else some (rotate (n - 1))
decremented (cannon n) = if leb n 1 then none else some (cannon (n - 1))
decremented (ability n) = if leb n 1 then none else some (ability (n - 1))

module _ ⦃g : Geometry⦄ where
  open g use {Aabb, from_corners, from_point, lower, upper, contains_envelope, merge, min_point}

  unfoldable pub get_envelope_with_orientation : Ship → ℤ → ℤ → Orientation → Aabb
  get_envelope_with_orientation s x y o =
      let l = sub_i32 (len s) (pos 1) in
      elim o [
        | north ↦ from_corners (x, add_i32 y l) (x, y)
        | south ↦ from_corners (x, y) (x, sub_i32 y l)
        | east ↦ from_corners (x, y) (add_i32 x l, y)
        | west ↦ from_corners (x, y) (sub_i32 x l, y)
      ]

  unfoldable pub get_envelope : Ship → ℤ → ℤ → Aabb
  get_envelope s x y = get_envelope_with_orientation s x y (orientation s)

  unfoldable pub envelope : Ship → Aabb
  envelope s = get_envelope s (position s).0 (position s).1

  -- The envelope widened by the vision range on every side.
  unfoldable pub vision_envelope : Ship → Option Aabb
  vision_envelope s = elim (vision_range s) [
    | none ↦ none
    | some v ↦
        let e = envelope s in
        let l = lower e in
        let u = upper e in
        let r = as_i32 v in
        some (
          merge (merge e (from_point (sub_i32 l.0 r, sub_i32 l.1 r)))
            (from_point (add_i32 u.0 r, add_i32 u.1 r)))
  ]

  unfoldable pub do_move : MoveDirection → Aabb → Ship → Outcome Ship Aabb
  do_move direction bounds s =
      let p = moved_position (orientation s) (step_of direction) (position s) in
      let s' = set_position p.0 p.1 s in
      if contains_envelope bounds (get_envelope s p.0 p.1)
      then (ok (envelope s'), s')
      else (err out_of_map, s)

  unfoldable pub do_rotation : RotateDirection → Aabb → Ship → Outcome Ship Aabb
  do_rotation direction bounds s =
      let o = rotated direction (orientation s) in
      let s' = set_orientation o s in
      if contains_envelope bounds (get_envelope_with_orientation s (position s).0 (position s).1 o)
      then (ok (envelope s'), s')
      else (err out_of_map, s)

  unfoldable pub ship_distance : Aabb → Point → ℤ
  ship_distance e p =
      let q = min_point e p in max_ℤ (abs_i32 (sub_i32 p.0 q.0)) (abs_i32 (sub_i32 p.1 q.1))

  -- `PointDistance::distance_2` of a ship.
  unfoldable pub distance : Ship → Point → ℤ
  distance s p = ship_distance (envelope s) p
