-- ===== src/Ship/Steering.antt =====
-- Moves and rotations.
use battleship_plus.Base.{◌≡◌, inl, inr, true}
use battleship_plus.Base.{if◌then◌else◌, arith, Bool-cases, ap}
use battleship_plus.Base.Int.{ℤ}
use battleship_plus.Base.Words.{IsI32, add_i32-sub_i32, sub_i32-sub_i32}
use battleship_plus.Rstar.{Geometry}
use battleship_plus.Types.{MoveDirection, forward, backward, RotateDirection, clockwise}
use battleship_plus.Types.{counter_clockwise, out_of_map, ok, err}
use battleship_plus.Ship.{Ship, ShipData, Orientation, north, south, east, west}
use battleship_plus.Ship.{position, orientation, set_position, set_orientation, moved_position}
use battleship_plus.Ship.{step_of, rotated, get_envelope, get_envelope_with_orientation, envelope}
use battleship_plus.Ship.{do_move, do_rotation, len}
use battleship_plus.Ship.Fields.{
  ship_data-set_data, len-set_data, set_data-set_data, set_data-ship_data,
}

abbrev pub opposite : MoveDirection → MoveDirection
opposite forward = backward
opposite backward = forward

abbrev pub other_way : RotateDirection → RotateDirection
other_way clockwise = counter_clockwise
other_way counter_clockwise = clockwise

pub rotated_back : (d : RotateDirection) (o : Orientation) → rotated (other_way d) (rotated d o) ≡ o
unfolding rotated
rotated_back d o = ground arith

pub position-set_position : (x y : ℤ) (s : Ship) → position (set_position x y s) ≡ (x, y)
unfolding position set_position
position-set_position x y s = rw ship_data-set_data

pub orientation-set_position :
    (x y : ℤ) (s : Ship) → orientation (set_position x y s) ≡ orientation s
unfolding orientation set_position
orientation-set_position x y s = ap (λ (d : ShipData). d.orientation) (ship_data-set_data s _)

pub position-set_orientation :
    (o : Orientation) (s : Ship) → position (set_orientation o s) ≡ position s
unfolding position set_orientation
position-set_orientation o s = rw ship_data-set_data

pub orientation-set_orientation :
    (o : Orientation) (s : Ship) → orientation (set_orientation o s) ≡ o
unfolding orientation set_orientation
orientation-set_orientation o s = ap (λ (d : ShipData). d.orientation) (ship_data-set_data s _)

set_position_back :
    (x y : ℤ) (s : Ship) → set_position (position s).0 (position s).1 (set_position x y s) ≡ s
unfolding set_position position
set_position_back x y s = rw (ship_data-set_data, set_data-set_data) (set_data-ship_data s)

set_orientation_back :
    (o : Orientation) (s : Ship) → set_orientation (orientation s) (set_orientation o s) ≡ s
unfolding set_orientation orientation
set_orientation_back o s = rw (ship_data-set_data, set_data-set_data) (set_data-ship_data s)

moved_back :
    (d : MoveDirection) (o : Orientation) (x y : ℤ)
    → IsI32 x
    → IsI32 y
    → moved_position o (step_of (opposite d)) (moved_position o (step_of d) (x, y)) ≡ (x, y)
unfolding moved_position step_of
moved_back d o x y hx hy =
    ground (
      arith,
      add_i32-sub_i32 x hx,
      add_i32-sub_i32 y hy,
      sub_i32-sub_i32 x hx,
      sub_i32-sub_i32 y hy,
    )

module _ ⦃g : Geometry⦄ where
  open g use {Aabb, contains_envelope}

  -- The envelope depends on a ship only by its length.
  pub get_envelope_with_orientation-len :
      (s t : Ship) (x y : ℤ) (o : Orientation)
      → len s ≡ len t
      → get_envelope_with_orientation s x y o ≡ get_envelope_with_orientation t x y o
  unfolding get_envelope_with_orientation
  get_envelope_with_orientation-len s t x y north e = rw (e, get_envelope_with_orientation)
  get_envelope_with_orientation-len s t x y south e = rw (e, get_envelope_with_orientation)
  get_envelope_with_orientation-len s t x y east e = rw (e, get_envelope_with_orientation)
  get_envelope_with_orientation-len s t x y west e = rw (e, get_envelope_with_orientation)

  pub envelope-set_position :
      (x y : ℤ) (s : Ship) → envelope (set_position x y s) ≡ get_envelope s x y
  unfolding envelope get_envelope set_position
  envelope-set_position x y s =
      rw (position-set_position x y s, orientation-set_position x y s)
        (get_envelope_with_orientation-len _ s x y (orientation s) (len-set_data s _))

  pub envelope-set_orientation :
      (o : Orientation) (s : Ship)
      → envelope (set_orientation o s)
        ≡ get_envelope_with_orientation s (position s).0 (position s).1 o
  unfolding envelope get_envelope set_orientation
  envelope-set_orientation o s =
      rw (position-set_orientation o s, orientation-set_orientation o s)
        (get_envelope_with_orientation-len _ s _ _ o (len-set_data s _))

  module _ (s : Ship) where
    abbrev pub moved : MoveDirection → Ship
    moved d =
        let p = moved_position (orientation s) (step_of d) (position s) in set_position p.0 p.1 s

    abbrev pub turned : RotateDirection → Ship
    turned d = set_orientation (rotated d (orientation s)) s

    pub do_move_cases :
        (bounds : Aabb) (d : MoveDirection)
        → do_move d bounds s ≡ (
            if contains_envelope bounds (envelope (moved d))
            then (ok (envelope (moved d)), moved d)
            else (err out_of_map, s))
    unfolding do_move
    do_move_cases bounds d = rw envelope-set_position

    pub do_rotation_lem :
        (bounds : Aabb) (d : RotateDirection)
        → do_rotation d bounds s ≡ (
            if contains_envelope bounds (envelope (turned d))
            then (ok (envelope (turned d)), turned d)
            else (err out_of_map, s))
    unfolding do_rotation
    do_rotation_lem bounds d = rw envelope-set_orientation

  moved-moved :
      (d : MoveDirection) (s : Ship)
      → IsI32 (position s).0
      → IsI32 (position s).1
      → moved (moved s d) (opposite d) ≡ s
  moved-moved d s hx hy =
      let p = moved_position (orientation s) (step_of d) (position s) in
      rw
        (
          orientation-set_position p.0 p.1 s,
          position-set_position p.0 p.1 s,
          moved_back d (orientation s) (position s).0 (position s).1 hx hy,
        )
        (set_position_back p.0 p.1 s)

  turned-turned : (d : RotateDirection) (s : Ship) → turned (turned s d) (other_way d) ≡ s
  turned-turned d s =
      let o = rotated d (orientation s) in
      rw (orientation-set_orientation o s, rotated_back d (orientation s))
        (set_orientation_back o s)

  -- A ship on the board, at a position within the i32 range, that has made a move can make the
  -- opposite move, which is accepted and brings back the very ship that there was before.
  pub do_move-do_move :
      (bounds e : Aabb) (s t : Ship) (d : MoveDirection)
      → IsI32 (position s).0
      → IsI32 (position s).1
      → contains_envelope bounds (envelope s) ≡ true
      → do_move d bounds s ≡ (ok e, t)
      → do_move (opposite d) bounds t ≡ (ok (envelope s), s)
  do_move-do_move bounds e s t d hx hy on h =
      elim (Bool-cases (contains_envelope bounds (envelope (moved s d)))) [
        | inl c ↦
            let same : moved s d ≡ t = ground (arith, do_move_cases s bounds d) in
            rw (← same, do_move_cases (moved s d) bounds (opposite d), moved-moved d s hx hy, on)
        | inr c ↦ absurd (ground (arith, do_move_cases s bounds d))
      ]

  -- A ship on the board that has made a rotation can make the opposite rotation, which is accepted
  -- and brings back the very ship that there was before.
  pub do_rotation-do_rotation :
      (bounds e : Aabb) (s t : Ship) (d : RotateDirection)
      → contains_envelope bounds (envelope s) ≡ true
      → do_rotation d bounds s ≡ (ok e, t)
      → do_rotation (other_way d) bounds t ≡ (ok (envelope s), s)
  do_rotation-do_rotation bounds e s t d on h =
      elim (Bool-cases (contains_envelope bounds (envelope (turned s d)))) [
        | inl c ↦
            let same : turned s d ≡ t = ground (arith, do_rotation_lem s bounds d) in
            rw (← same, do_rotation_lem (turned s d) bounds (other_way d), turned-turned d s, on)
        | inr c ↦ absurd (ground (arith, do_rotation_lem s bounds d))
      ]
