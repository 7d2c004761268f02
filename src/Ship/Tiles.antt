-- ===== src/Ship/Tiles.antt =====
-- Which tiles of the board a ship covers.
use battleship_plus.Base.{ℕ, ◌+◌, ◌-◌, ◌≤◌, ◌≡◌, ◌⊎◌, inl, inr, Bool, true}
use battleship_plus.Base.{arith, ap, ◌↔◌, ◌&&◌, ◌^◌}
use battleship_plus.Base.Int.{
  ℤ, pos, negsuc, ◌+ℤ◌, ◌-ℤ◌, ◌≤ℤ◌, ◌<ℤ◌, pos_part, neg_part, int_laws, eq_of_parts, leb_ℤ, min_ℤ,
  max_ℤ,
}
use battleship_plus.Base.Words.{add_i32, sub_i32, add_i32_exact, sub_i32_exact}
use battleship_plus.Rstar.{Point, Geometry}
use battleship_plus.Ship.{
  Ship, Orientation, north, south, east, west, carrier, battleship, cruiser, submarine, destroyer,
}
use battleship_plus.Ship.{
  position, orientation, get_envelope, get_envelope_with_orientation, envelope, len,
}

-- The number of tiles in front of the stern.
pub reach : Ship → ℕ
reach (carrier b d c) = 4
reach (battleship b d c) = 3
reach (cruiser b d c) = 2
reach (submarine b d c) = 2
reach (destroyer b d c) = 1

reach-le : (s : Ship) → reach s ≤ 4
unfolding reach
reach-le s = ground arith

len-reach : (s : Ship) → sub_i32 (len s) (pos 1) ≡ pos (reach s)
unfolding reach len sub_i32
len-reach s = ground arith

lt-len : (s : Ship) (k : ℕ) → k ≤ reach s → pos k <ℤ len s
unfolding reach len
lt-len s k h = ground arith

le-reach : (s : Ship) (k : ℕ) → pos k <ℤ len s → k ≤ reach s
unfolding reach len
le-reach s k h = ground arith

-- The tile `k` steps ahead of a position.
unfoldable pub ahead : Orientation → Point → ℕ → Point
ahead north (x, y) k = (x, y +ℤ pos k)
ahead south (x, y) k = (x, y -ℤ pos k)
ahead east (x, y) k = (x +ℤ pos k, y)
ahead west (x, y) k = (x -ℤ pos k, y)

-- Far enough from the ends of the `i32` range for a ship.
abbrev pub HasRoom : ℤ → Type 0
HasRoom z = (negsuc (2 ^ 31 - 5) ≤ℤ z) × (z ≤ℤ pos (2 ^ 31 - 5))

add_i32-room : (z : ℤ) (k : ℕ) → HasRoom z → k ≤ 4 → add_i32 z (pos k) ≡ z +ℤ pos k
add_i32-room z k h hk = add_i32_exact z (pos k) (omega int_laws, omega int_laws)

sub_i32-room : (z : ℤ) (k : ℕ) → HasRoom z → k ≤ 4 → sub_i32 z (pos k) ≡ z -ℤ pos k
sub_i32-room z k h hk = sub_i32_exact z (pos k) (omega int_laws, omega int_laws)

-- One coordinate of a point in a box with the corners `a` and `b`.
between : ℤ → ℤ → ℤ → Bool
between a b z = leb_ℤ (min_ℤ a b) z && leb_ℤ z (max_ℤ a b)

between_self : (a z : ℤ) → (between a a z ≡ true) ↔ (z ≡ a)
unfolding between
between_self a z = (λ h. eq_of_parts z a (ground arith), λ e. rw e (ground arith))

between_iff : (a b z : ℤ) → (between a b z ≡ true) ↔ ((a ≤ℤ z) × (z ≤ℤ b) ⊎ (b ≤ℤ z) × (z ≤ℤ a))
unfolding between
between_iff a b z = (λ h. ground arith, λ h. ground arith)

between_add :
    (a z : ℤ) (r : ℕ) → (between a (a +ℤ pos r) z ≡ true) ↔ ((k : ℕ) × (k ≤ r) × (z ≡ a +ℤ pos k))
between_add a z r = (
  λ h.
      let c = (between_iff a (a +ℤ pos r) z).0 h in
      (pos_part z + neg_part a - (pos_part a + neg_part z), omega int_laws, omega int_laws),
  λ (k, le, e).
      rw e ((between_iff a (a +ℤ pos r) (a +ℤ pos k)).1 (inl (omega int_laws, omega int_laws))),
)

between_sub :
    (a z : ℤ) (r : ℕ) → (between a (a -ℤ pos r) z ≡ true) ↔ ((k : ℕ) × (k ≤ r) × (z ≡ a -ℤ pos k))
between_sub a z r = (
  λ h.
      let c = (between_iff a (a -ℤ pos r) z).0 h in
      (pos_part a + neg_part z - (pos_part z + neg_part a), omega int_laws, omega int_laws),
  λ (k, le, e).
      rw e ((between_iff a (a -ℤ pos r) (a -ℤ pos k)).1 (inr (omega int_laws, omega int_laws))),
)

and_iff : (a b : Bool) → ((a && b) ≡ true) ↔ ((a ≡ true) × (b ≡ true))
and_iff a b = ground arith

-- A column, seen from its end: one coordinate stays and the other one runs.
column :
    (x : ℤ) (z : Point) (b : Bool) (r : ℕ) (f : ℕ → ℤ)
    → (b ≡ true) ↔ ((k : ℕ) × (k ≤ r) × (z.1 ≡ f k))
    → ((between x x z.0 && b) ≡ true) ↔ ((k : ℕ) × (k ≤ r) × (z ≡ (x, f k)))
column x z b r f h = (
  λ e.
      let both = (and_iff _ b).0 e in
      let (k, le, q) = h.0 both.1 in (k, le, cc ((between_self x z.0).0 both.0)),
  λ (k, le, e).
      (and_iff _ b).1 (
        (between_self x z.0).1 (ap (λ (p : Point). p.0) e),
        h.1 (k, le, ap (λ (p : Point). p.1) e),
      ),
)

row :
    (y : ℤ) (z : Point) (b : Bool) (r : ℕ) (f : ℕ → ℤ)
    → (b ≡ true) ↔ ((k : ℕ) × (k ≤ r) × (z.0 ≡ f k))
    → ((b && between y y z.1) ≡ true) ↔ ((k : ℕ) × (k ≤ r) × (z ≡ (f k, y)))
row y z b r f h = (
  λ e.
      let both = (and_iff b _).0 e in
      let (k, le, q) = h.0 both.0 in (k, le, cc ((between_self y z.1).0 both.1)),
  λ (k, le, e).
      (and_iff b _).1 (
        h.1 (k, le, ap (λ (p : Point). p.0) e),
        (between_self y z.1).1 (ap (λ (p : Point). p.1) e),
      ),
)

and_shuffle : (a b c d : Bool) → (a && (b && (c && d))) ≡ ((a && c) && (b && d))
and_shuffle a b c d = ground arith

between_comm : (a b z : ℤ) → between a b z ≡ between b a z
unfolding between
between_comm a b z = ground arith

module _ ⦃g : Geometry⦄ where
  open g use {
    from_corners, contains_point, contains_point_lem, lower-from_corners, upper-from_corners,
  }

  contains_point-from_corners :
      (p q z : Point)
      → contains_point (from_corners p q) z ≡ (between p.0 q.0 z.0 && between p.1 q.1 z.1)
  unfolding between
  contains_point-from_corners p q z =
      rw (contains_point_lem, lower-from_corners, upper-from_corners)
        (and_shuffle (leb_ℤ (min_ℤ p.0 q.0) z.0) (leb_ℤ (min_ℤ p.1 q.1) z.1)
          (leb_ℤ z.0 (max_ℤ p.0 q.0)) (leb_ℤ z.1 (max_ℤ p.1 q.1)))

  -- With coordinates away from the ends of the `i32` range, the envelope of a ship at a position
  -- and with an orientation holds exactly the tiles from the stern to the bow.
  envelope_covers :
      (s : Ship) (x y : ℤ) (z : Point)
      → HasRoom x
      → HasRoom y
      → (o : Orientation)
      → (contains_point (get_envelope_with_orientation s x y o) z ≡ true)
        ↔ ((k : ℕ) × (k ≤ reach s) × (z ≡ ahead o (x, y) k))
  unfolding get_envelope_with_orientation ahead
  envelope_covers s x y z hx hy north =
      rw
        (
          len-reach s,
          get_envelope_with_orientation,
          add_i32-room y (reach s) hy (reach-le s),
          contains_point-from_corners,
          between_comm (y +ℤ pos (reach s)) y,
        )
        (column x z _ (reach s) (λ k. y +ℤ pos k) (between_add y z.1 (reach s)))
  envelope_covers s x y z hx hy south =
      rw
        (
          len-reach s,
          get_envelope_with_orientation,
          sub_i32-room y (reach s) hy (reach-le s),
          contains_point-from_corners,
        )
        (column x z _ (reach s) (λ k. y -ℤ pos k) (between_sub y z.1 (reach s)))
  envelope_covers s x y z hx hy east =
      rw
        (
          len-reach s,
          get_envelope_with_orientation,
          add_i32-room x (reach s) hx (reach-le s),
          contains_point-from_corners,
        )
        (row y z _ (reach s) (λ k. x +ℤ pos k) (between_add x z.0 (reach s)))
  envelope_covers s x y z hx hy west =
      rw
        (
          len-reach s,
          get_envelope_with_orientation,
          sub_i32-room x (reach s) hx (reach-le s),
          contains_point-from_corners,
        )
        (row y z _ (reach s) (λ k. x -ℤ pos k) (between_sub x z.0 (reach s)))

  -- For a ship whose position is away from the ends of the i32 range, a point lies in its envelope
  -- exactly if it is some number of steps, smaller than the length of the ship, ahead of its
  -- position along its orientation.
  pub envelope-tiles :
      (s : Ship) (z : Point)
      → HasRoom (position s).0
      → HasRoom (position s).1
      → (contains_point (envelope s) z ≡ true)
        ↔ ((k : ℕ) × (pos k <ℤ len s) × (z ≡ ahead (orientation s) (position s) k))
  unfolding envelope get_envelope
  envelope-tiles s z hx hy =
      let covers = envelope_covers s (position s).0 (position s).1 z hx hy (orientation s) in
      (
        λ h. let (k, le, e) = covers.0 h in (k, lt-len s k le, e),
        λ (k, lt, e). covers.1 (k, le-reach s k lt, e),
      )
