-- ===== src/Ship/Range.antt =====
-- Distances from a ship, and what it sees.
use battleship_plus.Base.{ℕ, ◌-◌, ◌<◌, ◌≡◌, ◌⊎◌, inl, inr, true, some}
use battleship_plus.Base.{if◌then◌else◌, arith, ◌↔◌, ◌^◌}
use battleship_plus.Base.Int.{ℤ, pos, negsuc, ◌+ℤ◌, ◌-ℤ◌, ◌≤ℤ◌, int_laws, ltb_ℤ, min_ℤ, max_ℤ}
use battleship_plus.Base.Words.{
  i32_max, add_i32, sub_i32, add_i32_exact, sub_i32_exact, abs_i32, as_i32-small,
}
use battleship_plus.Rstar.{Point, Geometry, in_box, clamp}
use battleship_plus.Ship.{Ship, envelope, vision_envelope, vision_range, ship_distance}

-- Far enough from the ends of the `i32` range for a difference to be exact.
abbrev pub Moderate : ℤ → Type 0
Moderate z = (negsuc (2 ^ 30 - 1) ≤ℤ z) × (z ≤ℤ pos (2 ^ 30 - 1))

abs_ℤ : ℤ → ℤ
abs_ℤ a = if ltb_ℤ a (pos 0) then pos 0 -ℤ a else a

abs_i32_exact : (a : ℤ) → negsuc (2 ^ 31 - 2) ≤ℤ a → a ≤ℤ i32_max → abs_i32 a ≡ abs_ℤ a
unfolding abs_ℤ abs_i32
abs_i32_exact a h k = rw (sub_i32_exact (pos 0) a (omega int_laws, omega int_laws))

abs_ℤ-le : (a : ℤ) (r : ℕ) → (abs_ℤ a ≤ℤ pos r) ↔ ((pos 0 ≤ℤ a +ℤ pos r) × (a ≤ℤ pos r))
unfolding abs_ℤ ◌-ℤ◌ ◌+ℤ◌
abs_ℤ-le a r = (λ h. (ground arith, ground arith), λ h. ground arith)

-- The nearest value of an interval.
clamp_cases :
    (l u x : ℤ)
    → l ≤ℤ u
    → ((x ≤ℤ l) × (clamp l u x ≡ l))
      ⊎ ((u ≤ℤ x) × (clamp l u x ≡ u))
      ⊎ ((l ≤ℤ x) × (x ≤ℤ u) × (clamp l u x ≡ x))
clamp_cases l u x h = ground arith

-- The wrapped distance between two moderate values.
distance_le :
    (x c : ℤ) (r : ℕ)
    → Moderate x
    → Moderate c
    → (abs_i32 (sub_i32 x c) ≤ℤ pos r) ↔ ((c ≤ℤ x +ℤ pos r) × (x ≤ℤ c +ℤ pos r))
distance_le x c r hx hc =
    rw
      (
        sub_i32_exact x c (omega int_laws, omega int_laws),
        abs_i32_exact (x -ℤ c) (omega int_laws) (omega int_laws),
      )
      (let bound = abs_ℤ-le (x -ℤ c) r in
        (
          λ h. let both = bound.0 h in (omega int_laws, omega int_laws),
          λ both. bound.1 (omega int_laws, omega int_laws),
        ))

gap_le :
    (l u x : ℤ) (r : ℕ)
    → Moderate l
    → Moderate u
    → Moderate x
    → l ≤ℤ u
    → (abs_i32 (sub_i32 x (clamp l u x)) ≤ℤ pos r) ↔ ((l ≤ℤ x +ℤ pos r) × (x ≤ℤ u +ℤ pos r))
gap_le l u x r hl hu hx h = elim (clamp_cases l u x h) [
  | inl (low, e) ↦ rw e (
      let d = distance_le x l r hx hl in
      (
        λ g. let both = d.0 g in (omega int_laws, omega int_laws),
        λ both. d.1 (omega int_laws, omega int_laws),
      ))
  | inr (inl (high, e)) ↦ rw e (
      let d = distance_le x u r hx hu in
      (
        λ g. let both = d.0 g in (omega int_laws, omega int_laws),
        λ both. d.1 (omega int_laws, omega int_laws),
      ))
  | inr (inr (low, high, e)) ↦ rw e (
      let d = distance_le x x r hx hx in
      (
        λ g. let both = d.0 g in (omega int_laws, omega int_laws),
        λ both. d.1 (omega int_laws, omega int_laws),
      ))
]

max_ℤ-le : (a b c : ℤ) → (max_ℤ a b ≤ℤ c) ↔ ((a ≤ℤ c) × (b ≤ℤ c))
max_ℤ-le a b c = (λ h. (ground arith, ground arith), λ h. ground arith)

pub in_box_iff :
    (l u p : Point)
    → (in_box l u p ≡ true) ↔ ((l.0 ≤ℤ p.0) × (p.0 ≤ℤ u.0) × (l.1 ≤ℤ p.1) × (p.1 ≤ℤ u.1))
in_box_iff l u p =
    (λ h. (ground arith, ground arith, ground arith, ground arith), λ h. ground arith)

-- One coordinate of the widened box.
widened_bounds :
    (l u : ℤ) (v : ℕ)
    → Moderate l
    → Moderate u
    → l ≤ℤ u
    → v < 2 ^ 30
    → (min_ℤ (min_ℤ l (sub_i32 l (pos v))) (add_i32 u (pos v)) ≡ l -ℤ pos v)
      × (max_ℤ (max_ℤ u (sub_i32 l (pos v))) (add_i32 u (pos v)) ≡ u +ℤ pos v)
widened_bounds l u v hl hu h hv =
    rw
      (
        sub_i32_exact l (pos v) (omega int_laws, omega int_laws),
        add_i32_exact u (pos v) (omega int_laws, omega int_laws),
      )
      (grind int_laws, grind int_laws)

module _ ⦃g : Geometry⦄ where
  open g use {
    Aabb, lower, upper, contains_point, contains_point_lem, min_point_lem, merge, from_point,
  }
  open g use {lower-merge, upper-merge, lower-from_point, upper-from_point}

  -- A box with moderate corners in their order.
  pub record IsTame (e : Aabb) : Type 0 where
    pub low_x : Moderate (lower e).0
    pub low_y : Moderate (lower e).1
    pub high_x : Moderate (upper e).0
    pub high_y : Moderate (upper e).1
    pub ordered_x : (lower e).0 ≤ℤ (upper e).0
    pub ordered_y : (lower e).1 ≤ℤ (upper e).1

  ship_distance-le :
      (e : Aabb) (p : Point) (r : ℕ)
      → IsTame e
      → Moderate p.0
      → Moderate p.1
      → (ship_distance e p ≤ℤ pos r) ↔ (
          ((lower e).0 ≤ℤ p.0 +ℤ pos r)
          × (p.0 ≤ℤ (upper e).0 +ℤ pos r)
          × ((lower e).1 ≤ℤ p.1 +ℤ pos r)
          × (p.1 ≤ℤ (upper e).1 +ℤ pos r))
  unfolding ship_distance
  ship_distance-le e p r tame hx hy = rw min_point_lem (
      let gx = gap_le (lower e).0 (upper e).0 p.0 r tame.low_x tame.high_x hx tame.ordered_x in
      let gy = gap_le (lower e).1 (upper e).1 p.1 r tame.low_y tame.high_y hy tame.ordered_y in
      let m =
        max_ℤ-le (abs_i32 (sub_i32 p.0 (clamp (lower e).0 (upper e).0 p.0)))
          (abs_i32 (sub_i32 p.1 (clamp (lower e).1 (upper e).1 p.1))) (pos r) in
      (
        λ h. let both = m.0 h in let a = gx.0 both.0 in let b = gy.0 both.1 in (a.0, a.1, b.0, b.1),
        λ (a, b, c, d). m.1 (gx.1 (a, b), gy.1 (c, d)),
      ))

  contains_point_iff :
      (e : Aabb) (p : Point)
      → (contains_point e p ≡ true) ↔ (
          ((lower e).0 ≤ℤ p.0) × (p.0 ≤ℤ (upper e).0) × ((lower e).1 ≤ℤ p.1) × (p.1 ≤ℤ (upper e).1))
  contains_point_iff e p = rw contains_point_lem (in_box_iff (lower e) (upper e) p)

  -- Away from the ends of the i32 range, the distance of a point to an envelope is at most 0
  -- exactly if the envelope contains the point.
  pub ship_distance-contains_point :
      (e : Aabb) (p : Point)
      → IsTame e
      → Moderate p.0
      → Moderate p.1
      → (ship_distance e p ≤ℤ pos 0) ↔ (contains_point e p ≡ true)
  ship_distance-contains_point e p tame hx hy =
      let d = ship_distance-le e p 0 tame hx hy in
      let c = contains_point_iff e p in
      (
        λ h.
            let (w, x, y, z) = d.0 h in
            c.1 (omega int_laws, omega int_laws, omega int_laws, omega int_laws),
        λ h.
            let (w, x, y, z) = c.0 h in
            d.1 (omega int_laws, omega int_laws, omega int_laws, omega int_laws),
      )

  widened : Aabb → ℤ → Aabb
  widened e r =
      let l = lower e in
      let u = upper e in
      merge (merge e (from_point (sub_i32 l.0 r, sub_i32 l.1 r)))
        (from_point (add_i32 u.0 r, add_i32 u.1 r))

  lower-widened :
      (e : Aabb) (v : ℕ)
      → IsTame e
      → v < 2 ^ 30
      → lower (widened e (pos v)) ≡ ((lower e).0 -ℤ pos v, (lower e).1 -ℤ pos v)
  unfolding widened
  lower-widened e v tame hv =
      simp (lower-merge, lower-from_point)
        (cc (
          (widened_bounds (lower e).0 (upper e).0 v tame.low_x tame.high_x tame.ordered_x hv).0,
          (widened_bounds (lower e).1 (upper e).1 v tame.low_y tame.high_y tame.ordered_y hv).0,
        ))

  upper-widened :
      (e : Aabb) (v : ℕ)
      → IsTame e
      → v < 2 ^ 30
      → upper (widened e (pos v)) ≡ ((upper e).0 +ℤ pos v, (upper e).1 +ℤ pos v)
  unfolding widened
  upper-widened e v tame hv =
      simp (upper-merge, upper-from_point)
        (cc (
          (widened_bounds (lower e).0 (upper e).0 v tame.low_x tame.high_x tame.ordered_x hv).1,
          (widened_bounds (lower e).1 (upper e).1 v tame.low_y tame.high_y tame.ordered_y hv).1,
        ))

  vision_envelope-widened :
      (s : Ship) (v : ℕ) (seen : Aabb)
      → v < 2 ^ 30
      → vision_range s ≡ some v
      → vision_envelope s ≡ some seen
      → seen ≡ widened (envelope s) (pos v)
  unfolding vision_envelope widened
  vision_envelope-widened s v seen hv ranged h = ground (arith, as_i32-small v (omega arith))

  -- Away from the ends of the i32 range, and for a vision range below 2^30, a point lies in the
  -- vision envelope of a ship exactly if its distance to the envelope of the ship is at most the
  -- vision range.
  pub vision_envelope-ship_distance :
      (s : Ship) (v : ℕ) (seen : Aabb) (p : Point)
      → IsTame (envelope s)
      → v < 2 ^ 30
      → Moderate p.0
      → Moderate p.1
      → vision_range s ≡ some v
      → vision_envelope s ≡ some seen
      → (contains_point seen p ≡ true) ↔ (ship_distance (envelope s) p ≤ℤ pos v)
  vision_envelope-ship_distance s v seen p tame hv hx hy ranged h =
      let e = envelope s in
      let d = ship_distance-le e p v tame hx hy in
      let box = contains_point_iff (widened e (pos v)) p in
      let low = lower-widened e v tame hv in
      let high = upper-widened e v tame hv in
      let inside = rw (low, high) at box in
      rw (vision_envelope-widened s v seen hv ranged h) (
        λ c.
            let (w, x, y, z) = inside.0 c in
            d.1 (omega int_laws, omega int_laws, omega int_laws, omega int_laws),
        λ c.
            let (w, x, y, z) = d.0 c in
            inside.1 (omega int_laws, omega int_laws, omega int_laws, omega int_laws),
      )
