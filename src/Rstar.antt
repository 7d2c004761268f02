-- ===== src/Rstar.antt =====
-- The parts of the crate `rstar` that the game uses, as interfaces: `Geometry` stands for
-- `rstar::AABB<[i32; 2]>` and `SpatialIndex` for `rstar::RTree`. The laws are the documented
-- behaviour of the crate.

pub mod Model
use battleship_plus.Base.{ℕ, ◌+◌, ◌-◌, ◌<◌, ◌≡◌, ◌↔◌, Bool, true, ◌&&◌, Option, none, some}
use battleship_plus.Base.{List, if◌then◌else◌, ltb}
use battleship_plus.Base.Int.{ℤ, leb_ℤ, min_ℤ, max_ℤ}

-- `[i32; 2]`
abbrev pub Point : Type 0
Point = ℤ × ℤ

-- A closed box, given by its lower and upper corner.
abbrev pub in_box : Point → Point → Point → Bool
in_box l u p = leb_ℤ l.0 p.0 && (leb_ℤ l.1 p.1 && (leb_ℤ p.0 u.0 && leb_ℤ p.1 u.1))

-- Two closed boxes meet.
abbrev pub boxes_meet : Point → Point → Point → Point → Bool
boxes_meet l u l' u' = leb_ℤ l.0 u'.0 && (leb_ℤ l'.0 u.0 && (leb_ℤ l.1 u'.1 && leb_ℤ l'.1 u.1))

-- A closed box holds another.
abbrev pub box_holds : Point → Point → Point → Point → Bool
box_holds l u l' u' = leb_ℤ l.0 l'.0 && (leb_ℤ l.1 l'.1 && (leb_ℤ u'.0 u.0 && leb_ℤ u'.1 u.1))

abbrev pub clamp : ℤ → ℤ → ℤ → ℤ
clamp l u x = max_ℤ l (min_ℤ u x)

pub record Geometry : Type 1 where
  pub Aabb : Type 0
  pub same_aabb : Aabb → Aabb → Bool
  pub from_corners : Point → Point → Aabb
  pub from_point : Point → Aabb
  pub lower : Aabb → Point
  pub upper : Aabb → Point
  pub contains_point : Aabb → Point → Bool
  pub contains_envelope : Aabb → Aabb → Bool
  pub intersects : Aabb → Aabb → Bool
  pub merge : Aabb → Aabb → Aabb
  -- The point of the box that is nearest to a given one.
  pub min_point : Aabb → Point → Point
  pub same_aabb_iff : (a b : Aabb) → (same_aabb a b ≡ true) ↔ (a ≡ b)
  pub lower-from_corners : (p q : Point) → lower (from_corners p q) ≡ (min_ℤ p.0 q.0, min_ℤ p.1 q.1)
  pub upper-from_corners : (p q : Point) → upper (from_corners p q) ≡ (max_ℤ p.0 q.0, max_ℤ p.1 q.1)
  pub lower-from_point : (p : Point) → lower (from_point p) ≡ p
  pub upper-from_point : (p : Point) → upper (from_point p) ≡ p
  pub contains_point_lem :
      (a : Aabb) (p : Point) → contains_point a p ≡ in_box (lower a) (upper a) p
  pub contains_envelope_lem :
      (a b : Aabb) → contains_envelope a b ≡ box_holds (lower a) (upper a) (lower b) (upper b)
  pub intersects_lem :
      (a b : Aabb) → intersects a b ≡ boxes_meet (lower a) (upper a) (lower b) (upper b)
  pub lower-merge :
      (a b : Aabb)
      → lower (merge a b) ≡ (min_ℤ (lower a).0 (lower b).0, min_ℤ (lower a).1 (lower b).1)
  pub upper-merge :
      (a b : Aabb)
      → upper (merge a b) ≡ (max_ℤ (upper a).0 (upper b).0, max_ℤ (upper a).1 (upper b).1)
  pub min_point_lem :
      (a : Aabb) (p : Point)
      → min_point a p ≡ (clamp (lower a).0 (upper a).0 p.0, clamp (lower a).1 (upper a).1 p.1)

-- How often an entry stands in a list.
abbrev pub occurrences {ℓ} : {T : Type ℓ} → (T → T → Bool) → T → List T → ℕ
occurrences same x List.[] = 0
occurrences same x (List.◌∷◌ y ys) = (if same x y then 1 else 0) + occurrences same x ys

-- A tree of entries with envelopes. `count` is the view of a tree as a multiset; `remove` takes
-- out one entry that is equal to the given one.
pub record SpatialIndex ⦃g : Geometry⦄ (T : Type 0) (envelope : T → g.Aabb) (same : T → T → Bool)
    : Type 1 where
  pub Tree : Type 0
  pub new : Tree
  pub bulk_load : List T → Tree
  pub insert : T → Tree → Tree
  pub remove : T → Tree → Option T × Tree
  pub locate_at_point : Point → Tree → Option T
  pub locate_in_envelope_intersecting : g.Aabb → Tree → List T
  pub count : T → Tree → ℕ
  pub count-new : (x : T) → count x new ≡ 0
  pub count-bulk_load : (x : T) (xs : List T) → count x (bulk_load xs) ≡ occurrences same x xs
  pub count-insert :
      (x y : T) (t : Tree) → count x (insert y t) ≡ (if same x y then 1 else 0) + count x t
  pub removed : (y : T) (t : Tree) → (remove y t).0 ≡ (if ltb 0 (count y t) then some y else none)
  pub count-remove :
      (x y : T) (t : Tree) → count x (remove y t).1 ≡ count x t - (if same x y then 1 else 0)
  pub locate_at_point_some :
      (p : Point) (t : Tree) (x : T)
      → locate_at_point p t ≡ some x
      → (0 < count x t) × (g.contains_point (envelope x) p ≡ true)
  pub locate_at_point_none :
      (p : Point) (t : Tree)
      → locate_at_point p t ≡ none
      → (x : T) → g.contains_point (envelope x) p ≡ true
      → count x t ≡ 0
  pub occurrences-locate :
      (x : T) (b : g.Aabb) (t : Tree)
      → occurrences same x (locate_in_envelope_intersecting b t)
        ≡ (if g.intersects b (envelope x) then count x t else 0)
