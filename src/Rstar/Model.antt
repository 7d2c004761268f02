-- ===== src/Rstar/Model.antt =====
-- An instance of the interfaces to `rstar`: boxes as pairs of corners, and a tree as the list of its
-- entries. It shows that the laws can be met, and runs the tests and examples.
use battleship_plus.Base.{◌-◌, ◌<◌, ◌≡◌, refl, ◌↔◌}
use battleship_plus.Base.{Bool, true, ◌&&◌, Option, none, some, List, [], ◌∷◌}
use battleship_plus.Base.{if◌then◌else◌, ltb, filter, arith}
use battleship_plus.Base.Int.{ℤ, leb_ℤ, min_ℤ, max_ℤ, eq_of_parts}
use battleship_plus.Rstar.{Point, Geometry, SpatialIndex, in_box, boxes_meet, box_holds, clamp}
use battleship_plus.Rstar.{occurrences}

pub record Box : Type 0 where
  pub low : Point
  pub high : Point

unfoldable pub same_ℤ : ℤ → ℤ → Bool
same_ℤ a b = leb_ℤ a b && leb_ℤ b a

pub same_ℤ_iff : (a b : ℤ) → (same_ℤ a b ≡ true) ↔ (a ≡ b)
unfolding same_ℤ
same_ℤ_iff a b = (λ h. eq_of_parts a b (ground arith), λ e. ground arith)

unfoldable pub same_point : Point → Point → Bool
unfolding same_ℤ
same_point p q = same_ℤ p.0 q.0 && same_ℤ p.1 q.1

same_point_iff : (p q : Point) → (same_point p q ≡ true) ↔ (p ≡ q)
unfolding same_point
same_point_iff (a, b) (c, d) = ground (arith, same_ℤ_iff a c, same_ℤ_iff b d)

unfoldable pub same_box : Box → Box → Bool
unfolding same_point
same_box a b = same_point a.low b.low && same_point a.high b.high

pub same_box_iff : (a b : Box) → (same_box a b ≡ true) ↔ (a ≡ b)
unfolding same_box
same_box_iff a b = ground (arith, same_point_iff a.low b.low, same_point_iff a.high b.high)

instance abbrev pub boxes : Geometry
boxes = record {
  Aabb = Box;
  same_aabb = same_box;
  from_corners =
      λ p q. record { low = (min_ℤ p.0 q.0, min_ℤ p.1 q.1); high = (max_ℤ p.0 q.0, max_ℤ p.1 q.1) };
  from_point = λ p. record { low = p; high = p };
  lower = λ a. a.low;
  upper = λ a. a.high;
  contains_point = λ a p. in_box a.low a.high p;
  contains_envelope = λ a b. box_holds a.low a.high b.low b.high;
  intersects = λ a b. boxes_meet a.low a.high b.low b.high;
  merge = λ a b. record {
    low = (min_ℤ a.low.0 b.low.0, min_ℤ a.low.1 b.low.1);
    high = (max_ℤ a.high.0 b.high.0, max_ℤ a.high.1 b.high.1);
  };
  min_point = λ a p. (clamp a.low.0 a.high.0 p.0, clamp a.low.1 a.high.1 p.1);
  same_aabb_iff = same_box_iff;
  lower-from_corners = λ p q. refl;
  upper-from_corners = λ p q. refl;
  lower-from_point = λ p. refl;
  upper-from_point = λ p. refl;
  contains_point_lem = λ a p. refl;
  contains_envelope_lem = λ a b. refl;
  intersects_lem = λ a b. refl;
  lower-merge = λ a b. refl;
  upper-merge = λ a b. refl;
  min_point_lem = λ a p. refl;
}

module _ {T : Type 0} (same : T → T → Bool) where
  unfoldable pub erase : T → List T → List T
  erase y [] = []
  erase y (x ∷ xs) = if same y x then xs else x ∷ erase y xs

  unfoldable pub find : (T → Bool) → List T → Option T
  find hit [] = none
  find hit (x ∷ xs) = if hit x then some x else find hit xs

  module _ (same_iff : (a b : T) → (same a b ≡ true) ↔ (a ≡ b)) where
    pub occurrences-erase :
        (x y : T) (t : List T)
        → occurrences same x (erase y t) ≡ occurrences same x t - (if same x y then 1 else 0)
    unfolding erase
    occurrences-erase x y [] = ground arith
    occurrences-erase x y (z ∷ t) =
        ground
          (arith, same_iff x y, same_iff x z, same_iff y z, same_iff y x, occurrences-erase x y t)

    pub find-some :
        (hit : T → Bool) (t : List T) (x : T)
        → find hit t ≡ some x
        → (0 < occurrences same x t) × (hit x ≡ true)
    unfolding find
    find-some hit [] x h = absurd (ground arith)
    find-some hit (y ∷ t) x h = ground (arith, find-some hit t x, same_iff x y)

    pub find-none :
        (hit : T → Bool) (t : List T)
        → find hit t ≡ none
        → (x : T) → hit x ≡ true
        → occurrences same x t ≡ 0
    unfolding find
    find-none hit [] h x inside = refl
    find-none hit (y ∷ t) h x inside =
        ground (arith, find-none hit t, same_iff x y, find-none hit t (ground arith) x inside)

    pub occurrences-filter :
        (x : T) (hit : T → Bool) (t : List T)
        → occurrences same x (filter hit t) ≡ (if hit x then occurrences same x t else 0)
    occurrences-filter x hit [] = ground arith
    occurrences-filter x hit (y ∷ t) = ground (arith, same_iff x y, occurrences-filter x hit t)

    abbrev pub lists : (envelope : T → Box) → SpatialIndex T envelope same
    lists envelope = record {
      Tree = List T;
      new = [];
      bulk_load = λ xs. xs;
      insert = λ y t. y ∷ t;
      remove = λ y t. (if ltb 0 (occurrences same y t) then some y else none, erase y t);
      locate_at_point = λ p. find (λ x. in_box (envelope x).low (envelope x).high p);
      locate_in_envelope_intersecting =
          λ b. filter (λ x. boxes_meet b.low b.high (envelope x).low (envelope x).high);
      count = occurrences same;
      count-new = λ x. refl;
      count-bulk_load = λ x xs. refl;
      count-insert = λ x y t. refl;
      removed = λ y t. refl;
      count-remove = λ x y t. occurrences-erase x y t;
      locate_at_point_some = λ p t x h. find-some _ t x h;
      locate_at_point_none = λ p t h x inside. find-none _ t h x inside;
      occurrences-locate = λ x b t. occurrences-filter x _ t;
    }
