-- ===== src/Base/Collections.antt =====
-- `HashMap` and `HashSet` of the standard library as association lists without repeated keys. The
-- order of the list stands for the unspecified order of iteration.
use mathlib.Core.Logic.{inl, inr}
use battleship_plus.Base.Tests.{Bool-cases, Eq, ◌==◌, if◌then◌else◌}
use mathlib.Core.Path.{◌≡◌, refl}
use mathlib.Core.Bool.{Bool, true, false}
use mathlib.Core.List.{List, [], ◌∷◌, ◌++◌}
use mathlib.Core.Option.{Option, none, some}
use native.Mathlib.Omega.{arith}

abbrev pub HashMap : Type 0 → Type 0 → Type 0
HashMap K V = List (K × V)

abbrev pub HashSet : Type 0 → Type 0
HashSet K = List K

module _ {K : Type 0} {V : Type 0} ⦃e : Eq K⦄ where
  unfoldable pub get : K → HashMap K V → Option V
  get k [] = none
  get k ((j, v) ∷ m) = if j == k then some v else get k m

  unfoldable pub insert : K → V → HashMap K V → HashMap K V
  insert k v [] = (k, v) ∷ []
  insert k v ((j, w) ∷ m) = if j == k then (k, v) ∷ m else (j, w) ∷ insert k v m

  unfoldable pub remove : K → HashMap K V → HashMap K V
  remove k [] = []
  remove k ((j, w) ∷ m) = if j == k then remove k m else (j, w) ∷ remove k m

  pub get-insert :
      (k j : K) (v : V) (m : HashMap K V)
      → get j (insert k v m) ≡ (if k == j then some v else get j m)
  unfolding get insert
  get-insert k j v [] = refl
  get-insert k j v ((i, w) ∷ m) =
      ground (arith, e.beq_iff k j, e.beq_iff i k, e.beq_iff i j, get-insert k j v m)

  -- A value that is there is put back.
  pub insert_back : (k : K) (v : V) (m : HashMap K V) → get k m ≡ some v → insert k v m ≡ m
  unfolding get insert
  insert_back k v [] h = absurd (ground arith)
  insert_back k v ((j, w) ∷ m) h = ground (arith, h, e.beq_iff j k, insert_back k v m)

  pub get-remove :
      (k j : K) (m : HashMap K V) → get j (remove k m) ≡ (if k == j then none else get j m)
  unfolding get remove
  get-remove k j [] = ground arith
  get-remove k j ((i, w) ∷ m) =
      ground (arith, e.beq_iff k j, e.beq_iff i k, e.beq_iff i j, get-remove k j m)

module _ {K : Type 0} ⦃e : Eq K⦄ where
  unfoldable pub contains : K → HashSet K → Bool
  contains k [] = false
  contains k (j ∷ s) = if j == k then true else contains k s

  unfoldable pub insert_set : K → HashSet K → HashSet K
  unfolding contains
  insert_set k s = if contains k s then s else s ++ k ∷ []

  unfoldable pub remove_set : K → HashSet K → HashSet K
  remove_set k [] = []
  remove_set k (j ∷ s) = if j == k then remove_set k s else j ∷ remove_set k s

  -- `collect` into a set.
  unfoldable pub collect_set : List K → HashSet K
  unfolding insert_set
  collect_set [] = []
  collect_set (k ∷ ks) = insert_set k (collect_set ks)

  contains-snoc :
      (k j : K) (s : HashSet K) → contains j (s ++ k ∷ []) ≡ (if k == j then true else contains j s)
  unfolding contains
  contains-snoc k j [] = refl
  contains-snoc k j (i ∷ s) = ground (arith, contains-snoc k j s)

  pub contains-insert_set :
      (k j : K) (s : HashSet K)
      → contains j (insert_set k s) ≡ (if k == j then true else contains j s)
  unfolding insert_set
  contains-insert_set k j s = ground (arith, contains-snoc k j s, e.beq_iff k j)

  pub contains-remove_set :
      (k j : K) (s : HashSet K)
      → contains j (remove_set k s) ≡ (if k == j then false else contains j s)
  unfolding contains remove_set
  contains-remove_set k j [] = ground arith
  contains-remove_set k j (i ∷ s) =
      ground (arith, e.beq_iff k j, e.beq_iff i k, e.beq_iff i j, contains-remove_set k j s)

  pub contains-collect_set : (k : K) (ks : List K) → contains k (collect_set ks) ≡ contains k ks
  unfolding collect_set contains
  contains-collect_set k [] = refl
  contains-collect_set k (j ∷ ks) =
      ground (arith, contains-insert_set j k (collect_set ks), contains-collect_set k ks)

  -- A set holds each key once.
  abbrev pub Distinct : HashSet K → Type 0
  Distinct [] = Unit
  Distinct (k ∷ s) = (contains k s ≡ false) × Distinct s

  Distinct-snoc :
      (k : K) (s : HashSet K) → contains k s ≡ false → Distinct s → Distinct (s ++ k ∷ [])
  unfolding contains
  Distinct-snoc k [] h d = (refl, tt)
  Distinct-snoc k (j ∷ s) h d = (
    ground (arith, contains-snoc k j s, e.beq_iff k j, e.beq_iff j k),
    Distinct-snoc k s (ground arith) d.1,
  )

  insert_set-Distinct : (k : K) (s : HashSet K) → Distinct s → Distinct (insert_set k s)
  unfolding insert_set
  insert_set-Distinct k s d = elim (Bool-cases (contains k s)) [
    | inl old ↦ rw (old, insert_set) d
    | inr new ↦ rw (new, insert_set) (Distinct-snoc k s new d)
  ]

  pub collect_set-Distinct : (ks : List K) → Distinct (collect_set ks)
  unfolding collect_set
  collect_set-Distinct [] = tt
  collect_set-Distinct (k ∷ ks) = insert_set-Distinct k (collect_set ks) (collect_set-Distinct ks)
