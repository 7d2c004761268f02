-- ===== src/Base/Counts.antt =====
-- How often a key stands in a set or among the keys of a map.
use Prim.Native.Nat.{ℕ, ◌+◌}
use mathlib.Core.Logic.{◌↔◌}
use mathlib.Core.Path.{◌≡◌, refl}
use mathlib.Core.Bool.{false}
use mathlib.Core.List.{List, [], ◌∷◌, ◌++◌, map}
use mathlib.Core.Option.{none, some}
use native.Mathlib.Omega.{arith}
use battleship_plus.Base.Tests.{nat_eq, nat_beq, ltb, if◌then◌else◌}
use battleship_plus.Base.Collections
use battleship_plus.Base.Collections.{HashMap, HashSet, get, contains, insert_set, remove_set}

abbrev pub count : ℕ → List ℕ → ℕ
count k [] = 0
count k (j ∷ s) = (if nat_beq j k then 1 else 0) + count k s

abbrev pub keys : {V : Type 0} → HashMap ℕ V → List ℕ
keys m = map (λ e. e.0) m

pub count-append : (k : ℕ) (s t : List ℕ) → count k (s ++ t) ≡ count k s + count k t
count-append k [] t = omega arith
count-append k (j ∷ s) t = ground (arith, count-append k s t)

pub contains-count : (k : ℕ) (s : HashSet ℕ) → contains k s ≡ ltb 0 (count k s)
unfolding contains
contains-count k [] = refl
contains-count k (j ∷ s) = ground (arith, contains-count k s)

pub count-insert_set :
    (k j : ℕ) (s : HashSet ℕ)
    → contains k s ≡ false
    → count j (insert_set k s) ≡ (if nat_beq k j then 1 else 0) + count j s
unfolding insert_set
count-insert_set k j s new = ground (arith, new, count-append j s (k ∷ []))

pub count-remove_set :
    (k j : ℕ) (s : HashSet ℕ) → count j (remove_set k s) ≡ (if nat_beq k j then 0 else count j s)
unfolding remove_set
count-remove_set k j [] = ground arith
count-remove_set k j (i ∷ s) = ground (arith, count-remove_set k j s)

module _ {V : Type 0} where
  pub get-count : (k : ℕ) (m : HashMap ℕ V) → (get k m ≡ none) ↔ (count k (keys m) ≡ 0)
  unfolding get
  get-count k [] = (λ h. refl, λ h. refl)
  get-count k ((j, v) ∷ m) =
      (λ h. ground (arith, get-count k m), λ h. ground (arith, get-count k m))

  pub count-insert_fresh :
      (k j : ℕ) (v : V) (m : HashMap ℕ V)
      → get k m ≡ none
      → count j (keys (Collections.insert k v m))
        ≡ (if nat_beq k j then 1 else 0) + count j (keys m)
  unfolding get Collections.insert
  count-insert_fresh k j v [] h = ground arith
  count-insert_fresh k j v ((i, w) ∷ m) h = ground (arith, count-insert_fresh k j v m)

  pub keys-insert_known :
      (k : ℕ) (v w : V) (m : HashMap ℕ V)
      → get k m ≡ some w
      → keys (Collections.insert k v m) ≡ keys m
  unfolding get Collections.insert
  keys-insert_known k v w [] h = absurd (ground arith)
  keys-insert_known k v w ((i, u) ∷ m) h = ground (arith, keys-insert_known k v w m)

  pub count-remove :
      (k j : ℕ) (m : HashMap ℕ V)
      → count j (keys (Collections.remove k m)) ≡ (if nat_beq k j then 0 else count j (keys m))
  unfolding Collections.remove
  count-remove k j [] = ground arith
  count-remove k j ((i, w) ∷ m) = ground (arith, count-remove k j m)

  pub keys-map : (f : V → V) (m : HashMap ℕ V) → keys (map (λ (e : ℕ × V). (e.0, f e.1)) m) ≡ keys m
  keys-map f [] = refl
  keys-map f ((i, w) ∷ m) = ground (arith, keys-map f m)
