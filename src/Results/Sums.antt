-- ===== src/Results/Sums.antt =====
-- The sums of the damage that several missiles inflict.
use battleship_plus.Base.{nat_eq, nat_pair_eq, ℕ, ◌+◌, ◌^◌, ◌%◌, ◌<◌, ◌≡◌, inl, inr, arith}
use mathlib.Core.Path.{subst}
use battleship_plus.Base.{
  none, some, List, [], ◌∷◌, if◌then◌else◌, ◌==◌, nat_pair_beq_iff, Option-cases, Bool-cases,
}
use battleship_plus.Base.Words.{add_u32}
use battleship_plus.Base.Collections
use battleship_plus.Base.Collections.{HashMap, get, get-insert}
use battleship_plus.Results.Reports.{add_up, collect_and_sum}

-- What a map has under a key.
abbrev pub amount : ℕ × ℕ → HashMap (ℕ × ℕ) ℕ → ℕ
amount k m = elim (get k m) [ none ↦ 0 | some v ↦ v ]

-- The sum of the entries of a list with a key.
abbrev pub total : ℕ × ℕ → List ((ℕ × ℕ) × ℕ) → ℕ
total k [] = 0
total k ((j, v) ∷ src) = (if j == k then v else 0) + total k src

amount-insert :
    (j k : ℕ × ℕ) (v : ℕ) (m : HashMap (ℕ × ℕ) ℕ)
    → amount k (Collections.insert j v m) ≡ (if j == k then v else amount k m)
amount-insert j k v m = ground (arith, get-insert j k v m)

-- What stands under a key after the insertion of a new sum for some key.
amount-more :
    (k j : ℕ × ℕ) (v n : ℕ) (acc : HashMap (ℕ × ℕ) ℕ)
    → (j ≡ k → n ≡ amount k acc + v)
    → amount k (Collections.insert j n acc) ≡ amount k acc + (if j == k then v else 0)
amount-more k j v n acc h = rw (amount-insert j k n acc) (elim (Bool-cases (j == k)) [
  | inl e ↦ rw e (h ((nat_pair_beq_iff j k).0 e))
  | inr e ↦ rw e (omega arith)
])

-- The sum for the key, when the key is that of the first pair, is what the addition of words gives.
wraps :
    (k j : ℕ × ℕ) (previous v t : ℕ) (acc : HashMap (ℕ × ℕ) ℕ)
    → get j acc ≡ some previous
    → amount k acc + ((if j == k then v else 0) + t) < 2 ^ 32
    → j ≡ k
    → (previous + v) % 2 ^ 32 ≡ amount k acc + v
wraps k j previous v t acc e h same =
    let there = subst (λ i. amount i acc ≡ previous) same (ground (arith, e)) in
    let this = (nat_pair_beq_iff j k).1 same in ground (arith, there, this, h)

amount-add_up :
    (k : ℕ × ℕ) (src : List ((ℕ × ℕ) × ℕ)) (acc : HashMap (ℕ × ℕ) ℕ)
    → amount k acc + total k src < 2 ^ 32
    → amount k (add_up src acc) ≡ amount k acc + total k src
unfolding add_up add_u32
amount-add_up k [] acc h = omega arith
amount-add_up k ((j, v) ∷ src) acc h = elim (Option-cases (get j acc)) [
  | inl e ↦
      let here = starts e in
      rw (e, add_up) (step v (amount-add_up k src (Collections.insert j v acc)) here)
  | inr (previous, e) ↦
      let sum : ℕ = (previous + v) % 2 ^ 32 in
      let here = wraps k j previous v (total k src) acc e h in
      rw (e, add_up) (step sum (amount-add_up k src (Collections.insert j sum acc)) here)
]
  where
    starts : get j acc ≡ none → j ≡ k → v ≡ amount k acc + v
    starts e same = subst (λ i. v ≡ amount i acc + v) same (ground (arith, e))

    step :
        (n : ℕ)
        → (amount k (Collections.insert j n acc) + total k src < 2 ^ 32
            → amount k (add_up src (Collections.insert j n acc))
              ≡ amount k (Collections.insert j n acc) + total k src)
        → (j ≡ k → n ≡ amount k acc + v)
        → amount k (add_up src (Collections.insert j n acc))
          ≡ amount k acc + ((if j == k then v else 0) + total k src)
    step n later same =
        let more = amount-more k j v n acc same in
        omega (arith, more, h, later (omega (arith, more, h)))

-- For a ship with damage that adds up to less than 2^32 over a list, the collected map has that sum
-- under the ship, where no entry counts as 0; the damage of other ships, overflowing or not, does
-- not matter.
pub amount-collect_and_sum :
    (k : ℕ × ℕ) (src : List ((ℕ × ℕ) × ℕ))
    → total k src < 2 ^ 32
    → amount k (collect_and_sum src) ≡ total k src
unfolding collect_and_sum get
amount-collect_and_sum k src h = omega (arith, h, amount-add_up k src [] (omega (arith, h)))
