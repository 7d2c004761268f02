-- ===== src/Results/Shares.antt =====
-- How damage is divided among tiles.
use battleship_plus.Base.{
  ℕ, zero, suc, ◌+◌, ◌-◌, ◌*◌, ◌/◌, ◌≤◌, ◌≡◌, refl, arith, some, List, [], ◌∷◌, length, replicate,
  length-replicate, ap, ◌∙◌,
}
use native.Mathlib.Nat.{mul-suc, mod-eq-sub-div-mul, mod-lt, div-mul-le_self}
use battleship_plus.Results.{bump, damage_splits}

pub sum : List ℕ → ℕ
sum [] = 0
sum (x ∷ xs) = x + sum xs

sum-bump : (k : ℕ) (xs : List ℕ) → k ≤ length xs → sum (bump k xs) ≡ sum xs + k
unfolding bump sum
sum-bump zero xs h = omega arith
sum-bump (suc k) [] h = absurd (omega arith)
sum-bump (suc k) (x ∷ xs) h = omega (arith, sum-bump k xs (omega arith))

length-bump : (k : ℕ) (xs : List ℕ) → length (bump k xs) ≡ length xs
unfolding bump
length-bump zero xs = refl
length-bump (suc k) [] = refl
length-bump (suc k) (x ∷ xs) = ap suc (length-bump k xs)

sum-replicate : (n e : ℕ) → sum (replicate n e) ≡ e * n
unfolding sum
sum-replicate zero e = omega arith
sum-replicate (suc n) e = omega (arith, sum-replicate n e, mul-suc e n)

left_over : (d n : ℕ) → d - d / suc n * suc n ≤ n
left_over d n = omega (arith, mod-eq-sub-div-mul d (suc n), mod-lt d {m = suc n} (omega arith))

-- The shares of damage for a number of tiles, one at least, are as many as the tiles, and they add
-- up to the damage.
pub damage_splits_lem :
    (damage n : ℕ) (l : List ℕ)
    → damage_splits damage (suc n) ≡ some l
    → (length l ≡ suc n) × (sum l ≡ damage)
unfolding damage_splits
damage_splits_lem damage n l h =
    let each = damage / suc n in
    let spare = damage - each * suc n in
    let shares = replicate (suc n) each in
    let fits : spare ≤ length shares =
      omega (arith, left_over damage n, length-replicate (suc n) each) in
    let same : bump spare shares ≡ l = ground arith in
    rw (← same) (
      length-bump spare shares ∙ length-replicate (suc n) each,
      omega (
        arith,
        sum-bump spare shares fits,
        sum-replicate (suc n) each,
        div-mul-le_self damage (suc n),
      ),
    )
