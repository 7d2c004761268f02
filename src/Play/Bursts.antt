-- ===== src/Play/Bursts.antt =====
-- The moves of an engine boost.
use battleship_plus.Base.{nat_eq, nat_pair_eq, ℕ, zero, suc, ◌≡◌, refl, ap, inl, inr}
use battleship_plus.Base.{true, false, some, List, [], ◌∷◌, arith, Option-cases}
use battleship_plus.Rstar.{Geometry}
use battleship_plus.Types.{
  ShipId, Direction, CruiserBalancing, ActionValidationError, ok, err, panic, Result-cases,
}
use battleship_plus.ShipTree.{Index}
use battleship_plus.ShipManager.{ShipManager, get_by_id}
use battleship_plus.Actions.{Checked, State}
use battleship_plus.Movement.Clearance.{Sound}
use battleship_plus.Movement.{general_movement_inner}
use battleship_plus.Movement.Safety.{general_movement_inner-Sound}
use battleship_plus.Results.{Single}
use battleship_plus.Turns.{boost_moves, boost, steer_boost}
use battleship_plus.Play.Boost.{steer_boost-Steers}

-- The reports of a number of moves: all succeed, or the last is the first that failed.
abbrev pub Runs : ℕ → List (Checked Single) → Type 0
Runs zero [] = Unit
Runs (suc n) (ok s ∷ rs) = Runs n rs
Runs (suc n) (err e ∷ []) = Unit
Runs _ _ = ⊥

abbrev pub Starts : List (Checked Single) → Type 0
Starts (ok s ∷ rs) = Unit
Starts _ = ⊥

module _ ⦃g : Geometry⦄ ⦃index : Index⦄ where
  open g use {Aabb}

  halted :
      (i : ShipId) (bounds : Aabb) (enemies : List ShipId) (n : ℕ) (m : ShipManager)
      → boost_moves i bounds enemies n true m ≡ (some [], m)
  unfolding boost_moves
  halted i bounds enemies zero m = refl
  halted i bounds enemies (suc n) m = refl

  boost_moves-Runs :
      (i : ShipId) (bounds : Aabb) (enemies : List ShipId) (n : ℕ) (m : ShipManager)
      (rs : List (Checked Single))
      → (boost_moves i bounds enemies n false m).0 ≡ some rs
      → Runs n rs
  unfolding boost_moves
  boost_moves-Runs i bounds enemies zero m [] h = tt
  boost_moves-Runs i bounds enemies zero m (r ∷ rs) h = absurd (ground arith)
  boost_moves-Runs i bounds enemies (suc n) m rs h =
      let moved = general_movement_inner 0 i bounds enemies steer_boost m in
      elim (Result-cases moved.0) [
        | inr (inr e) ↦ absurd (ground (arith, e))
        | inr (inl (x, e)) ↦
            let got : err x ∷ [] ≡ rs = ground (arith, e, halted i bounds enemies n moved.1.0) in
            rw (← got) tt
        | inl (s, e) ↦
            let later = boost_moves i bounds enemies n false moved.1.0 in
            elim (Option-cases later.0) [
              | inl f ↦ absurd (ground (arith, e, f))
              | inr (rest, f) ↦
                  let got : ok s ∷ rest ≡ rs = ground (arith, e, f) in
                  rw (← got) (boost_moves-Runs i bounds enemies n moved.1.0 rest f)
            ]
      ]

  -- The first move of a boost failed, and nothing has changed.
  boost_moves_refused :
      (i : ShipId) (bounds : Aabb) (enemies : List ShipId) (n : ℕ) (m : ShipManager)
      (x : ActionValidationError) (rs : List (Checked Single))
      → Sound m
      → (boost_moves i bounds enemies n false m).0 ≡ some (err x ∷ rs)
      → (boost_moves i bounds enemies n false m).1 ≡ m
  unfolding boost_moves
  boost_moves_refused i bounds enemies zero m x rs sound h = refl
  boost_moves_refused i bounds enemies (suc n) m x rs sound h =
      let moved = general_movement_inner 0 i bounds enemies steer_boost m in
      let (_, refused) =
        general_movement_inner-Sound 0 i bounds enemies steer_boost m sound
          (steer_boost-Steers m 0 i bounds sound) in
      elim (Result-cases moved.0) [
        | inr (inr e) ↦ absurd (ground (arith, e))
        | inl (s, e) ↦ absurd (ground (arith, e))
        | inr (inl (y, e)) ↦
            let still : moved.1.0 ≡ m = ap (λ (s : State). s.0) (refused y e) in
            ground (arith, e, still, halted i bounds enemies n moved.1.0)
      ]

  -- A boost that succeeds reports its moves, of which the first succeeds; one that is refused
  -- changes nothing.
  abbrev pub Boosts :
      ℕ → ShipManager → Checked (Direction × List (Checked Single)) × ShipManager → Type 0
  Boosts n m r =
      ((d : Direction) (rs : List (Checked Single)) → r.0 ≡ ok (d, rs) → Runs n rs × Starts rs)
      × ((x : ActionValidationError) → r.0 ≡ err x → r.1 ≡ m)

  -- On a fleet in order without overlaps, a boost that succeeds reports its moves, the first of
  -- which succeeds, and either all of the configured number succeed or the last is the first that
  -- failed; a boost that is refused changes nothing.
  pub boost-Boosts :
      (i : ShipId) (bounds : Aabb) (enemies : List ShipId) (m : ShipManager) (b : CruiserBalancing)
      → Sound m
      → Boosts b.engine_boost_distance m (boost i bounds enemies m b)
  unfolding boost
  boost-Boosts i bounds enemies m b sound = elim (Option-cases (get_by_id i m)) [
    | inl e ↦ rw (e, boost) (λ d rs h. absurd (ground arith), λ x h. refl)
    | inr (s, e) ↦
        let moved = boost_moves i bounds enemies b.engine_boost_distance false m in
        elim (Option-cases moved.0) [
          | inl f ↦ (λ d rs h. absurd (ground (arith, e, f)), λ x h. absurd (ground (arith, e, f)))
          | inr ([], f) ↦
              (λ d rs h. absurd (ground (arith, e, f)), λ x h. absurd (ground (arith, e, f)))
          | inr (panic ∷ rest, f) ↦
              (λ d rs h. absurd (ground (arith, e, f)), λ x h. absurd (ground (arith, e, f)))
          | inr (err y ∷ rest, f) ↦ (
            λ d rs h. absurd (ground (arith, e, f)),
            λ x h. ground (
              arith,
              e,
              f,
              boost_moves_refused i bounds enemies b.engine_boost_distance m y rest sound f,
            ),
          )
          | inr (ok first ∷ rest, f) ↦ (
            λ d rs h.
                let got : ok first ∷ rest ≡ rs = ground (arith, e, f) in
                rw (← got) (
                  boost_moves-Runs i bounds enemies b.engine_boost_distance m (ok first ∷ rest) f,
                  tt,
                ),
            λ x h. absurd (ground (arith, e, f)),
          )
        ]
  ]
