-- ===== src/Movement/Steered.antt =====
-- The moves and rotations that a game runs, as steps of one ship.
use battleship_plus.Base.{Bool, nat_eq, nat_pair_eq, ℕ, ◌≡◌, refl, ◌∙◌, inl, inr}
use battleship_plus.Base.{true, false, some, arith, nat_pair_beq_iff}
use battleship_plus.Base.Collections.{get, get-insert}
use battleship_plus.Rstar.{Geometry}
use battleship_plus.Types.{
  ShipId, Outcome, ActionValidationError, MoveDirection, RotateDirection, ok, is_ok,
}
use battleship_plus.ShipTree.{Index}
use battleship_plus.Ship.{Ship, envelope}
use battleship_plus.ShipManager.{ShipManager, mutate_ship_by_id}
use battleship_plus.ShipManager.Sync.{InSync, replace-InSync}
use battleship_plus.Actions.{Checked, State, move_ship, rotate_ship}
use battleship_plus.Actions.Agreement.{
  mutate_cases, move_mutation-KeepsNode, rotate_mutation-KeepsNode, KeepsNode,
}
use battleship_plus.Movement.{steer_move, steer_rotation}
use battleship_plus.Movement.Clearance.{
  Sound, ApartBut, replaced-ApartBut, move_mutation_area, rotate_mutation_area,
}

module _ ⦃g : Geometry⦄ ⦃index : Index⦄ where
  open g use {Aabb, intersects}

  -- What a closure must do to a manager to be followed by a check for collisions.
  pub record Steers (i : ShipId) (m : ShipManager) (points : ℕ) (r : Outcome State Aabb)
      : Type 0 where
    pub kept : is_ok r.0 ≡ false → r.1 ≡ (m, points)
    pub steered :
        (e : Aabb)
        → r.0 ≡ ok e
        → (t : Ship) × (e ≡ envelope t)
          × InSync r.1.0
          × ApartBut i r.1.0
          × (get i r.1.0.ships ≡ some t)

  -- Both closures do, on a fleet in order.
  module _ (i : ShipId) (m : ShipManager) (points : ℕ) (bounds : Aabb)
      (mutation : Ship → ℕ → Checked Aabb × (Ship × ℕ))
      (keeps : (s : Ship) → KeepsNode s (mutation s points) points)
      (area : (s : Ship) (e : Aabb)
        → (mutation s points).0 ≡ ok e
        → e ≡ envelope (mutation s points).1.0) where
    mutation-Steers :
        (missing : ActionValidationError)
        → Sound m
        → Steers i m points (mutate_ship_by_id i true missing mutation m points)
    mutation-Steers missing (v, apart) = elim (mutate_cases m i missing points mutation keeps) [
      | inl (none_there, r) ↦
          rw r (record { kept = λ h. refl; steered = λ e h. absurd (ground arith) })
      | inr (inl (s, found, fine, r)) ↦
          let t = (mutation s points).1.0 in
          rw r (record {
            kept = λ h. absurd (ground arith);
            steered = λ e h. (
              t,
              area s e h,
              replace-InSync m i s t found ((keeps s).same_id ∙ v.keyed i s found) v,
              replaced-ApartBut m i s t apart,
              ground (arith, get-insert i i t m.ships, nat_pair_beq_iff i i),
            );
          })
      | inr (inr (s, found, failed, r)) ↦
          rw r (record { kept = λ h. refl; steered = λ e h. absurd (ground arith) })
    ]

  pub move_ship-Steers :
      (costed : Bool) (d : MoveDirection) (m : ShipManager) (points : ℕ) (i : ShipId)
      (bounds : Aabb)
      → Sound m
      → Steers i m points (move_ship points costed i d bounds m)
  unfolding move_ship
  move_ship-Steers costed d m points i bounds h =
      mutation-Steers i m points bounds _ (λ s. move_mutation-KeepsNode costed d bounds s points)
        (λ s e. move_mutation_area costed d bounds s points e) _ h

  pub steer_move-Steers :
      (d : MoveDirection) (m : ShipManager) (points : ℕ) (i : ShipId) (bounds : Aabb)
      → Sound m
      → Steers i m points (steer_move d m points i bounds)
  unfolding steer_move
  steer_move-Steers d m points i bounds h = move_ship-Steers true d m points i bounds h

  pub steer_rotation-Steers :
      (d : RotateDirection) (m : ShipManager) (points : ℕ) (i : ShipId) (bounds : Aabb)
      → Sound m
      → Steers i m points (steer_rotation d m points i bounds)
  unfolding steer_rotation rotate_ship
  steer_rotation-Steers d m points i bounds h =
      mutation-Steers i m points bounds _ (λ s. rotate_mutation-KeepsNode d bounds s points)
        (λ s e. rotate_mutation_area d bounds s points e) _ h
