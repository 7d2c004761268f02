-- ===== src/Ship/Damage.antt =====
-- Damage and destruction.
use battleship_plus.Base.{ℕ, ◌-◌, ◌≡◌, ◌↔◌, refl, true, arith}
use battleship_plus.Ship.{
  Ship, apply_damage, health, ship_data, set_data, carrier, battleship, cruiser, submarine,
  destroyer,
}

-- A ship that differs in its health only.
abbrev pub with_health : ℕ → Ship → Ship
with_health h (carrier b d c) = carrier b (record d { health = h }) c
with_health h (battleship b d c) = battleship b (record d { health = h }) c
with_health h (cruiser b d c) = cruiser b (record d { health = h }) c
with_health h (submarine b d c) = submarine b (record d { health = h }) c
with_health h (destroyer b d c) = destroyer b (record d { health = h }) c

pub apply_damage_left :
    (damage : ℕ) (s : Ship) → (apply_damage damage s).1 ≡ with_health (health s - damage) s
unfolding apply_damage health ship_data set_data
apply_damage_left damage (carrier b d c) = ground arith
apply_damage_left damage (battleship b d c) = ground arith
apply_damage_left damage (cruiser b d c) = ground arith
apply_damage_left damage (submarine b d c) = ground arith
apply_damage_left damage (destroyer b d c) = ground arith

health-with_health : (h : ℕ) (s : Ship) → health (with_health h s) ≡ h
unfolding health ship_data
health-with_health h (carrier b d c) = refl
health-with_health h (battleship b d c) = refl
health-with_health h (cruiser b d c) = refl
health-with_health h (submarine b d c) = refl
health-with_health h (destroyer b d c) = refl

reports : (damage : ℕ) (s : Ship) → ((apply_damage damage s).0 ≡ true) ↔ (health s - damage ≡ 0)
unfolding apply_damage health
reports damage s = ground arith

-- Damage takes its amount off the health, down to 0 at the least, and leaves the type of the ship,
-- its balancing, its cooldowns and the rest of its data as they are; the ship is reported as
-- destroyed exactly when its health is 0 afterwards.
pub apply_damage_lem :
    (damage : ℕ) (s : Ship)
    → ((apply_damage damage s).1 ≡ with_health (health s - damage) s)
      × (((apply_damage damage s).0 ≡ true) ↔ (health (apply_damage damage s).1 ≡ 0))
apply_damage_lem damage s = (
  apply_damage_left damage s,
  rw (apply_damage_left damage s)
      (rw (health-with_health (health s - damage) s) (reports damage s)),
)
