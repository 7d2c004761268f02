-- ===== src/Ship/Fields.antt =====
-- Reading a part of a ship after a write through its `data` or its cooldowns.
use battleship_plus.Base.{◌≡◌, List, arith}
use battleship_plus.Ship.{Ship, ShipData, Cooldown}
use battleship_plus.Ship.{len, ship_data, set_data, cool_downs, set_cool_downs}
use battleship_plus.Ship.{ship_type, common_balancing}

module _ (s : Ship) (d : ShipData) where
  pub ship_data-set_data : ship_data (set_data s d) ≡ d
  unfolding ship_data set_data
  ship_data-set_data = ground arith

  pub cool_downs-set_data : cool_downs (set_data s d) ≡ cool_downs s
  unfolding cool_downs set_data
  cool_downs-set_data = ground arith

  pub ship_type-set_data : ship_type (set_data s d) ≡ ship_type s
  unfolding ship_type set_data
  ship_type-set_data = ground arith

  pub common_balancing-set_data : common_balancing (set_data s d) ≡ common_balancing s
  unfolding common_balancing set_data
  common_balancing-set_data = ground arith

  pub len-set_data : len (set_data s d) ≡ len s
  unfolding len set_data
  len-set_data = ground arith

  pub set_data-set_data : (e : ShipData) → set_data (set_data s d) e ≡ set_data s e
  unfolding set_data
  set_data-set_data e = ground arith

pub set_data-ship_data : (s : Ship) → set_data s (ship_data s) ≡ s
unfolding set_data ship_data
set_data-ship_data s = ground arith

module _ (s : Ship) (l : List Cooldown) where
  pub ship_data-set_cool_downs : ship_data (set_cool_downs s l) ≡ ship_data s
  unfolding ship_data set_cool_downs
  ship_data-set_cool_downs = ground arith

  pub cool_downs-set_cool_downs : cool_downs (set_cool_downs s l) ≡ l
  unfolding cool_downs set_cool_downs
  cool_downs-set_cool_downs = ground arith

  pub len-set_cool_downs : len (set_cool_downs s l) ≡ len s
  unfolding len set_cool_downs
  len-set_cool_downs = ground arith

pub ruleset field_laws = (
  ship_data-set_data, cool_downs-set_data, ship_type-set_data, common_balancing-set_data,
  len-set_data, set_data-set_data, set_data-ship_data, ship_data-set_cool_downs,
  cool_downs-set_cool_downs, len-set_cool_downs,
)
