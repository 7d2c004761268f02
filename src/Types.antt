-- ===== src/Types.antt =====
-- The messages of the protocol that the game logic reads, and the errors of the game. The message
-- types are generated from the protocol files of a submodule; their fields are those that
-- crates/battleship_plus_server/src/config_provider.rs fills in.
use battleship_plus.Base.{◌≡◌, refl, ◌⊎◌, inl, inr, ℕ, Option, none, some, List, Bool, true, false}
use battleship_plus.Base.Int.{ℤ}

pub record Costs : Type 0 where
  pub cooldown : ℕ
  pub action_points : ℕ

pub record CommonBalancing : Type 0 where
  pub shoot_costs : Option Costs
  pub shoot_range : ℕ
  pub shoot_damage : ℕ
  pub movement_costs : Option Costs
  pub rotation_costs : Option Costs
  pub ability_costs : Option Costs
  pub vision_range : ℕ
  pub initial_health : ℕ

pub record CarrierBalancing : Type 0 where
  pub common_balancing : Option CommonBalancing
  pub scout_plane_range : ℕ
  pub scout_plane_radius : ℕ

pub record BattleshipBalancing : Type 0 where
  pub common_balancing : Option CommonBalancing
  pub predator_missile_range : ℕ
  pub predator_missile_radius : ℕ
  pub predator_missile_damage : ℕ

pub record CruiserBalancing : Type 0 where
  pub common_balancing : Option CommonBalancing
  pub engine_boost_distance : ℕ

pub record SubmarineBalancing : Type 0 where
  pub common_balancing : Option CommonBalancing
  pub torpedo_range : ℕ
  pub torpedo_damage : ℕ

pub record DestroyerBalancing : Type 0 where
  pub common_balancing : Option CommonBalancing
  pub multi_missile_radius : ℕ
  pub multi_missile_damage : ℕ

pub record Config : Type 0 where
  pub carrier_balancing : Option CarrierBalancing
  pub battleship_balancing : Option BattleshipBalancing
  pub cruiser_balancing : Option CruiserBalancing
  pub submarine_balancing : Option SubmarineBalancing
  pub destroyer_balancing : Option DestroyerBalancing
  pub ship_set_team_a : List ℤ
  pub ship_set_team_b : List ℤ
  pub board_size : ℕ
  pub action_point_gain : ℕ
  pub team_size_a : ℕ
  pub team_size_b : ℕ

pub data ShipType : Type 0 where
  carrier battleship cruiser submarine destroyer : ShipType

-- `Direction` of the protocol.
pub data Direction : Type 0 where
  north east south west : Direction

pub data MoveDirection : Type 0 where
  forward backward : MoveDirection

pub data RotateDirection : Type 0 where
  clockwise counter_clockwise : RotateDirection

-- `x` and `y` of a `Coordinate`.
abbrev pub Coordinate : Type 0
Coordinate = ℕ × ℕ

abbrev pub PlayerId : Type 0
PlayerId = ℕ

-- A player and the number of a ship of theirs.
abbrev pub ShipId : Type 0
ShipId = PlayerId × ℕ

pub data ShipPlacementError : Type 0 where
  collision id_already_placed invalid_ship_number invalid_ship_set : ShipPlacementError
  invalid_ship_type invalid_ship_direction invalid_ship_position : ShipPlacementError
  player_not_in_game ship_out_of_quadrant player_has_already_placed_ships : ShipPlacementError

pub data ActionValidationError : Type 0 where
  non_existent_player : PlayerId → ActionValidationError
  non_existent_ship : ShipId → ActionValidationError
  on_cooldown : ℕ → ActionValidationError
  insufficient_points : ℕ → ActionValidationError
  unreachable : ActionValidationError
  out_of_map : ActionValidationError
  invalid_ship_placement : ShipPlacementError → ActionValidationError
  invalid_ship_type : ActionValidationError
  not_players_turn : ActionValidationError
  ignored : ActionValidationError

-- `Result<A, E>`; `panic` stands for a failed `unwrap` or a division by zero.
pub data Result (E A : Type 0) : Type 0 where
  ok : A → Result E A
  err : E → Result E A
  panic : Result E A

-- The result of a call that changes a state of type `S`, with the state that it leaves.
abbrev pub Outcome : Type 0 → Type 0 → Type 0
Outcome S A = Result ActionValidationError A × S

infixl 5 ◌>>=◌ ◌>>◌
abbrev pub ◌>>=◌ : {E A B : Type 0} → Result E A → (A → Result E B) → Result E B
ok a >>= f = f a
err e >>= f = err e
panic >>= f = panic

abbrev pub ◌>>◌ : {E B : Type 0} → Result E (Unit {0}) → Result E B → Result E B
m >> k = m >>= λ _. k

abbrev pub unwrap : {E A : Type 0} → Option A → Result E A
unwrap none = panic
unwrap (some a) = ok a

-- An early return with an error.
abbrev pub ensure : {E : Type 0} → Bool → E → Result E (Unit {0})
ensure true e = ok tt
ensure false e = err e

abbrev pub is_ok : {E A : Type 0} → Result E A → Bool
is_ok (ok a) = true
is_ok (err e) = false
is_ok panic = false

pub Result-cases :
    {E A : Type 0} (r : Result E A) → ((a : A) × (r ≡ ok a)) ⊎ ((e : E) × (r ≡ err e)) ⊎ (r ≡ panic)
Result-cases (ok a) = inl (a, refl)
Result-cases (err e) = inr (inl (e, refl))
Result-cases panic = inr (inr refl)
