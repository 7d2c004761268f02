-- ===== src/Tests/Matches.antt =====
-- A match of three players: movements, placements, turns and results.
use battleship_plus.Results.Reports.{collect_and_sum}
use battleship_plus.Results.Sums.{amount, total, amount-collect_and_sum}
use battleship_plus.Base.{
  nat_eq, nat_pair_eq, ℕ, ◌≡◌, ◌≢◌, ◌↔◌, refl, arith, none, some, Option, List, [], ◌∷◌, true, map,
  filter_map, if◌then◌else◌,
}
use battleship_plus.Base.Int.{ℤ, pos}
use battleship_plus.Base.Floats
use battleship_plus.Base.Floats.{sqrt, ceil, nearest_root, root, next_digit, unit_of}
use battleship_plus.Base.Words.{as_i32, to_i32, add_i32, sub_i32, add_u32, sub_u32}
use battleship_plus.Base.Collections
use battleship_plus.Base.Collections.{get, contains, HashMap}
use battleship_plus.Rstar.Model.{boxes, same_ℤ}
use battleship_plus.Types.{
  Config, ShipType, Direction, DestroyerBalancing, PlayerId, MoveDirection, RotateDirection, ok,
}
use battleship_plus.Board.{Quadrant, below, quadrant_from_corner}
use battleship_plus.Ship
use battleship_plus.Ship.{
  Ship, north, destroyer, movement, ability, cannon, rotate, cool_downs, envelope, ship_data, len,
  position, orientation, orientation_of, get_envelope, get_envelope_with_orientation, new_from_type,
}
use battleship_plus.ShipManager.{ShipManager, new, place_ship, get_by_id}
use battleship_plus.Game.{
  Game, Player, in_game, preparation, ShipAssignment, ship_set_of, assigned_ship, place_assignments,
  validate_placement_request, numbered, draw, win, pending, Teams, game_result, advance_turn,
}
use battleship_plus.Game.Rounds.{
  Advances, advance_turn-Advances, cool_downs-rest_for, rest_for, after_turns,
}
use battleship_plus.Game.Outcome.{Sunk, game_result_lem}
use battleship_plus.Game.Placements.{FineFleet, validate_placement_request_lem}
use battleship_plus.Movement.{general_movement, steer_move, steer_rotation}
use battleship_plus.Movement.Safety.{FleetSafe, general_movement_lem}
use battleship_plus.Base.{length, ◌*◌, ◌≤◌, ◌<◌}
use battleship_plus.Board.{quadrants_per_row}
use battleship_plus.Board.Rows.{quadrants_per_row_lem}
use battleship_plus.Results.{damage_splits, bump}
use battleship_plus.Results.Shares.{sum, damage_splits_lem}
use battleship_plus.Base.{◌∈◌, false}
use battleship_plus.Board.{
  quadrants, check_game_config, quadrant_size, player_count, tile_offset, board_bounds,
}
use battleship_plus.Base.Words.{mul_u32}
use battleship_plus.Board.Corners.{quadrants_lem}
use battleship_plus.Tests.Fixture.{index, common, fleet, fleet-Sound}

abbrev pub small_craft : DestroyerBalancing
small_craft = record {
  common_balancing = some common;
  multi_missile_radius = 1;
  multi_missile_damage = 5;
}

abbrev pub rules : Config
rules = record {
  carrier_balancing = none;
  battleship_balancing = none;
  cruiser_balancing = none;
  submarine_balancing = none;
  destroyer_balancing = some small_craft;
  ship_set_team_a = pos 4 ∷ [];
  ship_set_team_b = pos 4 ∷ [];
  board_size = 24;
  action_point_gain = 5;
  team_size_a = 1;
  team_size_b = 2;
}

abbrev pub seat : ℕ → Player
seat n = record { id = n; name = []; is_ready = true; quadrant = some (0, 0, 12) }

abbrev pub battle : Game
battle = record {
  config = rules;
  players = (1, seat 1) ∷ (2, seat 2) ∷ (3, seat 3) ∷ [];
  team_a = 1 ∷ [];
  team_b = 2 ∷ 3 ∷ [];
  ships = fleet;
  state = in_game;
  turn = some (record { player_id = 2; action_points_left = 5; temp_vision = [] });
}

general_movement_lem_example :
    ((d : MoveDirection) → FleetSafe battle (general_movement (2, 0) (steer_move d) battle))
    × ((d : RotateDirection) → FleetSafe battle (general_movement (2, 0) (steer_rotation d) battle))
general_movement_lem_example = general_movement_lem (2, 0) battle (fleet-Sound.0) (fleet-Sound.1)

game_result_lem_example :
    ((game_result battle ≡ draw) ↔ (Sunk (1 ∷ []) fleet × Sunk (2 ∷ 3 ∷ []) fleet))
    × ((game_result battle ≡ win Teams.team_a)
        ↔ ((¬ Sunk (1 ∷ []) fleet) × Sunk (2 ∷ 3 ∷ []) fleet))
    × ((game_result battle ≡ win Teams.team_b)
        ↔ (Sunk (1 ∷ []) fleet × (¬ Sunk (2 ∷ 3 ∷ []) fleet)))
    × ((game_result battle ≡ pending) ↔ ((¬ Sunk (1 ∷ []) fleet) × (¬ Sunk (2 ∷ 3 ∷ []) fleet)))
game_result_lem_example = game_result_lem battle

abbrev pub first_of : List PlayerId → Option PlayerId
first_of [] = none
first_of (p ∷ ps) = some p

first_of_picks : (ps : List PlayerId) (p : PlayerId) → first_of ps ≡ some p → contains p ps ≡ true
unfolding contains
first_of_picks [] p h = absurd (ground arith)
first_of_picks (q ∷ ps) p h = ground arith

first_of_offers : (ps : List PlayerId) → first_of ps ≡ none → ps ≡ []
first_of_offers [] h = refl
first_of_offers (q ∷ ps) h = absurd (ground arith)

manned : map (λ e. e.0) battle.players ≢ []
manned h = ground arith

advance_turn-Advances_example : Advances battle (advance_turn first_of battle)
advance_turn-Advances_example =
    advance_turn-Advances first_of first_of_picks first_of_offers battle manned (fleet-Sound.0)
      (fleet-Sound.1)

-- A destroyer with two cooldowns.
abbrev tired : Ship
tired =
    destroyer small_craft
      (record { id = (2, 0); pos_x = pos 8; pos_y = pos 8; orientation = north; health = 30 })
      (movement 1 ∷ ability 4 ∷ [])

cool_downs-rest_for_example :
    cool_downs (rest_for 2 tired) ≡ filter_map (after_turns 2) (cool_downs tired)
cool_downs-rest_for_example = cool_downs-rest_for 1 tired

abbrev pub type_of : ℤ → Option ShipType
type_of z = if same_ℤ z (pos 4) then some ShipType.destroyer else none

abbrev pub heading_of : ℤ → Option Direction
heading_of z = if same_ℤ z (pos 0) then some Direction.north else none

abbrev before_battle : Game
before_battle = record battle { ships = new; state = preparation }

abbrev wish : List ShipAssignment
wish = record { coordinate = some (2, 3); direction = pos 0 } ∷ []

wish_granted :
    validate_placement_request type_of heading_of (λ l. l) 1 wish before_battle
    ≡ ok (
        (
          (1, 0),
          destroyer small_craft
              (record {
                id = (1, 0);
                pos_x = pos 2;
                pos_y = pos 3;
                orientation = north;
                health = 100;
              })
              [],
        )
        ∷ [])
unfolding same_ℤ validate_placement_request place_assignments assigned_ship ship_set_of numbered
    below get_by_id get contains new place_ship Collections.insert quadrant_from_corner
    new_from_type orientation_of envelope ship_data len position orientation get_envelope
    get_envelope_with_orientation as_i32 to_i32 add_i32 sub_i32 add_u32 sub_u32 Ship.id
wish_granted = refl

validate_placement_request_lem_example :
    (ship_set : List ℤ) × (p : Player) × (q : Quadrant) × (m : ShipManager) × (ship_set_of 1
        before_battle
      ≡ ok ship_set)
    × (get 1 before_battle.players ≡ some p)
    × (p.quadrant ≡ some q)
    × (m.ships ≡ (
        (
          (1, 0),
          destroyer small_craft
              (record {
                id = (1, 0);
                pos_x = pos 2;
                pos_y = pos 3;
                orientation = north;
                health = 100;
              })
              [],
        )
        ∷ []))
    × FineFleet type_of heading_of 1 ship_set (quadrant_from_corner (q.0, q.1) q.2) m
validate_placement_request_lem_example =
    validate_placement_request_lem type_of heading_of (λ l. l) 1 wish before_battle _ wish_granted

abbrev shares : List ℕ
shares = 3 ∷ 2 ∷ 2 ∷ []

seven_split : damage_splits 7 3 ≡ some shares
unfolding damage_splits bump
seven_split = refl

damage_splits_lem_example : (length shares ≡ 3) × (sum shares ≡ 7)
damage_splits_lem_example = damage_splits_lem 7 2 shares seven_split

quadrants_per_row_lem_example :
    (5 ≤ quadrants_per_row 5 * quadrants_per_row 5)
    × ((k : ℕ) → k < quadrants_per_row 5 → k * k < 5)
quadrants_per_row_lem_example = quadrants_per_row_lem 5 (omega arith)

abbrev four : List Quadrant
four = (0, 0, 12) ∷ (0, 12, 12) ∷ (12, 0, 12) ∷ (12, 12, 12) ∷ []

pub rules_pass : check_game_config rules ≡ some true
unfolding check_game_config quadrant_size quadrants_per_row sqrt ceil Floats.to_u32 nearest_root
    root next_digit unit_of player_count add_u32
rules_pass = refl

rules-quadrants : quadrants rules ≡ some four
unfolding quadrants quadrant_size quadrants_per_row sqrt ceil Floats.to_u32 nearest_root root
    next_digit unit_of player_count tile_offset below add_u32 sub_u32 mul_u32
rules-quadrants = refl

quadrants_lem_example :
    ((q : Quadrant)
      → q ∈ four
      → boxes.contains_envelope (board_bounds rules) (quadrant_from_corner (q.0, q.1) q.2) ≡ true)
    × ((p q : Quadrant)
        → p ∈ four
        → q ∈ four
        → p ≢ q
        → boxes.intersects
            (quadrant_from_corner (p.0, p.1) p.2)
            (quadrant_from_corner (q.0, q.1) q.2)
          ≡ false)
quadrants_lem_example = quadrants_lem rules four (omega arith) rules_pass rules-quadrants

-- A missile with three hits, two of them on a ship.
abbrev hits : List ((ℕ × ℕ) × ℕ)
hits = ((1, 0), 3) ∷ ((2, 0), 5) ∷ ((1, 0), 4) ∷ []

amount-collect_and_sum_example : amount (1, 0) (collect_and_sum hits) ≡ total (1, 0) hits
amount-collect_and_sum_example = amount-collect_and_sum (1, 0) hits (omega arith)
