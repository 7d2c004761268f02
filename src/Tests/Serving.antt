-- ===== src/Tests/Serving.antt =====
-- The server at work, on a network that accepts everything.
use battleship_plus.Base.{nat_eq, nat_pair_eq, ℕ, ◌≡◌, refl, arith, none, [], ◌∷◌, true}
use battleship_plus.Base.Int.{pos}
use battleship_plus.Base.Collections.{get, contains}
use battleship_plus.Rstar.Model.{boxes}
use battleship_plus.Types.{err}
use battleship_plus.Game.{Game, lobby}
use battleship_plus.Orders
use battleship_plus.Server.{Channels, World}
use battleship_plus.Server.Messages
use battleship_plus.Server.Messages.{Inbound}
use battleship_plus.Server.Lobby.{handle_disconnect}
use battleship_plus.Server.Dispatch.{Surroundings, handle_message}
use battleship_plus.Server.Roster.{Roster}
use battleship_plus.Server.Replies.{Newcomer, handle_disconnect-Roster, handle_message-Roster}
use battleship_plus.Game.{new_game}
use battleship_plus.Server.Lobby.{build_team_states, start_preparation}
use battleship_plus.Server.Dispatch.{handle_payload}
use battleship_plus.Server.Rejoin.{handle_message-rejoin}
use battleship_plus.Server.Runs.{Reached, opened, answered, Reached-told}
use battleship_plus.Server.Deals.{start_preparation_lem}
use battleship_plus.Server.Guards.{handle_message-bystander}
use battleship_plus.Base.{◌≢◌, some}
use battleship_plus.Types.{panic}
use battleship_plus.Tests.Fixture.{index}
use battleship_plus.Tests.Matches.{battle, seat, rules, first_of, rules_pass}
use battleship_plus.Tests.Orders.{protocol, entries}

instance abbrev open_network : Channels
open_network = record { accepts = λ sent d. true }

abbrev around : Surroundings
around = record {
  protocol = protocol;
  direction_to_i32 = λ d. pos 0;
  in_order = λ l. l;
  ships_in_order = λ m. entries m m;
  choose = first_of;
  coin = true;
  dealt = λ l. l;
}

abbrev waiting_room : Game
waiting_room = record battle { state = lobby; turn = none }

waiting_room-Roster : Roster waiting_room
waiting_room-Roster p = (ground arith, ground arith)

abbrev scene : World
scene = record { game = waiting_room; sent = [] }

abbrev request : Inbound
request = Messages.join_request (7 ∷ [])

four_is_new : Newcomer 4 request waiting_room
unfolding get
four_is_new name h = refl

handle_message-Roster_example : Roster (handle_message around rules 4 request scene).1.game
handle_message-Roster_example =
    handle_message-Roster around rules 4 request scene four_is_new waiting_room-Roster

handle_disconnect-Roster_example : Roster (handle_disconnect 2 scene).1.game
handle_disconnect-Roster_example = handle_disconnect-Roster 2 scene waiting_room-Roster

abbrev alone : Game
alone = record waiting_room { players = (1, seat 1) ∷ []; team_a = 1 ∷ []; team_b = [] }

one_there : contains 1 alone.team_a ≡ true
unfolding contains
one_there = refl

abbrev alone_there : World
alone_there = record { game = alone; sent = [] }

abbrev again : World
again = (handle_message around rules 1 (Messages.join_request (7 ∷ [])) alone_there).1

first_known : get 1 alone.players ≡ some (seat 1)
unfolding get
first_known = refl

handle_message-rejoin_example :
    (contains 1 again.game.team_a ≡ true)
    × (contains 1 again.game.team_b ≡ true)
    × ((handle_message around rules 1 Messages.team_switch_request again).0
        ≡ err (Messages.protocol Orders.inconsistent_state))
handle_message-rejoin_example =
    handle_message-rejoin (λ sent d. refl) around rules 1 (7 ∷ []) alone_there (seat 1) refl
      first_known one_there (omega arith) (omega arith)

abbrev start : World
start = record { game = new_game rules; sent = [] }

start_reached : Reached around rules start
start_reached = opened

abbrev first_joined : World
first_joined = (handle_payload around rules 4 (some request) start).1

start_is_new : Newcomer 4 request start.game
unfolding get new_game
start_is_new name h = refl

Reached-told_example :
    Roster first_joined.game
    × (build_team_states first_joined.game.team_a first_joined.game.players ≢ none)
    × (build_team_states first_joined.game.team_b first_joined.game.players ≢ none)
Reached-told_example =
    Reached-told around rules first_joined (answered 4 request start_is_new start_reached)

start_preparation_lem_example : (start_preparation (λ l. l) scene).0 ≢ panic
start_preparation_lem_example =
    start_preparation_lem (λ l. l) scene (λ qs. refl) rules_pass (omega arith) waiting_room-Roster

abbrev fight : World
fight = record { game = battle; sent = [] }

turn_of_two : let two : ℕ = 2 in two ≢ 3
turn_of_two h = omega (arith, h)

handle_message-bystander_example :
    (handle_message around rules 3
      (Messages.action_request (record { ship_number = 0; action_properties = none }))
      fight).1.game
    ≡ battle
handle_message-bystander_example =
    handle_message-bystander around rules 3
      (Messages.action_request (record { ship_number = 0; action_properties = none })) fight
      (record { player_id = 2; action_points_left = 5; temp_vision = [] }) refl refl turn_of_two
