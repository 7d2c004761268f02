-- ===== src/Lib.antt =====
-- Battleship Plus: a verification of the game logic of the crates battleship_plus_common and
-- battleship_plus_server.
--
-- The program is a multiplayer game on a board of tiles. Each player has ships, which stand in a
-- `ShipManager`: a map from ids to ships together with an R-tree of their envelopes. In its turn a
-- player spends action points on moves, rotations, shots and special abilities. The server keeps a
-- `Game` (the players, two teams, the ships, the phase, and whose turn it is) and runs the actions
-- on it; the client uses the same ship manager.
--
-- Files, and the code that they are about:
--
-- - Base and its children: lists, options and tests, `i32` and `u32` with wrap-around (Base/Words),
--   hash maps and sets as lists in a fixed order (Base/Collections).
-- - Rstar: `AABB` and `RTree` of the crate rstar, as the records Geometry and SpatialIndex with the
--   documented behaviour as laws. All theorems are about any instance; Rstar/Model is one, by lists.
-- - Types: the messages of the protocol that the game reads, whose code is generated from a
--   submodule, the errors (crates/battleship_plus_common/src/game/mod.rs), and results.
-- - Ship, Ship/Fields, Ship/Damage, Ship/Steering, Ship/Steps, Ship/Tiles, Ship/Range:
--   crates/battleship_plus_common/src/game/ship.rs. A method with `&mut self` returns the new ship.
-- - ShipTree: the entries of the R-tree, `ShipTreeNode` and `envelope_to_points` of
--   crates/battleship_plus_common/src/game/ship_manager.rs.
-- - ShipManager (Sync, Placement, Collision): the map and the tree, `place_ship`, `destroy_ships`,
--   `destroy_colliding_ships_in_envelope` and `mutate_ship_by_id` of the same file.
-- - Actions (Agreement, Shots): `attack_with_ship`, `move_ship` and `rotate_ship`.
-- - Abilities (Strikes, Wrecks, Missile): `torpedo`, `predator_missile`, `scout_plane`, `multi_missile` and
--   `engine_boost`. The closure that `engine_boost` is given is an argument of the model.
-- - Board (Rows, Cells, Corners): the module `util` of crates/battleship_plus_common/src/lib.rs and
--   the quadrants of crates/battleship_plus_server/src/game/data.rs.
-- - Game (Rounds, Placements, Outcome): `Game` of the same file.
-- - Results (Shares, Reports, Sums), Movement (Clearance, Steered, Safety): what actions report, and moves
--   and rotations in a game, crates/battleship_plus_server/src/game/actions.rs.
-- - Orders, Turns, Play (Fleet, Boost, Bursts, Sparing, Frame): `Action` with `apply_on` of the same
--   file, and `execute_action` of crates/battleship_plus_server/src/game/states.rs. Turns has the actions
--   of a player whose turn it is, Play the others and the dispatch.
-- - Codec (Stream, Reading, Progress, RoundTrip): `BattleshipPlusCodec` of
--   crates/battleship_plus_common/src/lib.rs. The messages and their encoding, prost, are a record with
--   its documented behaviour as laws.
-- - Server (Messages, Lobby, Views, Dispatch; Roster, Upkeep, Teams, Handlers, Replies, Rejoin, Runs,
--   Deals, Guards for proofs): `handle_message`, the functions that it calls and the end of a connection,
--   crates/battleship_plus_server/src/server.rs. A handler takes the game and the list of what has been
--   sent, and returns them; whether the network accepts a delivery is a parameter, so that every early
--   return is in the model.
-- - Tests: a small fleet on the list model of the tree, and each theorem at work on it.
--
-- How state and errors are modelled: an action takes the manager and the action points and returns
-- them with a `Result`; `err` is an error value of the source, and `panic` a failed `unwrap`, an
-- `unreachable!` or a division by zero, in which case the state is the one reached so far. Where
-- only a panic can happen, a function returns an `Option`. Arithmetic on `i32` and `u32` wraps.
-- There is no fuel: all loops run over lists or numbers. Only the loop that calls the decoder of the
-- codec, which is not code of the repository, is a relation (Codec/Reading), with a theorem that it
-- ends.
--
-- A fleet is in order (InSync) if each ship stands under its own id and the tree holds the node of
-- each ship once and no other; it is without overlaps (Apart) if ships under different ids have
-- envelopes that do not meet.
--
-- The players of a game are in order (Roster) if each stands once among the players and in exactly one
-- team, and nobody else is in a team.
--
-- Not modelled: the tasks of the server that accept connections and lock the game, the answer to a
-- message of another version, the client's user interface, the transport library bevy_quinnet, the
-- code generated by macros and build scripts, texts of errors, and logging. Random choices, the order
-- in which a hash map is read during a placement, and the numbers of the protocol's enumerations are
-- parameters.
pub mod Base
pub mod Rstar
pub mod Types
pub mod Ship
pub mod ShipTree
pub mod ShipManager
pub mod Actions
pub mod Abilities
pub mod Board
pub mod Game
pub mod Results
pub mod Movement
pub mod Orders
pub mod Turns
pub mod Play
pub mod Codec
pub mod Server
pub mod Tests
