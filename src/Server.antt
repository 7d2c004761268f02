-- ===== src/Server.antt =====
-- crates/battleship_plus_server/src/server.rs: the messages that the server handles. A handler takes the
-- game and the messages sent so far; what the network takes is a parameter.
pub mod Messages
pub mod Lobby
pub mod Views
pub mod Dispatch
pub mod Roster
pub mod Upkeep
pub mod Teams
pub mod Handlers
pub mod Replies
pub mod Rejoin
pub mod Runs
pub mod Deals
pub mod Guards
use battleship_plus.Base.{
  nat_eq, nat_pair_eq, ℕ, Bool, true, false, Option, none, some, List, [], ◌∷◌, ◌++◌, if◌then◌else◌,
}
use battleship_plus.Rstar.{Geometry}
use battleship_plus.Types.{Result, ok, err, panic}
use battleship_plus.ShipTree.{Index}
use battleship_plus.Game.{Game}
use battleship_plus.Server.Messages.{ClientId, Outbound, MessageHandlerError, network, broadcast}

-- What the server has done towards the clients, the last first.
pub data Delivery : Type 0 where
  -- `send_message` to one client
  to_client : ClientId → Outbound → Delivery
  -- `send` on the channel of broadcasts
  to_clients : List ClientId → Outbound → Delivery
  -- `broadcast_message` to all clients of the endpoint
  to_all : Outbound → Delivery
  disconnect : ClientId → Delivery
  disconnect_all : Delivery
  -- `game_end_tx.send`
  end_game : Delivery

-- Whether the network accepts a delivery after others. The end of the game has a listener as long
-- as the server runs.
pub record Channels : Type 0 where
  pub accepts : List Delivery → Delivery → Bool

module _ ⦃g : Geometry⦄ ⦃index : Index⦄ where
  pub record World : Type 0 where
    pub game : Game
    pub sent : List Delivery

  abbrev pub Handler : Type 0 → Type 0
  Handler A = World → Result MessageHandlerError A × World

  infixl 5 ◌>>=◌ ◌>>◌
  unfoldable pub ◌>>=◌ : {A B : Type 0} → Handler A → (A → Handler B) → Handler B
  ◌>>=◌ m f w =
      let r = m w in elim r.0 [ ok a ↦ f a r.1 | err e ↦ (err e, r.1) | panic ↦ (panic, r.1) ]

  abbrev pub ◌>>◌ : {B : Type 0} → Handler (Unit {0}) → Handler B → Handler B
  m >> k = m >>= λ _. k

  unfoldable pub pure : {A : Type 0} → A → Handler A
  pure a w = (ok a, w)

  unfoldable pub fails : {A : Type 0} → MessageHandlerError → Handler A
  fails e w = (err e, w)

  unfoldable pub crashes : {A : Type 0} → Handler A
  crashes w = (panic, w)

  unfoldable pub read_game : Handler Game
  read_game w = (ok w.game, w)

  unfoldable pub write_game : Game → Handler (Unit {0})
  write_game game w = (ok tt, record w { game = game })

  unfoldable pub finish_game : Handler (Unit {0})
  finish_game w = (ok tt, record w { sent = end_game ∷ w.sent })

  -- A delivery whose failure is only logged.
  unfoldable pub attempt : Handler (Unit {0}) → Handler (Unit {0})
  attempt h w = let r = h w in elim r.0 [ panic ↦ (panic, r.1) | _ ↦ (ok tt, r.1) ]

  -- Runs a handler on each element.
  unfoldable pub for_each : {A : Type 0} → List A → (A → Handler (Unit {0})) → Handler (Unit {0})
  for_each [] f w = (ok tt, w)
  for_each (a ∷ rest) f w =
      let r = f a w in
      let later = for_each rest f r.1 in
      elim r.0 [ ok _ ↦ later | err e ↦ (err e, r.1) | panic ↦ (panic, r.1) ]

module _ ⦃g : Geometry⦄ ⦃index : Index⦄ ⦃channels : Channels⦄ where
  -- A delivery that ends the handler with an error when it is not accepted.
  unfoldable pub deliver : MessageHandlerError → Delivery → Handler (Unit {0})
  deliver e d w =
      if channels.accepts w.sent d then (ok tt, record w { sent = d ∷ w.sent }) else (err e, w)

  unfoldable pub send_message : ClientId → Outbound → Handler (Unit {0})
  unfolding deliver
  send_message client msg = deliver network (to_client client msg)

  unfoldable pub send_broadcast : List ClientId → Outbound → Handler (Unit {0})
  unfolding deliver
  send_broadcast clients msg = deliver broadcast (to_clients clients msg)

  unfoldable pub broadcast_message : Outbound → Handler (Unit {0})
  unfolding deliver
  broadcast_message msg = deliver network (to_all msg)

  unfoldable pub disconnect_client : ClientId → Handler (Unit {0})
  unfolding deliver
  disconnect_client client = deliver network (disconnect client)

  unfoldable pub disconnect_all_clients : Handler (Unit {0})
  unfolding deliver
  disconnect_all_clients = deliver network disconnect_all
