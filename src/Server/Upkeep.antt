-- ===== src/Server/Upkeep.antt =====
-- What holds of the game after a handler, whatever the network accepts.
use battleship_plus.Base.{nat_eq, nat_pair_eq, ◌≡◌, refl, inl, inr}
use battleship_plus.Base.{
  Bool, true, false, Option, none, some, List, [], ◌∷◌, if◌then◌else◌, Bool-cases,
}
use battleship_plus.Rstar.{Geometry}
use battleship_plus.Types.{Result, ok, err, panic, Result-cases}
use battleship_plus.ShipTree.{Index}
use battleship_plus.Game.{Game, GameResult, pending, draw, win}
use battleship_plus.Orders.{
  ActionExecutionError, validation, out_of_state, inconsistent_state, bad_request,
}
use battleship_plus.Server.Messages.{PlayerLobbyState, ClientId, Outbound, MessageHandlerError}
use battleship_plus.Server
use battleship_plus.Server.{
  Channels, World, Handler, Delivery, ◌>>=◌, ◌>>◌, pure, fails, crashes, read_game, write_game,
  send_message, send_broadcast, broadcast_message, disconnect_client, disconnect_all_clients,
  finish_game, attempt, for_each,
}
use battleship_plus.Server.Lobby.{
  announce, build_team_states, broadcast_lobby_change_event, action_validation_error_reply,
}
use battleship_plus.Server.Views.{broadcast_game_result}

module _ ⦃g : Geometry⦄ ⦃index : Index⦄ (P : Game → Type 0) where
  -- A handler after which a property of the game holds that held before.
  pub data Keeps {A : Type 0} (h : Handler A) : Type 0 where
    keeping : ((w : World) → P w.game → P (h w).1.game) → Keeps h

  pub keeps : {A : Type 0} {h : Handler A} → Keeps h → (w : World) → P w.game → P (h w).1.game
  keeps (keeping k) = k

module _ ⦃g : Geometry⦄ ⦃index : Index⦄ {P : Game → Type 0} where
  pub bind-Keeps :
      {A B : Type 0} {m : Handler A} {f : A → Handler B}
      → Keeps P m
      → ((a : A) → Keeps P (f a))
      → Keeps P (m >>= f)
  unfolding ◌>>=◌
  bind-Keeps {m = m} {f = f} km kf = keeping (λ w p. elim (Result-cases (m w).0) [
    | inl (a, e) ↦ rw (e, ◌>>=◌) (keeps P (kf a) (m w).1 (keeps P km w p))
    | inr (inl (x, e)) ↦ rw (e, ◌>>=◌) (keeps P km w p)
    | inr (inr e) ↦ rw (e, ◌>>=◌) (keeps P km w p)
  ])

  pub then-Keeps :
      {B : Type 0} {m : Handler (Unit {0})} {k : Handler B}
      → Keeps P m
      → Keeps P k
      → Keeps P (m >> k)
  then-Keeps km kk = bind-Keeps km (λ _. kk)

  pub read-Keeps :
      {B : Type 0} {f : Game → Handler B}
      → ((game : Game) → P game → Keeps P (f game))
      → Keeps P (read_game >>= f)
  unfolding ◌>>=◌ read_game
  read-Keeps each = keeping (λ w p. keeps P (each w.game p) w p)

  -- The game that is read is the one there is.
  pub read_here-Keeps :
      {B : Type 0} (f : Game → Handler B)
      → ((w : World) → P w.game → P (f w.game w).1.game)
      → Keeps P (read_game >>= f)
  unfolding ◌>>=◌ read_game
  read_here-Keeps f each = keeping each

  pub write-Keeps : (game : Game) → P game → Keeps P (write_game game)
  unfolding write_game
  write-Keeps game p = keeping (λ w q. p)

  pub pure-Keeps : {A : Type 0} (a : A) → Keeps P (pure a)
  unfolding pure
  pure-Keeps a = keeping (λ w p. p)

  pub fails-Keeps : {A : Type 0} (e : MessageHandlerError) → Keeps P (fails {A = A} e)
  unfolding fails
  fails-Keeps e = keeping (λ w p. p)

  pub crashes-Keeps : {A : Type 0} → Keeps P (crashes {A = A})
  unfolding crashes
  crashes-Keeps = keeping (λ w p. p)

  pub attempt-Keeps : {h : Handler (Unit {0})} → Keeps P h → Keeps P (attempt h)
  unfolding attempt
  attempt-Keeps {h = h} k = keeping (λ w p. elim (Result-cases (h w).0) [
    | inl (a, e) ↦ rw (e, attempt) (keeps P k w p)
    | inr (inl (x, e)) ↦ rw (e, attempt) (keeps P k w p)
    | inr (inr e) ↦ rw (e, attempt) (keeps P k w p)
  ])

  pub for_each-Keeps :
      {A : Type 0} {f : A → Handler (Unit {0})} (l : List A)
      → ((a : A) → Keeps P (f a))
      → Keeps P (for_each l f)
  unfolding for_each
  for_each-Keeps [] k = keeping (λ w p. p)
  for_each-Keeps {f = f} (a ∷ rest) k = keeping (λ w p. elim (Result-cases (f a w).0) [
    | inl (u, e) ↦
        rw (e, for_each) (keeps P (for_each-Keeps {f = f} rest k) (f a w).1 (keeps P (k a) w p))
    | inr (inl (x, e)) ↦ rw (e, for_each) (keeps P (k a) w p)
    | inr (inr e) ↦ rw (e, for_each) (keeps P (k a) w p)
  ])

  pub finish_game-Keeps : Keeps P finish_game
  unfolding finish_game
  finish_game-Keeps = keeping (λ w p. p)

  pub option-Keeps :
      {A B : Type 0} {h : Handler B} {k : A → Handler B} (o : Option A)
      → Keeps P h
      → ((a : A) → Keeps P (k a))
      → Keeps P (elim o as (λ _. Handler B) [ none ↦ h | some a ↦ k a ])
  option-Keeps none kh kk = kh
  option-Keeps (some a) kh kk = kk a

  -- The same, where the value is known.
  pub option_with-Keeps :
      {A B : Type 0} {h : Handler B} {k : A → Handler B} (o : Option A)
      → Keeps P h
      → ((a : A) → o ≡ some a → Keeps P (k a))
      → Keeps P (elim o as (λ _. Handler B) [ none ↦ h | some a ↦ k a ])
  option_with-Keeps none kh kk = kh
  option_with-Keeps (some a) kh kk = kk a refl

  pub result-Keeps :
      {A B E : Type 0} {h : Handler B} {l : E → Handler B} {k : A → Handler B} (r : Result E A)
      → Keeps P h
      → ((e : E) → Keeps P (l e))
      → ((a : A) → Keeps P (k a))
      → Keeps P (elim r as (λ _. Handler B) [ panic ↦ h | err e ↦ l e | ok a ↦ k a ])
  result-Keeps panic kh kl kk = kh
  result-Keeps (err e) kh kl kk = kl e
  result-Keeps (ok a) kh kl kk = kk a

  pub if-Keeps :
      {A : Type 0} {h k : Handler A} (b : Bool)
      → Keeps P h
      → Keeps P k
      → Keeps P (if b then h else k)
  if-Keeps true kh kk = kh
  if-Keeps false kh kk = kk

module _ ⦃g : Geometry⦄ ⦃index : Index⦄ ⦃channels : Channels⦄ {P : Game → Type 0} where
  deliver-Keeps : (e : MessageHandlerError) (d : Delivery) → Keeps P (Server.deliver e d)
  unfolding Server.deliver
  deliver-Keeps e d =
      keeping
        (λ w p. elim (Bool-cases (channels.accepts w.sent d)) [ inl a ↦ rw a p | inr a ↦ rw a p ])

  pub send_message-Keeps : (c : ClientId) (m : Outbound) → Keeps P (send_message c m)
  unfolding send_message
  send_message-Keeps c m = deliver-Keeps _ _

  pub send_broadcast-Keeps : (cs : List ClientId) (m : Outbound) → Keeps P (send_broadcast cs m)
  unfolding send_broadcast
  send_broadcast-Keeps cs m = deliver-Keeps _ _

  pub broadcast_message-Keeps : (m : Outbound) → Keeps P (broadcast_message m)
  unfolding broadcast_message
  broadcast_message-Keeps m = deliver-Keeps _ _

  pub disconnect_client-Keeps : (c : ClientId) → Keeps P (disconnect_client c)
  unfolding disconnect_client
  disconnect_client-Keeps c = deliver-Keeps _ _

  pub disconnect_all_clients-Keeps : Keeps P disconnect_all_clients
  unfolding disconnect_all_clients
  disconnect_all_clients-Keeps = deliver-Keeps _ _

  news : (game : Game) (a b : Option (List PlayerLobbyState)) → Keeps P (announce game a b)
  unfolding announce
  news game none b = crashes-Keeps
  news game (some a) none = crashes-Keeps
  news game (some a) (some b) = send_broadcast-Keeps _ _

  pub broadcast_lobby_change_event-Keeps :
      (game : Game) → Keeps P (broadcast_lobby_change_event game)
  unfolding broadcast_lobby_change_event
  broadcast_lobby_change_event-Keeps game =
      news game (build_team_states game.team_a game.players)
        (build_team_states game.team_b game.players)

  pub action_validation_error_reply-Keeps :
      (c : ClientId) (e : ActionExecutionError) → Keeps P (action_validation_error_reply c e)
  unfolding action_validation_error_reply
  action_validation_error_reply-Keeps c (validation e) = send_message-Keeps _ _
  action_validation_error_reply-Keeps c (out_of_state s) =
      then-Keeps (send_message-Keeps _ _) (disconnect_client-Keeps c)
  action_validation_error_reply-Keeps c inconsistent_state =
      then-Keeps (attempt-Keeps (broadcast_message-Keeps _))
        (then-Keeps finish_game-Keeps (fails-Keeps _))
  action_validation_error_reply-Keeps c bad_request =
      then-Keeps (send_message-Keeps _ _) (disconnect_client-Keeps c)

  pub broadcast_game_result-Keeps :
      (r : GameResult) (l : List ClientId) → Keeps P (broadcast_game_result r l)
  unfolding broadcast_game_result
  broadcast_game_result-Keeps pending l = pure-Keeps _
  broadcast_game_result-Keeps draw l = then-Keeps (send_broadcast-Keeps _ _) finish_game-Keeps
  broadcast_game_result-Keeps (win t) l = then-Keeps (send_broadcast-Keeps _ _) finish_game-Keeps
