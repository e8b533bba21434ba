-- ===== src/Game/Session.antt =====
-- A client of apps/engine/source/game/OutgoingClientSingleton.cpp and the server of
-- source/game/ServerSingleton.cpp on two ends of one connection: every order of what ENet may report.
pub mod Stages
pub mod Orders
use kge.Prelude.{
  ℕ, suc, ◌==◌, Bool, true, false, Option, none, some, List, [], ◌∷◌, if◌then◌else◌, get_elem?,
  Outcome, done, raised, undefined, ok, throws, fault,
}
use kge.Memory.{values}
use kge.Network.IncomingClientBase.{Sent}
use kge.Network.ServerBase.{Server, receive}
use kge.Network.ServerBase
use kge.Network.OutgoingClientBase.{Client}
use kge.Network.OutgoingClientBase
use kge.Game.HandShake.{HandShake}
use kge.Game.ServerSingleton.{Members}
use kge.Game.ServerSingleton
use kge.Game.OutgoingClientSingleton.{ClientMembers}
use kge.Game.OutgoingClientSingleton

-- Both ends, whether either was told of the connection, and how many packets of each outbox arrived.
pub record Session : Type 0 where
  pub client : Client ClientMembers
  pub server : Server Members
  pub dialled : Bool
  pub admitted : Bool
  pub to_server : ℕ
  pub to_client : ℕ

-- `connect` of the client, the connect event of the server, and the next packet of either side.
pub data Action : Type 0 where
  dial admit serve answer : Action

abbrev with_client : Session → Outcome (Client ClientMembers) → Outcome Session
with_client w (done c) = done (record w { client = c })
with_client w (raised e c) = raised e (record w { client = c })
with_client w undefined = undefined

abbrev with_server : Session → Outcome (Server Members) → Outcome Session
with_server w (done s) = done (record w { server = s })
with_server w (raised e s) = raised e (record w { server = s })
with_server w undefined = undefined

-- The bytes of a packet that was handed to ENet for a peer.
unfoldable pub carried : ℕ → Option Sent → Option (List ℕ)
carried peer none = none
carried peer (some sent) =
    let bytes : Option (List ℕ) = elim (values sent.payload) [ ok bytes ↦ some bytes | _ ↦ none ] in
    if sent.peer == peer then bytes else none

-- The client reaches the server by `server_peer` of its `host`; the server reaches the client by
-- `client_peer`, and `address` is where it allocates its IncomingClientBase.
pub record Ends : Type 0 where
  pub host : ℕ
  pub server_peer : ℕ
  pub port : ℕ
  pub client_peer : ℕ
  pub address : ℕ

module _ (old : HandShake) (ends : Ends) where
  abbrev pub dial_up : Session → Outcome Session
  dial_up w =
      with_client (record w { dialled = true })
        (OutgoingClientBase.connect (OutgoingClientSingleton.callbacks old) w.client true
          (some ends.host) (some ends.server_peer) true ends.port)

  abbrev let_in : Session → Outcome Session
  let_in w =
      with_server (record w { admitted = true })
        (ServerBase.update (ServerSingleton.callbacks old) w.server
          (ServerBase.connect ends.client_peer ends.address ∷ []))

  abbrev to_the_server : Session → List ℕ → Outcome Session
  to_the_server w bytes =
      with_server (record w { to_server = suc w.to_server })
        (ServerBase.update (ServerSingleton.callbacks old) w.server
          (receive ends.client_peer bytes ∷ []))

  abbrev to_the_client : Session → List ℕ → Outcome Session
  to_the_client w bytes =
      with_client (record w { to_client = suc w.to_client })
        (OutgoingClientBase.update (OutgoingClientSingleton.callbacks old) w.client
          (OutgoingClientBase.receive bytes ∷ []))

  -- What comes of an action, if it can happen: ENet tells each end of the connection once, before it
  -- hands it a packet of the other, and delivers reliable packets in order.
  unfoldable pub perform : Session → Action → Option (Outcome Session)
  perform w dial = if w.dialled then none else some (dial_up w)
  perform w admit = if w.admitted then none else some (let_in w)
  perform w serve =
      let next = carried ends.server_peer (get_elem? w.client.outbox w.to_server) in
      let served : Option (Outcome Session) = elim next [
        | none ↦ none
        | some bytes ↦ some (to_the_server w bytes)
      ] in
      if w.admitted then served else none
  perform w answer =
      let next = carried ends.client_peer (get_elem? w.server.outbox w.to_client) in
      let answered : Option (Outcome Session) = elim next [
        | none ↦ none
        | some bytes ↦ some (to_the_client w bytes)
      ] in
      if w.dialled then answered else none

  -- A sequence of actions; nothing follows an exception or a fault.
  unfoldable pub run : Session → List Action → Option (Outcome Session)
  run w [] = some (done w)
  run w (a ∷ actions) = elim (perform w a) [
    | none ↦ none
    | some (done v) ↦ run v actions
    | some (raised e v) ↦ some (raised e v)
    | some undefined ↦ some undefined
  ]
