-- ===== src/Network/ServerBase.antt =====
-- apps/engine/include/network/ServerBase.hpp and source/network/ServerBase.cpp: the clients of a
-- server and its event loop. Clients and peers are addresses. `enet_host_service` is the list of
-- events that it yields before it has none; `new IncomingClientBase` is an address in the event.
pub mod Sessions
pub mod Invariant
pub mod Broadcast
pub mod Events
use kge.Prelude.{
  ℕ, ◌+◌, ◌==◌, Bool, true, false, Option, none, some, List, [], ◌∷◌, ◌++◌, if◌then◌else◌, length,
  Outcome, done, raised, undefined, Result, ok, throws, fault, runtime_error,
}
use kge.Prelude.Sets.{set_insert, set_erase}
use kge.Support.BitStream.{BitStream}
use kge.Support.BitStream.Received.{received}
use kge.Network.IncomingClientBase.{Sent, send}

-- A server with the memory that it works on; `game` is what a subclass adds.
pub record Server (G : Type 0) : Type 0 where
  pub is_running : Bool
  pub internal_host : Option ℕ
  pub listen_port : ℕ
  pub listen_address : List ℕ
  pub connected_clients : List ℕ
  -- `peer->data`, and `mInternalClient` of the clients that are not deleted.
  pub peer_data : ℕ → Option ℕ
  pub client_peer : ℕ → Option ℕ
  -- The static `sLastPacketID`.
  pub last_packet_id : ℕ
  pub outbox : List Sent
  -- How many received packets were given back by `enet_packet_destroy`.
  pub destroyed_packets : ℕ
  pub game : G

pub data Event : Type 0 where
  nothing : Event
  connect : ℕ → ℕ → Event
  disconnect : ℕ → Event
  receive : ℕ → List ℕ → Event

-- The virtual functions that `update` calls.
pub record Callbacks (G : Type 0) : Type 0 where
  pub on_client_connected : Server G → ℕ → Outcome (Server G)
  pub on_client_disconnected : Server G → ℕ → Outcome (Server G)
  pub on_receive_packet : Server G → BitStream → ℕ → Outcome (Server G)

abbrev pub update_at : (ℕ → Option ℕ) → ℕ → Option ℕ → ℕ → Option ℕ
update_at f k v j = if k == j then v else f j

-- A NULL client is handed on, like any other address.
abbrev address : Option ℕ → ℕ
address none = 0
address (some c) = c

module _ {G : Type 0} where
  unfoldable pub fresh_server : List ℕ → ℕ → Option ℕ → G → Server G
  fresh_server listen_address listen_port host game = record {
    is_running = true;
    internal_host = host;
    listen_port = listen_port;
    listen_address = listen_address;
    connected_clients = [];
    peer_data = λ p. none;
    client_peer = λ c. none;
    last_packet_id = 0;
    outbox = [];
    destroyed_packets = 0;
    game = game;
  }

  -- The constructor, for what `enet_host_create` returned; it throws where that is NULL.
  unfoldable pub new_server : List ℕ → ℕ → Option ℕ → G → Outcome (Server G)
  new_server listen_address listen_port none game =
      raised runtime_error
        (record (fresh_server listen_address listen_port none game) { is_running = false })
  new_server listen_address listen_port (some host) game =
      done (fresh_server listen_address listen_port (some host) game)

  -- `~ServerBase`, less the MapDivision that it destroys.
  unfoldable pub close : Server G → Server G
  close s = record s { internal_host = none; is_running = false }

  pub stop : Server G → Server G
  stop s = record s { is_running = false }

  pub client_count : Server G → ℕ
  client_count s = length s.connected_clients

  -- `getLastPacketSender`, which a subclass hides and does not override.
  unfoldable pub last_packet_sender : Server G → Option ℕ
  last_packet_sender s = none

  -- One round of `globalSend`: a deleted recipient is a fault.
  send_to :
      {P : Type 0}
      → (ℕ → BitStream → Result (BitStream × P × ℕ))
      → Bool
      → Server G
      → ℕ
      → Outcome (Server G)
  send_to pack is_reliable s client = elim (s.client_peer client) [
    | none ↦ undefined
    | some peer ↦ elim (send peer pack is_reliable s.last_packet_id) [
      | ok (sent, _, next_id) ↦
          done (record s { outbox = s.outbox ++ sent ∷ []; last_packet_id = next_id })
      | throws e ↦ raised e s
      | fault ↦ undefined
    ]
  ]

  send_all :
      {P : Type 0}
      → (ℕ → BitStream → Result (BitStream × P × ℕ))
      → Bool
      → List ℕ
      → Server G
      → Outcome (Server G)
  unfolding send_to
  send_all pack is_reliable [] s = done s
  send_all pack is_reliable (c ∷ cs) s = elim (send_to pack is_reliable s c) [
    | done t ↦ send_all pack is_reliable cs t
    | raised e t ↦ raised e t
    | undefined ↦ undefined
  ]

  -- `globalSend(packet, reliable)`
  pub global_send :
      {P : Type 0}
      → (ℕ → BitStream → Result (BitStream × P × ℕ))
      → Bool
      → Server G
      → Outcome (Server G)
  unfolding send_all
  global_send pack is_reliable s = send_all pack is_reliable s.connected_clients s

  -- `enet_packet_destroy`
  destroy_packet : Server G → Server G
  destroy_packet s = record s { destroyed_packets = s.destroyed_packets + 1 }

module _ {G : Type 0} (on : Callbacks G) where
  on_connect : Server G → ℕ → ℕ → Outcome (Server G)
  on_connect s peer client =
      on.on_client_connected
        (record s {
          client_peer = update_at s.client_peer client (some peer);
          peer_data = update_at s.peer_data peer (some client);
          connected_clients = set_insert client s.connected_clients;
        })
        client

  on_disconnect : Server G → ℕ → Outcome (Server G)
  on_disconnect s peer =
      let disconnected = address (s.peer_data peer) in
      elim (on.on_client_disconnected s disconnected) [
        | done t ↦ done (record t {
          connected_clients = set_erase disconnected t.connected_clients;
          client_peer = update_at t.client_peer disconnected none;
        })
        | raised e t ↦ raised e t
        | undefined ↦ undefined
      ]

  on_receive : Server G → ℕ → List ℕ → Outcome (Server G)
  unfolding destroy_packet
  on_receive s peer bytes = elim (s.peer_data peer) [
    | none ↦ raised runtime_error (destroy_packet s)
    | some sender ↦ elim (on.on_receive_packet s (received bytes) sender) [
      | done t ↦ done (destroy_packet t)
      | raised e t ↦ raised e t
      | undefined ↦ undefined
    ]
  ]

  unfoldable pub handle : Server G → Event → Outcome (Server G)
  unfolding on_connect on_disconnect on_receive
  handle s nothing = done s
  handle s (connect peer client) = on_connect s peer client
  handle s (disconnect peer) = on_disconnect s peer
  handle s (receive peer bytes) = on_receive s peer bytes

  handle_all : Server G → List Event → Outcome (Server G)
  handle_all s [] = done s
  handle_all s (e ∷ es) = elim (handle s e) [
    | done t ↦ handle_all t es
    | raised x t ↦ raised x t
    | undefined ↦ undefined
  ]

  -- `update()`; an exception leaves the loop, and the events behind it stay with ENet.
  pub update : Server G → List Event → Outcome (Server G)
  unfolding handle_all
  update s events = elim s.is_running [ true ↦ handle_all s events | false ↦ done s ]
