-- ===== src/Network/OutgoingClientBase.antt =====
-- apps/engine/include/network/OutgoingClientBase.hpp and source/network/OutgoingClientBase.cpp: the client's
-- end of a connection. What ENet answers is an argument, and its calls are kept in order. ENet reads
-- the host that it is given, so a NULL host is a fault.
pub mod Connection
pub mod Updates
use kge.Prelude.{
  ℕ, Bool, true, false, not, ◌||◌, Option, none, some, List, [], ◌∷◌, ◌++◌, if◌then◌else◌, Outcome,
  done, raised, undefined, Result, ok, throws, fault, ◌>>=◌,
}
use kge.Support.BitStream.{BitStream}
use kge.Support.BitStream.Received.{received}
use kge.Network.IncomingClientBase.{Sent, send}

pub data EnetCall : Type 0 where
  peer_reset : ℕ → EnetCall
  peer_disconnect : ℕ → EnetCall
  host_destroy : ℕ → EnetCall
  host_flush : ℕ → EnetCall
  packet_destroy : EnetCall

-- The client with what a subclass adds in `game`.
pub record Client (G : Type 0) : Type 0 where
  pub is_connected : Bool
  pub port : ℕ
  pub current_stage : ℕ
  pub internal_peer : Option ℕ
  pub internal_host : Option ℕ
  pub last_packet_id : ℕ
  pub outbox : List Sent
  pub calls : List EnetCall
  pub game : G

pub data ClientEvent : Type 0 where
  nothing connected disconnected : ClientEvent
  receive : List ℕ → ClientEvent

-- The virtual functions.
pub record ClientCallbacks (G : Type 0) : Type 0 where
  pub on_connected : Client G → Outcome (Client G)
  pub on_disconnected : Client G → Outcome (Client G)
  pub on_connect_failed : Client G → Outcome (Client G)
  pub on_receive_packet : Client G → BitStream → Outcome (Client G)

abbrev pub is_set : Option ℕ → Bool
is_set none = false
is_set (some a) = true

module _ {G : Type 0} where
  -- The constructor.
  unfoldable pub new_client : ℕ → G → Client G
  new_client last_packet_id game = record {
    is_connected = false;
    port = 0;
    current_stage = 0;
    internal_peer = none;
    internal_host = none;
    last_packet_id = last_packet_id;
    outbox = [];
    calls = [];
    game = game;
  }

  abbrev pub call : Client G → EnetCall → Client G
  call c e = record c { calls = c.calls ++ e ∷ [] }

  abbrev call_peer : Client G → Option ℕ → (ℕ → EnetCall) → Client G
  call_peer c none f = c
  call_peer c (some p) f = call c (f p)

  -- `~OutgoingClientBase`
  unfoldable pub close : Client G → Client G
  close c =
      let d = call_peer c c.internal_peer peer_reset in
      let e = call_peer d d.internal_host host_destroy in
      record e { internal_peer = none; internal_host = none }

  -- `send(packet, reliable)`; without a peer it stops at an assertion.
  unfoldable pub send_packet :
      {P : Type 0}
      → Client G
      → (ℕ → BitStream → Result (BitStream × P × ℕ))
      → Bool
      → Outcome (Client G)
  send_packet c pack is_reliable = elim c.internal_peer [
    | none ↦ undefined
    | some peer ↦ elim (send peer pack is_reliable c.last_packet_id) [
      | ok (sent, _, next_id) ↦
          done (record c { outbox = c.outbox ++ sent ∷ []; last_packet_id = next_id })
      | throws e ↦ raised e c
      | fault ↦ undefined
    ]
  ]

  unfoldable pub dispatch : Client G → Client G
  dispatch c = call_peer c c.internal_host host_flush

module _ {G : Type 0} (on : ClientCallbacks G) where
  reset_peer : Client G → Option ℕ → Outcome (Client G)
  reset_peer c none = undefined
  reset_peer c (some p) = done (call c (peer_reset p))

  -- What ENet answers while `connect` runs: the host, the peer, and whether the connection came up
  -- within the time. `valid_address` is whether the regular expression takes the address.
  connect_to : Client G → Option ℕ → Option ℕ → Bool → ℕ → Outcome (Client G)
  unfolding reset_peer
  connect_to c none peer came_up target_port = undefined
  connect_to c (some host) peer true target_port =
      elim (on.on_connected
        (record c { internal_host = some host; internal_peer = peer; current_stage = 0 })) [
          | done d ↦ done (record d { is_connected = true; port = target_port })
          | raised e d ↦ raised e d
          | undefined ↦ undefined
        ]
  connect_to c (some host) peer false target_port =
      elim (on.on_connect_failed (record c { internal_host = some host; internal_peer = peer })) [
        | done d ↦ reset_peer d d.internal_peer
        | raised e d ↦ raised e d
        | undefined ↦ undefined
      ]

  unfoldable pub connect : Client G → Bool → Option ℕ → Option ℕ → Bool → ℕ → Outcome (Client G)
  unfolding connect_to
  connect c valid_address host peer came_up target_port =
      if is_set c.internal_peer || is_set c.internal_host
      then done c
      else if not valid_address
      then done c
      else connect_to c host peer came_up target_port

  -- The loop of `disconnect`; after the host is destroyed the next round reads a NULL host.
  disconnect_loop : Client G → List ClientEvent → Outcome (Client G)
  disconnect_loop c [] = elim c.internal_host [ none ↦ undefined | some h ↦ done c ]
  disconnect_loop c (e ∷ es) = elim c.internal_host [
    | none ↦ undefined
    | some h ↦ elim e [
      | disconnected ↦
          disconnect_loop (record (call c (host_destroy h)) { internal_host = none }) es
      | receive bytes ↦ disconnect_loop (call c packet_destroy) es
      | _ ↦ disconnect_loop c es
    ]
  ]

  -- `disconnect(wait)`, which first of all forgets that it is connected.
  unfoldable pub disconnect : Client G → List ClientEvent → Outcome (Client G)
  unfolding disconnect_loop
  disconnect c0 events =
      let c = record c0 { is_connected = false } in
      if not (is_set c.internal_host) || not c.is_connected then done c else (elim c.internal_peer [
        | none ↦ undefined
        | some p ↦ elim (disconnect_loop (call c (peer_disconnect p)) events) [
          | done d ↦ on.on_disconnected d
          | raised e d ↦ raised e d
          | undefined ↦ undefined
        ]
      ])

  unfoldable pub handle_event : Client G → ClientEvent → Outcome (Client G)
  handle_event c disconnected = on.on_disconnected c
  handle_event c (receive bytes) = on.on_receive_packet c (received bytes)
  handle_event c _ = done c

  update_loop : Client G → List ClientEvent → Outcome (Client G)
  update_loop c [] = done c
  update_loop c (e ∷ es) = elim (handle_event c e) [
    | done d ↦ update_loop d es
    | raised x d ↦ raised x d
    | undefined ↦ undefined
  ]

  -- `update()`
  unfoldable pub update : Client G → List ClientEvent → Outcome (Client G)
  unfolding update_loop
  update c events = elim c.internal_host [ none ↦ undefined | some h ↦ update_loop c events ]
