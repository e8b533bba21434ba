-- ===== src/Engine/Meeting.antt =====
-- The engine of a client and that of a dedicated server (apps/engine/source/engine/CoreSingleton.cpp) on two ends
-- of one connection, frame by frame: ENet hands over any number of what has arrived at each frame.
pub mod Stages
pub mod Greeting
use kge.Prelude.{
  ℕ, ◌+◌, Option, none, some, List, [], ◌∷◌, map, length, take, drop, Outcome, done, raised,
  undefined,
}
use kge.Network.IncomingClientBase.{Sent}
use kge.Network.ServerBase.{Event, connect, receive}
use kge.Network.OutgoingClientBase.{ClientEvent}
use kge.Network.OutgoingClientBase
use kge.Game.HandShake.{HandShake}
use kge.Game.Session.{Ends, carried}
use kge.Engine.Core.{Core, frame}

-- Both engines, and how many events ENet has handed to either, which is right as long as no frame reports an
-- exception.
pub record Meeting : Type 0 where
  pub client_core : Core
  pub server_core : Core
  pub to_server : ℕ
  pub to_client : ℕ

-- A frame of one of them: the time of day at both ends of it, and how many events it takes at most.
pub data Turn : Type 0 where
  client_turn server_turn : (started_at stopped_at at_most : ℕ) → Turn

abbrev and_then : Option (List ℕ) → List (List ℕ) → List (List ℕ)
and_then none packets = packets
and_then (some bytes) packets = bytes ∷ packets

-- The bytes of the packets that were handed to ENet for a peer, in order.
unfoldable pub arrived : ℕ → List Sent → List (List ℕ)
arrived peer [] = []
arrived peer (sent ∷ more) = and_then (carried peer (some sent)) (arrived peer more)

abbrev sent_by_client : Core → List Sent
sent_by_client k = elim k.client [ none ↦ [] | some c ↦ c.outbox ]

abbrev sent_by_server : Core → List Sent
sent_by_server k = elim k.server [ none ↦ [] | some s ↦ s.outbox ]

-- The packets that were sent before the connection came up are `client_sent` and `server_sent` in number.
module _ (old : HandShake) (ends : Ends) (client_sent server_sent : ℕ) where
  -- What ENet has for the server: first of all the connection.
  abbrev pub for_server : Core → List Event
  for_server k =
      connect ends.client_peer ends.address
      ∷ map (receive ends.client_peer)
          (arrived ends.server_peer (drop client_sent (sent_by_client k)))

  abbrev pub for_client : Core → List ClientEvent
  for_client k =
      map OutgoingClientBase.receive
        (arrived ends.client_peer (drop server_sent (sent_by_server k)))

  abbrev pub client_took : Meeting → ℕ → Outcome Core → Outcome Meeting
  client_took w n (done k) = done (record w { client_core = k; to_client = w.to_client + n })
  client_took w n (raised e k) =
      raised e (record w { client_core = k; to_client = w.to_client + n })
  client_took w n undefined = undefined

  abbrev pub server_took : Meeting → ℕ → Outcome Core → Outcome Meeting
  server_took w n (done k) = done (record w { server_core = k; to_server = w.to_server + n })
  server_took w n (raised e k) =
      raised e (record w { server_core = k; to_server = w.to_server + n })
  server_took w n undefined = undefined

  -- A frame with what ENet hands over.
  abbrev pub client_frame : Meeting → ℕ → ℕ → List ClientEvent → Outcome Meeting
  client_frame w started_at stopped_at events = client_took w (length events) (
      frame old w.client_core (record {
        started_at = started_at;
        stopped_at = stopped_at;
        client_events = events;
        server_events = [];
      }))

  abbrev pub server_frame : Meeting → ℕ → ℕ → List Event → Outcome Meeting
  server_frame w started_at stopped_at events = server_took w (length events) (
      frame old w.server_core (record {
        started_at = started_at;
        stopped_at = stopped_at;
        client_events = [];
        server_events = events;
      }))

  unfoldable pub perform : Meeting → Turn → Outcome Meeting
  perform w (client_turn started_at stopped_at at_most) =
      client_frame w started_at stopped_at
        (take at_most (drop w.to_client (for_client w.server_core)))
  perform w (server_turn started_at stopped_at at_most) =
      server_frame w started_at stopped_at
        (take at_most (drop w.to_server (for_server w.client_core)))

  -- Nothing follows what leaves the loop.
  unfoldable pub run : Meeting → List Turn → Outcome Meeting
  run w [] = done w
  run w (t ∷ turns) = elim (perform w t) [
    | done v ↦ run v turns
    | raised e v ↦ raised e v
    | undefined ↦ undefined
  ]
