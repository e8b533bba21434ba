-- ===== src/Game/ServerSingleton/Clients.antt =====
-- The event loop and the broadcast, with the game's callbacks.
use kge.Prelude.{
  ℕ, ◌≡◌, refl, sym, ap, ◌∙◌, Bool, true, Option, none, some, List, [], Outcome, done, out_of_range,
}
use kge.Prelude.Sets.{contains, All-contains}
use kge.Network.ServerBase.{Server, Event, new_server, fresh_server, update, global_send}
use kge.Network.ServerBase.Sessions.{Sessions, AllLegal, owner, session}
use kge.Network.ServerBase.Invariant.{
  CallbackLaws, Keeps, finished, interrupted, SameClients, Served, Tracks, update-Served, has_value,
}
use kge.Network.ServerBase.Broadcast.{Reaches, global_send-Reaches}
use kge.Game.HandShake.{HandShake}
use kge.Game.HandShake
use kge.Game.ServerSingleton.{
  Members, new_members, get_port, on_client_connected, on_client_disconnected, callbacks,
}
use kge.Game.ServerSingleton.Receive.{
  on_receive_packet-Response, Response, too_short, ignored, answered, send-wire,
}

Response-Keeps :
    (old : HandShake) (s : Server Members) (sender peer : ℕ) (bytes : List ℕ)
    (o : Outcome (Server Members))
    → Response old s sender peer bytes o
    → Keeps s o
Response-Keeps old s sender peer bytes o (too_short _ e) =
    interrupted out_of_range _ e
      (record { running = refl; connected = refl; peers = refl; clients = refl })
Response-Keeps old s sender peer bytes o (ignored _ _ _ _ _ e) =
    finished _ e (record { running = refl; connected = refl; peers = refl; clients = refl })
Response-Keeps old s sender peer bytes o (answered _ _ _ _ _ _ _ _ e) =
    finished _ e (record { running = refl; connected = refl; peers = refl; clients = refl })

abbrev same : (s : Server Members) → SameClients s s
same s = record { running = refl; connected = refl; peers = refl; clients = refl }

-- The game's callbacks keep the contract of the event loop.
pub callbacks-CallbackLaws : (old : HandShake) → CallbackLaws (callbacks old)
unfolding on_client_connected on_client_disconnected
callbacks-CallbackLaws old = record {
  connected_law = λ s c p known. (s, rw (known, on_client_connected, get_port), same s);
  disconnected_law = λ s c p known. (s, rw (known, on_client_disconnected, get_port), same s);
  receive_law = λ s c p bytes known small.
      Response-Keeps old s c p bytes _ (on_receive_packet-Response old s c p bytes known small);
}

module _ (listen_address : List ℕ) (listen_port host : ℕ) where
  abbrev pub started : Server Members
  started = fresh_server listen_address listen_port (some host) new_members

  pub started-Tracks : Tracks [] started
  unfolding fresh_server contains owner
  started-Tracks = record {
    apart = tt;
    ordered = tt;
    counted = refl;
    members = λ c. refl;
    allocated = λ c. refl;
    pointed = λ p c h. unfold session in cc h;
  }

  -- A server that ENet could make a host for starts, and then serves whatever events come, under ENet's
  -- contract, without a fault, which is an access out of bounds, of an unwritten byte, through NULL or
  -- through a pointer to a deleted client, whatever bytes the packets hold: all events, or those up to
  -- an exception, after which its set of clients is that of the open connections.
  pub server_run :
      (old : HandShake) (events : List Event)
      → AllLegal [] events
      → (new_server listen_address listen_port (some host) new_members ≡ done started)
        × Served [] events (update (callbacks old) started events)
  unfolding new_server
  server_run old events legal = (
    refl,
    update-Served (callbacks old) (callbacks-CallbackLaws old) [] started events
        (unfold fresh_server in refl) started-Tracks legal,
  )

-- While the books are right, `globalSend` of a hand shake sends one packet to each client that is
-- connected, in the order of the set, and touches no deleted one.
pub global_send-HandShake :
    (r : Sessions) (s : Server Members) (h : HandShake) (is_reliable : Bool)
    → Tracks r s
    → Reaches s s.connected_clients (global_send (HandShake.pack_data h) is_reliable s)
global_send-HandShake r s h is_reliable v =
    global_send-Reaches (HandShake.pack_data h) is_reliable
      (λ peer id. (_, _, _, send-wire peer h is_reliable id, refl)) s
      (All-contains _ s.connected_clients
        λ c e. owned (s.client_peer c) (ap has_value (v.allocated c) ∙ sym (v.members c) ∙ e))
  where
    owned : (o : Option ℕ) → has_value o ≡ true → (peer : ℕ) × (o ≡ some peer)
    owned none h = cc
    owned (some peer) h = (peer, refl)
