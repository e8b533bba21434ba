-- ===== src/Network/ServerBase/Invariant.antt =====
-- The server's books agree with ENet's connections, whatever events come.
use kge.Prelude.{
  ℕ, suc, ◌<◌, ◌≡◌, refl, sym, ap, ◌∙◌, Bool, true, false, Option, none, some, List, [], ◌∷◌, arith,
  length, take, Outcome, done, raised, Exception,
}
use kge.Prelude.Sets.{
  contains, set_insert, set_erase, IsOrdered, contains-set_insert, contains-set_erase,
  length-set_insert, length-set_erase, IsOrdered-set_insert, IsOrdered-set_erase,
}
use kge.Support.BitStream.{u32_mod}
use kge.Support.BitStream.Received.{received}
use kge.Network.ServerBase.{
  Server, Callbacks, update_at, Event, nothing, connect, disconnect, receive, handle, handle_all,
  update, on_connect, on_disconnect, on_receive, destroy_packet,
}
use kge.Network.ServerBase.Sessions.{
  Sessions, session, owner, close, IsApart, IsLegal, after, after_all, AllLegal, owner-session,
  owner-close, session-close, length-close, IsApart-close,
}

abbrev pub has_value : Option ℕ → Bool
has_value none = false
has_value (some a) = true

-- What a callback leaves alone.
pub record SameClients {G : Type 0} (s t : Server G) : Type 0 where
  pub running : t.is_running ≡ s.is_running
  pub connected : t.connected_clients ≡ s.connected_clients
  pub peers : t.peer_data ≡ s.peer_data
  pub clients : t.client_peer ≡ s.client_peer

-- A callback that ended, normally or by an exception, and left the clients alone.
pub data Keeps {G : Type 0} (s : Server G) (r : Outcome (Server G)) : Type 0 where
  finished : (t : Server G) → r ≡ done t → SameClients s t → Keeps s r
  interrupted : (e : Exception) (t : Server G) → r ≡ raised e t → SameClients s t → Keeps s r

-- What the loop needs of the callbacks: given a client that is not deleted they leave the clients
-- alone, and the first two end normally.
pub record CallbackLaws {G : Type 0} (on : Callbacks G) : Type 0 where
  pub connected_law :
      (s : Server G) (c p : ℕ)
      → s.client_peer c ≡ some p
      → (t : Server G) × (on.on_client_connected s c ≡ done t) × SameClients s t
  pub disconnected_law :
      (s : Server G) (c p : ℕ)
      → s.client_peer c ≡ some p
      → (t : Server G) × (on.on_client_disconnected s c ≡ done t) × SameClients s t
  pub receive_law :
      (s : Server G) (c p : ℕ) (bytes : List ℕ)
      → s.client_peer c ≡ some p
      → length bytes < u32_mod
      → Keeps s (on.on_receive_packet s (received bytes) c)

-- The books: the set of clients is the set of those that ENet has connections for, each of them
-- exists, and each connected peer points to its own.
pub record Tracks {G : Type 0} (r : Sessions) (s : Server G) : Type 0 where
  pub apart : IsApart r
  pub ordered : IsOrdered s.connected_clients
  pub counted : length s.connected_clients ≡ length r
  pub members : (c : ℕ) → contains c s.connected_clients ≡ has_value (owner c r)
  pub allocated : (c : ℕ) → s.client_peer c ≡ owner c r
  pub pointed : (p c : ℕ) → session p r ≡ some c → s.peer_data p ≡ some c

Tracks-same :
    {G : Type 0} (r : Sessions) (s t : Server G) → SameClients s t → Tracks r s → Tracks r t
Tracks-same r s t same v = record {
  apart = v.apart;
  ordered = rw same.connected v.ordered;
  counted = rw same.connected v.counted;
  members = λ c. rw same.connected (v.members c);
  allocated = λ c. rw same.clients (v.allocated c);
  pointed = λ p c h. rw same.peers (v.pointed p c h);
}

-- One event, handled or ended by an exception; either way the books are right.
data Handled {G : Type 0} (r : Sessions) (e : Event) (o : Outcome (Server G)) : Type 0 where
  handled : (t : Server G) → o ≡ done t → Tracks (after r e) t → Handled r e o
  failed : (x : Exception) (t : Server G) → o ≡ raised x t → Tracks (after r e) t → Handled r e o

-- The loop after some of the events: all of them, or those up to an exception.
pub data Served {G : Type 0} (r : Sessions) (events : List Event) (o : Outcome (Server G))
    : Type 0 where
  all_handled : (t : Server G) → o ≡ done t → Tracks (after_all r events) t → Served r events o
  stopped :
      (e : Exception) (t : Server G) (n : ℕ)
      → o ≡ raised e t
      → Tracks (after_all r (take n events)) t
      → Served r events o

-- The state that `on_client_connected` is called with.
joined : {G : Type 0} → Server G → ℕ → ℕ → Server G
joined s p c = record s {
  client_peer = update_at s.client_peer c (some p);
  peer_data = update_at s.peer_data p (some c);
  connected_clients = set_insert c s.connected_clients;
}

joined-Tracks :
    {G : Type 0} (r : Sessions) (s : Server G) (p c : ℕ)
    → Tracks r s
    → session p r ≡ none
    → owner c r ≡ none
    → Tracks ((p, c) ∷ r) (joined s p c)
unfolding joined session owner
joined-Tracks r s p c v free unused = record {
  apart = (free, unused, v.apart);
  ordered = IsOrdered-set_insert c s.connected_clients v.ordered;
  counted =
      length-set_insert c s.connected_clients (v.members c ∙ ap has_value unused)
      ∙ ap suc v.counted;
  members = λ d. contains-set_insert d c s.connected_clients ∙ ground (arith, v.members d);
  allocated = λ d. ground (arith, v.allocated d);
  pointed = λ q d h. ground (arith, v.pointed q d);
}

-- The state that a disconnection of the client `c` leaves behind its callback.
left : {G : Type 0} → Server G → ℕ → Server G
left s c = record s {
  connected_clients = set_erase c s.connected_clients;
  client_peer = update_at s.client_peer c none;
}

left-Tracks :
    {G : Type 0} (r : Sessions) (s : Server G) (p c : ℕ)
    → Tracks r s
    → session p r ≡ some c
    → Tracks (close p r) (left s c)
unfolding left
left-Tracks r s p c v on_line =
    let owned = owner-session p c r v.apart on_line in
    let size : suc (length (set_erase c s.connected_clients)) ≡ suc (length (close p r)) =
      length-set_erase c s.connected_clients (v.members c ∙ ap has_value owned)
      ∙ v.counted
      ∙ sym (length-close p c r on_line) in
    record {
      apart = IsApart-close p r v.apart;
      ordered = IsOrdered-set_erase c s.connected_clients v.ordered;
      counted = omega (arith, size);
      members = λ d.
          contains-set_erase d c s.connected_clients v.ordered
          ∙ ground (arith, v.members d, owner-close p c d r v.apart on_line);
      allocated = λ d. ground (arith, v.allocated d, owner-close p c d r v.apart on_line);
      pointed = λ q d h. ground (arith, v.pointed q d, session-close p q r v.apart);
    }

module _ {G : Type 0} (on : Callbacks G) (laws : CallbackLaws on) where
  handle-connect :
      (r : Sessions) (s : Server G) (p c : ℕ)
      → Tracks r s
      → IsLegal r (connect p c)
      → Handled r (connect p c) (handle on s (connect p c))
  unfolding handle on_connect joined
  handle-connect r s p c v (free, unused) =
      let (t, e, same) = laws.connected_law (joined s p c) c p (ground arith) in
      handled t e (Tracks-same _ _ t same (joined-Tracks r s p c v free unused))

  handle-disconnect :
      (r : Sessions) (s : Server G) (p : ℕ)
      → Tracks r s
      → IsLegal r (disconnect p)
      → Handled r (disconnect p) (handle on s (disconnect p))
  unfolding handle on_disconnect left
  handle-disconnect r s p v (c, on_line) =
      let owned = owner-session p c r v.apart on_line in
      let (t, e, same) = laws.disconnected_law s c p (v.allocated c ∙ owned) in
      handled (left t c)
        (rw (v.pointed p c on_line, e, handle, on_disconnect, v.pointed p c on_line))
        (left-Tracks r t p c (Tracks-same r s t same v) on_line)

  handle-receive :
      (r : Sessions) (s : Server G) (p : ℕ) (bytes : List ℕ)
      → Tracks r s
      → IsLegal r (receive p bytes)
      → Handled r (receive p bytes) (handle on s (receive p bytes))
  unfolding handle on_receive destroy_packet
  handle-receive r s p bytes v (c, on_line, small) =
      let owned = owner-session p c r v.apart on_line in
      elim (laws.receive_law s c p bytes (v.allocated c ∙ owned) small) [
        | finished t e same ↦
            handled (destroy_packet t) (rw (v.pointed p c on_line, e, handle, on_receive)) (
              Tracks-same r s (destroy_packet t)
                (record {
                  running = same.running;
                  connected = same.connected;
                  peers = same.peers;
                  clients = same.clients;
                })
                v)
        | interrupted x t e same ↦
            failed x t (rw (v.pointed p c on_line, e, handle, on_receive))
              (Tracks-same r s t same v)
      ]

  handle-Served :
      (r : Sessions) (s : Server G) (e : Event)
      → Tracks r s
      → IsLegal r e
      → Handled r e (handle on s e)
  handle-Served r s nothing v l = handled s (unfold handle in refl) v
  handle-Served r s (connect p c) v l = handle-connect r s p c v l
  handle-Served r s (disconnect p) v l = handle-disconnect r s p v l
  handle-Served r s (receive p bytes) v l = handle-receive r s p bytes v l

  handle_all-Served :
      (r : Sessions) (s : Server G) (events : List Event)
      → Tracks r s
      → AllLegal r events
      → Served r events (handle_all on s events)
  unfolding handle_all
  handle_all-Served r s [] v l = all_handled s refl v
  handle_all-Served r s (e ∷ es) v (l, ls) = elim (handle-Served r s e v l) [
    | failed x t h w ↦ stopped x t 1 (rw (h, handle_all)) w
    | handled t h w ↦ elim (handle_all-Served (after r e) t es w ls) [
      | all_handled u k z ↦ all_handled u (rw (h, handle_all) k) z
      | stopped x u n k z ↦ stopped x u (suc n) (rw (h, handle_all) k) z
    ]
  ]

  -- Whatever events ENet delivers under its contract, and whatever the packets hold, the loop of
  -- `update` ends without a fault: it handles all events, or an exception of a
  -- packet's handler leaves it after some of them. Either way the set of clients is the
  -- set of the open connections, has as many elements, and no pointer to a deleted client is left in it.
  pub update-Served :
      (r : Sessions) (s : Server G) (events : List Event)
      → s.is_running ≡ true
      → Tracks r s
      → AllLegal r events
      → Served r events (update on s events)
  unfolding update
  update-Served r s events running v l = rw (running, update) (handle_all-Served r s events v l)
