-- ===== src/Network/ServerBase/Broadcast.antt =====
-- `globalSend` reaches every client that is connected.
use kge.Prelude.{
  ℕ, ◌≡◌, refl, sym, ap, ◌∙◌, Bool, Option, some, List, [], ◌∷◌, ◌++◌, map, All, Outcome, done,
  Result, ok, append-nil, append_assoc,
}
use kge.Support.BitStream.{BitStream}
use kge.Network.IncomingClientBase.{Sent, send}
use kge.Network.ServerBase.{Server, global_send, send_all, send_to}

abbrev pub recipient : Sent → Option ℕ
recipient x = some x.peer

-- The clients that `peers` maps them to were sent one packet each, in this order, and nothing
-- else of the server but its packet id has changed.
pub record Reaches {G : Type 0} (s : Server G) (clients : List ℕ) (o : Outcome (Server G))
    : Type 0 where
  pub server : Server G
  pub returned : o ≡ done server
  pub packets : List Sent
  pub sent : server.outbox ≡ s.outbox ++ packets
  pub recipients : map recipient packets ≡ map s.client_peer clients
  pub same_clients : server.connected_clients ≡ s.connected_clients
  pub same_peers : server.client_peer ≡ s.client_peer

module _ {G P : Type 0} (pack : ℕ → BitStream → Result (BitStream × P × ℕ)) (is_reliable : Bool)
    (packs : (peer id : ℕ)
      → (x : Sent) × (p : P) × (next : ℕ) × (send peer pack is_reliable id ≡ ok (x, p, next))
        × (x.peer ≡ peer)) where
  send_to_lem :
      (s : Server G) (c peer : ℕ) (x : Sent) (p : P) (next : ℕ)
      → s.client_peer c ≡ some peer
      → send peer pack is_reliable s.last_packet_id ≡ ok (x, p, next)
      → send_to pack is_reliable s c
        ≡ done (record s { outbox = s.outbox ++ x ∷ []; last_packet_id = next })
  unfolding send_to
  send_to_lem s c peer x p next known sends = rw (known, send_to, sends)

  send_all_step :
      (s t : Server G) (c : ℕ) (cs : List ℕ)
      → send_to pack is_reliable s c ≡ done t
      → send_all pack is_reliable (c ∷ cs) s ≡ send_all pack is_reliable cs t
  unfolding send_all
  send_all_step s t c cs e = rw (e, send_all)

  send_all-Reaches :
      (clients : List ℕ) (s : Server G)
      → All (λ c. (peer : ℕ) × (s.client_peer c ≡ some peer)) clients
      → Reaches s clients (send_all pack is_reliable clients s)
  unfolding send_all
  send_all-Reaches [] s live = record {
    server = s;
    returned = refl;
    packets = [];
    sent = sym (append-nil s.outbox);
    recipients = refl;
    same_clients = refl;
    same_peers = refl;
  }
  send_all-Reaches (c ∷ cs) s ((peer, known), live) =
      let (x, p, next, sends, to) = packs peer s.last_packet_id in
      let t : Server G = record s { outbox = s.outbox ++ x ∷ []; last_packet_id = next } in
      let rest = send_all-Reaches cs t live in
      record {
        server = rest.server;
        returned =
            send_all_step s t c cs (send_to_lem s c peer x p next known sends) ∙ rest.returned;
        packets = x ∷ rest.packets;
        sent = rest.sent ∙ append_assoc s.outbox (x ∷ []) rest.packets;
        recipients =
            ap (λ o. o ∷ map recipient rest.packets) (ap some to ∙ sym known)
            ∙ ap (◌∷◌ (s.client_peer c)) rest.recipients;
        same_clients = rest.same_clients;
        same_peers = rest.same_peers;
      }

  pub global_send-Reaches :
      (s : Server G)
      → All (λ c. (peer : ℕ) × (s.client_peer c ≡ some peer)) s.connected_clients
      → Reaches s s.connected_clients (global_send pack is_reliable s)
  unfolding global_send
  global_send-Reaches s live = send_all-Reaches s.connected_clients s live
