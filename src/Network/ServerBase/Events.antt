-- ===== src/Network/ServerBase/Events.antt =====
-- One event of a server that runs.
use kge.Prelude.{
  ℕ, ◌+◌, ◌≡◌, refl, sym, ◌∙◌, true, false, some, List, [], ◌∷◌, Outcome, done, raised, undefined,
}
use kge.Prelude.Sets.{set_insert}
use kge.Support.BitStream.Received.{received}
use kge.Network.ServerBase.{
  Server, Callbacks, Event, connect, receive, update_at, update, handle, handle_all, on_connect,
  on_receive, destroy_packet,
}

-- The server that a client is about to join.
abbrev pub joining : {G : Type 0} → Server G → ℕ → ℕ → Server G
joining s peer client = record s {
  client_peer = update_at s.client_peer client (some peer);
  peer_data = update_at s.peer_data peer (some client);
  connected_clients = set_insert client s.connected_clients;
}

module _ {G : Type 0} (on : Callbacks G) (s t : Server G) (running : s.is_running ≡ true) where
  update_one : (e : Event) → handle on s e ≡ done t → update on s (e ∷ []) ≡ done t
  unfolding update handle_all
  update_one e h = simp (update, running) (rw (handle_all, h))

  pub update-connect :
      (peer client : ℕ)
      → on.on_client_connected (joining s peer client) client ≡ done t
      → update on s (connect peer client ∷ []) ≡ done t
  unfolding handle on_connect
  update-connect peer client h = update_one (connect peer client) h

module _ {G : Type 0} (on : Callbacks G) (s t : Server G) (running : s.is_running ≡ true) where
  pub update-receive :
      (peer sender : ℕ) (bytes : List ℕ)
      → s.peer_data peer ≡ some sender
      → on.on_receive_packet s (received bytes) sender ≡ done t
      → update on s (receive peer bytes ∷ [])
        ≡ done (record t { destroyed_packets = t.destroyed_packets + 1 })
  unfolding handle on_receive destroy_packet
  update-receive peer sender bytes known h =
      update_one on s _ running (receive peer bytes) (rw (on_receive, known, h))

-- An event that returns, before others.
module _ {G : Type 0} (on : Callbacks G) where
  handle_all-one : (s : Server G) (e : Event) → handle_all on s (e ∷ []) ≡ handle on s e
  unfolding handle_all
  handle_all-one s e = go (handle on s e)
    where
      go :
          (o : Outcome (Server G))
          → (elim o [ done t ↦ done t | raised x t ↦ raised x t | undefined ↦ undefined ]) ≡ o
      go (done t) = refl
      go (raised x t) = refl
      go undefined = refl

  pub update_nothing : (s : Server G) → s.is_running ≡ true → update on s [] ≡ done s
  unfolding update handle_all
  update_nothing s running = simp (update, running) refl

  pub update_then :
      (s t : Server G) (e : Event) (es : List Event)
      → s.is_running ≡ true
      → t.is_running ≡ true
      → update on s (e ∷ []) ≡ done t
      → update on s (e ∷ es) ≡ update on t es
  unfolding update handle_all
  update_then s t e es runs still h =
      let one : handle on s e ≡ done t = sym (simp (update, runs) (handle_all-one s e)) ∙ h in
      simp (update, runs, still) (rw (handle_all, one) refl)

-- A server that was stopped takes no event.
pub update-stopped :
    {G : Type 0} (on : Callbacks G) (s : Server G) (events : List Event)
    → s.is_running ≡ false
    → update on s events ≡ done s
unfolding update
update-stopped on s events off = simp (update, off) refl
