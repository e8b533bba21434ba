-- ===== src/Network/OutgoingClientBase/Connection.antt =====
-- What `connect` and `disconnect` leave behind.
use kge.Prelude.{
  ℕ, ◌≡◌, refl, Bool, true, false, ◌||◌, Option, none, some, List, [], ◌∷◌, arith, inl, inr, ◌⊎◌,
  done, undefined, Bool-cases,
}
use kge.Support.BitStream.Received.{received}
use kge.Network.OutgoingClientBase.{
  Client, ClientCallbacks, ClientEvent, peer_reset, call, connect, connect_to, reset_peer,
  disconnect, is_set, update, update_loop, handle_event, receive,
}

-- The client after a failed attempt.
abbrev pub failed : {G : Type 0} → Client G → ℕ → ℕ → Client G
failed c h p = call (record c { internal_host = some h; internal_peer = some p }) (peer_reset p)

module _ {G : Type 0} (on : ClientCallbacks G) where
  -- `disconnect` only forgets that it is connected: whatever the state and whatever ENet would answer, it
  -- makes no call of ENet and of no callback, and keeps host and peer. It tests `mIsConnected`
  -- after it has cleared it.
  pub disconnect_lem :
      (c : Client G) (events : List ClientEvent)
      → disconnect on c events ≡ done (record c { is_connected = false })
  unfolding disconnect
  disconnect_lem c events = elim (Bool-cases (is_set c.internal_host)) [
    | inl set ↦ rw (set, disconnect)
    | inr unset ↦ rw (unset, disconnect)
  ]

  -- A client that has a host or a peer does not connect.
  connect_occupied :
      (c : Client G) (valid_address : Bool) (host peer : Option ℕ) (came_up : Bool)
      (target_port : ℕ)
      → (is_set c.internal_peer || is_set c.internal_host) ≡ true
      → connect on c valid_address host peer came_up target_port ≡ done c
  unfolding connect
  connect_occupied c valid_address host peer came_up target_port h = rw (h, connect)

  vacant :
      (c : Client G)
      → c.internal_host ≡ none
      → c.internal_peer ≡ none
      → (is_set c.internal_peer || is_set c.internal_host) ≡ false
  vacant c no_host no_peer = ground arith

  -- A client without a host and a peer, whose `onConnectFailed` does nothing: a first attempt
  -- with a valid address that fails resets its peer and keeps both pointers, so every later
  -- `connect` returns at once, whatever address it is given and whatever ENet would answer.
  pub connect_retry :
      (c : Client G) (h p target_port : ℕ)
      → c.internal_host ≡ none
      → c.internal_peer ≡ none
      → ((d : Client G) → on.on_connect_failed d ≡ done d)
      → (connect on c true (some h) (some p) false target_port ≡ done (failed c h p))
        × ((valid_address : Bool) (host peer : Option ℕ) (came_up : Bool) (later_port : ℕ)
            → connect on (failed c h p) valid_address host peer came_up later_port
              ≡ done (failed c h p))
  unfolding connect connect_to reset_peer
  connect_retry c h p target_port no_host no_peer quiet = (
    rw (vacant c no_host no_peer, connect_to, quiet),
    λ valid_address host peer came_up later_port. refl,
  )

  -- A connection that comes up.
  pub connect_up :
      (c d : Client G) (h p target_port : ℕ)
      → c.internal_host ≡ none
      → c.internal_peer ≡ none
      → on.on_connected
          (record c { internal_host = some h; internal_peer = some p; current_stage = 0 })
        ≡ done d
      → connect on c true (some h) (some p) true target_port
        ≡ done (record d { is_connected = true; port = target_port })
  unfolding connect connect_to
  connect_up c d h p target_port no_host no_peer greets =
      rw (vacant c no_host no_peer, connect_to, greets)

  -- One packet.
  pub update-receive :
      (c d : Client G) (h : ℕ) (bytes : List ℕ)
      → c.internal_host ≡ some h
      → on.on_receive_packet c (received bytes) ≡ done d
      → update on c (receive bytes ∷ []) ≡ done d
  unfolding update update_loop handle_event
  update-receive c d h bytes has_host got = simp (update, has_host) (rw (update_loop, got))

  -- A connection that does not come up leaves the client as connected as it was, or is a fault.
  pub connect_down :
      (c : Client G) (valid_address : Bool) (host peer : Option ℕ) (target_port : ℕ)
      → ((d : Client G) → on.on_connect_failed d ≡ done d)
      → (connect on c valid_address host peer false target_port ≡ undefined)
        ⊎ ((d : Client G) × (connect on c valid_address host peer false target_port ≡ done d)
            × (d.is_connected ≡ c.is_connected))
  unfolding connect connect_to reset_peer
  connect_down c valid_address host peer target_port quiet =
      elim (Bool-cases (is_set c.internal_peer || is_set c.internal_host)) [
        | inl occupied ↦
            inr (c, connect_occupied c valid_address host peer false target_port occupied, refl)
        | inr vacant ↦ attempt valid_address host peer vacant
      ]
    where
      attempt :
          (valid_address : Bool) (host peer : Option ℕ)
          → (is_set c.internal_peer || is_set c.internal_host) ≡ false
          → (connect on c valid_address host peer false target_port ≡ undefined)
            ⊎ ((d : Client G) × (connect on c valid_address host peer false target_port ≡ done d)
                × (d.is_connected ≡ c.is_connected))
      attempt false host peer free = inr (c, rw (connect, free), refl)
      attempt true none peer free = inl (rw (connect, free))
      attempt true (some h) none free = inl (rw (connect, free, connect_to, quiet))
      attempt true (some h) (some p) free =
          inr (failed c h p, rw (connect, free, connect_to, quiet), refl)
