-- ===== src/Engine/Core/Frames.antt =====
-- What a frame does to the timers, with and without an exception, and what an exception does to the peers.
use kge.Prelude.{
  ℕ, ◌+◌, ◌<◌, ◌≡◌, refl, ap, sym, false, Option, none, some, [], ◌∷◌, length, Outcome, done,
  raised, undefined, ◌⊎◌, inl, inr,
}
use kge.Support.Time.{Clock, start_timer, stop_timer, sim_time_milliseconds}
use kge.Support.Time.Nesting.{sim_after, stop_timer-start_timer}
use kge.Support.Scheduler.{Updated, at_end, erased_iterator}
use kge.Support.Scheduler
use kge.Network.OutgoingClientBase.{Client, ClientEvent}
use kge.Network.OutgoingClientBase
use kge.Network.OutgoingClientBase.Connection.{disconnect_lem}
use kge.Network.ServerBase.{Server, Event, last_packet_sender}
use kge.Network.ServerBase
use kge.Game.HandShake.{HandShake}
use kge.Game.OutgoingClientSingleton.{ClientMembers}
use kge.Game.OutgoingClientSingleton
use kge.Game.ServerSingleton.{Members}
use kge.Game.ServerSingleton
use kge.Engine.Core.{
  Core, FrameInput, then_do, try_frame, catch_exception, frame, scheduler_step, client_step,
  server_step, clock_step, with_scheduler, with_client, with_server, with_clock, if_client,
  if_server, disconnect_peer, disconnect_client, disconnect_sender,
}

-- What holds of the state at a return, and at an exception.
abbrev pub Ends : (Core → Type 0) → (Core → Type 0) → Outcome Core → Type 0
Ends P Q (done k) = P k
Ends P Q (raised e k) = Q k
Ends P Q undefined = Unit

abbrev pub Never : Core → Type 0
Never k = ⊥

module _ (P P' Q : Core → Type 0) where
  pub then_do-Ends :
      (o : Outcome Core) (f : Core → Outcome Core)
      → Ends P Q o
      → ((k : Core) → P k → Ends P' Q (f k))
      → Ends P' Q (then_do o f)
  then_do-Ends (done k) f h next = next k h
  then_do-Ends (raised e k) f h next = h
  then_do-Ends undefined f h next = tt

-- The timers and the reports are as given.
abbrev pub Keeps : Clock → ℕ → Core → Type 0
Keeps clock reports k = (k.clock ≡ clock) × (k.reports ≡ reports)

abbrev pub forgotten : Option (Client ClientMembers) → Option (Client ClientMembers)
forgotten none = none
forgotten (some c) = some (record c { is_connected = false })

module _ (clock : Clock) (reports : ℕ) (k : Core) (h : Keeps clock reports k) where
  with_scheduler-Keeps :
      (u : Updated) → Ends (Keeps clock reports) (Keeps clock reports) (with_scheduler k u)
  with_scheduler-Keeps (at_end s) = h
  with_scheduler-Keeps (erased_iterator s) = tt

  with_client-Keeps :
      (o : Outcome (Client ClientMembers))
      → Ends (Keeps clock reports) (Keeps clock reports) (with_client k o)
  with_client-Keeps (done c) = h
  with_client-Keeps (raised e c) = h
  with_client-Keeps undefined = tt

  with_server-Keeps :
      (o : Outcome (Server Members))
      → Ends (Keeps clock reports) (Keeps clock reports) (with_server k o)
  with_server-Keeps (done s) = h
  with_server-Keeps (raised e s) = h
  with_server-Keeps undefined = tt

  if_client-Keeps :
      (o : Option (Client ClientMembers))
      → (f : Client ClientMembers → Outcome (Client ClientMembers))
      → Ends (Keeps clock reports) (Keeps clock reports) (if_client k o f)
  if_client-Keeps none f = h
  if_client-Keeps (some c) f = with_client-Keeps (f c)

  if_server-Keeps :
      (o : Option (Server Members)) (f : Server Members → Outcome (Server Members))
      → Ends (Keeps clock reports) (Keeps clock reports) (if_server k o f)
  if_server-Keeps none f = h
  if_server-Keeps (some s) f = with_server-Keeps (f s)

-- The clock after a frame that returns, and after one that throws.
abbrev pub timed : Clock → FrameInput → Clock
timed clock f = record clock { current_sim_time = sim_after clock f.started_at f.stopped_at }

abbrev pub leaked : Clock → FrameInput → Clock
leaked clock f = record clock { timer_stack = f.started_at ∷ clock.timer_stack }

with_clock-Keeps :
    (Q : Core → Type 0) (k0 k : Core) (f : FrameInput)
    → length k0.clock.timer_stack < 255
    → Keeps (start_timer k0.clock f.started_at).1 k0.reports k
    → Ends
        (Keeps (timed k0.clock f) k0.reports)
        Q
        (with_clock k (stop_timer k.clock (start_timer k0.clock f.started_at).0 f.stopped_at))
with_clock-Keeps Q k0 k f few (same, counted) =
    let (t, stopped, _) = stop_timer-start_timer k0.clock f.started_at f.stopped_at few in
    simp (same, stopped) (refl, counted)

disconnect_sender_lem : (k : Core) → disconnect_sender k ≡ done k
unfolding disconnect_sender last_packet_sender
disconnect_sender_lem k = go k k.server refl
  where
    go :
        (k : Core) (o : Option (Server Members))
        → k.server ≡ o
        → (if_server k o λ s. disconnect_peer s (last_packet_sender s)) ≡ done k
    go k none e = refl
    go k (some s) e = rw (sym e) refl

module _ (old : HandShake) where
  pub disconnect_client_lem :
      (k : Core) → disconnect_client old k ≡ done (record k { client = forgotten k.client })
  unfolding disconnect_client
  disconnect_client_lem k = go k k.client refl
    where
      go :
          (k : Core) (o : Option (Client ClientMembers))
          → k.client ≡ o
          → (if_client k o
              λ c. OutgoingClientBase.disconnect (OutgoingClientSingleton.callbacks old) c [])
            ≡ done (record k { client = forgotten o })
      go k none e = rw e refl
      go k (some c) e = rw (disconnect_lem (OutgoingClientSingleton.callbacks old) c []) refl

  -- The handler of an exception returns, and all that it changes is the count of the reports and the client's
  -- `mIsConnected`: no server, no client of a server and no ENet call is touched, so the sender of
  -- the packet that was to blame stays connected.
  pub catch_exception_lem :
      (k : Core)
      → catch_exception old k
        ≡ done (record k { reports = k.reports + 1; client = forgotten k.client })
  unfolding catch_exception
  catch_exception_lem k =
      rw (disconnect_client_lem (record k { reports = k.reports + 1 })) (disconnect_sender_lem _)

  try_frame-Keeps :
      (k : Core) (f : FrameInput)
      → length k.clock.timer_stack < 255
      → Ends
          (Keeps (timed k.clock f) k.reports)
          (Keeps (leaked k.clock f) k.reports)
          (try_frame old k f)
  unfolding try_frame start_timer
  try_frame-Keeps k f few =
      let clock = leaked k.clock f in
      let K = Keeps clock k.reports in
      let T = Keeps (timed k.clock f) k.reports in
      let timer_id = (start_timer k.clock f.started_at).0 in
      let k0 = record k { clock = clock } in
      let fourth = clock_step timer_id f.stopped_at in
      let third = λ (k2 : Core). then_do (server_step old f.server_events k2) fourth in
      let second = λ (k1 : Core). then_do (client_step old f.client_events k1) third in
      then_do-Ends K T K (scheduler_step k0) second
        (with_scheduler-Keeps clock k.reports k0 (refl, refl)
          (Scheduler.update k.scheduler (sim_time_milliseconds clock)))
        λ k1 h1.
          then_do-Ends K T K (client_step old f.client_events k1) third
            (if_client-Keeps clock k.reports k1 h1 k1.client λ c.
              OutgoingClientBase.update (OutgoingClientSingleton.callbacks old) c f.client_events)
            λ k2 h2.
              then_do-Ends K T K (server_step old f.server_events k2) fourth
                (if_server-Keeps clock k.reports k2 h2 k2.server
                  λ s. ServerBase.update (ServerSingleton.callbacks old) s f.server_events)
                λ k3 h3. with_clock-Keeps K k k3 f few h3

  -- A frame that is entered with fewer than 255 timers running never lets an exception out. If nothing
  -- throws, it leaves the timers as they were and, where none was running, moves the simulation time on
  -- by what the frame took. If something throws, that is reported once, the simulation time stands still,
  -- and the frame's own timer is left running.
  pub frame_lem :
      (k : Core) (f : FrameInput)
      → length k.clock.timer_stack < 255
      → Ends
          (λ k'.
            (Keeps (timed k.clock f) k.reports k') ⊎ (Keeps (leaked k.clock f) (k.reports + 1) k'))
          Never
          (frame old k f)
  unfolding frame
  frame_lem k f few = caught (try_frame old k f) (try_frame-Keeps k f few)
    where
      caught :
          (o : Outcome Core)
          → Ends (Keeps (timed k.clock f) k.reports) (Keeps (leaked k.clock f) k.reports) o
          → Ends
              (λ k'.
                (Keeps (timed k.clock f) k.reports k')
                ⊎ (Keeps (leaked k.clock f) (k.reports + 1) k'))
              Never
              (elim o [
                | done k' ↦ done k'
                | raised e k' ↦ catch_exception old k'
                | undefined ↦ undefined
              ])
      caught (done k') h = inl h
      caught (raised e k') (same, counted) =
          rw (catch_exception_lem k') (inr (same, ap (λ n. n + 1) counted))
      caught undefined h = tt
