-- ===== src/Engine/Core/Serving.antt =====
-- The frames of a dedicated server, whatever its clients send.
use kge.Prelude.{
  ℕ, ◌+◌, ◌≡◌, refl, ap, ◌∙◌, true, none, some, List, [], ◌∷◌, arith, length, take, take_all,
  Outcome, done, raised, undefined, false, logic_error, ◌<◌, ◌≤◌, inl, inr, Bool-cases,
}
use kge.Support.Time.{start_timer}
use kge.Support.Time.Nesting.{sim_after}
use kge.Support.MapDivision.Grids.{new_map_division_returns, new_map_division_throws}
use kge.Support.MapDivision.{new_map_division}
use kge.Support.Scheduler.{new_scheduler}
use kge.Network.OutgoingClientBase.{Client}
use kge.Network.ServerBase.{Server, Event, update, new_server}
use kge.Network.ServerBase.Sessions.{Sessions, AllLegal, after_all}
use kge.Network.ServerBase.Invariant.{Tracks, all_handled, stopped, update-Served}
use kge.Network.ServerBase.Events.{update-stopped}
use kge.Game.HandShake.{HandShake}
use kge.Game.OutgoingClientSingleton.{ClientMembers}
use kge.Game.ServerSingleton.{Members, callbacks, new_members}
use kge.Game.ServerSingleton.Clients.{callbacks-CallbackLaws, started, started-Tracks}
use kge.Engine.Core.{
  engine_dedicated, Core, Attempt, FrameInput, start, start_mode, server_mode, with_map, then_do,
  try_frame, frame, run_loop, scheduler_step, client_step, server_step, clock_step,
  disconnect_client, with_server,
}
use kge.Engine.Core.Startup.{nothing_due}
use kge.Engine.Core.Safe.{Safe, then_do-Safe, clock_step-Safe}
use kge.Engine.Core.Frames.{catch_exception_lem, disconnect_client_lem, forgotten}

-- A core without a client and with nothing scheduled, whose server has its books right.
abbrev pub Serves : Sessions → Core → Type 0
Serves r k =
    (k.client ≡ none)
    × (k.scheduler ≡ new_scheduler)
    × ((s : Server Members) × (k.server ≡ some s) × Tracks r s)

-- The same after some of the events.
abbrev pub ServesSome : Sessions → List Event → Core → Type 0
ServesSome r events k = (n : ℕ) × Serves (after_all r (take n events)) k

-- "0.0.0.0"
abbrev pub any_address : List ℕ
any_address = 48 ∷ 46 ∷ 48 ∷ 46 ∷ 48 ∷ 46 ∷ 48 ∷ []

module _ (old : HandShake) where
  with_server-Safe :
      (r : Sessions) (events : List Event) (k : Core) (s : Server Members)
      → k.client ≡ none
      → k.scheduler ≡ new_scheduler
      → Tracks r s
      → AllLegal r events
      → Safe
          (ServesSome r events)
          (ServesSome r events)
          (with_server k (update (callbacks old) s events))
  with_server-Safe r events k s no_client idle v legal = elim (Bool-cases s.is_running) [
    | inl running ↦
        elim (update-Served (callbacks old) (callbacks-CallbackLaws old) r s events running v
          legal) [
            | all_handled t e w ↦ rw e (
              length events,
              (no_client, idle, (t, refl, rw (take_all (length events) events (omega arith)) w)),
            )
            | stopped x t n e w ↦ rw e (n, (no_client, idle, (t, refl, w)))
          ]
    | inr off ↦
        rw (update-stopped (callbacks old) s events off) (0, (no_client, idle, (s, refl, v)))
  ]

  server_step-Safe :
      (r : Sessions) (events : List Event) (k : Core)
      → Serves r k
      → AllLegal r events
      → Safe (ServesSome r events) (ServesSome r events) (server_step old events k)
  server_step-Safe r events k (no_client, idle, (s, is_server, v)) legal =
      simp is_server (with_server-Safe r events k s no_client idle v legal)

  try_frame-Safe :
      (r : Sessions) (k : Core) (f : FrameInput)
      → Serves r k
      → AllLegal r f.server_events
      → Safe (ServesSome r f.server_events) (ServesSome r f.server_events) (try_frame old k f)
  unfolding try_frame
  try_frame-Safe r k f (no_client, idle, server) legal =
      let (timer_id, clock) = start_timer k.clock f.started_at in
      let timed : Core = record k { clock = clock } in
      let calm : Core = record timed { scheduler = new_scheduler } in
      let third : Core → Outcome Core = λ k3. clock_step timer_id f.stopped_at k3 in
      let second : Core → Outcome Core = λ k2. then_do (server_step old f.server_events k2) third in
      let first : Core → Outcome Core = λ k1. then_do (client_step old f.client_events k1) second in
      let S = ServesSome r f.server_events in
      let scheduled : scheduler_step timed ≡ done calm = nothing_due timed idle in
      let no_update : client_step old f.client_events calm ≡ done calm = simp no_client refl in
      let served : Safe S S (second calm) =
        then_do-Safe S S S (server_step old f.server_events calm) third
          (server_step-Safe r f.server_events calm (no_client, refl, server) legal)
          (λ k3 h3. clock_step-Safe S timer_id f.stopped_at k3 (λ delta clock. h3) h3) in
      let steps : try_frame old k f ≡ second calm =
        ap (λ o. then_do o first) scheduled ∙ ap (λ o. then_do o second) no_update in
      rw steps served

  frame-Serves :
      (r : Sessions) (k : Core) (f : FrameInput)
      → Serves r k
      → AllLegal r f.server_events
      → (k' : Core) × (frame old k f ≡ done k') × ServesSome r f.server_events k'
  unfolding frame
  frame-Serves r k f h legal = caught (try_frame old k f) refl (try_frame-Safe r k f h legal)
    where
      caught :
          (o : Outcome Core)
          → try_frame old k f ≡ o
          → Safe (ServesSome r f.server_events) (ServesSome r f.server_events) o
          → (k' : Core) × (frame old k f ≡ done k') × ServesSome r f.server_events k'
      caught (done k') e h = (k', rw (frame, e), h)
      caught (raised x k') e (n, (no_client, idle, server)) = (
        record k' { reports = k'.reports + 1; client = forgotten k'.client },
        rw (frame, e) (catch_exception_lem old k'),
        (n, (rw no_client refl, idle, server)),
      )
      caught undefined e h = absurd h

  -- What ENet promises over the frames: the events of a frame are legal for the connections that are open, and
  -- those of the next for the connections that the events which the server took have left.
  abbrev pub FramesLegal : Sessions → Core → List FrameInput → Type 0
  FramesLegal r k [] = Unit
  FramesLegal r k (f ∷ fs) =
      AllLegal r f.server_events
      × ((k' : Core) (n : ℕ)
          → frame old k f ≡ done k'
          → Serves (after_all r (take n f.server_events)) k'
          → FramesLegal (after_all r (take n f.server_events)) k' fs)

  ends-Serves :
      (r : Sessions) (k : Core)
      → Serves r k
      → (k' : Core) × (r' : Sessions) × (disconnect_client old k ≡ done k') × Serves r' k'
  ends-Serves r k (no_client, idle, server) = (
    record k { client = forgotten k.client },
    r,
    disconnect_client_lem old k,
    (rw no_client refl, idle, server),
  )

  run_loop-Serves :
      (r : Sessions) (k : Core) (fs : List FrameInput)
      → Serves r k
      → FramesLegal r k fs
      → (k' : Core) × (r' : Sessions) × (run_loop old k fs ≡ done k') × Serves r' k'
  unfolding run_loop
  run_loop-Serves r k [] h legal = ends-Serves r k h
  run_loop-Serves r k (f ∷ fs) h (legal, later) = elim (Bool-cases k.running) [
    | inl running ↦
        let (k1, e, (n, h1)) = frame-Serves r k f h legal in
        let (k2, r2, e2, h2) =
          run_loop-Serves (after_all r (take n f.server_events)) k1 fs h1 (later k1 n e h1) in
        (k2, r2, simp (run_loop, running, e) e2, h2)
    | inr off ↦ let (k1, r1, e, h1) = ends-Serves r k h in (k1, r1, simp (run_loop, off) e, h1)
  ]

  -- The core of a dedicated server that started; the map division's timer has moved the simulation time where no
  -- other timer runs.
  abbrev pub dedicated : Core → Attempt → ℕ → Core
  dedicated k a host = record k {
    running = true;
    clock = record {
      timer_stack = k.clock.timer_stack;
      current_sim_time = sim_after k.clock a.map_started_at a.map_stopped_at;
    };
    server = some (started any_address 11595 host);
  }

  starts_by :
      (k : Core) (a : Attempt) (c : Client ClientMembers) (host : ℕ)
      → k.engine_mode ≡ engine_dedicated
      → a.host ≡ some host
      → start old k a c
        ≡ with_map old
            (record k { running = true })
            (started any_address 11595 host)
            (new_map_division 12 999 k.clock a.map_started_at a.map_stopped_at)
  unfolding start start_mode server_mode new_server
  starts_by k a c host mode has_host =
      let run_on : Core = record k { running = true } in
      ap (λ m. start_mode old run_on m a c) mode
      ∙ ap (λ h. server_mode old run_on a (new_server any_address 11595 h new_members)) has_host

  starts :
      (k : Core) (a : Attempt) (c : Client ClientMembers) (host : ℕ)
      → k.engine_mode ≡ engine_dedicated
      → a.host ≡ some host
      → length k.clock.timer_stack < 255
      → start old k a c ≡ done (true, dedicated k a host)
  starts k a c host mode has_host few =
      starts_by k a c host mode has_host
      ∙ ap (with_map old (record k { running = true }) (started any_address 11595 host)) (
          new_map_division_returns 12 999 k.clock a.map_started_at a.map_stopped_at (omega arith)
            few)

  -- With 255 timers running or more, the constructor of the server throws out of `run`, from its map division,
  -- whose timer is left running.
  pub start_crowded :
      (k : Core) (a : Attempt) (c : Client ClientMembers) (host : ℕ)
      → k.engine_mode ≡ engine_dedicated
      → a.host ≡ some host
      → 255 ≤ length k.clock.timer_stack
      → start old k a c
        ≡ raised logic_error (
          false,
          record k {
            running = true;
            clock = record (k.clock) { timer_stack = a.map_started_at ∷ k.clock.timer_stack };
          },
        )
  start_crowded k a c host mode has_host many =
      starts_by k a c host mode has_host
      ∙ ap (with_map old (record k { running = true }) (started any_address 11595 host)) (
          new_map_division_throws 12 999 k.clock a.map_started_at a.map_stopped_at (omega arith)
            many)

  -- A core in the mode ENGINE_DEDICATED, without a client, with nothing scheduled and fewer than 255 timers
  -- running, and for which ENet makes a host, starts, with the map division's time on the clock if
  -- no timer runs. It then runs any frames with events that ENet may deliver, whatever bytes its clients
  -- send, without an exception that leaves the loop and without a fault, which is an access out of
  -- bounds, of an unwritten byte, through NULL or through an invalid iterator; at the end the server's
  -- books agree with some set of open connections.
  pub dedicated_run :
      (k : Core) (a : Attempt) (c : Client ClientMembers) (host : ℕ) (fs : List FrameInput)
      → k.engine_mode ≡ engine_dedicated
      → a.host ≡ some host
      → k.client ≡ none
      → k.scheduler ≡ new_scheduler
      → length k.clock.timer_stack < 255
      → FramesLegal [] (dedicated k a host) fs
      → (start old k a c ≡ done (true, dedicated k a host))
        × ((k' : Core) × (r' : Sessions) × (run_loop old (dedicated k a host) fs ≡ done k')
            × Serves r' k')
  dedicated_run k a c host fs mode has_host no_client idle few legal = (
    starts k a c host mode has_host few,
    run_loop-Serves [] (dedicated k a host) fs
        (
          no_client,
          idle,
          (started any_address 11595 host, refl, started-Tracks any_address 11595 host),
        )
        legal,
  )
