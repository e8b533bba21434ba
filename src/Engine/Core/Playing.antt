-- ===== src/Engine/Core/Playing.antt =====
-- The frames of a client that is connected, whatever its server sends.
use kge.Prelude.{
  ℕ, ◌+◌, ◌≡◌, refl, ◌∙◌, true, false, none, some, List, [], ◌∷◌, All, Outcome, done, raised,
  undefined, inl, inr, Bool-cases,
}
use kge.Support.Time.{start_timer}
use kge.Support.Scheduler.{new_scheduler}
use kge.Network.OutgoingClientBase.{Client, ClientEvent}
use kge.Network.OutgoingClientBase.Updates
use kge.Game.HandShake.{HandShake}
use kge.Game.OutgoingClientSingleton.{ClientMembers}
use kge.Game.OutgoingClientSingleton.Playing.{
  Follows, waiting, IsSmall, greeted_client, connect-greeted_client, update-Follows,
  offline-Follows,
}
use kge.Engine.Core.{
  engine_clientconnect, Core, Attempt, FrameInput, start, start_mode, connect_mode, then_do,
  try_frame, frame, run_loop, client_step, server_step, clock_step, disconnect_client, with_client,
}
use kge.Engine.Core.Startup.{nothing_due}
use kge.Engine.Core.Safe.{Safe, then_do-Safe, clock_step-Safe}
use kge.Engine.Core.Frames.{catch_exception_lem, disconnect_client_lem, forgotten}

-- A core without a server and with nothing scheduled, whose client has come of `d`.
abbrev pub Plays : Client ClientMembers → Core → Type 0
Plays d k =
    (k.server ≡ none)
    × (k.scheduler ≡ new_scheduler)
    × ((c : Client ClientMembers) × (k.client ≡ some c) × Follows d c)

Follows-refl : (d : Client ClientMembers) → Follows d d
Follows-refl d = record {
  same_host = refl;
  same_peer = refl;
  sent_nothing = refl;
  called_nothing = refl;
  progress = waiting refl refl;
}

-- Frames whose packets are below 4 GiB.
abbrev pub AreSmall : List FrameInput → Type 0
AreSmall frames = All (λ f. All IsSmall f.client_events) frames

module _ (old : HandShake) (d : Client ClientMembers) (host : ℕ)
    (has_host : d.internal_host ≡ some host) where
  forgotten-Plays :
      (k : Core) (reports : ℕ)
      → Plays d k
      → Plays d (record k { reports = reports; client = forgotten k.client })
  forgotten-Plays k reports (no_server, idle, (c, is_client, f)) = (
    no_server,
    idle,
    (record c { is_connected = false }, rw is_client refl, offline-Follows d c f),
  )

  with_client-Safe :
      (k : Core) (o : Outcome (Client ClientMembers))
      → k.server ≡ none
      → k.scheduler ≡ new_scheduler
      → Updates.Safe (Follows d) o
      → Safe (Plays d) (Plays d) (with_client k o)
  with_client-Safe k (done c) no_server idle f = (no_server, idle, (c, refl, f))
  with_client-Safe k (raised e c) no_server idle f = (no_server, idle, (c, refl, f))
  with_client-Safe k undefined no_server idle f = absurd f

  client_step-Safe :
      (k : Core) (events : List ClientEvent)
      → Plays d k
      → All IsSmall events
      → Safe (Plays d) (Plays d) (client_step old events k)
  client_step-Safe k events (no_server, idle, (c, is_client, f)) small = rw is_client (
      with_client-Safe k _ no_server idle
        (update-Follows old d c host events (f.same_host ∙ has_host) f small))

  server_step-Safe :
      (k : Core) (f : FrameInput)
      → Plays d k
      → Safe (Plays d) (Plays d) (server_step old f.server_events k)
  server_step-Safe k f (no_server, idle, client) = rw no_server (refl, idle, client)

  try_frame-Safe :
      (k : Core) (f : FrameInput)
      → Plays d k
      → All IsSmall f.client_events
      → Safe (Plays d) (Plays d) (try_frame old k f)
  unfolding try_frame
  try_frame-Safe k f (no_server, idle, client) small =
      let (timer_id, clock) = start_timer k.clock f.started_at in
      let timed : Core = record k { clock = clock } in
      let calm : Core = record timed { scheduler = new_scheduler } in
      let third : Core → Outcome Core = λ k3. clock_step timer_id f.stopped_at k3 in
      let second : Core → Outcome Core = λ k2. then_do (server_step old f.server_events k2) third in
      let first : Core → Outcome Core = λ k1. then_do (client_step old f.client_events k1) second in
      let P = Plays d in
      let last : (k3 : Core) → P k3 → Safe P P (third k3) =
        λ k3 h. clock_step-Safe P timer_id f.stopped_at k3 (λ delta clock. h) h in
      let after : (k2 : Core) → P k2 → Safe P P (second k2) = λ k2 h.
        then_do-Safe P P P (server_step old f.server_events k2) third (server_step-Safe k2 f h)
          last in
      rw (nothing_due timed idle) (
        then_do-Safe P P P (client_step old f.client_events calm) second
          (client_step-Safe calm f.client_events (no_server, refl, client) small) after)

  frame-Plays :
      (k : Core) (f : FrameInput)
      → Plays d k
      → All IsSmall f.client_events
      → (k' : Core) × (frame old k f ≡ done k') × Plays d k'
  unfolding frame
  frame-Plays k f h small = caught (try_frame old k f) refl (try_frame-Safe k f h small)
    where
      caught :
          (o : Outcome Core)
          → try_frame old k f ≡ o
          → Safe (Plays d) (Plays d) o
          → (k' : Core) × (frame old k f ≡ done k') × Plays d k'
      caught (done k') e h = (k', rw (frame, e), h)
      caught (raised x k') e h = (
        record k' { reports = k'.reports + 1; client = forgotten k'.client },
        rw (frame, e) (catch_exception_lem old k'),
        forgotten-Plays k' (k'.reports + 1) h,
      )
      caught undefined e h = absurd h

  ends-Plays :
      (k : Core) → Plays d k → (k' : Core) × (disconnect_client old k ≡ done k') × Plays d k'
  ends-Plays k h = (
    record k { client = forgotten k.client },
    disconnect_client_lem old k,
    forgotten-Plays k k.reports h,
  )

  run_loop-Plays :
      (k : Core) (frames : List FrameInput)
      → Plays d k
      → AreSmall frames
      → (k' : Core) × (run_loop old k frames ≡ done k') × Plays d k'
  unfolding run_loop
  run_loop-Plays k [] h small = ends-Plays k h
  run_loop-Plays k (f ∷ fs) h (small, later) = elim (Bool-cases k.running) [
    | inl running ↦
        let (k1, e, h1) = frame-Plays k f h small in
        let (k2, e2, h2) = run_loop-Plays k1 fs h1 later in (k2, simp (run_loop, running, e) e2, h2)
    | inr off ↦ let (k1, e, h1) = ends-Plays k h in (k1, simp (run_loop, off) e, h1)
  ]

-- The core of a client that is connected.
abbrev pub playing_core : Core → Client ClientMembers → Core
playing_core k c = record k { running = true; client = some c }

-- A core in the mode ENGINE_CLIENTCONNECT, without a server and with nothing scheduled, whose client
-- has neither host nor peer, is given a valid address, gets a host and a peer of ENet, and whose
-- connection comes up: it starts, and runs any frames, whatever bytes below 4 GiB its server sends
-- and however often it disconnects, without a fault and without an exception that leaves
-- the loop. At the end the client has sent its hand shake and nothing else, has made no further call
-- of ENet, keeps its host and peer, and is in stage 1 if it has printed a version since and in stage
-- 0 if it has printed none.
pub client_run :
    (old : HandShake) (k : Core) (a : Attempt) (c : Client ClientMembers) (host peer : ℕ)
    (frames : List FrameInput)
    → k.engine_mode ≡ engine_clientconnect
    → k.server ≡ none
    → k.scheduler ≡ new_scheduler
    → c.internal_host ≡ none
    → c.internal_peer ≡ none
    → a.valid_address ≡ true
    → a.host ≡ some host
    → a.peer ≡ some peer
    → a.came_up ≡ true
    → AreSmall frames
    → let d = greeted_client old c host peer a.target_port in
      (start old k a c ≡ done (true, playing_core k d))
      × ((k' : Core) × (run_loop old (playing_core k d) frames ≡ done k') × Plays d k')
unfolding start start_mode connect_mode
client_run old k a c host peer frames mode no_server idle no_host no_peer valid has_host has_peer up
      small =
    let d = greeted_client old c host peer a.target_port in
    (
      simp
          (
            mode,
            start_mode,
            connect_mode,
            valid,
            has_host,
            has_peer,
            up,
            connect-greeted_client old c host peer a.target_port no_host no_peer,
          )
          refl,
      run_loop-Plays old d host refl (playing_core k d) frames
          (no_server, idle, (d, refl, Follows-refl d)) small,
    )
