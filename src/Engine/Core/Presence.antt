-- ===== src/Engine/Core/Presence.antt =====
-- Whether a core has a client and a server: no frame changes it.
use kge.Prelude.{
  ℕ, if◌then◌else◌, ◌≡◌, refl, ap, sym, ◌∙◌, Bool, true, false, Option, none, some, List, [], ◌∷◌,
  Outcome, done, raised, undefined,
}
use kge.Support.Time.{Clock, start_timer, stop_timer, sim_time_milliseconds}
use kge.Support.Scheduler.{Updated, at_end, erased_iterator}
use kge.Support.Scheduler
use kge.Network.OutgoingClientBase.{Client}
use kge.Network.OutgoingClientBase
use kge.Network.ServerBase.{Server}
use kge.Network.ServerBase
use kge.Game.HandShake.{HandShake}
use kge.Game.OutgoingClientSingleton.{ClientMembers}
use kge.Game.OutgoingClientSingleton
use kge.Game.ServerSingleton.{Members}
use kge.Game.ServerSingleton
use kge.Engine.Core.{
  Core, FrameInput, then_do, try_frame, catch_exception, frame, run_loop, scheduler_step,
  client_step, server_step, clock_step, with_scheduler, with_client, with_server, with_clock,
  if_client, if_server, disconnect_client,
}
use kge.Engine.Core.Statics.{is_there}
use kge.Engine.Core.Frames.{
  Ends, then_do-Ends, forgotten, disconnect_client_lem, catch_exception_lem,
}

abbrev pub Has : Bool → Bool → Core → Type 0
Has client server k = (is_there k.client ≡ client) × (is_there k.server ≡ server)

abbrev pub Stays : Bool → Bool → Outcome Core → Type 0
Stays client server = Ends (Has client server) (Has client server)

pub is_there-forgotten : (o : Option (Client ClientMembers)) → is_there (forgotten o) ≡ is_there o
is_there-forgotten none = refl
is_there-forgotten (some c) = refl

module _ (client server : Bool) (k : Core) (h : Has client server k) where
  with_scheduler-Has : (u : Updated) → Stays client server (with_scheduler k u)
  with_scheduler-Has (at_end s) = h
  with_scheduler-Has (erased_iterator s) = tt

  with_client-Has :
      (o : Outcome (Client ClientMembers)) → true ≡ client → Stays client server (with_client k o)
  with_client-Has (done c) e = (e, h.1)
  with_client-Has (raised x c) e = (e, h.1)
  with_client-Has undefined e = tt

  with_server-Has :
      (o : Outcome (Server Members)) → true ≡ server → Stays client server (with_server k o)
  with_server-Has (done s) e = (h.0, e)
  with_server-Has (raised x s) e = (h.0, e)
  with_server-Has undefined e = tt

  if_client-Has :
      (o : Option (Client ClientMembers))
      (f : Client ClientMembers → Outcome (Client ClientMembers))
      → k.client ≡ o
      → Stays client server (if_client k o f)
  if_client-Has none f e = h
  if_client-Has (some c) f e = with_client-Has (f c) (ap is_there (sym e) ∙ h.0)

  if_server-Has :
      (o : Option (Server Members)) (f : Server Members → Outcome (Server Members))
      → k.server ≡ o
      → Stays client server (if_server k o f)
  if_server-Has none f e = h
  if_server-Has (some s) f e = with_server-Has (f s) (ap is_there (sym e) ∙ h.1)

  with_clock-Has : (o : Outcome (ℕ × Clock)) → Stays client server (with_clock k o)
  with_clock-Has (done (delta, clock)) = h
  with_clock-Has (raised x r) = h
  with_clock-Has undefined = tt

module _ (old : HandShake) (client server : Bool) where
  abbrev H : Core → Type 0
  H = Has client server

  try_frame-Has : (k : Core) (f : FrameInput) → H k → Stays client server (try_frame old k f)
  unfolding try_frame
  try_frame-Has k f h =
      let (timer_id, clock) = start_timer k.clock f.started_at in
      let k0 = record k { clock = clock } in
      let fourth = clock_step timer_id f.stopped_at in
      let third = λ (k2 : Core). then_do (server_step old f.server_events k2) fourth in
      let second = λ (k1 : Core). then_do (client_step old f.client_events k1) third in
      then_do-Ends H H H (scheduler_step k0) second
        (with_scheduler-Has client server k0 h
          (Scheduler.update k.scheduler (sim_time_milliseconds clock)))
        λ k1 h1.
          then_do-Ends H H H (client_step old f.client_events k1) third
            (if_client-Has client server k1 h1 k1.client
              (λ c.
                OutgoingClientBase.update (OutgoingClientSingleton.callbacks old) c f.client_events)
              refl)
            λ k2 h2.
              then_do-Ends H H H (server_step old f.server_events k2) fourth
                (if_server-Has client server k2 h2 k2.server
                  (λ s. ServerBase.update (ServerSingleton.callbacks old) s f.server_events) refl)
                λ k3 h3.
                  with_clock-Has client server k3 h3 (stop_timer k3.clock timer_id f.stopped_at)

  frame-Has : (k : Core) (f : FrameInput) → H k → Stays client server (frame old k f)
  unfolding frame
  frame-Has k f h = caught (try_frame old k f) (try_frame-Has k f h)
    where
      caught :
          (o : Outcome Core)
          → Stays client server o
          → Stays client server (elim o [
            | done k' ↦ done k'
            | raised x k' ↦ catch_exception old k'
            | undefined ↦ undefined
          ])
      caught (done k') h = h
      caught (raised x k') h =
          rw (catch_exception_lem old k') (is_there-forgotten k'.client ∙ h.0, h.1)
      caught undefined h = tt

  disconnect_client-Has : (k : Core) → H k → Stays client server (disconnect_client old k)
  disconnect_client-Has k h =
      rw (disconnect_client_lem old k) (is_there-forgotten k.client ∙ h.0, h.1)

  either_way :
      (b : Bool) (o o' : Outcome Core)
      → Stays client server o
      → Stays client server o'
      → Stays client server (if b then o else o')
  either_way true o o' h h' = h
  either_way false o o' h h' = h'

  pub run_loop-Has :
      (k : Core) (fs : List FrameInput) → H k → Stays client server (run_loop old k fs)
  unfolding run_loop
  run_loop-Has k [] h = disconnect_client-Has k h
  run_loop-Has k (f ∷ fs) h =
      either_way k.running (then_do (frame old k f) (λ k'. run_loop old k' fs))
        (disconnect_client old k)
        (then_do-Ends H H H (frame old k f) (λ k'. run_loop old k' fs) (frame-Has k f h)
          λ k' h'. run_loop-Has k' fs h')
        (disconnect_client-Has k h)
