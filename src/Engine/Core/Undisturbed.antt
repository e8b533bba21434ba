-- ===== src/Engine/Core/Undisturbed.antt =====
-- Frames in which nothing is scheduled and nothing throws.
use kge.Prelude.{
  ℕ, ◌<◌, ◌≡◌, refl, sym, ap, ◌∙◌, none, some, length, Outcome, done, raised, undefined,
}
use kge.Support.Time.{Clock, start_timer, stop_timer}
use kge.Support.Time.Nesting.{stop_timer-start_timer, sim_after}
use kge.Support.Scheduler.{new_scheduler}
use kge.Network.OutgoingClientBase.{Client}
use kge.Network.OutgoingClientBase
use kge.Network.ServerBase.{Server}
use kge.Network.ServerBase
use kge.Game.HandShake.{HandShake}
use kge.Game.OutgoingClientSingleton.{ClientMembers}
use kge.Game.OutgoingClientSingleton
use kge.Game.ServerSingleton.{Members}
use kge.Game.ServerSingleton
use kge.Engine.Core.{
  Core, FrameInput, then_do, try_frame, frame, client_step, server_step, clock_step, with_clock,
}
use kge.Engine.Core.Startup.{nothing_due}

-- Nothing is scheduled, fewer than 255 timers run, and so many exceptions were reported.
pub record Settled (reports : ℕ) (k : Core) : Type 0 where
  pub idle : k.scheduler ≡ new_scheduler
  pub few : length k.clock.timer_stack < 255
  pub reported : k.reports ≡ reports

-- The engine of a client, and that of a dedicated server.
pub record RunsClient (reports : ℕ) (c : Client ClientMembers) (k : Core) : Type 0 where
  pub settled : Settled reports k
  pub is_client : k.client ≡ some c
  pub no_server : k.server ≡ none

pub record RunsServer (reports : ℕ) (s : Server Members) (k : Core) : Type 0 where
  pub settled : Settled reports k
  pub no_client : k.client ≡ none
  pub is_server : k.server ≡ some s

then_do-then_do :
    (o : Outcome Core) (f g : Core → Outcome Core)
    → then_do (then_do o f) g ≡ then_do o (λ k. then_do (f k) g)
then_do-then_do (done k) f g = refl
then_do-then_do (raised e k) f g = refl
then_do-then_do undefined f g = refl

module _ (old : HandShake) (k : Core) (f : FrameInput) (reports : ℕ) where
  abbrev timed : Core
  timed = record k { clock = (start_timer k.clock f.started_at).1; scheduler = new_scheduler }

  -- The client's and the server's step.
  abbrev peers : Outcome Core
  peers = then_do (client_step old f.client_events timed) (server_step old f.server_events)

  abbrev clock_after : Clock
  clock_after = record {
    timer_stack = k.clock.timer_stack;
    current_sim_time = sim_after k.clock f.started_at f.stopped_at;
  }

  frame_quiet :
      (k2 : Core)
      → Settled reports k
      → peers ≡ done k2
      → k2.clock ≡ timed.clock
      → (delta : ℕ) × (frame old k f ≡ done (record k2 { clock = clock_after; delta_time = delta }))
  unfolding frame try_frame
  frame_quiet k2 calm stepped same =
      let timer_id = (start_timer k.clock f.started_at).0 in
      let start : Core = record k { clock = (start_timer k.clock f.started_at).1 } in
      let last : Core → Outcome Core = λ k3. clock_step timer_id f.stopped_at k3 in
      let server = server_step old f.server_events in
      let first : Core → Outcome Core =
        λ k1. then_do (client_step old f.client_events k1) (λ k3. then_do (server k3) last) in
      let (delta, stops, _) = stop_timer-start_timer k.clock f.started_at f.stopped_at calm.few in
      let stopped : last k2 ≡ done (record k2 { clock = clock_after; delta_time = delta }) =
        ap (λ c. with_clock k2 (stop_timer c timer_id f.stopped_at)) same
        ∙ ap (with_clock k2) stops in
      let tried : try_frame old k f ≡ done (record k2 { clock = clock_after; delta_time = delta }) =
        ap (λ o. then_do o first) (nothing_due start calm.idle)
        ∙ sym (then_do-then_do (client_step old f.client_events timed) server last)
        ∙ ap (λ o. then_do o last) stepped
        ∙ stopped in
      (delta, rw (frame, tried) refl)

  -- The frame of an engine whose client's update returns.
  pub frame-RunsClient :
      (c d : Client ClientMembers)
      → RunsClient reports c k
      → OutgoingClientBase.update (OutgoingClientSingleton.callbacks old) c f.client_events ≡ done d
      → (k' : Core) × (frame old k f ≡ done k') × RunsClient reports d k'
  frame-RunsClient c d r returns =
      let k2 : Core = record timed { client = some d } in
      let stepped : peers ≡ done k2 = rw (r.is_client, returns) (rw r.no_server refl) in
      let (delta, e) = frame_quiet k2 r.settled stepped refl in
      (
        record k2 { clock = clock_after; delta_time = delta },
        e,
        record {
          settled = record { idle = refl; few = r.settled.few; reported = r.settled.reported };
          is_client = refl;
          no_server = r.no_server;
        },
      )

  -- The frame of an engine whose server's update returns.
  pub frame-RunsServer :
      (s t : Server Members)
      → RunsServer reports s k
      → ServerBase.update (ServerSingleton.callbacks old) s f.server_events ≡ done t
      → (k' : Core) × (frame old k f ≡ done k') × RunsServer reports t k'
  frame-RunsServer s t r returns =
      let k2 : Core = record timed { server = some t } in
      let stepped : peers ≡ done k2 = rw r.no_client (rw (r.is_server, returns) refl) in
      let (delta, e) = frame_quiet k2 r.settled stepped refl in
      (
        record k2 { clock = clock_after; delta_time = delta },
        e,
        record {
          settled = record { idle = refl; few = r.settled.few; reported = r.settled.reported };
          no_client = r.no_client;
          is_server = refl;
        },
      )
