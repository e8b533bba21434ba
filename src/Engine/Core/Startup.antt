-- ===== src/Engine/Core/Startup.antt =====
-- What becomes of the engine after its start, by the mode.
use kge.Prelude.{ℕ, ◌≡◌, refl, ap, ◌∙◌, true, none, some, List, ◌∷◌, Outcome, done, undefined}
use kge.Support.Time.{start_timer, sim_time_milliseconds}
use kge.Support.Scheduler.{new_scheduler}
use kge.Support.Scheduler.Update.{update_passes}
use kge.Network.OutgoingClientBase.{Client, new_client}
use kge.Network.OutgoingClientBase
use kge.Game.HandShake.{HandShake}
use kge.Game.OutgoingClientSingleton.{ClientMembers}
use kge.Engine.Core.{
  Core, Attempt, FrameInput, engine_client, start, start_mode, run_loop, frame, try_frame, then_do,
  scheduler_step, client_step, server_step, clock_step,
}

pub nothing_due :
    (k : Core)
    → k.scheduler ≡ new_scheduler
    → scheduler_step k ≡ done (record k { scheduler = new_scheduler })
unfolding new_scheduler
nothing_due k e = rw (e, update_passes new_scheduler (sim_time_milliseconds k.clock) tt) refl

module _ (old : HandShake) where
  unconnected_update :
      (c : Client ClientMembers) (k : Core) (f : FrameInput)
      → k.client ≡ some c
      → c.internal_host ≡ none
      → client_step old f.client_events k ≡ undefined
  unfolding OutgoingClientBase.update
  unconnected_update c k f is_client no_host = rw (is_client, no_host) refl

  -- A frame of a client without a host, where nothing is due.
  unconnected_frame :
      (c : Client ClientMembers) (k : Core) (f : FrameInput)
      → k.client ≡ some c
      → c.internal_host ≡ none
      → k.scheduler ≡ new_scheduler
      → frame old k f ≡ undefined
  unfolding frame try_frame
  unconnected_frame c k f is_client no_host idle =
      let (timer_id, clock) = start_timer k.clock f.started_at in
      let timed : Core = record k { clock = clock } in
      let after : Core = record timed { scheduler = new_scheduler } in
      let third : Core → Outcome Core = λ k3. clock_step timer_id f.stopped_at k3 in
      let second : Core → Outcome Core = λ k2. then_do (server_step old f.server_events k2) third in
      let first : Core → Outcome Core = λ k1. then_do (client_step old f.client_events k1) second in
      let stops : try_frame old k f ≡ undefined =
        ap (λ o. then_do o first) (nothing_due timed idle)
        ∙ ap (λ o. then_do o second) (unconnected_update c after f is_client no_host) in
      rw (frame, stops) refl

  -- In the mode ENGINE_CLIENT, with nothing scheduled, the engine starts and its first frame is undefined
  -- behaviour: `update` of a client that never connected gives ENet a NULL host.
  pub start-engine_client :
      (k : Core) (a : Attempt) (last_packet_id : ℕ) (game : ClientMembers) (f : FrameInput)
      (fs : List FrameInput)
      → k.engine_mode ≡ engine_client
      → k.scheduler ≡ new_scheduler
      → (core : Core) × (start old k a (new_client last_packet_id game) ≡ done (true, core))
        × (run_loop old core (f ∷ fs) ≡ undefined)
  unfolding start start_mode new_client run_loop
  start-engine_client k a last_packet_id game f fs mode idle =
      let core = record k { running = true; client = some (new_client last_packet_id game) } in
      let dies = unconnected_frame (new_client last_packet_id game) core f refl refl idle in
      (core, simp mode refl, ap (λ o. then_do o λ k'. run_loop old k' fs) dies)
