-- ===== src/Engine/Core/Lifetime/Launch.antt =====
-- From `getPointer` to `destroy`.
use kge.Prelude.{
  ℕ, ◌<◌, length, ◌≡◌, refl, Bool, true, false, none, some, List, [], done, undefined, ◌⊎◌, inl,
  inr,
}
use kge.Support.Time.{Clock}
use kge.Support.Scheduler.{new_scheduler}
use kge.Network.OutgoingClientBase.{Client}
use kge.Network.ServerBase
use kge.Network.OutgoingClientBase.Connection.{connect_down}
use kge.Game.HandShake.{HandShake}
use kge.Game.OutgoingClientSingleton.{ClientMembers}
use kge.Game.OutgoingClientSingleton
use kge.Engine.Core.{
  EngineMode, engine_clientconnect, engine_dedicated, Core, Attempt, FrameInput, kill, start,
  start_mode, connect_mode,
}
use kge.Engine.Core.Frames.{disconnect_client_lem, forgotten}
use kge.Engine.Core.Statics.{framed}
use kge.Engine.Core.Serving.{FramesLegal, dedicated, dedicated_run}
use kge.Engine.Core.Lifetime.{
  Engine, Remains, remains, with_core_of, before_device, some_frame, new_engine, get_pointer,
  set_mode, set_target_server, set_game, run, run_device, destroy, destructor, launch, aimed,
}

-- The core that is set up.
abbrev pub set_up : Clock → EngineMode → List ℕ → List ℕ → Engine
set_up clock mode address game =
    set_game (set_target_server (set_mode (new_engine clock new_scheduler) mode) address 11595) game

module _ (old : HandShake) where
  pub destroy_without_device : (e : Engine) → e.irrlicht_device ≡ false → destroy old e ≡ undefined
  unfolding destroy destructor
  destroy_without_device e no_device =
      rw (destructor, disconnect_client_lem old (kill e.core)) (rw no_device)

  pub destroy_with_device :
      (e : Engine)
      → e.irrlicht_device ≡ true
      → destroy old e
        ≡ done (remains (record (kill e.core) { client = forgotten e.core.client }) e.statics)
  unfolding destroy destructor kill
  destroy_with_device e device =
      rw (destructor, disconnect_client_lem old (kill e.core)) (rw device)

  -- A connection that does not come up ends `run` before it makes a device, or is a fault.
  start_failed :
      (k : Core) (a : Attempt) (c : Client ClientMembers)
      → k.engine_mode ≡ engine_clientconnect
      → c.is_connected ≡ false
      → a.came_up ≡ false
      → (start old k a c ≡ undefined) ⊎ ((k' : Core) × (start old k a c ≡ done (false, k')))
  unfolding start start_mode connect_mode
  start_failed k a c mode offline down =
      elim (connect_down (OutgoingClientSingleton.callbacks old) c a.valid_address a.host a.peer
        a.target_port (λ d. refl)) [
          | inl e ↦ inl (simp mode (simp (connect_mode, down) (rw e)))
          | inr (d, e, same) ↦ inr (
            record k { running = true; client = some d },
            simp mode (simp (connect_mode, down) (rw e (simp (same, offline) refl))),
          )
        ]

  run_failed :
      (e : Engine) (a : Attempt) (c : Client ClientMembers) (device : Bool)
      (frames : List FrameInput)
      → e.core.engine_mode ≡ engine_clientconnect
      → e.irrlicht_device ≡ false
      → c.is_connected ≡ false
      → a.came_up ≡ false
      → (run old e a c device frames ≡ undefined)
        ⊎ ((e' : Engine) × (run old e a c device frames ≡ done (some 1, e'))
            × (e'.irrlicht_device ≡ false))
  unfolding run
  run_failed e a c device frames mode no_device offline down =
      elim (start_failed e.core (aimed e a) c mode offline down) [
        | inl f ↦ inl (rw (run, f))
        | inr (k, f) ↦ inr (with_core_of e k, rw (run, f), no_device)
      ]

  -- With `-server`, when no connection to the server comes up, `run` returns 1 at best, without
  -- having made a device, and the core is destroyed, which calls `drop` through a NULL
  -- pointer: the launch has undefined behaviour, whatever ENet answers.
  pub launch_failed :
      (clock : Clock) (address game : List ℕ) (a : Attempt) (c : Client ClientMembers)
      (device : Bool) (frames : List FrameInput)
      → c.is_connected ≡ false
      → a.came_up ≡ false
      → launch old none clock new_scheduler engine_clientconnect address game a c device frames
        ≡ undefined
  unfolding launch get_pointer new_engine set_mode set_target_server set_game
  launch_failed clock address game a c device frames offline down =
      elim (run_failed (set_up clock engine_clientconnect address game) a c device frames refl refl
        offline down) [
          | inl f ↦ rw (launch, f)
          | inr (e, f, no_device) ↦ rw (launch, f) (destroy_without_device e no_device)
        ]

  -- A dedicated server for which ENet makes a host and Irrlicht a device, with fewer than 255 timers running:
  -- whatever its clients send in however many frames, the launch ends with the core destroyed,
  -- without a fault and without an exception; no client is left and no host listens.
  pub launch-dedicated :
      (clock : Clock) (address game : List ℕ) (a : Attempt) (c : Client ClientMembers) (host : ℕ)
      (frames : List FrameInput)
      → a.host ≡ some host
      → length clock.timer_stack < 255
      → FramesLegal old []
          (dedicated old (set_up clock engine_dedicated address game).core a host)
          frames
      → (left : Remains) × (launch old none clock new_scheduler engine_dedicated address game a c
            true frames
          ≡ done left)
        × (left.client ≡ none)
        × (left.listening ≡ none)
  unfolding launch run run_device get_pointer new_engine set_mode set_target_server set_game
      ServerBase.close kill
  launch-dedicated clock address game a c host frames has_host few legal =
      let e = set_up clock engine_dedicated address game in
      let (starts, (k, _, runs, (no_client, _, (s, is_server, _)))) =
        dedicated_run old e.core (aimed e a) c host frames refl has_host refl refl few legal in
      let entered = before_device e (dedicated old e.core a host) in
      let ended : Engine = record entered {
        core = k;
        irrlicht_device = true;
        statics = framed (some_frame true frames) entered.statics;
      } in
      let looped : run old e a c true frames ≡ done (none, ended) =
        rw (run, starts) (rw (run_device, runs)) in
      (
        remains (record (kill k) { client = forgotten k.client }) ended.statics,
        rw (launch, looped) (destroy_with_device ended refl),
        simp no_client refl,
        simp is_server refl,
      )
