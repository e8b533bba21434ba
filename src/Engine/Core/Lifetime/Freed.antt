-- ===== src/Engine/Core/Lifetime/Freed.antt =====
-- What a launch makes, it deletes.
use mathlib.Core.Path.{subst}
use kge.Prelude.{
  ℕ, ◌≡◌, refl, Bool, true, false, Option, none, some, List, Outcome, done, raised, undefined,
}
use kge.Support.Time.{Clock}
use kge.Support.Scheduler.{new_scheduler}
use kge.Network.OutgoingClientBase.{Client}
use kge.Game.HandShake.{HandShake}
use kge.Game.OutgoingClientSingleton.{ClientMembers}
use kge.Engine.Core.{EngineMode, Core, Attempt, FrameInput, kill, start, run_loop}
use kge.Engine.Core.Statics.{
  AllFreed, IsFreed, no_tally, no_statics, when, is_there, got, destroyed, connected, listening,
  framed, torn_down,
}
use kge.Engine.Core.Presence.{Stays, is_there-forgotten, run_loop-Has}
use kge.Engine.Core.Lifetime.{
  Engine, Remains, new_engine, get_pointer, set_mode, set_target_server, set_game, run, run_device,
  destroy, launch, before_device, with_core, with_core_of, some_frame, abandoned, aimed,
}
use kge.Engine.Core.Lifetime.Launch.{set_up, destroy_with_device, destroy_without_device}

-- A launch that ends leaves no instance.
Frees : Outcome Remains → Type 0
Frees (done left) = AllFreed left.statics
Frees (raised x left) = Unit
Frees undefined = Unit

got_and_destroyed : (b : Bool) → IsFreed (when b destroyed (when b got no_tally))
unfolding got destroyed
got_and_destroyed true = (refl, refl)
got_and_destroyed false = (refl, refl)

surely_destroyed : (b : Bool) → IsFreed (destroyed (when b got no_tally))
unfolding got destroyed
surely_destroyed true = (refl, refl)
surely_destroyed false = (refl, refl)

-- What is made at the start and in the frames is what is torn down.
torn_down-AllFreed :
    (client server frame : Bool)
    → AllFreed
        (torn_down client server (framed frame (listening (connected client server no_statics))))
unfolding torn_down framed listening connected
torn_down-AllFreed client server frame = record {
  client = got_and_destroyed client;
  server = got_and_destroyed server;
  division = got_and_destroyed server;
  listener = surely_destroyed true;
  scheduler = surely_destroyed frame;
}

module _ (old : HandShake) where
  -- The rest of a launch behind `run`.
  abbrev ending : Outcome (Option ℕ × Engine) → Outcome Remains
  ending o = elim o [
    | done (_, e) ↦ destroy old e
    | raised x (_, e) ↦ raised x (abandoned e)
    | undefined ↦ undefined
  ]

  looped-Frees :
      (e : Engine) (o : Outcome Core) (client server frame : Bool)
      → e.statics ≡ framed frame (listening (connected client server no_statics))
      → Stays client server o
      → Frees (ending (with_core e true o))
  unfolding Frees kill
  looped-Frees e (done k) client server frame made (has_client, has_server) =
      rw
        (
          destroy_with_device old (record e { core = k; irrlicht_device = true }) refl,
          is_there-forgotten k.client,
          has_client,
          has_server,
          made,
        )
        (torn_down-AllFreed client server frame)
  looped-Frees e (raised x k) client server frame made h = tt
  looped-Frees e undefined client server frame made h = tt

  started-Frees :
      (e : Engine) (k : Core) (device : Bool) (frames : List FrameInput)
      → e.statics ≡ no_statics
      → Frees (ending (run_device old (before_device e k) device frames))
  unfolding run_device Frees
  started-Frees e k false frames made = tt
  started-Frees e k true frames made =
      looped-Frees
        (record (before_device e k) {
          statics = framed (some_frame k.running frames) (before_device e k).statics;
        })
        (run_loop old k frames) (is_there k.client) (is_there k.server)
        (some_frame k.running frames) (rw made refl)
        (run_loop-Has old (is_there k.client) (is_there k.server) k frames (refl, refl))

  run-Frees :
      (e : Engine) (a : Attempt) (c : Client ClientMembers) (device : Bool)
      (frames : List FrameInput)
      → e.statics ≡ no_statics
      → e.irrlicht_device ≡ false
      → Frees (ending (run old e a c device frames))
  unfolding run Frees
  run-Frees e a c device frames made no_device = go (start old e.core (aimed e a) c)
    where
      go :
          (o : Outcome (Bool × Core))
          → Frees (
              ending (elim o [
                | done (true, k) ↦ run_device old (before_device e k) device frames
                | done (false, k) ↦ done (some 1, with_core_of e k)
                | raised x (_, k) ↦ raised x (none, with_core_of e k)
                | undefined ↦ undefined
              ]))
      go (done (true, k)) = started-Frees e k device frames made
      go (done (false, k)) = rw (destroy_without_device old (with_core_of e k) no_device) tt
      go (raised x (b, k)) = tt
      go undefined = tt

  -- A launch that ends, in whatever mode, with whatever frames, and with whatever exceptions in them, leaves none of
  -- the client, the server, the map division, the input listener and the scheduler: as many
  -- of each were deleted as were made.
  pub launch-AllFreed :
      (clock : Clock) (mode : EngineMode) (address game : List ℕ) (a : Attempt)
      (c : Client ClientMembers) (device : Bool) (frames : List FrameInput) (left : Remains)
      → launch old none clock new_scheduler mode address game a c device frames ≡ done left
      → AllFreed left.statics
  unfolding launch get_pointer new_engine set_mode set_target_server set_game Frees
  launch-AllFreed clock mode address game a c device frames left e =
      subst Frees e (run-Frees (set_up clock mode address game) a c device frames refl refl)
