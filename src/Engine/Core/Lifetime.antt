-- ===== src/Engine/Core/Lifetime.antt =====
-- The rest of apps/engine/source/engine/CoreSingleton.cpp: how the core is made, set up, run and destroyed. Its
-- clients and servers are deleted through a pointer to their base, and only the base's destructor runs.
pub mod Launch
pub mod Connected
pub mod Freed
use kge.Prelude.{
  ℕ, Bool, true, false, Option, none, some, List, [], ◌∷◌, Outcome, done, raised, undefined,
  if◌then◌else◌,
}
use kge.Engine.Core.Statics.{Statics, no_statics, is_there, connected, listening, framed, torn_down}
use kge.Support.Time.{Clock}
use kge.Support.Scheduler.{Scheduler, new_scheduler}
use kge.Network.OutgoingClientBase.{Client}
use kge.Network.OutgoingClientBase
use kge.Network.ServerBase
use kge.Game.HandShake.{HandShake}
use kge.Game.OutgoingClientSingleton.{ClientMembers}
use kge.Engine.Core.{
  EngineMode, engine_client, Core, Attempt, FrameInput, kill, start, run_loop, disconnect_client,
}

-- The members that the frames do not read, and the instances that were made.
pub record Engine : Type 0 where
  pub core : Core
  pub game_name : List ℕ
  pub target_server_address : List ℕ
  pub target_server_port : ℕ
  pub irrlicht_device : Bool
  pub statics : Statics

-- "127.0.0.1"
abbrev pub local_address : List ℕ
local_address = 49 ∷ 50 ∷ 55 ∷ 46 ∷ 48 ∷ 46 ∷ 48 ∷ 46 ∷ 49 ∷ []

-- The constructor, beside the statics.
unfoldable pub new_engine : Clock → Scheduler → Engine
new_engine clock scheduler = record {
  core = record {
    running = false;
    engine_mode = engine_client;
    client = none;
    server = none;
    clock = clock;
    scheduler = scheduler;
    delta_time = 0;
    reports = 0;
  };
  game_name = [];
  target_server_address = local_address;
  target_server_port = 11595;
  irrlicht_device = false;
  statics = no_statics;
}

-- `getPointer`
unfoldable pub get_pointer : Option Engine → Clock → Scheduler → Engine
get_pointer none clock scheduler = new_engine clock scheduler
get_pointer (some engine) clock scheduler = engine

unfoldable pub set_mode : Engine → EngineMode → Engine
set_mode e mode = record e { core = record (e.core) { engine_mode = mode } }

unfoldable pub set_target_server : Engine → List ℕ → ℕ → Engine
set_target_server e address port = record e {
  target_server_address = address;
  target_server_port = port;
}

unfoldable pub set_game : Engine → List ℕ → Engine
set_game e game_name = record e { game_name = game_name }

abbrev pub with_core : Engine → Bool → Outcome Core → Outcome (Option ℕ × Engine)
with_core e device (done k) = done (none, record e { core = k; irrlicht_device = device })
with_core e device (raised x k) = raised x (none, record e { core = k; irrlicht_device = device })
with_core e device undefined = undefined

-- What is left of the statics when the core is gone.
pub record Remains : Type 0 where
  pub clock : Clock
  pub client : Option (Client ClientMembers)
  pub listening : Option ℕ
  pub statics : Statics

-- `OutgoingClientSingleton::destroy` and `ServerSingleton::destroy`, and what is left of them.
abbrev closed_client : Option (Client ClientMembers) → Option (Client ClientMembers)
closed_client none = none
closed_client (some c) = some (OutgoingClientBase.close c)

abbrev listening_at : Core → Option ℕ
listening_at k = elim k.server [ none ↦ none | some s ↦ (ServerBase.close s).internal_host ]

abbrev pub with_core_of : Engine → Core → Engine
with_core_of e k = record e {
  core = k;
  statics = connected (is_there k.client) (is_there k.server) e.statics;
}

-- The core after its constructor's and `run`'s calls of `getPointer`, and the first frame's, if there is one.
abbrev pub before_device : Engine → Core → Engine
before_device e k = record (with_core_of e k) {
  statics = listening (connected (is_there k.client) (is_there k.server) e.statics);
}

abbrev pub some_frame : Bool → List FrameInput → Bool
some_frame running [] = false
some_frame running (f ∷ fs) = running

abbrev pub remains : Core → Statics → Remains
remains k statics = record {
  clock = k.clock;
  client = closed_client k.client;
  listening = listening_at k;
  statics = torn_down (is_there k.client) (is_there k.server) statics;
}

-- What is left where an exception leaves `main` before the core is destroyed.
abbrev pub abandoned : Engine → Remains
abandoned e = record {
  clock = e.core.clock;
  client = e.core.client;
  listening = elim e.core.server [ none ↦ none | some s ↦ s.internal_host ];
  statics = e.statics;
}

abbrev pub aimed : Engine → Attempt → Attempt
aimed e a = record a { target_port = e.target_server_port }

module _ (old : HandShake) where
  -- The rest of `run`, where Irrlicht made a device or none.
  run_device : Engine → Bool → List FrameInput → Outcome (Option ℕ × Engine)
  run_device e false frames = undefined
  run_device e true frames =
      with_core (record e { statics = framed (some_frame e.core.running frames) e.statics }) true
        (run_loop old e.core frames)

  -- `run`, with the number that it returns, if it does; `c` is what OutgoingClientSingleton::getPointer gives.
  -- The target server's port is that of the setter, whatever the attempt holds.
  unfoldable pub run :
      Engine → Attempt → Client ClientMembers → Bool → List FrameInput → Outcome (Option ℕ × Engine)
  unfolding run_device
  run e a c device frames = elim (start old e.core (aimed e a) c) [
    | done (true, k) ↦ run_device (before_device e k) device frames
    | done (false, k) ↦ done (some 1, with_core_of e k)
    | raised x (_, k) ↦ raised x (none, with_core_of e k)
    | undefined ↦ undefined
  ]

  abbrev drop_device : Engine → Core → Outcome Remains
  drop_device e k = if e.irrlicht_device then done (remains k e.statics) else undefined

  -- `~CoreSingleton`, which drops the device without a test.
  destructor : Engine → Outcome Remains
  destructor e = elim (disconnect_client old e.core) [
    | done k ↦ drop_device e k
    | raised x k ↦ raised x (abandoned (record e { core = k }))
    | undefined ↦ undefined
  ]

  -- `destroy`
  unfoldable pub destroy : Engine → Outcome Remains
  unfolding destructor
  destroy e = destructor (record e { core = kill e.core })

  -- What `gameFlagHandler` does with the core: it makes it, sets it up, runs it, and destroys it.
  unfoldable pub launch :
      Option Engine
      → Clock
      → Scheduler
      → EngineMode
      → List ℕ
      → List ℕ
      → Attempt
      → Client ClientMembers
      → Bool
      → List FrameInput
      → Outcome Remains
  launch existing clock scheduler mode address game a c device frames =
      let made = set_mode (get_pointer existing clock scheduler) mode in
      elim (run (set_game (set_target_server made address 11595) game) a c device frames) [
        | done (_, e) ↦ destroy e
        | raised x (_, e) ↦ raised x (abandoned e)
        | undefined ↦ undefined
      ]
