-- ===== src/Examples/Frames.antt =====
-- The frames of the engine at concrete inputs.
use kge.Prelude.{◌≡◌, refl, true, none, [], ◌∷◌, arith, done, undefined, false, ◌⊎◌}
use kge.Support.Scheduler.{new_scheduler}
use kge.Network.PacketBase.{new_packet}
use kge.Game.HandShake.{HandShake, packet_handshake}
use kge.Engine.Core.{
  Core, FrameInput, engine_dedicated, engine_client, Attempt, start, frame, run_loop,
  catch_exception,
}
use kge.Engine.Core.Frames.{
  Ends, Never, Keeps, timed, leaked, frame_lem, catch_exception_lem, forgotten,
}
use kge.Engine.Core.Leaks.{Leaked, run_loop-Leaked}
use kge.Engine.Core.Startup.{start-engine_client}
use kge.Network.OutgoingClientBase.{new_client}

abbrev old : HandShake
old = record {
  base = new_packet packet_handshake none;
  version_major = 0;
  version_minor = 0;
  version_revision = 0;
  version_build = 0;
}

-- An engine that runs neither a client nor a server, and has reported one exception.
abbrev core : Core
core = record {
  running = true;
  engine_mode = engine_dedicated;
  client = none;
  server = none;
  clock = record { timer_stack = 400 ∷ []; current_sim_time = 500 };
  scheduler = new_scheduler;
  delta_time = 0;
  reports = 1;
}

abbrev input : FrameInput
input = record { started_at = 1000; stopped_at = 33000; client_events = []; server_events = [] }

frame_lem_example :
    Ends
      (λ k. (Keeps (timed core.clock input) 1 k) ⊎ (Keeps (leaked core.clock input) 2 k))
      Never
      (frame old core input)
frame_lem_example = frame_lem old core input (omega arith)

run_loop-Leaked_example : Ends (Leaked core) Never (run_loop old core (input ∷ input ∷ []))
run_loop-Leaked_example = run_loop-Leaked old core (input ∷ input ∷ []) refl (omega arith)

catch_exception_lem_example :
    catch_exception old core ≡ done (record core { reports = 2; client = forgotten none })
catch_exception_lem_example = catch_exception_lem old core

abbrev client_core : Core
client_core = record core { engine_mode = engine_client }

abbrev attempt : Attempt
attempt = record {
  valid_address = true;
  host = none;
  peer = none;
  came_up = false;
  target_port = 11595;
  map_started_at = 200;
  map_stopped_at = 700;
}

start-engine_client_example :
    (started : Core) × (start old client_core attempt (new_client 0 (record { printed = [] }))
      ≡ done (true, started))
    × (run_loop old started (input ∷ []) ≡ undefined)
start-engine_client_example =
    start-engine_client old client_core attempt 0 (record { printed = [] }) input [] refl refl
