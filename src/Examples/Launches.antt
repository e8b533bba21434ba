-- ===== src/Examples/Launches.antt =====
-- Launches of the engine at concrete inputs.
use kge.Prelude.{◌≡◌, refl, true, false, none, some, List, [], ◌∷◌, arith, done}
use kge.Support.Time.{Clock}
use kge.Support.Scheduler.{new_scheduler}
use kge.Network.PacketBase.{new_packet}
use kge.Network.ServerBase.{Event, connect, receive}
use kge.Network.ServerBase.Sessions.{Sessions, AllLegal, session, owner}
use kge.Network.OutgoingClientBase.{Client, new_client}
use kge.Game.HandShake.{HandShake, packet_handshake}
use kge.Game.OutgoingClientSingleton.{ClientMembers}
use kge.Engine.Core.{Core, FrameInput, engine_dedicated, Attempt, start, run_loop}
use kge.Engine.Core.Serving.{Serves, FramesLegal, dedicated, dedicated_run}

abbrev stale : HandShake
stale = record {
  base = new_packet packet_handshake none;
  version_major = 0;
  version_minor = 0;
  version_revision = 0;
  version_build = 0;
}

abbrev stopped_clock : Clock
stopped_clock = record { timer_stack = []; current_sim_time = 0 }

abbrev server_core : Core
server_core = record {
  running = false;
  engine_mode = engine_dedicated;
  client = none;
  server = none;
  clock = stopped_clock;
  scheduler = new_scheduler;
  delta_time = 0;
  reports = 0;
}

abbrev hosted : Attempt
hosted = record {
  valid_address = true;
  host = some 1;
  peer = some 6;
  came_up = false;
  target_port = 11595;
  map_started_at = 200;
  map_stopped_at = 700;
}

abbrev no_client : Client ClientMembers
no_client = new_client 0 (record { printed = [] })

-- A client comes and sends three bytes.
abbrev visit : List Event
visit = connect 5 9 ∷ receive 5 (1 ∷ 2 ∷ 3 ∷ []) ∷ []

abbrev two_frames : List FrameInput
two_frames =
    record { started_at = 1000; stopped_at = 33000; client_events = []; server_events = visit }
    ∷ record { started_at = 33000; stopped_at = 65000; client_events = []; server_events = [] }
    ∷ []

visit-AllLegal : AllLegal [] visit
unfolding session owner
visit-AllLegal = ((refl, refl), ((9, refl, omega arith), tt))

two_frames-FramesLegal : (k : Core) → FramesLegal stale [] k two_frames
two_frames-FramesLegal k = (visit-AllLegal, λ k' n e h. (tt, λ k2 m e2 h2. tt))

dedicated_run_example :
    (start stale server_core hosted no_client ≡ done (true, dedicated stale server_core hosted 1))
    × ((k' : Core) × (r' : Sessions) × (run_loop stale
            (dedicated stale server_core hosted 1)
            two_frames
          ≡ done k')
        × Serves r' k')
dedicated_run_example =
    dedicated_run stale server_core hosted no_client 1 two_frames refl refl refl refl (omega arith)
      (two_frames-FramesLegal (dedicated stale server_core hosted 1))
