-- ===== src/Examples/Sessions.antt =====
-- A client and a server that find each other.
use kge.Prelude.{◌≡◌, refl, true, none, some, List, [], ◌∷◌, ◌++◌, ◌+◌, arith, length, done}
use mathlib.Core.Option
use kge.Network.ServerBase.{Server, fresh_server}
use kge.Network.OutgoingClientBase.{Client, new_client}
use kge.Network.PacketBase.{new_packet}
use kge.Game.HandShake.{HandShake, packet_handshake}
use kge.Game.ServerSingleton.{Members, new_members}
use kge.Game.OutgoingClientSingleton.{ClientMembers}
use kge.Game.Session.{Action, dial, admit, Ends, perform, run}
use kge.Support.Scheduler.{new_scheduler}
use kge.Game.OutgoingClientSingleton.{enter_stage}
use kge.Game.OutgoingClientSingleton.Greeting.{version_1234}
use kge.Engine.Core.{Core, engine_dedicated, engine_clientconnect}
use kge.Engine.Core.Playing.{playing_core}
use kge.Engine.Core.Undisturbed.{RunsClient, RunsServer}
use kge.Engine.Meeting.{Meeting, Turn, client_turn, server_turn}
use kge.Engine.Meeting
use kge.Engine.Meeting.Greeting.{engines_greet}
use kge.Game.Session.Stages.{idle, joined, greeted, path, after}
use kge.Game.Session.Orders.{
  Apart, start, at, run-path, session_completes, dialled_client, served_session,
}

abbrev stale : HandShake
stale = record {
  base = new_packet packet_handshake none;
  version_major = 0;
  version_minor = 0;
  version_revision = 0;
  version_build = 0;
}

abbrev ends : Ends
ends = record { host = 2; server_peer = 6; port = 11595; client_peer = 5; address = 9 }

abbrev caller : Client ClientMembers
caller = new_client 3 (record { printed = [] })

abbrev host : Server Members
host = fresh_server (48 ∷ []) 11595 (some 1) new_members

apart : Apart caller host
unfolding new_client fresh_server
apart = record {
  no_host = refl;
  no_peer = refl;
  running = refl;
  client_id = omega arith;
  server_id = omega arith;
}

abbrev some_actions : List Action
some_actions = admit ∷ dial ∷ []

run-path_example :
    run stale ends (at stale ends caller host idle) some_actions
    ≡ Option.map (λ q. done (at stale ends caller host q)) (path idle some_actions)
run-path_example = run-path stale ends caller host apart idle some_actions

they_run :
    run stale ends (start stale ends caller host) some_actions
    ≡ some (done (at stale ends caller host joined))
unfolding path after
they_run = run-path stale ends caller host apart idle some_actions

session_completes_example :
    ((rest : List Action) × (length some_actions + length rest ≡ 4)
      × (run stale ends (start stale ends caller host) (some_actions ++ rest)
          ≡ some (done (at stale ends caller host greeted))))
    × ((a : Action) → perform stale ends (at stale ends caller host greeted) a ≡ none)
session_completes_example =
    session_completes stale ends caller host apart some_actions
      (done (at stale ends caller host joined)) they_run

-- Two engines after their starts.
abbrev bare_core : Core
bare_core = record {
  running = true;
  engine_mode = engine_dedicated;
  client = none;
  server = none;
  clock = record { timer_stack = []; current_sim_time = 0 };
  scheduler = new_scheduler;
  delta_time = 0;
  reports = 0;
}

abbrev meeting : Meeting
meeting = record {
  client_core =
      playing_core (record bare_core { engine_mode = engine_clientconnect })
        (dialled_client stale ends caller host);
  server_core = record bare_core { server = some host };
  to_server = 0;
  to_client = 0;
}

client_runs : RunsClient 0 (dialled_client stale ends caller host) meeting.client_core
client_runs = record {
  settled = record { idle = refl; few = omega arith; reported = refl };
  is_client = refl;
  no_server = refl;
}

server_runs : RunsServer 0 host meeting.server_core
server_runs = record {
  settled = record { idle = refl; few = omega arith; reported = refl };
  no_client = refl;
  is_server = refl;
}

-- The server takes the connection, the client looks too early, and then each takes all.
abbrev early : List Turn
early = server_turn 0 32000 1 ∷ client_turn 500 32500 4 ∷ []

abbrev turns : List Turn
turns =
    early ++ server_turn 32000 64000 9 ∷ client_turn 64000 96000 9 ∷ server_turn 64000 96000 1 ∷ []

engines_greet_example :
    ((u : Meeting) × (Meeting.run stale ends
          (length caller.outbox)
          (length host.outbox)
          meeting
          early
        ≡ done u)
      × (u.client_core.reports ≡ 0)
      × (u.server_core.reports ≡ 0))
    × ((v : Meeting) × (Meeting.run stale ends
            (length caller.outbox)
            (length host.outbox)
            meeting
            turns
          ≡ done v)
        × RunsClient 0
            (enter_stage (some version_1234) (dialled_client stale ends caller host))
            v.client_core
        × RunsServer 0 (served_session stale ends caller host).server v.server_core)
engines_greet_example =
    engines_greet stale ends caller host apart 0 0 meeting client_runs server_runs refl refl early
      (server_turn 64000 96000 1 ∷ []) 32000 64000 9 64000 96000 9 (omega arith) (omega arith)
