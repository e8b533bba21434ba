-- ===== src/Examples/Programs.antt =====
-- The program on concrete command lines.
use kge.Prelude.{
  ℕ, ◌==◌, ◌≡◌, refl, Bool, true, false, none, some, List, [], ◌∷◌, arith, length, done, undefined,
  get_elem?,
}
use kge.Support.Time.{Clock}
use kge.Support.CommandLineParser.{Text, new_parser, set_flag_responder, parsed, parse}
use kge.Support.CommandLineParser.Parsing.{named, arguments_of}
use kge.Support.CommandLineParser.Responders.{calls}
use kge.Network.PacketBase.{new_packet}
use kge.Network.ServerBase.{Event, connect, receive}
use kge.Network.ServerBase.Sessions.{session, owner}
use kge.Network.OutgoingClientBase.{new_client}
use kge.Game.HandShake.{HandShake, packet_handshake}
use kge.Engine.Core.{Core, FrameInput}
use kge.Engine.Core.Serving.{FramesLegal}
use kge.Engine.Core.{engine_dedicated}
use kge.Support.Scheduler.{new_scheduler}
use kge.Engine.Core.Lifetime.{Remains}
use kge.Engine.Core.Lifetime
use kge.Engine.Core.Lifetime.Launch.{launch-dedicated}
use kge.Engine.Core.Lifetime.Freed.{launch-AllFreed}
use kge.Network.OutgoingClientBase.{disconnected}
use kge.Network.OutgoingClientBase
use kge.Engine.Core.Statics.{AllFreed}
use kge.Engine.EngineMain.{main_entries, game_responder, dash_game, dash_dedicated, dash_server}
use kge.Engine.EngineMain.Launches.{registered}
use kge.Engine.EngineMain.Program.{World, main, main-dedicated, main_unconnected}

abbrev hash : Text → ℕ
hash word = length word

abbrev is_flag : Text → Bool
is_flag [] = false
is_flag (c ∷ cs) = c == 45

abbrev argv0 : Text
argv0 = 107 ∷ []

abbrev game_name : Text
game_name = 97 ∷ []

-- "-game a -dedicated"
abbrev serve_words : List Text
serve_words = dash_game ∷ game_name ∷ dash_dedicated ∷ []

first_call :
    calls (registered hash is_flag argv0 serve_words main_entries) (5 ∷ 10 ∷ [])
    ≡ (game_responder, game_name ∷ []) ∷ []
unfolding calls new_parser set_flag_responder parsed parse
first_call = refl

serve_names :
    (named hash is_flag (hash dash_dedicated) serve_words ≡ true)
    × (named hash is_flag (hash dash_server) serve_words ≡ false)
unfolding named
serve_names = (refl, refl)

abbrev stale : HandShake
stale = record {
  base = new_packet packet_handshake none;
  version_major = 0;
  version_minor = 0;
  version_revision = 0;
  version_build = 0;
}

abbrev visit : List Event
visit = connect 5 9 ∷ receive 5 (1 ∷ 2 ∷ 3 ∷ []) ∷ []

abbrev one_frame : List FrameInput
one_frame =
    record { started_at = 1000; stopped_at = 33000; client_events = []; server_events = visit } ∷ []

one_frame-FramesLegal : (k : Core) → FramesLegal stale [] k one_frame
unfolding session owner
one_frame-FramesLegal k = (((refl, refl), ((9, refl, omega arith), tt)), λ k' n e h. tt)

abbrev world : World
world = record {
  log_opens = true;
  log_dir = some (47 ∷ []);
  attempt = record {
    valid_address = true;
    host = some 1;
    peer = some 6;
    came_up = false;
    target_port = 11595;
    map_started_at = 200;
    map_stopped_at = 700;
  };
  client = new_client 0 (record { printed = [] });
  device = true;
  frames = one_frame;
}

abbrev clock : Clock
clock = record { timer_stack = []; current_sim_time = 0 }

main-dedicated_example :
    (left : Remains) × (main stale world false hash is_flag clock argv0 serve_words (5 ∷ 10 ∷ [])
      ≡ done (left ∷ []))
    × (left.client ≡ none)
    × (left.listening ≡ none)
    × AllFreed left.statics
main-dedicated_example =
    main-dedicated stale world false hash is_flag clock argv0 serve_words (5 ∷ 10 ∷ []) game_name []
      first_call (47 ∷ []) 1 refl refl serve_names.0 serve_names.1 refl refl (omega arith)
      (one_frame-FramesLegal _)

abbrev target : Text
target = 49 ∷ []

-- "-game a -server 1"
abbrev join_words : List Text
join_words = dash_game ∷ game_name ∷ dash_server ∷ target ∷ []

first_join :
    calls (registered hash is_flag argv0 join_words main_entries) (5 ∷ 7 ∷ [])
    ≡ (game_responder, game_name ∷ []) ∷ []
unfolding calls new_parser set_flag_responder parsed parse
first_join = refl

join_names :
    (named hash is_flag (hash dash_server) join_words ≡ true)
    × (get_elem? (arguments_of hash is_flag (hash dash_server) join_words) 0 ≡ some target)
unfolding named arguments_of
join_names = (refl, refl)

offline : world.client.is_connected ≡ false
unfolding new_client
offline = refl

main_unconnected_example :
    main stale world false hash is_flag clock argv0 join_words (5 ∷ 7 ∷ []) ≡ undefined
main_unconnected_example =
    main_unconnected stale world false hash is_flag clock argv0 join_words (5 ∷ 7 ∷ []) game_name []
      first_join 49 [] join_names.0 join_names.1 offline refl

-- A dedicated server for one frame.
served :
    (left : Remains) × (Lifetime.launch stale none clock new_scheduler engine_dedicated [] game_name
        world.attempt world.client true world.frames
      ≡ done left)
    × (left.client ≡ none)
    × (left.listening ≡ none)
served =
    launch-dedicated stale clock [] game_name world.attempt world.client 1 world.frames refl
      (omega arith) (one_frame-FramesLegal _)

launch-AllFreed_example : AllFreed served.0.statics
launch-AllFreed_example =
    launch-AllFreed stale clock engine_dedicated [] game_name world.attempt world.client true
      world.frames served.0 served.1

-- The server sends three bytes, and disconnects.
abbrev online : World
online = record {
  log_opens = true;
  log_dir = some (47 ∷ []);
  attempt = record (world.attempt) { came_up = true };
  client = world.client;
  device = true;
  frames =
      record {
        started_at = 1000;
        stopped_at = 33000;
        client_events = OutgoingClientBase.receive (1 ∷ 2 ∷ 3 ∷ []) ∷ disconnected ∷ [];
        server_events = [];
      }
      ∷ [];
}
