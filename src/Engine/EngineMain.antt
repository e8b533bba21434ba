-- ===== src/Engine/EngineMain.antt =====
-- apps/engine/source/EngineMain.cpp: the log that `std::cout` and `std::cerr` are led to, and the responders
-- of the flags.
pub mod Log
pub mod Streams
pub mod Launches
pub mod Program
use kge.Prelude.{
  ℕ, ◌==◌, Bool, true, false, not, ◌&&◌, Option, none, some, List, [], ◌∷◌, ◌++◌, if◌then◌else◌,
  get_elem?,
}
use kge.Support.CommandLineParser.{
  Text, FlagEntry, CommandLineParser, Invocation, display_help, display_help_responder, has_flag,
  get_flag_argument, new_parser, set_flag_responder,
}
use kge.Engine.Core.{EngineMode, engine_client, engine_clientconnect, engine_dedicated}

-- DebugLog, with what was written to the old stream and to the log file.
pub record DebugLog : Type 0 where
  pub text_prepend : Text
  pub wrote_prepend_text : Bool
  pub old_stream : Text
  pub log_file_stream : Text

abbrev pub newline : ℕ
newline = 10

abbrev pub is_empty : Text → Bool
is_empty [] = true
is_empty (c ∷ cs) = false

-- `newString.rfind("\n") != std::string::npos`
unfoldable pub has_newline : Text → Bool
has_newline [] = false
has_newline (c ∷ cs) = let rest = has_newline cs in if c == newline then true else rest

-- `newString != "\n"`
abbrev pub is_newline : Text → Bool
is_newline (c ∷ []) = c == newline
is_newline _ = false

unfoldable pub needs_prepend : DebugLog → Text → Bool
needs_prepend d str =
    not (is_empty d.text_prepend) && not d.wrote_prepend_text && not (is_newline str)

abbrev pub with_prepend : DebugLog → Text → Text
with_prepend d str = if needs_prepend d str then d.text_prepend ++ str else str

-- `write(str, size)`, which returns the size.
unfoldable pub write : DebugLog → Text → DebugLog
write d str = record d {
  wrote_prepend_text =
      if has_newline (with_prepend d str)
      then false
      else if needs_prepend d str
      then true
      else d.wrote_prepend_text;
  old_stream = d.old_stream ++ with_prepend d str;
  log_file_stream = d.log_file_stream ++ with_prepend d str;
}

unfoldable pub write_all : DebugLog → List Text → DebugLog
write_all d [] = d
write_all d (str ∷ strs) = write_all (write d str) strs

abbrev pub dash_game : Text
dash_game = 45 ∷ 103 ∷ 97 ∷ 109 ∷ 101 ∷ []

abbrev pub dash_dedicated : Text
dash_dedicated = 45 ∷ 100 ∷ 101 ∷ 100 ∷ 105 ∷ 99 ∷ 97 ∷ 116 ∷ 101 ∷ 100 ∷ []

abbrev pub dash_server : Text
dash_server = 45 ∷ 115 ∷ 101 ∷ 114 ∷ 118 ∷ 101 ∷ 114 ∷ []

abbrev pub dash_v : Text
dash_v = 45 ∷ 118 ∷ []

-- What a responder does: nothing, a text of help or of the version, a run of the engine, or one of all tests.
pub data Effect : Type 0 where
  no_effect : Effect
  help : List Text → Effect
  version : Effect
  run : EngineMode → Text → ℕ → Text → Effect
  run_tests : Effect

abbrev pub game_responder : ℕ
game_responder = 1

abbrev pub version_responder : ℕ
version_responder = 2

abbrev pub tests_responder : ℕ
tests_responder = 3

module _ (hash : Text → ℕ) where
  -- The mode without the flag `-server`, and the start with it.
  abbrev pub engine_mode : CommandLineParser → EngineMode
  engine_mode p = if has_flag hash p dash_dedicated then engine_dedicated else engine_client

  abbrev start_game : CommandLineParser → Text → Effect
  start_game p game =
      let target = get_flag_argument hash p dash_server 0 in
      if not (has_flag hash p dash_server)
      then run (engine_mode p) [] 11595 game
      else if is_empty target
      then help (display_help p)
      else run engine_clientconnect target 11595 game

  -- `gameFlagHandler`
  unfoldable pub game_flag_handler : CommandLineParser → List Text → Bool → Effect
  game_flag_handler p arguments true = no_effect
  game_flag_handler p (game ∷ []) false = start_game p game
  game_flag_handler p _ false = help (display_help p)

  -- `testsFlagHandler`
  abbrev pub tests_flag_handler : Bool → Effect
  tests_flag_handler other_flags = if other_flags then no_effect else run_tests

  -- The responders that `main` registers, and `displayHelp`.
  unfoldable pub respond : CommandLineParser → Invocation → Effect
  respond p c =
      if c.responder == display_help_responder
      then help (display_help p)
      else if c.responder == game_responder
      then game_flag_handler p c.arguments c.other_flags
      else if c.responder == tests_responder
      then tests_flag_handler c.other_flags
      else version

-- "<game name> : Start up the engine with a given game."
abbrev pub game_text : Text
game_text =
    60 ∷ 103 ∷ 97 ∷ 109 ∷ 101 ∷ 32 ∷ 110 ∷ 97 ∷ 109 ∷ 101 ∷ 62 ∷ 32 ∷ 58 ∷ 32 ∷ 83 ∷ 116 ∷ 97 ∷ 114
    ∷ 116 ∷ 32 ∷ 117 ∷ 112 ∷ 32 ∷ 116 ∷ 104 ∷ 101 ∷ 32 ∷ 101 ∷ 110 ∷ 103 ∷ 105 ∷ 110 ∷ 101 ∷ 32
    ∷ 119 ∷ 105 ∷ 116 ∷ 104 ∷ 32 ∷ 97 ∷ 32 ∷ 103 ∷ 105 ∷ 118 ∷ 101 ∷ 110 ∷ 32 ∷ 103 ∷ 97 ∷ 109 ∷ 101
    ∷ 46 ∷ []

-- "Start up the engine as a standalone server."
abbrev pub dedicated_text : Text
dedicated_text =
    83 ∷ 116 ∷ 97 ∷ 114 ∷ 116 ∷ 32 ∷ 117 ∷ 112 ∷ 32 ∷ 116 ∷ 104 ∷ 101 ∷ 32 ∷ 101 ∷ 110 ∷ 103 ∷ 105
    ∷ 110 ∷ 101 ∷ 32 ∷ 97 ∷ 115 ∷ 32 ∷ 97 ∷ 32 ∷ 115 ∷ 116 ∷ 97 ∷ 110 ∷ 100 ∷ 97 ∷ 108 ∷ 111 ∷ 110
    ∷ 101 ∷ 32 ∷ 115 ∷ 101 ∷ 114 ∷ 118 ∷ 101 ∷ 114 ∷ 46 ∷ []

-- "Print versioning information."
abbrev pub version_text : Text
version_text =
    80 ∷ 114 ∷ 105 ∷ 110 ∷ 116 ∷ 32 ∷ 118 ∷ 101 ∷ 114 ∷ 115 ∷ 105 ∷ 111 ∷ 110 ∷ 105 ∷ 110 ∷ 103 ∷ 32
    ∷ 105 ∷ 110 ∷ 102 ∷ 111 ∷ 114 ∷ 109 ∷ 97 ∷ 116 ∷ 105 ∷ 111 ∷ 110 ∷ 46 ∷ []

abbrev pub dash_tests : Text
dash_tests = 45 ∷ 116 ∷ 101 ∷ 115 ∷ 116 ∷ 115 ∷ []

-- "Tests the engine with the Google Testing framework."
abbrev pub tests_text : Text
tests_text =
    84 ∷ 101 ∷ 115 ∷ 116 ∷ 115 ∷ 32 ∷ 116 ∷ 104 ∷ 101 ∷ 32 ∷ 101 ∷ 110 ∷ 103 ∷ 105 ∷ 110 ∷ 101 ∷ 32
    ∷ 119 ∷ 105 ∷ 116 ∷ 104 ∷ 32 ∷ 116 ∷ 104 ∷ 101 ∷ 32 ∷ 71 ∷ 111 ∷ 111 ∷ 103 ∷ 108 ∷ 101 ∷ 32 ∷ 84
    ∷ 101 ∷ 115 ∷ 116 ∷ 105 ∷ 110 ∷ 103 ∷ 32 ∷ 102 ∷ 114 ∷ 97 ∷ 109 ∷ 101 ∷ 119 ∷ 111 ∷ 114 ∷ 107
    ∷ 46 ∷ []

-- The entries that `main` registers.
abbrev pub main_entries : List FlagEntry
main_entries =
    record { name = dash_game; description = game_text; responder = some game_responder }
    ∷ record { name = dash_dedicated; description = dedicated_text; responder = none }
    ∷ record { name = dash_v; description = version_text; responder = some version_responder }
    ∷ []

-- With ENGINE_TESTS, which adds the flag -tests.
abbrev pub entries : Bool → List FlagEntry
entries false = main_entries
entries true =
    main_entries
    ++ record { name = dash_tests; description = tests_text; responder = some tests_responder } ∷ []
