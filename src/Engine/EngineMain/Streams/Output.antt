-- ===== src/Engine/EngineMain/Streams/Output.antt =====
-- What `main` of apps/engine/source/EngineMain.cpp and the responders write.
use kge.Prelude.{ℕ, ◌≡◌, ◌==◌, Bool, true, false, not, List, [], ◌∷◌, ◌++◌, map, All, if◌then◌else◌}
use kge.Support.CommandLineParser.{
  Text, CommandLineParser, Invocation, display_help, display_help_responder, has_flag,
  get_flag_argument, invoke_flag_responders,
}
use kge.Engine.Core.{EngineMode, engine_clientconnect}
use kge.Engine.EngineMain.{is_empty, engine_mode, dash_server, game_responder, tests_responder}
use kge.Engine.EngineMain.Log.{OneLine}
use kge.Engine.EngineMain.Streams.{Line, Shown, redirect, print_lines, restore}
use kge.Engine.EngineMain.Streams.Splits.{Splits}
use kge.Engine.EngineMain.Streams.Interleaving.{
  IsLine, log_text, out_text, err_text, print_lines-log_text,
}

-- A line that is written, and whether to `std::cerr`.
pub record Said : Type 0 where
  pub to_err : Bool
  pub text : Text

abbrev out : Text → Said
out text = record { to_err = false; text = text }

abbrev err : Text → Said
err text = record { to_err = true; text = text }

-- "------------------------------------------------"
abbrev pub dashes : Text
dashes =
    45 ∷ 45 ∷ 45 ∷ 45 ∷ 45 ∷ 45 ∷ 45 ∷ 45 ∷ 45 ∷ 45 ∷ 45 ∷ 45 ∷ 45 ∷ 45 ∷ 45 ∷ 45 ∷ 45 ∷ 45 ∷ 45
    ∷ 45 ∷ 45 ∷ 45 ∷ 45 ∷ 45 ∷ 45 ∷ 45 ∷ 45 ∷ 45 ∷ 45 ∷ 45 ∷ 45 ∷ 45 ∷ 45 ∷ 45 ∷ 45 ∷ 45 ∷ 45 ∷ 45
    ∷ 45 ∷ 45 ∷ 45 ∷ 45 ∷ 45 ∷ 45 ∷ 45 ∷ 45 ∷ 45 ∷ 45 ∷ []

-- "Kiaro Game Engine"
abbrev pub engine_name : Text
engine_name =
    75 ∷ 105 ∷ 97 ∷ 114 ∷ 111 ∷ 32 ∷ 71 ∷ 97 ∷ 109 ∷ 101 ∷ 32 ∷ 69 ∷ 110 ∷ 103 ∷ 105 ∷ 110 ∷ 101
    ∷ []

-- "Copyright (c) 2014 Draconic Entertainment"
abbrev pub copyright : Text
copyright =
    67 ∷ 111 ∷ 112 ∷ 121 ∷ 114 ∷ 105 ∷ 103 ∷ 104 ∷ 116 ∷ 32 ∷ 40 ∷ 99 ∷ 41 ∷ 32 ∷ 50 ∷ 48 ∷ 49 ∷ 52
    ∷ 32 ∷ 68 ∷ 114 ∷ 97 ∷ 99 ∷ 111 ∷ 110 ∷ 105 ∷ 99 ∷ 32 ∷ 69 ∷ 110 ∷ 116 ∷ 101 ∷ 114 ∷ 116 ∷ 97
    ∷ 105 ∷ 110 ∷ 109 ∷ 101 ∷ 110 ∷ 116 ∷ []

-- "EngineMain: Exited successfully."
abbrev pub exited : Text
exited =
    69 ∷ 110 ∷ 103 ∷ 105 ∷ 110 ∷ 101 ∷ 77 ∷ 97 ∷ 105 ∷ 110 ∷ 58 ∷ 32 ∷ 69 ∷ 120 ∷ 105 ∷ 116 ∷ 101
    ∷ 100 ∷ 32 ∷ 115 ∷ 117 ∷ 99 ∷ 99 ∷ 101 ∷ 115 ∷ 115 ∷ 102 ∷ 117 ∷ 108 ∷ 108 ∷ 121 ∷ 46 ∷ []

-- "Kiaro Game Engine version "
abbrev pub version_line : Text
version_line =
    75 ∷ 105 ∷ 97 ∷ 114 ∷ 111 ∷ 32 ∷ 71 ∷ 97 ∷ 109 ∷ 101 ∷ 32 ∷ 69 ∷ 110 ∷ 103 ∷ 105 ∷ 110 ∷ 101
    ∷ 32 ∷ 118 ∷ 101 ∷ 114 ∷ 115 ∷ 105 ∷ 111 ∷ 110 ∷ 32 ∷ []

-- "No game specified."
abbrev pub no_game : Text
no_game =
    78 ∷ 111 ∷ 32 ∷ 103 ∷ 97 ∷ 109 ∷ 101 ∷ 32 ∷ 115 ∷ 112 ∷ 101 ∷ 99 ∷ 105 ∷ 102 ∷ 105 ∷ 101 ∷ 100
    ∷ 46 ∷ []

-- "No server specified with the server flag."
abbrev pub no_server : Text
no_server =
    78 ∷ 111 ∷ 32 ∷ 115 ∷ 101 ∷ 114 ∷ 118 ∷ 101 ∷ 114 ∷ 32 ∷ 115 ∷ 112 ∷ 101 ∷ 99 ∷ 105 ∷ 102 ∷ 105
    ∷ 101 ∷ 100 ∷ 32 ∷ 119 ∷ 105 ∷ 116 ∷ 104 ∷ 32 ∷ 116 ∷ 104 ∷ 101 ∷ 32 ∷ 115 ∷ 101 ∷ 114 ∷ 118
    ∷ 101 ∷ 114 ∷ 32 ∷ 102 ∷ 108 ∷ 97 ∷ 103 ∷ 46 ∷ []

abbrev pub banner : List Said
banner = out dashes ∷ out engine_name ∷ out copyright ∷ out dashes ∷ []

-- What a run of the engine writes is an argument, and what Google's tests write.
module _ (hash : Text → ℕ) (engine_says : EngineMode → Text → Text → List Said)
    (gtest_says : List Said) where
  abbrev help_says : CommandLineParser → List Said
  help_says p = map out (display_help p)

  abbrev start_says : CommandLineParser → Text → List Said
  start_says p game =
      let target = get_flag_argument hash p dash_server 0 in
      if not (has_flag hash p dash_server)
      then engine_says (engine_mode hash p) [] game
      else if is_empty target
      then err no_server ∷ help_says p
      else engine_says engine_clientconnect target game

  -- `gameFlagHandler`
  unfoldable pub game_says : CommandLineParser → List Text → Bool → List Said
  game_says p arguments true = []
  game_says p (game ∷ []) false = start_says p game
  game_says p _ false = err no_game ∷ err [] ∷ help_says p

  -- `testsFlagHandler`
  abbrev tests_say : Bool → List Said
  tests_say other_flags = if other_flags then [] else gtest_says

  -- The responders, `displayHelp` and `versionFlagHandler` among them.
  unfoldable pub responder_says : CommandLineParser → Invocation → List Said
  responder_says p c =
      if c.responder == display_help_responder
      then help_says p
      else if c.responder == game_responder
      then game_says p c.arguments c.other_flags
      else if c.responder == tests_responder
      then tests_say c.other_flags
      else out version_line ∷ []

  unfoldable pub all_say : CommandLineParser → List Invocation → List Said
  all_say p [] = []
  all_say p (c ∷ cs) = responder_says p c ++ all_say p cs

  -- `main`, where the map of the flags is gone through in the order of the keys and no responder throws.
  unfoldable pub main_says : CommandLineParser → List ℕ → List Said
  main_says p order =
      banner ++ (all_say p (invoke_flag_responders (λ c. false) hash p order).0 ++ out exited ∷ [])

-- The lines as boost hands them on.
abbrev pub in_pieces : (Bool → Text → List Text) → List Said → List Line
in_pieces split [] = []
in_pieces split (s ∷ says) =
    record { to_err = s.to_err; text = s.text; pieces = split s.to_err s.text }
    ∷ in_pieces split says

-- What `main` shows and logs.
unfoldable pub show_main : (Bool → Text → List Text) → Text → Text → List Said → Shown
show_main split shown errors says =
    restore (print_lines (redirect shown errors) (in_pieces split says))

in_pieces-IsLine :
    (split : Bool → Text → List Text) (says : List Said)
    → ((to_err : Bool) (text : Text) → OneLine text → Splits text (split to_err text))
    → All (λ s. OneLine s.text) says
    → All IsLine (in_pieces split says)
in_pieces-IsLine split [] h o = tt
in_pieces-IsLine split (s ∷ says) h (o, os) =
    (record { one_line = o; split = h s.to_err s.text o }, in_pieces-IsLine split says h os)

-- The log of a program: it starts empty, whatever the last run left in the file, and gets all lines.
pub show_main-log_text :
    (split : Bool → Text → List Text) (shown errors : Text) (says : List Said)
    → ((to_err : Bool) (text : Text) → OneLine text → Splits text (split to_err text))
    → All (λ s. OneLine s.text) says
    → show_main split shown errors says ≡ record {
      old_out = shown ++ out_text (in_pieces split says);
      old_err = errors ++ err_text (in_pieces split says);
      log_file = log_text (in_pieces split says);
    }
unfolding show_main redirect
show_main-log_text split shown errors says h os =
    print_lines-log_text (in_pieces split says) shown errors [] (in_pieces-IsLine split says h os)
