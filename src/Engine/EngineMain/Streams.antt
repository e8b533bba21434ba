-- ===== src/Engine/EngineMain/Streams.antt =====
-- The streams of apps/engine/source/EngineMain.cpp: `std::cout` and `std::cerr` each have a buffer of boost whose sink is
-- a DebugLog, and both logs refer to one log file. Boost hands the characters of a line to the sink in pieces.
pub mod Splits
pub mod Interleaving
pub mod Output
use kge.Prelude.{
  ℕ, ◌≡◌, ◌==◌, Bool, true, false, not, List, [], ◌∷◌, ◌++◌, All, if◌then◌else◌, Option, none, some,
  Result, ok, throws, fault, ◌>>=◌,
}
use kge.Support.CommandLineParser.{Text}
use kge.Engine.EngineMain.{DebugLog, newline, is_empty, write}
use kge.Engine.EngineMain.Log.{concat, OneLine}

-- "Error: "
abbrev pub error_prefix : Text
error_prefix = 69 ∷ 114 ∷ 114 ∷ 111 ∷ 114 ∷ 58 ∷ 32 ∷ []

-- The logs of `std::cout` and `std::cerr`, with the text of the log file in both.
pub record Streams : Type 0 where
  pub out_log : DebugLog
  pub err_log : DebugLog

abbrev pub to_file : DebugLog → Text → DebugLog
to_file d text = record d { log_file_stream = text }

-- A new log on an old stream.
abbrev pub new_log : Text → Text → Text → DebugLog
new_log prefix old file = record {
  text_prepend = prefix;
  wrote_prepend_text = false;
  old_stream = old;
  log_file_stream = file;
}

-- The path of the log file, for what `PHYSFS_getRealDir` gives: a NULL is no string.
unfoldable pub log_file_path : Option Text → Result Text
log_file_path none = fault
log_file_path (some dir) = ok (dir ++ 47 ∷ 76 ∷ 79 ∷ 71 ∷ 46 ∷ 116 ∷ 120 ∷ 116 ∷ [])

-- The redirection of both streams, for what the old ones show so far; opening the log file empties it.
unfoldable pub redirect : Text → Text → Streams
redirect shown errors = record {
  out_log = new_log [] shown [];
  err_log = new_log error_prefix errors [];
}

-- A piece that a buffer hands to its sink; `to_err` is whether it is that of `std::cerr`.
unfoldable pub write_to : Bool → Streams → Text → Streams
write_to false s piece =
    let d = write s.out_log piece in
    record { out_log = d; err_log = to_file s.err_log d.log_file_stream }
write_to true s piece =
    let d = write s.err_log piece in
    record { out_log = to_file s.out_log d.log_file_stream; err_log = d }

unfoldable pub write_pieces : Bool → Streams → List Text → Streams
write_pieces to_err s [] = s
write_pieces to_err s (piece ∷ pieces) = write_pieces to_err (write_to to_err s piece) pieces

-- A line that is written and ended with `std::endl`, and the pieces in which the sink gets it.
pub record Line : Type 0 where
  pub to_err : Bool
  pub text : Text
  pub pieces : List Text

unfoldable pub print_lines : Streams → List Line → Streams
print_lines s [] = s
print_lines s (l ∷ lines) = print_lines (write_pieces l.to_err s l.pieces) lines

-- What is shown when the streams are restored and the log file is closed.
pub record Shown : Type 0 where
  pub old_out : Text
  pub old_err : Text
  pub log_file : Text

abbrev pub restore : Streams → Shown
restore s = record {
  old_out = s.out_log.old_stream;
  old_err = s.err_log.old_stream;
  log_file = s.out_log.log_file_stream;
}
