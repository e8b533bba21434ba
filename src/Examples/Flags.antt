-- ===== src/Examples/Flags.antt =====
-- A command line and a log at concrete inputs. Words are told apart by their length, and a flag by its dash.
use kge.Prelude.{
  true, ℕ, ◌≡◌, refl, ◌==◌, Bool, false, List, [], ◌∷◌, map, All, length, get_elem?, if◌then◌else◌,
  ◌⊎◌,
}
use kge.Support.CommandLineParser.{
  Text, FlagEntry, Invocation, CommandLineParser, new_parser, has_flag, get_flag_argument,
  get_flag_argument_count, or_empty, invoke_flag_responders,
}
use kge.Support.CommandLineParser.Parsing.{named, arguments_of, new_parser-arguments_of}
use kge.Engine.EngineMain.{respond, main_entries, dash_game, dash_dedicated, has_newline}
use kge.Engine.EngineMain.{newline}
use kge.Engine.EngineMain.Streams.{Line, print_lines, restore}
use kge.Engine.EngineMain.Streams.Interleaving.{
  IsLine, streams_at, out_text, err_text, log_text, print_lines-log_text,
}
use kge.Engine.EngineMain.Launches.{IsQuiet, invoke_flag_responders-IsQuiet}

abbrev hash : Text → ℕ
hash word = length word

abbrev is_flag : Text → Bool
is_flag (c ∷ d ∷ word) = c == 45
is_flag _ = false

abbrev words : List Text
words = (120 ∷ []) ∷ dash_game ∷ (121 ∷ []) ∷ dash_dedicated ∷ []

abbrev parser : CommandLineParser
parser = new_parser hash is_flag [] words

new_parser-arguments_of_example :
    (has_flag hash parser dash_game ≡ named hash is_flag 5 words)
    × ((i : ℕ)
        → get_flag_argument hash parser dash_game i ≡ (
            if named hash is_flag 5 words
            then or_empty (get_elem? (arguments_of hash is_flag 5 words) i)
            else []))
    × (get_flag_argument_count hash parser dash_game
        ≡ (if named hash is_flag 5 words then length (arguments_of hash is_flag 5 words) else 0))
new_parser-arguments_of_example = new_parser-arguments_of hash is_flag [] words dash_game

abbrev entries : List FlagEntry
entries = main_entries

invoke_flag_responders-IsQuiet_example :
    let log = (invoke_flag_responders (λ c. false) hash parser (10 ∷ 5 ∷ [])).0 in
    (map (respond hash parser) log ≡ [])
    ⊎ ((first : Invocation) × (later : List Invocation) × (log ≡ first ∷ later)
        × All IsQuiet (map (respond hash parser) later))
invoke_flag_responders-IsQuiet_example = invoke_flag_responders-IsQuiet hash parser (10 ∷ 5 ∷ [])

-- "a" on std::cout in one piece, an empty line and "b" on std::cerr, "b" and its end apart.
abbrev lines : List Line
lines =
    record { to_err = false; text = 97 ∷ []; pieces = (97 ∷ newline ∷ []) ∷ [] }
    ∷ record { to_err = true; text = []; pieces = (newline ∷ []) ∷ [] }
    ∷ record { to_err = true; text = 98 ∷ []; pieces = (98 ∷ []) ∷ (newline ∷ []) ∷ [] }
    ∷ []

lines-IsLine : All IsLine lines
unfolding has_newline
lines-IsLine = (
  record { one_line = refl; split = record { filled = (refl, tt); joined = refl } },
  (
    record { one_line = refl; split = record { filled = (refl, tt); joined = refl } },
    (record { one_line = refl; split = record { filled = (refl, (refl, tt)); joined = refl } }, tt),
  ),
)

print_lines-log_text_example :
    restore (print_lines (streams_at [] [] []) lines)
    ≡ record { old_out = out_text lines; old_err = err_text lines; log_file = log_text lines }
print_lines-log_text_example = print_lines-log_text lines [] [] [] lines-IsLine
