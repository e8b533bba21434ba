-- ===== src/Engine/EngineMain/Streams/Interleaving.antt =====
-- Lines of both streams, in any order.
use kge.Prelude.{
  ◌≡◌, refl, ap, ◌∙◌, Bool, true, false, List, [], ◌∷◌, ◌++◌, append-nil, append_assoc, All,
}
use kge.Support.CommandLineParser.{Text}
use kge.Engine.EngineMain.{DebugLog, newline, has_newline, write, write_all}
use kge.Engine.EngineMain.Log.{log_at, OneLine}
use kge.Engine.EngineMain.Streams.{
  Streams, Line, to_file, error_prefix, write_to, write_pieces, print_lines, restore,
}
use kge.Engine.EngineMain.Streams.Splits.{Splits, write_all-plain, begins, write_all-begins}

-- A line without an end inside, in pieces as boost promises them.
pub record IsLine (l : Line) : Type 0 where
  pub one_line : OneLine l.text
  pub split : Splits l.text l.pieces

-- The text of a line with its end, and what the log and the old stream get of it: a line of `std::cerr`
-- that is not empty gets the prefix.
abbrev pub ended : Text → Text
ended text = text ++ newline ∷ []

abbrev pub error_line : Text → Text
error_line [] = ended []
error_line (c ∷ text) = error_prefix ++ ended (c ∷ text)

abbrev pub shown_line : Line → Text
shown_line l = elim l.to_err [ true ↦ error_line l.text | false ↦ ended l.text ]

abbrev pub if_err : Bool → Text → Text
if_err true text = text
if_err false text = []

abbrev pub if_out : Bool → Text → Text
if_out true text = []
if_out false text = text

-- What the lines are together in the log, and of the lines of one stream in the old one.
abbrev pub log_text : List Line → Text
log_text [] = []
log_text (l ∷ lines) = shown_line l ++ log_text lines

abbrev pub out_text : List Line → Text
out_text [] = []
out_text (l ∷ lines) = if_out l.to_err (shown_line l) ++ out_text lines

abbrev pub err_text : List Line → Text
err_text [] = []
err_text (l ∷ lines) = if_err l.to_err (shown_line l) ++ err_text lines

-- Streams that are ready for a line.
abbrev pub streams_at : Text → Text → Text → Streams
streams_at old err log = record {
  out_log = log_at [] false old log;
  err_log = log_at error_prefix false err log;
}

out_pieces :
    (d e : DebugLog) (pieces : List Text)
    → write_pieces false (record { out_log = d; err_log = to_file e d.log_file_stream }) pieces
      ≡ record {
        out_log = write_all d pieces;
        err_log = to_file e (write_all d pieces).log_file_stream;
      }
unfolding write_pieces write_to write_all
out_pieces d e [] = refl
out_pieces d e (piece ∷ pieces) = out_pieces (write d piece) e pieces

err_pieces :
    (d e : DebugLog) (pieces : List Text)
    → write_pieces true (record { out_log = to_file d e.log_file_stream; err_log = e }) pieces
      ≡ record {
        out_log = to_file d (write_all e pieces).log_file_stream;
        err_log = write_all e pieces;
      }
unfolding write_pieces write_to write_all
err_pieces d e [] = refl
err_pieces d e (piece ∷ pieces) = err_pieces d (write e piece) pieces

error_prefix-OneLine : OneLine error_prefix
unfolding has_newline
error_prefix-OneLine = refl

error_begins :
    (text : Text)
    → begins error_prefix refl error_prefix-OneLine false text ++ ended text ≡ error_line text
error_begins [] = refl
error_begins (c ∷ text) = refl

print_line :
    (old err log : Text) (to_err : Bool) (text : Text) (pieces : List Text)
    → OneLine text
    → Splits text pieces
    → let shown = shown_line (record { to_err = to_err; text = text; pieces = pieces }) in
      write_pieces to_err (streams_at old err log) pieces
      ≡ streams_at (old ++ if_out to_err shown) (err ++ if_err to_err shown) (log ++ shown)
print_line old err log false text pieces o h =
    out_pieces (log_at [] false old log) (log_at error_prefix false err log) pieces
    ∙ rw (write_all-plain pieces old log, h.joined, append-nil err) refl
print_line old err log true text pieces o h =
    err_pieces (log_at [] false old log) (log_at error_prefix false err log) pieces
    ∙ rw
        (
          write_all-begins error_prefix refl error_prefix-OneLine pieces text false err log h.filled
              h.joined o,
          error_begins text,
          append-nil old,
        )
        refl

-- The lines of both streams, in any order and in any pieces that boost may choose: the log file gets all of them in that order, with
-- "Error: " once in front of each line of `std::cerr` that is not empty, and each old stream gets those of its own.
pub print_lines-log_text :
    (lines : List Line) (old err log : Text)
    → All IsLine lines
    → restore (print_lines (streams_at old err log) lines) ≡ record {
      old_out = old ++ out_text lines;
      old_err = err ++ err_text lines;
      log_file = log ++ log_text lines;
    }
unfolding print_lines
print_lines-log_text [] old err log h = rw (append-nil old, append-nil err, append-nil log) refl
print_lines-log_text (l ∷ lines) old err log (h, hs) =
    let shown = shown_line l in
    let o = if_out l.to_err shown in
    let e = if_err l.to_err shown in
    ap (λ s. restore (print_lines s lines))
      (print_line old err log l.to_err l.text l.pieces h.one_line h.split)
    ∙ print_lines-log_text lines (old ++ o) (err ++ e) (log ++ shown) hs
    ∙ rw
        (
          append_assoc old o (out_text lines),
          append_assoc err e (err_text lines),
          append_assoc log shown (log_text lines),
        )
        refl
