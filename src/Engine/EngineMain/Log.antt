-- ===== src/Engine/EngineMain/Log.antt =====
-- Whole lines in the log.
use kge.Prelude.{
  ◌≡◌, refl, ap, ◌∙◌, sym, ◌==◌, Bool, true, false, List, [], ◌∷◌, ◌++◌, append-nil, append_assoc,
  All, inl, inr, Bool-cases,
}
use kge.Support.CommandLineParser.{Text}
use kge.Engine.EngineMain.{
  DebugLog, newline, is_empty, has_newline, is_newline, needs_prepend, write, write_all,
}

abbrev pub concat : List Text → Text
concat [] = []
concat (str ∷ strs) = str ++ concat strs

-- The log after a text, with the mark that says whether the line has its prefix.
abbrev said : DebugLog → Text → Bool → DebugLog
said d t marked = record d {
  wrote_prepend_text = marked;
  old_stream = d.old_stream ++ t;
  log_file_stream = d.log_file_stream ++ t;
}

has_newline-append :
    (s t : Text) → has_newline s ≡ false → has_newline t ≡ false → has_newline (s ++ t) ≡ false
unfolding has_newline
has_newline-append [] t hs ht = ht
has_newline-append (c ∷ s) t hs ht = elim (Bool-cases (c == newline)) [
  | inl is_nl ↦ absurd (cc (is_nl, hs))
  | inr other ↦ rw other (has_newline-append s t (rw other at hs) ht)
]

not_newline : (str : Text) → has_newline str ≡ false → is_newline str ≡ false
unfolding has_newline
not_newline [] h = refl
not_newline (c ∷ []) h = elim (Bool-cases (c == newline)) [
  | inl is_nl ↦ absurd (cc (is_nl, h))
  | inr other ↦ other
]
not_newline (c ∷ b ∷ str) h = refl

said-append :
    (d : DebugLog) (t u : Text) (marked m : Bool) → said (said d t marked) u m ≡ said d (t ++ u) m
said-append d t u marked m =
    rw (append_assoc d.old_stream t u, append_assoc d.log_file_stream t u) refl

module _ (prefix : Text) (old log : Text) (prefixed : is_empty prefix ≡ false)
    (one_line : has_newline prefix ≡ false) where
  abbrev pub at_mark : Bool → DebugLog
  at_mark marked = record {
    text_prepend = prefix;
    wrote_prepend_text = marked;
    old_stream = old;
    log_file_stream = log;
  }

  pub write_first :
      (str : Text)
      → has_newline str ≡ false
      → write (at_mark false) str ≡ said (at_mark false) (prefix ++ str) true
  unfolding write needs_prepend
  write_first str h =
      rw (prefixed, not_newline str h, has_newline-append prefix str one_line h) refl

  pub write_more :
      (str : Text)
      → has_newline str ≡ false
      → write (at_mark true) str ≡ said (at_mark true) str true
  unfolding write needs_prepend
  write_more str h = rw (prefixed, h) refl

  pub write-newline :
      (marked : Bool)
      → write (at_mark marked) (newline ∷ []) ≡ said (at_mark marked) (newline ∷ []) false
  unfolding write needs_prepend has_newline
  write-newline true = rw prefixed refl
  write-newline false = rw prefixed refl

-- What a line becomes: its pieces behind one prefix. A line with no piece has no prefix.
unfoldable pub line_text : Text → List Text → Text
line_text prefix [] = newline ∷ []
line_text prefix (str ∷ strs) = prefix ++ (concat (str ∷ strs) ++ newline ∷ [])

-- The calls of `write` for a line, which `std::endl` ends.
abbrev pub line_writes : List Text → List Text
line_writes strs = strs ++ (newline ∷ []) ∷ []

abbrev pub lines_writes : List (List Text) → List Text
lines_writes [] = []
lines_writes (l ∷ ls) = line_writes l ++ lines_writes ls

abbrev pub lines_text : Text → List (List Text) → Text
lines_text prefix [] = []
lines_text prefix (l ∷ ls) = line_text prefix l ++ lines_text prefix ls

abbrev pub OneLine : Text → Type 0
OneLine str = has_newline str ≡ false

-- A log with a prefix, and what the two streams hold.
abbrev pub log_at : Text → Bool → Text → Text → DebugLog
log_at prefix marked old log = record {
  text_prepend = prefix;
  wrote_prepend_text = marked;
  old_stream = old;
  log_file_stream = log;
}

module _ (prefix : Text) (prefixed : is_empty prefix ≡ false) (one_line : OneLine prefix) where
  write_rest :
      (strs rest : List Text) (old log : Text)
      → All OneLine strs
      → write_all (log_at prefix true old log) (line_writes strs ++ rest)
        ≡ write_all (said (log_at prefix true old log) (concat strs ++ newline ∷ []) false) rest
  unfolding write_all
  write_rest [] rest old log h =
      ap (λ d. write_all d rest) (write-newline prefix old log prefixed one_line true)
  write_rest (str ∷ strs) rest old log (h, hs) =
      ap (λ d. write_all d (line_writes strs ++ rest))
        (write_more prefix old log prefixed one_line str h)
      ∙ write_rest strs rest (old ++ str) (log ++ str) hs
      ∙ ap (λ d. write_all d rest)
          (said-append (log_at prefix true old log) str (concat strs ++ newline ∷ []) true false
            ∙ ap (λ t. said (log_at prefix true old log) t false)
                (sym (append_assoc str (concat strs) (newline ∷ []))))

  write_line :
      (strs rest : List Text) (old log : Text)
      → All OneLine strs
      → write_all (log_at prefix false old log) (line_writes strs ++ rest)
        ≡ write_all (said (log_at prefix false old log) (line_text prefix strs) false) rest
  unfolding write_all line_text
  write_line [] rest old log h =
      ap (λ d. write_all d rest) (write-newline prefix old log prefixed one_line false)
  write_line (str ∷ strs) rest old log (h, hs) =
      ap (λ d. write_all d (line_writes strs ++ rest))
        (write_first prefix old log prefixed one_line str h)
      ∙ write_rest strs rest (old ++ (prefix ++ str)) (log ++ (prefix ++ str)) hs
      ∙ ap (λ d. write_all d rest)
          (said-append (log_at prefix false old log) (prefix ++ str) (concat strs ++ newline ∷ [])
              true false
            ∙ ap (λ t. said (log_at prefix false old log) t false)
                (append_assoc prefix str (concat strs ++ newline ∷ [])
                  ∙ ap (λ t. prefix ++ t) (sym (append_assoc str (concat strs) (newline ∷ [])))))

  -- Lines that are written in any pieces, with a prefix that is not empty: each line that has a piece gets the
  -- prefix once, at its front, and an empty line none; both streams get the same, and the log
  -- is ready for the next line. No piece and not the prefix may hold a line's end itself.
  pub write_all-lines_text :
      (lines : List (List Text)) (old log : Text)
      → All (All OneLine) lines
      → write_all (log_at prefix false old log) (lines_writes lines)
        ≡ log_at prefix false (old ++ lines_text prefix lines) (log ++ lines_text prefix lines)
  unfolding write_all
  write_all-lines_text [] old log h = rw (append-nil old, append-nil log) refl
  write_all-lines_text (l ∷ ls) old log (h, hs) =
      write_line l (lines_writes ls) old log h
      ∙ write_all-lines_text ls (old ++ line_text prefix l) (log ++ line_text prefix l) hs
      ∙ rw
          (
            append_assoc old (line_text prefix l) (lines_text prefix ls),
            append_assoc log (line_text prefix l) (lines_text prefix ls),
          )
          refl
