-- ===== src/Support/String/Stripping.antt =====
-- `StripChar`, against what it removes of a text.
use kge.Prelude.{
  ℕ, zero, suc, ◌+◌, ◌<◌, ◌≡◌, sym, ap, ◌∙◌, true, some, List, [], ◌∷◌, ◌++◌, map, arith,
  if◌then◌else◌, length, length-append, map-append, Bool-cases, inl, inr, Result, ok,
}
use kge.Memory.{Cell, init}
use kge.Support.String.{of, is_character, strip_loop, strip_char}
use kge.Support.String.Shifting.{at, next_at, step_over, pass, cut, ended}

-- What is left of a text: a character that is removed saves the one behind it from being looked at.
abbrev pub stripped : ℕ → List ℕ → List ℕ
stripped character [] = []
stripped character (c ∷ []) = if is_character character c then [] else c ∷ []
stripped character (c ∷ d ∷ text) =
    let next = d ∷ stripped character text in
    let kept = c ∷ stripped character (d ∷ text) in if is_character character c then next else kept

-- How many are removed.
abbrev pub removals : ℕ → List ℕ → ℕ
removals character [] = 0
removals character (c ∷ []) = if is_character character c then 1 else 0
removals character (c ∷ d ∷ text) =
    let next = removals character text + 1 in
    let kept = removals character (d ∷ text) in if is_character character c then next else kept

-- What the loop makes of the text behind `front`.
record Strips (character : ℕ) (front text : List ℕ) (removed : ℕ)
    (r : Result (List (Cell ℕ) × ℕ × ℕ)) : Type 0 where
  junk : List (Cell ℕ)
  returned :
      r
      ≡ ok (
        at front (stripped character text) junk,
        length front + length (stripped character text),
        removed + removals character text,
      )

module _ (character : ℕ) (front text : List ℕ) (c : ℕ) where
  -- A character that is kept in front of the rest.
  keeps_one :
      (removed : ℕ) (r : Result (List (Cell ℕ) × ℕ × ℕ))
      → Strips character (front ++ c ∷ []) text removed r
      → (junk : List (Cell ℕ)) × (r
          ≡ ok (
            at front (c ∷ stripped character text) junk,
            length front + suc (length (stripped character text)),
            removed + removals character text,
          ))
  keeps_one removed r s =
      let size : length (front ++ c ∷ []) ≡ length front + 1 = length-append front (c ∷ []) in
      let total : length (front ++ c ∷ []) + length (stripped character text)
          ≡ length front + suc (length (stripped character text)) =
        omega (arith, size) in
      (s.junk, s.returned ∙ rw (total, next_at front (stripped character text) c s.junk))

strip_loop-Strips :
    (character : ℕ) (rounds : ℕ) (front text : List ℕ) (junk : List (Cell ℕ)) (removed : ℕ)
    → length text < rounds
    → Strips character front text removed (
        strip_loop character
          (at front text junk)
          (length front + length text)
          (length front)
          removed
          rounds)
strip_loop-Strips character zero front text junk removed h = absurd (omega arith)
strip_loop-Strips character (suc rounds) front [] junk removed h = record {
  junk = junk;
  returned =
      ended character (length front + 0) (length front) removed rounds (at front [] junk)
        (omega arith)
      ∙ ap (λ n. ok (at front [] junk, length front + 0, n)) (omega arith);
}
strip_loop-Strips character (suc zero) front (c ∷ text) junk removed h = absurd (omega arith)
strip_loop-Strips character (suc (suc rounds)) front (c ∷ []) junk removed h =
    elim (Bool-cases (is_character character c)) [
      | inl same ↦ record {
        junk = init 0 ∷ junk;
        returned =
            cut character front [] c junk removed (suc rounds) same
            ∙ ended character (length front + 0) (length front + 1) (removed + 1) rounds
                (at front [] (init 0 ∷ junk)) (omega arith)
            ∙ rw same;
      }
      | inr other ↦
          let (left, e) = keeps_one character front [] c removed _ (
            strip_loop-Strips character (suc rounds) (front ++ c ∷ []) [] junk removed
              (omega arith)) in
          record {
            junk = left;
            returned = pass character front [] c junk removed (suc rounds) other ∙ e ∙ rw other;
          }
    ]
strip_loop-Strips character (suc (suc rounds)) front (c ∷ d ∷ text) junk removed h =
    elim (Bool-cases (is_character character c)) [
      | inl same ↦
          let (left, e) = keeps_one character front text d (removed + 1) _ (
            strip_loop-Strips character (suc rounds) (front ++ d ∷ []) text (init 0 ∷ junk)
              (removed + 1) (omega arith)) in
          let count : removed + 1 + removals character text
              ≡ removed + (removals character text + 1) =
            omega arith in
          record {
            junk = left;
            returned =
                cut character front (d ∷ text) c junk removed (suc rounds) same
                ∙ step_over character front text d (init 0 ∷ junk) (removed + 1) (suc rounds)
                ∙ e
                ∙ rw (same, count);
          }
      | inr other ↦
          let (left, e) = keeps_one character front (d ∷ text) c removed _ (
            strip_loop-Strips character (suc rounds) (front ++ c ∷ []) (d ∷ text) junk removed
              (omega arith)) in
          record {
            junk = left;
            returned =
                pass character front (d ∷ text) c junk removed (suc rounds) other ∙ e ∙ rw other;
          }
    ]

-- `StripChar` of a string that holds its text and a NUL: its loop ends and its accesses are in bounds, whatever the
-- character. It takes out the characters that equal it, but never the one that stands behind a
-- removed one, which it does not look at; it returns how many it took, and the NUL follows
-- what is left.
pub strip_char-stripped :
    (text : List ℕ) (character : ℕ)
    → (junk : List (Cell ℕ)) × (strip_char (of text) character
        ≡ ok (
          record {
            is_const = true;
            stored = some (map init (stripped character text) ++ init 0 ∷ junk);
            str_length = length (stripped character text);
          },
          removals character text,
        ))
unfolding strip_char
strip_char-stripped text character =
    let s = strip_loop-Strips character (length text + 1) [] text [] 0 (omega arith) in
    let memory : map {B = Cell ℕ} init (text ++ 0 ∷ []) ≡ map init text ++ init 0 ∷ [] =
      map-append init text (0 ∷ []) in
    let all : 0 + length text ≡ length text = omega arith in
    let left : 0 + length (stripped character text) ≡ length (stripped character text) =
      omega arith in
    let count : 0 + removals character text ≡ removals character text = omega arith in
    let looped : strip_loop character (map init text ++ init 0 ∷ []) (length text) 0 0
          (length text + 1)
        ≡ ok (
          map init (stripped character text) ++ init 0 ∷ s.junk,
          length (stripped character text),
          removals character text,
        ) =
      ap (λ n. strip_loop character (map init text ++ init 0 ∷ []) n 0 0 (length text + 1))
        (sym all)
      ∙ s.returned
      ∙ rw (left, count) in
    (s.junk, rw (memory, looped))
