-- ===== src/Engine/EngineMain/Streams/Splits.antt =====
-- The pieces of a line.
use kge.Prelude.{
  ℕ, ◌≡◌, refl, ap, ◌∙◌, sym, Bool, true, false, List, [], ◌∷◌, ◌++◌, append_assoc, append-nil, All,
  ◌⊎◌, inl, inr, Bool-cases, ◌==◌,
}
use kge.Support.CommandLineParser.{Text}
use kge.Engine.EngineMain.{
  newline, is_empty, is_newline, has_newline, needs_prepend, write, write_all,
}
use kge.Engine.EngineMain.Log.{concat, log_at, OneLine, write_first, write_more, write-newline}

abbrev pub Filled : Text → Type 0
Filled piece = is_empty piece ≡ false

-- What boost promises of the pieces: none is empty, and together they are the line and its end.
pub record Splits (text : Text) (pieces : List Text) : Type 0 where
  pub filled : All Filled pieces
  pub joined : concat pieces ≡ text ++ newline ∷ []

rest_of : Text → Text
rest_of [] = []
rest_of (x ∷ xs) = xs

append_nothing : (piece after : Text) → piece ++ after ≡ [] → (piece ≡ []) × (after ≡ [])
append_nothing [] after e = (refl, e)
append_nothing (c ∷ piece) after e = absurd (cc e)

-- A piece is the whole line with its end, or lies inside of the line.
cut :
    (piece after text : Text)
    → piece ++ after ≡ text ++ newline ∷ []
    → ((after ≡ []) × (piece ≡ text ++ newline ∷ []))
      ⊎ ((left : Text) × (text ≡ piece ++ left) × (after ≡ left ++ newline ∷ []))
unfolding rest_of
cut [] after text e = inr (text, refl, e)
cut (c ∷ piece) after [] e =
    let (no_piece, no_after) = append_nothing piece after (ap rest_of e) in
    let first : c ≡ newline = cc e in inl (no_after, rw (first, no_piece) refl)
cut (c ∷ piece) after (d ∷ text) e =
    let first : c ≡ d = cc e in
    elim (cut piece after text (ap rest_of e)) [
      | inl (no_after, whole) ↦ inl (no_after, rw (first, whole) refl)
      | inr (left, inside, later) ↦ inr (left, rw (first, inside) refl, later)
    ]

nothing_left : (pieces : List Text) → All Filled pieces → concat pieces ≡ [] → pieces ≡ []
nothing_left [] h e = refl
nothing_left (piece ∷ pieces) (h, hs) e =
    let (no_piece, _) = append_nothing piece (concat pieces) e in
    absurd (no_text (rw no_piece at h))
  where
    no_text : true ≡ false → ⊥
    no_text f = cc f

has_newline-end : (text : Text) → has_newline (text ++ newline ∷ []) ≡ true
unfolding has_newline
has_newline-end [] = refl
has_newline-end (c ∷ text) = elim (Bool-cases (c == newline)) [
  | inl ends ↦ rw ends refl
  | inr other ↦ rw other (has_newline-end text)
]

write_plain :
    (piece old log : Text)
    → write (log_at [] false old log) piece ≡ log_at [] false (old ++ piece) (log ++ piece)
unfolding write needs_prepend
write_plain piece old log = elim (Bool-cases (has_newline piece)) [
  | inl ends ↦ rw ends refl
  | inr other ↦ rw other refl
]

-- The log of `std::cout`, which has no prefix.
pub write_all-plain :
    (pieces : List Text) (old log : Text)
    → write_all (log_at [] false old log) pieces
      ≡ log_at [] false (old ++ concat pieces) (log ++ concat pieces)
unfolding write_all
write_all-plain [] old log = rw (append-nil old, append-nil log) refl
write_all-plain (piece ∷ pieces) old log =
    ap (λ d. write_all d pieces) (write_plain piece old log)
    ∙ write_all-plain pieces (old ++ piece) (log ++ piece)
    ∙ rw (append_assoc old piece (concat pieces), append_assoc log piece (concat pieces)) refl

long_line : (c : ℕ) (text : Text) → is_newline (c ∷ (text ++ newline ∷ [])) ≡ false
long_line c [] = refl
long_line c (d ∷ text) = refl

ends_somewhere : (text : Text) → [] ≡ text ++ newline ∷ [] → ⊥
ends_somewhere [] e = cc e
ends_somewhere (c ∷ text) e = cc e

both_one_line : (piece left : Text) → OneLine (piece ++ left) → OneLine piece × OneLine left
unfolding has_newline
both_one_line [] left o = (refl, o)
both_one_line (c ∷ piece) left o = elim (Bool-cases (c == newline)) [
  | inl ends ↦ absurd (cc (ends, o))
  | inr other ↦ let (o1, o2) = both_one_line piece left (rw other at o) in (rw other o1, o2)
]

joined_text :
    (old front piece left : Text)
    → (old ++ (front ++ piece)) ++ (left ++ newline ∷ [])
      ≡ old ++ (front ++ ((piece ++ left) ++ newline ∷ []))
joined_text old front piece left =
    rw
      (
        append_assoc old (front ++ piece) (left ++ newline ∷ []),
        append_assoc front piece (left ++ newline ∷ []),
        append_assoc piece left (newline ∷ []),
      )
      refl

module _ (prefix : Text) (prefixed : is_empty prefix ≡ false) (one_line : OneLine prefix) where
  -- What is put in front of a line, or of the rest of one whose front was written.
  abbrev pub begins : Bool → Text → Text
  begins marked [] = []
  begins true (c ∷ text) = []
  begins false (c ∷ text) = prefix

  begins_rest : (left : Text) → begins true left ≡ []
  begins_rest [] = refl
  begins_rest (c ∷ left) = refl

  begins-append :
      (piece left : Text) (marked : Bool)
      → Filled piece
      → begins marked (piece ++ left) ≡ begins marked piece
  begins-append [] left marked h = absurd (cc h)
  begins-append (c ∷ piece) left true h = refl
  begins-append (c ∷ piece) left false h = refl

  write_inside :
      (piece : Text) (marked : Bool) (old log : Text)
      → Filled piece
      → OneLine piece
      → write (log_at prefix marked old log) piece
        ≡ log_at prefix true
            (old ++ (begins marked piece ++ piece))
            (log ++ (begins marked piece ++ piece))
  write_inside [] marked old log h o = absurd (cc h)
  write_inside (c ∷ piece) true old log h o =
      write_more prefix old log prefixed one_line (c ∷ piece) o
  write_inside (c ∷ piece) false old log h o =
      write_first prefix old log prefixed one_line (c ∷ piece) o

  write_end :
      (text : Text) (marked : Bool) (old log : Text)
      → write (log_at prefix marked old log) (text ++ newline ∷ [])
        ≡ log_at prefix false
            (old ++ (begins marked text ++ (text ++ newline ∷ [])))
            (log ++ (begins marked text ++ (text ++ newline ∷ [])))
  unfolding write needs_prepend
  write_end [] marked old log = write-newline prefix old log prefixed one_line marked
  write_end (c ∷ text) true old log = rw (prefixed, has_newline-end (c ∷ text)) refl
  write_end (c ∷ text) false old log =
      let ends : has_newline (prefix ++ c ∷ (text ++ newline ∷ [])) ≡ true =
        ap has_newline (sym (append_assoc prefix (c ∷ text) (newline ∷ [])))
        ∙ has_newline-end (prefix ++ c ∷ text) in
      rw (prefixed, long_line c text, ends) refl

  -- The pieces of a line, of which the front was written before if `marked` holds.
  pub write_all-begins :
      (pieces : List Text) (text : Text) (marked : Bool) (old log : Text)
      → All Filled pieces
      → concat pieces ≡ text ++ newline ∷ []
      → OneLine text
      → write_all (log_at prefix marked old log) pieces
        ≡ log_at prefix false
            (old ++ (begins marked text ++ (text ++ newline ∷ [])))
            (log ++ (begins marked text ++ (text ++ newline ∷ [])))
  unfolding write_all
  write_all-begins [] text marked old log h e o = absurd (ends_somewhere text e)
  write_all-begins (piece ∷ pieces) text marked old log (h, hs) e o =
      elim (cut piece (concat pieces) text e) [
        | inl (no_more, whole) ↦
            rw (nothing_left pieces hs no_more, whole) (write_end text marked old log)
        | inr (left, inside, later) ↦
            let (o1, o2) = both_one_line piece left (rw inside at o) in
            let b = begins marked piece in
            ap (λ d. write_all d pieces) (write_inside piece marked old log h o1)
            ∙ write_all-begins pieces left true (old ++ (b ++ piece)) (log ++ (b ++ piece)) hs later
                o2
            ∙ rw
                (
                  begins_rest left,
                  joined_text old b piece left,
                  joined_text log b piece left,
                  inside,
                  begins-append piece left marked h,
                )
                refl
      ]
