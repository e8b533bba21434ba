-- ===== src/Support/String/Shifting.antt =====
-- One round of the loop of `StripChar`.
use kge.Prelude.{
  ℕ, suc, ◌+◌, ◌-◌, ◌≤◌, ◌≡◌, sym, ap, true, false, List, [], ◌∷◌, ◌++◌, map, arith, ltb, lt→ltb,
  le→ltb, length, length-append, length-map, append_assoc, map-append, ok,
}
use kge.Memory.{Cell, init, values}
use kge.Memory.Places.{fetch_here, fetch_behind, store_here}
use kge.Support.String.{char_at, is_character, push_back, strip_loop}

push_back_lem :
    (front : List (Cell ℕ)) (x : Cell ℕ) (zs : List (Cell ℕ)) (l : Cell ℕ) (rest : List (Cell ℕ))
    → push_back (front ++ x ∷ (zs ++ l ∷ rest)) (length front) (suc (length zs))
      ≡ ok (front ++ (zs ++ l ∷ l ∷ rest))
unfolding push_back
push_back_lem front x [] l rest = rw (fetch_behind front rest x l, store_here front (l ∷ rest) x l)
push_back_lem front x (z ∷ zs) l rest =
    let at : length front + 1 ≡ length (front ++ z ∷ []) =
      omega (arith, length-append front (z ∷ [])) in
    rw
      (
        fetch_behind front (zs ++ l ∷ rest) x z,
        store_here front (z ∷ (zs ++ l ∷ rest)) x z,
        at,
        sym (append_assoc front (z ∷ []) (z ∷ (zs ++ l ∷ rest))),
        push_back_lem (front ++ z ∷ []) z zs l rest,
      )
      (ap ok (append_assoc front (z ∷ []) (zs ++ l ∷ l ∷ rest)))

char_at-here :
    (front rest : List (Cell ℕ)) (c : ℕ) → char_at (front ++ init c ∷ rest) (length front) ≡ ok c
unfolding char_at values
char_at-here front rest c = rw (char_at, fetch_here front rest (init c))

-- The characters before and behind the one that is looked at, their NUL, and what the removals left.
abbrev pub at : List ℕ → List ℕ → List (Cell ℕ) → List (Cell ℕ)
at front text junk = map init front ++ (map init text ++ init 0 ∷ junk)

pub next_at :
    (front text : List ℕ) (c : ℕ) (junk : List (Cell ℕ))
    → at front (c ∷ text) junk ≡ at (front ++ c ∷ []) text junk
next_at front text c junk =
    rw (map-append {B = Cell ℕ} init front (c ∷ []))
      (sym (append_assoc (map init front) (init c ∷ []) (map init text ++ init 0 ∷ junk)))

module _ (front text : List ℕ) (c : ℕ) (junk : List (Cell ℕ)) where
  look : char_at (at front (c ∷ text) junk) (length front) ≡ ok c
  look =
      rw (← length-map {B = Cell ℕ} init front)
        (char_at-here (map init front) (map init text ++ init 0 ∷ junk) c)

  pushed :
      push_back
        (at front (c ∷ text) junk)
        (length front)
        (length front + suc (length text) - length front)
      ≡ ok (at front text (init 0 ∷ junk))
  pushed =
      let left : length front + suc (length text) - length front
          ≡ suc (length (map {B = Cell ℕ} init text)) =
        omega (arith, length-map {B = Cell ℕ} init text) in
      rw (left, ← length-map {B = Cell ℕ} init front)
        (push_back_lem (map init front) (init c) (map init text) (init 0) junk)

module _ (character : ℕ) (front text : List ℕ) (c : ℕ) (junk : List (Cell ℕ))
    (removed rounds : ℕ) where
  inside : ltb (length front) (length front + suc (length text)) ≡ true
  inside = lt→ltb _ _ (omega arith)

  pub step_over :
      strip_loop character
        (at front (c ∷ text) junk)
        (length front + suc (length text))
        (length front + 1)
        removed
        rounds
      ≡ strip_loop character
          (at (front ++ c ∷ []) text junk)
          (length (front ++ c ∷ []) + length text)
          (length (front ++ c ∷ []))
          removed
          rounds
  step_over =
      let size : length (front ++ c ∷ []) ≡ length front + 1 = length-append front (c ∷ []) in
      let total : length front + 1 + length text ≡ length front + suc (length text) = omega arith in
      rw (size, total, next_at front text c junk)

  pub pass :
      is_character character c ≡ false
      → strip_loop character
          (at front (c ∷ text) junk)
          (length front + suc (length text))
          (length front)
          removed
          (suc rounds)
        ≡ strip_loop character
            (at (front ++ c ∷ []) text junk)
            (length (front ++ c ∷ []) + length text)
            (length (front ++ c ∷ []))
            removed
            rounds
  unfolding strip_loop
  pass other = rw (inside, look front text c junk, other) step_over

  pub cut :
      is_character character c ≡ true
      → strip_loop character
          (at front (c ∷ text) junk)
          (length front + suc (length text))
          (length front)
          removed
          (suc rounds)
        ≡ strip_loop character
            (at front text (init 0 ∷ junk))
            (length front + length text)
            (length front + 1)
            (removed + 1)
            rounds
  unfolding strip_loop
  cut same =
      let total : length front + suc (length text) - 1 ≡ length front + length text = omega arith in
      rw (inside, look front text c junk, same, pushed front text c junk, total)

-- Where the loop stops.
pub ended :
    (character len i removed rounds : ℕ) (cells : List (Cell ℕ))
    → len ≤ i
    → strip_loop character cells len i removed (suc rounds) ≡ ok (cells, len, removed)
unfolding strip_loop
ended character len i removed rounds cells h = rw (le→ltb i len h)
