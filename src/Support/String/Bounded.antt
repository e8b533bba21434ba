-- ===== src/Support/String/Bounded.antt =====
-- Strings with a bound on their characters: those made of memory that nobody vouches for, and `Format`.
use kge.Prelude.{
  ℕ, zero, suc, ltb, ltb→lt, ◌+◌, ◌^◌, ◌≤◌, ◌<◌, ◌≡◌, ◌≢◌, refl, ap, ◌∙◌, ◌==◌, Bool, true, false,
  Option, none, some, List, [], ◌∷◌, ◌++◌, map, arith, length, length-append, length-replicate,
  length-take, take, take-append, drop, if◌then◌else◌, Result, ok, fault, ◌>>=◌, Bool-cases, inl,
  inr,
}
use kge.Memory.{Cell, uninit, init, new_array, store, fetch}
use kge.Memory.Laws.{fetch-in_bounds, store-in_bounds}
use kge.Support.String.{String, c_string, new_string, of, u32}
use kge.Support.String.Joining.{IsText, cells_of, c_string-cells_of, read_whole, length-cells_of}

-- MAXIMUM_ARBITRARY_STRING_LENGTH
abbrev pub maximum_length : ℕ
maximum_length = 256

-- The loop of `String(value, true)`, with `left` characters to look at: is there a NUL?
unfoldable pub ends_within : List (Cell ℕ) → ℕ → Result Bool
ends_within cells zero = ok false
ends_within [] (suc left) = fault
ends_within (uninit ∷ cells) (suc left) = fault
ends_within (init c ∷ cells) (suc left) =
    let rest = ends_within cells left in if c == 0 then ok true else rest

-- `String(value, true)`
unfoldable pub new_untrusted : Option (List (Cell ℕ)) → Result String
new_untrusted none = ok (record { is_const = true; stored = none; str_length = 0 })
new_untrusted (some value) = do
  ended ← ends_within value maximum_length
  let trusted = (do text ← c_string value; ok (length text))
  len ← (if ended then trusted else ok 0)
  copied ← fetch value 0 (len + 1)
  ok (record { is_const = true; stored = some copied; str_length = u32 len })

-- `Format(string_template, ...)`, where `printed` is what the arguments make of the template:
-- `vsnprintf` writes at most 256 characters, the last of them a NUL.
unfoldable pub format : (List ℕ → List ℕ) → String → Result String
format printed template = elim template.stored [
  | none ↦ fault
  | some cells ↦ do
    text ← c_string cells
    result ← store (new_array 256) 0 (map init (take 255 (printed text) ++ 0 ∷ []))
    new_string (some result)
]

ends_within-cells_of :
    (text : List ℕ) (rest : List (Cell ℕ)) (n : ℕ)
    → IsText text
    → length text < n
    → ends_within (cells_of text ++ rest) n ≡ ok true
unfolding ends_within
ends_within-cells_of text rest zero h low = absurd (omega (arith, low))
ends_within-cells_of [] rest (suc n) h low = refl
ends_within-cells_of (c ∷ text) rest (suc n) (h, hs) low =
    let other : (c == 0) ≡ false = ground (arith, h) in
    rw (other, ends_within-cells_of text rest n hs (omega (arith, low))) refl

ends_within_long :
    (text : List ℕ) (rest : List (Cell ℕ)) (n : ℕ)
    → IsText text
    → n ≤ length text
    → ends_within (cells_of text ++ rest) n ≡ ok false
unfolding ends_within
ends_within_long text rest zero h low = refl
ends_within_long [] rest (suc n) h low = absurd (omega (arith, low))
ends_within_long (c ∷ text) rest (suc n) (h, hs) low =
    let other : (c == 0) ≡ false = ground (arith, h) in
    rw (other, ends_within_long text rest n hs (omega (arith, low))) refl

-- What comes of a text in memory that may be too long.
pub data Vetted (text : List ℕ) (r : Result String) : Type 0 where
  short : length text < maximum_length → r ≡ ok (of text) → Vetted text r
  unended :
      (s : String) (cells : List (Cell ℕ))
      → maximum_length ≤ length text
      → r ≡ ok s
      → s.stored ≡ some cells
      → s.str_length ≡ 0
      → length cells ≡ 1
      → c_string cells ≡ fault
      → Vetted text r

copy_short :
    (text : List ℕ) (rest : List (Cell ℕ))
    → fetch (cells_of text ++ rest) 0 (length text + 1) ≡ ok (cells_of text)
copy_short text rest =
    let size = length-cells_of text in
    let both = length-append (cells_of text) rest in
    let e : length text + 1 ≡ length (cells_of text) = omega (arith, size) in
    rw e (
      fetch-in_bounds (cells_of text ++ rest) 0 (length (cells_of text)) (omega (arith, both))
      ∙ ap ok (take-append (cells_of text) rest))

unended_text :
    (c : ℕ) (text : List ℕ) (rest : List (Cell ℕ))
    → c ≢ 0
    → IsText text
    → maximum_length ≤ length (c ∷ text)
    → Vetted (c ∷ text) (new_untrusted (some (cells_of (c ∷ text) ++ rest)))
unfolding new_untrusted c_string
unended_text c text rest h hs long =
    let other : (c == 0) ≡ false = ground (arith, h) in
    let value = cells_of (c ∷ text) ++ rest in
    let one : fetch value 0 (0 + 1) ≡ ok (init c ∷ []) =
      fetch-in_bounds value 0 (0 + 1) (omega arith) in
    unended (record { is_const = true; stored = some (init c ∷ []); str_length = 0 }) (init c ∷ [])
      long (rw (ends_within_long (c ∷ text) rest maximum_length (h, hs) long, one) refl) refl refl
      refl (rw other refl)

long_text :
    (text : List ℕ) (rest : List (Cell ℕ))
    → IsText text
    → maximum_length ≤ length text
    → Vetted text (new_untrusted (some (cells_of text ++ rest)))
long_text [] rest h long = absurd (omega (arith, long))
long_text (c ∷ text) rest (h, hs) long = unended_text c text rest h hs long

short_text :
    (text : List ℕ) (rest : List (Cell ℕ))
    → IsText text
    → length text < maximum_length
    → new_untrusted (some (cells_of text ++ rest)) ≡ ok (of text)
unfolding new_untrusted
short_text text rest h low =
    let fits : u32 (length text) ≡ length text = omega (arith, low) in
    rw
      (
        ends_within-cells_of text rest maximum_length h low,
        c_string-cells_of text rest h,
        copy_short text rest,
        fits,
      )
      refl

-- A text without a NUL of its own that stands in untrusted memory is copied if it is shorter than
-- 256 characters. A longer one gives a string of length 0 whose memory is the first character
-- alone, without a NUL: what reads it as a C string reads past its end.
pub new_untrusted-Vetted :
    (text : List ℕ) (rest : List (Cell ℕ))
    → IsText text
    → Vetted text (new_untrusted (some (cells_of text ++ rest)))
new_untrusted-Vetted text rest h = elim (Bool-cases (ltb (length text) maximum_length)) [
  | inl e ↦ let low = ltb→lt _ _ e in short low (short_text text rest h low)
  | inr e ↦ long_text text rest h (ground (arith, e))
]

new_string_ends :
    (text : List ℕ) (rest : List (Cell ℕ))
    → IsText text
    → length text < 2 ^ 32
    → new_string (some (cells_of text ++ rest)) ≡ ok (of text)
unfolding new_string
new_string_ends text rest h small =
    let fits : u32 (length text) ≡ length text = omega (arith, small) in
    rw (c_string-cells_of text rest h, copy_short text rest, fits) refl

IsText-take : (n : ℕ) (text : List ℕ) → IsText text → IsText (take n text)
IsText-take zero text h = tt
IsText-take (suc n) [] h = tt
IsText-take (suc n) (c ∷ text) (h, hs) = (h, IsText-take n text hs)

-- `Format` with a template that is a C string and a result without a NUL gives the first 255 characters of the
-- result, all of them if there are fewer, and their right length.
pub format-take :
    (printed : List ℕ → List ℕ) (text : List ℕ)
    → IsText text
    → IsText (printed text)
    → format printed (of text) ≡ ok (of (take 255 (printed text)))
unfolding format
format-take printed text h hp =
    let out = take 255 (printed text) in
    let size = length-cells_of out in
    let low = length-take 255 (printed text) in
    let wide = length-replicate {A = Cell ℕ} 256 uninit in
    let junk = drop (0 + length (cells_of out)) (new_array {A = ℕ} 256) in
    let put : store (new_array 256) 0 (cells_of out) ≡ ok (cells_of out ++ junk) =
      store-in_bounds (new_array 256) 0 (cells_of out) (omega (arith, size, low, wide)) in
    rw (read_whole text h, put)
      (new_string_ends out junk (IsText-take 255 (printed text) hp) (omega (arith, low)))
