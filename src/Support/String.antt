-- ===== src/Support/String.antt =====
-- apps/engine/include/support/String.hpp and source/support/String.cpp: strings that keep their characters and
-- their length apart. Lengths are U32s.
pub mod Bounded
pub mod Comparing
pub mod Joining
pub mod Shifting
pub mod Stripping
use kge.Prelude.{
  ℕ, zero, suc, ◌+◌, ◌-◌, ◌%◌, ◌^◌, ◌==◌, Bool, true, false, ◌&&◌, Option, none, some, List, [],
  ◌∷◌, ◌++◌, map, leb, ltb, if◌then◌else◌, length, Result, ok, throws, fault, ◌>>=◌,
}
use kge.Memory.{Cell, uninit, init, new_array, store, fetch, values}

abbrev pub u32 : ℕ → ℕ
u32 n = n % 2 ^ 32

pub record String : Type 0 where
  pub is_const : Bool
  pub stored : Option (List (Cell ℕ))
  pub str_length : ℕ

-- The characters that `strlen`, `strcmp` and `sprintf` read: those up to the NUL, which must be there.
unfoldable pub c_string : List (Cell ℕ) → Result (List ℕ)
c_string [] = fault
c_string (uninit ∷ cs) = fault
c_string (init c ∷ cs) =
    let rest = (do text ← c_string cs; ok (c ∷ text)) in if c == 0 then ok [] else rest

-- What `memcpy` of a string and its NUL gives.
abbrev pub of : List ℕ → String
of text = record {
  is_const = true;
  stored = some (map init (text ++ 0 ∷ []));
  str_length = length text;
}

-- `String(value)`, for a value that is trusted.
unfoldable pub new_string : Option (List (Cell ℕ)) → Result String
new_string none = ok (record { is_const = true; stored = none; str_length = 0 })
new_string (some value) = do
  text ← c_string value
  copied ← fetch value 0 (length text + 1)
  ok (record { is_const = true; stored = some copied; str_length = u32 (length text) })

-- `sprintf(result, "%s%s", ...)` into a new array.
unfoldable pub print_both : ℕ → List (Cell ℕ) → List (Cell ℕ) → Result (List (Cell ℕ))
print_both memory_size first second = do
  a ← c_string first
  b ← c_string second
  store (new_array memory_size) 0 (map init (a ++ (b ++ 0 ∷ [])))

-- `String()`
unfoldable pub empty_string : Result String
empty_string = new_string (some (init 0 ∷ []))

-- `Concat(other)`
unfoldable pub concat : String → String → Result String
concat s other = elim s.stored [
  | none ↦ new_string other.stored
  | some first ↦ elim other.stored [
    | none ↦ new_string s.stored
    | some second ↦ do
      result ← print_both (u32 (s.str_length + other.str_length + 1)) first second
      new_string (some result)
  ]
]

-- `operator +`
unfoldable pub plus : String → String → Result String
plus s other = concat s other

-- `operator +=`
unfoldable pub append_assign : String → String → Result String
append_assign s other = elim s.stored [
  | none ↦ ok s
  | some first ↦ elim other.stored [
    | none ↦ ok s
    | some second ↦ do
      result ← print_both (u32 (s.str_length + other.str_length + 2)) first second
      ok (record s { stored = some result })
  ]
]

unfoldable pub total_length : String → ℕ
total_length s = s.str_length

pub is_null : String → Bool
is_null s = elim s.stored [ none ↦ true | some cells ↦ false ]

abbrev pub same_text : List ℕ → List ℕ → Bool
same_text [] [] = true
same_text (a ∷ cs) (b ∷ ds) = let rest = same_text cs ds in if a == b then rest else false
same_text _ _ = false

-- `operator ==`
unfoldable pub equals : String → String → Result Bool
equals s other = elim s.stored [
  | none ↦ ok false
  | some first ↦ elim other.stored [
    | none ↦ ok false
    | some second ↦ do a ← c_string first; b ← c_string second; ok (same_text a b)
  ]
]

-- `Sub(start, offset)`: the array has `offset` characters, and the NUL is written behind them.
unfoldable pub sub : String → ℕ → ℕ → Result String
sub s start offset = elim s.stored [
  | none ↦ fault
  | some cells ↦ do
    let taken =
        if ltb s.str_length (u32 (start + offset))
        then u32 (s.str_length + 2 ^ 32 - offset)
        else offset
    part ← fetch cells start taken
    copied ← store (new_array offset) 0 part
    result ← store copied taken (init 0 ∷ [])
    new_string (some result)
]

-- A single character that is looked at.
unfoldable pub char_at : List (Cell ℕ) → ℕ → Result ℕ
char_at cells i = do
  cell ← fetch cells i 1
  here ← values cell
  elim here [ [] ↦ fault | (c ∷ cs) ↦ ok c ]

-- `stored[i] == character`: a `char` is signed, and from 128 on it is negative and no U8.
abbrev pub is_character : ℕ → ℕ → Bool
is_character character c = ltb c 128 && c == character

-- The inner loop of `StripChar` from `j` on, with `left` rounds to go.
unfoldable pub push_back : List (Cell ℕ) → ℕ → ℕ → Result (List (Cell ℕ))
push_back cells j zero = ok cells
push_back cells j (suc left) = do
  next ← fetch cells (j + 1) 1
  moved ← store cells j next
  push_back moved (j + 1) left

-- The outer loop at `i`, with at most `rounds` tests of its condition to go.
unfoldable pub strip_loop : ℕ → List (Cell ℕ) → ℕ → ℕ → ℕ → ℕ → Result (List (Cell ℕ) × ℕ × ℕ)
strip_loop character cells len i removed zero = fault
strip_loop character cells len i removed (suc rounds) =
    let next = strip_loop character cells len (i + 1) removed rounds in
    let removal = (do
      moved ← push_back cells i (len - i)
      strip_loop character moved (len - 1) (i + 1) (removed + 1) rounds) in
    let body = (do c ← char_at cells i; if is_character character c then removal else next) in
    if ltb i len then body else ok (cells, len, removed)

-- The characters that a string has, and the string after they were changed.
abbrev memory_of : Option (List (Cell ℕ)) → List (Cell ℕ)
memory_of none = []
memory_of (some cells) = cells

abbrev changed : String → List (Cell ℕ) → ℕ → String
changed s cells len = record s {
  stored = elim s.stored [ none ↦ none | some old ↦ some cells ];
  str_length = len;
}

-- `StripChar(character)`: the string, and how many characters were removed.
unfoldable pub strip_char : String → ℕ → Result (String × ℕ)
strip_char s character = do
  (cells, len, removed) ←
      strip_loop character (memory_of s.stored) s.str_length 0 0 (s.str_length + 1)
  ok (changed s cells len, removed)
