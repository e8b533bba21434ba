-- ===== src/Support/BitStream/Endless.antt =====
-- `readString()` with its default arguments, and the `std::string` that is made of its pointer.
use kge.Prelude.{
  ℕ, zero, suc, ◌+◌, ◌-◌, ◌<◌, ◌≤◌, ◌≡◌, refl, ◌==◌, true, false, Option, none, some, List, [], ◌∷◌,
  arith, length, drop, Bool-cases, inl, inr, Result, ok, throws, fault, out_of_range, leb, drop_all,
  le→ltb,
}
use kge.Memory.{Cell, uninit, init, std_string, fetch, values}
use kge.Support.BitStream.{BitStream, cells, dereference, u8_of, find_nul, read_string, read}
use kge.Support.BitStream.Stack.{IsValid}
use kge.Support.BitStream.Reads.{read_throws}

-- What the search of `readString` found.
data Search (memory : List (Cell ℕ)) (at rounds : ℕ) (r : Result (Option ℕ)) : Type 0 where
  stopped : (i : ℕ) → at ≤ i → i < at + rounds → r ≡ ok (some i) → Search memory at rounds r
  ended : r ≡ ok none → std_string (drop at memory) ≡ fault → Search memory at rounds r
  unset : r ≡ fault → Search memory at rounds r

look_init : (c : ℕ) (rest : List (Cell ℕ)) → dereference 1 u8_of (init c ∷ rest) ≡ ok c
unfolding dereference u8_of fetch values
look_init c rest =
    let fits : leb (0 + 1) (suc (length rest)) ≡ true = ground arith in rw (dereference, fits)

look_uninit : (rest : List (Cell ℕ)) → dereference 1 u8_of (uninit ∷ rest) ≡ fault
unfolding dereference u8_of fetch values
look_uninit rest =
    let fits : leb (0 + 1) (suc (length rest)) ≡ true = ground arith in rw (dereference, fits)

next_cell :
    (memory : List (Cell ℕ)) (at : ℕ)
    → at < length memory
    → (cell : Cell ℕ) × (drop at memory ≡ cell ∷ drop (at + 1) memory)
next_cell [] at h = absurd (omega arith)
next_cell (c ∷ memory) zero h = (c, refl)
next_cell (c ∷ memory) (suc at) h =
    let (cell, e) = next_cell memory at (omega arith) in
    let s : suc at + 1 ≡ suc (at + 1) = omega arith in (cell, rw s e)

longer :
    (c : ℕ) (memory : List (Cell ℕ))
    → (c == 0) ≡ false
    → std_string memory ≡ fault
    → std_string (init c ∷ memory) ≡ fault
unfolding std_string
longer c memory other endless = rw (other, endless)

-- A look at one byte, and the search of the bytes behind it.
step-Search :
    (memory : List (Cell ℕ)) (at rounds : ℕ) (cell : Cell ℕ)
    → drop at memory ≡ cell ∷ drop (at + 1) memory
    → Search memory (at + 1) rounds (find_nul memory (at + 1) rounds)
    → Search memory at (suc rounds) (find_nul memory at (suc rounds))
unfolding find_nul
step-Search memory at rounds uninit here rest =
    unset (rw (here, look_uninit (drop (at + 1) memory)))
step-Search memory at rounds (init c) here rest = elim (Bool-cases (c == 0)) [
  | inl nul ↦
      stopped at (omega arith) (omega arith) (rw (here, look_init c (drop (at + 1) memory), nul))
  | inr other ↦ elim rest [
    | stopped i low high e ↦
        stopped i (omega arith) (omega arith)
          (rw (here, look_init c (drop (at + 1) memory), other, e))
    | ended e endless ↦
        ended (rw (here, look_init c (drop (at + 1) memory), other, e))
          (rw here (longer c (drop (at + 1) memory) other endless))
    | unset e ↦ unset (rw (here, look_init c (drop (at + 1) memory), other, e))
  ]
]

find_nul-Search :
    (memory : List (Cell ℕ)) (at rounds : ℕ)
    → at + rounds ≡ length memory
    → Search memory at rounds (find_nul memory at rounds)
unfolding find_nul std_string
find_nul-Search memory at zero e = ended refl (rw (drop_all at memory (omega arith)))
find_nul-Search memory at (suc rounds) e =
    let (cell, here) = next_cell memory at (omega arith) in
    step-Search memory at rounds cell here (find_nul-Search memory (at + 1) rounds (omega arith))

read_nothing : (s : BitStream) → read s 0 false ≡ ok (drop s.data_pointer (cells s.array), s)
unfolding read
read_nothing s =
    let same : s.data_pointer - 0 ≡ s.data_pointer = omega arith in
    rw (le→ltb s.data_pointer 0 (omega arith), same)

-- What `readString()` of a sound stream comes to: an exception, a read of memory that nobody wrote, or a
-- pointer behind which no NUL stands.
pub data Unreadable (s : BitStream) (r : Result (List (Cell ℕ) × BitStream)) : Type 0 where
  throwing : r ≡ throws out_of_range → Unreadable s r
  faulting : r ≡ fault → Unreadable s r
  endless :
      (memory : List (Cell ℕ)) → r ≡ ok (memory, s) → std_string memory ≡ fault → Unreadable s r

pub read_string-Unreadable : (s : BitStream) → IsValid s → Unreadable s (read_string s 0 false)
unfolding read_string
read_string-Unreadable s v =
    elim (find_nul-Search (cells s.array) s.data_pointer (s.data_length - s.data_pointer)
      (omega (arith, v.sized_right, v.pointer_inside))) [
        | stopped i low high e ↦ throwing (
            rw (read_string, e)
              (read_throws s _ false (omega (arith, v.fits_u32, v.pointer_inside))))
        | ended e none_there ↦
            endless (drop s.data_pointer (cells s.array)) (rw (read_string, e) (read_nothing s))
              none_there
        | unset e ↦ faulting (rw (read_string, e))
      ]
