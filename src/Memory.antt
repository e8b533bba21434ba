-- ===== src/Memory.antt =====
-- C++ arrays: what `new T[n]` gives and what `memcpy` does, with the accesses that are out of bounds
-- or that read an element nobody wrote as `fault`.
pub mod Laws
pub mod Places
use kge.Prelude.{
  ℕ, ◌+◌, List, [], ◌∷◌, ◌++◌, leb, ◌==◌, if◌then◌else◌, length, take, drop, replicate, Result, ok,
  throws, fault, ◌>>=◌,
}

-- An element of an array, `uninit` until it is written.
pub data Cell {ℓ} (A : Type ℓ) : Type ℓ where
  uninit : Cell A
  init : A → Cell A

module _ {ℓ} {A : Type ℓ} where
  -- `new T[n]`, for a T that has no constructor of its own.
  abbrev pub new_array : ℕ → List (Cell A)
  new_array n = replicate n uninit

  -- `memcpy(&dst[at], src, ...)`, for a source that is read already.
  unfoldable pub store : List (Cell A) → ℕ → List (Cell A) → Result (List (Cell A))
  store dst at src =
      if leb (at + length src) (length dst)
      then ok (take at dst ++ (src ++ drop (at + length src) dst))
      else fault

  -- The `n` elements from `&src[at]` on.
  unfoldable pub fetch : List (Cell A) → ℕ → ℕ → Result (List (Cell A))
  fetch src at n = if leb (at + n) (length src) then ok (take n (drop at src)) else fault

  -- The values of elements that are used, not only copied.
  unfoldable pub values : List (Cell A) → Result (List A)
  values [] = ok []
  values (uninit ∷ cs) = fault
  values (init a ∷ cs) = do rest ← values cs; ok (a ∷ rest)

-- `std::string(const char*)`: the characters up to the NUL.
unfoldable pub std_string : List (Cell ℕ) → Result (List ℕ)
std_string [] = fault
std_string (uninit ∷ memory) = fault
std_string (init c ∷ memory) =
    let rest = std_string memory in
    let more : Result (List ℕ) = (do text ← rest; ok (c ∷ text)) in if c == 0 then ok [] else more
