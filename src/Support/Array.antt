-- ===== src/Support/Array.antt =====
-- apps/engine/include/support/Array.hpp: an array that is reallocated at every insertion. Indices and counts are
-- U32s. The elements are of a type that `memcpy` may copy.
pub mod Insertion
pub mod Removal
use kge.Prelude.{
  ℕ, ◌+◌, ◌-◌, ◌%◌, ◌^◌, ◌==◌, Bool, true, false, Option, none, some, List, [], ◌∷◌, leb,
  if◌then◌else◌, get_elem?, Result, ok, throws, fault, ◌>>=◌,
}
use kge.Memory.{Cell, uninit, init, new_array, store, fetch}

abbrev pub u32 : ℕ → ℕ
u32 n = n % 2 ^ 32

pub record Array {ℓ} (T : Type ℓ) : Type ℓ where
  pub element_count : ℕ
  pub elements_array : Option (List (Cell T))

module _ {ℓ} {T : Type ℓ} where
  unfoldable pub empty : Array T
  empty = record { element_count = 0; elements_array = none }

  abbrev pub after_index : Array T → ℕ → ℕ
  after_index a index = if leb a.element_count index then a.element_count else u32 (index + 1)

  abbrev pub before_index : Array T → ℕ → ℕ
  before_index a index =
      if leb a.element_count index
      then u32 (index + 2 ^ 32 - 1)
      else if index == 0
      then 1
      else u32 (index + 2 ^ 32 - 1)

  -- The two `memcpy`s of `Insert`.
  unfoldable pub copy_around : Array T → ℕ → List (Cell T) → Result (List (Cell T))
  copy_around a index fresh = elim a.elements_array [
    | none ↦ ok fresh
    | some elements ↦ do
      front ← fetch elements 0 index
      fresh1 ← store fresh (before_index a index) front
      back ← fetch elements index (u32 (a.element_count + 2 ^ 32 - index))
      store fresh1 (after_index a index) back
  ]

  -- `Insert(element, index)`
  unfoldable pub insert : Array T → T → ℕ → Result (Array T)
  insert a element index = do
    copied ← copy_around a index (new_array (u32 (a.element_count + 1)))
    stored ← store copied index (init element ∷ [])
    ok (record { element_count = u32 (a.element_count + 1); elements_array = some stored })

  unfoldable pub append : Array T → T → Result (Array T)
  append a element = insert a element a.element_count

  unfoldable pub prepend : Array T → T → Result (Array T)
  prepend a element = insert a element 0

  -- `Resize(size)`, which copies all old elements, whatever the new size is.
  unfoldable pub resize : Array T → ℕ → Result (Array T)
  resize a size = elim a.elements_array [
    | none ↦ ok (record { element_count = size; elements_array = some (new_array size) })
    | some elements ↦ do
      front ← fetch elements 0 a.element_count
      copied ← store (new_array size) 0 front
      ok (record { element_count = size; elements_array = some copied })
  ]

  -- `Array(length)`
  unfoldable pub with_length : ℕ → Result (Array T)
  with_length length = resize empty length

  pub len : Array T → ℕ
  len a = a.element_count
