-- ===== src/Engine/FileReadObject.antt =====
-- apps/engine/include/engine/FileReadObject.hpp and source/engine/FileReadObject.cpp: the file that Irrlicht
-- reads through PhysFS, on a machine with a `long` of 64 bits. A signed number is its residue.
pub mod InMemory
pub mod Reading
use kge.Prelude.{
  ℕ, ◌+◌, ◌%◌, ◌^◌, ◌-◌, ◌*◌, ◌≤◌, ◌<◌, ◌≡◌, ◌⊎◌, Bool, true, false, Option, none, some, List,
  if◌then◌else◌, Result, ok, throws, fault,
}

abbrev pub long_mod : ℕ
long_mod = 2 ^ 64

abbrev pub s32_mod : ℕ
s32_mod = 2 ^ 32

-- PhysFS, on handles of type `F`: a read gives the number of objects, the bytes and the handle that is left.
pub record Physfs (F : Type 0) : Type 0 where
  pub open_read : List ℕ → Option F
  pub read : F → ℕ → ℕ → ℕ × List ℕ × F
  pub seek : F → ℕ → Bool × F
  pub tell : F → ℕ
  pub file_length : F → ℕ

-- What PhysFS documents of an open file: a read of so many objects that are there returns how many it was asked
-- for and moves behind them; any other read returns fewer of them, or -1. A seek inside the file moves there.
pub record Documented {F : Type 0} (physfs : Physfs F) (handle : F) : Type 0 where
  pub length_fits : physfs.file_length handle < 2 ^ 63
  pub inside : physfs.tell handle ≤ physfs.file_length handle
  pub reads :
      (size count : ℕ)
      → 0 < size
      → physfs.tell handle + size * count ≤ physfs.file_length handle
      → ((physfs.read handle size count).0 ≡ count)
        × (physfs.tell (physfs.read handle size count).2 ≡ physfs.tell handle + size * count)
  pub reads_less :
      (size count : ℕ)
      → 0 < size
      → physfs.file_length handle < physfs.tell handle + size * count
      → ((physfs.read handle size count).0 < count)
        ⊎ ((physfs.read handle size count).0 ≡ long_mod - 1)
  pub seeks :
      (position : ℕ)
      → position ≤ physfs.file_length handle
      → ((physfs.seek handle position).0 ≡ true)
        × (physfs.tell (physfs.seek handle position).1 ≡ position)
  pub seeks_outside :
      (position : ℕ)
      → physfs.file_length handle < position
      → (physfs.seek handle position).0 ≡ false

module _ {F : Type 0} (physfs : Physfs F) where
  -- The constructor, as far as PhysFS finds the file.
  unfoldable pub open_file : List ℕ → Option F
  open_file filename = physfs.open_read filename

  -- The destructor, as the handle that it closes; there is none if PhysFS did not find the file.
  unfoldable pub closed_handle : Option F → Option F
  closed_handle handle = handle

  -- `getFileName()`, as its use: the path that the reference is to is gone when the function returns.
  unfoldable pub get_file_name : List ℕ → Result (List ℕ)
  get_file_name filename = fault

  -- `read(buffer, sizeToRead)`
  unfoldable pub read : F → ℕ → ℕ × List ℕ × F
  read handle size_to_read =
      let (count, bytes, rest) = physfs.read handle size_to_read 1 in (count % s32_mod, bytes, rest)

  -- `seek(finalPos, relativeMovement)`
  unfoldable pub seek : F → ℕ → Bool → Bool × F
  seek handle final_pos relative_movement =
      physfs.seek handle
        (if relative_movement then (final_pos + physfs.tell handle) % long_mod else final_pos)

  unfoldable pub get_size : F → ℕ
  get_size handle = physfs.file_length handle

  unfoldable pub get_pos : F → ℕ
  get_pos handle = physfs.tell handle
