-- ===== src/Support/BitStream.antt =====
-- apps/engine/include/support/BitStream.hpp and source/support/BitStream.cpp, on a machine with
-- 64-bit `size_t` and little-endian numbers, where `sizeof(bool)` is 1. A float is its four bytes,
-- read as a number.
pub mod Stack
pub mod Reads
pub mod RoundTrip
pub mod Strings
pub mod Received
pub mod Output
pub mod Endless
pub mod Deletes
use kge.Prelude.{
  ℕ, zero, suc, ◌+◌, ◌-◌, ◌*◌, ◌/◌, ◌%◌, ◌^◌, ◌<◌, Bool, true, false, ◌&&◌, not, Option, none, some,
  List, [], ◌∷◌, ◌++◌, map, ltb, leb, ◌==◌, if◌then◌else◌, length, take, drop, Result, ok, throws,
  fault, Exception, out_of_range, ◌>>=◌,
}
use kge.Memory.{Cell, uninit, init, new_array, store, fetch, values}

-- `size_t` and `U32` arithmetic.
abbrev pub size_mod : ℕ
size_mod = 2 ^ 64

abbrev pub u32_mod : ℕ
u32_mod = 2 ^ 32

-- `array` is what `mData` points to, `none` where it is NULL.
pub record BitStream : Type 0 where
  pub array : Option (List (Cell ℕ))
  pub data_pointer : ℕ
  pub data_length : ℕ
  pub is_managing_memory : Bool

-- The bytes that can be reached through `mData`.
abbrev pub cells : Option (List (Cell ℕ)) → List (Cell ℕ)
cells none = []
cells (some cs) = cs

-- `BitStream(U8 *initialData, size_t initialDataLength, size_t initialDataIndex)`
pub from_array : Option (List (Cell ℕ)) → ℕ → ℕ → BitStream
from_array none initial_length initial_index = record {
  array = none;
  data_pointer = initial_index;
  data_length = 0;
  is_managing_memory = false;
}
from_array (some cs) initial_length initial_index = record {
  array = some cs;
  data_pointer = initial_index;
  data_length = initial_length;
  is_managing_memory = false;
}

-- `BitStream(size_t initialDataLength)`
unfoldable pub sized : ℕ → BitStream
sized initial_length = record {
  array = some (new_array initial_length);
  data_pointer = 0;
  data_length = initial_length;
  is_managing_memory = true;
}

-- Whether `~BitStream` deletes the array, which it does with `delete`, not `delete[]`.
pub destructor_deletes : BitStream → Bool
destructor_deletes s = s.is_managing_memory

abbrev pub is_not_null : Option (List (Cell ℕ)) → Bool
is_not_null none = false
is_not_null (some cs) = true

-- The test that guards the growth of the array in `write`.
needs_room : BitStream → ℕ → Bool
needs_room s n = ltb s.data_length ((s.data_pointer + n) % size_mod)

-- Whether `write` deletes the array that it replaces, likewise with `delete`.
pub write_deletes : BitStream → ℕ → Bool
unfolding needs_room
write_deletes s n = needs_room s n && (is_not_null s.array && s.is_managing_memory)

-- The growth: `mDataLength + inDataLength` bytes, in a U32, with the old bytes copied in front. The `delete` of an
-- array of `new U8[]` (`write_deletes`, and Deletes for when it happens) and the copy of no bytes from
-- NULL are taken as compilers build them: the one frees the array, the other does nothing.
grow : BitStream → ℕ → Result BitStream
grow s n = do
  let new_length = (s.data_length + n) % size_mod % u32_mod
  old ← fetch (cells s.array) 0 s.data_length
  new_memory ← store (new_array new_length) 0 old
  ok (record s { array = some new_memory; data_length = new_length; is_managing_memory = true })

-- `write(inData, inDataLength)`, for the bytes that stand at `inData`.
pub write : BitStream → List ℕ → Result BitStream
unfolding needs_room grow
write s bytes = do
  let n = length bytes
  t ← (if needs_room s n then grow s n else ok s)
  written ← store (cells t.array) t.data_pointer (map init bytes)
  ok (record t { array = some written; data_pointer = (t.data_pointer + n) % size_mod })

-- The bytes of a U32 in memory, and back.
unfoldable pub u32_bytes : ℕ → List ℕ
u32_bytes v = v % 256 ∷ v / 256 % 256 ∷ v / 65536 % 256 ∷ v / 16777216 % 256 ∷ []

unfoldable pub u32_of : List ℕ → Result ℕ
u32_of (a ∷ b ∷ c ∷ d ∷ []) = ok (a + 256 * b + 65536 * c + 16777216 * d)
u32_of _ = fault

unfoldable pub u8_of : List ℕ → Result ℕ
u8_of (a ∷ []) = ok a
u8_of _ = fault

-- A `bool` is stored as 0 or 1, and no other byte may be read as one.
unfoldable pub bool_byte : Bool → ℕ
bool_byte true = 1
bool_byte false = 0

unfoldable pub bool_of : List ℕ → Result Bool
bool_of (a ∷ []) = if a == 0 then ok false else if a == 1 then ok true else fault
bool_of _ = fault

pub write_f32 : BitStream → ℕ → Result BitStream
write_f32 s v = write s (u32_bytes v)

pub write_bool : BitStream → Bool → Result BitStream
write_bool s b = write s (bool_byte b ∷ [])

pub write_u8 : BitStream → ℕ → Result BitStream
write_u8 s v = write s (v % 256 ∷ [])

pub write_u32 : BitStream → ℕ → Result BitStream
write_u32 s v = write s (u32_bytes v)

-- A `std::string` of these bytes: `length() + 1` of them, with the NUL of `c_str()`.
pub write_string : BitStream → List ℕ → Result BitStream
write_string s text = write s (text ++ 0 ∷ [])

-- `read(outDataLength, shouldMemcpy)`. The list is the memory behind the pointer that it returns:
-- the copy, or the rest of the array.
pub read : BitStream → ℕ → Bool → Result (List (Cell ℕ) × BitStream)
read s n should_memcpy =
    if ltb s.data_pointer n
    then throws out_of_range
    else (let at = s.data_pointer - n in
        let t = record s { data_pointer = at } in
        if should_memcpy
        then (do copy ← fetch (cells s.array) at n; ok (copy, t))
        else ok (drop at (cells s.array), t))

-- `*(T*)pointer`, for a T of `n` bytes.
unfoldable pub dereference {ℓ} : {A : Type ℓ} → ℕ → (List ℕ → Result A) → List (Cell ℕ) → Result A
dereference n decode memory = do here ← fetch memory 0 n; bytes ← values here; decode bytes

-- `*(T *)read(n, shouldMemcpy)`: the bytes are taken one by one, at whatever alignment the pointer has.
pub read_as : {A : Type 0} → ℕ → (List ℕ → Result A) → BitStream → Bool → Result (A × BitStream)
read_as n decode s should_memcpy = do
  (memory, t) ← read s n should_memcpy
  v ← dereference n decode memory
  ok (v, t)

pub read_f32 : BitStream → Bool → Result (ℕ × BitStream)
unfolding read_as
read_f32 = read_as 4 u32_of

pub read_bool : BitStream → Bool → Result (Bool × BitStream)
unfolding read_as
read_bool = read_as 1 bool_of

pub read_u8 : BitStream → Bool → Result (ℕ × BitStream)
unfolding read_as
read_u8 = read_as 1 u8_of

pub read_u32 : BitStream → Bool → Result (ℕ × BitStream)
unfolding read_as
read_u32 = read_as 4 u32_of

-- The loop of `readString`, `iteration` upwards with `rounds` bytes to go: where it meets a NUL.
find_nul : List (Cell ℕ) → ℕ → ℕ → Result (Option ℕ)
find_nul memory iteration zero = ok none
find_nul memory iteration (suc rounds) = do
  byte ← dereference 1 u8_of (drop iteration memory)
  let rest = find_nul memory (iteration + 1) rounds
  if byte == 0 then ok (some iteration) else rest

-- `readString(outStringLength, shouldMemcpy)`
pub read_string : BitStream → ℕ → Bool → Result (List (Cell ℕ) × BitStream)
unfolding find_nul
read_string s n should_memcpy = do
  found ← find_nul (cells s.array) s.data_pointer (s.data_length - s.data_pointer)
  elim found [
    | some iteration ↦ read s ((iteration + size_mod - s.data_length) % size_mod) should_memcpy
    | none ↦ read s n should_memcpy
  ]

pub raw : BitStream → Bool → Result (List (Cell ℕ) × BitStream)
raw s should_memcpy = read s s.data_pointer should_memcpy

-- `length()`
unfoldable pub stream_length : BitStream → ℕ
stream_length s = s.data_length
