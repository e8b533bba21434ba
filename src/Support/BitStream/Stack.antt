-- ===== src/Support/BitStream/Stack.antt =====
-- The stream is a stack of bytes: `write` pushes at the data pointer and `read` pops below it.
use kge.Prelude.{
  ℕ, leb→le, take-take, lt→ltb, ◌+◌, ◌%◌, ◌≤◌, ◌<◌, ◌≡◌, refl, sym, ap, ◌∙◌, inl, inr, true, false,
  some, List, ◌++◌, map, arith, leb, ltb, if◌then◌else◌, Bool-cases, length, take, Result, ok,
  length-map, length-replicate, take_all, le→ltb,
}
use kge.Memory.{Cell, init, new_array}
use kge.Memory.Laws.{overwrite, store-in_bounds, fetch-in_bounds, length-overwrite, take-overwrite}
use kge.Support.BitStream.{BitStream, cells, size_mod, u32_mod, needs_room, grow, write}

-- The bookkeeping agrees with the array, and the pointer stands inside it.
pub record IsValid (s : BitStream) : Type 0 where
  pub sized_right : length (cells s.array) ≡ s.data_length
  pub pointer_inside : s.data_pointer ≤ s.data_length
  pub fits_u32 : s.data_length < u32_mod

-- The stack: the bytes below the data pointer, the top one last.
unfoldable pub written : BitStream → List (Cell ℕ)
written s = take s.data_pointer (cells s.array)

-- The length after `n` bytes are written: it grows by all of them, or not at all.
abbrev pub length_after : BitStream → ℕ → ℕ
length_after s n =
    if leb (s.data_pointer + n) s.data_length then s.data_length else s.data_length + n

-- `r` returned a sound stream, which holds what `s` held and `bytes` on top.
pub record Pushes (s : BitStream) (bytes : List ℕ) (r : Result BitStream) : Type 0 where
  pub stream : BitStream
  pub returned : r ≡ ok stream
  pub valid : IsValid stream
  pub content : written stream ≡ written s ++ map init bytes
  pub size : stream.data_length ≡ length_after s (length bytes)

length-new_array : (n : ℕ) → length (new_array {A = ℕ} n) ≡ n
length-new_array n = length-replicate n _

grown : BitStream → ℕ → BitStream
grown s n = record {
  array = some (overwrite (new_array (s.data_length + n)) 0 (cells s.array));
  data_pointer = s.data_pointer;
  data_length = s.data_length + n;
  is_managing_memory = true;
}

grow_lem :
    (s : BitStream) (n : ℕ) → IsValid s → s.data_length + n < u32_mod → grow s n ≡ ok (grown s n)
unfolding grow grown
grow_lem s n v h =
    let wraps : (s.data_length + n) % size_mod % u32_mod ≡ s.data_length + n = omega arith in
    rw (
      fetch-in_bounds (cells s.array) 0 s.data_length (omega (arith, v.sized_right)),
      take_all s.data_length (cells s.array) (omega (arith, v.sized_right)),
      wraps,
      store-in_bounds (new_array (s.data_length + n)) 0 (cells s.array)
          (omega (arith, v.sized_right, length-new_array (s.data_length + n))),
    )

grown_prefix :
    (s : BitStream) (n : ℕ)
    → IsValid s
    → take s.data_length (overwrite (new_array (s.data_length + n)) 0 (cells s.array))
      ≡ cells s.array
grown_prefix s n v =
    take-overwrite (new_array (s.data_length + n)) 0 (cells s.array) s.data_length
      (omega (arith, v.sized_right, length-new_array (s.data_length + n)))
      (omega (arith, v.sized_right))

grown-IsValid :
    (s : BitStream) (n : ℕ) → IsValid s → s.data_length + n < u32_mod → IsValid (grown s n)
unfolding grown
grown-IsValid s n v h = record {
  sized_right = omega (
    arith,
    v.sized_right,
    length-new_array (s.data_length + n),
    length-overwrite (new_array (s.data_length + n)) 0 (cells s.array)
        (omega (arith, v.sized_right, length-new_array (s.data_length + n))),
  );
  pointer_inside = omega (arith, v.pointer_inside);
  fits_u32 = h;
}

written-grown : (s : BitStream) (n : ℕ) → IsValid s → written (grown s n) ≡ written s
unfolding written grown
written-grown s n v =
    sym (take-take s.data_pointer s.data_length _ v.pointer_inside)
    ∙ ap (take s.data_pointer) (grown_prefix s n v)

placed : BitStream → List ℕ → BitStream
placed t bytes = record t {
  array = some (overwrite (cells t.array) t.data_pointer (map init bytes));
  data_pointer = t.data_pointer + length bytes;
}

write_inside :
    (t : BitStream) (bytes : List ℕ)
    → IsValid t
    → t.data_pointer + length bytes ≤ t.data_length
    → write t bytes ≡ ok (placed t bytes)
unfolding write placed
write_inside t bytes v h =
    let small : (t.data_pointer + length bytes) % size_mod ≡ t.data_pointer + length bytes =
      omega (arith, v.fits_u32) in
    rw (
      small,
      le→ltb _ _ h,
      store-in_bounds (cells t.array) t.data_pointer (map init bytes)
          (omega (arith, v.sized_right, length-map {B = Cell ℕ} init bytes)),
      small,
    )

grown_has_room :
    (s : BitStream) (n : ℕ)
    → IsValid s
    → s.data_length + n < u32_mod
    → needs_room (grown s n) n ≡ false
unfolding grown needs_room
grown_has_room s n v h = le→ltb _ _ (omega (arith, v.pointer_inside, v.fits_u32))

write_outside :
    (s : BitStream) (bytes : List ℕ)
    → IsValid s
    → s.data_length < s.data_pointer + length bytes
    → s.data_length + length bytes < u32_mod
    → write s bytes ≡ write (grown s (length bytes)) bytes
unfolding write
write_outside s bytes v h k =
    let more : ltb s.data_length ((s.data_pointer + length bytes) % size_mod) ≡ true =
      lt→ltb _ _ (omega (arith, v.pointer_inside, v.fits_u32)) in
    rw (more, grow_lem s (length bytes) v k, grown_has_room s (length bytes) v k)

module _ (t : BitStream) (bytes : List ℕ) (v : IsValid t) where
  mapped : length (map {B = Cell ℕ} init bytes) ≡ length bytes
  mapped = length-map init bytes

  module _ (h : t.data_pointer + length bytes ≤ t.data_length) where
    placed-IsValid : IsValid (placed t bytes)
    unfolding placed
    placed-IsValid = record {
      sized_right =
          length-overwrite (cells t.array) t.data_pointer (map init bytes)
            (omega (arith, mapped, v.sized_right))
          ∙ v.sized_right;
      pointer_inside = h;
      fits_u32 = v.fits_u32;
    }

    written-placed : written (placed t bytes) ≡ written t ++ map init bytes
    unfolding written placed
    written-placed =
        take-overwrite (cells t.array) t.data_pointer (map init bytes) _
          (omega (arith, mapped, v.sized_right)) (omega (arith, mapped))

inside-Pushes :
    (s t : BitStream) (bytes : List ℕ) (v : IsValid t)
    → (h : t.data_pointer + length bytes ≤ t.data_length) → write s bytes ≡ write t bytes
    → written t ≡ written s
    → t.data_length ≡ length_after s (length bytes)
    → Pushes s bytes (write s bytes)
inside-Pushes s t bytes v h same below size = record {
  stream = placed t bytes;
  returned = same ∙ write_inside t bytes v h;
  valid = placed-IsValid t bytes v h;
  content = written-placed t bytes v h ∙ ap (λ cs. cs ++ map init bytes) below;
  size = unfold placed in size;
}

-- Writing to a sound stream pushes the bytes, unless the stream would outgrow a U32: they stand on
-- what was written before, and the stream stays sound. It grows by all of them, or not at all.
pub write-Pushes :
    (s : BitStream) (bytes : List ℕ)
    → IsValid s
    → s.data_length + length bytes < u32_mod
    → Pushes s bytes (write s bytes)
write-Pushes s bytes v h = elim (Bool-cases (leb (s.data_pointer + length bytes) s.data_length)) [
  | inl fits ↦ inside-Pushes s s bytes v (leb→le _ _ fits) refl refl (rw fits)
  | inr more ↦
      inside-Pushes s (grown s (length bytes)) bytes (grown-IsValid s (length bytes) v h)
        (unfold grown in omega (arith, v.pointer_inside)) (write_outside s bytes v (ground arith) h)
        (written-grown s (length bytes) v) (unfold grown in rw more)
]
