-- ===== src/Support/BitStream/Reads.antt =====
-- `read` and the reads of a type pop what stands on top of the stack.
use kge.Prelude.{
  ℕ, ◌+◌, ◌-◌, ◌≤◌, ◌<◌, ◌≡◌, refl, sym, ap, ◌∙◌, Bool, true, false, List, ◌++◌, map, arith, length,
  take, drop, Result, ok, throws, length-append, length-take, length-map, take-take, take-drop,
  take-append, drop-append, le→ltb, lt→ltb, out_of_range,
}
use kge.Memory.{Cell, init}
use kge.Memory.Laws.{fetch-in_bounds, values-init}
use kge.Support.BitStream.{BitStream, cells, read, read_as, dereference}
use kge.Support.BitStream.Stack.{IsValid, written}

-- `r` returned `a` and a sound stream of the same length that holds `front`.
pub record Pops {A : Type 0} (s : BitStream) (a : A) (front : List (Cell ℕ))
    (r : Result (A × BitStream)) : Type 0 where
  pub stream : BitStream
  pub returned : r ≡ ok (a, stream)
  pub valid : IsValid stream
  pub content : written stream ≡ front
  pub size : stream.data_length ≡ s.data_length

pub length-written : (s : BitStream) → IsValid s → length (written s) ≡ s.data_pointer
unfolding written
length-written s v =
    omega (arith, length-take s.data_pointer (cells s.array), v.sized_right, v.pointer_inside)

popped : BitStream → ℕ → BitStream
popped s n = record s { data_pointer = s.data_pointer - n }

-- The memory behind the pointer that `read` returns.
behind : BitStream → ℕ → Bool → List (Cell ℕ)
behind s n true = take n (drop (s.data_pointer - n) (cells s.array))
behind s n false = drop (s.data_pointer - n) (cells s.array)

read_inside :
    (s : BitStream) (n : ℕ) (copy : Bool)
    → IsValid s
    → n ≤ s.data_pointer
    → read s n copy ≡ ok (behind s n copy, popped s n)
unfolding read behind popped
read_inside s n true v h = rw (
  le→ltb _ _ h,
  fetch-in_bounds (cells s.array) (s.data_pointer - n) n
      (omega (arith, v.sized_right, v.pointer_inside)),
)
read_inside s n false v h = rw (le→ltb _ _ h)

-- Asking for more than was written throws, and changes nothing.
pub read_throws :
    (s : BitStream) (n : ℕ) (copy : Bool) → s.data_pointer < n → read s n copy ≡ throws out_of_range
unfolding read
read_throws s n copy h = rw (lt→ltb _ _ h)

popped-IsValid : (s : BitStream) (n : ℕ) → IsValid s → IsValid (popped s n)
unfolding popped
popped-IsValid s n v = record {
  sized_right = v.sized_right;
  pointer_inside = omega (arith, v.pointer_inside);
  fits_u32 = v.fits_u32;
}

module _ (s : BitStream) (v : IsValid s) (front top : List (Cell ℕ))
    (e : written s ≡ front ++ top) where
  pointer_splits : s.data_pointer ≡ length front + length top
  pointer_splits = omega (arith, length-written s v, ap length e, length-append front top)

  written-popped : written (popped s (length top)) ≡ front
  unfolding written popped
  written-popped =
      let at : s.data_pointer - length top ≡ length front = omega (arith, pointer_splits) in
      sym (take-take (s.data_pointer - length top) s.data_pointer _ (omega arith))
      ∙ ap (take (s.data_pointer - length top)) e
      ∙ rw at (take-append front top)

  top_of_array : take (length top) (drop (s.data_pointer - length top) (cells s.array)) ≡ top
  unfolding written
  top_of_array =
      let at : s.data_pointer - length top ≡ length front = omega (arith, pointer_splits) in
      let whole : s.data_pointer ≡ length front + length top = pointer_splits in
      rw (at, take-drop (length top) (length front) (cells s.array), ← whole, e)
        (drop-append front top)

  take-behind : (copy : Bool) → take (length top) (behind s (length top) copy) ≡ top
  unfolding behind
  take-behind true = take-take (length top) (length top) _ (omega arith) ∙ top_of_array
  take-behind false = top_of_array

-- What the pointer is good for is the top of the stack, whether or not it is a copy.
pub dereference_top :
    {A : Type 0} (n : ℕ) (decode : List ℕ → Result A) (memory : List (Cell ℕ)) (bytes : List ℕ)
    → n ≡ length bytes
    → take n memory ≡ map init bytes
    → dereference n decode memory ≡ decode bytes
unfolding dereference
dereference_top n decode memory bytes size e =
    let long : n ≤ length memory =
      omega (arith, ap length e, length-take n memory, length-map {B = Cell ℕ} init bytes) in
    rw (fetch-in_bounds memory 0 n (omega (arith, long)), e, values-init bytes)

pub read_as-Pops :
    {A : Type 0} (n : ℕ) (decode : List ℕ → Result A) (s : BitStream) (copy : Bool)
    (front : List (Cell ℕ)) (bytes : List ℕ) (a : A)
    → IsValid s
    → written s ≡ front ++ map init bytes
    → n ≡ length bytes
    → decode bytes ≡ ok a
    → Pops s a front (read_as n decode s copy)
unfolding read_as
read_as-Pops n decode s copy front bytes a v e size good =
    let top = map init bytes in
    let m : length top ≡ n = omega (arith, size, length-map {B = Cell ℕ} init bytes) in
    record {
      stream = popped s (length top);
      returned = rw (
        ← m,
        read_inside s (length top) copy v (omega (arith, pointer_splits s v front top e)),
        dereference_top (length top) decode (behind s (length top) copy) bytes
            (omega (arith, m, size)) (take-behind s v front top e copy),
        good,
      );
      valid = popped-IsValid s (length top) v;
      content = written-popped s v front top e;
      size = unfold popped in refl;
    }

-- `read` itself: the memory that it returns begins with the top of the stack.
pub record TakesTop (s : BitStream) (front top : List (Cell ℕ)) (n : ℕ) (copy : Bool) : Type 0 where
  pub memory : List (Cell ℕ)
  pub stream : BitStream
  pub returned : read s n copy ≡ ok (memory, stream)
  pub view : take n memory ≡ top
  pub valid : IsValid stream
  pub content : written stream ≡ front

pub read-TakesTop :
    (s : BitStream) (front top : List (Cell ℕ)) (n : ℕ) (copy : Bool)
    → IsValid s
    → written s ≡ front ++ top
    → n ≡ length top
    → TakesTop s front top n copy
read-TakesTop s front top n copy v e size = record {
  memory = behind s (length top) copy;
  stream = popped s (length top);
  returned =
      rw size (read_inside s (length top) copy v (omega (arith, pointer_splits s v front top e)));
  view = rw size (take-behind s v front top e copy);
  valid = popped-IsValid s (length top) v;
  content = written-popped s v front top e;
}
