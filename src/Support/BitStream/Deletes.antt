-- ===== src/Support/BitStream/Deletes.antt =====
-- The arrays that a stream deletes: each is one of `new U8[]`, and is given to `delete` without brackets.
use kge.Prelude.{
  ℕ, ◌+◌, ◌%◌, ◌≡◌, refl, Bool, true, false, ◌&&◌, some, List, map, length, Result, ok, throws,
  fault, ◌>>=◌,
}
use kge.Memory.{Cell, init, store, fetch, new_array}
use kge.Support.BitStream.{
  BitStream, cells, size_mod, u32_mod, is_not_null, needs_room, grow, write, write_deletes,
  destructor_deletes,
}

-- What every stream is that a growing `write` returned.
pub record Owns (t : BitStream) : Type 0 where
  pub has_array : is_not_null t.array ≡ true
  pub manages : t.is_managing_memory ≡ true

abbrev OwnsIn : Result BitStream → Type 0
OwnsIn (ok t) = Owns t
OwnsIn _ = Unit

stored-Owns :
    (s : BitStream) (n : ℕ) (r : Result (List (Cell ℕ)))
    → s.is_managing_memory ≡ true
    → OwnsIn (
        r >>= λ written.
        ok (record s { array = some written; data_pointer = (s.data_pointer + n) % size_mod }))
stored-Owns s n (ok written) h = record { has_array = refl; manages = h }
stored-Owns s n (throws e) h = tt
stored-Owns s n fault h = tt

abbrev ManagesIn : Result BitStream → Type 0
ManagesIn (ok t) = t.is_managing_memory ≡ true
ManagesIn _ = Unit

-- The two steps of the growth.
replaced-ManagesIn :
    (s : BitStream) (m : ℕ) (r : Result (List (Cell ℕ)))
    → ManagesIn (
        r >>= λ new_memory.
        ok (record s { array = some new_memory; data_length = m; is_managing_memory = true }))
replaced-ManagesIn s m (ok new_memory) = refl
replaced-ManagesIn s m (throws e) = tt
replaced-ManagesIn s m fault = tt

copied-ManagesIn :
    (s : BitStream) (m : ℕ) (r : Result (List (Cell ℕ)))
    → ManagesIn (
        r >>= λ old. store (new_array m) 0 old >>= λ new_memory.
        ok (record s { array = some new_memory; data_length = m; is_managing_memory = true }))
copied-ManagesIn s m (ok old) = replaced-ManagesIn s m (store (new_array m) 0 old)
copied-ManagesIn s m (throws e) = tt
copied-ManagesIn s m fault = tt

grow-ManagesIn : (s : BitStream) (n : ℕ) → ManagesIn (grow s n)
unfolding grow
grow-ManagesIn s n =
    copied-ManagesIn s ((s.data_length + n) % size_mod % u32_mod)
      (fetch (cells s.array) 0 s.data_length)

put-Owns :
    (n : ℕ) (bytes : List ℕ) (g : Result BitStream)
    → ManagesIn g
    → OwnsIn (
        g >>= λ t. store (cells t.array) t.data_pointer (map init bytes) >>= λ written.
        ok (record t { array = some written; data_pointer = (t.data_pointer + n) % size_mod }))
put-Owns n bytes (ok t) h =
    stored-Owns t n (store (cells t.array) t.data_pointer (map init bytes)) h
put-Owns n bytes (throws e) h = tt
put-Owns n bytes fault h = tt

write-Owns :
    (s : BitStream) (bytes : List ℕ) → needs_room s (length bytes) ≡ true → OwnsIn (write s bytes)
unfolding write
write-Owns s bytes room =
    rw (write, room)
      (put-Owns (length bytes) bytes (grow s (length bytes)) (grow-ManagesIn s (length bytes)))

and_true : (b : Bool) → (b && true) ≡ b
and_true true = refl
and_true false = refl

-- A stream that a `write` made larger gives its array to `delete` at the next `write` that makes it larger, and
-- in its destructor.
write-write_deletes :
    (s t : BitStream) (bytes : List ℕ) (n : ℕ)
    → needs_room s (length bytes) ≡ true
    → write s bytes ≡ ok t
    → (write_deletes t n ≡ needs_room t n) × (destructor_deletes t ≡ true)
unfolding write_deletes destructor_deletes
write-write_deletes s t bytes n room e =
    let owns : Owns t = rw e at (write-Owns s bytes room) in
    (rw (owns.has_array, owns.manages) (and_true (needs_room t n)), owns.manages)
