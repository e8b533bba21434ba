-- ===== src/Memory/Laws.antt =====
-- Laws of array reads and writes.
use kge.Prelude.{
  ℕ, ◌+◌, ◌≤◌, ◌<◌, ◌≡◌, refl, List, [], ◌∷◌, ◌++◌, map, arith, le→leb, lt→leb, length, take, drop,
  length-append, length-take, length-drop, take-append, ok, fault, append_assoc,
}
use kge.Memory.{Cell, init, store, fetch, values}

module _ {ℓ} {A : Type ℓ} where
  pub values-init : (xs : List A) → values (map init xs) ≡ ok xs
  unfolding values
  values-init [] = refl
  values-init (x ∷ xs) = rw (values-init xs)

  -- The array after a write that is in bounds.
  abbrev pub overwrite : List (Cell A) → ℕ → List (Cell A) → List (Cell A)
  overwrite dst at src = take at dst ++ (src ++ drop (at + length src) dst)

  pub store-in_bounds :
      (dst : List (Cell A)) (at : ℕ) (src : List (Cell A))
      → at + length src ≤ length dst
      → store dst at src ≡ ok (overwrite dst at src)
  unfolding store
  store-in_bounds dst at src h = rw (le→leb _ _ h)

  pub store-overrun :
      (dst : List (Cell A)) (at : ℕ) (src : List (Cell A))
      → length dst < at + length src
      → store dst at src ≡ fault
  unfolding store
  store-overrun dst at src h = rw (lt→leb _ _ h)

  pub fetch-in_bounds :
      (src : List (Cell A)) (at n : ℕ)
      → at + n ≤ length src
      → fetch src at n ≡ ok (take n (drop at src))
  unfolding fetch
  fetch-in_bounds src at n h = rw (le→leb _ _ h)

  pub fetch-out_of_bounds :
      (src : List (Cell A)) (at n : ℕ) → length src < at + n → fetch src at n ≡ fault
  unfolding fetch
  fetch-out_of_bounds src at n h = rw (lt→leb _ _ h)

  pub length-overwrite :
      (dst : List (Cell A)) (at : ℕ) (src : List (Cell A))
      → at + length src ≤ length dst
      → length (overwrite dst at src) ≡ length dst
  length-overwrite dst at src h = omega (
    arith,
    length-append (take at dst) (src ++ drop (at + length src) dst),
    length-append src (drop (at + length src) dst),
    length-take at dst,
    length-drop (at + length src) dst,
  )

  -- What stands up to the end of the write: what stood before it, and then what was written.
  pub take-overwrite :
      (dst : List (Cell A)) (at : ℕ) (src : List (Cell A)) (end : ℕ)
      → at + length src ≤ length dst
      → end ≡ at + length src
      → take end (overwrite dst at src) ≡ take at dst ++ src
  take-overwrite dst at src end h e =
      let front = take at dst ++ src in
      let size : end ≡ length front =
        omega (arith, length-append (take at dst) src, length-take at dst) in
      rw (← append_assoc (take at dst) src (drop (at + length src) dst), size)
        (take-append front (drop (at + length src) dst))
