-- ===== src/Memory/Places.antt =====
-- One element of an array, by what stands before and behind it.
use kge.Prelude.{
  suc, ◌+◌, ◌≡◌, refl, ap, ◌∙◌, List, [], ◌∷◌, ◌++◌, arith, length, take, drop, take-append,
  drop-append, length-append, ok,
}
use kge.Memory.{Cell, store, fetch}
use kge.Memory.Laws.{fetch-in_bounds, store-in_bounds}

module _ {ℓ} {A : Type ℓ} where
  drop_past : (front rest : List A) (x : A) → drop (length front + 1) (front ++ x ∷ rest) ≡ rest
  drop_past [] rest x = refl
  drop_past (y ∷ front) rest x =
      let n : suc (length front) + 1 ≡ suc (length front + 1) = omega arith in
      rw n (drop_past front rest x)

module _ {ℓ} {A : Type ℓ} (front rest : List (Cell A)) where
  pub fetch_here : (c : Cell A) → fetch (front ++ c ∷ rest) (length front) 1 ≡ ok (c ∷ [])
  fetch_here c =
      fetch-in_bounds (front ++ c ∷ rest) (length front) 1
        (omega (arith, length-append front (c ∷ rest)))
      ∙ ap (λ l. ok (take 1 l)) (drop-append front (c ∷ rest))

  pub fetch_behind :
      (x c : Cell A) → fetch (front ++ x ∷ c ∷ rest) (length front + 1) 1 ≡ ok (c ∷ [])
  fetch_behind x c =
      fetch-in_bounds (front ++ x ∷ c ∷ rest) (length front + 1) 1
        (omega (arith, length-append front (x ∷ c ∷ rest)))
      ∙ ap (λ l. ok (take 1 l)) (drop_past front (c ∷ rest) x)

  pub store_here :
      (x d : Cell A) → store (front ++ x ∷ rest) (length front) (d ∷ []) ≡ ok (front ++ d ∷ rest)
  store_here x d =
      store-in_bounds (front ++ x ∷ rest) (length front) (d ∷ [])
        (omega (arith, length-append front (x ∷ rest)))
      ∙ rw (take-append front (x ∷ rest), drop_past front rest x)
