-- ===== src/Support/Array/Insertion.antt =====
-- What the array holds after an insertion at an end.
use kge.Prelude.{
  ℕ, suc, ◌+◌, ◌-◌, ◌^◌, ◌≤◌, ◌<◌, ◌≡◌, refl, ap, none, some, List, [], ◌∷◌, ◌++◌, arith, length,
  replicate, map, Result, ok, fault, take_all, drop_all, length-map, length-replicate, append-nil,
  le→leb, lt→leb,
}
use kge.Memory.Laws.{store-overrun}
use kge.Memory.{Cell, uninit, init, new_array, store, fetch}
use kge.Support.Array.{Array, insert, append, prepend, copy_around, u32}

-- An array of elements that are all written; with none there is no memory.
abbrev pub holding {ℓ} : {T : Type ℓ} → List T → Array T
holding [] = record { element_count = 0; elements_array = none }
holding (x ∷ xs) = record {
  element_count = length (x ∷ xs);
  elements_array = some (map init (x ∷ xs));
}

-- The three things that `Append` can come to.
pub data Appended {ℓ} {T : Type ℓ} (xs : List T) (e : T) (r : Result (Array T)) : Type ℓ where
  right : length xs ≤ 1 → r ≡ ok (holding (xs ++ e ∷ [])) → Appended xs e r
  scrambled :
      (x y : T)
      → xs ≡ x ∷ y ∷ []
      → r ≡ ok (record { element_count = 3; elements_array = some (uninit ∷ init x ∷ init e ∷ []) })
      → Appended xs e r
  overrun : 3 ≤ length xs → r ≡ fault → Appended xs e r

module _ {ℓ} {T : Type ℓ} where
  fetch_all : (xs : List T) (n : ℕ) → n ≡ length xs → fetch (map init xs) 0 n ≡ ok (map init xs)
  unfolding fetch
  fetch_all xs n e =
      let l = length-map {B = Cell T} init xs in
      rw (le→leb (0 + n) (length (map {B = Cell T} init xs)) (omega (arith, l, e)))
        (ap ok (take_all n (map init xs) (omega (arith, l, e))))

  append_many :
      (x y z e : T) (xs : List T)
      → length xs + 4 < 2 ^ 32
      → append (holding (x ∷ y ∷ z ∷ xs)) e ≡ fault
  unfolding append insert copy_around
  append_many x y z e xs small =
      let l = x ∷ y ∷ z ∷ xs in
      let n = length l in
      let fresh : List (Cell T) = new_array (n + 1) in
      let fits : u32 (n + 1) ≡ n + 1 = omega (arith, small) in
      let room : length fresh ≡ n + 1 = length-replicate (n + 1) uninit in
      let wide : length (map {B = Cell T} init l) ≡ n = length-map init l in
      rw
        (
          fits,
          fetch_all l n refl,
          le→leb n n (omega arith),
          store-overrun fresh (u32 (n + 2 ^ 32 - 1)) (map init l)
              (omega (arith, room, wide, small)),
        )
        refl

  -- `Append` on fewer than 2 ^ 32 - 1 written elements is right for the first two only. The third leaves element 0 unwritten, has the
  -- first element where the second was, and loses the second; from the fourth on, the copy runs
  -- past the end of the new memory.
  pub append-Appended :
      (xs : List T) (e : T) → length xs + 1 < 2 ^ 32 → Appended xs e (append (holding xs) e)
  unfolding append insert copy_around store fetch
  append-Appended [] e small = right (omega arith) refl
  append-Appended (x ∷ []) e small = right (omega arith) refl
  append-Appended (x ∷ y ∷ []) e small = scrambled x y refl refl
  append-Appended (x ∷ y ∷ z ∷ xs) e small =
      overrun (omega arith) (append_many x y z e xs (omega (arith, small)))

  fetch_none : (c : Cell T) (cs : List (Cell T)) → fetch (c ∷ cs) 0 0 ≡ ok []
  unfolding fetch
  fetch_none c cs = rw (le→leb (0 + 0) (length (c ∷ cs)) (omega arith)) refl

  store_none : (c : Cell T) (cs : List (Cell T)) → store (c ∷ cs) 1 [] ≡ ok (c ∷ cs)
  unfolding store
  store_none c cs = rw (le→leb (1 + 0) (length (c ∷ cs)) (omega arith)) refl

  store_one : (c d : Cell T) (cs : List (Cell T)) → store (c ∷ cs) 0 (d ∷ []) ≡ ok (d ∷ cs)
  unfolding store
  store_one c d cs = rw (le→leb (0 + 1) (length (c ∷ cs)) (omega arith)) refl

  store_tail :
      (c : Cell T) (old new : List (Cell T))
      → length old ≡ length new
      → store (c ∷ old) 1 new ≡ ok (c ∷ new)
  unfolding store
  store_tail c old new e =
      let size : 1 + length new ≡ suc (length new) = omega arith in
      rw
        (
          le→leb (1 + length new) (length (c ∷ old)) (omega (arith, e)),
          size,
          drop_all (length new) old (omega (arith, e)),
          append-nil new,
        )
        refl

  -- `Prepend` on fewer than 2 ^ 32 - 1 written elements puts the new one in front of them.
  pub prepend-holding :
      (xs : List T) (e : T)
      → length xs + 1 < 2 ^ 32
      → prepend (holding xs) e ≡ ok (holding (e ∷ xs))
  unfolding prepend insert copy_around
  prepend-holding [] e small = rw (store_one uninit (init e) []) refl
  prepend-holding (x ∷ xs) e small =
      let n = suc (length xs) in
      let l = x ∷ xs in
      let rest : List (Cell T) = replicate n uninit in
      let two : n + 1 ≡ suc n = omega arith in
      let keep : u32 (n + 2 ^ 32 - 0) ≡ n = omega (arith, small) in
      let fits : u32 (suc n) ≡ suc n = omega (arith, small) in
      let size : length rest ≡ length (map {B = Cell T} init l) =
        omega (arith, length-replicate {A = Cell T} n uninit, length-map {B = Cell T} init l) in
      rw
        (
          lt→leb n 0 (omega arith),
          two,
          fits,
          fetch_none (init x) (map init xs),
          store_none uninit rest,
          keep,
          fetch_all l n refl,
          store_tail uninit rest (map init l) size,
          store_one uninit (init e) (map init l),
        )
        refl
