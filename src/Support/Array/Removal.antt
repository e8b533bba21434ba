-- ===== src/Support/Array/Removal.antt =====
-- `Remove` and `operator []`.
use kge.Prelude.{
  leb, ltb→lt, ltb, Bool-cases, ℕ, zero, suc, ◌⊎◌, inl, inr, ◌+◌, ◌*◌, ◌-◌, ◌^◌, ◌≤◌, ◌<◌, ◌≡◌,
  refl, ap, ◌∙◌, ◌==◌, false, none, some, List, ◌∷◌, ◌++◌, arith, length, take, drop, replicate,
  map, Result, ok, fault, ◌>>=◌, length-map, length-replicate, length-take, length-drop,
}
use kge.Memory.Laws.{overwrite, fetch-in_bounds, fetch-out_of_bounds, store-in_bounds}
use kge.Memory.{Cell, uninit, init, new_array, store, fetch}
use kge.Support.Array.{Array, before_index, u32}
use kge.Support.Array.Insertion.{holding}

module _ {ℓ} {T : Type ℓ} where
  -- The `memcpy` of `Remove`.
  unfoldable pub move_back : Array T → ℕ → List (Cell T) → Result (List (Cell T))
  move_back a index fresh = elim a.elements_array [
    | none ↦ ok fresh
    | some elements ↦ do
      moved ← fetch elements (before_index a index) index
      store fresh (u32 (before_index a index + 2 ^ 32 - 1)) moved
  ]

  -- `Remove(index)`
  unfoldable pub remove : Array T → ℕ → Result (Array T)
  remove a index = do
    let count = u32 (a.element_count + 2 ^ 32 - 1)
    kept ← move_back a index (new_array count)
    ok (record { element_count = count; elements_array = some kept })

  -- `operator []`, as a place that is read.
  unfoldable pub subscript : Array T → ℕ → Result (List (Cell T))
  subscript a index = elim a.elements_array [
    | none ↦ fault
    | some elements ↦ fetch elements index 1
  ]

-- The elements that `Remove` moves, and where they come to stand.
abbrev pub moved_part {ℓ} : {T : Type ℓ} → List T → ℕ → List (Cell T)
moved_part l index = take index (drop (index - 1) (map init l))

abbrev pub shifted {ℓ} : {T : Type ℓ} → List T → ℕ → List (Cell T)
shifted l index =
    replicate (index - 2) uninit
    ++ (moved_part l index ++ replicate (length l - 1 - (index - 2 + index)) uninit)

-- The three things that `Remove` can come to.
pub data Removed {ℓ} {T : Type ℓ} (l : List T) (index : ℕ) (r : Result (Array T)) : Type ℓ where
  forgotten :
      index ≡ 0
      → r
        ≡ ok (record {
          element_count = length l - 1;
          elements_array = some (new_array (length l - 1));
        })
      → Removed l index r
  moved :
      2 ≤ index
      → 2 * index ≤ length l + 1
      → r ≡ ok (record { element_count = length l - 1; elements_array = some (shifted l index) })
      → Removed l index r
  overrun : (index ≡ 1) ⊎ (length l + 1 < 2 * index) → r ≡ fault → Removed l index r

module _ {ℓ} {A : Type ℓ} where
  take-replicate : (n m : ℕ) (a : A) → n ≤ m → take n (replicate m a) ≡ replicate n a
  take-replicate zero m a h = refl
  take-replicate (suc n) zero a h = absurd (omega (arith, h))
  take-replicate (suc n) (suc m) a h = ap (λ l. a ∷ l) (take-replicate n m a (omega (arith, h)))

  drop-replicate : (n m : ℕ) (a : A) → drop n (replicate m a) ≡ replicate (m - n) a
  drop-replicate zero m a = let e : m - 0 ≡ m = omega arith in rw e refl
  drop-replicate (suc n) zero a = let e : 0 - suc n ≡ 0 = omega arith in rw e refl
  drop-replicate (suc n) (suc m) a =
      let e : suc m - suc n ≡ m - n = omega arith in rw e (drop-replicate n m a)

module _ {ℓ} {T : Type ℓ} (x : T) (xs : List T) (small : length xs + 1 < 2 ^ 32) where
  abbrev l : List T
  l = x ∷ xs

  abbrev n : ℕ
  n = length xs

  size : length (map {B = Cell T} init l) ≡ n + 1
  size = omega (arith, length-map {B = Cell T} init l)

  less : u32 (suc n + 2 ^ 32 - 1) ≡ n
  less = omega (arith, small)

  length-fresh : length (new_array {A = T} n) ≡ n
  length-fresh = length-replicate n uninit

  inside :
      (at : ℕ) (c : ℕ)
      → at + c ≤ n + 1
      → fetch (map init l) at c ≡ ok (take c (drop at (map init l)))
  inside at c h = fetch-in_bounds (map init l) at c (omega (arith, size, h))

  before : (i : ℕ) → suc i < 2 ^ 32 → before_index (holding l) (suc i) ≡ i
  before i low =
      let less_one : u32 (suc i + 2 ^ 32 - 1) ≡ i = omega (arith, low) in
      elim (Bool-cases (leb (suc n) (suc i))) [
        | inl e ↦ rw (e, less_one) refl
        | inr e ↦
            let not_first : (suc i == 0) ≡ false = ground arith in rw (e, not_first, less_one) refl
      ]

  module _ (k : ℕ) (low : suc (suc k) < 2 ^ 32) where
    abbrev index : ℕ
    index = suc (suc k)

    target : u32 (suc k + 2 ^ 32 - 1) ≡ k
    target = omega (arith, low)

    remove_past : n + 1 < suc k + index → remove (holding l) index ≡ fault
    unfolding remove move_back
    remove_past past =
        rw
          (
            less,
            before (suc k) low,
            fetch-out_of_bounds (map {B = Cell T} init l) (suc k) index (omega (arith, size, past)),
          )
          refl

    remove_moved :
        suc k + index ≤ n + 1
        → remove (holding l) index
          ≡ ok (record { element_count = n; elements_array = some (shifted l index) })
    unfolding remove move_back
    remove_moved room =
        let part : List (Cell T) = take index (drop (suc k) (map init l)) in
        let width : length part ≡ index = omega (
          arith,
          length-take index (drop (suc k) (map {B = Cell T} init l)),
          length-drop (suc k) (map {B = Cell T} init l),
          size,
          room,
        ) in
        let nothing : Cell T = uninit in
        let one : index - 1 ≡ suc k = omega arith in
        let two : index - 2 ≡ k = omega arith in
        let last : length l - 1 ≡ n = omega arith in
        let shape : overwrite (new_array n) k part ≡ shifted l index =
          rw
            (
              take-replicate k n (nothing) (omega (arith, room)),
              width,
              drop-replicate (k + index) n (nothing),
              one,
              two,
              last,
            )
            refl in
        rw
          (
            less,
            before (suc k) low,
            inside (suc k) index room,
            target,
            store-in_bounds {A = T} (new_array n) k part (omega (arith, length-fresh, width, room)),
            shape,
          )
          refl

  pub remove_later :
      (k : ℕ) → suc (suc k) < 2 ^ 32 → Removed l (suc (suc k)) (remove (holding l) (suc (suc k)))
  remove_later k low = elim (Bool-cases (ltb (n + 1) (suc k + suc (suc k)))) [
    | inl e ↦
        let past = ltb→lt _ _ e in overrun (inr (omega (arith, past))) (remove_past k low past)
    | inr e ↦
        let room : suc k + suc (suc k) ≤ n + 1 = ground (arith, e) in
        let last : length l - 1 ≡ n = omega arith in
        moved (omega arith) (omega (arith, room)) (remove_moved k low room ∙ rw last refl)
  ]
