-- ===== src/Prelude/Sets.antt =====
-- `std::set` of addresses: a list in increasing order.
use Prim.Native.Nat.{ℕ, suc, ◌≤◌, ◌<◌}
use mathlib.Core.Path.{◌≡◌, refl}
use mathlib.Core.Bool.{Bool, true, false, not, ◌&&◌, ◌||◌}
use mathlib.Core.List.{List, [], ◌∷◌}
use native.Mathlib.Omega.{arith}
use kge.Prelude.Tests.{ltb, ◌==◌, if◌then◌else◌}
use kge.Prelude.Lists.{length, All}

unfoldable pub contains : ℕ → List ℕ → Bool
contains a [] = false
contains a (x ∷ xs) = x == a || contains a xs

unfoldable pub set_insert : ℕ → List ℕ → List ℕ
set_insert a [] = a ∷ []
set_insert a (x ∷ xs) =
    let rest = set_insert a xs in
    if ltb a x then a ∷ x ∷ xs else if x == a then x ∷ xs else x ∷ rest

unfoldable pub set_erase : ℕ → List ℕ → List ℕ
set_erase a [] = []
set_erase a (x ∷ xs) = let rest = set_erase a xs in if x == a then xs else x ∷ rest

-- The list increases, from above `n` on.
abbrev pub Above : ℕ → List ℕ → Type 0
Above n [] = Unit {0}
Above n (x ∷ xs) = (n < x) × Above x xs

abbrev pub IsOrdered : List ℕ → Type 0
IsOrdered [] = Unit {0}
IsOrdered (x ∷ xs) = Above x xs

pub contains-set_insert :
    (d a : ℕ) (xs : List ℕ) → contains d (set_insert a xs) ≡ (a == d || contains d xs)
unfolding contains set_insert
contains-set_insert d a [] = refl
contains-set_insert d a (x ∷ xs) = ground (arith, contains-set_insert d a xs)

pub length-set_insert :
    (a : ℕ) (xs : List ℕ) → contains a xs ≡ false → length (set_insert a xs) ≡ suc (length xs)
unfolding contains set_insert
length-set_insert a [] h = refl
length-set_insert a (x ∷ xs) h = ground (arith, length-set_insert a xs)

pub length-set_erase :
    (a : ℕ) (xs : List ℕ) → contains a xs ≡ true → suc (length (set_erase a xs)) ≡ length xs
unfolding contains set_erase
length-set_erase a [] h = cc
length-set_erase a (x ∷ xs) h = ground (arith, length-set_erase a xs)

Above-lower : (m n : ℕ) (xs : List ℕ) → m ≤ n → Above n xs → Above m xs
Above-lower m n [] h k = tt
Above-lower m n (x ∷ xs) h k = (omega arith, k.1)

Above-set_insert : (n a : ℕ) (xs : List ℕ) → n < a → Above n xs → Above n (set_insert a xs)
unfolding set_insert
Above-set_insert n a [] h k = (h, tt)
Above-set_insert n a (x ∷ xs) h k = ground (arith, Above-set_insert x a xs)

Above-set_erase : (n a : ℕ) (xs : List ℕ) → Above n xs → Above n (set_erase a xs)
unfolding set_erase
Above-set_erase n a [] k = tt
Above-set_erase n a (x ∷ xs) k = ground (arith, Above-set_erase x a xs k.1, Above-lower n x xs)

pub IsOrdered-set_insert : (a : ℕ) (xs : List ℕ) → IsOrdered xs → IsOrdered (set_insert a xs)
unfolding set_insert
IsOrdered-set_insert a [] k = tt
IsOrdered-set_insert a (x ∷ xs) k = ground (arith, Above-set_insert x a xs)

Above-IsOrdered : (n : ℕ) (xs : List ℕ) → Above n xs → IsOrdered xs
Above-IsOrdered n [] k = tt
Above-IsOrdered n (x ∷ xs) k = k.1

pub IsOrdered-set_erase : (a : ℕ) (xs : List ℕ) → IsOrdered xs → IsOrdered (set_erase a xs)
unfolding set_erase
IsOrdered-set_erase a [] k = tt
IsOrdered-set_erase a (x ∷ xs) k = ground (arith, Above-set_erase x a xs k, Above-IsOrdered x xs k)

not-contains-Above : (a n : ℕ) (xs : List ℕ) → Above n xs → a ≤ n → contains a xs ≡ false
unfolding contains
not-contains-Above a n [] k h = refl
not-contains-Above a n (x ∷ xs) k h = ground (arith, not-contains-Above a x xs k.1)

erase-Above :
    (d a n : ℕ) (xs : List ℕ)
    → Above n xs
    → contains d (set_erase a xs) ≡ (contains d xs && not (a == d))
unfolding contains set_erase
erase-Above d a n [] k = refl
erase-Above d a n (x ∷ xs) k =
    ground (arith, erase-Above d a x xs k.1, not-contains-Above x x xs k.1)

pub contains-set_erase :
    (d a : ℕ) (xs : List ℕ)
    → IsOrdered xs
    → contains d (set_erase a xs) ≡ (contains d xs && not (a == d))
unfolding contains set_erase
contains-set_erase d a [] k = refl
contains-set_erase d a (x ∷ xs) k =
    ground (arith, erase-Above d a x xs k, not-contains-Above x x xs k)

pub All-contains {ℓ} :
    (P : ℕ → Type ℓ) (xs : List ℕ) → ((a : ℕ) → contains a xs ≡ true → P a) → All P xs
unfolding contains
All-contains P [] h = tt
All-contains P (x ∷ xs) h = (h x (ground arith), All-contains P xs (λ a e. h a (ground (arith, e))))
