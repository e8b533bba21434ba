-- ===== src/Support/String/Comparing.antt =====
-- Strings that are compared, and strings made of memory that nobody vouches for.
use kge.Prelude.{
  ℕ, ◌≡◌, refl, ap, ◌∙◌, ◌==◌, Bool-cases, Option-cases, inl, inr, Bool, true, false, not, none,
  some, List, [], ◌∷◌, ltb, if◌then◌else◌, Result, ok, throws, fault, ◌>>=◌,
}
use kge.Support.String.{String, c_string, equals, same_text}

-- What the S32 of `Compare` says: C++ fixes its sign and no more.
pub data Sign : Type 0 where
  negative : Sign
  nought : Sign
  positive : Sign

pub is_nought : Sign → Bool
is_nought negative = false
is_nought nought = true
is_nought positive = false

-- `strcmp`, which compares characters as unsigned ones.
abbrev pub strcmp : List ℕ → List ℕ → Sign
strcmp [] [] = nought
strcmp [] (d ∷ ds) = negative
strcmp (c ∷ cs) [] = positive
strcmp (c ∷ cs) (d ∷ ds) =
    let rest = strcmp cs ds in if c == d then rest else if ltb c d then negative else positive

-- `Compare(other)`
unfoldable pub compare : String → String → Result Sign
compare s other = elim s.stored [
  | none ↦ ok positive
  | some first ↦ elim other.stored [
    | none ↦ ok positive
    | some second ↦ do a ← c_string first; b ← c_string second; ok (strcmp a b)
  ]
]

-- `operator !=`
unfoldable pub differs : String → String → Result Bool
differs s other = do same ← equals s other; ok (not same)

is_nought-strcmp : (a b : List ℕ) → is_nought (strcmp a b) ≡ same_text a b
unfolding is_nought
is_nought-strcmp [] [] = refl
is_nought-strcmp [] (d ∷ ds) = refl
is_nought-strcmp (c ∷ cs) [] = refl
is_nought-strcmp (c ∷ cs) (d ∷ ds) = elim (Bool-cases (c == d)) [
  | inl e ↦ rw e (is_nought-strcmp cs ds)
  | inr e ↦ rw e (either_way (ltb c d))
]
  where
    either_way : (b : Bool) → is_nought (if b then negative else positive) ≡ false
    either_way true = refl
    either_way false = refl

-- One test of two strings that are read, against another that agrees with it.
module _ {ℓ} {A B : Type ℓ} (f : List ℕ → List ℕ → A) (g : A → B) (h : List ℕ → List ℕ → B)
    (agree : (a b : List ℕ) → g (f a b) ≡ h a b) where
  read_both :
      (first second : Result (List ℕ))
      → (do result ← (do a ← first; b ← second; ok (f a b)); ok (g result))
        ≡ (do a ← first; b ← second; ok (h a b))
  read_both (ok a) (ok b) = ap ok (agree a b)
  read_both (ok a) (throws e) = refl
  read_both (ok a) fault = refl
  read_both (throws e) second = refl
  read_both fault second = refl

compare-same :
    (s other : String) → (do sign ← compare s other; ok (is_nought sign)) ≡ equals s other
unfolding compare equals is_nought
compare-same s other = elim (Option-cases s.stored) [
  | inl e ↦ rw e refl
  | inr (first, e) ↦ elim (Option-cases other.stored) [
    | inl e2 ↦ rw (e, e2) refl
    | inr (second, e2) ↦
        rw (e, e2)
          (read_both strcmp is_nought same_text is_nought-strcmp (c_string first) (c_string second))
  ]
]

test_twice :
    (r : Result Sign)
    → (do sign ← r; ok (not (is_nought sign)))
      ≡ (do same ← (do sign ← r; ok (is_nought sign)); ok (not same))
test_twice (ok sign) = refl
test_twice (throws e) = refl
test_twice fault = refl

-- `Compare` gives 0 exactly where `==` holds and `!=` does not, for strings with and without
-- memory, and all three fail for the same strings, whose characters have no NUL to end them.
pub compare-equals :
    (s other : String)
    → ((do sign ← compare s other; ok (is_nought sign)) ≡ equals s other)
      × ((do sign ← compare s other; ok (not (is_nought sign))) ≡ differs s other)
unfolding differs
compare-equals s other =
    let same = compare-same s other in
    (same, test_twice (compare s other) ∙ ap (λ r. do b ← r; ok (not b)) same)
