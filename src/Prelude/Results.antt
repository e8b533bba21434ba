-- ===== src/Prelude/Results.antt =====
-- What a call comes to: it returns, it throws, or its behaviour is undefined (`fault`), which here
-- always means a use of memory that C++ does not allow.
use mathlib.Core.Path.{◌≡◌, refl}

pub data Exception : Type 0 where
  out_of_range runtime_error logic_error : Exception

pub data Result {ℓ} (A : Type ℓ) : Type ℓ where
  ok : A → Result A
  throws : Exception → Result A
  fault : Result A

-- A call, and what is done with the value if it returns.
infixl 5 ◌>>=◌
abbrev pub ◌>>=◌ {ℓ κ} : {A : Type ℓ} {B : Type κ} → Result A → (A → Result B) → Result B
fault >>= next = fault
throws e >>= next = throws e
ok a >>= next = next a

-- The same for a call that changes a state, which an exception leaves as it is at the `throw`.
pub data Outcome {ℓ} (S : Type ℓ) : Type ℓ where
  done : S → Outcome S
  raised : Exception → S → Outcome S
  undefined : Outcome S

module _ {ℓ κ} {A : Type ℓ} {B : Type κ} where
  -- A call, and two things that come to the same whatever it returns.
  pub same_steps :
      (call : Result A) {one other : A → Result B}
      → ((x : A) → one x ≡ other x)
      → (call >>= one) ≡ (call >>= other)
  same_steps fault agree = refl
  same_steps (throws raised_one) agree = refl
  same_steps (ok value) agree = agree value

  -- Two steps behind a call, taken one by one or as a single step.
  pub chained {ν} :
      {C : Type ν} (second : B → Result C) (first : A → Result B) (call : Result A)
      → ((call >>= first) >>= second) ≡ (call >>= λ x. first x >>= second)
  chained second first fault = refl
  chained second first (throws raised_one) = refl
  chained second first (ok value) = refl
