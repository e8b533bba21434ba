-- ===== src/Examples/Instances.antt =====
-- Arrays, strings and instance pointers at concrete inputs.
use kge.Prelude.{ℕ, ◌+◌, ◌≡◌, refl, arith, some, List, [], ◌∷◌, ◌++◌, Result, ok, ◌>>=◌}
use kge.Support.String.Joining.{IsText, cells_of}
use kge.Support.String.Bounded.{Vetted, new_untrusted, new_untrusted-Vetted}
use kge.Support.Singleton.{
  no_instance, gets, calls, destroys, Access, access, accesses, get_pointer, through,
}
use kge.Support.Singleton.Lives.{calls_on, accesses-calls_on}
use kge.Engine.Singletons.Pairs.{holds}

abbrev three : List ℕ
three = 7 ∷ 8 ∷ 9 ∷ []

abbrev word : List ℕ
word = 104 ∷ 105 ∷ []

word-IsText : IsText word
word-IsText = (ground arith, (ground arith, tt))

new_untrusted-Vetted_example : Vetted word (new_untrusted (some (cells_of word ++ [])))
new_untrusted-Vetted_example = new_untrusted-Vetted word [] word-IsText

abbrev counter : ℕ → Result ℕ
counter start = ok start

abbrev first_life : List (Access ℕ ℕ)
first_life = gets 3 ∷ calls (λ n. ok (n + 1)) ∷ []

abbrev second_life : List (Access ℕ ℕ)
second_life = calls (λ n. ok (n + 1)) ∷ gets 20 ∷ []

first_run : accesses counter first_life no_instance ≡ ok (holds (some 4) 1 0)
unfolding accesses access get_pointer through
first_run = refl

accesses-calls_on_example :
    accesses counter (first_life ++ destroys ∷ gets 10 ∷ second_life) no_instance ≡ (do
      final ← calls_on second_life 10
      ok (record { instance_ptr = some final; made = 2; deleted = 1 }))
accesses-calls_on_example =
    accesses-calls_on counter first_life second_life (holds (some 4) 1 0) 10 10 first_run refl tt
