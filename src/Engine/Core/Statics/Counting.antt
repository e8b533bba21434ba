-- ===== src/Engine/Core/Statics/Counting.antt =====
-- A tally is what is left of an instance pointer if what it points to is forgotten.
use kge.Prelude.{
  ℕ, ◌+◌, ◌>>=◌, ◌≡◌, refl, Option, none, some, Option-cases, inl, inr, Result, ok, throws, fault,
}
use kge.Support.Singleton.{Holder, get_pointer, destroy}
use kge.Engine.Core.Statics.{Tally, got, destroyed, is_there}

module _ {S : Type 0} where
  abbrev pub tally : Holder S → Tally
  tally h = record { there = is_there h.instance_ptr; made = h.made; deleted = h.deleted }

  -- `destroy`, and a `getPointer` whose constructor returns, do to the tally what the core does.
  pub tally-destroy : (h : Holder S) → tally (destroy h) ≡ destroyed (tally h)
  unfolding destroy destroyed
  tally-destroy h = elim (Option-cases h.instance_ptr) [
    | inl e ↦ rw e refl
    | inr (s, e) ↦ rw e refl
  ]

  -- The tally of a call that returns.
  pub Got : Holder S → Result (Holder S) → Type 0
  Got h (ok h') = tally h' ≡ got (tally h)
  Got h (throws e) = Unit
  Got h fault = Unit

  made_one :
      (m d : ℕ) (r : Result S)
      → Got
          (record { instance_ptr = none; made = m; deleted = d })
          (do fresh ← r; ok (record { instance_ptr = some fresh; made = m + 1; deleted = d }))
  unfolding got Got
  made_one m d (ok s) = refl
  made_one m d (throws e) = tt
  made_one m d fault = tt

  counted_call :
      {A : Type 0} (construct : A → Result S) (arguments : A) (p : Option S) (m d : ℕ)
      → let h : Holder S = record { instance_ptr = p; made = m; deleted = d } in
        Got h (get_pointer construct arguments h)
  unfolding get_pointer got Got
  counted_call construct arguments none m d = made_one m d (construct arguments)
  counted_call construct arguments (some s) m d = refl

  pub get_pointer-Got :
      {A : Type 0} (construct : A → Result S) (arguments : A) (h : Holder S)
      → Got h (get_pointer construct arguments h)
  get_pointer-Got construct arguments h =
      counted_call construct arguments h.instance_ptr h.made h.deleted
