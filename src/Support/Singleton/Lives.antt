-- ===== src/Support/Singleton/Lives.antt =====
-- The life of an instance, from the call that makes it on.
use mathlib.Core.Path.{subst}
use kge.Prelude.{
  ℕ, ◌+◌, ◌≡◌, refl, sym, same_steps, chained, arith, ◌∙◌, Option, none, some, List, [], ◌∷◌, ◌++◌,
  Result, ok, throws, fault, ◌>>=◌,
}
use kge.Support.Singleton.{
  Holder, no_instance, get_pointer, destroy, through, Access, gets, calls, destroys, access,
  accesses,
}

module _ {ℓ} {A S : Type ℓ} where
  -- Accesses that do not destroy.
  abbrev pub Keeps : List (Access A S) → Type 0
  Keeps [] = Unit
  Keeps (gets arguments ∷ later) = Keeps later
  Keeps (calls method ∷ later) = Keeps later
  Keeps (destroys ∷ later) = ⊥

  -- What the calls make of an instance, whatever arguments it is asked for with.
  abbrev pub calls_on : List (Access A S) → S → Result S
  calls_on [] s = ok s
  calls_on (gets arguments ∷ later) s = calls_on later s
  calls_on (calls method ∷ later) s = do next ← method s; calls_on later next
  calls_on (destroys ∷ later) s = fault

abbrev pub IsBalanced {ℓ} : {S : Type ℓ} → Holder S → Type 0
IsBalanced h = elim h.instance_ptr [
  | none ↦ h.made ≡ h.deleted
  | some there ↦ h.made ≡ h.deleted + 1
]

abbrev holding {ℓ} : {S : Type ℓ} → Option S → ℕ → ℕ → Holder S
holding p m d = record { instance_ptr = p; made = m; deleted = d }

module _ {ℓ} {A S : Type ℓ} (construct : A → Result S) where
  -- What holds after every step of a run that returns.
  Survives : Result (Holder S) → Type 0
  Survives (ok h) = IsBalanced h
  Survives (throws e) = Unit
  Survives fault = Unit

  access-IsBalanced :
      (a : Access A S) (p : Option S) (m d : ℕ)
      → IsBalanced (holding p m d)
      → Survives (access construct a (holding p m d))
  unfolding access get_pointer destroy through Survives
  access-IsBalanced (gets arguments) none m d h = made (construct arguments)
    where
      made : (r : Result S) → Survives (do fresh ← r; ok (holding (some fresh) (m + 1) d))
      made (ok s) = omega (arith, h)
      made (throws e) = tt
      made fault = tt
  access-IsBalanced (gets arguments) (some s) m d h = h
  access-IsBalanced (calls method) none m d h = tt
  access-IsBalanced (calls method) (some s) m d h = called (method s)
    where
      called : (r : Result S) → Survives (do next ← r; ok (holding (some next) m d))
      called (ok next) = h
      called (throws e) = tt
      called fault = tt
  access-IsBalanced destroys none m d h = h
  access-IsBalanced destroys (some s) m d h = h

  step_further :
      (r : Result (Holder S)) (next : Holder S → Result (Holder S))
      → ((after : Holder S) → IsBalanced after → Survives (next after))
      → Survives r
      → Survives (do after ← r; next after)
  unfolding Survives
  step_further (ok after) next step b = step after b
  step_further (throws e) next step b = tt
  step_further fault next step b = tt

  accesses-IsBalanced :
      (list : List (Access A S)) (start : Holder S)
      → IsBalanced start
      → Survives (accesses construct list start)
  unfolding accesses Survives
  accesses-IsBalanced [] start b = b
  accesses-IsBalanced (a ∷ list) start b =
      step_further (access construct a start) (accesses construct list) (accesses-IsBalanced list)
        (access-IsBalanced a start.instance_ptr start.made start.deleted b)

  accesses-append :
      (first second : List (Access A S)) (h : Holder S)
      → accesses construct (first ++ second) h
        ≡ (do middle ← accesses construct first h; accesses construct second middle)
  unfolding accesses
  accesses-append [] second h = refl
  accesses-append (a ∷ first) second h =
      same_steps (access construct a h) (λ after. accesses-append first second after)
      ∙ sym (chained (accesses construct second) (accesses construct first) (access construct a h))

  keep_run :
      (later : List (Access A S)) (s : S) (m d : ℕ)
      → Keeps later
      → accesses construct later (holding (some s) m d)
        ≡ (do final ← calls_on later s; ok (holding (some final) m d))
  unfolding accesses access get_pointer through
  keep_run [] s m d k = refl
  keep_run (gets arguments ∷ later) s m d k = keep_run later s m d k
  keep_run (calls method ∷ later) s m d k =
      chained (accesses construct later) (λ next. ok (holding (some next) m d)) (method s)
      ∙ (same_steps (method s) (λ next. keep_run later next m d k)
          ∙ sym (chained (λ final. ok (holding (some final) m d)) (calls_on later) (method s)))
  keep_run (destroys ∷ later) s m d k = absurd k

  -- `destroy`, and the call that makes the next instance.
  destroy_get :
      (p : Option S) (m d : ℕ) (arguments : A) (s : S)
      → IsBalanced (holding p m d)
      → construct arguments ≡ ok s
      → get_pointer construct arguments (destroy (holding p m d)) ≡ ok (holding (some s) (m + 1) m)
  unfolding get_pointer destroy
  destroy_get none m d arguments s b e = rw (e, b) refl
  destroy_get (some t) m d arguments s b e = rw (e, b) refl

  -- After any accesses that return, `destroy` and a `getPointer` whose constructor returns give a
  -- fresh instance, and until the next `destroy` it is what the calls of its methods make of that
  -- instance alone: nothing of the instances before it is left, the arguments of every later
  -- `getPointer` are ignored, and all the instances made before it are deleted.
  pub accesses-calls_on :
      (before later : List (Access A S)) (h : Holder S) (arguments : A) (s : S)
      → accesses construct before no_instance ≡ ok h
      → construct arguments ≡ ok s
      → Keeps later
      → accesses construct (before ++ destroys ∷ gets arguments ∷ later) no_instance ≡ (do
        final ← calls_on later s
        ok (record { instance_ptr = some final; made = h.made + 1; deleted = h.made }))
  unfolding accesses access Survives
  accesses-calls_on before later h arguments s e made k =
      let b : IsBalanced h = subst Survives e (accesses-IsBalanced before no_instance refl) in
      accesses-append before (destroys ∷ gets arguments ∷ later) no_instance
      ∙ rw (e, destroy_get h.instance_ptr h.made h.deleted arguments s b made)
          (keep_run later s (h.made + 1) h.made k)
