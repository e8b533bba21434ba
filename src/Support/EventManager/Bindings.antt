-- ===== src/Support/EventManager/Bindings.antt =====
-- How many delegates an event can have.
use kge.Prelude.{
  ℕ, ◌≡◌, refl, ap, ◌∙◌, ◌==◌, ==_iff, true, none, some, List, [], ◌∷◌, ◌++◌, append_assoc, Result,
  ok, fault,
}
use kge.Memory.{uninit, init, store, fetch}
use kge.Support.CommandLineParser.{Text, lookup, set_at}
use kge.Support.CommandLineParser.Parsing.{lookup-set_at}
use kge.Support.Array.{Array, empty, append, insert, copy_around}
use kge.Support.Array.Insertion.{holding}
use kge.Support.EventManager.{EventManager, bound_to, append_to, bind_event, bind_all}

-- An array of three delegates as `Append` leaves it.
abbrev pub third : ℕ → ℕ → Array ℕ
third d1 d3 = record { element_count = 3; elements_array = some (uninit ∷ init d1 ∷ init d3 ∷ []) }

bound_set : (k : ℕ) (a : Array ℕ) (m : List (ℕ × Array ℕ)) → lookup k (set_at k a m) ≡ some a
bound_set k a m =
    let same : (k == k) ≡ true = (==_iff k k).1 refl in lookup-set_at k k a m ∙ rw same refl

module _ (hash : Text → ℕ) (name : Text) where
  -- A binding to a name that has delegates.
  bind_next :
      (m : EventManager) (a b : Array ℕ) (d : ℕ)
      → bound_to (hash name) m ≡ some a
      → append a d ≡ ok b
      → bind_event hash m name d
        ≡ ok (record { event_mapping = set_at (hash name) b m.event_mapping })
  unfolding bind_event append_to
  bind_next m a b d known grows = simp (bind_event, known, grows) refl

  -- A binding to a name that has none; the array is put into the map first.
  bind_first :
      (m : EventManager) (d : ℕ)
      → bound_to (hash name) m ≡ none
      → bind_event hash m name d
        ≡ ok (record {
          event_mapping =
              set_at (hash name) (holding (d ∷ [])) (set_at (hash name) empty m.event_mapping);
        })
  unfolding bind_event append_to append insert copy_around store fetch empty
  bind_first m d unknown = simp (bind_event, unknown) refl

  bound_next :
      (m : EventManager) (a b : Array ℕ) (d : ℕ)
      → bound_to (hash name) m ≡ some a
      → append a d ≡ ok b
      → (next : EventManager) × (bind_event hash m name d ≡ ok next)
        × (bound_to (hash name) next ≡ some b)
  bound_next m a b d known grows =
      (_, bind_next m a b d known grows, bound_set (hash name) b m.event_mapping)

  bind_overrun :
      (m : EventManager) (a : Array ℕ) (d : ℕ)
      → bound_to (hash name) m ≡ some a
      → append a d ≡ fault
      → bind_event hash m name d ≡ fault
  unfolding bind_event append_to
  bind_overrun m a d known breaks = simp (bind_event, known, breaks) refl

-- What comes of binding delegates to a name that had none.
pub data Bound (hash : Text → ℕ) (name : Text) (ds : List ℕ) (r : Result EventManager)
    : Type 0 where
  one :
      (d : ℕ) (m : EventManager)
      → ds ≡ d ∷ []
      → r ≡ ok m
      → bound_to (hash name) m ≡ some (holding (d ∷ []))
      → Bound hash name ds r
  two :
      (d1 d2 : ℕ) (m : EventManager)
      → ds ≡ d1 ∷ d2 ∷ []
      → r ≡ ok m
      → bound_to (hash name) m ≡ some (holding (d1 ∷ d2 ∷ []))
      → Bound hash name ds r
  three :
      (d1 d2 d3 : ℕ) (m : EventManager)
      → ds ≡ d1 ∷ d2 ∷ d3 ∷ []
      → r ≡ ok m
      → bound_to (hash name) m ≡ some (third d1 d3)
      → Bound hash name ds r
  more :
      (d1 d2 d3 d4 : ℕ) (rest : List ℕ)
      → ds ≡ d1 ∷ d2 ∷ d3 ∷ d4 ∷ rest
      → r ≡ fault
      → Bound hash name ds r

append_computed :
    (d1 d2 d3 d4 : ℕ)
    → (append (holding (d1 ∷ [])) d2 ≡ ok (holding (d1 ∷ d2 ∷ [])))
      × (append (holding (d1 ∷ d2 ∷ [])) d3 ≡ ok (third d1 d3))
      × (append (third d1 d3) d4 ≡ fault)
unfolding append insert copy_around store fetch
append_computed d1 d2 d3 d4 = (refl, refl, refl)

module _ (hash : Text → ℕ) (name : Text) (m : EventManager)
    (unknown : bound_to (hash name) m ≡ none) where
  -- The manager after one binding, two, or three.
  Holds : EventManager → List ℕ → Array ℕ → Type 0
  Holds next ds b =
      ((rest : List ℕ) → bind_all hash m name (ds ++ rest) ≡ bind_all hash next name rest)
      × (bound_to (hash name) next ≡ some b)

  bound_one : (d : ℕ) → (next : EventManager) × Holds next (d ∷ []) (holding (d ∷ []))
  unfolding bind_all Holds
  bound_one d =
      let a = bind_first hash name m d unknown in
      let fresh = set_at (hash name) empty m.event_mapping in
      let next : EventManager = record {
        event_mapping = set_at (hash name) (holding (d ∷ [])) fresh;
      } in
      (next, ((λ rest. simp a refl), bound_set (hash name) (holding (d ∷ [])) fresh))

  bound_more :
      (next : EventManager) (ds : List ℕ) (d : ℕ) (a b : Array ℕ)
      → Holds next ds a
      → append a d ≡ ok b
      → (last : EventManager) × Holds last (ds ++ d ∷ []) b
  unfolding bind_all Holds
  bound_more next ds d a b (stepped, known) grows =
      let (last, bound, now) = bound_next hash name next a b d known grows in
      (
        last,
        (
          (λ rest.
              ap (bind_all hash m name) (append_assoc ds (d ∷ []) rest)
              ∙ stepped (d ∷ rest)
              ∙ simp bound refl),
          now,
        ),
      )

  bound_two :
      (d1 d2 : ℕ) → (next : EventManager) × Holds next (d1 ∷ d2 ∷ []) (holding (d1 ∷ d2 ∷ []))
  bound_two d1 d2 =
      let (next, held) = bound_one d1 in
      bound_more next (d1 ∷ []) d2 _ _ held (append_computed d1 d2 0 0).0

  bound_three :
      (d1 d2 d3 : ℕ) → (next : EventManager) × Holds next (d1 ∷ d2 ∷ d3 ∷ []) (third d1 d3)
  bound_three d1 d2 d3 =
      let (next, held) = bound_two d1 d2 in
      bound_more next (d1 ∷ d2 ∷ []) d3 _ _ held (append_computed d1 d2 d3 0).1

  -- A name that has no delegates takes one or two as it should. A third leaves the array without
  -- the second, and with an element that was never written; a fourth writes past the end of the
  -- array's memory.
  pub bind_all-Bound :
      (d : ℕ) (ds : List ℕ) → Bound hash name (d ∷ ds) (bind_all hash m name (d ∷ ds))
  unfolding bind_all Holds
  bind_all-Bound d [] =
      let (next, (stepped, known)) = bound_one d in one d next refl (stepped []) known
  bind_all-Bound d1 (d2 ∷ []) =
      let (next, (stepped, known)) = bound_two d1 d2 in two d1 d2 next refl (stepped []) known
  bind_all-Bound d1 (d2 ∷ d3 ∷ []) =
      let (next, (stepped, known)) = bound_three d1 d2 d3 in
      three d1 d2 d3 next refl (stepped []) known
  bind_all-Bound d1 (d2 ∷ d3 ∷ d4 ∷ ds) =
      let (next, (stepped, known)) = bound_three d1 d2 d3 in
      let breaks =
        bind_overrun hash name next (third d1 d3) d4 known (append_computed d1 d2 d3 d4).2 in
      more d1 d2 d3 d4 ds refl (stepped (d4 ∷ ds) ∙ simp breaks refl)
