-- ===== src/Game/Session/Stages.antt =====
-- How far a session has come, by the actions that happened, and how many are left.
use mathlib.Core.Option.{none-ne-some}
use kge.Prelude.{
  ℕ, suc, ◌+◌, ◌≡◌, refl, sym, ◌∙◌, Option, none, some, List, [], ◌∷◌, ◌++◌, arith, length,
  Option-cases, inl, inr,
}
use kge.Game.Session.{Action, dial, admit, serve, answer}

-- How far the two ends have come.
pub data Stage : Type 0 where
  idle called seated joined served greeted : Stage

unfoldable pub after : Stage → Action → Option Stage
after idle dial = some called
after idle admit = some seated
after called admit = some joined
after seated dial = some joined
after joined serve = some served
after served answer = some greeted
after _ _ = none

unfoldable pub path : Stage → List Action → Option Stage
path p [] = some p
path p (a ∷ actions) = elim (after p a) [ none ↦ none | some q ↦ path q actions ]

-- How many actions are left.
unfoldable pub remaining : Stage → ℕ
remaining idle = 4
remaining called = 3
remaining seated = 3
remaining joined = 2
remaining served = 1
remaining greeted = 0

some_injective : {A : Type 0} {x y : A} → some x ≡ some y → x ≡ y
some_injective h = cc

after-remaining : (p q : Stage) (a : Action) → after p a ≡ some q → suc (remaining q) ≡ remaining p
unfolding after remaining
after-remaining p q a h = ground arith

path_stops :
    (p : Stage) (a : Action) (actions : List Action)
    → after p a ≡ none
    → path p (a ∷ actions) ≡ none
unfolding path
path_stops p a actions e = rw (path, e)

path_goes :
    (p q : Stage) (a : Action) (actions : List Action)
    → after p a ≡ some q
    → path p (a ∷ actions) ≡ path q actions
unfolding path
path_goes p q a actions e = rw (path, e)

path_next :
    (p q : Stage) (a : Action) (actions : List Action)
    → path p (a ∷ actions) ≡ some q
    → (r : Stage) × (after p a ≡ some r) × (path r actions ≡ some q)
path_next p q a actions h = elim (Option-cases (after p a)) [
  | inl e ↦ absurd (none-ne-some q (sym (path_stops p a actions e) ∙ h))
  | inr (r, e) ↦ (r, e, sym (path_goes p r a actions e) ∙ h)
]

pub path-append :
    (p q : Stage) (xs ys : List Action) → path p xs ≡ some q → path p (xs ++ ys) ≡ path q ys
unfolding path
path-append p q [] ys h = let same : p ≡ q = some_injective h in rw same
path-append p q (x ∷ xs) ys h =
    let (r, e, rest) = path_next p q x xs h in
    path_goes p r x (xs ++ ys) e ∙ path-append r q xs ys rest

pub path-length :
    (p q : Stage) (xs : List Action) → path p xs ≡ some q → length xs + remaining q ≡ remaining p
unfolding path
path-length p q [] h = let same : p ≡ q = some_injective h in rw same (omega arith)
path-length p q (x ∷ xs) h =
    let (r, e, rest) = path_next p q x xs h in
    omega (arith, path-length r q xs rest, after-remaining p r x e)

pub after_greeted : (a : Action) → after greeted a ≡ none
unfolding after
after_greeted a = ground arith

-- The actions that are left, in one order.
unfoldable pub ending : Stage → List Action
ending idle = dial ∷ admit ∷ serve ∷ answer ∷ []
ending called = admit ∷ serve ∷ answer ∷ []
ending seated = dial ∷ serve ∷ answer ∷ []
ending joined = serve ∷ answer ∷ []
ending served = answer ∷ []
ending greeted = []

pub path-ending : (p : Stage) → path p (ending p) ≡ some greeted
unfolding path after ending
path-ending idle = refl
path-ending called = refl
path-ending seated = refl
path-ending joined = refl
path-ending served = refl
path-ending greeted = refl

pub length-ending : (p : Stage) → length (ending p) ≡ remaining p
unfolding ending remaining
length-ending p = ground arith
