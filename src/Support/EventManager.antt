-- ===== src/Support/EventManager.antt =====
-- apps/engine/include/support/EventManager.hpp and source/support/EventManager.cpp: delegates bound to the
-- names of events. A delegate is a number; `boost::hash` is an argument.
pub mod Bindings
use kge.Prelude.{
  ℕ, ◌==◌, Bool, true, false, Option, none, some, List, [], ◌∷◌, if◌then◌else◌, Result, ok, throws,
  fault, ◌>>=◌,
}
use kge.Support.CommandLineParser.{Text, lookup, set_at}
use kge.Support.Array.{Array, empty, append}

-- `EventMapping`
pub record EventManager : Type 0 where
  pub event_mapping : List (ℕ × Array ℕ)

abbrev pub bound_to : ℕ → EventManager → Option (Array ℕ)
bound_to name_hash m = lookup name_hash m.event_mapping

module _ (hash : Text → ℕ) where
  append_to : EventManager → ℕ → Array ℕ → ℕ → Result EventManager
  append_to m name_hash delegates delegate = do
    longer ← append delegates delegate
    ok (record m { event_mapping = set_at name_hash longer m.event_mapping })

  -- `BindEvent(name, delegate)`
  unfoldable pub bind_event : EventManager → Text → ℕ → Result EventManager
  unfolding append_to
  bind_event m name delegate = elim (bound_to (hash name) m) [
    | some delegates ↦ append_to m (hash name) delegates delegate
    | none ↦
        append_to (record m { event_mapping = set_at (hash name) empty m.event_mapping })
          (hash name) empty delegate
  ]

  -- `EmitEvent(name, argument_count, ...)`: it reads one argument, which must be there, and calls no
  -- delegate. The result is what the manager is after it.
  unfoldable pub emit_event : EventManager → Text → ℕ → Result EventManager
  emit_event m name argument_count = elim (bound_to (hash name) m) [
    | none ↦ ok m
    | some delegates ↦ if argument_count == 0 then fault else ok m
  ]

  unfoldable pub bind_all : EventManager → Text → List ℕ → Result EventManager
  unfolding bind_event
  bind_all m name [] = ok m
  bind_all m name (d ∷ ds) = do bound ← bind_event m name d; bind_all bound name ds
