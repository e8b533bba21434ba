-- ===== src/Support/Singleton.antt =====
-- The static instance pointers of apps/engine/source/support/SchedulerSingleton.cpp, EventManager.cpp, MapDivision.cpp,
-- engine/InputListenerSingleton.cpp, game/ServerSingleton.cpp and game/OutgoingClientSingleton.cpp. All of them
-- are used in the same way: `getPointer` makes the instance if there is none, and `destroy` deletes it. What a
-- destructor does outside of the instance stands with its class: `~ServerBase` destroys the host and the map
-- division (`close` of Network/ServerBase, `server_destroy` of Engine/Singletons), the client's destructor resets
-- its peer and destroys its host (`destructor` of Game/OutgoingClientSingleton).
pub mod Lives
use kge.Prelude.{ℕ, ◌+◌, Option, none, some, List, [], ◌∷◌, Result, ok, throws, fault, ◌>>=◌}

-- The instance pointer, and how many instances were made and deleted.
pub record Holder {ℓ} (S : Type ℓ) : Type ℓ where
  pub instance_ptr : Option S
  pub made : ℕ
  pub deleted : ℕ

abbrev pub no_instance {ℓ} : {S : Type ℓ} → Holder S
no_instance = record { instance_ptr = none; made = 0; deleted = 0 }

module _ {ℓ} {A S : Type ℓ} (construct : A → Result S) where
  -- `getPointer(arguments)`: what it returns points to the instance.
  unfoldable pub get_pointer : A → Holder S → Result (Holder S)
  get_pointer arguments h = elim h.instance_ptr [
    | none ↦ do
      fresh ← construct arguments
      ok (record { instance_ptr = some fresh; made = h.made + 1; deleted = h.deleted })
    | some there ↦ ok h
  ]

module _ {ℓ} {S : Type ℓ} where
  -- `destroy()`
  unfoldable pub destroy : Holder S → Holder S
  destroy h = elim h.instance_ptr [
    | none ↦ h
    | some there ↦ record { instance_ptr = none; made = h.made; deleted = h.deleted + 1 }
  ]

  -- A call of a method of the instance: without an instance it goes through a null pointer.
  unfoldable pub through : (S → Result S) → Holder S → Result (Holder S)
  through method h = elim h.instance_ptr [
    | none ↦ fault
    | some there ↦ do next ← method there; ok (record h { instance_ptr = some next })
  ]

-- One use of the pointer by the program.
pub data Access {ℓ} (A S : Type ℓ) : Type ℓ where
  gets : A → Access A S
  calls : (S → Result S) → Access A S
  destroys : Access A S

module _ {ℓ} {A S : Type ℓ} (construct : A → Result S) where
  unfoldable pub access : Access A S → Holder S → Result (Holder S)
  access (gets arguments) h = get_pointer construct arguments h
  access (calls method) h = through method h
  access destroys h = ok (destroy h)

  unfoldable pub accesses : List (Access A S) → Holder S → Result (Holder S)
  accesses [] h = ok h
  accesses (a ∷ rest) h = do after ← access a h; accesses rest after
