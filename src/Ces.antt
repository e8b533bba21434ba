-- ===== src/Ces.antt =====
-- apps/engine/include/ces and source/ces: components and the entities that they belong to. A name is an address, and
-- an entity or a component the number of the place where it stands.
use kge.Prelude.{ℕ, Option, List, [], Outcome, done, undefined, ◌≡◌, refl}

-- `Entity`; `mName` is what the memory holds, since the constructor does not set it.
pub record Entity : Type 0 where
  pub components : List ℕ
  pub entity_name : ℕ

-- `Entity(name)`
unfoldable pub new_entity : ℕ → Option ℕ → Entity
new_entity found name = record { components = []; entity_name = found }

-- The class that the virtual table of a component names at the moment.
pub data DynamicType : Type 0 where
  component_base component_model_render : DynamicType

pub record Component : Type 0 where
  pub dynamic_type : DynamicType
  pub parent : ℕ

-- `ComponentBase(parent)`
unfoldable pub new_base : ℕ → Component
new_base parent = record { dynamic_type = component_base; parent = parent }

-- `ComponentModelRender(parent)`, which runs after that of the base.
unfoldable pub new_model_render : ℕ → Component
new_model_render parent = record (new_base parent) { dynamic_type = component_model_render }

-- The virtual functions. Those of ComponentBase are pure, and a call of them has undefined behaviour.
unfoldable pub initialize : Component → Outcome Component
initialize c = elim c.dynamic_type [ component_base ↦ undefined | component_model_render ↦ done c ]

unfoldable pub deinitialize : Component → Outcome Component
deinitialize c = elim c.dynamic_type [
  | component_base ↦ undefined
  | component_model_render ↦ done c
]

-- `Tick(DeltaTimeSeconds)`, which no class overrides.
unfoldable pub tick : Component → ℕ → Outcome Component
tick c delta_time = done c

-- `~ComponentBase`, and that of ComponentModelRender, which has no body of its own: when the body of the base runs,
-- the component is a ComponentBase again.
unfoldable pub destroy_base : Component → Outcome Component
destroy_base c = deinitialize (record c { dynamic_type = component_base })

unfoldable pub destroy_model_render : Component → Outcome Component
destroy_model_render c = destroy_base c

-- No component can be destroyed.
pub destroy_model_render_faults : (c : Component) → destroy_model_render c ≡ undefined
unfolding destroy_model_render destroy_base deinitialize
destroy_model_render_faults c = refl
