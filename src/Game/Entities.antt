-- ===== src/Game/Entities.antt =====
-- apps/engine/{include,source}/game/entities: EntityBase, RigidProp and Terrain. A scene node of Irrlicht is
-- an address; what Irrlicht returns is an argument, and its nodes' positions are a function.
pub mod Nodes
pub mod Packing
use kge.Prelude.{
  ℕ, ◌==◌, Bool, true, false, Option, none, some, List, [], ◌∷◌, ◌++◌, if◌then◌else◌, Result, ok,
  throws, fault, ◌>>=◌,
}
use kge.Memory.{std_string}
use kge.Support.BitStream.{BitStream, write_f32, write_string, read_f32, read_string}

abbrev pub entity_null : ℕ
entity_null = 0

abbrev pub entity_rigidprop : ℕ
entity_rigidprop = 1

abbrev pub entity_terrain : ℕ
entity_terrain = 2

-- An EntityBase, and the nodes that `drop` was called on.
pub record Entity : Type 0 where
  pub type_mask : ℕ
  pub net_id : ℕ
  pub scene_node : Option ℕ
  pub drops : List ℕ

unfoldable pub new_entity : ℕ → Entity
new_entity type_mask = record { type_mask = type_mask; net_id = 0; scene_node = none; drops = [] }

unfoldable pub drop_node : Entity → Option ℕ → Entity
drop_node e none = e
drop_node e (some node) = record e { drops = e.drops ++ node ∷ [] }

-- `~EntityBase`
unfoldable pub destroy : Entity → Entity
destroy e = drop_node e e.scene_node

-- What `getMesh` comes to, and for a mesh what `addMeshSceneNode` returns.
pub data Shape : Type 0 where
  no_mesh : Shape
  mesh : Option ℕ → Shape

unfoldable pub set_shape_file : Entity → Shape → Entity
set_shape_file e no_mesh = e
set_shape_file e (mesh node) = record (drop_node e e.scene_node) { scene_node = node }

unfoldable pub new_rigid_prop : Entity
new_rigid_prop = new_entity entity_rigidprop

-- The floats of a vector by their bits.
pub record Vector3D : Type 0 where
  pub x : ℕ
  pub y : ℕ
  pub z : ℕ

pub record Terrain : Type 0 where
  pub base : Entity
  pub terrain_file : List ℕ

-- `instantiate`, for what `addTerrainSceneNode` returned.
unfoldable pub instantiate : Terrain → Option ℕ → Terrain
instantiate t none = t
instantiate t (some node) = record t { base = record (t.base) { scene_node = some node } }

-- `Terrain(terrainFile)`
unfoldable pub new_terrain : List ℕ → Option ℕ → Terrain
new_terrain terrain_file made =
    instantiate (record { base = new_entity entity_terrain; terrain_file = terrain_file }) made

-- `packUpdate`, which reads the position and writes nothing.
unfoldable pub pack_update : Terrain → BitStream → Result BitStream
pack_update t out = elim t.base.scene_node [ none ↦ fault | some node ↦ ok out ]

-- `packInitialization`; without a node it reads through NULL.
unfoldable pub pack_initialization : (ℕ → Vector3D) → Terrain → BitStream → Result BitStream
pack_initialization positions t out = elim t.base.scene_node [
  | none ↦ fault
  | some node ↦
      let position = positions node in
      write_f32 out position.x >>= λ a.
      write_f32 a position.y >>= λ b. write_f32 b position.z >>= λ c. write_string c t.terrain_file
]

abbrev move_to : (ℕ → Vector3D) → ℕ → Vector3D → ℕ → Vector3D
move_to positions node position n = if n == node then position else positions n

place :
    Terrain → (ℕ → Vector3D) → Option ℕ → BitStream → Result (Terrain × (ℕ → Vector3D) × BitStream)
place t positions none stream = ok (t, positions, stream)
place t positions (some node) stream = do
  (z, a) ← read_f32 stream false
  (y, b) ← read_f32 a false
  (x, c) ← read_f32 b false
  ok (t, move_to positions node (record { x = x; y = y; z = z }), c)

-- `unpackInitialization`; `made` is what Irrlicht makes of the file.
unfoldable pub unpack_initialization :
    (ℕ → Vector3D) → Terrain → Option ℕ → BitStream → Result (Terrain × (ℕ → Vector3D) × BitStream)
unfolding place
unpack_initialization positions t made stream = do
  (memory, rest) ← read_string stream 0 false
  terrain_file ← std_string memory
  let named = instantiate (record t { terrain_file = terrain_file }) made
  place named positions named.base.scene_node rest

-- `Terrain(in)`
unfoldable pub terrain_from :
    (ℕ → Vector3D) → Option ℕ → BitStream → Result (Terrain × (ℕ → Vector3D) × BitStream)
terrain_from positions made stream =
    unpack_initialization positions (record { base = new_entity entity_terrain; terrain_file = [] })
      made stream
