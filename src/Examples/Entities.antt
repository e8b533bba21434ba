-- ===== src/Examples/Entities.antt =====
-- Entities, and numbers with their bytes swapped.
use mathlib.Core.List.{reverse}
use kge.Prelude.{ℕ, ◌≡◌, none, some, List, [], ◌∷◌, ◌++◌, arith}
use kge.Support.BitStream.Received.{received, received-IsValid}
use kge.Support.EndianUtilities.{swap_endian_u16, swap_endian_u32, swap_endian_u64, swap_endian_f32}
use kge.Support.EndianUtilities.Swaps.{le_bytes, swaps_reverse}
use kge.Game.Entities.{
  Shape, no_mesh, mesh, new_rigid_prop, destroy, Vector3D, Terrain, unpack_initialization,
}
use kge.Game.Entities.Nodes.{nodes_of, added, set_all, set_all-destroy}
use kge.Game.Entities.Packing.{Refused, unpack_initialization-Refused}

abbrev shapes : List Shape
shapes = mesh (some 4) ∷ no_mesh ∷ mesh none ∷ mesh (some 7) ∷ []

set_all-destroy_example :
    (destroy (set_all new_rigid_prop shapes)).drops
    ≡ new_rigid_prop.drops ++ (nodes_of new_rigid_prop.scene_node ++ added shapes)
set_all-destroy_example = set_all-destroy new_rigid_prop shapes

abbrev hill : List ℕ
hill = 104 ∷ 105 ∷ 108 ∷ 108 ∷ []

abbrev positions : ℕ → Vector3D
positions n = record { x = n; y = 20; z = 30 }

abbrev terrain : Terrain
terrain = record {
  base = record { type_mask = 2; net_id = 0; scene_node = some 3; drops = [] };
  terrain_file = hill;
}

abbrev sent_bytes : List ℕ
sent_bytes = 104 ∷ 0 ∷ 1 ∷ []

unpack_initialization-Refused_example :
    Refused (unpack_initialization positions terrain (some 3) (received sent_bytes))
unpack_initialization-Refused_example =
    unpack_initialization-Refused positions terrain (some 3) (received sent_bytes)
      (received-IsValid sent_bytes (omega arith))

swaps_reverse_example :
    (le_bytes 2 (swap_endian_u16 258) ≡ reverse (le_bytes 2 258))
    × (le_bytes 4 (swap_endian_u32 258) ≡ reverse (le_bytes 4 258))
    × (le_bytes 4 (swap_endian_f32 258) ≡ reverse (le_bytes 4 258))
    × (le_bytes 8 (swap_endian_u64 258) ≡ reverse (le_bytes 8 258))
swaps_reverse_example = swaps_reverse 258
