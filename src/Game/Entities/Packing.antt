-- ===== src/Game/Entities/Packing.antt =====
-- The packets of a Terrain.
use kge.Prelude.{
  ℕ, ◌+◌, ◌<◌, ◌≡◌, Option, some, List, [], ◌∷◌, ◌++◌, arith, length, length-append, Result, throws,
  fault, out_of_range,
}
use kge.Support.BitStream.{BitStream, u32_mod, u32_bytes}
use kge.Support.BitStream.Stack.{IsValid}
use kge.Support.BitStream.Endless.{throwing, faulting, endless, read_string-Unreadable}
use kge.Support.BitStream.Output.{Holds, Outputs, write_f32-Outputs, write_string-Outputs}
use kge.Game.Entities.{Vector3D, Terrain, pack_initialization, unpack_initialization}

-- The two ways in which a Terrain is not read.
pub data Refused (r : Result (Terrain × (ℕ → Vector3D) × BitStream)) : Type 0 where
  by_exception : r ≡ throws out_of_range → Refused r
  by_fault : r ≡ fault → Refused r

-- No sound stream, whatever it holds, is read as a Terrain, whatever Irrlicht makes of the file:
-- `unpackInitialization` throws `std::out_of_range`, or has undefined behaviour, because it makes a string of
-- the memory behind the data pointer, where no NUL stands.
pub unpack_initialization-Refused :
    (positions : ℕ → Vector3D) (t : Terrain) (made : Option ℕ) (s : BitStream)
    → IsValid s
    → Refused (unpack_initialization positions t made s)
unfolding unpack_initialization
unpack_initialization-Refused positions t made s v = elim (read_string-Unreadable s v) [
  | throwing e ↦ by_exception (rw (unpack_initialization, e))
  | faulting e ↦ by_fault (rw (unpack_initialization, e))
  | endless memory e no_nul ↦ by_fault (rw (unpack_initialization, e, no_nul))
]

-- A Terrain with a node is written, behind what a stream that is full already holds, as the bits of X, Y
-- and Z of the node's position, the name of its file and a NUL, if the stream stays below 4 GiB.
pub pack_initialization-Outputs :
    (positions : ℕ → Vector3D) (t : Terrain) (node : ℕ) (out : BitStream) (bytes : List ℕ)
    → t.base.scene_node ≡ some node
    → Holds out bytes
    → length bytes + 13 + length t.terrain_file < u32_mod
    → let position = positions node in
      Outputs
        (bytes
          ++ u32_bytes position.x
          ++ u32_bytes position.y
          ++ u32_bytes position.z
          ++ (t.terrain_file ++ 0 ∷ []))
        (pack_initialization positions t out)
unfolding pack_initialization u32_bytes
pack_initialization-Outputs positions t node out bytes placed h fits =
    let p = positions node in
    let a = write_f32-Outputs out bytes h p.x (omega arith) in
    let at_x = length-append bytes (u32_bytes p.x) in
    let b = write_f32-Outputs a.stream _ a.holds p.y (omega (arith, at_x)) in
    let at_y = length-append (bytes ++ u32_bytes p.x) (u32_bytes p.y) in
    let c = write_f32-Outputs b.stream _ b.holds p.z (omega (arith, at_x, at_y)) in
    let at_z = length-append (bytes ++ u32_bytes p.x ++ u32_bytes p.y) (u32_bytes p.z) in
    let d =
      write_string-Outputs c.stream _ c.holds t.terrain_file (omega (arith, at_x, at_y, at_z)) in
    record {
      stream = d.stream;
      returned =
          simp (pack_initialization, placed) (rw (a.returned, b.returned, c.returned, d.returned));
      holds = d.holds;
    }
