-- ===== src/Examples/Files.antt =====
-- A file in memory, read as Irrlicht reads it.
use kge.Prelude.{ℕ, ◌+◌, ◌-◌, ◌≤◌, ◌<◌, ◌≡◌, ◌⊎◌, List, [], ◌∷◌, arith}
use kge.Engine.FileReadObject.{Documented, s32_mod, read, get_size, get_pos}
use kge.Engine.FileReadObject.InMemory.{File, in_memory, in_memory-Documented}
use kge.Engine.FileReadObject.Reading.{read_lem}

abbrev three_bytes : List ℕ
three_bytes = 7 ∷ 8 ∷ 9 ∷ []

abbrev at_one : File
at_one = record { contents = three_bytes; position = 1 }

at_one-Documented : Documented (in_memory three_bytes) at_one
at_one-Documented = in_memory-Documented three_bytes at_one (omega arith) (omega arith)

read_lem_example :
    ((get_pos (in_memory three_bytes) at_one + 2 ≤ get_size (in_memory three_bytes) at_one)
      × ((read (in_memory three_bytes) at_one 2).0 ≡ 1)
      × (get_pos (in_memory three_bytes) (read (in_memory three_bytes) at_one 2).2
          ≡ get_pos (in_memory three_bytes) at_one + 2))
    ⊎ ((get_size (in_memory three_bytes) at_one < get_pos (in_memory three_bytes) at_one + 2)
        × (((read (in_memory three_bytes) at_one 2).0 ≡ 0)
            ⊎ ((read (in_memory three_bytes) at_one 2).0 ≡ s32_mod - 1)))
read_lem_example = read_lem (in_memory three_bytes) at_one at_one-Documented 2 (omega arith)
