-- ===== src/Engine/FileReadObject/Reading.antt =====
-- What Irrlicht gets of a file.
use kge.Prelude.{
  ℕ, ◌+◌, ◌-◌, ◌*◌, ◌%◌, ◌^◌, ◌≤◌, ◌<◌, ◌≡◌, ap, ◌∙◌, ◌⊎◌, inl, inr, refl, leb, leb→le, Bool-cases,
  true, false, arith,
}
use kge.Engine.FileReadObject.{Physfs, Documented, long_mod, s32_mod, read, seek, get_size, get_pos}

plus_once : (a size : ℕ) → a + size * 1 ≡ a + size
plus_once a size = omega arith

module _ {F : Type 0} (physfs : Physfs F) (handle : F) (law : Documented physfs handle) where
  -- `read` of one byte or more that the file still has moves behind all of them and returns 1,
  -- not their number; where it has fewer, it returns 0 or -1.
  pub read_lem :
      (size : ℕ)
      → 0 < size
      → ((get_pos physfs handle + size ≤ get_size physfs handle)
          × ((read physfs handle size).0 ≡ 1)
          × (get_pos physfs (read physfs handle size).2 ≡ get_pos physfs handle + size))
        ⊎ ((get_size physfs handle < get_pos physfs handle + size)
            × (((read physfs handle size).0 ≡ 0) ⊎ ((read physfs handle size).0 ≡ s32_mod - 1)))
  unfolding read get_pos get_size
  read_lem size some_bytes =
      elim (Bool-cases (leb (physfs.tell handle + size) (physfs.file_length handle))) [
        | inl enough ↦
            let fits = leb→le _ _ enough in
            let once : physfs.tell handle + size * 1 ≤ physfs.file_length handle =
              omega (arith, fits) in
            let (count, moved) = law.reads size 1 some_bytes once in
            inl (fits, ap (λ n. n % s32_mod) count, moved ∙ plus_once (physfs.tell handle) size)
        | inr short ↦
            let less : physfs.file_length handle < physfs.tell handle + size =
              ground (arith, short) in
            let once : physfs.file_length handle < physfs.tell handle + size * 1 =
              omega (arith, less) in
            inr (
              less,
              elim (law.reads_less size 1 some_bytes once) [
                | inl none_read ↦ inl (omega (arith, none_read))
                | inr failed ↦ inr (omega (arith, failed))
              ],
            )
      ]

  -- A seek relative to the position by the signed distance to any position inside the file, forwards
  -- or backwards, comes to it, like the seek to it from the start; one that leaves the file fails.
  pub seek_lem :
      (target : ℕ)
      → target < 2 ^ 63
      → let moved =
          seek physfs handle ((target + long_mod - get_pos physfs handle) % long_mod) true in
        (moved ≡ seek physfs handle target false)
        × (((target ≤ get_size physfs handle)
              × (moved.0 ≡ true)
              × (get_pos physfs moved.1 ≡ target))
            ⊎ ((get_size physfs handle < target) × (moved.0 ≡ false)))
  unfolding seek get_pos get_size
  seek_lem target small =
      let there : ((target + long_mod - physfs.tell handle) % long_mod + physfs.tell handle)
            % long_mod
          ≡ target =
        omega (arith, law.inside, law.length_fits) in
      rw (seek, there)
        (
          refl,
          elim (Bool-cases (leb target (physfs.file_length handle))) [
            | inl enough ↦
                let fits = leb→le _ _ enough in
                let (found, moved) = law.seeks target fits in inl (fits, found, moved)
            | inr beyond ↦
                let less : physfs.file_length handle < target = ground (arith, beyond) in
                inr (less, law.seeks_outside target less)
          ],
        )
