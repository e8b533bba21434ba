-- ===== src/Support/EndianUtilities.antt =====
-- apps/engine/include/support/EndianUtilities.hpp, where `ENGINE_INLINE_ASM` is below 1. A shift to the
-- left keeps the width of its type.
pub mod Swaps
pub mod Arbitrary
use Prim.Native.Nat.{bit_and, bit_or}
use kge.Prelude.{ℕ, zero, suc, ◌+◌, ◌-◌, ◌*◌, ◌/◌, ◌%◌, ◌^◌, List, Result, ok, throws, fault, ◌>>=◌}
use kge.Memory.{Cell, store, fetch}

unfoldable pub swap_endian_u32_ref : ℕ → ℕ
swap_endian_u32_ref from =
    bit_or
      (bit_or (bit_or (bit_and 255 from * 2 ^ 24 % 2 ^ 32) (bit_and 65280 from * 2 ^ 8 % 2 ^ 32))
        (bit_and 16711680 from / 2 ^ 8))
      (bit_and 4278190080 from / 2 ^ 24)

unfoldable pub swap_endian_u32 : ℕ → ℕ
swap_endian_u32 from = swap_endian_u32_ref from

unfoldable pub swap_endian_u64_ref : ℕ → ℕ
swap_endian_u64_ref from =
    bit_or
      (bit_or
        (bit_or
          (bit_or
            (bit_or
              (bit_or
                (bit_or (bit_and 255 from * 2 ^ 56 % 2 ^ 64) (bit_and 65280 from * 2 ^ 40 % 2 ^ 64))
                (bit_and 16711680 from * 2 ^ 24 % 2 ^ 64))
              (bit_and 4278190080 from * 2 ^ 8 % 2 ^ 64))
            (bit_and 1095216660480 from / 2 ^ 8))
          (bit_and 280375465082880 from / 2 ^ 24))
        (bit_and 71776119061217280 from / 2 ^ 40))
      (bit_and 18374686479671623680 from / 2 ^ 56)

unfoldable pub swap_endian_u64 : ℕ → ℕ
swap_endian_u64 from = swap_endian_u64_ref from

-- The operands are promoted to `int`, and the assignment cuts the result to 16 bits.
unfoldable pub swap_endian_u16_ref : ℕ → ℕ
swap_endian_u16_ref from = bit_or (bit_and 255 from * 2 ^ 8) (bit_and 65280 from / 2 ^ 8) % 2 ^ 16

unfoldable pub swap_endian_u16 : ℕ → ℕ
swap_endian_u16 from = swap_endian_u16_ref from

-- A float by its bits.
unfoldable pub swap_endian_f32_ref : ℕ → ℕ
swap_endian_f32_ref bits = swap_endian_u32_ref bits

unfoldable pub swap_endian_f32 : ℕ → ℕ
swap_endian_f32 bits = swap_endian_f32_ref bits

-- The loop of `SwapEndianArbitrary` from `i` on, with `left` rounds to go.
unfoldable pub swap_loop {ℓ} :
    {A : Type ℓ} → List (Cell A) → ℕ → ℕ → ℕ → List (Cell A) → Result (List (Cell A))
swap_loop copy_from size i zero array = ok array
swap_loop copy_from size i (suc left) array = do
  byte ← fetch copy_from (size - i) 1
  written ← store array i byte
  swap_loop copy_from size (i + 1) left written

-- `SwapEndianArbitrary(from, size)`, where `malloc` has the memory.
unfoldable pub swap_endian_arbitrary {ℓ} : {A : Type ℓ} → List (Cell A) → ℕ → Result (List (Cell A))
swap_endian_arbitrary from size = do
  copy_from ← fetch from 0 size
  swap_loop copy_from size 0 size from
