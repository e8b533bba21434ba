-- ===== src/Support/EndianUtilities/Swaps.antt =====
-- The swaps of the three widths, against the bytes of a number.
use Prim.Native.Nat.{bit_and, bit_or}
use mathlib.Core.List.{reverse}
use kge.Prelude.{
  ℕ, zero, suc, ◌+◌, ◌*◌, ◌/◌, ◌%◌, ◌^◌, ◌<◌, ◌≡◌, refl, ap, ◌∙◌, List, [], ◌∷◌, arith,
}
use kge.Prelude.Bits.{bit_and-byte, bit_and-shift, bit_or-add}
use kge.Support.EndianUtilities.{
  swap_endian_u16, swap_endian_u16_ref, swap_endian_u32, swap_endian_u32_ref, swap_endian_u64,
  swap_endian_u64_ref, swap_endian_f32, swap_endian_f32_ref,
}

-- The byte of `x` at bit `k`.
abbrev byte : ℕ → ℕ → ℕ
byte k x = x / 2 ^ k % 256

bit_and-mask : (k x : ℕ) → bit_and (255 * 2 ^ k) x ≡ byte k x * 2 ^ k
bit_and-mask k x = bit_and-shift k 255 x ∙ ap (λ n. n * 2 ^ k) (bit_and-byte (x / 2 ^ k))

swap_endian_u16_lem : (x : ℕ) → swap_endian_u16 x ≡ byte 0 x * 2 ^ 8 + byte 8 x
unfolding swap_endian_u16 swap_endian_u16_ref
swap_endian_u16_lem x =
    let low : byte 8 x * 2 ^ 8 / 2 ^ 8 ≡ byte 8 x = omega arith in
    rw (bit_and-byte x, bit_and-mask 8 x, low, bit_or-add 8 (x % 256) (byte 8 x) (omega arith))
      (omega arith)

-- A byte that is moved from bit `k`: up by `j`, and down to `j`.
byte_up : (j k w x : ℕ) → bit_and (255 * 2 ^ k) x * 2 ^ j % 2 ^ w ≡ byte k x * 2 ^ k * 2 ^ j % 2 ^ w
byte_up j k w x = ap (λ n. n * 2 ^ j % 2 ^ w) (bit_and-mask k x)

byte_down : (j k x : ℕ) → bit_and (255 * 2 ^ k) x / 2 ^ j ≡ byte k x * 2 ^ k / 2 ^ j
byte_down j k x = ap (λ n. n / 2 ^ j) (bit_and-mask k x)

or_plus : (k a n y : ℕ) → n ≡ a * 2 ^ k → y < 2 ^ k → bit_or n y ≡ n + y
or_plus k a n y e h = rw e (bit_or-add k a y h)

swap_endian_u32_lem :
    (x : ℕ)
    → swap_endian_u32 x ≡ byte 0 x * 2 ^ 24 + byte 8 x * 2 ^ 16 + byte 16 x * 2 ^ 8 + byte 24 x
unfolding swap_endian_u32 swap_endian_u32_ref
swap_endian_u32_lem x =
    let first : bit_and 255 x * 2 ^ 24 % 2 ^ 32 ≡ byte 0 x * 2 ^ 24 =
      byte_up 24 0 32 x ∙ omega arith in
    let second : bit_and 65280 x * 2 ^ 8 % 2 ^ 32 ≡ byte 8 x * 2 ^ 16 =
      byte_up 8 8 32 x ∙ omega arith in
    let third : bit_and 16711680 x / 2 ^ 8 ≡ byte 16 x * 2 ^ 8 = byte_down 8 16 x ∙ omega arith in
    let fourth : bit_and 4278190080 x / 2 ^ 24 ≡ byte 24 x = byte_down 24 24 x ∙ omega arith in
    rw (
      first,
      second,
      third,
      fourth,
      or_plus 24 (byte 0 x) (byte 0 x * 2 ^ 24) (byte 8 x * 2 ^ 16) refl (omega arith),
      or_plus 16 (byte 0 x * 2 ^ 8 + byte 8 x) (byte 0 x * 2 ^ 24 + byte 8 x * 2 ^ 16)
          (byte 16 x * 2 ^ 8) (omega arith) (omega arith),
      or_plus 8 (byte 0 x * 2 ^ 16 + byte 8 x * 2 ^ 8 + byte 16 x)
          (byte 0 x * 2 ^ 24 + byte 8 x * 2 ^ 16 + byte 16 x * 2 ^ 8) (byte 24 x) (omega arith)
          (omega arith),
    )

swap_endian_u64_lem :
    (x : ℕ)
    → swap_endian_u64 x
      ≡ byte 0 x * 2 ^ 56
        + byte 8 x * 2 ^ 48
        + byte 16 x * 2 ^ 40
        + byte 24 x * 2 ^ 32
        + byte 32 x * 2 ^ 24
        + byte 40 x * 2 ^ 16
        + byte 48 x * 2 ^ 8
        + byte 56 x
unfolding swap_endian_u64 swap_endian_u64_ref
swap_endian_u64_lem x =
    let first : bit_and 255 x * 2 ^ 56 % 2 ^ 64 ≡ byte 0 x * 2 ^ 56 =
      byte_up 56 0 64 x ∙ omega arith in
    let second : bit_and 65280 x * 2 ^ 40 % 2 ^ 64 ≡ byte 8 x * 2 ^ 48 =
      byte_up 40 8 64 x ∙ omega arith in
    let third : bit_and 16711680 x * 2 ^ 24 % 2 ^ 64 ≡ byte 16 x * 2 ^ 40 =
      byte_up 24 16 64 x ∙ omega arith in
    let fourth : bit_and 4278190080 x * 2 ^ 8 % 2 ^ 64 ≡ byte 24 x * 2 ^ 32 =
      byte_up 8 24 64 x ∙ omega arith in
    let fifth : bit_and 1095216660480 x / 2 ^ 8 ≡ byte 32 x * 2 ^ 24 =
      byte_down 8 32 x ∙ omega arith in
    let sixth : bit_and 280375465082880 x / 2 ^ 24 ≡ byte 40 x * 2 ^ 16 =
      byte_down 24 40 x ∙ omega arith in
    let seventh : bit_and 71776119061217280 x / 2 ^ 40 ≡ byte 48 x * 2 ^ 8 =
      byte_down 40 48 x ∙ omega arith in
    let eighth : bit_and 18374686479671623680 x / 2 ^ 56 ≡ byte 56 x =
      byte_down 56 56 x ∙ omega arith in
    rw (
      first,
      second,
      third,
      fourth,
      fifth,
      sixth,
      seventh,
      eighth,
      or_plus 56 (byte 0 x) (byte 0 x * 2 ^ 56) (byte 8 x * 2 ^ 48) refl (omega arith),
      or_plus 48 (byte 0 x * 2 ^ 8 + byte 8 x) (byte 0 x * 2 ^ 56 + byte 8 x * 2 ^ 48)
          (byte 16 x * 2 ^ 40) (omega arith) (omega arith),
      or_plus 40 (byte 0 x * 2 ^ 16 + byte 8 x * 2 ^ 8 + byte 16 x)
          (byte 0 x * 2 ^ 56 + byte 8 x * 2 ^ 48 + byte 16 x * 2 ^ 40) (byte 24 x * 2 ^ 32)
          (omega arith) (omega arith),
      or_plus 32 (byte 0 x * 2 ^ 24 + byte 8 x * 2 ^ 16 + byte 16 x * 2 ^ 8 + byte 24 x)
          (byte 0 x * 2 ^ 56 + byte 8 x * 2 ^ 48 + byte 16 x * 2 ^ 40 + byte 24 x * 2 ^ 32)
          (byte 32 x * 2 ^ 24) (omega arith) (omega arith),
      or_plus 24
          (byte 0 x * 2 ^ 32
            + byte 8 x * 2 ^ 24
            + byte 16 x * 2 ^ 16
            + byte 24 x * 2 ^ 8
            + byte 32 x)
          (byte 0 x * 2 ^ 56
            + byte 8 x * 2 ^ 48
            + byte 16 x * 2 ^ 40
            + byte 24 x * 2 ^ 32
            + byte 32 x * 2 ^ 24)
          (byte 40 x * 2 ^ 16) (omega arith) (omega arith),
      or_plus 16
          (byte 0 x * 2 ^ 40
            + byte 8 x * 2 ^ 32
            + byte 16 x * 2 ^ 24
            + byte 24 x * 2 ^ 16
            + byte 32 x * 2 ^ 8
            + byte 40 x)
          (byte 0 x * 2 ^ 56
            + byte 8 x * 2 ^ 48
            + byte 16 x * 2 ^ 40
            + byte 24 x * 2 ^ 32
            + byte 32 x * 2 ^ 24
            + byte 40 x * 2 ^ 16)
          (byte 48 x * 2 ^ 8) (omega arith) (omega arith),
      or_plus 8
          (byte 0 x * 2 ^ 48
            + byte 8 x * 2 ^ 40
            + byte 16 x * 2 ^ 32
            + byte 24 x * 2 ^ 24
            + byte 32 x * 2 ^ 16
            + byte 40 x * 2 ^ 8
            + byte 48 x)
          (byte 0 x * 2 ^ 56
            + byte 8 x * 2 ^ 48
            + byte 16 x * 2 ^ 40
            + byte 24 x * 2 ^ 32
            + byte 32 x * 2 ^ 24
            + byte 40 x * 2 ^ 16
            + byte 48 x * 2 ^ 8)
          (byte 56 x) (omega arith) (omega arith),
    )

-- The `n` bytes of a number, the lowest first.
unfoldable pub le_bytes : ℕ → ℕ → List ℕ
le_bytes zero x = []
le_bytes (suc n) x = x % 256 ∷ le_bytes n (x / 256)

u16_reverses : (x : ℕ) → le_bytes 2 (swap_endian_u16 x) ≡ reverse (le_bytes 2 x)
unfolding le_bytes
u16_reverses x = rw (swap_endian_u16_lem x) (ground arith)

u32_reverses : (x : ℕ) → le_bytes 4 (swap_endian_u32 x) ≡ reverse (le_bytes 4 x)
unfolding le_bytes
u32_reverses x = rw (swap_endian_u32_lem x) (ground arith)

u32_twice : (x : ℕ) → swap_endian_u32 (swap_endian_u32 x) ≡ x % 2 ^ 32
u32_twice x = rw (swap_endian_u32_lem (swap_endian_u32 x), swap_endian_u32_lem x) (omega arith)

u16_twice : (x : ℕ) → swap_endian_u16 (swap_endian_u16 x) ≡ x % 2 ^ 16
u16_twice x = rw (swap_endian_u16_lem (swap_endian_u16 x), swap_endian_u16_lem x) (omega arith)

u64_reverses : (x : ℕ) → le_bytes 8 (swap_endian_u64 x) ≡ reverse (le_bytes 8 x)
unfolding le_bytes
u64_reverses x = rw (swap_endian_u64_lem x) (ground arith)

u64_twice : (x : ℕ) → swap_endian_u64 (swap_endian_u64 x) ≡ x % 2 ^ 64
u64_twice x = rw (swap_endian_u64_lem (swap_endian_u64 x), swap_endian_u64_lem x) (omega arith)

-- Swapping a number of 16, 32 or 64 bits, or the bits of a float, reverses the order of its bytes.
pub swaps_reverse :
    (x : ℕ)
    → (le_bytes 2 (swap_endian_u16 x) ≡ reverse (le_bytes 2 x))
      × (le_bytes 4 (swap_endian_u32 x) ≡ reverse (le_bytes 4 x))
      × (le_bytes 4 (swap_endian_f32 x) ≡ reverse (le_bytes 4 x))
      × (le_bytes 8 (swap_endian_u64 x) ≡ reverse (le_bytes 8 x))
unfolding swap_endian_f32 swap_endian_f32_ref swap_endian_u32
swaps_reverse x = (u16_reverses x, u32_reverses x, u32_reverses x, u64_reverses x)

-- Swapping twice gives a number of 16, 32 or 64 bits, or the bits of a float, back.
pub swaps_twice :
    (x : ℕ)
    → (swap_endian_u16 (swap_endian_u16 x) ≡ x % 2 ^ 16)
      × (swap_endian_u32 (swap_endian_u32 x) ≡ x % 2 ^ 32)
      × (swap_endian_f32 (swap_endian_f32 x) ≡ x % 2 ^ 32)
      × (swap_endian_u64 (swap_endian_u64 x) ≡ x % 2 ^ 64)
unfolding swap_endian_f32 swap_endian_f32_ref swap_endian_u32
swaps_twice x = (u16_twice x, u32_twice x, u32_twice x, u64_twice x)
