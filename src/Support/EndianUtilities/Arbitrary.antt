-- ===== src/Support/EndianUtilities/Arbitrary.antt =====
-- `SwapEndianArbitrary`.
use kge.Prelude.{
  ℕ, zero, suc, ◌+◌, ◌-◌, ◌<◌, ◌≡◌, refl, ◌==◌, false, List, arith, inl, inr, if◌then◌else◌, leb,
  leb→le, length, take, length-take, Bool-cases, ok, fault,
}
use kge.Memory.{Cell}
use kge.Memory.Laws.{fetch-in_bounds, fetch-out_of_bounds}
use kge.Support.EndianUtilities.{swap_endian_arbitrary, swap_loop}

-- `SwapEndianArbitrary` leaves an empty object alone; for any other size the first byte that it reads of its
-- copy is the one behind the last, which is out of bounds.
pub swap_endian_arbitrary_lem {ℓ} :
    {A : Type ℓ} (from : List (Cell A)) (size : ℕ)
    → swap_endian_arbitrary from size ≡ (if size == 0 then ok from else fault)
unfolding swap_endian_arbitrary swap_loop
swap_endian_arbitrary_lem from zero =
    rw (swap_endian_arbitrary, fetch-in_bounds from 0 0 (omega arith)) refl
swap_endian_arbitrary_lem from (suc n) =
    let positive : (suc n == 0) ≡ false = ground arith in
    elim (Bool-cases (leb (suc n) (length from))) [
      | inl fits ↦
          let enough = leb→le _ _ fits in
          let behind : length (take (suc n) from) < suc n - 0 + 1 =
            omega (arith, length-take (suc n) from) in
          rw (
            swap_endian_arbitrary,
            positive,
            fetch-in_bounds from 0 (suc n) (omega (arith, enough)),
            fetch-out_of_bounds (take (suc n) from) (suc n - 0) 1 behind,
          )
      | inr out ↦ rw (
        swap_endian_arbitrary,
        positive,
        fetch-out_of_bounds from 0 (suc n) (ground (arith, out)),
      )
    ]
