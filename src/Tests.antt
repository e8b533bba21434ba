-- ===== src/Tests.antt =====
-- apps/engine/source/tests/BitStream.cpp: the unit tests of the byte stream, for any list of floats. A test gives what each
-- of its EXPECT_EQs came to.
pub mod Floats
use kge.Prelude.{
  ℕ, ◌+◌, ◌-◌, ◌*◌, ◌%◌, ◌^◌, ◌==◌, Bool, true, false, not, ◌&&◌, ◌||◌, List, [], ◌∷◌, ltb, length,
  Result, ok, throws, fault, ◌>>=◌,
}
use kge.Support.BitStream.{BitStream, sized, write_f32, read_f32, u32_mod}

-- `==` on floats, by their bits: a NaN is equal to none, and the two zeros are equal.
abbrev pub magnitude : ℕ → ℕ
magnitude bits = bits % 2 ^ 31

abbrev pub is_nan : ℕ → Bool
is_nan bits = ltb 0x7f80_0000 (magnitude bits)

abbrev pub f32_equal : ℕ → ℕ → Bool
f32_equal a b = not (is_nan a) && (a == b || (magnitude a == 0 && magnitude b == 0))

-- `PackFloats(destination)`
unfoldable pub pack_floats : BitStream → List ℕ → Result BitStream
pack_floats s [] = ok s
pack_floats s (v ∷ vs) = do t ← write_f32 s v; pack_floats t vs

-- The floats from the last one to the first.
abbrev pub onto : List ℕ → List ℕ → List ℕ
onto [] done = done
onto (v ∷ vs) done = onto vs (v ∷ done)

-- The reads of a test, in the order of the floats that are expected.
unfoldable pub expect_floats : BitStream → List ℕ → Bool → Result (List Bool)
expect_floats s [] copy = ok []
expect_floats s (v ∷ vs) copy = do
  (value, t) ← read_f32 s copy
  later ← expect_floats t vs copy
  ok (f32_equal v value ∷ later)

abbrev pub expected_size : List ℕ → ℕ
expected_size floats = length floats * 4 % u32_mod

-- TEST(BitStreamTest, Floats) for a stream of `missing` bytes less than the floats take, which is 0 there and 3
-- in TEST(BitStreamTest, BadStartFloats).
unfoldable pub floats_test : ℕ → List ℕ → Bool → Result (List Bool)
floats_test missing floats copy = do
  full ← pack_floats (sized ((expected_size floats + u32_mod - missing) % u32_mod)) floats
  reads ← expect_floats full (onto floats []) copy
  ok ((expected_size floats == full.data_length) ∷ reads)
