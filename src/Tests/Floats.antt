-- ===== src/Tests/Floats.antt =====
-- What the tests come to.
use kge.Prelude.{
  ℕ, ◌+◌, ◌-◌, ◌*◌, ◌%◌, ◌≤◌, ◌<◌, ◌≡◌, refl, ap, ◌∙◌, ◌==◌, Bool, true, false, List, [], ◌∷◌, ◌++◌,
  map, All, arith, length, length-append, length-map, length-replicate, leb, le→leb, replicate,
  Result, ok, if◌then◌else◌,
}
use kge.Memory.{Cell, init}
use kge.Support.BitStream.{BitStream, sized, write_f32, u32_bytes, u32_mod}
use kge.Support.BitStream.Stack.{IsValid, written, length_after, write-Pushes}
use kge.Support.BitStream.Reads.{length-written}
use kge.Support.BitStream.RoundTrip.{read_f32-Pops, write_f32-write}
use kge.Tests.{is_nan, f32_equal, pack_floats, onto, expect_floats, expected_size, floats_test}

abbrev pub IsFloat : ℕ → Type 0
IsFloat v = (v < u32_mod) × (is_nan v ≡ false)

-- The bytes of floats, the top of the stack first.
stacked : List ℕ → List (Cell ℕ)
stacked [] = []
stacked (v ∷ vs) = stacked vs ++ map init (u32_bytes v)

f32_equal_self : (v : ℕ) → is_nan v ≡ false → f32_equal v v ≡ true
f32_equal_self v number = ground (arith, number)

-- All reads give what is on the stack.
expect-stacked :
    (s : BitStream) (vs : List ℕ) (copy : Bool)
    → IsValid s
    → All IsFloat vs
    → written s ≡ stacked vs
    → expect_floats s vs copy ≡ ok (replicate (length vs) true)
unfolding expect_floats stacked
expect-stacked s [] copy valid h e = refl
expect-stacked s (v ∷ vs) copy valid ((low, number), hs) e =
    let p = read_f32-Pops s copy (stacked vs) valid v low e in
    rw (p.returned, expect-stacked p.stream vs copy p.valid hs p.content, f32_equal_self v number)
      refl

abbrev final_length : ℕ → ℕ → ℕ
final_length len extra = if extra == 0 then len else len + 4

-- The stream after the floats are packed.
record Packed (s : BitStream) (size : ℕ) (stack : List ℕ) (r : Result BitStream) : Type 0 where
  stream : BitStream
  returned : r ≡ ok stream
  valid : IsValid stream
  content : written stream ≡ stacked stack
  sized_to : stream.data_length ≡ size

length-u32_bytes : (v : ℕ) → length (u32_bytes v) ≡ 4
unfolding u32_bytes
length-u32_bytes v = refl

stacked_next :
    (s t : BitStream) (v : ℕ) (done : List ℕ)
    → written s ≡ stacked done
    → written t ≡ written s ++ map init (u32_bytes v)
    → written t ≡ stacked (v ∷ done)
unfolding stacked
stacked_next s t v done e f = f ∙ ap (λ cs. cs ++ map init (u32_bytes v)) e

-- One float more on the stack, and where the pointer stands then.
record Pushed (s : BitStream) (v : ℕ) (done : List ℕ) : Type 0 where
  stream : BitStream
  returned : write_f32 s v ≡ ok stream
  valid : IsValid stream
  content : written stream ≡ stacked (v ∷ done)
  pointer : stream.data_pointer ≡ s.data_pointer + 4
  size : stream.data_length ≡ length_after s 4

push :
    (s : BitStream) (v : ℕ) (done : List ℕ)
    → IsValid s
    → s.data_length + 4 < u32_mod
    → written s ≡ stacked done
    → Pushed s v done
push s v done valid fits e =
    let four = length-u32_bytes v in
    let p = write-Pushes s (u32_bytes v) valid (omega (arith, four, fits)) in
    record {
      stream = p.stream;
      returned = write_f32-write s v ∙ p.returned;
      valid = p.valid;
      content = stacked_next s p.stream v done e p.content;
      pointer = omega (
        arith,
        length-written s valid,
        length-written p.stream p.valid,
        ap length p.content,
        length-append (written s) (map init (u32_bytes v)),
        length-map {B = Cell ℕ} init (u32_bytes v),
        four,
      );
      size = rw (← four) p.size;
    }

one_more :
    (pointer len extra : ℕ)
    → pointer + 4 ≡ len + extra
    → (if leb (pointer + 4) len then len else len + 4) ≡ final_length len extra
one_more pointer len extra h = ground (arith, h)

-- Floats that take `extra` bytes more than there is room for: the stream grows with the last one.
pack :
    (s : BitStream) (vs done : List ℕ) (extra : ℕ)
    → IsValid s
    → extra < 4
    → s.data_pointer + 4 * length vs ≡ s.data_length + extra
    → s.data_length + 4 < u32_mod
    → written s ≡ stacked done
    → Packed s (final_length s.data_length extra) (onto vs done) (pack_floats s vs)
unfolding pack_floats
pack s [] done extra valid few fills fits e =
    let none_extra : (extra == 0) ≡ true = ground (arith, valid.pointer_inside) in
    record {
      stream = s;
      returned = refl;
      valid = valid;
      content = e;
      sized_to = rw none_extra refl;
    }
pack s (v ∷ []) done extra valid few fills fits e =
    let p = push s v done valid fits e in
    record {
      stream = p.stream;
      returned = rw p.returned refl;
      valid = p.valid;
      content = p.content;
      sized_to = p.size ∙ one_more s.data_pointer s.data_length extra fills;
    }
pack s (v ∷ w ∷ vs) done extra valid few fills fits e =
    let p = push s v done valid fits e in
    let room : leb (s.data_pointer + 4) s.data_length ≡ true =
      le→leb _ _ (omega (arith, fills, few)) in
    let same : p.stream.data_length ≡ s.data_length = p.size ∙ rw room refl in
    let rest =
      pack p.stream (w ∷ vs) (v ∷ done) extra p.valid few (omega (arith, p.pointer, same, fills))
        (omega (arith, same, fits)) p.content in
    record {
      stream = rest.stream;
      returned = rw p.returned rest.returned;
      valid = rest.valid;
      content = rest.content;
      sized_to = rest.sized_to ∙ rw same refl;
    }

sized-IsValid : (n : ℕ) → n < u32_mod → IsValid (sized n)
unfolding sized
sized-IsValid n h = record {
  sized_right = length-replicate n _;
  pointer_inside = omega arith;
  fits_u32 = h;
}

written-sized : (n : ℕ) → written (sized n) ≡ stacked []
unfolding sized written stacked
written-sized n = refl

length-onto : (vs done : List ℕ) → length (onto vs done) ≡ length vs + length done
length-onto [] done = omega arith
length-onto (v ∷ vs) done = omega (arith, length-onto vs (v ∷ done))

onto-IsFloat : (vs done : List ℕ) → All IsFloat vs → All IsFloat done → All IsFloat (onto vs done)
onto-IsFloat [] done h g = g
onto-IsFloat (v ∷ vs) done (h, hs) g = onto-IsFloat vs (v ∷ done) hs (h, g)

-- The tests on any floats below 1 GiB of them, none of which is a NaN. In a stream that is made large enough
-- all expectations hold. In one that is up to 3 bytes too small the last write makes the
-- stream 4 bytes longer, so it is too long by the others: the expectation of its
-- length fails, and every read still gives the float that was packed.
pub floats_test_lem :
    (missing : ℕ) (floats : List ℕ) (copy : Bool)
    → missing < 4
    → missing ≤ length floats * 4
    → length floats * 4 + 4 < u32_mod
    → All IsFloat floats
    → floats_test missing floats copy ≡ ok ((missing == 0) ∷ replicate (length floats) true)
unfolding floats_test sized
floats_test_lem missing floats copy few some_floats fits h =
    let n = length floats * 4 in
    let whole : expected_size floats ≡ n = omega (arith, fits) in
    let start : (n + u32_mod - missing) % u32_mod ≡ n - missing =
      omega (arith, fits, few, some_floats) in
    let p =
      pack (sized (n - missing)) floats [] missing
        (sized-IsValid (n - missing) (omega (arith, fits))) few (omega (arith, few, some_floats))
        (omega (arith, fits)) (written-sized (n - missing)) in
    let reads =
      expect-stacked p.stream (onto floats []) copy p.valid (onto-IsFloat floats [] h tt)
        p.content in
    let test : (n == p.stream.data_length) ≡ (missing == 0) =
      ground (arith, p.sized_to, few, some_floats) in
    let count : length (onto floats []) ≡ length floats = omega (arith, length-onto floats []) in
    rw (whole, start, p.returned, reads, test, count) refl
