-- ===== src/Support/BitStream/Output.antt =====
-- A stream that is only written to, from NULL on: it holds exactly the bytes that were written.
use kge.Prelude.{
  ℕ, ◌+◌, ◌%◌, ◌≤◌, ◌<◌, ◌≡◌, refl, sym, ap, ◌∙◌, List, [], ◌∷◌, ◌++◌, map, none, false, arith,
  Result, ok, ◌>>=◌, length, length-map, length-append, map-append, length-take,
}
use kge.Memory.{Cell, init, fetch}
use kge.Memory.Laws.{fetch-in_bounds}
use kge.Support.BitStream.{
  BitStream, u32_mod, from_array, write, write_u8, write_u32, write_f32, write_string, u32_bytes,
  raw, stream_length,
}
use kge.Support.BitStream.Stack.{IsValid, written, write-Pushes}
use kge.Support.BitStream.Reads.{length-written, read-TakesTop}

pub record Holds (s : BitStream) (bytes : List ℕ) : Type 0 where
  pub valid : IsValid s
  pub at_end : s.data_pointer ≡ s.data_length
  pub content : written s ≡ map init bytes

-- `r` returned a stream that holds `bytes`.
pub record Outputs (bytes : List ℕ) (r : Result BitStream) : Type 0 where
  pub stream : BitStream
  pub returned : r ≡ ok stream
  pub holds : Holds stream bytes

-- `BitStream outStream(NULL, 0, 0)`
unfoldable pub empty_stream : BitStream
unfolding from_array
empty_stream = from_array none 0 0

pub empty_stream-Holds : Holds empty_stream []
unfolding empty_stream written
empty_stream-Holds = record {
  valid = record { sized_right = refl; pointer_inside = omega arith; fits_u32 = omega arith };
  at_end = refl;
  content = refl;
}

pub length-Holds : (s : BitStream) (bytes : List ℕ) → Holds s bytes → s.data_length ≡ length bytes
length-Holds s bytes h = omega (
  arith,
  length-written s h.valid,
  ap length h.content,
  length-map {B = Cell ℕ} init bytes,
  h.at_end,
)

module _ (s : BitStream) (bytes : List ℕ) (h : Holds s bytes) where
  pub write-Outputs :
      (more : List ℕ)
      → length bytes + length more < u32_mod
      → Outputs (bytes ++ more) (write s more)
  write-Outputs more fits =
      let size = length-Holds s bytes h in
      let p = write-Pushes s more h.valid (omega (arith, size)) in
      record {
        stream = p.stream;
        returned = p.returned;
        holds = record {
          valid = p.valid;
          at_end = ground (
            arith,
            length-written p.stream p.valid,
            ap length p.content,
            length-append (written s) (map init more),
            length-written s h.valid,
            length-map {B = Cell ℕ} init more,
            h.at_end,
            p.size,
          );
          content =
              p.content ∙ ap (λ cs. cs ++ map init more) h.content ∙ sym (map-append _ bytes more);
        };
      }

  pub write_u8-Outputs :
      (v : ℕ) → length bytes + 1 < u32_mod → Outputs (bytes ++ v % 256 ∷ []) (write_u8 s v)
  unfolding write_u8
  write_u8-Outputs v fits = write-Outputs (v % 256 ∷ []) fits

  pub write_u32-Outputs :
      (v : ℕ) → length bytes + 4 < u32_mod → Outputs (bytes ++ u32_bytes v) (write_u32 s v)
  unfolding write_u32 u32_bytes
  write_u32-Outputs v fits = write-Outputs (u32_bytes v) fits

  pub write_f32-Outputs :
      (v : ℕ) → length bytes + 4 < u32_mod → Outputs (bytes ++ u32_bytes v) (write_f32 s v)
  unfolding write_f32 u32_bytes
  write_f32-Outputs v fits = write-Outputs (u32_bytes v) fits

  pub write_string-Outputs :
      (text : List ℕ)
      → length bytes + length text + 1 < u32_mod
      → Outputs (bytes ++ (text ++ 0 ∷ [])) (write_string s text)
  unfolding write_string
  write_string-Outputs text fits =
      write-Outputs (text ++ 0 ∷ []) (omega (arith, length-append text (0 ∷ [])))

-- What a sender takes from the stream: `length()` bytes from `raw()`.
unfoldable pub payload : BitStream → Result (List (Cell ℕ))
unfolding raw stream_length
payload s = do (memory, t) ← raw s false; fetch memory 0 (stream_length s)

pub payload_lem : (s : BitStream) (bytes : List ℕ) → Holds s bytes → payload s ≡ ok (map init bytes)
unfolding payload raw stream_length
payload_lem s bytes h =
    let top = map {B = Cell ℕ} init bytes in
    let n : s.data_pointer ≡ length top =
      omega (arith, length-Holds s bytes h, h.at_end, length-map {B = Cell ℕ} init bytes) in
    let t = read-TakesTop s [] top s.data_pointer false h.valid h.content n in
    let long : s.data_pointer ≤ length t.memory =
      omega (arith, n, ap length t.view, length-take s.data_pointer t.memory) in
    rw (t.returned, ← h.at_end, fetch-in_bounds t.memory 0 s.data_pointer (omega (arith, long)))
      (ap ok t.view)
