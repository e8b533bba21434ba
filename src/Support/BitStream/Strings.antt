-- ===== src/Support/BitStream/Strings.antt =====
-- `readString`: what its search for a NUL does, and when a string is read back.
use kge.Prelude.{
  ℕ, zero, suc, ◌+◌, ◌-◌, ◌<◌, ◌≡◌, ◌≢◌, refl, sym, ap, ◌∙◌, Bool, false, List, [], ◌∷◌, ◌++◌, map,
  arith, ok, throws, out_of_range, none, some, length, take, drop, All, length-append, length-map,
  length-drop, drop_all, le→ltb,
}
use kge.Memory.{Cell, init}
use kge.Support.BitStream.{
  BitStream, cells, u32_mod, write_string, read, read_string, find_nul, dereference, u8_of,
}
use kge.Support.BitStream.Stack.{IsValid, written, write-Pushes}
use kge.Support.BitStream.Reads.{read_throws, length-written, read-TakesTop, dereference_top}

abbrev pub IsText : List ℕ → Type 0
IsText = All (λ c. c ≢ 0)

-- One look of the loop at a byte.
look :
    (memory rest : List (Cell ℕ)) (at b : ℕ)
    → drop at memory ≡ init b ∷ rest
    → dereference 1 u8_of (drop at memory) ≡ ok b
look memory rest at b e =
    dereference_top 1 u8_of (drop at memory) (b ∷ []) refl (rw e) ∙ (unfold u8_of in refl)

drop_next {ℓ} :
    {A : Type ℓ} (xs rest : List A) (at : ℕ) (x : A)
    → drop at xs ≡ x ∷ rest
    → drop (at + 1) xs ≡ rest
drop_next xs rest zero x e = rw e
drop_next [] rest (suc at) x e = absurd (cc)
drop_next (y ∷ xs) rest (suc at) x e =
    let s : suc at + 1 ≡ suc (at + 1) = omega arith in rw s (drop_next xs rest at x e)

-- The loop stops at the first NUL.
find_nul_stops :
    (memory rest : List (Cell ℕ)) (text : List ℕ) (at rounds : ℕ)
    → IsText text
    → drop at memory ≡ map init text ++ init 0 ∷ rest
    → length text < rounds
    → find_nul memory at rounds ≡ ok (some (at + length text))
unfolding find_nul
find_nul_stops memory rest text at zero h e more = absurd (omega arith)
find_nul_stops memory rest [] at (suc rounds) h e more =
    rw (look memory rest at 0 e) (ap (λ i. ok (some i)) (omega arith))
find_nul_stops memory rest (c ∷ text) at (suc rounds) (hc, h) e more =
    rw (look memory (map init text ++ init 0 ∷ rest) at c e) (
      ground (
        arith,
        find_nul_stops memory rest text (at + 1) rounds h (drop_next memory _ at (init c) e)
            (omega arith),
      ))

-- Where there is none it looks at every byte up to the end.
find_nul_ends :
    (memory : List (Cell ℕ)) (text : List ℕ) (at : ℕ)
    → IsText text
    → drop at memory ≡ map init text
    → find_nul memory at (length text) ≡ ok none
unfolding find_nul
find_nul_ends memory [] at h e = refl
find_nul_ends memory (c ∷ text) at (hc, h) e =
    rw (look memory (map init text) at c e)
      (ground (arith, find_nul_ends memory text (at + 1) h (drop_next memory _ at (init c) e)))

module _ (s : BitStream) (v : IsValid s) where
  above : List (Cell ℕ)
  above = drop s.data_pointer (cells s.array)

  length-above : length above ≡ s.data_length - s.data_pointer
  unfolding above
  length-above = omega (arith, length-drop s.data_pointer (cells s.array), v.sized_right)

  -- Where a NUL stands at or above the data pointer of a sound stream, `readString` throws,
  -- whatever length it is given: it asks `read` for `iteration - mDataLength` bytes, which wraps
  -- round to almost 2 ^ 64.
  pub read_string_throws :
      (text : List ℕ) (rest : List (Cell ℕ)) (n : ℕ) (copy : Bool)
      → IsText text
      → drop s.data_pointer (cells s.array) ≡ map init text ++ init 0 ∷ rest
      → read_string s n copy ≡ throws out_of_range
  unfolding read_string above
  read_string_throws text rest n copy h e =
      let total : s.data_length ≡ s.data_pointer + length text + 1 + length rest = omega (
        arith,
        length-above,
        ap length e,
        length-append (map {B = Cell ℕ} init text) (init 0 ∷ rest),
        length-map {B = Cell ℕ} init text,
        v.pointer_inside,
      ) in
      rw
        (find_nul_stops (cells s.array) rest text s.data_pointer (s.data_length - s.data_pointer) h
          e (omega (arith, total)))
        (read_throws s _ copy (omega (arith, total, v.fits_u32)))

  -- Where there is none, it reads as many bytes as it is told to.
  pub read_string_reads :
      (text : List ℕ) (n : ℕ) (copy : Bool)
      → IsText text
      → drop s.data_pointer (cells s.array) ≡ map init text
      → read_string s n copy ≡ read s n copy
  unfolding read_string above
  read_string_reads text n copy h e =
      let size : s.data_length - s.data_pointer ≡ length text =
        omega (arith, length-above, ap length e, length-map {B = Cell ℕ} init text) in
      rw (size, find_nul_ends (cells s.array) text s.data_pointer h e)

-- What becomes of a string that is written at the end of the stream.
pub record ReadsText (s : BitStream) (text : List ℕ) (copy : Bool) : Type 0 where
  pub full : BitStream
  pub wrote : write_string s text ≡ ok full
  pub by_default : read_string full 0 false ≡ ok ([], full)
  pub memory : List (Cell ℕ)
  pub emptied : BitStream
  pub by_length : read_string full (length text + 1) copy ≡ ok (memory, emptied)
  pub view : take (length text + 1) memory ≡ map init (text ++ 0 ∷ [])
  pub content : written emptied ≡ written s

read_at_end :
    (s : BitStream) → drop s.data_pointer (cells s.array) ≡ [] → read s 0 false ≡ ok ([], s)
unfolding read
read_at_end s e =
    let same : s.data_pointer - 0 ≡ s.data_pointer = omega arith in
    rw (le→ltb s.data_pointer 0 (omega arith), same, e)

-- A string that is written at the end of a sound stream that stays below 4 GiB is read back,
-- with its NUL, by a `readString` that is given its length and one more; with no length given,
-- `readString` returns a pointer with none of the stream's bytes behind it.
pub write_string-ReadsText :
    (s : BitStream) (text : List ℕ) (copy : Bool)
    → IsValid s
    → s.data_pointer ≡ s.data_length
    → s.data_length + length text + 1 < u32_mod
    → ReadsText s text copy
unfolding write_string
write_string-ReadsText s text copy v at_end fits =
    let bytes = text ++ 0 ∷ [] in
    let n : length bytes ≡ length text + 1 = length-append text (0 ∷ []) in
    let top = map {B = Cell ℕ} init bytes in
    let m : length top ≡ length text + 1 = length-map init bytes ∙ n in
    let p = write-Pushes s bytes v (omega (arith, n)) in
    let full : p.stream.data_pointer ≡ p.stream.data_length = ground (
      arith,
      length-written p.stream p.valid,
      ap length p.content,
      length-append (written s) top,
      length-written s v,
      m,
      n,
      p.size,
    ) in
    let nothing : drop p.stream.data_pointer (cells p.stream.array) ≡ [] =
      drop_all p.stream.data_pointer (cells p.stream.array)
        (omega (arith, full, p.valid.sized_right)) in
    let t =
      read-TakesTop p.stream (written s) top (length text + 1) copy p.valid p.content (sym m) in
    record {
      full = p.stream;
      wrote = p.returned;
      by_default =
          read_string_reads p.stream p.valid [] 0 false tt nothing ∙ read_at_end p.stream nothing;
      memory = t.memory;
      emptied = t.stream;
      by_length =
          read_string_reads p.stream p.valid [] (length text + 1) copy tt nothing ∙ t.returned;
      view = t.view;
      content = t.content;
    }
