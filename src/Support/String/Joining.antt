-- ===== src/Support/String/Joining.antt =====
-- Strings that are joined, and the length that is kept beside them.
use kge.Prelude.{
  ℕ, ◌+◌, ◌^◌, ◌≤◌, ◌<◌, ◌≡◌, ◌≢◌, refl, ap, ◌∙◌, sym, ◌==◌, true, false, some, List, [], ◌∷◌, ◌++◌,
  append-nil, append_assoc, map, arith, ltb, le→ltb, length, take, drop, All, length-append,
  length-map, length-replicate, length-take, length-drop, take_all, drop_all, ok, fault,
}
use kge.Memory.{Cell, uninit, init, new_array, store, fetch}
use kge.Memory.Laws.{fetch-in_bounds, store-in_bounds, store-overrun, overwrite, length-overwrite}
use kge.Support.String.{
  String, c_string, of, new_string, print_both, concat, append_assign, sub, total_length, u32,
}

abbrev pub IsText : List ℕ → Type 0
IsText = All (λ c. c ≢ 0)

abbrev pub cells_of : List ℕ → List (Cell ℕ)
cells_of text = map init (text ++ 0 ∷ [])

pub c_string-cells_of :
    (text : List ℕ) (rest : List (Cell ℕ))
    → IsText text
    → c_string (cells_of text ++ rest) ≡ ok text
unfolding c_string
c_string-cells_of [] rest h = refl
c_string-cells_of (c ∷ text) rest (h, hs) =
    let other : (c == 0) ≡ false = ground (arith, h) in
    rw (other, c_string-cells_of text rest hs) refl

IsText-append : (a b : List ℕ) → IsText a → IsText b → IsText (a ++ b)
IsText-append [] b ha hb = hb
IsText-append (c ∷ a) b (h, ha) hb = (h, IsText-append a b ha hb)

pub length-cells_of : (text : List ℕ) → length (cells_of text) ≡ length text + 1
length-cells_of text = length-map init (text ++ 0 ∷ []) ∙ length-append text (0 ∷ [])

pub read_whole : (text : List ℕ) → IsText text → c_string (cells_of text) ≡ ok text
read_whole text h = ap c_string (sym (append-nil (cells_of text))) ∙ c_string-cells_of text [] h

new_string-cells_of :
    (text : List ℕ)
    → IsText text
    → length text < 2 ^ 32
    → new_string (some (cells_of text)) ≡ ok (of text)
unfolding new_string
new_string-cells_of text h small =
    let read = read_whole text h in
    let size = length-cells_of text in
    let copied : fetch (cells_of text) 0 (length text + 1) ≡ ok (cells_of text) =
      fetch-in_bounds (cells_of text) 0 (length text + 1) (omega (arith, size))
      ∙ ap ok (take_all (length text + 1) (cells_of text) (omega (arith, size))) in
    let fits : u32 (length text) ≡ length text = omega (arith, small) in
    rw (read, copied, fits) refl

length-both : (a b : List ℕ) → length (cells_of (a ++ b)) ≡ length a + length b + 1
length-both a b = length-cells_of (a ++ b) ∙ ap (λ n. n + 1) (length-append a b)

cells_of-append : (a b : List ℕ) → map init (a ++ (b ++ 0 ∷ [])) ≡ cells_of (a ++ b)
cells_of-append a b = ap (map init) (sym (append_assoc a b (0 ∷ [])))

-- What `sprintf` writes.
print_both-fits :
    (a b : List ℕ) (first : List (Cell ℕ)) (n : ℕ)
    → c_string first ≡ ok a
    → IsText b
    → length a + length b + 1 ≤ n
    → print_both n first (cells_of b)
      ≡ ok (cells_of (a ++ b) ++ drop (length a + length b + 1) (new_array n))
unfolding print_both
print_both-fits a b first n ha hb room =
    let fresh : List (Cell ℕ) = new_array n in
    let size : length (cells_of (a ++ b)) ≡ length a + length b + 1 = length-both a b in
    let wide : length fresh ≡ n = length-replicate n uninit in
    let put : store fresh 0 (cells_of (a ++ b))
        ≡ ok (cells_of (a ++ b) ++ drop (0 + length (cells_of (a ++ b))) fresh) =
      store-in_bounds fresh 0 (cells_of (a ++ b)) (omega (arith, size, wide, room)) in
    let at : 0 + length (cells_of (a ++ b)) ≡ length a + length b + 1 = omega (arith, size) in
    rw (ha, read_whole b hb, cells_of-append a b)
      (put ∙ ap (λ k. ok (cells_of (a ++ b) ++ drop k fresh)) at)

print_both-overrun :
    (a b : List ℕ) (first : List (Cell ℕ)) (n : ℕ)
    → c_string first ≡ ok a
    → IsText b
    → n < length a + length b + 1
    → print_both n first (cells_of b) ≡ fault
unfolding print_both
print_both-overrun a b first n ha hb over =
    let fresh : List (Cell ℕ) = new_array n in
    let size : length (cells_of (a ++ b)) ≡ length a + length b + 1 = length-both a b in
    let wide : length fresh ≡ n = length-replicate n uninit in
    rw
      (
        ha,
        read_whole b hb,
        cells_of-append a b,
        store-overrun fresh 0 (cells_of (a ++ b)) (omega (arith, size, wide, over)),
      )
      refl

-- `Concat` of two strings without a NUL, with right lengths, that stay below 4 GiB together
-- gives the joined string, with its length.
pub concat-of :
    (a b : List ℕ)
    → IsText a
    → IsText b
    → length a + length b + 1 < 2 ^ 32
    → concat (of a) (of b) ≡ ok (of (a ++ b))
unfolding concat
concat-of a b ha hb small =
    let n = length a + length b + 1 in
    let fits : u32 n ≡ n = omega (arith, small) in
    let over : drop n (new_array {A = ℕ} n) ≡ [] =
      drop_all n (new_array n) (omega (arith, length-replicate {A = Cell ℕ} n uninit)) in
    rw
      (
        fits,
        print_both-fits a b (cells_of a) n (read_whole a ha) hb (omega arith),
        over,
        append-nil (cells_of (a ++ b)),
      )
      (new_string-cells_of (a ++ b) (IsText-append a b ha hb)
        (omega (arith, length-append a b, small)))

-- For strings without a NUL that stay below 4 GiB together, `+=` joins the characters and
-- leaves the length as it was. If what was added is not empty, the next `Concat` of the result
-- takes memory for the old length and writes past its end.
pub append_assign-concat :
    (a b c : List ℕ)
    → IsText a
    → IsText b
    → IsText c
    → length a + length b + length c + 2 < 2 ^ 32
    → 0 < length b
    → (s : String) × (cells : List (Cell ℕ)) × (append_assign (of a) (of b) ≡ ok s)
      × (s.stored ≡ some cells)
      × (c_string cells ≡ ok (a ++ b))
      × (total_length s ≡ length a)
      × (concat s (of c) ≡ fault)
unfolding append_assign concat total_length
append_assign-concat a b c ha hb hc small added =
    let n = length a + length b + 2 in
    let fits : u32 n ≡ n = omega (arith, small) in
    let cells = cells_of (a ++ b) ++ drop (length a + length b + 1) (new_array n) in
    let s : String = record { is_const = true; stored = some cells; str_length = length a } in
    let joined : c_string cells ≡ ok (a ++ b) =
      c_string-cells_of (a ++ b) _ (IsText-append a b ha hb) in
    let next = u32 (length a + length c + 1) in
    let short : next < length (a ++ b) + length c + 1 =
      omega (arith, length-append a b, small, added) in
    (
      s,
      cells,
      rw (fits, print_both-fits a b (cells_of a) n (read_whole a ha) hb (omega arith)) refl,
      refl,
      joined,
      refl,
      rw (print_both-overrun (a ++ b) c cells next joined hc short) refl,
    )

-- `Sub` of a part that lies inside the string always writes its NUL past the end of its memory.
pub sub_overruns :
    (text : List ℕ) (start offset : ℕ)
    → start + offset ≤ length text
    → length text < 2 ^ 32
    → sub (of text) start offset ≡ fault
unfolding sub
sub_overruns text start offset inside small =
    let size = length-cells_of text in
    let whole : ltb (length text) (u32 (start + offset)) ≡ false =
      le→ltb (length text) (u32 (start + offset)) (omega (arith, inside, small)) in
    let part : List (Cell ℕ) = take offset (drop start (cells_of text)) in
    let taken : length part ≡ offset = omega (
      arith,
      length-take offset (drop start (cells_of text)),
      length-drop start (cells_of text),
      size,
      inside,
    ) in
    let fresh : List (Cell ℕ) = new_array offset in
    let wide : length fresh ≡ offset = length-replicate offset uninit in
    let copied = overwrite fresh 0 part in
    let kept : length copied ≡ offset =
      length-overwrite fresh 0 part (omega (arith, taken, wide)) ∙ wide in
    rw
      (
        whole,
        fetch-in_bounds (cells_of text) start offset (omega (arith, size, inside)),
        store-in_bounds fresh 0 part (omega (arith, taken, wide)),
        store-overrun copied offset (init 0 ∷ []) (omega (arith, kept)),
      )
      refl
