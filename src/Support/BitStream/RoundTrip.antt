-- ===== src/Support/BitStream/RoundTrip.antt =====
-- Whatever is written to a stream is read back, the last item first.
use kge.Prelude.{
  ℕ, ◌+◌, ◌%◌, ◌<◌, ◌≡◌, refl, ap, ◌∙◌, Bool, true, false, List, [], ◌∷◌, ◌++◌, map, arith, Result,
  ok, ◌>>=◌, length,
}
use kge.Memory.{Cell, init}
use kge.Support.BitStream.{
  BitStream, u32_mod, write, write_f32, write_bool, write_u8, write_u32, read_f32, read_bool,
  read_u8, read_u32, u32_bytes, u32_of, u8_of, bool_byte, bool_of,
}
use kge.Support.BitStream.Stack.{IsValid, written, write-Pushes}
use kge.Support.BitStream.Reads.{Pops, read_as-Pops}

-- One typed write.
pub data Item : Type 0 where
  f32 : ℕ → Item
  boolean : Bool → Item
  u8 : ℕ → Item
  u32 : ℕ → Item

abbrev pub IsInRange : Item → Type 0
IsInRange (f32 v) = v < u32_mod
IsInRange (boolean b) = Unit
IsInRange (u8 v) = v < 256
IsInRange (u32 v) = v < u32_mod

abbrev pub AllInRange : List Item → Type 0
AllInRange [] = Unit {0}
AllInRange (x ∷ xs) = IsInRange x × AllInRange xs

abbrev pub item_size : Item → ℕ
item_size (f32 v) = 4
item_size (boolean b) = 1
item_size (u8 v) = 1
item_size (u32 v) = 4

abbrev pub total_size : List Item → ℕ
total_size [] = 0
total_size (x ∷ xs) = item_size x + total_size xs

abbrev item_bytes : Item → List ℕ
item_bytes (f32 v) = u32_bytes v
item_bytes (boolean b) = bool_byte b ∷ []
item_bytes (u8 v) = v % 256 ∷ []
item_bytes (u32 v) = u32_bytes v

pub write_item : BitStream → Item → Result BitStream
unfolding write_f32 write_bool write_u8 write_u32
write_item s (f32 v) = write_f32 s v
write_item s (boolean b) = write_bool s b
write_item s (u8 v) = write_u8 s v
write_item s (u32 v) = write_u32 s v

-- Reads an item of the kind of the one given, whose value is not looked at.
pub read_item : BitStream → Item → Bool → Result (Item × BitStream)
read_item s (f32 _) copy = do (v, t) ← read_f32 s copy; ok (f32 v, t)
read_item s (boolean _) copy = do (b, t) ← read_bool s copy; ok (boolean b, t)
read_item s (u8 _) copy = do (v, t) ← read_u8 s copy; ok (u8 v, t)
read_item s (u32 _) copy = do (v, t) ← read_u32 s copy; ok (u32 v, t)

pub write_items : BitStream → List Item → Result BitStream
write_items s [] = ok s
write_items s (x ∷ xs) = do t ← write_item s x; write_items t xs

-- The last of the items is read first.
pub read_items : BitStream → List Item → Bool → Result (List Item × BitStream)
read_items s [] copy = ok ([], s)
read_items s (x ∷ xs) copy = do
  (ys, t) ← read_items s xs copy
  (y, u) ← read_item t x copy
  ok (y ∷ ys, u)

pub u32_of-u32_bytes : (v : ℕ) → v < u32_mod → u32_of (u32_bytes v) ≡ ok v
unfolding u32_of u32_bytes
u32_of-u32_bytes v h = ap ok (omega arith)

pub u8_of_byte : (v : ℕ) → v < 256 → u8_of (v % 256 ∷ []) ≡ ok v
unfolding u8_of
u8_of_byte v h = ap ok (omega arith)

pub bool_of-bool_byte : (b : Bool) → bool_of (bool_byte b ∷ []) ≡ ok b
unfolding bool_of bool_byte
bool_of-bool_byte true = refl
bool_of-bool_byte false = refl

length-item_bytes : (x : Item) → length (item_bytes x) ≡ item_size x
unfolding u32_bytes
length-item_bytes (f32 v) = refl
length-item_bytes (boolean b) = refl
length-item_bytes (u8 v) = refl
length-item_bytes (u32 v) = refl

write_item-write : (s : BitStream) (x : Item) → write_item s x ≡ write s (item_bytes x)
unfolding write_item
write_item-write s (f32 v) = refl
write_item-write s (boolean b) = refl
write_item-write s (u8 v) = refl
write_item-write s (u32 v) = refl

pub write_f32-write : (s : BitStream) (v : ℕ) → write_f32 s v ≡ write s (u32_bytes v)
unfolding write_f32
write_f32-write s v = refl

Pops-map :
    {A B : Type 0} (f : A → B) (s : BitStream) (a : A) (front : List (Cell ℕ))
    (r : Result (A × BitStream))
    → Pops s a front r
    → Pops s (f a) front (r >>= λ p. ok (f p.0, p.1))
Pops-map f s a front r p = record {
  stream = p.stream;
  returned = rw p.returned;
  valid = p.valid;
  content = p.content;
  size = p.size;
}

module _ (s : BitStream) (copy : Bool) (front : List (Cell ℕ)) (v : IsValid s) where
  pub read_f32-Pops :
      (x : ℕ)
      → x < u32_mod
      → written s ≡ front ++ map init (u32_bytes x)
      → Pops s x front (read_f32 s copy)
  unfolding read_f32
  read_f32-Pops x h e =
      read_as-Pops 4 u32_of s copy front (u32_bytes x) x v e (unfold u32_bytes in refl)
        (u32_of-u32_bytes x h)

  pub read_bool-Pops :
      (b : Bool)
      → written s ≡ front ++ map init (bool_byte b ∷ [])
      → Pops s b front (read_bool s copy)
  unfolding read_bool
  read_bool-Pops b e =
      read_as-Pops 1 bool_of s copy front (bool_byte b ∷ []) b v e refl (bool_of-bool_byte b)

  pub read_u8-Pops :
      (x : ℕ)
      → x < 256
      → written s ≡ front ++ map init (x % 256 ∷ [])
      → Pops s x front (read_u8 s copy)
  unfolding read_u8
  read_u8-Pops x h e = read_as-Pops 1 u8_of s copy front (x % 256 ∷ []) x v e refl (u8_of_byte x h)

  pub read_u32-Pops :
      (x : ℕ)
      → x < u32_mod
      → written s ≡ front ++ map init (u32_bytes x)
      → Pops s x front (read_u32 s copy)
  unfolding read_u32
  read_u32-Pops x h e =
      read_as-Pops 4 u32_of s copy front (u32_bytes x) x v e (unfold u32_bytes in refl)
        (u32_of-u32_bytes x h)

read_item-Pops :
    (s : BitStream) (x : Item) (copy : Bool) (front : List (Cell ℕ))
    → IsValid s
    → IsInRange x
    → written s ≡ front ++ map init (item_bytes x)
    → Pops s x front (read_item s x copy)
unfolding read_item
read_item-Pops s (f32 x) copy front v h e =
    Pops-map f32 s x front _ (read_f32-Pops s copy front v x h e)
read_item-Pops s (boolean b) copy front v h e =
    Pops-map boolean s b front _ (read_bool-Pops s copy front v b e)
read_item-Pops s (u8 x) copy front v h e =
    Pops-map u8 s x front _ (read_u8-Pops s copy front v x h e)
read_item-Pops s (u32 x) copy front v h e =
    Pops-map u32 s x front _ (read_u32-Pops s copy front v x h e)

-- The stream after all writes, and the one after all reads.
pub record Restores (s : BitStream) (xs : List Item) (copy : Bool) : Type 0 where
  pub full : BitStream
  pub emptied : BitStream
  pub wrote : write_items s xs ≡ ok full
  pub read_back : read_items full xs copy ≡ ok (xs, emptied)
  pub full_valid : IsValid full
  pub valid : IsValid emptied
  pub content : written emptied ≡ written s

-- Any sequence of typed writes to a sound stream that stays below 4 GiB succeeds, and the matching
-- reads, the last item first, return the values and leave the stream holding what it held before.
pub read_items-write_items :
    (s : BitStream) (xs : List Item) (copy : Bool)
    → IsValid s
    → AllInRange xs
    → s.data_length + total_size xs < u32_mod
    → Restores s xs copy
unfolding write_items read_items
read_items-write_items s [] copy v h fits = record {
  full = s;
  emptied = s;
  wrote = refl;
  read_back = refl;
  full_valid = v;
  valid = v;
  content = refl;
}
read_items-write_items s (x ∷ xs) copy v (hx, hxs) fits =
    let p = write-Pushes s (item_bytes x) v (omega (arith, length-item_bytes x, fits)) in
    let smaller : p.stream.data_length + total_size xs < u32_mod =
      ground (arith, p.size, length-item_bytes x) in
    let rest = read_items-write_items p.stream xs copy p.valid hxs smaller in
    let top =
      read_item-Pops rest.emptied x copy (written s) rest.valid hx (rest.content ∙ p.content) in
    record {
      full = rest.full;
      emptied = top.stream;
      wrote = rw (write_item-write s x, p.returned) rest.wrote;
      read_back = rw (rest.read_back, top.returned);
      full_valid = rest.full_valid;
      valid = top.valid;
      content = top.content;
    }
