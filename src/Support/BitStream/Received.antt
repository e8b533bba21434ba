-- ===== src/Support/BitStream/Received.antt =====
-- A stream over the bytes of a received packet, read from its end, and the reads seen as functions
-- on a list of bytes.
use kge.Prelude.{
  ℕ, ◌+◌, ◌*◌, ◌-◌, ◌<◌, ◌≡◌, refl, sym, ap, ◌∙◌, false, List, [], ◌∷◌, ◌++◌, map, some, arith, ltb,
  if◌then◌else◌, Result, ok, throws, Exception, out_of_range, ◌>>=◌, length, take, drop, length-map,
  length-append, length-take, length-drop, take-append, drop-append, take_all, take-append-drop,
  ◌⊎◌, inl, inr, Bool-cases, ltb→lt, map-append,
}
use kge.Memory.{Cell, init}
use kge.Support.BitStream.{
  BitStream, u32_mod, from_array, u32_of, u8_of, read_as, read_u32, read_u8,
}
use kge.Support.BitStream.Stack.{IsValid, written}
use kge.Support.BitStream.Reads.{read_throws, read_as-Pops, length-written}

-- `BitStream incomingStream(packet->data, packet->dataLength, packet->dataLength)`
unfoldable pub received : List ℕ → BitStream
received bytes = from_array (some (map init bytes)) (length bytes) (length bytes)

pub received-IsValid : (bytes : List ℕ) → length bytes < u32_mod → IsValid (received bytes)
unfolding received from_array
received-IsValid bytes h = record {
  sized_right = length-map init bytes;
  pointer_inside = omega arith;
  fits_u32 = h;
}

pub written-received : (bytes : List ℕ) → written (received bytes) ≡ map init bytes
unfolding received from_array written
written-received bytes =
    take_all (length bytes) (map init bytes) (omega (arith, length-map {B = Cell ℕ} init bytes))

-- A little-endian number.
abbrev pub value : List ℕ → ℕ
value [] = 0
value (b ∷ bs) = b + 256 * value bs

-- A read of a number of `n` bytes, on the list of the bytes that are left.
unfoldable pub pop : ℕ → List ℕ → Result (ℕ × List ℕ)
pop n bytes =
    if ltb (length bytes) n
    then throws out_of_range
    else ok (value (drop (length bytes - n) bytes), take (length bytes - n) bytes)

pub pop-append :
    (n : ℕ) (front top : List ℕ) → n ≡ length top → pop n (front ++ top) ≡ ok (value top, front)
unfolding pop
pop-append n front top e =
    let at : length (front ++ top) - n ≡ length front = omega (arith, length-append front top, e) in
    let enough : ltb (length (front ++ top)) n ≡ false =
      ground (arith, length-append front top, e) in
    rw (enough, at, take-append front top, drop-append front top)

pub pop_short : (n : ℕ) (bytes : List ℕ) → length bytes < n → pop n bytes ≡ throws out_of_range
unfolding pop
pop_short n bytes h = ground arith

-- A read either finds too few bytes, or takes `n` of them.
pub pop_cases :
    (n : ℕ) (bytes : List ℕ)
    → ((length bytes < n) × (pop n bytes ≡ throws out_of_range))
      ⊎ ((v : ℕ) × (rest : List ℕ) × (pop n bytes ≡ ok (v, rest))
          × (length rest + n ≡ length bytes))
unfolding pop
pop_cases n bytes = elim (Bool-cases (ltb (length bytes) n)) [
  | inl short ↦ inl (ltb→lt _ _ short, rw short)
  | inr enough ↦ inr (
    value (drop (length bytes - n) bytes),
    take (length bytes - n) bytes,
    rw enough,
    ground (arith, length-take (length bytes - n) bytes),
  )
]

-- A stream operation does what the list operation does: the same value or exception, and the
-- stream that is left is sound, has not changed its length, and holds the bytes that are left.
pub data Follows {A : Type 0} (size : ℕ)
    : Result (A × BitStream) → Result (A × List ℕ) → Type 0 where
  returns :
      (a : A) (t : BitStream) (rest : List ℕ)
      → IsValid t
      → written t ≡ map init rest
      → t.data_length ≡ size
      → Follows size (ok (a, t)) (ok (a, rest))
  throws_too : (e : Exception) → Follows size (throws e) (throws e)

pub >>=-Follows :
    {A B : Type 0} (size : ℕ) (f : A × BitStream → Result (B × BitStream))
    (g : A × List ℕ → Result (B × List ℕ)) {m : Result (A × BitStream)} {n : Result (A × List ℕ)}
    → Follows size m n
    → ((a : A) (t : BitStream) (rest : List ℕ)
        → IsValid t
        → written t ≡ map init rest
        → t.data_length ≡ size
        → Follows size (f (a, t)) (g (a, rest)))
    → Follows size (m >>= f) (n >>= g)
>>=-Follows size f g (returns a t rest v w l) k = k a t rest v w l
>>=-Follows size f g (throws_too e) k = throws_too e

read_as-pop :
    (n : ℕ) (decode : List ℕ → Result ℕ) (s : BitStream) (bytes : List ℕ) (size : ℕ)
    → ((bs : List ℕ) → length bs ≡ n → decode bs ≡ ok (value bs))
    → IsValid s
    → written s ≡ map init bytes
    → s.data_length ≡ size
    → Follows size (read_as n decode s false) (pop n bytes)
unfolding pop
read_as-pop n decode s bytes size good v w sized =
    let here : length bytes ≡ s.data_pointer =
      omega (arith, length-written s v, ap length w, length-map {B = Cell ℕ} init bytes) in
    elim (Bool-cases (ltb (length bytes) n)) [
      | inl short ↦
          unfold read_as in
          rw (short, read_throws s n false (omega (arith, ltb→lt _ _ short, here)))
            (throws_too out_of_range)
      | inr enough ↦
          let at = length bytes - n in
          let top : length (drop at bytes) ≡ n = ground (arith, length-drop at bytes) in
          let split : written s ≡ map init (take at bytes) ++ map init (drop at bytes) =
            w
            ∙ ap (map init) (sym (take-append-drop at bytes))
            ∙ map-append _ (take at bytes) (drop at bytes) in
          let p =
            read_as-Pops n decode s false _ (drop at bytes) (value (drop at bytes)) v split
              (sym top) (good (drop at bytes) top) in
          rw (enough, p.returned)
            (returns _ p.stream (take at bytes) p.valid p.content (p.size ∙ sized))
    ]

u32_of-value : (bs : List ℕ) → length bs ≡ 4 → u32_of bs ≡ ok (value bs)
unfolding u32_of
u32_of-value (a ∷ b ∷ c ∷ d ∷ []) h = ap ok (omega arith)
u32_of-value [] h = absurd (omega arith)
u32_of-value (a ∷ []) h = absurd (omega arith)
u32_of-value (a ∷ b ∷ []) h = absurd (omega arith)
u32_of-value (a ∷ b ∷ c ∷ []) h = absurd (omega arith)
u32_of-value (a ∷ b ∷ c ∷ d ∷ e ∷ bs) h = absurd (omega arith)

u8_of-value : (bs : List ℕ) → length bs ≡ 1 → u8_of bs ≡ ok (value bs)
unfolding u8_of
u8_of-value (a ∷ []) h = ap ok (omega arith)
u8_of-value [] h = absurd (omega arith)
u8_of-value (a ∷ b ∷ bs) h = absurd (omega arith)

pub read_u32-pop :
    (s : BitStream) (bytes : List ℕ) (size : ℕ)
    → IsValid s
    → written s ≡ map init bytes
    → s.data_length ≡ size
    → Follows size (read_u32 s false) (pop 4 bytes)
unfolding read_u32
read_u32-pop s bytes size v w e = read_as-pop 4 u32_of s bytes size u32_of-value v w e

pub read_u8-pop :
    (s : BitStream) (bytes : List ℕ) (size : ℕ)
    → IsValid s
    → written s ≡ map init bytes
    → s.data_length ≡ size
    → Follows size (read_u8 s false) (pop 1 bytes)
unfolding read_u8
read_u8-pop s bytes size v w e = read_as-pop 1 u8_of s bytes size u8_of-value v w e

-- Where the list operation returns, so does the stream operation; where it throws, both throw.
pub record ReturnsToo {A : Type 0} (size : ℕ) (a : A) (rest : List ℕ) (r : Result (A × BitStream))
    : Type 0 where
  pub stream : BitStream
  pub returned : r ≡ ok (a, stream)
  pub valid : IsValid stream
  pub content : written stream ≡ map init rest
  pub size_kept : stream.data_length ≡ size

pub Follows-ok :
    {A : Type 0} {size : ℕ} {r : Result (A × BitStream)} {a : A} {rest : List ℕ}
    → Follows size r (ok (a, rest))
    → ReturnsToo size a rest r
Follows-ok (returns a t rest v w l) = record {
  stream = t;
  returned = refl;
  valid = v;
  content = w;
  size_kept = l;
}

pub Follows-throws :
    {A : Type 0} {size : ℕ} {r : Result (A × BitStream)} {e : Exception}
    → Follows size r (throws e)
    → r ≡ throws e
Follows-throws (throws_too e) = refl

pub data_length-received : (bytes : List ℕ) → (received bytes).data_length ≡ length bytes
unfolding received from_array
data_length-received bytes = refl
