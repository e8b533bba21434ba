-- ===== src/Network/PacketBase/Laws.antt =====
-- The packet header on lists of bytes.
use kge.Prelude.{
  ℕ, ◌+◌, ◌%◌, ◌≤◌, ◌<◌, ◌≡◌, refl, ap, ◌∙◌, List, [], ◌∷◌, ◌++◌, map, arith, Result, ok, throws,
  inl, inr, out_of_range, ◌>>=◌, length, append_assoc, length-append,
}
use kge.Memory.{init}
use kge.Support.BitStream.{BitStream, u32_mod, u32_bytes}
use kge.Support.BitStream.Stack.{IsValid, written}
use kge.Support.BitStream.Received.{
  Follows, returns, >>=-Follows, read_u32-pop, pop, pop-append, pop_short, pop_cases, value,
}
use kge.Support.BitStream.Output.{Holds, write_u32-Outputs}
use kge.Network.PacketBase.{PacketBase, pack_data, unpack_data}

-- The header that `packData` writes behind the rest of a packet.
unfoldable pub header : ℕ → ℕ → List ℕ
header packet_type id = u32_bytes packet_type ++ u32_bytes id

pub length-header : (t i : ℕ) → length (header t i) ≡ 8
unfolding header u32_bytes
length-header t i = refl

-- `unpackData` on the list of the bytes that are left.
unfoldable pub parse_header : PacketBase → List ℕ → Result (PacketBase × List ℕ)
parse_header p bytes = do
  (id, rest) ← pop 4 bytes
  (packet_type, rest') ← pop 4 rest
  ok (record p { id = id; packet_type = packet_type }, rest')

pub unpack_data-Follows :
    (p : PacketBase) (s : BitStream) (bytes : List ℕ) (size : ℕ)
    → IsValid s
    → written s ≡ map init bytes
    → s.data_length ≡ size
    → Follows size (unpack_data p s) (parse_header p bytes)
unfolding unpack_data parse_header
unpack_data-Follows p s bytes size v w l =
    >>=-Follows size _ _ (read_u32-pop s bytes size v w l) λ id t rest tv tw tl.
      >>=-Follows size _ _ (read_u32-pop t rest size tv tw tl)
        λ ty u rest' uv uw ul. returns _ u rest' uv uw ul

value-u32_bytes : (v : ℕ) → v < u32_mod → value (u32_bytes v) ≡ v
unfolding u32_bytes
value-u32_bytes v h = omega arith

pub pop-u32_bytes :
    (v : ℕ) (front : List ℕ) → v < u32_mod → pop 4 (front ++ u32_bytes v) ≡ ok (v, front)
pop-u32_bytes v front h =
    pop-append 4 front (u32_bytes v) (unfold u32_bytes in refl)
    ∙ ap (λ n. ok (n, front)) (value-u32_bytes v h)

pub pop-u8 : (v : ℕ) (front : List ℕ) → v < 256 → pop 1 (front ++ v % 256 ∷ []) ≡ ok (v, front)
pop-u8 v front h = pop-append 1 front (v % 256 ∷ []) refl ∙ ap (λ n. ok (n, front)) (omega arith)

pub parse_header-header :
    (p : PacketBase) (t i : ℕ) (front : List ℕ)
    → t < u32_mod
    → i < u32_mod
    → parse_header p (front ++ header t i) ≡ ok (record p { id = i; packet_type = t }, front)
unfolding parse_header header
parse_header-header p t i front ht hi = rw (
  ← append_assoc front (u32_bytes t) (u32_bytes i),
  pop-u32_bytes i (front ++ u32_bytes t) hi,
  pop-u32_bytes t front ht,
)

pub parse_header_short :
    (p : PacketBase) (bytes : List ℕ)
    → length bytes < 8
    → parse_header p bytes ≡ throws out_of_range
unfolding parse_header
parse_header_short p bytes h = elim (pop_cases 4 bytes) [
  | inl (_, e) ↦ rw e
  | inr (id, rest, e, l) ↦ rw (e, pop_short 4 rest (omega (arith, l)))
]

-- A header that was read: the packet keeps its sender, and eight bytes are gone.
pub record Parsed (p : PacketBase) (bytes : List ℕ) (r : Result (PacketBase × List ℕ))
    : Type 0 where
  pub packet : PacketBase
  pub rest : List ℕ
  pub returned : r ≡ ok (packet, rest)
  pub taken : length rest + 8 ≡ length bytes
  pub same_sender : packet.sender ≡ p.sender

pub parse_header_enough :
    (p : PacketBase) (bytes : List ℕ) → 8 ≤ length bytes → Parsed p bytes (parse_header p bytes)
unfolding parse_header
parse_header_enough p bytes h = elim (pop_cases 4 bytes) [
  | inl (short, _) ↦ absurd (omega (arith, short))
  | inr (id, rest, e, l) ↦ elim (pop_cases 4 rest) [
    | inl (short, _) ↦ absurd (omega (arith, short, l))
    | inr (ty, rest', e', l') ↦ record {
      packet = record p { id = id; packet_type = ty };
      rest = rest';
      returned = rw (e, e');
      taken = omega (arith, l, l');
      same_sender = refl;
    }
  ]
]

-- What `packData` puts out.
pub record Packs (p : PacketBase) (id : ℕ) (bytes : List ℕ)
    (r : Result (BitStream × PacketBase × ℕ)) : Type 0 where
  pub stream : BitStream
  pub returned : r ≡ ok (stream, record p { id = id }, (id + 1) % u32_mod)
  pub holds : Holds stream bytes

pub pack_data-Packs :
    (p : PacketBase) (id : ℕ) (out : BitStream) (bytes : List ℕ)
    → Holds out bytes
    → length bytes + 8 < u32_mod
    → Packs p id (bytes ++ header p.packet_type id) (pack_data p id out)
unfolding pack_data header
pack_data-Packs p id out bytes h fits =
    let a = write_u32-Outputs out bytes h p.packet_type (omega arith) in
    let n : length (bytes ++ u32_bytes p.packet_type) ≡ length bytes + 4 =
      length-append bytes (u32_bytes p.packet_type) ∙ (unfold u32_bytes in refl) in
    let b = write_u32-Outputs a.stream _ a.holds id (omega (arith, n)) in
    record {
      stream = b.stream;
      returned = rw (a.returned, b.returned);
      holds = rw (append_assoc bytes (u32_bytes p.packet_type) (u32_bytes id)) at b.holds;
    }
