-- ===== src/Game/HandShake/Reception.antt =====
-- The two readings that every receiver of a packet makes, of the header and then of the hand shake,
-- on a stream over any bytes: what can come of them.
use kge.Prelude.{
  ℕ, ◌+◌, ◌≤◌, ◌<◌, ◌≡◌, ◌≢◌, ◌==◌, ==_iff, inl, inr, none, List, arith, ltb, ltb→lt, Bool-cases,
  length, ok, throws, out_of_range,
}
use kge.Support.BitStream.{BitStream, u32_mod}
use kge.Support.BitStream.Received.{
  received, received-IsValid, written-received, data_length-received, Follows, Follows-ok,
  Follows-throws,
}
use kge.Network.PacketBase.{PacketBase, new_packet}
use kge.Network.PacketBase
use kge.Network.PacketBase.Laws.{
  parse_header, unpack_data-Follows, parse_header-header, parse_header_short, parse_header_enough,
}
use kge.Game.HandShake.{HandShake, new_handshake, packet_handshake}
use kge.Game.HandShake
use kge.Game.HandShake.Laws
use kge.Game.HandShake.Laws.{
  IsVersion, wire, length-wire, version_bytes, with_version, parse, parse-version_bytes,
  parse_short, parse_enough,
}

abbrev pub blank : PacketBase
blank = new_packet 0 none

-- What the two readings come to. `old` is the memory of the HandShake that is read into.
pub data Reception (old : HandShake) (bytes : List ℕ) : Type 0 where
  no_header :
      length bytes < 8
      → PacketBase.unpack_data blank (received bytes) ≡ throws out_of_range
      → Reception old bytes
  other_type :
      (packet : PacketBase) (rest : BitStream)
      → 8 ≤ length bytes
      → PacketBase.unpack_data blank (received bytes) ≡ ok (packet, rest)
      → packet.packet_type ≢ packet_handshake
      → Reception old bytes
  no_version :
      (packet : PacketBase) (rest : BitStream)
      → length bytes < 15
      → PacketBase.unpack_data blank (received bytes) ≡ ok (packet, rest)
      → packet.packet_type ≡ packet_handshake
      → HandShake.unpack_data (new_handshake old none) rest ≡ throws out_of_range
      → Reception old bytes
  version :
      (packet : PacketBase) (rest : BitStream) (h : HandShake) (last : BitStream)
      → 15 ≤ length bytes
      → PacketBase.unpack_data blank (received bytes) ≡ ok (packet, rest)
      → packet.packet_type ≡ packet_handshake
      → HandShake.unpack_data (new_handshake old none) rest ≡ ok (h, last)
      → Reception old bytes

module _ (old : HandShake) (bytes : List ℕ) (small : length bytes < u32_mod) where
  header_read :
      Follows
        (length bytes)
        (PacketBase.unpack_data blank (received bytes))
        (parse_header blank bytes)
  header_read =
      unpack_data-Follows blank (received bytes) bytes (length bytes) (received-IsValid bytes small)
        (written-received bytes) (data_length-received bytes)

  version_read :
      (packet : PacketBase) (rest : List ℕ)
      → parse_header blank bytes ≡ ok (packet, rest)
      → (t : BitStream) × (PacketBase.unpack_data blank (received bytes) ≡ ok (packet, t))
        × Follows
            (length bytes)
            (HandShake.unpack_data (new_handshake old none) t)
            (parse (new_handshake old none) (length bytes) rest)
  version_read packet rest head =
      let t = Follows-ok (rw head at header_read) in
      (
        t.stream,
        t.returned,
        Laws.unpack_data-Follows (new_handshake old none) t.stream rest (length bytes) t.valid
            t.content t.size_kept,
      )

  handshake-Reception :
      (packet : PacketBase) (rest : List ℕ)
      → parse_header blank bytes ≡ ok (packet, rest)
      → length rest + 8 ≡ length bytes
      → packet.packet_type ≡ packet_handshake
      → Reception old bytes
  handshake-Reception packet rest head taken ours =
      let (t, base_read, follows) = version_read packet rest head in
      elim (Bool-cases (ltb (length rest) 7)) [
        | inl few ↦
            let short : length rest < 7 = ltb→lt _ _ few in
            let throws_here =
              parse_short (new_handshake old none) (length bytes) rest (omega (arith, taken))
                short in
            no_version packet t (omega (arith, taken, short)) base_read ours
              (Follows-throws (rw throws_here at follows))
        | inr many ↦
            let enough : 7 ≤ length rest = ground arith in
            let (h, rest', parsed) =
              parse_enough (new_handshake old none) (length bytes) rest (omega (arith, taken))
                enough in
            let u = Follows-ok (rw parsed at follows) in
            version packet t h u.stream (omega (arith, taken, enough)) base_read ours u.returned
      ]

  pub reception : Reception old bytes
  reception = elim (Bool-cases (ltb (length bytes) 8)) [
    | inl few ↦
        let short : length bytes < 8 = ltb→lt _ _ few in
        no_header short (Follows-throws (rw (parse_header_short blank bytes short) at header_read))
    | inr many ↦
        let long : 8 ≤ length bytes = ground arith in
        let p = parse_header_enough blank bytes long in
        elim (Bool-cases (p.packet.packet_type == packet_handshake)) [
          | inl ours ↦ handshake-Reception p.packet p.rest p.returned p.taken ((==_iff _ _).0 ours)
          | inr other ↦
              let (t, base_read, _) = version_read p.packet p.rest p.returned in
              other_type p.packet t long base_read (ground arith)
        ]
  ]

-- A hand shake that was sent is read as what it was.
pub record ReadsBack (old h : HandShake) (id : ℕ) : Type 0 where
  pub packet : PacketBase
  pub rest : BitStream
  pub last : BitStream
  pub header_returned : PacketBase.unpack_data blank (received (wire h id)) ≡ ok (packet, rest)
  pub ours : packet.packet_type ≡ packet_handshake
  pub version_returned :
      HandShake.unpack_data (new_handshake old none) rest
      ≡ ok (with_version (new_handshake old none) h, last)

pub wire-ReadsBack :
    (old h : HandShake) (id : ℕ)
    → IsVersion h
    → h.base.packet_type ≡ packet_handshake
    → id < u32_mod
    → ReadsBack old h id
wire-ReadsBack old h id v ours small =
    let bytes = wire h id in
    let fits : length bytes < u32_mod = omega (arith, length-wire h id) in
    let head : parse_header blank bytes
        ≡ ok (record blank { id = id; packet_type = h.base.packet_type }, version_bytes h) =
      unfold wire in
      parse_header-header blank h.base.packet_type id (version_bytes h) (omega (arith, ours))
        small in
    let (t, base_read, follows) = version_read old bytes fits _ (version_bytes h) head in
    let u = Follows-ok (
      rw
        (parse-version_bytes (new_handshake old none) h (length bytes) v
          (omega (arith, length-wire h id)))
        at follows) in
    record {
      packet = record blank { id = id; packet_type = h.base.packet_type };
      rest = t;
      last = u.stream;
      header_returned = base_read;
      ours = ours;
      version_returned = u.returned;
    }
