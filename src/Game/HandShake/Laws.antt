-- ===== src/Game/HandShake/Laws.antt =====
-- The hand shake on lists of bytes: what is sent, and what any payload is read as.
use kge.Prelude.{
  ℕ, ◌+◌, ◌%◌, ◌≤◌, ◌<◌, ◌≡◌, refl, ap, ◌∙◌, inl, inr, List, [], ◌∷◌, ◌++◌, map, arith, leb, lt→leb,
  if◌then◌else◌, Bool-cases, Result, ok, throws, out_of_range, runtime_error, ◌>>=◌, length,
  length-append,
}
use kge.Memory.{init}
use kge.Support.BitStream.{BitStream, u32_mod, u32_bytes, stream_length}
use kge.Support.BitStream.Stack.{IsValid, written}
use kge.Support.BitStream.Received.{
  Follows, returns, throws_too, >>=-Follows, read_u32-pop, read_u8-pop, pop, pop_short, pop_cases,
}
use kge.Support.BitStream.Output.{Holds, write_u8-Outputs, write_u32-Outputs}
use kge.Network.PacketBase.Laws.{header, length-header, pack_data-Packs, pop-u32_bytes, pop-u8}
use kge.Game.HandShake.{HandShake, pack_data, unpack_data, minimum_payload_length}

-- The versions that the members can hold.
pub record IsVersion (h : HandShake) : Type 0 where
  pub major : h.version_major < 256
  pub minor : h.version_minor < 256
  pub revision : h.version_revision < 256
  pub build : h.version_build < u32_mod

-- The bytes of the version, and of the whole packet.
unfoldable pub version_bytes : HandShake → List ℕ
version_bytes h =
    (h.version_major % 256 ∷ h.version_minor % 256 ∷ h.version_revision % 256 ∷ [])
    ++ u32_bytes h.version_build

unfoldable pub wire : HandShake → ℕ → List ℕ
wire h id = version_bytes h ++ header h.base.packet_type id

pub length-version_bytes : (h : HandShake) → length (version_bytes h) ≡ 7
unfolding version_bytes u32_bytes
length-version_bytes h = refl

pub length-wire : (h : HandShake) (id : ℕ) → length (wire h id) ≡ 15
unfolding wire
length-wire h id = omega (
  arith,
  length-append (version_bytes h) (header h.base.packet_type id),
  length-version_bytes h,
  length-header h.base.packet_type id,
)

-- What `packData` puts out.
pub record PacksHandShake (h : HandShake) (id : ℕ) (r : Result (BitStream × HandShake × ℕ))
    : Type 0 where
  pub stream : BitStream
  pub returned :
      r ≡ ok (stream, record h { base = record (h.base) { id = id } }, (id + 1) % u32_mod)
  pub holds : Holds stream (wire h id)

pub pack_data-PacksHandShake :
    (h : HandShake) (id : ℕ) (out : BitStream)
    → Holds out []
    → PacksHandShake h id (pack_data h id out)
unfolding pack_data wire version_bytes
pack_data-PacksHandShake h id out empty =
    let a = write_u8-Outputs out [] empty h.version_major (omega arith) in
    let b = write_u8-Outputs a.stream _ a.holds h.version_minor (omega arith) in
    let c = write_u8-Outputs b.stream _ b.holds h.version_revision (omega arith) in
    let d = write_u32-Outputs c.stream _ c.holds h.version_build (omega arith) in
    let e = pack_data-Packs h.base id d.stream _ d.holds (unfold u32_bytes in omega arith) in
    record {
      stream = e.stream;
      returned = rw (a.returned, b.returned, c.returned, d.returned, e.returned);
      holds = e.holds;
    }

-- `unpackData` on the list of the bytes that are left, in a stream of `size` bytes.
unfoldable pub parse : HandShake → ℕ → List ℕ → Result (HandShake × List ℕ)
parse h size bytes = if leb size 7 then throws runtime_error else (do
  (build, r1) ← pop 4 bytes
  (revision, r2) ← pop 1 r1
  (minor, r3) ← pop 1 r2
  (major, r4) ← pop 1 r3
  ok (
    record h {
      version_build = build;
      version_revision = revision;
      version_minor = minor;
      version_major = major;
    },
    r4,
  ))

pub unpack_data-Follows :
    (h : HandShake) (s : BitStream) (bytes : List ℕ) (size : ℕ)
    → IsValid s
    → written s ≡ map init bytes
    → s.data_length ≡ size
    → Follows size (unpack_data h s) (parse h size bytes)
unfolding unpack_data parse minimum_payload_length stream_length
unpack_data-Follows h s bytes size v w l = elim (Bool-cases (leb size 7)) [
  | inl small ↦ rw (ap (λ n. leb n 7) l ∙ small, small) (throws_too runtime_error)
  | inr large ↦
      rw (ap (λ n. leb n 7) l ∙ large, large)
        (>>=-Follows size _ _ (read_u32-pop s bytes size v w l) λ build t1 r1 v1 w1 l1.
          >>=-Follows size _ _ (read_u8-pop t1 r1 size v1 w1 l1) λ revision t2 r2 v2 w2 l2.
            >>=-Follows size _ _ (read_u8-pop t2 r2 size v2 w2 l2) λ minor t3 r3 v3 w3 l3.
              >>=-Follows size _ _ (read_u8-pop t3 r3 size v3 w3 l3)
                λ major t4 r4 v4 w4 l4. returns _ t4 r4 v4 w4 l4)
]

-- The version of `h` in the place of that of `g`.
abbrev pub with_version : HandShake → HandShake → HandShake
with_version g h = record g {
  version_build = h.version_build;
  version_revision = h.version_revision;
  version_minor = h.version_minor;
  version_major = h.version_major;
}

pub parse-version_bytes :
    (g h : HandShake) (size : ℕ)
    → IsVersion h
    → 7 < size
    → parse g size (version_bytes h) ≡ ok (with_version g h, [])
unfolding parse version_bytes
parse-version_bytes g h size v big =
    let major = h.version_major % 256 in
    let minor = h.version_minor % 256 in
    rw (
      lt→leb size 7 big,
      pop-u32_bytes h.version_build _ v.build,
      pop-u8 h.version_revision (major ∷ minor ∷ []) v.revision,
      pop-u8 h.version_minor (major ∷ []) v.minor,
      pop-u8 h.version_major [] v.major,
    )

pub parse_short :
    (h : HandShake) (size : ℕ) (bytes : List ℕ)
    → 7 < size
    → length bytes < 7
    → parse h size bytes ≡ throws out_of_range
unfolding parse
parse_short h size bytes big short = rw (lt→leb size 7 big) (elim (pop_cases 4 bytes) [
  | inl (_, e) ↦ rw e
  | inr (_, r1, e1, l1) ↦ rw e1 (elim (pop_cases 1 r1) [
    | inl (_, e) ↦ rw e
    | inr (_, r2, e2, l2) ↦ rw e2 (elim (pop_cases 1 r2) [
      | inl (_, e) ↦ rw e
      | inr (_, r3, e3, l3) ↦ rw (e3, pop_short 1 r3 (omega (arith, l1, l2, l3)))
    ])
  ])
])

-- With seven bytes left there is a version to read.
pub parse_enough :
    (h : HandShake) (size : ℕ) (bytes : List ℕ)
    → 7 < size
    → 7 ≤ length bytes
    → (g : HandShake) × (rest : List ℕ) × (parse h size bytes ≡ ok (g, rest))
unfolding parse
parse_enough h size bytes big enough = rw (lt→leb size 7 big) (elim (pop_cases 4 bytes) [
  | inl (short, _) ↦ absurd (omega (arith, short))
  | inr (build, r1, e1, l1) ↦ elim (pop_cases 1 r1) [
    | inl (short, _) ↦ absurd (omega (arith, short, l1))
    | inr (revision, r2, e2, l2) ↦ elim (pop_cases 1 r2) [
      | inl (short, _) ↦ absurd (omega (arith, short, l1, l2))
      | inr (minor, r3, e3, l3) ↦ elim (pop_cases 1 r3) [
        | inl (short, _) ↦ absurd (omega (arith, short, l1, l2, l3))
        | inr (major, r4, e4, l4) ↦ (
          record h {
            version_build = build;
            version_revision = revision;
            version_minor = minor;
            version_major = major;
          },
          r4,
          rw (e1, e2, e3, e4),
        )
      ]
    ]
  ]
])
