-- ===== src/Game/HandShake.antt =====
-- apps/engine/include/game/packets/packets.hpp and HandShake.hpp.
pub mod Laws
pub mod Reception
use kge.Prelude.{
  ℕ, ◌+◌, ◌*◌, Bool, false, Option, none, Result, ok, throws, runtime_error, leb, if◌then◌else◌,
  ◌>>=◌,
}
use kge.Support.BitStream.{BitStream, write_u8, write_u32, read_u8, read_u32, stream_length}
use kge.Network.PacketBase.{PacketBase, new_packet}
use kge.Network.PacketBase

-- `PACKET_HANDSHAKE`
abbrev pub packet_handshake : ℕ
packet_handshake = 3

pub record HandShake : Type 0 where
  pub base : PacketBase
  pub version_major : ℕ
  pub version_minor : ℕ
  pub version_revision : ℕ
  pub version_build : ℕ

-- The constructor leaves the version as it finds it in memory: `old` is what stands there.
unfoldable pub new_handshake : HandShake → Option ℕ → HandShake
new_handshake old sender = record old { base = new_packet packet_handshake sender }

-- `packData`
unfoldable pub pack_data : HandShake → ℕ → BitStream → Result (BitStream × HandShake × ℕ)
pack_data h last_packet_id out = do
  out1 ← write_u8 out h.version_major
  out2 ← write_u8 out1 h.version_minor
  out3 ← write_u8 out2 h.version_revision
  out4 ← write_u32 out3 h.version_build
  (out5, base, next_id) ← PacketBase.pack_data h.base last_packet_id out4
  ok (out5, record h { base = base }, next_id)

-- `getMinimumPacketPayloadLength`
pub minimum_payload_length : ℕ
minimum_payload_length = 4 + 1 * 3

-- `unpackData`
unfoldable pub unpack_data : HandShake → BitStream → Result (HandShake × BitStream)
unfolding minimum_payload_length
unpack_data h in0 =
    if leb (stream_length in0) minimum_payload_length then throws runtime_error else (do
      (build, in1) ← read_u32 in0 false
      (revision, in2) ← read_u8 in1 false
      (minor, in3) ← read_u8 in2 false
      (major, in4) ← read_u8 in3 false
      ok (
        record h {
          version_build = build;
          version_revision = revision;
          version_minor = minor;
          version_major = major;
        },
        in4,
      ))
