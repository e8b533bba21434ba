-- ===== src/Network/PacketBase.antt =====
-- apps/engine/include/network/PacketBase.hpp. The static `sLastPacketID` of `packData` is passed along.
pub mod Laws
use kge.Prelude.{ℕ, ◌+◌, ◌*◌, ◌%◌, Bool, false, Option, none, Result, ok, ◌>>=◌}
use kge.Support.BitStream.{BitStream, u32_mod, write_u32, read_u32}

pub record PacketBase : Type 0 where
  pub packet_type : ℕ
  pub id : ℕ
  -- The address of the client that sent it, if any did.
  pub sender : Option ℕ

-- The constructor; `received` is not looked at.
unfoldable pub new_packet : ℕ → Option ℕ → PacketBase
new_packet packet_type sender = record { packet_type = packet_type; id = 0; sender = sender }

-- `packData`: the stream, the packet and the next id.
unfoldable pub pack_data : PacketBase → ℕ → BitStream → Result (BitStream × PacketBase × ℕ)
pack_data p last_packet_id out = do
  out1 ← write_u32 out p.packet_type
  out2 ← write_u32 out1 last_packet_id
  ok (out2, record p { id = last_packet_id }, (last_packet_id + 1) % u32_mod)

-- `unpackData`
unfoldable pub unpack_data : PacketBase → BitStream → Result (PacketBase × BitStream)
unpack_data p in0 = do
  (id, in1) ← read_u32 in0 false
  (packet_type, in2) ← read_u32 in1 false
  ok (record p { id = id; packet_type = packet_type }, in2)

-- `getMinimumPacketPayloadLength`
pub minimum_payload_length : ℕ
minimum_payload_length = 4 * 2
