-- ===== src/Network/IncomingClientBase.antt =====
-- apps/engine/include/network/ClientBase.hpp, IncomingClientBase.hpp and source/network/
-- IncomingClientBase.cpp. ENet takes what it is given: the model keeps it in the order given.
use kge.Prelude.{ℕ, Bool, true, false, List, Result, ok, ◌>>=◌}
use kge.Memory.{Cell}
use kge.Support.BitStream.{BitStream}
use kge.Support.BitStream.Output.{empty_stream, payload}

-- `ENET_PACKET_FLAG_RELIABLE` and `ENET_PACKET_FLAG_UNRELIABLE_FRAGMENT`
pub data PacketFlag : Type 0 where
  reliable unreliable_fragment : PacketFlag

abbrev pub packet_flag : Bool → PacketFlag
packet_flag true = reliable
packet_flag false = unreliable_fragment

-- A packet that was handed to `enet_peer_send` on channel 0.
pub record Sent : Type 0 where
  pub peer : ℕ
  pub payload : List (Cell ℕ)
  pub flag : PacketFlag

-- `send(packet, reliable)`, for a packet whose `packData` is `pack`: what goes out, the packet, and
-- the next packet id.
unfoldable pub send {ℓ} :
    {P : Type ℓ}
    → ℕ
    → (ℕ → BitStream → Result (BitStream × P × ℕ))
    → Bool
    → ℕ
    → Result (Sent × P × ℕ)
send internal_client pack is_reliable last_packet_id = do
  (out_stream, packet, next_id) ← pack last_packet_id empty_stream
  bytes ← payload out_stream
  ok (
    record { peer = internal_client; payload = bytes; flag = packet_flag is_reliable },
    packet,
    next_id,
  )

-- `enet_peer_disconnect_now(peer, data)`
pub record DisconnectNow : Type 0 where
  pub peer : ℕ
  pub data_sent : ℕ

-- `disconnect()`, as the call of ENet that it makes.
unfoldable pub disconnect : ℕ → DisconnectNow
disconnect internal_client = record { peer = internal_client; data_sent = 0 }

-- `getPort()`, for the ports of ENet's peers.
pub get_port : (ℕ → ℕ) → ℕ → ℕ
get_port port_of internal_client = port_of internal_client
