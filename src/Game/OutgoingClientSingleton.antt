-- ===== src/Game/OutgoingClientSingleton.antt =====
-- apps/engine/include/game/OutgoingClientSingleton.hpp and source/game/OutgoingClientSingleton.cpp.
pub mod Greeting
pub mod Closing
pub mod Playing
use kge.Prelude.{
  ℕ, ◌==◌, Bool, true, false, Option, none, some, List, [], ◌∷◌, ◌++◌, if◌then◌else◌, Outcome, done,
  raised, undefined, Result, ok, throws, fault, ◌>>=◌,
}
use kge.Support.BitStream.{BitStream}
use kge.Network.PacketBase.{PacketBase, new_packet}
use kge.Network.PacketBase
use kge.Network.OutgoingClientBase.{Client, ClientCallbacks, close, send_packet}
use kge.Game.HandShake.{HandShake, new_handshake, packet_handshake}
use kge.Game.HandShake
use kge.Game.ServerSingleton.{Printed, printed_version}

-- What the client printed of the servers' versions.
pub record ClientMembers : Type 0 where
  pub printed : List Printed

-- The version that the client reports.
unfoldable pub client_version : HandShake → HandShake
client_version h = record h {
  version_major = 1;
  version_minor = 2;
  version_revision = 3;
  version_build = 4;
}

abbrev pub enter_stage : Option Printed → Client ClientMembers → Client ClientMembers
enter_stage none c = c
enter_stage (some version) c = record c {
  current_stage = 1;
  game = record { printed = c.game.printed ++ version ∷ [] };
}

-- `~OutgoingClientSingleton`, whose body is that of `~OutgoingClientBase`, which runs after it.
unfoldable pub destructor : Client ClientMembers → Client ClientMembers
destructor c = let c1 = close c in close c1

-- `old` is what the memory of a new HandShake holds.
module _ (old : HandShake) where
  -- The version in a packet, if it is a hand shake.
  unfoldable pub read_version : BitStream → Result (Option Printed)
  read_version stream = do
    (base_packet, rest) ← PacketBase.unpack_data (new_packet 0 none) stream
    let version = (do
      (h, last) ← HandShake.unpack_data (new_handshake old none) rest
      ok (some (printed_version h)))
    if base_packet.packet_type == packet_handshake then version else ok none

  -- `onReceivePacket`
  unfoldable pub on_receive_packet :
      Client ClientMembers → BitStream → Outcome (Client ClientMembers)
  on_receive_packet c stream = elim (read_version stream) [
    | ok version ↦ done (enter_stage version c)
    | throws e ↦ raised e c
    | fault ↦ undefined
  ]

  -- `onConnected`: the client greets the server.
  unfoldable pub on_connected : Client ClientMembers → Outcome (Client ClientMembers)
  on_connected c =
      send_packet c (HandShake.pack_data (client_version (new_handshake old none))) true

  abbrev pub on_disconnected : Client ClientMembers → Outcome (Client ClientMembers)
  on_disconnected c = done c

  abbrev pub on_connect_failed : Client ClientMembers → Outcome (Client ClientMembers)
  on_connect_failed c = done c

  abbrev pub callbacks : ClientCallbacks ClientMembers
  callbacks = record {
    on_connected = on_connected;
    on_disconnected = on_disconnected;
    on_connect_failed = on_connect_failed;
    on_receive_packet = on_receive_packet;
  }
