-- ===== src/Game/ServerSingleton.antt =====
-- apps/engine/include/game/ServerSingleton.hpp and source/game/ServerSingleton.cpp: what the game does
-- when a client comes, goes, or sends a packet.
pub mod Receive
pub mod Clients
use kge.Prelude.{
  ℕ, ◌+◌, ◌==◌, Bool, true, false, Option, none, some, List, [], ◌∷◌, ◌++◌, if◌then◌else◌, Outcome,
  done, raised, undefined, Result, ok, throws, fault, ◌>>=◌,
}
use kge.Prelude.Sets.{set_insert}
use kge.Support.BitStream.{BitStream}
use kge.Network.PacketBase.{PacketBase, new_packet}
use kge.Network.PacketBase
use kge.Network.IncomingClientBase.{Sent, send}
use kge.Network.ServerBase.{Server, Callbacks}
use kge.Game.HandShake.{HandShake, new_handshake, packet_handshake}
use kge.Game.HandShake

-- A version that was written to `std::cout`.
pub record Printed : Type 0 where
  pub major : ℕ
  pub minor : ℕ
  pub revision : ℕ
  pub build : ℕ

-- The members of ServerSingleton, and what it printed.
pub record Members : Type 0 where
  pub last_packet_sender : Option ℕ
  pub static_entities : List ℕ
  pub dynamic_entities : List ℕ
  pub printed : List Printed

pub new_members : Members
new_members = record {
  last_packet_sender = none;
  static_entities = [];
  dynamic_entities = [];
  printed = [];
}

-- `client->getPort()`, less the number: it reads the peer of a client that must not be deleted.
get_port : Server Members → ℕ → Outcome (Server Members)
get_port s client = elim (s.client_peer client) [ none ↦ undefined | some peer ↦ done s ]

unfoldable pub on_client_connected : Server Members → ℕ → Outcome (Server Members)
unfolding get_port
on_client_connected s client = get_port s client

unfoldable pub on_client_disconnected : Server Members → ℕ → Outcome (Server Members)
unfolding get_port
on_client_disconnected s client = get_port s client

-- The version that this end reports.
unfoldable pub own_version : HandShake → HandShake
own_version h = record h {
  version_major = 1;
  version_minor = 2;
  version_revision = 3;
  version_build = 4;
}

abbrev pub printed_version : HandShake → Printed
printed_version h = record {
  major = h.version_major;
  minor = h.version_minor;
  revision = h.version_revision;
  build = h.version_build;
}

-- The client that an address stands for.
abbrev pub live : Option ℕ → Result ℕ
live none = fault
live (some peer) = ok peer

abbrev pub remember : Option ℕ → Server Members → Server Members
remember sender s = record s { game = record (s.game) { last_packet_sender = sender } }

abbrev pub deliver : Option (Printed × Sent × ℕ) → Server Members → Server Members
deliver none s = s
deliver (some (version, sent, next_id)) s = record s {
  outbox = s.outbox ++ sent ∷ [];
  last_packet_id = next_id;
  game = record (s.game) { printed = s.game.printed ++ version ∷ [] };
}

-- The answer to a packet: for a hand shake the version that is printed, what is sent back, and the
-- next packet id. `old` is what the memory of a new HandShake holds.
module _ (old : HandShake) where
  unfoldable pub answer_handshake : Option ℕ → ℕ → BitStream → Result (Option (Printed × Sent × ℕ))
  answer_handshake client last_packet_id stream = do
    (received_handshake, rest) ← HandShake.unpack_data (new_handshake old none) stream
    peer ← live client
    (sent, _, next_id) ←
        send peer (HandShake.pack_data (own_version (new_handshake old none))) true last_packet_id
    ok (some (printed_version received_handshake, sent, next_id))

  unfoldable pub answer : Option ℕ → ℕ → BitStream → Result (Option (Printed × Sent × ℕ))
  answer client last_packet_id stream = do
    (base_packet, rest) ← PacketBase.unpack_data (new_packet 0 none) stream
    let reply = answer_handshake client last_packet_id rest
    if base_packet.packet_type == packet_handshake then reply else ok none

  -- `onReceivePacket`: an exception leaves `mLastPacketSender` set.
  unfoldable pub on_receive_packet : Server Members → BitStream → ℕ → Outcome (Server Members)
  on_receive_packet s stream sender = elim (answer (s.client_peer sender) s.last_packet_id stream) [
    | ok reply ↦ done (remember none (deliver reply s))
    | throws e ↦ raised e (remember (some sender) s)
    | fault ↦ undefined
  ]

  abbrev pub callbacks : Callbacks Members
  callbacks = record {
    on_client_connected = on_client_connected;
    on_client_disconnected = on_client_disconnected;
    on_receive_packet = on_receive_packet;
  }

-- `getLastPacketSender`: the value, and the server that forgot it.
pub get_last_packet_sender : Server Members → Option ℕ × Server Members
get_last_packet_sender s =
    (s.game.last_packet_sender, record s { game = record (s.game) { last_packet_sender = none } })

pub add_static_entity : Server Members → ℕ → Server Members
add_static_entity s entity = record s {
  game = record (s.game) { static_entities = set_insert entity s.game.static_entities };
}
