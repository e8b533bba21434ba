-- ===== src/Game/OutgoingClientSingleton/Greeting.antt =====
-- What the client does with any payload, and the hand shakes that a client and a server exchange.
use kge.Prelude.{
  ℕ, ◌≤◌, ◌<◌, ◌≡◌, ◌≢◌, ◌==◌, refl, true, false, Option, none, some, List, [], ◌∷◌, ◌++◌, map,
  arith, length, Outcome, done, raised, undefined, Result, ok, throws, fault, out_of_range,
}
use kge.Memory.{init}
use kge.Support.BitStream.{BitStream, u32_mod}
use kge.Support.BitStream.Received.{received}
use kge.Network.PacketBase.{PacketBase}
use kge.Network.PacketBase
use kge.Network.IncomingClientBase.{packet_flag}
use kge.Network.ServerBase.{Server}
use kge.Network.OutgoingClientBase.{Client, send_packet}
use kge.Game.HandShake.{HandShake, new_handshake, packet_handshake}
use kge.Game.HandShake
use kge.Game.HandShake.Laws.{IsVersion, wire}
use kge.Game.HandShake.Reception.{
  no_header, other_type, no_version, version, reception, wire-ReadsBack, blank,
}
use kge.Game.ServerSingleton.{Members, Printed, printed_version, own_version, remember, deliver}
use kge.Game.ServerSingleton
use kge.Game.ServerSingleton.Receive.{next_id, reply, handshake_exchange}
use kge.Game.OutgoingClientSingleton.{
  ClientMembers, client_version, read_version, enter_stage, on_receive_packet, on_connected,
}

-- The three things that can come of a packet from the server.
pub data ClientResponse (old : HandShake) (c : Client ClientMembers) (bytes : List ℕ)
    (r : Outcome (Client ClientMembers)) : Type 0 where
  too_short : length bytes < 15 → r ≡ raised out_of_range c → ClientResponse old c bytes r
  ignored :
      (packet : PacketBase) (rest : BitStream)
      → 8 ≤ length bytes
      → PacketBase.unpack_data blank (received bytes) ≡ ok (packet, rest)
      → packet.packet_type ≢ packet_handshake
      → r ≡ done c
      → ClientResponse old c bytes r
  entered :
      (packet : PacketBase) (rest : BitStream) (h : HandShake) (last : BitStream)
      → 15 ≤ length bytes
      → PacketBase.unpack_data blank (received bytes) ≡ ok (packet, rest)
      → packet.packet_type ≡ packet_handshake
      → HandShake.unpack_data (new_handshake old none) rest ≡ ok (h, last)
      → r ≡ done (enter_stage (some (printed_version h)) c)
      → ClientResponse old c bytes r

abbrev conclude : Client ClientMembers → Result (Option Printed) → Outcome (Client ClientMembers)
conclude c (ok a) = done (enter_stage a c)
conclude c (throws e) = raised e c
conclude c fault = undefined

module _ (old : HandShake) (c : Client ClientMembers) (bytes : List ℕ) where
  react :
      (a : Result (Option Printed))
      → read_version old (received bytes) ≡ a
      → on_receive_packet old c (received bytes) ≡ conclude c a
  unfolding on_receive_packet
  react (ok a) e = rw (e, on_receive_packet)
  react (throws x) e = rw (e, on_receive_packet)
  react fault e = rw (e, on_receive_packet)

  react_version :
      (packet : PacketBase) (rest : BitStream) (h : HandShake) (last : BitStream)
      → PacketBase.unpack_data blank (received bytes) ≡ ok (packet, rest)
      → packet.packet_type ≡ packet_handshake
      → HandShake.unpack_data (new_handshake old none) rest ≡ ok (h, last)
      → on_receive_packet old c (received bytes) ≡ done (enter_stage (some (printed_version h)) c)
  unfolding read_version
  react_version packet rest h last head ours read =
      let is_ours : (packet.packet_type == packet_handshake) ≡ true = ground (arith, ours) in
      react (ok (some (printed_version h))) (rw (head, is_ours, read))

  -- A packet of the server, whatever its bytes below 4 GiB, is one of three: it is too short for its
  -- header or for the hand shake that it claims to be, and `std::out_of_range` is thrown with the
  -- client as it was; it is of another type, and the client stays as it was; or it is a hand shake of
  -- 15 bytes or more, whose version is printed and which takes the client to stage 1.
  pub on_receive_packet-ClientResponse :
      length bytes < u32_mod → ClientResponse old c bytes (on_receive_packet old c (received bytes))
  unfolding read_version
  on_receive_packet-ClientResponse small = elim (reception old bytes small) [
    | no_header short e ↦ too_short (omega (arith, short)) (react (throws out_of_range) (rw e))
    | other_type packet rest long e other ↦
        let differs : (packet.packet_type == packet_handshake) ≡ false = ground (arith, other) in
        ignored packet rest long e other (react (ok none) (rw (e, differs)))
    | no_version packet rest short e ours f ↦
        let is_ours : (packet.packet_type == packet_handshake) ≡ true = ground (arith, ours) in
        too_short short (react (throws out_of_range) (rw (e, is_ours, f)))
    | version packet rest h last long e ours f ↦
        entered packet rest h last long e ours f (react_version packet rest h last e ours f)
  ]

abbrev pub greeting : HandShake → HandShake
greeting old = client_version (new_handshake old none)

abbrev pub server_greeting : HandShake → HandShake
server_greeting old = own_version (new_handshake old none)

abbrev pub version_1234 : Printed
version_1234 = record { major = 1; minor = 2; revision = 3; build = 4 }

greeting-IsVersion : (old : HandShake) → IsVersion (greeting old)
unfolding client_version
greeting-IsVersion old = record {
  major = ground arith;
  minor = ground arith;
  revision = ground arith;
  build = ground arith;
}

server_greeting-IsVersion : (old : HandShake) → IsVersion (server_greeting old)
unfolding own_version
server_greeting-IsVersion old = record {
  major = ground arith;
  minor = ground arith;
  revision = ground arith;
  build = ground arith;
}

-- A client with a peer connects to a server which knows it, both with packet ids that are
-- U32s: the client sends one packet, its hand shake, the server answers it with one packet,
-- its own, and at that the client is in stage 1. Each side prints the other's version,
-- 1.2.3.4, and counts its packet id up.
pub greeting_session :
    (old : HandShake) (c : Client ClientMembers) (s : Server Members) (peer sender client_peer : ℕ)
    → c.internal_peer ≡ some peer
    → s.client_peer sender ≡ some client_peer
    → c.last_packet_id < u32_mod
    → s.last_packet_id < u32_mod
    → let wire_c = wire (greeting old) c.last_packet_id in
      let wire_s = wire (server_greeting old) s.last_packet_id in
      (on_connected old c
        ≡ done (record c {
          outbox =
              c.outbox
              ++ record { peer = peer; payload = map init wire_c; flag = packet_flag true } ∷ [];
          last_packet_id = next_id c.last_packet_id;
        }))
      × (ServerSingleton.on_receive_packet old s (received wire_c) sender
          ≡ done (
              remember none (
                deliver
                  (some (
                    version_1234,
                    record {
                      peer = client_peer;
                      payload = map init wire_s;
                      flag = packet_flag true;
                    },
                    next_id s.last_packet_id,
                  ))
                  s)))
      × (on_receive_packet old c (received wire_s) ≡ done (enter_stage (some version_1234) c))
unfolding on_connected client_version own_version reply send_packet new_handshake
    PacketBase.new_packet
greeting_session old c s peer sender client_peer has_peer known small_c small_s =
    let (sends, answers) =
      handshake_exchange old (greeting old) s peer c.last_packet_id sender client_peer true
        (greeting-IsVersion old) refl small_c known in
    let r =
      wire-ReadsBack old (server_greeting old) s.last_packet_id (server_greeting-IsVersion old) refl
        small_s in
    (
      simp (send_packet, has_peer, sends),
      answers,
      react_version old c (wire (server_greeting old) s.last_packet_id) r.packet r.rest _ r.last
          r.header_returned r.ours r.version_returned,
    )
