-- ===== src/Game/ServerSingleton/Receive.antt =====
-- What the server does with any payload, and with the hand shake of a client.
use kge.Prelude.{
  ℕ, ◌+◌, ◌%◌, ◌≤◌, ◌<◌, ◌≡◌, ◌≢◌, ◌==◌, Bool, true, false, Option, none, some, List, map, arith,
  length, Outcome, done, raised, undefined, Result, ok, throws, fault, out_of_range,
}
use kge.Memory.{init}
use kge.Support.BitStream.{BitStream, u32_mod}
use kge.Support.BitStream.Received.{received}
use kge.Support.BitStream.Output.{empty_stream, empty_stream-Holds, payload_lem}
use kge.Network.PacketBase.{PacketBase}
use kge.Network.PacketBase
use kge.Network.IncomingClientBase.{Sent, send, packet_flag}
use kge.Network.ServerBase.{Server}
use kge.Game.HandShake.{HandShake, new_handshake, packet_handshake}
use kge.Game.HandShake
use kge.Game.HandShake.Laws.{IsVersion, wire, pack_data-PacksHandShake}
use kge.Game.HandShake.Reception.{
  no_header, other_type, no_version, version, reception, wire-ReadsBack, blank,
}
use kge.Game.ServerSingleton.{
  Members, Printed, printed_version, own_version, answer, answer_handshake, on_receive_packet,
  on_client_connected, get_port, remember, deliver,
}

abbrev pub next_id : ℕ → ℕ
next_id last_packet_id = (last_packet_id + 1) % u32_mod

-- `send` hands the bytes of the hand shake to ENet, whole, and counts its id up.
pub send-wire :
    (peer : ℕ) (h : HandShake) (is_reliable : Bool) (id : ℕ)
    → send peer (HandShake.pack_data h) is_reliable id
      ≡ ok (
        record { peer = peer; payload = map init (wire h id); flag = packet_flag is_reliable },
        record h { base = record (h.base) { id = id } },
        next_id id,
      )
unfolding send
send-wire peer h is_reliable id =
    let p = pack_data-PacksHandShake h id empty_stream empty_stream-Holds in
    rw (p.returned, payload_lem p.stream (wire h id) p.holds)

-- The packet that answers a hand shake.
unfoldable pub reply : HandShake → ℕ → ℕ → Sent
reply old peer last_packet_id = record {
  peer = peer;
  payload = map init (wire (own_version (new_handshake old none)) last_packet_id);
  flag = packet_flag true;
}

-- The three things that can come of a packet from a client that is connected.
pub data Response (old : HandShake) (s : Server Members) (sender peer : ℕ) (bytes : List ℕ)
    (r : Outcome (Server Members)) : Type 0 where
  too_short :
      length bytes < 15
      → r ≡ raised out_of_range (remember (some sender) s)
      → Response old s sender peer bytes r
  ignored :
      (packet : PacketBase) (rest : BitStream)
      → 8 ≤ length bytes
      → PacketBase.unpack_data blank (received bytes) ≡ ok (packet, rest)
      → packet.packet_type ≢ packet_handshake
      → r ≡ done (remember none s)
      → Response old s sender peer bytes r
  answered :
      (packet : PacketBase) (rest : BitStream) (h : HandShake) (last : BitStream)
      → 15 ≤ length bytes
      → PacketBase.unpack_data blank (received bytes) ≡ ok (packet, rest)
      → packet.packet_type ≡ packet_handshake
      → HandShake.unpack_data (new_handshake old none) rest ≡ ok (h, last)
      → r
        ≡ done (
            remember none (
              deliver
                (some
                  (printed_version h, reply old peer s.last_packet_id, next_id s.last_packet_id))
                s))
      → Response old s sender peer bytes r

abbrev conclude :
    Server Members → ℕ → Result (Option (Printed × Sent × ℕ)) → Outcome (Server Members)
conclude s sender (ok a) = done (remember none (deliver a s))
conclude s sender (throws e) = raised e (remember (some sender) s)
conclude s sender fault = undefined

module _ (old : HandShake) (s : Server Members) (sender peer : ℕ) (bytes : List ℕ)
    (known : s.client_peer sender ≡ some peer) where
  respond :
      (a : Result (Option (Printed × Sent × ℕ)))
      → answer old (some peer) s.last_packet_id (received bytes) ≡ a
      → on_receive_packet old s (received bytes) sender ≡ conclude s sender a
  unfolding on_receive_packet
  respond (ok a) e = rw (known, e, on_receive_packet)
  respond (throws x) e = rw (known, e, on_receive_packet)
  respond fault e = rw (known, e, on_receive_packet)

  respond_version :
      (packet : PacketBase) (rest : BitStream) (h : HandShake) (last : BitStream)
      → PacketBase.unpack_data blank (received bytes) ≡ ok (packet, rest)
      → packet.packet_type ≡ packet_handshake
      → HandShake.unpack_data (new_handshake old none) rest ≡ ok (h, last)
      → on_receive_packet old s (received bytes) sender
        ≡ done (
            remember none (
              deliver
                (some
                  (printed_version h, reply old peer s.last_packet_id, next_id s.last_packet_id))
                s))
  unfolding answer answer_handshake reply
  respond_version packet rest h last head ours read =
      let is_ours : (packet.packet_type == packet_handshake) ≡ true = ground (arith, ours) in
      let own = own_version (new_handshake old none) in
      respond
        (ok (some (printed_version h, reply old peer s.last_packet_id, next_id s.last_packet_id)))
        (rw (head, is_ours, read, send-wire peer own true s.last_packet_id))

  -- A packet of a connected client, whatever its bytes, is one of three: it is too short for its
  -- header or for the hand shake that it claims to be (below 15 bytes), and `std::out_of_range` is
  -- thrown with the sender remembered; it is of another type, and is ignored; or it is a hand shake of 15
  -- bytes or more, whose version is printed, and the server's own is sent to the peer. No payload
  -- below 4 GiB leads to a fault, which is an access out of bounds, of an unwritten byte or through NULL,
  -- or to the `std::runtime_error` of `HandShake::unpackData`.
  pub on_receive_packet-Response :
      length bytes < u32_mod
      → Response old s sender peer bytes (on_receive_packet old s (received bytes) sender)
  unfolding answer answer_handshake
  on_receive_packet-Response small = elim (reception old bytes small) [
    | no_header short e ↦ too_short (omega (arith, short)) (respond (throws out_of_range) (rw e))
    | other_type packet rest long e other ↦
        let differs : (packet.packet_type == packet_handshake) ≡ false = ground (arith, other) in
        ignored packet rest long e other (respond (ok none) (rw (e, differs)))
    | no_version packet rest short e ours f ↦
        let is_ours : (packet.packet_type == packet_handshake) ≡ true = ground (arith, ours) in
        too_short short (respond (throws out_of_range) (rw (e, is_ours, f)))
    | version packet rest h last long e ours f ↦
        answered packet rest h last long e ours f (respond_version packet rest h last e ours f)
  ]

pub on_client_connected-known :
    (s : Server Members) (client peer : ℕ)
    → s.client_peer client ≡ some peer
    → on_client_connected s client ≡ done s
unfolding on_client_connected get_port
on_client_connected-known s client peer known = rw (get_port, known)

-- A hand shake whose version and packet id fit in their members goes from the bytes that
-- `send` hands to ENet to the print of a server that knows the sender, and is answered there
-- with the server's own version; the server counts its packet id up and remembers no sender.
pub handshake_exchange :
    (old h : HandShake) (s : Server Members) (own_peer id sender peer : ℕ) (is_reliable : Bool)
    → IsVersion h
    → h.base.packet_type ≡ packet_handshake
    → id < u32_mod
    → s.client_peer sender ≡ some peer
    → (send own_peer (HandShake.pack_data h) is_reliable id
        ≡ ok (
          record {
            peer = own_peer;
            payload = map init (wire h id);
            flag = packet_flag is_reliable;
          },
          record h { base = record (h.base) { id = id } },
          next_id id,
        ))
      × (on_receive_packet old s (received (wire h id)) sender
          ≡ done (
              remember none (
                deliver
                  (some
                    (printed_version h, reply old peer s.last_packet_id, next_id s.last_packet_id))
                  s)))
handshake_exchange old h s own_peer id sender peer is_reliable v ours small known =
    let r = wire-ReadsBack old h id v ours small in
    (
      send-wire own_peer h is_reliable id,
      respond_version old s sender peer (wire h id) known r.packet r.rest _ r.last r.header_returned
          r.ours r.version_returned,
    )
