-- ===== src/Examples/Peers.antt =====
-- The server, the client and the hand shake at concrete inputs.
use kge.Prelude.{ℕ, ◌≡◌, refl, Bool, true, false, Option, none, some, List, [], ◌∷◌, arith, done}
use kge.Prelude.Sets.{contains}
use kge.Support.BitStream.Received.{received}
use kge.Network.PacketBase.{new_packet}
use kge.Network.ServerBase.{
  Server, Event, connect, receive, update, update_at, global_send, new_server, fresh_server,
}
use kge.Network.ServerBase.Sessions.{Sessions, AllLegal, session, owner}
use kge.Network.ServerBase.Invariant.{Tracks, Served}
use kge.Network.ServerBase.Broadcast.{Reaches}
use kge.Network.OutgoingClientBase.{Client, ClientEvent, disconnected, new_client}
use kge.Network.OutgoingClientBase
use kge.Network.OutgoingClientBase.Connection.{connect_retry, failed}
use kge.Game.HandShake.{HandShake, packet_handshake}
use kge.Game.HandShake
use kge.Game.HandShake.Laws.{IsVersion}
use kge.Game.ServerSingleton.{Members, new_members, callbacks, on_receive_packet}
use kge.Game.ServerSingleton.Receive.{Response, on_receive_packet-Response}
use kge.Game.ServerSingleton.Clients.{started, server_run, global_send-HandShake}
use kge.Game.OutgoingClientSingleton.{ClientMembers, on_connected, enter_stage}
use kge.Game.OutgoingClientSingleton
use kge.Game.OutgoingClientSingleton.Greeting.{ClientResponse, on_receive_packet-ClientResponse}

abbrev old : HandShake
old = record {
  base = new_packet packet_handshake none;
  version_major = 0;
  version_minor = 0;
  version_revision = 0;
  version_build = 0;
}

abbrev version_2011 : HandShake
version_2011 = record old {
  version_major = 2;
  version_minor = 0;
  version_revision = 1;
  version_build = 1000;
}

abbrev host_address : List ℕ
host_address = 48 ∷ []

abbrev fresh : Server Members
fresh = fresh_server host_address 11595 (some 1) new_members

-- Client 9 at peer 5.
abbrev serving : Server Members
serving = record {
  is_running = true;
  internal_host = some 1;
  listen_port = 11595;
  listen_address = host_address;
  connected_clients = 9 ∷ [];
  peer_data = update_at (λ p. none) 5 (some 9);
  client_peer = update_at (λ c. none) 9 (some 5);
  last_packet_id = 0;
  outbox = [];
  destroyed_packets = 0;
  game = new_members;
}

abbrev short_bytes : List ℕ
short_bytes = 1 ∷ 2 ∷ 3 ∷ []

on_receive_packet-Response_example :
    Response old serving 9 5 short_bytes (on_receive_packet old serving (received short_bytes) 9)
on_receive_packet-Response_example =
    on_receive_packet-Response old serving 9 5 short_bytes refl (omega arith)

version_2011-IsVersion : IsVersion version_2011
version_2011-IsVersion = record {
  major = omega arith;
  minor = omega arith;
  revision = omega arith;
  build = omega arith;
}

version_2011-packet_type : version_2011.base.packet_type ≡ packet_handshake
unfolding new_packet
version_2011-packet_type = refl

abbrev arrivals : List Event
arrivals = connect 5 9 ∷ receive 5 short_bytes ∷ []

arrivals-AllLegal : AllLegal [] arrivals
unfolding session owner
arrivals-AllLegal = ((refl, refl), ((9, refl, omega arith), tt))

server_run_example :
    (new_server host_address 11595 (some 1) new_members ≡ done (started host_address 11595 1))
    × Served [] arrivals (update (callbacks old) (started host_address 11595 1) arrivals)
server_run_example = server_run host_address 11595 1 old arrivals arrivals-AllLegal

abbrev one_session : Sessions
one_session = (5, 9) ∷ []

serving-Tracks : Tracks one_session serving
unfolding session owner contains
serving-Tracks = record {
  apart = (refl, refl, tt);
  ordered = tt;
  counted = refl;
  members = λ c. ground arith;
  allocated = λ c. refl;
  pointed = λ p c h. ground (arith, h);
}

global_send-HandShake_example :
    Reaches serving (9 ∷ []) (global_send (HandShake.pack_data version_2011) true serving)
global_send-HandShake_example =
    global_send-HandShake one_session serving version_2011 true serving-Tracks

abbrev one_packet : List Event
one_packet = receive 5 short_bytes ∷ []

one_packet-AllLegal : AllLegal one_session one_packet
unfolding session
one_packet-AllLegal = ((9, refl, omega arith), tt)

abbrev client : Client ClientMembers
client = record {
  is_connected = true;
  port = 11595;
  current_stage = 0;
  internal_peer = some 5;
  internal_host = some 2;
  last_packet_id = 3;
  outbox = [];
  calls = [];
  game = record { printed = [] };
}

on_receive_packet-ClientResponse_example :
    ClientResponse old client short_bytes
      (OutgoingClientSingleton.on_receive_packet old client (received short_bytes))
on_receive_packet-ClientResponse_example =
    on_receive_packet-ClientResponse old client short_bytes (omega arith)

abbrev new_one : Client ClientMembers
new_one = record client { internal_peer = none; internal_host = none; is_connected = false }

connect_retry_example :
    (OutgoingClientBase.connect
        (OutgoingClientSingleton.callbacks old)
        new_one
        true
        (some 2)
        (some 5)
        false
        11595
      ≡ done (failed new_one 2 5))
    × ((valid_address : Bool) (host peer : Option ℕ) (came_up : Bool) (later_port : ℕ)
        → OutgoingClientBase.connect
            (OutgoingClientSingleton.callbacks old)
            (failed new_one 2 5)
            valid_address
            host
            peer
            came_up
            later_port
          ≡ done (failed new_one 2 5))
connect_retry_example =
    connect_retry (OutgoingClientSingleton.callbacks old) new_one 2 5 11595 refl refl λ d. refl
