-- ===== src/Game/OutgoingClientSingleton/Playing.antt =====
-- A client that has greeted its server, over the updates that follow.
use kge.Prelude.{
  ℕ, ◌<◌, ◌≡◌, refl, true, false, none, some, List, [], ◌∷◌, ◌++◌, map, length, All, append_assoc,
  done,
}
use kge.Memory.{init}
use kge.Support.BitStream.{u32_mod}
use kge.Support.BitStream.Received.{received}
use kge.Network.IncomingClientBase.{Sent, packet_flag}
use kge.Network.OutgoingClientBase.{
  Client, ClientEvent, nothing, connected, disconnected, receive, connect, update, handle_event,
  send_packet,
}
use kge.Network.OutgoingClientBase.Connection.{connect_up}
use kge.Network.OutgoingClientBase.Updates.{Safe, update-Safe}
use kge.Game.HandShake.{HandShake}
use kge.Game.HandShake.Laws.{wire}
use kge.Game.ServerSingleton.{Printed, printed_version}
use kge.Game.ServerSingleton.Receive.{next_id, send-wire}
use kge.Game.OutgoingClientSingleton.{
  ClientMembers, callbacks, enter_stage, on_receive_packet, on_connected, client_version,
}
use kge.Game.OutgoingClientSingleton.Greeting.{
  too_short, ignored, entered, on_receive_packet-ClientResponse, greeting,
}

abbrev pub hand_shake_to : HandShake → ℕ → ℕ → Sent
hand_shake_to old peer id = record {
  peer = peer;
  payload = map init (wire (greeting old) id);
  flag = packet_flag true;
}

-- The client while `connect` runs.
abbrev pub calling : Client ClientMembers → ℕ → ℕ → Client ClientMembers
calling c host peer = record c {
  internal_host = some host;
  internal_peer = some peer;
  current_stage = 0;
}

-- What a connection that came up leaves: the client has sent its hand shake and nothing else.
abbrev pub greeted_client : HandShake → Client ClientMembers → ℕ → ℕ → ℕ → Client ClientMembers
greeted_client old c host peer port = record c {
  is_connected = true;
  port = port;
  current_stage = 0;
  internal_host = some host;
  internal_peer = some peer;
  last_packet_id = next_id c.last_packet_id;
  outbox = c.outbox ++ hand_shake_to old peer c.last_packet_id ∷ [];
}

pub connect-greeted_client :
    (old : HandShake) (c : Client ClientMembers) (host peer port : ℕ)
    → c.internal_host ≡ none
    → c.internal_peer ≡ none
    → connect (callbacks old) c true (some host) (some peer) true port
      ≡ done (greeted_client old c host peer port)
unfolding on_connected send_packet client_version
connect-greeted_client old c host peer port no_host no_peer =
    let greets = send-wire peer (greeting old) true c.last_packet_id in
    let sent : Client ClientMembers = record (calling c host peer) {
      last_packet_id = next_id c.last_packet_id;
      outbox = c.outbox ++ hand_shake_to old peer c.last_packet_id ∷ [];
    } in
    connect_up (callbacks old) c sent host peer port no_host no_peer
      (rw (on_connected, send_packet, greets) refl)

-- What the client has printed since, and its stage.
pub data Progress (d c : Client ClientMembers) : Type 0 where
  waiting : c.game.printed ≡ d.game.printed → c.current_stage ≡ d.current_stage → Progress d c
  playing :
      (earlier : List Printed) (last : Printed)
      → c.game.printed ≡ d.game.printed ++ (earlier ++ last ∷ [])
      → c.current_stage ≡ 1
      → Progress d c

-- The client `c` has come of `d` without a packet sent, a call of ENet made, or host and peer let go.
pub record Follows (d c : Client ClientMembers) : Type 0 where
  pub same_host : c.internal_host ≡ d.internal_host
  pub same_peer : c.internal_peer ≡ d.internal_peer
  pub sent_nothing : c.outbox ≡ d.outbox
  pub called_nothing : c.calls ≡ d.calls
  pub progress : Progress d c

abbrev pub IsSmall : ClientEvent → Type 0
IsSmall (receive bytes) = length bytes < u32_mod
IsSmall _ = Unit

offline-Progress :
    (d c : Client ClientMembers) → Progress d c → Progress d (record c { is_connected = false })
offline-Progress d c (waiting printed stage) = waiting printed stage
offline-Progress d c (playing earlier last printed stage) = playing earlier last printed stage

-- What `disconnect` does to a client.
pub offline-Follows :
    (d c : Client ClientMembers) → Follows d c → Follows d (record c { is_connected = false })
offline-Follows d c f = record {
  same_host = f.same_host;
  same_peer = f.same_peer;
  sent_nothing = f.sent_nothing;
  called_nothing = f.called_nothing;
  progress = offline-Progress d c f.progress;
}

enter_stage-Progress :
    (d c : Client ClientMembers) (v : Printed) → Progress d c → Progress d (enter_stage (some v) c)
enter_stage-Progress d c v (waiting printed stage) = playing [] v (rw printed refl) refl
enter_stage-Progress d c v (playing earlier last printed stage) =
    playing (earlier ++ last ∷ []) v
      (rw (printed, append_assoc d.game.printed (earlier ++ last ∷ []) (v ∷ [])) refl) refl

enter_stage-Follows :
    (d c : Client ClientMembers) (v : Printed) → Follows d c → Follows d (enter_stage (some v) c)
enter_stage-Follows d c v f = record {
  same_host = f.same_host;
  same_peer = f.same_peer;
  sent_nothing = f.sent_nothing;
  called_nothing = f.called_nothing;
  progress = enter_stage-Progress d c v f.progress;
}

module _ (old : HandShake) (d : Client ClientMembers) where
  response-Follows :
      (c : Client ClientMembers) (bytes : List ℕ)
      → Follows d c
      → length bytes < u32_mod
      → Safe (Follows d) (on_receive_packet old c (received bytes))
  response-Follows c bytes f small = elim (on_receive_packet-ClientResponse old c bytes small) [
    | too_short short e ↦ rw e f
    | ignored packet rest long head other e ↦ rw e f
    | entered packet rest h last long head ours read e ↦
        rw e (enter_stage-Follows d c (printed_version h) f)
  ]

  handle_event-Follows :
      (c : Client ClientMembers) (e : ClientEvent)
      → Follows d c
      → IsSmall e
      → Safe (Follows d) (handle_event (callbacks old) c e)
  unfolding handle_event
  handle_event-Follows c nothing f small = f
  handle_event-Follows c connected f small = f
  handle_event-Follows c disconnected f small = f
  handle_event-Follows c (receive bytes) f small = response-Follows c bytes f small

  -- Updates.
  pub update-Follows :
      (c : Client ClientMembers) (host : ℕ) (events : List ClientEvent)
      → c.internal_host ≡ some host
      → Follows d c
      → All IsSmall events
      → Safe (Follows d) (update (callbacks old) c events)
  update-Follows = update-Safe (callbacks old) (Follows d) IsSmall handle_event-Follows
