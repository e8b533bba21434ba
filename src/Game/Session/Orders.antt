-- ===== src/Game/Session/Orders.antt =====
-- Every order in which the session's actions can happen.
use mathlib.Core.Option
use mathlib.Core.Option.{none-ne-some}
use kge.Prelude.{
  ℕ, suc, ◌+◌, ◌<◌, ◌≡◌, refl, sym, ap, ◌∙◌, ◌==◌, true, false, none, some, List, [], ◌∷◌, ◌++◌,
  map, arith, length, get_elem?, Outcome, done, Option-cases, inl, inr,
}
use kge.Memory.{init}
use kge.Memory.Laws.{values-init}
use kge.Support.BitStream.{u32_mod}
use kge.Network.IncomingClientBase.{Sent, PacketFlag, packet_flag}
use kge.Network.ServerBase.{Server, receive}
use kge.Network.ServerBase
use kge.Network.ServerBase.Events.{joining, update-connect, update-receive}
use kge.Network.OutgoingClientBase.{Client}
use kge.Network.OutgoingClientBase
use kge.Network.OutgoingClientBase.Connection.{connect_up}
use kge.Network.OutgoingClientBase.Connection
use kge.Game.HandShake.{HandShake}
use kge.Game.HandShake.Laws.{wire}
use kge.Game.ServerSingleton.{Members, remember, deliver}
use kge.Game.ServerSingleton
use kge.Game.ServerSingleton.Receive.{next_id, on_client_connected-known}
use kge.Game.OutgoingClientSingleton.{ClientMembers, enter_stage}
use kge.Game.OutgoingClientSingleton
use kge.Game.OutgoingClientSingleton.Greeting.{
  greeting_session, greeting, server_greeting, version_1234,
}
use kge.Game.OutgoingClientSingleton.Playing.{
  greeted_client, connect-greeted_client, hand_shake_to, calling,
}
use kge.Game.Session.Stages.{
  Stage, idle, called, seated, joined, served, greeted, after, path, remaining, ending, path-append,
  path-length, after_greeted, path-ending, length-ending,
}
use kge.Game.Session.{Session, Action, dial, admit, serve, answer, Ends, carried, perform, run}

abbrev pub from_client : HandShake → Ends → ℕ → Sent
from_client old ends id = hand_shake_to old ends.server_peer id

abbrev pub from_server : HandShake → Ends → ℕ → Sent
from_server old ends id = record {
  peer = ends.client_peer;
  payload = map init (wire (server_greeting old) id);
  flag = packet_flag true;
}

-- Before they know each other.
pub record Apart (c : Client ClientMembers) (s : Server Members) : Type 0 where
  pub no_host : c.internal_host ≡ none
  pub no_peer : c.internal_peer ≡ none
  pub running : s.is_running ≡ true
  pub client_id : c.last_packet_id < u32_mod
  pub server_id : s.last_packet_id < u32_mod

module _ (old : HandShake) (ends : Ends) (c : Client ClientMembers) (s : Server Members) where
  abbrev pub dialled_client : Client ClientMembers
  dialled_client = greeted_client old c ends.host ends.server_peer ends.port

  abbrev pub answering : Server Members
  answering = remember none (
      deliver (some (version_1234, from_server old ends s.last_packet_id, next_id s.last_packet_id))
        (joining s ends.client_peer ends.address))

  abbrev pub start : Session
  start = record {
    client = c;
    server = s;
    dialled = false;
    admitted = false;
    to_server = length c.outbox;
    to_client = length s.outbox;
  }

  abbrev pub joined_session : Session
  joined_session = record start {
    client = dialled_client;
    dialled = true;
    server = joining s ends.client_peer ends.address;
    admitted = true;
  }

  abbrev pub served_session : Session
  served_session = record joined_session {
    server = record answering { destroyed_packets = answering.destroyed_packets + 1 };
    to_server = suc (length c.outbox);
  }

  -- The session at each stage.
  abbrev pub at : Stage → Session
  at idle = start
  at called = record start { client = dialled_client; dialled = true }
  at seated = record start { server = joining s ends.client_peer ends.address; admitted = true }
  at joined = joined_session
  at served = served_session
  at greeted = record served_session {
    client = enter_stage (some version_1234) dialled_client;
    to_client = suc (length s.outbox);
  }

last : {A : Type 0} (xs : List A) (x : A) → get_elem? (xs ++ x ∷ []) (length xs) ≡ some x
last [] x = refl
last (y ∷ xs) x = last xs x

past : {A : Type 0} (xs : List A) → get_elem? xs (length xs) ≡ none
past [] = refl
past (x ∷ xs) = past xs

past_last : {A : Type 0} (xs : List A) (x : A) → get_elem? (xs ++ x ∷ []) (suc (length xs)) ≡ none
past_last [] x = refl
past_last (y ∷ xs) x = past_last xs x

==-refl : (n : ℕ) → (n == n) ≡ true
==-refl n = ground arith

pub carried_init :
    (peer : ℕ) (bytes : List ℕ) (flag : PacketFlag)
    → carried peer (some (record { peer = peer; payload = map init bytes; flag = flag }))
      ≡ some bytes
unfolding carried
carried_init peer bytes flag = rw (==-refl peer, values-init bytes)

module _ (old : HandShake) (ends : Ends) (c : Client ClientMembers) (s : Server Members)
    (apart : Apart c s) where
  joined_knows :
      (joining s ends.client_peer ends.address).client_peer ends.address ≡ some ends.client_peer
  joined_knows = let e = ==-refl ends.address in rw e

  joined_points :
      (joining s ends.client_peer ends.address).peer_data ends.client_peer ≡ some ends.address
  joined_points = let e = ==-refl ends.client_peer in rw e

  connects :
      OutgoingClientBase.connect
        (OutgoingClientSingleton.callbacks old)
        c
        true
        (some ends.host)
        (some ends.server_peer)
        true
        ends.port
      ≡ done (dialled_client old ends c s)
  connects =
      connect-greeted_client old c ends.host ends.server_peer ends.port apart.no_host apart.no_peer

  pub admits :
      ServerBase.update
        (ServerSingleton.callbacks old)
        s
        (ServerBase.connect ends.client_peer ends.address ∷ [])
      ≡ done (joining s ends.client_peer ends.address)
  admits =
      update-connect (ServerSingleton.callbacks old) s _ apart.running ends.client_peer ends.address
        (on_client_connected-known _ ends.address ends.client_peer joined_knows)

  pub serves :
      ServerBase.update
        (ServerSingleton.callbacks old)
        (joining s ends.client_peer ends.address)
        (receive ends.client_peer (wire (greeting old) c.last_packet_id) ∷ [])
      ≡ done (served_session old ends c s).server
  serves =
      let (_, serves, _) =
        greeting_session old (calling c ends.host ends.server_peer)
          (joining s ends.client_peer ends.address) ends.server_peer ends.address ends.client_peer
          refl joined_knows apart.client_id apart.server_id in
      update-receive (ServerSingleton.callbacks old) (joining s ends.client_peer ends.address) _
        apart.running ends.client_peer ends.address _ joined_points serves

  pub answers :
      OutgoingClientBase.update
        (OutgoingClientSingleton.callbacks old)
        (dialled_client old ends c s)
        (OutgoingClientBase.receive (wire (server_greeting old) s.last_packet_id) ∷ [])
      ≡ done (enter_stage (some version_1234) (dialled_client old ends c s))
  answers =
      let (_, _, answers) =
        greeting_session old (dialled_client old ends c s) (joining s ends.client_peer ends.address)
          ends.server_peer ends.address ends.client_peer refl joined_knows (omega arith)
          apart.server_id in
      Connection.update-receive (OutgoingClientSingleton.callbacks old)
        (dialled_client old ends c s) _ ends.host _ refl answers

  perform-after :
      (p : Stage) (a : Action)
      → perform old ends (at old ends c s p) a
        ≡ Option.map (λ q. done (at old ends c s q)) (after p a)
  unfolding perform after carried
  perform-after idle dial = rw connects
  perform-after idle admit = rw admits
  perform-after idle serve = refl
  perform-after idle answer = refl
  perform-after called dial = refl
  perform-after called admit = rw admits
  perform-after called serve = refl
  perform-after called answer = rw (past s.outbox, carried)
  perform-after seated dial = rw connects
  perform-after seated admit = refl
  perform-after seated serve = rw (past c.outbox, carried)
  perform-after seated answer = refl
  perform-after joined dial = refl
  perform-after joined admit = refl
  perform-after joined serve = rw (
    last c.outbox (from_client old ends c.last_packet_id),
    carried_init ends.server_peer (wire (greeting old) c.last_packet_id) (packet_flag true),
    serves,
  )
  perform-after joined answer = rw (past s.outbox, carried)
  perform-after served dial = refl
  perform-after served admit = refl
  perform-after served serve =
      rw (past_last c.outbox (from_client old ends c.last_packet_id), carried)
  perform-after served answer = rw (
    last s.outbox (from_server old ends s.last_packet_id),
    carried_init ends.client_peer (wire (server_greeting old) s.last_packet_id) (packet_flag true),
    answers,
  )
  perform-after greeted dial = refl
  perform-after greeted admit = refl
  perform-after greeted serve =
      rw (past_last c.outbox (from_client old ends c.last_packet_id), carried)
  perform-after greeted answer =
      rw (past_last s.outbox (from_server old ends s.last_packet_id), carried)

  -- Whatever sequence of the four actions is tried, from a client without a host and a peer and a server
  -- that runs, whose packet ids are U32s: the session does what the six stages say. An
  -- action that a stage does not take cannot happen, and no action that can raises an exception or is a
  -- fault, which is an access out of bounds, of an unwritten byte or through NULL.
  pub run-path :
      (p : Stage) (actions : List Action)
      → run old ends (at old ends c s p) actions
        ≡ Option.map (λ q. done (at old ends c s q)) (path p actions)
  unfolding run path
  run-path p [] = refl
  run-path p (a ∷ actions) = elim (Option-cases (after p a)) [
    | inl e ↦ rw (run, perform-after p a, path, e)
    | inr (q, e) ↦ rw (run, perform-after p a, path, e) (run-path q actions)
  ]

module _ (old : HandShake) (ends : Ends) (c : Client ClientMembers) (s : Server Members)
    (apart : Apart c s) where
  -- For a client without host and peer and a server that runs, with packet ids that are U32s: any
  -- sequence of actions that can happen has at most four, raises no exception, and can go on, by
  -- actions that make it four, to the one session in which the client is connected and in stage 1,
  -- each end printed the other's version 1.2.3.4, and the server remembers no sender. In that session
  -- no action can happen any more.
  pub session_completes :
      (actions : List Action) (r : Outcome Session)
      → run old ends (start old ends c s) actions ≡ some r
      → ((rest : List Action) × (length actions + length rest ≡ 4)
          × (run old ends (start old ends c s) (actions ++ rest)
              ≡ some (done (at old ends c s greeted))))
        × ((a : Action) → perform old ends (at old ends c s greeted) a ≡ none)
  unfolding remaining
  session_completes actions r h = elim (Option-cases (path idle actions)) [
    | inl e ↦ absurd (
        none-ne-some r (
          ap (Option.map (λ p. done (at old ends c s p))) (sym e)
          ∙ sym (run-path old ends c s apart idle actions)
          ∙ h))
    | inr (q, e) ↦ (
      (
        ending q,
        omega (arith, path-length idle q actions e, length-ending q),
        run-path old ends c s apart idle (actions ++ ending q)
            ∙ ap (Option.map (λ p. done (at old ends c s p)))
                (path-append idle q actions (ending q) e ∙ path-ending q),
      ),
      λ a.
          perform-after old ends c s apart greeted a
          ∙ ap (Option.map (λ p. done (at old ends c s p))) (after_greeted a),
    )
  ]
