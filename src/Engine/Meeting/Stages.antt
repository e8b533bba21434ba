-- ===== src/Engine/Meeting/Stages.antt =====
-- How far the two engines come.
use kge.Prelude.{
  ℕ, zero, suc, ◌+◌, ◌≤◌, ◌≡◌, refl, ap, ◌∙◌, some, List, [], ◌∷◌, ◌++◌, map, take, drop,
  drop-append, drop_all, take_all, true, arith, length, done,
}
use kge.Memory.{init}
use kge.Network.IncomingClientBase.{Sent, PacketFlag, packet_flag}
use kge.Network.ServerBase.{Server, Event, connect, receive}
use kge.Network.ServerBase
use kge.Network.ServerBase.Events.{joining, update_then}
use kge.Network.ServerBase.Events
use kge.Network.OutgoingClientBase.{Client, ClientEvent}
use kge.Network.OutgoingClientBase
use kge.Network.OutgoingClientBase.Updates
use kge.Game.HandShake.{HandShake}
use kge.Game.HandShake.Laws.{wire}
use kge.Game.ServerSingleton.{Members}
use kge.Game.ServerSingleton
use kge.Game.OutgoingClientSingleton.{ClientMembers, enter_stage}
use kge.Game.OutgoingClientSingleton
use kge.Game.OutgoingClientSingleton.Greeting.{greeting, server_greeting, version_1234}
use kge.Game.Session.{Ends}
use kge.Game.Session.Orders.{
  Apart, dialled_client, served_session, admits, serves, answers, carried_init, from_client,
  from_server,
}
use kge.Engine.Core.{Core}
use kge.Engine.Core.Undisturbed.{RunsClient, RunsServer}
use kge.Engine.Meeting.{Meeting, Turn, client_turn, server_turn, arrived, for_server, for_client}

-- Nothing was taken, the server took the connection, and the greeting, and the client took the answer.
pub data Reached : Type 0 where
  called joined served greeted : Reached

abbrev pub to_server : Reached → ℕ
to_server called = 0
to_server joined = 1
to_server _ = 2

abbrev pub to_client : Reached → ℕ
to_client greeted = 1
to_client _ = 0

-- What a frame comes to that takes so many events at most.
unfoldable pub after : Reached → Turn → Reached
after called (server_turn from to zero) = called
after called (server_turn from to (suc zero)) = joined
after called (server_turn from to (suc (suc n))) = served
after joined (server_turn from to (suc n)) = served
after served (client_turn from to (suc n)) = greeted
after r _ = r

unfoldable pub after_all : Reached → List Turn → Reached
after_all r [] = r
after_all r (t ∷ turns) = after_all (after r t) turns

pub after_all-append :
    (r : Reached) (xs ys : List Turn) → after_all r (xs ++ ys) ≡ after_all (after_all r xs) ys
unfolding after_all
after_all-append r [] ys = refl
after_all-append r (t ∷ xs) ys = after_all-append (after r t) xs ys

after-greeted : (t : Turn) → after greeted t ≡ greeted
unfolding after
after-greeted (client_turn from to n) = refl
after-greeted (server_turn from to n) = refl

after_all-greeted : (turns : List Turn) → after_all greeted turns ≡ greeted
unfolding after_all
after_all-greeted [] = refl
after_all-greeted (t ∷ turns) = rw (after-greeted t) (after_all-greeted turns)

-- A frame of each engine that takes all that has arrived, the server's first.
pub both_take :
    (r : Reached) (from to n from' to' m : ℕ)
    → 2 ≤ n
    → 1 ≤ m
    → after (after r (server_turn from to n)) (client_turn from' to' m) ≡ greeted
unfolding after
both_take called from to (suc (suc n)) from' to' (suc m) h h' = refl
both_take joined from to (suc (suc n)) from' to' (suc m) h h' = refl
both_take served from to (suc (suc n)) from' to' (suc m) h h' = refl
both_take greeted from to (suc (suc n)) from' to' (suc m) h h' = refl
both_take r from to n from' to' zero h h' = absurd (omega arith)
both_take r from to zero from' to' m h h' = absurd (omega arith)
both_take r from to (suc zero) from' to' m h h' = absurd (omega arith)

pub after_all-both :
    (r : Reached) (turns later : List Turn) (from to n from' to' m : ℕ)
    → 2 ≤ n
    → 1 ≤ m
    → after_all r (turns ++ server_turn from to n ∷ client_turn from' to' m ∷ later) ≡ greeted
unfolding after_all
after_all-both r turns later from to n from' to' m h h' =
    after_all-append r turns (server_turn from to n ∷ client_turn from' to' m ∷ later)
    ∙ ap (λ q. after_all q later) (both_take (after_all r turns) from to n from' to' m h h')
    ∙ after_all-greeted later

arrived_none : (peer : ℕ) (xs : List Sent) → arrived peer (drop (length xs) xs) ≡ []
unfolding arrived
arrived_none peer xs = ap (arrived peer) (drop_all (length xs) xs (omega arith))

arrived_one :
    (peer : ℕ) (bytes : List ℕ) (flag : PacketFlag) (xs : List Sent)
    → let sent : Sent = record { peer = peer; payload = map init bytes; flag = flag } in
      arrived peer (drop (length xs) (xs ++ sent ∷ [])) ≡ bytes ∷ []
unfolding arrived
arrived_one peer bytes flag xs =
    let sent : Sent = record { peer = peer; payload = map init bytes; flag = flag } in
    rw (drop-append xs (sent ∷ []), carried_init peer bytes flag) refl

module _ (old : HandShake) (ends : Ends) (c : Client ClientMembers) (s : Server Members) where
  abbrev pub server_at : Reached → Server Members
  server_at called = s
  server_at joined = joining s ends.client_peer ends.address
  server_at _ = (served_session old ends c s).server

  abbrev pub client_at : Reached → Client ClientMembers
  client_at greeted = enter_stage (some version_1234) (dialled_client old ends c s)
  client_at _ = dialled_client old ends c s

  -- The engines at a stage, after so many reports each.
  pub record At (client_reports server_reports : ℕ) (r : Reached) (w : Meeting) : Type 0 where
    pub client_runs : RunsClient client_reports (client_at r) w.client_core
    pub server_runs : RunsServer server_reports (server_at r) w.server_core
    pub handed_server : w.to_server ≡ to_server r
    pub handed_client : w.to_client ≡ to_client r

  abbrev pub events_for_server : List Event
  events_for_server =
      connect ends.client_peer ends.address
      ∷ receive ends.client_peer (wire (greeting old) c.last_packet_id)
      ∷ []

  abbrev pub events_for_client : Reached → List ClientEvent
  events_for_client called = []
  events_for_client joined = []
  events_for_client _ =
      OutgoingClientBase.receive (wire (server_greeting old) s.last_packet_id) ∷ []

  outbox-client_at :
      (r : Reached) → (client_at r).outbox ≡ c.outbox ++ from_client old ends c.last_packet_id ∷ []
  outbox-client_at called = refl
  outbox-client_at joined = refl
  outbox-client_at served = refl
  outbox-client_at greeted = refl

  pub for_server-At :
      (r : Reached) (k : Core)
      → k.client ≡ some (client_at r)
      → for_server old ends (length c.outbox) (length s.outbox) k ≡ events_for_server
  for_server-At r k is_client =
      let greets =
        arrived_one ends.server_peer (wire (greeting old) c.last_packet_id) (packet_flag true)
          c.outbox in
      rw (is_client, outbox-client_at r, greets) refl

  answer_arrived :
      arrived ends.client_peer
        (drop (length s.outbox) (s.outbox ++ from_server old ends s.last_packet_id ∷ []))
      ≡ wire (server_greeting old) s.last_packet_id ∷ []
  answer_arrived =
      arrived_one ends.client_peer (wire (server_greeting old) s.last_packet_id) (packet_flag true)
        s.outbox

  pub for_client-At :
      (r : Reached) (k : Core)
      → k.server ≡ some (server_at r)
      → for_client old ends (length c.outbox) (length s.outbox) k ≡ events_for_client r
  for_client-At called k is_server = rw (is_server, arrived_none ends.client_peer s.outbox) refl
  for_client-At joined k is_server = rw (is_server, arrived_none ends.client_peer s.outbox) refl
  for_client-At served k is_server = rw (is_server, answer_arrived) refl
  for_client-At greeted k is_server = rw (is_server, answer_arrived) refl

take_none : {A : Type 0} (n : ℕ) → take {A = A} n [] ≡ []
take_none n = take_all n [] (omega arith)

take_single : {A : Type 0} (n : ℕ) (x : A) → take (suc n) (x ∷ []) ≡ x ∷ []
take_single n x = take_all (suc n) (x ∷ []) (omega arith)

take_both : {A : Type 0} (n : ℕ) (x y : A) → take (suc (suc n)) (x ∷ y ∷ []) ≡ x ∷ y ∷ []
take_both n x y = take_all (suc (suc n)) (x ∷ y ∷ []) (omega arith)

module _ (old : HandShake) (ends : Ends) (c : Client ClientMembers) (s : Server Members)
    (apart : Apart c s) (from to : ℕ) where
  pub server_takes :
      (r : Reached) (n : ℕ)
      → ServerBase.update
          (ServerSingleton.callbacks old)
          (server_at old ends c s r)
          (take n (drop (to_server r) (events_for_server old ends c s)))
        ≡ done (server_at old ends c s (after r (server_turn from to n)))
  unfolding after
  server_takes called zero = Events.update_nothing (ServerSingleton.callbacks old) s apart.running
  server_takes called (suc zero) = admits old ends c s apart
  server_takes called (suc (suc n)) =
      let greets : Event = receive ends.client_peer (wire (greeting old) c.last_packet_id) in
      let here : Event = connect ends.client_peer ends.address in
      rw (take_both n here greets) (
        update_then (ServerSingleton.callbacks old) s (joining s ends.client_peer ends.address) here
          (greets ∷ []) apart.running apart.running (admits old ends c s apart)
        ∙ serves old ends c s apart)
  server_takes joined zero =
      Events.update_nothing (ServerSingleton.callbacks old)
        (joining s ends.client_peer ends.address) apart.running
  server_takes joined (suc n) =
      rw (take_single n (receive ends.client_peer (wire (greeting old) c.last_packet_id)))
        (serves old ends c s apart)
  server_takes served n = rw (take_none n) (
      Events.update_nothing (ServerSingleton.callbacks old) (served_session old ends c s).server
        apart.running)
  server_takes greeted n = rw (take_none n) (
      Events.update_nothing (ServerSingleton.callbacks old) (served_session old ends c s).server
        apart.running)

  pub client_takes :
      (r : Reached) (n : ℕ)
      → OutgoingClientBase.update
          (OutgoingClientSingleton.callbacks old)
          (client_at old ends c s r)
          (take n (drop (to_client r) (events_for_client old ends c s r)))
        ≡ done (client_at old ends c s (after r (client_turn from to n)))
  unfolding after
  client_takes called n = rw (take_none n) (
      Updates.update_nothing (OutgoingClientSingleton.callbacks old) (dialled_client old ends c s)
        ends.host refl)
  client_takes joined n = rw (take_none n) (
      Updates.update_nothing (OutgoingClientSingleton.callbacks old) (dialled_client old ends c s)
        ends.host refl)
  client_takes served zero =
      Updates.update_nothing (OutgoingClientSingleton.callbacks old) (dialled_client old ends c s)
        ends.host refl
  client_takes served (suc n) =
      rw (take_single n (OutgoingClientBase.receive (wire (server_greeting old) s.last_packet_id)))
        (answers old ends c s apart)
  client_takes greeted n = rw (take_none n) (
      Updates.update_nothing (OutgoingClientSingleton.callbacks old)
        (client_at old ends c s greeted) ends.host refl)

  pub handed_to_server :
      (r : Reached) (n : ℕ)
      → to_server r + length (take n (drop (to_server r) (events_for_server old ends c s)))
        ≡ to_server (after r (server_turn from to n))
  unfolding after
  handed_to_server called zero = refl
  handed_to_server called (suc zero) = refl
  handed_to_server called (suc (suc n)) = rw (take_none n) refl
  handed_to_server joined zero = refl
  handed_to_server joined (suc n) = rw (take_none n) refl
  handed_to_server served n = rw (take_none n) refl
  handed_to_server greeted n = rw (take_none n) refl

  pub handed_to_client :
      (r : Reached) (n : ℕ)
      → to_client r + length (take n (drop (to_client r) (events_for_client old ends c s r)))
        ≡ to_client (after r (client_turn from to n))
  unfolding after
  handed_to_client called n = rw (take_none n) refl
  handed_to_client joined n = rw (take_none n) refl
  handed_to_client served zero = refl
  handed_to_client served (suc n) = rw (take_none n) refl
  handed_to_client greeted n = rw (take_none n) refl

  -- What a frame of one engine leaves of the other.
  pub client_at-server_turn :
      (r : Reached) (n : ℕ)
      → (client_at old ends c s (after r (server_turn from to n)) ≡ client_at old ends c s r)
        × (to_client (after r (server_turn from to n)) ≡ to_client r)
  unfolding after
  client_at-server_turn called zero = (refl, refl)
  client_at-server_turn called (suc zero) = (refl, refl)
  client_at-server_turn called (suc (suc n)) = (refl, refl)
  client_at-server_turn joined zero = (refl, refl)
  client_at-server_turn joined (suc n) = (refl, refl)
  client_at-server_turn served n = (refl, refl)
  client_at-server_turn greeted n = (refl, refl)

  pub server_at-client_turn :
      (r : Reached) (n : ℕ)
      → (server_at old ends c s (after r (client_turn from to n)) ≡ server_at old ends c s r)
        × (to_server (after r (client_turn from to n)) ≡ to_server r)
  unfolding after
  server_at-client_turn called n = (refl, refl)
  server_at-client_turn joined n = (refl, refl)
  server_at-client_turn served zero = (refl, refl)
  server_at-client_turn served (suc n) = (refl, refl)
  server_at-client_turn greeted n = (refl, refl)
