-- ===== src/Engine/Meeting/Greeting.antt =====
-- The hand shakes of two engines that meet.
use kge.Prelude.{
  ℕ, ◌+◌, ◌≤◌, ◌≡◌, refl, ap, ◌∙◌, sym, some, List, [], ◌∷◌, ◌++◌, take, drop, length, Outcome,
  done,
}
use kge.Network.ServerBase.{Server, Event}
use kge.Network.OutgoingClientBase.{Client, ClientEvent}
use kge.Game.HandShake.{HandShake}
use kge.Game.ServerSingleton.{Members}
use kge.Game.OutgoingClientSingleton.{ClientMembers, enter_stage}
use kge.Game.OutgoingClientSingleton.Greeting.{version_1234}
use kge.Game.Session.{Ends}
use kge.Game.Session.Orders.{Apart, dialled_client, served_session}
use kge.Engine.Core.{FrameInput}
use kge.Engine.Core.Undisturbed.{RunsClient, RunsServer, frame-RunsClient, frame-RunsServer}
use kge.Engine.Meeting.{
  Meeting, Turn, client_turn, server_turn, for_server, for_client, client_took, server_took,
  client_frame, server_frame, perform, run,
}
use kge.Engine.Meeting.Stages.{
  Reached, called, greeted, to_server, to_client, after, after_all, server_at, client_at, At,
  events_for_server, events_for_client, for_server-At, for_client-At, server_takes, client_takes,
  after_all-both, handed_to_server, handed_to_client, client_at-server_turn, server_at-client_turn,
}

module _ (old : HandShake) (ends : Ends) (c : Client ClientMembers) (s : Server Members)
    (apart : Apart c s) (client_reports server_reports : ℕ) where
  abbrev goes : Meeting → Turn → Outcome Meeting
  goes w t = perform old ends (length c.outbox) (length s.outbox) w t

  abbrev runs : Meeting → List Turn → Outcome Meeting
  runs w turns = run old ends (length c.outbox) (length s.outbox) w turns

  abbrev Met : Reached → Meeting → Type 0
  Met r w = At old ends c s client_reports server_reports r w

  perform-At :
      (r : Reached) (w : Meeting) (t : Turn)
      → Met r w
      → (v : Meeting) × (goes w t ≡ done v) × Met (after r t) v
  unfolding perform after
  perform-At r w (server_turn from to n) at =
      let server = at.server_runs in
      let events : List Event = take n (drop (to_server r) (events_for_server old ends c s)) in
      let f : FrameInput = record {
        started_at = from;
        stopped_at = to;
        client_events = [];
        server_events = events;
      } in
      let next = server_at old ends c s (after r (server_turn from to n)) in
      let (k, framed, still) =
        frame-RunsServer old w.server_core f server_reports (server_at old ends c s r) next server
          (server_takes old ends c s apart from to r n) in
      let (same, count) = client_at-server_turn old ends c s apart from to r n in
      let there = for_server-At old ends c s r w.client_core at.client_runs.is_client in
      let handed : take n (
            drop w.to_server
              (for_server old ends (length c.outbox) (length s.outbox) w.client_core))
          ≡ events =
        rw (there, at.handed_server) refl in
      (
        record w { server_core = k; to_server = w.to_server + length events },
        ap (server_frame old ends (length c.outbox) (length s.outbox) w from to) handed
            ∙ ap (server_took old ends (length c.outbox) (length s.outbox) w (length events))
                framed,
        record {
          client_runs = rw same at.client_runs;
          server_runs = still;
          handed_server =
              ap (λ m. m + length events) at.handed_server
              ∙ handed_to_server old ends c s apart from to r n;
          handed_client = at.handed_client ∙ sym count;
        },
      )
  perform-At r w (client_turn from to n) at =
      let client = at.client_runs in
      let events : List ClientEvent =
        take n (drop (to_client r) (events_for_client old ends c s r)) in
      let f : FrameInput = record {
        started_at = from;
        stopped_at = to;
        client_events = events;
        server_events = [];
      } in
      let next = client_at old ends c s (after r (client_turn from to n)) in
      let (k, framed, still) =
        frame-RunsClient old w.client_core f client_reports (client_at old ends c s r) next client
          (client_takes old ends c s apart from to r n) in
      let (same, count) = server_at-client_turn old ends c s apart from to r n in
      let there = for_client-At old ends c s r w.server_core at.server_runs.is_server in
      let handed : take n (
            drop w.to_client
              (for_client old ends (length c.outbox) (length s.outbox) w.server_core))
          ≡ events =
        rw (there, at.handed_client) refl in
      (
        record w { client_core = k; to_client = w.to_client + length events },
        ap (client_frame old ends (length c.outbox) (length s.outbox) w from to) handed
            ∙ ap (client_took old ends (length c.outbox) (length s.outbox) w (length events))
                framed,
        record {
          client_runs = still;
          server_runs = rw same at.server_runs;
          handed_server = at.handed_server ∙ sym count;
          handed_client =
              ap (λ m. m + length events) at.handed_client
              ∙ handed_to_client old ends c s apart from to r n;
        },
      )

  run-At :
      (r : Reached) (w : Meeting) (turns : List Turn)
      → Met r w
      → (v : Meeting) × (runs w turns ≡ done v) × Met (after_all r turns) v
  unfolding run after_all
  run-At r w [] at = (w, refl, at)
  run-At r w (t ∷ turns) at =
      let (v, e, next) = perform-At r w t at in
      let (u, e2, last) = run-At (after r t) v turns next in (u, rw (run, e) e2, last)

  -- Two engines whose connection came up, of a client that had no host and peer before and of a server that
  -- runs, with packet ids that are U32s, nothing scheduled, and fewer than 255 timers running: whatever
  -- frames of either come in whatever order, each at any times and with any number of the events that
  -- have arrived, both run on without a report and without a fault, which is an access out of bounds, of
  -- an unwritten byte, through NULL or through an invalid iterator. Once a frame of the
  -- server that may take two events or more is followed by one of the client that may take one or
  -- more, whatever came before and comes later, the client has printed the server's version, 1.2.3.4,
  -- and is in stage 1, and the server has printed the client's, 1.2.3.4, and has answered it once.
  pub engines_greet :
      (w : Meeting)
      → RunsClient client_reports (dialled_client old ends c s) w.client_core
      → RunsServer server_reports s w.server_core
      → w.to_server ≡ 0
      → w.to_client ≡ 0
      → (turns later : List Turn) (from to n from' to' m : ℕ) → 2 ≤ n
      → 1 ≤ m
      → ((u : Meeting) × (runs w turns ≡ done u)
          × (u.client_core.reports ≡ client_reports)
          × (u.server_core.reports ≡ server_reports))
        × ((v : Meeting) × (runs w
                (turns ++ server_turn from to n ∷ client_turn from' to' m ∷ later)
              ≡ done v)
            × RunsClient client_reports
                (enter_stage (some version_1234) (dialled_client old ends c s))
                v.client_core
            × RunsServer server_reports (served_session old ends c s).server v.server_core)
  engines_greet w client server none_taken none_given turns later from to n from' to' m all_n
        all_m =
      let at : Met called w = record {
        client_runs = client;
        server_runs = server;
        handed_server = none_taken;
        handed_client = none_given;
      } in
      let all = turns ++ server_turn from to n ∷ client_turn from' to' m ∷ later in
      let (u, ran, early) = run-At called w turns at in
      let (v, ends, last) = run-At called w all at in
      let there = after_all-both called turns later from to n from' to' m all_n all_m in
      let greets : Met greeted v = rw (sym there) last in
      (
        (u, ran, early.client_runs.settled.reported, early.server_runs.settled.reported),
        (v, ends, greets.client_runs, greets.server_runs),
      )
