-- ===== src/Engine/Core/Lifetime/Connected.antt =====
-- From `getPointer` to `destroy`, for a client that is connected.
use kge.Prelude.{ℕ, ◌≡◌, refl, ap, ◌∙◌, true, false, none, some, List, [], ◌∷◌, ◌++◌, done}
use kge.Support.Time.{Clock}
use kge.Support.Scheduler.{new_scheduler}
use kge.Network.OutgoingClientBase.{Client, peer_reset, host_destroy, close}
use kge.Game.HandShake.{HandShake}
use kge.Game.OutgoingClientSingleton.{ClientMembers}
use kge.Game.OutgoingClientSingleton.Playing.{
  Follows, Progress, waiting, playing, hand_shake_to, greeted_client, offline-Follows,
}
use kge.Engine.Core.{engine_clientconnect, Attempt, FrameInput, kill}
use kge.Engine.Core.Frames.{forgotten}
use kge.Engine.Core.Statics.{framed}
use kge.Engine.Core.Playing.{AreSmall, playing_core, client_run}
use kge.Engine.Core.Lifetime.{
  Engine, Remains, remains, before_device, some_frame, new_engine, get_pointer, set_mode,
  set_target_server, set_game, run, run_device, launch, aimed,
}
use kge.Engine.Core.Lifetime.Launch.{set_up, destroy_with_device}

-- A connection that comes up: the address is valid, and ENet gives a host and a peer.
pub record Reaches (a : Attempt) (host peer : ℕ) : Type 0 where
  pub valid : a.valid_address ≡ true
  pub has_host : a.host ≡ some host
  pub has_peer : a.peer ≡ some peer
  pub came_up : a.came_up ≡ true

-- The client `d` that is left of `c`: it has sent its hand shake and nothing else, and of its calls of ENet
-- the last two gave its peer and its host back; its stage goes with what it has printed.
pub record Closed (old : HandShake) (c : Client ClientMembers) (host peer : ℕ)
    (d : Client ClientMembers) : Type 0 where
  pub no_host : d.internal_host ≡ none
  pub no_peer : d.internal_peer ≡ none
  pub sent : d.outbox ≡ c.outbox ++ hand_shake_to old peer c.last_packet_id ∷ []
  pub called : d.calls ≡ c.calls ++ peer_reset peer ∷ [] ++ host_destroy host ∷ []
  pub progress : Progress (greeted_client old c host peer 11595) d

module _ (old : HandShake) (c : Client ClientMembers) (host peer : ℕ) where
  close-Progress :
      {d e : Client ClientMembers}
      → Progress (greeted_client old c host peer 11595) d
      → e.game ≡ d.game
      → e.current_stage ≡ d.current_stage
      → Progress (greeted_client old c host peer 11595) e
  close-Progress (waiting printed stage) game same =
      waiting (ap (λ g. g.printed) game ∙ printed) (same ∙ stage)
  close-Progress (playing earlier last printed stage) game same =
      playing earlier last (ap (λ g. g.printed) game ∙ printed) (same ∙ stage)

  close-Closed :
      (d : Client ClientMembers)
      → Follows (greeted_client old c host peer 11595) d
      → Closed old c host peer (close d)
  unfolding close
  close-Closed d f = record {
    no_host = refl;
    no_peer = refl;
    sent = simp (f.same_host, f.same_peer) f.sent_nothing;
    called =
        simp (f.same_peer, f.same_host)
          (ap (λ calls. calls ++ peer_reset peer ∷ [] ++ host_destroy host ∷ []) f.called_nothing);
    progress = simp (f.same_peer, f.same_host) (close-Progress f.progress refl refl);
  }

-- What is left where no server was made.
abbrev pub LeavesClosed : HandShake → Client ClientMembers → ℕ → ℕ → Remains → Type 0
LeavesClosed old c host peer left =
    ((d : Client ClientMembers) × (left.client ≡ some d) × Closed old c host peer d)
    × (left.listening ≡ none)

module _ (old : HandShake) where
  -- A client whose connection comes up, where Irrlicht makes a device: whatever its server sends, the launch
  -- ends with the core destroyed.
  pub launch-Closed :
      (clock : Clock) (address game : List ℕ) (a : Attempt) (c : Client ClientMembers)
      (host peer : ℕ) (frames : List FrameInput)
      → c.internal_host ≡ none
      → c.internal_peer ≡ none
      → Reaches a host peer
      → AreSmall frames
      → (left : Remains) × (launch old none clock new_scheduler engine_clientconnect address game a
            c true frames
          ≡ done left)
        × LeavesClosed old c host peer left
  unfolding launch run run_device get_pointer new_engine set_mode set_target_server set_game kill
  launch-Closed clock address game a c host peer frames no_host no_peer r small =
      let e = set_up clock engine_clientconnect address game in
      let d = greeted_client old c host peer 11595 in
      let (starts, (k, runs, (no_server, _, (last, is_client, follows)))) =
        client_run old e.core (aimed e a) c host peer frames refl refl refl no_host no_peer r.valid
          r.has_host r.has_peer r.came_up small in
      let entered = before_device e (playing_core e.core d) in
      let ended : Engine = record entered {
        core = k;
        irrlicht_device = true;
        statics = framed (some_frame true frames) entered.statics;
      } in
      let looped : run old e a c true frames ≡ done (none, ended) =
        rw (run, starts) (rw (run_device, runs)) in
      let offline : Client ClientMembers = record last { is_connected = false } in
      (
        remains (record (kill k) { client = forgotten k.client }) ended.statics,
        rw (launch, looped) (destroy_with_device old ended refl),
        (
          (
            close offline,
            simp is_client refl,
            close-Closed old c host peer offline (offline-Follows d last follows),
          ),
          simp no_server refl,
        ),
      )
