-- ===== src/Engine/Core.antt =====
-- apps/engine/include/engine/CoreSingleton.hpp and source/engine/CoreSingleton.cpp: how the engine starts, its
-- frames, and its end. Irrlicht, CEGUI and the sleep of 32 ms keep no state of the model; what the clock
-- and ENet say in a frame is the frame's input.
pub mod Safe
pub mod Frames
pub mod Leaks
pub mod Startup
pub mod Serving
pub mod Playing
pub mod Undisturbed
pub mod Statics
pub mod Presence
pub mod Lifetime
use kge.Prelude.{
  ℕ, ◌+◌, Bool, true, false, Option, none, some, List, [], ◌∷◌, if◌then◌else◌, Outcome, done,
  raised, undefined, Exception,
}
use kge.Support.Time.{Clock, start_timer, stop_timer, sim_time_milliseconds}
use kge.Support.Scheduler.{Scheduler, Updated, at_end, erased_iterator}
use kge.Support.Scheduler
use kge.Network.OutgoingClientBase.{Client, ClientEvent}
use kge.Network.OutgoingClientBase
use kge.Support.MapDivision.{MapDivision, new_map_division}
use kge.Network.ServerBase.{Server, Event, last_packet_sender, new_server}
use kge.Network.ServerBase
use kge.Game.HandShake.{HandShake}
use kge.Game.OutgoingClientSingleton.{ClientMembers}
use kge.Game.OutgoingClientSingleton
use kge.Game.ServerSingleton.{Members, new_members}
use kge.Game.ServerSingleton

-- `ENGINE_MODE`
pub data EngineMode : Type 0 where
  engine_client engine_clientconnect engine_dedicated : EngineMode

-- The core with the statics that its frames work on. `reports` counts the exceptions that were
-- written to `std::cerr`, and `delta_time` is `deltaTimeSeconds` in microseconds.
pub record Core : Type 0 where
  pub running : Bool
  pub engine_mode : EngineMode
  pub client : Option (Client ClientMembers)
  pub server : Option (Server Members)
  pub clock : Clock
  pub scheduler : Scheduler
  pub delta_time : ℕ
  pub reports : ℕ

-- The time of day at both ends of a frame, and what ENet has for the client and the server.
pub record FrameInput : Type 0 where
  pub started_at : ℕ
  pub stopped_at : ℕ
  pub client_events : List ClientEvent
  pub server_events : List Event

unfoldable pub kill : Core → Core
kill k = record k { running = false }

-- What ENet answers to the attempts of `run`: whether the address is valid, the host, the peer, and
-- whether the connection came up; and the time of day at both ends of the constructor of the server's map division.
pub record Attempt : Type 0 where
  pub valid_address : Bool
  pub host : Option ℕ
  pub peer : Option ℕ
  pub came_up : Bool
  pub target_port : ℕ
  pub map_started_at : ℕ
  pub map_stopped_at : ℕ

abbrev pub then_do : Outcome Core → (Core → Outcome Core) → Outcome Core
then_do (done k) f = f k
then_do (raised e k) f = raised e k
then_do undefined f = undefined

-- What a call on the scheduler, the client or the server comes to for the core.
abbrev pub with_scheduler : Core → Updated → Outcome Core
with_scheduler k (at_end s) = done (record k { scheduler = s })
with_scheduler k (erased_iterator s) = undefined

abbrev pub with_client : Core → Outcome (Client ClientMembers) → Outcome Core
with_client k (done c) = done (record k { client = some c })
with_client k (raised e c) = raised e (record k { client = some c })
with_client k undefined = undefined

abbrev pub with_server : Core → Outcome (Server Members) → Outcome Core
with_server k (done s) = done (record k { server = some s })
with_server k (raised e s) = raised e (record k { server = some s })
with_server k undefined = undefined

abbrev pub with_clock : Core → Outcome (ℕ × Clock) → Outcome Core
with_clock k (done (delta, clock)) = done (record k { clock = clock; delta_time = delta })
with_clock k (raised e _) = raised e k
with_clock k undefined = undefined

-- The calls that are made where there is a client or a server.
abbrev pub if_client :
    Core
    → Option (Client ClientMembers)
    → (Client ClientMembers → Outcome (Client ClientMembers))
    → Outcome Core
if_client k none f = done k
if_client k (some c) f = with_client k (f c)

abbrev pub if_server :
    Core → Option (Server Members) → (Server Members → Outcome (Server Members)) → Outcome Core
if_server k none f = done k
if_server k (some s) f = with_server k (f s)

abbrev pub scheduler_step : Core → Outcome Core
scheduler_step k = with_scheduler k (Scheduler.update k.scheduler (sim_time_milliseconds k.clock))

abbrev pub clock_step : ℕ → ℕ → Core → Outcome Core
clock_step timer_id now k = with_clock k (stop_timer k.clock timer_id now)

-- The `disconnect()` of the sender, which hands a request to ENet for a client that is not deleted.
abbrev pub disconnect_peer : Server Members → Option ℕ → Outcome (Server Members)
disconnect_peer s none = done s
disconnect_peer s (some sender) = elim (s.client_peer sender) [
  | none ↦ undefined
  | some peer ↦ done s
]

unfoldable pub disconnect_sender : Core → Outcome Core
disconnect_sender k = if_server k k.server λ s. disconnect_peer s (last_packet_sender s)

-- `old` is what the memory of a new HandShake holds.
module _ (old : HandShake) where
  connect_mode : Core → Attempt → Client ClientMembers → Outcome (Bool × Core)
  connect_mode k a c =
      elim (OutgoingClientBase.connect (OutgoingClientSingleton.callbacks old) c a.valid_address
        a.host a.peer a.came_up a.target_port) [
          | done d ↦ done (d.is_connected, record k { client = some d })
          | raised e d ↦ raised e (false, record k { client = some d })
          | undefined ↦ undefined
        ]

  -- The constructor of ServerSingleton, behind that of its base: the map division, whose timer runs on the
  -- clock. At the first `run` there is no server yet and so no map division, which only a server makes,
  -- and which it deletes.
  abbrev pub with_map :
      Core → Server Members → Outcome (Option MapDivision × Clock) → Outcome (Bool × Core)
  with_map k s (done (_, clock)) = done (true, record k { clock = clock; server = some s })
  with_map k s (raised e (_, clock)) = raised e (false, record k { clock = clock })
  with_map k s undefined = undefined

  server_mode : Core → Attempt → Outcome (Server Members) → Outcome (Bool × Core)
  server_mode k a (done s) =
      with_map k s (new_map_division 12 999 k.clock a.map_started_at a.map_stopped_at)
  server_mode k a (raised e s) = raised e (false, k)
  server_mode k a undefined = undefined

  -- The part of `run` before the loop, which is entered or, at `return 1`, is not.
  start_mode : Core → EngineMode → Attempt → Client ClientMembers → Outcome (Bool × Core)
  unfolding connect_mode server_mode
  start_mode k engine_client a c = done (true, record k { client = some c })
  start_mode k engine_clientconnect a c = connect_mode k a c
  start_mode k engine_dedicated a c =
      server_mode k a (new_server (48 ∷ 46 ∷ 48 ∷ 46 ∷ 48 ∷ 46 ∷ 48 ∷ []) 11595 a.host new_members)

  unfoldable pub start : Core → Attempt → Client ClientMembers → Outcome (Bool × Core)
  unfolding start_mode
  start k a c = start_mode (record k { running = true }) k.engine_mode a c

  abbrev pub client_step : List ClientEvent → Core → Outcome Core
  client_step events k =
      if_client k k.client
        λ c. OutgoingClientBase.update (OutgoingClientSingleton.callbacks old) c events

  abbrev pub server_step : List Event → Core → Outcome Core
  server_step events k =
      if_server k k.server λ s. ServerBase.update (ServerSingleton.callbacks old) s events

  -- The body of the `try`: four steps, each of which may throw.
  unfoldable pub try_frame : Core → FrameInput → Outcome Core
  try_frame k f =
      let (timer_id, clock) = start_timer k.clock f.started_at in
      then_do (scheduler_step (record k { clock = clock })) λ k1.
        then_do (client_step f.client_events k1)
          λ k2. then_do (server_step f.server_events k2) λ k3. clock_step timer_id f.stopped_at k3

  unfoldable pub disconnect_client : Core → Outcome Core
  disconnect_client k =
      if_client k k.client
        λ c. OutgoingClientBase.disconnect (OutgoingClientSingleton.callbacks old) c []

  -- The `catch`: it disconnects the client, and the sender that the server names.
  unfoldable pub catch_exception : Core → Outcome Core
  catch_exception k =
      then_do (disconnect_client (record k { reports = k.reports + 1 })) disconnect_sender

  unfoldable pub frame : Core → FrameInput → Outcome Core
  frame k f = elim (try_frame k f) [
    | done k' ↦ done k'
    | raised e k' ↦ catch_exception k'
    | undefined ↦ undefined
  ]

  -- The loop, for as many frames as Irrlicht's device runs, and the `disconnect` behind it.
  unfoldable pub run_loop : Core → List FrameInput → Outcome Core
  run_loop k [] = disconnect_client k
  run_loop k (f ∷ fs) =
      let rest = then_do (frame k f) λ k'. run_loop k' fs in
      if k.running then rest else disconnect_client k
