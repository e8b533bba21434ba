-- ===== src/Engine/Singletons.antt =====
-- The instances of apps/engine/source/support/SchedulerSingleton.cpp, EventManager.cpp and MapDivision.cpp, of engine/InputListenerSingleton.cpp and of
-- game/ServerSingleton.cpp, whose constructor makes the map division and whose base class deletes it.
pub mod Pairs
use kge.Prelude.{
  ℕ, ◌+◌, Option, none, some, List, [], ◌∷◌, Result, ok, throws, fault, ◌>>=◌, Outcome, done,
  raised, undefined,
}
use kge.Support.EventManager.{EventManager}
use kge.Support.MapDivision.{MapDivision, new_map_division}
use kge.Support.Time.{Clock}
use kge.Support.Scheduler.{Scheduler, new_scheduler}
use kge.Support.Singleton.{Holder, get_pointer, destroy}
use kge.Engine.InputListenerSingleton.{Injection}
use kge.Network.ServerBase.{Server, new_server}

unfoldable pub scheduler_get_pointer : Holder Scheduler → Result (Holder Scheduler)
scheduler_get_pointer = get_pointer (λ (arguments : Scheduler). ok arguments) new_scheduler

unfoldable pub scheduler_destroy : Holder Scheduler → Holder Scheduler
scheduler_destroy = destroy

unfoldable pub listener_get_pointer : Holder (List Injection) → Result (Holder (List Injection))
listener_get_pointer = get_pointer (λ (arguments : List Injection). ok arguments) []

unfoldable pub listener_destroy : Holder (List Injection) → Holder (List Injection)
listener_destroy = destroy

-- `EventManager::Get` and `Destroy`
unfoldable pub events_get : Holder EventManager → Result (Holder EventManager)
events_get =
    get_pointer (λ (arguments : EventManager). ok arguments) (record { event_mapping = [] })

unfoldable pub events_destroy : Holder EventManager → Holder EventManager
events_destroy = destroy

-- The instance pointer and the timers, for what comes of `new MapDivision`.
abbrev pub keep_division :
    Holder MapDivision → Outcome (Option MapDivision × Clock) → Outcome (Holder MapDivision × Clock)
keep_division h (done (fresh, clock)) =
    done (record { instance_ptr = fresh; made = h.made + 1; deleted = h.deleted }, clock)
keep_division h (raised e (_, clock)) = raised e (h, clock)
keep_division h undefined = undefined

-- `MapDivision::Get(power, divisions)` and `Destroy`
unfoldable pub division_get :
    ℕ × ℕ → ℕ × ℕ → Holder MapDivision → Clock → Outcome (Holder MapDivision × Clock)
division_get (power, divisions) (started_at, stopped_at) h clock = elim h.instance_ptr [
  | none ↦ keep_division h (new_map_division power divisions clock started_at stopped_at)
  | some there ↦ done (h, clock)
]

unfoldable pub division_destroy : Holder MapDivision → Holder MapDivision
division_destroy = destroy

-- The arguments of `ServerSingleton::getPointer`, what `enet_host_create` makes of them, and the time of day at
-- both ends of the map division's constructor.
pub record Listen (G : Type 0) : Type 0 where
  pub listen_address : List ℕ
  pub listen_port : ℕ
  pub host : Option ℕ
  pub game : G
  pub map_started_at : ℕ
  pub map_stopped_at : ℕ

-- The statics that a server's constructor works on: the map division and the timers.
abbrev pub Statics : Type 0
Statics = Holder MapDivision × Clock

module _ {G : Type 0} where
  -- The constructor's body, behind that of ServerBase; an exception of it destroys the base, which deletes the
  -- map division.
  abbrev pub with_division : Server G → Outcome Statics → Outcome (Option (Server G) × Statics)
  with_division s (done (there, clock)) = done (some s, (there, clock))
  with_division s (raised e (there, clock)) = raised e (none, (division_destroy there, clock))
  with_division s undefined = undefined

  -- What follows the constructor of ServerBase; where that throws, there is nothing to destroy.
  abbrev pub behind_base :
      Listen G → Statics → Outcome (Server G) → Outcome (Option (Server G) × Statics)
  behind_base l (division, clock) (done s) =
      with_division s (division_get (12, 999) (l.map_started_at, l.map_stopped_at) division clock)
  behind_base l statics (raised e s) = raised e (none, statics)
  behind_base l statics undefined = undefined

  -- `ServerSingleton(listenAddress, listenPort, maximumClientCount)`
  unfoldable pub new_server_singleton : Listen G → Statics → Outcome (Option (Server G) × Statics)
  new_server_singleton l statics =
      behind_base l statics (new_server l.listen_address l.listen_port l.host l.game)

  abbrev pub keep_server :
      Holder (Server G)
      → Outcome (Option (Server G) × Statics)
      → Outcome (Holder (Server G) × Statics)
  keep_server h (done (fresh, after)) =
      done (record { instance_ptr = fresh; made = h.made + 1; deleted = h.deleted }, after)
  keep_server h (raised e (_, after)) = raised e (h, after)
  keep_server h undefined = undefined

  -- `ServerSingleton::getPointer(listenAddress, listenPort, maximumClientCount)`
  unfoldable pub server_get_pointer :
      Listen G → Holder (Server G) → Statics → Outcome (Holder (Server G) × Statics)
  server_get_pointer l h statics = elim h.instance_ptr [
    | none ↦ keep_server h (new_server_singleton l statics)
    | some s ↦ done (h, statics)
  ]

  -- `ServerSingleton::destroy()`: `~ServerBase` deletes the map division.
  unfoldable pub server_destroy :
      Holder (Server G) → Holder MapDivision → Holder (Server G) × Holder MapDivision
  server_destroy h division = elim h.instance_ptr [
    | none ↦ (h, division)
    | some s ↦ (destroy h, division_destroy division)
  ]
