-- ===== src/Support/Scheduler.antt =====
-- apps/engine/include/support/SchedulerSingleton.hpp and source/support/SchedulerSingleton.cpp.
pub mod Update
pub mod Overdue
use kge.Prelude.{
  ℕ, ◌+◌, ◌%◌, ◌^◌, ◌==◌, Bool, true, false, not, ◌&&◌, ◌||◌, List, [], ◌∷◌, ◌++◌, leb, ltb,
  if◌then◌else◌,
}
use kge.Support.Time.{u64_mod}

-- A delegate is a number; `address` is where the event stands.
pub record ScheduledEvent : Type 0 where
  pub address : ℕ
  pub is_cancelled : Bool
  pub trigger_time_ms : ℕ
  pub delegate : ℕ

-- The constructor does not set `mIsCancelled`: `found` is what the memory holds there.
unfoldable pub new_event : ℕ → Bool → ℕ → ℕ → ℕ → ScheduledEvent
new_event address found delegate sim_time_ms wait_time_ms = record {
  address = address;
  is_cancelled = found;
  trigger_time_ms = (sim_time_ms + wait_time_ms) % u64_mod;
  delegate = delegate;
}

unfoldable pub should_dispatch : ScheduledEvent → ℕ → Bool
should_dispatch e current_sim_time_ms =
    leb e.trigger_time_ms current_sim_time_ms && not e.is_cancelled

pub cancel : ScheduledEvent → ScheduledEvent
cancel e = record e { is_cancelled = true }

-- The set of events, in the order of their addresses, and the delegates that were dispatched.
pub record Scheduler : Type 0 where
  pub events : List ScheduledEvent
  pub dispatched : List ℕ

unfoldable pub new_scheduler : Scheduler
new_scheduler = record { events = []; dispatched = [] }

insert_event : ScheduledEvent → List ScheduledEvent → List ScheduledEvent
insert_event e [] = e ∷ []
insert_event e (x ∷ xs) =
    let rest = insert_event e xs in
    if ltb e.address x.address
    then e ∷ x ∷ xs
    else if x.address == e.address
    then x ∷ xs
    else x ∷ rest

-- `schedule`, for the address and the memory that `new` gives.
unfoldable pub schedule : Scheduler → ℕ → Bool → ℕ → ℕ → ℕ → Scheduler
unfolding insert_event
schedule s address found delegate sim_time_ms wait_time_ms = record s {
  events = insert_event (new_event address found delegate sim_time_ms wait_time_ms) s.events;
}

-- How `update` ends: at the end of the set, or at the `iterator++` on the event that it has
-- just erased, which is undefined behaviour.
pub data Updated : Type 0 where
  at_end : Scheduler → Updated
  erased_iterator : Scheduler → Updated

unfoldable pub is_removed : ScheduledEvent → ℕ → Bool
is_removed e now = should_dispatch e now || e.is_cancelled

abbrev pub dispatch_if : Bool → ℕ → List ℕ → List ℕ
dispatch_if true delegate log = log ++ delegate ∷ []
dispatch_if false delegate log = log

-- The loop; `before` are the events that it has passed.
update_loop : List ScheduledEvent → List ScheduledEvent → List ℕ → ℕ → Updated
unfolding is_removed
update_loop before [] log now = at_end (record { events = before; dispatched = log })
update_loop before (e ∷ es) log now =
    let rest = update_loop (before ++ e ∷ []) es log now in
    let broken : Updated = erased_iterator (record {
      events = before ++ es;
      dispatched = dispatch_if (should_dispatch e now) e.delegate log;
    }) in
    if is_removed e now then broken else rest

unfoldable pub update : Scheduler → ℕ → Updated
unfolding update_loop
update s current_sim_time_ms = update_loop [] s.events s.dispatched current_sim_time_ms
