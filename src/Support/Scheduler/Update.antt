-- ===== src/Support/Scheduler/Update.antt =====
-- Which events `update` dispatches and removes.
use kge.Prelude.{
  ℕ, ◌+◌, ◌%◌, ◌<◌, ◌≡◌, true, false, List, [], ◌∷◌, ◌++◌, All, arith, if◌then◌else◌, append-nil,
  append_assoc, leb,
}
use kge.Support.Time.{u64_mod}
use kge.Support.Scheduler.{
  ScheduledEvent, Scheduler, new_scheduler, new_event, should_dispatch, is_removed, schedule,
  insert_event, update, update_loop, at_end, erased_iterator, dispatch_if,
}

abbrev pub Stays : ℕ → ScheduledEvent → Type 0
Stays now e = is_removed e now ≡ false

loop_passes :
    (now : ℕ) (before es : List ScheduledEvent) (log : List ℕ)
    → All (Stays now) es
    → update_loop before es log now ≡ at_end (record { events = before ++ es; dispatched = log })
unfolding update_loop
loop_passes now before [] log h = rw (append-nil before)
loop_passes now before (e ∷ es) log (stays, h) =
    rw (stays, loop_passes now (before ++ e ∷ []) es log h, append_assoc before (e ∷ []) es)

loop_stops :
    (now : ℕ) (before passed later : List ScheduledEvent) (e : ScheduledEvent) (log : List ℕ)
    → All (Stays now) passed
    → is_removed e now ≡ true
    → update_loop before (passed ++ e ∷ later) log now
      ≡ erased_iterator (record {
        events = before ++ (passed ++ later);
        dispatched = dispatch_if (should_dispatch e now) e.delegate log;
      })
unfolding update_loop
loop_stops now before [] later e log h removed = rw removed
loop_stops now before (x ∷ xs) later e log (stays, h) removed = rw (
  stays,
  loop_stops now (before ++ x ∷ []) xs later e log h removed,
  append_assoc before (x ∷ []) (xs ++ later),
)

-- Where no event is due or cancelled `update` changes nothing, dispatches nothing, and ends.
pub update_passes : (s : Scheduler) (now : ℕ) → All (Stays now) s.events → update s now ≡ at_end s
unfolding update
update_passes s now h = loop_passes now [] s.events s.dispatched h

-- Where the events that come first in the order of addresses are neither due nor cancelled and the
-- one after them is, `update` passes those, dispatches this one if it is due and not cancelled,
-- erases it, and then steps an iterator that the erasure has invalidated: no later event is reached.
pub update_stops :
    (s : Scheduler) (now : ℕ) (passed later : List ScheduledEvent) (e : ScheduledEvent)
    → s.events ≡ passed ++ e ∷ later
    → All (Stays now) passed
    → is_removed e now ≡ true
    → update s now
      ≡ erased_iterator (record {
        events = passed ++ later;
        dispatched = dispatch_if (should_dispatch e now) e.delegate s.dispatched;
      })
unfolding update
update_stops s now passed later e split h removed =
    rw split (loop_stops now [] passed later e s.dispatched h removed)

-- The life of an event that is scheduled alone, for a time that fits in a U64. Where the
-- memory of the new event happens to hold `false`, it is dispatched by the first `update` at
-- or after its time and by none before. Where it holds `true`, the first `update` of all
-- removes the event, and it is never dispatched.
pub update-schedule :
    (address delegate sim_time_ms wait_time_ms now : ℕ)
    → sim_time_ms + wait_time_ms < u64_mod
    → (update (schedule new_scheduler address false delegate sim_time_ms wait_time_ms) now ≡ (
        if leb (sim_time_ms + wait_time_ms) now
        then erased_iterator (record { events = []; dispatched = delegate ∷ [] })
        else at_end (schedule new_scheduler address false delegate sim_time_ms wait_time_ms)))
      × (update (schedule new_scheduler address true delegate sim_time_ms wait_time_ms) now
          ≡ erased_iterator (record { events = []; dispatched = [] }))
unfolding schedule insert_event update update_loop new_event should_dispatch is_removed
    new_scheduler
update-schedule address delegate sim_time_ms wait_time_ms now h =
    let fits : (sim_time_ms + wait_time_ms) % u64_mod ≡ sim_time_ms + wait_time_ms = omega arith in
    (ground (arith, fits), ground (arith, fits))
