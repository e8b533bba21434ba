-- ===== src/Support/Scheduler/Overdue.antt =====
-- The scheduler and the simulation time, a U32 of microseconds, over a run of the program.
use kge.Prelude.{
  ℕ, ◌+◌, ◌%◌, ◌≤◌, ◌<◌, ◌≡◌, refl, false, List, [], ◌∷◌, arith, Result, ok, fault, ◌>>=◌,
}
use kge.Support.Time.{Clock, start_timer, stop_timer, sim_time_milliseconds, u64_mod}
use kge.Support.Time.Bounds.{
  IsBounded, clock_after, stop_timer-Bounded, start_timer-IsBounded,
  sim_time_milliseconds-IsBounded,
}
use kge.Support.Scheduler.{
  Scheduler, Updated, at_end, erased_iterator, new_scheduler, new_event, schedule, insert_event,
  update, should_dispatch, is_removed,
}
use kge.Support.Scheduler.Update.{update_passes}

-- What the program does with the timers and the scheduler.
pub data Action : Type 0 where
  starts : ℕ → Action
  stops : ℕ → ℕ → Action
  updates : Action

abbrev pub scheduler_after : Updated → Result Scheduler
scheduler_after (at_end s) = ok s
scheduler_after (erased_iterator s) = fault

unfoldable pub act : Action → Clock → Scheduler → Result (Clock × Scheduler)
act (starts now) c s = let (timer, c1) = start_timer c now in ok (c1, s)
act (stops timer now) c s = do c1 ← clock_after (stop_timer c timer now); ok (c1, s)
act updates c s = do s1 ← scheduler_after (update s (sim_time_milliseconds c)); ok (c, s1)

unfoldable pub act_all : List Action → Clock → Scheduler → Result (Clock × Scheduler)
act_all [] c s = ok (c, s)
act_all (a ∷ rest) c s = do (c1, s1) ← act a c s; act_all rest c1 s1

-- The step left the scheduler as it was.
pub record Idle (s : Scheduler) (r : Result (Clock × Scheduler)) : Type 0 where
  pub clock : Clock
  pub bounded : IsBounded clock
  pub returned : r ≡ ok (clock, s)

sleeps :
    (address delegate sim_time_ms wait_time_ms now : ℕ)
    → now < sim_time_ms + wait_time_ms
    → sim_time_ms + wait_time_ms < u64_mod
    → is_removed (new_event address false delegate sim_time_ms wait_time_ms) now ≡ false
unfolding is_removed should_dispatch new_event
sleeps address delegate sim_time_ms wait_time_ms now early fits =
    let whole : (sim_time_ms + wait_time_ms) % u64_mod ≡ sim_time_ms + wait_time_ms = omega arith in
    ground (arith, whole)

-- No update changes the scheduler at a time that a U32 of microseconds can give.
Quiet : Scheduler → Type 0
Quiet s = (now : ℕ) → now ≤ 4294967 → update s now ≡ at_end s

nothing_due :
    (address delegate sim_time_ms wait_time_ms : ℕ)
    → 4294967 < sim_time_ms + wait_time_ms
    → sim_time_ms + wait_time_ms < u64_mod
    → Quiet (schedule new_scheduler address false delegate sim_time_ms wait_time_ms)
unfolding Quiet schedule insert_event new_scheduler
nothing_due address delegate sim_time_ms wait_time_ms late fits now low =
    update_passes (schedule new_scheduler address false delegate sim_time_ms wait_time_ms) now
      (sleeps address delegate sim_time_ms wait_time_ms now (omega (arith, low, late)) fits, tt)

module _ (s : Scheduler) (quiet : Quiet s) where
  act-Idle : (a : Action) (c : Clock) → IsBounded c → Idle s (act a c s)
  unfolding act Quiet
  act-Idle (starts now) c b = record {
    clock = (start_timer c now).1;
    bounded = start_timer-IsBounded c now b;
    returned = refl;
  }
  act-Idle (stops timer now) c b =
      let stopped = stop_timer-Bounded c timer now b in
      record {
        clock = stopped.clock;
        bounded = stopped.inside;
        returned = rw stopped.returned refl;
      }
  act-Idle updates c b =
      let low = sim_time_milliseconds-IsBounded c b in
      record { clock = c; bounded = b; returned = rw (quiet (sim_time_milliseconds c) low) refl }

  act_all-Idle : (actions : List Action) (c : Clock) → IsBounded c → Idle s (act_all actions c s)
  unfolding act_all
  act_all-Idle [] c b = record { clock = c; bounded = b; returned = refl }
  act_all-Idle (a ∷ rest) c b =
      let first = act-Idle a c b in
      let later = act_all-Idle rest first.clock first.bounded in
      record {
        clock = later.clock;
        bounded = later.bounded;
        returned = rw first.returned later.returned;
      }

-- An event for a time beyond the 4294967 milliseconds that the simulation time can reach, scheduled alone in memory that holds
-- `false`: whatever timers are started and stopped, at whatever times, and however often the
-- scheduler is updated, the run returns, and the event is never dispatched or removed.
pub act_all-schedule :
    (actions : List Action) (c : Clock) (address delegate sim_time_ms wait_time_ms : ℕ)
    → IsBounded c
    → 4294967 < sim_time_ms + wait_time_ms
    → sim_time_ms + wait_time_ms < u64_mod
    → let s = schedule new_scheduler address false delegate sim_time_ms wait_time_ms in
      Idle s (act_all actions c s)
act_all-schedule actions c address delegate sim_time_ms wait_time_ms b late fits =
    act_all-Idle (schedule new_scheduler address false delegate sim_time_ms wait_time_ms)
      (nothing_due address delegate sim_time_ms wait_time_ms late fits) actions c b
