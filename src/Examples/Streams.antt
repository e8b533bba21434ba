-- ===== src/Examples/Streams.antt =====
-- The byte streams, the timers, the scheduler and the array at concrete inputs.
use kge.Prelude.{
  ℕ, ◌≡◌, refl, true, false, List, [], ◌∷◌, some, arith, throws, out_of_range, All, done,
}
use kge.Memory.{init, uninit}
use kge.Support.BitStream.{BitStream, write, read_string}
use kge.Support.BitStream.Stack.{IsValid, Pushes, write-Pushes}
use kge.Support.BitStream.RoundTrip.{Item, Restores, read_items-write_items}
use kge.Support.BitStream.RoundTrip
use kge.Support.BitStream.Strings.{read_string_throws, ReadsText, write_string-ReadsText}
use kge.Prelude.{replicate, ◌==◌, ok}
use kge.Tests.{floats_test}
use kge.Tests.Floats.{floats_test_lem}
use kge.Support.Time.{Clock}
use kge.Support.Time.Nested.{
  Timers, no_timers, timed, go_through, depth, settled, go_through-settled,
}
use kge.Support.Scheduler.{
  ScheduledEvent, Scheduler, erased_iterator, update, schedule, new_scheduler, is_removed,
  should_dispatch, dispatch_if,
}
use kge.Support.Scheduler.Overdue.{starts, stops, updates, act_all, Idle, act_all-schedule}
use kge.Support.Scheduler.Update.{Stays, update_stops, update-schedule}

-- One byte is written, and there is room for one more.
abbrev half_full : BitStream
half_full = record {
  array = some (init 7 ∷ uninit ∷ []);
  data_pointer = 1;
  data_length = 2;
  is_managing_memory = true;
}

half_full-IsValid : IsValid half_full
half_full-IsValid = record {
  sized_right = refl;
  pointer_inside = omega arith;
  fits_u32 = omega arith;
}

write-Pushes_example : Pushes half_full (5 ∷ 6 ∷ []) (write half_full (5 ∷ 6 ∷ []))
write-Pushes_example = write-Pushes half_full (5 ∷ 6 ∷ []) half_full-IsValid (omega arith)

abbrev items : List Item
items = RoundTrip.u32 70000 ∷ RoundTrip.u8 9 ∷ []

read_items-write_items_example : Restores half_full items false
read_items-write_items_example =
    read_items-write_items half_full items false half_full-IsValid (omega arith, (omega arith, tt))
      (omega arith)

-- The text "hi" with its NUL stands above the pointer.
abbrev with_text : BitStream
with_text = record {
  array = some (init 7 ∷ init 104 ∷ init 105 ∷ init 0 ∷ []);
  data_pointer = 1;
  data_length = 4;
  is_managing_memory = false;
}

with_text-IsValid : IsValid with_text
with_text-IsValid = record {
  sized_right = refl;
  pointer_inside = omega arith;
  fits_u32 = omega arith;
}

read_string_throws_example : read_string with_text 2 false ≡ throws out_of_range
read_string_throws_example =
    read_string_throws with_text with_text-IsValid (104 ∷ 105 ∷ []) [] 2 false
      (ground arith, (ground arith, tt)) refl

abbrev full_stream : BitStream
full_stream = record {
  array = some (init 7 ∷ []);
  data_pointer = 1;
  data_length = 1;
  is_managing_memory = true;
}

full_stream-IsValid : IsValid full_stream
full_stream-IsValid = record {
  sized_right = refl;
  pointer_inside = omega arith;
  fits_u32 = omega arith;
}

write_string-ReadsText_example : ReadsText full_stream (104 ∷ 105 ∷ []) true
write_string-ReadsText_example =
    write_string-ReadsText full_stream (104 ∷ 105 ∷ []) true full_stream-IsValid refl (omega arith)

abbrev idle : Clock
idle = record { timer_stack = []; current_sim_time = 500 }

-- One timer with another inside it, and one after it.
abbrev three_timers : Timers
three_timers =
    timed 1000 33000 (timed 2000 3000 no_timers no_timers) (timed 40000 41000 no_timers no_timers)

go_through-settled_example : go_through three_timers idle ≡ done (settled three_timers idle)
unfolding depth
go_through-settled_example = go_through-settled three_timers idle (omega arith)

abbrev event_at : ℕ → ℕ → ScheduledEvent
event_at address time = record {
  address = address;
  is_cancelled = false;
  trigger_time_ms = time;
  delegate = address;
}

abbrev agenda : Scheduler
agenda = record { events = event_at 1 90 ∷ event_at 2 40 ∷ event_at 3 40 ∷ []; dispatched = [] }

agenda-Stays : All (Stays 10) agenda.events
unfolding is_removed should_dispatch
agenda-Stays = (refl, (refl, (refl, tt)))

first-Stays : All (Stays 50) (event_at 1 90 ∷ [])
unfolding is_removed should_dispatch
first-Stays = (refl, tt)

second-is_removed : is_removed (event_at 2 40) 50 ≡ true
unfolding is_removed should_dispatch
second-is_removed = refl

update_stops_example :
    update agenda 50
    ≡ erased_iterator (record {
      events = event_at 1 90 ∷ event_at 3 40 ∷ [];
      dispatched = dispatch_if (should_dispatch (event_at 2 40) 50) 2 [];
    })
update_stops_example =
    update_stops agenda 50 (event_at 1 90 ∷ []) (event_at 3 40 ∷ []) (event_at 2 40) refl
      first-Stays second-is_removed

update-schedule_example :
    (update (schedule new_scheduler 1 false 7 100 50) 200
      ≡ erased_iterator (record { events = []; dispatched = 7 ∷ [] }))
    × (update (schedule new_scheduler 1 true 7 100 50) 200
        ≡ erased_iterator (record { events = []; dispatched = [] }))
update-schedule_example = update-schedule 1 7 100 50 200 (omega arith)

abbrev an_hour : Clock
an_hour = record { timer_stack = []; current_sim_time = 3600000000 }

-- An hour after the start, an event for a quarter of an hour later.
act_all-schedule_example :
    let s = schedule new_scheduler 1 false 7 3600000 900000 in
    Idle s (act_all (starts 5 ∷ updates ∷ stops 1 1000000005 ∷ updates ∷ []) an_hour s)
act_all-schedule_example =
    act_all-schedule (starts 5 ∷ updates ∷ stops 1 1000000005 ∷ updates ∷ []) an_hour 1 7 3600000
      900000 (omega arith) (omega arith) (omega arith)

abbrev two_numbers : List ℕ
two_numbers = 4 ∷ 5 ∷ []

-- 3.14159 and 1337.125, and a stream that is 3 bytes too small.
floats_test_lem_example :
    floats_test 3 (0x4049_0FD0 ∷ 0x44A7_2400 ∷ []) false ≡ ok ((3 == 0) ∷ replicate 2 true)
floats_test_lem_example =
    floats_test_lem 3 (0x4049_0FD0 ∷ 0x44A7_2400 ∷ []) false (omega arith) (omega arith)
      (omega arith) ((omega arith, refl), ((omega arith, refl), tt))
