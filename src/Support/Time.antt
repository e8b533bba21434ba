-- ===== src/Support/Time.antt =====
-- apps/engine/include/support/Time.hpp and source/support/Time.cpp: the stack of timers and the simulation
-- time. The time of day is an argument. The F32 that `stopTimer` returns is given by its
-- numerator, the microseconds that are divided by 1000000.
pub mod Nesting
pub mod Nested
pub mod Bounds
use kge.Prelude.{
  ℕ, ◌+◌, ◌-◌, ◌*◌, ◌/◌, ◌%◌, ◌^◌, ◌==◌, not, List, [], ◌∷◌, ltb, if◌then◌else◌, length, Outcome,
  done, raised, logic_error,
}

abbrev pub u64_mod : ℕ
u64_mod = 2 ^ 64

-- `timerStack`, its back first, and `currentSimTime`, a U32.
pub record Clock : Type 0 where
  pub timer_stack : List ℕ
  pub current_sim_time : ℕ

-- `getCurrentTimeMicroseconds`, for what `gettimeofday` says.
pub current_time_microseconds : ℕ → ℕ → ℕ
current_time_microseconds seconds microseconds =
    (microseconds + 1000000 * seconds % u64_mod) % u64_mod

-- `getTimerResolutionMicroseconds`, for the nanoseconds that `clock_getres` says.
pub timer_resolution_microseconds : ℕ → ℕ
timer_resolution_microseconds nanoseconds = nanoseconds

-- `startTimer`: the identifier is the size of the stack, as a U8.
unfoldable pub start_timer : Clock → ℕ → ℕ × Clock
start_timer c now =
    let stack = now ∷ c.timer_stack in (length stack % 256, record c { timer_stack = stack })

-- `std::max(100, delta)`
abbrev at_least_100 : ℕ → ℕ
at_least_100 delta = if ltb 100 delta then delta else 100

-- The difference of two U64s, and the U32 that it is added to.
unfoldable pub elapsed : ℕ → ℕ → ℕ
elapsed now last = (now + u64_mod - last) % u64_mod

unfoldable pub advance : ℕ → ℕ → ℕ
advance sim delta = (sim + delta) % 2 ^ 32

-- `stopTimer(id)`, where the stack is split into its back and the rest.
stop_top : Clock → ℕ → ℕ → ℕ → List ℕ → Outcome (ℕ × Clock)
stop_top c id now last rest =
    if not (id == length (last ∷ rest))
    then raised logic_error (0, c)
    else (let delta = elapsed now last in
        let sim = advance c.current_sim_time delta in
        done (
          at_least_100 delta,
          record {
            timer_stack = rest;
            current_sim_time = if id == 1 then sim else c.current_sim_time;
          },
        ))

stop_stack : Clock → ℕ → ℕ → List ℕ → Outcome (ℕ × Clock)
unfolding stop_top
stop_stack c id now [] = raised logic_error (0, c)
stop_stack c id now (last ∷ rest) = stop_top c id now last rest

unfoldable pub stop_timer : Clock → ℕ → ℕ → Outcome (ℕ × Clock)
unfolding stop_stack
stop_timer c id now = stop_stack c id now c.timer_stack

pub sim_time_microseconds : Clock → ℕ
sim_time_microseconds c = c.current_sim_time

unfoldable pub sim_time_milliseconds : Clock → ℕ
sim_time_milliseconds c = c.current_sim_time / 1000
