-- ===== src/Support/Time/Bounds.antt =====
-- The simulation time is a U32.
use kge.Prelude.{
  ℕ, ◌^◌, ◌≤◌, ◌<◌, ◌≡◌, refl, ◌==◌, Bool, true, false, Bool-cases, inl, inr, List, [], ◌∷◌, arith,
  length, if◌then◌else◌, Outcome, done, raised, undefined, Result, ok, fault,
}
use kge.Support.Time.{
  Clock, start_timer, stop_timer, stop_stack, stop_top, advance, elapsed, sim_time_milliseconds,
}

abbrev pub IsBounded : Clock → Type 0
IsBounded c = c.current_sim_time < 2 ^ 32

-- The clock after `stopTimer`, whether it returns or throws.
abbrev pub clock_after : Outcome (ℕ × Clock) → Result Clock
clock_after (done (seconds, c)) = ok c
clock_after (raised e (seconds, c)) = ok c
clock_after undefined = fault

-- A call that comes to an end with a simulation time in bounds.
pub record Bounded (r : Result Clock) : Type 0 where
  pub clock : Clock
  pub inside : IsBounded clock
  pub returned : r ≡ ok clock

advanced :
    (first : Bool) (sim delta : ℕ)
    → sim < 2 ^ 32
    → (if first then advance sim delta else sim) < 2 ^ 32
unfolding advance
advanced true sim delta b = omega arith
advanced false sim delta b = b

stop_top-Bounded :
    (c : Clock) (timer now last : ℕ) (rest : List ℕ)
    → IsBounded c
    → Bounded (clock_after (stop_top c timer now last rest))
unfolding stop_top
stop_top-Bounded c timer now last rest b = elim (Bool-cases (timer == length (last ∷ rest))) [
  | inr e ↦ record { clock = c; inside = b; returned = rw e refl }
  | inl e ↦ record {
    clock = record {
      timer_stack = rest;
      current_sim_time =
          if timer == 1 then advance c.current_sim_time (elapsed now last) else c.current_sim_time;
    };
    inside = advanced (timer == 1) c.current_sim_time (elapsed now last) b;
    returned = rw e refl;
  }
]

stop_stack-Bounded :
    (c : Clock) (timer now : ℕ) (stack : List ℕ)
    → IsBounded c
    → Bounded (clock_after (stop_stack c timer now stack))
unfolding stop_stack
stop_stack-Bounded c timer now [] b = record { clock = c; inside = b; returned = refl }
stop_stack-Bounded c timer now (last ∷ rest) b = stop_top-Bounded c timer now last rest b

pub stop_timer-Bounded :
    (c : Clock) (timer now : ℕ) → IsBounded c → Bounded (clock_after (stop_timer c timer now))
unfolding stop_timer
stop_timer-Bounded c timer now b = stop_stack-Bounded c timer now c.timer_stack b

pub start_timer-IsBounded :
    (c : Clock) (now : ℕ) → IsBounded c → (let (timer, c1) = start_timer c now in IsBounded c1)
unfolding start_timer
start_timer-IsBounded c now b = b

-- The milliseconds of a U32 of microseconds.
pub sim_time_milliseconds-IsBounded : (c : Clock) → IsBounded c → sim_time_milliseconds c ≤ 4294967
unfolding sim_time_milliseconds
sim_time_milliseconds-IsBounded c b = omega (arith, b)
