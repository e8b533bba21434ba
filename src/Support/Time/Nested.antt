-- ===== src/Support/Time/Nested.antt =====
-- Timers that are started and stopped like brackets, in any number and nested in any way.
use kge.Prelude.{
  ℕ, suc, ◌+◌, ◌<◌, ◌≡◌, refl, ap, sym, ◌∙◌, ◌==◌, List, ◌∷◌, arith, if◌then◌else◌, ltb, length,
  Outcome, done, raised, undefined, Bool-cases, inl, inr, false,
}
use kge.Support.Time.{Clock, start_timer, stop_timer, elapsed, advance}
use kge.Support.Time.Nesting.{stop_timer-start_timer, sim_after}

-- A timer that runs from one time of day to another, the timers inside it, and those after it.
pub data Timers : Type 0 where
  no_timers : Timers
  timed : (from to : ℕ) (inside later : Timers) → Timers

abbrev stopped : Outcome (ℕ × Clock) → (Clock → Outcome Clock) → Outcome Clock
stopped (done (delta, c)) f = f c
stopped (raised e (delta, c)) f = raised e c
stopped undefined f = undefined

abbrev then_clock : Outcome Clock → (Clock → Outcome Clock) → Outcome Clock
then_clock (done c) f = f c
then_clock (raised e c) f = raised e c
then_clock undefined f = undefined

-- The calls of `startTimer` and `stopTimer`, each timer stopped by the identifier that it was given.
unfoldable pub go_through : Timers → Clock → Outcome Clock
go_through no_timers c = done c
go_through (timed from to inside later) c =
    let (id, d) = start_timer c from in
    then_clock (go_through inside d) λ d1. stopped (stop_timer d1 id to) λ d2. go_through later d2

-- How many run at once.
unfoldable pub depth : Timers → ℕ
depth no_timers = 0
depth (timed from to inside later) =
    if ltb (depth inside) (depth later) then depth later else suc (depth inside)

-- The sim time after the outermost timers.
unfoldable pub sim_through : Timers → ℕ → ℕ
sim_through no_timers sim = sim
sim_through (timed from to inside later) sim = sim_through later (advance sim (elapsed to from))

abbrev pub settled : Timers → Clock → Clock
settled t c = record {
  timer_stack = c.timer_stack;
  current_sim_time =
      if length c.timer_stack == 0 then sim_through t c.current_sim_time else c.current_sim_time;
}

-- Under a timer the sim time stands still.
settled_inside :
    (t : Timers) (from sim : ℕ) (below : List ℕ)
    → let c : Clock = record { timer_stack = from ∷ below; current_sim_time = sim } in
      settled t c ≡ c
settled_inside t from sim below =
    let under : (suc (length below) == 0) ≡ false = ground arith in rw under refl

settled_none : (c : Clock) → settled no_timers c ≡ c
unfolding sim_through
settled_none c = elim (Bool-cases (length c.timer_stack == 0)) [
  | inl outermost ↦ rw outermost refl
  | inr under ↦ rw under refl
]

-- After the first of the outermost timers.
settled_next :
    (from to : ℕ) (inside later : Timers) (c : Clock)
    → settled later (record { timer_stack = c.timer_stack; current_sim_time = sim_after c from to })
      ≡ settled (timed from to inside later) c
unfolding sim_through
settled_next from to inside later c = elim (Bool-cases (length c.timer_stack == 0)) [
  | inl outermost ↦ rw outermost refl
  | inr under ↦ rw under refl
]

inside_fits :
    (from to n : ℕ) (inside later : Timers)
    → n + depth (timed from to inside later) < 256
    → (n < 255) × (suc n + depth inside < 256) × (n + depth later < 256)
unfolding depth
inside_fits from to n inside later h = ground arith

-- Timers that are started and stopped like brackets, nested in any way, of which at most 255 run at once with
-- those below them: no call throws, and at the end the stack is what it was. The simulation time
-- has moved on by the time from start to stop of each outermost timer, one after the other, if no
-- timer was running below them, and else it is what it was.
pub go_through-settled :
    (t : Timers) (c : Clock)
    → length c.timer_stack + depth t < 256
    → go_through t c ≡ done (settled t c)
unfolding go_through sim_through start_timer
go_through-settled no_timers c h = ap done (sym (settled_none c))
go_through-settled (timed from to inside later) c h =
    let (few, fits, fits_later) = inside_fits from to (length c.timer_stack) inside later h in
    let (id, d) = start_timer c from in
    let next : Clock = record {
      timer_stack = c.timer_stack;
      current_sim_time = sim_after c from to;
    } in
    let first : go_through inside d ≡ done d =
      go_through-settled inside d fits
      ∙ ap done (settled_inside inside from c.current_sim_time c.timer_stack) in
    let (delta, stops, _) = stop_timer-start_timer c from to few in
    rw (go_through, first, stops)
      (go_through-settled later next fits_later ∙ ap done (settled_next from to inside later c))
