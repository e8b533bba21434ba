-- ===== src/Support/Time/Nesting.antt =====
-- Timers that are stopped in the order opposite to their start.
use kge.Prelude.{
  ℕ, suc, ◌%◌, ◌≤◌, ◌<◌, ◌≡◌, refl, ◌==◌, inl, inr, List, [], ◌∷◌, arith, if◌then◌else◌, length,
  Bool-cases, Outcome, done, raised, undefined, logic_error, false,
}
use kge.Support.Time.{
  Clock, start_timer, stop_timer, stop_stack, stop_top, elapsed, advance, at_least_100,
}

-- The sim time after a stretch from `from` to `to` under the outermost timer, or under an inner one.
abbrev pub sim_after : Clock → ℕ → ℕ → ℕ
sim_after c from to =
    if length c.timer_stack == 0
    then advance c.current_sim_time (elapsed to from)
    else c.current_sim_time

-- Stopping the timer that was started last, with fewer than 255 below it, takes the clock back to the
-- stack that it had; the simulation time moves on by the time between, and only if no other timer
-- was running. The result is at least 100 microseconds.
pub stop_timer-start_timer :
    (c : Clock) (from to : ℕ)
    → length c.timer_stack < 255
    → let (id, d) = start_timer c from in
      (t : ℕ) × (stop_timer d id to
        ≡ done (t, record { timer_stack = c.timer_stack; current_sim_time = sim_after c from to }))
      × (100 ≤ t)
unfolding start_timer stop_timer stop_stack stop_top
stop_timer-start_timer c from to h =
    let n : (suc (length c.timer_stack) % 256) ≡ suc (length c.timer_stack) = omega arith in
    (at_least_100 (elapsed to from), ground (arith, n), ground arith)

-- With 255 timers or more below it, the timer that was started last is not found by its identifier, a U8.
pub stop_timer_throws :
    (c : Clock) (from to : ℕ)
    → 255 ≤ length c.timer_stack
    → let (id, d) = start_timer c from in
      stop_timer d id to ≡ raised logic_error (0, record c { timer_stack = from ∷ c.timer_stack })
unfolding start_timer stop_timer stop_stack stop_top
stop_timer_throws c from to h =
    let other : (suc (length c.timer_stack) % 256 == suc (length c.timer_stack)) ≡ false =
      ground arith in
    rw other refl

-- `stopTimer` returns or throws.
abbrev pub Ends : Outcome (ℕ × Clock) → Type 0
Ends (done p) = Unit
Ends (raised e p) = Unit
Ends undefined = ⊥

pub stop_timer-Ends : (c : Clock) (id now : ℕ) → Ends (stop_timer c id now)
unfolding stop_timer stop_stack stop_top
stop_timer-Ends c id now = go c.timer_stack refl
  where
    go : (stack : List ℕ) → c.timer_stack ≡ stack → Ends (stop_timer c id now)
    go [] e = simp (stop_timer, e) tt
    go (last ∷ rest) e = elim (Bool-cases (id == length (last ∷ rest))) [
      | inl same ↦ simp (stop_timer, e) (rw (stop_stack, same) tt)
      | inr other ↦ simp (stop_timer, e) (rw (stop_stack, other) tt)
    ]
