-- ===== src/Engine/Core/Safe.antt =====
-- Steps of a frame that end without a fault.
use kge.Prelude.{ℕ, Outcome, done, raised, undefined}
use kge.Support.Time.{Clock, stop_timer}
use kge.Support.Time.Nesting.{Ends, stop_timer-Ends}
use kge.Engine.Core.{Core, then_do, clock_step, with_clock}

-- Outcomes that are no fault, by what holds at a return and at an exception.
abbrev pub Safe : (Core → Type 0) → (Core → Type 0) → Outcome Core → Type 0
Safe P Q (done k) = P k
Safe P Q (raised e k) = Q k
Safe P Q undefined = ⊥

pub then_do-Safe :
    (P P' Q : Core → Type 0) (o : Outcome Core) (f : Core → Outcome Core)
    → Safe P Q o
    → ((k : Core) → P k → Safe P' Q (f k))
    → Safe P' Q (then_do o f)
then_do-Safe P P' Q (done k) f h next = next k h
then_do-Safe P P' Q (raised e k) f h next = h
then_do-Safe P P' Q undefined f h next = h

module _ (P : Core → Type 0) where
  with_clock-Safe :
      (k : Core) (o : Outcome (ℕ × Clock))
      → ((delta : ℕ) (clock : Clock) → P (record k { clock = clock; delta_time = delta }))
      → P k
      → Ends o
      → Safe P P (with_clock k o)
  with_clock-Safe k (done (delta, clock)) stepped kept e = stepped delta clock
  with_clock-Safe k (raised x p) stepped kept e = kept
  with_clock-Safe k undefined stepped kept e = absurd e

  -- The last step of a frame, for what does not speak of the timers.
  pub clock_step-Safe :
      (timer_id now : ℕ) (k : Core)
      → ((delta : ℕ) (clock : Clock) → P (record k { clock = clock; delta_time = delta }))
      → P k
      → Safe P P (clock_step timer_id now k)
  clock_step-Safe timer_id now k stepped kept =
      with_clock-Safe k (stop_timer k.clock timer_id now) stepped kept
        (stop_timer-Ends k.clock timer_id now)
