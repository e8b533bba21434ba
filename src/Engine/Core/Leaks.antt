-- ===== src/Engine/Core/Leaks.antt =====
-- What exceptions leave behind over a whole run.
use kge.Prelude.{
  ◌+◌, ◌≤◌, ◌<◌, ◌≡◌, refl, ◌==◌, ◌∙◌, List, [], ◌∷◌, arith, length, Outcome, done, raised,
  undefined, ◌⊎◌, inl, inr, Bool-cases,
}
use kge.Game.HandShake.{HandShake}
use kge.Engine.Core.{Core, FrameInput, then_do, frame, run_loop, disconnect_client}
use kge.Engine.Core.Frames.{Ends, Never, Keeps, timed, leaked, frame_lem, disconnect_client_lem}

-- There is one timer running for each exception that was reported, and once there is one, the simulation
-- time stands where it stood.
pub record Leaked (before after : Core) : Type 0 where
  pub one_each : length after.clock.timer_stack ≡ after.reports
  pub grown : before.reports ≤ after.reports
  pub frozen : (before.reports ≡ 0) ⊎ (after.clock.current_sim_time ≡ before.clock.current_sim_time)

Leaked-trans : (a b c : Core) → Leaked a b → Leaked b c → Leaked a c
Leaked-trans a b c p q = record {
  one_each = q.one_each;
  grown = omega (arith, p.grown, q.grown);
  frozen = elim p.frozen [
    | inl none_before ↦ inl none_before
    | inr same ↦ elim q.frozen [
      | inl none_after ↦ inl (omega (arith, p.grown, none_after))
      | inr same_after ↦ inr (same_after ∙ same)
    ]
  ];
}

module _ (old : HandShake) where
  Leaked-timed :
      (k k' : Core) (f : FrameInput)
      → length k.clock.timer_stack ≡ k.reports
      → Keeps (timed k.clock f) k.reports k'
      → Leaked k k'
  Leaked-timed k k' f e (same, counted) = record {
    one_each = rw (same, counted) e;
    grown = omega (arith, counted);
    frozen = elim (Bool-cases (k.reports == 0)) [
      | inl none_yet ↦ inl (ground arith)
      | inr some_already ↦ inr (rw same (ground (arith, e, some_already)))
    ];
  }

  Leaked-leaked :
      (k k' : Core) (f : FrameInput)
      → length k.clock.timer_stack ≡ k.reports
      → Keeps (leaked k.clock f) (k.reports + 1) k'
      → Leaked k k'
  Leaked-leaked k k' f e (same, counted) = record {
    one_each = rw (same, counted) (omega (arith, e));
    grown = omega (arith, counted);
    frozen = inr (rw same refl);
  }

  frame-Leaked :
      (k : Core) (f : FrameInput)
      → length k.clock.timer_stack ≡ k.reports
      → k.reports < 255
      → Ends (λ k'. (Leaked k k') × (k'.reports ≤ k.reports + 1)) Never (frame old k f)
  frame-Leaked k f e few = weaken (frame old k f) (frame_lem old k f (omega (arith, e)))
    where
      weaken :
          (o : Outcome Core)
          → Ends
              (λ k'.
                (Keeps (timed k.clock f) k.reports k')
                ⊎ (Keeps (leaked k.clock f) (k.reports + 1) k'))
              Never
              o
          → Ends (λ k'. (Leaked k k') × (k'.reports ≤ k.reports + 1)) Never o
      weaken (done k') (inl h) = (Leaked-timed k k' f e h, omega (arith, h.1))
      weaken (done k') (inr h) = (Leaked-leaked k k' f e h, omega (arith, h.1))
      weaken (raised x k') h = elim h [ ]
      weaken undefined h = tt

  stopped-Leaked :
      (k : Core)
      → length k.clock.timer_stack ≡ k.reports
      → Ends (Leaked k) Never (disconnect_client old k)
  stopped-Leaked k e =
      rw (disconnect_client_lem old k)
        (record { one_each = e; grown = omega arith; frozen = inr refl })

  carry :
      (k k' : Core) (o : Outcome Core)
      → Leaked k k'
      → Ends (Leaked k') Never o
      → Ends (Leaked k) Never o
  carry k k' (done k'') p q = Leaked-trans k k' k'' p q
  carry k k' (raised x k'') p q = q
  carry k k' undefined p q = tt

  continue :
      (k : Core) (fs : List FrameInput) (o : Outcome Core)
      → Ends (λ k'. (Leaked k k') × (k'.reports ≤ k.reports + 1)) Never o
      → ((k' : Core)
          → Leaked k k'
          → k'.reports ≤ k.reports + 1
          → Ends (Leaked k') Never (run_loop old k' fs))
      → Ends (Leaked k) Never (then_do o λ k'. run_loop old k' fs)
  continue k fs (done k') (p, few) next = carry k k' (run_loop old k' fs) p (next k' p few)
  continue k fs (raised x k') h next = h
  continue k fs undefined h next = tt

  -- A run that starts with as many timers running as exceptions were reported, and whose reports
  -- and frames together number fewer than 256: no exception leaves the loop, at its end there is
  -- one timer running for each report, and if there was a report before the loop, the simulation
  -- time has not moved in it.
  pub run_loop-Leaked :
      (k : Core) (fs : List FrameInput)
      → length k.clock.timer_stack ≡ k.reports
      → k.reports + length fs < 256
      → Ends (Leaked k) Never (run_loop old k fs)
  unfolding run_loop
  run_loop-Leaked k [] e few = stopped-Leaked k e
  run_loop-Leaked k (f ∷ fs) e few = elim (Bool-cases k.running) [
    | inl running ↦ simp running (
        continue k fs (frame old k f) (frame-Leaked k f e (omega (arith, few)))
          λ k' p few'. run_loop-Leaked k' fs p.one_each (omega (arith, few, few')))
    | inr stopped ↦ simp stopped (stopped-Leaked k e)
  ]
