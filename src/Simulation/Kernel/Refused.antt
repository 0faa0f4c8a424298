-- ===== src/Simulation/Kernel/Refused.antt =====
-- The ticks that are refused before anything is taken from the queue.
use atlas_engine.Base.{◌+◌, ◌≡◌, refl, inl, inr, true, false, Bool-cases, u64}
use atlas_engine.Core.Error.{ok, err, invalid_argument, unavailable}
use atlas_engine.Simulation.World.{Table}
use atlas_engine.Simulation.Kernel.{Kernel, Phases, TickReport, ready, run_tick, step}

module _ {T S : Type 0} (ops : Table T) (phases : Phases T S) where
  step_unfinished :
      (k : Kernel T S)
      → k.schedule.finalised ≡ false
      → step ops phases k ≡ (err invalid_argument, k)
  unfolding step
  step_unfinished k e = rw e refl

  pub step_stalled :
      (k : Kernel T S)
      → k.schedule.finalised ≡ true
      → ready k ≡ false
      → step ops phases k
        ≡ (err unavailable, record k { stalled_steps = u64 (k.stalled_steps + 1) })
  unfolding step
  step_stalled k e h = rw (e, h) refl

  pub step-ready :
      (k : Kernel T S)
      → k.schedule.finalised ≡ true
      → ready k ≡ true
      → step ops phases k ≡ run_tick ops phases k
  unfolding step
  step-ready k e h = rw (e, h) refl

  -- A tick that was not refused has run.
  pub step-ok :
      (k : Kernel T S) (r : TickReport)
      → (step ops phases k).0 ≡ ok r
      → step ops phases k ≡ run_tick ops phases k
  step-ok k r e = elim (Bool-cases k.schedule.finalised) [
    | inr begun ↦ absurd (cc (step_unfinished k begun))
    | inl done ↦ elim (Bool-cases (ready k)) [
      | inr waits ↦ absurd (cc (step_stalled k done waits))
      | inl free ↦ step-ready k done free
    ]
  ]
