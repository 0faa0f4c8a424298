-- ===== src/Simulation/TickAccumulator/Tests.antt =====
-- The accumulator at concrete values.
use atlas_engine.Base.{◌+◌, ◌-◌, ◌*◌, ◌^◌, ◌≡◌, refl, [], ◌∷◌, arith}
use atlas_engine.Simulation.TickAccumulator.{
  Config, TickAccumulator, create, fresh, advance, advance_all, run, advances, sets_speed,
  requests_step, normal, units_per_tick, scaled,
}
use atlas_engine.Simulation.TickAccumulator.Invariant.{IsValid, run-create-IsValid}
use atlas_engine.Simulation.TickAccumulator.Drift.{
  InBudget, units, held, advance_exact, advance_all_frame_rate,
}

abbrev sixty : Config
sixty = record {
  ticks_per_second = 60;
  max_ticks_per_frame = 8;
  max_frame_ns = 250_000_000;
  unbounded_batch = 64;
}

abbrev running : TickAccumulator
running = fresh sixty

-- The same, with no limit on the frame: `create` takes it.
abbrev unlimited : Config
unlimited = record sixty { max_frame_ns = 2 ^ 64 - 1 }

running-IsValid : IsValid running
running-IsValid = omega arith

running-InBudget : InBudget running
running-InBudget = record {
  valid = running-IsValid;
  running = refl;
  frame = omega arith;
  word = omega arith;
}

two_ticks : (advance running 33_333_334).0.ticks_to_run ≡ 2
unfolding advance scaled
two_ticks = refl

run-create-IsValid_example :
    IsValid (run running (requests_step ∷ advances 7 ∷ sets_speed normal ∷ []))
unfolding create
run-create-IsValid_example =
    run-create-IsValid sixty running (requests_step ∷ advances 7 ∷ sets_speed normal ∷ []) refl

advance_exact_example :
    let (plan, b) = advance running 16_666_667 in
    (plan.ticks_to_run + plan.dropped_ticks) * (units_per_tick * 1) + held b
    ≡ units running 16_666_667 + held running
advance_exact_example = advance_exact running 16_666_667 running-InBudget

advance_all_frame_rate_example :
    advance_all running (10_000_000 ∷ 40_000_000 ∷ []) ≡ advance_all running (50_000_000 ∷ [])
advance_all_frame_rate_example =
    advance_all_frame_rate running (10_000_000 ∷ 40_000_000 ∷ []) (50_000_000 ∷ []) running-InBudget
      refl
