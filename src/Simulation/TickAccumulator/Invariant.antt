-- ===== src/Simulation/TickAccumulator/Invariant.antt =====
-- The ranges that the header promises for the accumulator's fields, and what a plan may ask for.
use atlas_engine.Base.{ℕ, ◌≤◌, ◌<◌, ◌≡◌, ◌≢◌, ◌↔◌, true, refl, arith, List, [], ◌∷◌}
use atlas_engine.Core.Error.{ok}
use atlas_engine.Simulation.TickAccumulator.{
  Config, Speed, paused, unbounded, TickAccumulator, create, set_speed, request_single_step, commit,
  set_tick, reset, advance, Op, sets_speed, requests_step, commits, sets_tick, advances, resets,
  step, run, fresh, max_ticks_per_second, max_speed_numerator, units_per_tick,
}

pub record IsConfig (c : Config) : Type 0 where
  pub rate : (1 ≤ c.ticks_per_second) × (c.ticks_per_second ≤ max_ticks_per_second)
  pub per_frame : 1 ≤ c.max_ticks_per_frame
  pub frame : 1 ≤ c.max_frame_ns
  pub batch : 1 ≤ c.unbounded_batch

pub record IsValid (a : TickAccumulator) : Type 0 where
  pub valid_config : IsConfig a.config
  pub partial_tick : a.accumulated < units_per_tick
  pub partial_ns : a.carry < a.speed.denominator
  pub slow : a.speed.numerator ≤ max_speed_numerator

-- `create` succeeds exactly on the configurations in range, and what it makes is valid.
pub create_iff :
    (c : Config)
    → (IsConfig c → create c ≡ ok (fresh c))
      × ((a : TickAccumulator) → create c ≡ ok a → IsConfig c × IsValid a)
unfolding create
create_iff c = (λ h. ground arith, λ a e. ground arith)

set_speed-IsValid : {a : TickAccumulator} (s : Speed) → IsValid a → IsValid (set_speed a s)
unfolding set_speed
set_speed-IsValid s v = ground arith

pub advance-IsValid :
    {a : TickAccumulator} (frame_ns : ℕ) → IsValid a → IsValid (advance a frame_ns).1
unfolding advance
advance-IsValid {a} frame_ns v = ground arith

step-IsValid : {a : TickAccumulator} (o : Op) → IsValid a → IsValid (step a o)
unfolding step request_single_step commit set_tick reset
step-IsValid (sets_speed s) v = set_speed-IsValid s v
step-IsValid (advances frame_ns) v = advance-IsValid frame_ns v
step-IsValid requests_step v = ground arith
step-IsValid (commits n) v = ground arith
step-IsValid (sets_tick t) v = ground arith
step-IsValid resets v = ground arith

run-IsValid : {a : TickAccumulator} (os : List Op) → IsValid a → IsValid (run a os)
unfolding run
run-IsValid {a} [] v = v
run-IsValid {a} (o ∷ os) v = run-IsValid {a = step a o} os (step-IsValid o v)

-- Whatever calls follow a successful `create`, the partial tick stays under one tick, the carry
-- under the denominator, which is not zero, and the speed under its limit.
pub run-create-IsValid :
    (c : Config) (a : TickAccumulator) (os : List Op) → create c ≡ ok a → IsValid (run a os)
run-create-IsValid c a os e = run-IsValid os ((create_iff c).1 a e).1

-- From a valid accumulator whose policy is not unbounded, a plan asks for no more ticks than the
-- clamp allows, and reports falling behind exactly when it drops ticks.
pub advance_bounds :
    (a : TickAccumulator) (frame_ns : ℕ)
    → a.speed.policy ≢ unbounded
    → IsValid a
    → ((advance a frame_ns).0.ticks_to_run ≤ a.config.max_ticks_per_frame)
      × (((advance a frame_ns).0.fell_behind ≡ true) ↔ (0 < (advance a frame_ns).0.dropped_ticks))
unfolding advance
advance_bounds a frame_ns ne v = ground arith

-- Once a single step is requested, the next frame runs one tick and pauses, and the frame after it
-- runs nothing and leaves the accumulator as it is, whatever time passes.
pub advance_stepped :
    (a : TickAccumulator) (f g : ℕ)
    → let b = request_single_step a in
      ((advance b f).0.ticks_to_run ≡ 1)
      × ((advance b f).1.speed.policy ≡ paused)
      × ((advance (advance b f).1 g).0.ticks_to_run ≡ 0)
      × ((advance (advance b f).1 g).1 ≡ (advance b f).1)
unfolding advance request_single_step
advance_stepped a f g = (refl, refl, refl, refl)
