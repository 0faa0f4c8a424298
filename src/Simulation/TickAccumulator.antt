-- ===== src/Simulation/TickAccumulator.antt =====
-- engine/simulation/include/atlas/simulation/tick_accumulator.hpp and src/tick_accumulator.cpp: how
-- many ticks to run for an elapsed time. Words keep their wrap-around. `alpha`, a float, is kept as
-- the numerator of the fraction that the source divides by `units_per_tick`; the rounding of that
-- division is not modelled. The assertions of `set_speed` are followed by the code that repairs
-- what they reject, and that code is modelled.
pub mod Invariant
pub mod Drift
mod Tests
use atlas_engine.Base.{
  ℕ, ◌+◌, ◌-◌, ◌*◌, ◌/◌, ◌%◌, ◌^◌, Bool, true, false, not, ◌||◌, min, List, [], ◌∷◌, ltb, ◌==◌,
  if◌then◌else◌, u32, u64,
}
use atlas_engine.Core.Error.{Result, ok, err, invalid_argument}

pub data SpeedPolicy : Type 0 where
  paused single_step realtime unbounded : SpeedPolicy

pub record Speed : Type 0 where
  pub policy : SpeedPolicy
  pub numerator : ℕ
  pub denominator : ℕ

abbrev pub normal : Speed
normal = record { policy = realtime; numerator = 1; denominator = 1 }

pub record Config : Type 0 where
  pub ticks_per_second : ℕ
  pub max_ticks_per_frame : ℕ
  pub max_frame_ns : ℕ
  pub unbounded_batch : ℕ

abbrev pub max_ticks_per_second : ℕ
max_ticks_per_second = 100_000

abbrev pub max_speed_numerator : ℕ
max_speed_numerator = 64

-- One tick, in nanoseconds scaled by the tick rate.
abbrev pub units_per_tick : ℕ
units_per_tick = 1_000_000_000

pub record TickPlan : Type 0 where
  pub ticks_to_run : ℕ
  pub dropped_ticks : ℕ
  pub fell_behind : Bool
  pub alpha : ℕ

pub record TickAccumulator : Type 0 where
  pub config : Config
  pub speed : Speed
  pub accumulated : ℕ
  pub carry : ℕ
  pub tick : ℕ
  pub single_step_pending : Bool

abbrev pub fresh : Config → TickAccumulator
fresh c = record {
  config = c;
  speed = normal;
  accumulated = 0;
  carry = 0;
  tick = 0;
  single_step_pending = false;
}

pub create : Config → Result TickAccumulator
create c =
    if c.ticks_per_second == 0 || ltb max_ticks_per_second c.ticks_per_second
    then err invalid_argument
    else if c.max_ticks_per_frame == 0
    then err invalid_argument
    else if c.unbounded_batch == 0
    then err invalid_argument
    else if c.max_frame_ns == 0
    then err invalid_argument
    else ok (fresh c)

-- The speed that `set_speed` keeps.
abbrev repaired : Speed → Speed
repaired s = record s {
  denominator = if s.denominator == 0 then 1 else s.denominator;
  numerator = min s.numerator max_speed_numerator;
}

abbrev is_single_step : SpeedPolicy → Bool
is_single_step p = elim p [ single_step ↦ true | _ ↦ false ]

pub set_speed : TickAccumulator → Speed → TickAccumulator
set_speed a s = record a {
  speed = repaired s;
  carry = if (repaired s).denominator == a.speed.denominator then a.carry else 0;
  single_step_pending = if is_single_step s.policy then a.single_step_pending else false;
}

pub request_single_step : TickAccumulator → TickAccumulator
request_single_step a = record a {
  speed = record (a.speed) { policy = single_step };
  single_step_pending = true;
}

pub commit : TickAccumulator → ℕ → TickAccumulator
commit a executed = record a { tick = u64 (a.tick + executed) }

pub set_tick : TickAccumulator → ℕ → TickAccumulator
set_tick a t = record a { tick = t; accumulated = 0; carry = 0 }

pub reset : TickAccumulator → TickAccumulator
reset a = record a { accumulated = 0; carry = 0; tick = 0; single_step_pending = false }

abbrev idle : TickAccumulator → TickPlan
idle a = record { ticks_to_run = 0; dropped_ticks = 0; fell_behind = false; alpha = a.accumulated }

-- The steps of `advance` under the realtime policy.
abbrev pub clamped_ns : TickAccumulator → ℕ → ℕ
clamped_ns a frame_ns = min frame_ns a.config.max_frame_ns

abbrev pub denominator_of : TickAccumulator → ℕ
denominator_of a = if a.speed.denominator == 0 then 1 else a.speed.denominator

pub scaled : TickAccumulator → ℕ → ℕ
scaled a frame_ns =
    u64
      (u64 (u64 (clamped_ns a frame_ns * a.config.ticks_per_second) * a.speed.numerator) + a.carry)

advance_realtime : TickAccumulator → ℕ → TickPlan × TickAccumulator
advance_realtime a frame_ns =
    let sum = u64 (a.accumulated + scaled a frame_ns / denominator_of a) in
    let available = sum / units_per_tick in
    let capped = min available a.config.max_ticks_per_frame in
    let dropped = u32 (available - capped) in
    (
      record {
        ticks_to_run = u32 capped;
        dropped_ticks = dropped;
        fell_behind = ltb 0 dropped;
        alpha = sum % units_per_tick;
      },
      record a { accumulated = sum % units_per_tick; carry = scaled a frame_ns % denominator_of a },
    )

advance_single : TickAccumulator → Bool → TickPlan × TickAccumulator
advance_single a false = (idle a, a)
advance_single a true = (
  record { ticks_to_run = 1; dropped_ticks = 0; fell_behind = false; alpha = 0 },
  record a {
    speed = record (a.speed) { policy = paused };
    accumulated = 0;
    carry = 0;
    single_step_pending = false;
  },
)

pub advance : TickAccumulator → ℕ → TickPlan × TickAccumulator
unfolding advance_realtime advance_single
advance a frame_ns = elim a.speed.policy [
  | paused ↦ (idle a, a)
  | single_step ↦ advance_single a a.single_step_pending
  | unbounded ↦ (
    record {
      ticks_to_run = a.config.unbounded_batch;
      dropped_ticks = 0;
      fell_behind = false;
      alpha = units_per_tick;
    },
    a,
  )
  | realtime ↦ advance_realtime a frame_ns
]

-- A run of frames, with every tick that came due, run or dropped.
pub advance_all : TickAccumulator → List ℕ → ℕ × TickAccumulator
advance_all a [] = (0, a)
advance_all a (f ∷ fs) =
    let (plan, b) = advance a f in
    let (due, c) = advance_all b fs in (plan.ticks_to_run + plan.dropped_ticks + due, c)

pub data Op : Type 0 where
  sets_speed : Speed → Op
  requests_step : Op
  commits sets_tick advances : ℕ → Op
  resets : Op

pub step : TickAccumulator → Op → TickAccumulator
step a (sets_speed s) = set_speed a s
step a requests_step = request_single_step a
step a (commits n) = commit a n
step a (sets_tick t) = set_tick a t
step a (advances frame_ns) = (advance a frame_ns).1
step a resets = reset a

pub run : TickAccumulator → List Op → TickAccumulator
run a [] = a
run a (o ∷ os) = run (step a o) os
