-- ===== src/Simulation/TickAccumulator/Drift.antt =====
-- The accumulator loses no time: what comes in as nanoseconds leaves as ticks, or stays in the two
-- remainders. So the ticks that come due do not depend on how time was cut into frames.
use native.Mathlib.Nat.{div-add-mod, mod-eq_of_lt}
use atlas_engine.Base.{
  ℕ, suc, ◌+◌, ◌*◌, ◌/◌, ◌%◌, ◌^◌, ◌≤◌, ◌<◌, ◌≡◌, refl, arith, mul_mono, ap, sym, ◌∙◌, dec_lt, List,
  [], ◌∷◌, u64,
}
use atlas_engine.Simulation.TickAccumulator.{
  TickAccumulator, realtime, advance, advance_all, scaled, clamped_ns, units_per_tick,
}
use atlas_engine.Simulation.TickAccumulator.Invariant.{IsValid, advance-IsValid}

-- The budget of the comment in `create`, which `create` checks but for the frame's length.
pub record InBudget (a : TickAccumulator) : Type 0 where
  pub valid : IsValid a
  pub running : a.speed.policy ≡ realtime
  pub frame : a.config.max_frame_ns ≤ 250_000_000
  pub word : a.speed.denominator < 2 ^ 32

-- The units of one frame, with no wrap.
abbrev pub units : TickAccumulator → ℕ → ℕ
units a f = clamped_ns a f * a.config.ticks_per_second * a.speed.numerator

units_bound : (a : TickAccumulator) (f : ℕ) → InBudget a → units a f ≤ 1_600_000_000_000_000
units_bound a f b =
    mul_mono (clamped_ns a f * a.config.ticks_per_second) 25_000_000_000_000 a.speed.numerator 64
      (mul_mono (clamped_ns a f) 250_000_000 a.config.ticks_per_second 100_000
        (omega (arith, b.frame)) (omega (arith, b.valid)))
      (omega (arith, b.valid))

words_exact :
    (x n c : ℕ)
    → x < 2 ^ 64
    → x * n < 2 ^ 64
    → x * n + c < 2 ^ 64
    → u64 (u64 (u64 x * n) + c) ≡ x * n + c
words_exact x n c h k l = rw (mod-eq_of_lt h) (rw (mod-eq_of_lt k) (mod-eq_of_lt l))

scaled_exact : (a : TickAccumulator) (f : ℕ) → InBudget a → scaled a f ≡ units a f + a.carry
unfolding scaled
scaled_exact a f b =
    let first =
      mul_mono (clamped_ns a f) 250_000_000 a.config.ticks_per_second 100_000
        (omega (arith, b.frame)) (omega (arith, b.valid)) in
    let all = units_bound a f b in
    words_exact (clamped_ns a f * a.config.ticks_per_second) a.speed.numerator a.carry
      (omega (arith, first)) (omega (arith, all)) (omega (arith, all, b.word, b.valid))

div-le : (n d : ℕ) → n / d ≤ n
div-le n d = grind arith

-- One frame, with no multiplication: the units go to whole ticks and to the partial tick.
advance_frame :
    (a : TickAccumulator) (f : ℕ)
    → InBudget a
    → let (plan, b) = advance a f in
      ((plan.ticks_to_run + plan.dropped_ticks) * units_per_tick + b.accumulated
        ≡ a.accumulated + scaled a f / a.speed.denominator)
      × (b.carry ≡ scaled a f % a.speed.denominator)
      × (b.config ≡ a.config)
      × (b.speed ≡ a.speed)
      × (b.tick ≡ a.tick)
      × (b.single_step_pending ≡ a.single_step_pending)
unfolding advance
advance_frame a f b =
    ground (arith, scaled_exact a f b, units_bound a f b, div-le (scaled a f) a.speed.denominator)

-- What the accumulator holds, in the smallest unit: a nanosecond times the rate and the numerator.
abbrev pub held : TickAccumulator → ℕ
held a = a.accumulated * a.speed.denominator + a.carry

split_rest :
    (t u d q r s c : ℕ) → t * u + s ≡ c + q → t * (u * d) + (s * d + r) ≡ c * d + (q * d + r)
split_rest t u d q r s c e = grind (arith, ap (λ (n : ℕ). n * d) e)

-- For a valid accumulator at a realtime speed, with a frame limit of at most a quarter of a second
-- and a 32-bit denominator, one frame conserves time exactly: the ticks that come due, run or
-- dropped, and what stays held make up the frame, cut at the limit, and what was held before.
pub advance_exact :
    (a : TickAccumulator) (f : ℕ)
    → InBudget a
    → let (plan, b) = advance a f in
      (plan.ticks_to_run + plan.dropped_ticks) * (units_per_tick * a.speed.denominator) + held b
      ≡ units a f + held a
advance_exact a f b =
    let (whole, rest, _, same, _, _) = advance_frame a f b in
    let d = a.speed.denominator in
    rw (same, rest)
      (omega (
        arith,
        split_rest _ units_per_tick d (scaled a f / d) (scaled a f % d) _ a.accumulated whole,
        div-add-mod (scaled a f) d,
        scaled_exact a f b,
      ))

advance-InBudget : (a : TickAccumulator) (f : ℕ) → InBudget a → InBudget (advance a f).1
advance-InBudget a f b =
    let (_, _, config, speed, _, _) = advance_frame a f b in
    record {
      valid = advance-IsValid f b.valid;
      running = rw speed b.running;
      frame = rw config b.frame;
      word = rw speed b.word;
    }

abbrev pub units_all : TickAccumulator → List ℕ → ℕ
units_all a [] = 0
units_all a (f ∷ fs) = units a f + units_all a fs

same_units :
    (a b : TickAccumulator) (fs : List ℕ)
    → b.config ≡ a.config
    → b.speed ≡ a.speed
    → units_all b fs ≡ units_all a fs
same_units a b [] c s = refl
same_units a b (f ∷ fs) c s = rw (c, s, same_units a b fs c s)

-- A state after a run of frames, and the ticks that came due on the way.
pub record Conserves (a : TickAccumulator) (fs : List ℕ) (due : ℕ) (c : TickAccumulator)
    : Type 0 where
  pub time : due * (units_per_tick * a.speed.denominator) + held c ≡ units_all a fs + held a
  pub config : c.config ≡ a.config
  pub speed : c.speed ≡ a.speed
  pub tick : c.tick ≡ a.tick
  pub pending : c.single_step_pending ≡ a.single_step_pending
  pub valid : IsValid c

add_frame :
    (now later d d' after between before frame frames : ℕ) {frames' : ℕ}
    → d' ≡ d
    → frames' ≡ frames
    → now * (units_per_tick * d) + between ≡ frame + before
    → later * (units_per_tick * d') + after ≡ frames' + between
    → (now + later) * (units_per_tick * d) + after ≡ frame + frames + before
add_frame now later d d' after between before frame frames e f g h =
    omega (arith, ap (λ x. later * x) e)

pub advance_all-Conserves :
    (a : TickAccumulator) (fs : List ℕ)
    → InBudget a
    → Conserves a fs (advance_all a fs).0 (advance_all a fs).1
unfolding advance_all
advance_all-Conserves a [] b = record {
  time = omega arith;
  config = refl;
  speed = refl;
  tick = refl;
  pending = refl;
  valid = b.valid;
}
advance_all-Conserves a (f ∷ fs) b =
    let (_, _, config, speed, tick, pending) = advance_frame a f b in
    let rest = advance_all-Conserves (advance a f).1 fs (advance-InBudget a f b) in
    record {
      time =
          add_frame _ _ a.speed.denominator _ _ _ _ _ _ (ap (λ s. s.denominator) speed)
            (same_units a (advance a f).1 fs config speed) (advance_exact a f b) rest.time;
      config = rest.config ∙ config;
      speed = rest.speed ∙ speed;
      tick = rest.tick ∙ tick;
      pending = rest.pending ∙ pending;
      valid = rest.valid;
    }

unique_le : (n q r q' r' : ℕ) → r < n → q * n + r ≡ q' * n + r' → q' ≤ q
unique_le n q r q' r' h e = elim (dec_lt q q') [
  | yes less ↦ absurd (omega (arith, mul_mono (suc q) q' n n less (omega arith)))
  | no ge ↦ omega arith
]

unique_div : (n q r q' r' : ℕ) → r < n → r' < n → q * n + r ≡ q' * n + r' → (q ≡ q') × (r ≡ r')
unique_div n q r q' r' h k e = (same, omega (arith, ap (λ x. x * n) same))
  where
    same : q ≡ q'
    same = omega (arith, unique_le n q r q' r' h e, unique_le n q' r' q r k (sym e))

below_tick : (u d y z : ℕ) → y < u → z < d → y * d + z < u * d
below_tick u d y z h k = omega (arith, mul_mono (suc y) u d d h (omega arith))

unique_parts :
    (u d x y z x' y' z' : ℕ)
    → (y < u) × (z < d)
    → (y' < u) × (z' < d)
    → x * (u * d) + (y * d + z) ≡ x' * (u * d) + (y' * d + z')
    → (x ≡ x') × (y ≡ y') × (z ≡ z')
unique_parts u d x y z x' y' z' h k e =
    let whole =
      unique_div (u * d) x (y * d + z) x' (y' * d + z') (below_tick u d y z h.0 h.1)
        (below_tick u d y' z' k.0 k.1) e in
    let rest = unique_div d y z y' z' h.1 k.1 whole.1 in (whole.0, rest.0, rest.1)

agree :
    (a c c' : TickAccumulator) (fs gs : List ℕ) (due due' : ℕ)
    → Conserves a fs due c
    → Conserves a gs due' c'
    → units_all a fs ≡ units_all a gs
    → (due ≡ due') × (c.accumulated ≡ c'.accumulated) × (c.carry ≡ c'.carry)
agree a c c' fs gs due due' f g e =
    let s = ap (λ s. s.denominator) f.speed in
    let s' = ap (λ s. s.denominator) g.speed in
    unique_parts units_per_tick a.speed.denominator due c.accumulated c.carry due' c'.accumulated
      c'.carry (omega (arith, s, f.valid)) (omega (arith, s', g.valid))
      (omega
        (arith, ap (λ x. c.accumulated * x) s, ap (λ x. c'.accumulated * x) s', f.time, g.time))

-- For a valid accumulator at a realtime speed, with a frame limit of at most a quarter of a second
-- and a 32-bit denominator, the ticks that come due and the whole state reached depend on the time
-- that passed and not on how it was cut into frames: two runs of frames with the same time in all,
-- each frame cut at the limit, agree.
pub advance_all_frame_rate :
    (a : TickAccumulator) (fs gs : List ℕ)
    → InBudget a
    → units_all a fs ≡ units_all a gs
    → advance_all a fs ≡ advance_all a gs
advance_all_frame_rate a fs gs b e = ground (
  arith,
  advance_all-Conserves a fs b,
  advance_all-Conserves a gs b,
  agree a _ _ fs gs _ _ (advance_all-Conserves a fs b) (advance_all-Conserves a gs b) e,
)
