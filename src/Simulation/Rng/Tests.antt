-- ===== src/Simulation/Rng/Tests.antt =====
-- The random streams at concrete inputs.
use atlas_engine.Base.{ℕ, ◌+◌, ◌-◌, ◌*◌, ◌^◌, ◌<◌, ◌≡◌, refl, arith, true, some}
use atlas_engine.Simulation.Rng.{
  next_in_range, signed_le, RngStream, new_stream, widening_multiply, next_below, carry, mix,
  next_u64, threshold,
}
use atlas_engine.Simulation.Rng.Widening.{widening_multiply-exact}
use atlas_engine.Simulation.Rng.Range.{count_in, next_in_range-within}
use atlas_engine.Simulation.Rng.Below.{after, accepts, next_below_lt}

abbrev weather : RngStream
weather = new_stream 42 7 100

carries : widening_multiply (2 ^ 64 - 1) (2 ^ 64 - 1) ≡ record { high = 2 ^ 64 - 2; low = 1 }
unfolding widening_multiply carry
carries = refl

third_accepted : accepts (after 2 weather) 6 ≡ true
unfolding accepts after next_u64 mix widening_multiply carry threshold new_stream
third_accepted = refl

widening_multiply-exact_example :
    let p = widening_multiply (2 ^ 63 + 5) (2 ^ 64 - 3) in
    (p.high * 2 ^ 64 + p.low ≡ (2 ^ 63 + 5) * (2 ^ 64 - 3)) × (p.high < 2 ^ 64) × (p.low < 2 ^ 64)
widening_multiply-exact_example =
    widening_multiply-exact (2 ^ 63 + 5) (2 ^ 64 - 3) (omega arith) (omega arith)

next_below_lt_example : (v : ℕ) × (t : RngStream) × (next_below 8 weather 6 ≡ some (v, t)) × (v < 6)
next_below_lt_example =
    next_below_lt 8 2 weather 6 (omega arith) (omega arith) (omega arith) third_accepted

third_in_range : accepts (after 2 weather) (count_in (2 ^ 64 - 3) 3) ≡ true
unfolding accepts after next_u64 mix widening_multiply carry threshold new_stream
third_in_range = refl

-- From minus three to three.
next_in_range-within_example :
    (v : ℕ) × (t : RngStream) × (next_in_range 8 weather (2 ^ 64 - 3) 3 ≡ some (v, t))
    × (signed_le (2 ^ 64 - 3) v ≡ true)
    × (signed_le v 3 ≡ true)
next_in_range-within_example =
    next_in_range-within 8 2 weather (2 ^ 64 - 3) 3 (omega arith) (omega arith) refl (omega arith)
      third_in_range

-- Over the whole range of the type the count wraps to zero, and nothing is drawn.
whole_range : next_in_range 8 weather (2 ^ 63) (2 ^ 63 - 1) ≡ some (2 ^ 63, weather)
unfolding next_in_range next_below
whole_range = refl
