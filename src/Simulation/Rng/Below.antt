-- ===== src/Simulation/Rng/Below.antt =====
-- The bounded draw: it returns as soon as some draw is accepted, and what it returns is in bounds.
use native.Mathlib.Nat.{mod-lt}
use atlas_engine.Base.{
  ℕ, zero, suc, ◌+◌, ◌-◌, ◌^◌, ◌≤◌, ◌<◌, ◌≡◌, refl, ◌∙◌, arith, mul_mono, Option, none, some, Bool,
  true, ltb, leb, leb→le, if◌then◌else◌, u64, dec_lt,
}
use atlas_engine.Simulation.Rng.{
  RngStream, Product, next_u64, mix, widening_multiply, threshold, redraw, next_below,
}
use atlas_engine.Simulation.Rng.Widening.{widening_multiply-exact}

-- The stream after a number of draws.
unfoldable pub after : ℕ → RngStream → RngStream
after zero s = s
after (suc k) s = after k (next_u64 s).1

-- The product of the next draw and the bound.
abbrev pub drawn : RngStream → ℕ → Product
drawn s bound = widening_multiply (next_u64 s).0 bound

-- The plain loop: draw until a draw is not below the threshold.
pub reject : ℕ → RngStream → ℕ → Option (ℕ × RngStream)
reject zero s bound = none
reject (suc fuel) s bound =
    let rest = reject fuel (next_u64 s).1 bound in
    if ltb (drawn s bound).low (threshold bound)
    then rest
    else some ((drawn s bound).high, (next_u64 s).1)

redraw-reject :
    (fuel : ℕ) (s : RngStream) (bound : ℕ)
    → redraw fuel bound (drawn s bound) (next_u64 s).1 ≡ reject fuel s bound
unfolding redraw reject
redraw-reject zero s bound = refl
redraw-reject (suc fuel) s bound = rw (redraw-reject fuel (next_u64 s).1 bound) refl

threshold_lt : (bound : ℕ) → 0 < bound → bound < 2 ^ 64 → threshold bound < bound
unfolding threshold
threshold_lt bound z h = mod-lt (u64 (2 ^ 64 - 1 - bound + 1)) z

-- For a bound that is a 64-bit word and not zero, and at least one draw of fuel, the early return for
-- a product whose low half reaches the bound changes nothing: the result is that of the plain loop.
pub next_below-reject :
    (fuel : ℕ) (s : RngStream) (bound : ℕ)
    → 0 < fuel
    → 0 < bound
    → bound < 2 ^ 64
    → next_below fuel s bound ≡ reject fuel s bound
unfolding next_below reject
next_below-reject zero s bound f z h = absurd (omega arith)
next_below-reject (suc fuel) s bound f z h =
    ground (arith, threshold_lt bound z h, redraw-reject (suc fuel) s bound)

next_u64_lt : (s : RngStream) → (next_u64 s).0 < 2 ^ 64
unfolding next_u64 mix
next_u64_lt s = omega arith

drawn_lt : (s : RngStream) (bound : ℕ) → 0 < bound → bound < 2 ^ 64 → (drawn s bound).high < bound
drawn_lt s bound z h =
    let (exact, high, low) = widening_multiply-exact (next_u64 s).0 bound (next_u64_lt s) h in
    omega (
      arith,
      mul_mono (next_u64 s).0 18446744073709551615 bound bound (omega (arith, next_u64_lt s))
          (omega arith),
    )

-- A draw that the rejection loop takes.
unfoldable pub accepts : RngStream → ℕ → Bool
accepts s bound = leb (threshold bound) (drawn s bound).low

reject_taken :
    (fuel : ℕ) (s : RngStream) (bound : ℕ)
    → threshold bound ≤ (drawn s bound).low
    → reject (suc fuel) s bound ≡ some ((drawn s bound).high, (next_u64 s).1)
unfolding reject
reject_taken fuel s bound h = ground arith

reject_again :
    (fuel : ℕ) (s : RngStream) (bound : ℕ)
    → (drawn s bound).low < threshold bound
    → reject (suc fuel) s bound ≡ reject fuel (next_u64 s).1 bound
unfolding reject
reject_again fuel s bound h = ground arith

reject-bounded :
    (fuel k : ℕ) (s : RngStream) (bound : ℕ)
    → 0 < bound
    → bound < 2 ^ 64
    → k < fuel
    → accepts (after k s) bound ≡ true
    → (v : ℕ) × (t : RngStream) × (reject fuel s bound ≡ some (v, t)) × (v < bound)
unfolding after accepts
reject-bounded zero k s bound z h l a = absurd (omega arith)
reject-bounded (suc fuel) zero s bound z h l a = (
  (drawn s bound).high,
  (next_u64 s).1,
  reject_taken fuel s bound (leb→le (threshold bound) (drawn s bound).low a),
  drawn_lt s bound z h,
)
reject-bounded (suc fuel) (suc k) s bound z h l a =
    elim (dec_lt (drawn s bound).low (threshold bound)) [
      | yes refused ↦
          let (v, t, e, b) = reject-bounded fuel k (next_u64 s).1 bound z h (omega arith) a in
          (v, t, reject_again fuel s bound refused ∙ e, b)
      | no taken ↦ (
        (drawn s bound).high,
        (next_u64 s).1,
        reject_taken fuel s bound (omega arith),
        drawn_lt s bound z h,
      )
    ]

-- For a bound that is a 64-bit word and not zero: if one of the draws that the fuel allows is not
-- below the threshold, the bounded draw returns a value, and the value is below the bound.
pub next_below_lt :
    (fuel k : ℕ) (s : RngStream) (bound : ℕ)
    → 0 < bound
    → bound < 2 ^ 64
    → k < fuel
    → accepts (after k s) bound ≡ true
    → (v : ℕ) × (t : RngStream) × (next_below fuel s bound ≡ some (v, t)) × (v < bound)
next_below_lt fuel k s bound z h l a =
    let (v, t, e, b) = reject-bounded fuel k s bound z h l a in
    (v, t, next_below-reject fuel s bound (omega arith) z h ∙ e, b)
