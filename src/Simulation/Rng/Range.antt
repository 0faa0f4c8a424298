-- ===== src/Simulation/Rng/Range.antt =====
-- The draw from a range of signed numbers stays in the range.
use atlas_engine.Base.{
  ℕ, ◌+◌, ◌-◌, ◌^◌, ◌≤◌, ◌<◌, ◌≡◌, refl, ap, ◌∙◌, arith, some, true, false, Bool-cases, inl, inr,
  leb→le, le→leb, u64, dec_lt, ◌⊎◌,
}
use atlas_engine.Simulation.Rng.{RngStream, next_below, next_in_range, signed_le}
use atlas_engine.Simulation.Rng.Below.{after, accepts, next_below_lt}

-- How many values the range has, as a 64-bit word: zero for the whole range of the type.
abbrev pub count_in : ℕ → ℕ → ℕ
count_in low high = u64 (u64 (high + (2 ^ 64 - low)) + 1)

next_below_zero : (fuel : ℕ) (s : RngStream) → next_below fuel s 0 ≡ some (0, s)
unfolding next_below
next_below_zero fuel s = refl

-- The word of a signed number, moved so that the order is that of the words.
abbrev moved : ℕ → ℕ
moved v = u64 (v + 2 ^ 63)

offset_within :
    (low high v : ℕ)
    → low < 2 ^ 64
    → high < 2 ^ 64
    → moved low ≤ moved high
    → (v ≡ 0) ⊎ (v < count_in low high)
    → (moved low ≤ moved (u64 (low + v))) × (moved (u64 (low + v)) ≤ moved high)
offset_within low high v l h o (inl e) = (omega arith, omega arith)
offset_within low high v l h o (inr b) = (omega arith, omega arith)

-- The draw below a bound, which may be zero.
drawn_within :
    (fuel k : ℕ) (s : RngStream) (bound : ℕ)
    → bound < 2 ^ 64
    → k < fuel
    → accepts (after k s) bound ≡ true
    → (v : ℕ) × (t : RngStream) × (next_below fuel s bound ≡ some (v, t)) × ((v ≡ 0) ⊎ (v < bound))
drawn_within fuel k s bound h l a = elim (dec_lt 0 bound) [
  | yes z ↦ let (v, t, e, b) = next_below_lt fuel k s bound z h l a in (v, t, e, inr b)
  | no n ↦
      let none_left : bound ≡ 0 = omega arith in
      (0, s, ap (next_below fuel s) none_left ∙ next_below_zero fuel s, inl refl)
]

next_in_range_drawn :
    (fuel : ℕ) (s : RngStream) (low high v : ℕ) (t : RngStream)
    → signed_le high low ≡ false
    → next_below fuel s (count_in low high) ≡ some (v, t)
    → next_in_range fuel s low high ≡ some (u64 (low + v), t)
unfolding next_in_range
next_in_range_drawn fuel s low high v t e d = rw (next_in_range, e, d) refl

next_in_range_single :
    (fuel : ℕ) (s : RngStream) (low high : ℕ)
    → signed_le high low ≡ true
    → next_in_range fuel s low high ≡ some (low, s)
unfolding next_in_range
next_in_range_single fuel s low high e = rw (next_in_range, e) refl

-- For two signed 64-bit numbers, the lower one first: if one of the draws that the fuel allows is not
-- below the threshold for the count of values, the draw returns a value, and the value is not below
-- the one number nor above the other.
pub next_in_range-within :
    (fuel k : ℕ) (s : RngStream) (low high : ℕ)
    → low < 2 ^ 64
    → high < 2 ^ 64
    → signed_le low high ≡ true
    → k < fuel
    → accepts (after k s) (count_in low high) ≡ true
    → (v : ℕ) × (t : RngStream) × (next_in_range fuel s low high ≡ some (v, t))
      × (signed_le low v ≡ true)
      × (signed_le v high ≡ true)
next_in_range-within fuel k s low high l h o f a = elim (Bool-cases (signed_le high low)) [
  | inl e ↦ (
    low,
    s,
    next_in_range_single fuel s low high e,
    le→leb (moved low) (moved low) (omega arith),
    o,
  )
  | inr e ↦
      let (v, t, d, b) = drawn_within fuel k s (count_in low high) (omega arith) f a in
      let (above, below) = offset_within low high v l h (leb→le (moved low) (moved high) o) b in
      (
        u64 (low + v),
        t,
        next_in_range_drawn fuel s low high v t e d,
        le→leb (moved low) (moved (u64 (low + v))) above,
        le→leb (moved (u64 (low + v))) (moved high) below,
      )
]
