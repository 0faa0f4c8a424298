-- ===== src/Simulation/Rng.antt =====
-- engine/simulation/include/atlas/simulation/rng.hpp: the counter-based random streams. The loop that
-- redraws takes fuel, since nothing in the code bounds the number of draws that it refuses.
pub mod Widening
pub mod Below
pub mod Range
mod Tests
use atlas_engine.Base.{
  ℕ, zero, suc, ◌+◌, ◌-◌, ◌*◌, ◌%◌, ◌^◌, Option, none, some, List, Bool, ltb, leb, ◌==◌,
  if◌then◌else◌, bit_xor, u32, u64, shr, shl64,
}
use atlas_engine.Core.Hash.{hash_string, fnv_offset_basis}

pub stream_id : List ℕ → ℕ
stream_id name =
    let full = hash_string fnv_offset_basis name in u32 (bit_xor (shr full 32) (full % 2 ^ 32))

pub record RngStream : Type 0 where
  pub seed : ℕ
  pub stream : ℕ
  pub tick : ℕ
  pub counter : ℕ

pub new_stream : ℕ → ℕ → ℕ → RngStream
new_stream seed stream tick = record { seed = seed; stream = stream; tick = tick; counter = 0 }

pub record Product : Type 0 where
  pub high : ℕ
  pub low : ℕ

-- The carry out of the low half.
pub carry : ℕ → ℕ → ℕ → ℕ
carry low_low cross_one cross_two =
    shr (u64 (u64 (shr low_low 32 + cross_one % 2 ^ 32) + cross_two % 2 ^ 32)) 32

pub widening_multiply : ℕ → ℕ → Product
unfolding carry
widening_multiply a b =
    let low_low = u64 (a % 2 ^ 32 * (b % 2 ^ 32)) in
    let cross_one = u64 (shr a 32 * (b % 2 ^ 32)) in
    let cross_two = u64 (a % 2 ^ 32 * shr b 32) in
    let high_high = u64 (shr a 32 * shr b 32) in
    record {
      high = u64 (
          u64 (u64 (high_high + shr cross_one 32) + shr cross_two 32)
          + carry low_low cross_one cross_two);
      low = u64 (u64 (low_low + shl64 cross_one 32) + shl64 cross_two 32);
    }

pub mix : ℕ → ℕ → ℕ → ℕ → ℕ
mix seed stream tick counter =
    let z = u64 (seed + u64 (stream * 0x9E37_79B9_7F4A_7C15)) in
    let z = u64 (z + u64 (tick * 0xBF58_476D_1CE4_E5B9)) in
    let z = u64 (z + u64 (counter * 0x94D0_49BB_1331_11EB)) in
    let z = u64 (z + 0x9E37_79B9_7F4A_7C15) in
    let z = u64 (bit_xor z (shr z 30) * 0xBF58_476D_1CE4_E5B9) in
    let z = u64 (bit_xor z (shr z 27) * 0x94D0_49BB_1331_11EB) in u64 (bit_xor z (shr z 31))

pub next_u64 : RngStream → ℕ × RngStream
next_u64 s = (mix s.seed s.stream s.tick s.counter, record s { counter = u64 (s.counter + 1) })

pub next_u32 : RngStream → ℕ × RngStream
next_u32 s = (u32 (shr (next_u64 s).0 32), (next_u64 s).1)

-- `(~bound + 1U) % bound`.
pub threshold : ℕ → ℕ
threshold bound = u64 (2 ^ 64 - 1 - bound + 1) % bound

-- The draws until one is not below the threshold: none when the fuel runs out first.
pub redraw : ℕ → ℕ → Product → RngStream → Option (ℕ × RngStream)
redraw zero bound product s = none
redraw (suc fuel) bound product s =
    let rest = redraw fuel bound (widening_multiply (next_u64 s).0 bound) (next_u64 s).1 in
    if ltb product.low (threshold bound) then rest else some (product.high, s)

pub next_below : ℕ → RngStream → ℕ → Option (ℕ × RngStream)
next_below fuel s bound =
    let product = widening_multiply (next_u64 s).0 bound in
    if bound == 0
    then some (0, s)
    else if ltb product.low bound
    then redraw fuel bound product (next_u64 s).1
    else some (product.high, (next_u64 s).1)

pub set_counter : RngStream → ℕ → RngStream
set_counter s counter = record s { counter = counter }

-- The comparison of two 64-bit words as signed numbers.
abbrev pub signed_le : ℕ → ℕ → Bool
signed_le a b = leb (u64 (a + 2 ^ 63)) (u64 (b + 2 ^ 63))

-- The bounds and the result are signed numbers, as their 64-bit words.
pub next_in_range : ℕ → RngStream → ℕ → ℕ → Option (ℕ × RngStream)
next_in_range fuel s low high =
    let span = u64 (high + (2 ^ 64 - low)) in
    if signed_le high low then some (low, s) else elim (next_below fuel s (u64 (span + 1))) [
      | some drawn ↦ some (u64 (low + drawn.0), drawn.1)
      | none ↦ none
    ]
