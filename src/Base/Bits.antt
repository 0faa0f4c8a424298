-- ===== src/Base/Bits.antt =====
-- Machine words as native numbers: shifts, and masks as remainders.
use Prim.Native.Nat.{ℕ, ◌*◌, ◌/◌, ◌^◌, ◌%◌}

abbrev pub u32 : ℕ → ℕ
u32 x = x % 2 ^ 32

abbrev pub u64 : ℕ → ℕ
u64 x = x % 2 ^ 64

abbrev pub shr : ℕ → ℕ → ℕ
shr x k = x / 2 ^ k

-- A left shift of a 64-bit word.
abbrev pub shl64 : ℕ → ℕ → ℕ
shl64 x k = u64 (x * 2 ^ k)
