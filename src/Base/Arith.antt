-- ===== src/Base/Arith.antt =====
-- Facts on products and powers that the linear tactics do not find.
use Prim.Native.Nat.{ℕ, suc, ◌+◌, ◌*◌, ◌^◌, ◌≤◌}
use mathlib.Core.Path.{◌≡◌}
use native.Mathlib.Numerals.{towards_suc}
use native.Mathlib.Omega.{arith}

pub mul_mono : (a b c d : ℕ) → a ≤ b → c ≤ d → a * c ≤ b * d
mul_mono a b c d h k = grind arith

pub pow_byte : (i : ℕ) → 2 ^ ((i + 1) * 8) ≡ 2 ^ (i * 8) * 256
pow_byte i = let e : (i + 1) * 8 ≡ i * 8 + 8 = omega arith in rw e (simp towards_suc (omega arith))

pub pow_byte_suc : (i : ℕ) → 2 ^ (suc i * 8) ≡ 2 ^ (i * 8) * 256
pow_byte_suc i =
    let e : suc i * 8 ≡ i * 8 + 8 = omega arith in rw e (simp towards_suc (omega arith))
