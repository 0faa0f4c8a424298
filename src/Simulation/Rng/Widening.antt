-- ===== src/Simulation/Rng/Widening.antt =====
-- The multiplication in 32-bit pieces is the exact 128-bit product.
use atlas_engine.Base.{
  ℕ, ◌+◌, ◌*◌, ◌/◌, ◌%◌, ◌^◌, ◌≤◌, ◌<◌, ◌≡◌, refl, sym, ◌∙◌, arith, mul_mono, u64, shr, shl64,
}
use atlas_engine.Simulation.Rng.{widening_multiply, carry}

-- A product of two 32-bit words, with room for two more of them.
word_product : (x y : ℕ) → x < 2 ^ 32 → y < 2 ^ 32 → x * y ≤ 18446744065119617025
word_product x y h l = mul_mono x 4294967295 y 4294967295 (omega arith) (omega arith)

-- The product of two numbers by their halves.
by_halves :
    (a b c d : ℕ)
    → (a * 4294967296 + b) * (c * 4294967296 + d)
      ≡ a * c * 18446744073709551616 + (a * d + b * c) * 4294967296 + b * d
by_halves a b c d = grind arith

-- Putting the four partial products together loses nothing.
assemble :
    (ll c1 c2 hh : ℕ)
    → ll ≤ 18446744065119617025
    → c1 ≤ 18446744065119617025
    → c2 ≤ 18446744065119617025
    → hh ≤ 18446744065119617025
    → hh * 2 ^ 64 + (c1 + c2) * 2 ^ 32 + ll < 2 ^ 128
    → u64 (
            u64 (u64 (u64 hh + shr (u64 c1) 32) + shr (u64 c2) 32)
            + carry (u64 ll) (u64 c1) (u64 c2))
          * 2 ^ 64
        + u64 (u64 (u64 ll + shl64 (u64 c1) 32) + shl64 (u64 c2) 32)
      ≡ hh * 2 ^ 64 + (c1 + c2) * 2 ^ 32 + ll
unfolding carry
assemble ll c1 c2 hh h1 h2 h3 h4 b = omega arith

product_bound : (a b : ℕ) → a < 2 ^ 64 → b < 2 ^ 64 → a * b < 2 ^ 128
product_bound a b h l =
    omega
      (arith, mul_mono a 18446744073709551615 b 18446744073709551615 (omega arith) (omega arith))

whole :
    (a b : ℕ)
    → a / 2 ^ 32 * (b / 2 ^ 32) * 2 ^ 64
        + (a / 2 ^ 32 * (b % 2 ^ 32) + a % 2 ^ 32 * (b / 2 ^ 32)) * 2 ^ 32
        + a % 2 ^ 32 * (b % 2 ^ 32)
      ≡ a * b
whole a b =
    let front : a / 4294967296 * 4294967296 + a % 4294967296 ≡ a = omega arith in
    let back : b / 4294967296 * 4294967296 + b % 4294967296 ≡ b = omega arith in
    sym (by_halves (a / 2 ^ 32) (a % 2 ^ 32) (b / 2 ^ 32) (b % 2 ^ 32)) ∙ rw (front, back) refl

widening_multiply_halves :
    (a b : ℕ)
    → a < 2 ^ 64
    → b < 2 ^ 64
    → (widening_multiply a b).high * 2 ^ 64 + (widening_multiply a b).low
      ≡ a / 2 ^ 32 * (b / 2 ^ 32) * 2 ^ 64
        + (a / 2 ^ 32 * (b % 2 ^ 32) + a % 2 ^ 32 * (b / 2 ^ 32)) * 2 ^ 32
        + a % 2 ^ 32 * (b % 2 ^ 32)
unfolding widening_multiply
widening_multiply_halves a b h l =
    assemble _ _ _ _ (word_product (a % 2 ^ 32) (b % 2 ^ 32) (omega arith) (omega arith))
      (word_product (a / 2 ^ 32) (b % 2 ^ 32) (omega arith) (omega arith))
      (word_product (a % 2 ^ 32) (b / 2 ^ 32) (omega arith) (omega arith))
      (word_product (a / 2 ^ 32) (b / 2 ^ 32) (omega arith) (omega arith))
      (rw (whole a b) (product_bound a b h l))

-- The two halves that the multiplication in 32-bit pieces returns are the exact product of the two
-- 64-bit words, and each is a 64-bit word.
pub widening_multiply-exact :
    (a b : ℕ)
    → a < 2 ^ 64
    → b < 2 ^ 64
    → ((widening_multiply a b).high * 2 ^ 64 + (widening_multiply a b).low ≡ a * b)
      × ((widening_multiply a b).high < 2 ^ 64)
      × ((widening_multiply a b).low < 2 ^ 64)
unfolding widening_multiply
widening_multiply-exact a b h l =
    (widening_multiply_halves a b h l ∙ whole a b, omega arith, omega arith)
