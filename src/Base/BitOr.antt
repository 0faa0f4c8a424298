-- ===== src/Base/BitOr.antt =====
-- `|` of a low field and a shifted one is a sum, at every width.
use Prim.Native.Nat.{
  ℕ, zero, suc, ◌+◌, ◌*◌, ◌/◌, ◌%◌, ◌^◌, ◌≤◌, ◌<◌, max, bit_or, digits, bit_or-bitwise,
}
use mathlib.Core.Path.{◌≡◌, refl, ap}
use native.Mathlib.Nat.{pow-suc}
use native.Mathlib.Omega.{arith}

-- The recursion on binary digits that `bit_or` stands for.
abbrev or_digits : ℕ → ℕ → ℕ → ℕ
or_digits fuel a b = digits (λ y. y) max fuel a b

-- Any fuel that reaches the first number gives the same digits.
or_digits-same : (f g a b : ℕ) → a ≤ f → a ≤ g → or_digits f a b ≡ or_digits g a b
or_digits-same zero zero a b p q = refl
or_digits-same zero (suc g) zero b p q = refl
or_digits-same zero (suc g) (suc a) b p q = absurd (omega arith)
or_digits-same (suc f) zero zero b p q = refl
or_digits-same (suc f) zero (suc a) b p q = absurd (omega arith)
or_digits-same (suc f) (suc g) zero b p q = refl
or_digits-same (suc f) (suc g) (suc a) b p q =
    omega (arith, or_digits-same f g (suc a / 2) (b / 2) (omega arith) (omega arith))

pub zero-bit_or : (b : ℕ) → bit_or 0 b ≡ b
zero-bit_or b = bit_or-bitwise 0 b

pub bit_or-halves : (a b : ℕ) → bit_or a b ≡ bit_or (a / 2) (b / 2) * 2 + max (a % 2) (b % 2)
bit_or-halves zero b = omega (arith, zero-bit_or b, zero-bit_or (b / 2))
bit_or-halves (suc a) b = omega (
  arith,
  bit_or-bitwise (suc a) b,
  bit_or-bitwise (suc a / 2) (b / 2),
  or_digits-same a (suc a / 2) (suc a / 2) (b / 2) (omega arith) (omega arith),
)

pub bit_or_shifted : (k x b : ℕ) → x < 2 ^ k → bit_or x (b * 2 ^ k) ≡ x + b * 2 ^ k
bit_or_shifted zero zero b h = omega (arith, zero-bit_or (b * 2 ^ 0))
bit_or_shifted zero (suc x) b h = absurd (omega arith)
bit_or_shifted (suc k) x b h =
    let double : b * 2 ^ suc k ≡ 2 * (b * 2 ^ k) = omega (arith, ap (λ t. b * t) (pow-suc 2 k)) in
    rw double
      (ground (arith, pow-suc 2 k, bit_or-halves x (2 * (b * 2 ^ k)), bit_or_shifted k (x / 2) b))
