-- ===== src/Base/TestBit.antt =====
-- The digits of a number, and what `|`, `<<` and `>>` do to them.
use Prim.Native.Nat.{ℕ, zero, suc, ◌+◌, ◌*◌, ◌/◌, ◌%◌, ◌^◌, ◌≤◌, ◌<◌, max, bit_or}
use mathlib.Core.Path.{◌≡◌, refl, ap, ◌∙◌}
use native.Mathlib.Nat.{pow-suc}
use native.Mathlib.Omega.{arith}
use atlas_engine.Base.Tests.{◌==◌, if◌then◌else◌}
use atlas_engine.Base.BitOr.{bit_or-halves, zero-bit_or}

-- Digit `j`, as 0 or 1.
unfoldable pub test_bit : ℕ → ℕ → ℕ
test_bit x zero = x % 2
test_bit x (suc j) = test_bit (x / 2) j

pub test_bit-bit_or : (j a b : ℕ) → test_bit (bit_or a b) j ≡ max (test_bit a j) (test_bit b j)
unfolding test_bit
test_bit-bit_or zero a b = omega (arith, bit_or-halves a b)
test_bit-bit_or (suc j) a b =
    let half : bit_or a b / 2 ≡ bit_or (a / 2) (b / 2) = omega (arith, bit_or-halves a b) in
    rw half (test_bit-bit_or j (a / 2) (b / 2))

pub test_bit-zero : (j : ℕ) → test_bit 0 j ≡ 0
unfolding test_bit
test_bit-zero zero = refl
test_bit-zero (suc j) = test_bit-zero j

pub test_bit-pow : (k j : ℕ) → test_bit (2 ^ k) j ≡ (if k == j then 1 else 0)
unfolding test_bit
test_bit-pow zero zero = refl
test_bit-pow zero (suc j) = ground (arith, test_bit-zero j)
test_bit-pow (suc k) zero = ground (arith, pow-suc 2 k)
test_bit-pow (suc k) (suc j) =
    let half : 2 ^ suc k / 2 ≡ 2 ^ k = omega (arith, pow-suc 2 k) in
    rw half (ground (arith, test_bit-pow k j))

-- A number below 2 ^ k has no digit from k on, and its digits below k are not changed by what is
-- added above them.
pub test_bit_low : (k j x y : ℕ) → j < k → test_bit (x + y * 2 ^ k) j ≡ test_bit x j
unfolding test_bit
test_bit_low zero j x y h = absurd (omega arith)
test_bit_low (suc k) zero x y h = omega (arith, ap (λ p. y * p) (pow-suc 2 k))
test_bit_low (suc k) (suc j) x y h =
    let half : (x + y * 2 ^ suc k) / 2 ≡ x / 2 + y * 2 ^ k =
      omega (arith, ap (λ p. y * p) (pow-suc 2 k)) in
    rw half (test_bit_low k j (x / 2) y (omega arith))

pub test_bit_high : (k j x y : ℕ) → x < 2 ^ k → test_bit (x + y * 2 ^ k) (k + j) ≡ test_bit y j
unfolding test_bit
test_bit_high zero j x y h =
    let e : x + y * 2 ^ 0 ≡ y = omega arith in let f : 0 + j ≡ j = omega arith in rw (e, f)
test_bit_high (suc k) j x y h =
    let half : (x + y * 2 ^ suc k) / 2 ≡ x / 2 + y * 2 ^ k =
      omega (arith, ap (λ p. y * p) (pow-suc 2 k)) in
    let e : suc k + j ≡ suc (k + j) = omega arith in
    ap (test_bit (x + y * 2 ^ suc k)) e
    ∙ (ap (λ v. test_bit v (k + j)) half ∙ test_bit_high k j (x / 2) y (omega (arith, pow-suc 2 k)))

pub test_bit-IsBit : (j x : ℕ) → test_bit x j ≤ 1
unfolding test_bit
test_bit-IsBit zero x = omega arith
test_bit-IsBit (suc j) x = test_bit-IsBit j (x / 2)

pub bit_or-lt : (k a b : ℕ) → a < 2 ^ k → b < 2 ^ k → bit_or a b < 2 ^ k
bit_or-lt zero zero b h l = omega (arith, zero-bit_or b)
bit_or-lt zero (suc a) b h l = absurd (omega arith)
bit_or-lt (suc k) a b h l = omega (
  arith,
  pow-suc 2 k,
  bit_or-halves a b,
  bit_or-lt k (a / 2) (b / 2) (omega (arith, pow-suc 2 k)) (omega (arith, pow-suc 2 k)),
)
