-- ===== src/Simulation/TurnGate/Window.antt =====
-- The words of the window read as one number: `shift` halves it, and `set_bit` sets its digit.
use native.Mathlib.Nat.{pow-le-pow_right}
use atlas_engine.Base.{
  ℕ, zero, suc, ◌+◌, ◌-◌, ◌*◌, ◌/◌, ◌%◌, ◌^◌, ◌≤◌, ◌<◌, ◌≡◌, refl, ap, sym, ◌∙◌, some, List, [],
  ◌∷◌, arith, length, get_elem?, set, All, max, bit_or, bit_or_shifted, shl64, shr, dec_lt,
  if◌then◌else◌, ◌==◌,
}
use atlas_engine.Base.TestBit.{
  test_bit, test_bit-bit_or, test_bit-pow, test_bit_low, test_bit_high, bit_or-lt,
}
use atlas_engine.Simulation.TurnGate.{shift}

abbrev pub IsWord : ℕ → Type 0
IsWord w = w < 2 ^ 64

abbrev pub value : List ℕ → ℕ
value [] = 0
value (w ∷ ws) = w + value ws * 2 ^ 64

-- A word over half of the next one's low bit.
shifted_word : (w v : ℕ) → w < 2 ^ 64 → bit_or (shr w 1) (shl64 v 63) ≡ w / 2 + v % 2 * 2 ^ 63
shifted_word w v h =
    let low : shl64 v 63 ≡ v % 2 * 2 ^ 63 = omega arith in
    rw low (bit_or_shifted 63 (w / 2) (v % 2) (omega arith))

pub value-shift : (ws : List ℕ) → All IsWord ws → value (shift ws) ≡ value ws / 2
unfolding shift
value-shift [] h = omega arith
value-shift (w ∷ []) h = omega arith
value-shift (w ∷ v ∷ rest) h = omega (arith, shifted_word w v h.0, value-shift (v ∷ rest) h.1)

pub shift-IsWord : (ws : List ℕ) → All IsWord ws → All IsWord (shift ws)
unfolding shift
shift-IsWord [] h = tt
shift-IsWord (w ∷ []) h = omega arith
shift-IsWord (w ∷ v ∷ rest) h = (omega (arith, shifted_word w v h.0), shift-IsWord (v ∷ rest) h.1)

pub length-shift : (ws : List ℕ) → length (shift ws) ≡ length ws
unfolding shift
length-shift [] = refl
length-shift (w ∷ []) = refl
length-shift (w ∷ v ∷ rest) = ap suc (length-shift (v ∷ rest))

pub value-lt : (ws : List ℕ) → length ws ≡ 4 → All IsWord ws → value ws < 2 ^ 256
value-lt (a ∷ b ∷ c ∷ d ∷ []) e h = omega arith
value-lt [] e h = absurd (omega arith)
value-lt (a ∷ []) e h = absurd (omega arith)
value-lt (a ∷ b ∷ []) e h = absurd (omega arith)
value-lt (a ∷ b ∷ c ∷ []) e h = absurd (omega arith)
value-lt (a ∷ b ∷ c ∷ d ∷ f ∷ ws) e h = absurd (omega arith)

pub pow_in_word : (r : ℕ) → r < 64 → 2 ^ r < 2 ^ 64
pow_in_word r h =
    omega (arith, pow-le-pow_right {n = 2} (omega arith) {i = r} {j = 63} (omega arith))

-- Digits from the second word on are digits of the words after it.
test_bit_beyond :
    (j x v : ℕ) → x < 2 ^ 64 → 64 ≤ j → test_bit (x + v * 2 ^ 64) j ≡ test_bit v (j - 64)
test_bit_beyond j x v h l =
    let e : 64 + (j - 64) ≡ j = omega arith in
    ap (test_bit (x + v * 2 ^ 64)) (sym e) ∙ test_bit_high 64 (j - 64) x v h

pub set_word-test_bit :
    (ws : List ℕ) (i r j w : ℕ)
    → All IsWord ws
    → r < 64
    → get_elem? ws i ≡ some w
    → test_bit (value (set ws i (bit_or w (2 ^ r)))) j
      ≡ max (test_bit (value ws) j) (if i * 64 + r == j then 1 else 0)
set_word-test_bit [] i r j w h l e = absurd (cc)
set_word-test_bit (x ∷ xs) zero r j w h l e =
    let same : x ≡ w = cc in
    elim (dec_lt j 64) [
      | yes low ↦ ground (
        arith,
        test_bit_low 64 j (bit_or w (2 ^ r)) (value xs) low,
        test_bit_low 64 j x (value xs) low,
        test_bit-bit_or j w (2 ^ r),
        test_bit-pow r j,
      )
      | no high ↦ ground (
        arith,
        test_bit_beyond j (bit_or w (2 ^ r)) (value xs)
            (bit_or-lt 64 w (2 ^ r) (omega (arith, h.0)) (pow_in_word r l)) (omega arith),
        test_bit_beyond j x (value xs) h.0 (omega arith),
      )
    ]
set_word-test_bit (x ∷ xs) (suc i) r j w h l e = elim (dec_lt j 64) [
  | yes low ↦ ground (
    arith,
    test_bit_low 64 j x (value (set xs i (bit_or w (2 ^ r)))) low,
    test_bit_low 64 j x (value xs) low,
  )
  | no high ↦ ground (
    arith,
    test_bit_beyond j x (value (set xs i (bit_or w (2 ^ r)))) h.0 (omega arith),
    test_bit_beyond j x (value xs) h.0 (omega arith),
    set_word-test_bit xs i r (j - 64) w h.1 l e,
  )
]

pub set-IsWord : (ws : List ℕ) (i w : ℕ) → All IsWord ws → w < 2 ^ 64 → All IsWord (set ws i w)
set-IsWord [] i w h l = tt
set-IsWord (x ∷ xs) zero w h l = (l, h.1)
set-IsWord (x ∷ xs) (suc i) w h l = (h.0, set-IsWord xs i w h.1 l)

pub get_elem?-IsWord :
    (ws : List ℕ) (i w : ℕ) → All IsWord ws → get_elem? ws i ≡ some w → w < 2 ^ 64
get_elem?-IsWord [] i w h e = absurd (cc)
get_elem?-IsWord (x ∷ xs) zero w h e = let same : x ≡ w = cc in omega (arith, h.0, same)
get_elem?-IsWord (x ∷ xs) (suc i) w h e = get_elem?-IsWord xs i w h.1 e
