-- ===== src/Simulation/SaveStream/Bytes.antt =====
-- The bytes of a word, least significant first: what the loops of `append_le` and `read_le` compute.
use native.Mathlib.Nat.{div-div-eq-div-mul, pow-le-pow_right, mod-eq_of_lt}
use atlas_engine.Base.{
  ℕ, zero, suc, ◌+◌, ◌*◌, ◌/◌, ◌%◌, ◌^◌, ◌≤◌, ◌<◌, ◌≡◌, refl, ◌∙◌, ap, sym, [], ◌∷◌, ◌++◌,
  append_assoc, append-nil, arith, length, All, shr, bit_or_shifted, pow_byte, pow_byte_suc,
  mul_mono,
}
use atlas_engine.Simulation.SaveStream.{Bytes, append_le, append_le_from, read_le, read_le_from}

-- The specification: divide by 256 from byte to byte.
unfoldable pub le_bytes : ℕ → ℕ → Bytes
le_bytes zero value = []
le_bytes (suc size) value = value % 256 ∷ le_bytes size (value / 256)

pub le_value : Bytes → ℕ
le_value [] = 0
le_value (b ∷ bs) = b + 256 * le_value bs

abbrev pub IsByte : ℕ → Type 0
IsByte b = b < 256

pub length-le_bytes : (size value : ℕ) → length (le_bytes size value) ≡ size
unfolding le_bytes
length-le_bytes zero value = refl
length-le_bytes (suc size) value = ap suc (length-le_bytes size (value / 256))

pub le_bytes-IsByte : (size value : ℕ) → All IsByte (le_bytes size value)
unfolding le_bytes
le_bytes-IsByte zero value = tt
le_bytes-IsByte (suc size) value = (omega arith, le_bytes-IsByte size (value / 256))

le_value-le_bytes :
    (size value : ℕ) → value < 2 ^ (size * 8) → le_value (le_bytes size value) ≡ value
unfolding le_bytes le_value
le_value-le_bytes zero value h = omega arith
le_value-le_bytes (suc size) value h =
    omega (arith, le_value-le_bytes size (value / 256) (omega (arith, pow_byte_suc size)))

shr_next : (bits i : ℕ) → shr bits ((i + 1) * 8) ≡ shr bits (i * 8) / 256
shr_next bits i = rw (pow_byte i) (sym (div-div-eq-div-mul bits (2 ^ (i * 8)) 256))

append_le_from_lem :
    (count i : ℕ) (out : Bytes) (bits : ℕ)
    → append_le_from count i out bits ≡ out ++ le_bytes count (shr bits (i * 8))
unfolding append_le_from le_bytes
append_le_from_lem zero i out bits = sym (append-nil out)
append_le_from_lem (suc count) i out bits =
    rw (append_le_from_lem count (i + 1) _ bits, shr_next bits i) (append_assoc out _ _)

-- `append_le` pushes the bytes of the word.
pub append_le_lem :
    (size : ℕ) (out : Bytes) (value : ℕ) → append_le size out value ≡ out ++ le_bytes size value
unfolding append_le
append_le_lem size out value =
    append_le_from_lem size 0 out value ∙ ap (λ v. out ++ le_bytes size v) (omega arith)

read_le_from_lem :
    (w i value : ℕ) (bs : Bytes)
    → value < 2 ^ (i * 8)
    → All IsByte bs
    → (i + length bs) * 8 ≤ w
    → read_le_from w i value bs ≡ value + 2 ^ (i * 8) * le_value bs
unfolding read_le_from le_value
read_le_from_lem w i value [] h k l = omega arith
read_le_from_lem w i value (b ∷ bs) h k l =
    rw (fits, bit_or_shifted (i * 8) value b h)
      (read_le_from_lem w (i + 1) (value + b * 2 ^ (i * 8)) bs (omega (arith, pow_byte i, small))
          k.1 (omega arith)
        ∙ omega (arith, ap (λ p. p * le_value bs) (pow_byte i)))
  where
    small : b * 2 ^ (i * 8) ≤ 255 * 2 ^ (i * 8)
    small = mul_mono b 255 (2 ^ (i * 8)) (2 ^ (i * 8)) (omega (arith, k.0)) (omega arith)

    wide : 2 ^ ((i + 1) * 8) ≤ 2 ^ w
    wide = pow-le-pow_right {n = 2} (omega arith) {i = (i + 1) * 8} {j = w} (omega arith)

    fits : b * 2 ^ (i * 8) % 2 ^ w ≡ b * 2 ^ (i * 8)
    fits = mod-eq_of_lt (omega (arith, wide, small, pow_byte i, h))

-- `read_le` is the inverse of the bytes of a word, in a type that is wide enough.
pub read_le-le_bytes :
    (size value : ℕ) → value < 2 ^ (size * 8) → read_le (size * 8) (le_bytes size value) ≡ value
unfolding read_le
read_le-le_bytes size value h =
    read_le_from_lem (size * 8) 0 0 (le_bytes size value) (omega arith) (le_bytes-IsByte size value)
      (omega (arith, length-le_bytes size value))
    ∙ omega (arith, le_value-le_bytes size value h)
