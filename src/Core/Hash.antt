-- ===== src/Core/Hash.antt =====
-- engine/core/include/atlas/core/hash.hpp: the hash of names, and the streaming hash over blocks of
-- 32 bytes. The block that is being filled is the list of the bytes held.
pub mod Stream
mod Tests
use atlas_engine.Base.{
  ℕ, zero, suc, ◌+◌, ◌-◌, ◌*◌, ◌/◌, ◌%◌, ◌^◌, Bool, true, false, List, [], ◌∷◌, ◌++◌, ltb, leb,
  ◌==◌, if◌then◌else◌, length, take, drop, bit_or, bit_xor, u64, shr, shl64,
}

abbrev pub fnv_offset_basis : ℕ
fnv_offset_basis = 0xCBF2_9CE4_8422_2325

abbrev pub fnv_prime : ℕ
fnv_prime = 0x0000_0100_0000_01B3

abbrev pub hash_algorithm_version : ℕ
hash_algorithm_version = 2

abbrev pub block_bytes : ℕ
block_bytes = 32

-- One step of FNV-1a: the byte is folded in, then the prime.
abbrev pub fold_in : ℕ → ℕ → ℕ
fold_in value byte = u64 (bit_xor value byte * fnv_prime)

unfoldable pub hash_string : ℕ → List ℕ → ℕ
hash_string seed [] = seed
hash_string seed (c ∷ text) = hash_string (fold_in seed c) text

-- The word of the first bytes, from the place `i` on: `load_le64` is `load_le_from 8 0`.
pub load_le_from : ℕ → ℕ → List ℕ → ℕ
load_le_from zero i bytes = 0
load_le_from (suc n) i [] = 0
load_le_from (suc n) i (b ∷ bytes) = bit_or (shl64 b (i * 8)) (load_le_from n (suc i) bytes)

pub load_le64 : List ℕ → ℕ → ℕ
load_le64 bytes at = load_le_from 8 0 (drop at bytes)

pub mix_final : ℕ → ℕ
mix_final value =
    let value = bit_xor value (shr value 33) in
    let value = u64 (value * 0xFF51_AFD7_ED55_8CCD) in
    let value = bit_xor value (shr value 33) in
    let value = u64 (value * 0xC4CE_B9FE_1A85_EC53) in bit_xor value (shr value 33)

pub record Lanes : Type 0 where
  pub a : ℕ
  pub b : ℕ
  pub c : ℕ
  pub d : ℕ

-- The lanes, and the bytes held of the block that is not full.
pub record Hasher : Type 0 where
  pub lanes : Lanes
  pub buffer : List ℕ

pub fresh : Hasher
fresh = record {
  lanes = record {
    a = fnv_offset_basis;
    b = bit_xor fnv_offset_basis 1;
    c = bit_xor fnv_offset_basis 2;
    d = bit_xor fnv_offset_basis 3;
  };
  buffer = [];
}

pub consume : Lanes → List ℕ → Lanes
consume l block = record {
  a = fold_in l.a (load_le64 block 0);
  b = fold_in l.b (load_le64 block 8);
  c = fold_in l.c (load_le64 block 16);
  d = fold_in l.d (load_le64 block 24);
}

-- A full buffer is consumed and emptied.
pub flush : Lanes → List ℕ → Hasher
flush lanes buffer =
    if length buffer == block_bytes
    then record { lanes = consume lanes buffer; buffer = [] }
    else record { lanes = lanes; buffer = buffer }

pub push : Hasher → ℕ → Hasher
unfolding flush
push h byte = flush h.lanes (h.buffer ++ (byte ∷ []))

-- The bytes of a text or a word, one at a time.
pub push_all : Hasher → List ℕ → Hasher
push_all h [] = h
push_all h (b ∷ bytes) = push_all (push h b) bytes

-- Whole blocks straight from the input; what is left is held. The fuel is the length of the input.
pub blocks : ℕ → Lanes → List ℕ → Hasher
blocks zero lanes bytes = record { lanes = lanes; buffer = bytes }
blocks (suc fuel) lanes bytes =
    let rest = blocks fuel (consume lanes (take block_bytes bytes)) (drop block_bytes bytes) in
    if leb block_bytes (length bytes) then rest else record { lanes = lanes; buffer = bytes }

-- What follows once the block begun has been filled as far as the input goes.
pub add_rest : Hasher → List ℕ → Hasher
add_rest filled bytes =
    if length filled.buffer == 0 then blocks (length bytes) filled.lanes bytes else filled

-- A block begun is filled first, and consumed when it is full; only then whole blocks are taken.
pub add_bytes : Hasher → List ℕ → Hasher
unfolding flush add_rest
add_bytes h bytes =
    let room = block_bytes - length h.buffer in
    if ltb 0 (length h.buffer)
    then add_rest (flush h.lanes (h.buffer ++ take room bytes)) (drop room bytes)
    else blocks (length bytes) h.lanes bytes

pub combine : ℕ → Lanes → ℕ
combine seed l = fold_in (fold_in (fold_in (fold_in seed l.a) l.b) l.c) l.d

pub value : Hasher → ℕ
value h = mix_final (hash_string (combine fnv_offset_basis h.lanes) h.buffer)

pub hash_bytes : List ℕ → ℕ
unfolding fresh add_bytes value
hash_bytes bytes = value (add_bytes fresh bytes)
