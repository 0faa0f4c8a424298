-- ===== src/Core/Hash/Tests.antt =====
-- The hash at concrete inputs.
use atlas_engine.Base.{◌<◌, ◌≡◌, refl, arith, [], ◌∷◌, ◌++◌, length, replicate}
use atlas_engine.Core.Hash.{
  Hasher, fresh, block_bytes, add_bytes, value, hash_string, fnv_offset_basis, load_le64,
  load_le_from,
}
use atlas_engine.Core.Hash.Stream.{add_bytes-append}

-- The published FNV-1a value of "a".
hash_string_a : hash_string fnv_offset_basis (97 ∷ []) ≡ 0xAF63_DC4C_8601_EC8C
unfolding hash_string
hash_string_a = refl

load_le64_second : load_le64 (replicate 8 0 ++ (1 ∷ 2 ∷ 0 ∷ 0 ∷ 0 ∷ 0 ∷ 0 ∷ 0 ∷ 9 ∷ [])) 8 ≡ 0x0201
unfolding load_le64 load_le_from
load_le64_second = refl

abbrev begun : Hasher
begun = record fresh { buffer = replicate 30 5 }

begun_held : length begun.buffer < block_bytes
begun_held = omega arith

add_bytes-append_example :
    (add_bytes (add_bytes begun (1 ∷ [])) (2 ∷ 3 ∷ []) ≡ add_bytes begun (1 ∷ 2 ∷ 3 ∷ []))
    × (value (add_bytes (add_bytes begun (1 ∷ [])) (2 ∷ 3 ∷ []))
        ≡ value (add_bytes begun (1 ∷ 2 ∷ 3 ∷ [])))
    × (length (add_bytes begun (1 ∷ [])).buffer < block_bytes)
add_bytes-append_example = add_bytes-append begun (1 ∷ []) (2 ∷ 3 ∷ []) begun_held
