-- ===== src/Simulation/SaveStream/Tests.antt =====
-- The stream at concrete values.
use atlas_engine.Base.{◌≡◌, refl, [], ◌∷◌, arith}
use atlas_engine.Core.Error.{ok, err, malformed_data}
use atlas_engine.Simulation.SaveStream.{
  Bytes, SaveReader, write_u16, read_u16, read_u64, read_bool, read_string, read_count, append_le,
  append_le_from, take_bytes, read_le, read_u8, read_u32, read_bytes,
}
use atlas_engine.Simulation.SaveStream.Bounds.{Moves, reads-Moves}

little_endian : write_u16 (7 ∷ []) 0x0102 ≡ 7 ∷ 2 ∷ 1 ∷ []
unfolding write_u16 append_le append_le_from
little_endian = refl

reads_back :
    read_u16 (record { bytes = 7 ∷ 2 ∷ 1 ∷ []; offset = 1 })
    ≡ (ok 0x0102, record { bytes = 7 ∷ 2 ∷ 1 ∷ []; offset = 3 })
unfolding read_u16 take_bytes read_le
reads_back = refl

truncated : (read_u16 (record { bytes = 7 ∷ 2 ∷ []; offset = 1 })).0 ≡ err malformed_data
unfolding read_u16 take_bytes
truncated = refl

abbrev text : Bytes
text = 97 ∷ 98 ∷ []

abbrev short : SaveReader
short = record { bytes = 4 ∷ 0 ∷ 0 ∷ []; offset = 1 }

reads-Moves_example :
    Moves short (read_u8 short).1
    × Moves short (read_u16 short).1
    × Moves short (read_u32 short).1
    × Moves short (read_u64 short).1
    × Moves short (read_bool short).1
    × Moves short (read_bytes 9 short).1
    × Moves short (read_string 16 short).1
    × Moves short (read_count 16 1 short).1
reads-Moves_example = reads-Moves short 9 16 1 (record { within = omega arith })
