-- ===== src/Simulation/SaveStream.antt =====
-- engine/simulation/include/atlas/simulation/save_stream.hpp and src/save_stream.cpp: bytes written
-- little-endian and read back with every length checked. A byte is a number, a text the list of its
-- bytes. A read returns its result and the reader, which moves on also on the paths that fail after
-- a first read. Floats, which the source only reinterprets, are left out, and a signed value is its
-- bit pattern, which the unsigned functions of its width read and write.
pub mod Bytes
pub mod Bounds
pub mod RoundTrip
pub mod Formats
pub mod Refusals
pub mod Rejects
mod Tests
use atlas_engine.Base.{
  ℕ, zero, suc, ◌+◌, ◌-◌, ◌*◌, ◌/◌, ◌%◌, ◌^◌, Bool, true, false, not, ◌&&◌, Option, none, some,
  List, [], ◌∷◌, ◌++◌, ltb, leb, ◌==◌, if◌then◌else◌, length, take, drop, bit_or, u32, u64, shr,
}
use atlas_engine.Core.Error.{Result, Status, ErrorCode, ok, err, malformed_data}

abbrev pub Bytes : Type 0
Bytes = List ℕ

-- `count` bytes of a word, from byte `i` on, pushed behind `out`.
append_le_from : ℕ → ℕ → Bytes → ℕ → Bytes
append_le_from zero i out bits = out
append_le_from (suc count) i out bits =
    append_le_from count (i + 1) (out ++ shr bits (i * 8) % 256 ∷ []) bits

unfoldable pub append_le : ℕ → Bytes → ℕ → Bytes
unfolding append_le_from
append_le size out value = append_le_from size 0 out value

-- The loop of `read_le`, for a type of `bits` bits.
read_le_from : ℕ → ℕ → ℕ → Bytes → ℕ
read_le_from bits i value [] = value
read_le_from bits i value (b ∷ bs) =
    read_le_from bits (i + 1) (bit_or value (b * 2 ^ (i * 8) % 2 ^ bits)) bs

pub read_le : ℕ → Bytes → ℕ
unfolding read_le_from
read_le bits bytes = read_le_from bits 0 0 bytes

-- `SaveWriter` is the bytes so far.
unfoldable pub write_u8 : Bytes → ℕ → Bytes
write_u8 out value = out ++ value ∷ []

unfoldable pub write_u16 : Bytes → ℕ → Bytes
write_u16 out value = append_le 2 out value

unfoldable pub write_u32 : Bytes → ℕ → Bytes
write_u32 out value = append_le 4 out value

unfoldable pub write_u64 : Bytes → ℕ → Bytes
write_u64 out value = append_le 8 out value

unfoldable pub write_bool : Bytes → Bool → Bytes
write_bool out value = write_u8 out (if value then 1 else 0)

unfoldable pub write_bytes : Bytes → Bytes → Bytes
write_bytes out bytes = out ++ bytes

unfoldable pub write_string : Bytes → Bytes → Bytes
write_string out text = write_u32 out (u32 (length text)) ++ text

pub record SaveReader : Type 0 where
  pub bytes : Bytes
  pub offset : ℕ

-- A read: what it returns, and the reader after it.
abbrev pub Read : Type 0 → Type 0
Read A = SaveReader → Result A × SaveReader

abbrev pub continue : {A B : Type 0} → (A → Read B) → Result A × SaveReader → Result B × SaveReader
continue f (ok x, s) = f x s
continue f (err e, s) = (err e, s)

infixl 5 ◌>>=◌
abbrev pub ◌>>=◌ : {A B : Type 0} → Read A → (A → Read B) → Read B
◌>>=◌ m f r = continue f (m r)

abbrev pub return : {A : Type 0} → A → Read A
return a r = (ok a, r)

abbrev pub refuse : {A : Type 0} → Read A
refuse r = (err malformed_data, r)

-- The invariant `offset ≤ length bytes` keeps this subtraction from wrapping.
abbrev pub remaining : SaveReader → ℕ
remaining r = length r.bytes - r.offset

pub at_end : SaveReader → Bool
at_end r = leb (length r.bytes) r.offset

unfoldable pub take_bytes : ℕ → Read Bytes
take_bytes count r =
    if ltb (remaining r) count
    then (err malformed_data, r)
    else (ok (take count (drop r.offset r.bytes)), record r { offset = r.offset + count })

abbrev first_byte : Bytes → ℕ
first_byte bs = elim bs [ [] ↦ 0 | b ∷ rest ↦ b ]

unfoldable pub read_u8 : Read ℕ
read_u8 = do bytes ← take_bytes 1; return (first_byte bytes)

unfoldable pub read_u16 : Read ℕ
read_u16 = do bytes ← take_bytes 2; return (read_le 16 bytes)

unfoldable pub read_u32 : Read ℕ
read_u32 = do bytes ← take_bytes 4; return (read_le 32 bytes)

unfoldable pub read_u64 : Read ℕ
read_u64 = do bytes ← take_bytes 8; return (read_le 64 bytes)

unfoldable pub read_bool : Read Bool
read_bool = do value ← read_u8; if ltb 1 value then refuse else return (value == 1)

unfoldable pub read_bytes : ℕ → Read Bytes
read_bytes count = take_bytes count

unfoldable pub read_string : ℕ → Read Bytes
read_string max_length = do
  wanted ← read_u32
  if ltb max_length wanted then refuse else take_bytes wanted

-- The second test of `read_count`: enough bytes are left for the items.
unfoldable pub check_room : ℕ → ℕ → Read ℕ
check_room count bytes_per_item r =
    if ltb 0 bytes_per_item && ltb (remaining r) (u64 (count * bytes_per_item))
    then (err malformed_data, r)
    else (ok count, r)

unfoldable pub read_count : ℕ → ℕ → Read ℕ
read_count max_count bytes_per_item = do
  raw ← read_u64
  if ltb max_count raw then refuse else check_room raw bytes_per_item

pub expect_end : SaveReader → Status
unfolding at_end
expect_end r = if not (at_end r) then err malformed_data else ok tt

abbrev pub fail : {A : Type 0} → ErrorCode → Read A
fail e r = (err e, r)

-- Go on only if the test holds.
abbrev pub require : Bool → ErrorCode → Read (Unit {0})
require true e = return tt
require false e = fail e

-- What a read continues with when a number stands for an enumerator.
abbrev pub or_refuse : {A : Type 0} → Option A → Read A
or_refuse none = refuse
or_refuse (some a) = return a

-- A counted loop of one read.
unfoldable pub read_all : {A : Type 0} → Read A → ℕ → Read (List A)
read_all read zero = return []
read_all read (suc n) = do x ← read; rest ← read_all read n; return (x ∷ rest)
