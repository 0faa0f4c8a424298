-- ===== src/Simulation/SaveStream/Bounds.antt =====
-- No read goes past the end: the offset stays in the bytes, only grows, and a refused `take` leaves
-- it where it was.
use atlas_engine.Base.{ℕ, ◌≤◌, ◌≡◌, refl, ◌∙◌, arith, length, ltb, if◌then◌else◌, Bool, true, false}
use atlas_engine.Core.Error.{Result, ok, err}
use atlas_engine.Simulation.SaveStream.{
  Bytes, SaveReader, Read, ◌>>=◌, continue, return, refuse, take_bytes, read_u8, read_u16, read_u32,
  read_u64, read_bool, read_bytes, read_string, read_count, check_room,
}

pub record InBounds (r : SaveReader) : Type 0 where
  pub within : r.offset ≤ length r.bytes

-- The reader after a read: the same bytes, an offset that has not gone back and lies in them.
pub record Moves (r s : SaveReader) : Type 0 where
  pub same : s.bytes ≡ r.bytes
  pub forward : r.offset ≤ s.offset
  pub within : s.offset ≤ length s.bytes

-- A read that is safe from every reader in bounds.
pub record IsSafe {A : Type 0} (m : Read A) : Type 0 where
  pub moves : (r : SaveReader) → InBounds r → Moves r (m r).1

Moves-trans : {r s t : SaveReader} → Moves r s → Moves s t → Moves r t
Moves-trans f g = record { same = g.same ∙ f.same; forward = omega arith; within = g.within }

take_bytes-IsSafe : (n : ℕ) → IsSafe (take_bytes n)
unfolding take_bytes
take_bytes-IsSafe n = record { moves = λ r b. ground arith }

pub return-IsSafe : {A : Type 0} (x : A) → IsSafe (return x)
return-IsSafe x = record {
  moves = λ r b. record { same = refl; forward = omega arith; within = b.within };
}

refuse-IsSafe : {A : Type 0} → IsSafe (refuse {A = A})
refuse-IsSafe = record {
  moves = λ r b. record { same = refl; forward = omega arith; within = b.within };
}

pub bind-IsSafe :
    {A B : Type 0} (m : Read A) (f : A → Read B)
    → IsSafe m
    → ((x : A) → IsSafe (f x))
    → IsSafe (m >>= f)
bind-IsSafe {A} {B} m f safe next = record { moves = λ r b. go r (m r) (safe.moves r b) }
  where
    go : (r : SaveReader) (out : Result A × SaveReader) → Moves r out.1 → Moves r (continue f out).1
    go r (ok x, s) v = Moves-trans v ((next x).moves s (record { within = v.within }))
    go r (err e, s) v = v

if-IsSafe :
    {A : Type 0} (b : Bool) (m n : Read A) → IsSafe m → IsSafe n → IsSafe (if b then m else n)
if-IsSafe true m n h k = h
if-IsSafe false m n h k = k

read_word-IsSafe :
    {A : Type 0} (n : ℕ) (f : Bytes → A) → IsSafe (take_bytes n >>= λ bytes. return (f bytes))
read_word-IsSafe n f = bind-IsSafe _ _ (take_bytes-IsSafe n) λ bytes. return-IsSafe (f bytes)

check_room-IsSafe : (count item : ℕ) → IsSafe (check_room count item)
unfolding check_room
check_room-IsSafe count item = record { moves = λ r b. ground arith }

-- Every read of the stream is safe.
pub reads-IsSafe :
    IsSafe read_u8
    × IsSafe read_u16
    × IsSafe read_u32
    × IsSafe read_u64
    × IsSafe read_bool
    × ((n : ℕ) → IsSafe (read_bytes n))
    × ((limit : ℕ) → IsSafe (read_string limit))
    × ((limit item : ℕ) → IsSafe (read_count limit item))
unfolding read_u8 read_u16 read_u32 read_u64 read_bool read_bytes read_string read_count
reads-IsSafe = (
  read_word-IsSafe 1 _,
  read_word-IsSafe 2 _,
  read_word-IsSafe 4 _,
  read_word-IsSafe 8 _,
  bind-IsSafe _ _ (read_word-IsSafe 1 _)
      λ v. if-IsSafe (ltb 1 v) _ _ refuse-IsSafe (return-IsSafe _),
  take_bytes-IsSafe,
  λ limit.
      bind-IsSafe _ _ (read_word-IsSafe 4 _)
        λ v. if-IsSafe (ltb limit v) _ _ refuse-IsSafe (take_bytes-IsSafe v),
  λ limit item.
      bind-IsSafe _ _ (read_word-IsSafe 8 _)
        λ v. if-IsSafe (ltb limit v) _ _ refuse-IsSafe (check_room-IsSafe v item),
)

-- From a reader whose offset lies in its bytes, every read of the stream, whatever it returns, keeps
-- the bytes, does not go back and stays in them.
pub reads-Moves :
    (r : SaveReader) (n limit item : ℕ)
    → InBounds r
    → Moves r (read_u8 r).1
      × Moves r (read_u16 r).1
      × Moves r (read_u32 r).1
      × Moves r (read_u64 r).1
      × Moves r (read_bool r).1
      × Moves r (read_bytes n r).1
      × Moves r (read_string limit r).1
      × Moves r (read_count limit item r).1
reads-Moves r n limit item b =
    let (byte, half, word, long, bool, bytes, text, count) = reads-IsSafe in
    (
      byte.moves r b,
      half.moves r b,
      word.moves r b,
      long.moves r b,
      bool.moves r b,
      (bytes n).moves r b,
      (text limit).moves r b,
      (count limit item).moves r b,
    )
