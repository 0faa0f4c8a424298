-- ===== src/Simulation/SaveStream/Formats.antt =====
-- Formats in sequence: what is read back from one piece of the bytes after another.
use atlas_engine.Base.{
  ℕ, ◌*◌, ◌^◌, ◌≤◌, ◌<◌, ◌≡◌, sym, subst, arith, Bool, true, Option, some, List, [], ◌∷◌, ◌++◌,
  append_assoc, append-nil, length, length-append, All, le→ltb,
}
use atlas_engine.Core.Error.{ErrorCode, ok}
use atlas_engine.Simulation.SaveStream.{
  Bytes, Read, ◌>>=◌, return, write_u32, write_u64, read_u32, read_u64, read_string, read_count,
  check_room, require, or_refuse, read_all,
}
use atlas_engine.Simulation.SaveStream.Bytes.{le_bytes, append_le_lem}
use atlas_engine.Simulation.SaveStream.RoundTrip.{
  ReadsBack, at, bind-ReadsBack, return-ReadsBack, read_u32-ReadsBack, read_u64-ReadsBack,
  read_string-ReadsBack,
}

pub check_room_lem :
    (pre bs rest : Bytes) (count item : ℕ)
    → count * item ≤ length bs
    → check_room count item (at pre (bs ++ rest)) ≡ (ok count, at pre (bs ++ rest))
unfolding check_room
check_room_lem pre bs rest count item h =
    ground (arith, length-append pre (bs ++ rest), length-append bs rest)

module _ {B : Type 0} where
  pub then_u32 :
      (f : ℕ → Read B) {cs : Bytes} {y : B} (v : ℕ)
      → v < 2 ^ 32
      → ReadsBack (f v) cs y
      → ReadsBack (read_u32 >>= f) (le_bytes 4 v ++ cs) y
  then_u32 f {cs} {y} v h k =
      bind-ReadsBack read_u32 f (le_bytes 4 v) cs v y (read_u32-ReadsBack v h) k

  pub then_u64 :
      (f : ℕ → Read B) {cs : Bytes} {y : B} (v : ℕ)
      → v < 2 ^ 64
      → ReadsBack (f v) cs y
      → ReadsBack (read_u64 >>= f) (le_bytes 8 v ++ cs) y
  then_u64 f {cs} {y} v h k =
      bind-ReadsBack read_u64 f (le_bytes 8 v) cs v y (read_u64-ReadsBack v h) k

  pub then_string :
      (f : Bytes → Read B) {cs : Bytes} {y : B} (limit : ℕ) (text : Bytes)
      → length text ≤ limit
      → length text < 2 ^ 32
      → ReadsBack (f text) cs y
      → ReadsBack (read_string limit >>= f) ((le_bytes 4 (length text) ++ text) ++ cs) y
  then_string f {cs} {y} limit text h w k =
      bind-ReadsBack (read_string limit) f (le_bytes 4 (length text) ++ text) cs text y
        (read_string-ReadsBack limit text h w) k

  pub then_require :
      (f : Unit {0} → Read B) {cs : Bytes} {y : B} (b : Bool) (e : ErrorCode)
      → b ≡ true
      → ReadsBack (f tt) cs y
      → ReadsBack (require b e >>= f) cs y
  then_require f {cs} {y} b e h k = subst (λ t. ReadsBack (require t e >>= f) cs y) (sym h) k

  pub then_known :
      {A : Type 0} (f : A → Read B) {cs : Bytes} {y : B} (o : Option A) (a : A)
      → o ≡ some a
      → ReadsBack (f a) cs y
      → ReadsBack (or_refuse o >>= f) cs y
  then_known {A} f {cs} {y} o a h k = subst (λ t. ReadsBack (or_refuse t >>= f) cs y) (sym h) k

  -- A count is believed when at least that many items follow it.
  pub then_count :
      (f : ℕ → Read B) {cs : Bytes} {y : B} (limit item count : ℕ)
      → count ≤ limit
      → count < 2 ^ 64
      → count * item ≤ length cs
      → ReadsBack (f count) cs y
      → ReadsBack (read_count limit item >>= f) (le_bytes 8 count ++ cs) y
  unfolding read_count
  then_count f {cs} {y} limit item count h w room k = record {
    apply = λ pre rest. rw (
      append_assoc (le_bytes 8 count) cs rest,
      (read_u64-ReadsBack count w).apply pre (cs ++ rest),
      le→ltb limit count h,
      check_room_lem (pre ++ le_bytes 8 count) cs rest count item room,
      k.apply (pre ++ le_bytes 8 count) rest,
      append_assoc pre (le_bytes 8 count) cs,
    );
  }

-- The bytes of a list, item by item.
unfoldable pub all_bytes : {A : Type 0} → (A → Bytes) → List A → Bytes
all_bytes print [] = []
all_bytes print (x ∷ xs) = print x ++ all_bytes print xs

pub read_all-ReadsBack :
    {A : Type 0} (read : Read A) (print : A → Bytes) (xs : List A)
    → All (λ x. ReadsBack read (print x) x) xs
    → ReadsBack (read_all read (length xs)) (all_bytes print xs) xs
unfolding read_all all_bytes
read_all-ReadsBack read print [] h = return-ReadsBack []
read_all-ReadsBack read print (x ∷ xs) h =
    bind-ReadsBack read _ (print x) (all_bytes print xs) x (x ∷ xs) h.0 (
      subst (λ bs. ReadsBack (read_all read (length xs) >>= λ rest. return (x ∷ rest)) bs (x ∷ xs))
        (append-nil (all_bytes print xs))
        (bind-ReadsBack (read_all read (length xs)) _ (all_bytes print xs) [] xs (x ∷ xs)
          (read_all-ReadsBack read print xs h.1) (return-ReadsBack (x ∷ xs))))

-- Each item takes at least some bytes.
pub length-all_bytes :
    {A : Type 0} (print : A → Bytes) (item : ℕ) (xs : List A)
    → All (λ x. item ≤ length (print x)) xs
    → length xs * item ≤ length (all_bytes print xs)
unfolding all_bytes
length-all_bytes print item [] h = omega arith
length-all_bytes print item (x ∷ xs) h =
    omega
      (arith, h.0, length-append (print x) (all_bytes print xs), length-all_bytes print item xs h.1)

pub write_u32_lem : (out : Bytes) (v : ℕ) → write_u32 out v ≡ out ++ le_bytes 4 v
unfolding write_u32
write_u32_lem out v = append_le_lem 4 out v

pub write_u64_lem : (out : Bytes) (v : ℕ) → write_u64 out v ≡ out ++ le_bytes 8 v
unfolding write_u64
write_u64_lem out v = append_le_lem 8 out v
