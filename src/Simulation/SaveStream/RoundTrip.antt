-- ===== src/Simulation/SaveStream/RoundTrip.antt =====
-- What is written is what is read back, at any place of a stream.
use native.Mathlib.Nat.{mod-eq_of_lt}
use atlas_engine.Base.{
  ℕ, ◌-◌, ◌^◌, ◌≤◌, ◌<◌, ◌≡◌, refl, subst, sym, arith, [], ◌∷◌, ◌++◌, append_assoc, append-nil,
  length, length-append, take-append_length, drop-append_length, if◌then◌else◌, Bool, true, false,
  le→ltb,
}
use atlas_engine.Core.Error.{ok}
use atlas_engine.Simulation.SaveStream.{
  Bytes, SaveReader, Read, ◌>>=◌, return, refuse, take_bytes, write_u8, write_u32, write_u64,
  write_bool, write_string, read_u8, read_u16, read_u32, read_u64, read_bool, read_bytes,
  read_string, read_count, check_room, expect_end,
}
use atlas_engine.Simulation.SaveStream.Bytes.{
  le_bytes, length-le_bytes, append_le_lem, read_le-le_bytes,
}

-- The reader that stands behind `pre`, before `rest`.
abbrev pub at : Bytes → Bytes → SaveReader
at pre rest = record { bytes = pre ++ rest; offset = length pre }

-- `m` reads `x` from the bytes `bs`, wherever they stand, and stops behind them.
pub record ReadsBack {A : Type 0} (m : Read A) (bs : Bytes) (x : A) : Type 0 where
  pub apply : (pre rest : Bytes) → m (at pre (bs ++ rest)) ≡ (ok x, at (pre ++ bs) rest)

take_bytes-ReadsBack : (n : ℕ) (bs : Bytes) → length bs ≡ n → ReadsBack (take_bytes n) bs bs
unfolding take_bytes
take_bytes-ReadsBack n bs e = record {
  apply = λ pre rest. rw (
    ← e,
    le→ltb (length (pre ++ (bs ++ rest)) - length pre) (length bs)
        (omega (arith, length-append pre (bs ++ rest), length-append bs rest)),
    drop-append_length pre (bs ++ rest),
    take-append_length bs rest,
    append_assoc pre bs rest,
    length-append pre bs,
  );
}

pub bind-ReadsBack :
    {A B : Type 0} (m : Read A) (f : A → Read B) (bs cs : Bytes) (x : A) (y : B)
    → ReadsBack m bs x
    → ReadsBack (f x) cs y
    → ReadsBack (m >>= f) (bs ++ cs) y
bind-ReadsBack m f bs cs x y h k = record {
  apply = λ pre rest. rw (
    append_assoc bs cs rest,
    h.apply pre (cs ++ rest),
    k.apply (pre ++ bs) rest,
    append_assoc pre bs cs,
  );
}

pub return-ReadsBack : {A : Type 0} (x : A) → ReadsBack (return x) [] x
return-ReadsBack x = record { apply = λ pre rest. rw append-nil }

-- A read that goes on with a plain function of the bytes that it took.
read_word-ReadsBack :
    {A : Type 0} (n : ℕ) (f : Bytes → A) (bs : Bytes) (x : A)
    → length bs ≡ n
    → f bs ≡ x
    → ReadsBack (take_bytes n >>= λ bytes. return (f bytes)) bs x
read_word-ReadsBack n f bs x e v =
    subst (λ cs. ReadsBack (take_bytes n >>= λ bytes. return (f bytes)) cs x) (append-nil bs)
      (bind-ReadsBack (take_bytes n) (λ bytes. return (f bytes)) bs [] bs x
        (take_bytes-ReadsBack n bs e)
        (subst (λ y. ReadsBack (return y) [] x) (sym v) (return-ReadsBack x)))

pub read_u16-ReadsBack : (v : ℕ) → v < 2 ^ 16 → ReadsBack read_u16 (le_bytes 2 v) v
unfolding read_u16
read_u16-ReadsBack v h = read_word-ReadsBack 2 _ _ v (length-le_bytes 2 v) (read_le-le_bytes 2 v h)

pub read_u32-ReadsBack : (v : ℕ) → v < 2 ^ 32 → ReadsBack read_u32 (le_bytes 4 v) v
unfolding read_u32
read_u32-ReadsBack v h = read_word-ReadsBack 4 _ _ v (length-le_bytes 4 v) (read_le-le_bytes 4 v h)

pub read_u64-ReadsBack : (v : ℕ) → v < 2 ^ 64 → ReadsBack read_u64 (le_bytes 8 v) v
unfolding read_u64
read_u64-ReadsBack v h = read_word-ReadsBack 8 _ _ v (length-le_bytes 8 v) (read_le-le_bytes 8 v h)

pub read_bytes-ReadsBack : (bs : Bytes) → ReadsBack (read_bytes (length bs)) bs bs
unfolding read_bytes
read_bytes-ReadsBack bs = take_bytes-ReadsBack (length bs) bs refl

read_bool-ReadsBack : (b : Bool) → ReadsBack read_bool ((if b then 1 else 0) ∷ []) b
unfolding read_bool read_u8
read_bool-ReadsBack true =
    bind-ReadsBack read_u8 _ (1 ∷ []) [] 1 true read_one (return-ReadsBack true)
  where
    read_one : ReadsBack read_u8 (1 ∷ []) 1
    read_one = read_word-ReadsBack 1 _ _ 1 refl refl
read_bool-ReadsBack false =
    bind-ReadsBack read_u8 _ (0 ∷ []) [] 0 false read_zero (return-ReadsBack false)
  where
    read_zero : ReadsBack read_u8 (0 ∷ []) 0
    read_zero = read_word-ReadsBack 1 _ _ 0 refl refl

-- A text that is not longer than the reader allows.
pub read_string-ReadsBack :
    (limit : ℕ) (text : Bytes)
    → length text ≤ limit
    → length text < 2 ^ 32
    → ReadsBack (read_string limit) (le_bytes 4 (length text) ++ text) text
unfolding read_string
read_string-ReadsBack limit text h w =
    bind-ReadsBack read_u32 _ (le_bytes 4 (length text)) text (length text) text
      (read_u32-ReadsBack _ w)
      (subst (λ b. ReadsBack (if b then refuse else take_bytes (length text)) text text)
        (sym (le→ltb limit (length text) h)) (take_bytes-ReadsBack _ text refl))

-- The reader over `all` that stands where the writer `out` ended.
abbrev pub from : Bytes → Bytes → SaveReader
from out all = record { bytes = all; offset = length out }

pub read_written :
    {A : Type 0} (m : Read A) (out bs rest : Bytes) (x : A)
    → ReadsBack m bs x
    → m (from out ((out ++ bs) ++ rest)) ≡ (ok x, from (out ++ bs) ((out ++ bs) ++ rest))
read_written m out bs rest x h =
    subst (λ all. m (from out all) ≡ (ok x, from (out ++ bs) ((out ++ bs) ++ rest)))
      (sym (append_assoc out bs rest)) (h.apply out rest)

-- A 64-bit word that is written behind any bytes is read back, whatever follows it, and the reader
-- stops where the writer did.
pub read-write_u64 :
    (out rest : Bytes) (v : ℕ)
    → v < 2 ^ 64
    → let all = write_u64 out v ++ rest in
      read_u64 (from out all) ≡ (ok v, from (write_u64 out v) all)
unfolding write_u64
read-write_u64 out rest v h =
    rw (append_le_lem 8 out v)
      (read_written read_u64 out (le_bytes 8 v) rest v (read_u64-ReadsBack v h))

-- A boolean that is written behind any bytes is read back, whatever follows it, and the reader stops
-- where the writer did.
pub read-write_bool :
    (out rest : Bytes) (b : Bool)
    → let all = write_bool out b ++ rest in
      read_bool (from out all) ≡ (ok b, from (write_bool out b) all)
unfolding write_bool write_u8
read-write_bool out rest b = read_written read_bool out _ rest b (read_bool-ReadsBack b)

-- A text shorter than 2 ^ 32 bytes that is written behind any bytes is read back under every limit
-- that its length does not exceed, and the reader stops where the writer did.
pub read-write_string :
    (out rest text : Bytes) (limit : ℕ)
    → length text ≤ limit
    → length text < 2 ^ 32
    → let all = write_string out text ++ rest in
      read_string limit (from out all) ≡ (ok text, from (write_string out text) all)
unfolding write_string write_u32
read-write_string out rest text limit h w =
    rw
      (
        mod-eq_of_lt w,
        append_le_lem 4 out (length text),
        append_assoc out (le_bytes 4 (length text)) text,
      )
      (read_written (read_string limit) out (le_bytes 4 (length text) ++ text) rest text
        (read_string-ReadsBack limit text h w))

check_room_lem :
    (pre payload rest : Bytes)
    → length payload < 2 ^ 64
    → check_room (length payload) 1 (at pre (payload ++ rest))
      ≡ (ok (length payload), at pre (payload ++ rest))
unfolding check_room
check_room_lem pre payload rest w =
    ground (arith, length-append pre (payload ++ rest), length-append payload rest)

-- A counted run of bytes, and what is read behind it: the count is believed because the bytes follow.
pub counted-ReadsBack :
    {B : Type 0} (limit : ℕ) (payload cs : Bytes) (f : Bytes → Read B) (y : B)
    → length payload ≤ limit
    → length payload < 2 ^ 64
    → ReadsBack (f payload) cs y
    → ReadsBack
        (read_count limit 1 >>= λ n. (read_bytes n >>= f))
        (le_bytes 8 (length payload) ++ (payload ++ cs))
        y
unfolding read_count
counted-ReadsBack limit payload cs f y h w k =
    let count = le_bytes 8 (length payload) in
    let body =
      bind-ReadsBack (read_bytes (length payload)) f payload cs payload y
        (read_bytes-ReadsBack payload) k in
    record {
      apply = λ pre rest. rw (
        append_assoc count (payload ++ cs) rest,
        (read_u64-ReadsBack (length payload) w).apply pre ((payload ++ cs) ++ rest),
        le→ltb limit (length payload) h,
        append_assoc payload cs rest,
        check_room_lem (pre ++ count) payload (cs ++ rest) w,
        ← append_assoc payload cs rest,
        body.apply (pre ++ count) rest,
        append_assoc pre count (payload ++ cs),
      );
    }

-- A reader that has read everything stands at the end.
pub expect_end-at : (bs : Bytes) → expect_end (at bs []) ≡ ok tt
unfolding expect_end
expect_end-at bs = ground (arith, length-append bs [])
