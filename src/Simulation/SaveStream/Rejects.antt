-- ===== src/Simulation/SaveStream/Rejects.antt =====
-- Bytes that a read refuses, wherever they stand and whatever follows them.
use atlas_engine.Base.{
  ℕ, ◌*◌, ◌^◌, ◌≤◌, ◌<◌, ◌≡◌, refl, ap, sym, subst, Bool, true, false, ◌++◌, append_assoc, length,
  le→ltb, lt→ltb,
}
use atlas_engine.Core.Error.{Result, ErrorCode, ok, err, malformed_data}
use atlas_engine.Simulation.SaveStream.{
  Bytes, SaveReader, Read, ◌>>=◌, continue, read_u32, read_u64, read_count, require,
}
use atlas_engine.Simulation.SaveStream.Bytes.{le_bytes}
use atlas_engine.Simulation.SaveStream.RoundTrip.{
  ReadsBack, at, bind-ReadsBack, read_u32-ReadsBack, read_u64-ReadsBack,
}
use atlas_engine.Simulation.SaveStream.Formats.{then_count, check_room_lem}

-- `m` refuses the bytes `bs` with `e`.
pub record Rejects {A : Type 0} (m : Read A) (bs : Bytes) (e : ErrorCode) : Type 0 where
  pub apply : (pre rest : Bytes) → (m (at pre (bs ++ rest))).0 ≡ err e

continue_err :
    {A B : Type 0} (f : A → Read B) (out : Result A × SaveReader) (e : ErrorCode)
    → out.0 ≡ err e
    → (continue f out).0 ≡ err e
continue_err f (ok x, s) e h = absurd (cc)
continue_err f (err d, s) e h = let same : d ≡ e = cc in ap err same

-- The read that stands first refuses.
pub first-Rejects :
    {A B : Type 0} (m : Read A) (f : A → Read B) (bs cs : Bytes) (e : ErrorCode)
    → Rejects m bs e
    → Rejects (m >>= f) (bs ++ cs) e
first-Rejects m f bs cs e h = record {
  apply = λ pre rest.
      rw (append_assoc bs cs rest)
        (continue_err f (m (at pre (bs ++ (cs ++ rest)))) e (h.apply pre (cs ++ rest)));
}

-- The read that stands first succeeds, and one behind it refuses.
pub bind-Rejects :
    {A B : Type 0} (m : Read A) (f : A → Read B) (bs cs : Bytes) (x : A) (e : ErrorCode)
    → ReadsBack m bs x
    → Rejects (f x) cs e
    → Rejects (m >>= f) (bs ++ cs) e
bind-Rejects m f bs cs x e h k = record {
  apply =
      λ pre rest. rw (append_assoc bs cs rest, h.apply pre (cs ++ rest)) (k.apply (pre ++ bs) rest);
}

pub require-Rejects :
    {B : Type 0} (f : Unit {0} → Read B) (b : Bool) (e : ErrorCode) (bs : Bytes)
    → b ≡ false
    → Rejects (require b e >>= f) bs e
require-Rejects f b e bs h =
    subst (λ t. Rejects (require t e >>= f) bs e) (sym h) (record { apply = λ pre rest. refl })

-- A count above its limit.
pub count-Rejects :
    {B : Type 0} (f : ℕ → Read B) (limit item count : ℕ) (cs : Bytes)
    → limit < count
    → count < 2 ^ 64
    → Rejects (read_count limit item >>= f) (le_bytes 8 count ++ cs) malformed_data
unfolding read_count
count-Rejects f limit item count cs h w = record {
  apply = λ pre rest.
      rw
        (
          append_assoc (le_bytes 8 count) cs rest,
          (read_u64-ReadsBack count w).apply pre (cs ++ rest),
          lt→ltb limit count h,
        )
        refl;
}

-- What follows a count that is believed.
continue_count :
    {B : Type 0} (f : ℕ → Read B) (limit item count : ℕ) (pre cs rest : Bytes)
    → count ≤ limit
    → count < 2 ^ 64
    → count * item ≤ length cs
    → (read_count limit item >>= f) (at pre (le_bytes 8 count ++ (cs ++ rest)))
      ≡ f count (at (pre ++ le_bytes 8 count) (cs ++ rest))
unfolding read_count
continue_count f limit item count pre cs rest h w room =
    rw
      (
        (read_u64-ReadsBack count w).apply pre (cs ++ rest),
        le→ltb limit count h,
        check_room_lem (pre ++ le_bytes 8 count) cs rest count item room,
      )
      refl

-- What a read makes of the bytes `bs`: a value, or a refusal.
pub record Answers {A : Type 0} (m : Read A) (bs : Bytes) (out : Result A) : Type 0 where
  pub reads : (x : A) → out ≡ ok x → ReadsBack m bs x
  pub rejects : (e : ErrorCode) → out ≡ err e → Rejects m bs e

pub bind-Answers :
    {A B : Type 0} (m : Read A) (f : A → Read B) (bs cs : Bytes) (x : A) (out : Result B)
    → ReadsBack m bs x
    → Answers (f x) cs out
    → Answers (m >>= f) (bs ++ cs) out
bind-Answers m f bs cs x out h k = record {
  reads = λ y e. bind-ReadsBack m f bs cs x y h (k.reads y e);
  rejects = λ d e. bind-Rejects m f bs cs x d h (k.rejects d e);
}

module _ {B : Type 0} where
  pub u32-Answers :
      (f : ℕ → Read B) {cs : Bytes} {out : Result B} (v : ℕ)
      → v < 2 ^ 32
      → Answers (f v) cs out
      → Answers (read_u32 >>= f) (le_bytes 4 v ++ cs) out
  u32-Answers f {cs} {out} v h k =
      bind-Answers read_u32 f (le_bytes 4 v) cs v out (read_u32-ReadsBack v h) k

  pub u64-Answers :
      (f : ℕ → Read B) {cs : Bytes} {out : Result B} (v : ℕ)
      → v < 2 ^ 64
      → Answers (f v) cs out
      → Answers (read_u64 >>= f) (le_bytes 8 v ++ cs) out
  u64-Answers f {cs} {out} v h k =
      bind-Answers read_u64 f (le_bytes 8 v) cs v out (read_u64-ReadsBack v h) k

  pub require-Answers :
      (f : Unit {0} → Read B) {cs : Bytes} {out : Result B} (b : Bool) (e : ErrorCode)
      → b ≡ true
      → Answers (f tt) cs out
      → Answers (require b e >>= f) cs out
  require-Answers f {cs} {out} b e h k = subst (λ t. Answers (require t e >>= f) cs out) (sym h) k

  -- A count is believed when at least that many items follow it.
  pub count-Answers :
      (f : ℕ → Read B) {cs : Bytes} {out : Result B} (limit item count : ℕ)
      → count ≤ limit
      → count < 2 ^ 64
      → count * item ≤ length cs
      → Answers (f count) cs out
      → Answers (read_count limit item >>= f) (le_bytes 8 count ++ cs) out
  count-Answers f {cs} {out} limit item count h w room k = record {
    reads = λ y e. then_count f limit item count h w room (k.reads y e);
    rejects = λ d e. record {
      apply = λ pre rest.
          rw
            (
              append_assoc (le_bytes 8 count) cs rest,
              continue_count f limit item count pre cs rest h w room,
            )
            ((k.rejects d e).apply (pre ++ le_bytes 8 count) rest);
    };
  }
