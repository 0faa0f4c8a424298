-- ===== src/Simulation/SaveStream/Refusals.antt =====
-- What a read answers to bytes that it does not take: one of two errors, whatever the bytes.
use atlas_engine.Base.{
  ℕ, zero, suc, ◌≡◌, refl, ◌⊎◌, inl, Bool, true, false, Option, none, some, [], ◌∷◌, ltb, leb, not,
  length, if◌then◌else◌, u64, ◌+◌, ◌-◌, take, drop, ◌*◌, ◌&&◌,
}
use atlas_engine.Core.Error.{Result, ErrorCode, ok, err, malformed_data, version_mismatch}
use atlas_engine.Simulation.SaveStream.{
  Bytes, SaveReader, Read, ◌>>=◌, continue, return, refuse, fail, require, or_refuse, read_all,
  check_room, read_u32, read_u64, read_string, read_count, read_bytes, take_bytes, expect_end,
}

-- A read refuses with one of these and nothing else.
abbrev pub IsRefusal : ErrorCode → Type 0
IsRefusal e = (e ≡ malformed_data) ⊎ (e ≡ version_mismatch)

abbrev pub RefusesWell : {A : Type 0} → Result A → Type 0
RefusesWell (ok x) = Unit
RefusesWell (err e) = IsRefusal e

pub record Refuses {A : Type 0} (m : Read A) : Type 0 where
  pub apply : (r : SaveReader) → RefusesWell (m r).0

pub bind-Refuses :
    {A B : Type 0} (m : Read A) (f : A → Read B)
    → Refuses m
    → ((x : A) → Refuses (f x))
    → Refuses (m >>= f)
bind-Refuses {A} {B} m f h k = record { apply = λ r. go (m r) (h.apply r) }
  where
    go : (out : Result A × SaveReader) → RefusesWell out.0 → RefusesWell (continue f out).0
    go (ok x, s) v = (k x).apply s
    go (err e, s) v = v

pub return-Refuses : {A : Type 0} (x : A) → Refuses (return x)
return-Refuses x = record { apply = λ r. tt }

fail-Refuses : {A : Type 0} (e : ErrorCode) → IsRefusal e → Refuses {A = A} (fail e)
fail-Refuses e h = record { apply = λ r. h }

pub require-Refuses : (b : Bool) (e : ErrorCode) → IsRefusal e → Refuses (require b e)
require-Refuses true e h = return-Refuses tt
require-Refuses false e h = fail-Refuses e h

pub or_refuse-Refuses : {A : Type 0} (o : Option A) → Refuses (or_refuse o)
or_refuse-Refuses none = record { apply = λ r. inl refl }
or_refuse-Refuses (some a) = return-Refuses a

take_bytes-Refuses : (n : ℕ) → Refuses (take_bytes n)
unfolding take_bytes
take_bytes-Refuses n = record { apply = λ r. go r (ltb (length r.bytes - r.offset) n) }
  where
    go :
        (r : SaveReader) (b : Bool)
        → RefusesWell
            (if◌then◌else◌ {A = Result Bytes × SaveReader} b
              (err malformed_data, r)
              (ok (take n (drop r.offset r.bytes)), record r { offset = r.offset + n })).0
    go r true = inl refl
    go r false = tt

word-Refuses :
    {A : Type 0} (n : ℕ) (f : Bytes → A) → Refuses (take_bytes n >>= λ bytes. return (f bytes))
word-Refuses n f = bind-Refuses _ _ (take_bytes-Refuses n) λ bytes. return-Refuses (f bytes)

if-Refuses : {A : Type 0} (b : Bool) (m : Read A) → Refuses m → Refuses (if b then refuse else m)
if-Refuses true m h = record { apply = λ r. inl refl }
if-Refuses false m h = h

check_room-Refuses : (count item : ℕ) → Refuses (check_room count item)
unfolding check_room
check_room-Refuses count item = record {
  apply = λ r. go r (ltb 0 item && ltb (length r.bytes - r.offset) (u64 (count * item)));
}
  where
    go :
        (r : SaveReader) (b : Bool)
        → RefusesWell
            (if◌then◌else◌ {A = Result ℕ × SaveReader} b (err malformed_data, r) (ok count, r)).0
    go r true = inl refl
    go r false = tt

pub read_u32-Refuses : Refuses read_u32
unfolding read_u32
read_u32-Refuses = word-Refuses 4 _

pub read_u64-Refuses : Refuses read_u64
unfolding read_u64
read_u64-Refuses = word-Refuses 8 _

pub read_bytes-Refuses : (n : ℕ) → Refuses (read_bytes n)
unfolding read_bytes
read_bytes-Refuses n = take_bytes-Refuses n

pub read_string-Refuses : (limit : ℕ) → Refuses (read_string limit)
unfolding read_string
read_string-Refuses limit =
    bind-Refuses _ _ read_u32-Refuses
      λ n. if-Refuses (ltb limit n) (take_bytes n) (take_bytes-Refuses n)

pub read_count-Refuses : (limit item : ℕ) → Refuses (read_count limit item)
unfolding read_count
read_count-Refuses limit item =
    bind-Refuses _ _ read_u64-Refuses
      λ n. if-Refuses (ltb limit n) (check_room n item) (check_room-Refuses n item)

pub read_all-Refuses : {A : Type 0} (m : Read A) (n : ℕ) → Refuses m → Refuses (read_all m n)
unfolding read_all
read_all-Refuses m zero h = return-Refuses []
read_all-Refuses m (suc n) h =
    bind-Refuses _ _ h
      λ x. bind-Refuses _ _ (read_all-Refuses m n h) λ rest. return-Refuses (x ∷ rest)

pub expect_end-refusal : (r : SaveReader) → RefusesWell (expect_end r)
unfolding expect_end
expect_end-refusal r = go (leb (length r.bytes) r.offset)
  where
    go : (b : Bool) → RefusesWell (if not b then err malformed_data else ok tt)
    go true = tt
    go false = inl refl
