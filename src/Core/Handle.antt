-- ===== src/Core/Handle.antt =====
-- engine/core/include/atlas/core/handle.hpp: generation-counted handles and the pool behind them.
-- A free index past the slots, which the source would read out of bounds, reads the default slot
-- and writes nothing here; `IsValid` rules it out.
pub mod Invariant
pub mod Clear
pub mod Lookup
pub mod Stale
pub mod Reachable
mod Tests
use atlas_engine.Base.{
  ℕ, ◌+◌, ◌-◌, ◌^◌, ◌≡◌, Bool, true, false, not, ◌&&◌, ◌||◌, Option, none, some, List, [], ◌∷◌,
  ◌++◌, ltb, leb, ◌==◌, if◌then◌else◌, length, get_elem?, set, u32,
}
use atlas_engine.Core.Error.{Result, ok, err, exhausted}

pub record Handle : Type 0 where
  pub index : ℕ
  pub generation : ℕ

-- Generation zero is the null handle's.
pub is_valid : Handle → Bool
is_valid h = not (h.generation == 0)

-- The defaulted `operator==`.
abbrev pub same_handle : Handle → Handle → Bool
same_handle a b = a.index == b.index && a.generation == b.generation

abbrev pub first_generation : ℕ
first_generation = 1

-- One more, past zero when the 32-bit counter wraps.
pub next_generation : ℕ → ℕ
next_generation current =
    let next = u32 (current + 1) in if next == 0 then first_generation else next

abbrev pub max_entries : ℕ
max_entries = 0xFFFF_FFFF

pub record Slot {ℓ} (A : Type ℓ) : Type ℓ where
  pub value : Option A
  pub generation : ℕ

-- `free` is the vector read from its back: its head is what `insert` takes next.
pub record HandlePool {ℓ} (A : Type ℓ) : Type ℓ where
  pub slots : List (Slot A)
  pub free : List ℕ
  pub live : ℕ

module _ {ℓ} {A : Type ℓ} where
  abbrev pub vacant : Slot A
  vacant = record { value = none; generation = first_generation }

  abbrev pub slot_at : List (Slot A) → ℕ → Slot A
  slot_at slots i = elim (get_elem? slots i) [ some s ↦ s | none ↦ vacant ]

  abbrev pub has_value : Slot A → Bool
  has_value s = elim s.value [ some a ↦ true | none ↦ false ]

  pub empty : HandlePool A
  empty = record { slots = []; free = []; live = 0 }

  -- Reuse the slot that was freed last, else add one while there is room.
  pub insert : HandlePool A → A → Result (Handle × HandlePool A)
  insert p v = elim p.free [
    | i ∷ rest ↦ ok (
      record { index = i; generation = (slot_at p.slots i).generation },
      record {
        slots = set p.slots i (record (slot_at p.slots i) { value = some v });
        free = rest;
        live = p.live + 1;
      },
    )
    | [] ↦
        if leb max_entries (length p.slots)
        then err exhausted
        else ok (
          record { index = u32 (length p.slots); generation = first_generation },
          record {
            slots = p.slots ++ record { value = some v; generation = first_generation } ∷ [];
            free = [];
            live = p.live + 1;
          },
        )
  ]

  -- The slot of a handle that is neither null, out of range nor stale.
  pub resolve : HandlePool A → Handle → Option (Slot A)
  unfolding is_valid
  resolve p h =
      if not (is_valid h) || leb (length p.slots) h.index
      then none
      else if not ((slot_at p.slots h.index).generation == h.generation)
          || not (has_value (slot_at p.slots h.index))
      then none
      else some (slot_at p.slots h.index)

  pub get : HandlePool A → Handle → Option A
  get p h = elim (resolve p h) [ some s ↦ s.value | none ↦ none ]

  pub contains : HandlePool A → Handle → Bool
  contains p h = elim (resolve p h) [ some s ↦ true | none ↦ false ]

  -- Empty the slot and move its generation on, so that the handle stops resolving.
  pub destroy : HandlePool A → Handle → Bool × HandlePool A
  destroy p h = elim (resolve p h) [
    | some s ↦ (
      true,
      record {
        slots =
            set p.slots h.index
              (record { value = none; generation = next_generation s.generation });
        free = h.index ∷ p.free;
        live = p.live - 1;
      },
    )
    | none ↦ (false, p)
  ]

  clear_slot : Slot A → Slot A
  clear_slot s = elim s.value [
    | some a ↦ record { value = none; generation = next_generation s.generation }
    | none ↦ s
  ]

  -- The slots from index `i` on, emptied, and the indices that this frees, the last one first.
  clear_from : ℕ → List (Slot A) → List ℕ → List (Slot A) × List ℕ
  unfolding clear_slot
  clear_from i [] free = ([], free)
  clear_from i (s ∷ rest) free =
      let out = clear_from (i + 1) rest (if has_value s then i ∷ free else free) in
      (clear_slot s ∷ out.0, out.1)

  pub clear : HandlePool A → HandlePool A
  unfolding clear_from
  clear p =
      let out = clear_from 0 p.slots p.free in record { slots = out.0; free = out.1; live = 0 }

  live_from : ℕ → List (Slot A) → List (Handle × A)
  live_from i [] = []
  live_from i (s ∷ rest) = elim s.value [
    | some a ↦ (record { index = i; generation = s.generation }, a) ∷ live_from (i + 1) rest
    | none ↦ live_from (i + 1) rest
  ]

  -- What `for_each_live` visits, in slot order.
  pub for_each_live : HandlePool A → List (Handle × A)
  unfolding live_from
  for_each_live p = live_from 0 p.slots

pub data Op {ℓ} (A : Type ℓ) : Type ℓ where
  inserts : A → Op A
  destroys : Handle → Op A
  clears : Op A

module _ {ℓ} {A : Type ℓ} where
  -- A client's call. An insertion that fails leaves the pool as it was.
  pub step : HandlePool A → Op A → HandlePool A
  step p (inserts v) = elim (insert p v) [ ok r ↦ r.1 | err e ↦ p ]
  step p (destroys h) = (destroy p h).1
  step p clears = clear p

  pub run : HandlePool A → List (Op A) → HandlePool A
  run p [] = p
  run p (o ∷ os) = run (step p o) os
