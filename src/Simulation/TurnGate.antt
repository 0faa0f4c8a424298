-- ===== src/Simulation/TurnGate.antt =====
-- engine/simulation/include/atlas/simulation/turn_gate.hpp and src/turn_gate.cpp: which sources have
-- completed which ticks. The window ahead of a source's frontier is four 64-bit words, as in the
-- source. The searches by `lower_bound` walk the list, which is sorted by identifier. The loop that
-- absorbs completed turns takes as fuel the width of the window, after which no bit is left.
pub mod Window
pub mod Mark
pub mod Ready
mod Tests
use atlas_engine.Base.{
  ℕ, zero, suc, ◌+◌, ◌-◌, ◌*◌, ◌/◌, ◌%◌, ◌^◌, Bool, true, false, not, ◌&&◌, ◌||◌, Option, none,
  some, List, [], ◌∷◌, ◌++◌, map, ltb, leb, ◌==◌, if◌then◌else◌, length, get_elem?, set, replicate,
  min, max, bit_or, u64, shr, shl64,
}
use atlas_engine.Core.Error.{Result, Status, ok, err, out_of_range, invalid_argument}

abbrev pub max_sources : ℕ
max_sources = 256

abbrev pub lookahead : ℕ
lookahead = 256

-- The largest tick: nothing bounds the horizon of a gate that waits for nobody.
abbrev pub unbounded_horizon : ℕ
unbounded_horizon = 2 ^ 64 - 1

pub record Source : Type 0 where
  pub id : ℕ
  pub complete_before : ℕ
  pub ahead : List ℕ

-- `m_ids` is the identifiers of `expected`, and both ascend.
pub record TurnGate : Type 0 where
  pub expected : List Source
  pub ids : List ℕ
  pub floor : ℕ

pub empty : TurnGate
empty = record { expected = []; ids = []; floor = 0 }

abbrev pub no_bits : List ℕ
no_bits = replicate 4 0

-- `ahead[word] |= mask`, at the word and the bit of an offset.
pub set_bit : List ℕ → ℕ → List ℕ
set_bit ahead offset = elim (get_elem? ahead (offset / 64)) [
  | some word ↦ set ahead (offset / 64) (bit_or word (shl64 1 (offset % 64)))
  | none ↦ ahead
]

-- The window one place down, the low bit of each word moving into the word below.
pub shift : List ℕ → List ℕ
shift [] = []
shift (w ∷ []) = shr w 1 ∷ []
shift (w ∷ v ∷ rest) = bit_or (shr w 1) (shl64 v 63) ∷ shift (v ∷ rest)

abbrev pub first_word : List ℕ → ℕ
first_word ws = elim ws [ [] ↦ 0 | w ∷ rest ↦ w ]

-- While the turn at the frontier is complete, move the frontier past it.
pub absorb : ℕ → Source → Source
absorb zero s = s
absorb (suc fuel) s = elim (first_word s.ahead % 2 == 0) [
  | true ↦ s
  | false ↦
      absorb fuel
        (record s { complete_before = u64 (s.complete_before + 1); ahead = shift s.ahead })
]

-- The source at which a search by identifier ends, if it is the one sought.
pub find_source : ℕ → List Source → Option Source
find_source id [] = none
find_source id (s ∷ rest) =
    if ltb s.id id then find_source id rest else if s.id == id then some s else none

pub replace_source : Source → List Source → List Source
replace_source new [] = []
replace_source new (s ∷ rest) = if s.id == new.id then new ∷ rest else s ∷ replace_source new rest

-- The identifiers in ascending order, with repetitions kept.
unfoldable pub insert_id : ℕ → List ℕ → List ℕ
insert_id x [] = x ∷ []
insert_id x (y ∷ ys) = if ltb y x then y ∷ insert_id x ys else x ∷ y ∷ ys

unfoldable pub sort_ids : List ℕ → List ℕ
unfolding insert_id
sort_ids [] = []
sort_ids (x ∷ xs) = insert_id x (sort_ids xs)

unfoldable pub adjacent_repeat : List ℕ → Bool
adjacent_repeat [] = false
adjacent_repeat (x ∷ []) = false
adjacent_repeat (x ∷ y ∷ rest) = x == y || adjacent_repeat (y ∷ rest)

-- What `std::ranges::find` over the unsearched list returns.
unfoldable pub linear_find : ℕ → List Source → Option Source
linear_find id [] = none
linear_find id (s ∷ rest) = if s.id == id then some s else linear_find id rest

-- A source already expected keeps what it has completed; a new one starts at the floor.
unfoldable pub carry_over : ℕ → List Source → ℕ → Source
unfolding linear_find
carry_over floor old id = elim (linear_find id old) [
  | some s ↦ s
  | none ↦ record { id = id; complete_before = floor; ahead = no_bits }
]

unfoldable pub expect_sources : TurnGate → List ℕ → Result TurnGate
expect_sources g sources =
    let wanted = sort_ids sources in
    if ltb max_sources (length sources)
    then err out_of_range
    else if adjacent_repeat wanted
    then err invalid_argument
    else ok (record g { expected = map (carry_over g.floor g.expected) wanted; ids = wanted })

pub completed_before : TurnGate → ℕ → Option ℕ
completed_before g id = elim (find_source id g.expected) [
  | some s ↦ some s.complete_before
  | none ↦ none
]

-- The source after it completes a tick that is neither past nor recorded yet.
pub record_turn : Source → ℕ → Result Source
unfolding set_bit absorb
record_turn s tick =
    let distance = tick - s.complete_before in
    if leb lookahead distance
    then err out_of_range
    else ok (absorb lookahead (record s { ahead = set_bit s.ahead distance }))

pub mark_complete : TurnGate → ℕ → ℕ → Result TurnGate
unfolding replace_source
mark_complete g id tick = elim (find_source id g.expected) [
  | none ↦ err invalid_argument
  | some s ↦
      if ltb tick g.floor
      then ok g
      else if ltb tick s.complete_before
      then ok g
      else elim (record_turn s tick) [
        | ok new ↦ ok (record g { expected = replace_source new g.expected })
        | err e ↦ err e
      ]
]

unfoldable pub all_past : ℕ → List Source → Bool
all_past tick [] = true
all_past tick (s ∷ rest) = ltb tick s.complete_before && all_past tick rest

unfoldable pub is_empty : List Source → Bool
is_empty [] = true
is_empty (s ∷ rest) = false

unfoldable pub ready : TurnGate → ℕ → Bool
unfolding all_past is_empty
ready g tick =
    if is_empty g.expected
    then true
    else if ltb tick g.floor
    then true
    else all_past tick g.expected

pub lowest : ℕ → List Source → ℕ
lowest horizon [] = horizon
lowest horizon (s ∷ rest) = lowest (min horizon s.complete_before) rest

pub ready_horizon : TurnGate → ℕ
unfolding lowest is_empty
ready_horizon g =
    if is_empty g.expected then unbounded_horizon else lowest unbounded_horizon g.expected

pub waiting : ℕ → List Source → List ℕ
waiting tick [] = []
waiting tick (s ∷ rest) =
    if leb s.complete_before tick then s.id ∷ waiting tick rest else waiting tick rest

pub waiting_on : TurnGate → ℕ → List ℕ
unfolding waiting
waiting_on g tick = waiting tick g.expected

pub retire_before : TurnGate → ℕ → TurnGate
retire_before g tick = record g { floor = max g.floor tick }

pub expected_sources : TurnGate → List ℕ
expected_sources g = g.ids

-- The search goes up to the first identifier that is not below the one sought.
has_id : ℕ → List ℕ → Bool
has_id id [] = false
has_id id (x ∷ xs) = if ltb x id then has_id id xs else x == id

pub expects : TurnGate → ℕ → Bool
unfolding has_id
expects g id = has_id id g.ids
