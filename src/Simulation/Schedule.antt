-- ===== src/Simulation/Schedule.antt =====
-- engine/simulation/include/atlas/simulation/schedule.hpp and src/schedule.cpp: which systems may run
-- beside each other. Of the two phases of a system only whether it has them is kept, and of the world
-- only which tables it has. The walk over two sorted lists takes the sum of their lengths as fuel.
pub mod Batches
mod Tests
use atlas_engine.Base.{
  ℕ, zero, suc, ◌+◌, Bool, true, false, not, ◌&&◌, ◌||◌, Option, none, some, List, [], ◌∷◌, ◌++◌,
  ltb, ◌==◌, if◌then◌else◌, length, get_elem?, ◌%◌, ◌^◌, bit_xor, u32, shr,
}
use atlas_engine.Core.Error.{
  Result, Status, ok, err, ErrorCode, invalid_argument, already_exists, not_found,
}
use atlas_engine.Core.Hash.{hash_string, fnv_offset_basis}
use atlas_engine.Simulation.TurnGate.{sort_ids}

pub record System : Type 0 where
  pub id : ℕ
  pub name : List ℕ
  pub reads : List ℕ
  pub writes : List ℕ
  pub has_compute : Bool
  pub has_commit : Bool

pub record Schedule : Type 0 where
  pub systems : List System
  pub batches : List (List ℕ)
  pub finalised : Bool

pub system_id : List ℕ → ℕ
system_id name =
    let full = hash_string fnv_offset_basis name in
    let folded = u32 (bit_xor (shr full 32) (full % 2 ^ 32)) in if folded == 0 then 1 else folded

pub unique : List ℕ → List ℕ
unique [] = []
unique (x ∷ []) = x ∷ []
unique (x ∷ y ∷ rest) = let kept = unique (y ∷ rest) in if x == y then kept else x ∷ kept

pub normalise : List ℕ → List ℕ
unfolding unique
normalise ids = unique (sort_ids ids)

-- The walk over two ascending lists.
pub meet : ℕ → List ℕ → List ℕ → Bool
meet zero a b = false
meet (suc fuel) [] b = false
meet (suc fuel) (x ∷ xs) [] = false
meet (suc fuel) (x ∷ xs) (y ∷ ys) =
    let left = meet fuel xs (y ∷ ys) in
    let right = meet fuel (x ∷ xs) ys in if ltb x y then left else if ltb y x then right else true

pub intersects : List ℕ → List ℕ → Bool
unfolding meet
intersects a b = meet (length a + length b) a b

pub conflicts : System → System → Bool
unfolding intersects
conflicts a b =
    intersects a.writes b.writes || intersects a.writes b.reads || intersects a.reads b.writes

pub find_system : ℕ → List System → Option System
find_system id [] = none
find_system id (s ∷ rest) = if s.id == id then some s else find_system id rest

is_empty : List ℕ → Bool
is_empty [] = true
is_empty (x ∷ xs) = false

-- The systems that are there already refuse a name or a hash twice.
pub add : Schedule → System → Result Schedule
unfolding find_system normalise intersects is_empty
add schedule desc =
    let reads = normalise desc.reads in
    let writes = normalise desc.writes in
    let system = record desc { id = system_id desc.name; reads = reads; writes = writes } in
    if is_empty desc.name
    then err invalid_argument
    else if not desc.has_compute && not desc.has_commit
    then err invalid_argument
    else elim (find_system (system_id desc.name) schedule.systems) [
      | some existing ↦ err already_exists
      | none ↦
          if intersects reads writes
          then err invalid_argument
          else if desc.has_commit && is_empty writes
          then err invalid_argument
          else ok (record schedule {
            systems = schedule.systems ++ (system ∷ []);
            batches = [];
            finalised = false;
          })
    ]

unfoldable pub all_in : (ℕ → Bool) → List ℕ → Bool
all_in has [] = true
all_in has (id ∷ ids) = has id && all_in has ids

unfoldable pub tables_exist : (ℕ → Bool) → List System → Bool
unfolding all_in
tables_exist has [] = true
tables_exist has (s ∷ rest) = all_in has s.reads && all_in has s.writes && tables_exist has rest

-- Whether the system at an index conflicts with another.
pub conflicts_at : List System → ℕ → System → Bool
unfolding conflicts
conflicts_at systems member s = elim (get_elem? systems member) [
  | some other ↦ conflicts other s
  | none ↦ false
]

pub fits : List System → List ℕ → System → Bool
unfolding conflicts_at
fits systems [] s = true
fits systems (member ∷ rest) s = not (conflicts_at systems member s) && fits systems rest s

pub close : List ℕ → List (List ℕ)
close [] = []
close (i ∷ is) = (i ∷ is) ∷ []

-- The loop from index `i` on, with a batch begun.
pub batch_from : List System → ℕ → List System → List ℕ → List (List ℕ)
unfolding fits close
batch_from systems i [] begun = close begun
batch_from systems i (s ∷ rest) begun =
    let joined = batch_from systems (suc i) rest (begun ++ (i ∷ [])) in
    let parted = batch_from systems (suc i) rest (i ∷ []) in
    if fits systems begun s then joined else begun ∷ parted

pub finalise : (ℕ → Bool) → Schedule → Result Schedule
unfolding tables_exist batch_from
finalise has schedule =
    if tables_exist has schedule.systems
    then ok (record schedule {
      batches = batch_from schedule.systems 0 schedule.systems [];
      finalised = true;
    })
    else err not_found
