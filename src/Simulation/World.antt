-- ===== src/Simulation/World.antt =====
-- engine/simulation/include/atlas/simulation/world.hpp and src/world.cpp, and `table_id` of
-- table.hpp: the tables of a simulation in the order of their identifiers. What a table is belongs to
-- the game, so the virtual functions of `Table` are a record of operations. A null pointer to a table
-- is `none`. The searches by `lower_bound` walk the list of identifiers.
pub mod Ordered
pub mod Registry
pub mod Hashed
mod Tests
use atlas_engine.Base.{
  ℕ, zero, suc, ◌+◌, ◌%◌, ◌^◌, Bool, true, false, Option, none, some, List, [], ◌∷◌, map, ltb, ◌==◌,
  if◌then◌else◌, length, get_elem?, bit_xor, u32, shr,
}
use atlas_engine.Core.Error.{Result, ok, err, invalid_argument, already_exists, not_found}
use atlas_engine.Core.Hash.{hash_string, fnv_offset_basis, Hasher, fresh, push, value}

pub record Table (T : Type 0) : Type 0 where
  pub row_count : T → ℕ
  pub hash_into : T → Hasher → Hasher
  pub clear : T → T

pub record Entry (T : Type 0) : Type 0 where
  pub id : ℕ
  pub name : List ℕ
  pub table : T

pub record World (T : Type 0) : Type 0 where
  pub entries : List (Entry T)
  pub ids : List ℕ

pub record TableInfo : Type 0 where
  pub id : ℕ
  pub name : List ℕ
  pub row_count : ℕ

unfoldable pub table_id : List ℕ → ℕ
table_id name =
    let full = hash_string fnv_offset_basis name in
    let hashed = u32 (bit_xor (shr full 32) (full % 2 ^ 32)) in if hashed == 0 then 1 else hashed

-- `std::ranges::lower_bound`: the place of the first identifier that is not below.
unfoldable pub lower_bound : ℕ → List ℕ → ℕ
lower_bound id [] = 0
lower_bound id (x ∷ xs) = if ltb x id then suc (lower_bound id xs) else 0

-- `std::vector::insert` before a place.
unfoldable pub insert_at {ℓ} : {A : Type ℓ} → ℕ → A → List A → List A
insert_at zero x ys = x ∷ ys
insert_at (suc i) x [] = x ∷ []
insert_at (suc i) x (y ∷ ys) = y ∷ insert_at i x ys

-- `Hasher::add` of a word of that many bytes: its bytes, the low one first.
pub add_word : ℕ → Hasher → ℕ → Hasher
add_word zero h bits = h
add_word (suc size) h bits = add_word size (push h (bits % 256)) (shr bits 8)

unfoldable pub is_nameless : List ℕ → Bool
is_nameless [] = true
is_nameless (c ∷ name) = false

module _ {T : Type 0} where
  pub empty : World T
  empty = record { entries = []; ids = [] }

  -- `&m_entries[at]` when the identifier at the place is the one sought.
  unfoldable pub find : World T → ℕ → Option (Entry T)
  unfolding lower_bound
  find w id =
      let at = lower_bound id w.ids in
      elim (get_elem? w.ids at) [
        | none ↦ none
        | some found ↦ if found == id then get_elem? w.entries at else none
      ]

  unfoldable pub add_table : World T → List ℕ → Option T → Result (ℕ × World T)
  unfolding find is_nameless lower_bound insert_at
  add_table w name table = if is_nameless name then err invalid_argument else elim table [
    | none ↦ err invalid_argument
    | some t ↦
        let id = table_id name in
        elim (find w id) [
          | some existing ↦ err already_exists
          | none ↦
              let index = lower_bound id w.ids in
              ok (
                id,
                record {
                  entries = insert_at index (record { id = id; name = name; table = t }) w.entries;
                  ids = insert_at index id w.ids;
                },
              )
        ]
  ]

  pub table : World T → ℕ → Option T
  unfolding find
  table w id = elim (find w id) [ some entry ↦ some entry.table | none ↦ none ]

  unfoldable pub contains : World T → ℕ → Bool
  unfolding find
  contains w id = elim (find w id) [ some entry ↦ true | none ↦ false ]

  pub table_count : World T → ℕ
  table_count w = length w.entries

module _ {T : Type 0} (ops : Table T) where
  pub info : Entry T → TableInfo
  info entry = record { id = entry.id; name = entry.name; row_count = ops.row_count entry.table }

  pub tables : World T → List TableInfo
  unfolding info
  tables w = map info w.entries

  -- The identifier and then the rows.
  pub hash_entry : Hasher → Entry T → Hasher
  unfolding add_word
  hash_entry h entry = ops.hash_into entry.table (add_word 4 h entry.id)

  pub hash_entries : Hasher → List (Entry T) → Hasher
  unfolding hash_entry
  hash_entries h [] = h
  hash_entries h (entry ∷ rest) = hash_entries (hash_entry h entry) rest

  -- The count of the tables goes in first.
  pub hash : World T → ℕ
  unfolding hash_entries add_word
  hash w = value (hash_entries (add_word 8 fresh (length w.entries)) w.entries)

  pub table_hash : World T → ℕ → Result ℕ
  unfolding find hash_entry
  table_hash w id = elim (find w id) [
    | none ↦ err not_found
    | some entry ↦ ok (value (hash_entry fresh entry))
  ]

  clear_entry : Entry T → Entry T
  clear_entry entry = record entry { table = ops.clear entry.table }

  pub clear : World T → World T
  unfolding clear_entry
  clear w = record w { entries = map clear_entry w.entries }
