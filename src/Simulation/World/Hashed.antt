-- ===== src/Simulation/World/Hashed.antt =====
-- A table that the world has can be hashed.
use atlas_engine.Base.{ℕ, ◌≡◌, refl, true, false, Option, none, some}
use atlas_engine.Core.Error.{not_found, ok, err}
use atlas_engine.Core.Hash.{fresh, value}
use atlas_engine.Simulation.World.{World, Table, Entry, find, contains, table_hash, hash_entry}

module _ {T : Type 0} (ops : Table T) where
  found_hash :
      (o : Option (Entry T))
      → (elim o [ some entry ↦ true | none ↦ false ]) ≡ true
      → (h : ℕ) × ((elim o [
        | none ↦ err not_found
        | some entry ↦ ok (value (hash_entry ops fresh entry))
      ])
          ≡ ok h)
  found_hash none e = absurd (cc)
  found_hash (some entry) e = (value (hash_entry ops fresh entry), refl)

  pub table_hash-contains :
      (w : World T) (id : ℕ) → contains w id ≡ true → (h : ℕ) × (table_hash ops w id ≡ ok h)
  unfolding contains table_hash
  table_hash-contains w id e = found_hash (find w id) e
