-- ===== src/Simulation/World/Ordered.antt =====
-- A world is an ordered map: the two parallel vectors are its keys and its entries.
use atlas_engine.Base.{
  ℕ, ◌<◌, ◌≡◌, refl, inl, inr, false, Bool-cases, Option, none, some, List, [], ◌∷◌, map, All,
  All-map, ltb, ◌==◌, ==_iff, if◌then◌else◌, get_elem?, arith,
}
use atlas_engine.Base.OrderedMap as OrderedMap
use atlas_engine.Base.OrderedMap.{OrderedMap, put, keys, Ascends}
use atlas_engine.Simulation.World.{Entry, World, lower_bound, insert_at, find}

-- The name and the table under each identifier.
abbrev pub Tables : Type 0 → Type 0
Tables T = OrderedMap (List ℕ × T)

module _ {T : Type 0} where
  abbrev pub entry_of : ℕ × (List ℕ × T) → Entry T
  entry_of (id, (name, t)) = record { id = id; name = name; table = t }

  abbrev pub world_of : Tables T → World T
  world_of m = record { entries = map entry_of m; ids = keys m }

  abbrev pub found : ℕ → Option (List ℕ × T) → Option (Entry T)
  found id none = none
  found id (some (name, t)) = some (record { id = id; name = name; table = t })

  -- What `find` does once the place is known.
  seek : List ℕ → List (Entry T) → ℕ → ℕ → Option (Entry T)
  seek ids entries at id = elim (get_elem? ids at) [
    | none ↦ none
    | some it ↦ if it == id then get_elem? entries at else none
  ]

  find-below : (id : ℕ) (m : Tables T) → All (λ j. id < j) (keys m) → OrderedMap.find id m ≡ none
  unfolding OrderedMap.find
  find-below id [] a = refl
  find-below id ((k, v) ∷ m) a = ground (arith, find-below id m a.1)

  below_trans :
      (id k : ℕ) (m : Tables T) → id < k → All (λ j. k < j) (keys m) → All (λ j. id < j) (keys m)
  below_trans id k m h a = All-map (λ j. k < j) (λ j. id < j) (keys m) (λ j g. omega arith) a

  seek-lem :
      (id : ℕ) (m : Tables T)
      → Ascends m
      → seek (keys m) (map entry_of m) (lower_bound id (keys m)) id
        ≡ found id (OrderedMap.find id m)
  unfolding seek lower_bound OrderedMap.find
  seek-lem id [] a = refl
  seek-lem id ((k, (name, t)) ∷ m) a = elim (Bool-cases (ltb k id)) [
    | inl below ↦ let ne : (k == id) ≡ false = ground arith in rw (below, ne) (seek-lem id m a.1)
    | inr above ↦ elim (Bool-cases (k == id)) [
      | inl same ↦ rw (above, same) (rw ((==_iff k id).0 same) refl)
      | inr other ↦
          let absent = find-below id m (below_trans id k m (ground arith) a.0) in
          rw (above, other, absent) refl
    ]
  ]

  -- Both find the same table.
  pub find-world_of :
      (m : Tables T) (id : ℕ) → Ascends m → find (world_of m) id ≡ found id (OrderedMap.find id m)
  unfolding find seek
  find-world_of m id a = seek-lem id m a

  pub insert_at-keys :
      (id : ℕ) (v : List ℕ × T) (m : Tables T)
      → OrderedMap.find id m ≡ none
      → insert_at (lower_bound id (keys m)) id (keys m) ≡ keys (put id v m)
  unfolding insert_at lower_bound put OrderedMap.find
  insert_at-keys id v [] e = refl
  insert_at-keys id v ((k, w) ∷ m) e = ground (arith, insert_at-keys id v m)

  pub insert_at-entries :
      (id : ℕ) (name : List ℕ) (t : T) (m : Tables T)
      → OrderedMap.find id m ≡ none
      → insert_at
          (lower_bound id (keys m))
          (record { id = id; name = name; table = t })
          (map entry_of m)
        ≡ map entry_of (put id (name, t) m)
  unfolding insert_at lower_bound put OrderedMap.find
  insert_at-entries id name t [] e = refl
  insert_at-entries id name t ((k, w) ∷ m) e = ground (arith, insert_at-entries id name t m)
