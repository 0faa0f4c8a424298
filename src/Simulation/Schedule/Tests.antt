-- ===== src/Simulation/Schedule/Tests.antt =====
-- The schedule at three systems, of which the second conflicts with the first.
use atlas_engine.Base.{ℕ, ◌≡◌, refl, Bool, true, false, List, [], ◌∷◌, All}
use atlas_engine.Core.Error.{ok}
use atlas_engine.Simulation.Schedule.{
  System, Schedule, finalise, tables_exist, all_in, batch_from, fits, conflicts_at, conflicts,
  intersects, meet, close,
}
use atlas_engine.Simulation.Schedule.Batches.{concat, indices, Separate, finalise-batches}

abbrev system : ℕ → List ℕ → List ℕ → System
system id reads writes = record {
  id = id;
  name = id ∷ [];
  reads = reads;
  writes = writes;
  has_compute = true;
  has_commit = true;
}

abbrev three : Schedule
three = record {
  systems =
      system 1 (4 ∷ []) (6 ∷ []) ∷ system 2 (6 ∷ []) (8 ∷ []) ∷ system 3 (4 ∷ []) (9 ∷ []) ∷ [];
  batches = [];
  finalised = false;
}

abbrev has : ℕ → Bool
has id = true

known : tables_exist has three.systems ≡ true
unfolding tables_exist all_in
known = refl

two_batches : batch_from three.systems 0 three.systems [] ≡ (0 ∷ []) ∷ (1 ∷ 2 ∷ []) ∷ []
unfolding batch_from fits conflicts_at conflicts intersects meet close
two_batches = refl

finalise-batches_example :
    (new : Schedule) × (finalise has three ≡ ok new)
    × (new.systems ≡ three.systems)
    × (concat new.batches ≡ indices 0 three.systems)
    × All (Separate three.systems) new.batches
finalise-batches_example = finalise-batches has three known
