-- ===== src/Core/Handle/Tests.antt =====
-- The pool at concrete values.
use atlas_engine.Base.{ℕ, ◌≡◌, refl, none, some, [], ◌∷◌, arith, length, if◌then◌else◌}
use atlas_engine.Core.Handle.{
  Handle, HandlePool, inserts, destroys, clears, run, step, insert, destroy, get, contains, empty,
  is_valid, next_generation, same_handle, for_each_live, resolve,
}
use atlas_engine.Core.Handle.Invariant.{IsValid}
use atlas_engine.Core.Handle.Lookup.{get-insert, get-destroy}
use atlas_engine.Core.Handle.Stale.{get-run_destroyed}
use atlas_engine.Core.Handle.Reachable.{run-empty-IsValid}

abbrev first : Handle
first = record { index = 0; generation = 1 }

abbrev second : Handle
second = record { index = 1; generation = 1 }

-- Two values, the first of which was destroyed and its slot used again.
abbrev reused : HandlePool ℕ
reused = record {
  slots =
      record { value = some 30; generation = 2 } ∷ record { value = some 20; generation = 1 } ∷ [];
  free = [];
  live = 2;
}

abbrev freed : HandlePool ℕ
freed = record {
  slots = record { value = none; generation = 2 } ∷ record { value = some 20; generation = 1 } ∷ [];
  free = 0 ∷ [];
  live = 1;
}

freed-IsValid : IsValid freed
freed-IsValid = record {
  free_empty = ((record { value = none; generation = 2 }, refl, refl), tt);
  free_once = (tt, tt);
  counted = refl;
  complete = refl;
  bounded = omega arith;
  generations = omega arith;
}

run_reuses : run empty (inserts 10 ∷ inserts 20 ∷ destroys first ∷ inserts 30 ∷ []) ≡ reused
unfolding run step empty insert destroy resolve is_valid next_generation
run_reuses = refl

wraps_past_zero : next_generation 0xFFFF_FFFF ≡ 1
unfolding next_generation
wraps_past_zero = refl

get-insert_example :
    (get freed (record { index = 0; generation = 2 }) ≡ none)
    × ((k : Handle)
        → get reused k
          ≡ (if same_handle k (record { index = 0; generation = 2 }) then some 30 else get freed k))
unfolding insert
get-insert_example = get-insert 30 freed-IsValid refl

get-destroy_example :
    ((destroy reused second).0 ≡ contains reused second)
    × (get (destroy reused second).1 second ≡ none)
get-destroy_example = get-destroy reused second second

get-run_destroyed_example :
    get (run (destroy reused second).1 (inserts 40 ∷ inserts 50 ∷ clears ∷ [])) second ≡ none
unfolding contains resolve is_valid
get-run_destroyed_example =
    get-run_destroyed reused second (inserts 40 ∷ inserts 50 ∷ clears ∷ []) refl (omega arith)

run-empty-IsValid_example :
    IsValid (run {A = ℕ} empty (inserts 1 ∷ clears ∷ []))
    × (length (for_each_live (run {A = ℕ} empty (inserts 1 ∷ clears ∷ [])))
        ≡ (run {A = ℕ} empty (inserts 1 ∷ clears ∷ [])).live)
run-empty-IsValid_example = run-empty-IsValid {A = ℕ} (inserts 1 ∷ clears ∷ [])
