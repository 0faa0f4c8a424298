-- ===== src/Core/Handle/Reachable.antt =====
-- Every pool that calls can build from the empty one is valid, and its live count is the number of
-- values that a visit meets.
use atlas_engine.Base.{ℕ, ◌+◌, ◌≡◌, refl, List, [], ◌∷◌, arith, length, Option-cases, inl, inr, ◌⊎◌}
use atlas_engine.Core.Error.{Result, ErrorCode, ok, err}
use atlas_engine.Core.Handle.{
  Slot, HandlePool, Op, inserts, destroys, clears, step, run, insert, empty, for_each_live,
  live_from,
}
use atlas_engine.Core.Handle.Invariant.{IsValid, insert-IsValid, destroy-IsValid, count_live}
use atlas_engine.Core.Handle.Clear.{clear-IsValid}

Result-cases {ℓ} :
    {A : Type ℓ} (r : Result A) → ((a : A) × (r ≡ ok a)) ⊎ ((e : ErrorCode) × (r ≡ err e))
Result-cases (ok a) = inl (a, refl)
Result-cases (err e) = inr (e, refl)

module _ {ℓ} {A : Type ℓ} where
  step-IsValid : (p : HandlePool A) (o : Op A) → IsValid p → IsValid (step p o)
  unfolding step
  step-IsValid p (inserts v) w = elim (Result-cases (insert p v)) [
    | inl ((h, q), e) ↦ rw (e, step) (insert-IsValid v w e)
    | inr (x, e) ↦ rw (e, step) w
  ]
  step-IsValid p (destroys h) w = destroy-IsValid h w
  step-IsValid p clears w = clear-IsValid w

  run-IsValid : (p : HandlePool A) (os : List (Op A)) → IsValid p → IsValid (run p os)
  unfolding run
  run-IsValid p [] w = w
  run-IsValid p (o ∷ os) w = run-IsValid (step p o) os (step-IsValid p o w)

  length-live_from : (i : ℕ) (slots : List (Slot A)) → length (live_from i slots) ≡ count_live slots
  unfolding live_from
  length-live_from i [] = refl
  length-live_from i (s ∷ rest) = elim (Option-cases s.value) [
    | inl e ↦ rw (e, live_from) (omega (arith, length-live_from (i + 1) rest))
    | inr (a, e) ↦ rw (e, live_from) (omega (arith, length-live_from (i + 1) rest))
  ]

  empty-IsValid : IsValid (empty {A = A})
  unfolding empty
  empty-IsValid = record {
    free_empty = tt;
    free_once = tt;
    counted = refl;
    complete = refl;
    bounded = omega arith;
    generations = tt;
  }

  -- After any calls from the empty pool, the free list names each empty slot once, generations are
  -- never the null handle's, and the size is the number of live values.
  pub run-empty-IsValid :
      (os : List (Op A))
      → IsValid (run empty os)
        × (length (for_each_live (run (empty {A = A}) os)) ≡ (run (empty {A = A}) os).live)
  unfolding for_each_live
  run-empty-IsValid os =
      let w = run-IsValid empty os empty-IsValid in
      (w, omega (arith, length-live_from 0 (run (empty {A = A}) os).slots, w.counted))
