-- ===== src/Core/Handle/Stale.antt =====
-- A destroyed handle stays dead: the generation of its slot only grows, until it wraps.
use atlas_engine.Base.{
  ℕ, zero, suc, ◌+◌, ◌^◌, ◌≤◌, ◌<◌, ◌≡◌, refl, ◌∙◌, none, some, List, [], ◌∷◌, arith, length,
  get_elem?, get_elem?-set_self, get_elem?-set_ne, get_elem?-append_left, get_elem?_lt, set,
  ℕ_discrete, Option-cases, inl, inr, true, leb, Bool-cases,
}
use atlas_engine.Core.Handle.{
  Handle, Slot, HandlePool, Op, inserts, destroys, clears, clear, clear_from, clear_slot, insert,
  destroy, contains, next_generation, get, resolve, max_entries, step, run,
}
use atlas_engine.Core.Handle.Invariant.{slot_at_lem, resolve_lem}
use atlas_engine.Core.Handle.Lookup.{get_other, destroy_missing, destroy_found, destroyed}

-- The generation went from `g` by at most one, upwards.
abbrev Grows : {A : Type 0} → ℕ → Slot A → Type 0
Grows g s = (g ≤ s.generation) × (s.generation ≤ g + 1)

next_generation_grows : (g : ℕ) → g + 1 < 2 ^ 32 → next_generation g ≡ g + 1
unfolding next_generation
next_generation_grows g h = ground arith

module _ {A : Type 0} where
  -- The slot at `i` is still there, and its generation grew by at most one.
  abbrev Follows : List (Slot A) → ℕ → ℕ → Type 0
  Follows slots i g = (t : Slot A) × (get_elem? slots i ≡ some t) × Grows g t

  set-Follows :
      (slots : List (Slot A)) (i j : ℕ) (s new : Slot A)
      → get_elem? slots i ≡ some s
      → (j ≡ i → Grows s.generation new)
      → Follows (set slots j new) i s.generation
  set-Follows slots i j s new e g = elim (ℕ_discrete j i) [
    | yes same ↦ (
      new,
      rw (← same) (get_elem?-set_self slots j new (rw same (get_elem?_lt slots i s e))),
      g same,
    )
    | no ne ↦ (s, get_elem?-set_ne slots j i new ne ∙ e, omega arith)
  ]

  clear_from-Follows :
      (k : ℕ) (slots : List (Slot A)) (free : List ℕ) (i : ℕ) (s : Slot A)
      → get_elem? slots i ≡ some s
      → s.generation + 1 < 2 ^ 32
      → Follows (clear_from k slots free).0 i s.generation
  unfolding clear_from clear_slot
  clear_from-Follows k [] free i s e b = absurd (cc)
  clear_from-Follows k (t ∷ rest) free zero s e b =
      (clear_slot t, refl, ground (arith, next_generation_grows t.generation))
  clear_from-Follows k (t ∷ rest) free (suc i) s e b = clear_from-Follows (k + 1) rest _ i s e b

  insert-Follows :
      (slots : List (Slot A)) (free : List ℕ) (n : ℕ) (v : A) (i : ℕ) (s : Slot A)
      → get_elem? slots i ≡ some s
      → Follows
          (step (record { slots = slots; free = free; live = n }) (inserts v)).slots
          i
          s.generation
  unfolding step insert
  insert-Follows slots [] n v i s e = elim (Bool-cases (leb max_entries (length slots))) [
    | inl full ↦ rw (full, step) (s, e, omega arith)
    | inr room ↦
        rw (room, step)
          (s, get_elem?-append_left slots _ i (get_elem?_lt slots i s e) ∙ e, omega arith)
  ]
  insert-Follows slots (j ∷ rest) n v i s e =
      set-Follows slots i j s _ e λ same. rw (same, slot_at_lem slots i s e) (omega arith)

  step-Follows :
      (p : HandlePool A) (o : Op A) (i : ℕ) (s : Slot A)
      → get_elem? p.slots i ≡ some s
      → s.generation + 1 < 2 ^ 32
      → Follows (step p o).slots i s.generation
  unfolding step clear destroyed
  step-Follows p (inserts v) i s e b = insert-Follows p.slots p.free p.live v i s e
  step-Follows p (destroys h) i s e b = elim (Option-cases (resolve p h)) [
    | inl z ↦ rw (destroy_missing p h z, step) (s, e, omega arith)
    | inr (t, z) ↦
        let (at, _, _, _, _) = resolve_lem p h t z in
        rw (destroy_found p h t z, step)
          (set-Follows p.slots i h.index s _ e λ same.
            let q : some t ≡ some s = ground arith in
            ground (arith, next_generation_grows t.generation))
  ]
  step-Follows p clears i s e b = clear_from-Follows 0 p.slots p.free i s e b

  run-get_stale :
      (os : List (Op A)) (p : HandlePool A) (h : Handle) (s : Slot A)
      → get_elem? p.slots h.index ≡ some s
      → h.generation < s.generation
      → s.generation + length os < 2 ^ 32
      → get (run p os) h ≡ none
  unfolding run
  run-get_stale [] p h s e l b = get_other p h s e (omega arith)
  run-get_stale (o ∷ os) p h s e l b =
      let (t, at, grown) = step-Follows p o h.index s e (omega arith) in
      run-get_stale os (step p o) h t at (omega (arith, grown)) (omega (arith, grown))

  -- After a handle that resolved is destroyed, it resolves to nothing whatever calls follow, while
  -- the calls and the handle's generation together stay under the wrap of the 32-bit counter.
  pub get-run_destroyed :
      (p : HandlePool A) (h : Handle) (os : List (Op A))
      → contains p h ≡ true
      → h.generation + 1 + length os < 2 ^ 32
      → get (run (destroy p h).1 os) h ≡ none
  unfolding contains destroyed
  get-run_destroyed p h os c b = elim (Option-cases (resolve p h)) [
    | inl z ↦ absurd (ground arith)
    | inr (s, z) ↦
        let (at, same, _, _, _) = resolve_lem p h s z in
        rw (destroy_found p h s z) (
          run-get_stale os _ h _
            (get_elem?-set_self p.slots h.index _ (get_elem?_lt p.slots h.index s at))
            (omega (arith, next_generation_grows s.generation (omega arith)))
            (omega (arith, next_generation_grows s.generation (omega arith))))
  ]
