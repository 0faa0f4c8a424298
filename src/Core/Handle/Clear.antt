-- ===== src/Core/Handle/Clear.antt =====
-- `clear` empties every slot, moves each used generation on, and keeps the invariant.
use atlas_engine.Base.{
  ℕ, ◌+◌, ◌-◌, ◌≡◌, refl, none, some, List, [], ◌∷◌, ◌++◌, arith, length, length-append, set-append,
  get_elem?-append_length, append-cons, Option-cases, inl, inr,
}
use atlas_engine.Core.Handle.{Slot, HandlePool, clear, clear_from, next_generation}
use atlas_engine.Core.Handle.Invariant.{IsValid, release-IsValid, count_live}

module _ {ℓ} {A : Type ℓ} where
  clear_from_nil : (i : ℕ) (free : List ℕ) → clear_from {A = A} i [] free ≡ ([], free)
  unfolding clear_from
  clear_from_nil i free = refl

  clear_from_dead :
      (i : ℕ) (s : Slot A) (rest : List (Slot A)) (free : List ℕ)
      → s.value ≡ none
      → clear_from i (s ∷ rest) free
        ≡ (s ∷ (clear_from (i + 1) rest free).0, (clear_from (i + 1) rest free).1)
  unfolding clear_from
  clear_from_dead i s rest free v = ground arith

  clear_from_live :
      (i : ℕ) (s : Slot A) (rest : List (Slot A)) (free : List ℕ) (a : A)
      → s.value ≡ some a
      → clear_from i (s ∷ rest) free ≡ (
        record { value = none; generation = next_generation s.generation }
            ∷ (clear_from (i + 1) rest (i ∷ free)).0,
        (clear_from (i + 1) rest (i ∷ free)).1,
      )
  unfolding clear_from
  clear_from_live i s rest free a v = ground arith

  -- Clearing from index `length pre` on, behind slots that are done already.
  clear_from-IsValid :
      (pre rest : List (Slot A)) (free : List ℕ) (i n m : ℕ)
      → length pre ≡ i
      → m + count_live rest ≡ n
      → IsValid (record { slots = pre ++ rest; free = free; live = n })
      → let out = clear_from i rest free in
        IsValid (record { slots = pre ++ out.0; free = out.1; live = m })
  clear_from-IsValid pre [] free i n m e c w =
      let q : m ≡ n = omega arith in rw (clear_from_nil i free, q) w
  clear_from-IsValid pre (s ∷ rest) free i n m e c w = elim (Option-cases s.value) [
    | inl v ↦
        rw (clear_from_dead i s rest free v, ← append-cons pre _ s)
          (clear_from-IsValid (pre ++ s ∷ []) rest free (i + 1) n m
            (omega (arith, length-append pre (s ∷ []))) (ground arith)
            (rw (append-cons pre rest s) w))
    | inr (a, v) ↦
        let gone : Slot A = record { value = none; generation = next_generation s.generation } in
        rw (clear_from_live i s rest free a v, ← append-cons pre _ gone)
          (clear_from-IsValid (pre ++ gone ∷ []) rest (i ∷ free) (i + 1) (n - 1) m
            (omega (arith, length-append pre (gone ∷ []))) (ground arith)
            (rw (append-cons pre rest gone, ← set-append pre rest s gone, ← e)
              (release-IsValid (length pre) s a w (get_elem?-append_length pre rest s) v)))
  ]

  -- `clear` keeps the invariant.
  pub clear-IsValid : {p : HandlePool A} → IsValid p → IsValid (clear p)
  unfolding clear
  clear-IsValid {p} w =
      clear_from-IsValid [] p.slots p.free 0 p.live 0 refl (omega (arith, w.counted)) w
