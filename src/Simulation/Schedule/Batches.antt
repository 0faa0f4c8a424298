-- ===== src/Simulation/Schedule/Batches.antt =====
-- The batches hold every system once, in the order of the schedule, and no two systems of a batch
-- conflict.
use atlas_engine.Base.{
  ℕ, suc, ◌≡◌, refl, ap, sym, ◌∙◌, subst, Bool, true, false, not, ◌&&◌, Bool-cases, inl, inr, List,
  [], ◌∷◌, ◌++◌, append_assoc, append-nil, All, All-append, length-append, get_elem?, some, none,
  length, arith,
}
use atlas_engine.Core.Error.{ok}
use atlas_engine.Simulation.Schedule.{
  System, Schedule, conflicts_at, fits, close, batch_from, finalise, tables_exist,
}

pub concat : List (List ℕ) → List ℕ
concat [] = []
concat (b ∷ bs) = b ++ concat bs

-- The indices from `i` on, one for each system.
pub indices : ℕ → List System → List ℕ
indices i [] = []
indices i (s ∷ rest) = i ∷ indices (suc i) rest

-- Whether the systems at two indices conflict.
pub conflict_pair : List System → ℕ → ℕ → Bool
conflict_pair systems m k = elim (get_elem? systems k) [
  | some s ↦ conflicts_at systems m s
  | none ↦ false
]

-- No system conflicts with one before it in the list.
pub Separate : List System → List ℕ → Type 0
unfolding conflict_pair
Separate systems [] = Unit
Separate systems (m ∷ ms) = All (λ k. conflict_pair systems m k ≡ false) ms × Separate systems ms

joined :
    (systems : List System) (i : ℕ) (s : System) (rest : List System) (begun : List ℕ)
    → fits systems begun s ≡ true
    → batch_from systems i (s ∷ rest) begun ≡ batch_from systems (suc i) rest (begun ++ (i ∷ []))
unfolding batch_from
joined systems i s rest begun e = rw (batch_from, e) refl

parted :
    (systems : List System) (i : ℕ) (s : System) (rest : List System) (begun : List ℕ)
    → fits systems begun s ≡ false
    → batch_from systems i (s ∷ rest) begun ≡ begun ∷ batch_from systems (suc i) rest (i ∷ [])
unfolding batch_from
parted systems i s rest begun e = rw (batch_from, e) refl

concat-close : (begun : List ℕ) → concat (close begun) ≡ begun
unfolding close concat
concat-close [] = refl
concat-close (i ∷ is) = append-nil (i ∷ is)

concat-batch_from :
    (systems : List System) (i : ℕ) (rest : List System) (begun : List ℕ)
    → concat (batch_from systems i rest begun) ≡ begun ++ indices i rest
unfolding batch_from indices concat
concat-batch_from systems i [] begun = concat-close begun ∙ sym (append-nil begun)
concat-batch_from systems i (s ∷ rest) begun = elim (Bool-cases (fits systems begun s)) [
  | inl e ↦
      ap concat (joined systems i s rest begun e)
      ∙ (concat-batch_from systems (suc i) rest (begun ++ (i ∷ []))
          ∙ append_assoc begun (i ∷ []) (indices (suc i) rest))
  | inr e ↦
      ap concat (parted systems i s rest begun e)
      ∙ ap (λ l. begun ++ l) (concat-batch_from systems (suc i) rest (i ∷ []))
]

not-true : (b : Bool) → not b ≡ true → b ≡ false
not-true true e = absurd (cc)
not-true false e = refl

and-left : (a b : Bool) → (a && b) ≡ true → a ≡ true
and-left true b e = refl
and-left false b e = e

and-right : (a b : Bool) → (a && b) ≡ true → b ≡ true
and-right true b e = e
and-right false b e = absurd (cc)

one-Separate : (systems : List System) (i : ℕ) → Separate systems (i ∷ [])
unfolding Separate
one-Separate systems i = (tt, tt)

close-Separate :
    (systems : List System) (i : ℕ) (begun : List ℕ)
    → Separate systems begun
    → All (Separate systems) (batch_from systems i [] begun)
unfolding batch_from close
close-Separate systems i [] h = tt
close-Separate systems i (m ∷ ms) h = (h, tt)

finalise_ok :
    (has : ℕ → Bool) (schedule : Schedule)
    → tables_exist has schedule.systems ≡ true
    → finalise has schedule
      ≡ ok (record schedule {
        batches = batch_from schedule.systems 0 schedule.systems [];
        finalised = true;
      })
unfolding finalise
finalise_ok has schedule e = rw (finalise, e) refl

at_length :
    (prior : List System) (s : System) (rest : List System)
    → get_elem? (prior ++ (s ∷ rest)) (length prior) ≡ some s
at_length [] s rest = refl
at_length (p ∷ prior) s rest = at_length prior s rest

conflict_pair-at :
    (systems : List System) (m k : ℕ) (s : System)
    → get_elem? systems k ≡ some s
    → conflict_pair systems m k ≡ conflicts_at systems m s
unfolding conflict_pair
conflict_pair-at systems m k s e = rw (conflict_pair, e) refl

-- A system that fits joins a batch without a conflict.
fits-Separate :
    (systems : List System) (begun : List ℕ) (i : ℕ) (s : System)
    → get_elem? systems i ≡ some s
    → fits systems begun s ≡ true
    → Separate systems begun
    → Separate systems (begun ++ (i ∷ []))
unfolding Separate fits
fits-Separate systems [] i s g e h = (tt, tt)
fits-Separate systems (m ∷ ms) i s g e (h, t) =
    let alone : conflicts_at systems m s ≡ false = not-true _ (and-left _ _ e) in
    (
      All-append _ ms (i ∷ []) h (conflict_pair-at systems m i s g ∙ alone, tt),
      fits-Separate systems ms i s g (and-right _ _ e) t,
    )

batch_from-Separate :
    (systems prior rest : List System) (begun : List ℕ)
    → systems ≡ prior ++ rest
    → Separate systems begun
    → All (Separate systems) (batch_from systems (length prior) rest begun)
batch_from-Separate systems prior [] begun e h = close-Separate systems (length prior) begun h
batch_from-Separate systems prior (s ∷ rest) begun e h =
    let g : get_elem? systems (length prior) ≡ some s =
      ap (λ l. get_elem? l (length prior)) e ∙ at_length prior s rest in
    let next : length (prior ++ (s ∷ [])) ≡ suc (length prior) =
      omega (arith, length-append prior (s ∷ [])) in
    let split : systems ≡ (prior ++ (s ∷ [])) ++ rest =
      e ∙ sym (append_assoc prior (s ∷ []) rest) in
    elim (Bool-cases (fits systems begun s)) [
      | inl f ↦
          subst (All (Separate systems)) (sym (joined systems (length prior) s rest begun f)) (
            subst
              (λ n.
                All (Separate systems) (batch_from systems n rest (begun ++ (length prior ∷ []))))
              next
              (batch_from-Separate systems (prior ++ (s ∷ [])) rest (begun ++ (length prior ∷ []))
                split (fits-Separate systems begun (length prior) s g f h)))
      | inr f ↦
          subst (All (Separate systems)) (sym (parted systems (length prior) s rest begun f)) (
            h,
            subst (λ n. All (Separate systems) (batch_from systems n rest (length prior ∷ []))) next
                (batch_from-Separate systems (prior ++ (s ∷ [])) rest (length prior ∷ []) split
                  (one-Separate systems (length prior))),
          )
    ]

-- When every table that the systems name exists, `finalise` succeeds; its batches, one after another,
-- hold the index of every system once, in the order of the schedule, and no system of a batch conflicts
-- with one before it there.
pub finalise-batches :
    (has : ℕ → Bool) (schedule : Schedule)
    → tables_exist has schedule.systems ≡ true
    → (new : Schedule) × (finalise has schedule ≡ ok new)
      × (new.systems ≡ schedule.systems)
      × (concat new.batches ≡ indices 0 schedule.systems)
      × All (Separate schedule.systems) new.batches
unfolding Separate
finalise-batches has schedule e =
    let systems = schedule.systems in
    (
      record schedule { batches = batch_from systems 0 systems []; finalised = true },
      finalise_ok has schedule e,
      refl,
      concat-batch_from systems 0 systems [],
      batch_from-Separate systems [] systems [] refl tt,
    )
