-- ===== src/Simulation/Command/Drain.antt =====
-- What `drain` takes: everything due and nothing else, in an order that no arrival shows in.
use atlas_engine.Base.{
  refl, ℕ, ◌≤◌, ◌<◌, ◌≡◌, sym, ◌∙◌, All-map, arith, true, false, List, [], ◌∷◌, ◌++◌, map, All, ltb,
  Bool-cases, inl, inr,
}
use atlas_engine.Base.Lex.{sort_by, insert_by, lex_asym, lex_le_trans}
use atlas_engine.Simulation.Command.{Command, CommandQueue, drain, due, later, precedes}
use atlas_engine.Simulation.Command.Order.{key, due-perm, precedes_lem}
use mathlib.Core.List.{Perm, perm_middle}
use mathlib.Core.List.Perm

insert_by-perm : (c : Command) (cs : List Command) → Perm (insert_by precedes c cs) (c ∷ cs)
unfolding insert_by
insert_by-perm c [] = Perm.refl _
insert_by-perm c (d ∷ ds) = elim (Bool-cases (precedes d c)) [
  | inl e ↦ rw e (Perm.trans (Perm.cons d (insert_by-perm c ds)) (Perm.swap c d ds))
  | inr e ↦ rw e (Perm.refl _)
]

sort_by-perm : (cs : List Command) → Perm (sort_by precedes cs) cs
unfolding sort_by
sort_by-perm [] = Perm.refl _
sort_by-perm (c ∷ cs) = Perm.trans (insert_by-perm c _) (Perm.cons c (sort_by-perm cs))

due-later-perm : (tick : ℕ) (cs : List Command) → Perm (due tick cs ++ later tick cs) cs
unfolding due later
due-later-perm tick [] = Perm.refl _
due-later-perm tick (c ∷ cs) = elim (Bool-cases (ltb tick c.target)) [
  | inl e ↦ rw e (
      Perm.trans (perm_middle (due tick cs) (later tick cs)) (Perm.cons c (due-later-perm tick cs)))
  | inr e ↦ rw e (Perm.cons c (due-later-perm tick cs))
]

-- No command is before its predecessor.
abbrev pub Sorted : List Command → Type 0
Sorted [] = Unit {0}
Sorted (c ∷ cs) = All (λ d. precedes d c ≡ false) cs × Sorted cs

insert_by-All :
    (P : Command → Type 0) (c : Command) (cs : List Command)
    → P c
    → All P cs
    → All P (insert_by precedes c cs)
unfolding insert_by
insert_by-All P c [] h a = (h, tt)
insert_by-All P c (d ∷ ds) h a = elim (Bool-cases (precedes d c)) [
  | inl e ↦ rw e (a.0, insert_by-All P c ds h a.1)
  | inr e ↦ rw e (h, a)
]

sort_by-All : (P : Command → Type 0) (cs : List Command) → All P cs → All P (sort_by precedes cs)
unfolding sort_by
sort_by-All P [] a = tt
sort_by-All P (c ∷ cs) a = insert_by-All P c _ a.0 (sort_by-All P cs a.1)

precedes_asym : (c d : Command) → precedes c d ≡ true → precedes d c ≡ false
precedes_asym c d h = precedes_lem d c ∙ lex_asym (key c) (key d) (sym (precedes_lem c d) ∙ h)

-- What is not before `d`, when `d` is not before `c`, is not before `c`.
precedes_trans :
    (c d e : Command) → precedes d c ≡ false → precedes e d ≡ false → precedes e c ≡ false
precedes_trans c d e h k = ground (
  arith,
  lex_le_trans (key c) (key d) (key e),
  precedes_lem d c,
  precedes_lem e d,
  precedes_lem e c,
  Bool-cases (precedes e c),
)

insert_by-Sorted : (c : Command) (cs : List Command) → Sorted cs → Sorted (insert_by precedes c cs)
unfolding insert_by
insert_by-Sorted c [] s = (tt, tt)
insert_by-Sorted c (d ∷ ds) s = elim (Bool-cases (precedes d c)) [
  | inl e ↦ rw e (
    insert_by-All (λ x. precedes x d ≡ false) c ds (precedes_asym d c e) s.0,
    insert_by-Sorted c ds s.1,
  )
  | inr e ↦ rw e ((e, All-map _ _ ds (λ x h. precedes_trans c d x e h) s.0), s)
]

sort_by-Sorted : (cs : List Command) → Sorted (sort_by precedes cs)
unfolding sort_by
sort_by-Sorted [] = tt
sort_by-Sorted (c ∷ cs) = insert_by-Sorted c _ (sort_by-Sorted cs)

due-All : (tick : ℕ) (cs : List Command) → All (λ c. c.target ≤ tick) (due tick cs)
unfolding due
due-All tick [] = tt
due-All tick (c ∷ cs) = elim (Bool-cases (ltb tick c.target)) [
  | inl e ↦ rw e (due-All tick cs)
  | inr e ↦ rw e (ground arith, due-All tick cs)
]

later-All : (tick : ℕ) (cs : List Command) → All (λ c. tick < c.target) (later tick cs)
unfolding later
later-All tick [] = tt
later-All tick (c ∷ cs) = elim (Bool-cases (ltb tick c.target)) [
  | inl e ↦ rw e (ground arith, later-All tick cs)
  | inr e ↦ rw e (later-All tick cs)
]

module _ {W : Type 0} where
  -- What `drain` takes is due and sorted, and what stays is not due.
  pub drain-Sorted :
      (q : CommandQueue W) (tick : ℕ)
      → Sorted (drain q tick).0
        × All (λ c. c.target ≤ tick) (drain q tick).0
        × All (λ c. tick < c.target) (drain q tick).1.pending
  unfolding drain
  drain-Sorted q tick = (
    sort_by-Sorted (due tick q.pending),
    sort_by-All _ (due tick q.pending) (due-All tick q.pending),
    later-All tick q.pending,
  )

  -- `drain` loses nothing and invents nothing: what it takes and what stays is what was pending.
  pub drain-perm :
      (q : CommandQueue W) (tick : ℕ)
      → Perm ((drain q tick).0 ++ (drain q tick).1.pending) q.pending
  unfolding drain
  drain-perm q tick =
      Perm.trans (Perm.append_right (later tick q.pending) (sort_by-perm (due tick q.pending)))
        (due-later-perm tick q.pending)

  -- The order in which commands arrived does not show: two queues that have the same commands
  -- pending, in any order, drain to the same sequence of sources, sequence numbers, types and
  -- payloads.
  pub drain_arrival :
      (p q : CommandQueue W) (tick : ℕ)
      → Perm p.pending q.pending
      → map key (drain p tick).0 ≡ map key (drain q tick).0
  unfolding drain
  drain_arrival p q tick h = due-perm tick h

  pub drain-handlers : (q : CommandQueue W) (tick : ℕ) → (drain q tick).1.handlers ≡ q.handlers
  unfolding drain
  drain-handlers q tick = refl
