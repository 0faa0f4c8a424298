-- ===== src/Core/Handle/Invariant.antt =====
-- The representation invariant of the pool: the free list names each empty slot once.
use atlas_engine.Base.{
  ℕ, zero, suc, ◌+◌, ◌-◌, ◌^◌, ◌≤◌, ◌<◌, ◌≡◌, refl, ◌≢◌, ◌∙◌, none, some, List, [], ◌∷◌, ◌++◌,
  arith, length, length-append, length-set, get_elem?, set, get_elem?-set_ne, get_elem?-none,
  get_elem?-set_self, refl, get_elem?-append_left, get_elem?_lt, All, All-map, Distinct,
  Option-cases, Bool-cases, All-append, leb, subst, inl, inr,
}
use atlas_engine.Core.Error.{ok}
use atlas_engine.Core.Handle.{
  Handle, Slot, HandlePool, insert, destroy, resolve, next_generation, max_entries, slot_at,
}

pub next_generation_bounds : (g : ℕ) → (1 ≤ next_generation g) × (next_generation g < 2 ^ 32)
unfolding next_generation
next_generation_bounds g = ground arith

module _ {ℓ} {A : Type ℓ} where
  abbrev pub is_live : Slot A → ℕ
  is_live s = elim s.value [ some a ↦ 1 | none ↦ 0 ]

  abbrev pub count_live : List (Slot A) → ℕ
  count_live [] = 0
  count_live (s ∷ rest) = is_live s + count_live rest

  -- The slot stands in the pool and is empty.
  abbrev pub IsFree : List (Slot A) → ℕ → Type ℓ
  IsFree slots i = (s : Slot A) × (get_elem? slots i ≡ some s) × (s.value ≡ none)

  abbrev pub HasGeneration : Slot A → Type 0
  HasGeneration s = (1 ≤ s.generation) × (s.generation < 2 ^ 32)

  pub record IsValid (p : HandlePool A) : Type ℓ where
    pub free_empty : All (IsFree p.slots) p.free
    pub free_once : Distinct p.free
    pub counted : p.live ≡ count_live p.slots
    pub complete : p.live + length p.free ≡ length p.slots
    pub bounded : length p.slots ≤ max_entries
    pub generations : All HasGeneration p.slots

  count_live-set :
      (slots : List (Slot A)) (i : ℕ) (old new : Slot A)
      → get_elem? slots i ≡ some old
      → count_live (set slots i new) + is_live old ≡ count_live slots + is_live new
  count_live-set [] i old new e = absurd (cc)
  count_live-set (s ∷ rest) zero old new e = ground arith
  count_live-set (s ∷ rest) (suc i) old new e = omega (arith, count_live-set rest i old new e)

  count_live-append :
      (xs ys : List (Slot A)) → count_live (xs ++ ys) ≡ count_live xs + count_live ys
  count_live-append [] ys = omega arith
  count_live-append (x ∷ xs) ys = omega (arith, count_live-append xs ys)

  All-set {κ} :
      (P : Slot A → Type κ) (slots : List (Slot A)) (i : ℕ) (new : Slot A)
      → All P slots
      → P new
      → All P (set slots i new)
  All-set P [] i new h k = tt
  All-set P (s ∷ rest) zero new h k = (k, h.1)
  All-set P (s ∷ rest) (suc i) new h k = (h.0, All-set P rest i new h.1 k)

  IsFree-set :
      (slots : List (Slot A)) (i : ℕ) (new : Slot A) (free : List ℕ)
      → All (λ j. i ≢ j) free
      → All (IsFree slots) free
      → All (IsFree (set slots i new)) free
  IsFree-set slots i new [] h k = tt
  IsFree-set slots i new (j ∷ free) h k = (
    (k.0.0, get_elem?-set_ne slots i j new h.0 ∙ k.0.1, k.0.2),
    IsFree-set slots i new free h.1 k.1,
  )

  IsFree-append :
      (slots extra : List (Slot A)) (free : List ℕ)
      → All (IsFree slots) free
      → All (IsFree (slots ++ extra)) free
  IsFree-append slots extra free =
      All-map (IsFree slots) (IsFree (slots ++ extra)) free
        λ j k. (k.0, get_elem?-append_left slots extra j (get_elem?_lt slots j k.0 k.1) ∙ k.1, k.2)

  -- A live slot is none of the free ones.
  free_ne :
      (slots : List (Slot A)) (i : ℕ) (s : Slot A) (a : A) (free : List ℕ)
      → get_elem? slots i ≡ some s
      → s.value ≡ some a
      → All (IsFree slots) free
      → All (λ j. i ≢ j) free
  free_ne slots i s a free e v =
      All-map (IsFree slots) (λ j. i ≢ j) free
        λ j k d. let (t, q, w) = k in let e' : get_elem? slots i ≡ some t = rw d q in cc

  pub slot_at_lem :
      (slots : List (Slot A)) (i : ℕ) (s : Slot A)
      → get_elem? slots i ≡ some s
      → slot_at slots i ≡ s
  slot_at_lem slots i s e = ground arith

  pub All-get {κ} :
      (P : Slot A → Type κ) (slots : List (Slot A)) (i : ℕ) (s : Slot A)
      → All P slots
      → get_elem? slots i ≡ some s
      → P s
  All-get P [] i s h e = absurd (cc)
  All-get P (t ∷ rest) zero s h e = let q : t ≡ s = cc in rw (← q) h.0
  All-get P (t ∷ rest) (suc i) s h e = All-get P rest i s h.1 e

  -- A write over one slot keeps the invariant, when the free list and the count follow it.
  write-IsValid :
      {slots : List (Slot A)} {free : List ℕ} {n : ℕ} (i : ℕ) (old new : Slot A) (free' : List ℕ)
      (n' : ℕ)
      → IsValid (record { slots = slots; free = free; live = n })
      → get_elem? slots i ≡ some old
      → HasGeneration new
      → All (IsFree (set slots i new)) free'
      → Distinct free'
      → n' + is_live old ≡ n + is_live new
      → n' + length free' ≡ n + length free
      → IsValid (record { slots = set slots i new; free = free'; live = n' })
  write-IsValid {slots} i old new free' n' w e g f d c m = record {
    free_empty = f;
    free_once = d;
    counted = omega (arith, count_live-set slots i old new e, w.counted);
    complete = omega (arith, length-set slots i new, w.complete);
    bounded = omega (arith, length-set slots i new, w.bounded);
    generations = All-set HasGeneration slots i new w.generations g;
  }

  insert_reuse-IsValid :
      (slots : List (Slot A)) (i : ℕ) (rest : List ℕ) (n : ℕ) (v : A)
      → IsValid (record { slots = slots; free = i ∷ rest; live = n })
      → IsValid (record {
        slots = set slots i (record (slot_at slots i) { value = some v });
        free = rest;
        live = n + 1;
      })
  insert_reuse-IsValid slots i rest n v w =
      let (s, e, none_there) = w.free_empty.0 in
      rw (slot_at_lem slots i s e) (
        write-IsValid i s (record s { value = some v }) rest (n + 1) w e
          (All-get HasGeneration slots i s w.generations e)
          (IsFree-set slots i _ rest w.free_once.0 w.free_empty.1) w.free_once.1 (ground arith)
          (omega arith))

  insert_grow-IsValid :
      (slots : List (Slot A)) (n : ℕ) (v : A) (s : Slot A)
      → s ≡ record { value = some v; generation = 1 }
      → IsValid (record { slots = slots; free = []; live = n })
      → length slots < max_entries
      → IsValid (record { slots = slots ++ s ∷ []; free = []; live = n + 1 })
  insert_grow-IsValid slots n v s e w h = record {
    free_empty = tt;
    free_once = tt;
    counted = rw e (
        omega (
          arith,
          count_live-append slots (record { value = some v; generation = 1 } ∷ []),
          w.counted,
        ));
    complete = omega (arith, length-append slots (s ∷ []), w.complete);
    bounded = omega (arith, length-append slots (s ∷ []));
    generations = All-append HasGeneration slots (s ∷ []) w.generations (rw e (omega arith));
  }

  -- What `resolve` finds is the live slot at the index, at the handle's generation.
  pub resolve_lem :
      (p : HandlePool A) (h : Handle) (s : Slot A)
      → resolve p h ≡ some s
      → (get_elem? p.slots h.index ≡ some s)
        × (s.generation ≡ h.generation)
        × (a : A) × (s.value ≡ some a)
        × (h.generation ≢ 0)
  unfolding resolve
  resolve_lem p h s e = elim (Option-cases (get_elem? p.slots h.index)) [
    | inl z ↦ absurd (ground (arith, get_elem?-none p.slots h.index z))
    | inr (t, z) ↦ elim (Option-cases t.value) [
      | inl u ↦ absurd (ground arith)
      | inr (a, u) ↦ (ground arith, ground arith, a, ground arith, ground arith)
    ]
  ]

  count_live_pos :
      (slots : List (Slot A)) (i : ℕ) (s : Slot A) (a : A)
      → get_elem? slots i ≡ some s
      → s.value ≡ some a
      → 1 ≤ count_live slots
  count_live_pos [] i s a e v = absurd (cc)
  count_live_pos (t ∷ rest) zero s a e v = ground arith
  count_live_pos (t ∷ rest) (suc i) s a e v = omega (arith, count_live_pos rest i s a e v)

  insert_parts :
      (slots : List (Slot A)) (free : List ℕ) (n : ℕ) (v : A) (h : Handle) (q : HandlePool A)
      → IsValid (record { slots = slots; free = free; live = n })
      → insert (record { slots = slots; free = free; live = n }) v ≡ ok (h, q)
      → IsValid q
  unfolding insert
  insert_parts slots [] n v h q w e = elim (Bool-cases (leb max_entries (length slots))) [
    | inl full ↦ absurd (ground arith)
    | inr room ↦
        subst IsValid (ground arith) (insert_grow-IsValid slots n v _ refl w (ground arith))
  ]
  insert_parts slots (i ∷ rest) n v h q w e =
      subst IsValid (ground arith) (insert_reuse-IsValid slots i rest n v w)

  -- `insert` keeps the invariant.
  pub insert-IsValid :
      {p q : HandlePool A} {h : Handle} (v : A) → IsValid p → insert p v ≡ ok (h, q) → IsValid q
  insert-IsValid {p} {q} {h} v w e = insert_parts p.slots p.free p.live v h q w e

  -- Emptying a live slot, with its index pushed on the free list, keeps the invariant.
  pub release-IsValid :
      {slots : List (Slot A)} {free : List ℕ} {n : ℕ} (i : ℕ) (s : Slot A) (a : A)
      → IsValid (record { slots = slots; free = free; live = n })
      → get_elem? slots i ≡ some s
      → s.value ≡ some a
      → IsValid (record {
        slots = set slots i (record { value = none; generation = next_generation s.generation });
        free = i ∷ free;
        live = n - 1;
      })
  release-IsValid {slots} {free} {n} i s a w at v =
      write-IsValid i s _ (i ∷ free) (n - 1) w at (next_generation_bounds s.generation)
        (
          (_, get_elem?-set_self slots i _ (get_elem?_lt slots i s at), refl),
          IsFree-set slots i _ free others w.free_empty,
        )
        (others, w.free_once) (ground (arith, positive, w.counted))
        (ground (arith, positive, w.counted))
    where
      others : All (λ j. i ≢ j) free
      others = free_ne slots i s a free at v w.free_empty

      positive : 1 ≤ count_live slots
      positive = count_live_pos slots i s a at v

  -- `destroy` keeps the invariant, whether or not the handle resolves.
  pub destroy-IsValid : {p : HandlePool A} (h : Handle) → IsValid p → IsValid (destroy p h).1
  unfolding destroy
  destroy-IsValid {p} h w = elim (Option-cases (resolve p h)) [
    | inl e ↦ rw (e, destroy) w
    | inr (s, e) ↦
        let (at, _, a, v, _) = resolve_lem p h s e in
        rw (e, destroy) (release-IsValid h.index s a w at v)
  ]
