-- ===== src/Core/Handle/Lookup.antt =====
-- What a handle resolves to after each operation.
use atlas_engine.Base.{
  ℕ, ◌+◌, ◌-◌, ◌≤◌, ◌<◌, ◌≡◌, ◌≢◌, refl, subst, none, some, List, [], ◌∷◌, ◌++◌, arith, leb, length,
  length-append, length-set, get_elem?, get_elem?-set_self, get_elem?-set_ne, get_elem?-append_left,
  get_elem?-append_end, get_elem?_lt, set, if◌then◌else◌, ℕ_discrete, dec_lt, Option-cases, inl,
  inr, Bool-cases, false, true,
}
use atlas_engine.Core.Error.{ok}
use atlas_engine.Core.Handle.{
  Handle, Slot, HandlePool, insert, destroy, contains, same_handle, next_generation, get, resolve,
  max_entries,
}
use atlas_engine.Core.Handle.Invariant.{IsValid, HasGeneration, All-get, slot_at_lem, resolve_lem}

module _ {A : Type 0} where
  -- What `get` returns depends on the slot at the index alone.
  pub get_here :
      (p : HandlePool A) (h : Handle) (s : Slot A)
      → get_elem? p.slots h.index ≡ some s
      → h.generation ≢ 0
      → s.generation ≡ h.generation
      → get p h ≡ s.value
  unfolding get resolve
  get_here p h s e z g = ground (arith, get_elem?_lt p.slots h.index s e)

  pub get_other :
      (p : HandlePool A) (h : Handle) (s : Slot A)
      → get_elem? p.slots h.index ≡ some s
      → s.generation ≢ h.generation
      → get p h ≡ none
  unfolding get resolve
  get_other p h s e g = ground arith

  get_vacant :
      (p : HandlePool A) (h : Handle) (s : Slot A)
      → get_elem? p.slots h.index ≡ some s
      → s.value ≡ none
      → get p h ≡ none
  unfolding get resolve
  get_vacant p h s e v = ground arith

  -- Pools of one length that agree on a slot agree on its handles.
  get_agree :
      (p q : HandlePool A) (h : Handle)
      → length p.slots ≡ length q.slots
      → get_elem? p.slots h.index ≡ get_elem? q.slots h.index
      → get p h ≡ get q h
  unfolding get resolve
  get_agree p q h l e = ground arith

  get_outside : (p : HandlePool A) (h : Handle) → length p.slots ≤ h.index → get p h ≡ none
  unfolding get resolve
  get_outside p h l = ground arith

  get_local :
      (p q : HandlePool A) (h : Handle)
      → get_elem? p.slots h.index ≡ get_elem? q.slots h.index
      → h.index < length p.slots
      → h.index < length q.slots
      → get p h ≡ get q h
  unfolding get resolve
  get_local p q h e l m = ground arith

  get_unresolved : (p : HandlePool A) (h : Handle) → resolve p h ≡ none → get p h ≡ none
  unfolding get
  get_unresolved p h e = ground arith

  get_null : (p : HandlePool A) (h : Handle) → h.generation ≡ 0 → get p h ≡ none
  unfolding get resolve
  get_null p h e = ground arith

  get_same :
      (p : HandlePool A) (h k : Handle)
      → k.index ≡ h.index
      → k.generation ≡ h.generation
      → get p k ≡ get p h
  get_same p h k i g = let e : k ≡ h = ground arith in rw e

  pub destroy_missing :
      (p : HandlePool A) (h : Handle) → resolve p h ≡ none → destroy p h ≡ (false, p)
  unfolding destroy
  destroy_missing p h e = rw (e, destroy)

  unfoldable pub destroyed : HandlePool A → Handle → Slot A → HandlePool A
  destroyed p h s = record {
    slots =
        set p.slots h.index (record { value = none; generation = next_generation s.generation });
    free = h.index ∷ p.free;
    live = p.live - 1;
  }

  pub destroy_found :
      (p : HandlePool A) (h : Handle) (s : Slot A)
      → resolve p h ≡ some s
      → destroy p h ≡ (true, destroyed p h s)
  unfolding destroy destroyed
  destroy_found p h s e = rw (e, destroy)

  get-destroyed :
      (p : HandlePool A) (h k : Handle) (s : Slot A)
      → resolve p h ≡ some s
      → get (destroyed p h s) k ≡ (if same_handle k h then none else get p k)
  unfolding destroyed
  get-destroyed p h k s e = elim (ℕ_discrete h.index k.index) [
    | yes same ↦
        let (at, g, _, _, _) = resolve_lem p h s e in
        let gone : Slot A = record { value = none; generation = next_generation s.generation } in
        ground (
          arith,
          get_vacant (destroyed p h s) k gone
              (rw (← same)
                (get_elem?-set_self p.slots h.index gone (get_elem?_lt p.slots h.index s at)))
              refl,
          get_other p k s (rw (← same) at),
        )
    | no ne ↦ ground (
      arith,
      get_agree (destroyed p h s) p k (length-set p.slots h.index _)
          (get_elem?-set_ne p.slots h.index k.index _ ne),
    )
  ]

  -- `destroy` reports whether the handle resolved; afterwards that handle resolves to nothing and
  -- every other handle resolves as before.
  pub get-destroy :
      (p : HandlePool A) (h k : Handle)
      → ((destroy p h).0 ≡ contains p h)
        × (get (destroy p h).1 k ≡ (if same_handle k h then none else get p k))
  unfolding contains
  get-destroy p h k = elim (Option-cases (resolve p h)) [
    | inl e ↦
        rw (destroy_missing p h e)
          (rw (e, contains), ground (arith, get_unresolved p h e, get_same p h k))
    | inr (s, e) ↦ rw (destroy_found p h s e) (rw (e, contains), get-destroyed p h k s e)
  ]

  -- The slot that an insertion fills was empty or is new, so no handle that resolved is touched.
  insert_reuse-get :
      (slots : List (Slot A)) (i : ℕ) (rest : List ℕ) (n m : ℕ) (s : Slot A) (v : A) (k : Handle)
      → get_elem? slots i ≡ some s
      → s.value ≡ none
      → 1 ≤ s.generation
      → let q : HandlePool A = record {
        slots = set slots i (record s { value = some v });
        free = rest;
        live = m;
      } in
        get q k ≡ (
          if same_handle k (record { index = i; generation = s.generation })
          then some v
          else get (record { slots = slots; free = i ∷ rest; live = n }) k)
  insert_reuse-get slots i rest n m s v k e z g = elim (ℕ_discrete i k.index) [
    | yes same ↦ ground (
      arith,
      get_here (record { slots = set slots i filled; free = rest; live = m }) k filled
          (rw (← same) written),
      get_other (record { slots = set slots i filled; free = rest; live = m }) k filled
          (rw (← same) written),
      get_vacant (record { slots = slots; free = i ∷ rest; live = n }) k s (rw (← same) e) z,
    )
    | no ne ↦ ground (
      arith,
      get_agree (record { slots = set slots i filled; free = rest; live = m })
          (record { slots = slots; free = i ∷ rest; live = n }) k (length-set slots i filled)
          (get_elem?-set_ne slots i k.index filled ne),
    )
  ]
    where
      filled : Slot A
      filled = record s { value = some v }

      written : get_elem? (set slots i filled) i ≡ some filled
      written = get_elem?-set_self slots i filled (get_elem?_lt slots i s e)

  insert_grow-get :
      (slots : List (Slot A)) (n m : ℕ) (v : A) (k : Handle)
      → let q : HandlePool A = record {
        slots = slots ++ record { value = some v; generation = 1 } ∷ [];
        free = [];
        live = m;
      } in
        get q k ≡ (
          if same_handle k (record { index = length slots; generation = 1 })
          then some v
          else get (record { slots = slots; free = []; live = n }) k)
  insert_grow-get slots n m v k = elim (ℕ_discrete k.index (length slots)) [
    | yes end ↦ ground (
      arith,
      get_here q k new (rw end (get_elem?-append_end slots new)),
      get_other q k new (rw end (get_elem?-append_end slots new)),
      get_outside (record { slots = slots; free = []; live = n }) k,
    )
    | no ne ↦ elim (dec_lt k.index (length slots)) [
      | yes inside ↦ ground (
        arith,
        length-append slots (new ∷ []),
        get_local q (record { slots = slots; free = []; live = n }) k
            (get_elem?-append_left slots (new ∷ []) k.index inside),
      )
      | no outside ↦ ground (
        arith,
        length-append slots (new ∷ []),
        get_outside (record { slots = slots; free = []; live = n }) k,
        get_outside q k,
      )
    ]
  ]
    where
      new : Slot A
      new = record { value = some v; generation = 1 }

      q : HandlePool A
      q = record { slots = slots ++ new ∷ []; free = []; live = m }

  -- The law of a pool `q` that `insert` made from `p`, with the handle `h`.
  abbrev pub Inserted : HandlePool A → A → Handle → HandlePool A → Type 0
  Inserted p v h q =
      (get p h ≡ none) × ((k : Handle) → get q k ≡ (if same_handle k h then some v else get p k))

  get-insert_parts :
      (slots : List (Slot A)) (free : List ℕ) (n : ℕ) (v : A) (h : Handle) (q : HandlePool A)
      → IsValid (record { slots = slots; free = free; live = n })
      → insert (record { slots = slots; free = free; live = n }) v ≡ ok (h, q)
      → Inserted (record { slots = slots; free = free; live = n }) v h q
  unfolding insert
  get-insert_parts slots [] n v h q w e = elim (Bool-cases (leb max_entries (length slots))) [
    | inl full ↦ absurd (ground arith)
    | inr room ↦
        let p : HandlePool A = record { slots = slots; free = []; live = n } in
        let i : record { index = length slots; generation = 1 } ≡ h = ground arith in
        subst (λ h. Inserted p v h q) i
          (subst (Inserted p v _) (ground arith)
            (get_outside p _ (omega arith), insert_grow-get slots n (n + 1) v))
  ]
  get-insert_parts slots (i ∷ rest) n v h q w e =
      let (s, at, z) = w.free_empty.0 in
      let g = All-get HasGeneration slots i s w.generations at in
      let p : HandlePool A = record { slots = slots; free = i ∷ rest; live = n } in
      let j : record { index = i; generation = s.generation } ≡ h =
        ground (arith, slot_at_lem slots i s at) in
      subst (λ h. Inserted p v h q) j
        (subst (Inserted p v _) (ground (arith, slot_at_lem slots i s at))
          (get_vacant p _ s at z, λ k. insert_reuse-get slots i rest n (n + 1) s v k at z g.0))

  -- A successful `insert` into a valid pool returns a handle that resolved to nothing before;
  -- afterwards it resolves to the value, and every other handle resolves as before.
  pub get-insert :
      {p q : HandlePool A} {h : Handle} (v : A)
      → IsValid p
      → insert p v ≡ ok (h, q)
      → (get p h ≡ none) × ((k : Handle) → get q k ≡ (if same_handle k h then some v else get p k))
  get-insert {p} {q} {h} v w e = get-insert_parts p.slots p.free p.live v h q w e
