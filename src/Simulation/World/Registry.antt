-- ===== src/Simulation/World/Registry.antt =====
-- Registering tables: what `add_table` promises, and that the order of registration does not show.
use atlas_engine.Base.{
  ℕ, ◌≡◌, refl, ap, sym, ◌∙◌, subst, inl, inr, Bool, true, false, Bool-cases, Option-cases, Option,
  none, some, List, ◌==◌, if◌then◌else◌, arith,
}
use atlas_engine.Base.OrderedMap as OrderedMap
use atlas_engine.Base.OrderedMap.{put, find-put, put_comm, Ascends, put-Ascends}
use atlas_engine.Core.Error.{
  Result, ok, err, ◌>>=◌, ok-injective, bind-ok, invalid_argument, already_exists,
}
use atlas_engine.Simulation.World.{World, table_id, is_nameless, add_table, table}
use atlas_engine.Simulation.World.Ordered.{
  Tables, world_of, found, find-world_of, insert_at-keys, insert_at-entries,
}

module _ {T : Type 0} where
  -- Registering in a map: a name and a table are needed, and the identifier must be free.
  unfoldable pub register : Tables T → List ℕ → Option T → Result (ℕ × Tables T)
  register m name none = err invalid_argument
  register m name (some t) =
      if is_nameless name then err invalid_argument else elim (OrderedMap.find (table_id name) m) [
        | some taken ↦ err already_exists
        | none ↦ ok (table_id name, put (table_id name) (name, t) m)
      ]

  abbrev pub represented : Result (ℕ × Tables T) → Result (ℕ × World T)
  represented (ok (id, m)) = ok (id, world_of m)
  represented (err e) = err e

  inserted :
      (m : Tables T) (name : List ℕ) (t : T)
      → OrderedMap.find (table_id name) m ≡ none
      → Ascends m
      → is_nameless name ≡ false
      → add_table (world_of m) name (some t)
        ≡ ok (table_id name, world_of (put (table_id name) (name, t) m))
  unfolding add_table
  inserted m name t free a named =
      rw
        (
          named,
          find-world_of m (table_id name) a,
          free,
          insert_at-keys (table_id name) (name, t) m free,
          insert_at-entries (table_id name) name t m free,
        )
        refl

  taken :
      (m : Tables T) (name : List ℕ) (t : T) (v : List ℕ × T)
      → OrderedMap.find (table_id name) m ≡ some v
      → Ascends m
      → is_nameless name ≡ false
      → add_table (world_of m) name (some t) ≡ err already_exists
  unfolding add_table
  taken m name t v e a named = rw (named, find-world_of m (table_id name) a, e) refl

  nameless :
      (m : Tables T) (name : List ℕ) (t : Option T)
      → is_nameless name ≡ true
      → add_table (world_of m) name t ≡ err invalid_argument
  unfolding add_table
  nameless m name t e = rw e refl

  tableless :
      (m : Tables T) (name : List ℕ) → add_table (world_of m) name none ≡ err invalid_argument
  unfolding add_table
  tableless m name = elim (Bool-cases (is_nameless name)) [ inl e ↦ rw e refl | inr e ↦ rw e refl ]

  -- `add_table` registers in an ordered map: on every input it answers as the map does, and the world
  -- it leaves represents the map with the table in it.
  pub add_table-register :
      (m : Tables T) (name : List ℕ) (t : Option T)
      → Ascends m
      → add_table (world_of m) name t ≡ represented (register m name t)
  unfolding register
  add_table-register m name none a = tableless m name
  add_table-register m name (some t) a = elim (Bool-cases (is_nameless name)) [
    | inl e ↦ nameless m name (some t) e ∙ rw e refl
    | inr e ↦ elim (Option-cases (OrderedMap.find (table_id name) m)) [
      | inl free ↦ inserted m name t free a e ∙ rw (e, free) refl
      | inr (v, there) ↦ taken m name t v there a e ∙ rw (e, there) refl
    ]
  ]

  -- What a registration that succeeded has tested, and the map that it leaves.
  record Registration (m : Tables T) (name : List ℕ) (t : T) (id : ℕ) (w : World T) : Type 0 where
    named : is_nameless name ≡ false
    free : OrderedMap.find (table_id name) m ≡ none
    is_id : id ≡ table_id name
    world : w ≡ world_of (put (table_id name) (name, t) m)

  registration :
      (m : Tables T) (name : List ℕ) (t : T) {id : ℕ} {w : World T}
      → Ascends m
      → add_table (world_of m) name (some t) ≡ ok (id, w)
      → Registration m name t id w
  registration m name t {id} {w} a e = elim (Bool-cases (is_nameless name)) [
    | inl none_there ↦ absurd (cc (nameless m name (some t) none_there))
    | inr named ↦ elim (Option-cases (OrderedMap.find (table_id name) m)) [
      | inl free ↦
          let same : (id, w) ≡ (table_id name, world_of (put (table_id name) (name, t) m)) =
            ok-injective _ _ (sym e ∙ inserted m name t free a named) in
          record {
            named = named;
            free = free;
            is_id = ap (λ p. p.0) same;
            world = ap (λ p. p.1) same;
          }
      | inr (v, there) ↦ absurd (cc (taken m name t v there a named))
    ]
  ]

  abbrev table_in : Option (List ℕ × T) → Option T
  table_in none = none
  table_in (some (name, t)) = some t

  table-found :
      (j : ℕ) (v : Option (List ℕ × T))
      → (elim (found j v) [ some entry ↦ some entry.table | none ↦ none ]) ≡ table_in v
  table-found j none = refl
  table-found j (some (name, t)) = refl

  if_table :
      (b : Bool) (name : List ℕ) (t : T) (v : Option (List ℕ × T))
      → table_in (if b then some (name, t) else v) ≡ (if b then some t else table_in v)
  if_table true name t v = refl
  if_table false name t v = refl

  table-world_of :
      (m : Tables T) (j : ℕ) → Ascends m → table (world_of m) j ≡ table_in (OrderedMap.find j m)
  unfolding table
  table-world_of m j a = rw (table, find-world_of m j a) (table-found j (OrderedMap.find j m))

  -- After a registration that succeeds, the table is found under the identifier it was given, and
  -- every other identifier finds what it found before.
  pub table-add_table :
      (m : Tables T) (name : List ℕ) (t : T) {id : ℕ} {w : World T} (j : ℕ)
      → Ascends m
      → add_table (world_of m) name (some t) ≡ ok (id, w)
      → table w j ≡ (if id == j then some t else table (world_of m) j)
  table-add_table m name t {id} {w} j a e =
      let r = registration m name t a e in
      rw
        (
          r.is_id,
          r.world,
          table-world_of (put (table_id name) (name, t) m) j
              (put-Ascends (table_id name) (name, t) m a),
          table-world_of m j a,
          find-put (table_id name) j (name, t) m,
        )
        (if_table (table_id name == j) name t (OrderedMap.find j m))

  -- Two registrations, one after the other.
  abbrev pub both : World T → List ℕ → T → List ℕ → T → Result (World T)
  both w a s b t = add_table w a (some s) >>= λ p. add_table p.1 b (some t) >>= λ q. ok q.1

  -- What the second registration says of the map before the first.
  free_before :
      (m : Tables T) (k j : ℕ) (v : List ℕ × T)
      → OrderedMap.find j (put k v m) ≡ none
      → ((k == j) ≡ false) × (OrderedMap.find j m ≡ none)
  free_before m k j v e = elim (Bool-cases (k == j)) [
    | inl same ↦ absurd (cc (find-put k j v m, same))
    | inr other ↦ (other, sym (find-put k j v m ∙ rw other refl) ∙ e)
  ]

  free_after :
      (m : Tables T) (k j : ℕ) (v : List ℕ × T)
      → (k == j) ≡ false
      → OrderedMap.find j m ≡ none
      → OrderedMap.find j (put k v m) ≡ none
  free_after m k j v other free = find-put k j v m ∙ rw other free

  both_inserted :
      (m : Tables T) (a b : List ℕ) (s t : T)
      → Ascends m
      → is_nameless a ≡ false
      → is_nameless b ≡ false
      → OrderedMap.find (table_id a) m ≡ none
      → OrderedMap.find (table_id b) (put (table_id a) (a, s) m) ≡ none
      → both (world_of m) a s b t
        ≡ ok (world_of (put (table_id b) (b, t) (put (table_id a) (a, s) m)))
  both_inserted m a b s t h na nb fa fb =
      rw
        (
          inserted m a s fa h na,
          inserted (put (table_id a) (a, s) m) b t fb (put-Ascends (table_id a) (a, s) m h) nb,
        )
        refl

  -- Two tables that can be registered in one order can be registered in the other, and the world is
  -- the same.
  pub add_table_comm :
      (m : Tables T) (a b : List ℕ) (s t : T) {w : World T}
      → Ascends m
      → both (world_of m) a s b t ≡ ok w
      → both (world_of m) b t a s ≡ ok w
  add_table_comm m a b s t {w} h e =
      let (p, (first, rest)) = bind-ok (add_table (world_of m) a (some s)) _ w e in
      let ra = registration m a s h first in
      let (q, (second, last)) = bind-ok (add_table p.1 b (some t)) _ w rest in
      let m1 : Tables T = put (table_id a) (a, s) m in
      let rb =
        registration m1 b t (put-Ascends (table_id a) (a, s) m h)
          (subst (λ u. add_table u b (some t) ≡ ok q) ra.world second) in
      let (other, free) = free_before m (table_id a) (table_id b) (a, s) rb.free in
      let other' : (table_id b == table_id a) ≡ false = ground arith in
      both_inserted m b a t s h rb.named ra.named free
        (free_after m (table_id b) (table_id a) (b, t) other' ra.free)
      ∙ ap (λ n. ok (world_of n)) (put_comm (table_id a) (table_id b) (a, s) (b, t) m other)
      ∙ (ap ok (sym rb.world) ∙ last)
