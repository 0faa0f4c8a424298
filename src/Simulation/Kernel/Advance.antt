-- ===== src/Simulation/Kernel/Advance.antt =====
-- A tick that nothing refuses is run to its end.
use atlas_engine.Base.{
  and-true, ℕ, suc, ◌+◌, ◌≡◌, refl, ap, sym, ◌∙◌, subst, inl, inr, Bool, true, false, Bool-cases,
  Option-cases, ◌&&◌, some, List, [], ◌∷◌, ltb, if◌then◌else◌, u64,
}
use atlas_engine.Base.OrderedMap.{find}
use atlas_engine.Core.Error.{Result, Status, ok, err, ◌>>=◌, Result-cases}
use atlas_engine.Core.Hash.{Hasher, fresh, value}
use atlas_engine.Simulation.SaveStream.{Bytes}
use atlas_engine.Simulation.Command.{
  Command, CommandQueue, ApplyContext, Registered, drain, apply, handler_for,
}
use atlas_engine.Simulation.Command.Drain.{drain-handlers}
use atlas_engine.Simulation.Schedule.{System, all_in, tables_exist}
use atlas_engine.Simulation.World.{World, Table, contains, table_hash, add_word}
use atlas_engine.Simulation.World.Hashed.{table_hash-contains}
use atlas_engine.Simulation.Kernel.{
  Kernel, Phases, ComputeContext, TickReport, SystemHash, ready, run_tick, step, empty_report, late,
  counted, run_command, run_commands, commit, compute, run_systems, hash_writes, system_hashes,
  closed, conclude, hashes_of,
}
use atlas_engine.Simulation.Kernel.Refused.{step-ready}
use atlas_engine.Simulation.Kernel.Accounting.{
  run_command-Accounts, run_commands-Accounts, step-Ran,
}

-- Every table of the one world is there in the other.
unfoldable pub Keeps : {T : Type 0} → World T → World T → Type 0
Keeps v w = (id : ℕ) → contains v id ≡ true → contains w id ≡ true

-- The game's functions take no table away: `World` has no operation that would.
pub record KeepsTables {T S : Type 0} (phases : Phases T S) (q : CommandQueue (World T))
    : Type 0 where
  pub commit : (index tick : ℕ) (s : S) (w : World T) → Keeps w (phases.commit index tick s w).0
  pub handlers :
      (type : ℕ) (h : Registered (World T)) (w : World T) (context : ApplyContext) (payload : Bytes)
      → find type q.handlers ≡ some h
      → Keeps w (h.apply w context payload).1

module _ {T : Type 0} where
  Keeps-trans : (u v w : World T) → Keeps u v → Keeps v w → Keeps u w
  unfolding Keeps
  Keeps-trans u v w f g id h = g id (f id h)

  Keeps-refl : (w : World T) → Keeps w w
  unfolding Keeps
  Keeps-refl w id h = h

  all_in-Keeps :
      (v w : World T) (ids : List ℕ)
      → Keeps v w
      → all_in (contains v) ids ≡ true
      → all_in (contains w) ids ≡ true
  unfolding all_in Keeps
  all_in-Keeps v w [] k e = refl
  all_in-Keeps v w (id ∷ ids) k e =
      let (here, rest) = and-true (contains v id) (all_in (contains v) ids) e in
      rw (k id here) (all_in-Keeps v w ids k rest)

  -- The tables that the systems write are there.
  Written : World T → List System → Type 0
  Written w [] = Unit
  Written w (s ∷ rest) = (all_in (contains w) s.writes ≡ true) × Written w rest

  tables_exist-Written :
      (w : World T) (systems : List System)
      → tables_exist (contains w) systems ≡ true
      → Written w systems
  unfolding tables_exist Written
  tables_exist-Written w [] e = tt
  tables_exist-Written w (s ∷ rest) e =
      let (tables, others) =
        and-true (all_in (contains w) s.reads && all_in (contains w) s.writes) _ e in
      ((and-true (all_in (contains w) s.reads) _ tables).1, tables_exist-Written w rest others)

  Written-Keeps :
      (v w : World T) (systems : List System) → Keeps v w → Written v systems → Written w systems
  unfolding Written
  Written-Keeps v w [] k h = tt
  Written-Keeps v w (s ∷ rest) k h = (all_in-Keeps v w s.writes k h.0, Written-Keeps v w rest k h.1)

module _ {T S : Type 0} (phases : Phases T S) (q : CommandQueue (World T))
    (h : KeepsTables phases q) where
  apply-Keeps : (w : World T) (c : Command) → Keeps w (apply q w c).1
  unfolding apply handler_for
  apply-Keeps w c = elim (Option-cases (find c.type q.handlers)) [
    | inl missing ↦ rw (apply, handler_for, missing) (Keeps-refl w)
    | inr (r, found) ↦ elim (Result-cases (r.validate c.payload)) [
      | inl (e, bad) ↦ rw (apply, handler_for, found, bad) (Keeps-refl w)
      | inr (x, good) ↦
          rw (apply, handler_for, found, good) (h.handlers c.type r w _ c.payload found)
    ]
  ]

  counted-Keeps :
      (k : Kernel T S) (r : TickReport) (c : Command) (out : Result Status × World T)
      → Keeps k.world out.1
      → Keeps k.world (counted k r c out).0.world
  unfolding counted
  counted-Keeps k r c (err e, world) g = g
  counted-Keeps k r c (ok (err e), world) g = g
  counted-Keeps k r c (ok (ok done), world) g = g

  run_command-Keeps :
      (k : Kernel T S) (r : TickReport) (c : Command)
      → k.commands ≡ q
      → Keeps k.world (run_command k r c).0.world
  unfolding run_command late
  run_command-Keeps k r c e = go (ltb c.target k.tick)
    where
      go :
          (b : Bool)
          → Keeps k.world
              (if◌then◌else◌ {A = Kernel T S × TickReport} b
                (late k r)
                (counted k r c (apply k.commands k.world c))).0.world
      go true = Keeps-refl k.world
      go false =
          counted-Keeps k r c (apply k.commands k.world c)
            (subst (λ p. Keeps k.world (apply p k.world c).1) (sym e) (apply-Keeps k.world c))

  run_commands-Keeps :
      (k : Kernel T S) (r : TickReport) (cs : List Command)
      → k.commands ≡ q
      → Keeps k.world (run_commands k r cs).0.world
  unfolding run_commands
  run_commands-Keeps k r [] e = Keeps-refl k.world
  run_commands-Keeps k r (c ∷ cs) e =
      let first = run_command k r c in
      Keeps-trans k.world first.0.world (run_commands first.0 first.1 cs).0.world
        (run_command-Keeps k r c e)
        (run_commands-Keeps first.0 first.1 cs ((run_command-Accounts k r c).commands ∙ e))

  commit_one-Keeps :
      (tick index : ℕ) (b : Bool) (out : World T × S)
      → Keeps out.0 (if◌then◌else◌ {A = World T × S} b (phases.commit index tick out.1 out.0) out).0
  commit_one-Keeps tick index true out = h.commit index tick out.1 out.0
  commit_one-Keeps tick index false out = Keeps-refl out.0

  commit-Keeps :
      (ops : Table T) (tick : ℕ) (systems : List System) (index : ℕ) (out : World T × S)
      → Keeps out.0 (commit ops phases tick systems index out).0
  unfolding commit
  commit-Keeps ops tick [] index out = Keeps-refl out.0
  commit-Keeps ops tick (s ∷ rest) index out =
      let next =
        if◌then◌else◌ {A = World T × S} s.has_commit (phases.commit index tick out.1 out.0) out in
      Keeps-trans out.0 next.0 _ (commit_one-Keeps tick index s.has_commit out)
        (commit-Keeps ops tick rest (suc index) next)

module _ {T S : Type 0} (ops : Table T) (phases : Phases T S) where
  bind-succeeds :
      {A B : Type 0} (r : Result A) (f : A → Result B)
      → (x : A) × (r ≡ ok x)
      → ((x : A) → (y : B) × (f x ≡ ok y))
      → (y : B) × ((r >>= f) ≡ ok y)
  bind-succeeds r f (x, e) g = let (y, d) = g x in (y, rw e d)

  hash_writes-succeeds :
      (w : World T) (hasher : Hasher) (writes : List ℕ)
      → all_in (contains w) writes ≡ true
      → (out : Hasher) × (hash_writes ops phases w hasher writes ≡ ok out)
  unfolding hash_writes all_in
  hash_writes-succeeds w hasher [] e = (hasher, refl)
  hash_writes-succeeds w hasher (id ∷ writes) e =
      let (here, rest) = and-true (contains w id) _ e in
      bind-succeeds (table_hash ops w id) _ (table_hash-contains ops w id here)
        (λ hashed. hash_writes-succeeds w (add_word 8 hasher hashed) writes rest)

  system_hash-succeeds :
      (w : World T) (s : System) (rest : List System) (writes : List ℕ)
      → all_in (contains w) writes ≡ true
      → (out : List SystemHash) × (system_hashes ops phases w rest ≡ ok out)
      → (out : List SystemHash) × ((elim writes [
        | [] ↦ system_hashes ops phases w rest
        | id ∷ writes ↦ hash_writes ops phases w fresh (id ∷ writes) >>= λ hasher.
            system_hashes ops phases w rest >>= λ hashes.
            ok (record { system = s.id; hash = value hasher } ∷ hashes)
      ])
          ≡ ok out)
  system_hash-succeeds w s rest [] e others = others
  system_hash-succeeds w s rest (id ∷ writes) e others =
      bind-succeeds (hash_writes ops phases w fresh (id ∷ writes)) _
        (hash_writes-succeeds w fresh (id ∷ writes) e)
        (λ hasher. bind-succeeds (system_hashes ops phases w rest) _ others (λ hashes. (_, refl)))

  system_hashes-succeeds :
      (w : World T) (systems : List System)
      → Written w systems
      → (out : List SystemHash) × (system_hashes ops phases w systems ≡ ok out)
  unfolding system_hashes Written
  system_hashes-succeeds w [] h = ([], refl)
  system_hashes-succeeds w (s ∷ rest) h =
      system_hash-succeeds w s rest s.writes h.0 (system_hashes-succeeds w rest h.1)

  hashes_of-succeeds :
      (k : Kernel T S)
      → Written k.world k.schedule.systems
      → (out : List SystemHash) × (hashes_of ops phases k ≡ ok out)
  unfolding hashes_of
  hashes_of-succeeds k h = elim (Bool-cases k.config.record_system_hashes) [
    | inl e ↦ rw e (system_hashes-succeeds k.world k.schedule.systems h)
    | inr e ↦ rw e ([], refl)
  ]

  conclude-succeeds :
      (k : Kernel T S) (r : TickReport)
      → Written k.world k.schedule.systems
      → (out : TickReport) × ((conclude ops phases k r).0 ≡ ok out)
  unfolding conclude closed
  conclude-succeeds k r h =
      let (hashes, e) = hashes_of-succeeds k h in
      (_, ap (λ found. (closed ops phases k r found).0) e)

  drained-KeepsTables :
      (q : CommandQueue (World T)) (tick : ℕ)
      → KeepsTables phases q
      → KeepsTables phases (drain q tick).1
  drained-KeepsTables q tick h = record {
    commit = h.commit;
    handlers = λ type r w context payload e.
        h.handlers type r w context payload (ap (find type) (sym (drain-handlers q tick)) ∙ e);
  }

  run_tick-succeeds :
      (k : Kernel T S)
      → KeepsTables phases k.commands
      → tables_exist (contains k.world) k.schedule.systems ≡ true
      → (r : TickReport) × ((run_tick ops phases k).0 ≡ ok r)
  unfolding run_tick run_systems
  run_tick-succeeds k keeps tables =
      let drained = drain k.commands k.tick in
      let keeps' = drained-KeepsTables k.commands k.tick keeps in
      let begun : Kernel T S = record k { commands = drained.1 } in
      let out = run_commands begun (empty_report k.tick) drained.0 in
      let counts = run_commands-Accounts begun (empty_report k.tick) drained.0 in
      let context : ComputeContext T = record {
        world = out.0.world;
        tick = out.0.tick;
        seed = out.0.config.seed;
      } in
      let scratch =
        compute ops phases out.0.schedule.systems context out.0.scratch out.0.schedule.batches in
      let there : Written begun.world k.schedule.systems =
        tables_exist-Written k.world k.schedule.systems tables in
      let applied : Written out.0.world k.schedule.systems =
        Written-Keeps begun.world out.0.world k.schedule.systems
          (run_commands-Keeps phases drained.1 keeps' begun (empty_report k.tick) drained.0 refl)
          there in
      conclude-succeeds (run_systems ops phases out.0) out.1 (
        Written-Keeps out.0.world _ out.0.schedule.systems
          (commit-Keeps phases drained.1 keeps' ops out.0.tick out.0.schedule.systems 0
            (out.0.world, scratch))
          (subst (λ s. Written out.0.world s.systems) (sym counts.schedule) applied))

  -- A tick whose schedule is finalised and whose gate is open runs to its end, when every table that
  -- the schedule names is in the world and the game's handlers and commits take no table away: the
  -- report is that of this tick, and the kernel stands at the next.
  pub step-advances :
      (k : Kernel T S)
      → KeepsTables phases k.commands
      → k.schedule.finalised ≡ true
      → tables_exist (contains k.world) k.schedule.systems ≡ true
      → ready k ≡ true
      → (r : TickReport) × ((step ops phases k).0 ≡ ok r)
        × (r.tick ≡ k.tick)
        × ((step ops phases k).1.tick ≡ u64 (k.tick + 1))
  step-advances k keeps done tables free =
      let (r, e) = run_tick-succeeds k keeps tables in
      let runs : (step ops phases k).0 ≡ ok r =
        ap (λ out. out.0) (step-ready ops phases k done free) ∙ e in
      let ran = step-Ran ops phases k r runs in (r, runs, ran.tick, ran.next)
