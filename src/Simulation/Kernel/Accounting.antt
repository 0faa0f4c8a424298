-- ===== src/Simulation/Kernel/Accounting.antt =====
-- Where the commands that a tick drains go.
use atlas_engine.Base.{
  ℕ, suc, ◌+◌, ◌≡◌, refl, ap, sym, ◌∙◌, subst, Bool, true, false, List, [], ◌∷◌, u64, length, ltb,
  if◌then◌else◌, arith,
}
use atlas_engine.Core.Error.{Result, Status, ok, err, ok-injective}
use atlas_engine.Simulation.Command.{Command, drain, apply}
use atlas_engine.Simulation.World.{World, Table}
use atlas_engine.Simulation.Kernel.{
  Kernel, Phases, TickReport, empty_report, late, counted, run_command, run_commands, run_systems,
  SystemHash, hashes_of, closed, conclude, run_tick, step,
}
use atlas_engine.Simulation.Kernel.Refused.{step-ok}

-- How many commands a report speaks of.
pub accounted : TickReport → ℕ
accounted r = r.commands_applied + r.commands_late + r.commands_invalid + r.commands_declined

-- The commands that name a tick that is past.
pub past : ℕ → List Command → ℕ
past tick [] = 0
past tick (c ∷ cs) = if ltb c.target tick then suc (past tick cs) else past tick cs

late_sum :
    (x y p : ℕ) (b : Bool) → x ≡ y + (if b then 1 else 0) → x + p ≡ y + (if b then suc p else p)
late_sum x y p true e = omega arith
late_sum x y p false e = omega arith

module _ {T S : Type 0} where
  -- What one command adds to the report, and what it leaves of the kernel.
  pub record Accounts (k : Kernel T S) (r : TickReport) (late : ℕ) (n : ℕ)
      (out : Kernel T S × TickReport) : Type 0 where
    pub tick : out.0.tick ≡ k.tick
    pub config : out.0.config ≡ k.config
    pub schedule : out.0.schedule ≡ k.schedule
    pub commands : out.0.commands ≡ k.commands
    pub report_tick : out.1.tick ≡ r.tick
    pub total : accounted out.1 ≡ accounted r + n
    pub late_total : out.1.commands_late ≡ r.commands_late + late

  counted-Accounts :
      (k : Kernel T S) (r : TickReport) (c : Command) (out : Result Status × World T)
      → Accounts k r 0 1 (counted k r c out)
  unfolding counted accounted
  counted-Accounts k r c (err e, world) = record {
    tick = refl;
    config = refl;
    schedule = refl;
    commands = refl;
    report_tick = refl;
    total = omega arith;
    late_total = omega arith;
  }
  counted-Accounts k r c (ok (err e), world) = record {
    tick = refl;
    config = refl;
    schedule = refl;
    commands = refl;
    report_tick = refl;
    total = omega arith;
    late_total = omega arith;
  }
  counted-Accounts k r c (ok (ok done), world) = record {
    tick = refl;
    config = refl;
    schedule = refl;
    commands = refl;
    report_tick = refl;
    total = omega arith;
    late_total = omega arith;
  }

  late-Accounts : (k : Kernel T S) (r : TickReport) → Accounts k r 1 1 (late k r)
  unfolding late accounted
  late-Accounts k r = record {
    tick = refl;
    config = refl;
    schedule = refl;
    commands = refl;
    report_tick = refl;
    total = omega arith;
    late_total = omega arith;
  }

  pub run_command-Accounts :
      (k : Kernel T S) (r : TickReport) (c : Command)
      → Accounts k r (if ltb c.target k.tick then 1 else 0) 1 (run_command k r c)
  unfolding run_command
  run_command-Accounts k r c = go (ltb c.target k.tick)
    where
      go :
          (b : Bool)
          → Accounts k r (if b then 1 else 0) 1 (
              if◌then◌else◌ {A = Kernel T S × TickReport} b
                (late k r)
                (counted k r c (apply k.commands k.world c)))
      go true = late-Accounts k r
      go false = counted-Accounts k r c (apply k.commands k.world c)

  pub run_commands-Accounts :
      (k : Kernel T S) (r : TickReport) (cs : List Command)
      → Accounts k r (past k.tick cs) (length cs) (run_commands k r cs)
  unfolding run_commands past
  run_commands-Accounts k r [] = record {
    tick = refl;
    config = refl;
    schedule = refl;
    commands = refl;
    report_tick = refl;
    total = omega arith;
    late_total = omega arith;
  }
  run_commands-Accounts k r (c ∷ cs) =
      let first = run_command-Accounts k r c in
      let rest = run_commands-Accounts (run_command k r c).0 (run_command k r c).1 cs in
      record {
        tick = rest.tick ∙ first.tick;
        config = rest.config ∙ first.config;
        schedule = rest.schedule ∙ first.schedule;
        commands = rest.commands ∙ first.commands;
        report_tick = rest.report_tick ∙ first.report_tick;
        total = omega (arith, rest.total, first.total);
        late_total =
            rest.late_total
            ∙ (ap (λ t. (run_command k r c).1.commands_late + past t cs) first.tick
                ∙ late_sum (run_command k r c).1.commands_late r.commands_late (past k.tick cs)
                    (ltb c.target k.tick) first.late_total);
      }

module _ {T S : Type 0} (ops : Table T) (phases : Phases T S) where
  -- What a report that was closed keeps of the one that was begun.
  record Concludes (k : Kernel T S) (r : TickReport) (r' : TickReport) (k' : Kernel T S)
      : Type 0 where
    total : accounted r' ≡ accounted r
    late_total : r'.commands_late ≡ r.commands_late
    report_tick : r'.tick ≡ r.tick
    commands : k'.commands ≡ k.commands
    tick : k'.tick ≡ u64 (k.tick + 1)

  closed-Concludes :
      (k : Kernel T S) (r r' : TickReport) (hashes : Result (List SystemHash))
      → (closed ops phases k r hashes).0 ≡ ok r'
      → Concludes k r r' (closed ops phases k r hashes).1
  unfolding closed accounted
  closed-Concludes k r r' (err c) e = absurd (cc)
  closed-Concludes k r r' (ok hashes) e =
      let same = sym (ok-injective _ _ e) in
      record {
        total = ap accounted same;
        late_total = ap (λ t. t.commands_late) same;
        report_tick = ap (λ t. t.tick) same;
        commands = refl;
        tick = refl;
      }

  conclude-Concludes :
      (k : Kernel T S) (r r' : TickReport)
      → (conclude ops phases k r).0 ≡ ok r'
      → Concludes k r r' (conclude ops phases k r).1
  unfolding conclude
  conclude-Concludes k r r' e = closed-Concludes k r r' (hashes_of ops phases k) e

  -- What a tick that ran reports and leaves.
  pub record Ran (k : Kernel T S) (r : TickReport) (k' : Kernel T S) : Type 0 where
    pub tick : r.tick ≡ k.tick
    pub next : k'.tick ≡ u64 (k.tick + 1)
    pub taken : k'.commands ≡ (drain k.commands k.tick).1
    pub total : accounted r ≡ length (drain k.commands k.tick).0
    pub late : r.commands_late ≡ past k.tick (drain k.commands k.tick).0

  run_tick-Ran :
      (k : Kernel T S) (r : TickReport)
      → (run_tick ops phases k).0 ≡ ok r
      → Ran k r (run_tick ops phases k).1
  unfolding run_tick run_systems empty_report accounted
  run_tick-Ran k r e =
      let drained = drain k.commands k.tick in
      let begun : Kernel T S = record k { commands = drained.1 } in
      let out = run_commands begun (empty_report k.tick) drained.0 in
      let counts = run_commands-Accounts begun (empty_report k.tick) drained.0 in
      let end = conclude-Concludes (run_systems ops phases out.0) out.1 r e in
      record {
        tick = end.report_tick ∙ counts.report_tick;
        next = end.tick ∙ ap (λ t. u64 (t + 1)) counts.tick;
        taken = end.commands ∙ counts.commands;
        total = end.total ∙ (counts.total ∙ omega arith);
        late = end.late_total ∙ (counts.late_total ∙ omega arith);
      }

  -- A tick that runs reports its own number and moves on to the next; it takes from the queue what
  -- `drain` takes; and every command that it takes is counted once, as late when the tick that it
  -- names is past, and otherwise as applied, invalid or declined.
  pub step-Ran :
      (k : Kernel T S) (r : TickReport)
      → (step ops phases k).0 ≡ ok r
      → Ran k r (step ops phases k).1
  step-Ran k r e =
      let same = step-ok ops phases k r e in
      subst (λ k'. Ran k r k') (ap (λ out. out.1) (sym same))
        (run_tick-Ran k r (ap (λ out. out.0) (sym same) ∙ e))
