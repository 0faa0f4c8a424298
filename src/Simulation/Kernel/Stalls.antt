-- ===== src/Simulation/Kernel/Stalls.antt =====
-- A kernel that waited for its gate runs the tick that it would have run without the wait.
use atlas_engine.Base.{
  ℕ, zero, suc, ◌≡◌, refl, ap, sym, ◌∙◌, Bool, true, false, Option, List, [], ◌∷◌, ltb,
  if◌then◌else◌, ◌+◌, u64,
}
use atlas_engine.Core.Error.{Result, Status, ok, err}
use atlas_engine.Simulation.Command.{Command, drain, apply}
use atlas_engine.Simulation.TurnGate.{TurnGate}
use atlas_engine.Simulation.World.{World, Table}
use atlas_engine.Simulation.Kernel.{
  Kernel, Phases, TickReport, SystemHash, gate_ready, ready, run_tick, step, empty_report, late,
  counted, run_command, run_commands, run_systems, closed, conclude, hashes_of,
}
use atlas_engine.Simulation.Kernel.Refused.{step_stalled, step-ready}

module _ {T S : Type 0} where
  abbrev pub with_stalls : ℕ → Kernel T S → Kernel T S
  with_stalls n k = record k { stalled_steps = n }

  -- The gate as its owner has marked it since.
  abbrev pub reopened : Option TurnGate → Kernel T S → Kernel T S
  reopened gate k = record k { config = record k.config { gate = gate } }

  abbrev beside : {A : Type 0} → ℕ → Kernel T S × A → Kernel T S × A
  beside n out = (with_stalls n out.0, out.1)

  abbrev behind : {A : Type 0} → ℕ → A × Kernel T S → A × Kernel T S
  behind n out = (out.0, with_stalls n out.1)

  counted-with_stalls :
      (n : ℕ) (k : Kernel T S) (r : TickReport) (c : Command) (out : Result Status × World T)
      → counted (with_stalls n k) r c out ≡ beside n (counted k r c out)
  unfolding counted
  counted-with_stalls n k r c (err e, world) = refl
  counted-with_stalls n k r c (ok (err e), world) = refl
  counted-with_stalls n k r c (ok (ok done), world) = refl

  run_command-with_stalls :
      (n : ℕ) (k : Kernel T S) (r : TickReport) (c : Command)
      → run_command (with_stalls n k) r c ≡ beside n (run_command k r c)
  unfolding run_command late
  run_command-with_stalls n k r c = go (ltb c.target k.tick)
    where
      go :
          (b : Bool)
          → if◌then◌else◌ {A = Kernel T S × TickReport} b
              (late (with_stalls n k) r)
              (counted (with_stalls n k) r c (apply k.commands k.world c))
            ≡ beside n (
                if◌then◌else◌ {A = Kernel T S × TickReport} b
                  (late k r)
                  (counted k r c (apply k.commands k.world c)))
      go true = refl
      go false = counted-with_stalls n k r c (apply k.commands k.world c)

  run_commands-with_stalls :
      (n : ℕ) (k : Kernel T S) (r : TickReport) (cs : List Command)
      → run_commands (with_stalls n k) r cs ≡ beside n (run_commands k r cs)
  unfolding run_commands
  run_commands-with_stalls n k r [] = refl
  run_commands-with_stalls n k r (c ∷ cs) =
      ap (λ out. run_commands out.0 out.1 cs) (run_command-with_stalls n k r c)
      ∙ run_commands-with_stalls n (run_command k r c).0 (run_command k r c).1 cs

module _ {T S : Type 0} (ops : Table T) (phases : Phases T S) where
  closed-with_stalls :
      (n : ℕ) (k : Kernel T S) (r : TickReport) (hashes : Result (List SystemHash))
      → closed ops phases (with_stalls n k) r hashes ≡ behind n (closed ops phases k r hashes)
  unfolding closed
  closed-with_stalls n k r (err e) = refl
  closed-with_stalls n k r (ok hashes) = refl

  conclude-with_stalls :
      (n : ℕ) (k : Kernel T S) (r : TickReport)
      → conclude ops phases (with_stalls n k) r ≡ behind n (conclude ops phases k r)
  unfolding conclude hashes_of
  conclude-with_stalls n k r = closed-with_stalls n k r (hashes_of ops phases k)

  run_tick-with_stalls :
      (n : ℕ) (k : Kernel T S)
      → run_tick ops phases (with_stalls n k) ≡ behind n (run_tick ops phases k)
  unfolding run_tick run_systems
  run_tick-with_stalls n k =
      let drained = drain k.commands k.tick in
      let begun : Kernel T S = record k { commands = drained.1 } in
      let out = run_commands begun (empty_report k.tick) drained.0 in
      ap (λ o. conclude ops phases (run_systems ops phases o.0) o.1)
        (run_commands-with_stalls n begun (empty_report k.tick) drained.0)
      ∙ conclude-with_stalls n (run_systems ops phases out.0) out.1

  -- The kernel after a number of steps.
  pub waited : ℕ → Kernel T S → Kernel T S
  waited zero k = k
  waited (suc n) k = (step ops phases (waited n k)).1

  waited_lem :
      (n : ℕ) (k : Kernel T S)
      → k.schedule.finalised ≡ true
      → ready k ≡ false
      → (m : ℕ) × (waited n k ≡ with_stalls m k)
  unfolding waited ready
  waited_lem zero k e h = (k.stalled_steps, refl)
  waited_lem (suc n) k e h =
      let (m, same) = waited_lem n k e h in
      (
        u64 (m + 1),
        ap (λ k'. (step ops phases k').1) same
            ∙ ap (λ out. out.1) (step_stalled ops phases (with_stalls m k) e h),
      )

  -- While the gate is shut, steps change nothing but their own count: however many there were, once
  -- the gate is open the tick reports what it would have reported without them, and leaves the same
  -- kernel but for that count.
  pub step-waited :
      (n : ℕ) (k : Kernel T S) (gate : Option TurnGate)
      → k.schedule.finalised ≡ true
      → ready k ≡ false
      → gate_ready gate k.tick ≡ true
      → ((step ops phases (reopened gate (waited n k))).0 ≡ (step ops phases (reopened gate k)).0)
        × (with_stalls 0 (step ops phases (reopened gate (waited n k))).1
            ≡ with_stalls 0 (step ops phases (reopened gate k)).1)
  unfolding ready
  step-waited n k gate e h opened =
      let (m, same) = waited_lem n k e h in
      let runs : step ops phases (reopened gate k) ≡ run_tick ops phases (reopened gate k) =
        step-ready ops phases (reopened gate k) e opened in
      let late : step ops phases (reopened gate (waited n k))
          ≡ behind m (run_tick ops phases (reopened gate k)) =
        ap (λ k'. step ops phases (reopened gate k')) same
        ∙ (step-ready ops phases (with_stalls m (reopened gate k)) e opened
            ∙ run_tick-with_stalls m (reopened gate k)) in
      (
        ap (λ out. out.0) late ∙ ap (λ out. out.0) (sym runs),
        ap (λ out. with_stalls 0 out.1) late ∙ ap (λ out. with_stalls 0 out.1) (sym runs),
      )
