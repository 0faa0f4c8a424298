-- ===== src/Simulation/Kernel.antt =====
-- engine/simulation/include/atlas/simulation/kernel.hpp and src/kernel.cpp: one tick of a simulation.
-- The kernel's pointers are fields here: the world, the schedule, the commands and the gate. The
-- functions of a system belong to the game, so they are parameters, with the storage that the systems
-- own between compute and commit as one state. A batch runs in the order of its list, as it does
-- without a worker pool; `System.has_compute` tells whether a system's function is null.
pub mod Refused
pub mod Stalls
pub mod Accounting
pub mod Advance
mod Tests
use atlas_engine.Base.{
  ℕ, zero, suc, ◌+◌, Bool, true, false, not, Option, none, some, List, [], ◌∷◌, ◌++◌, ltb,
  if◌then◌else◌, get_elem?, u64,
}
use atlas_engine.Core.Error.{Result, Status, ok, err, ◌>>=◌, invalid_argument, unavailable}
use atlas_engine.Core.Hash.{Hasher, fresh, value}
use atlas_engine.Simulation.Command.{Command, CommandQueue, drain, apply}
use atlas_engine.Simulation.Schedule.{System, Schedule}
use atlas_engine.Simulation.TurnGate as TurnGate
use atlas_engine.Simulation.TurnGate.{TurnGate, unbounded_horizon}
use atlas_engine.Simulation.World as World
use atlas_engine.Simulation.World.{World, Table, add_word, table_hash}

pub record SystemHash : Type 0 where
  pub system : ℕ
  pub hash : ℕ

pub record TickReport : Type 0 where
  pub tick : ℕ
  pub state_hash : ℕ
  pub commands_applied : ℕ
  pub commands_late : ℕ
  pub commands_invalid : ℕ
  pub commands_declined : ℕ
  pub system_hashes : List SystemHash
  pub applied_commands : List Command

pub record KernelConfig : Type 0 where
  pub seed : ℕ
  pub record_system_hashes : Bool
  pub record_applied_commands : Bool
  pub gate : Option TurnGate

pub record ComputeContext (T : Type 0) : Type 0 where
  pub world : World T
  pub tick : ℕ
  pub seed : ℕ

-- What the systems do, by their index, with the storage `S` that they own.
pub record Phases (T S : Type 0) : Type 0 where
  pub compute : ℕ → ComputeContext T → S → S
  pub commit : ℕ → ℕ → S → World T → World T × S

pub record Kernel (T S : Type 0) : Type 0 where
  pub world : World T
  pub scratch : S
  pub schedule : Schedule
  pub commands : CommandQueue (World T)
  pub config : KernelConfig
  pub tick : ℕ
  pub late_commands : ℕ
  pub invalid_commands : ℕ
  pub declined_commands : ℕ
  pub stalled_steps : ℕ

pub commands_rejected : TickReport → ℕ
commands_rejected report = report.commands_late + report.commands_invalid

pub empty_report : ℕ → TickReport
empty_report tick = record {
  tick = tick;
  state_hash = 0;
  commands_applied = 0;
  commands_late = 0;
  commands_invalid = 0;
  commands_declined = 0;
  system_hashes = [];
  applied_commands = [];
}

abbrev pub gate_ready : Option TurnGate → ℕ → Bool
gate_ready none tick = true
gate_ready (some gate) tick = TurnGate.ready gate tick

module _ {T S : Type 0} where
  unfoldable pub ready : Kernel T S → Bool
  ready k = gate_ready k.config.gate k.tick

  pub ready_horizon : Kernel T S → ℕ
  ready_horizon k = elim k.config.gate [
    | none ↦ unbounded_horizon
    | some gate ↦ TurnGate.ready_horizon gate
  ]

  pub late : Kernel T S → TickReport → Kernel T S × TickReport
  late k report = (
    record k { late_commands = u64 (k.late_commands + 1) },
    record report { commands_late = report.commands_late + 1 },
  )

  -- What an attempt to apply a command counts as.
  pub counted :
      Kernel T S → TickReport → Command → Result Status × World T → Kernel T S × TickReport
  counted k report c (err e, world) = (
    record k { world = world; invalid_commands = u64 (k.invalid_commands + 1) },
    record report { commands_invalid = report.commands_invalid + 1 },
  )
  counted k report c (ok (err e), world) = (
    record k { world = world; declined_commands = u64 (k.declined_commands + 1) },
    record report { commands_declined = report.commands_declined + 1 },
  )
  counted k report c (ok (ok done), world) = (
    record k { world = world },
    record report {
      commands_applied = report.commands_applied + 1;
      applied_commands =
          if k.config.record_applied_commands
          then report.applied_commands ++ c ∷ []
          else report.applied_commands;
    },
  )

  pub run_command : Kernel T S → TickReport → Command → Kernel T S × TickReport
  unfolding late counted
  run_command k report c =
      if ltb c.target k.tick then late k report else counted k report c (apply k.commands k.world c)

  pub run_commands : Kernel T S → TickReport → List Command → Kernel T S × TickReport
  unfolding run_command
  run_commands k report [] = (k, report)
  run_commands k report (c ∷ cs) = let out = run_command k report c in run_commands out.0 out.1 cs

module _ {T S : Type 0} (ops : Table T) (phases : Phases T S) where
  pub run_one : List System → ComputeContext T → S → ℕ → S
  run_one systems context scratch index = elim (get_elem? systems index) [
    | none ↦ scratch
    | some system ↦ if system.has_compute then phases.compute index context scratch else scratch
  ]

  pub run_batch : List System → ComputeContext T → S → List ℕ → S
  unfolding run_one
  run_batch systems context scratch [] = scratch
  run_batch systems context scratch (index ∷ batch) =
      run_batch systems context (run_one systems context scratch index) batch

  pub compute : List System → ComputeContext T → S → List (List ℕ) → S
  unfolding run_batch
  compute systems context scratch [] = scratch
  compute systems context scratch (batch ∷ batches) =
      compute systems context (run_batch systems context scratch batch) batches

  -- The systems from an index on, in their order.
  pub commit : ℕ → List System → ℕ → World T × S → World T × S
  commit tick [] index out = out
  commit tick (system ∷ rest) index out =
      commit tick rest (suc index)
        (if system.has_commit then phases.commit index tick out.1 out.0 else out)

  pub hash_writes : World T → Hasher → List ℕ → Result Hasher
  hash_writes world hasher [] = ok hasher
  hash_writes world hasher (id ∷ writes) =
      table_hash ops world id >>= λ hashed. hash_writes world (add_word 8 hasher hashed) writes

  -- A system that writes nothing has no sub-hash.
  pub system_hashes : World T → List System → Result (List SystemHash)
  unfolding hash_writes
  system_hashes world [] = ok []
  system_hashes world (system ∷ rest) = elim system.writes [
    | [] ↦ system_hashes world rest
    | id ∷ writes ↦ hash_writes world fresh (id ∷ writes) >>= λ hasher.
        system_hashes world rest >>= λ hashes.
        ok (record { system = system.id; hash = value hasher } ∷ hashes)
  ]

  -- The two phases of the systems, on a kernel whose commands have been applied.
  pub run_systems : Kernel T S → Kernel T S
  unfolding compute commit
  run_systems k =
      let context : ComputeContext T = record {
        world = k.world;
        tick = k.tick;
        seed = k.config.seed;
      } in
      let scratch = compute k.schedule.systems context k.scratch k.schedule.batches in
      let out = commit k.tick k.schedule.systems 0 (k.world, scratch) in
      record k { world = out.0; scratch = out.1 }

  pub hashes_of : Kernel T S → Result (List SystemHash)
  unfolding system_hashes
  hashes_of k =
      if k.config.record_system_hashes then system_hashes k.world k.schedule.systems else ok []

  -- The report is closed and the tick moves on, unless a table that a system writes is missing.
  pub closed : Kernel T S → TickReport → Result (List SystemHash) → Result TickReport × Kernel T S
  closed k report (err e) = (err e, k)
  closed k report (ok hashes) = (
    ok (record report { state_hash = World.hash ops k.world; system_hashes = hashes }),
    record k { tick = u64 (k.tick + 1) },
  )

  pub conclude : Kernel T S → TickReport → Result TickReport × Kernel T S
  unfolding hashes_of closed
  conclude k report = closed k report (hashes_of k)

  -- The tick once nothing refuses it.
  pub run_tick : Kernel T S → Result TickReport × Kernel T S
  unfolding run_commands run_systems conclude empty_report
  run_tick k =
      let drained = drain k.commands k.tick in
      let out = run_commands (record k { commands = drained.1 }) (empty_report k.tick) drained.0 in
      conclude (run_systems out.0) out.1

  pub step : Kernel T S → Result TickReport × Kernel T S
  unfolding ready run_tick
  step k =
      if not k.schedule.finalised
      then (err invalid_argument, k)
      else if not (ready k)
      then (err unavailable, record k { stalled_steps = u64 (k.stalled_steps + 1) })
      else run_tick k

  -- The ticks after the first have run, unless one was refused.
  pub run : ℕ → Kernel T S → Result (List TickReport) × Kernel T S
  unfolding step
  run zero k = (ok [], k)
  run (suc count) k =
      let first = step k in
      let rest = run count first.1 in
      elim first.0 [
        | err e ↦ (err e, first.1)
        | ok report ↦ (rest.0 >>= λ reports. ok (report ∷ reports), rest.1)
      ]
