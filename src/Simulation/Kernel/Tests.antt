-- ===== src/Simulation/Kernel/Tests.antt =====
-- A kernel of one table and one system that writes it, with one source of commands.
use atlas_engine.Base.{
  ℕ, ◌+◌, ◌≡◌, refl, subst, inl, inr, true, false, Bool-cases, some, [], ◌∷◌, ◌==◌,
}
use atlas_engine.Base.OrderedMap.{find}
use atlas_engine.Core.Error.{ok}
use atlas_engine.Simulation.Command.{Registered}
use atlas_engine.Simulation.Schedule.{all_in, tables_exist}
use atlas_engine.Simulation.TurnGate as TurnGate
use atlas_engine.Simulation.TurnGate.{TurnGate, no_bits}
use atlas_engine.Simulation.World as World
use atlas_engine.Simulation.World.{World, Table, contains, lower_bound}
use atlas_engine.Simulation.Kernel.{Kernel, TickReport, Phases, ready, gate_ready, step}
use atlas_engine.Simulation.Kernel.Stalls.{step-waited, waited, reopened, with_stalls}
use atlas_engine.Simulation.Kernel.Accounting.{Ran, step-Ran}
use atlas_engine.Simulation.Kernel.Advance.{Keeps, KeepsTables, step-advances}

abbrev numbers : Table ℕ
numbers = record { row_count = λ t. 1; hash_into = λ t h. h; clear = λ t. 0 }

-- The system counts the ticks it has computed and leaves the world.
abbrev phases : Phases ℕ ℕ
phases = record { compute = λ index context s. s + 1; commit = λ index tick s w. (w, s) }

abbrev handler : Registered (World ℕ)
handler = record { validate = λ payload. ok tt; apply = λ w context payload. (ok tt, w) }

abbrev gate : ℕ → TurnGate
gate before = record {
  expected = record { id = 3; complete_before = before; ahead = no_bits } ∷ [];
  ids = 3 ∷ [];
  floor = 0;
}

abbrev kernel : ℕ → Kernel ℕ ℕ
kernel before = record {
  world = record { entries = record { id = 9; name = 120 ∷ []; table = 0 } ∷ []; ids = 9 ∷ [] };
  scratch = 0;
  schedule = record {
    systems =
        record {
          id = 5;
          name = 115 ∷ [];
          reads = [];
          writes = 9 ∷ [];
          has_compute = true;
          has_commit = true;
        }
        ∷ [];
    batches = (0 ∷ []) ∷ [];
    finalised = true;
  };
  commands = record {
    handlers = (1, handler) ∷ [];
    next_sequences = [];
    pending =
        record { target = 4; source = 3; sequence = 0; type = 1; payload = [] }
        ∷ record { target = 2; source = 3; sequence = 1; type = 1; payload = [] }
        ∷ [];
  };
  config = record {
    seed = 0;
    record_system_hashes = true;
    record_applied_commands = true;
    gate = some (gate before);
  };
  tick = 4;
  late_commands = 0;
  invalid_commands = 0;
  declined_commands = 0;
  stalled_steps = 0;
}

some-injective : {A : Type 0} (x y : A) → some x ≡ some y → x ≡ y
some-injective x y e = cc

only_handler :
    (type : ℕ) (h : Registered (World ℕ)) → find type ((1, handler) ∷ []) ≡ some h → handler ≡ h
unfolding find
only_handler type h e = elim (Bool-cases (1 == type)) [
  | inl same ↦ some-injective handler h (cc (rw same at e))
  | inr other ↦ absurd (cc (rw other at e))
]

keeps : KeepsTables phases (kernel 5).commands
unfolding Keeps
keeps = record {
  commit = λ index tick s w id there. there;
  handlers = λ type h w context payload found.
      subst (λ r. Keeps w (r.apply w context payload).1) (only_handler type h found)
        (λ id there. there);
}

kernel_tables : tables_exist (contains (kernel 5).world) (kernel 5).schedule.systems ≡ true
unfolding tables_exist all_in contains World.find lower_bound
kernel_tables = refl

kernel-ready : ready (kernel 5) ≡ true
unfolding ready TurnGate.ready TurnGate.all_past TurnGate.is_empty
kernel-ready = refl

kernel_waits : ready (kernel 4) ≡ false
unfolding ready TurnGate.ready TurnGate.all_past TurnGate.is_empty
kernel_waits = refl

gate_opens : gate_ready (some (gate 5)) 4 ≡ true
unfolding TurnGate.ready TurnGate.all_past TurnGate.is_empty
gate_opens = refl

abbrev Advances : Type 0
Advances =
    (r : TickReport) × ((step numbers phases (kernel 5)).0 ≡ ok r)
    × (r.tick ≡ 4)
    × ((step numbers phases (kernel 5)).1.tick ≡ 5)

advanced : Advances
advanced = step-advances numbers phases (kernel 5) keeps refl kernel_tables kernel-ready

step-advances_example : Advances
step-advances_example =
    step-advances numbers phases (kernel 5) keeps refl kernel_tables kernel-ready

step-Ran_example : Ran numbers phases (kernel 5) advanced.0 (step numbers phases (kernel 5)).1
step-Ran_example = step-Ran numbers phases (kernel 5) advanced.0 advanced.1

step-waited_example :
    ((step numbers phases (reopened (some (gate 5)) (waited numbers phases 2 (kernel 4)))).0
      ≡ (step numbers phases (reopened (some (gate 5)) (kernel 4))).0)
    × (with_stalls 0
          (step numbers phases (reopened (some (gate 5)) (waited numbers phases 2 (kernel 4)))).1
        ≡ with_stalls 0 (step numbers phases (reopened (some (gate 5)) (kernel 4))).1)
step-waited_example =
    step-waited numbers phases 2 (kernel 4) (some (gate 5)) refl kernel_waits gate_opens
