-- ===== src/Simulation/Replay/Recorder.antt =====
-- `ReplayRecorder`, and that a recording never outgrows its limits.
use atlas_engine.Base.{
  ℕ, ◌+◌, ◌%◌, ◌<◌, ◌≤◌, ◌≡◌, inl, inr, true, false, Bool-cases, ◌&&◌, List, [], ◌∷◌, ◌++◌, ltb,
  leb, ◌==◌, length, length-append, if◌then◌else◌, u64, arith,
}
use atlas_engine.Core.Error.{Status, ok, err, exhausted}
use atlas_engine.Core.Hash.{hash_algorithm_version}
use atlas_engine.Simulation.Command.{Command}
use atlas_engine.Simulation.Kernel.{TickReport}
use atlas_engine.Simulation.Replay.{Replay, ReplayLimits, replay_format_version}

pub record ReplayRecorder : Type 0 where
  pub replay : Replay
  pub interval : ℕ
  pub ticks_recorded : ℕ
  pub limits : ReplayLimits

zero_rest : (n : ℕ) → (0 % n == 0) ≡ true
zero_rest n = ground arith

pub new_recorder : ℕ → ℕ → ℕ → ℕ → ReplayLimits → ReplayRecorder
new_recorder seed first_tick initial_state_hash checkpoint_interval limits = record {
  replay = record {
    format_version = replay_format_version;
    hash_algorithm_version = hash_algorithm_version;
    seed = seed;
    first_tick = first_tick;
    tick_count = 0;
    initial_state_hash = initial_state_hash;
    commands = [];
    checkpoints = [];
  };
  interval = if checkpoint_interval == 0 then 1 else checkpoint_interval;
  ticks_recorded = 0;
  limits = limits;
}

-- All of a tick's commands or none.
pub record_commands : ReplayRecorder → List Command → Status × ReplayRecorder
record_commands r commands =
    if ltb r.limits.max_commands (length r.replay.commands + length commands)
    then (err exhausted, r)
    else (ok tt, record r { replay = record r.replay { commands = r.replay.commands ++ commands } })

pub add_tick : ReplayRecorder → TickReport → ReplayRecorder
add_tick r report =
    let counted : ReplayRecorder = record r {
      replay = record r.replay { tick_count = u64 (r.replay.tick_count + 1) };
      ticks_recorded = u64 (r.ticks_recorded + 1);
    } in
    if counted.ticks_recorded % r.interval == 0
    then record counted {
      replay = record counted.replay {
        checkpoints =
            r.replay.checkpoints
            ++ record {
              tick = report.tick;
              state_hash = report.state_hash;
              system_hashes = report.system_hashes;
            }
              ∷ [];
      };
    }
    else counted

pub record_tick : ReplayRecorder → TickReport → Status × ReplayRecorder
unfolding add_tick
record_tick r report =
    if r.ticks_recorded % r.interval == 0
      && leb r.limits.max_checkpoints (length r.replay.checkpoints)
    then (err exhausted, r)
    else (ok tt, add_tick r report)

-- A call of the recorder.
pub data Call : Type 0 where
  commands : List Command → Call
  tick : TickReport → Call

pub made : ReplayRecorder → Call → ReplayRecorder
unfolding record_commands record_tick
made r (commands cs) = (record_commands r cs).1
made r (tick report) = (record_tick r report).1

pub made_all : ReplayRecorder → List Call → ReplayRecorder
unfolding made
made_all r [] = r
made_all r (c ∷ cs) = made_all (made r c) cs

-- Inside an interval there is room for the checkpoint at its end.
pub record IsBounded (r : ReplayRecorder) : Type 0 where
  pub commands : length r.replay.commands ≤ r.limits.max_commands
  pub checkpoints : length r.replay.checkpoints ≤ r.limits.max_checkpoints
  pub room :
      (r.ticks_recorded % r.interval == 0) ≡ false
      → length r.replay.checkpoints < r.limits.max_checkpoints

record_commands-IsBounded :
    (r : ReplayRecorder) (cs : List Command) → IsBounded r → IsBounded (record_commands r cs).1
unfolding record_commands
record_commands-IsBounded r cs b =
    elim (Bool-cases (ltb r.limits.max_commands (length r.replay.commands + length cs))) [
      | inl full ↦ rw full b
      | inr fits ↦ rw fits (record {
        commands = ground (arith, length-append r.replay.commands cs);
        checkpoints = b.checkpoints;
        room = b.room;
      })
    ]

add_tick-IsBounded :
    (r : ReplayRecorder) (report : TickReport)
    → IsBounded r
    → length r.replay.checkpoints < r.limits.max_checkpoints
    → IsBounded (add_tick r report)
unfolding add_tick
add_tick-IsBounded r report b h = elim (Bool-cases (u64 (r.ticks_recorded + 1) % r.interval == 0)) [
  | inl due ↦ rw due (record {
    commands = b.commands;
    checkpoints = omega (
      arith,
      length-append r.replay.checkpoints (
          record {
            tick = report.tick;
            state_hash = report.state_hash;
            system_hashes = report.system_hashes;
          }
          ∷ []),
    );
    room = λ not_due. absurd (cc (due, not_due));
  })
  | inr other ↦
      rw other (record { commands = b.commands; checkpoints = b.checkpoints; room = λ e. h })
]

record_tick-IsBounded :
    (r : ReplayRecorder) (report : TickReport) → IsBounded r → IsBounded (record_tick r report).1
unfolding record_tick
record_tick-IsBounded r report b = elim (Bool-cases (r.ticks_recorded % r.interval == 0)) [
  | inl starts ↦ elim (Bool-cases (leb r.limits.max_checkpoints (length r.replay.checkpoints))) [
    | inl full ↦ rw (starts, full) b
    | inr room ↦ rw (starts, room) (add_tick-IsBounded r report b (ground arith))
  ]
  | inr inside ↦ rw inside (add_tick-IsBounded r report b (b.room inside))
]

made_all-IsBounded : (r : ReplayRecorder) (cs : List Call) → IsBounded r → IsBounded (made_all r cs)
unfolding made_all made
made_all-IsBounded r [] b = b
made_all-IsBounded r (commands c ∷ cs) b =
    made_all-IsBounded (record_commands r c).1 cs (record_commands-IsBounded r c b)
made_all-IsBounded r (tick t ∷ cs) b =
    made_all-IsBounded (record_tick r t).1 cs (record_tick-IsBounded r t b)

-- Whatever is recorded, in whatever order, the recording holds no more commands and no more
-- checkpoints than its limits: the test for a checkpoint comes at the start of its interval, and
-- makes room for the one at its end.
pub made_all-new_recorder-IsBounded :
    (seed first_tick initial_state_hash interval : ℕ) (limits : ReplayLimits) (calls : List Call)
    → IsBounded (made_all (new_recorder seed first_tick initial_state_hash interval limits) calls)
unfolding new_recorder
made_all-new_recorder-IsBounded seed first_tick initial_state_hash interval limits calls =
    made_all-IsBounded _ calls (record {
      commands = omega arith;
      checkpoints = omega arith;
      room = λ e. absurd (cc (e, zero_rest (if interval == 0 then 1 else interval)));
    })
