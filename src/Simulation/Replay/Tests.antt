-- ===== src/Simulation/Replay/Tests.antt =====
-- A short recording.
use atlas_engine.Base.{ℕ, ◌≡◌, ◌≤◌, refl, true, none, some, List, [], ◌∷◌, arith, ==_refl}
use atlas_engine.Base.OrderedMap.{find}
use atlas_engine.Core.Error.{Result, ok, err}
use atlas_engine.Simulation.Command.{clear}
use atlas_engine.Simulation.Schedule.{tables_exist}
use atlas_engine.Simulation.World as World
use atlas_engine.Simulation.World.{Table, contains}
use atlas_engine.Simulation.Kernel.{Kernel, Phases, TickReport, ready, step}
use atlas_engine.Simulation.Kernel.Advance.{Keeps, KeepsTables, step-advances}
use atlas_engine.Simulation.Replay.{
  Replay, HashCheckpoint, ReplayLimits, to_bytes, check_writable, hashes_fit, write_replay,
}
use atlas_engine.Simulation.Replay.Decode.{from_bytes}
use atlas_engine.Simulation.Replay.Recorder.{
  Call, commands, tick, new_recorder, made_all, IsBounded, made_all-new_recorder-IsBounded,
}
use atlas_engine.Simulation.Replay.Play.{
  ReplayResult, Stage, play, play_queued, play_ticks, queue_all, kernel_for, compared, after_step,
  skip_passed, nothing_run, play-ticks_run,
}
use atlas_engine.Simulation.Replay.Loads.{payloads_load}
use atlas_engine.Simulation.Replay.RoundTrip.{loaded, IsReplay, from_bytes-to_bytes}

abbrev recording : Replay
recording = record {
  format_version = 1;
  hash_algorithm_version = 2;
  seed = 7;
  first_tick = 0;
  tick_count = 2;
  initial_state_hash = 11;
  commands = record { target = 1; source = 3; sequence = 5; type = 77; payload = 1 ∷ 2 ∷ [] } ∷ [];
  checkpoints =
      record { tick = 1; state_hash = 13; system_hashes = record { system = 4; hash = 17 } ∷ [] }
      ∷ [];
}

is_writable : to_bytes recording ≡ ok (write_replay recording)
unfolding to_bytes check_writable hashes_fit
is_writable = refl

recording-IsReplay : IsReplay recording
recording-IsReplay = record {
  format = refl;
  algorithm = refl;
  seed = omega arith;
  first_tick = omega arith;
  tick_count = omega arith;
  initial_state_hash = omega arith;
  commands = (
    record {
      target = omega arith;
      source = omega arith;
      sequence = omega arith;
      type = omega arith;
      payload = omega arith;
    },
    tt,
  );
  checkpoints = (
    record {
      tick = omega arith;
      state_hash = omega arith;
      system_hashes = ((omega arith, omega arith), tt);
    },
    tt,
  );
}

from_bytes-to_bytes_example : from_bytes (write_replay recording) ≡ loaded recording
from_bytes-to_bytes_example = from_bytes-to_bytes recording recording-IsReplay is_writable

loaded-recording : loaded recording ≡ ok recording
unfolding loaded payloads_load
loaded-recording = refl

abbrev report : TickReport
report = record {
  tick = 0;
  state_hash = 13;
  commands_applied = 0;
  commands_late = 0;
  commands_invalid = 0;
  commands_declined = 0;
  system_hashes = [];
  applied_commands = [];
}

abbrev calls : List Call
calls = tick report ∷ commands [] ∷ tick report ∷ tick report ∷ []

abbrev limits : ReplayLimits
limits = record { max_commands = 4; max_checkpoints = 1 }

made_all-new_recorder-IsBounded_example : IsBounded (made_all (new_recorder 7 0 11 2 limits) calls)
made_all-new_recorder-IsBounded_example = made_all-new_recorder-IsBounded 7 0 11 2 limits calls

-- One tick of a world without systems.
abbrev table : Table ℕ
table = record { row_count = λ t. 1; hash_into = λ t h. h; clear = λ t. 0 }

abbrev phases : Phases ℕ ℕ
phases = record { compute = λ index context s. s; commit = λ index tick s w. (w, s) }

abbrev stage : Stage ℕ ℕ
stage = record {
  world = record { entries = []; ids = [] };
  scratch = 0;
  schedule = record { systems = []; batches = []; finalised = true };
  commands = record { handlers = []; next_sequences = []; pending = [] };
}

abbrev one_tick : Replay
one_tick = record {
  format_version = 1;
  hash_algorithm_version = 2;
  seed = 7;
  first_tick = 4;
  tick_count = 1;
  initial_state_hash = World.hash table stage.world;
  commands = [];
  checkpoints = [];
}

no_handler : {A : Type 0} (type : ℕ) (h : A) → find type [] ≡ some h → ⊥
unfolding find
no_handler type h e = cc

stage_keeps : KeepsTables phases (clear stage.commands)
unfolding Keeps clear
stage_keeps = record {
  commit = λ index tick s w id there. there;
  handlers = λ type h w context payload found. absurd (no_handler type h found);
}

stage_tables : tables_exist (contains stage.world) [] ≡ true
unfolding tables_exist
stage_tables = refl

stage-ready : ready (kernel_for one_tick (record stage { commands = clear stage.commands })) ≡ true
unfolding ready kernel_for
stage-ready = refl

advanced :
    (r : TickReport) × ((step table phases
        (kernel_for one_tick (record stage { commands = clear stage.commands }))).0
      ≡ ok r)
unfolding kernel_for
advanced =
    let all =
      step-advances table phases
        (kernel_for one_tick (record stage { commands = clear stage.commands })) stage_keeps refl
        stage_tables stage-ready in
    (all.0, all.1)

abbrev played : ReplayResult
played = record { ticks_run = 1; checkpoints_checked = 0; divergence = none }

after_advance :
    (next : Kernel ℕ ℕ → ReplayResult → List HashCheckpoint → Result ReplayResult × Kernel ℕ ℕ)
    (stepped : Result TickReport × Kernel ℕ ℕ) (r : TickReport)
    → stepped.0 ≡ ok r
    → (after_step next nothing_run [] stepped).0 ≡ (next stepped.1 played []).0
unfolding after_step compared skip_passed nothing_run
after_advance next (ok report, k) r e = refl
after_advance next (err x, k) r e = absurd (cc)

plays : (play table phases one_tick stage).0 ≡ ok played
unfolding play play_queued play_ticks queue_all
plays = rw (==_refl (World.hash table stage.world)) (
    after_advance (play_ticks table phases 0)
      (step table phases (kernel_for one_tick (record stage { commands = clear stage.commands })))
      advanced.0 advanced.1)

play-ticks_run_example : (played.ticks_run ≤ 1) × (played.divergence ≡ none → played.ticks_run ≡ 1)
play-ticks_run_example = play-ticks_run table phases one_tick stage played (omega arith) plays
