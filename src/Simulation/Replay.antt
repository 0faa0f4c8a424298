-- ===== src/Simulation/Replay.antt =====
-- engine/simulation/include/atlas/simulation/replay.hpp and src/replay.cpp: a recording of what
-- changed a simulation, as bytes and as it is made.
pub mod Decode
pub mod Recorder
pub mod Play
pub mod Printed
pub mod Loads
pub mod RoundTrip
mod Tests
use atlas_engine.Base.{
  ℕ, zero, suc, ◌+◌, ◌%◌, Bool, true, false, not, ◌&&◌, List, [], ◌∷◌, ◌++◌, ltb, leb, ◌==◌, length,
  if◌then◌else◌, u64,
}
use atlas_engine.Core.Error.{
  Result, Status, ok, err, guard, ◌>>=◌, ◌>>◌, exhausted, malformed_data, version_mismatch,
}
use atlas_engine.Simulation.SaveStream.{Bytes, write_u32, write_u64}
use atlas_engine.Simulation.Command.{Command}
use atlas_engine.Simulation.CommandCodec.{write_command}
use atlas_engine.Simulation.Kernel.{SystemHash, TickReport}

abbrev pub replay_magic : ℕ
replay_magic = 0x5941_4C50_5241_5600

abbrev pub replay_format_version : ℕ
replay_format_version = 1

abbrev pub max_replay_commands : ℕ
max_replay_commands = 10_000_000

abbrev pub max_replay_checkpoints : ℕ
max_replay_checkpoints = 10_000_000

abbrev pub max_replay_system_hashes : ℕ
max_replay_system_hashes = 4096

abbrev pub checkpoint_overhead : ℕ
checkpoint_overhead = 8 + 8 + 8

pub record ReplayLimits : Type 0 where
  pub max_commands : ℕ
  pub max_checkpoints : ℕ

pub record HashCheckpoint : Type 0 where
  pub tick : ℕ
  pub state_hash : ℕ
  pub system_hashes : List SystemHash

pub record Replay : Type 0 where
  pub format_version : ℕ
  pub hash_algorithm_version : ℕ
  pub seed : ℕ
  pub first_tick : ℕ
  pub tick_count : ℕ
  pub initial_state_hash : ℕ
  pub commands : List Command
  pub checkpoints : List HashCheckpoint

unfoldable pub hashes_fit : List HashCheckpoint → Bool
hashes_fit [] = true
hashes_fit (c ∷ cs) = leb (length c.system_hashes) max_replay_system_hashes && hashes_fit cs

unfoldable pub check_writable : Replay → Status
unfolding hashes_fit
check_writable r = do
  guard (leb (length r.commands) max_replay_commands) exhausted
  guard (leb (length r.checkpoints) max_replay_checkpoints) exhausted
  guard (hashes_fit r.checkpoints) exhausted

-- A loop that writes each element.
unfoldable pub write_all : {A : Type 0} → (Bytes → A → Bytes) → Bytes → List A → Bytes
write_all write out [] = out
write_all write out (x ∷ xs) = write_all write (write out x) xs

unfoldable pub write_system_hash : Bytes → SystemHash → Bytes
write_system_hash out h = write_u64 (write_u32 out h.system) h.hash

unfoldable pub write_checkpoint : Bytes → HashCheckpoint → Bytes
unfolding write_all write_system_hash
write_checkpoint out c =
    let out = write_u64 out c.tick in
    let out = write_u64 out c.state_hash in
    let out = write_u64 out (length c.system_hashes) in
    write_all write_system_hash out c.system_hashes

unfoldable pub write_replay : Replay → Bytes
unfolding write_all write_checkpoint
write_replay r =
    let out = write_u64 [] replay_magic in
    let out = write_u32 out r.format_version in
    let out = write_u32 out r.hash_algorithm_version in
    let out = write_u64 out r.seed in
    let out = write_u64 out r.first_tick in
    let out = write_u64 out r.tick_count in
    let out = write_u64 out r.initial_state_hash in
    let out = write_u64 out (length r.commands) in
    let out = write_all write_command out r.commands in
    let out = write_u64 out (length r.checkpoints) in write_all write_checkpoint out r.checkpoints

unfoldable pub to_bytes : Replay → Result Bytes
unfolding check_writable write_replay
to_bytes r = check_writable r >> ok (write_replay r)
