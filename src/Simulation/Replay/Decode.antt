-- ===== src/Simulation/Replay/Decode.antt =====
-- `Replay::from_bytes`.
use atlas_engine.Base.{not, ltb, ◌==◌}
use atlas_engine.Core.Error.{Result, ok, err, malformed_data, version_mismatch}
use atlas_engine.Core.Hash.{hash_algorithm_version}
use atlas_engine.Simulation.SaveStream.{
  Bytes, SaveReader, Read, ◌>>=◌, return, read_u32, read_u64, read_count, read_all, require,
  expect_end,
}
use atlas_engine.Simulation.CommandCodec.{read_command, command_overhead}
use atlas_engine.Simulation.Kernel.{SystemHash}
use atlas_engine.Simulation.Replay.{
  Replay, HashCheckpoint, replay_magic, replay_format_version, max_replay_commands,
  max_replay_checkpoints, max_replay_system_hashes, checkpoint_overhead,
}

unfoldable pub read_replay_hash : Read SystemHash
read_replay_hash = do
  system ← read_u32
  hash ← read_u64
  return (record { system = system; hash = hash })

unfoldable pub read_checkpoint : Read HashCheckpoint
unfolding read_replay_hash
read_checkpoint = do
  tick ← read_u64
  state_hash ← read_u64
  count ← read_count max_replay_system_hashes 12
  system_hashes ← read_all read_replay_hash count
  return (record { tick = tick; state_hash = state_hash; system_hashes = system_hashes })

-- A newer format and an older one are refused by two tests.
unfoldable pub read_replay : Read Replay
unfolding read_checkpoint
read_replay = do
  magic ← read_u64
  _ ← require (magic == replay_magic) malformed_data
  format ← read_u32
  _ ← require (not (ltb replay_format_version format)) version_mismatch
  _ ← require (not (ltb format replay_format_version)) version_mismatch
  algorithm ← read_u32
  _ ← require (algorithm == hash_algorithm_version) version_mismatch
  seed ← read_u64
  first_tick ← read_u64
  tick_count ← read_u64
  initial_state_hash ← read_u64
  command_count ← read_count max_replay_commands command_overhead
  commands ← read_all read_command command_count
  checkpoint_count ← read_count max_replay_checkpoints checkpoint_overhead
  checkpoints ← read_all read_checkpoint checkpoint_count
  return (record {
    format_version = format;
    hash_algorithm_version = algorithm;
    seed = seed;
    first_tick = first_tick;
    tick_count = tick_count;
    initial_state_hash = initial_state_hash;
    commands = commands;
    checkpoints = checkpoints;
  })

-- Nothing may follow the recording.
unfoldable pub to_end : Result Replay × SaveReader → Result Replay
to_end (ok r, reader) = elim (expect_end reader) [ ok _ ↦ ok r | err e ↦ err e ]
to_end (err e, reader) = err e

unfoldable pub from_bytes : Bytes → Result Replay
unfolding read_replay to_end
from_bytes bytes = to_end (read_replay (record { bytes = bytes; offset = 0 }))
