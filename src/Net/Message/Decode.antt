-- ===== src/Net/Message/Decode.antt =====
-- Reading a message.
use atlas_engine.Base.{
  ℕ, zero, suc, ◌+◌, Bool, Option, none, some, List, [], ◌∷◌, ltb, ◌==◌, length, if◌then◌else◌,
}
use atlas_engine.Core.Error.{Result, ok, err, malformed_data, version_mismatch}
use atlas_engine.Simulation.SaveStream.{
  Bytes, SaveReader, Read, ◌>>=◌, return, read_u32, read_u64, read_string, read_count, expect_end,
  require, or_refuse, read_all,
}
use atlas_engine.Simulation.CommandCodec.{read_command, command_overhead}
use atlas_engine.Simulation.Kernel.{SystemHash}
use atlas_engine.Net.Protocol.{
  MessageType, hello, welcome, turn, hash_check, bye, finish, drop, known_type, known_reason,
  protocol_version, net_magic, max_peers, max_commands_per_turn, max_system_hashes_per_check,
  max_message_bytes, max_build_id_bytes, max_bye_detail_bytes,
}
use atlas_engine.Net.Message.{
  Message, says_hello, says_welcome, says_turn, says_hash_check, says_bye, says_finish, says_drop,
}

abbrev pub system_hash_bytes : ℕ
system_hash_bytes = 4 + 8

unfoldable pub read_header : Read MessageType
read_header = do
  magic ← read_u64
  _ ← require (magic == net_magic) malformed_data
  version ← read_u32
  _ ← require (version == protocol_version) version_mismatch
  type ← read_u32
  or_refuse (known_type type)

unfoldable pub read_hello : Read Message
read_hello = do
  hash_version ← read_u32
  save_version ← read_u32
  replay_version ← read_u32
  build_id ← read_string max_build_id_bytes
  golden_final_state ← read_u64
  golden_all_ticks ← read_u64
  seed ← read_u64
  start_tick ← read_u64
  initial_state_hash ← read_u64
  tick_rate ← read_u32
  delay ← read_u32
  return (
      says_hello (record {
        hash_algorithm_version = hash_version;
        save_format_version = save_version;
        replay_format_version = replay_version;
        build_id = build_id;
        golden_final_state = golden_final_state;
        golden_all_ticks = golden_all_ticks;
        seed = seed;
        start_tick = start_tick;
        initial_state_hash = initial_state_hash;
        tick_rate = tick_rate;
        proposed_delay = delay;
      }))

-- Whether a peer may follow the one read before it, if there is one.
abbrev pub follows : Option ℕ → ℕ → Bool
follows none peer = Bool.true
follows (some last) peer = ltb last peer

unfoldable pub read_peers : ℕ → Option ℕ → Read (List ℕ)
read_peers zero last = return []
read_peers (suc n) last = do
  peer ← read_u32
  _ ← require (follows last peer) malformed_data
  rest ← read_peers n (some peer)
  return (peer ∷ rest)

unfoldable pub read_welcome : Read Message
unfolding read_peers
read_welcome = do
  assigned ← read_u32
  count ← read_count max_peers 4
  peers ← read_peers count none
  agreed_seed ← read_u64
  start_tick ← read_u64
  initial_state_hash ← read_u64
  delay ← read_u32
  return (
      says_welcome (record {
        assigned_source = assigned;
        peers = peers;
        agreed_seed = agreed_seed;
        start_tick = start_tick;
        initial_state_hash = initial_state_hash;
        agreed_delay = delay;
      }))

unfoldable pub read_turn : Read Message
read_turn = do
  tick ← read_u64
  source ← read_u32
  count ← read_count max_commands_per_turn command_overhead
  commands ← read_all read_command count
  return (says_turn (record { tick = tick; source = source; commands = commands }))

unfoldable pub read_system_hash : Read SystemHash
read_system_hash = do
  system ← read_u32
  hash ← read_u64
  return (record { system = system; hash = hash })

unfoldable pub read_hash_check : Read Message
unfolding read_system_hash
read_hash_check = do
  tick ← read_u64
  source ← read_u32
  state_hash ← read_u64
  count ← read_count max_system_hashes_per_check system_hash_bytes
  system_hashes ← read_all read_system_hash count
  return (
      says_hash_check (record {
        tick = tick;
        source = source;
        state_hash = state_hash;
        system_hashes = system_hashes;
      }))

unfoldable pub read_bye : Read Message
read_bye = do
  number ← read_u32
  reason ← or_refuse (known_reason number)
  detail ← read_string max_bye_detail_bytes
  return (says_bye (record { reason = reason; detail = detail }))

unfoldable pub read_finish : Read Message
read_finish = do last_tick ← read_u64; return (says_finish (record { last_tick = last_tick }))

unfoldable pub read_drop : Read Message
read_drop = do
  source ← read_u32
  _ ← require (ltb source max_peers) malformed_data
  turns ← read_u64
  return (says_drop (record { source = source; turns = turns }))

unfoldable pub read_body : MessageType → Read Message
unfolding read_hello read_welcome read_turn read_hash_check read_bye read_finish read_drop
read_body hello = read_hello
read_body welcome = read_welcome
read_body turn = read_turn
read_body hash_check = read_hash_check
read_body bye = read_bye
read_body finish = read_finish
read_body drop = read_drop

unfoldable pub peek_type : Bytes → Result MessageType
unfolding read_header
peek_type bytes = (read_header (record { bytes = bytes; offset = 0 })).0

-- The end of the bytes is wanted behind the body.
unfoldable pub expect_nothing : {A : Type 0} → Result A × SaveReader → Result A
expect_nothing (ok x, r) = elim (expect_end r) [ ok _ ↦ ok x | err e ↦ err e ]
expect_nothing (err e, r) = err e

unfoldable pub decode : Bytes → Result Message
unfolding read_header read_body expect_nothing
decode bytes =
    if ltb max_message_bytes (length bytes)
    then err malformed_data
    else expect_nothing ((read_header >>= read_body) (record { bytes = bytes; offset = 0 }))
