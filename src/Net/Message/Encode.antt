-- ===== src/Net/Message/Encode.antt =====
-- Writing a message. A refusal leaves no bytes, since `encode` drops the writer then.
use atlas_engine.Base.{ℕ, Bool, true, not, ◌&&◌, List, [], ◌∷◌, ltb, length, if◌then◌else◌}
use atlas_engine.Core.Error.{Result, ok, err, exhausted, invalid_argument, ◌>>=◌}
use atlas_engine.Simulation.SaveStream.{Bytes, write_u32, write_u64, write_string}
use atlas_engine.Simulation.Command.{Command, max_payload}
use atlas_engine.Simulation.CommandCodec.{write_command}
use atlas_engine.Simulation.Kernel.{SystemHash}
use atlas_engine.Net.Protocol.{
  MessageType, hello, welcome, turn, hash_check, bye, finish, drop, type_number, reason_number,
  protocol_version, net_magic, max_peers, max_commands_per_turn, max_system_hashes_per_check,
  max_message_bytes, max_build_id_bytes, max_bye_detail_bytes,
}
use atlas_engine.Net.Message.{
  Hello, Welcome, Turn, HashCheck, Bye, Finish, Drop, Message, says_hello, says_welcome, says_turn,
  says_hash_check, says_bye, says_finish, says_drop,
}

unfoldable pub write_header : Bytes → MessageType → Bytes
write_header out type =
    let out = write_u64 out net_magic in
    let out = write_u32 out protocol_version in write_u32 out (type_number type)

unfoldable pub write_hello : Bytes → Hello → Result Bytes
write_hello out m =
    let out = write_header out hello in
    let out = write_u32 out m.hash_algorithm_version in
    let out = write_u32 out m.save_format_version in
    let out = write_u32 out m.replay_format_version in
    let out = write_string out m.build_id in
    let out = write_u64 out m.golden_final_state in
    let out = write_u64 out m.golden_all_ticks in
    let out = write_u64 out m.seed in
    let out = write_u64 out m.start_tick in
    let out = write_u64 out m.initial_state_hash in
    let out = write_u32 out m.tick_rate in
    let out = write_u32 out m.proposed_delay in
    if ltb max_build_id_bytes (length m.build_id) then err exhausted else ok out

-- Each peer above the one before it.
unfoldable pub is_increasing : List ℕ → Bool
is_increasing [] = true
is_increasing (x ∷ []) = true
is_increasing (x ∷ y ∷ rest) = ltb x y && is_increasing (y ∷ rest)

unfoldable pub write_peers : Bytes → List ℕ → Bytes
write_peers out [] = out
write_peers out (p ∷ ps) = write_peers (write_u32 out p) ps

unfoldable pub write_welcome : Bytes → Welcome → Result Bytes
unfolding write_peers is_increasing
write_welcome out m =
    let out = write_header out welcome in
    let out = write_u32 out m.assigned_source in
    let out = write_u64 out (length m.peers) in
    let out = write_peers out m.peers in
    let out = write_u64 out m.agreed_seed in
    let out = write_u64 out m.start_tick in
    let out = write_u64 out m.initial_state_hash in
    let out = write_u32 out m.agreed_delay in
    if ltb max_peers (length m.peers)
    then err exhausted
    else if not (is_increasing m.peers)
    then err invalid_argument
    else ok out

unfoldable pub payloads_fit : List Command → Bool
payloads_fit [] = true
payloads_fit (c ∷ cs) = not (ltb max_payload (length c.payload)) && payloads_fit cs

unfoldable pub write_commands : Bytes → List Command → Bytes
write_commands out [] = out
write_commands out (c ∷ cs) = write_commands (write_command out c) cs

unfoldable pub write_turn : Bytes → Turn → Result Bytes
unfolding payloads_fit write_commands
write_turn out m =
    let out = write_header out turn in
    let out = write_u64 out m.tick in
    let out = write_u32 out m.source in
    let out = write_u64 out (length m.commands) in
    let out = write_commands out m.commands in
    if ltb max_commands_per_turn (length m.commands)
    then err exhausted
    else if not (payloads_fit m.commands)
    then err exhausted
    else ok out

unfoldable pub write_hashes : Bytes → List SystemHash → Bytes
write_hashes out [] = out
write_hashes out (h ∷ hs) = write_hashes (write_u64 (write_u32 out h.system) h.hash) hs

unfoldable pub write_hash_check : Bytes → HashCheck → Result Bytes
unfolding write_hashes
write_hash_check out m =
    let out = write_header out hash_check in
    let out = write_u64 out m.tick in
    let out = write_u32 out m.source in
    let out = write_u64 out m.state_hash in
    let out = write_u64 out (length m.system_hashes) in
    let out = write_hashes out m.system_hashes in
    if ltb max_system_hashes_per_check (length m.system_hashes) then err exhausted else ok out

unfoldable pub write_bye : Bytes → Bye → Result Bytes
write_bye out m =
    let out = write_header out bye in
    let out = write_u32 out (reason_number m.reason) in
    let out = write_string out m.detail in
    if ltb max_bye_detail_bytes (length m.detail) then err exhausted else ok out

unfoldable pub write_finish : Bytes → Finish → Bytes
write_finish out m = write_u64 (write_header out finish) m.last_tick

unfoldable pub write_drop : Bytes → Drop → Bytes
write_drop out m = write_u64 (write_u32 (write_header out drop) m.source) m.turns

unfoldable pub write_body : Bytes → Message → Result Bytes
unfolding write_hello write_welcome write_turn write_hash_check write_bye write_finish write_drop
write_body out (says_hello m) = write_hello out m
write_body out (says_welcome m) = write_welcome out m
write_body out (says_turn m) = write_turn out m
write_body out (says_hash_check m) = write_hash_check out m
write_body out (says_bye m) = write_bye out m
write_body out (says_finish m) = ok (write_finish out m)
write_body out (says_drop m) = ok (write_drop out m)

-- The size is tested after the fact as well.
unfoldable pub encode : Message → Result Bytes
unfolding write_body
encode m =
    write_body [] m >>= λ out. if ltb max_message_bytes (length out) then err exhausted else ok out
