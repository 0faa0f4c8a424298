-- ===== src/Net/Message/Printed.antt =====
-- The bytes of each message as one expression, and that this is what the writer writes.
use native.Mathlib.Nat.{mod-eq_of_lt}
use atlas_engine.Base.{
  ℕ, ◌^◌, ◌<◌, ◌≤◌, ◌≡◌, ap, sym, ◌∙◌, arith, le→ltb, true, List, [], ◌∷◌, ◌++◌, append_assoc,
  append-nil, length,
}
use atlas_engine.Core.Error.{ok}
use atlas_engine.Simulation.SaveStream.{Bytes, write_u32, write_u64, write_string}
use atlas_engine.Simulation.SaveStream.Bytes.{le_bytes}
use atlas_engine.Simulation.SaveStream.Formats.{all_bytes, write_u32_lem, write_u64_lem}
use atlas_engine.Simulation.Command.{Command}
use atlas_engine.Simulation.CommandCodec.{write_command, command_bytes, write_command_lem}
use atlas_engine.Simulation.Kernel.{SystemHash}
use atlas_engine.Net.Protocol.{
  MessageType, hello, welcome, turn, hash_check, bye, finish, drop, type_number, reason_number,
  protocol_version, net_magic, max_peers, max_commands_per_turn, max_system_hashes_per_check,
  max_build_id_bytes, max_bye_detail_bytes,
}
use atlas_engine.Net.Message.{Hello, Welcome, Turn, HashCheck, Bye, Finish, Drop}
use atlas_engine.Net.Message.Encode.{
  write_header, write_peers, write_commands, write_hashes, write_hello, write_welcome, write_turn,
  write_hash_check, write_bye, write_finish, write_drop, is_increasing, payloads_fit,
}

abbrev pub text_bytes : Bytes → Bytes
text_bytes text = le_bytes 4 (length text) ++ text

pub write_string_lem :
    (out text : Bytes) → length text < 2 ^ 32 → write_string out text ≡ out ++ text_bytes text
unfolding write_string
write_string_lem out text h = rw (
  mod-eq_of_lt h,
  write_u32_lem out (length text),
  append_assoc out (le_bytes 4 (length text)) text,
)

unfoldable pub header_bytes : MessageType → Bytes
header_bytes type =
    le_bytes 8 net_magic ++ (le_bytes 4 protocol_version ++ le_bytes 4 (type_number type))

pub write_header_lem :
    (out : Bytes) (type : MessageType) → write_header out type ≡ out ++ header_bytes type
unfolding write_header header_bytes
write_header_lem out type = simp (write_u32_lem, write_u64_lem, append_assoc)

pub write_peers_lem :
    (out : Bytes) (ps : List ℕ) → write_peers out ps ≡ out ++ all_bytes (le_bytes 4) ps
unfolding write_peers all_bytes
write_peers_lem out [] = sym (append-nil out)
write_peers_lem out (p ∷ ps) =
    write_peers_lem (write_u32 out p) ps
    ∙ (ap (λ l. l ++ all_bytes (le_bytes 4) ps) (write_u32_lem out p)
        ∙ append_assoc out (le_bytes 4 p) (all_bytes (le_bytes 4) ps))

pub write_commands_lem :
    (out : Bytes) (cs : List Command) → write_commands out cs ≡ out ++ all_bytes command_bytes cs
unfolding write_commands all_bytes
write_commands_lem out [] = sym (append-nil out)
write_commands_lem out (c ∷ cs) =
    write_commands_lem (write_command out c) cs
    ∙ (ap (λ l. l ++ all_bytes command_bytes cs) (write_command_lem out c)
        ∙ append_assoc out (command_bytes c) (all_bytes command_bytes cs))

unfoldable pub system_hash_bytes_of : SystemHash → Bytes
system_hash_bytes_of h = le_bytes 4 h.system ++ le_bytes 8 h.hash

write_hash_lem :
    (out : Bytes) (h : SystemHash)
    → write_u64 (write_u32 out h.system) h.hash ≡ out ++ system_hash_bytes_of h
unfolding system_hash_bytes_of
write_hash_lem out h = simp (write_u32_lem, write_u64_lem, append_assoc)

pub write_hashes_lem :
    (out : Bytes) (hs : List SystemHash)
    → write_hashes out hs ≡ out ++ all_bytes system_hash_bytes_of hs
unfolding write_hashes all_bytes
write_hashes_lem out [] = sym (append-nil out)
write_hashes_lem out (h ∷ hs) =
    write_hashes_lem (write_u64 (write_u32 out h.system) h.hash) hs
    ∙ (ap (λ l. l ++ all_bytes system_hash_bytes_of hs) (write_hash_lem out h)
        ∙ append_assoc out (system_hash_bytes_of h) (all_bytes system_hash_bytes_of hs))

unfoldable pub hello_bytes : Hello → Bytes
hello_bytes m =
    le_bytes 4 m.hash_algorithm_version
    ++ (le_bytes 4 m.save_format_version
        ++ (le_bytes 4 m.replay_format_version
            ++ (text_bytes m.build_id
                ++ (le_bytes 8 m.golden_final_state
                    ++ (le_bytes 8 m.golden_all_ticks
                        ++ (le_bytes 8 m.seed
                            ++ (le_bytes 8 m.start_tick
                                ++ (le_bytes 8 m.initial_state_hash
                                    ++ (le_bytes 4 m.tick_rate
                                        ++ (le_bytes 4 m.proposed_delay ++ []))))))))))

unfoldable pub welcome_bytes : Welcome → Bytes
welcome_bytes m =
    le_bytes 4 m.assigned_source
    ++ (le_bytes 8 (length m.peers)
        ++ (all_bytes (le_bytes 4) m.peers
            ++ (le_bytes 8 m.agreed_seed
                ++ (le_bytes 8 m.start_tick
                    ++ (le_bytes 8 m.initial_state_hash ++ (le_bytes 4 m.agreed_delay ++ []))))))

unfoldable pub turn_bytes : Turn → Bytes
turn_bytes m =
    le_bytes 8 m.tick
    ++ (le_bytes 4 m.source
        ++ (le_bytes 8 (length m.commands) ++ (all_bytes command_bytes m.commands ++ [])))

unfoldable pub hash_check_bytes : HashCheck → Bytes
hash_check_bytes m =
    le_bytes 8 m.tick
    ++ (le_bytes 4 m.source
        ++ (le_bytes 8 m.state_hash
            ++ (le_bytes 8 (length m.system_hashes)
                ++ (all_bytes system_hash_bytes_of m.system_hashes ++ []))))

unfoldable pub bye_bytes : Bye → Bytes
bye_bytes m = le_bytes 4 (reason_number m.reason) ++ (text_bytes m.detail ++ [])

unfoldable pub finish_bytes : Finish → Bytes
finish_bytes m = le_bytes 8 m.last_tick ++ []

unfoldable pub drop_bytes : Drop → Bytes
drop_bytes m = le_bytes 4 m.source ++ (le_bytes 8 m.turns ++ [])

pub write_hello_lem :
    (out : Bytes) (m : Hello)
    → length m.build_id ≤ max_build_id_bytes
    → write_hello out m ≡ ok (out ++ (header_bytes hello ++ hello_bytes m))
unfolding write_hello hello_bytes
write_hello_lem out m h = rw (le→ltb max_build_id_bytes (length m.build_id) h) (
    simp (
      write_header_lem,
      write_u32_lem,
      write_u64_lem,
      λ (o : Bytes). write_string_lem o m.build_id (omega arith),
      append_assoc,
      append-nil,
    ))

pub write_welcome_lem :
    (out : Bytes) (m : Welcome)
    → length m.peers ≤ max_peers
    → is_increasing m.peers ≡ true
    → write_welcome out m ≡ ok (out ++ (header_bytes welcome ++ welcome_bytes m))
unfolding write_welcome welcome_bytes
write_welcome_lem out m h k =
    rw (le→ltb max_peers (length m.peers) h, k)
      (simp
        (write_header_lem, write_u32_lem, write_u64_lem, write_peers_lem, append_assoc, append-nil))

pub write_turn_lem :
    (out : Bytes) (m : Turn)
    → length m.commands ≤ max_commands_per_turn
    → payloads_fit m.commands ≡ true
    → write_turn out m ≡ ok (out ++ (header_bytes turn ++ turn_bytes m))
unfolding write_turn turn_bytes
write_turn_lem out m h k =
    rw (le→ltb max_commands_per_turn (length m.commands) h, k)
      (simp (
        write_header_lem, write_u32_lem, write_u64_lem, write_commands_lem, append_assoc,
        append-nil,
      ))

pub write_hash_check_lem :
    (out : Bytes) (m : HashCheck)
    → length m.system_hashes ≤ max_system_hashes_per_check
    → write_hash_check out m ≡ ok (out ++ (header_bytes hash_check ++ hash_check_bytes m))
unfolding write_hash_check hash_check_bytes
write_hash_check_lem out m h = rw (le→ltb max_system_hashes_per_check (length m.system_hashes) h) (
    simp
      (write_header_lem, write_u32_lem, write_u64_lem, write_hashes_lem, append_assoc, append-nil))

pub write_bye_lem :
    (out : Bytes) (m : Bye)
    → length m.detail ≤ max_bye_detail_bytes
    → write_bye out m ≡ ok (out ++ (header_bytes bye ++ bye_bytes m))
unfolding write_bye bye_bytes
write_bye_lem out m h = rw (le→ltb max_bye_detail_bytes (length m.detail) h) (
    simp (
      write_header_lem,
      write_u32_lem,
      λ (o : Bytes). write_string_lem o m.detail (omega arith),
      append_assoc,
      append-nil,
    ))

pub write_finish_lem :
    (out : Bytes) (m : Finish) → write_finish out m ≡ out ++ (header_bytes finish ++ finish_bytes m)
unfolding write_finish finish_bytes
write_finish_lem out m = simp (write_header_lem, write_u64_lem, append_assoc, append-nil)

pub write_drop_lem :
    (out : Bytes) (m : Drop) → write_drop out m ≡ out ++ (header_bytes drop ++ drop_bytes m)
unfolding write_drop drop_bytes
write_drop_lem out m =
    simp (write_header_lem, write_u32_lem, write_u64_lem, append_assoc, append-nil)
