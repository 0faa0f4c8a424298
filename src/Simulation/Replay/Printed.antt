-- ===== src/Simulation/Replay/Printed.antt =====
-- The bytes of a recording as one expression, and that this is what the writer writes.
use atlas_engine.Base.{
  ℕ, ◌≤◌, ◌≡◌, ap, sym, ◌∙◌, arith, List, [], ◌∷◌, ◌++◌, append_assoc, append-nil, length, All,
}
use atlas_engine.Simulation.SaveStream.{Bytes}
use atlas_engine.Simulation.SaveStream.Bytes.{le_bytes}
use atlas_engine.Simulation.SaveStream.Formats.{all_bytes, write_u32_lem, write_u64_lem}
use atlas_engine.Simulation.Command.{Command}
use atlas_engine.Simulation.CommandCodec.{
  write_command, command_bytes, write_command_lem, command_overhead, length-command_bytes,
}
use atlas_engine.Simulation.Kernel.{SystemHash}
use atlas_engine.Simulation.Replay.{
  Replay, HashCheckpoint, replay_magic, write_all, write_system_hash, write_checkpoint,
  write_replay,
}

pub command_room : (c : Command) → command_overhead ≤ length (command_bytes c)
command_room c = omega (arith, length-command_bytes c)

write_all_lem :
    {A : Type 0} (write : Bytes → A → Bytes) (print : A → Bytes)
    → ((out : Bytes) (x : A) → write out x ≡ out ++ print x)
    → (out : Bytes) (xs : List A) → write_all write out xs ≡ out ++ all_bytes print xs
unfolding write_all all_bytes
write_all_lem write print h out [] = sym (append-nil out)
write_all_lem write print h out (x ∷ xs) =
    write_all_lem write print h (write out x) xs
    ∙ (ap (λ l. l ++ all_bytes print xs) (h out x)
        ∙ append_assoc out (print x) (all_bytes print xs))

pub sized :
    {A : Type 0} (item : ℕ) (print : A → Bytes)
    → ((x : A) → item ≤ length (print x))
    → (xs : List A) → All (λ x. item ≤ length (print x)) xs
sized item print h [] = tt
sized item print h (x ∷ xs) = (h x, sized item print h xs)

unfoldable pub hash_text : SystemHash → Bytes
hash_text h = le_bytes 4 h.system ++ (le_bytes 8 h.hash ++ [])

unfoldable pub checkpoint_text : HashCheckpoint → Bytes
unfolding hash_text
checkpoint_text c =
    le_bytes 8 c.tick
    ++ (le_bytes 8 c.state_hash
        ++ (le_bytes 8 (length c.system_hashes) ++ (all_bytes hash_text c.system_hashes ++ [])))

unfoldable pub replay_text : Replay → Bytes
unfolding checkpoint_text
replay_text r =
    le_bytes 8 replay_magic
    ++ (le_bytes 4 r.format_version
        ++ (le_bytes 4 r.hash_algorithm_version
            ++ (le_bytes 8 r.seed
                ++ (le_bytes 8 r.first_tick
                    ++ (le_bytes 8 r.tick_count
                        ++ (le_bytes 8 r.initial_state_hash
                            ++ (le_bytes 8 (length r.commands)
                                ++ (all_bytes command_bytes r.commands
                                    ++ (le_bytes 8 (length r.checkpoints)
                                        ++ (all_bytes checkpoint_text r.checkpoints ++ []))))))))))

write_system_hash_lem :
    (out : Bytes) (h : SystemHash) → write_system_hash out h ≡ out ++ hash_text h
unfolding write_system_hash hash_text
write_system_hash_lem out h = simp (write_u32_lem, write_u64_lem, append_assoc, append-nil)

write_checkpoint_lem :
    (out : Bytes) (c : HashCheckpoint) → write_checkpoint out c ≡ out ++ checkpoint_text c
unfolding write_checkpoint checkpoint_text
write_checkpoint_lem out c = simp (
  write_all_lem write_system_hash hash_text write_system_hash_lem,
  write_u64_lem,
  append_assoc,
  append-nil,
)

pub write_replay_lem : (r : Replay) → write_replay r ≡ replay_text r
unfolding write_replay replay_text
write_replay_lem r = simp (
  write_all_lem write_command command_bytes write_command_lem,
  write_all_lem write_checkpoint checkpoint_text write_checkpoint_lem,
  write_u32_lem,
  write_u64_lem,
  append_assoc,
  append-nil,
)
