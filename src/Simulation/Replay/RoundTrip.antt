-- ===== src/Simulation/Replay/RoundTrip.antt =====
-- What is written of a recording is what is loaded, if its payloads are within their limit.
use atlas_engine.Base.{
  and-true, if◌then◌else◌, ◌^◌, ◌≤◌, ◌<◌, ◌≡◌, refl, ap, sym, ◌∙◌, arith, Bool, true, false, List,
  [], ◌∷◌, ◌++◌, append-nil, length, length-append, All, leb, ltb, not, ◌==◌, leb→le,
}
use atlas_engine.Core.Error.{
  Result, err, malformed_data, ErrorCode, ok, guard, exhausted, version_mismatch, ok-injective,
  bind-ok,
}
use atlas_engine.Core.Hash.{hash_algorithm_version}
use atlas_engine.Simulation.SaveStream.{Bytes, SaveReader}
use atlas_engine.Simulation.SaveStream.Bytes.{length-le_bytes}
use atlas_engine.Simulation.SaveStream.RoundTrip.{
  ReadsBack, at, bind-ReadsBack, return-ReadsBack, expect_end-at,
}
use atlas_engine.Simulation.SaveStream.Formats.{
  then_u32, then_u64, then_count, all_bytes, read_all-ReadsBack, length-all_bytes,
}
use atlas_engine.Simulation.SaveStream.Rejects.{
  Answers, u32-Answers, u64-Answers, require-Answers, count-Answers,
}
use atlas_engine.Simulation.CommandCodec.{HasWords, command_bytes, command_overhead}
use atlas_engine.Simulation.Kernel.{SystemHash}
use atlas_engine.Simulation.Replay.{
  Replay, HashCheckpoint, replay_magic, replay_format_version, max_replay_commands,
  max_replay_checkpoints, max_replay_system_hashes, checkpoint_overhead, hashes_fit, check_writable,
  to_bytes,
}
use atlas_engine.Simulation.Replay.Printed.{
  command_room, sized, hash_text, checkpoint_text, replay_text, write_replay_lem,
}
use atlas_engine.Simulation.Replay.Loads.{payloads_load, commands-Answers}
use atlas_engine.Simulation.Replay.Decode.{
  read_replay_hash, read_checkpoint, read_replay, to_end, from_bytes,
}

abbrev IsHash : SystemHash → Type 0
IsHash h = (h.system < 2 ^ 32) × (h.hash < 2 ^ 64)

pub record IsCheckpoint (c : HashCheckpoint) : Type 0 where
  pub tick : c.tick < 2 ^ 64
  pub state_hash : c.state_hash < 2 ^ 64
  pub system_hashes : All IsHash c.system_hashes

-- The versions are those of this build, and the numbers fit their words.
pub record IsReplay (r : Replay) : Type 0 where
  pub format : r.format_version ≡ replay_format_version
  pub algorithm : r.hash_algorithm_version ≡ hash_algorithm_version
  pub seed : r.seed < 2 ^ 64
  pub first_tick : r.first_tick < 2 ^ 64
  pub tick_count : r.tick_count < 2 ^ 64
  pub initial_state_hash : r.initial_state_hash < 2 ^ 64
  pub commands : All HasWords r.commands
  pub checkpoints : All IsCheckpoint r.checkpoints

read_replay_hash-ReadsBack :
    (h : SystemHash) → IsHash h → ReadsBack read_replay_hash (hash_text h) h
unfolding read_replay_hash hash_text
read_replay_hash-ReadsBack h w =
    then_u32 _ h.system w.0 (then_u64 _ h.hash w.1 (return-ReadsBack h))

-- What holds of each item, and that it is read back.
each : {A : Type 0} (P Q : A → Type 0) → ((x : A) → P x → Q x) → (xs : List A) → All P xs → All Q xs
each P Q h [] a = tt
each P Q h (x ∷ xs) a = (h x a.0, each P Q h xs a.1)

length-hash_text : (h : SystemHash) → 12 ≤ length (hash_text h)
unfolding hash_text
length-hash_text h = grind (arith, length-append, length-le_bytes)

length-checkpoint_text : (c : HashCheckpoint) → checkpoint_overhead ≤ length (checkpoint_text c)
unfolding checkpoint_text
length-checkpoint_text c = grind (arith, length-append, length-le_bytes)

read_checkpoint-ReadsBack :
    (c : HashCheckpoint)
    → length c.system_hashes ≤ max_replay_system_hashes
    → IsCheckpoint c
    → ReadsBack read_checkpoint (checkpoint_text c) c
unfolding read_checkpoint checkpoint_text
read_checkpoint-ReadsBack c h w = then_u64 _ c.tick w.tick (
    then_u64 _ c.state_hash w.state_hash (
      then_count _ max_replay_system_hashes 12 (length c.system_hashes) h (omega arith)
        (grind (
          arith,
          length-all_bytes hash_text 12 c.system_hashes
              (sized 12 hash_text length-hash_text c.system_hashes),
          length-append,
        ))
        (bind-ReadsBack _ _ (all_bytes hash_text c.system_hashes) [] c.system_hashes c
          (read_all-ReadsBack read_replay_hash hash_text c.system_hashes
            (each IsHash _ read_replay_hash-ReadsBack c.system_hashes w.system_hashes))
          (return-ReadsBack c))))

fit-All :
    (cs : List HashCheckpoint)
    → hashes_fit cs ≡ true
    → All IsCheckpoint cs
    → All (λ c. ReadsBack read_checkpoint (checkpoint_text c) c) cs
unfolding hashes_fit
fit-All [] e w = tt
fit-All (c ∷ cs) e w =
    let (here, rest) =
      and-true (leb (length c.system_hashes) max_replay_system_hashes) (hashes_fit cs) e in
    (read_checkpoint-ReadsBack c (leb→le _ _ here) w.0, fit-All cs rest w.1)

-- What a recording that may be written satisfies.
record Writable (r : Replay) : Type 0 where
  commands : length r.commands ≤ max_replay_commands
  checkpoints : length r.checkpoints ≤ max_replay_checkpoints
  hashes : hashes_fit r.checkpoints ≡ true

guard-ok : (b : Bool) (e : ErrorCode) {x : Unit {0}} → guard b e ≡ ok x → b ≡ true
guard-ok true e h = refl
guard-ok false e h = absurd (cc)

check_writable-Writable : (r : Replay) → check_writable r ≡ ok tt → Writable r
unfolding check_writable
check_writable-Writable r e =
    let (x, (few, rest)) =
      bind-ok (guard (leb (length r.commands) max_replay_commands) exhausted) _ tt e in
    let (y, (fewer, last)) =
      bind-ok (guard (leb (length r.checkpoints) max_replay_checkpoints) exhausted) _ tt rest in
    record {
      commands = leb→le _ _ (guard-ok _ exhausted few);
      checkpoints = leb→le _ _ (guard-ok _ exhausted fewer);
      hashes = guard-ok _ exhausted last;
    }

-- What arrives when a recording is written and loaded.
unfoldable pub loaded : Replay → Result Replay
loaded r = if payloads_load r.commands then ok r else err malformed_data

read_replay-Answers :
    (r : Replay) → IsReplay r → Writable r → Answers read_replay (replay_text r) (loaded r)
unfolding read_replay replay_text loaded
read_replay-Answers r w h = u64-Answers _ replay_magic (omega arith) (
    (u32-Answers _ r.format_version (omega (arith, w.format)) (
      require-Answers _ (not (ltb replay_format_version r.format_version)) version_mismatch
        (rw w.format refl)
        (require-Answers _ (not (ltb r.format_version replay_format_version)) version_mismatch
          (rw w.format refl)
          (u32-Answers _ r.hash_algorithm_version (omega (arith, w.algorithm)) (
            require-Answers _ (r.hash_algorithm_version == hash_algorithm_version) version_mismatch
              (rw w.algorithm refl)
              (u64-Answers _ r.seed w.seed (
                u64-Answers _ r.first_tick w.first_tick (
                  u64-Answers _ r.tick_count w.tick_count (
                    u64-Answers _ r.initial_state_hash w.initial_state_hash (
                      count-Answers _ max_replay_commands command_overhead (length r.commands)
                        h.commands (omega (arith, h.commands))
                        (grind (
                          arith,
                          length-all_bytes command_bytes command_overhead r.commands
                              (sized command_overhead command_bytes command_room r.commands),
                          length-append,
                        ))
                        (commands-Answers r.commands _ _ r w.commands (
                          then_count _ max_replay_checkpoints checkpoint_overhead
                            (length r.checkpoints) h.checkpoints (omega (arith, h.checkpoints))
                            (grind (
                              arith,
                              length-all_bytes checkpoint_text checkpoint_overhead r.checkpoints (
                                  sized checkpoint_overhead checkpoint_text length-checkpoint_text
                                    r.checkpoints),
                              length-append,
                            ))
                            (bind-ReadsBack _ _ (all_bytes checkpoint_text r.checkpoints) []
                              r.checkpoints r
                              (read_all-ReadsBack read_checkpoint checkpoint_text r.checkpoints
                                (fit-All r.checkpoints h.hashes w.checkpoints))
                              (return-ReadsBack r)))))))))))))))

to_end-at : (r : Replay) (bs : Bytes) → to_end (ok r, at bs []) ≡ ok r
unfolding to_end
to_end-at r bs = rw (to_end, expect_end-at bs) refl

to_end_err : (out : Result Replay × SaveReader) (e : ErrorCode) → out.0 ≡ err e → to_end out ≡ err e
unfolding to_end
to_end_err (ok x, r) e h = absurd (cc)
to_end_err (err d, r) e h = let same : d ≡ e = cc in ap err same

-- What a read answers, up to the end of the bytes.
to_end-Answers :
    (bs : Bytes) (out : Result Replay)
    → Answers read_replay bs out
    → to_end (read_replay (at [] (bs ++ []))) ≡ out
to_end-Answers bs (ok r) k = ap to_end ((k.reads r refl).apply [] []) ∙ to_end-at r bs
to_end-Answers bs (err e) k =
    to_end_err (read_replay (at [] (bs ++ []))) e ((k.rejects e refl).apply [] [])

-- A recording of this build's versions, whose numbers fit the words of their fields, and which the
-- writer does not refuse, is read back from its bytes as it was if no payload of its commands is longer
-- than `max_payload`; otherwise the reader refuses its bytes as malformed.
pub from_bytes-to_bytes :
    (r : Replay) {bs : Bytes} → IsReplay r → to_bytes r ≡ ok bs → from_bytes bs ≡ loaded r
unfolding to_bytes from_bytes
from_bytes-to_bytes r {bs} w e =
    let (x, (fits, same)) = bind-ok (check_writable r) _ bs e in
    let out : bs ≡ replay_text r ++ [] =
      sym (ok-injective _ bs same) ∙ (write_replay_lem r ∙ sym (append-nil (replay_text r))) in
    ap (λ l. to_end (read_replay (record { bytes = l; offset = 0 }))) out
    ∙ to_end-Answers (replay_text r) (loaded r)
        (read_replay-Answers r w (check_writable-Writable r fits))
