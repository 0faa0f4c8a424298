-- ===== src/Simulation/Replay/Play.antt =====
-- `play`: the recorded commands are run again, and the hashes compared with the recorded ones. Of a
-- divergence only its tick is kept.
use atlas_engine.Base.{
  ℕ, zero, suc, ◌+◌, ◌^◌, ◌<◌, ◌≤◌, ◌≡◌, refl, ap, ◌∙◌, subst, arith, inl, inr, true, false,
  Bool-cases, not, Option, none, some, List, [], ◌∷◌, ltb, ◌==◌, if◌then◌else◌, u64,
}
use atlas_engine.Core.Error.{Result, Status, ok, err, invalid_argument, ok-injective}
use atlas_engine.Simulation.Command.{Command, CommandQueue, submit_stamped, clear}
use atlas_engine.Simulation.Schedule.{Schedule}
use atlas_engine.Simulation.World as World
use atlas_engine.Simulation.World.{World, Table}
use atlas_engine.Simulation.Kernel.{Kernel, Phases, TickReport, step}
use atlas_engine.Simulation.Replay.{Replay, HashCheckpoint}

pub record ReplayResult : Type 0 where
  pub ticks_run : ℕ
  pub checkpoints_checked : ℕ
  pub divergence : Option ℕ

-- What `play` is given to run on.
pub record Stage (T S : Type 0) : Type 0 where
  pub world : World T
  pub scratch : S
  pub schedule : Schedule
  pub commands : CommandQueue (World T)

unfoldable pub nothing_run : ReplayResult
nothing_run = record { ticks_run = 0; checkpoints_checked = 0; divergence = none }

-- The checkpoints of ticks that are past are left out.
unfoldable pub skip_passed : ℕ → List HashCheckpoint → List HashCheckpoint
skip_passed tick [] = []
skip_passed tick (c ∷ cs) =
    let rest = skip_passed tick cs in if ltb c.tick tick then rest else c ∷ cs

module _ {T : Type 0} where
  -- All the recorded commands, or the error of the first that the queue refuses.
  unfoldable pub queue_all : CommandQueue (World T) → List Command → Status × CommandQueue (World T)
  queue_all q [] = (ok tt, q)
  queue_all q (c ∷ cs) = elim (submit_stamped q c) [ err e ↦ (err e, q) | ok r ↦ queue_all r cs ]

module _ {T S : Type 0} where
  -- A kernel as `play` makes it: sub-hashes recorded, no gate.
  unfoldable pub kernel_for : Replay → Stage T S → Kernel T S
  kernel_for replay stage = record {
    world = stage.world;
    scratch = stage.scratch;
    schedule = stage.schedule;
    commands = stage.commands;
    config = record {
      seed = replay.seed;
      record_system_hashes = true;
      record_applied_commands = false;
      gate = none;
    };
    tick = replay.first_tick;
    late_commands = 0;
    invalid_commands = 0;
    declined_commands = 0;
    stalled_steps = 0;
  }

  unfoldable pub stage_of : Kernel T S → Stage T S
  stage_of k = record {
    world = k.world;
    scratch = k.scratch;
    schedule = k.schedule;
    commands = k.commands;
  }

  -- What follows a tick: the checkpoint of this tick, if there is one, is compared.
  unfoldable pub compared :
      (ReplayResult → List HashCheckpoint → Result ReplayResult × Kernel T S)
      → Kernel T S
      → ReplayResult
      → TickReport
      → List HashCheckpoint
      → Result ReplayResult × Kernel T S
  compared next k result report [] = next result []
  compared next k result report (c ∷ cs) =
      let checked = record result { checkpoints_checked = u64 (result.checkpoints_checked + 1) } in
      if not (c.tick == report.tick)
      then next result (c ∷ cs)
      else if c.state_hash == report.state_hash
      then next checked cs
      else (ok (record checked { divergence = some report.tick }), k)

  unfoldable pub after_step :
      (Kernel T S → ReplayResult → List HashCheckpoint → Result ReplayResult × Kernel T S)
      → ReplayResult
      → List HashCheckpoint
      → Result TickReport × Kernel T S
      → Result ReplayResult × Kernel T S
  unfolding compared skip_passed
  after_step next result checkpoints (err e, k) = (err e, k)
  after_step next result checkpoints (ok report, k) =
      compared (next k) k (record result { ticks_run = u64 (result.ticks_run + 1) }) report
        (skip_passed report.tick checkpoints)

module _ {T S : Type 0} (ops : Table T) (phases : Phases T S) where
  -- The ticks that are left.
  unfoldable pub play_ticks :
      ℕ → Kernel T S → ReplayResult → List HashCheckpoint → Result ReplayResult × Kernel T S
  unfolding after_step
  play_ticks zero k result checkpoints = (ok result, k)
  play_ticks (suc n) k result checkpoints =
      after_step (play_ticks n) result checkpoints (step ops phases k)

  unfoldable pub play_queued :
      Replay → Stage T S → Status × CommandQueue (World T) → Result ReplayResult × Stage T S
  unfolding play_ticks kernel_for stage_of nothing_run
  play_queued replay stage (err e, q) = (err e, record stage { commands = q })
  play_queued replay stage (ok done, q) =
      let out =
        play_ticks replay.tick_count (kernel_for replay (record stage { commands = q })) nothing_run
          replay.checkpoints in
      (out.0, stage_of out.1)

  unfoldable pub play : Replay → Stage T S → Result ReplayResult × Stage T S
  unfolding queue_all play_queued
  play replay stage =
      if not stage.schedule.finalised
      then (err invalid_argument, stage)
      else if not (World.hash ops stage.world == replay.initial_state_hash)
      then (err invalid_argument, stage)
      else play_queued replay stage (queue_all (clear stage.commands) replay.commands)

-- What a playback that had run `t` ticks ends with, when at most `n` were left.
record Ends (t n : ℕ) (after : ReplayResult) : Type 0 where
  at_most : after.ticks_run ≤ t + n
  matched : after.divergence ≡ none → after.ticks_run ≡ t + n

some_is_not_none : {A : Type 0} (x : A) → some x ≡ none → ⊥
some_is_not_none x e = cc

module _ {T S : Type 0} where
  compared-Ends :
      (next : ReplayResult → List HashCheckpoint → Result ReplayResult × Kernel T S)
      (k : Kernel T S) (result : ReplayResult) (report : TickReport) (cs : List HashCheckpoint)
      (n : ℕ) (out : ReplayResult)
      → ((r : ReplayResult) (ds : List HashCheckpoint)
          → r.ticks_run ≡ result.ticks_run
          → (next r ds).0 ≡ ok out
          → Ends result.ticks_run n out)
      → (compared next k result report cs).0 ≡ ok out
      → Ends result.ticks_run n out
  unfolding compared
  compared-Ends next k result report [] n out h e = h result [] refl e
  compared-Ends next k result report (c ∷ cs) n out h e =
      elim (Bool-cases (not (c.tick == report.tick))) [
        | inl later ↦ h result (c ∷ cs) refl (rw later at e)
        | inr now ↦ elim (Bool-cases (c.state_hash == report.state_hash)) [
          | inl same ↦ h _ cs refl (rw (now, same) at e)
          | inr other ↦
              let ended = ok-injective _ out (rw (now, other) at e) in
              record {
                at_most = subst (λ r. r.ticks_run ≤ result.ticks_run + n) ended (omega arith);
                matched = λ none_found.
                    absurd
                      (some_is_not_none report.tick (ap (λ r. r.divergence) ended ∙ none_found));
              }
        ]
      ]

module _ {T S : Type 0} (ops : Table T) (phases : Phases T S) where
  after_step-Ends :
      (n : ℕ) (result : ReplayResult) (cs : List HashCheckpoint)
      (stepped : Result TickReport × Kernel T S) (out : ReplayResult)
      → ((k : Kernel T S) (r : ReplayResult) (ds : List HashCheckpoint)
          → r.ticks_run ≡ u64 (result.ticks_run + 1)
          → (play_ticks ops phases n k r ds).0 ≡ ok out
          → Ends (u64 (result.ticks_run + 1)) n out)
      → (after_step (play_ticks ops phases n) result cs stepped).0 ≡ ok out
      → Ends (u64 (result.ticks_run + 1)) n out
  unfolding after_step
  after_step-Ends n result cs (err x, k) out h e = absurd (cc)
  after_step-Ends n result cs (ok report, k) out h e =
      compared-Ends (play_ticks ops phases n k) k
        (record result { ticks_run = u64 (result.ticks_run + 1) }) report _ n out (h k) e

  play_ticks-Ends :
      (n : ℕ) (k : Kernel T S) (result : ReplayResult) (cs : List HashCheckpoint)
      (out : ReplayResult)
      → result.ticks_run + n < 2 ^ 64
      → (play_ticks ops phases n k result cs).0 ≡ ok out
      → Ends result.ticks_run n out
  unfolding play_ticks
  play_ticks-Ends zero k result cs out w e =
      let same = ap (λ r. r.ticks_run) (ok-injective result out e) in
      record { at_most = omega (arith, same); matched = λ d. omega (arith, same) }
  play_ticks-Ends (suc n) k result cs out w e =
      let rest =
        after_step-Ends n result cs (step ops phases k) out
          (λ l r ds t d.
            subst (λ x. Ends x n out) t (play_ticks-Ends n l r ds out (omega (arith, t)) d))
          e in
      record { at_most = omega (arith, rest.at_most); matched = λ d. omega (arith, rest.matched d) }

  play_queued-Ends :
      (replay : Replay) (stage : Stage T S) (queued : Status × CommandQueue (World T))
      (out : ReplayResult)
      → replay.tick_count < 2 ^ 64
      → (play_queued ops phases replay stage queued).0 ≡ ok out
      → Ends 0 replay.tick_count out
  unfolding play_queued nothing_run
  play_queued-Ends replay stage (err x, q) out w e = absurd (cc)
  play_queued-Ends replay stage (ok done, q) out w e =
      play_ticks-Ends replay.tick_count _ nothing_run replay.checkpoints out (omega arith) e

  -- A playback that returns a result has run no more ticks than were recorded, and exactly as many
  -- when it found no divergence.
  pub play-ticks_run :
      (replay : Replay) (stage : Stage T S) (out : ReplayResult)
      → replay.tick_count < 2 ^ 64
      → (play ops phases replay stage).0 ≡ ok out
      → (out.ticks_run ≤ replay.tick_count)
        × (out.divergence ≡ none → out.ticks_run ≡ replay.tick_count)
  unfolding play
  play-ticks_run replay stage out w e = elim (Bool-cases (not stage.schedule.finalised)) [
    | inl unfinished ↦ absurd (cc (rw unfinished at e))
    | inr done ↦ elim (Bool-cases (not (World.hash ops stage.world == replay.initial_state_hash))) [
      | inl other ↦ absurd (cc (rw (done, other) at e))
      | inr same ↦
          let ends =
            play_queued-Ends replay stage (queue_all (clear stage.commands) replay.commands) out w
              (rw (done, same) at e) in
          (omega (arith, ends.at_most), λ d. omega (arith, ends.matched d))
    ]
  ]
