-- ===== src/Net/Session/Checks.antt =====
-- `compare_or_hold`, `compare_check` and `send_hash_check`: the detection of a divergence.
use atlas_engine.Base.{
  ℕ, ◌+◌, ◌-◌, ◌%◌, Bool, true, false, not, ◌&&◌, ◌||◌, Option, none, some, List, [], ◌∷◌, ◌++◌,
  ltb, leb, ◌==◌, if◌then◌else◌, set, u64, max, length, drop,
}
use atlas_engine.Core.Error.{
  Result, Status, ok, err, invalid_argument, unavailable, exhausted, integrity_check_failed,
}
use atlas_engine.Simulation.SaveStream.{Bytes}
use atlas_engine.Simulation.Kernel.{SystemHash}
use atlas_engine.Net.Message.{HashCheck, says_hash_check}
use atlas_engine.Net.Message.Encode.{encode}
use atlas_engine.Net.Session.{
  Link, SessionState, running, finishing, Session, Checkpoint, tick_of, tick_or, same_state, ◌>>>◌,
  checkpoints_kept, max_pending_checks,
}

-- The first checkpoint of a tick.
unfoldable pub find_checkpoint : ℕ → List Checkpoint → Option Checkpoint
find_checkpoint tick [] = none
find_checkpoint tick (c ∷ cs) = if c.tick == tick then some c else find_checkpoint tick cs

-- Whether the tick lies past the last checkpoint, if there is one.
unfoldable pub ahead_of : ℕ → List Checkpoint → Bool
ahead_of tick [] = true
ahead_of tick (c ∷ []) = ltb c.tick tick
ahead_of tick (c ∷ d ∷ cs) = ahead_of tick (d ∷ cs)

-- The session finished before this tick, so that nothing more is announced for it.
abbrev pub past_finish : Option ℕ → ℕ → Bool
past_finish none tick = false
past_finish (some last) tick = ltb last tick

-- The checks of a session that may send: running, or finishing.
abbrev pub may_send : SessionState → Bool
may_send state = same_state state running || same_state state finishing

-- The oldest go while there are more than are kept.
abbrev pub add_checkpoint : List Checkpoint → Checkpoint → List Checkpoint
add_checkpoint checkpoints new =
    let all = checkpoints ++ new ∷ [] in drop (length all - checkpoints_kept) all

module _ {L : Type 0} where
  unfoldable pub compare_check : Session L → ℕ → HashCheck → Checkpoint → Status × Session L
  compare_check s peer check mine =
      if mine.state_hash == check.state_hash
      then (
        ok tt,
        record s {
          stats = record s.stats { hash_checks_agreed = u64 (s.stats.hash_checks_agreed + 1) };
          compared_through =
              set s.compared_through peer
                (some (max (tick_or check.tick (tick_of s.compared_through peer)) check.tick));
        },
      )
      else (err integrity_check_failed, record s { diverged_at = some check.tick })

  unfoldable pub hold_check : Session L → HashCheck → Status × Session L
  hold_check s check =
      if leb max_pending_checks (length s.pending_checks)
      then (err exhausted, s)
      else (ok tt, record s { pending_checks = s.pending_checks ++ check ∷ [] })

  unfoldable pub compare_or_hold : Session L → ℕ → HashCheck → Status × Session L
  unfolding find_checkpoint ahead_of compare_check hold_check
  compare_or_hold s peer check =
      if not (check.tick % s.config.hash_check_interval == 0)
      then (err invalid_argument, s)
      else elim (find_checkpoint check.tick s.checkpoints) [
        | some mine ↦ compare_check s peer check mine
        | none ↦
            if ahead_of check.tick s.checkpoints
            then hold_check s check
            else (err invalid_argument, s)
      ]

  -- The loop over the checks that were held: those of the tick are taken out and compared. The ones
  -- before the place of the loop are `kept`.
  unfoldable pub answer_pending :
      Checkpoint → List HashCheck → List HashCheck → Session L → Status × Session L
  unfolding compare_check
  answer_pending mine kept [] s = (ok tt, record s { pending_checks = kept })
  answer_pending mine kept (held ∷ rest) s =
      let later = answer_pending mine (kept ++ held ∷ []) rest s in
      let answered =
        compare_check (record s { pending_checks = kept ++ rest }) held.source held mine
        >>> answer_pending mine kept rest in
      if held.tick == mine.tick then answered else later

module _ {L : Type 0} (ops : Link L) where
  unfoldable pub announce_check : Session L → Result Bytes → Status × Session L
  announce_check s (err e) = (err e, s)
  announce_check s (ok bytes) =
      let out = ops.broadcast s.link bytes in
      elim out.0 [
        | err e ↦ (err e, record s { link = out.1 })
        | ok done ↦ (
          ok tt,
          record s {
            link = out.1;
            stats = record s.stats { hash_checks_sent = u64 (s.stats.hash_checks_sent + 1) };
          },
        )
      ]

  unfoldable pub send_hash_check : Session L → ℕ → ℕ → List SystemHash → Status × Session L
  unfolding answer_pending announce_check
  send_hash_check s tick state_hash system_hashes =
      let mine : Checkpoint = record {
        tick = tick;
        state_hash = state_hash;
        system_hashes = system_hashes;
      } in
      let held = record s { checkpoints = add_checkpoint s.checkpoints mine } in
      if same_state s.state finishing && past_finish s.finish_tick tick
      then (err invalid_argument, s)
      else if not (may_send s.state)
      then (err unavailable, s)
      else if not (tick % s.config.hash_check_interval == 0)
      then (ok tt, s)
      else answer_pending mine [] s.pending_checks held >>> λ s. announce_check s (
          encode (
            says_hash_check (record {
              tick = tick;
              source = s.self;
              state_hash = state_hash;
              system_hashes = system_hashes;
            })))
