-- ===== src/Net/Session/Turns.antt =====
-- `send_turn`, and what `handle` does with a turn of another peer.
use atlas_engine.Base.{
  ℕ, ◌+◌, Bool, true, not, ◌&&◌, some, List, [], ◌∷◌, ltb, ◌==◌, if◌then◌else◌, set, u64, max,
  length,
}
use atlas_engine.Core.Error.{Result, Status, ok, err, invalid_argument, unavailable}
use atlas_engine.Simulation.SaveStream.{Bytes}
use atlas_engine.Simulation.Command.{Command, CommandQueue, submit_stamped}
use atlas_engine.Simulation.TurnGate.{TurnGate, mark_complete}
use atlas_engine.Net.Message.{Turn, says_turn}
use atlas_engine.Net.Message.Encode.{encode}
use atlas_engine.Net.Session.{Link, finishing, Session, Polled, tick_or, count_of, same_state}
use atlas_engine.Net.Session.Checks.{may_send, past_finish}

module _ {L : Type 0} (ops : Link L) where
  unfoldable pub announce_turn :
      Session L → TurnGate → ℕ → Result Bytes → Status × (Session L × TurnGate)
  announce_turn s turns tick (err e) = (err e, (s, turns))
  announce_turn s turns tick (ok bytes) =
      let out = ops.broadcast s.link bytes in
      elim out.0 [
        | err e ↦ (err e, (record s { link = out.1 }, turns))
        | ok done ↦
            let sent = record s {
              link = out.1;
              stats = record s.stats { turns_sent = u64 (s.stats.turns_sent + 1) };
              last_turn_sent = some (max (tick_or tick s.last_turn_sent) tick);
            } in
            elim (mark_complete turns s.self tick) [
              | err e ↦ (err e, (sent, turns))
              | ok new ↦ (ok tt, (sent, new))
            ]
      ]

  unfoldable pub send_turn :
      Session L → TurnGate → ℕ → List Command → Status × (Session L × TurnGate)
  unfolding announce_turn
  send_turn s turns tick commands =
      if same_state s.state finishing && past_finish s.finish_tick tick
      then (err invalid_argument, (s, turns))
      else if not (may_send s.state)
      then (err unavailable, (s, turns))
      else announce_turn s turns tick
          (encode (says_turn (record { tick = tick; source = s.self; commands = commands })))

-- Every command bears the name of the peer.
unfoldable pub all_from : ℕ → List Command → Bool
all_from peer [] = true
all_from peer (c ∷ cs) = c.source == peer && all_from peer cs

module _ {L W : Type 0} where
  -- A refused command does not stop the others.
  unfoldable pub submit_one : Polled L W → Command → Result (CommandQueue W) → Polled L W
  submit_one p c (err e) = record p {
    report = record p.report { commands_refused = p.report.commands_refused + 1 };
  }
  submit_one p c (ok queue) = record p {
    queue = queue;
    report = record p.report {
      commands_submitted = p.report.commands_submitted + 1;
      highest_target = max p.report.highest_target c.target;
    };
  }

  unfoldable pub submit_all : Polled L W → List Command → Polled L W
  unfolding submit_one
  submit_all p [] = p
  submit_all p (c ∷ cs) = submit_all (submit_one p c (submit_stamped p.queue c)) cs

  -- The statistics of a turn that was read.
  unfoldable pub count_turn : Polled L W → ℕ → ℕ → Polled L W
  count_turn p peer commands = record p {
    session = record p.session {
      stats = record p.session.stats {
        turns_received = u64 (p.session.stats.turns_received + 1);
        commands_received = u64 (p.session.stats.commands_received + commands);
      };
      turns_from = set p.session.turns_from peer (u64 (count_of p.session.turns_from peer + 1));
    };
  }

  unfoldable pub mark_turn : Polled L W → Result TurnGate → Status × Polled L W
  mark_turn p (err e) = (err e, p)
  mark_turn p (ok turns) = (
    ok tt,
    record p {
      turns = turns;
      report = record p.report { turns_marked = p.report.turns_marked + 1 };
    },
  )

  unfoldable pub handle_turn : Polled L W → ℕ → Turn → ℕ → Status × Polled L W
  unfolding all_from submit_all count_turn mark_turn
  handle_turn p peer turn now =
      if not (turn.source == peer)
      then (err invalid_argument, p)
      else if ltb turn.tick now
      then (err invalid_argument, p)
      else if not (all_from peer turn.commands)
      then (err invalid_argument, p)
      else mark_turn (count_turn (submit_all p turn.commands) peer (length turn.commands))
          (mark_complete p.turns peer turn.tick)
