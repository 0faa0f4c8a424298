-- ===== src/Net/Session/Tests.antt =====
-- A session of two peers that finishes at tick 20.
use atlas_engine.Base.{ℕ, refl, false, Option, none, some, List, [], ◌∷◌}
use atlas_engine.Core.Error.{ok}
use atlas_engine.Simulation.SaveStream.{Bytes}
use atlas_engine.Simulation.Command.{CommandQueue}
use atlas_engine.Simulation.TurnGate.{TurnGate}
use atlas_engine.Net.Inbox.{empty}
use atlas_engine.Net.Message.{Message, says_turn}
use atlas_engine.Net.Session.{
  Link, star, loss_drops, Session, SessionConfig, SessionState, finishing, Polled,
}
use atlas_engine.Net.Session.Finish.{any_differs}
use atlas_engine.Net.Session.Handle.{handle}
use atlas_engine.Net.Session.Poll.{poll, empty_report}
use atlas_engine.Net.Session.Speaks.{Adds, handle-Adds}
use atlas_engine.Net.Session.Agreement.{IsAgreed, poll-IsAgreed}

-- A link that keeps what is sent over it.
abbrev wire : Link (List Bytes)
wire = record {
  peer_count = λ l. 2;
  index = λ l. 0;
  topology = λ l. star;
  lost = λ l peer. false;
  inbox = λ l peer. empty;
  set_inbox = λ l peer inbox. l;
  broadcast = λ l bytes. (ok tt, bytes ∷ l);
  pump = λ l. l;
  describe = λ e. [];
}

abbrev config : SessionConfig
config = record {
  input_delay = 2;
  hash_check_interval = 16;
  seed = 1;
  start_tick = 0;
  initial_state_hash = 5;
  tick_rate = 60;
  build_id = [];
  on_peer_lost = loss_drops;
}

abbrev session : SessionState → Option ℕ → Session (List Bytes)
session state finish_tick = record {
  link = [];
  config = config;
  state = state;
  self = 0;
  agreed_delay = 2;
  peers = 0 ∷ 1 ∷ [];
  heard = none ∷ none ∷ [];
  last_turn_sent = some 22;
  finish_tick = finish_tick;
  peer_finish = none ∷ some 20 ∷ [];
  turns_from = 0 ∷ 21 ∷ [];
  dropped = false ∷ false ∷ [];
  left = false ∷ false ∷ [];
  pending_drops = [];
  compared_through = none ∷ some 16 ∷ [];
  checkpoints = [];
  pending_checks = [];
  diverged_at = none;
  stats = record {
    turns_sent = 0;
    turns_received = 0;
    commands_received = 0;
    hash_checks_sent = 0;
    hash_checks_agreed = 0;
  };
}

abbrev no_commands : CommandQueue ℕ
no_commands = record { handlers = []; next_sequences = []; pending = [] }

abbrev gate : TurnGate
gate = record { expected = []; ids = []; floor = 0 }

abbrev polled : Polled (List Bytes) ℕ
polled = record {
  session = session finishing (some 20);
  queue = no_commands;
  turns = gate;
  report = empty_report;
}

undeclared-IsAgreed : (state : SessionState) → IsAgreed (session state none)
unfolding any_differs
undeclared-IsAgreed state = (20, refl, refl)

finishing-IsAgreed : IsAgreed (session finishing (some 20))
unfolding any_differs
finishing-IsAgreed = (20, refl, refl)

poll-IsAgreed_example :
    IsAgreed (poll wire 21 (session finishing (some 20)) no_commands gate).1.session
poll-IsAgreed_example =
    poll-IsAgreed wire 21 (session finishing (some 20)) no_commands gate finishing-IsAgreed

abbrev forged : Message
forged = says_turn (record {
  tick = 30;
  source = 1;
  commands = record { target = 30; source = 0; sequence = 5; type = 77; payload = [] } ∷ [];
})

handle-Adds_example : Adds 1 no_commands (handle wire polled 1 forged 21).1.queue
handle-Adds_example = handle-Adds wire polled 1 forged 21
