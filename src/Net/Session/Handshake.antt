-- ===== src/Net/Session/Handshake.antt =====
-- `create`, `own_hello`, `check_compatible`, `end` and `quit`.
use atlas_engine.Base.{Bool, true, false, not, ◌&&◌, none, [], ◌==◌, replicate}
use atlas_engine.Core.Error.{
  Result, Status, ok, err, guard, ◌>>=◌, ◌>>◌, invalid_argument, version_mismatch,
}
use atlas_engine.Core.Hash.{hash_algorithm_version}
use atlas_engine.Simulation.SaveStream.{Bytes}
use atlas_engine.Simulation.Replay.{replay_format_version}
use atlas_engine.Net.Protocol.{ByeReason, quit}
use atlas_engine.Net.Message.{Hello, Message, says_hello, says_bye}
use atlas_engine.Net.Message.Encode.{encode}
use atlas_engine.Net.Session.{
  Topology, mesh, star, Link, SessionConfig, SessionState, handshaking, running, finishing,
  finished, ended, Session, drops_peers, save_format_version, golden_final_state, golden_all_ticks,
}

unfoldable pub hello_of : SessionConfig → Hello
hello_of config = record {
  hash_algorithm_version = hash_algorithm_version;
  save_format_version = save_format_version;
  replay_format_version = replay_format_version;
  build_id = config.build_id;
  golden_final_state = golden_final_state;
  golden_all_ticks = golden_all_ticks;
  seed = config.seed;
  start_tick = config.start_tick;
  initial_state_hash = config.initial_state_hash;
  tick_rate = config.tick_rate;
  proposed_delay = config.input_delay;
}

-- The build's identifier is logged and never refused.
unfoldable pub check_compatible : Hello → Hello → Status
check_compatible mine hello = do
  guard (hello.hash_algorithm_version == mine.hash_algorithm_version) version_mismatch
  guard (hello.save_format_version == mine.save_format_version) version_mismatch
  guard (hello.replay_format_version == mine.replay_format_version) version_mismatch
  guard
      (hello.golden_final_state == mine.golden_final_state
        && hello.golden_all_ticks == mine.golden_all_ticks)
      version_mismatch
  guard (hello.seed == mine.seed) version_mismatch
  guard (hello.start_tick == mine.start_tick) version_mismatch
  guard (hello.initial_state_hash == mine.initial_state_hash) version_mismatch
  guard (hello.tick_rate == mine.tick_rate) version_mismatch
  ok tt

is_star : Topology → Bool
is_star star = true
is_star mesh = false

module _ {L : Type 0} (ops : Link L) where
  unfoldable pub own_hello : Session L → Hello
  unfolding hello_of
  own_hello s = hello_of s.config

  begin : L → SessionConfig → Session L
  begin link config =
      let n = ops.peer_count link in
      record {
        link = link;
        config = config;
        state = handshaking;
        self = 0;
        agreed_delay = config.input_delay;
        peers = [];
        heard = replicate n none;
        last_turn_sent = none;
        finish_tick = none;
        peer_finish = replicate n none;
        turns_from = replicate n 0;
        dropped = replicate n false;
        left = replicate n false;
        pending_drops = [];
        compared_through = replicate n none;
        checkpoints = [];
        pending_checks = [];
        diverged_at = none;
        stats = record {
          turns_sent = 0;
          turns_received = 0;
          commands_received = 0;
          hash_checks_sent = 0;
          hash_checks_agreed = 0;
        };
      }

  announced : Session L → Bytes → Result (Session L)
  announced s announcement =
      let out = ops.broadcast s.link announcement in out.0 >> ok (record s { link = out.1 })

  pub create : L → SessionConfig → Result (Session L)
  unfolding begin own_hello announced is_star
  create link config = do
    guard (not (config.hash_check_interval == 0)) invalid_argument
    guard (not (config.input_delay == 0)) invalid_argument
    guard (not (drops_peers config.on_peer_lost && not (is_star (ops.topology link))))
        invalid_argument
    announcement ← encode (says_hello (own_hello (begin link config)))
    announced (begin link config) announcement

  -- Whether a farewell arrives does not matter.
  unfoldable pub farewell : Session L → Result Bytes → Session L
  farewell s (ok bytes) = record s { link = (ops.broadcast s.link bytes).1 }
  farewell s (err e) = s

  unfoldable pub end_in : SessionState → Session L → Message → Session L
  unfolding farewell
  end_in ended s bye = s
  end_in finished s bye = s
  end_in handshaking s bye = farewell (record s { state = ended }) (encode bye)
  end_in running s bye = farewell (record s { state = ended }) (encode bye)
  end_in finishing s bye = farewell (record s { state = ended }) (encode bye)

  unfoldable pub end : Session L → ByeReason → Bytes → Session L
  unfolding end_in
  end s reason detail = end_in s.state s (says_bye (record { reason = reason; detail = detail }))

  -- The detail is the text "this peer left".
  pub quit_session : Session L → Bytes → Session L
  quit_session s detail = end s quit detail
