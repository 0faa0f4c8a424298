-- ===== src/Net/Session/Handle.antt =====
-- `handle`: one message of a peer.
use atlas_engine.Base.{
  ℕ, Bool, true, false, not, ◌&&◌, Option, none, some, List, [], ◌∷◌, ◌==◌, if◌then◌else◌, set, max,
}
use atlas_engine.Core.Error.{Result, Status, ok, err, invalid_argument, unavailable}
use atlas_engine.Simulation.TurnGate.{TurnGate, expect_sources}
use atlas_engine.Net.Message.{
  Hello, HashCheck, Message, says_hello, says_welcome, says_turn, says_hash_check, says_bye,
  says_finish, says_drop,
}
use atlas_engine.Net.Session.{
  Link, running, handshaking, Session, Polled, drops_peers, same_state, peers_from,
}
use atlas_engine.Net.Session.Handshake.{own_hello, check_compatible}
use atlas_engine.Net.Session.Finish.{accept_finish}
use atlas_engine.Net.Session.Checks.{compare_or_hold}
use atlas_engine.Net.Session.Turns.{handle_turn}
use atlas_engine.Net.Session.Drops.{accept_drop}

unfoldable pub all_heard : List (Option Hello) → Bool
all_heard [] = true
all_heard (none ∷ hs) = false
all_heard (some h ∷ hs) = all_heard hs

-- The largest delay that anybody proposed.
unfoldable pub largest_delay : ℕ → List (Option Hello) → ℕ
largest_delay delay [] = delay
largest_delay delay (none ∷ hs) = largest_delay delay hs
largest_delay delay (some h ∷ hs) = largest_delay (max delay h.proposed_delay) hs

-- What a call changes of the session alone.
abbrev pub in_session : {L W : Type 0} → Polled L W → Status × Session L → Status × Polled L W
in_session p out = (out.0, record p { session = out.1 })

module _ {L : Type 0} where
  unfoldable pub handle_bye : Session L → ℕ → Status × Session L
  handle_bye s peer =
      if drops_peers s.config.on_peer_lost
        && not (peer == 0)
        && not (same_state s.state handshaking)
      then (ok tt, record s { left = set s.left peer true })
      else (err unavailable, s)

  unfoldable pub handle_hash_check : Session L → ℕ → HashCheck → Status × Session L
  unfolding compare_or_hold
  handle_hash_check s peer check =
      if not (check.source == peer) then (err invalid_argument, s) else compare_or_hold s peer check

module _ {L : Type 0} (ops : Link L) where
  -- This peer counts as heard with the other.
  unfoldable pub hear : Session L → ℕ → Hello → Session L
  hear s peer hello = record s {
    heard = set (set s.heard peer (some hello)) (ops.index s.link) (some (own_hello ops s));
  }

module _ {L W : Type 0} (ops : Link L) where
  unfoldable pub start_running : Polled L W → Result TurnGate → Status × Polled L W
  start_running p (err e) = (err e, p)
  start_running p (ok turns) =
      (ok tt, record p { session = record p.session { state = running }; turns = turns })

  -- The peers agree once every one has been heard, this one included.
  unfoldable pub agree : Polled L W → Status × Polled L W
  unfolding all_heard largest_delay start_running
  agree p =
      let s = p.session in
      let agreed = record s {
        agreed_delay = largest_delay 0 s.heard;
        peers = peers_from 0 (ops.peer_count s.link);
        self = ops.index s.link;
      } in
      if all_heard s.heard
      then start_running (record p { session = agreed }) (expect_sources p.turns agreed.peers)
      else (ok tt, p)

  unfoldable pub greeted : Polled L W → ℕ → Hello → Status → Status × Polled L W
  unfolding agree hear
  greeted p peer hello (err e) = (err e, p)
  greeted p peer hello (ok done) = agree (record p { session = hear ops p.session peer hello })

  unfoldable pub handle_hello : Polled L W → ℕ → Hello → Status × Polled L W
  unfolding greeted check_compatible
  handle_hello p peer hello =
      greeted p peer hello (check_compatible (own_hello ops p.session) hello)

  unfoldable pub handle : Polled L W → ℕ → Message → ℕ → Status × Polled L W
  unfolding handle_hello handle_turn handle_hash_check handle_bye accept_drop accept_finish
  handle p peer (says_hello hello) now = handle_hello p peer hello
  handle p peer (says_turn turn) now = handle_turn p peer turn now
  handle p peer (says_hash_check check) now = in_session p (handle_hash_check p.session peer check)
  handle p peer (says_bye bye) now = in_session p (handle_bye p.session peer)
  handle p peer (says_drop drop) now = in_session p (accept_drop ops p.session peer drop)
  handle p peer (says_finish finish) now = in_session p (accept_finish p.session peer finish now)
  handle p peer (says_welcome welcome) now = (err invalid_argument, p)
