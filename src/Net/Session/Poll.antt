-- ===== src/Net/Session/Poll.antt =====
-- `poll`, `read_everything_from`, `complete_drops` and `handle_lost_peers`.
use atlas_engine.Base.{
  ℕ, zero, suc, ◌+◌, Bool, true, false, not, ◌&&◌, ◌||◌, Option, none, some, List, [], ◌∷◌, ltb,
  ◌==◌, if◌then◌else◌, u64,
}
use atlas_engine.Core.Error.{
  Result, Status, ok, err, ErrorCode, invalid_argument, unavailable, exhausted,
}
use atlas_engine.Simulation.SaveStream.{Bytes}
use atlas_engine.Simulation.Command.{CommandQueue}
use atlas_engine.Simulation.TurnGate.{TurnGate}
use atlas_engine.Net.Protocol.{ByeReason, protocol_error, diverged, overflow}
use atlas_engine.Net.Inbox.{CommandInbox, push, drain}
use atlas_engine.Net.Message.{Message, Drop, says_hello, says_drop}
use atlas_engine.Net.Message.Encode.{encode}
use atlas_engine.Net.Message.Decode.{decode}
use atlas_engine.Net.Session.{
  Link, handshaking, finished, ended, Session, Polled, PollReport, drops_peers, flag_of, count_of,
  has_tick, same_state, peers_from, ◌>>>◌, max_messages_per_peer_per_poll,
}
use atlas_engine.Net.Session.Handshake.{end}
use atlas_engine.Net.Session.Finish.{finish_is_complete}
use atlas_engine.Net.Session.Checks.{may_send}
use atlas_engine.Net.Session.Drops.{apply_drop}
use atlas_engine.Net.Session.Handle.{handle}

abbrev pub empty_report : PollReport
empty_report = record {
  commands_submitted = 0;
  commands_refused = 0;
  turns_marked = 0;
  highest_target = 0;
  is_finished = false;
  dropped = [];
}

abbrev pub is_hello : Message → Bool
is_hello (says_hello m) = true
is_hello _ = false

abbrev pub reason_of : Option ℕ → ByeReason
reason_of diverged_at = if has_tick diverged_at then diverged else protocol_error

-- A tick past a finish that some peer declared has been run.
unfoldable pub ran_past : List (Option ℕ) → ℕ → Bool
ran_past [] now = false
ran_past (none ∷ ts) now = ran_past ts now
ran_past (some t ∷ ts) now = ltb (u64 (t + 1)) now || ran_past ts now

-- What is not read goes back into the inbox, in order.
unfoldable pub put_back : CommandInbox → List Bytes → CommandInbox
put_back inbox [] = inbox
put_back inbox (b ∷ bs) = put_back (push inbox b).1 bs

module _ {L W : Type 0} (ops : Link L) where
  unfoldable pub ends : Polled L W → ByeReason → ErrorCode → Status × Polled L W
  unfolding end
  ends p reason e = (err e, record p { session = end ops p.session reason (ops.describe e) })

  -- A message that was refused ends the session.
  unfoldable pub or_end : Status × Polled L W → Status × Polled L W
  unfolding ends
  or_end (ok done, p) = (ok tt, p)
  or_end (err e, p) = ends p (reason_of p.session.diverged_at) e

  unfoldable pub go_on :
      List Bytes
      → (Polled L W → Status × (List Bytes × Polled L W))
      → Status × Polled L W
      → Status × (List Bytes × Polled L W)
  go_on waiting next (ok done, p) = next p
  go_on waiting next (err e, p) = (err e, (waiting, p))

  -- Before every peer has been heard only announcements are read, and the rest waits.
  unfoldable pub read_one :
      ℕ
      → ℕ
      → Bytes
      → List Bytes
      → (Polled L W → Status × (List Bytes × Polled L W))
      → Polled L W
      → Result Message
      → Status × (List Bytes × Polled L W)
  unfolding ends or_end handle go_on
  read_one peer now bytes waiting next p (err e) =
      let out = ends p protocol_error e in (out.0, (waiting, out.1))
  read_one peer now bytes waiting next p (ok message) =
      if same_state p.session.state handshaking && not (is_hello message)
      then (ok tt, (bytes ∷ waiting, p))
      else go_on waiting next (or_end (handle ops p peer message now))

  -- The messages of one peer, up to a number; what is not read is returned.
  unfoldable pub read_messages :
      ℕ → ℕ → ℕ → List Bytes → Polled L W → Status × (List Bytes × Polled L W)
  unfolding read_one
  read_messages zero peer now waiting p = (ok tt, (waiting, p))
  read_messages (suc n) peer now [] p = (ok tt, ([], p))
  read_messages (suc n) peer now (bytes ∷ waiting) p =
      read_one peer now bytes waiting (read_messages n peer now waiting) p (decode bytes)

  -- The inbox of a peer once it has been emptied.
  abbrev pub emptied : Polled L W → ℕ → Polled L W
  emptied p peer = record p {
    session = record p.session {
      link = ops.set_inbox p.session.link peer (drain (ops.inbox p.session.link peer)).1;
    };
  }

  abbrev pub returned : ℕ → List Bytes × Polled L W → Polled L W
  returned peer (waiting, p) = record p {
    session = record p.session {
      link = ops.set_inbox p.session.link peer (put_back (ops.inbox p.session.link peer) waiting);
    };
  }

  unfoldable pub give_back : ℕ → Status × (List Bytes × Polled L W) → Status × Polled L W
  unfolding put_back
  give_back peer (ok done, out) = (ok tt, returned peer out)
  give_back peer (err e, (waiting, p)) = (err e, p)

  unfoldable pub poll_peer : ℕ → ℕ → Polled L W → Status × Polled L W
  unfolding ends read_messages give_back
  poll_peer now peer p =
      let inbox = ops.inbox p.session.link peer in
      if peer == ops.index p.session.link
      then (ok tt, p)
      else if flag_of p.session.dropped peer
      then (ok tt, emptied p peer)
      else if inbox.has_overflowed
      then ends p overflow exhausted
      else give_back peer
          (read_messages max_messages_per_peer_per_poll peer now (drain inbox).0 (emptied p peer))

  unfoldable pub for_peers :
      (ℕ → Polled L W → Status × Polled L W) → List ℕ → Polled L W → Status × Polled L W
  for_peers f [] p = (ok tt, p)
  for_peers f (peer ∷ peers) p = f peer p >>> for_peers f peers

  unfoldable pub read_any : ℕ → ℕ → Polled L W → Result Message → Status × Polled L W
  unfolding handle
  read_any peer now p (err e) = (err e, p)
  read_any peer now p (ok message) = handle ops p peer message now

  -- Every message, with no limit on their number.
  unfoldable pub read_all_messages : ℕ → ℕ → List Bytes → Polled L W → Status × Polled L W
  unfolding read_any
  read_all_messages peer now [] p = (ok tt, p)
  read_all_messages peer now (bytes ∷ waiting) p =
      read_any peer now p (decode bytes) >>> read_all_messages peer now waiting

  unfoldable pub read_everything_from : ℕ → ℕ → Polled L W → Status × Polled L W
  unfolding read_all_messages
  read_everything_from now peer p =
      let inbox = ops.inbox p.session.link peer in
      if inbox.has_overflowed
      then (err exhausted, p)
      else read_all_messages peer now (drain inbox).0 (emptied p peer)

  unfoldable pub complete_drop : ℕ → Drop → Polled L W → Status × Polled L W
  unfolding read_everything_from apply_drop
  complete_drop now drop p = read_everything_from now drop.source p >>> λ p.
      if not (count_of p.session.turns_from drop.source == drop.turns)
      then (err invalid_argument, p)
      else apply_drop p drop.source

  unfoldable pub complete_each : ℕ → List Drop → Polled L W → Status × Polled L W
  unfolding complete_drop
  complete_each now [] p = (ok tt, p)
  complete_each now (drop ∷ drops) p = complete_drop now drop p >>> complete_each now drops

  -- The list is taken out first.
  unfoldable pub complete_drops : ℕ → Polled L W → Status × Polled L W
  unfolding complete_each
  complete_drops now p =
      complete_each now p.session.pending_drops
        (record p { session = record p.session { pending_drops = [] } })

  unfoldable pub announce_drop : ℕ → Result Bytes → Polled L W → Status × Polled L W
  unfolding apply_drop
  announce_drop peer (err e) p = (err e, p)
  announce_drop peer (ok bytes) p =
      let out = ops.broadcast p.session.link bytes in
      (out.0, record p { session = record p.session { link = out.1 } }) >>> λ p. apply_drop p peer

  unfoldable pub handle_lost_peer : ℕ → ℕ → Polled L W → Status × Polled L W
  unfolding read_everything_from announce_drop
  handle_lost_peer now peer p =
      let s = p.session in
      if peer == ops.index s.link || flag_of s.dropped peer
      then (ok tt, p)
      else if not (ops.lost s.link peer) && not (flag_of s.left peer)
      then (ok tt, p)
      else if not (drops_peers s.config.on_peer_lost) || not (may_send s.state)
      then (err unavailable, p)
      else if not (ops.index s.link == 0)
      then if peer == 0 then (err unavailable, p) else (ok tt, p)
      else read_everything_from now peer p >>> λ p.
          announce_drop peer
            (encode
              (says_drop (record { source = peer; turns = count_of p.session.turns_from peer })))
            p

  unfoldable pub or_protocol_error : Status × Polled L W → Status × Polled L W
  unfolding ends
  or_protocol_error (ok done, p) = (ok tt, p)
  or_protocol_error (err e, p) = ends p protocol_error e

  -- What follows once the inboxes have been read.
  unfoldable pub settle : ℕ → Polled L W → Status × Polled L W
  unfolding finish_is_complete for_peers handle_lost_peer or_protocol_error
  settle now p =
      if finish_is_complete ops p.session now
      then (
        ok tt,
        record p {
          session = record p.session { state = finished };
          report = record p.report { is_finished = true };
        },
      )
      else or_protocol_error
          (for_peers (handle_lost_peer now) (peers_from 0 (ops.peer_count p.session.link)) p)

  unfoldable pub drops_then_settle : ℕ → Polled L W → Status × Polled L W
  unfolding complete_drops settle or_protocol_error
  drops_then_settle now p = or_protocol_error (complete_drops now p) >>> settle now

  -- What arrives in a finished session is read and discarded.
  unfoldable pub discard : List ℕ → Polled L W → Polled L W
  discard [] p = p
  discard (peer ∷ peers) p =
      discard peers (if peer == ops.index p.session.link then p else emptied p peer)

  unfoldable pub poll_pumped : ℕ → Polled L W → Status × Polled L W
  unfolding discard ran_past ends for_peers poll_peer drops_then_settle
  poll_pumped now p =
      let peers = peers_from 0 (ops.peer_count p.session.link) in
      if same_state p.session.state finished
      then (
        ok tt,
        let q : Polled L W = discard peers p in
            record q { report = record q.report { is_finished = true } },
      )
      else if ran_past p.session.peer_finish now
      then ends p protocol_error invalid_argument
      else for_peers (poll_peer now) peers p >>> drops_then_settle now

  unfoldable pub poll : ℕ → Session L → CommandQueue W → TurnGate → Status × Polled L W
  unfolding poll_pumped
  poll now s queue turns =
      let start : Polled L W = record {
        session = s;
        queue = queue;
        turns = turns;
        report = empty_report;
      } in
      let pumped : Polled L W = record start { session = record s { link = ops.pump s.link } } in
      if same_state s.state ended then (err unavailable, start) else poll_pumped now pumped
