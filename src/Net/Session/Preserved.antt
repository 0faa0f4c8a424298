-- ===== src/Net/Session/Preserved.antt =====
-- What every step of `poll` preserves, `poll` preserves.
use atlas_engine.Base.{
  ℕ, zero, suc, Bool, true, false, List, [], ◌∷◌, if◌then◌else◌, ◌==◌, not, ◌&&◌, ◌||◌,
}
use atlas_engine.Core.Error.{Result, Status, ok, err, ErrorCode}
use atlas_engine.Simulation.SaveStream.{Bytes}
use atlas_engine.Simulation.Command.{CommandQueue}
use atlas_engine.Simulation.TurnGate.{TurnGate}
use atlas_engine.Net.Inbox.{drain}
use atlas_engine.Net.Protocol.{ByeReason, protocol_error}
use atlas_engine.Net.Message.{Message, Drop}
use atlas_engine.Net.Message.Decode.{decode}
use atlas_engine.Net.Session.{
  Link, Session, finished, ended, drops_peers, flag_of, Polled, handshaking, same_state, ◌>>>◌,
  count_of, peers_from, max_messages_per_peer_per_poll,
}
use atlas_engine.Net.Session.Handshake.{end}
use atlas_engine.Net.Session.Finish.{finish_is_complete}
use atlas_engine.Net.Session.Checks.{may_send}
use atlas_engine.Net.Session.Drops.{apply_drop}
use atlas_engine.Net.Session.Handle.{handle}
use atlas_engine.Net.Session.Poll.{
  ends, or_end, go_on, read_one, give_back, read_any, or_protocol_error, ran_past, read_messages,
  emptied, poll_peer, for_peers, read_all_messages, read_everything_from, complete_drop,
  complete_each, complete_drops, announce_drop, handle_lost_peer, settle, drops_then_settle,
  discard, poll_pumped, poll, is_hello,
}

-- The steps that a poll is made of.
pub record Preserves {L : Type 0} (W : Type 0) (ops : Link L) (P : Session L → Type 0)
    : Type 0 where
  pub link : (s : Session L) (link : L) → P s → P (record s { link = link })
  pub ending :
      (s : Session L) (reason : ByeReason) (detail : Bytes) → P s → P (end ops s reason detail)
  pub finishes : (s : Session L) → P s → P (record s { state = finished })
  pub takes_drops : (s : Session L) → P s → P (record s { pending_drops = [] })
  pub drops : (p : Polled L W) (peer : ℕ) → P p.session → P (apply_drop p peer).1.session
  pub handles :
      (p : Polled L W) (peer : ℕ) (message : Message) (now : ℕ)
      → P p.session
      → P (handle ops p peer message now).1.session

module _ {L W : Type 0} (ops : Link L) (P : Session L → Type 0) (pr : Preserves W ops P) where
  abbrev On : Status × Polled L W → Type 0
  On out = P out.1.session

  branch : (b : Bool) (x y : Status × Polled L W) → On x → On y → On (if b then x else y)
  branch true x y h k = h
  branch false x y h k = k

  chain :
      (x : Status × Polled L W) (f : Polled L W → Status × Polled L W)
      → On x
      → ((p : Polled L W) → P p.session → On (f p))
      → On (x >>> f)
  chain (ok done, p) f h k = k p h
  chain (err e, p) f h k = h

  ends_lem :
      (p : Polled L W) (reason : ByeReason) (e : ErrorCode) → P p.session → On (ends ops p reason e)
  unfolding ends
  ends_lem p reason e h = pr.ending p.session reason _ h

  or_end_lem : (out : Status × Polled L W) → On out → On (or_end ops out)
  unfolding or_end
  or_end_lem (ok done, p) h = h
  or_end_lem (err e, p) h = ends_lem p _ e h

  abbrev Reads : Status × (List Bytes × Polled L W) → Type 0
  Reads out = P out.1.1.session

  read_branch :
      (b : Bool) (x y : Status × (List Bytes × Polled L W))
      → Reads x
      → Reads y
      → Reads (if b then x else y)
  read_branch true x y h k = h
  read_branch false x y h k = k

  go_on_lem :
      (waiting : List Bytes) (next : Polled L W → Status × (List Bytes × Polled L W))
      (out : Status × Polled L W)
      → ((p : Polled L W) → P p.session → Reads (next p))
      → On out
      → Reads (go_on ops waiting next out)
  unfolding go_on
  go_on_lem waiting next (ok done, p) k h = k p h
  go_on_lem waiting next (err e, p) k h = h

  read_one_lem :
      (peer now : ℕ) (bytes : Bytes) (waiting : List Bytes)
      (next : Polled L W → Status × (List Bytes × Polled L W)) (p : Polled L W) (r : Result Message)
      → ((p : Polled L W) → P p.session → Reads (next p))
      → P p.session
      → Reads (read_one ops peer now bytes waiting next p r)
  unfolding read_one
  read_one_lem peer now bytes waiting next p (err e) k h = ends_lem p protocol_error e h
  read_one_lem peer now bytes waiting next p (ok message) k h =
      read_branch (same_state p.session.state handshaking && not (is_hello message)) _ _ h (
        go_on_lem waiting next (or_end ops (handle ops p peer message now)) k
          (or_end_lem (handle ops p peer message now) (pr.handles p peer message now h)))

  read_messages_lem :
      (n peer now : ℕ) (waiting : List Bytes) (p : Polled L W)
      → P p.session
      → Reads (read_messages ops n peer now waiting p)
  unfolding read_messages
  read_messages_lem zero peer now waiting p h = h
  read_messages_lem (suc n) peer now [] p h = h
  read_messages_lem (suc n) peer now (bytes ∷ waiting) p h =
      read_one_lem peer now bytes waiting (read_messages ops n peer now waiting) p (decode bytes)
        (read_messages_lem n peer now waiting) h

  give_back_lem :
      (peer : ℕ) (out : Status × (List Bytes × Polled L W))
      → Reads out
      → On (give_back ops peer out)
  unfolding give_back
  give_back_lem peer (ok done, (waiting, p)) h = pr.link p.session _ h
  give_back_lem peer (err e, (waiting, p)) h = h

  emptied_lem : (p : Polled L W) (peer : ℕ) → P p.session → P (emptied ops p peer).session
  emptied_lem p peer h = pr.link p.session _ h

  poll_peer_lem : (now peer : ℕ) (p : Polled L W) → P p.session → On (poll_peer ops now peer p)
  unfolding poll_peer
  poll_peer_lem now peer p h = branch (peer == ops.index p.session.link) _ _ h (
      branch (flag_of p.session.dropped peer) _ _ (emptied_lem p peer h) (
        branch (ops.inbox p.session.link peer).has_overflowed _ _ (ends_lem p _ _ h) (
          give_back_lem peer
            (read_messages ops max_messages_per_peer_per_poll peer now
              (drain (ops.inbox p.session.link peer)).0 (emptied ops p peer))
            (read_messages_lem max_messages_per_peer_per_poll peer now
              (drain (ops.inbox p.session.link peer)).0 (emptied ops p peer)
              (emptied_lem p peer h)))))

  for_peers_lem :
      (f : ℕ → Polled L W → Status × Polled L W)
      → ((peer : ℕ) (p : Polled L W) → P p.session → On (f peer p))
      → (peers : List ℕ) (p : Polled L W) → P p.session
      → On (for_peers ops f peers p)
  unfolding for_peers
  for_peers_lem f k [] p h = h
  for_peers_lem f k (peer ∷ peers) p h =
      chain (f peer p) (for_peers ops f peers) (k peer p h) (for_peers_lem f k peers)

  read_any_lem :
      (peer now : ℕ) (p : Polled L W) (r : Result Message)
      → P p.session
      → On (read_any ops peer now p r)
  unfolding read_any
  read_any_lem peer now p (err e) h = h
  read_any_lem peer now p (ok message) h = pr.handles p peer message now h

  read_all_messages_lem :
      (peer now : ℕ) (waiting : List Bytes) (p : Polled L W)
      → P p.session
      → On (read_all_messages ops peer now waiting p)
  unfolding read_all_messages
  read_all_messages_lem peer now [] p h = h
  read_all_messages_lem peer now (bytes ∷ waiting) p h =
      chain (read_any ops peer now p (decode bytes)) (read_all_messages ops peer now waiting)
        (read_any_lem peer now p (decode bytes) h) (read_all_messages_lem peer now waiting)

  read_everything_from_lem :
      (now peer : ℕ) (p : Polled L W) → P p.session → On (read_everything_from ops now peer p)
  unfolding read_everything_from
  read_everything_from_lem now peer p h =
      branch (ops.inbox p.session.link peer).has_overflowed _ _ h
        (read_all_messages_lem peer now _ (emptied ops p peer) (emptied_lem p peer h))

  complete_drop_lem :
      (now : ℕ) (drop : Drop) (p : Polled L W) → P p.session → On (complete_drop ops now drop p)
  unfolding complete_drop
  complete_drop_lem now drop p h =
      chain (read_everything_from ops now drop.source p) _
        (read_everything_from_lem now drop.source p h)
        (λ q k.
          branch (not (count_of q.session.turns_from drop.source == drop.turns)) _ _ k
            (pr.drops q drop.source k))

  complete_each_lem :
      (now : ℕ) (drops : List Drop) (p : Polled L W)
      → P p.session
      → On (complete_each ops now drops p)
  unfolding complete_each
  complete_each_lem now [] p h = h
  complete_each_lem now (drop ∷ drops) p h =
      chain (complete_drop ops now drop p) (complete_each ops now drops)
        (complete_drop_lem now drop p h) (complete_each_lem now drops)

  complete_drops_lem : (now : ℕ) (p : Polled L W) → P p.session → On (complete_drops ops now p)
  unfolding complete_drops
  complete_drops_lem now p h =
      complete_each_lem now p.session.pending_drops _ (pr.takes_drops p.session h)

  announce_drop_lem :
      (peer : ℕ) (r : Result Bytes) (p : Polled L W) → P p.session → On (announce_drop ops peer r p)
  unfolding announce_drop
  announce_drop_lem peer (err e) p h = h
  announce_drop_lem peer (ok bytes) p h =
      chain
        (
          (ops.broadcast p.session.link bytes).0,
          record p { session = record p.session { link = (ops.broadcast p.session.link bytes).1 } },
        )
        _ (pr.link p.session _ h) (λ q k. pr.drops q peer k)

  handle_lost_peer_lem :
      (now peer : ℕ) (p : Polled L W) → P p.session → On (handle_lost_peer ops now peer p)
  unfolding handle_lost_peer
  handle_lost_peer_lem now peer p h =
      let s = p.session in
      branch (peer == ops.index s.link || flag_of s.dropped peer) _ _ h (
        branch (not (ops.lost s.link peer) && not (flag_of s.left peer)) _ _ h (
          branch (not (drops_peers s.config.on_peer_lost) || not (may_send s.state)) _ _ h (
            branch (not (ops.index s.link == 0)) _ _ (branch (peer == 0) _ _ h h) (
              chain (read_everything_from ops now peer p) _ (read_everything_from_lem now peer p h)
                (λ q k. announce_drop_lem peer _ q k)))))

  or_protocol_error_lem : (out : Status × Polled L W) → On out → On (or_protocol_error ops out)
  unfolding or_protocol_error
  or_protocol_error_lem (ok done, p) h = h
  or_protocol_error_lem (err e, p) h = ends_lem p protocol_error e h

  settle_lem : (now : ℕ) (p : Polled L W) → P p.session → On (settle ops now p)
  unfolding settle
  settle_lem now p h = branch (finish_is_complete ops p.session now) _ _ (pr.finishes p.session h) (
      or_protocol_error_lem (for_peers ops (handle_lost_peer ops now) _ p)
        (for_peers_lem (handle_lost_peer ops now) (handle_lost_peer_lem now) _ p h))

  drops_then_settle_lem :
      (now : ℕ) (p : Polled L W) → P p.session → On (drops_then_settle ops now p)
  unfolding drops_then_settle
  drops_then_settle_lem now p h =
      chain (or_protocol_error ops (complete_drops ops now p)) (settle ops now)
        (or_protocol_error_lem (complete_drops ops now p) (complete_drops_lem now p h))
        (settle_lem now)

  keep_or_empty :
      (b : Bool) (p : Polled L W) (peer : ℕ)
      → P p.session
      → P (if b then p else emptied ops p peer).session
  keep_or_empty true p peer h = h
  keep_or_empty false p peer h = emptied_lem p peer h

  discard_lem : (peers : List ℕ) (p : Polled L W) → P p.session → P (discard ops peers p).session
  unfolding discard
  discard_lem [] p h = h
  discard_lem (peer ∷ peers) p h =
      discard_lem peers _ (keep_or_empty (peer == ops.index p.session.link) p peer h)

  poll_pumped_lem : (now : ℕ) (p : Polled L W) → P p.session → On (poll_pumped ops now p)
  unfolding poll_pumped
  poll_pumped_lem now p h =
      let peers = peers_from 0 (ops.peer_count p.session.link) in
      branch (same_state p.session.state finished) _ _ (discard_lem peers p h) (
        branch (ran_past p.session.peer_finish now) _ _ (ends_lem p _ _ h) (
          chain (for_peers ops (poll_peer ops now) peers p) (drops_then_settle ops now)
            (for_peers_lem (poll_peer ops now) (poll_peer_lem now) peers p h)
            (drops_then_settle_lem now)))

  pub poll-Preserves :
      (now : ℕ) (s : Session L) (queue : CommandQueue W) (turns : TurnGate)
      → P s
      → P (poll ops now s queue turns).1.session
  unfolding poll
  poll-Preserves now s queue turns h =
      branch (same_state s.state ended) _ _ h (poll_pumped_lem now _ (pr.link s _ h))
