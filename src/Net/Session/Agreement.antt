-- ===== src/Net/Session/Agreement.antt =====
-- The finishes that a session knows of agree, whatever arrives.
use atlas_engine.Base.{
  ℕ, zero, suc, ◌≡◌, refl, sym, ◌∙◌, subst, Bool, true, false, not, ◌&&◌, ◌||◌, ◌==◌, ==_refl,
  Option, none, some, List, [], ◌∷◌, set, ltb, leb, if◌then◌else◌, length, ◌%◌,
}
use atlas_engine.Core.Error.{Result, Status, ok, err, invalid_argument}
use atlas_engine.Simulation.SaveStream.{Bytes}
use atlas_engine.Simulation.Command.{Command, CommandQueue, submit_stamped}
use atlas_engine.Simulation.TurnGate.{TurnGate, mark_complete}
use atlas_engine.Net.Protocol.{ByeReason, protocol_error}
use atlas_engine.Net.Message.{
  Turn, HashCheck, Drop, Finish, Message, says_hello, says_welcome, says_turn, says_hash_check,
  says_bye, says_finish, says_drop,
}
use atlas_engine.Net.Message.Encode.{encode}
use atlas_engine.Net.Session.{
  Link, Session, SessionState, handshaking, running, finishing, finished, ended, Polled, Checkpoint,
  same_state, drops_peers, flag_of, tick_of, max_pending_checks,
}
use atlas_engine.Net.Session.Handshake.{end, end_in, farewell}
use atlas_engine.Net.Session.Finish.{
  differs, any_differs, sent_before, finish_sent, send_finish, finish, accept_finish,
}
use atlas_engine.Net.Session.Checks.{
  find_checkpoint, ahead_of, compare_check, hold_check, compare_or_hold,
}
use atlas_engine.Net.Session.Turns.{
  all_from, submit_one, submit_all, count_turn, mark_turn, handle_turn,
}
use atlas_engine.Net.Session.Drops.{accept_drop, apply_drop, forget_peer, finish_drop, drop_pending}
use atlas_engine.Net.Session.Handle.{handle, handle_bye, handle_hash_check}
use atlas_engine.Net.Session.Greets.{handle_hello-Kept}
use atlas_engine.Net.Session.Preserved.{Preserves, poll-Preserves}
use atlas_engine.Net.Session.Poll.{poll}

-- There is one tick that every finish declared so far names, this peer's own included.
abbrev pub Agrees : Option ℕ → List (Option ℕ) → Type 0
Agrees own theirs = (last : ℕ) × (any_differs theirs last ≡ false) × (differs own last ≡ false)

abbrev pub IsAgreed : {L : Type 0} → Session L → Type 0
IsAgreed s = Agrees s.finish_tick s.peer_finish

either-false : (a b : Bool) → (a || b) ≡ false → (a ≡ false) × (b ≡ false)
either-false true b e = absurd (cc)
either-false false b e = (refl, e)

neither : (a b : Bool) → a ≡ false → b ≡ false → (a || b) ≡ false
neither a b e h = rw (e, h) refl

differs_self : (last : ℕ) → differs (some last) last ≡ false
differs_self last = rw (==_refl last) refl

any_differs-set :
    (ts : List (Option ℕ)) (peer last : ℕ) (t : Option ℕ)
    → any_differs ts last ≡ false
    → differs t last ≡ false
    → any_differs (set ts peer t) last ≡ false
unfolding any_differs
any_differs-set [] peer last t e h = refl
any_differs-set (x ∷ ts) zero last t e h =
    neither _ _ h (either-false (differs x last) (any_differs ts last) e).1
any_differs-set (x ∷ ts) (suc peer) last t e h =
    let (here, rest) = either-false (differs x last) (any_differs ts last) e in
    neither _ _ here (any_differs-set ts peer last t rest h)

module _ {L : Type 0} where
  abbrev On : Status × Session L → Type 0
  On out = IsAgreed out.1

  -- Both results of a test agree, the second one when the test fails.
  test : (b : Bool) (x y : Status × Session L) → On x → (b ≡ false → On y) → On (if b then x else y)
  test true x y h k = h
  test false x y h k = k refl

  accept_finish-IsAgreed :
      (s : Session L) (peer : ℕ) (m : Finish) (now : ℕ)
      → IsAgreed s
      → On (accept_finish s peer m now)
  unfolding accept_finish
  accept_finish-IsAgreed s peer m now h = test (same_state s.state handshaking) _ _ h λ _.
      test (differs (tick_of s.peer_finish peer) m.last_tick) _ _ h λ _.
        test (differs s.finish_tick m.last_tick) _ _ h λ own.
          test (any_differs s.peer_finish m.last_tick) _ _ h λ theirs. (
            m.last_tick,
            any_differs-set s.peer_finish peer m.last_tick (some m.last_tick) theirs
                (differs_self m.last_tick),
            own,
          )

  compare_check-IsAgreed :
      (s : Session L) (peer : ℕ) (check : HashCheck) (mine : Checkpoint)
      → IsAgreed s
      → On (compare_check s peer check mine)
  unfolding compare_check
  compare_check-IsAgreed s peer check mine h =
      test (mine.state_hash == check.state_hash) _ _ h λ _. h

  hold_check-IsAgreed : (s : Session L) (check : HashCheck) → IsAgreed s → On (hold_check s check)
  unfolding hold_check
  hold_check-IsAgreed s check h =
      test (leb max_pending_checks (length s.pending_checks)) _ _ h λ _. h

  found-IsAgreed :
      (s : Session L) (peer : ℕ) (check : HashCheck) (found : Option Checkpoint)
      → IsAgreed s
      → On (elim found [
        | some mine ↦ compare_check s peer check mine
        | none ↦
            if ahead_of check.tick s.checkpoints
            then hold_check s check
            else (err invalid_argument, s)
      ])
  found-IsAgreed s peer check (some mine) h = compare_check-IsAgreed s peer check mine h
  found-IsAgreed s peer check none h =
      test (ahead_of check.tick s.checkpoints) _ _ (hold_check-IsAgreed s check h) λ _. h

  handle_hash_check-IsAgreed :
      (s : Session L) (peer : ℕ) (check : HashCheck)
      → IsAgreed s
      → On (handle_hash_check s peer check)
  unfolding handle_hash_check compare_or_hold
  handle_hash_check-IsAgreed s peer check h = test (not (check.source == peer)) _ _ h λ _.
      test (not (check.tick % s.config.hash_check_interval == 0)) _ _ h
        λ _. found-IsAgreed s peer check (find_checkpoint check.tick s.checkpoints) h

  handle_bye-IsAgreed : (s : Session L) (peer : ℕ) → IsAgreed s → On (handle_bye s peer)
  unfolding handle_bye
  handle_bye-IsAgreed s peer h =
      test
        (drops_peers s.config.on_peer_lost
          && not (peer == 0)
          && not (same_state s.state handshaking))
        _ _ h λ _. h

module _ {L : Type 0} (ops : Link L) where
  accept_drop-IsAgreed :
      (s : Session L) (peer : ℕ) (drop : Drop) → IsAgreed s → On (accept_drop ops s peer drop)
  unfolding accept_drop
  accept_drop-IsAgreed s peer drop h = test (not (drops_peers s.config.on_peer_lost)) _ _ h λ _.
      test (not (peer == 0)) _ _ h λ _. test (drop.source == ops.index s.link) _ _ h λ _.
        test (drop.source == 0 || leb (ops.peer_count s.link) drop.source) _ _ h λ _.
          test (flag_of s.dropped drop.source || drop_pending drop.source s.pending_drops) _ _ h
            λ _. h

  farewell-IsAgreed : (s : Session L) (r : Result Bytes) → IsAgreed s → IsAgreed (farewell ops s r)
  unfolding farewell
  farewell-IsAgreed s (ok bytes) h = h
  farewell-IsAgreed s (err e) h = h

  end_in-IsAgreed :
      (state : SessionState) (s : Session L) (bye : Message)
      → IsAgreed s
      → IsAgreed (end_in ops state s bye)
  unfolding end_in
  end_in-IsAgreed ended s bye h = h
  end_in-IsAgreed finished s bye h = h
  end_in-IsAgreed handshaking s bye h =
      farewell-IsAgreed (record s { state = ended }) (encode bye) h
  end_in-IsAgreed running s bye h = farewell-IsAgreed (record s { state = ended }) (encode bye) h
  end_in-IsAgreed finishing s bye h = farewell-IsAgreed (record s { state = ended }) (encode bye) h

  end-IsAgreed :
      (s : Session L) (reason : ByeReason) (detail : Bytes)
      → IsAgreed s
      → IsAgreed (end ops s reason detail)
  unfolding end
  end-IsAgreed s reason detail h = end_in-IsAgreed s.state s _ h

  finish_sent-IsAgreed :
      (s : Session L) (last : ℕ) (out : Status × L)
      → any_differs s.peer_finish last ≡ false
      → IsAgreed s
      → On (finish_sent ops s last out)
  unfolding finish_sent
  finish_sent-IsAgreed s last (err e, link) theirs h = h
  finish_sent-IsAgreed s last (ok done, link) theirs h = (last, theirs, differs_self last)

  send_finish-IsAgreed :
      (s : Session L) (last : ℕ) (r : Result Bytes)
      → any_differs s.peer_finish last ≡ false
      → IsAgreed s
      → On (send_finish ops s last r)
  unfolding send_finish
  send_finish-IsAgreed s last (err e) theirs h = h
  send_finish-IsAgreed s last (ok bytes) theirs h =
      finish_sent-IsAgreed s last (ops.broadcast s.link bytes) theirs h

  -- Declaring this peer's own finish keeps the finishes agreed.
  pub finish-IsAgreed : (s : Session L) (last : ℕ) → IsAgreed s → On (finish ops s last)
  unfolding finish
  finish-IsAgreed s last h = test (not (same_state s.state running)) _ _ h λ _.
      test (sent_before s.last_turn_sent last) _ _ h λ _.
        test (any_differs s.peer_finish last) _ _ (end-IsAgreed s protocol_error _ h)
          λ theirs. send_finish-IsAgreed s last _ theirs h

module _ {L W : Type 0} where
  submit_one-session :
      (p : Polled L W) (c : Command) (r : Result (CommandQueue W))
      → (submit_one p c r).session ≡ p.session
  unfolding submit_one
  submit_one-session p c (err e) = refl
  submit_one-session p c (ok q) = refl

  submit_all-session : (p : Polled L W) (cs : List Command) → (submit_all p cs).session ≡ p.session
  unfolding submit_all
  submit_all-session p [] = refl
  submit_all-session p (c ∷ cs) =
      submit_all-session (submit_one p c (submit_stamped p.queue c)) cs
      ∙ submit_one-session p c (submit_stamped p.queue c)

  mark_turn-session : (p : Polled L W) (r : Result TurnGate) → (mark_turn p r).1.session ≡ p.session
  unfolding mark_turn
  mark_turn-session p (err e) = refl
  mark_turn-session p (ok g) = refl

  either_way :
      (b : Bool) (p : Polled L W) (x y : Status × Polled L W)
      → IsAgreed x.1.session
      → IsAgreed y.1.session
      → IsAgreed (if b then x else y).1.session
  either_way true p x y h k = h
  either_way false p x y h k = k

  handle_turn-IsAgreed :
      (p : Polled L W) (peer : ℕ) (turn : Turn) (now : ℕ)
      → IsAgreed p.session
      → IsAgreed (handle_turn p peer turn now).1.session
  unfolding handle_turn count_turn
  handle_turn-IsAgreed p peer turn now h =
      let q = count_turn (submit_all p turn.commands) peer (length turn.commands) in
      either_way (not (turn.source == peer)) p _ _ h (
        either_way (ltb turn.tick now) p _ _ h (
          either_way (not (all_from peer turn.commands)) p _ _ h (
            subst IsAgreed (sym (mark_turn-session q (mark_complete p.turns peer turn.tick)))
              (subst IsAgreed (sym (submit_all-session p turn.commands)) h))))

  finish_drop-IsAgreed :
      (p : Polled L W) (peer first_missing : ℕ) (r : Result TurnGate)
      → IsAgreed p.session
      → IsAgreed (finish_drop p peer first_missing r).1.session
  unfolding finish_drop
  finish_drop-IsAgreed p peer first_missing (err e) h = h
  finish_drop-IsAgreed p peer first_missing (ok turns) (last, theirs, own) =
      (last, any_differs-set p.session.peer_finish peer last none theirs refl, own)

  apply_drop-IsAgreed :
      (p : Polled L W) (peer : ℕ) → IsAgreed p.session → IsAgreed (apply_drop p peer).1.session
  unfolding apply_drop forget_peer
  apply_drop-IsAgreed p peer h = finish_drop-IsAgreed _ peer _ _ h

module _ {L W : Type 0} (ops : Link L) where
  -- No message makes the finishes disagree.
  pub handle-IsAgreed :
      (p : Polled L W) (peer : ℕ) (message : Message) (now : ℕ)
      → IsAgreed p.session
      → IsAgreed (handle ops p peer message now).1.session
  unfolding handle
  handle-IsAgreed p peer (says_hello m) now h =
      let k = handle_hello-Kept ops p peer m in
      subst (λ t. Agrees t (handle ops p peer (says_hello m) now).1.session.peer_finish)
        (sym k.finish_tick) (subst (Agrees p.session.finish_tick) (sym k.peer_finish) h)
  handle-IsAgreed p peer (says_turn m) now h = handle_turn-IsAgreed p peer m now h
  handle-IsAgreed p peer (says_hash_check m) now h = handle_hash_check-IsAgreed p.session peer m h
  handle-IsAgreed p peer (says_bye m) now h = handle_bye-IsAgreed p.session peer h
  handle-IsAgreed p peer (says_drop m) now h = accept_drop-IsAgreed ops p.session peer m h
  handle-IsAgreed p peer (says_finish m) now h = accept_finish-IsAgreed p.session peer m now h
  handle-IsAgreed p peer (says_welcome m) now h = h

  IsAgreed-Preserves : Preserves W ops IsAgreed
  IsAgreed-Preserves = record {
    link = λ s link h. h;
    ending = end-IsAgreed ops;
    finishes = λ s h. h;
    takes_drops = λ s h. h;
    drops = apply_drop-IsAgreed;
    handles = handle-IsAgreed;
  }

  -- The finishes that a session knows of, its own and its peers', name one tick; no poll changes that,
  -- whatever the link delivers and however the poll ends.
  pub poll-IsAgreed :
      (now : ℕ) (s : Session L) (queue : CommandQueue W) (turns : TurnGate)
      → IsAgreed s
      → IsAgreed (poll ops now s queue turns).1.session
  poll-IsAgreed now s queue turns h =
      poll-Preserves ops IsAgreed IsAgreed-Preserves now s queue turns h
