-- ===== src/Net/Session/Finish.antt =====
-- `finish`, `accept_finish`, `declared_finish` and `finish_is_complete`.
use atlas_engine.Base.{
  ℕ, suc, ◌+◌, ◌-◌, ◌%◌, Bool, true, false, not, ◌&&◌, ◌||◌, Option, none, some, List, [], ◌∷◌, ltb,
  leb, ◌==◌, if◌then◌else◌, set, u64,
}
use atlas_engine.Core.Error.{Result, Status, ok, err, invalid_argument, unavailable}
use atlas_engine.Simulation.SaveStream.{Bytes}
use atlas_engine.Net.Protocol.{protocol_error}
use atlas_engine.Net.Message.{Finish, says_finish}
use atlas_engine.Net.Message.Encode.{encode}
use atlas_engine.Net.Session.{
  Link, handshaking, running, finishing, Session, tick_of, flag_of, has_tick, same_state,
}
use atlas_engine.Net.Session.Handshake.{end}

-- Whether a declared finish is another than the one given.
abbrev pub differs : Option ℕ → ℕ → Bool
differs none last = false
differs (some t) last = not (t == last)

unfoldable pub any_differs : List (Option ℕ) → ℕ → Bool
any_differs [] last = false
any_differs (t ∷ ts) last = differs t last || any_differs ts last

unfoldable pub first_declared : List (Option ℕ) → Option ℕ
first_declared [] = none
first_declared (none ∷ ts) = first_declared ts
first_declared (some t ∷ ts) = some t

abbrev pub compared_to : Option ℕ → ℕ → Bool
compared_to none last_check = false
compared_to (some t) last_check = leb last_check t

-- No turn has been sent, or none so late.
abbrev pub sent_before : Option ℕ → ℕ → Bool
sent_before none last = true
sent_before (some t) last = ltb t last

module _ {L : Type 0} (ops : Link L) where
  unfoldable pub finish_sent : Session L → ℕ → Status × L → Status × Session L
  finish_sent s last (err e, link) = (err e, record s { link = link })
  finish_sent s last (ok done, link) =
      (ok tt, record s { link = link; finish_tick = some last; state = finishing })

  unfoldable pub send_finish : Session L → ℕ → Result Bytes → Status × Session L
  unfolding finish_sent
  send_finish s last (err e) = (err e, s)
  send_finish s last (ok bytes) = finish_sent s last (ops.broadcast s.link bytes)

  unfoldable pub finish : Session L → ℕ → Status × Session L
  unfolding any_differs send_finish
  finish s last =
      if not (same_state s.state running)
      then (err unavailable, s)
      else if sent_before s.last_turn_sent last
      then (err invalid_argument, s)
      else if any_differs s.peer_finish last
      then (err invalid_argument, end ops s protocol_error (ops.describe invalid_argument))
      else send_finish s last (encode (says_finish (record { last_tick = last })))

module _ {L : Type 0} where
  unfoldable pub accept_finish : Session L → ℕ → Finish → ℕ → Status × Session L
  unfolding any_differs
  accept_finish s peer finish now =
      if same_state s.state handshaking
      then (err invalid_argument, s)
      else if differs (tick_of s.peer_finish peer) finish.last_tick
      then (err invalid_argument, s)
      else if differs s.finish_tick finish.last_tick
      then (err invalid_argument, s)
      else if any_differs s.peer_finish finish.last_tick
      then (err invalid_argument, s)
      else (
        if ltb (u64 (finish.last_tick + 1)) now then err invalid_argument else ok tt,
        record s { peer_finish = set s.peer_finish peer (some finish.last_tick) },
      )

  pub declared_finish : Session L → Option ℕ
  unfolding first_declared
  declared_finish s = elim s.finish_tick [ some t ↦ some t | none ↦ first_declared s.peer_finish ]

module _ {L : Type 0} (ops : Link L) where
  -- What a peer still owes before the finish is complete: nothing when it is dropped.
  unfoldable pub peer_complete : Session L → ℕ → ℕ → Bool
  peer_complete s last_check peer =
      if peer == ops.index s.link || flag_of s.dropped peer
      then true
      else has_tick (tick_of s.peer_finish peer)
        && compared_to (tick_of s.compared_through peer) last_check

  -- The peers from `i` on, one for each element of the vector.
  unfoldable pub peers_complete : Session L → ℕ → ℕ → List (Option ℕ) → Bool
  unfolding peer_complete
  peers_complete s last_check i [] = true
  peers_complete s last_check i (t ∷ ts) =
      peer_complete s last_check i && peers_complete s last_check (suc i) ts

  unfoldable pub complete_at : Session L → ℕ → Option ℕ → Bool
  unfolding peers_complete
  complete_at s now none = false
  complete_at s now (some last) =
      if leb now last
      then false
      else peers_complete s (last - last % s.config.hash_check_interval) 0 s.peer_finish

  unfoldable pub finish_is_complete : Session L → ℕ → Bool
  unfolding complete_at
  finish_is_complete s now =
      if not (same_state s.state finishing) then false else complete_at s now s.finish_tick
