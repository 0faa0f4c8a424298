-- ===== src/Net/Session/Drops.antt =====
-- `accept_drop` and `apply_drop`: going on without a peer.
use atlas_engine.Base.{
  ℕ, Bool, true, false, not, ◌||◌, none, List, [], ◌∷◌, ◌++◌, leb, ◌==◌, if◌then◌else◌, set,
}
use atlas_engine.Core.Error.{Result, Status, ok, err, invalid_argument, unavailable}
use atlas_engine.Simulation.TurnGate.{TurnGate, completed_before, expect_sources}
use atlas_engine.Net.Message.{HashCheck, Drop}
use atlas_engine.Net.Session.{Link, Session, Polled, drops_peers, flag_of, tick_or}

unfoldable pub drop_pending : ℕ → List Drop → Bool
drop_pending source [] = false
drop_pending source (d ∷ ds) = d.source == source || drop_pending source ds

-- `std::erase`.
unfoldable pub erase : ℕ → List ℕ → List ℕ
erase x [] = []
erase x (y ∷ ys) = if y == x then erase x ys else y ∷ erase x ys

unfoldable pub erase_checks : ℕ → List HashCheck → List HashCheck
erase_checks source [] = []
erase_checks source (c ∷ cs) =
    if c.source == source then erase_checks source cs else c ∷ erase_checks source cs

module _ {L : Type 0} (ops : Link L) where
  unfoldable pub accept_drop : Session L → ℕ → Drop → Status × Session L
  unfolding drop_pending
  accept_drop s peer drop =
      if not (drops_peers s.config.on_peer_lost)
      then (err invalid_argument, s)
      else if not (peer == 0)
      then (err invalid_argument, s)
      else if drop.source == ops.index s.link
      then (err unavailable, s)
      else if drop.source == 0 || leb (ops.peer_count s.link) drop.source
      then (err invalid_argument, s)
      else if flag_of s.dropped drop.source || drop_pending drop.source s.pending_drops
      then (err invalid_argument, s)
      else (ok tt, record s { pending_drops = s.pending_drops ++ drop ∷ [] })

module _ {L : Type 0} where
  -- The peer is gone from the session before the gate is asked.
  unfoldable pub forget_peer : Session L → ℕ → Session L
  unfolding erase
  forget_peer s peer = record s { dropped = set s.dropped peer true; peers = erase peer s.peers }

module _ {L W : Type 0} where
  unfoldable pub finish_drop : Polled L W → ℕ → ℕ → Result TurnGate → Status × Polled L W
  unfolding erase_checks
  finish_drop p peer first_missing (err e) = (err e, p)
  finish_drop p peer first_missing (ok turns) = (
    ok tt,
    record p {
      session = record p.session {
        peer_finish = set p.session.peer_finish peer none;
        compared_through = set p.session.compared_through peer none;
        pending_checks = erase_checks peer p.session.pending_checks;
      };
      turns = turns;
      report = record p.report {
        dropped =
            p.report.dropped ++ record { source = peer; first_missing_turn = first_missing } ∷ [];
      };
    },
  )

  unfoldable pub apply_drop : Polled L W → ℕ → Status × Polled L W
  unfolding forget_peer finish_drop
  apply_drop p peer =
      let gone = record p { session = forget_peer p.session peer } in
      finish_drop gone peer (tick_or 0 (completed_before p.turns peer))
        (expect_sources p.turns gone.session.peers)
