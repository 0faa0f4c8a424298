-- ===== src/Net/Session/Greets.antt =====
-- Announcements: what they leave alone.
use atlas_engine.Base.{ℕ, ◌≡◌, refl, sym, subst, inl, inr, true, false, Bool-cases}
use atlas_engine.Core.Error.{Result, Status, ok, err}
use atlas_engine.Simulation.TurnGate.{TurnGate, expect_sources}
use atlas_engine.Net.Message.{Hello}
use atlas_engine.Net.Session.{Link, Session, Polled, peers_from}
use atlas_engine.Net.Session.Handshake.{own_hello, check_compatible}
use atlas_engine.Net.Session.Handle.{
  handle_hello, hear, greeted, agree, start_running, all_heard, largest_delay,
}

-- The queue and the finishes are as they were.
pub record Kept {L W : Type 0} (p q : Polled L W) : Type 0 where
  pub queue : q.queue ≡ p.queue
  pub finish_tick : q.session.finish_tick ≡ p.session.finish_tick
  pub peer_finish : q.session.peer_finish ≡ p.session.peer_finish

module _ {L : Type 0} (ops : Link L) where
  -- The session with what the peers agree on.
  abbrev pub agreed : Session L → Session L
  agreed s = record s {
    agreed_delay = largest_delay 0 s.heard;
    peers = peers_from 0 (ops.peer_count s.link);
    self = ops.index s.link;
  }

module _ {L W : Type 0} (ops : Link L) where
  start_running-Kept : (p : Polled L W) (r : Result TurnGate) → Kept p (start_running ops p r).1
  unfolding start_running
  start_running-Kept p (err e) = record { queue = refl; finish_tick = refl; peer_finish = refl }
  start_running-Kept p (ok g) = record { queue = refl; finish_tick = refl; peer_finish = refl }

  agree_all :
      (p : Polled L W)
      → all_heard p.session.heard ≡ true
      → agree ops p
        ≡ start_running ops
            (record p { session = agreed ops p.session })
            (expect_sources p.turns (peers_from 0 (ops.peer_count p.session.link)))
  unfolding agree
  agree_all p e = rw e refl

  agree_some : (p : Polled L W) → all_heard p.session.heard ≡ false → agree ops p ≡ (ok tt, p)
  unfolding agree
  agree_some p e = rw e refl

  agree-Kept : (p : Polled L W) → Kept p (agree ops p).1
  agree-Kept p = elim (Bool-cases (all_heard p.session.heard)) [
    | inl e ↦
        let k =
          start_running-Kept (record p { session = agreed ops p.session })
            (expect_sources p.turns (peers_from 0 (ops.peer_count p.session.link))) in
        subst (λ out. Kept p out.1) (sym (agree_all p e))
          (record { queue = k.queue; finish_tick = k.finish_tick; peer_finish = k.peer_finish })
    | inr e ↦
        subst (λ out. Kept p out.1) (sym (agree_some p e))
          (record { queue = refl; finish_tick = refl; peer_finish = refl })
  ]

  greeted-Kept :
      (p : Polled L W) (peer : ℕ) (hello : Hello) (status : Status)
      → Kept p (greeted ops p peer hello status).1
  unfolding greeted hear
  greeted-Kept p peer hello (err e) = record {
    queue = refl;
    finish_tick = refl;
    peer_finish = refl;
  }
  greeted-Kept p peer hello (ok done) =
      let k = agree-Kept (record p { session = hear ops p.session peer hello }) in
      record { queue = k.queue; finish_tick = k.finish_tick; peer_finish = k.peer_finish }

  pub handle_hello-Kept :
      (p : Polled L W) (peer : ℕ) (hello : Hello) → Kept p (handle_hello ops p peer hello).1
  unfolding handle_hello
  handle_hello-Kept p peer hello =
      greeted-Kept p peer hello (check_compatible (own_hello ops p.session) hello)
