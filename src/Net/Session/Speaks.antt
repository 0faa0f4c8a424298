-- ===== src/Net/Session/Speaks.antt =====
-- A peer speaks only for itself: what a message can put into the command queue.
use atlas_engine.Base.{
  and-true, ℕ, ◌≡◌, refl, ap, sym, ◌∙◌, subst, inl, inr, Bool, true, false, Bool-cases, not, ◌==◌,
  ==_iff, List, [], ◌∷◌, ◌++◌, append-nil, append_assoc, All, All-append, ltb,
}
use atlas_engine.Core.Error.{Result, ok, err}
use atlas_engine.Simulation.Command.{Command, CommandQueue, submit_stamped}
use atlas_engine.Simulation.Command.Sequence.{submit_stamped-pending}
use atlas_engine.Simulation.TurnGate.{TurnGate}
use atlas_engine.Net.Message.{
  Turn, Message, says_hello, says_welcome, says_turn, says_hash_check, says_bye, says_finish,
  says_drop,
}
use atlas_engine.Net.Session.{Link, Polled}
use atlas_engine.Net.Session.Turns.{
  all_from, submit_one, submit_all, count_turn, mark_turn, handle_turn,
}
use atlas_engine.Net.Session.Handle.{handle}
use atlas_engine.Net.Session.Greets.{handle_hello-Kept}

-- What was pending stays, and what is new behind it comes from the peer.
pub Adds : {W : Type 0} → ℕ → CommandQueue W → CommandQueue W → Type 0
Adds peer before after =
    (new : List Command) × (after.pending ≡ before.pending ++ new) × All (λ c. c.source ≡ peer) new

module _ {W : Type 0} where
  Adds-refl : (peer : ℕ) (q : CommandQueue W) → Adds peer q q
  unfolding Adds
  Adds-refl peer q = ([], sym (append-nil q.pending), tt)

  Adds-trans : (peer : ℕ) (p q r : CommandQueue W) → Adds peer p q → Adds peer q r → Adds peer p r
  unfolding Adds
  Adds-trans peer p q r (xs, e, a) (ys, d, b) = (
    xs ++ ys,
    d ∙ (ap (λ l. l ++ ys) e ∙ append_assoc p.pending xs ys),
    All-append (λ c. c.source ≡ peer) xs ys a b,
  )

not-false : (b : Bool) → not b ≡ false → b ≡ true
not-false true e = refl
not-false false e = absurd (cc)

module _ {L W : Type 0} where
  submit_one-Adds :
      (p : Polled L W) (c : Command) (r : Result (CommandQueue W))
      → ((q : CommandQueue W) → r ≡ ok q → q.pending ≡ p.queue.pending ++ c ∷ [])
      → (peer : ℕ) → c.source ≡ peer
      → Adds peer p.queue (submit_one p c r).queue
  unfolding submit_one Adds
  submit_one-Adds p c (err e) h peer from = Adds-refl peer p.queue
  submit_one-Adds p c (ok q) h peer from = (c ∷ [], h q refl, (from, tt))

  submit_all-Adds :
      (peer : ℕ) (p : Polled L W) (cs : List Command)
      → all_from peer cs ≡ true
      → Adds peer p.queue (submit_all p cs).queue
  unfolding submit_all all_from
  submit_all-Adds peer p [] e = Adds-refl peer p.queue
  submit_all-Adds peer p (c ∷ cs) e =
      let (here, rest) = and-true (c.source == peer) (all_from peer cs) e in
      let next = submit_one p c (submit_stamped p.queue c) in
      Adds-trans peer p.queue next.queue _
        (submit_one-Adds p c _ (λ q d. submit_stamped-pending p.queue c d) peer
          ((==_iff c.source peer).0 here))
        (submit_all-Adds peer next cs rest)

  mark_turn-queue : (p : Polled L W) (r : Result TurnGate) → (mark_turn p r).1.queue ≡ p.queue
  unfolding mark_turn
  mark_turn-queue p (err e) = refl
  mark_turn-queue p (ok g) = refl

  handle_turn-Adds :
      (p : Polled L W) (peer : ℕ) (turn : Turn) (now : ℕ)
      → Adds peer p.queue (handle_turn p peer turn now).1.queue
  unfolding handle_turn count_turn
  handle_turn-Adds p peer turn now = elim (Bool-cases (not (turn.source == peer))) [
    | inl other ↦ rw (other) (Adds-refl peer p.queue)
    | inr own ↦ elim (Bool-cases (ltb turn.tick now)) [
      | inl late ↦ rw (own, late) (Adds-refl peer p.queue)
      | inr due ↦ elim (Bool-cases (not (all_from peer turn.commands))) [
        | inl forged ↦ rw (own, due, forged) (Adds-refl peer p.queue)
        | inr genuine ↦
            rw (own, due, genuine)
              (subst (Adds peer p.queue) (sym (mark_turn-queue _ _))
                (submit_all-Adds peer p turn.commands (not-false _ genuine)))
      ]
    ]
  ]

  -- Whatever a peer sends, the commands pending before are still there in their order, and every
  -- command added behind them bears the name of that peer.
  pub handle-Adds :
      (ops : Link L) (p : Polled L W) (peer : ℕ) (message : Message) (now : ℕ)
      → Adds peer p.queue (handle ops p peer message now).1.queue
  unfolding handle
  handle-Adds ops p peer (says_hello hello) now =
      subst (Adds peer p.queue) (sym (handle_hello-Kept ops p peer hello).queue)
        (Adds-refl peer p.queue)
  handle-Adds ops p peer (says_turn turn) now = handle_turn-Adds p peer turn now
  handle-Adds ops p peer (says_hash_check check) now = Adds-refl peer p.queue
  handle-Adds ops p peer (says_bye bye) now = Adds-refl peer p.queue
  handle-Adds ops p peer (says_drop drop) now = Adds-refl peer p.queue
  handle-Adds ops p peer (says_finish finish) now = Adds-refl peer p.queue
  handle-Adds ops p peer (says_welcome welcome) now = Adds-refl peer p.queue
