-- ===== src/Simulation/Command/Sequence.antt =====
-- Sequence numbers: what a submission does to the queue, and why no source repeats a number.
use atlas_engine.Base.{
  ℕ, ◌+◌, ◌^◌, ◌≤◌, ◌<◌, ◌≡◌, refl, ap, sym, arith, ◌⊎◌, inl, inr, subst, List, [], ◌∷◌, ◌++◌, All,
  All-append, All-map, length, length-append, if◌then◌else◌, ◌==◌, max, u64,
}
use atlas_engine.Base.OrderedMap.{put, find-put, Ascends, put-Ascends}
use atlas_engine.Core.Error.{Status, ErrorCode, ok, err, ok-injective}
use atlas_engine.Simulation.SaveStream.{Bytes}
use atlas_engine.Simulation.Command.{
  Command, CommandQueue, submit, submit_stamped, admit, next_sequence, max_pending, max_payload,
}

Result-cases : (s : Status) → (s ≡ ok tt) ⊎ ((e : ErrorCode) × (s ≡ err e))
Result-cases (ok u) = inl refl
Result-cases (err e) = inr (e, refl)

module _ {W : Type 0} where
  -- Every pending command is under its source's counter, and the bounds on size hold.
  pub record IsValid (q : CommandQueue W) : Type 0 where
    pub numbered : All (λ c. c.sequence < next_sequence q c.source) q.pending
    pub short : length q.pending ≤ max_pending
    pub small : All (λ c. length c.payload ≤ max_payload) q.pending
    pub ordered : Ascends q.next_sequences

  admit_bounds :
      (q : CommandQueue W) (type : ℕ) (payload : Bytes)
      → admit q type payload ≡ ok tt
      → (length payload ≤ max_payload) × (length q.pending < max_pending)
  unfolding admit
  admit_bounds q type payload e = ground arith

  -- The counter of a source after a write to the map.
  next_sequence-put :
      (q : CommandQueue W) (s n j : ℕ) (ps : List Command)
      → next_sequence (record q { next_sequences = put s n q.next_sequences; pending = ps }) j
        ≡ (if s == j then n else next_sequence q j)
  unfolding next_sequence
  next_sequence-put q s n j ps = ground (arith, find-put s j n q.next_sequences)

  -- A command that goes in under a counter that moves past it keeps the queue valid.
  enqueue-IsValid :
      (q : CommandQueue W) (c : Command) (n : ℕ)
      → IsValid q
      → length c.payload ≤ max_payload
      → length q.pending < max_pending
      → next_sequence q c.source ≤ n
      → c.sequence < n
      → IsValid (record q {
        next_sequences = put c.source n q.next_sequences;
        pending = q.pending ++ c ∷ [];
      })
  enqueue-IsValid q c n v p l h k = record {
    numbered =
        All-append _ q.pending (c ∷ [])
          (All-map _ _ q.pending
            (λ d h'. ground (arith, next_sequence-put q c.source n d.source (q.pending ++ c ∷ [])))
            v.numbered)
          (ground (arith, next_sequence-put q c.source n c.source (q.pending ++ c ∷ [])), tt);
    short = omega (arith, length-append q.pending (c ∷ []));
    small = All-append _ q.pending (c ∷ []) v.small (p, tt);
    ordered = put-Ascends c.source n q.next_sequences v.ordered;
  }

  -- A successful `submit` keeps the queue valid, while the source's counter does not wrap.
  pub submit-IsValid :
      (q : CommandQueue W) (target source type : ℕ) (payload : Bytes) {r : CommandQueue W}
      → IsValid q
      → next_sequence q source + 1 < 2 ^ 64
      → submit q target source type payload ≡ ok r
      → IsValid r
  unfolding submit
  submit-IsValid q target source type payload {r} v w e =
      elim (Result-cases (admit q type payload)) [
        | inl a ↦
            let (p, l) = admit_bounds q type payload a in
            let c : Command = record {
              target = target;
              source = source;
              sequence = next_sequence q source;
              type = type;
              payload = payload;
            } in
            subst IsValid (ground arith) (
              enqueue-IsValid q c (u64 (next_sequence q source + 1)) v p l (omega arith)
                (omega arith))
        | inr (x, a) ↦ absurd (ground arith)
      ]

  -- A successful `submit_stamped` keeps the queue valid, while the number that comes with the command
  -- is not the largest of 64 bits.
  pub submit_stamped-IsValid :
      (q : CommandQueue W) (c : Command) {r : CommandQueue W}
      → IsValid q
      → c.sequence + 1 < 2 ^ 64
      → submit_stamped q c ≡ ok r
      → IsValid r
  unfolding submit_stamped
  submit_stamped-IsValid q c {r} v w e = elim (Result-cases (admit q c.type c.payload)) [
    | inl a ↦
        let (p, l) = admit_bounds q c.type c.payload a in
        subst IsValid (ground arith) (
          enqueue-IsValid q c (max (next_sequence q c.source) (u64 (c.sequence + 1))) v p l
            (omega arith) (omega arith))
    | inr (x, a) ↦ absurd (ground arith)
  ]

  -- What a successful `submit_stamped` adds.
  pub submit_stamped-pending :
      (q : CommandQueue W) (c : Command) {r : CommandQueue W}
      → submit_stamped q c ≡ ok r
      → r.pending ≡ q.pending ++ c ∷ []
  unfolding submit_stamped
  submit_stamped-pending q c {r} e = elim (Result-cases (admit q c.type c.payload)) [
    | inl good ↦ ap (λ x. x.pending) (sym (ok-injective _ r (rw good at e)))
    | inr (x, bad) ↦ absurd (ground arith)
  ]
