-- ===== src/Net/Inbox/Accounting.antt =====
-- What the inbox keeps to over any sequence of calls: its bounds, and that no message that it accepted
-- is lost or overtaken.
use atlas_engine.Base.{
  ℕ, ◌+◌, ◌≤◌, ◌<◌, ◌≡◌, refl, ap, sym, ◌∙◌, subst, arith, Bool, true, false, Bool-cases, inl, inr,
  ◌||◌, List, [], ◌∷◌, ◌++◌, append_assoc, append-nil, ltb, leb, if◌then◌else◌, length,
  length-append, u64,
}
use atlas_engine.Net.Inbox.{
  CommandInbox, Push, accepted, overflowed, push, drain, empty, max_messages, max_bytes,
}

pub total_bytes : List (List ℕ) → ℕ
total_bytes [] = 0
total_bytes (m ∷ ms) = length m + total_bytes ms

pub record IsValid (q : CommandInbox) : Type 0 where
  pub counted : q.queued_bytes ≡ total_bytes q.pending
  pub few : length q.pending ≤ max_messages
  pub small : q.queued_bytes ≤ max_bytes

pub data Op : Type 0 where
  pushes : List ℕ → Op
  drains : Op

pub is_accepted : Push → Bool
is_accepted accepted = true
is_accepted overflowed = false

-- The messages accepted and the messages handed out by a sequence of calls, and the inbox after it.
pub record Trace : Type 0 where
  pub taken : List (List ℕ)
  pub given : List (List ℕ)
  pub inbox : CommandInbox

pub step : Trace → Op → Trace
unfolding is_accepted
step t (pushes m) = record {
  taken = if is_accepted (push t.inbox m).0 then t.taken ++ (m ∷ []) else t.taken;
  given = t.given;
  inbox = (push t.inbox m).1;
}
step t drains = record t { given = t.given ++ (drain t.inbox).0; inbox = (drain t.inbox).1 }

pub run : Trace → List Op → Trace
unfolding step
run t [] = t
run t (o ∷ os) = run (step t o) os

pub begin : Trace
begin = record { taken = []; given = []; inbox = empty }

total_bytes-append :
    (xs ys : List (List ℕ)) → total_bytes (xs ++ ys) ≡ total_bytes xs + total_bytes ys
unfolding total_bytes
total_bytes-append [] ys = omega arith
total_bytes-append (x ∷ xs) ys = omega (arith, total_bytes-append xs ys)

-- What holds of a trace: the inbox is valid, and what was taken is what was given and what is pending.
pub record IsTrace (t : Trace) : Type 0 where
  pub valid : IsValid t.inbox
  pub kept : t.given ++ t.inbox.pending ≡ t.taken

no_room : CommandInbox → List ℕ → Bool
no_room q m = leb max_messages (length q.pending) || ltb max_bytes (q.queued_bytes + length m)

push_stuck :
    (q : CommandInbox) (m : List ℕ)
    → q.has_overflowed ≡ true
    → push q m ≡ (overflowed, record q { refused_count = u64 (q.refused_count + 1) })
unfolding push
push_stuck q m e = simp (push, e)

push_full :
    (q : CommandInbox) (m : List ℕ)
    → q.has_overflowed ≡ false
    → no_room q m ≡ true
    → push q m
      ≡ (overflowed, record q { has_overflowed = true; refused_count = u64 (q.refused_count + 1) })
unfolding push no_room
push_full q m e f = simp (push, e, f)

push_room :
    (q : CommandInbox) (m : List ℕ)
    → q.has_overflowed ≡ false
    → no_room q m ≡ false
    → push q m ≡ (
      accepted,
      record q {
        queued_bytes = q.queued_bytes + length m;
        pending = q.pending ++ (m ∷ []);
        accepted_count = u64 (q.accepted_count + 1);
      },
    )
unfolding push no_room
push_room q m e f = simp (push, e, f)

room_bounds :
    (q : CommandInbox) (m : List ℕ)
    → no_room q m ≡ false
    → (length q.pending < max_messages) × (q.queued_bytes + length m ≤ max_bytes)
unfolding no_room
room_bounds q m e = ground arith

-- The trace after a push that answered `p` and left `q`.
pushed : Trace → List ℕ → Push × CommandInbox → Trace
unfolding is_accepted
pushed t m r = record {
  taken = if is_accepted r.0 then t.taken ++ (m ∷ []) else t.taken;
  given = t.given;
  inbox = r.1;
}

step-pushed : (t : Trace) (m : List ℕ) → step t (pushes m) ≡ pushed t m (push t.inbox m)
unfolding step pushed
step-pushed t m = refl

step-pushes : (t : Trace) (m : List ℕ) → IsTrace t → IsTrace (step t (pushes m))
unfolding pushed is_accepted total_bytes
step-pushes t m w =
    subst IsTrace (sym (step-pushed t m)) (elim (Bool-cases t.inbox.has_overflowed) [
      | inl stuck ↦
          subst (λ r. IsTrace (pushed t m r)) (sym (push_stuck t.inbox m stuck))
            (record {
              valid = record {
                counted = w.valid.counted;
                few = w.valid.few;
                small = w.valid.small;
              };
              kept = w.kept;
            })
      | inr working ↦ elim (Bool-cases (no_room t.inbox m)) [
        | inl full ↦
            subst (λ r. IsTrace (pushed t m r)) (sym (push_full t.inbox m working full))
              (record {
                valid = record {
                  counted = w.valid.counted;
                  few = w.valid.few;
                  small = w.valid.small;
                };
                kept = w.kept;
              })
        | inr room ↦
            let (few, small) = room_bounds t.inbox m room in
            subst (λ r. IsTrace (pushed t m r)) (sym (push_room t.inbox m working room))
              (record {
                valid = record {
                  counted =
                      omega (arith, w.valid.counted, total_bytes-append t.inbox.pending (m ∷ []));
                  few = omega (arith, few, length-append t.inbox.pending (m ∷ []));
                  small = small;
                };
                kept =
                    sym (append_assoc t.given t.inbox.pending (m ∷ []))
                    ∙ ap (λ l. l ++ (m ∷ [])) w.kept;
              })
      ]
    ])

step-drains : (t : Trace) → IsTrace t → IsTrace (step t drains)
unfolding step drain total_bytes
step-drains t w = record {
  valid = record { counted = refl; few = omega arith; small = omega arith };
  kept = append-nil (t.given ++ t.inbox.pending) ∙ w.kept;
}

run-IsTrace : (t : Trace) (os : List Op) → IsTrace t → IsTrace (run t os)
unfolding run
run-IsTrace t [] w = w
run-IsTrace t (pushes m ∷ os) w = run-IsTrace (step t (pushes m)) os (step-pushes t m w)
run-IsTrace t (drains ∷ os) w = run-IsTrace (step t drains) os (step-drains t w)

begin-IsTrace : IsTrace begin
unfolding begin empty total_bytes
begin-IsTrace = record {
  valid = record { counted = refl; few = omega arith; small = omega arith };
  kept = refl;
}

-- Whatever pushes and drains are made on an empty inbox: the messages handed out, followed by those
-- pending, are the messages accepted, in their order; the count of bytes is that of the pending
-- messages, and neither their number nor their bytes exceed the limits.
pub run-begin-IsTrace : (os : List Op) → IsTrace (run begin os)
run-begin-IsTrace os = run-IsTrace begin os begin-IsTrace
