-- ===== src/Net/Inbox.antt =====
-- engine/net/include/atlas/net/inbox.hpp and src/inbox.cpp: the bounded queue between the transport's
-- thread and the main one. Each call holds the lock throughout, so an interleaving of the threads is a
-- sequence of calls.
pub mod Accounting
mod Tests
use atlas_engine.Base.{
  ℕ, ◌+◌, ◌*◌, Bool, true, false, ◌||◌, List, [], ◌∷◌, ◌++◌, ltb, leb, if◌then◌else◌, length, u64,
}

abbrev pub max_messages : ℕ
max_messages = 256

abbrev pub max_bytes : ℕ
max_bytes = 1024 * 1024

pub data Push : Type 0 where
  accepted overflowed : Push

pub record CommandInbox : Type 0 where
  pub pending : List (List ℕ)
  pub queued_bytes : ℕ
  pub has_overflowed : Bool
  pub accepted_count : ℕ
  pub refused_count : ℕ

pub empty : CommandInbox
empty = record {
  pending = [];
  queued_bytes = 0;
  has_overflowed = false;
  accepted_count = 0;
  refused_count = 0;
}

pub push : CommandInbox → List ℕ → Push × CommandInbox
push q message =
    if q.has_overflowed
    then (overflowed, record q { refused_count = u64 (q.refused_count + 1) })
    else if leb max_messages (length q.pending) || ltb max_bytes (q.queued_bytes + length message)
    then (overflowed, record q { has_overflowed = true; refused_count = u64 (q.refused_count + 1) })
    else (
      accepted,
      record q {
        queued_bytes = q.queued_bytes + length message;
        pending = q.pending ++ (message ∷ []);
        accepted_count = u64 (q.accepted_count + 1);
      },
    )

pub drain : CommandInbox → List (List ℕ) × CommandInbox
drain q = (q.pending, record q { pending = []; queued_bytes = 0 })
