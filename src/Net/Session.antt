-- ===== src/Net/Session.antt =====
-- engine/net/include/atlas/net/session.hpp and src/session.cpp: one peer of a lockstep session. The
-- members are here, and the operations in the children, each by its name. A link is any state with
-- the operations of `LinkEnd` (engine/net/include/atlas/net/link.hpp), and the text of an error is a
-- parameter. The vectors that have one element for each peer are lists; a read out of range, which
-- the source never does, finds nothing. Of a divergence only its tick is kept.
pub mod Handshake
pub mod Finish
pub mod Checks
pub mod Turns
pub mod Drops
pub mod Handle
pub mod Poll
pub mod Greets
pub mod Preserved
pub mod Agreement
pub mod Speaks
mod Tests
use atlas_engine.Base.{
  ℕ, zero, suc, ◌+◌, Bool, true, false, Option, none, some, List, [], ◌∷◌, get_elem?, replicate,
}
use atlas_engine.Core.Error.{Result, Status, ok, err, ErrorCode}
use atlas_engine.Simulation.SaveStream.{Bytes}
use atlas_engine.Simulation.Command.{CommandQueue}
use atlas_engine.Simulation.TurnGate.{TurnGate}
use atlas_engine.Simulation.Kernel.{SystemHash}
use atlas_engine.Net.Inbox.{CommandInbox}
use atlas_engine.Net.Message.{Hello, HashCheck, Drop}

pub data Topology : Type 0 where
  mesh star : Topology

pub data PeerLoss : Type 0 where
  loss_ends loss_drops : PeerLoss

-- `LinkEnd`, and the text that an error is reported with.
pub record Link (L : Type 0) : Type 0 where
  pub peer_count : L → ℕ
  pub index : L → ℕ
  pub topology : L → Topology
  pub lost : L → ℕ → Bool
  pub inbox : L → ℕ → CommandInbox
  pub set_inbox : L → ℕ → CommandInbox → L
  pub broadcast : L → Bytes → Status × L
  pub pump : L → L
  pub describe : ErrorCode → Bytes

pub record SessionConfig : Type 0 where
  pub input_delay : ℕ
  pub hash_check_interval : ℕ
  pub seed : ℕ
  pub start_tick : ℕ
  pub initial_state_hash : ℕ
  pub tick_rate : ℕ
  pub build_id : Bytes
  pub on_peer_lost : PeerLoss

pub data SessionState : Type 0 where
  handshaking running finishing finished ended : SessionState

pub record SessionStats : Type 0 where
  pub turns_sent : ℕ
  pub turns_received : ℕ
  pub commands_received : ℕ
  pub hash_checks_sent : ℕ
  pub hash_checks_agreed : ℕ

pub record Checkpoint : Type 0 where
  pub tick : ℕ
  pub state_hash : ℕ
  pub system_hashes : List SystemHash

pub record DroppedSource : Type 0 where
  pub source : ℕ
  pub first_missing_turn : ℕ

pub record PollReport : Type 0 where
  pub commands_submitted : ℕ
  pub commands_refused : ℕ
  pub turns_marked : ℕ
  pub highest_target : ℕ
  pub is_finished : Bool
  pub dropped : List DroppedSource

pub record Session (L : Type 0) : Type 0 where
  pub link : L
  pub config : SessionConfig
  pub state : SessionState
  pub self : ℕ
  pub agreed_delay : ℕ
  pub peers : List ℕ
  pub heard : List (Option Hello)
  pub last_turn_sent : Option ℕ
  pub finish_tick : Option ℕ
  pub peer_finish : List (Option ℕ)
  pub turns_from : List ℕ
  pub dropped : List Bool
  pub left : List Bool
  pub pending_drops : List Drop
  pub compared_through : List (Option ℕ)
  pub checkpoints : List Checkpoint
  pub pending_checks : List HashCheck
  pub diverged_at : Option ℕ
  pub stats : SessionStats

-- A session with what a call of `poll` is given, and the report that it fills.
pub record Polled (L W : Type 0) : Type 0 where
  pub session : Session L
  pub queue : CommandQueue W
  pub turns : TurnGate
  pub report : PollReport

abbrev pub max_messages_per_peer_per_poll : ℕ
max_messages_per_peer_per_poll = 64

abbrev pub checkpoints_kept : ℕ
checkpoints_kept = 64

abbrev pub max_pending_checks : ℕ
max_pending_checks = 8

abbrev pub save_format_version : ℕ
save_format_version = 1

abbrev pub golden_final_state : ℕ
golden_final_state = 0xAA82_430D_E232_1AFF

abbrev pub golden_all_ticks : ℕ
golden_all_ticks = 0x2603_546C_5687_E95E

-- Go on while the calls succeed; the state of a failed one is kept.
infixl 5 ◌>>>◌
abbrev pub ◌>>>◌ : {S : Type 0} → Status × S → (S → Status × S) → Status × S
(ok done, s) >>> f = f s
(err e, s) >>> f = (err e, s)

-- The element of a peer.
abbrev pub tick_of : List (Option ℕ) → ℕ → Option ℕ
tick_of ticks peer = elim (get_elem? ticks peer) [ some t ↦ t | none ↦ none ]

abbrev pub flag_of : List Bool → ℕ → Bool
flag_of flags peer = elim (get_elem? flags peer) [ some b ↦ b | none ↦ false ]

abbrev pub count_of : List ℕ → ℕ → ℕ
count_of counts peer = elim (get_elem? counts peer) [ some n ↦ n | none ↦ 0 ]

abbrev pub has_tick : Option ℕ → Bool
has_tick none = false
has_tick (some t) = true

abbrev pub tick_or : ℕ → Option ℕ → ℕ
tick_or otherwise none = otherwise
tick_or otherwise (some t) = t

abbrev pub same_state : SessionState → SessionState → Bool
same_state handshaking handshaking = true
same_state running running = true
same_state finishing finishing = true
same_state finished finished = true
same_state ended ended = true
same_state _ _ = false

abbrev pub drops_peers : PeerLoss → Bool
drops_peers loss_ends = false
drops_peers loss_drops = true

-- The peers from `i` on: `0`, `1`, … up to the count.
abbrev pub peers_from : ℕ → ℕ → List ℕ
peers_from i zero = []
peers_from i (suc n) = i ∷ peers_from (suc i) n
