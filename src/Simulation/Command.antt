-- ===== src/Simulation/Command.antt =====
-- engine/simulation/include/atlas/simulation/command.hpp and src/command.cpp: the command queue.
-- The two ordered maps are association lists in key order, a `std::function` that may be null is an
-- `Option`, and the world is any type. A failing operation returns its error and leaves the queue.
pub mod Order
pub mod Sequence
pub mod Drain
mod Tests
use atlas_engine.Base.{
  ℕ, zero, suc, ◌+◌, ◌*◌, ◌^◌, Bool, true, false, not, ◌&&◌, Option, none, some, List, [], ◌∷◌,
  ◌++◌, ltb, leb, ◌==◌, if◌then◌else◌, length, max, u64,
}
use atlas_engine.Base.OrderedMap.{OrderedMap, find, put, keys}
use atlas_engine.Base.Lex.{lex_less, sort_by}
use atlas_engine.Core.Error.{
  Result, Status, ok, err, ◌>>=◌, ◌>>◌, guard, invalid_argument, already_exists, out_of_range,
  exhausted, not_found,
}
use atlas_engine.Simulation.SaveStream.{Bytes}

pub record Command : Type 0 where
  pub target : ℕ
  pub source : ℕ
  pub sequence : ℕ
  pub type : ℕ
  pub payload : Bytes

pub record ApplyContext : Type 0 where
  pub source : ℕ
  pub tick : ℕ

pub record CommandHandler (W : Type 0) : Type 0 where
  pub validate : Option (Bytes → Status)
  pub apply : Option (W → ApplyContext → Bytes → Status × W)

-- A handler that was accepted: neither function is null.
pub record Registered (W : Type 0) : Type 0 where
  pub validate : Bytes → Status
  pub apply : W → ApplyContext → Bytes → Status × W

pub record CommandQueue (W : Type 0) : Type 0 where
  pub handlers : OrderedMap (Registered W)
  pub next_sequences : OrderedMap ℕ
  pub pending : List Command

abbrev pub max_pending : ℕ
max_pending = 1_000_000

abbrev pub max_payload : ℕ
max_payload = 64 * 1024

-- `CommandType::Invalid`.
abbrev pub invalid_type : ℕ
invalid_type = 0

-- The comparison that `drain` sorts by.
pub precedes : Command → Command → Bool
precedes a b =
    if not (a.source == b.source)
    then ltb a.source b.source
    else if not (a.sequence == b.sequence)
    then ltb a.sequence b.sequence
    else if not (a.type == b.type)
    then ltb a.type b.type
    else lex_less a.payload b.payload

-- The two parts of the partition, each in the order that it was in.
pub due : ℕ → List Command → List Command
due tick [] = []
due tick (c ∷ cs) = if ltb tick c.target then due tick cs else c ∷ due tick cs

pub later : ℕ → List Command → List Command
later tick [] = []
later tick (c ∷ cs) = if ltb tick c.target then c ∷ later tick cs else later tick cs

module _ {W : Type 0} where
  pub empty : CommandQueue W
  empty = record { handlers = []; next_sequences = []; pending = [] }

  register_with :
      CommandQueue W
      → ℕ
      → Option (Bytes → Status)
      → Option (W → ApplyContext → Bytes → Status × W)
      → Result (CommandQueue W)
  register_with q type validate none = err invalid_argument
  register_with q type none (some apply) = err invalid_argument
  register_with q type (some validate) (some apply) = elim (find type q.handlers) [
    | some _ ↦ err already_exists
    | none ↦ ok (record q {
      handlers = put type (record { validate = validate; apply = apply }) q.handlers;
    })
  ]

  pub register_handler : CommandQueue W → ℕ → CommandHandler W → Result (CommandQueue W)
  unfolding register_with
  register_handler q type handler =
      if type == invalid_type
      then err invalid_argument
      else register_with q type handler.validate handler.apply

  pub has_handler : CommandQueue W → ℕ → Bool
  has_handler q type = elim (find type q.handlers) [ some _ ↦ true | none ↦ false ]

  pub next_sequence : CommandQueue W → ℕ → ℕ
  next_sequence q source = elim (find source q.next_sequences) [ some n ↦ n | none ↦ 0 ]

  pub set_next_sequence : CommandQueue W → ℕ → ℕ → CommandQueue W
  set_next_sequence q source n = record q { next_sequences = put source n q.next_sequences }

  unfoldable pub handler_for : CommandQueue W → ℕ → Result (Registered W)
  handler_for q type = elim (find type q.handlers) [ some h ↦ ok h | none ↦ err not_found ]

  -- The checks that both ways of submitting make, in their order.
  pub admit : CommandQueue W → ℕ → Bytes → Status
  admit q type payload = do
    guard (leb (length payload) max_payload) out_of_range
    guard (ltb (length q.pending) max_pending) exhausted
    handler ← handler_for q type
    handler.validate payload

  -- The queue numbers the command and moves the source's counter on.
  pub submit : CommandQueue W → ℕ → ℕ → ℕ → Bytes → Result (CommandQueue W)
  submit q target source type payload =
      admit q type payload
      >> ok (record q {
        next_sequences = put source (u64 (next_sequence q source + 1)) q.next_sequences;
        pending =
            q.pending
            ++ record {
              target = target;
              source = source;
              sequence = next_sequence q source;
              type = type;
              payload = payload;
            }
              ∷ [];
      })

  -- A command that was numbered elsewhere; the counter stays ahead of it.
  pub submit_stamped : CommandQueue W → Command → Result (CommandQueue W)
  submit_stamped q c =
      admit q c.type c.payload
      >> ok (record q {
        next_sequences =
            put c.source (max (next_sequence q c.source) (u64 (c.sequence + 1))) q.next_sequences;
        pending = q.pending ++ c ∷ [];
      })

  -- Everything due by the tick, in the total order; the rest stays.
  pub drain : CommandQueue W → ℕ → List Command × CommandQueue W
  drain q tick =
      (sort_by precedes (due tick q.pending), record q { pending = later tick q.pending })

  -- The outer error is a command that cannot be applied, the inner one a world that declines.
  unfoldable pub apply : CommandQueue W → W → Command → Result Status × W
  apply q world c = elim (handler_for q c.type) [
    | err e ↦ (err e, world)
    | ok handler ↦ elim (handler.validate c.payload) [
      | err e ↦ (err e, world)
      | ok _ ↦
          let out = handler.apply world (record { source = c.source; tick = c.target }) c.payload in
          (ok out.0, out.1)
    ]
  ]

  pub sources : CommandQueue W → List ℕ
  sources q = keys q.next_sequences

  unfoldable pub clear : CommandQueue W → CommandQueue W
  clear q = record q { next_sequences = []; pending = [] }
