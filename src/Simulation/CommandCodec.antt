-- ===== src/Simulation/CommandCodec.antt =====
-- engine/simulation/include/atlas/simulation/command_codec.hpp and src/command_codec.cpp: a command
-- as bytes, for recordings and for messages.
mod Tests
use native.Mathlib.Nat.{mod-eq_of_lt}
use atlas_engine.Base.{
  ℕ, ◌+◌, ◌-◌, ◌*◌, ◌^◌, ◌≤◌, ◌<◌, ◌≡◌, refl, subst, sym, arith, Bool, true, false, List, [], ◌∷◌,
  ◌++◌, append_assoc, append-nil, length, length-append, ltb, le→ltb, if◌then◌else◌, u64,
}
use atlas_engine.Core.Error.{Result, ok, err, malformed_data}
use atlas_engine.Simulation.SaveStream.{
  SaveReader, Bytes, SaveReader, Read, ◌>>=◌, return, refuse, write_u32, write_u64, write_bytes,
  read_u32, read_u64, read_count, read_bytes, check_room, take_bytes, remaining,
}
use atlas_engine.Simulation.SaveStream.Bytes.{le_bytes, append_le_lem, length-le_bytes}
use atlas_engine.Simulation.SaveStream.Bounds.{
  InBounds, Moves, IsSafe, reads-IsSafe, bind-IsSafe, return-IsSafe,
}
use atlas_engine.Simulation.SaveStream.RoundTrip.{
  ReadsBack, at, from, bind-ReadsBack, return-ReadsBack, read_u32-ReadsBack, read_u64-ReadsBack,
  counted-ReadsBack, read_written,
}
use atlas_engine.Simulation.SaveStream.Rejects.{Rejects, bind-Rejects, count-Rejects}
use atlas_engine.Simulation.SaveStream.Refusals.{
  Refuses, bind-Refuses, return-Refuses, read_u32-Refuses, read_u64-Refuses, read_count-Refuses,
  read_bytes-Refuses,
}
use atlas_engine.Simulation.Command.{Command, max_payload}

-- The bytes that every command takes beside its payload.
abbrev pub command_overhead : ℕ
command_overhead = 8 + 4 + 8 + 4 + 8

unfoldable pub write_command : Bytes → Command → Bytes
write_command out c =
    let out = write_u64 out c.target in
    let out = write_u32 out c.source in
    let out = write_u64 out c.sequence in
    let out = write_u32 out c.type in
    let out = write_u64 out (length c.payload) in write_bytes out c.payload

unfoldable pub read_command : Read Command
read_command = do
  target ← read_u64
  source ← read_u32
  sequence ← read_u64
  type ← read_u32
  length ← read_count max_payload 1
  payload ← read_bytes length
  return (record {
    target = target;
    source = source;
    sequence = sequence;
    type = type;
    payload = payload;
  })

-- The numbers fit the words of their fields, the length of the payload included.
pub record HasWords (c : Command) : Type 0 where
  pub target : c.target < 2 ^ 64
  pub source : c.source < 2 ^ 32
  pub sequence : c.sequence < 2 ^ 64
  pub type : c.type < 2 ^ 32
  pub payload : length c.payload < 2 ^ 64

-- The fields fit their words, and the payload its limit.
pub record IsCommand (c : Command) : Type 0 where
  pub target : c.target < 2 ^ 64
  pub source : c.source < 2 ^ 32
  pub sequence : c.sequence < 2 ^ 64
  pub type : c.type < 2 ^ 32
  pub payload : length c.payload ≤ max_payload

abbrev pub command_bytes : Command → Bytes
command_bytes c =
    le_bytes 8 c.target
    ++ (le_bytes 4 c.source
        ++ (le_bytes 8 c.sequence
            ++ (le_bytes 4 c.type ++ (le_bytes 8 (length c.payload) ++ (c.payload ++ [])))))

pub write_command_lem : (out : Bytes) (c : Command) → write_command out c ≡ out ++ command_bytes c
unfolding write_command write_u32 write_u64 write_bytes
write_command_lem out c = simp (append_le_lem, append_assoc, append-nil)

pub length-command_bytes :
    (c : Command) → length (command_bytes c) ≡ command_overhead + length c.payload
length-command_bytes c = simp (length-append, length-le_bytes, append-nil) (omega arith)

pub read_command-ReadsBack :
    (c : Command) → IsCommand c → ReadsBack read_command (command_bytes c) c
unfolding read_command
read_command-ReadsBack c w =
    bind-ReadsBack _ _ (le_bytes 8 c.target) _ c.target c (read_u64-ReadsBack c.target w.target) (
      bind-ReadsBack _ _ (le_bytes 4 c.source) _ c.source c (read_u32-ReadsBack c.source w.source) (
        bind-ReadsBack _ _ (le_bytes 8 c.sequence) _ c.sequence c
          (read_u64-ReadsBack c.sequence w.sequence)
          (bind-ReadsBack _ _ (le_bytes 4 c.type) _ c.type c (read_u32-ReadsBack c.type w.type) (
            counted-ReadsBack max_payload c.payload [] _ c w.payload (omega (arith, w.payload))
              (return-ReadsBack c)))))

pub HasWords-IsCommand : (c : Command) → HasWords c → length c.payload ≤ max_payload → IsCommand c
HasWords-IsCommand c w h = record {
  target = w.target;
  source = w.source;
  sequence = w.sequence;
  type = w.type;
  payload = h;
}

-- A payload above the limit is written, and refused when it is read.
pub read_command-Rejects :
    (c : Command)
    → HasWords c
    → max_payload < length c.payload
    → Rejects read_command (command_bytes c) malformed_data
unfolding read_command
read_command-Rejects c w h =
    bind-Rejects _ _ (le_bytes 8 c.target) _ c.target malformed_data
      (read_u64-ReadsBack c.target w.target)
      (bind-Rejects _ _ (le_bytes 4 c.source) _ c.source malformed_data
        (read_u32-ReadsBack c.source w.source)
        (bind-Rejects _ _ (le_bytes 8 c.sequence) _ c.sequence malformed_data
          (read_u64-ReadsBack c.sequence w.sequence)
          (bind-Rejects _ _ (le_bytes 4 c.type) _ c.type malformed_data
            (read_u32-ReadsBack c.type w.type)
            (count-Rejects _ max_payload 1 (length c.payload) (c.payload ++ []) h w.payload))))

-- A command whose fields fit their words and whose payload is within its limit, written behind any
-- bytes, is read back, whatever follows it, and the reader stops where the writer did.
pub read-write_command :
    (out rest : Bytes) (c : Command)
    → IsCommand c
    → let all = write_command out c ++ rest in
      read_command (from out all) ≡ (ok c, from (write_command out c) all)
read-write_command out rest c w =
    rw (write_command_lem out c)
      (read_written read_command out (command_bytes c) rest c (read_command-ReadsBack c w))

-- A command takes its overhead and its payload.
pub length-write_command :
    (out : Bytes) (c : Command)
    → length (write_command out c) ≡ length out + command_overhead + length c.payload
length-write_command out c =
    rw (write_command_lem out c) (simp (length-append, length-le_bytes, append-nil) (omega arith))

read_command-IsSafe : IsSafe read_command
unfolding read_command
read_command-IsSafe =
    let (_, _, word, long, _, bytes, _, count) = reads-IsSafe in
    bind-IsSafe _ _ long λ target. bind-IsSafe _ _ word λ source. bind-IsSafe _ _ long λ sequence.
      bind-IsSafe _ _ word λ type.
        bind-IsSafe _ _ (count max_payload 1)
          λ n. bind-IsSafe _ _ (bytes n) λ payload. return-IsSafe _

-- From a reader whose offset lies in its bytes, `read_command`, whatever it returns, keeps the bytes,
-- does not go back and stays in them.
pub read_command-Moves : (r : SaveReader) → InBounds r → Moves r (read_command r).1
read_command-Moves r b = read_command-IsSafe.moves r b

pub read_command-Refuses : Refuses read_command
unfolding read_command
read_command-Refuses = bind-Refuses _ _ read_u64-Refuses λ _. bind-Refuses _ _ read_u32-Refuses λ _.
    bind-Refuses _ _ read_u64-Refuses λ _. bind-Refuses _ _ read_u32-Refuses λ _.
      bind-Refuses _ _ (read_count-Refuses _ _)
        λ n. bind-Refuses _ _ (read_bytes-Refuses n) λ _. return-Refuses _
