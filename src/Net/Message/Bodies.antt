-- ===== src/Net/Message/Bodies.antt =====
-- Each body is read back from the bytes that its writer wrote.
use atlas_engine.Base.{
  and-true, ℕ, ◌*◌, ◌^◌, ◌≤◌, ◌<◌, ◌≡◌, refl, sym, subst, arith, Bool, true, false, ◌&&◌, not,
  Option, none, some, List, [], ◌∷◌, append-nil, length, length-append, All, ltb, lt→ltb, le→ltb,
}
use atlas_engine.Core.Error.{malformed_data}
use atlas_engine.Simulation.SaveStream.{◌>>=◌, return, read_u32, read_u64, or_refuse}
use atlas_engine.Simulation.SaveStream.Bytes.{le_bytes, length-le_bytes}
use atlas_engine.Simulation.SaveStream.RoundTrip.{
  ReadsBack, bind-ReadsBack, return-ReadsBack, read_u32-ReadsBack,
}
use atlas_engine.Simulation.SaveStream.Rejects.{Rejects, bind-Rejects, require-Rejects}
use atlas_engine.Simulation.SaveStream.Formats.{
  then_u32, then_u64, then_string, then_require, then_known, then_count, all_bytes,
  read_all-ReadsBack, length-all_bytes,
}
use atlas_engine.Simulation.Command.{Command, max_payload}
use atlas_engine.Simulation.CommandCodec.{
  HasWords, HasWords-IsCommand, command_bytes, read_command-ReadsBack, read_command,
  command_overhead, length-command_bytes,
}
use atlas_engine.Simulation.Kernel.{SystemHash}
use atlas_engine.Net.Protocol.{
  MessageType, ByeReason, hello, welcome, turn, hash_check, bye, finish, drop, type_number,
  reason_number, known_type, known_reason, protocol_version, net_magic, max_peers,
  max_commands_per_turn, max_system_hashes_per_check, max_build_id_bytes, max_bye_detail_bytes,
  quit, protocol_error, diverged, overflow, version_mismatch,
}
use atlas_engine.Net.Message.{
  Hello, Welcome, Turn, HashCheck, Bye, Finish, Drop, says_hello, says_welcome, says_turn,
  says_hash_check, says_bye, says_finish, says_drop,
}
use atlas_engine.Net.Message.Encode.{is_increasing, payloads_fit}
use atlas_engine.Net.Message.Decode.{
  read_header, read_hello, follows, read_peers, read_welcome, read_turn, read_system_hash,
  read_hash_check, read_bye, read_finish, read_drop, system_hash_bytes,
}
use atlas_engine.Net.Message.Printed.{
  header_bytes, system_hash_bytes_of, hello_bytes, welcome_bytes, turn_bytes, hash_check_bytes,
  bye_bytes, finish_bytes, drop_bytes,
}

abbrev pub IsWord32 : ℕ → Type 0
IsWord32 v = v < 2 ^ 32

abbrev pub IsWord64 : ℕ → Type 0
IsWord64 v = v < 2 ^ 64

known_type-type_number : (type : MessageType) → known_type (type_number type) ≡ some type
unfolding known_type type_number
known_type-type_number hello = refl
known_type-type_number welcome = refl
known_type-type_number turn = refl
known_type-type_number hash_check = refl
known_type-type_number bye = refl
known_type-type_number finish = refl
known_type-type_number drop = refl

type_number_lt : (type : MessageType) → type_number type < 2 ^ 32
unfolding type_number
type_number_lt hello = omega arith
type_number_lt welcome = omega arith
type_number_lt turn = omega arith
type_number_lt hash_check = omega arith
type_number_lt bye = omega arith
type_number_lt finish = omega arith
type_number_lt drop = omega arith

known_reason-reason_number : (r : ByeReason) → known_reason (reason_number r) ≡ some r
unfolding known_reason reason_number
known_reason-reason_number quit = refl
known_reason-reason_number protocol_error = refl
known_reason-reason_number diverged = refl
known_reason-reason_number overflow = refl
known_reason-reason_number version_mismatch = refl

reason_number_lt : (r : ByeReason) → reason_number r < 2 ^ 32
unfolding reason_number
reason_number_lt quit = omega arith
reason_number_lt protocol_error = omega arith
reason_number_lt diverged = omega arith
reason_number_lt overflow = omega arith
reason_number_lt version_mismatch = omega arith

pub read_header-ReadsBack : (type : MessageType) → ReadsBack read_header (header_bytes type) type
unfolding read_header header_bytes
read_header-ReadsBack type = then_u64 _ net_magic (omega arith) (
    then_u32 _ protocol_version (omega arith) (
      subst (λ bs. ReadsBack (read_u32 >>= λ n. or_refuse (known_type n)) bs type)
        (append-nil (le_bytes 4 (type_number type)))
        (then_u32 _ (type_number type) (type_number_lt type) (
          subst (λ o. ReadsBack (or_refuse o) [] type) (sym (known_type-type_number type))
            (return-ReadsBack type)))))

pub record IsHello (m : Hello) : Type 0 where
  pub hash : IsWord32 m.hash_algorithm_version
  pub save : IsWord32 m.save_format_version
  pub replay : IsWord32 m.replay_format_version
  pub golden : IsWord64 m.golden_final_state
  pub golden_all : IsWord64 m.golden_all_ticks
  pub seed : IsWord64 m.seed
  pub start : IsWord64 m.start_tick
  pub initial : IsWord64 m.initial_state_hash
  pub rate : IsWord32 m.tick_rate
  pub delay : IsWord32 m.proposed_delay

pub read_hello-ReadsBack :
    (m : Hello)
    → IsHello m
    → length m.build_id ≤ max_build_id_bytes
    → ReadsBack read_hello (hello_bytes m) (says_hello m)
unfolding read_hello hello_bytes
read_hello-ReadsBack m w h = then_u32 _ m.hash_algorithm_version w.hash (
    then_u32 _ m.save_format_version w.save (
      then_u32 _ m.replay_format_version w.replay (
        then_string _ max_build_id_bytes m.build_id h (omega arith) (
          then_u64 _ m.golden_final_state w.golden (
            then_u64 _ m.golden_all_ticks w.golden_all (
              then_u64 _ m.seed w.seed (
                then_u64 _ m.start_tick w.start (
                  then_u64 _ m.initial_state_hash w.initial (
                    then_u32 _ m.tick_rate w.rate (
                      then_u32 _ m.proposed_delay w.delay
                        (return-ReadsBack (says_hello m))))))))))))

pub record IsWelcome (m : Welcome) : Type 0 where
  pub assigned : IsWord32 m.assigned_source
  pub peers : All IsWord32 m.peers
  pub seed : IsWord64 m.agreed_seed
  pub start : IsWord64 m.start_tick
  pub initial : IsWord64 m.initial_state_hash
  pub delay : IsWord32 m.agreed_delay

-- The list is increasing, and goes on from the peer before it.
abbrev goes_on : Option ℕ → List ℕ → Bool
goes_on last [] = true
goes_on last (p ∷ ps) = follows last p && is_increasing (p ∷ ps)

goes_on-tail : (p : ℕ) (ps : List ℕ) → is_increasing (p ∷ ps) ≡ true → goes_on (some p) ps ≡ true
unfolding is_increasing
goes_on-tail p [] h = refl
goes_on-tail p (q ∷ ps) h = h

and-parts : (a b : Bool) → (a && b) ≡ true → (a ≡ true) × (b ≡ true)
and-parts true b h = (refl, h)
and-parts false b h = absurd (cc)

read_peers-ReadsBack :
    (last : Option ℕ) (ps : List ℕ)
    → All IsWord32 ps
    → goes_on last ps ≡ true
    → ReadsBack (read_peers (length ps) last) (all_bytes (le_bytes 4) ps) ps
unfolding read_peers all_bytes
read_peers-ReadsBack last [] w h = return-ReadsBack []
read_peers-ReadsBack last (p ∷ ps) w h =
    let (first, later) = and-parts (follows last p) (is_increasing (p ∷ ps)) h in
    then_u32 _ p w.0 (
      then_require _ (follows last p) malformed_data first (
        subst
          (λ bs.
            ReadsBack (read_peers (length ps) (some p) >>= λ rest. return (p ∷ rest)) bs (p ∷ ps))
          (append-nil (all_bytes (le_bytes 4) ps))
          (bind-ReadsBack (read_peers (length ps) (some p)) _ (all_bytes (le_bytes 4) ps) [] ps
            (p ∷ ps) (read_peers-ReadsBack (some p) ps w.1 (goes_on-tail p ps later))
            (return-ReadsBack (p ∷ ps)))))

start-goes_on : (ps : List ℕ) → is_increasing ps ≡ true → goes_on none ps ≡ true
unfolding is_increasing
start-goes_on [] h = refl
start-goes_on (p ∷ ps) h = h

words_length : (ps : List ℕ) → length ps * 4 ≤ length (all_bytes (le_bytes 4) ps)
words_length ps = length-all_bytes (le_bytes 4) 4 ps (word_sizes ps)
  where
    word_sizes : (qs : List ℕ) → All (λ q. 4 ≤ length (le_bytes 4 q)) qs
    word_sizes [] = tt
    word_sizes (q ∷ qs) = (omega (arith, length-le_bytes 4 q), word_sizes qs)

pub read_welcome-ReadsBack :
    (m : Welcome)
    → IsWelcome m
    → length m.peers ≤ max_peers
    → is_increasing m.peers ≡ true
    → ReadsBack read_welcome (welcome_bytes m) (says_welcome m)
unfolding read_welcome welcome_bytes
read_welcome-ReadsBack m w h k = then_u32 _ m.assigned_source w.assigned (
    then_count _ max_peers 4 (length m.peers) h (omega arith)
      (grind (arith, words_length m.peers, length-append))
      (bind-ReadsBack (read_peers (length m.peers) none) _ _ _ m.peers _
        (read_peers-ReadsBack none m.peers w.peers (start-goes_on m.peers k))
        (then_u64 _ m.agreed_seed w.seed (
          then_u64 _ m.start_tick w.start (
            then_u64 _ m.initial_state_hash w.initial
              (then_u32 _ m.agreed_delay w.delay (return-ReadsBack (says_welcome m))))))))

pub record IsTurn (m : Turn) : Type 0 where
  pub tick : IsWord64 m.tick
  pub source : IsWord32 m.source
  pub commands : All HasWords m.commands

commands-ReadsBack :
    (cs : List Command)
    → All HasWords cs
    → payloads_fit cs ≡ true
    → All (λ c. ReadsBack read_command (command_bytes c) c) cs
unfolding payloads_fit
commands-ReadsBack [] w e = tt
commands-ReadsBack (c ∷ cs) w e =
    let (here, rest) = and-true (not (ltb max_payload (length c.payload))) (payloads_fit cs) e in
    let fits : length c.payload ≤ max_payload = ground arith in
    (read_command-ReadsBack c (HasWords-IsCommand c w.0 fits), commands-ReadsBack cs w.1 rest)

commands_length :
    (cs : List Command) → length cs * command_overhead ≤ length (all_bytes command_bytes cs)
commands_length cs = length-all_bytes command_bytes command_overhead cs (sizes cs)
  where
    sizes : (ds : List Command) → All (λ d. command_overhead ≤ length (command_bytes d)) ds
    sizes [] = tt
    sizes (d ∷ ds) = (omega (arith, length-command_bytes d), sizes ds)

pub read_turn-ReadsBack :
    (m : Turn)
    → IsTurn m
    → length m.commands ≤ max_commands_per_turn
    → payloads_fit m.commands ≡ true
    → ReadsBack read_turn (turn_bytes m) (says_turn m)
unfolding read_turn turn_bytes
read_turn-ReadsBack m w h k = then_u64 _ m.tick w.tick (
    then_u32 _ m.source w.source (
      then_count _ max_commands_per_turn command_overhead (length m.commands) h (omega arith)
        (grind (arith, commands_length m.commands, length-append))
        (bind-ReadsBack _ _ (all_bytes command_bytes m.commands) [] m.commands (says_turn m)
          (read_all-ReadsBack read_command command_bytes m.commands
            (commands-ReadsBack m.commands w.commands k))
          (return-ReadsBack (says_turn m)))))

abbrev pub IsSystemHash : SystemHash → Type 0
IsSystemHash h = IsWord32 h.system × IsWord64 h.hash

pub record IsHashCheck (m : HashCheck) : Type 0 where
  pub tick : IsWord64 m.tick
  pub source : IsWord32 m.source
  pub state : IsWord64 m.state_hash
  pub systems : All IsSystemHash m.system_hashes

read_system_hash-ReadsBack :
    (h : SystemHash) → IsSystemHash h → ReadsBack read_system_hash (system_hash_bytes_of h) h
unfolding read_system_hash system_hash_bytes_of
read_system_hash-ReadsBack h w = then_u32 _ h.system w.0 (
    subst (λ bs. ReadsBack (read_u64 >>= λ n. return (record { system = h.system; hash = n })) bs h)
      (append-nil (le_bytes 8 h.hash)) (then_u64 _ h.hash w.1 (return-ReadsBack h)))

hashes-ReadsBack :
    (hs : List SystemHash)
    → All IsSystemHash hs
    → All (λ h. ReadsBack read_system_hash (system_hash_bytes_of h) h) hs
hashes-ReadsBack [] w = tt
hashes-ReadsBack (h ∷ hs) w = (read_system_hash-ReadsBack h w.0, hashes-ReadsBack hs w.1)

length-system_hash_bytes_of : (h : SystemHash) → length (system_hash_bytes_of h) ≡ 12
unfolding system_hash_bytes_of
length-system_hash_bytes_of h = omega (
  arith,
  length-append (le_bytes 4 h.system) (le_bytes 8 h.hash),
  length-le_bytes 4 h.system,
  length-le_bytes 8 h.hash,
)

hashes_length :
    (hs : List SystemHash)
    → length hs * system_hash_bytes ≤ length (all_bytes system_hash_bytes_of hs)
hashes_length hs = length-all_bytes system_hash_bytes_of system_hash_bytes hs (sizes hs)
  where
    sizes :
        (ks : List SystemHash) → All (λ k. system_hash_bytes ≤ length (system_hash_bytes_of k)) ks
    sizes [] = tt
    sizes (k ∷ ks) = (omega (arith, length-system_hash_bytes_of k), sizes ks)

pub read_hash_check-ReadsBack :
    (m : HashCheck)
    → IsHashCheck m
    → length m.system_hashes ≤ max_system_hashes_per_check
    → ReadsBack read_hash_check (hash_check_bytes m) (says_hash_check m)
unfolding read_hash_check hash_check_bytes
read_hash_check-ReadsBack m w h = then_u64 _ m.tick w.tick (
    then_u32 _ m.source w.source (
      then_u64 _ m.state_hash w.state (
        then_count _ max_system_hashes_per_check system_hash_bytes (length m.system_hashes) h
          (omega arith) (grind (arith, hashes_length m.system_hashes, length-append))
          (bind-ReadsBack _ _ (all_bytes system_hash_bytes_of m.system_hashes) [] m.system_hashes
            (says_hash_check m)
            (read_all-ReadsBack read_system_hash system_hash_bytes_of m.system_hashes
              (hashes-ReadsBack m.system_hashes w.systems))
            (return-ReadsBack (says_hash_check m))))))

pub read_bye-ReadsBack :
    (m : Bye)
    → length m.detail ≤ max_bye_detail_bytes
    → ReadsBack read_bye (bye_bytes m) (says_bye m)
unfolding read_bye bye_bytes
read_bye-ReadsBack m h = then_u32 _ (reason_number m.reason) (reason_number_lt m.reason) (
    then_known _ _ m.reason (known_reason-reason_number m.reason)
      (then_string _ max_bye_detail_bytes m.detail h (omega arith) (return-ReadsBack (says_bye m))))

pub read_finish-ReadsBack :
    (m : Finish) → IsWord64 m.last_tick → ReadsBack read_finish (finish_bytes m) (says_finish m)
unfolding read_finish finish_bytes
read_finish-ReadsBack m w = then_u64 _ m.last_tick w (return-ReadsBack (says_finish m))

-- A drop names a peer of the session.
pub read_drop-ReadsBack :
    (m : Drop)
    → m.source < max_peers
    → IsWord64 m.turns
    → ReadsBack read_drop (drop_bytes m) (says_drop m)
unfolding read_drop drop_bytes
read_drop-ReadsBack m h w = then_u32 _ m.source (omega arith) (
    then_require _ (ltb m.source max_peers) malformed_data (lt→ltb m.source max_peers h)
      (then_u64 _ m.turns w (return-ReadsBack (says_drop m))))

-- A drop of no peer that a session could have.
pub read_drop-Rejects :
    (m : Drop)
    → max_peers ≤ m.source
    → IsWord32 m.source
    → Rejects read_drop (drop_bytes m) malformed_data
unfolding read_drop drop_bytes
read_drop-Rejects m h w =
    bind-Rejects _ _ (le_bytes 4 m.source) _ m.source malformed_data (read_u32-ReadsBack m.source w)
      (require-Rejects _ (ltb m.source max_peers) malformed_data _ (le→ltb m.source max_peers h))
