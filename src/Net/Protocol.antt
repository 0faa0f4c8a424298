-- ===== src/Net/Protocol.antt =====
-- engine/net/include/atlas/net/protocol.hpp: versions, limits, and the messages that exist.
use atlas_engine.Base.{ℕ, ◌*◌, Option, none, some, if◌then◌else◌, ◌==◌}

abbrev pub protocol_version : ℕ
protocol_version = 3

abbrev pub net_magic : ℕ
net_magic = 0x5445_4E53_414C_5441

pub data MessageType : Type 0 where
  hello welcome turn hash_check bye finish drop : MessageType

pub data ByeReason : Type 0 where
  quit protocol_error diverged overflow version_mismatch : ByeReason

abbrev pub max_peers : ℕ
max_peers = 16

abbrev pub max_commands_per_turn : ℕ
max_commands_per_turn = 4096

abbrev pub max_system_hashes_per_check : ℕ
max_system_hashes_per_check = 4096

abbrev pub max_message_bytes : ℕ
max_message_bytes = 1024 * 1024

abbrev pub max_build_id_bytes : ℕ
max_build_id_bytes = 256

abbrev pub max_bye_detail_bytes : ℕ
max_bye_detail_bytes = 512

-- The numbers of the enumerators.
unfoldable pub type_number : MessageType → ℕ
type_number hello = 1
type_number welcome = 2
type_number turn = 3
type_number hash_check = 4
type_number bye = 5
type_number finish = 6
type_number drop = 7

unfoldable pub reason_number : ByeReason → ℕ
reason_number quit = 1
reason_number protocol_error = 2
reason_number diverged = 3
reason_number overflow = 4
reason_number version_mismatch = 5

-- The enumerator of a number, if this build has it: the `switch` of `read_header`.
unfoldable pub known_type : ℕ → Option MessageType
known_type n =
    if n == 1
    then some hello
    else if n == 2
    then some welcome
    else if n == 3
    then some turn
    else if n == 4
    then some hash_check
    else if n == 5
    then some bye
    else if n == 6
    then some finish
    else if n == 7
    then some drop
    else none

unfoldable pub known_reason : ℕ → Option ByeReason
known_reason n =
    if n == 1
    then some quit
    else if n == 2
    then some protocol_error
    else if n == 3
    then some diverged
    else if n == 4
    then some overflow
    else if n == 5
    then some version_mismatch
    else none
