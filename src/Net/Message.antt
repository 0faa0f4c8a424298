-- ===== src/Net/Message.antt =====
-- engine/net/include/atlas/net/message.hpp and src/message.cpp: what two peers say to each other.
-- The records are here, `Encode` and `Decode` hold the two directions.
pub mod Encode
pub mod Decode
pub mod Printed
pub mod Bodies
pub mod RoundTrip
pub mod Refusals
mod Tests
use atlas_engine.Base.{ℕ, List}
use atlas_engine.Simulation.SaveStream.{Bytes}
use atlas_engine.Simulation.Command.{Command}
use atlas_engine.Simulation.Kernel.{SystemHash}
use atlas_engine.Net.Protocol.{ByeReason}

pub record Hello : Type 0 where
  pub hash_algorithm_version : ℕ
  pub save_format_version : ℕ
  pub replay_format_version : ℕ
  pub build_id : Bytes
  pub golden_final_state : ℕ
  pub golden_all_ticks : ℕ
  pub seed : ℕ
  pub start_tick : ℕ
  pub initial_state_hash : ℕ
  pub tick_rate : ℕ
  pub proposed_delay : ℕ

pub record Welcome : Type 0 where
  pub assigned_source : ℕ
  pub peers : List ℕ
  pub agreed_seed : ℕ
  pub start_tick : ℕ
  pub initial_state_hash : ℕ
  pub agreed_delay : ℕ

pub record Turn : Type 0 where
  pub tick : ℕ
  pub source : ℕ
  pub commands : List Command

pub record HashCheck : Type 0 where
  pub tick : ℕ
  pub source : ℕ
  pub state_hash : ℕ
  pub system_hashes : List SystemHash

pub record Bye : Type 0 where
  pub reason : ByeReason
  pub detail : Bytes

pub record Finish : Type 0 where
  pub last_tick : ℕ

pub record Drop : Type 0 where
  pub source : ℕ
  pub turns : ℕ

pub data Message : Type 0 where
  says_hello : Hello → Message
  says_welcome : Welcome → Message
  says_turn : Turn → Message
  says_hash_check : HashCheck → Message
  says_bye : Bye → Message
  says_finish : Finish → Message
  says_drop : Drop → Message
