-- ===== src/Net/Message/Refusals.antt =====
-- What `decode` answers to bytes that are no message.
use atlas_engine.Base.{
  ℕ, zero, suc, ◌≡◌, inl, inr, refl, subst, Bool, true, false, Option, none, some, [], ◌∷◌, ltb,
  length, if◌then◌else◌,
}
use atlas_engine.Core.Error.{Result, ErrorCode, ok, err, malformed_data}
use atlas_engine.Simulation.SaveStream.{Bytes, SaveReader, ◌>>=◌, expect_end}
use atlas_engine.Simulation.SaveStream.Refusals.{
  IsRefusal, RefusesWell, Refuses, bind-Refuses, return-Refuses, require-Refuses, or_refuse-Refuses,
  read_u32-Refuses, read_u64-Refuses, read_string-Refuses, read_count-Refuses, read_all-Refuses,
  expect_end-refusal,
}
use atlas_engine.Simulation.CommandCodec.{read_command, read_command-Refuses}
use atlas_engine.Net.Protocol.{
  MessageType, hello, welcome, turn, hash_check, bye, finish, drop, max_message_bytes,
}
use atlas_engine.Net.Message.Decode.{
  read_header, read_hello, read_peers, read_welcome, read_turn, read_system_hash, read_hash_check,
  read_bye, read_finish, read_drop, read_body, expect_nothing, decode,
}

read_header-Refuses : Refuses read_header
unfolding read_header
read_header-Refuses = bind-Refuses _ _ read_u64-Refuses λ magic.
    bind-Refuses _ _ (require-Refuses _ _ (inl refl)) λ _.
      bind-Refuses _ _ read_u32-Refuses λ version.
        bind-Refuses _ _ (require-Refuses _ _ (inr refl))
          λ _. bind-Refuses _ _ read_u32-Refuses λ type. or_refuse-Refuses _

read_hello-Refuses : Refuses read_hello
unfolding read_hello
read_hello-Refuses = bind-Refuses _ _ read_u32-Refuses λ _. bind-Refuses _ _ read_u32-Refuses λ _.
    bind-Refuses _ _ read_u32-Refuses λ _. bind-Refuses _ _ (read_string-Refuses _) λ _.
      bind-Refuses _ _ read_u64-Refuses λ _. bind-Refuses _ _ read_u64-Refuses λ _.
        bind-Refuses _ _ read_u64-Refuses λ _. bind-Refuses _ _ read_u64-Refuses λ _.
          bind-Refuses _ _ read_u64-Refuses λ _.
            bind-Refuses _ _ read_u32-Refuses
              λ _. bind-Refuses _ _ read_u32-Refuses λ _. return-Refuses _

read_peers-Refuses : (n : ℕ) (last : Option ℕ) → Refuses (read_peers n last)
unfolding read_peers
read_peers-Refuses zero last = return-Refuses []
read_peers-Refuses (suc n) last = bind-Refuses _ _ read_u32-Refuses λ peer.
    bind-Refuses _ _ (require-Refuses _ _ (inl refl))
      λ _. bind-Refuses _ _ (read_peers-Refuses n (some peer)) λ rest. return-Refuses (peer ∷ rest)

read_welcome-Refuses : Refuses read_welcome
unfolding read_welcome
read_welcome-Refuses = bind-Refuses _ _ read_u32-Refuses λ _.
    bind-Refuses _ _ (read_count-Refuses _ _) λ n. bind-Refuses _ _ (read_peers-Refuses n none) λ _.
      bind-Refuses _ _ read_u64-Refuses λ _. bind-Refuses _ _ read_u64-Refuses λ _.
        bind-Refuses _ _ read_u64-Refuses
          λ _. bind-Refuses _ _ read_u32-Refuses λ _. return-Refuses _

read_turn-Refuses : Refuses read_turn
unfolding read_turn
read_turn-Refuses = bind-Refuses _ _ read_u64-Refuses λ _. bind-Refuses _ _ read_u32-Refuses λ _.
    bind-Refuses _ _ (read_count-Refuses _ _) λ n.
      bind-Refuses _ _ (read_all-Refuses read_command n read_command-Refuses) λ _. return-Refuses _

read_hash_check-Refuses : Refuses read_hash_check
unfolding read_hash_check read_system_hash
read_hash_check-Refuses = bind-Refuses _ _ read_u64-Refuses λ _.
    bind-Refuses _ _ read_u32-Refuses λ _. bind-Refuses _ _ read_u64-Refuses λ _.
      bind-Refuses _ _ (read_count-Refuses _ _) λ n.
        bind-Refuses _ _
          (read_all-Refuses read_system_hash n (
            bind-Refuses _ _ read_u32-Refuses
              λ _. bind-Refuses _ _ read_u64-Refuses λ _. return-Refuses _))
          λ _. return-Refuses _

read_bye-Refuses : Refuses read_bye
unfolding read_bye
read_bye-Refuses = bind-Refuses _ _ read_u32-Refuses λ _.
    bind-Refuses _ _ (or_refuse-Refuses _)
      λ _. bind-Refuses _ _ (read_string-Refuses _) λ _. return-Refuses _

read_finish-Refuses : Refuses read_finish
unfolding read_finish
read_finish-Refuses = bind-Refuses _ _ read_u64-Refuses λ _. return-Refuses _

read_drop-Refuses : Refuses read_drop
unfolding read_drop
read_drop-Refuses = bind-Refuses _ _ read_u32-Refuses λ _.
    bind-Refuses _ _ (require-Refuses _ _ (inl refl))
      λ _. bind-Refuses _ _ read_u64-Refuses λ _. return-Refuses _

read_body-Refuses : (type : MessageType) → Refuses (read_body type)
unfolding read_body
read_body-Refuses hello = read_hello-Refuses
read_body-Refuses welcome = read_welcome-Refuses
read_body-Refuses turn = read_turn-Refuses
read_body-Refuses hash_check = read_hash_check-Refuses
read_body-Refuses bye = read_bye-Refuses
read_body-Refuses finish = read_finish-Refuses
read_body-Refuses drop = read_drop-Refuses

ended :
    {A : Type 0} (x : A) (s : Result (Unit {0}))
    → RefusesWell s
    → RefusesWell (elim s as (λ _. Result A) [ ok _ ↦ ok x | err e ↦ err e ])
ended x (ok u) h = tt
ended x (err e) h = h

expect_nothing-refusal :
    {A : Type 0} (r : Result A × SaveReader) → RefusesWell r.0 → RefusesWell (expect_nothing r)
unfolding expect_nothing
expect_nothing-refusal (ok x, r) h = ended x (expect_end r) (expect_end-refusal r)
expect_nothing-refusal (err e, r) h = h

decode-refusal : (bytes : Bytes) → RefusesWell (decode bytes)
unfolding decode
decode-refusal bytes = go (ltb max_message_bytes (length bytes))
  where
    go :
        (b : Bool)
        → RefusesWell (
            if b
            then err malformed_data
            else expect_nothing
                ((read_header >>= read_body) (record { bytes = bytes; offset = 0 })))
    go true = inl refl
    go false = expect_nothing-refusal _ (
        (bind-Refuses read_header read_body read_header-Refuses read_body-Refuses).apply
          (record { bytes = bytes; offset = 0 }))

code_refused : {A : Type 0} (r : Result A) (e : ErrorCode) → RefusesWell r → r ≡ err e → IsRefusal e
code_refused (ok x) e h eq = absurd (cc)
code_refused (err d) e h eq = let same : d ≡ e = cc in subst IsRefusal same h

-- Whatever bytes arrive, `decode` refuses with no error but that of malformed data and that of a
-- version that does not match.
pub decode-IsRefusal : (bytes : Bytes) (e : ErrorCode) → decode bytes ≡ err e → IsRefusal e
decode-IsRefusal bytes e eq = code_refused (decode bytes) e (decode-refusal bytes) eq
