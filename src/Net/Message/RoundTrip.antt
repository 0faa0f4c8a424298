-- ===== src/Net/Message/RoundTrip.antt =====
-- What is encoded is what is decoded, for every message whose numbers fit the words of its fields, but
-- for a drop of no peer.
use atlas_engine.Base.{
  ℕ, ◌≤◌, ◌≡◌, refl, ap, sym, ◌∙◌, subst, arith, Bool, true, false, not, [], ◌++◌, append-nil,
  length, ltb, le→ltb, ltb→lt, if◌then◌else◌, Bool-cases, inl, inr,
}
use atlas_engine.Core.Error.{
  Result, ErrorCode, exhausted, malformed_data, ok, err, ◌>>=◌, ok-injective,
}
use atlas_engine.Simulation.SaveStream as SaveStream
use atlas_engine.Simulation.SaveStream.{Bytes, SaveReader, Read, expect_end}
use atlas_engine.Simulation.SaveStream.RoundTrip.{ReadsBack, at, expect_end-at, bind-ReadsBack}
use atlas_engine.Simulation.SaveStream.Rejects.{Rejects, bind-Rejects}
use atlas_engine.Net.Protocol.{
  MessageType, hello, welcome, turn, hash_check, bye, finish, drop, max_peers,
  max_commands_per_turn, max_system_hashes_per_check, max_message_bytes, max_build_id_bytes,
  max_bye_detail_bytes,
}
use atlas_engine.Net.Message.{
  Hello, Welcome, Turn, HashCheck, Bye, Message, says_hello, says_welcome, says_turn,
  says_hash_check, says_bye, says_finish, says_drop,
}
use atlas_engine.Net.Message.Encode.{
  encode, write_body, write_hello, write_welcome, write_turn, write_hash_check, write_bye,
  is_increasing, payloads_fit,
}
use atlas_engine.Net.Message.Decode.{decode, read_header, read_body, expect_nothing, peek_type}
use atlas_engine.Net.Message.Printed.{
  header_bytes, hello_bytes, welcome_bytes, turn_bytes, hash_check_bytes, bye_bytes, finish_bytes,
  drop_bytes, write_hello_lem, write_welcome_lem, write_turn_lem, write_hash_check_lem,
  write_bye_lem, write_finish_lem, write_drop_lem,
}
use atlas_engine.Net.Message.Bodies.{
  IsWord32, IsWord64, IsHello, IsWelcome, IsTurn, IsHashCheck, read_header-ReadsBack,
  read_hello-ReadsBack, read_welcome-ReadsBack, read_turn-ReadsBack, read_hash_check-ReadsBack,
  read_bye-ReadsBack, read_finish-ReadsBack, read_drop-ReadsBack, read_drop-Rejects,
}

pub type_of : Message → MessageType
type_of (says_hello m) = hello
type_of (says_welcome m) = welcome
type_of (says_turn m) = turn
type_of (says_hash_check m) = hash_check
type_of (says_bye m) = bye
type_of (says_finish m) = finish
type_of (says_drop m) = drop

-- The numbers fit the words of their fields.
unfoldable pub IsMessage : Message → Type 0
IsMessage (says_hello m) = IsHello m
IsMessage (says_welcome m) = IsWelcome m
IsMessage (says_turn m) = IsTurn m
IsMessage (says_hash_check m) = IsHashCheck m
IsMessage (says_bye m) = Unit
IsMessage (says_finish m) = IsWord64 m.last_tick
IsMessage (says_drop m) = IsWord32 m.source × IsWord64 m.turns

-- A drop names a peer that a session could have.
unfoldable pub names_a_peer : Message → Bool
names_a_peer (says_hello m) = true
names_a_peer (says_welcome m) = true
names_a_peer (says_turn m) = true
names_a_peer (says_hash_check m) = true
names_a_peer (says_bye m) = true
names_a_peer (says_finish m) = true
names_a_peer (says_drop m) = ltb m.source max_peers

body_bytes : Message → Bytes
body_bytes (says_hello m) = hello_bytes m
body_bytes (says_welcome m) = welcome_bytes m
body_bytes (says_turn m) = turn_bytes m
body_bytes (says_hash_check m) = hash_check_bytes m
body_bytes (says_bye m) = bye_bytes m
body_bytes (says_finish m) = finish_bytes m
body_bytes (says_drop m) = drop_bytes m

-- What a writer that did not refuse has written, and that it is read back, or refused where it is a
-- drop of no peer.
record Written (m : Message) (out : Bytes) : Type 0 where
  bytes : out ≡ header_bytes (type_of m) ++ body_bytes m
  reads : names_a_peer m ≡ true → ReadsBack (read_body (type_of m)) (body_bytes m) m
  refused : names_a_peer m ≡ false → Rejects (read_body (type_of m)) (body_bytes m) malformed_data

-- What a call that did not refuse has tested.
within-ok :
    {A : Type 0} (b : Bool) (x : ErrorCode) (r : Result A) {y : A}
    → (if b then err x else r) ≡ ok y
    → (b ≡ false) × (r ≡ ok y)
within-ok true x r e = absurd (cc)
within-ok false x r e = (refl, e)

not_ltb : (a b : ℕ) → ltb a b ≡ false → b ≤ a
not_ltb a b e = ground arith

not-not : (b : Bool) → not b ≡ false → b ≡ true
not-not true e = refl
not-not false e = absurd (cc)

hello_limit :
    (m : Hello) {out : Bytes} → write_hello [] m ≡ ok out → length m.build_id ≤ max_build_id_bytes
unfolding write_hello
hello_limit m e = not_ltb max_build_id_bytes (length m.build_id) (within-ok _ _ _ e).0

welcome_limit :
    (m : Welcome) {out : Bytes}
    → write_welcome [] m ≡ ok out
    → (length m.peers ≤ max_peers) × (is_increasing m.peers ≡ true)
unfolding write_welcome
welcome_limit m e =
    let (few, rest) = within-ok _ _ _ e in
    (
      not_ltb max_peers (length m.peers) few,
      not-not (is_increasing m.peers) (within-ok _ _ _ rest).0,
    )

turn_limit :
    (m : Turn) {out : Bytes}
    → write_turn [] m ≡ ok out
    → (length m.commands ≤ max_commands_per_turn) × (payloads_fit m.commands ≡ true)
unfolding write_turn
turn_limit m e =
    let (few, rest) = within-ok _ _ _ e in
    (
      not_ltb max_commands_per_turn (length m.commands) few,
      not-not (payloads_fit m.commands) (within-ok _ _ _ rest).0,
    )

hash_check_limit :
    (m : HashCheck) {out : Bytes}
    → write_hash_check [] m ≡ ok out
    → length m.system_hashes ≤ max_system_hashes_per_check
unfolding write_hash_check
hash_check_limit m e =
    not_ltb max_system_hashes_per_check (length m.system_hashes) (within-ok _ _ _ e).0

bye_limit :
    (m : Bye) {out : Bytes} → write_bye [] m ≡ ok out → length m.detail ≤ max_bye_detail_bytes
unfolding write_bye
bye_limit m e = not_ltb max_bye_detail_bytes (length m.detail) (within-ok _ _ _ e).0

size_checked :
    (r : Result Bytes) {bs : Bytes}
    → (r >>= λ out. if ltb max_message_bytes (length out) then err exhausted else ok out) ≡ ok bs
    → (r ≡ ok bs) × (length bs ≤ max_message_bytes)
size_checked (err x) e = absurd (cc)
size_checked (ok out) {bs} e =
    let (small, same) = within-ok (ltb max_message_bytes (length out)) exhausted (ok out) e in
    (
      same,
      subst (λ b. length b ≤ max_message_bytes) (ok-injective out bs same)
          (not_ltb max_message_bytes (length out) small),
    )

encode-ok :
    (m : Message) {bs : Bytes}
    → encode m ≡ ok bs
    → (write_body [] m ≡ ok bs) × (length bs ≤ max_message_bytes)
unfolding encode
encode-ok m e = size_checked (write_body [] m) e

write_body-Written :
    (m : Message) (out : Bytes) → IsMessage m → write_body [] m ≡ ok out → Written m out
unfolding IsMessage names_a_peer type_of body_bytes write_body read_body
write_body-Written (says_hello m) out w e =
    let h : length m.build_id ≤ max_build_id_bytes = hello_limit m e in
    record {
      bytes = ok-injective out _ (sym e ∙ write_hello_lem [] m h);
      reads = λ _. read_hello-ReadsBack m w h;
      refused = λ k. absurd (cc);
    }
write_body-Written (says_welcome m) out w e =
    let (h, k) = welcome_limit m e in
    record {
      bytes = ok-injective out _ (sym e ∙ write_welcome_lem [] m h k);
      reads = λ _. read_welcome-ReadsBack m w h k;
      refused = λ k. absurd (cc);
    }
write_body-Written (says_turn m) out w e =
    let (h, k) = turn_limit m e in
    record {
      bytes = ok-injective out _ (sym e ∙ write_turn_lem [] m h k);
      reads = λ _. read_turn-ReadsBack m w h k;
      refused = λ k. absurd (cc);
    }
write_body-Written (says_hash_check m) out w e =
    let h : length m.system_hashes ≤ max_system_hashes_per_check = hash_check_limit m e in
    record {
      bytes = ok-injective out _ (sym e ∙ write_hash_check_lem [] m h);
      reads = λ _. read_hash_check-ReadsBack m w h;
      refused = λ k. absurd (cc);
    }
write_body-Written (says_bye m) out w e =
    let h : length m.detail ≤ max_bye_detail_bytes = bye_limit m e in
    record {
      bytes = ok-injective out _ (sym e ∙ write_bye_lem [] m h);
      reads = λ _. read_bye-ReadsBack m h;
      refused = λ k. absurd (cc);
    }
write_body-Written (says_finish m) out w e = record {
  bytes = sym (ok-injective _ _ e) ∙ write_finish_lem [] m;
  reads = λ _. read_finish-ReadsBack m w;
  refused = λ k. absurd (cc);
}
write_body-Written (says_drop m) out w e = record {
  bytes = sym (ok-injective _ _ e) ∙ write_drop_lem [] m;
  reads = λ k. read_drop-ReadsBack m (ltb→lt m.source max_peers k) w.1;
  refused = λ k. read_drop-Rejects m (not_ltb m.source max_peers k) w.0;
}

expect_nothing_end : {A : Type 0} (x : A) (bs : Bytes) → expect_nothing (ok x, at bs []) ≡ ok x
unfolding expect_nothing
expect_nothing_end x bs = rw (expect_nothing, expect_end-at bs) refl

expect_nothing_err :
    {A : Type 0} (r : Result A × SaveReader) (e : ErrorCode)
    → r.0 ≡ err e
    → expect_nothing r ≡ err e
unfolding expect_nothing
expect_nothing_err (ok x, r) e h = absurd (cc)
expect_nothing_err (err d, r) e h = let same : d ≡ e = cc in ap err same

-- What arrives when a message is sent.
unfoldable pub delivered : Message → Result Message
delivered m = if names_a_peer m then ok m else err malformed_data

read_message : Read Message
read_message = SaveStream.◌>>=◌ read_header read_body

whole : Bytes → Result Message
unfolding read_message
whole bytes = expect_nothing (read_message (record { bytes = bytes; offset = 0 }))

whole-reads :
    (m : Message)
    → ReadsBack (read_body (type_of m)) (body_bytes m) m
    → whole (header_bytes (type_of m) ++ body_bytes m) ≡ ok m
unfolding whole read_message
whole-reads m k =
    let out = header_bytes (type_of m) ++ body_bytes m in
    let all =
      bind-ReadsBack read_header read_body (header_bytes (type_of m)) (body_bytes m) (type_of m) m
        (read_header-ReadsBack (type_of m)) k in
    ap (λ l. whole l) (sym (append-nil out))
    ∙ (ap expect_nothing (all.apply [] []) ∙ expect_nothing_end m out)

whole-Rejects :
    (m : Message)
    → Rejects (read_body (type_of m)) (body_bytes m) malformed_data
    → whole (header_bytes (type_of m) ++ body_bytes m) ≡ err malformed_data
unfolding whole read_message
whole-Rejects m k =
    let out = header_bytes (type_of m) ++ body_bytes m in
    let all =
      bind-Rejects read_header read_body (header_bytes (type_of m)) (body_bytes m) (type_of m)
        malformed_data (read_header-ReadsBack (type_of m)) k in
    ap (λ l. whole l) (sym (append-nil out))
    ∙ expect_nothing_err (read_message (at [] (out ++ []))) malformed_data (all.apply [] [])

decode-small : (out : Bytes) → length out ≤ max_message_bytes → decode out ≡ whole out
unfolding decode whole read_message
decode-small out h = rw (le→ltb max_message_bytes (length out) h) refl

whole-delivered : (m : Message) (out : Bytes) → Written m out → whole out ≡ delivered m
unfolding delivered
whole-delivered m out w = elim (Bool-cases (names_a_peer m)) [
  | inl e ↦ rw e (ap whole w.bytes ∙ whole-reads m (w.reads e))
  | inr e ↦ rw e (ap whole w.bytes ∙ whole-Rejects m (w.refused e))
]

-- A message whose numbers fit the words of its fields, and which `encode` does not refuse, decodes to
-- itself, but for a drop whose source is not below `max_peers`: `encode` writes it, and `decode`
-- refuses it as malformed.
pub decode-encode :
    (m : Message) {bs : Bytes} → IsMessage m → encode m ≡ ok bs → decode bs ≡ delivered m
decode-encode m {bs} w e =
    let (body, small) = encode-ok m e in
    decode-small bs small ∙ whole-delivered m bs (write_body-Written m bs w body)

-- The type of a message can be read off its bytes without reading the body.
pub peek_type-encode :
    (m : Message) {bs : Bytes} → IsMessage m → encode m ≡ ok bs → peek_type bs ≡ ok (type_of m)
unfolding peek_type
peek_type-encode m {bs} w e =
    let written : Written m bs = write_body-Written m bs w (encode-ok m e).0 in
    let read : read_header (at [] (header_bytes (type_of m) ++ body_bytes m))
        ≡ (ok (type_of m), at (header_bytes (type_of m)) (body_bytes m)) =
      (read_header-ReadsBack (type_of m)).apply [] (body_bytes m) in
    ap (λ l. (read_header (record { bytes = l; offset = 0 })).0) written.bytes ∙ ap (λ r. r.0) read
