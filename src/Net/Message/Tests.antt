-- ===== src/Net/Message/Tests.antt =====
-- The protocol at a concrete turn and at bytes that are no message.
use atlas_engine.Base.{◌≡◌, refl, ◌∙◌, [], ◌∷◌, arith}
use atlas_engine.Core.Error.{ok, err, malformed_data}
use atlas_engine.Simulation.SaveStream.{
  Bytes, append_le, write_u32, write_u64, write_bytes, read_u64, take_bytes,
}
use atlas_engine.Simulation.CommandCodec.{write_command}
use atlas_engine.Net.Protocol.{type_number}
use atlas_engine.Net.Message.{Message, says_turn, says_drop}
use atlas_engine.Simulation.SaveStream.Refusals.{IsRefusal}
use atlas_engine.Net.Message.Encode.{encode, write_header, write_turn, write_commands}
use atlas_engine.Net.Message.Decode.{decode}
use atlas_engine.Net.Message.RoundTrip.{IsMessage, names_a_peer, delivered, decode-encode}
use atlas_engine.Net.Message.Refusals.{decode-IsRefusal}

abbrev order : Message
order = says_turn (record {
  tick = 12;
  source = 3;
  commands =
      record { target = 12; source = 3; sequence = 5; type = 77; payload = 1 ∷ 2 ∷ 3 ∷ [] } ∷ [];
})

abbrev coded : Bytes
coded =
    65 ∷ 84 ∷ 76 ∷ 65 ∷ 83 ∷ 78 ∷ 69 ∷ 84 ∷ 3 ∷ 0 ∷ 0 ∷ 0 ∷ 3 ∷ 0 ∷ 0 ∷ 0 ∷ 12 ∷ 0 ∷ 0 ∷ 0 ∷ 0 ∷ 0
    ∷ 0 ∷ 0 ∷ 3 ∷ 0 ∷ 0 ∷ 0 ∷ 1 ∷ 0 ∷ 0 ∷ 0 ∷ 0 ∷ 0 ∷ 0 ∷ 0 ∷ 12 ∷ 0 ∷ 0 ∷ 0 ∷ 0 ∷ 0 ∷ 0 ∷ 0 ∷ 3 ∷ 0
    ∷ 0 ∷ 0 ∷ 5 ∷ 0 ∷ 0 ∷ 0 ∷ 0 ∷ 0 ∷ 0 ∷ 0 ∷ 77 ∷ 0 ∷ 0 ∷ 0 ∷ 3 ∷ 0 ∷ 0 ∷ 0 ∷ 0 ∷ 0 ∷ 0 ∷ 0 ∷ 1 ∷ 2
    ∷ 3 ∷ []

order_bytes : encode order ≡ ok coded
unfolding encode write_command append_le write_u32 write_u64 write_bytes write_header write_turn
    write_commands type_number
order_bytes = refl

order-IsMessage : IsMessage order
unfolding IsMessage
order-IsMessage = record {
  tick = omega arith;
  source = omega arith;
  commands = (
    record {
      target = omega arith;
      source = omega arith;
      sequence = omega arith;
      type = omega arith;
      payload = omega arith;
    },
    tt,
  );
}

decode-encode_example : decode coded ≡ delivered order
decode-encode_example = decode-encode order order-IsMessage order_bytes

delivered-order : delivered order ≡ ok order
unfolding delivered names_a_peer
delivered-order = refl

unknown : decode (1 ∷ []) ≡ err malformed_data
unfolding decode read_u64 take_bytes
unknown = refl

decode-IsRefusal_example : IsRefusal malformed_data
decode-IsRefusal_example = decode-IsRefusal (1 ∷ []) malformed_data unknown

-- A drop of no peer is written and not read.
abbrev dropped : Message
dropped = says_drop (record { source = 20; turns = 1 })

dropped_encodes : (bytes : Bytes) × (encode dropped ≡ ok bytes)
unfolding encode append_le write_u32 write_u64 write_header type_number
dropped_encodes = (_, refl)

dropped-IsMessage : IsMessage dropped
unfolding IsMessage
dropped-IsMessage = (omega arith, omega arith)

not_delivered : delivered dropped ≡ err malformed_data
unfolding delivered names_a_peer
not_delivered = refl

dropped_refused : decode dropped_encodes.0 ≡ err malformed_data
dropped_refused = decode-encode dropped dropped-IsMessage dropped_encodes.1 ∙ not_delivered
