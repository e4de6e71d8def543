-- ===== src/Tests/Packets.antt =====
-- Packets on the wire.
use leaky_chat.Prelude.{◌/◌, ◌^◌, ◌≡◌, ◌↔◌, refl, arith, [], ◌∷◌, ◌++◌, ok}
use leaky_chat.Buffer.{MemBuffer, null_buffer}
use leaky_chat.Buffer.Fifo.{contents, null_buffer-IsValid}
use leaky_chat.Buffer.Codec.{le_bytes, plain_text}
use leaky_chat.Buffer.Encoding.{string_bytes, payload_bytes}
use leaky_chat.Packet.{
  ControlPacket, Packet, Unset, message, control, message_type, control_type, ack,
  get_packet_factory, serialise, header,
}
use leaky_chat.Packet.Wire.{packet_bytes, header_bytes, body_bytes}
use leaky_chat.Packet.RoundTrip.{received, factory-serialise}
use leaky_chat.Packet.Errors.{reply_to_iff}
use leaky_chat.Tests.Samples.{granting}

abbrev pub garbage : Unset
garbage = record { seq = 77; reply_high = 5 }

abbrev pub hello : Packet
hello = message (record {
  head = record { packet_type = message_type; seq = 2 };
  sender = 97 ∷ [];
  receiver = 98 ∷ [];
  payload = record { type = plain_text; content = 104 ∷ 105 ∷ [] };
})

hello_bytes :
    packet_bytes hello
    ≡ (0 ∷ 2 ∷ 0 ∷ 0 ∷ 0 ∷ 0 ∷ 0 ∷ 0 ∷ 0 ∷ [])
      ++ (1 ∷ 0 ∷ 0 ∷ 0 ∷ 0 ∷ 0 ∷ 0 ∷ 0 ∷ 97 ∷ [])
      ++ (1 ∷ 0 ∷ 0 ∷ 0 ∷ 0 ∷ 0 ∷ 0 ∷ 0 ∷ 98 ∷ [])
      ++ (0 ∷ 2 ∷ 0 ∷ 0 ∷ 0 ∷ 0 ∷ 0 ∷ 0 ∷ 0 ∷ 104 ∷ 105 ∷ [])
unfolding packet_bytes body_bytes header_bytes header string_bytes le_bytes payload_bytes
hello_bytes = refl

factory-serialise_example :
    (b' : MemBuffer) × (get_packet_factory granting garbage (serialise hello null_buffer)
      ≡ ok (received garbage hello, b'))
    × (contents b' ≡ [])
unfolding header packet_bytes body_bytes header_bytes string_bytes le_bytes payload_bytes
factory-serialise_example =
    factory-serialise granting garbage hello null_buffer ((refl, omega arith), refl, refl, refl)
      (λ e. ground arith) null_buffer-IsValid refl (omega arith)

abbrev answer : ControlPacket
answer = record {
  head = record { packet_type = control_type; seq = 9 };
  control = ack;
  reply_to = 2;
}

-- The number 2 needs the upper half 0, and the memory held 5.
reply_to_iff_example :
    ((b' : MemBuffer) × (get_packet_factory granting garbage
          (serialise (control answer) null_buffer)
        ≡ ok (control answer, b')))
    ↔ (garbage.reply_high ≡ 2 / 2 ^ 32)
reply_to_iff_example =
    reply_to_iff granting garbage answer null_buffer (refl, omega arith) null_buffer-IsValid refl
