-- ===== src/Packet/Errors.antt =====
-- What the factory does that it should not: control and ERROR packets, and input that is no packet.
use leaky_chat.Prelude.{
  ℕ, ◌/◌, ◌^◌, ◌<◌, ◌≡◌, ◌≢◌, ◌↔◌, ap, ◌∙◌, arith, List, [], ◌∷◌, ◌++◌, ok, throws, undefined,
  runtime_error,
}
use leaky_chat.Buffer.{MemBuffer}
use leaky_chat.Buffer.Fifo.{IsValid, contents, live-eq-contents}
use leaky_chat.Buffer.Codec.{Limits, le_bytes}
use leaky_chat.Packet.{
  Header, ControlPacket, base, control, header, Unset, control_type, error_type, get_packet,
  get_packet_factory, serialise,
}
use leaky_chat.Packet.Wire.{header_bytes, body_bytes, packet_bytes}
use leaky_chat.Packet.RoundTrip.{IsPacket, received, view_front, factory-serialise}

received_control_iff :
    (unset : Unset) (c : ControlPacket)
    → (received unset (control c) ≡ control c) ↔ (unset.reply_high ≡ c.reply_to / 2 ^ 32)
unfolding received
received_control_iff unset c = (λ e. ground arith, λ e. ground arith)

-- The upper half of `mReplyTo` is lost: a control packet that is written to an empty buffer is read
-- back as it was exactly if the receiver's memory happens to hold the upper half of its `mReplyTo`.
pub reply_to_iff :
    (lim : Limits) (unset : Unset) (c : ControlPacket) (b : MemBuffer)
    → IsPacket lim (control c)
    → IsValid b
    → contents b ≡ []
    → ((b' : MemBuffer) × (get_packet_factory lim unset (serialise (control c) b)
          ≡ ok (control c, b')))
      ↔ (unset.reply_high ≡ c.reply_to / 2 ^ 32)
unfolding header packet_bytes header_bytes body_bytes le_bytes
reply_to_iff lim unset c b v w e =
    let ne : (header (control c)).packet_type ≢ error_type = λ q. ground (arith, v.0) in
    let (b', q, _) = factory-serialise lim unset (control c) b v ne w e (omega arith) in
    (
      λ (b'', r). (received_control_iff unset c).0 (cc),
      λ h. (b', q ∙ ap (λ p. ok (p, b')) ((received_control_iff unset c).1 h)),
    )

-- An ERROR packet is not read: the factory leaves its bytes in the buffer and makes up its number.
factory_error :
    (lim : Limits) (unset : Unset) (h : Header) (b : MemBuffer) (rest : List ℕ)
    → h.packet_type ≡ error_type
    → IsValid b
    → contents b ≡ packet_bytes (base h) ++ rest
    → get_packet_factory lim unset b
      ≡ ok (base (record { packet_type = error_type; seq = unset.seq }), b)
unfolding get_packet_factory get_packet header
factory_error lim unset h b rest k w e = rw (view_front (base h) b rest w e, get_packet_factory, k)

-- A type byte above CONTROL is refused with an exception, whatever follows it.
pub factory_unknown :
    (lim : Limits) (unset : Unset) (b : MemBuffer) (t : ℕ) (rest : List ℕ)
    → control_type < t
    → IsValid b
    → contents b ≡ t ∷ rest
    → get_packet_factory lim unset b ≡ throws runtime_error
unfolding get_packet_factory get_packet
factory_unknown lim unset b t rest h w e = ground (arith, live-eq-contents w)

-- An empty buffer has no type byte, and `view()[0]` reads out of bounds.
pub factory_empty :
    (lim : Limits) (unset : Unset) (b : MemBuffer)
    → IsValid b
    → contents b ≡ []
    → get_packet_factory lim unset b ≡ undefined
unfolding get_packet_factory
factory_empty lim unset b w e = rw (live-eq-contents w, e, get_packet_factory)
