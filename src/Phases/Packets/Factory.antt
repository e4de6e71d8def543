-- ===== src/Phases/Packets/Factory.antt =====
-- `deserialise` and `getPacketFactory` of .phases/phase2/src/utils/Packet.cpp.
use leaky_chat.Prelude.{
  ℕ, zero, none, some, get_elem?, ◌==◌, if◌then◌else◌, throws, undefined, runtime_error,
}
use leaky_chat.Buffer.{live}
use leaky_chat.Buffer.Reader.{Reader, ◌>>=◌, pure}
use leaky_chat.Buffer.Codec.{Limits, get_string}
use leaky_chat.Packet.{
  Unset, message_type, error_type, request_type, field_req_type, user_list_type,
  connection_setup_type, control_type, get_header, get_request, get_field_req, get_user_list,
  get_control,
}
use leaky_chat.Phases.Packets.{
  MessagePacket, Packet, base, message, request, field_req, user_list, connection_setup, control,
}

module _ (lim : Limits) where
  unfoldable pub get_message : Reader MessagePacket
  get_message = do
    h ← get_header
    s ← get_string lim
    r ← get_string lim
    t ← get_string lim
    pure (record { head = h; sender = s; receiver = r; message = t })

  -- The `switch` of `getPacketFactory`.
  unfoldable pub get_packet : Unset → ℕ → Reader Packet
  get_packet unset t =
      if t == message_type
      then (get_message >>= λ m. pure (message m))
      else if t == request_type
      then (get_request >>= λ r. pure (request r))
      else if t == field_req_type
      then (get_field_req lim >>= λ f. pure (field_req f))
      else if t == user_list_type
      then (get_user_list lim >>= λ u. pure (user_list u))
      else if t == error_type
      then pure (base (record { packet_type = error_type; seq = unset.seq }))
      else if t == connection_setup_type
      then (get_header >>= λ h. pure (connection_setup h))
      else if t == control_type
      then (get_control unset >>= λ c. pure (control c))
      else λ b. throws runtime_error

  unfoldable pub get_packet_factory : Unset → Reader Packet
  get_packet_factory unset b = elim (get_elem? (live b) zero) [
    | none ↦ undefined
    | some t ↦ get_packet unset t b
  ]
