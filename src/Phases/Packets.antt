-- ===== src/Phases/Packets.antt =====
-- .phases/phase2/src/utils/Packet.hh and Packet.cpp: the packets before there were payloads. The
-- classes but MessagePacket are those of Packet; what writes uses the MemBuffer of Phases/Buffer, and
-- Phases/Packets/Factory reads.
pub mod Factory
pub mod Wire
use leaky_chat.Prelude.{ℕ, ◌%◌, ◌^◌, List, Outcome, ◌>>=◌}
use leaky_chat.Buffer.{MemBuffer}
use leaky_chat.Packet.{Header, RequestPacket, FieldReqPacket, UserListPacket, ControlPacket}
use leaky_chat.Phases.Buffer.{put_byte, put_int, put_string, put_strings}

pub record MessagePacket : Type 0 where
  pub head : Header
  pub sender : List ℕ
  pub receiver : List ℕ
  pub message : List ℕ

pub data Packet : Type 0 where
  base : Header → Packet
  message : MessagePacket → Packet
  request : RequestPacket → Packet
  field_req : FieldReqPacket → Packet
  user_list : UserListPacket → Packet
  connection_setup : Header → Packet
  control : ControlPacket → Packet

unfoldable pub header : Packet → Header
header (base h) = h
header (message m) = m.head
header (request r) = r.head
header (field_req f) = f.head
header (user_list u) = u.head
header (connection_setup h) = h
header (control c) = c.head

unfoldable pub put_header : Header → MemBuffer → Outcome MemBuffer
put_header h b = put_byte h.packet_type b >>= put_int 8 h.seq

-- The virtual `serialise`.
unfoldable pub serialise : Packet → MemBuffer → Outcome MemBuffer
serialise (base h) b = put_header h b
serialise (message m) b = put_header m.head b >>= λ b1.
    (put_string m.sender b1 >>= λ b2. (put_string m.receiver b2 >>= put_string m.message))
serialise (request r) b = put_header r.head b >>= put_byte r.request
serialise (field_req f) b =
    put_header f.head b >>= λ b1. (put_byte f.request b1 >>= put_string f.field)
serialise (user_list u) b = put_header u.head b >>= put_strings u.users
serialise (connection_setup h) b = put_header h b
serialise (control c) b =
    put_header c.head b >>= λ b1. (put_byte c.control b1 >>= put_int 4 (c.reply_to % 2 ^ 32))
