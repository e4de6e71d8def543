-- ===== src/Packet.antt =====
-- utils/Packet.hh and utils/Packet.cpp: the packets of the protocol, their serialisation and the
-- factory that reads one from a buffer. An `enum class : uint8_t` holds any byte, so it is the byte,
-- and its enumerators are constants. What a constructor leaves unset is an argument, `Unset`.
pub mod Wire
pub mod RoundTrip
pub mod Errors
use leaky_chat.Prelude.{
  ℕ, zero, ◌+◌, ◌*◌, ◌%◌, ◌^◌, List, [], Option, none, some, get_elem?, ◌==◌, if◌then◌else◌,
  Outcome, ok, throws, undefined, runtime_error,
}
use leaky_chat.Buffer.{MemBuffer, live}
use leaky_chat.Buffer.Reader.{Reader, ◌>>=◌, pure}
use leaky_chat.Buffer.Codec.{
  Limits, Payload, plain_text, put_byte, put_int, put_string, put_strings, put_payload, get_byte,
  get_int, get_string, get_strings, get_payload, ◌<<◌,
}

-- The children `PacketType`, `RequestType` and `ControlField` of the wire protocol.
abbrev pub message_type : ℕ
message_type = 0

abbrev pub error_type : ℕ
error_type = 1

abbrev pub request_type : ℕ
request_type = 2

abbrev pub field_req_type : ℕ
field_req_type = 3

abbrev pub user_list_type : ℕ
user_list_type = 4

abbrev pub connection_setup_type : ℕ
connection_setup_type = 5

abbrev pub control_type : ℕ
control_type = 6

abbrev pub request_userlist : ℕ
request_userlist = 0

abbrev pub set_username : ℕ
set_username = 1

abbrev pub disconnect : ℕ
disconnect = 2

abbrev pub ack : ℕ
ack = 0

abbrev pub nack : ℕ
nack = 1

abbrev pub error_field : ℕ
error_field = 2

-- The fields of the class Packet itself.
pub record Header : Type 0 where
  pub packet_type : ℕ
  pub seq : ℕ

pub record MessagePacket : Type 0 where
  pub head : Header
  pub sender : List ℕ
  pub receiver : List ℕ
  pub payload : Payload

pub record RequestPacket : Type 0 where
  pub head : Header
  pub request : ℕ

pub record FieldReqPacket : Type 0 where
  pub head : Header
  pub request : ℕ
  pub field : List ℕ

pub record UserListPacket : Type 0 where
  pub head : Header
  pub users : List (List ℕ)

pub record ControlPacket : Type 0 where
  pub head : Header
  pub control : ℕ
  pub reply_to : ℕ

-- A `Packet` pointer, by the class of its object.
pub data Packet : Type 0 where
  base : Header → Packet
  message : MessagePacket → Packet
  request : RequestPacket → Packet
  field_req : FieldReqPacket → Packet
  user_list : UserListPacket → Packet
  connection_setup : Header → Packet
  control : ControlPacket → Packet

unfoldable pub header : Packet → Header
header (base h) = h
header (message m) = m.head
header (request r) = r.head
header (field_req f) = f.head
header (user_list u) = u.head
header (connection_setup h) = h
header (control c) = c.head

-- What the memory of a new packet holds where no constructor wrote: `seq` of a base packet, and the
-- upper half of a control packet's `mReplyTo`.
pub record Unset : Type 0 where
  pub seq : ℕ
  pub reply_high : ℕ

-- `SequenceNo` is 64 bits wide.
abbrev pub put_header : Header → MemBuffer → MemBuffer
put_header h b = b << put_byte h.packet_type << put_int 8 h.seq

unfoldable pub put_message : MessagePacket → MemBuffer → MemBuffer
put_message m b =
    b << put_header m.head << put_string m.sender << put_string m.receiver << put_payload m.payload

unfoldable pub put_request : RequestPacket → MemBuffer → MemBuffer
put_request r b = b << put_header r.head << put_byte r.request

unfoldable pub put_field_req : FieldReqPacket → MemBuffer → MemBuffer
put_field_req f b = b << put_header f.head << put_byte f.request << put_string f.field

unfoldable pub put_user_list : UserListPacket → MemBuffer → MemBuffer
put_user_list u b = b << put_header u.head << put_strings u.users

-- `(uint32_t) mReplyTo`.
unfoldable pub put_control : ControlPacket → MemBuffer → MemBuffer
put_control c b = b << put_header c.head << put_byte c.control << put_int 4 (c.reply_to % 2 ^ 32)

-- The virtual `serialise`.
unfoldable pub serialise : Packet → MemBuffer → MemBuffer
serialise (base h) = put_header h
serialise (message m) = put_message m
serialise (request r) = put_request r
serialise (field_req f) = put_field_req f
serialise (user_list u) = put_user_list u
serialise (connection_setup h) = put_header h
serialise (control c) = put_control c

unfoldable pub get_header : Reader Header
get_header = do t ← get_byte; s ← get_int 8; pure (record { packet_type = t; seq = s })

-- `(uint32_t&) mReplyTo` sets the lower half alone.
unfoldable pub get_control : Unset → Reader ControlPacket
unfolding get_header
get_control unset = do
  h ← get_header
  c ← get_byte
  low ← get_int 4
  pure (record { head = h; control = c; reply_to = unset.reply_high * 2 ^ 32 + low })

unfoldable pub get_request : Reader RequestPacket
unfolding get_header
get_request = do h ← get_header; r ← get_byte; pure (record { head = h; request = r })

module _ (lim : Limits) where
  unfoldable pub get_message : Reader MessagePacket
  unfolding get_header
  get_message = do
    h ← get_header
    s ← get_string lim
    r ← get_string lim
    p ← get_payload lim
    pure (record { head = h; sender = s; receiver = r; payload = p })

  unfoldable pub get_field_req : Reader FieldReqPacket
  unfolding get_header
  get_field_req = do
    h ← get_header
    r ← get_byte
    s ← get_string lim
    pure (record { head = h; request = r; field = s })

  unfoldable pub get_user_list : Reader UserListPacket
  unfolding get_header
  get_user_list = do h ← get_header; us ← get_strings lim; pure (record { head = h; users = us })

  -- The `switch` of `getPacketFactory`. An ERROR packet is made and not read.
  unfoldable pub get_packet : Unset → ℕ → Reader Packet
  get_packet unset t =
      if t == message_type
      then (get_message >>= λ m. pure (message m))
      else if t == request_type
      then (get_request >>= λ r. pure (request r))
      else if t == field_req_type
      then (get_field_req >>= λ f. pure (field_req f))
      else if t == user_list_type
      then (get_user_list >>= λ u. pure (user_list u))
      else if t == error_type
      then pure (base (record { packet_type = error_type; seq = unset.seq }))
      else if t == connection_setup_type
      then (get_header >>= λ h. pure (connection_setup h))
      else if t == control_type
      then (get_control unset >>= λ c. pure (control c))
      else λ b. throws runtime_error

  -- `buffer.view()[0]` lies out of bounds if the buffer is empty.
  unfoldable pub get_packet_factory : Unset → Reader Packet
  unfolding get_packet
  get_packet_factory unset b = elim (get_elem? (live b) zero) [
    | none ↦ undefined
    | some t ↦ get_packet unset t b
  ]
