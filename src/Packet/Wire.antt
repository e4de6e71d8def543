-- ===== src/Packet/Wire.antt =====
-- The wire form of a packet, and that `serialise` writes it.
use leaky_chat.Prelude.{ℕ, ◌%◌, ◌^◌, sym, subst, append-nil, List, [], ◌∷◌, ◌++◌}
use leaky_chat.Buffer.{MemBuffer}
use leaky_chat.Buffer.Codec.{
  le_bytes, put_byte, put_int, put_string, put_strings, put_payload, ◌<<◌,
}
use leaky_chat.Buffer.Stream.{Writes, Writes-seq}
use leaky_chat.Buffer.Encoding.{
  string_bytes, strings_bytes, payload_bytes, put_byte-Writes, put_int-Writes, put_string-Writes,
  put_strings-Writes, put_payload-Writes,
}
use leaky_chat.Packet.{
  Header, MessagePacket, FieldReqPacket, ControlPacket, Packet, base, message, request, field_req,
  user_list, connection_setup, control, put_header, put_message, put_request, put_field_req,
  put_user_list, put_control, serialise, header,
}

unfoldable pub header_bytes : Header → List ℕ
header_bytes h = (h.packet_type ∷ []) ++ le_bytes 8 h.seq

-- What follows the header.
unfoldable pub body_bytes : Packet → List ℕ
body_bytes (base h) = []
body_bytes (message m) =
    string_bytes m.sender ++ (string_bytes m.receiver ++ payload_bytes m.payload)
body_bytes (request r) = r.request ∷ []
body_bytes (field_req f) = (f.request ∷ []) ++ string_bytes f.field
body_bytes (user_list u) = strings_bytes u.users
body_bytes (connection_setup h) = []
body_bytes (control c) = (c.control ∷ []) ++ le_bytes 4 (c.reply_to % 2 ^ 32)

unfoldable pub packet_bytes : Packet → List ℕ
packet_bytes p = header_bytes (header p) ++ body_bytes p

put_header-Writes : (h : Header) → Writes (put_header h) (header_bytes h)
unfolding header_bytes
put_header-Writes h =
    Writes-seq (put_byte h.packet_type) (put_int 8 h.seq) _ _ (put_byte-Writes h.packet_type)
      (put_int-Writes 8 h.seq)

-- A header and what another insertion writes behind it.
after_header :
    (h : Header) (f : MemBuffer → MemBuffer) (xs : List ℕ)
    → Writes f xs
    → Writes (λ b. f (put_header h b)) (header_bytes h ++ xs)
after_header h f xs w = Writes-seq (put_header h) f _ xs (put_header-Writes h) w

message-Writes : (m : MessagePacket) → Writes (put_message m) (packet_bytes (message m))
unfolding packet_bytes body_bytes header put_message
message-Writes m =
    after_header m.head
      (λ b. b << put_string m.sender << put_string m.receiver << put_payload m.payload) _
      (Writes-seq (put_string m.sender) (λ b. b << put_string m.receiver << put_payload m.payload) _
        _ (put_string-Writes m.sender)
        (Writes-seq (put_string m.receiver) (put_payload m.payload) _ _
          (put_string-Writes m.receiver) (put_payload-Writes m.payload)))

field_req-Writes : (f : FieldReqPacket) → Writes (put_field_req f) (packet_bytes (field_req f))
unfolding packet_bytes body_bytes header put_field_req
field_req-Writes f =
    after_header f.head (λ b. b << put_byte f.request << put_string f.field) _
      (Writes-seq (put_byte f.request) (put_string f.field) _ _ (put_byte-Writes f.request)
        (put_string-Writes f.field))

control-Writes : (c : ControlPacket) → Writes (put_control c) (packet_bytes (control c))
unfolding packet_bytes body_bytes header put_control
control-Writes c =
    after_header c.head (λ b. b << put_byte c.control << put_int 4 (c.reply_to % 2 ^ 32)) _
      (Writes-seq (put_byte c.control) (put_int 4 (c.reply_to % 2 ^ 32)) _ _
        (put_byte-Writes c.control) (put_int-Writes 4 (c.reply_to % 2 ^ 32)))

header_only : (h : Header) → Writes (put_header h) (header_bytes h ++ [])
header_only h =
    subst (λ xs. Writes (put_header h) xs) (sym (append-nil (header_bytes h))) (put_header-Writes h)

-- `serialise` appends the wire form of the packet to a valid buffer, and keeps it valid.
pub serialise-Writes : (p : Packet) → Writes (serialise p) (packet_bytes p)
unfolding serialise packet_bytes body_bytes header put_request put_user_list
serialise-Writes (base h) = header_only h
serialise-Writes (message m) = message-Writes m
serialise-Writes (request r) =
    after_header r.head (put_byte r.request) _ (put_byte-Writes r.request)
serialise-Writes (field_req f) = field_req-Writes f
serialise-Writes (user_list u) =
    after_header u.head (put_strings u.users) _ (put_strings-Writes u.users)
serialise-Writes (connection_setup h) = header_only h
serialise-Writes (control c) = control-Writes c
