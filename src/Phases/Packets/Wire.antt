-- ===== src/Phases/Packets/Wire.antt =====
-- The wire form of the packets of .phases/phase2/src/utils/Packet.cpp, that `serialise` writes it and that the
-- factory reads it back.
use leaky_chat.Prelude.{
  ℕ, ◌+◌, ◌*◌, ◌%◌, ◌^◌, ◌≡◌, ◌≢◌, refl, sym, subst, ◌∙◌, List, [], ◌∷◌, ◌++◌, append-nil,
  get_elem?, some, Outcome, ◌>>=◌, true, All, length,
}
use leaky_chat.Buffer.{MemBuffer, live}
use leaky_chat.Buffer.Fifo.{live-eq-contents}
use leaky_chat.Buffer.Codec.{Limits, le_bytes, get_string}
use leaky_chat.Buffer.Stream.{Reads, Reads-bind, Reads-map}
use leaky_chat.Buffer.Encoding.{string_bytes, strings_bytes, Admits, get_string-Reads}
use leaky_chat.Packet.{
  Header, RequestPacket, FieldReqPacket, UserListPacket, ControlPacket, Unset, message_type,
  request_type, field_req_type, user_list_type, connection_setup_type, control_type, error_type,
  get_header, get_request, get_field_req, get_user_list, get_control,
}
use leaky_chat.Packet.Wire.{header_bytes, body_bytes, packet_bytes}
use leaky_chat.Packet.RoundTrip.{
  IsHeader, get_header-Reads, get_request-Reads, get_field_req-Reads, get_user_list-Reads,
  get_control-Reads, setup-Reads,
}
use leaky_chat.Phases.Buffer.{put_byte, put_int, put_string, put_strings}
use leaky_chat.Phases.Buffer.Contract.{
  Fills, Fills-seq, put_byte-Fills, put_int-Fills, put_string-Fills, put_strings-Fills,
}
use leaky_chat.Phases.Packets.{
  MessagePacket, Packet, base, message, request, field_req, user_list, connection_setup, control,
  header, put_header, serialise,
}
use leaky_chat.Phases.Packets.Factory.{get_message, get_packet, get_packet_factory}

-- What comes behind the header of a message is three strings; the other packets have the form that they
-- still have.
unfoldable pub body : Packet → List ℕ
body (base h) = []
body (message m) = string_bytes m.sender ++ (string_bytes m.receiver ++ string_bytes m.message)
body (request r) = r.request ∷ []
body (field_req f) = (f.request ∷ []) ++ string_bytes f.field
body (user_list u) = strings_bytes u.users
body (connection_setup h) = []
body (control c) = (c.control ∷ []) ++ le_bytes 4 (c.reply_to % 2 ^ 32)

unfoldable pub wire_bytes : Packet → List ℕ
wire_bytes p = header_bytes (header p) ++ body p

put_header-Fills : (h : Header) → Fills (put_header h) (header_bytes h)
unfolding header_bytes put_header
put_header-Fills h =
    Fills-seq (put_byte h.packet_type) (put_int 8 h.seq) (h.packet_type ∷ []) (le_bytes 8 h.seq)
      (put_byte-Fills h.packet_type) (put_int-Fills 8 h.seq)

header_only : (h : Header) → Fills (put_header h) (header_bytes h ++ [])
header_only h =
    subst (λ xs. Fills (put_header h) xs) (sym (append-nil (header_bytes h))) (put_header-Fills h)

after_header :
    (h : Header) (f : MemBuffer → Outcome MemBuffer) (xs : List ℕ)
    → Fills f xs
    → Fills (λ b. put_header h b >>= f) (header_bytes h ++ xs)
after_header h f xs w = Fills-seq (put_header h) f (header_bytes h) xs (put_header-Fills h) w

-- `serialise` writes the wire form, or past the block.
pub serialise-Fills : (p : Packet) → Fills (serialise p) (wire_bytes p)
unfolding serialise wire_bytes body header
serialise-Fills (base h) = header_only h
serialise-Fills (message m) =
    after_header m.head
      (λ b1. put_string m.sender b1 >>= λ b2. (put_string m.receiver b2 >>= put_string m.message)) _
      (Fills-seq (put_string m.sender) (λ b2. put_string m.receiver b2 >>= put_string m.message)
        (string_bytes m.sender) (string_bytes m.receiver ++ string_bytes m.message)
        (put_string-Fills m.sender)
        (Fills-seq (put_string m.receiver) (put_string m.message) (string_bytes m.receiver)
          (string_bytes m.message) (put_string-Fills m.receiver) (put_string-Fills m.message)))
serialise-Fills (request r) =
    after_header r.head (put_byte r.request) (r.request ∷ []) (put_byte-Fills r.request)
serialise-Fills (field_req f) =
    after_header f.head (λ b1. put_byte f.request b1 >>= put_string f.field) _
      (Fills-seq (put_byte f.request) (put_string f.field) (f.request ∷ []) (string_bytes f.field)
        (put_byte-Fills f.request) (put_string-Fills f.field))
serialise-Fills (user_list u) =
    after_header u.head (put_strings u.users) (strings_bytes u.users) (put_strings-Fills u.users)
serialise-Fills (connection_setup h) = header_only h
serialise-Fills (control c) =
    after_header c.head (λ b1. put_byte c.control b1 >>= put_int 4 (c.reply_to % 2 ^ 32)) _
      (Fills-seq (put_byte c.control) (put_int 4 (c.reply_to % 2 ^ 32)) (c.control ∷ [])
        (le_bytes 4 (c.reply_to % 2 ^ 32)) (put_byte-Fills c.control)
        (put_int-Fills 4 (c.reply_to % 2 ^ 32)))

-- A packet that its class made, with its numbers and strings as a receiver needs them.
abbrev pub IsWellFormed : Limits → Packet → Type 0
IsWellFormed lim (base h) = IsHeader error_type h
IsWellFormed lim (message m) =
    IsHeader message_type m.head
    × Admits lim m.sender
    × Admits lim m.receiver
    × Admits lim m.message
IsWellFormed lim (request r) = IsHeader request_type r.head
IsWellFormed lim (field_req f) = IsHeader field_req_type f.head × Admits lim f.field
IsWellFormed lim (user_list u) =
    IsHeader user_list_type u.head × (lim.texts (length u.users) ≡ true) × All (Admits lim) u.users
IsWellFormed lim (connection_setup h) = IsHeader connection_setup_type h
IsWellFormed lim (control c) = IsHeader control_type c.head

unfoldable pub received : Unset → Packet → Packet
received unset (base h) = base (record { packet_type = error_type; seq = unset.seq })
received unset (control c) =
    control (record c { reply_to = unset.reply_high * 2 ^ 32 + c.reply_to % 2 ^ 32 })
received unset (message m) = message m
received unset (request r) = request r
received unset (field_req f) = field_req f
received unset (user_list u) = user_list u
received unset (connection_setup h) = connection_setup h

module _ (lim : Limits) where
  get_message-Reads :
      (m : MessagePacket)
      → IsWellFormed lim (message m)
      → Reads (get_message lim) (wire_bytes (message m)) m
  unfolding get_message wire_bytes body header
  get_message-Reads m (h, hs, hr, ht) =
      Reads-bind get_header _ (header_bytes m.head) _ m.head m (get_header-Reads m.head h.1) (
        Reads-bind (get_string lim) _ (string_bytes m.sender) _ m.sender m
          (get_string-Reads lim m.sender hs)
          (Reads-bind (get_string lim) _ (string_bytes m.receiver) _ m.receiver m
            (get_string-Reads lim m.receiver hr)
            (Reads-map (get_string lim)
              (λ t. record { head = m.head; sender = m.sender; receiver = m.receiver; message = t })
              (string_bytes m.message) m.message (get_string-Reads lim m.message ht))))

  get_packet-Reads :
      (unset : Unset) (p : Packet) (t : ℕ)
      → t ≡ (header p).packet_type
      → IsWellFormed lim p
      → t ≢ error_type
      → Reads (get_packet lim unset t) (wire_bytes p) (received unset p)
  unfolding get_packet header received wire_bytes body packet_bytes body_bytes
      leaky_chat.Packet.header
  get_packet-Reads unset (base h) t e v ne = absurd (ne (e ∙ v.0))
  get_packet-Reads unset (message m) t e v ne =
      let k : t ≡ message_type = e ∙ v.0.0 in
      rw k (Reads-map (get_message lim) message _ m (get_message-Reads m v))
  get_packet-Reads unset (request r) t e v ne =
      let k : t ≡ request_type = e ∙ v.0 in
      rw k (Reads-map get_request request _ r (get_request-Reads r v.1))
  get_packet-Reads unset (field_req f) t e v ne =
      let k : t ≡ field_req_type = e ∙ v.0.0 in
      rw k (Reads-map (get_field_req lim) field_req _ f (get_field_req-Reads lim f v))
  get_packet-Reads unset (user_list u) t e v ne =
      let k : t ≡ user_list_type = e ∙ v.0.0 in
      rw k (Reads-map (get_user_list lim) user_list _ u (get_user_list-Reads lim u v))
  get_packet-Reads unset (connection_setup h) t e v ne =
      let k : t ≡ connection_setup_type = e ∙ v.0 in
      rw k (Reads-map get_header connection_setup _ h (setup-Reads h v.1))
  get_packet-Reads unset (control c) t e v ne =
      let k : t ≡ control_type = e ∙ v.0 in
      rw k (Reads-map (get_control unset) control _ _ (get_control-Reads unset c v.1))

  -- The factory takes exactly the bytes of a packet that is not ERROR off a valid buffer.
  pub factory-Reads :
      (unset : Unset) (p : Packet)
      → IsWellFormed lim p
      → (header p).packet_type ≢ error_type
      → Reads (get_packet_factory lim unset) (wire_bytes p) (received unset p)
  unfolding get_packet_factory wire_bytes header_bytes
  factory-Reads unset p v ne b rest w e =
      let front : get_elem? (live b) 0 ≡ some (header p).packet_type = rw (live-eq-contents w, e) in
      let (b', q, w', e') = get_packet-Reads unset p (header p).packet_type refl v ne b rest w e in
      (b', rw (front, get_packet_factory) q, w', e')
