-- ===== src/Packet/RoundTrip.antt =====
-- The factory reads back what `serialise` wrote.
use leaky_chat.Prelude.{
  ℕ, ◌+◌, ◌*◌, ◌%◌, ◌^◌, ◌<◌, ◌≡◌, ◌≢◌, refl, sym, ap, subst, ◌∙◌, arith, true, List, [], ◌∷◌, ◌++◌,
  length, All, ok, append-nil, get_elem?, some,
}
use leaky_chat.Buffer.{MemBuffer, live}
use leaky_chat.Buffer.Fifo.{IsValid, contents, live-eq-contents}
use leaky_chat.Buffer.Codec.{
  Limits, le_bytes, get_byte, get_int, get_string, get_strings, get_payload,
}
use leaky_chat.Buffer.Stream.{Reads, Reads-bind, Reads-map}
use leaky_chat.Buffer.Encoding.{
  string_bytes, strings_bytes, payload_bytes, Admits, get_byte-Reads, get_int-Reads,
  get_string-Reads, get_strings-Reads, get_payload-Reads,
}
use leaky_chat.Packet.{
  Header, MessagePacket, RequestPacket, FieldReqPacket, UserListPacket, ControlPacket, Packet, base,
  message, request, field_req, user_list, connection_setup, control, header, Unset, message_type,
  request_type, field_req_type, user_list_type, connection_setup_type, control_type, error_type,
  get_header, get_message, get_request, get_field_req, get_user_list, get_control, get_packet,
  get_packet_factory, serialise,
}
use leaky_chat.Packet.Wire.{header_bytes, body_bytes, packet_bytes, serialise-Writes}

-- The sequence number fits its 64 bits.
abbrev pub IsHeader : ℕ → Header → Type 0
IsHeader t h = (h.packet_type ≡ t) × (h.seq < 2 ^ 64)

-- A packet that its class made: its type byte is the class's, its numbers fit, and the receiver gets
-- the memory for its strings.
abbrev pub IsPacket : Limits → Packet → Type 0
IsPacket lim (base h) = IsHeader error_type h
IsPacket lim (message m) =
    IsHeader message_type m.head
    × Admits lim m.sender
    × Admits lim m.receiver
    × Admits lim m.payload.content
IsPacket lim (request r) = IsHeader request_type r.head
IsPacket lim (field_req f) = IsHeader field_req_type f.head × Admits lim f.field
IsPacket lim (user_list u) =
    IsHeader user_list_type u.head × (lim.texts (length u.users) ≡ true) × All (Admits lim) u.users
IsPacket lim (connection_setup h) = IsHeader connection_setup_type h
IsPacket lim (control c) = IsHeader control_type c.head

-- What the factory makes of a packet: a control packet has the upper half of `mReplyTo` from its
-- memory, and an ERROR packet its sequence number.
unfoldable pub received : Unset → Packet → Packet
received unset (base h) = base (record { packet_type = error_type; seq = unset.seq })
received unset (control c) =
    control (record c { reply_to = unset.reply_high * 2 ^ 32 + c.reply_to % 2 ^ 32 })
received unset (message m) = message m
received unset (request r) = request r
received unset (field_req f) = field_req f
received unset (user_list u) = user_list u
received unset (connection_setup h) = connection_setup h

pub get_header-Reads : (h : Header) → h.seq < 2 ^ 64 → Reads get_header (header_bytes h) h
unfolding get_header header_bytes
get_header-Reads h k =
    Reads-bind get_byte _ (h.packet_type ∷ []) _ h.packet_type h (get_byte-Reads h.packet_type) (
      Reads-map (get_int 8) (λ s. record { packet_type = h.packet_type; seq = s }) _ h.seq
        (get_int-Reads 8 h.seq k))

module _ (lim : Limits) where
  get_message-Reads :
      (m : MessagePacket)
      → IsPacket lim (message m)
      → Reads (get_message lim) (packet_bytes (message m)) m
  unfolding get_message packet_bytes body_bytes header
  get_message-Reads m (h, hs, hr, hp) =
      Reads-bind get_header _ (header_bytes m.head) _ m.head m (get_header-Reads m.head h.1) (
        Reads-bind (get_string lim) _ (string_bytes m.sender) _ m.sender m
          (get_string-Reads lim m.sender hs)
          (Reads-bind (get_string lim) _ (string_bytes m.receiver) _ m.receiver m
            (get_string-Reads lim m.receiver hr)
            (Reads-map (get_payload lim)
              (λ p. record { head = m.head; sender = m.sender; receiver = m.receiver; payload = p })
              (payload_bytes m.payload) m.payload (get_payload-Reads lim m.payload hp))))

  pub get_field_req-Reads :
      (f : FieldReqPacket)
      → IsPacket lim (field_req f)
      → Reads (get_field_req lim) (packet_bytes (field_req f)) f
  unfolding get_field_req packet_bytes body_bytes header
  get_field_req-Reads f (h, hs) =
      Reads-bind get_header _ (header_bytes f.head) _ f.head f (get_header-Reads f.head h.1) (
        Reads-bind get_byte _ (f.request ∷ []) _ f.request f (get_byte-Reads f.request) (
          Reads-map (get_string lim) (λ s. record { head = f.head; request = f.request; field = s })
            (string_bytes f.field) f.field (get_string-Reads lim f.field hs)))

  pub get_user_list-Reads :
      (u : UserListPacket)
      → IsPacket lim (user_list u)
      → Reads (get_user_list lim) (packet_bytes (user_list u)) u
  unfolding get_user_list packet_bytes body_bytes header
  get_user_list-Reads u (h, n, hs) =
      Reads-bind get_header _ (header_bytes u.head) _ u.head u (get_header-Reads u.head h.1) (
        Reads-map (get_strings lim) (λ us. record { head = u.head; users = us })
          (strings_bytes u.users) u.users (get_strings-Reads lim u.users n hs))

pub get_request-Reads :
    (r : RequestPacket) → r.head.seq < 2 ^ 64 → Reads get_request (packet_bytes (request r)) r
unfolding get_request packet_bytes body_bytes header
get_request-Reads r h =
    Reads-bind get_header _ (header_bytes r.head) _ r.head r (get_header-Reads r.head h) (
      Reads-map get_byte (λ t. record { head = r.head; request = t }) (r.request ∷ []) r.request
        (get_byte-Reads r.request))

pub get_control-Reads :
    (unset : Unset) (c : ControlPacket)
    → c.head.seq < 2 ^ 64
    → Reads
        (get_control unset)
        (packet_bytes (control c))
        (record c { reply_to = unset.reply_high * 2 ^ 32 + c.reply_to % 2 ^ 32 })
unfolding get_control packet_bytes body_bytes header
get_control-Reads unset c h =
    Reads-bind get_header _ (header_bytes c.head) _ c.head _ (get_header-Reads c.head h) (
      Reads-bind get_byte _ (c.control ∷ []) _ c.control _ (get_byte-Reads c.control) (
        Reads-map (get_int 4)
          (λ low. record {
            head = c.head;
            control = c.control;
            reply_to = unset.reply_high * 2 ^ 32 + low;
          })
          (le_bytes 4 (c.reply_to % 2 ^ 32)) (c.reply_to % 2 ^ 32)
          (get_int-Reads 4 (c.reply_to % 2 ^ 32) (omega arith))))

pub setup-Reads :
    (h : Header) → h.seq < 2 ^ 64 → Reads get_header (packet_bytes (connection_setup h)) h
unfolding packet_bytes body_bytes header
setup-Reads h k =
    subst (λ xs. Reads get_header xs h) (sym (append-nil (header_bytes h))) (get_header-Reads h k)

-- The class that the factory reads, by the type byte `t` of the packet.
get_packet-Reads :
    (lim : Limits) (unset : Unset) (p : Packet) (t : ℕ)
    → t ≡ (header p).packet_type
    → IsPacket lim p
    → t ≢ error_type
    → Reads (get_packet lim unset t) (packet_bytes p) (received unset p)
unfolding get_packet header received
get_packet-Reads lim unset (base h) t e v ne = absurd (ne (e ∙ v.0))
get_packet-Reads lim unset (message m) t e v ne =
    let k : t ≡ message_type = e ∙ v.0.0 in
    rw k (Reads-map (get_message lim) message _ m (get_message-Reads lim m v))
get_packet-Reads lim unset (request r) t e v ne =
    let k : t ≡ request_type = e ∙ v.0 in
    rw k (Reads-map get_request request _ r (get_request-Reads r v.1))
get_packet-Reads lim unset (field_req f) t e v ne =
    let k : t ≡ field_req_type = e ∙ v.0.0 in
    rw k (Reads-map (get_field_req lim) field_req _ f (get_field_req-Reads lim f v))
get_packet-Reads lim unset (user_list u) t e v ne =
    let k : t ≡ user_list_type = e ∙ v.0.0 in
    rw k (Reads-map (get_user_list lim) user_list _ u (get_user_list-Reads lim u v))
get_packet-Reads lim unset (connection_setup h) t e v ne =
    let k : t ≡ connection_setup_type = e ∙ v.0 in
    rw k (Reads-map get_header connection_setup _ h (setup-Reads h v.1))
get_packet-Reads lim unset (control c) t e v ne =
    let k : t ≡ control_type = e ∙ v.0 in
    rw k (Reads-map (get_control unset) control _ _ (get_control-Reads unset c v.1))

pub view_front :
    (p : Packet) (b : MemBuffer) (rest : List ℕ)
    → IsValid b
    → contents b ≡ packet_bytes p ++ rest
    → get_elem? (live b) 0 ≡ some (header p).packet_type
unfolding packet_bytes header_bytes
view_front p b rest v e = rw (live-eq-contents v, e)

-- The factory takes exactly the bytes of a packet that is not ERROR off a valid buffer and makes of
-- them what `received` says.
pub factory-Reads :
    (lim : Limits) (unset : Unset) (p : Packet)
    → IsPacket lim p
    → (header p).packet_type ≢ error_type
    → Reads (get_packet_factory lim unset) (packet_bytes p) (received unset p)
unfolding get_packet_factory
factory-Reads lim unset p v ne b rest w e =
    let (b', q, w', e') =
      get_packet-Reads lim unset p (header p).packet_type refl v ne b rest w e in
    (b', rw (view_front p b rest w e, get_packet_factory) q, w', e')

-- What `serialise` writes of a packet that is not ERROR and takes less than 2 ^ 62 bytes to an empty
-- buffer, the factory reads back as `received` says, and leaves nothing: all of it as it was, but for
-- the upper half of `mReplyTo`.
pub factory-serialise :
    (lim : Limits) (unset : Unset) (p : Packet) (b : MemBuffer)
    → IsPacket lim p
    → (header p).packet_type ≢ error_type
    → IsValid b
    → contents b ≡ []
    → length (packet_bytes p) < 2 ^ 62
    → (b' : MemBuffer) × (get_packet_factory lim unset (serialise p b) ≡ ok (received unset p, b'))
      × (contents b' ≡ [])
factory-serialise lim unset p b v ne w e h =
    let (w', q) = serialise-Writes p b w (omega (arith, ap length e)) in
    let (b', r, _, k) =
      factory-Reads lim unset p v ne (serialise p b) [] w'
        (q ∙ ap (λ xs. xs ++ packet_bytes p) e ∙ sym (append-nil (packet_bytes p))) in
    (b', r, k)

-- Every packet but a control packet arrives as it was sent.
received-id :
    (unset : Unset) (p : Packet)
    → (header p).packet_type ≢ error_type
    → (header p).packet_type ≢ control_type
    → (lim : Limits) → IsPacket lim p
    → received unset p ≡ p
unfolding received header
received-id unset (base h) ne nc lim v = absurd (ne v.0)
received-id unset (message m) ne nc lim v = refl
received-id unset (request r) ne nc lim v = refl
received-id unset (field_req f) ne nc lim v = refl
received-id unset (user_list u) ne nc lim v = refl
received-id unset (connection_setup h) ne nc lim v = refl
received-id unset (control c) ne nc lim v = absurd (nc v.0)
