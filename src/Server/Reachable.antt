-- ===== src/Server/Reachable.antt =====
-- The states that the server comes to, and what it sends in them.
use leaky_chat.Prelude.{
  ℕ, ◌≡◌, refl, arith, some, List, [], ◌∷◌, All, get_elem?, Option-cases, Bool-cases, inl, inr, ok,
  >>=-eq-ok, ◌==◌,
}
use leaky_chat.Packet.{
  Packet, message, request, field_req, base, user_list, connection_setup, control, MessagePacket,
  FieldReqPacket, RequestPacket, disconnect, user_list_type, ack,
}
use leaky_chat.Server.{
  Connection, Server, NameMap, Sent, get_sid, contains, send_to, can_send, handle_login,
  get_user_list, handle_quit, handle_message, dispatch, Received, packet, nothing, hung_up, serve,
  add_connection, connected_names, reply,
}
use leaky_chat.Server.Names.{IsValid}
use leaky_chat.Server.Routing.{serve-IsValid}

-- The server before its first connection.
abbrev pub initial : Server
initial = record { connections = []; usernames = record { names = []; holders = [] } }

-- A state that the server comes to: a client connects, or something is received from a socket.
pub data IsReachable : Server → Type 0 where
  begins : IsReachable initial
  connects : (c : Connection) (s : Server) → IsReachable s → IsReachable (add_connection c s)
  receives :
      (unset sid : ℕ) (r : Received) (s t : Server) (out : Sent)
      → IsReachable s
      → serve unset sid r s ≡ ok (t, out)
      → IsReachable t

initial-IsValid : IsValid initial.usernames
unfolding get_sid
initial-IsValid = record { distinct = tt; complete = λ n sid h full. cc; sound = λ n sid h. cc }

-- In every state that the server comes to, its two tables of names agree.
pub IsReachable-IsValid : (s : Server) → IsReachable s → IsValid s.usernames
unfolding add_connection
IsReachable-IsValid _ begins = initial-IsValid
IsReachable-IsValid _ (connects c s r) = IsReachable-IsValid s r
IsReachable-IsValid t (receives unset sid r s _ out h e) =
    serve-IsValid unset sid r s t out e (IsReachable-IsValid s h)

-- What may go out when something came from the socket `sid`: an answer to it, or a message that
-- carries the name of `sid`, to the socket with the name that the message is for.
abbrev pub IsHonest : ℕ → NameMap → ℕ × Packet → Type 0
IsHonest sid m (to, message p) =
    (get_elem? m.names sid ≡ some p.sender) × (get_elem? m.names to ≡ some p.receiver)
IsHonest sid m (to, control c) = to ≡ sid
IsHonest sid m (to, user_list u) = to ≡ sid
IsHonest sid m (to, base h) = ⊥
IsHonest sid m (to, request r) = ⊥
IsHonest sid m (to, field_req f) = ⊥
IsHonest sid m (to, connection_setup h) = ⊥

send_to-IsHonest :
    (cs : List Connection) (to sid : ℕ) (p : Packet) (m : NameMap)
    → IsHonest sid m (to, p)
    → All (IsHonest sid m) (send_to cs to p)
send_to-IsHonest cs to sid p m h = elim (Option-cases (get_elem? cs to)) [
  | inl e ↦ let q : send_to cs to p ≡ [] = rw (send_to, e) in rw q tt
  | inr (c, e) ↦ elim (Bool-cases (can_send c)) [
    | inl k ↦ let q : send_to cs to p ≡ (to, p) ∷ [] = rw (send_to, e, k) in rw q (h, tt)
    | inr k ↦ let q : send_to cs to p ≡ [] = rw (send_to, e, k) in rw q tt
  ]
]

handle_message-IsHonest :
    (sid : ℕ) (p : MessagePacket) (s t : Server) (out : Sent)
    → IsValid s.usernames
    → handle_message sid p s ≡ ok (t, out)
    → All (IsHonest sid s.usernames) out
unfolding handle_message
handle_message-IsHonest sid p s t out v h = elim (Option-cases (get_elem? s.usernames.names sid)) [
  | inl e ↦ absurd (ground arith)
  | inr (n, e) ↦ elim (Option-cases (get_sid p.receiver s.usernames.holders)) [
    | inl k ↦ let q : out ≡ [] = ground arith in rw q tt
    | inr (to, k) ↦
        let q : send_to s.connections to (message (record p { sender = n })) ≡ out = ground arith in
        rw (← q) (send_to-IsHonest s.connections to sid _ s.usernames (e, v.sound p.receiver to k))
  ]
]

handle_login-IsHonest :
    (unset sid : ℕ) (f : FieldReqPacket) (s : Server)
    → All (IsHonest sid s.usernames) (handle_login unset sid f s).1
unfolding handle_login
handle_login-IsHonest unset sid f s = elim (Bool-cases (contains f.field s.usernames)) [
  | inl e ↦ rw e (send_to-IsHonest s.connections sid sid _ s.usernames refl)
  | inr e ↦ rw e (send_to-IsHonest s.connections sid sid _ s.usernames refl)
]

get_user_list-IsHonest :
    (unset sid : ℕ) (s t : Server) (out : Sent)
    → get_user_list unset sid s ≡ ok (t, out)
    → All (IsHonest sid s.usernames) out
unfolding get_user_list
get_user_list-IsHonest unset sid s t out h =
    let (users, e, k) = >>=-eq-ok (connected_names s.connections s.usernames.names) _ h in
    let q : send_to s.connections sid (
          user_list
            (record { head = record { packet_type = user_list_type; seq = unset }; users = users }))
        ≡ out =
      cc in
    rw (← q) (send_to-IsHonest s.connections sid sid _ s.usernames refl)

request-IsHonest :
    (unset sid : ℕ) (r : RequestPacket) (s t : Server) (out : Sent)
    → dispatch unset sid (request r) s ≡ ok (t, out)
    → All (IsHonest sid s.usernames) out
unfolding dispatch handle_quit
request-IsHonest unset sid r s t out h = elim (Bool-cases (r.request == disconnect)) [
  | inl e ↦
      let q : send_to s.connections sid (reply unset ack r.head.seq) ≡ out = ground arith in
      rw (← q) (send_to-IsHonest s.connections sid sid _ s.usernames refl)
  | inr e ↦ get_user_list-IsHonest unset sid s t out (ground arith)
]

-- Whatever comes from a socket in a state that the server comes to, what it sends is an answer to
-- that socket, or a message that carries the socket's own name and goes to a socket with the name it
-- is for; no client can send under another's name.
pub serve-IsHonest :
    (unset sid : ℕ) (r : Received) (s t : Server) (out : Sent)
    → IsReachable s
    → serve unset sid r s ≡ ok (t, out)
    → All (IsHonest sid s.usernames) out
unfolding serve dispatch
serve-IsHonest unset sid nothing s t out h e = let q : out ≡ [] = ground arith in rw q tt
serve-IsHonest unset sid hung_up s t out h e = let q : out ≡ [] = ground arith in rw q tt
serve-IsHonest unset sid (packet (message m)) s t out h e =
    handle_message-IsHonest sid m s t out (IsReachable-IsValid s h) e
serve-IsHonest unset sid (packet (field_req f)) s t out h e =
    let q : (handle_login unset sid f s).1 ≡ out = ground arith in
    rw (← q) (handle_login-IsHonest unset sid f s)
serve-IsHonest unset sid (packet (request r)) s t out h e = request-IsHonest unset sid r s t out e
serve-IsHonest unset sid (packet (base x)) s t out h e = let q : out ≡ [] = ground arith in rw q tt
serve-IsHonest unset sid (packet (user_list x)) s t out h e =
    let q : out ≡ [] = ground arith in rw q tt
serve-IsHonest unset sid (packet (connection_setup x)) s t out h e =
    let q : out ≡ [] = ground arith in rw q tt
serve-IsHonest unset sid (packet (control x)) s t out h e =
    let q : out ≡ [] = ground arith in rw q tt
