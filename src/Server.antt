-- ===== src/Server.antt =====
-- chat/server.h, chat/server.cpp and utils/SocketSet.hh, utils/SocketSet.cpp: the server's tables and
-- handlers. A socket ID is an index into the list of connections. A NetworkHandler is seen by the two
-- facts that decide whether `sendPacket` sends; what is sent is the handler's output. What `poll`
-- and the network give is the input of a step.
pub mod Names
pub mod Routing
pub mod Polling
pub mod Reachable
pub mod Accepting
pub mod Loop
pub mod Counting
pub mod Rounds
pub mod Wire
use leaky_chat.Prelude.{
  ℕ, zero, suc, ◌+◌, ◌-◌, ◌%◌, ◌^◌, max, List, [], ◌∷◌, ◌++◌, Option, none, some, Bool, true, false,
  ◌&&◌, ◌||◌, ◌==◌, ltb, if◌then◌else◌, length, get_elem?, set, replicate, eq_bytes, Outcome, ok,
  undefined, ◌>>=◌,
}
use leaky_chat.Packet.{
  Packet, Header, MessagePacket, RequestPacket, FieldReqPacket, UserListPacket, ControlPacket, base,
  message, request, field_req, user_list, connection_setup, control, control_type, user_list_type,
  ack, nack, disconnect,
}

-- A connection of the SocketSet.
pub record Connection : Type 0 where
  pub connected : Bool
  pub established : Bool

-- `close()`.
abbrev pub closed : Connection
closed = record { connected = false; established = false }

-- `sendPacket` returns -1 and sends nothing unless both hold.
abbrev pub can_send : Connection → Bool
can_send c = c.connected && c.established

-- The names: `names` is `mData`, by socket; `holders` is `reverseMap`, whose keys compare as the
-- strings that they point to.
pub record NameMap : Type 0 where
  pub names : List (List ℕ)
  pub holders : List (List ℕ × ℕ)

pub record Server : Type 0 where
  pub connections : List Connection
  pub usernames : NameMap

-- What a handler sends: the socket and the packet.
abbrev pub Sent : Type 0
Sent = List (ℕ × Packet)

unfoldable pub get_sid : List ℕ → List (List ℕ × ℕ) → Option ℕ
get_sid n [] = none
get_sid n ((k, sid) ∷ r) = if eq_bytes k n then some sid else get_sid n r

abbrev pub holds : Option ℕ → Bool
holds none = false
holds (some sid) = true

-- `reverseMap.contains`.
abbrev pub contains : List ℕ → NameMap → Bool
contains n m = holds (get_sid n m.holders)

unfoldable pub erase : List ℕ → List (List ℕ × ℕ) → List (List ℕ × ℕ)
erase n [] = []
erase n ((k, sid) ∷ r) = if eq_bytes k n then r else (k, sid) ∷ erase n r

-- `reverseMap[ptr] = id`: a key that compares equal keeps its place.
unfoldable pub assign : List ℕ → ℕ → List (List ℕ × ℕ) → List (List ℕ × ℕ)
assign n id [] = (n, id) ∷ []
assign n id ((k, sid) ∷ r) = if eq_bytes k n then (k, id) ∷ r else (k, sid) ∷ assign n id r

-- `ensure(id + 1)` fills up with empty strings.
unfoldable pub ensure : ℕ → List (List ℕ) → List (List ℕ)
ensure n names = names ++ replicate (n - length names) []

unfoldable pub erase_old : Option (List ℕ) → List (List ℕ × ℕ) → List (List ℕ × ℕ)
erase_old none r = r
erase_old (some old) r = erase old r

-- `IndexedSocketMap::insert`.
unfoldable pub insert : ℕ → List ℕ → NameMap → NameMap
unfolding erase_old
insert id n m = record {
  names = set (ensure (id + 1) m.names) id n;
  holders = assign n id (erase_old (get_elem? m.names id) m.holders);
}

-- `connections[sid].sendPacket(p)`.
abbrev pub send_to : List Connection → ℕ → Packet → Sent
send_to cs sid p = elim (get_elem? cs sid) [
  | none ↦ []
  | some c ↦ if can_send c then (sid, p) ∷ [] else []
]

-- A control packet for the packet number `n`; its own number is left unset.
abbrev pub reply : ℕ → ℕ → ℕ → Packet
reply unset field n = control (record {
  head = record { packet_type = control_type; seq = unset };
  control = field;
  reply_to = n;
})

unfoldable pub handle_login : ℕ → ℕ → FieldReqPacket → Server → Server × Sent
handle_login unset sid p s =
    if contains p.field s.usernames
    then (s, send_to s.connections sid (reply unset nack p.head.seq))
    else (
      record s { usernames = insert sid p.field s.usernames },
      send_to s.connections sid (reply unset ack p.head.seq),
    )

-- `SocketMap::data()`: the names of the connected sockets; reading a socket that has no entry is out
-- of bounds. The second argument is what `mData` has from socket `sid` on.
unfoldable pub connected_names : List Connection → List (List ℕ) → Outcome (List (List ℕ))
connected_names [] names = ok []
connected_names (c ∷ cs) [] =
    let rest = connected_names cs [] in if c.connected then undefined else rest
connected_names (c ∷ cs) (n ∷ names) =
    connected_names cs names >>= λ rest. ok (if c.connected then n ∷ rest else rest)

unfoldable pub get_user_list : ℕ → ℕ → Server → Outcome (Server × Sent)
get_user_list unset sid s = do
  users ← connected_names s.connections s.usernames.names
  ok (
    s,
    send_to s.connections sid (
        user_list
          (record { head = record { packet_type = user_list_type; seq = unset }; users = users })),
  )

unfoldable pub handle_quit : ℕ → ℕ → RequestPacket → Server → Server × Sent
handle_quit unset sid p s = (
  record s { connections = set s.connections sid closed },
  send_to s.connections sid (reply unset ack p.head.seq),
)

-- The sender is what the server knows, not what the packet says; no such receiver drops the packet.
unfoldable pub handle_message : ℕ → MessagePacket → Server → Outcome (Server × Sent)
handle_message sid p s = elim (get_elem? s.usernames.names sid) [
  | none ↦ undefined
  | some sender ↦ elim (get_sid p.receiver s.usernames.holders) [
    | none ↦ ok (s, [])
    | some rcvr ↦ ok (s, send_to s.connections rcvr (message (record p { sender = sender })))
  ]
]

-- The `switch` of `Server::run`.
unfoldable pub dispatch : ℕ → ℕ → Packet → Server → Outcome (Server × Sent)
dispatch unset sid (field_req f) s = ok (handle_login unset sid f s)
dispatch unset sid (request r) s =
    if r.request == disconnect then ok (handle_quit unset sid r s) else get_user_list unset sid s
dispatch unset sid (message m) s = handle_message sid m s
dispatch unset sid (base h) s = ok (s, [])
dispatch unset sid (user_list u) s = ok (s, [])
dispatch unset sid (connection_setup h) s = ok (s, [])
dispatch unset sid (control c) s = ok (s, [])

-- What `receivePacket` made of a ready socket: a packet, nothing, or the end of the stream, on which
-- it closes the socket.
pub data Received : Type 0 where
  packet : Packet → Received
  nothing hung_up : Received

unfoldable pub serve : ℕ → ℕ → Received → Server → Outcome (Server × Sent)
unfolding dispatch
serve unset sid (packet p) s = dispatch unset sid p s
serve unset sid nothing s = ok (s, [])
serve unset sid hung_up s = ok (record s { connections = set s.connections sid closed }, [])

-- `SocketSet::insert`: a connection that finished its handshake, at the next socket ID.
unfoldable pub add_connection : Connection → Server → Server
add_connection c s = record s { connections = s.connections ++ (c ∷ []) }

-- `activeConnections`: the connected ones. Beside each connection stands whether data waits on it,
-- which is what `poll` sets.
unfoldable pub active : List (Connection × Bool) → List Bool
active [] = []
active ((c, ready) ∷ cs) = if c.connected then ready ∷ active cs else active cs

-- The loop of `waitForRead`, `left` rounds to go: `none` is -1, with the place to start at next time.
-- `activeConnections[idx]` may lie out of bounds.
unfoldable pub scan : List Bool → ℕ → ℕ → ℕ → Outcome (Option ℕ × ℕ)
scan act n zero idx = ok (none, idx)
scan act n (suc left) idx =
    let rest = scan act n left ((idx + 1) % n) in
    elim (get_elem? act idx) [ none ↦ undefined | some r ↦ if r then ok (some idx, idx) else rest ]

-- `waitForRead` from the place `idx`, its static variable.
unfoldable pub wait_for_read : List (Connection × Bool) → ℕ → Outcome (Option ℕ × ℕ)
unfolding scan active
wait_for_read cs idx =
    if length (active cs) == 0 then ok (none, idx) else scan (active cs) (length cs) (length cs) idx
