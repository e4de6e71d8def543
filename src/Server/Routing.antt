-- ===== src/Server/Routing.antt =====
-- The server's handlers: names stay consistent, and messages reach the holder of a name.
use leaky_chat.Prelude.{
  ℕ, ◌≤◌, ◌≡◌, ◌≢◌, inl, inr, refl, sym, ap, arith, true, false, none, some, List, [], ◌∷◌, ◌++◌,
  length, get_elem?, set, if◌then◌else◌, Option-cases, Bool-cases, ok, undefined,
}
use leaky_chat.Packet.{
  Packet, MessagePacket, RequestPacket, FieldReqPacket, message, request, field_req, base,
  user_list, connection_setup, control, nack,
}
use leaky_chat.Server.{
  Connection, Server, NameMap, Sent, get_sid, contains, insert, send_to, can_send, closed, reply,
  handle_login, get_user_list, handle_quit, handle_message, dispatch, Received, packet, nothing,
  hung_up, serve, connected_names,
}
use leaky_chat.Server.Names.{
  IsValid, insert-IsValid, get_sid-insert_self, get_sid-insert_other, get_sid-insert_free,
  names-insert_self, names-insert_other,
}

contains→none : (n : List ℕ) (m : NameMap) → contains n m ≡ false → get_sid n m.holders ≡ none
contains→none n m h = elim (Option-cases (get_sid n m.holders)) [
  | inl e ↦ e
  | inr (sid, e) ↦ absurd (ground (arith, e))
]

handle_login-IsValid :
    (unset sid : ℕ) (p : FieldReqPacket) (s : Server)
    → IsValid s.usernames
    → IsValid (handle_login unset sid p s).0.usernames
unfolding handle_login
handle_login-IsValid unset sid p s v = elim (Bool-cases (contains p.field s.usernames)) [
  | inl e ↦ rw e v
  | inr e ↦ rw e (insert-IsValid sid p.field s.usernames v (contains→none p.field s.usernames e))
]

pub get_user_list-same :
    (unset sid : ℕ) (s t : Server) (out : Sent) → get_user_list unset sid s ≡ ok (t, out) → t ≡ s
unfolding get_user_list
get_user_list-same unset sid s t out h = ground arith

pub handle_message-same :
    (sid : ℕ) (p : MessagePacket) (s t : Server) (out : Sent)
    → handle_message sid p s ≡ ok (t, out)
    → t ≡ s
unfolding handle_message
handle_message-same sid p s t out h = ground arith

dispatch-IsValid :
    (unset sid : ℕ) (p : Packet) (s t : Server) (out : Sent)
    → dispatch unset sid p s ≡ ok (t, out)
    → IsValid s.usernames
    → IsValid t.usernames
unfolding dispatch
dispatch-IsValid unset sid (field_req f) s t out h v =
    let e : (handle_login unset sid f s).0 ≡ t = ground arith in
    rw (← e) (handle_login-IsValid unset sid f s v)
dispatch-IsValid unset sid (request r) s t out h v =
    let e : t.usernames ≡ s.usernames =
      unfold handle_quit in ground (arith, get_user_list-same unset sid s t out) in
    rw e v
dispatch-IsValid unset sid (message m) s t out h v = rw (handle_message-same sid m s t out h) v
dispatch-IsValid unset sid (base x) s t out h v = let e : t ≡ s = ground arith in rw e v
dispatch-IsValid unset sid (user_list x) s t out h v = let e : t ≡ s = ground arith in rw e v
dispatch-IsValid unset sid (connection_setup x) s t out h v = let e : t ≡ s = ground arith in rw e v
dispatch-IsValid unset sid (control x) s t out h v = let e : t ≡ s = ground arith in rw e v

-- Whatever comes from a socket, the tables of names stay in agreement.
pub serve-IsValid :
    (unset sid : ℕ) (r : Received) (s t : Server) (out : Sent)
    → serve unset sid r s ≡ ok (t, out)
    → IsValid s.usernames
    → IsValid t.usernames
unfolding serve
serve-IsValid unset sid (packet p) s t out h v = dispatch-IsValid unset sid p s t out h v
serve-IsValid unset sid nothing s t out h v = let e : t ≡ s = ground arith in rw e v
serve-IsValid unset sid hung_up s t out h v =
    let e : t.usernames ≡ s.usernames = ground arith in rw e v

-- A message to a holder goes to the holder's socket alone, under the name that the server has for
-- the socket it came from, whatever sender the packet named, if the holder can be sent to.
pub handle_message-routes :
    (sid rcvr : ℕ) (p : MessagePacket) (s : Server) (n : List ℕ) (c : Connection)
    → IsValid s.usernames
    → get_elem? s.usernames.names sid ≡ some n
    → get_sid p.receiver s.usernames.holders ≡ some rcvr
    → get_elem? s.connections rcvr ≡ some c
    → can_send c ≡ true
    → (handle_message sid p s ≡ ok (s, (rcvr, message (record p { sender = n })) ∷ []))
      × (get_elem? s.usernames.names rcvr ≡ some p.receiver)
unfolding handle_message
handle_message-routes sid rcvr p s n c v hn hr hc hs = (ground arith, v.sound p.receiver rcvr hr)

login_free :
    (unset sid : ℕ) (f : FieldReqPacket) (s : Server)
    → get_sid f.field s.usernames.holders ≡ none
    → (handle_login unset sid f s).0 ≡ record s { usernames = insert sid f.field s.usernames }
unfolding handle_login
login_free unset sid f s h = rw h

login_taken :
    (unset sid : ℕ) (f : FieldReqPacket) (s : Server) (other : ℕ)
    → get_sid f.field s.usernames.holders ≡ some other
    → handle_login unset sid f s ≡ (s, send_to s.connections sid (reply unset nack f.head.seq))
unfolding handle_login
login_taken unset sid f s other h = rw h

-- Two sockets log in under two free names; then a message of the first to the second's name is sent
-- to the second socket under the first's name, if that socket can be sent to.
login-handle_message :
    (unset sid rcvr : ℕ) (f g : FieldReqPacket) (p : MessagePacket) (s : Server) (c : Connection)
    → IsValid s.usernames
    → get_sid f.field s.usernames.holders ≡ none
    → get_sid g.field s.usernames.holders ≡ none
    → f.field ≢ g.field
    → sid ≢ rcvr
    → p.receiver ≡ g.field
    → get_elem? s.connections rcvr ≡ some c
    → can_send c ≡ true
    → let t = (handle_login unset rcvr g (handle_login unset sid f s).0).0 in
      handle_message sid p t ≡ ok (t, (rcvr, message (record p { sender = f.field })) ∷ [])
login-handle_message unset sid rcvr f g p s c v hf hg ne other hp hc hs =
    let m : NameMap = insert sid f.field s.usernames in
    let vm : IsValid m = insert-IsValid sid f.field s.usernames v hf in
    let free : get_sid g.field m.holders ≡ none =
      get_sid-insert_free sid f.field g.field s.usernames v ne hg in
    let sender : get_elem? (insert rcvr g.field m).names sid ≡ some f.field =
      names-insert_other rcvr sid g.field f.field m (λ q. other (sym q))
        (names-insert_self sid f.field s.usernames) in
    let holder : get_sid p.receiver (insert rcvr g.field m).holders ≡ some rcvr =
      rw hp (get_sid-insert_self rcvr g.field m) in
    rw (login_free unset sid f s hf, login_free unset rcvr g (record s { usernames = m }) free)
      (handle_message-routes sid rcvr p (record s { usernames = insert rcvr g.field m }) f.field c
        (insert-IsValid rcvr g.field m vm free) sender holder hc hs).0

-- Leaving does not give a name back, unless it is empty: after the holder's `/quit`, and whatever is logged in under
-- another name before, a login under the name is still refused, from any socket.
handle_quit_keeps_name :
    (unset sid other third : ℕ) (q : RequestPacket) (f g : FieldReqPacket) (s : Server)
    → IsValid s.usernames
    → get_sid f.field s.usernames.holders ≡ some sid
    → f.field ≢ []
    → third ≢ sid
    → get_sid g.field s.usernames.holders ≡ none
    → let t = (handle_login unset third g (handle_quit unset sid q s).0).0 in
      handle_login unset other f t ≡ (t, send_to t.connections other (reply unset nack f.head.seq))
unfolding handle_quit
handle_quit_keeps_name unset sid other third q f g s v h full ne free =
    let s' : Server = record s { connections = set s.connections sid closed } in
    let differs : g.field ≢ f.field = λ e. ground arith in
    rw (login_free unset third g s' free) (
      login_taken unset other f (record s' { usernames = insert third g.field s.usernames }) sid
        (get_sid-insert_other third sid g.field f.field s.usernames v differs (λ e. ne (sym e)) full
          h))

-- The list that a client gets: the names of the connected sockets, in the order of the sockets.
abbrev names_of : List Connection → List (List ℕ) → List (List ℕ)
names_of [] names = []
names_of (c ∷ cs) [] = []
names_of (c ∷ cs) (n ∷ names) = if c.connected then n ∷ names_of cs names else names_of cs names

-- Every socket behind the end of the table has left.
abbrev InTable : List Connection → List (List ℕ) → Type 0
InTable [] names = Unit {0}
InTable (c ∷ cs) [] = (c.connected ≡ false) × InTable cs []
InTable (c ∷ cs) (n ∷ names) = InTable cs names

names_of-nil : (cs : List Connection) → names_of cs [] ≡ []
names_of-nil [] = refl
names_of-nil (c ∷ cs) = refl

-- The list is what `names_of` says, as long as every socket behind the end of the table has left.
connected_names_lem :
    (cs : List Connection) (names : List (List ℕ))
    → InTable cs names
    → connected_names cs names ≡ ok (names_of cs names)
unfolding connected_names
connected_names_lem [] names h = refl
connected_names_lem (c ∷ cs) [] h =
    rw (h.0, connected_names_lem cs [] h.1) (ap ok (names_of-nil cs))
connected_names_lem (c ∷ cs) (n ∷ names) h = rw (connected_names_lem cs names h)

beyond :
    (front back : List Connection) (c : Connection) (names : List (List ℕ))
    → c.connected ≡ true
    → length names ≤ length front
    → connected_names (front ++ (c ∷ back)) names ≡ undefined
unfolding connected_names
beyond [] back c [] hc h = rw hc
beyond [] back c (n ∷ names) hc h = absurd (omega arith)
beyond (d ∷ front) back c [] hc h = ground (arith, beyond front back c [] hc (omega arith))
beyond (d ∷ front) back c (n ∷ names) hc h = rw (beyond front back c names hc (omega arith))

-- A socket that is connected and stands behind the end of the table makes the request undefined,
-- whoever sends it: `mData[sid]` is read out of bounds.
get_user_list_undefined :
    (unset sid : ℕ) (front back : List Connection) (c : Connection) (m : NameMap)
    → c.connected ≡ true
    → length m.names ≤ length front
    → get_user_list unset sid (record { connections = front ++ (c ∷ back); usernames = m })
      ≡ undefined
unfolding get_user_list
get_user_list_undefined unset sid front back c m hc h = rw (beyond front back c m.names hc h)
