-- ===== src/Tests/Servers.antt =====
-- A server with three sockets; alice has logged in on the first.
use leaky_chat.Prelude.{
  ℕ, ◌≡◌, refl, arith, Bool, true, false, Option, some, List, [], ◌∷◌, ok, undefined, eq_bytes,
}
use leaky_chat.Buffer.Codec.{plain_text}
use leaky_chat.Packet.{
  MessagePacket, RequestPacket, FieldReqPacket, message, field_req, ack, message_type, request_type,
  field_req_type, set_username, disconnect,
}
use leaky_chat.Server.{
  Connection, Server, NameMap, get_sid, insert, ensure, assign, dispatch, handle_login,
  handle_message, reply, serve, packet, wait_for_read, active,
}
use leaky_chat.Server.Names.{IsValid, insert-IsValid}
use leaky_chat.Server.Routing.{serve-IsValid}
use leaky_chat.Server.Reachable.{IsReachable, begins, connects, receives, IsHonest, serve-IsHonest}
use leaky_chat.Server.{add_connection}
use leaky_chat.Prelude.{All}
use leaky_chat.Server.Polling.{Served, wait_for_read_ok, wait_out_of_bounds}

abbrev pub online : Connection
online = record { connected = true; established = true }

abbrev gone : Connection
gone = record { connected = false; established = false }

abbrev pub alice : List ℕ
alice = 97 ∷ []

abbrev pub bob : List ℕ
bob = 98 ∷ []

abbrev empty_names : NameMap
empty_names = record { names = []; holders = [] }

abbrev pub lobby : Server
lobby = record { connections = online ∷ online ∷ online ∷ []; usernames = empty_names }

empty_names-IsValid : IsValid empty_names
unfolding get_sid
empty_names-IsValid = record { distinct = tt; complete = λ n sid h full. cc; sound = λ n sid h. cc }

abbrev one_name : NameMap
one_name = record { names = alice ∷ []; holders = (alice, 0) ∷ [] }

one_name-IsValid : IsValid one_name
unfolding insert get_sid ensure assign
one_name-IsValid = insert-IsValid 0 alice empty_names empty_names-IsValid refl

abbrev login : List ℕ → FieldReqPacket
login n = record {
  head = record { packet_type = field_req_type; seq = 1 };
  request = set_username;
  field = n;
}

abbrev pub to_bob : MessagePacket
to_bob = record {
  head = record { packet_type = message_type; seq = 2 };
  sender = [];
  receiver = bob;
  payload = record { type = plain_text; content = 104 ∷ 105 ∷ [] };
}

abbrev quit : RequestPacket
quit = record { head = record { packet_type = request_type; seq = 3 }; request = disconnect }

abbrev seated : Server
seated = record { connections = online ∷ online ∷ online ∷ []; usernames = one_name }

abbrev pub two_names : NameMap
two_names = insert 1 bob one_name

pub two_names-IsValid : IsValid two_names
unfolding get_sid eq_bytes
two_names-IsValid = insert-IsValid 1 bob one_name one_name-IsValid refl

abbrev pub two_seats : Server
two_seats = record { connections = online ∷ online ∷ online ∷ []; usernames = two_names }

serve-IsValid_example : IsValid two_names
unfolding serve handle_login get_sid eq_bytes dispatch
serve-IsValid_example =
    serve-IsValid 0 1 (packet (field_req (login bob))) seated two_seats ((1, reply 0 ack 1) ∷ [])
      refl one_name-IsValid

pub lobby-IsReachable : IsReachable lobby
unfolding add_connection
lobby-IsReachable = connects online _ (connects online _ (connects online _ begins))

seated-IsReachable : IsReachable seated
unfolding serve handle_login get_sid eq_bytes dispatch insert ensure assign
seated-IsReachable =
    receives 0 0 (packet (field_req (login alice))) lobby seated ((0, reply 0 ack 1) ∷ [])
      lobby-IsReachable refl

two_seats-IsReachable : IsReachable two_seats
unfolding serve handle_login get_sid eq_bytes dispatch
two_seats-IsReachable =
    receives 0 1 (packet (field_req (login bob))) seated two_seats ((1, reply 0 ack 1) ∷ [])
      seated-IsReachable refl

serve-IsHonest_example :
    All (IsHonest 0 two_names) ((1, message (record to_bob { sender = alice })) ∷ [])
unfolding serve handle_message get_sid eq_bytes dispatch insert ensure assign
serve-IsHonest_example =
    serve-IsHonest 0 0 (packet (message to_bob)) two_seats two_seats
      ((1, message (record to_bob { sender = alice })) ∷ []) two_seats-IsReachable refl

abbrev polled : List (Connection × Bool)
polled = (online, false) ∷ (online, true) ∷ (online, true) ∷ []

wait_finds_second : wait_for_read polled 0 ≡ ok (some 1, 1)
unfolding wait_for_read
wait_finds_second = refl

wait_for_read_ok_example : (r : Option ℕ × ℕ) × (wait_for_read polled 0 ≡ ok r) × Served polled r
wait_for_read_ok_example = wait_for_read_ok polled 0 (refl, (refl, (refl, tt))) (omega arith)

wait_out_of_bounds_example : wait_for_read ((online, false) ∷ (gone, false) ∷ []) 1 ≡ undefined
unfolding active
wait_out_of_bounds_example =
    wait_out_of_bounds ((online, false) ∷ (gone, false) ∷ []) 1 (omega arith) (omega arith)
      (omega arith)
