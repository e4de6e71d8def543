-- ===== src/Tests/Connections.antt =====
-- Connections: a packet on its way, and handshakes with and without a relay.
use leaky_chat.Prelude.{
  ℕ, ◌+◌, ◌≡◌, ◌⊎◌, refl, arith, true, List, [], ◌∷◌, ◌++◌, length, All, Option, some, none, ok,
  undefined, replicate,
}
use leaky_chat.Buffer.Codec.{le_bytes}
use leaky_chat.Buffer.Encoding.{string_bytes, payload_bytes}
use leaky_chat.Packet.{Packet, header}
use leaky_chat.Packet.Wire.{packet_bytes, header_bytes, body_bytes}
use leaky_chat.Packet.RoundTrip.{received}
use leaky_chat.Network.{
  NetworkHandler, established, hung_up, arrived, close, send_packet, receive_packet,
}
use leaky_chat.Network.Transport.{
  IsLinked, IsSendable, receive_packet-send_packet, IsUndefined, receive_packet_cases,
}
use leaky_chat.Network.Line.{Line, returns, Reception, chunk, again, receive_from}
use leaky_chat.Network.Reassembly.{text_of, Flows, receive_from_lem}
use leaky_chat.Tests.Samples.{toy, granting}
use leaky_chat.Packet.{MessagePacket, message}
use leaky_chat.Server.{packet, serve, get_sid, insert, ensure, assign}
use leaky_chat.Server.Wire.{message_over_wire}
use leaky_chat.Prelude.{eq_bytes}
use leaky_chat.Tests.Servers.{to_bob, alice, online, two_seats, two_names-IsValid}
use leaky_chat.Tests.Packets.{hello, garbage}
use leaky_chat.Tests.Sessions.{nonce}
use leaky_chat.Tests.Cryptography.{keyed}

-- An end of a connection after the handshake.
abbrev pub linked : ℕ → NetworkHandler
linked n = record {
  socket = some 4;
  initialized = true;
  connected = true;
  crypto = some (keyed n);
  state = established;
}

abbrev tag : List ℕ
tag = replicate 16 0

hello-IsSendable :
    IsSendable toy granting garbage hello nonce (packet_bytes hello) tag (replicate 32 7)
unfolding packet_bytes body_bytes header_bytes header string_bytes le_bytes payload_bytes
hello-IsSendable = record {
  made = ((refl, omega arith), refl, refl, refl);
  readable = λ e. ground arith;
  nonce_size = refl;
  seals = refl;
  granted = refl;
  fits = omega arith;
}

pub linked-IsLinked : IsLinked (linked 3) (linked 5) (keyed 3) (keyed 5)
linked-IsLinked = record {
  ready = (refl, refl);
  sessions = (refl, refl);
  keyed = (refl, refl);
  key = refl;
}

pub back-IsLinked : IsLinked (linked 5) (linked 3) (keyed 5) (keyed 3)
back-IsLinked = record {
  ready = (refl, refl);
  sessions = (refl, refl);
  keyed = (refl, refl);
  key = refl;
}

-- The next packet has come with this one.
receive_packet-send_packet_example :
    (xs : List ℕ) × (length xs ≡ length (packet_bytes hello) + 36)
    × (send_packet toy (some nonce) (some (length xs)) hello (linked 3) ≡ ok (true, xs))
    × (receive_packet toy granting garbage (arrived (xs ++ replicate 75 1)) (linked 5)
        ≡ ok (some (received garbage hello), linked 5))
receive_packet-send_packet_example =
    receive_packet-send_packet toy granting garbage hello nonce (packet_bytes hello) tag (linked 3)
      (linked 5) (keyed 3) (keyed 5) (replicate 75 1) linked-IsLinked hello-IsSendable (omega arith)

receive_packet_cases_example :
    ((receive_packet toy granting garbage hung_up (linked 5) ≡ undefined)
      × IsUndefined toy granting garbage hung_up (linked 5))
    ⊎ (((r : Option Packet) × (receive_packet toy granting garbage hung_up (linked 5)
            ≡ ok (r, linked 5)))
        ⊎ ((hung_up ≡ hung_up)
            × (receive_packet toy granting garbage hung_up (linked 5)
                ≡ ok (none, close (linked 5)))))
receive_packet_cases_example = receive_packet_cases toy granting garbage hung_up (linked 5)

-- Four bytes are wanted, and five come in two pieces with an interrupted call between.
abbrev pieces : List Reception
pieces = chunk (1 ∷ 2 ∷ []) ∷ again ∷ chunk (3 ∷ 4 ∷ 5 ∷ []) ∷ []

abbrev piece_line : Line
piece_line = record { incoming = pieces; sent = [] }

receive_from_lem_example :
    (rest : List Reception) × All Flows rest
    × (text_of rest ≡ 5 ∷ [])
    × (receive_from 4 [] pieces piece_line
        ≡ returns (some (1 ∷ 2 ∷ 3 ∷ 4 ∷ [])) (record piece_line { incoming = rest }))
receive_from_lem_example =
    receive_from_lem 4 [] pieces piece_line (tt, (tt, (tt, tt))) (omega arith)

-- Alice's message to Bob, as she sends it and as the server passes it on.
abbrev passed_on : MessagePacket
passed_on = record to_bob { sender = alice }

to_bob-IsSendable :
    IsSendable toy granting garbage
      (message to_bob)
      nonce
      (packet_bytes (message to_bob))
      tag
      (replicate 32 7)
unfolding packet_bytes body_bytes header_bytes header string_bytes le_bytes payload_bytes
to_bob-IsSendable = record {
  made = ((refl, omega arith), refl, refl, refl);
  readable = λ e. ground arith;
  nonce_size = refl;
  seals = refl;
  granted = refl;
  fits = omega arith;
}

passed_on-IsSendable :
    IsSendable toy granting garbage
      (message passed_on)
      nonce
      (packet_bytes (message passed_on))
      tag
      (replicate 32 7)
unfolding packet_bytes body_bytes header_bytes header string_bytes le_bytes payload_bytes
passed_on-IsSendable = record {
  made = ((refl, omega arith), refl, refl, refl);
  readable = λ e. ground arith;
  nonce_size = refl;
  seals = refl;
  granted = refl;
  fits = omega arith;
}

message_over_wire_example :
    (xs ys : List ℕ) × (send_packet toy (some nonce) (some (length xs)) (message to_bob) (linked 3)
      ≡ ok (true, xs))
    × (receive_packet toy granting garbage (arrived (xs ++ [])) (linked 5)
        ≡ ok (some (message to_bob), linked 5))
    × (serve 0 0 (packet (message to_bob)) two_seats ≡ ok (two_seats, (1, message passed_on) ∷ []))
    × (send_packet toy (some nonce) (some (length ys)) (message passed_on) (linked 5)
        ≡ ok (true, ys))
    × (receive_packet toy granting garbage (arrived (ys ++ [])) (linked 3)
        ≡ ok (some (message passed_on), linked 3))
unfolding get_sid insert ensure assign eq_bytes
message_over_wire_example =
    message_over_wire toy granting garbage 0 to_bob nonce (packet_bytes (message to_bob)) tag nonce
      (packet_bytes (message passed_on)) tag [] [] alice (linked 3) (linked 5) (linked 5) (linked 3)
      (keyed 3) (keyed 5) (keyed 5) (keyed 3) two_seats 0 1 online linked-IsLinked back-IsLinked
      to_bob-IsSendable passed_on-IsSendable (omega arith, omega arith) two_names-IsValid refl refl
      refl refl
