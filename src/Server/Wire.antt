-- ===== src/Server/Wire.antt =====
-- A message on its way over two connections and through the server: utils/NetworkHandler.cpp and
-- chat/server.cpp together.
use leaky_chat.Prelude.{ℕ, ◌^◌, ◌<◌, ◌≡◌, List, [], ◌∷◌, ◌++◌, length, get_elem?, some, true, ok}
use leaky_chat.Buffer.Codec.{Limits}
use leaky_chat.Packet.{MessagePacket, Unset, message}
use leaky_chat.Packet.RoundTrip.{received}
use leaky_chat.Crypto.{Ssl, CryptoSession}
use leaky_chat.Network
use leaky_chat.Network.{NetworkHandler, arrived, receive_packet}
use leaky_chat.Network.Transport.{IsLinked, IsSendable, receive_packet-send_packet}
use leaky_chat.Server.{Server, Connection, get_sid, can_send, packet, serve, dispatch}
use leaky_chat.Server.Names.{IsValid}
use leaky_chat.Server.Routing.{handle_message-routes}

-- A message that a client sends to the holder of a name comes over the sender's connection to the
-- server, which serves it by one packet for the holder's socket, under the name of the sender; that packet
-- comes over the holder's connection to the holder as the server made it. It wants that on both connections
-- the packet can be sealed and received.
pub message_over_wire :
    (ssl : Ssl) (lim : Limits) (unset : Unset) (unset_seq : ℕ) (m : MessagePacket)
    → (nonce cipher tag nonce' cipher' tag' rest rest' name : List ℕ)
    → (a at_server to_holder b : NetworkHandler) (ca cs ct cb : CryptoSession)
    → (s : Server) (sid rcvr : ℕ) (c : Connection) → IsLinked a at_server ca cs
    → IsLinked to_holder b ct cb
    → IsSendable ssl lim unset (message m) nonce cipher tag ca.key
    → IsSendable ssl lim unset (message (record m { sender = name })) nonce' cipher' tag' ct.key
    → (length rest < 2 ^ 60) × (length rest' < 2 ^ 60)
    → IsValid s.usernames
    → get_elem? s.usernames.names sid ≡ some name
    → get_sid m.receiver s.usernames.holders ≡ some rcvr
    → get_elem? s.connections rcvr ≡ some c
    → can_send c ≡ true
    → (xs ys : List ℕ) × (Network.send_packet ssl (some nonce) (some (length xs)) (message m) a
        ≡ ok (true, xs))
      × (receive_packet ssl lim unset (arrived (xs ++ rest)) at_server
          ≡ ok (some (message m), at_server))
      × (serve unset_seq sid (packet (message m)) s
          ≡ ok (s, (rcvr, message (record m { sender = name })) ∷ []))
      × (Network.send_packet ssl
            (some nonce')
            (some (length ys))
            (message (record m { sender = name }))
            to_holder
          ≡ ok (true, ys))
      × (receive_packet ssl lim unset (arrived (ys ++ rest')) b
          ≡ ok (some (message (record m { sender = name })), b))
unfolding serve dispatch received
message_over_wire ssl lim unset unset_seq m nonce cipher tag nonce' cipher' tag' rest rest' name a
      at_server to_holder b ca cs ct cb s sid rcvr c va vb sends sends' (short, short') v hn hr hc
      hs =
    let (xs, _, out, into) =
      receive_packet-send_packet ssl lim unset (message m) nonce cipher tag a at_server ca cs rest
        va sends short in
    let (ys, _, out', into') =
      receive_packet-send_packet ssl lim unset (message (record m { sender = name })) nonce' cipher'
        tag' to_holder b ct cb rest' vb sends' short' in
    (xs, ys, out, into, (handle_message-routes sid rcvr m s name c v hn hr hc hs).0, out', into')
