-- ===== src/Lib.antt =====
-- Verification of leaky chat, a chat server and client with encrypted connections and end-to-end
-- sessions between clients.
--
-- The program. A client connects by a handshake, in which the server shows a certificate. A packet
-- (utils/Packet) is serialised into a byte buffer (utils/MemBuffer), sealed by the connection's
-- CryptoSession and sent by a NetworkHandler. The server (chat/server) waits on its sockets
-- (utils/SocketSet), reads a packet by the factory and dispatches it to a handler; the names of the
-- clients are in an IndexedSocketMap. Clients that talk end to end put the payloads of an E2ESession
-- (utils/E2ESession) into the message packets, which the server passes on unread.
--
-- The files and the code that they model, by paths from the repository's root:
--   Buffer         src/utils/MemBuffer.h and .cpp: the class as the record `MemBuffer`, `resize`,
--                  `relocate`, `ensure_free_space`, `write_bytes`, `consume`, `read` under the
--                  names of its methods; Buffer/Codec has its operators << (`put_*`) and >>
--                  (`get_*`). Buffer/Fifo has the invariant and the queue that a buffer stands for,
--                  Buffer/Write and Buffer/Read the two sides, Buffer/Stream and Buffer/Encoding
--                  the contracts of the operators.
--   Packet         src/utils/Packet.hh and .cpp: the classes, `serialise` and `get_packet_factory`;
--                  Packet/Wire has the format as a list of bytes.
--   Crypto         src/utils/Cryptography: DHKeyExchange, KeyDerivation, AESGCM, CryptoSession,
--                  over the parameter `Ssl`.
--   Session        src/utils/E2ESession.hh and .cc: the session's handlers; Session/Payloads has
--                  the structs that travel in a payload. Session/Offers and Session/Machine are
--                  about what the handlers do, Session/Handshake and Session/Crossing about two
--                  sessions, Session/Messages about the texts between them.
--   Server         src/chat/server.cpp and src/utils/SocketSet: the tables of names, the handlers,
--                  the step `serve` of the server's loop, and `wait_for_read`; Server/Reachable has
--                  the states that the loop comes to, Server/Polling is about `wait_for_read`, and
--                  Server/Accepting is src/utils/ConnectionSetter.cpp. Server/Loop has the whole
--                  round of the loop, with the count of active connections, about which
--                  Server/Counting and Server/Rounds are. Server/Wire takes a message over two
--                  connections.
--   Network        src/utils/NetworkHandler.hh and .cpp: the connection, `send_packet` and
--                  `receive_packet`; Network/Frame has the bytes of a sealed packet,
--                  Network/Transport the way of a packet from one end to the other. Network/Line
--                  has a connection during the handshake, with the loop of receiveBytes, about
--                  which Network/Reassembly is; Network/Handshake has both parts of the handshake
--                  and `connect`, Network/Certificates is src/utils/Cryptography/Certificate.hh and
--                  .cc over the parameter `Pki`; Network/Authentication goes through the steps when
--                  nothing fails, Network/Relay puts both ends together, Network/Trust says what a
--                  finished handshake is worth.
--   Client         src/chat/client.h and client.cpp: the operations of the class Client under the
--                  names of its methods; Client/Monad has the state and its effects, Client/Loop
--                  the loop of the backend, which handles the requests of Ui and the packets of the
--                  server. Client/Waiting is about the loops that wait for a packet, Client/Steps
--                  about single steps, Client/Conversation about two clients and the server between
--                  them, and Client/Delivery goes from a typed line to the screen of the peer;
--                  Client/Failure is about a message that cannot be opened, Client/Connecting about
--                  the loop that sets the connection up.
--   Ui             src/chat/UI.h and UI.cpp: the keys, the commands and the queue of requests,
--                  under the names of the methods; Ui/Editing is about the line, Ui/Sending about
--                  what a line does.
--   Phases         the attack programs of the earlier phases, and what they stand on.
--                  Phases/Impostor is .phases/phase3/src/chat/mallory/MalloryProxy.cpp, in the
--                  server's place: Phases/Impostor/Vectors is about what goes over its wire,
--                  Phases/Impostor/Refusal and Phases/Impostor/Stolen about its two attacks on the
--                  client of today. Phases/Proxy is
--                  .phases/phase2/src/chat/mallory/MalloryProxy.cpp, between a client and the
--                  server: its relays, and in Phases/Proxy/Run its handshakes, about which are
--                  Phases/Proxy/Interception, Phases/Proxy/Overhearing for what goes to the server,
--                  Phases/Proxy/Replies for what comes back, and Phases/Proxy/Conversation for it
--                  all. It uses the connections of .phases/phase2/src/utils/NetworkHandler.cpp, in
--                  Phases/Connection and Phases/Connection/Transport, about which are
--                  Phases/Connection/KeyExchange, Phases/Connection/Delivery and
--                  Phases/Connection/Tampering; the packets of .phases/phase2/src/utils/Packet.cpp,
--                  in Phases/Packets; and the byte buffer of
--                  .phases/phase2/src/utils/MemBuffer.cpp, in Phases/Buffer, where the block of a
--                  buffer and its capacity part. Phases 1 and 3 have the same buffer.
--   Prelude        shared names, lists, and `Outcome`: a result, an exception or undefined
--                  behaviour.
--   Tests          examples, on a toy in the place of OpenSSL.
--
-- State is passed explicitly. Characters are numbers, strings lists of them. `size_t`, sequence
-- numbers and timestamps keep their wrap-around. What the clock, the random generator, `poll`, the
-- allocator and unset memory give are arguments. `Outcome.undefined` stands for what C++ leaves
-- undefined: reading or writing out of bounds and reading a variable that was never set.
--
-- OpenSSL is the record `Ssl`: its operations with what their manual pages say. The loop of `modExp`
-- runs on fuel, one more than the exponent: a round halves the exponent, so that it is enough. The
-- loops of the client that wait for a packet may wait for ever in the program, too; they run on fuel
-- given from outside, and `waits` says that the fuel is used up. Client/Waiting says which fuel is
-- enough, and where none is. `receiveBytes` recurses on what arrives.
--
-- Not modelled: threads, locks and the semaphore of the client's backend; the system calls, whose
-- answers are arguments; the listening socket of src/utils/ConnectionSetter.cpp;
-- src/utils/SharedVector.hh, which nothing uses; the drawing of src/chat/UI.cpp; the entry points;
-- what else is under .phases, which are copies and earlier versions of the files above; that the two
-- relays of a proxy run at once. The logging to the standard streams is left out. Server keeps of a
-- connection only the two flags that decide whether `sendPacket` sends.
pub mod Prelude
pub mod Buffer
pub mod Packet
pub mod Crypto
pub mod Session
pub mod Server
pub mod Ui
pub mod Network
pub mod Client
pub mod Phases
pub mod Tests
