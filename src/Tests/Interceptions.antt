-- ===== src/Tests/Interceptions.antt =====
-- Mallory between a client and the server, without certificates.
use leaky_chat.Prelude.{
  ℕ, ◌+◌, ◌≡◌, refl, arith, true, false, List, [], ◌∷◌, length, All, some, none, replicate, ok,
  undefined, eq_bytes, eq_bytes_refl, append-nil, if◌then◌else◌,
}
use leaky_chat.Buffer.Codec.{le_bytes}
use leaky_chat.Buffer.Encoding.{string_bytes}
use leaky_chat.Crypto.{Ssl}
use leaky_chat.Packet.Wire.{header_bytes}
use leaky_chat.Network.{NetworkHandler, arrived, new_handler}
use leaky_chat.Network.Line.{returns, Reception, chunk, again}
use leaky_chat.Network.Reassembly.{Flows, Flows-chunk}
use leaky_chat.Network.Handshake.{secured}
use leaky_chat.Network.Relay.{keyed_by}
use leaky_chat.Phases.Packets.{MessagePacket, message, header}
use leaky_chat.Phases.Packets.Wire.{wire_bytes, body}
use leaky_chat.Phases.Connection.{client_handshake, server_handshake}
use leaky_chat.Phases.Connection.Transport.{send_packet, receive_packet}
use leaky_chat.Phases.Connection.Delivery.{IsSendable, send_packet_overruns}
use leaky_chat.Phases.Connection.Tampering.{tampered_refused}
use leaky_chat.Phases.Proxy.{MalloryProxy, Relayed, relay_client_to_server, relay_server_to_client}
use leaky_chat.Phases.Proxy.Run.{run}
use leaky_chat.Phases.Proxy.Interception.{between}
use leaky_chat.Phases.Proxy.Conversation.{fresh_relay, conversation_overheard}
use leaky_chat.Phases.Proxy.Replies.{replies_overheard}
use leaky_chat.Phases.Proxy.Overhearing.{Passage, rounds, Sent, Given}
use leaky_chat.Tests.Samples.{toy, toy-Digests, granting}
use leaky_chat.Tests.Packets.{garbage}
use leaky_chat.Tests.Sessions.{nonce}
use leaky_chat.Tests.Cryptography.{keyed}
use leaky_chat.Tests.Connections.{linked, linked-IsLinked, back-IsLinked}
use leaky_chat.Tests.Handshakes.{all_taken, seed, party, party-IsMade, key_of, length-key_of}

abbrev hi : MessagePacket
hi = record {
  head = record { packet_type = 0; seq = 3 };
  sender = [];
  receiver = 98 ∷ [];
  message = 104 ∷ 105 ∷ [];
}

abbrev zeros : List ℕ
zeros = replicate 16 0

hi-IsSendable :
    (key : List ℕ)
    → IsSendable toy granting garbage (message hi) nonce (wire_bytes (message hi)) zeros key
unfolding wire_bytes body header_bytes header string_bytes le_bytes
hi-IsSendable key = record {
  made = ((refl, omega arith), refl, refl, refl);
  readable = λ e. ground arith;
  nonce_size = refl;
  seals = refl;
  granted = refl;
  fits = omega arith;
}

abbrev proxy : MalloryProxy
proxy = record { client_side = linked 5; server_side = linked 5; tamper_client_to_server = false }

abbrev relay : Relayed
relay = record { proxy = proxy; heard = []; wire = [] }

abbrev passage : Passage
passage = record {
  packet = hi;
  nonce = nonce;
  cipher = wire_bytes (message hi);
  tag = zeros;
  nonce' = nonce;
  cipher' = wire_bytes (message hi);
  tag' = zeros;
}

-- The server's answers, one message.
replies_overheard_example :
    (xss yss : List (List ℕ)) × Sent toy granting garbage (linked 3) (passage ∷ []) xss
    × (relay_server_to_client toy granting garbage
          (rounds toy granting garbage (passage ∷ []) xss)
          relay
        ≡ ok (record relay { heard = (98 ∷ [], 104 ∷ 105 ∷ []) ∷ []; wire = yss }))
    × Given toy granting garbage (linked 3) (passage ∷ []) yss
replies_overheard_example =
    replies_overheard toy granting garbage (passage ∷ []) relay (linked 3) (linked 3) (keyed 3)
      (keyed 5) (keyed 5) (keyed 3) linked-IsLinked back-IsLinked (refl, tt)
      ((hi-IsSendable (replicate 32 7), hi-IsSendable (replicate 32 7)), tt)

-- OpenSSL, with a tag that it looks at.
abbrev ones : List ℕ
ones = replicate 16 1

abbrev wary : Ssl
wary = record toy {
  gcm_seal = λ key nonce text. some (text, ones);
  gcm_open = λ key nonce cipher tag. if eq_bytes tag ones then some cipher else none;
  gcm_seal_shape = λ key nonce text cipher tag h.
      let e : text ≡ cipher = ground arith in
      let f : ones ≡ tag = ground arith in rw (← e, ← f) (refl, refl);
  gcm_open-gcm_seal = λ key nonce text cipher tag h.
      let e : text ≡ cipher = ground arith in
      let f : ones ≡ tag = ground arith in rw (← e, ← f, eq_bytes_refl ones);
}

tampered_refused_example :
    (xs : List ℕ) × (length xs ≡ length (wire_bytes (message hi)) + 36)
    × (send_packet wary (some nonce) (some (length xs)) (message hi) true (linked 3)
        ≡ ok (true, xs))
    × (receive_packet wary granting garbage (arrived xs) (linked 5) ≡ ok (none, linked 5))
unfolding wire_bytes body header_bytes header string_bytes le_bytes eq_bytes
tampered_refused_example =
    tampered_refused wary granting garbage (message hi) nonce (wire_bytes (message hi)) ones
      (linked 3) (linked 5) (keyed 3) (keyed 5) linked-IsLinked
      (record {
        made = ((refl, omega arith), refl, refl, refl);
        readable = λ e. ground arith;
        nonce_size = refl;
        seals = refl;
        granted = refl;
        fits = omega arith;
      })
      refl refl

-- Two thousand characters.
abbrev long : MessagePacket
long = record hi { message = replicate 2000 97 }

send_packet_overruns_example :
    send_packet toy (some nonce) (some 1) (message long) false (linked 3) ≡ undefined
unfolding wire_bytes body header_bytes header string_bytes le_bytes
send_packet_overruns_example =
    send_packet_overruns toy granting garbage (message long) nonce (wire_bytes (message long)) zeros
      (linked 3) (keyed 3) (some 1) false refl refl refl refl refl (omega arith) (omega arith)

abbrev unmet : MalloryProxy
unmet = record {
  client_side = new_handler;
  server_side = new_handler;
  tamper_client_to_server = false;
}

abbrev from : ℕ → List Reception
from n = again ∷ chunk (key_of n) ∷ []

from-Flows : (n : ℕ) → All Flows (from n)
from-Flows n = (tt, (Flows-chunk (key_of n) (omega (arith, length-key_of n)), tt))

abbrev up : NetworkHandler
up = record new_handler { connected = true }

-- Mallory is the party 7 to the client and 9 to the server. The client says one thing.
conversation_overheard_example :
    (to_client to_server : List ℕ) × (rest rest' : List Reception) × (xss yss : List (List ℕ))
    × (client_handshake toy all_taken
          (some (seed 3))
          up
          (record { incoming = chunk (key_of 7) ∷ []; sent = [] })
        ≡ returns
            (true, secured (keyed_by to_client (party 3)) up)
            (record { incoming = []; sent = key_of 3 ∷ [] }))
    × (run toy all_taken
          (some 4)
          (some 6)
          true
          true
          (some (seed 7))
          (some (seed 9))
          unmet
          (record { incoming = chunk (key_of 5) ∷ []; sent = [] })
          (record { incoming = from 3; sent = [] })
        ≡ returns
            (
              (
                true,
                between 4 6 (keyed_by to_client (party 7)) (keyed_by to_server (party 9)) unmet,
              ),
              record { incoming = []; sent = key_of 9 ∷ [] },
            )
            (record { incoming = rest; sent = key_of 7 ∷ [] }))
    × (server_handshake toy all_taken (some (seed 5)) up (record { incoming = from 9; sent = [] })
        ≡ returns
            (true, secured (keyed_by to_server (party 5)) up)
            (record { incoming = rest'; sent = key_of 5 ∷ [] }))
    × Sent toy granting garbage (secured (keyed_by to_client (party 3)) up) (passage ∷ []) xss
    × (relay_client_to_server toy granting garbage
          (rounds toy granting garbage (passage ∷ []) xss)
          (fresh_relay
            (between 4 6 (keyed_by to_client (party 7)) (keyed_by to_server (party 9)) unmet))
        ≡ ok (record {
          proxy = between 4 6 (keyed_by to_client (party 7)) (keyed_by to_server (party 9)) unmet;
          heard = (98 ∷ [], 104 ∷ 105 ∷ []) ∷ [];
          wire = yss;
        }))
    × Given toy granting garbage (secured (keyed_by to_server (party 5)) up) (passage ∷ []) yss
conversation_overheard_example =
    conversation_overheard toy all_taken granting garbage (seed 3) (seed 5) (seed 7) (seed 9)
      (party 3) (party 5) (party 7) (party 9) (key_of 3) (key_of 5) (key_of 7) (key_of 9) up up
      unmet 4 6 (from 3) (from 9) (λ key key'. passage ∷ []) toy-Digests (λ k n. refl)
      (party-IsMade 3) (party-IsMade 5) (party-IsMade 7) (party-IsMade 9) refl refl refl refl
      (from-Flows 3) (append-nil (key_of 3)) (from-Flows 9) (append-nil (key_of 9))
      (λ key key'. (refl, tt)) (λ key key'. ((hi-IsSendable key, hi-IsSendable key'), tt))
