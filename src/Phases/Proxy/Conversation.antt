-- ===== src/Phases/Proxy/Conversation.antt =====
-- Mallory of .phases/phase2/src/chat/mallory/MalloryProxy.cpp from the first handshake to the last message.
use leaky_chat.Prelude.{ℕ, ◌≡◌, refl, List, [], ◌∷◌, map, All, Option, some, true, false, ok}
use leaky_chat.Crypto.{Ssl, CryptoSession}
use leaky_chat.Crypto.Agreement.{Digests}
use leaky_chat.Buffer.Codec.{Limits}
use leaky_chat.Packet.{Unset, message_type}
use leaky_chat.Network.{NetworkHandler}
use leaky_chat.Network.Line.{returns, Reception, chunk}
use leaky_chat.Network.Reassembly.{text_of, Flows}
use leaky_chat.Network.Handshake.{secured}
use leaky_chat.Network.Relay.{IsMade, keyed_by}
use leaky_chat.Network.Authentication.{TakesAll}
use leaky_chat.Phases.Connection.{client_handshake, server_handshake}
use leaky_chat.Phases.Proxy.{MalloryProxy, Relayed, relay_client_to_server}
use leaky_chat.Phases.Proxy.Run.{run}
use leaky_chat.Phases.Proxy.Interception.{between, man_in_the_middle, secured-IsLinked}
use leaky_chat.Phases.Proxy.Overhearing.{Passage, said, IsPassable, rounds, Sent, Given, overheard}

-- Nothing heard and nothing sent yet.
abbrev pub fresh_relay : MalloryProxy → Relayed
fresh_relay m = record { proxy = m; heard = []; wire = [] }

module _ (ssl : Ssl) (taken : ℕ → ℕ → Option ℕ) (lim : Limits) (unset : Unset) where
  -- Mallory makes the handshake with a client and with the server, and relays what the client sends. All
  -- handshakes return 0, Mallory hears receiver and text of every message, in order, and the server is given
  -- each message just as the client sent it. The messages are any that can be sent, whatever the keys are.
  pub conversation_overheard :
      (ra rb rm rn : List ℕ) (a b m n : CryptoSession) (pa pb pm pn : List ℕ) (h k : NetworkHandler)
      (x : MalloryProxy) (client server : ℕ) (rs rs' : List Reception)
      (qs : List ℕ → List ℕ → List Passage)
      → Digests ssl
      → TakesAll taken
      → IsMade ssl ra a pa
      → IsMade ssl rb b pb
      → IsMade ssl rm m pm
      → IsMade ssl rn n pn
      → x.server_side.initialized ≡ true
      → x.tamper_client_to_server ≡ false
      → h.connected ≡ true
      → k.connected ≡ true
      → All Flows rs
      → text_of rs ≡ pa
      → All Flows rs'
      → text_of rs' ≡ pn
      → ((key key' : List ℕ) → All (λ q. q.packet.head.packet_type ≡ message_type) (qs key key'))
      → ((key key' : List ℕ) → All (IsPassable ssl lim unset key key') (qs key key'))
      → (to_client to_server : List ℕ) × (rest rest' : List Reception) × (xss yss : List (List ℕ))
        × (client_handshake ssl taken (some ra) h (record { incoming = chunk pm ∷ []; sent = [] })
            ≡ returns
                (true, secured (keyed_by to_client a) h)
                (record { incoming = []; sent = pa ∷ [] }))
        × (run ssl taken
              (some client)
              (some server)
              true
              true
              (some rm)
              (some rn)
              x
              (record { incoming = chunk pb ∷ []; sent = [] })
              (record { incoming = rs; sent = [] })
            ≡ returns
                (
                  (true, between client server (keyed_by to_client m) (keyed_by to_server n) x),
                  record { incoming = []; sent = pn ∷ [] },
                )
                (record { incoming = rest; sent = pm ∷ [] }))
        × (server_handshake ssl taken (some rb) k (record { incoming = rs'; sent = [] })
            ≡ returns
                (true, secured (keyed_by to_server b) k)
                (record { incoming = rest'; sent = pb ∷ [] }))
        × Sent ssl lim unset (secured (keyed_by to_client a) h) (qs to_client to_server) xss
        × (relay_client_to_server ssl lim unset
              (rounds ssl lim unset (qs to_client to_server) xss)
              (fresh_relay (between client server (keyed_by to_client m) (keyed_by to_server n) x))
            ≡ ok (record {
              proxy = between client server (keyed_by to_client m) (keyed_by to_server n) x;
              heard = map said (qs to_client to_server);
              wire = yss;
            }))
        × Given ssl lim unset (secured (keyed_by to_server b) k) (qs to_client to_server) yss
  conversation_overheard ra rb rm rn a b m n pa pb pm pn h k x client server rs rs' qs digests wire
        va vb vm vn i honest up up' fl e fl' e' types v =
      let (to_client, to_server, rest, rest', c, r, s) =
        man_in_the_middle ssl taken ra rb rm rn a b m n pa pb pm pn h k x client server rs rs'
          digests wire va vb vm vn i fl e fl' e' in
      let proxy : MalloryProxy =
        between client server (keyed_by to_client m) (keyed_by to_server n) x in
      let (xss, yss, sent, relayed, given) =
        overheard ssl lim unset (qs to_client to_server) (fresh_relay proxy)
          (secured (keyed_by to_client a) h) (secured (keyed_by to_server b) k)
          (keyed_by to_client a) (keyed_by to_client m) (keyed_by to_server n)
          (keyed_by to_server b)
          (secured-IsLinked to_client a m h
            (record x.client_side { socket = some client; connected = true }) up refl)
          (secured-IsLinked to_server n b
            (record x.server_side { connected = true; socket = some server }) k refl up')
          honest (types to_client to_server) (v to_client to_server) in
      (to_client, to_server, rest, rest', xss, yss, c, r, s, sent, relayed, given)
