-- ===== src/Phases/Proxy/Interception.antt =====
-- The handshakes of Mallory with a client and with the server of .phases/phase2: neither notices.
use leaky_chat.Prelude.{ℕ, ◌≡◌, refl, sym, ◌∙◌, List, [], ◌∷◌, All, Option, some, true, append-nil}
use leaky_chat.Crypto.{Ssl, CryptoSession}
use leaky_chat.Crypto.Agreement.{Digests}
use leaky_chat.Network.{NetworkHandler, set_socket}
use leaky_chat.Network.Transport.{IsLinked}
use leaky_chat.Network.Line.{Line, returns, ◌>>=◌, Reception, chunk}
use leaky_chat.Network.Reassembly.{text_of, Flows}
use leaky_chat.Network.Handshake.{secured}
use leaky_chat.Network.Relay.{IsMade, keyed_by, agreed}
use leaky_chat.Network.Authentication.{TakesAll}
use leaky_chat.Phases.Connection.{client_handshake, server_handshake, connect}
use leaky_chat.Phases.Connection.KeyExchange.{
  client_handshake_lem, connect_lem, server_handshake_lem,
}
use leaky_chat.Phases.Proxy.{MalloryProxy}
use leaky_chat.Phases.Proxy.Run.{beside, reach_server, run}

-- The proxy with its two sessions.
abbrev pub between : ℕ → ℕ → CryptoSession → CryptoSession → MalloryProxy → MalloryProxy
between client server c c' x = record x {
  client_side = secured c (record x.client_side { socket = some client; connected = true });
  server_side = secured c' (record x.server_side { connected = true; socket = some server });
}

module _ (ssl : Ssl) (taken : ℕ → ℕ → Option ℕ) where
  run_returns :
      (client server : ℕ) (fresh fresh' : Option (List ℕ)) (x : MalloryProxy) (c c' : CryptoSession)
      (l l1 ls ls1 : Line)
      → server_handshake ssl taken fresh (set_socket client x.client_side) l
        ≡ returns (true, secured c (set_socket client x.client_side)) l1
      → connect ssl taken (some server) true fresh' x.server_side ls
        ≡ returns
            (true, secured c' (record x.server_side { connected = true; socket = some server }))
            ls1
      → run ssl taken (some client) (some server) true true fresh fresh' x ls l
        ≡ returns ((true, between client server c c' x), ls1) l1
  unfolding run set_socket
  run_returns client server fresh fresh' x c c' l l1 ls ls1 e e' =
      rw (run, ◌>>=◌, e, reach_server, ◌>>=◌, beside, e')

  -- Mallory takes the connection of a client, makes one to the server, and exchanges keys with either. All
  -- four handshakes return 0: the client and the server are each established on a key that Mallory has, and have
  -- not been asked to prove anything. What arrives comes in pieces, to the client and from the server whole.
  pub man_in_the_middle :
      (ra rb rm rn : List ℕ) (a b m n : CryptoSession) (pa pb pm pn : List ℕ) (h k : NetworkHandler)
      (x : MalloryProxy) (client server : ℕ) (rs rs' : List Reception)
      → Digests ssl
      → TakesAll taken
      → IsMade ssl ra a pa
      → IsMade ssl rb b pb
      → IsMade ssl rm m pm
      → IsMade ssl rn n pn
      → x.server_side.initialized ≡ true
      → All Flows rs
      → text_of rs ≡ pa
      → All Flows rs'
      → text_of rs' ≡ pn
      → (to_client to_server : List ℕ) × (rest rest' : List Reception) × (client_handshake ssl taken
            (some ra)
            h
            (record { incoming = chunk pm ∷ []; sent = [] })
          ≡ returns
              (true, secured (keyed_by to_client a) h)
              (record { incoming = []; sent = pa ∷ [] }))
        × (run ssl taken
              (some client)
              (some server)
              true
              true
              (some rm)
              (some rn)
              x
              (record { incoming = chunk pb ∷ []; sent = [] })
              (record { incoming = rs; sent = [] })
            ≡ returns
                (
                  (true, between client server (keyed_by to_client m) (keyed_by to_server n) x),
                  record { incoming = []; sent = pn ∷ [] },
                )
                (record { incoming = rest; sent = pm ∷ [] }))
        × (server_handshake ssl taken (some rb) k (record { incoming = rs'; sent = [] })
            ≡ returns
                (true, secured (keyed_by to_server b) k)
                (record { incoming = rest'; sent = pb ∷ [] }))
  man_in_the_middle ra rb rm rn a b m n pa pb pm pn h k x client server rs rs' digests wire va vb vm
        vn i fl e fl' e' =
      let (to_client, la, lm, ka, km) = agreed ssl digests ra rm a m pa pm va vm in
      let (to_server, lb, ln, kb, kn) = agreed ssl digests rb rn b n pb pn vb vn in
      let (rest, _, q) =
        server_handshake_lem ssl taken wire (some rm) m (keyed_by to_client m) pm pa []
          (set_socket client x.client_side) rs [] fl (e ∙ sym (append-nil pa)) vm.made vm.public la
          km in
      let (rest', _, q') =
        server_handshake_lem ssl taken wire (some rb) b (keyed_by to_server b) pb pn [] k rs' [] fl'
          (e' ∙ sym (append-nil pn)) vb.made vb.public ln kb in
      (
        to_client,
        to_server,
        rest,
        rest',
        client_handshake_lem ssl taken wire (some ra) a (keyed_by to_client a) pa pm h [] [] va.made
            va.public (lm ∙ sym la) ka,
        run_returns client server (some rm) (some rn) x (keyed_by to_client m)
            (keyed_by to_server n) (record { incoming = rs; sent = [] })
            (record { incoming = rest; sent = pm ∷ [] })
            (record { incoming = chunk pb ∷ []; sent = [] })
            (record { incoming = []; sent = pn ∷ [] }) q
            (connect_lem ssl taken wire server (some rn) n (keyed_by to_server n) pn pb
              x.server_side [] [] i vn.made vn.public (lb ∙ sym ln) kn),
        q',
      )

-- Two connections that were established on the same key.
pub secured-IsLinked :
    (key : List ℕ) (a b : CryptoSession) (h k : NetworkHandler)
    → h.connected ≡ true
    → k.connected ≡ true
    → IsLinked
        (secured (keyed_by key a) h)
        (secured (keyed_by key b) k)
        (keyed_by key a)
        (keyed_by key b)
secured-IsLinked key a b h k up up' = record {
  ready = (rw up, rw up');
  sessions = (refl, refl);
  keyed = (refl, refl);
  key = refl;
}
