-- ===== src/Phases/Connection/KeyExchange.antt =====
-- The handshake of .phases/phase2/src/utils/NetworkHandler.cpp, when nothing fails.
use leaky_chat.Prelude.{
  ℕ, ◌≡◌, arith, ◌==◌, List, [], ◌∷◌, ◌++◌, length, All, Option, some, true, ok, ◌&&◌,
}
use leaky_chat.Crypto.{Ssl, CryptoSession, new_crypto, public_key, establish}
use leaky_chat.Network.{NetworkHandler}
use leaky_chat.Network.Line.{returns, ◌>>=◌, Reception, chunk}
use leaky_chat.Network.Reassembly.{text_of, Flows}
use leaky_chat.Network.Handshake.{secured}
use leaky_chat.Network.Authentication.{TakesAll, send_lem, recv_lem, same_size}
use leaky_chat.Phases.Impostor.{receive_all}
use leaky_chat.Phases.Impostor.Vectors.{receive_all_lem}
use leaky_chat.Phases.Connection.{client_handshake, server_handshake, connect}

module _ (ssl : Ssl) (taken : ℕ → ℕ → Option ℕ) (open_wire : TakesAll taken) where
  -- The client takes whatever public key comes.
  pub client_handshake_lem :
      (fresh : Option (List ℕ)) (c c' : CryptoSession) (key peer : List ℕ) (h : NetworkHandler)
      (rest : List Reception) (s : List (List ℕ))
      → new_crypto ssl fresh ≡ ok c
      → public_key ssl c ≡ ok key
      → length peer ≡ length key
      → establish ssl c peer ≡ ok c'
      → client_handshake ssl taken fresh h (record { incoming = chunk peer ∷ rest; sent = s })
        ≡ returns (true, secured c' h) (record { incoming = rest; sent = s ++ (key ∷ []) })
  unfolding client_handshake
  client_handshake_lem fresh c c' key peer h rest s en ek es ee =
      let all : (length key == length key) ≡ true = same_size (length key) in
      let all' : (length peer == length key) ≡ true = rw es (same_size (length key)) in
      rw (
        ◌>>=◌,
        en,
        ek,
        send_lem taken key (record { incoming = chunk peer ∷ rest; sent = s }) open_wire,
        all,
        recv_lem (length key) peer rest (s ++ (key ∷ [])) (omega (arith, es)),
        all',
        ee,
      )

  pub connect_lem :
      (fd : ℕ) (fresh : Option (List ℕ)) (c c' : CryptoSession) (key peer : List ℕ)
      (h : NetworkHandler) (rest : List Reception) (s : List (List ℕ))
      → h.initialized ≡ true
      → new_crypto ssl fresh ≡ ok c
      → public_key ssl c ≡ ok key
      → length peer ≡ length key
      → establish ssl c peer ≡ ok c'
      → connect ssl taken (some fd) true fresh h (record { incoming = chunk peer ∷ rest; sent = s })
        ≡ returns
            (true, secured c' (record h { connected = true; socket = some fd }))
            (record { incoming = rest; sent = s ++ (key ∷ []) })
  unfolding connect
  connect_lem fd fresh c c' key peer h rest s i en ek es ee =
      let up : (h.initialized && true) ≡ true = rw i in
      let opened : NetworkHandler = record h { connected = true; socket = some fd } in
      rw (connect, up, ◌>>=◌, client_handshake_lem fresh c c' key peer opened rest s en ek es ee)

  -- So does the server, in whatever pieces it comes.
  pub server_handshake_lem :
      (fresh : Option (List ℕ)) (c c' : CryptoSession) (key peer after : List ℕ)
      (h : NetworkHandler) (rs : List Reception) (s : List (List ℕ))
      → All Flows rs
      → text_of rs ≡ peer ++ after
      → new_crypto ssl fresh ≡ ok c
      → public_key ssl c ≡ ok key
      → length peer ≡ 256
      → establish ssl c peer ≡ ok c'
      → (rest : List Reception) × (text_of rest ≡ after)
        × (server_handshake ssl taken fresh h (record { incoming = rs; sent = s })
            ≡ returns (true, secured c' h) (record { incoming = rest; sent = s ++ (key ∷ []) }))
  unfolding server_handshake
  server_handshake_lem fresh c c' key peer after h rs s fl e en ek es ee =
      let (rest, _, t, q) = receive_all_lem peer after rs s fl e in
      let q' : receive_all 256 (record { incoming = rs; sent = s })
          ≡ returns (some peer) (record { incoming = rest; sent = s }) =
        rw es at q in
      let all : (length key == length key) ≡ true = same_size (length key) in
      (
        rest,
        t,
        rw (
          ◌>>=◌,
          en,
          q',
          ek,
          send_lem taken key (record { incoming = rest; sent = s }) open_wire,
          all,
          ee,
        ),
      )
