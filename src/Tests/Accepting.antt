-- ===== src/Tests/Accepting.antt =====
-- Connections that the server accepts.
use leaky_chat.Prelude.{◌≡◌, refl, sym, ap, ◌∙◌, arith, true, [], ◌∷◌, ◌++◌, some, none, append-nil}
use leaky_chat.Buffer.Encoding.{string_bytes}
use leaky_chat.Crypto.{CryptoSession}
use leaky_chat.Network.Line.{Line, ◌>>=◌, returns, chunk, again}
use leaky_chat.Network.Handshake.{secured, server_handshake}
use leaky_chat.Network.Relay.{agreed, keyed_by}
use leaky_chat.Tests.Samples.{toy, toy-Digests, granting}
use leaky_chat.Server.{Server, add_connection}
use leaky_chat.Server.Reachable.{IsReachable, initial}
use leaky_chat.Server.Loop.{Loop, has_active, admit}
use leaky_chat.Server.Rounds.{starts, has_active_lem}
use leaky_chat.Server.Accepting.{
  Caller, ready, Grows, get_connections, process_connections, process_connections_lem,
  process_connections_exits,
}
use leaky_chat.Network.Line.{exits, failed}
use leaky_chat.Network.Authentication.{server_handshake_lem}
use leaky_chat.Network.{set_socket}
use leaky_chat.Tests.Servers.{lobby, lobby-IsReachable}
use leaky_chat.Tests.Handshakes.{
  toy_pki, crt, challenge, files, all_taken, seed, to_server, socketed, crt-IsCertified, party,
  party-IsMade, party_made, key_of, length-key_of, to_server-Flows, text_of-to_server,
}
use leaky_chat.Network.Relay.{agreed}

-- A caller whose connection breaks after two bytes; another is behind it.
abbrev breaking : Caller
breaking = record { socket = 4; rand = none; incoming = [] }

abbrev silent_line : Line
silent_line = record { incoming = []; sent = [] }

process_connections_exits_example :
    process_connections toy toy_pki granting all_taken files
      (record breaking { incoming = (chunk (1 ∷ 2 ∷ []) ∷ again ∷ []) ++ (failed ∷ []) }
        ∷ breaking
        ∷ [])
      lobby
      silent_line
    ≡ exits
process_connections_exits_example =
    process_connections_exits toy toy_pki granting all_taken files breaking (breaking ∷ []) lobby
      crt (chunk (1 ∷ 2 ∷ []) ∷ again ∷ []) [] silent_line refl (λ k n. refl) (tt, (tt, tt))
      (omega arith)

-- The caller is the party 3, and the server's session is the party 5.
abbrev calling : Caller
calling = record { socket = 4; rand = some (seed 5); incoming = to_server 3 }

shakes :
    (c : CryptoSession) × (l' : Line) × (server_handshake toy toy_pki granting all_taken files
        (some (seed 5))
        socketed
        (record { incoming = to_server 3; sent = [] })
      ≡ returns (true, secured c socketed) l')
shakes =
    let (key, lb, la, kb, ka) =
      agreed toy toy-Digests (seed 5) (seed 3) (party 5) (party 3) (key_of 5) (key_of 3)
        (party-IsMade 5) (party-IsMade 3) in
    let (rest, q, t) =
      server_handshake_lem toy toy_pki granting all_taken files crt crt challenge (crt ++ challenge)
        crt-IsCertified (λ k n. refl) (some (seed 5)) (party 5) (keyed_by key (party 5)) (key_of 5)
        (key_of 3) [] socketed (to_server 3) [] (to_server-Flows 3)
        (text_of-to_server 3
          ∙ ap (λ xs. string_bytes challenge ++ xs) (sym (append-nil (key_of 3))))
        (party_made 5) (party-IsMade 5).public (length-key_of 3) kb in
    (keyed_by key (party 5), _, q)

joins :
    (s : Server) (c : CryptoSession) (l' : Line)
    → server_handshake toy toy_pki granting all_taken files
        (some (seed 5))
        socketed
        (record { incoming = to_server 3; sent = [] })
      ≡ returns (true, secured c socketed) l'
    → process_connections toy toy_pki granting all_taken files (calling ∷ []) s silent_line
      ≡ returns (add_connection ready s) l'
unfolding process_connections get_connections set_socket
joins s c l' e = rw (process_connections, get_connections, ◌>>=◌, e)

process_connections_lem_example :
    IsReachable (add_connection ready lobby) × Grows 1 lobby (add_connection ready lobby)
process_connections_lem_example =
    process_connections_lem toy toy_pki granting all_taken files (calling ∷ []) lobby
      (add_connection ready lobby) silent_line shakes.1 lobby-IsReachable
      (joins lobby shakes.0 shakes.1 shakes.2)

-- The server at its start, and its first client.
abbrev first_loop : Loop
first_loop = record { server = initial; num_active = 0; place = 0 }

has_active_lem_example : has_active (admit (add_connection ready initial) first_loop) ≡ true
unfolding add_connection
has_active_lem_example =
    has_active_lem toy toy_pki granting all_taken files (calling ∷ []) first_loop
      (add_connection ready initial) silent_line shakes.1 0 ready starts
      (joins initial shakes.0 shakes.1 shakes.2) (omega arith) refl refl
