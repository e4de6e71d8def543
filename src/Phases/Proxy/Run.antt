-- ===== src/Phases/Proxy/Run.antt =====
-- `run` of .phases/phase2/src/chat/mallory/MalloryProxy.cpp, up to where it starts the relays: the
-- handshake with the client, and then the one with the server.
use leaky_chat.Prelude.{ℕ, List, Option, none, some, Bool, true, false, if◌then◌else◌}
use leaky_chat.Crypto.{Ssl}
use leaky_chat.Network.{set_socket}
use leaky_chat.Network.Line.{Line, M, returns, throws, undefined, exits, blocks, pure, ◌>>=◌}
use leaky_chat.Phases.Connection.{close, server_handshake, connect}
use leaky_chat.Phases.Proxy.{MalloryProxy}

-- A call that uses another connection than the one that goes along.
abbrev pub beside : {A : Type 0} → Line → M A → M (A × Line)
beside other m l = elim (m other) [
  | returns a other' ↦ returns (a, other') l
  | throws e other' ↦ throws e l
  | undefined ↦ undefined
  | exits ↦ exits
  | blocks ↦ blocks
]

module _ (ssl : Ssl) (taken : ℕ → ℕ → Option ℕ) where
  -- `makeBlocking` of both sockets, which may fail.
  abbrev pub unblocked : Bool → MalloryProxy → Bool × MalloryProxy
  unblocked true m = (true, m)
  unblocked false m =
      (false, record m { client_side = close m.client_side; server_side = close m.server_side })

  abbrev pub to_relay : Bool → MalloryProxy → Bool → Bool × MalloryProxy
  to_relay blocking m true = unblocked blocking m
  to_relay blocking m false = (false, record m { client_side = close m.client_side })

  abbrev pub reach_server :
      Option ℕ
      → Bool
      → Bool
      → Option (List ℕ)
      → MalloryProxy
      → Line
      → M ((Bool × MalloryProxy) × Line)
  reach_server fd up blocking fresh m server = do
    ((reached, side), server') ← beside server (connect ssl taken fd up fresh m.server_side)
    pure (to_relay blocking (record m { server_side = side }) reached, server')

  -- With the socket that `accept` gave, what `socket` and `connect` answer for the server, whether
  -- `makeBlocking` succeeds, the randomness of the two crypto sessions, and the line to the server.
  -- The line that goes along is the client's.
  unfoldable pub run :
      Option ℕ
      → Option ℕ
      → Bool
      → Bool
      → Option (List ℕ)
      → Option (List ℕ)
      → MalloryProxy
      → Line
      → M ((Bool × MalloryProxy) × Line)
  run none fd up blocking fresh fresh' m server = pure ((false, m), server)
  run (some client) fd up blocking fresh fresh' m server = do
    (shaken, side) ← server_handshake ssl taken fresh (set_socket client m.client_side)
    let met : MalloryProxy = record m { client_side = side }
    if shaken
        then reach_server fd up blocking fresh' met server
        else pure ((false, record met { client_side = close side }), server)
