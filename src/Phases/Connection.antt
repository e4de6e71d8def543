-- ===== src/Phases/Connection.antt =====
-- .phases/phase2/src/utils/NetworkHandler.cpp: a connection whose handshake exchanges public keys and
-- nothing else. The class has the fields of Network.
pub mod KeyExchange
pub mod Transport
pub mod Delivery
pub mod Tampering
use leaky_chat.Prelude.{
  ℕ, suc, ◌+◌, ◌-◌, ◌%◌, ◌==◌, List, [], ◌∷◌, length, take, drop, ◌++◌, Option, none, some, Bool,
  true, false, ◌&&◌, not, if◌then◌else◌, Outcome, ok, undefined,
}
use leaky_chat.Buffer.{MemBuffer, new_buffer, live}
use leaky_chat.Crypto.{Ssl, CryptoSession, new_crypto, public_key, establish}
use leaky_chat.Network.{NetworkHandler, disconnected, handshaking, established}
use leaky_chat.Network.Line.{M, pure, ◌>>=◌, lift, recv, send}
use leaky_chat.Network.Handshake.{received_bytes, with_crypto, secured}
use leaky_chat.Phases.Impostor.{receive_all}

-- `mConnected` is reset if there is a socket.
unfoldable pub close : NetworkHandler → NetworkHandler
close h = elim h.socket [
  | none ↦ record h { crypto = none; state = disconnected }
  | some fd ↦ record h { connected = false; socket = none; crypto = none; state = disconnected }
]

-- The loop of `receiveBytes`, which ends as that of `receiveAll` does; `none` is -1.
abbrev pub receive_bytes : ℕ → M (Option (List ℕ))
receive_bytes = receive_all

abbrev pub is_whole : ℕ → Option ℕ → Bool
is_whole size none = false
is_whole size (some n) = n == size

module _ (ssl : Ssl) (taken : ℕ → ℕ → Option ℕ) where
  abbrev pub establish_with :
      ℕ → CryptoSession → NetworkHandler → List ℕ → M (Bool × NetworkHandler)
  establish_with size c h peer =
      if length peer == size
      then (lift (establish ssl c peer) >>= λ c'. pure (true, secured c' h))
      else pure (false, with_crypto c h)

  abbrev pub offer_key : CryptoSession → NetworkHandler → List ℕ → M (Bool × NetworkHandler)
  offer_key c h key = do
    done ← send taken key
    if is_whole (length key) done
        then (recv (length key) >>= λ r. establish_with (length key) c h (received_bytes r))
        else pure (false, with_crypto c h)

  -- `performClientHandshake`; `fresh` is the randomness of the new CryptoSession.
  unfoldable pub client_handshake : Option (List ℕ) → NetworkHandler → M (Bool × NetworkHandler)
  client_handshake fresh h0 =
      let h : NetworkHandler = record h0 { state = handshaking } in
      lift (new_crypto ssl fresh) >>= λ c. lift (public_key ssl c) >>= λ key. offer_key c h key

  abbrev pub return_key :
      CryptoSession → NetworkHandler → List ℕ → List ℕ → M (Bool × NetworkHandler)
  return_key c h peer key = do
    done ← send taken key
    if is_whole (length key) done
        then (lift (establish ssl c peer) >>= λ c'. pure (true, secured c' h))
        else pure (false, with_crypto c h)

  abbrev pub take_key : CryptoSession → NetworkHandler → Option (List ℕ) → M (Bool × NetworkHandler)
  take_key c h none = pure (false, with_crypto c h)
  take_key c h (some peer) = lift (public_key ssl c) >>= λ key. return_key c h peer key

  -- `performServerHandshake`.
  unfoldable pub server_handshake : Option (List ℕ) → NetworkHandler → M (Bool × NetworkHandler)
  server_handshake fresh h0 =
      let h : NetworkHandler = record h0 { state = handshaking } in
      lift (new_crypto ssl fresh) >>= λ c. receive_bytes 256 >>= λ r. take_key c h r

  -- `connect`, with what `socket` and the system's `connect` answer.
  unfoldable pub connect :
      Option ℕ → Bool → Option (List ℕ) → NetworkHandler → M (Bool × NetworkHandler)
  connect none accepted fresh h = pure (false, h)
  connect (some fd) accepted fresh h =
      if h.initialized && accepted
      then (client_handshake fresh (record h { connected = true; socket = some fd }) >>= λ r.
          pure (r.0, if r.0 then r.1 else close r.1))
      else pure (false, h)
