-- ===== src/Network/Handshake.antt =====
-- The handshake of utils/NetworkHandler.cpp: the server shows a certificate and signs a challenge of
-- the client, then both exchange public keys. The result is whether a function returns 0.
use leaky_chat.Prelude.{
  ℕ, ◌==◌, List, [], ◌∷◌, length, Option, none, some, Bool, true, false, ◌&&◌, if◌then◌else◌,
  bytes_of,
}
use leaky_chat.Buffer.{new_buffer, live}
use leaky_chat.Buffer.Codec.{Limits, put_bytes, get_bytes}
use leaky_chat.Crypto.{Ssl, CryptoSession, new_crypto, public_key, establish}
use leaky_chat.Network.{NetworkHandler, handshaking, established, close, buffer_of}
use leaky_chat.Network.Certificates.{Pki, new_certificate, verify, sign, verify_signature}
use leaky_chat.Network.Line.{
  M, pure, exit, ◌>>=◌, catching, lift, Reception, chunk, again, failed, recv, send, receive_bytes,
}

abbrev pub ca_path : List ℕ
ca_path = bytes_of "certs/client/ca.crt"

abbrev pub crt_path : List ℕ
crt_path = bytes_of "certs/server/server.crt"

abbrev pub key_path : List ℕ
key_path = bytes_of "certs/server/server.key"

-- The bytes of a `recv`, which are none for an error and for the end of the stream.
abbrev pub received_bytes : Reception → List ℕ
received_bytes (chunk xs) = xs
received_bytes again = []
received_bytes failed = []

-- A vector in a buffer of its own, as it is sent; and such a vector read from what was received.
abbrev pub packed : ℕ → List ℕ → List ℕ
packed sz xs = live (put_bytes xs (new_buffer sz))

unfoldable pub unpacked : Limits → List ℕ → M (List ℕ)
unpacked lim xs = lift (get_bytes lim (buffer_of xs)) >>= λ r. pure r.0

abbrev pub with_crypto : CryptoSession → NetworkHandler → NetworkHandler
with_crypto c h = record h { crypto = some c }

abbrev pub secured : CryptoSession → NetworkHandler → NetworkHandler
secured c h = record h { crypto = some c; state = established }

module _ (ssl : Ssl) (pki : Pki) (lim : Limits) (taken : ℕ → ℕ → Option ℕ) where
  -- The end of the client's part, when the signature came.
  abbrev pub check_signature : pki.Cert → List ℕ → List ℕ → M Bool
  check_signature cert challenge [] = pure false
  check_signature cert challenge (x ∷ xs) = do
    sig ← unpacked lim (x ∷ xs)
    lift (verify_signature pki challenge sig cert)

  abbrev pub challenge_server : pki.Cert → Option (List ℕ) → M Bool
  challenge_server cert none = pure false
  challenge_server cert (some challenge) = do
    done ← send taken (packed 32 challenge)
    elim done [
      | none ↦ pure false
      | some n ↦ recv 65536 >>= λ r. check_signature cert challenge (received_bytes r)
    ]

  abbrev pub check_certificate : List ℕ → Option (List ℕ) → List ℕ → M Bool
  check_certificate host rand xs = do
    bytes ← unpacked lim xs
    cert ← lift (new_certificate pki bytes)
    good ← lift (verify pki ca_path host cert)
    if good then challenge_server cert rand else pure false

  abbrev pub authenticate_with : List ℕ → Option (List ℕ) → List ℕ → M Bool
  authenticate_with host rand [] = exit
  authenticate_with host rand (x ∷ xs) = catching (check_certificate host rand (x ∷ xs))

  -- `performClientCertificateAuthentication`, with the random bytes of the challenge.
  unfoldable pub authenticate_server : List ℕ → Option (List ℕ) → M Bool
  authenticate_server host rand = recv 65536 >>= λ r. authenticate_with host rand (received_bytes r)

  abbrev is_sent : Option ℕ → Bool
  is_sent none = false
  is_sent (some n) = true

  abbrev pub answer_challenge : (List ℕ → Option (List ℕ)) → Option (List ℕ) → M Bool
  answer_challenge files none = pure false
  answer_challenge files (some xs) = catching (do
    challenge ← unpacked lim xs
    sig ← lift (sign pki files key_path challenge)
    done ← send taken (packed 1024 sig)
    pure (is_sent done))

  abbrev pub present_certificate : (List ℕ → Option (List ℕ)) → Option (List ℕ) → M Bool
  present_certificate files none = pure false
  present_certificate files (some crt) = do
    done ← send taken (packed 1024 crt)
    if is_sent done then (receive_bytes 40 >>= λ r. answer_challenge files r) else pure false

  -- `performServerCertificateAuthentication`, with the files that can be opened.
  unfoldable pub show_certificate : (List ℕ → Option (List ℕ)) → M Bool
  show_certificate files = present_certificate files (files crt_path)

  -- `bytes_sent != publicKey.size()` is not so.
  abbrev pub all_sent : ℕ → Option ℕ → Bool
  all_sent size none = false
  all_sent size (some n) = n == size

  abbrev pub take_peer_key : ℕ → CryptoSession → NetworkHandler → List ℕ → M (Bool × NetworkHandler)
  take_peer_key size c h peer =
      if length peer == size
      then (lift (establish ssl c peer) >>= λ c'. pure (true, secured c' h))
      else pure (false, with_crypto c h)

  abbrev pub exchange_keys : List ℕ → CryptoSession → NetworkHandler → M (Bool × NetworkHandler)
  exchange_keys key c h = do
    done ← send taken key
    if all_sent (length key) done
        then (recv (length key) >>= λ r. take_peer_key (length key) c h (received_bytes r))
        else pure (false, with_crypto c h)

  abbrev pub client_keys : CryptoSession → NetworkHandler → M (Bool × NetworkHandler)
  client_keys c h = lift (public_key ssl c) >>= λ key. exchange_keys key c h

  -- `performClientHandshake`; `fresh` is the randomness of the new CryptoSession.
  unfoldable pub client_handshake :
      List ℕ → Option (List ℕ) → Option (List ℕ) → NetworkHandler → M (Bool × NetworkHandler)
  client_handshake host rand fresh h0 =
      let h : NetworkHandler = record h0 { state = handshaking } in
      do
        trusted ← authenticate_server host rand
        if trusted then (lift (new_crypto ssl fresh) >>= λ c. client_keys c h) else pure (false, h)

  abbrev pub send_key : List ℕ → CryptoSession → NetworkHandler → List ℕ → M (Bool × NetworkHandler)
  send_key key c h peer = do
    done ← send taken key
    if all_sent (length key) done
        then (lift (establish ssl c peer) >>= λ c'. pure (true, secured c' h))
        else pure (false, with_crypto c h)

  abbrev pub server_keys :
      CryptoSession → NetworkHandler → Option (List ℕ) → M (Bool × NetworkHandler)
  server_keys c h none = pure (false, with_crypto c h)
  server_keys c h (some peer) = lift (public_key ssl c) >>= λ key. send_key key c h peer

  -- `performServerHandshake`.
  unfoldable pub server_handshake :
      (List ℕ → Option (List ℕ)) → Option (List ℕ) → NetworkHandler → M (Bool × NetworkHandler)
  server_handshake files fresh h0 =
      let h : NetworkHandler = record h0 { state = handshaking } in
      do
        shown ← show_certificate files
        if shown
            then (lift (new_crypto ssl fresh) >>= λ c. receive_bytes 256 >>= λ r. server_keys c h r)
            else pure (false, h)

  -- `connect`, with what `socket` and the system's `connect` answer; the socket of a connection that
  -- the system refused is closed again.
  unfoldable pub connect :
      Option ℕ
      → Bool
      → List ℕ
      → Option (List ℕ)
      → Option (List ℕ)
      → NetworkHandler
      → M (Bool × NetworkHandler)
  connect none accepted host rand fresh h = pure (false, h)
  connect (some fd) accepted host rand fresh h =
      if h.initialized && accepted
      then (client_handshake host rand fresh (record h { connected = true; socket = some fd })
          >>= λ r. pure (r.0, if r.0 then r.1 else close r.1))
      else pure (false, h)
