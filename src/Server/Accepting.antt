-- ===== src/Server/Accepting.antt =====
-- utils/ConnectionSetter.cpp: new connections make the handshake and come to the server's set. What
-- `accept` gives is an argument: for each connection its socket, the random bytes of its crypto session
-- and what arrives on it; after them there is nothing to accept.
use leaky_chat.Prelude.{
  ℕ, ◌<◌, ◌≡◌, ◌⊎◌, inl, inr, ap, ◌∙◌, arith, List, [], ◌∷◌, ◌++◌, length, All, Bool-cases,
  replicate, ◌≤◌, suc, append-nil, append_assoc, Option, none, some, Bool, true, if◌then◌else◌,
}
use leaky_chat.Buffer.Codec.{Limits}
use leaky_chat.Crypto.{Ssl, CryptoSession, new_crypto, public_key, establish}
use leaky_chat.Server.{Connection, Server, add_connection}
use leaky_chat.Server.Reachable.{IsReachable, connects}
use leaky_chat.Network.{NetworkHandler, new_handler, handshaking, set_socket, is_established}
use leaky_chat.Network.Certificates.{Pki}
use leaky_chat.Network.Line.{
  M, Line, returns, throws, undefined, exits, blocks, ◌>>=◌, lift, pure, Reception, failed, send,
  receive_bytes,
}
use leaky_chat.Network.Runs.{run_returns, bind_returns, unless_failed}
use leaky_chat.Network.Reassembly.{text_of, Flows, receive_from_exits}
use leaky_chat.Network.Authentication.{TakesAll, send_lem}
use leaky_chat.Network.Handshake.{
  crt_path, packed, send_key, server_keys, secured, with_crypto, all_sent, server_handshake,
  show_certificate,
}

-- A connection that waits to be accepted.
pub record Caller : Type 0 where
  pub socket : ℕ
  pub rand : Option (List ℕ)
  pub incoming : List Reception

-- What the server's set keeps of a handler.
abbrev pub kept : NetworkHandler → Connection
kept h = record { connected = h.connected; established = is_established h.state }

abbrev pub ready : Connection
ready = record { connected = true; established = true }

abbrev pub grown : ℕ → Server → Server
grown n s = record s { connections = s.connections ++ replicate n ready }

-- `s'` is `s` with up to `m` more connections, which are ready.
abbrev pub Grows : ℕ → Server → Server → Type 0
Grows m s s' = (n : ℕ) × (n ≤ m) × (s' ≡ grown n s)

with_connections : Server → List Connection → Server
with_connections s cs = record s { connections = cs }

Grows-refl : (m : ℕ) (s : Server) → Grows m s s
Grows-refl m s = (0, omega arith, rw (append-nil s.connections))

Grows-add_connection :
    (m : ℕ) (s r s' : Server)
    → (r ≡ s) ⊎ (r ≡ add_connection ready s)
    → Grows m r s'
    → Grows (suc m) s s'
unfolding add_connection with_connections
Grows-add_connection m s r s' (inl e) (n, le, g) = (n, omega arith, g ∙ ap (grown n) e)
Grows-add_connection m s r s' (inr e) (n, le, g) = (
  suc n,
  omega arith,
  g
      ∙ ap (grown n) e
      ∙ ap (with_connections s) (append_assoc s.connections (ready ∷ []) (replicate n ready)),
)

step-IsReachable :
    (s r : Server) → IsReachable s → (r ≡ s) ⊎ (r ≡ add_connection ready s) → IsReachable r
step-IsReachable s r v (inl e) = rw e v
step-IsReachable s r v (inr e) = rw e (connects ready s v)

abbrev result : Bool → NetworkHandler → Bool × NetworkHandler
result b h = (b, h)

secured_returns :
    (c : CryptoSession) (h h' : NetworkHandler) (l l' : Line)
    → returns (result true (secured c h)) l ≡ returns (true, h') l'
    → secured c h ≡ h'
secured_returns c h h' l l' e = ground arith

module _ (ssl : Ssl) (pki : Pki) (lim : Limits) (taken : ℕ → ℕ → Option ℕ)
    (files : List ℕ → Option (List ℕ)) where
  -- `getConnections`; the result is whether it returns 0.
  unfoldable pub get_connections : Caller → Server → M (Bool × Server)
  get_connections c s =
      server_handshake ssl pki lim taken files c.rand (set_socket c.socket new_handler) >>= λ r.
      pure (r.0, if r.0 then add_connection (kept r.1) s else s)

  -- `processConnections`, until a connection fails or none is left.
  unfoldable pub process_connections : List Caller → Server → M Server
  process_connections [] s l = pure s l
  process_connections (c ∷ cs) s l =
      elim (get_connections c s (record { incoming = c.incoming; sent = [] })) [
        | returns r l' ↦ (if r.0 then process_connections cs r.1 l' else pure r.1 l')
        | throws e l' ↦ throws e l'
        | undefined ↦ undefined
        | exits ↦ exits
        | blocks ↦ blocks
      ]

  send_key_sound :
      (key peer : List ℕ) (c : CryptoSession) (h h' : NetworkHandler) (l l' : Line)
      → send_key ssl pki lim taken key c h peer l ≡ returns (true, h') l'
      → (c' : CryptoSession) × (secured c' h ≡ h')
  send_key_sound key peer c h h' l l' e =
      let establishing : M (Bool × NetworkHandler) =
        lift (establish ssl c peer) >>= λ c'. pure (true, secured c' h) in
      let (done, l1, _, e1) = bind_returns (send taken key) _ l l' (true, h') e in
      let (_, e2) =
        unless_failed (all_sent ssl pki lim taken (length key) done) establishing (with_crypto c h)
          h' l1 l' e1 in
      let (c', l2, _, e3) = bind_returns (lift (establish ssl c peer)) _ l1 l' (true, h') e2 in
      (c', secured_returns c' h h' l2 l' e3)

  server_keys_sound :
      (c : CryptoSession) (h h' : NetworkHandler) (peer : Option (List ℕ)) (l l' : Line)
      → server_keys ssl pki lim taken c h peer l ≡ returns (true, h') l'
      → (c' : CryptoSession) × (secured c' h ≡ h')
  server_keys_sound c h h' none l l' e = absurd (ground arith)
  server_keys_sound c h h' (some peer) l l' e =
      let (key, l1, _, e1) = bind_returns (lift (public_key ssl c)) _ l l' (true, h') e in
      send_key_sound key peer c h h' l1 l' e1

  -- A handler that came through the handshake.
  server_handshake_sound :
      (fresh : Option (List ℕ)) (h h' : NetworkHandler) (l l' : Line)
      → server_handshake ssl pki lim taken files fresh h l ≡ returns (true, h') l'
      → (h'.connected ≡ h.connected) × (is_established h'.state ≡ true)
  unfolding server_handshake
  server_handshake_sound fresh h h' l l' e =
      let shaking : NetworkHandler = record h { state = handshaking } in
      let exchange : CryptoSession → M (Bool × NetworkHandler) =
        λ c. receive_bytes 256 >>= λ r. server_keys ssl pki lim taken c shaking r in
      let (shown, l1, _, e1) =
        bind_returns (show_certificate ssl pki lim taken files) _ l l' (true, h') e in
      let (_, e2) =
        unless_failed shown (lift (new_crypto ssl fresh) >>= exchange) shaking h' l1 l' e1 in
      let (c, l2, _, e3) =
        bind_returns (lift (new_crypto ssl fresh)) exchange l1 l' (true, h') e2 in
      let (r, l3, _, e4) = bind_returns (receive_bytes 256) _ l2 l' (true, h') e3 in
      let (c', q) = server_keys_sound c shaking h' r l3 l' e4 in (rw (← q), rw (← q))

  -- A new connection comes to the set after its handshake alone, ready to send and receive.
  get_connections_cases :
      (c : Caller) (s s' : Server) (b : Bool) (l l' : Line)
      → get_connections c s l ≡ returns (b, s') l'
      → (s' ≡ s) ⊎ (s' ≡ add_connection ready s)
  unfolding get_connections set_socket
  get_connections_cases c s s' b l l' e =
      let (r, l1, q, e1) =
        bind_returns
          (server_handshake ssl pki lim taken files c.rand (set_socket c.socket new_handler)) _ l l'
          (b, s') e in
      elim (Bool-cases r.0) [
        | inr failing ↦ inl (ground arith)
        | inl passed ↦
            let q' : server_handshake ssl pki lim taken files c.rand
                  (set_socket c.socket new_handler) l
                ≡ returns (result true r.1) l1 =
              q ∙ ap (λ x. returns (result x r.1) l1) passed in
            let (up, est) =
              server_handshake_sound c.rand (set_socket c.socket new_handler) r.1 l l1 q' in
            let added : s' ≡ add_connection (kept r.1) s = ground arith in
            inr (added ∙ ap (λ k. add_connection k s) (rw (up, est)))
      ]

  process_cons :
      (c : Caller) (cs : List Caller) (s s' : Server) (l l' : Line)
      → process_connections (c ∷ cs) s l ≡ returns s' l'
      → (r : Bool × Server) × (k : Line) × (get_connections c s
            (record { incoming = c.incoming; sent = [] })
          ≡ returns r k)
        × ((if r.0 then process_connections cs r.1 k else pure r.1 k) ≡ returns s' l')
  unfolding process_connections
  process_cons c cs s s' l l' e =
      run_returns (get_connections c s (record { incoming = c.incoming; sent = [] }))
        (λ r k. if r.0 then process_connections cs r.1 k else pure r.1 k) l' s' e

  -- Accepting leaves the server in a state that it can come to: whatever the callers do, when accepting
  -- ends, the set has grown at its end by connections that are ready, no more than there were callers, and
  -- nothing else has changed.
  pub process_connections_lem :
      (cs : List Caller) (s s' : Server) (l l' : Line)
      → IsReachable s
      → process_connections cs s l ≡ returns s' l'
      → IsReachable s' × Grows (length cs) s s'
  unfolding process_connections
  process_connections_lem [] s s' l l' v e =
      let same : s ≡ s' = ground arith in rw (← same) (v, Grows-refl 0 s)
  process_connections_lem (c ∷ cs) s s' l l' v e =
      let (r, k, q, e1) = process_cons c cs s s' l l' e in
      let step =
        get_connections_cases c s r.1 r.0 (record { incoming = c.incoming; sent = [] }) k q in
      let reached : IsReachable r.1 = step-IsReachable s r.1 v step in
      elim (Bool-cases r.0) [
        | inr last ↦
            let same : r.1 ≡ s' = ground arith in
            rw (← same) (
              reached,
              Grows-add_connection (length cs) s r.1 r.1 step (Grows-refl (length cs) r.1),
            )
        | inl more ↦
            let (v', g) = process_connections_lem cs r.1 s' k l' reached (ground arith) in
            (v', Grows-add_connection (length cs) s r.1 s' step g)
      ]

  server_handshake_exits :
      (fresh : Option (List ℕ)) (h : NetworkHandler) (crt : List ℕ) (before rest : List Reception)
      → files crt_path ≡ some crt
      → TakesAll taken
      → All Flows before
      → length (text_of before) < 40
      → server_handshake ssl pki lim taken files fresh h
          (record { incoming = before ++ (failed ∷ rest); sent = [] })
        ≡ exits
  unfolding server_handshake show_certificate
  server_handshake_exits fresh h crt before rest hf wire fl short =
      let l : Line = record { incoming = before ++ (failed ∷ rest); sent = [] } in
      let shown : Line = record l { sent = packed 1024 crt ∷ [] } in
      rw (
        hf,
        ◌>>=◌,
        send_lem taken (packed 1024 crt) l wire,
        receive_from_exits 40 [] before rest shown fl short,
      )

  -- A client whose connection breaks before its challenge is complete, such as by a reset, ends the
  -- server: the program exits, with all its connections, whoever is connected and whoever comes after.
  pub process_connections_exits :
      (c : Caller) (cs : List Caller) (s : Server) (crt : List ℕ) (before rest : List Reception)
      (l : Line)
      → files crt_path ≡ some crt
      → TakesAll taken
      → All Flows before
      → length (text_of before) < 40
      → process_connections (record c { incoming = before ++ (failed ∷ rest) } ∷ cs) s l ≡ exits
  unfolding process_connections get_connections
  process_connections_exits c cs s crt before rest l hf wire fl short = rw (
    process_connections,
    get_connections,
    ◌>>=◌,
    server_handshake_exits c.rand (set_socket c.socket new_handler) crt before rest hf wire fl
        short,
  )
