-- ===== src/Network/Trust.antt =====
-- What a client knows when `connect` of utils/NetworkHandler.cpp returns 0.
use leaky_chat.Prelude.{
  ℕ, ◌≡◌, refl, arith, List, [], ◌∷◌, Option, none, some, Bool, true, false, if◌then◌else◌, ok,
  >>=-eq-ok, ◌∙◌, ap, ◌&&◌, ◌==◌, length, subst,
}
use leaky_chat.Buffer.Codec.{Limits}
use leaky_chat.Crypto.{Ssl, CryptoSession, public_key, new_crypto, establish}
use leaky_chat.Network.{NetworkHandler, handshaking, is_ready, close}
use leaky_chat.Session.Offers.{establish-established}
use leaky_chat.Network.Certificates.{Pki, verify, verify_signature, wanted, new_certificate}
use leaky_chat.Network.Runs.{bind_returns, catching_lem, lift_returns, under_test, unless_failed}
use leaky_chat.Network.Line.{M, pure, Line, returns, ◌>>=◌, lift, Reception, recv, send}
use leaky_chat.Network.Handshake.{
  secured, with_crypto, take_peer_key, exchange_keys, all_sent, ca_path, packed, unpacked,
  received_bytes, check_signature, challenge_server, check_certificate, authenticate_with,
  authenticate_server, client_keys, client_handshake, connect,
}

wanted_ok : {A : Type 0} (o : Option A) (a : A) → wanted o ≡ ok a → o ≡ some a
wanted_ok none a h = absurd (ground arith)
wanted_ok (some b) a h = ground arith

module _ (pki : Pki) where
  -- What makes a certificate good at a host.
  pub record IsTrusted (host : List ℕ) (cert : pki.Cert) : Type 0 where
    pub store : pki.Store
    pub loads : pki.load_store ca_path ≡ some store
    pub chain : pki.verify_cert store cert ≡ some true
    pub address : pki.check_ip cert host ≡ true

  verify-IsTrusted :
      (host : List ℕ) (cert : pki.Cert)
      → verify pki ca_path host cert ≡ ok true
      → IsTrusted host cert
  unfolding verify
  verify-IsTrusted host cert h =
      let (store, e, h1) = >>=-eq-ok (wanted (pki.load_store ca_path)) _ h in
      let (trusted, k, h2) = >>=-eq-ok (wanted (pki.verify_cert store cert)) _ h1 in
      let is_true : trusted ≡ true = ground arith in
      record {
        store = store;
        loads = wanted_ok (pki.load_store ca_path) store e;
        chain = wanted_ok (pki.verify_cert store cert) true (k ∙ ap ok is_true);
        address = ground arith;
      }

  -- A signature of the challenge by the holder of the certificate's key.
  pub record IsProven (cert : pki.Cert) (challenge : List ℕ) : Type 0 where
    pub key : pki.PublicKey
    pub sig : List ℕ
    pub has_key : pki.get_pubkey cert ≡ some key
    pub good : pki.digest_verify key challenge sig ≡ some true

  verify_signature-IsProven :
      (cert : pki.Cert) (challenge sig : List ℕ)
      → verify_signature pki challenge sig cert ≡ ok true
      → IsProven cert challenge
  unfolding verify_signature
  verify_signature-IsProven cert challenge sig h =
      let (key, e, h1) = >>=-eq-ok (wanted (pki.get_pubkey cert)) _ h in
      record {
        key = key;
        sig = sig;
        has_key = wanted_ok (pki.get_pubkey cert) key e;
        good = wanted_ok (pki.digest_verify key challenge sig) true h1;
      }

module _ (ssl : Ssl) (pki : Pki) (lim : Limits) (taken : ℕ → ℕ → Option ℕ) where
  check_signature_sound :
      (cert : pki.Cert) (challenge xs : List ℕ) (l l' : Line)
      → check_signature ssl pki lim taken cert challenge xs l ≡ returns true l'
      → IsProven pki cert challenge
  check_signature_sound cert challenge [] l l' h = absurd (ground arith)
  check_signature_sound cert challenge (x ∷ xs) l l' h =
      let (sig, l1, e, h1) = bind_returns (unpacked lim (x ∷ xs)) _ l l' true h in
      verify_signature-IsProven pki cert challenge sig
        (lift_returns (verify_signature pki challenge sig cert) l1 l' true h1)

  after_send :
      (done : Option ℕ) (m : M Bool) (l l' : Line)
      → (elim done as (λ x. M Bool) [ none ↦ pure false | some n ↦ m ]) l ≡ returns true l'
      → m l ≡ returns true l'
  after_send none m l l' h = absurd (ground arith)
  after_send (some n) m l l' h = h

  challenge_server_sound :
      (cert : pki.Cert) (rand : Option (List ℕ)) (l l' : Line)
      → challenge_server ssl pki lim taken cert rand l ≡ returns true l'
      → (challenge : List ℕ) × (rand ≡ some challenge) × IsProven pki cert challenge
  challenge_server_sound cert none l l' h = absurd (ground arith)
  challenge_server_sound cert (some challenge) l l' h =
      let (done, l1, _, h1) = bind_returns (send taken (packed 32 challenge)) _ l l' true h in
      let (r, l2, _, h2) = bind_returns (recv 65536) _ l1 l' true (after_send done _ l1 l' h1) in
      (challenge, refl, check_signature_sound cert challenge (received_bytes r) l2 l' h2)

  -- The server's certificate is good at the host, and its key has signed the challenge.
  abbrev pub IsAuthentic : List ℕ → Option (List ℕ) → Type 0
  IsAuthentic host rand =
      (cert : pki.Cert) × (challenge : List ℕ) × (rand ≡ some challenge)
      × IsTrusted pki host cert
      × IsProven pki cert challenge

  check_certificate_sound :
      (host : List ℕ) (rand : Option (List ℕ)) (xs : List ℕ) (l l' : Line)
      → check_certificate ssl pki lim taken host rand xs l ≡ returns true l'
      → IsAuthentic host rand
  check_certificate_sound host rand xs l l' h =
      let (bytes, l1, _, h1) = bind_returns (unpacked lim xs) _ l l' true h in
      let (cert, l2, _, h2) = bind_returns (lift (new_certificate pki bytes)) _ l1 l' true h1 in
      let (good, l3, e, h3) = bind_returns (lift (verify pki ca_path host cert)) _ l2 l' true h2 in
      let (passed, h4) = under_test good (challenge_server ssl pki lim taken cert rand) l3 l' h3 in
      let (challenge, q, proven) = challenge_server_sound cert rand l3 l' h4 in
      let checked : verify pki ca_path host cert ≡ ok good =
        lift_returns (verify pki ca_path host cert) l2 l3 good e in
      (cert, challenge, q, verify-IsTrusted pki host cert (checked ∙ ap ok passed), proven)

  authenticate_with_sound :
      (host : List ℕ) (rand : Option (List ℕ)) (xs : List ℕ) (l l' : Line)
      → authenticate_with ssl pki lim taken host rand xs l ≡ returns true l'
      → IsAuthentic host rand
  authenticate_with_sound host rand [] l l' h = absurd (ground arith)
  authenticate_with_sound host rand (x ∷ xs) l l' h =
      check_certificate_sound host rand (x ∷ xs) l l'
        (catching_lem (check_certificate ssl pki lim taken host rand (x ∷ xs)) l l' h)

  authenticate_server_sound :
      (host : List ℕ) (rand : Option (List ℕ)) (l l' : Line)
      → authenticate_server ssl pki lim taken host rand l ≡ returns true l'
      → IsAuthentic host rand
  unfolding authenticate_server
  authenticate_server_sound host rand l l' h =
      let (r, l1, _, h1) = bind_returns (recv 65536) _ l l' true h in
      authenticate_with_sound host rand (received_bytes r) l1 l' h1

  -- A handler with which packets can be sent and received under a key.
  pub record IsSecured (h : NetworkHandler) : Type 0 where
    pub ready : is_ready h ≡ true
    pub session : CryptoSession
    pub held : h.crypto ≡ some session
    pub keyed : session.established ≡ true

  abbrev result : Bool → NetworkHandler → Bool × NetworkHandler
  result b h = (b, h)

  secured-IsSecured :
      (c : CryptoSession) (h h' : NetworkHandler) (l l' : Line)
      → h.connected ≡ true
      → c.established ≡ true
      → returns (result true (secured c h)) l ≡ returns (true, h') l'
      → IsSecured h'
  secured-IsSecured c h h' l l' up keyed e =
      let same : secured c h ≡ h' = ground arith in
      subst IsSecured same (record { ready = rw up; session = c; held = refl; keyed = keyed })

  take_peer_key_sound :
      (size : ℕ) (c : CryptoSession) (h h' : NetworkHandler) (peer : List ℕ) (l l' : Line)
      → h.connected ≡ true
      → take_peer_key ssl pki lim taken size c h peer l ≡ returns (true, h') l'
      → IsSecured h'
  take_peer_key_sound size c h h' peer l l' up e =
      let establishing : M (Bool × NetworkHandler) =
        lift (establish ssl c peer) >>= λ c'. pure (true, secured c' h) in
      let (_, e1) = unless_failed (length peer == size) establishing (with_crypto c h) h' l l' e in
      let (c', l1, q, e2) = bind_returns (lift (establish ssl c peer)) _ l l' (true, h') e1 in
      secured-IsSecured c' h h' l1 l' up
        (establish-established ssl c peer (lift_returns (establish ssl c peer) l l1 c' q)) e2

  exchange_keys_sound :
      (key : List ℕ) (c : CryptoSession) (h h' : NetworkHandler) (l l' : Line)
      → h.connected ≡ true
      → exchange_keys ssl pki lim taken key c h l ≡ returns (true, h') l'
      → IsSecured h'
  exchange_keys_sound key c h h' l l' up e =
      let taking : Reception → M (Bool × NetworkHandler) =
        λ r. take_peer_key ssl pki lim taken (length key) c h (received_bytes r) in
      let (done, l1, _, e1) = bind_returns (send taken key) _ l l' (true, h') e in
      let (_, e2) =
        unless_failed (all_sent ssl pki lim taken (length key) done) (recv (length key) >>= taking)
          (with_crypto c h) h' l1 l' e1 in
      let (r, l2, _, e3) = bind_returns (recv (length key)) taking l1 l' (true, h') e2 in
      take_peer_key_sound (length key) c h h' (received_bytes r) l2 l' up e3

  client_handshake_sound :
      (host : List ℕ) (rand fresh : Option (List ℕ)) (h h' : NetworkHandler) (l l' : Line)
      → h.connected ≡ true
      → client_handshake ssl pki lim taken host rand fresh h l ≡ returns (true, h') l'
      → IsAuthentic host rand × IsSecured h'
  unfolding client_handshake
  client_handshake_sound host rand fresh h h' l l' up e =
      let (trusted, l1, q, e1) =
        bind_returns (authenticate_server ssl pki lim taken host rand) _ l l' (true, h') e in
      let shaking : NetworkHandler = record h { state = handshaking } in
      let (passed, e2) =
        unless_failed trusted
          (lift (new_crypto ssl fresh) >>= λ c. client_keys ssl pki lim taken c shaking) shaking h'
          l1 l' e1 in
      let (c, l2, _, e3) = bind_returns (lift (new_crypto ssl fresh)) _ l1 l' (true, h') e2 in
      let (key, l3, _, e4) = bind_returns (lift (public_key ssl c)) _ l2 l' (true, h') e3 in
      (
        authenticate_server_sound host rand l l1 (q ∙ ap (λ b. returns b l1) passed),
        exchange_keys_sound key c shaking h' l3 l' up e4,
      )

  unless_closed :
      (r : Bool × NetworkHandler) (h' : NetworkHandler) (l l' : Line)
      → returns (result r.0 (if r.0 then r.1 else close r.1)) l ≡ returns (true, h') l'
      → r ≡ (true, h')
  unless_closed (true, k) h' l l' e = ground arith
  unless_closed (false, k) h' l l' e = absurd (ground arith)

  -- When `connect` returns 0, the certificate authority vouches for a certificate at the host, its key
  -- signed the client's challenge, and the connection is established with a key.
  pub connect_sound :
      (fd : Option ℕ) (accepted : Bool) (host : List ℕ) (rand fresh : Option (List ℕ))
      → (h h' : NetworkHandler) (l l' : Line)
      → connect ssl pki lim taken fd accepted host rand fresh h l ≡ returns (true, h') l'
      → IsAuthentic host rand × IsSecured h'
  unfolding connect
  connect_sound none accepted host rand fresh h h' l l' e = absurd (ground arith)
  connect_sound (some fd) accepted host rand fresh h h' l l' e =
      let open_handler : NetworkHandler = record h { connected = true; socket = some fd } in
      let shake : M (Bool × NetworkHandler) =
        client_handshake ssl pki lim taken host rand fresh open_handler in
      let (_, e1) =
        unless_failed (h.initialized && accepted)
          (shake >>= λ r. pure (r.0, if r.0 then r.1 else close r.1)) h h' l l' e in
      let (r, l1, q, e2) = bind_returns shake _ l l' (true, h') e1 in
      client_handshake_sound host rand fresh open_handler h' l l1 refl
        (q ∙ ap (λ x. returns x l1) (unless_closed r h' l1 l' e2))
