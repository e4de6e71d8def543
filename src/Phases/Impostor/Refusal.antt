-- ===== src/Phases/Impostor/Refusal.antt =====
-- The attacks of .phases/phase3/src/chat/mallory/MalloryProxy.cpp on the client of the program,
-- src/utils/NetworkHandler.cpp.
use leaky_chat.Prelude.{
  ℕ, ◌+◌, ◌≤◌, ◌<◌, ◌≡◌, refl, arith, ◌&&◌, List, [], ◌∷◌, length, All, Option, some, true, false,
  joined,
}
use leaky_chat.Buffer.Codec.{Limits}
use leaky_chat.Buffer.Encoding.{string_bytes, length-string_bytes}
use leaky_chat.Crypto.{Ssl}
use leaky_chat.Network.{NetworkHandler, close}
use leaky_chat.Network.Certificates.{Pki, new_certificate, verify}
use leaky_chat.Network.Line.{Line, returns, ◌>>=◌, catching, Reception, chunk}
use leaky_chat.Network.Handshake.{
  ca_path, check_certificate, authenticate_server, client_handshake, connect,
}
use leaky_chat.Network.Authentication.{recv_lem, unpacked_lem, authenticate_with-cons}
use leaky_chat.Phases.Impostor.{
  MalloryProxy, Sending, read_file, code, send_certificate, run_fake_certificate_attack,
  send_vector,
}
use leaky_chat.Phases.Impostor.Vectors.{Progresses, taking, send_vector_lem}

module _ (ssl : Ssl) (pki : Pki) (lim : Limits) (taken : ℕ → ℕ → Option ℕ) where
  -- A client that does not take the server for authentic is left closed, without a key.
  pub refused_connect :
      (fd : ℕ) (host : List ℕ) (rand fresh : Option (List ℕ)) (h : NetworkHandler) (l l' : Line)
      → h.initialized ≡ true
      → authenticate_server ssl pki lim taken host rand l ≡ returns false l'
      → connect ssl pki lim taken (some fd) true host rand fresh h l ≡ returns (false, close h) l'
  unfolding connect client_handshake close
  refused_connect fd host rand fresh h l l' i e =
      let up : (h.initialized && true) ≡ true = rw i in rw (connect, up, client_handshake, ◌>>=◌, e)

  -- The certificate in `crt` can be read, and the certificate authority does not vouch for it.
  pub record IsFake (crt : List ℕ) : Type 0 where
    pub cert : pki.Cert
    pub store : pki.Store
    pub reads : pki.read_x509 crt ≡ some cert
    pub loads : pki.load_store ca_path ≡ some store
    pub untrusted : pki.verify_cert store cert ≡ some false
    pub granted : lim.bytes (length crt) ≡ true

  untrusted_certificate :
      (host crt : List ℕ) (rand : Option (List ℕ)) (rest : List Reception) (s : List (List ℕ))
      → IsFake crt
      → length crt + 8 ≤ 2048
      → authenticate_server ssl pki lim taken host rand
          (record { incoming = chunk (string_bytes crt) ∷ rest; sent = s })
        ≡ returns false (record { incoming = rest; sent = s })
  unfolding authenticate_server new_certificate verify
  untrusted_certificate host crt rand rest s v fits =
      let n = length-string_bytes crt in
      rw (
        recv_lem 65536 (string_bytes crt) rest s (omega (arith, n)),
        authenticate_with-cons ssl pki lim taken host rand (string_bytes crt) (omega (arith, n)),
        catching,
        check_certificate,
        ◌>>=◌,
        unpacked_lem lim crt (record { incoming = rest; sent = s }) (omega arith) v.granted,
        v.reads,
        v.loads,
        v.untrusted,
      )

  module _ (files : List ℕ → Option (List ℕ)) (m : MalloryProxy) where
    send_certificate-cons :
        (sending : List Sending) (xs : List ℕ)
        → 0 < length xs
        → send_certificate pki files m sending xs true
          ≡ (send_vector sending xs >>= λ done. λ l. returns (code pki files m done) l)
    send_certificate-cons sending [] h = absurd (omega arith)
    send_certificate-cons sending (x ∷ xs) h = refl

    -- The attack with a certificate of its own: Mallory puts it on the wire and returns 0, and the client
    -- that is given it does not connect. It sends nothing, neither a challenge nor a public key.
    pub fake_certificate_refused :
        (crt host : List ℕ) (sending : List Sending) (fd : ℕ) (rand fresh : Option (List ℕ))
        (h : NetworkHandler) (rest : List Reception)
        → files m.fake_certificate_path ≡ some crt
        → 0 < length crt
        → length crt + 8 ≤ 2048
        → All Progresses sending
        → length crt + 8 ≤ taking sending
        → IsFake crt
        → h.initialized ≡ true
        → (pieces : List (List ℕ)) × (run_fake_certificate_attack pki files m true true sending
              (record { incoming = []; sent = [] })
            ≡ returns 0 (record { incoming = []; sent = pieces }))
          × (joined pieces ≡ string_bytes crt)
          × (connect ssl pki lim taken
                (some fd)
                true
                host
                rand
                fresh
                h
                (record { incoming = chunk (joined pieces) ∷ rest; sent = [] })
              ≡ returns (false, close h) (record { incoming = rest; sent = [] }))
    unfolding run_fake_certificate_attack
    fake_certificate_refused crt host sending fd rand fresh h rest e some_bytes fits pr k v i =
        let (pieces, q, j) =
          send_vector_lem sending crt (record { incoming = []; sent = [] }) pr k fits in
        let client =
          refused_connect fd host rand fresh h
            (record { incoming = chunk (string_bytes crt) ∷ rest; sent = [] })
            (record { incoming = rest; sent = [] }) i
            (untrusted_certificate host crt rand rest [] v fits) in
        (
          pieces,
          rw (
            run_fake_certificate_attack,
            read_file,
            e,
            send_certificate-cons sending crt some_bytes,
            ◌>>=◌,
            q,
          ),
          j,
          rw j client,
        )
