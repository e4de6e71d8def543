-- ===== src/Phases/Impostor/Stolen.antt =====
-- The second attack of .phases/phase3/src/chat/mallory/MalloryProxy.cpp on the client of the program,
-- src/utils/NetworkHandler.cpp.
use leaky_chat.Prelude.{
  ℕ, ◌+◌, ◌≤◌, ◌<◌, ◌≡◌, refl, sym, ◌∙◌, arith, List, [], ◌∷◌, ◌++◌, length, All, Option, some,
  true, false, if◌then◌else◌, append-nil, joined,
}
use leaky_chat.Buffer.Codec.{Limits}
use leaky_chat.Buffer.Encoding.{string_bytes, length-string_bytes}
use leaky_chat.Crypto.{Ssl}
use leaky_chat.Network.{NetworkHandler, close}
use leaky_chat.Network.Certificates.{Pki, new_certificate, verify, verify_signature}
use leaky_chat.Network.Line.{Line, returns, pure, ◌>>=◌, catching, Reception, chunk}
use leaky_chat.Network.Reassembly.{text_of, Flows}
use leaky_chat.Network.Handshake.{
  ca_path, check_certificate, challenge_server, authenticate_server, connect,
}
use leaky_chat.Network.Authentication.{
  TakesAll, packed_lem, recv_lem, send_lem, unpacked_lem, check_signature-cons,
  authenticate_with-cons,
}
use leaky_chat.Phases.Impostor.{
  MalloryProxy, Sending, read_file, code, sign, send_signature, answer, impersonate, sign_with,
  run_stolen_certificate_attack, send_vector, receive_vector,
}
use leaky_chat.Phases.Impostor.Vectors.{Progresses, taking, send_vector_lem, receive_vector_lem}
use leaky_chat.Phases.Impostor.Refusal.{refused_connect}

module _ (ssl : Ssl) (pki : Pki) (lim : Limits) (taken : ℕ → ℕ → Option ℕ) where
  -- The certificate in `crt` is good at the host, and Mallory, who has it, signs the challenge by a key
  -- of its own, in `pem`: what comes of that is not a signature by the key of the certificate.
  pub record IsStolen (host crt pem challenge sig : List ℕ) : Type 0 where
    pub cert : pki.Cert
    pub store : pki.Store
    pub pubkey : pki.PublicKey
    pub own_key : pki.PrivateKey
    pub reads : pki.read_x509 crt ≡ some cert
    pub loads : pki.load_store ca_path ≡ some store
    pub trusted : pki.verify_cert store cert ≡ some true
    pub address : pki.check_ip cert host ≡ true
    pub has_key : pki.get_pubkey cert ≡ some pubkey
    pub reads_key : pki.read_private_key pem ≡ some own_key
    pub signs : pki.digest_sign own_key challenge ≡ some sig
    pub forged : pki.digest_verify pubkey challenge sig ≡ some false
    pub challenge_size : length challenge ≡ 32
    pub crt_size : (0 < length crt) × (length crt + 8 ≤ 2048)
    pub sig_size : (0 < length sig) × (length sig + 8 ≤ 2048)
    pub granted : (lim.bytes (length crt) ≡ true) × (lim.bytes (length sig) ≡ true)

  module _ (host crt pem challenge sig : List ℕ) (v : IsStolen host crt pem challenge sig) where
    forged_signature :
        (rest : List Reception) (s : List (List ℕ))
        → TakesAll taken
        → challenge_server ssl pki lim taken v.cert
            (some challenge)
            (record { incoming = chunk (string_bytes sig) ∷ rest; sent = s })
          ≡ returns false (record { incoming = rest; sent = s ++ (string_bytes challenge ∷ []) })
    unfolding verify_signature
    forged_signature rest s open_wire =
        let n = length-string_bytes sig in
        rw (
          packed_lem 32 challenge (omega arith) (omega (arith, v.challenge_size)),
          send_lem taken (string_bytes challenge)
              (record { incoming = chunk (string_bytes sig) ∷ rest; sent = s }) open_wire,
          recv_lem 65536 (string_bytes sig) rest (s ++ (string_bytes challenge ∷ []))
              (omega (arith, n, v.sig_size)),
          check_signature-cons ssl pki lim taken v.cert challenge (string_bytes sig)
              (omega (arith, n)),
          ◌>>=◌,
          unpacked_lem lim sig
              (record { incoming = rest; sent = s ++ (string_bytes challenge ∷ []) })
              (omega (arith, v.sig_size)) v.granted.1,
          v.has_key,
          v.forged,
        )

    stolen_certificate :
        (rest : List Reception)
        → TakesAll taken
        → authenticate_server ssl pki lim taken host (some challenge) (record {
          incoming = chunk (string_bytes crt) ∷ chunk (string_bytes sig) ∷ rest;
          sent = [];
        })
          ≡ returns false (record { incoming = rest; sent = string_bytes challenge ∷ [] })
    unfolding authenticate_server new_certificate verify
    stolen_certificate rest open_wire =
        let n = length-string_bytes crt in
        let l : Line = record { incoming = chunk (string_bytes sig) ∷ rest; sent = [] } in
        rw (
          recv_lem 65536 (string_bytes crt) (chunk (string_bytes sig) ∷ rest) []
              (omega (arith, n, v.crt_size)),
          authenticate_with-cons ssl pki lim taken host (some challenge) (string_bytes crt)
              (omega (arith, n)),
          catching,
          check_certificate,
          ◌>>=◌,
          unpacked_lem lim crt l (omega (arith, v.crt_size)) v.granted.0,
          v.reads,
          v.loads,
          v.trusted,
          v.address,
          forged_signature rest [] open_wire,
        )

    module _ (files : List ℕ → Option (List ℕ)) (m : MalloryProxy) where
      impersonate-cons :
          (sending sending' : List Sending) (xs : List ℕ)
          → 0 < length xs
          → impersonate pki files m sending sending' xs true ≡ (
              send_vector sending xs >>= λ done.
              if done then (receive_vector >>= answer pki files m sending') else pure 1)
      impersonate-cons sending sending' [] h = absurd (omega arith)
      impersonate-cons sending sending' (x ∷ xs) h = refl

      send_signature-cons :
          (sending : List Sending) (xs : List ℕ)
          → 0 < length xs
          → send_signature pki files m sending xs
            ≡ (send_vector sending xs >>= λ done. pure (code pki files m done))
      send_signature-cons sending [] h = absurd (omega arith)
      send_signature-cons sending (x ∷ xs) h = refl

      sign_lem :
          files m.mallory_private_key_path ≡ some pem
          → sign pki files m m.mallory_private_key_path challenge ≡ sig
      unfolding sign
      sign_lem e = rw (sign, e, sign_with, v.reads_key, v.signs)

      -- The attack with the server's certificate: Mallory puts it on the wire, signs the client's challenge
      -- by its own key and returns 0. The client that is given both has sent the challenge that Mallory
      -- signs; it does not connect, and sends no public key.
      pub stolen_certificate_refused :
          (sending sending' : List Sending) (fd : ℕ) (fresh : Option (List ℕ)) (h : NetworkHandler)
          (rs rest : List Reception)
          → TakesAll taken
          → files m.legitimate_certificate_path ≡ some crt
          → files m.mallory_private_key_path ≡ some pem
          → All Progresses sending
          → length crt + 8 ≤ taking sending
          → All Progresses sending'
          → length sig + 8 ≤ taking sending'
          → All Flows rs
          → text_of rs ≡ string_bytes challenge
          → h.initialized ≡ true
          → (first second : List (List ℕ)) × (rs' : List Reception) × (run_stolen_certificate_attack
                pki files m true true sending sending'
                (record { incoming = rs; sent = [] })
              ≡ returns 0 (record { incoming = rs'; sent = first ++ second }))
            × (connect ssl pki lim taken (some fd) true host (some challenge) fresh h (record {
              incoming = chunk (joined first) ∷ chunk (joined second) ∷ rest;
              sent = [];
            })
                ≡ returns
                    (false, close h)
                    (record { incoming = rest; sent = string_bytes challenge ∷ [] }))
      unfolding run_stolen_certificate_attack
      stolen_certificate_refused sending sending' fd fresh h rs rest open_wire e ek p1 k1 p2 k2 fl t
            i =
          let (first, q, j) =
            send_vector_lem sending crt (record { incoming = rs; sent = [] }) p1 k1 v.crt_size.1 in
          let (rs', _, _, r) =
            receive_vector_lem challenge [] rs first (omega (arith, v.challenge_size)) fl
              (t ∙ sym (append-nil (string_bytes challenge))) in
          let (second, q', j') =
            send_vector_lem sending' sig (record { incoming = rs'; sent = first }) p2 k2
              v.sig_size.1 in
          let client =
            refused_connect ssl pki lim taken fd host (some challenge) fresh h
              (record {
                incoming = chunk (string_bytes crt) ∷ chunk (string_bytes sig) ∷ rest;
                sent = [];
              })
              (record { incoming = rest; sent = string_bytes challenge ∷ [] }) i
              (stolen_certificate rest open_wire) in
          (
            first,
            second,
            rs',
            rw (
              run_stolen_certificate_attack,
              read_file,
              e,
              impersonate-cons sending sending' crt v.crt_size.0,
              ◌>>=◌,
              q,
              r,
              answer,
              sign_lem ek,
              send_signature-cons sending' sig v.sig_size.0,
              ◌>>=◌,
              q',
            ),
            rw (j, j') client,
          )
