-- ===== src/Network/Authentication.antt =====
-- The steps of the handshake of utils/NetworkHandler.cpp, when nothing fails.
use leaky_chat.Prelude.{
  ℕ, ◌+◌, ◌≤◌, ◌<◌, ◌^◌, ◌≡◌, refl, sym, ◌∙◌, arith, ◌==◌, ltb, List, [], ◌∷◌, ◌++◌, length, All,
  Option, some, true, false, append-nil, take_all, take-append, drop-append, length-append, ok,
}
use leaky_chat.Buffer.Codec.{Limits, put_bytes, get_bytes}
use leaky_chat.Buffer.Encoding.{
  string_bytes, length-string_bytes, put_bytes-Writes, get_bytes-Reads,
}
use leaky_chat.Buffer.Fifo.{live-eq-contents}
use leaky_chat.Crypto.{Ssl, CryptoSession, new_crypto, public_key, establish}
use leaky_chat.Network.{NetworkHandler, buffer_of}
use leaky_chat.Network.Certificates.{Pki, new_certificate, verify, sign, verify_signature}
use leaky_chat.Network.Transport.{live-new_buffer, Reads-buffer_of}
use leaky_chat.Network.Line.{
  Line, returns, ◌>>=◌, catching, lift, Reception, chunk, recv, send, receive_from,
}
use leaky_chat.Network.Reassembly.{text_of, Flows, receive_from_lem}
use leaky_chat.Network.Handshake.{
  ca_path, crt_path, key_path, packed, unpacked, secured, check_signature, challenge_server,
  authenticate_with, check_certificate, authenticate_server, show_certificate, client_handshake,
  server_handshake,
}

pub packed_lem :
    (sz : ℕ) (xs : List ℕ) → sz < 2 ^ 62 → length xs < 2 ^ 60 → packed sz xs ≡ string_bytes xs
packed_lem sz xs hs h =
    let (v, e) =
      live-new_buffer (put_bytes xs) (string_bytes xs) sz (put_bytes-Writes xs) hs
        (omega (arith, length-string_bytes xs)) in
    live-eq-contents v ∙ e

pub recv_lem :
    (n : ℕ) (xs : List ℕ) (rest : List Reception) (s : List (List ℕ))
    → length xs ≤ n
    → recv n (record { incoming = chunk xs ∷ rest; sent = s })
      ≡ returns (chunk xs) (record { incoming = rest; sent = s })
unfolding recv
recv_lem n xs rest s h =
    let whole : ltb n (length xs) ≡ false = ground arith in rw (whole, take_all n xs h)

-- A network on which each `send` takes all.
abbrev pub TakesAll : (ℕ → ℕ → Option ℕ) → Type 0
TakesAll taken = (k n : ℕ) → taken k n ≡ some n

pub send_lem :
    (taken : ℕ → ℕ → Option ℕ) (xs : List ℕ) (l : Line)
    → TakesAll taken
    → send taken xs l ≡ returns (some (length xs)) (record l { sent = l.sent ++ (xs ∷ []) })
unfolding send
send_lem taken xs l h =
    rw (send, h (length l.sent) (length xs), take_all (length xs) xs (omega arith))

pub same_size : (n : ℕ) → (n == n) ≡ true
same_size n = ground arith

pub unpacked_lem :
    (lim : Limits) (xs : List ℕ) (l : Line)
    → length xs < 2 ^ 60
    → lim.bytes (length xs) ≡ true
    → unpacked lim (string_bytes xs) l ≡ returns xs l
unfolding unpacked
unpacked_lem lim xs l h hl =
    let (b, q) =
      Reads-buffer_of (get_bytes lim) (string_bytes xs) [] xs (get_bytes-Reads lim xs hl)
        (omega (arith, length-string_bytes xs, length-append (string_bytes xs) [])) in
    let q' : get_bytes lim (buffer_of (string_bytes xs)) ≡ ok (xs, b) =
      rw (append-nil (string_bytes xs)) at q in
    rw q'

module _ (ssl : Ssl) (pki : Pki) (lim : Limits) (taken : ℕ → ℕ → Option ℕ) where
  pub check_signature-cons :
      (cert : pki.Cert) (challenge xs : List ℕ)
      → 0 < length xs
      → check_signature ssl pki lim taken cert challenge xs
        ≡ (unpacked lim xs >>= λ sig. lift (verify_signature pki challenge sig cert))
  check_signature-cons cert challenge [] h = absurd (omega arith)
  check_signature-cons cert challenge (x ∷ xs) h = refl

  pub authenticate_with-cons :
      (host : List ℕ) (rand : Option (List ℕ)) (xs : List ℕ)
      → 0 < length xs
      → authenticate_with ssl pki lim taken host rand xs
        ≡ catching (check_certificate ssl pki lim taken host rand xs)
  authenticate_with-cons host rand [] h = absurd (omega arith)
  authenticate_with-cons host rand (x ∷ xs) h = refl

  -- The server has the files of a certificate with its private key, which the client's certificate
  -- authority vouches for at the host, and which signs the challenge; everything fits one `recv`.
  pub record IsCertified (files : List ℕ → Option (List ℕ)) (host crt challenge sig : List ℕ)
      : Type 0 where
    pub cert : pki.Cert
    pub store : pki.Store
    pub private_key : pki.PrivateKey
    pub pubkey : pki.PublicKey
    pub pem : List ℕ
    pub crt_file : files crt_path ≡ some crt
    pub key_file : files key_path ≡ some pem
    pub reads : pki.read_x509 crt ≡ some cert
    pub reads_key : pki.read_private_key pem ≡ some private_key
    pub has_key : pki.get_pubkey cert ≡ some pubkey
    pub pair : pki.IsPair private_key pubkey
    pub loads : pki.load_store ca_path ≡ some store
    pub trusted : pki.verify_cert store cert ≡ some true
    pub address : pki.check_ip cert host ≡ true
    pub crt_fits : length crt + 8 ≤ 65536
    pub crt_granted : lim.bytes (length crt) ≡ true
    pub challenge_size : length challenge ≡ 32
    pub challenge_granted : lim.bytes (length challenge) ≡ true
    pub signs : pki.digest_sign private_key challenge ≡ some sig
    pub sig_fits : length sig + 8 ≤ 65536
    pub sig_granted : lim.bytes (length sig) ≡ true

  module _ (files : List ℕ → Option (List ℕ)) (host crt challenge sig : List ℕ)
      (v : IsCertified files host crt challenge sig) (open_wire : TakesAll taken) where
    challenge_server_lem :
        (rest : List Reception) (s : List (List ℕ))
        → challenge_server ssl pki lim taken v.cert
            (some challenge)
            (record { incoming = chunk (string_bytes sig) ∷ rest; sent = s })
          ≡ returns true (record { incoming = rest; sent = s ++ (string_bytes challenge ∷ []) })
    unfolding verify_signature
    challenge_server_lem rest s =
        let g = length-string_bytes sig in
        let proven : pki.digest_verify v.pubkey challenge sig ≡ some true =
          pki.digest_verify-digest_sign v.private_key v.pubkey challenge sig v.pair v.signs in
        rw (
          packed_lem 32 challenge (omega arith) (omega (arith, v.challenge_size)),
          send_lem taken (string_bytes challenge)
              (record { incoming = chunk (string_bytes sig) ∷ rest; sent = s }) open_wire,
          recv_lem 65536 (string_bytes sig) rest (s ++ (string_bytes challenge ∷ []))
              (omega (arith, g, v.sig_fits)),
          check_signature-cons v.cert challenge (string_bytes sig) (omega (arith, g)),
          ◌>>=◌,
          unpacked_lem lim sig
              (record { incoming = rest; sent = s ++ (string_bytes challenge ∷ []) })
              (omega (arith, v.sig_fits)) v.sig_granted,
          v.has_key,
          proven,
        )

    -- The client's part of the authentication.
    pub authenticate_server_lem :
        (rest : List Reception) (s : List (List ℕ))
        → authenticate_server ssl pki lim taken host (some challenge) (record {
          incoming = chunk (string_bytes crt) ∷ chunk (string_bytes sig) ∷ rest;
          sent = s;
        })
          ≡ returns true (record { incoming = rest; sent = s ++ (string_bytes challenge ∷ []) })
    unfolding authenticate_server new_certificate verify
    authenticate_server_lem rest s =
        let c = length-string_bytes crt in
        let l : Line = record { incoming = chunk (string_bytes sig) ∷ rest; sent = s } in
        rw (
          recv_lem 65536 (string_bytes crt) (chunk (string_bytes sig) ∷ rest) s
              (omega (arith, c, v.crt_fits)),
          authenticate_with-cons host (some challenge) (string_bytes crt) (omega (arith, c)),
          catching,
          check_certificate,
          ◌>>=◌,
          unpacked_lem lim crt l (omega (arith, v.crt_fits)) v.crt_granted,
          v.reads,
          v.loads,
          v.trusted,
          v.address,
          challenge_server_lem rest s,
        )

    -- The server's part: it needs the challenge alone, in whatever pieces it comes.
    pub show_certificate_lem :
        (rs : List Reception) (after : List ℕ) (s : List (List ℕ))
        → All Flows rs
        → text_of rs ≡ string_bytes challenge ++ after
        → (rest : List Reception) × All Flows rest
          × (text_of rest ≡ after)
          × (show_certificate ssl pki lim taken files (record { incoming = rs; sent = s })
              ≡ returns true (record {
                incoming = rest;
                sent = (s ++ (string_bytes crt ∷ [])) ++ (string_bytes sig ∷ []);
              }))
    unfolding show_certificate sign
    show_certificate_lem rs after s fl e =
        let size : 40 ≡ length (string_bytes challenge) =
          omega (arith, length-string_bytes challenge, v.challenge_size) in
        let shown : Line = record { incoming = rs; sent = s ++ (string_bytes crt ∷ []) } in
        let (rest, fl', t, q) =
          receive_from_lem 40 [] rs shown fl
            (rw e (omega (arith, size, length-append (string_bytes challenge) after))) in
        let q' : receive_from 40 [] rs shown
            ≡ returns (some (string_bytes challenge)) (record shown { incoming = rest }) =
          rw (e, take-append 40 (string_bytes challenge) after size) at q in
        (
          rest,
          fl',
          rw e at t ∙ drop-append 40 (string_bytes challenge) after size,
          rw (
            v.crt_file,
            packed_lem 1024 crt (omega arith) (omega (arith, v.crt_fits)),
            send_lem taken (string_bytes crt) (record { incoming = rs; sent = s }) open_wire,
            q',
            catching,
            ◌>>=◌,
            unpacked_lem lim challenge (record shown { incoming = rest })
                (omega (arith, v.challenge_size)) v.challenge_granted,
            v.key_file,
            v.reads_key,
            v.signs,
            packed_lem 1024 sig (omega arith) (omega (arith, v.sig_fits)),
            send_lem taken (string_bytes sig) (record shown { incoming = rest }) open_wire,
          ),
        )

    -- The client goes through with its part for whatever public key comes after the signature.
    pub client_handshake_lem :
        (fresh : Option (List ℕ)) (c c' : CryptoSession) (key peer : List ℕ) (h : NetworkHandler)
        → (rest : List Reception) (s : List (List ℕ)) → new_crypto ssl fresh ≡ ok c
        → public_key ssl c ≡ ok key
        → length peer ≡ length key
        → establish ssl c peer ≡ ok c'
        → client_handshake ssl pki lim taken host (some challenge) fresh h (record {
          incoming = chunk (string_bytes crt) ∷ chunk (string_bytes sig) ∷ chunk peer ∷ rest;
          sent = s;
        })
          ≡ returns
              (true, secured c' h)
              (record {
                incoming = rest;
                sent = (s ++ (string_bytes challenge ∷ [])) ++ (key ∷ []);
              })
    unfolding client_handshake
    client_handshake_lem fresh c c' key peer h rest s en ek es ee =
        let trusted : Line = record {
          incoming = chunk peer ∷ rest;
          sent = s ++ (string_bytes challenge ∷ []);
        } in
        let all : (length key == length key) ≡ true = same_size (length key) in
        let all' : (length peer == length key) ≡ true = rw es (same_size (length key)) in
        rw (
          ◌>>=◌,
          authenticate_server_lem (chunk peer ∷ rest) s,
          en,
          ek,
          send_lem taken key trusted open_wire,
          all,
          recv_lem (length key) peer rest (trusted.sent ++ (key ∷ [])) (omega (arith, es)),
          all',
          ee,
        )

    -- The server goes through with its part for whatever public key comes after the challenge.
    pub server_handshake_lem :
        (fresh : Option (List ℕ)) (c c' : CryptoSession) (key peer after : List ℕ)
        (h : NetworkHandler)
        → (rs : List Reception) (s : List (List ℕ)) → All Flows rs
        → text_of rs ≡ string_bytes challenge ++ (peer ++ after)
        → new_crypto ssl fresh ≡ ok c
        → public_key ssl c ≡ ok key
        → length peer ≡ 256
        → establish ssl c peer ≡ ok c'
        → (rest : List Reception) × (server_handshake ssl pki lim taken files fresh h
              (record { incoming = rs; sent = s })
            ≡ returns
                (true, secured c' h)
                (record {
                  incoming = rest;
                  sent = ((s ++ (string_bytes crt ∷ [])) ++ (string_bytes sig ∷ [])) ++ (key ∷ []);
                }))
          × (text_of rest ≡ after)
    unfolding server_handshake
    server_handshake_lem fresh c c' key peer after h rs s fl e en ek es ee =
        let (mid, fm, tm, qm) = show_certificate_lem rs (peer ++ after) s fl e in
        let shown : Line = record {
          incoming = mid;
          sent = (s ++ (string_bytes crt ∷ [])) ++ (string_bytes sig ∷ []);
        } in
        let (rest, fr, tr, qr) =
          receive_from_lem 256 [] mid shown fm
            (rw tm (omega (arith, es, length-append peer after))) in
        let qr' : receive_from 256 [] mid shown
            ≡ returns (some peer) (record shown { incoming = rest }) =
          rw (tm, take-append 256 peer after (sym es)) at qr in
        let all : (length key == length key) ≡ true = same_size (length key) in
        (
          rest,
          rw (
            ◌>>=◌,
            qm,
            en,
            qr',
            ek,
            send_lem taken key (record shown { incoming = rest }) open_wire,
            all,
            ee,
          ),
          rw tm at tr ∙ drop-append 256 peer after (sym es),
        )
