-- ===== src/Network/Relay.antt =====
-- Both ends of the handshake of utils/NetworkHandler.cpp together, with and without a relay between them.
use leaky_chat.Prelude.{
  ℕ, ◌≡◌, sym, subst, ◌∙◌, arith, List, [], ◌∷◌, ◌++◌, length, All, Option, some, true, ok,
  append-nil,
}
use leaky_chat.Buffer.Codec.{Limits}
use leaky_chat.Buffer.Encoding.{string_bytes}
use leaky_chat.Crypto.{Ssl, CryptoSession, new_crypto, public_key, establish}
use leaky_chat.Crypto.Agreement.{Digests, IsFresh, new_crypto-IsFresh, crypto_agreement}
use leaky_chat.Network.{NetworkHandler}
use leaky_chat.Network.Certificates.{Pki}
use leaky_chat.Network.Line.{returns, Reception, chunk}
use leaky_chat.Network.Reassembly.{text_of, Flows}
use leaky_chat.Network.Handshake.{secured, client_handshake, server_handshake}
use leaky_chat.Network.Authentication.{
  IsCertified, TakesAll, client_handshake_lem, server_handshake_lem,
}

ok_injective : {A : Type 0} (a b : A) → ok a ≡ ok b → a ≡ b
ok_injective a b h = ground arith

-- A crypto session that `CryptoSession()` made, with its public key.
pub record IsMade (ssl : Ssl) (rand : List ℕ) (c : CryptoSession) (key : List ℕ) : Type 0 where
  pub made : new_crypto ssl (some rand) ≡ ok c
  pub public : public_key ssl c ≡ ok key

-- A session after `establish`.
abbrev pub keyed_by : List ℕ → CryptoSession → CryptoSession
keyed_by key c = record c { key = key; established = true }

module _ (ssl : Ssl) (digests : Digests ssl) where
  made-IsFresh :
      (rand : List ℕ) (c : CryptoSession) (key : List ℕ) → IsMade ssl rand c key → IsFresh ssl c
  made-IsFresh rand c key v =
      let (d, e, w) = new_crypto-IsFresh ssl rand in
      subst (IsFresh ssl) (ok_injective d c (sym e ∙ v.made)) w

  pub agreed :
      (ra rb : List ℕ) (a b : CryptoSession) (pa pb : List ℕ)
      → IsMade ssl ra a pa
      → IsMade ssl rb b pb
      → (key : List ℕ) × (length pa ≡ 256)
        × (length pb ≡ 256)
        × (establish ssl a pb ≡ ok (keyed_by key a))
        × (establish ssl b pa ≡ ok (keyed_by key b))
  agreed ra rb a b pa pb va vb =
      let (qa, qb, key, ea, eb, la, lb, ka, kb) =
        crypto_agreement ssl digests a b (made-IsFresh ra a pa va) (made-IsFresh rb b pb vb) in
      let same_a : qa ≡ pa = ok_injective qa pa (sym ea ∙ va.public) in
      let same_b : qb ≡ pb = ok_injective qb pb (sym eb ∙ vb.public) in
      (key, rw (← same_a) la, rw (← same_b) lb, rw (← same_b) ka, rw (← same_a) kb)

module _ (ssl : Ssl) (pki : Pki) (lim : Limits) (taken : ℕ → ℕ → Option ℕ)
    (files : List ℕ → Option (List ℕ)) (host crt challenge sig : List ℕ) where
  -- With a certified server and a network that takes all that is sent, client and server make the
  -- handshake with each other: each is given what the other sends, the client message by message, the
  -- server in whatever pieces it comes. Both return 0 and are established on one key, and nothing that
  -- was sent is left unread.
  pub handshake_agreement :
      (ra rb : List ℕ) (a b : CryptoSession) (pa pb : List ℕ) (h k : NetworkHandler)
      (rs : List Reception)
      → Digests ssl
      → IsCertified ssl pki lim taken files host crt challenge sig
      → TakesAll taken
      → IsMade ssl ra a pa
      → IsMade ssl rb b pb
      → All Flows rs
      → text_of rs ≡ string_bytes challenge ++ pa
      → (key : List ℕ) × (rest : List Reception) × (client_handshake ssl pki lim taken host
            (some challenge)
            (some ra)
            h
            (record {
              incoming = chunk (string_bytes crt) ∷ chunk (string_bytes sig) ∷ chunk pb ∷ [];
              sent = [];
            })
          ≡ returns
              (true, secured (keyed_by key a) h)
              (record { incoming = []; sent = string_bytes challenge ∷ pa ∷ [] }))
        × (server_handshake ssl pki lim taken files
              (some rb)
              k
              (record { incoming = rs; sent = [] })
            ≡ returns
                (true, secured (keyed_by key b) k)
                (record { incoming = rest; sent = string_bytes crt ∷ string_bytes sig ∷ pb ∷ [] }))
        × (text_of rest ≡ [])
  handshake_agreement ra rb a b pa pb h k rs digests v wire va vb fl e =
      let (key, la, lb, ka, kb) = agreed ssl digests ra rb a b pa pb va vb in
      let (rest, q, t) =
        server_handshake_lem ssl pki lim taken files host crt challenge sig v wire (some rb) b
          (keyed_by key b) pb pa [] k rs [] fl (rw (append-nil pa) e) vb.made vb.public la kb in
      (
        key,
        rest,
        client_handshake_lem ssl pki lim taken files host crt challenge sig v wire (some ra) a
            (keyed_by key a) pa pb h [] [] va.made va.public (lb ∙ sym la) ka,
        q,
        t,
      )

  -- The signature is over the challenge alone. A relay that passes the certificate, the challenge and the
  -- signature on unchanged, and puts public keys of its own in the place of the two parties', is not
  -- noticed: client and server both return 0 and are established, each on a key that the relay has.
  pub relay_unnoticed :
      (ra rb rm rn : List ℕ) (a b m n : CryptoSession) (pa pb pm pn : List ℕ) (h k : NetworkHandler)
      → (rs : List Reception) → Digests ssl
      → IsCertified ssl pki lim taken files host crt challenge sig
      → TakesAll taken
      → IsMade ssl ra a pa
      → IsMade ssl rb b pb
      → IsMade ssl rm m pm
      → IsMade ssl rn n pn
      → All Flows rs
      → text_of rs ≡ string_bytes challenge ++ pn
      → (to_client to_server : List ℕ) × (rest : List Reception) × (client_handshake ssl pki lim
            taken host
            (some challenge)
            (some ra)
            h
            (record {
              incoming = chunk (string_bytes crt) ∷ chunk (string_bytes sig) ∷ chunk pm ∷ [];
              sent = [];
            })
          ≡ returns
              (true, secured (keyed_by to_client a) h)
              (record { incoming = []; sent = string_bytes challenge ∷ pa ∷ [] }))
        × (server_handshake ssl pki lim taken files
              (some rb)
              k
              (record { incoming = rs; sent = [] })
            ≡ returns
                (true, secured (keyed_by to_server b) k)
                (record { incoming = rest; sent = string_bytes crt ∷ string_bytes sig ∷ pb ∷ [] }))
        × (establish ssl m pa ≡ ok (keyed_by to_client m))
        × (establish ssl n pb ≡ ok (keyed_by to_server n))
  relay_unnoticed ra rb rm rn a b m n pa pb pm pn h k rs digests v wire va vb vm vn fl e =
      let (to_client, la, lm, ka, km) = agreed ssl digests ra rm a m pa pm va vm in
      let (to_server, lb, ln, kb, kn) = agreed ssl digests rb rn b n pb pn vb vn in
      let (rest, q, t) =
        server_handshake_lem ssl pki lim taken files host crt challenge sig v wire (some rb) b
          (keyed_by to_server b) pb pn [] k rs [] fl (rw (append-nil pn) e) vb.made vb.public ln
          kb in
      (
        to_client,
        to_server,
        rest,
        client_handshake_lem ssl pki lim taken files host crt challenge sig v wire (some ra) a
            (keyed_by to_client a) pa pm h [] [] va.made va.public (lm ∙ sym la) ka,
        q,
        km,
        kn,
      )
