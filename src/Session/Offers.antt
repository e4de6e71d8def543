-- ===== src/Session/Offers.antt =====
-- Which offers the handler of a session takes, and what taking one does.
use leaky_chat.Prelude.{
  ℕ, ◌<◌, ◌≤◌, ◌≡◌, ◌≢◌, ◌⊎◌, refl, sym, ap, arith, true, false, Option, some, List, ok, ◌>>=◌,
  >>=-eq-ok, Bool-cases, inl, inr, ◌==◌, ltb,
}
use leaky_chat.Buffer.Codec.{Payload}
use leaky_chat.Crypto.{Ssl, CryptoSession, new_crypto, establish, public_key}
use leaky_chat.Session.{
  E2ESession, E2EState, uninitialized, init_sent, established, refresh_sent, is_established,
  is_newer, renew_crypto, accept_init,
}
use leaky_chat.Session.Payloads.{E2EInit, ack_payload}

is_established-eq : (e : E2EState) → is_established e ≡ true → e ≡ established
is_established-eq uninitialized h = absurd (cc)
is_established-eq init_sent h = absurd (cc)
is_established-eq established h = refl
is_established-eq refresh_sent h = absurd (cc)

not_established : (e : E2EState) → is_established e ≡ false → e ≢ established
not_established e h q = absurd (cc (ap is_established q))

-- The offer goes before what the session has: a higher number, or the same and an earlier time.
abbrev pub Supersedes : E2EInit → E2ESession → Type 0
Supersedes i s = (s.seqno < i.seqno) ⊎ ((i.seqno ≡ s.seqno) × (i.timestamp < s.timestamp))

abbrev pub IsOutdated : E2EInit → E2ESession → Type 0
IsOutdated i s = (i.seqno < s.seqno) ⊎ ((i.seqno ≡ s.seqno) × (s.timestamp ≤ i.timestamp))

pub is_newer_cases :
    (i : E2EInit) (s : E2ESession)
    → ((is_newer i s ≡ true) × Supersedes i s) ⊎ ((is_newer i s ≡ false) × IsOutdated i s)
is_newer_cases i s = elim (Bool-cases (ltb s.seqno i.seqno)) [
  | inl a ↦ inl (ground arith, inl (ground arith))
  | inr a ↦ elim (Bool-cases (i.seqno == s.seqno)) [
    | inl b ↦ elim (Bool-cases (ltb i.timestamp s.timestamp)) [
      | inl c ↦ inl (ground arith, inr (ground arith, ground arith))
      | inr c ↦ inr (ground arith, inr (ground arith, ground arith))
    ]
    | inr b ↦ inr (ground arith, inl (ground arith))
  ]
]

module _ (ssl : Ssl) where
  pub establish-established :
      (c : CryptoSession) (peer : List ℕ) {d : CryptoSession}
      → establish ssl c peer ≡ ok d
      → d.established ≡ true
  unfolding establish
  establish-established c peer h = ground arith

  -- Making room for a new key: an established session keeps its crypto session as the old one and
  -- has a new one, and any other has the two that it had.
  abbrev pub Renews : Option (List ℕ) → E2ESession → CryptoSession → CryptoSession → Type 0
  Renews rand s c old =
      ((s.state ≡ established) × (new_crypto ssl rand ≡ ok c) × (old ≡ s.crypto))
      ⊎ ((s.state ≢ established) × (c ≡ s.crypto) × (old ≡ s.old_crypto))

  renew_crypto-Renews :
      (rand : Option (List ℕ)) (s : E2ESession) {u : E2ESession}
      → renew_crypto ssl rand s ≡ ok u
      → Renews rand s u.crypto u.old_crypto
  unfolding renew_crypto
  renew_crypto-Renews rand s {u} h = elim (Bool-cases (is_established s.state)) [
    | inl e ↦
        let h' : (new_crypto ssl rand >>= λ c. ok (record s { old_crypto = s.crypto; crypto = c }))
            ≡ ok u =
          rw e at h in
        let (c, q, h1) = >>=-eq-ok (new_crypto ssl rand) _ h' in
        let kept : u.old_crypto ≡ s.crypto = ground arith in
        let same : c ≡ u.crypto = ground arith in
        inl (is_established-eq s.state e, rw same at q, kept)
    | inr e ↦
        let h' : s ≡ u = ground arith in
        inr
          (not_established s.state e, ap (λ x. x.crypto) (sym h'), ap (λ x. x.old_crypto) (sym h'))
  ]

  -- An offer that was taken: the session is established with the number and the time of the offer, on a
  -- key that is made of the offer's public key and the crypto session that there is or is made for it; and
  -- the answer has the number of the offer and the public key of that crypto session.
  pub record TakenInit (rand : Option (List ℕ)) (i : E2EInit) (s t : E2ESession)
      (r : Option Payload) : Type 0 where
    pub state : t.state ≡ established
    pub seqno : t.seqno ≡ i.seqno
    pub timestamp : t.timestamp ≡ i.timestamp
    pub keyed : t.crypto.established ≡ true
    pub key :
        (c : CryptoSession) × (establish ssl c i.key ≡ ok t.crypto) × Renews rand s c t.old_crypto
    pub answer :
        (k : List ℕ) × (public_key ssl t.crypto ≡ ok k)
        × (r ≡ some (ack_payload (record { seqno = i.seqno; key = k })))

  pub accept_init-TakenInit :
      (rand : Option (List ℕ)) (i : E2EInit) (s : E2ESession) {t : E2ESession} {r : Option Payload}
      → accept_init ssl rand i s ≡ ok (t, r)
      → TakenInit rand i s t r
  unfolding accept_init
  accept_init-TakenInit rand i s {t} {r} h =
      let (u, w, h1) = >>=-eq-ok (renew_crypto ssl rand s) _ h in
      let (c, e, h2) = >>=-eq-ok (establish ssl u.crypto i.key) _ h1 in
      let (k, q, h3) = >>=-eq-ok (public_key ssl c) _ h2 in
      let same : c ≡ t.crypto = ground arith in
      let kept : u.old_crypto ≡ t.old_crypto = ground arith in
      record {
        state = ground arith;
        seqno = ground arith;
        timestamp = ground arith;
        keyed = rw same at (establish-established u.crypto i.key e);
        key = (u.crypto, rw same at e, rw kept at (renew_crypto-Renews rand s w));
        answer = (k, rw same at q, ground arith);
      }
