-- ===== src/Session/Machine.antt =====
-- What the handlers of a session do, and which states they keep.
use leaky_chat.Prelude.{
  ℕ, ◌≡◌, ◌⊎◌, refl, arith, true, false, Option, none, some, List, ok, ◌>>=◌, >>=-eq-ok, Bool-cases,
  inl, inr, ◌==◌,
}
use leaky_chat.Buffer.Codec.{Limits, Payload}
use leaky_chat.Crypto.{Ssl, CryptoSession, new_crypto, establish, public_key}
use leaky_chat.Session.{
  E2ESession, established, is_established, is_waiting, is_newer, initiate, refresh, handle_init,
  accept_ack, handle_ack,
}
use leaky_chat.Session.Payloads.{E2EInit, E2EAck, get_init, get_ack}
use leaky_chat.Session.Offers.{
  Supersedes, IsOutdated, is_newer_cases, TakenInit, accept_init-TakenInit, establish-established,
}

-- The session has a key exactly in the state ESTABLISHED.
abbrev pub IsConsistent : E2ESession → Type 0
IsConsistent s = s.crypto.established ≡ is_established s.state

module _ (ssl : Ssl) where
  new_crypto-idle :
      (rand : Option (List ℕ)) {c : CryptoSession}
      → new_crypto ssl rand ≡ ok c
      → c.established ≡ false
  unfolding new_crypto
  new_crypto-idle rand h = ground arith

  -- `handleInit` on any offer that it can read, when it returns. An offer with a higher number than the
  -- session's, or with the same number and an earlier time, is taken: the session is then established
  -- with its number and time on a key made with its public key, keeps the key that it had, if it had one,
  -- as the old one, and answers with that number and its own public key. Any other offer is refused with
  -- no answer and no change.
  pub handle_init_cases :
      (lim : Limits) (rand : Option (List ℕ)) (pl : Payload) (i : E2EInit) (s t : E2ESession)
      (r : Option Payload)
      → get_init lim pl ≡ ok i
      → handle_init ssl lim rand pl s ≡ ok (t, r)
      → (Supersedes i s × TakenInit ssl rand i s t r) ⊎ (IsOutdated i s × (t ≡ s) × (r ≡ none))
  unfolding handle_init
  handle_init_cases lim rand pl i s t r e h = elim (is_newer_cases i s) [
    | inl (n, o) ↦ inl (o, accept_init-TakenInit ssl rand i s {r = r} (ground arith))
    | inr (n, o) ↦ inr (o, ground arith, ground arith)
  ]

  accept_ack_cases :
      (a : E2EAck) (s t : E2ESession)
      → accept_ack ssl a s ≡ ok t
      → (t.seqno ≡ s.seqno)
        × (t.timestamp ≡ s.timestamp)
        × (t.old_crypto ≡ s.old_crypto)
        × ((t ≡ s)
            ⊎ ((a.seqno ≡ s.seqno) × (t.state ≡ established) × (t.crypto.established ≡ true)))
  unfolding accept_ack
  accept_ack_cases a s t h = elim (Bool-cases (a.seqno == s.seqno)) [
    | inl q ↦
        let h' : (establish ssl s.crypto a.key >>= λ c.
        ok (record s { crypto = c; state = established }))
            ≡ ok t =
          ground arith in
        let (c, e, k) = >>=-eq-ok (establish ssl s.crypto a.key) _ h' in
        let b : c.established ≡ true = establish-established ssl s.crypto a.key e in
        (ground arith, ground arith, ground arith, inr (ground arith, ground arith, ground arith))
    | inr q ↦ let e : t ≡ s = ground arith in rw e (refl, refl, refl, inl refl)
  ]

  -- An answer that was taken: the session waited, the answer carries its number, and it has a key now.
  pub record TakenAck (lim : Limits) (pl : Payload) (s t : E2ESession) : Type 0 where
    pub waits : is_waiting s.state ≡ true
    pub answer : (a : E2EAck) × (get_ack lim pl ≡ ok a) × (a.seqno ≡ s.seqno)
    pub state : t.state ≡ established
    pub keyed : t.crypto.established ≡ true

  -- `handleAck`: only a session that waits, and only the answer to its own last offer, changes it;
  -- then it is established with a key. Number, time and old key stay in any case.
  pub handle_ack_cases :
      (lim : Limits) (pl : Payload) (s t : E2ESession)
      → handle_ack ssl lim pl s ≡ ok t
      → (t.seqno ≡ s.seqno)
        × (t.timestamp ≡ s.timestamp)
        × (t.old_crypto ≡ s.old_crypto)
        × ((t ≡ s) ⊎ TakenAck lim pl s t)
  unfolding handle_ack
  handle_ack_cases lim pl s t h = elim (Bool-cases (is_waiting s.state)) [
    | inl w ↦
        let h' : (get_ack lim pl >>= λ a. accept_ack ssl a s) ≡ ok t = ground arith in
        let (a, e, h'') = >>=-eq-ok (get_ack lim pl) _ h' in
        let (n, u, o, r) = accept_ack_cases a s t h'' in
        (
          n,
          u,
          o,
          elim r [
            | inl same ↦ inl same
            | inr (q, st, k) ↦ inr (record { waits = w; answer = (a, e, q); state = st; keyed = k })
          ],
        )
    | inr w ↦ let e : t ≡ s = ground arith in rw e (refl, refl, refl, inl refl)
  ]

  -- Asking for new keys leaves the state and the key in step, whatever they were before.
  pub refresh-IsConsistent :
      (rand : Option (List ℕ)) (now : ℕ) (s : E2ESession) {t : E2ESession} {pl : Payload}
      → refresh ssl rand now s ≡ ok (t, pl)
      → IsConsistent t
  unfolding refresh
  refresh-IsConsistent rand now s {t} {pl} h =
      let (c, e, h1) = >>=-eq-ok (new_crypto ssl rand) _ h in
      let (k, _, h2) = >>=-eq-ok (public_key ssl c) _ h1 in ground (arith, new_crypto-idle rand e)

  -- So does the first offer of a session that is not established.
  pub initiate-IsConsistent :
      (now : ℕ) (s : E2ESession) {t : E2ESession} {pl : Payload}
      → is_established s.state ≡ false
      → IsConsistent s
      → initiate ssl now s ≡ ok (t, pl)
      → IsConsistent t
  unfolding initiate
  initiate-IsConsistent now s {t} {pl} f v h =
      let (k, _, h1) = >>=-eq-ok (public_key ssl s.crypto) _ h in ground arith

pub refused :
    (ssl : Ssl) (lim : Limits) (rand : Option (List ℕ)) (pl : Payload) (i : E2EInit)
    (s : E2ESession)
    → get_init lim pl ≡ ok i
    → is_newer i s ≡ false
    → handle_init ssl lim rand pl s ≡ ok (s, none)
unfolding handle_init
refused ssl lim rand pl i s e n = rw (e, ◌>>=◌, n)

-- After an offer is taken, the same payload sent again is refused: it changes nothing and is not
-- answered.
pub handle_init_replayed :
    (ssl : Ssl) (lim : Limits) (rand rand' : Option (List ℕ)) (pl : Payload) (s t : E2ESession)
    (ack : Payload)
    → handle_init ssl lim rand pl s ≡ ok (t, some ack)
    → handle_init ssl lim rand' pl t ≡ ok (t, none)
unfolding handle_init
handle_init_replayed ssl lim rand rand' pl s t ack h =
    let (i, e, _) = >>=-eq-ok (get_init lim pl) _ h in
    elim (handle_init_cases ssl lim rand pl i s t (some ack) e h) [
      | inl (_, v) ↦ refused ssl lim rand' pl i t e (ground arith)
      | inr (_, _, q) ↦ absurd (cc)
    ]

-- Two sessions whose offers cross with the same number and the same time both refuse the other's
-- offer, and neither is answered.
crossing_stuck :
    (ssl : Ssl) (lim : Limits) (rand rand' : Option (List ℕ)) (pa pb : Payload) (i j : E2EInit)
    (a b : E2ESession)
    → get_init lim pa ≡ ok i
    → get_init lim pb ≡ ok j
    → (i.seqno ≡ a.seqno) × (i.timestamp ≡ a.timestamp)
    → (j.seqno ≡ b.seqno) × (j.timestamp ≡ b.timestamp)
    → a.seqno ≡ b.seqno
    → a.timestamp ≡ b.timestamp
    → (handle_init ssl lim rand pa b ≡ ok (b, none))
      × (handle_init ssl lim rand' pb a ≡ ok (a, none))
crossing_stuck ssl lim rand rand' pa pb i j a b ei ej hi hj hs ht =
    (refused ssl lim rand pa i b ei (ground arith), refused ssl lim rand' pb j a ej (ground arith))
