-- ===== src/Session/Handshake.antt =====
-- Two sessions that exchange an offer and its answer, and the messages between them afterwards.
use leaky_chat.Prelude.{
  ℕ, ◌+◌, ◌^◌, ◌<◌, ◌≤◌, ◌≡◌, refl, arith, true, false, Option, some, List, ok, ◌>>=◌, ◌==◌,
}
use leaky_chat.Buffer.Codec.{Limits, Payload}
use leaky_chat.Crypto.{Ssl, CryptoSession, public_key}
use leaky_chat.Crypto.Agreement.{Digests, IsFresh, crypto_agreement}
use leaky_chat.Session.{
  E2ESession, init_sent, established, is_established, is_newer, initiate, renew_crypto, accept_init,
  handle_init, accept_ack, handle_ack, next_seqno,
}
use leaky_chat.Session.Payloads.{E2EInit, E2EAck, init_payload, ack_payload, get_init, get_ack}
use leaky_chat.Session.Codec.{get_init-init_payload, get_ack-ack_payload}

-- Both sides are established, on the same number and key.
pub record Paired (s t : E2ESession) : Type 0 where
  pub states : (s.state ≡ established) × (t.state ≡ established)
  pub keyed : (s.crypto.established ≡ true) × (t.crypto.established ≡ true)
  pub seqno : s.seqno ≡ t.seqno
  pub key : s.crypto.key ≡ t.crypto.key

-- The session has the number and the time of an offer.
pub record OnOffer (n now : ℕ) (s : E2ESession) : Type 0 where
  pub seqno : s.seqno ≡ n
  pub timestamp : s.timestamp ≡ now

-- The offer of one session to another that is not established and for which it is newer, and the
-- answer to it: no call fails, and the two are paired, on the number and the time of the offer.
pub exchange :
    (ssl : Ssl) (lim : Limits) (now : ℕ) (rand : Option (List ℕ)) (a b : E2ESession)
    → Digests ssl
    → IsFresh ssl a.crypto
    → IsFresh ssl b.crypto
    → is_established b.state ≡ false
    → ((key : List ℕ)
        → is_newer (record { seqno = next_seqno a.seqno; timestamp = now; key = key }) b ≡ true)
    → now < 2 ^ 64
    → lim.bytes 256 ≡ true
    → (a' b' a'' : E2ESession) × (offer answer : Payload) × (initiate ssl now a ≡ ok (a', offer))
      × (handle_init ssl lim rand offer b ≡ ok (b', some answer))
      × (handle_ack ssl lim answer a' ≡ ok a'')
      × Paired a'' b'
      × OnOffer (next_seqno a.seqno) now a'
      × OnOffer (next_seqno a.seqno) now a''
      × OnOffer (next_seqno a.seqno) now b'
unfolding initiate handle_init accept_init renew_crypto handle_ack accept_ack public_key
exchange ssl lim now rand a b digests va vb idle hn ht hl =
    let (pa, pb, key, ea, eb, la, lb, ka, kb) =
      crypto_agreement ssl digests a.crypto b.crypto va vb in
    let n : ℕ = next_seqno a.seqno in
    let i : E2EInit = record { seqno = n; timestamp = now; key = pa } in
    let k : E2EAck = record { seqno = n; key = pb } in
    let ca : CryptoSession = record a.crypto { key = key; established = true } in
    let cb : CryptoSession = record b.crypto { key = key; established = true } in
    let small : n < 2 ^ 32 = omega arith in
    let read_offer : get_init lim (init_payload i) ≡ ok i =
      get_init-init_payload lim i small ht (omega (arith, la)) (rw la hl) in
    let read_answer : get_ack lim (ack_payload k) ≡ ok k =
      get_ack-ack_payload lim k small (omega (arith, lb)) (rw lb hl) in
    let same : (n == n) ≡ true = ground arith in
    let a' : E2ESession = record a { seqno = n; state = init_sent; timestamp = now } in
    (
      a',
      record b { crypto = cb; state = established; timestamp = now; seqno = n },
      record a' { crypto = ca; state = established },
      init_payload i,
      ack_payload k,
      rw ea,
      rw (read_offer, ◌>>=◌, hn pa, idle, kb) (rw eb),
      rw (read_answer, ◌>>=◌) (rw (accept_ack, same, ka)),
      record { states = (refl, refl); keyed = (refl, refl); seqno = refl; key = refl },
      record { seqno = refl; timestamp = refl },
      record { seqno = refl; timestamp = refl },
      record { seqno = refl; timestamp = refl },
    )

-- The offer of one session, taken by the other, and its answer leave the two paired; no call fails.
-- It wants new crypto sessions on both sides, a peer that is not yet established and whose number is
-- not ahead, a number below the last of its 32 bits, and memory for a key.
pub handshake :
    (ssl : Ssl) (lim : Limits) (now : ℕ) (rand : Option (List ℕ)) (a b : E2ESession)
    → Digests ssl
    → IsFresh ssl a.crypto
    → IsFresh ssl b.crypto
    → is_established b.state ≡ false
    → b.seqno ≤ a.seqno
    → a.seqno + 1 < 2 ^ 32
    → now < 2 ^ 64
    → lim.bytes 256 ≡ true
    → (a' b' a'' : E2ESession) × (offer answer : Payload) × (initiate ssl now a ≡ ok (a', offer))
      × (handle_init ssl lim rand offer b ≡ ok (b', some answer))
      × (handle_ack ssl lim answer a' ≡ ok a'')
      × Paired a'' b'
handshake ssl lim now rand a b digests va vb idle hn hs ht hl =
    let (a', b', a'', offer, answer, e, f, g, p, _, _, _) =
      exchange ssl lim now rand a b digests va vb idle (λ key. ground arith) ht hl in
    (a', b', a'', offer, answer, e, f, g, p)
