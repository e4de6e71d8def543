-- ===== src/Session/Crossing.antt =====
-- Offers of two sessions that cross on the way.
use leaky_chat.Prelude.{ℕ, ◌^◌, ◌<◌, ◌≡◌, refl, arith, true, false, Option, none, some, List, ok}
use leaky_chat.Buffer.Codec.{Limits, Payload}
use leaky_chat.Crypto.{Ssl, public_key}
use leaky_chat.Crypto.Agreement.{Digests, IsFresh, crypto_agreement}
use leaky_chat.Session.{
  E2ESession, init_sent, is_newer, initiate, handle_init, handle_ack, next_seqno,
}
use leaky_chat.Session.Payloads.{E2EInit, init_payload, get_init}
use leaky_chat.Session.Codec.{get_init-init_payload}
use leaky_chat.Session.Handshake.{Paired, OnOffer, exchange}
use leaky_chat.Session.Machine.{refused}

-- Two sessions with the same number and new crypto sessions make an offer each, one later than the
-- other, before either has the other's offer. The side that offered later takes the earlier offer and
-- answers it, the side that offered earlier refuses the later one without a change, be it before or after
-- the answer comes, and takes the answer. No call fails, and the two are then paired on one key, with the
-- number and the time of the earlier offer. It wants memory for a key.
pub crossing_offers :
    (ssl : Ssl) (lim : Limits) (now now' : ℕ) (rand rand' : Option (List ℕ)) (a b : E2ESession)
    → Digests ssl
    → IsFresh ssl a.crypto
    → IsFresh ssl b.crypto
    → a.seqno ≡ b.seqno
    → now < now'
    → now' < 2 ^ 64
    → lim.bytes 256 ≡ true
    → (a' b' a'' b'' : E2ESession) × (early late answer : Payload) × (initiate ssl now a
        ≡ ok (a', early))
      × (initiate ssl now' b ≡ ok (b', late))
      × (handle_init ssl lim rand early b' ≡ ok (b'', some answer))
      × (handle_init ssl lim rand' late a' ≡ ok (a', none))
      × (handle_ack ssl lim answer a' ≡ ok a'')
      × (handle_init ssl lim rand' late a'' ≡ ok (a'', none))
      × Paired a'' b''
      × OnOffer (next_seqno a.seqno) now a''
      × OnOffer (next_seqno a.seqno) now b''
unfolding initiate public_key
crossing_offers ssl lim now now' rand rand' a b digests va vb hs ht hn hl =
    let (_, pb, _, _, eb, _, lb, _, _) = crypto_agreement ssl digests a.crypto b.crypto va vb in
    let n : ℕ = next_seqno b.seqno in
    let j : E2EInit = record { seqno = n; timestamp = now'; key = pb } in
    let b' : E2ESession = record b { seqno = n; state = init_sent; timestamp = now' } in
    let read_late : get_init lim (init_payload j) ≡ ok j =
      get_init-init_payload lim j (omega arith) hn (omega (arith, lb)) (rw lb hl) in
    let (a', b'', a'', early, answer, e, f, g, p, oa, oc, ob) =
      exchange ssl lim now rand a b' digests va vb refl (λ key. ground arith) (omega arith) hl in
    let kept : is_newer j a' ≡ false = ground (arith, oa.seqno, oa.timestamp) in
    let kept' : is_newer j a'' ≡ false = ground (arith, oc.seqno, oc.timestamp) in
    (
      a',
      b',
      a'',
      b'',
      early,
      init_payload j,
      answer,
      e,
      rw eb,
      f,
      refused ssl lim rand' (init_payload j) j a' read_late kept,
      g,
      refused ssl lim rand' (init_payload j) j a'' read_late kept',
      p,
      oc,
      ob,
    )
