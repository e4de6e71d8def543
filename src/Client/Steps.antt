-- ===== src/Client/Steps.antt =====
-- The single steps of a client that sets up a session, when nothing fails.
use leaky_chat.Prelude.{
  ℕ, ◌+◌, ◌-◌, ◌%◌, ◌^◌, ◌≤◌, ◌<◌, ◌≡◌, ◌≢◌, refl, sym, ap, ◌∙◌, arith, Bool, true, false, List, [],
  ◌∷◌, ◌++◌, Option, none, some, ◌==◌, ltb, ◌||◌, ◌&&◌, inl, inr, Bool-cases, >>=-eq-ok,
  if◌then◌else◌, Outcome, get_elem?, eq_bytes, eq_bytes_iff,
}
use leaky_chat.Prelude
use leaky_chat.Buffer.Codec.{Limits, Payload, e2e_init, e2e_ack}
use leaky_chat.Packet.{Packet, MessagePacket}
use leaky_chat.Crypto.{Ssl, public_key, establish}
use leaky_chat.Crypto.Agreement.{IsFresh, new_crypto-IsFresh}
use leaky_chat.Session.{
  E2ESession, E2EState, new_session, initiate, handle_init, handle_ack, accept_init, renew_crypto,
  is_newer,
}
use leaky_chat.Session.Payloads.{init_payload, ack_payload, get_init}
use leaky_chat.Client.Monad.{Env, Client, returns, send_packet, ◌>>=◌}
use leaky_chat.Client.{
  find_session, put_session, session_of, offer_to, initiate_e2e, handle_e2e_packet, handle_e2e_init,
  handle_e2e_ack, message_to,
}

pub find_session-put_session :
    (peer : List ℕ) (s : E2ESession) (m : List (List ℕ × E2ESession))
    → find_session peer (put_session peer s m) ≡ some s
unfolding find_session put_session
find_session-put_session peer s [] = ground (arith, eq_bytes_iff peer peer)
find_session-put_session peer s ((k, t) ∷ rest) =
    ground
      (arith, eq_bytes_iff peer peer, eq_bytes_iff k peer, find_session-put_session peer s rest)

-- An environment in which nothing fails.
pub record IsHealthy (env : Env) : Type 0 where
  pub rand : (n : ℕ) → (bytes : List ℕ) × (env.rand n ≡ some bytes)
  pub clock : (n : ℕ) → env.clock n < 2 ^ 64
  pub link : (n : ℕ) → env.link n ≡ Prelude.ok true

-- A session that was just made.
pub record IsNew (ssl : Ssl) (s : E2ESession) : Type 0 where
  pub crypto : IsFresh ssl s.crypto
  pub state : s.state ≡ E2EState.uninitialized
  pub seqno : s.seqno ≡ 0

new_session-IsNew :
    (ssl : Ssl) (r r' : List ℕ)
    → (s : E2ESession) × (new_session ssl (some r) (some r') ≡ Prelude.ok s) × IsNew ssl s
unfolding new_session
new_session-IsNew ssl r r' =
    let (c, e, v) = new_crypto-IsFresh ssl r in
    let (o, k, w) = new_crypto-IsFresh ssl r' in
    (
      record {
        crypto = c;
        old_crypto = o;
        timestamp = 2 ^ 64 - 1;
        state = E2EState.uninitialized;
        seqno = 0;
      },
      rw (e, k),
      record { crypto = v; state = refl; seqno = refl },
    )

-- A client that knows no session with the peer, after it has made one.
abbrev with_session : List ℕ → E2ESession → ℕ → Client → Client
with_session peer s asked c = record c { sessions = put_session peer s c.sessions; asked = asked }

pub session_of-missing :
    (env : Env) (peer : List ℕ) (c : Client)
    → IsHealthy env
    → find_session peer c.sessions ≡ none
    → (s : E2ESession) × (session_of env peer c
        ≡ returns s (with_session peer s (c.asked + 1 + 1) c))
      × IsNew env.ssl s
unfolding session_of
session_of-missing env peer c v h =
    let (r, e) = v.rand c.asked in
    let (r', e') = v.rand (c.asked + 1) in
    let (s, k, w) = new_session-IsNew env.ssl r r' in (s, rw (session_of, h, e, e', k), w)

pub session_of-found :
    (env : Env) (peer : List ℕ) (s : E2ESession) (c : Client)
    → find_session peer c.sessions ≡ some s
    → session_of env peer c ≡ returns s c
unfolding session_of
session_of-found env peer s c h = rw (session_of, h)

pub initiate-type :
    (ssl : Ssl) (now : ℕ) (s t : E2ESession) (pl : Payload)
    → initiate ssl now s ≡ Prelude.ok (t, pl)
    → pl.type ≡ e2e_init
unfolding initiate init_payload
initiate-type ssl now s t pl h =
    let (k, _, e) = >>=-eq-ok (public_key ssl s.crypto) _ h in ground arith

pub handle_init-type :
    (ssl : Ssl) (lim : Limits) (rand : Option (List ℕ)) (offer : Payload) (s t : E2ESession)
    (pl : Payload)
    → handle_init ssl lim rand offer s ≡ Prelude.ok (t, some pl)
    → pl.type ≡ e2e_ack
unfolding handle_init accept_init ack_payload
handle_init-type ssl lim rand offer s t pl h =
    let (i, _, e) = >>=-eq-ok (get_init lim offer) _ h in
    elim (Bool-cases (is_newer i s)) [
      | inl n ↦
          let e' : accept_init ssl rand i s ≡ Prelude.ok (t, some pl) =
            unfold accept_init in ground arith in
          let (u, _, e1) = >>=-eq-ok (renew_crypto ssl rand s) _ e' in
          let (c, _, e2) = >>=-eq-ok (establish ssl u.crypto i.key) _ e1 in
          let (k, _, e3) = >>=-eq-ok (public_key ssl c) _ e2 in ground arith
      | inr n ↦ absurd (ground arith)
    ]

-- A numbered message that the client has sent.
abbrev pub with_sent : List ℕ → Payload → Client → Client
with_sent peer pl c = record c {
  cur_seqno = (c.cur_seqno + 1) % 2 ^ 64;
  sent = c.sent ++ (message_to peer pl c.cur_seqno ∷ []);
  asked = c.asked + 1;
}

pub send_packet-healthy :
    (env : Env) (p : Packet) (c : Client)
    → IsHealthy env
    → c.online ≡ true
    → send_packet env p c
      ≡ returns true (record c { sent = c.sent ++ (p ∷ []); asked = c.asked + 1 })
unfolding send_packet
send_packet-healthy env p c v h = ground (arith, h, v.link c.asked)

-- A client after `calls` questions, with `s` as its session with the peer.
abbrev pub moved : List ℕ → E2ESession → E2ESession → Client → Client
moved peer s s' c = record c {
  sessions = put_session peer s' (put_session peer s c.sessions);
  asked = c.asked + 1 + 1 + 1;
}

module _ (env : Env) (peer : List ℕ) (c : Client) (healthy : IsHealthy env)
    (up : c.online ≡ true) where
  pub initiate_e2e_lem :
      (s s' : E2ESession) (pl : Payload)
      → find_session peer c.sessions ≡ none
      → session_of env peer c ≡ returns s (with_session peer s (c.asked + 1 + 1) c)
      → initiate env.ssl (env.clock (c.asked + 1 + 1)) s ≡ Prelude.ok (s', pl)
      → initiate_e2e env peer c ≡ returns true (with_sent peer pl (moved peer s s' c))
  unfolding initiate_e2e offer_to
  initiate_e2e_lem s s' pl h e k =
      rw (h, offer_to, ◌>>=◌, e, k)
        (send_packet-healthy env (message_to peer pl c.cur_seqno)
          (record (moved peer s s' c) { cur_seqno = (c.cur_seqno + 1) % 2 ^ 64 }) healthy up)

  pub handle_offer :
      (s s' : E2ESession) (p : MessagePacket) (pl : Payload)
      → p.sender ≡ peer
      → p.payload.type ≡ e2e_init
      → session_of env peer c ≡ returns s (with_session peer s (c.asked + 1 + 1) c)
      → handle_init env.ssl env.limits (env.rand (c.asked + 1 + 1)) p.payload s
        ≡ Prelude.ok (s', some pl)
      → handle_e2e_packet env p c ≡ returns tt (with_sent peer pl (moved peer s s' c))
  unfolding handle_e2e_packet handle_e2e_init
  handle_offer s s' p pl from t e k =
      let q : (p.payload.type == e2e_init) ≡ true = ground arith in
      let sends =
        send_packet-healthy env (message_to peer pl c.cur_seqno)
          (record (moved peer s s' c) { cur_seqno = (c.cur_seqno + 1) % 2 ^ 64 }) healthy up in
      rw (q, from, ◌>>=◌, e, k, from, sends)

  pub handle_answer :
      (s s' : E2ESession) (p : MessagePacket)
      → p.sender ≡ peer
      → p.payload.type ≡ e2e_ack
      → find_session peer c.sessions ≡ some s
      → handle_ack env.ssl env.limits p.payload s ≡ Prelude.ok s'
      → handle_e2e_packet env p c
        ≡ returns tt (record c { sessions = put_session peer s' c.sessions })
  unfolding handle_e2e_packet handle_e2e_ack
  handle_answer s s' p from t e k =
      let q : (p.payload.type == e2e_init) ≡ false = ground arith in
      let q' : (p.payload.type == e2e_ack) ≡ true = ground arith in
      rw (q, q', from, ◌>>=◌, session_of-found env peer s c e, k, from)
