-- ===== src/Client/Conversation.antt =====
-- Two clients set up an end-to-end session through the server.
use leaky_chat.Prelude.{
  ℕ, ◌+◌, ◌-◌, ◌%◌, ◌^◌, ◌≤◌, ◌<◌, ◌≡◌, ◌≢◌, refl, sym, ap, ◌∙◌, arith, Bool, true, false, List, [],
  ◌∷◌, ◌++◌, Option, none, some, ◌==◌, ltb, ◌||◌, ◌&&◌, inl, inr, Bool-cases, >>=-eq-ok,
  if◌then◌else◌, Outcome, get_elem?, eq_bytes, eq_bytes_iff,
}
use leaky_chat.Prelude
use leaky_chat.Packet.{Header, MessagePacket, message, message_type}
use leaky_chat.Crypto.Agreement.{Digests}
use leaky_chat.Session.{E2ESession}
use leaky_chat.Session.Handshake.{Paired, handshake}
use leaky_chat.Server
use leaky_chat.Server.{Server, Connection, get_sid, can_send}
use leaky_chat.Server.Names.{IsValid}
use leaky_chat.Server.Routing.{handle_message-routes}
use leaky_chat.Client.Monad.{Env, Client, returns, ◌>>=◌}
use leaky_chat.Session.{is_stale}
use leaky_chat.Session.Messages.{IsSealed, decrypt_text-encrypt_text}
use leaky_chat.Buffer.Codec.{e2e_msg}
use leaky_chat.Client.Steps.{
  IsHealthy, find_session-put_session, session_of-missing, session_of-found, initiate-type,
  handle_init-type, with_sent, moved, send_packet-healthy, initiate_e2e_lem, handle_offer,
  handle_answer,
}
use leaky_chat.Client.{
  send_text, decrypt_message, find_session, put_session, initiate_e2e, handle_e2e_packet,
}

routed :
    (from to : ℕ) (sender : List ℕ) (m : MessagePacket) (s : Server) (c : Connection)
    → IsValid s.usernames
    → get_sid sender s.usernames.holders ≡ some from
    → get_sid m.receiver s.usernames.holders ≡ some to
    → get_elem? s.connections to ≡ some c
    → can_send c ≡ true
    → Server.handle_message from m s
      ≡ Prelude.ok (s, (to, message (record m { sender = sender })) ∷ [])
routed from to sender m s c v hf ht hc hs =
    (handle_message-routes from to m s sender c v (v.sound sender from hf) ht hc hs).0

-- Two clients of one server, `a` under the name `na` at socket `sa` and `b` under `nb` at `sb`, have no
-- session with each other. Then `a`'s offer goes through the server to `b` under `a`'s name, `b`'s
-- answer goes back to `a` under `b`'s name, no call fails, and the two sessions are established on one
-- key. It wants that the cipher library, the network and the server's two connections work.
pub setup_through_server :
    (env : Env) (rand : ℕ → Option (List ℕ)) (clock : ℕ → ℕ) (link : ℕ → Outcome Bool)
    → (a b : Client) (s : Server) (sa sb : ℕ) (na nb : List ℕ) (ca cb : Connection)
    → let other = record env { rand = rand; clock = clock; link = link } in
      IsHealthy env
      → IsHealthy other
      → Digests env.ssl
      → env.limits.bytes 256 ≡ true
      → (a.online ≡ true) × (find_session nb a.sessions ≡ none)
      → (b.online ≡ true) × (find_session na b.sessions ≡ none)
      → IsValid s.usernames
      → (get_sid na s.usernames.holders ≡ some sa)
        × (get_elem? s.connections sa ≡ some ca)
        × (can_send ca ≡ true)
      → (get_sid nb s.usernames.holders ≡ some sb)
        × (get_elem? s.connections sb ≡ some cb)
        × (can_send cb ≡ true)
      → (offer answer : MessagePacket) × (a1 a2 b1 : Client) × (t u : E2ESession) × (initiate_e2e
            env nb a
          ≡ returns true a1)
        × (a1.sent ≡ a.sent ++ (message offer ∷ []))
        × (Server.handle_message sa offer s
            ≡ Prelude.ok (s, (sb, message (record offer { sender = na })) ∷ []))
        × (handle_e2e_packet other (record offer { sender = na }) b ≡ returns tt b1)
        × (b1.sent ≡ b.sent ++ (message answer ∷ []))
        × (Server.handle_message sb answer s
            ≡ Prelude.ok (s, (sa, message (record answer { sender = nb })) ∷ []))
        × (handle_e2e_packet env (record answer { sender = nb }) a1 ≡ returns tt a2)
        × (find_session nb a2.sessions ≡ some t)
        × (find_session na b1.sessions ≡ some u)
        × Paired t u
setup_through_server env rand clock link a b s sa sb na nb ca cb va vb digests hl (ua, fa) (ub, fb)
      v (ha, ga, oa) (hb, gb, ob) =
    let other : Env = record env { rand = rand; clock = clock; link = link } in
    let now : ℕ = env.clock (a.asked + 1 + 1) in
    let (x, ex, wx) = session_of-missing env nb a va fa in
    let (y, ey, wy) = session_of-missing other na b vb fb in
    let (x', y', z, o, k, e1, e2, e3, paired) =
      handshake env.ssl env.limits now (rand (b.asked + 1 + 1)) x y digests wx.crypto wy.crypto
        (rw wy.state) (omega (arith, wx.seqno, wy.seqno)) (omega (arith, wx.seqno))
        (va.clock (a.asked + 1 + 1)) hl in
    let a1 : Client = with_sent nb o (moved nb x x' a) in
    let b1 : Client = with_sent na k (moved na y y' b) in
    let head : ℕ → Header = λ n. record { packet_type = message_type; seq = n } in
    let offer : MessagePacket = record {
      head = head a.cur_seqno;
      sender = [];
      receiver = nb;
      payload = o;
    } in
    let answer : MessagePacket = record {
      head = head b.cur_seqno;
      sender = [];
      receiver = na;
      payload = k;
    } in
    let found : find_session nb a1.sessions ≡ some x' =
      find_session-put_session nb x' (put_session nb x a.sessions) in
    (
      offer,
      answer,
      a1,
      record a1 { sessions = put_session nb z a1.sessions },
      b1,
      z,
      y',
      initiate_e2e_lem env nb a va ua x x' o fa ex e1,
      refl,
      routed sa sb na offer s cb v ha hb gb ob,
      handle_offer other na b vb ub y y' (record offer { sender = na }) k refl
          (initiate-type env.ssl now x x' o e1) ey e2,
      refl,
      routed sb sa nb answer s ca v hb ha ga oa,
      handle_answer env nb a1 va ua x' z (record answer { sender = nb }) refl
          (handle_init-type env.ssl env.limits (rand (b.asked + 1 + 1)) o y y' k e2) found e3,
      find_session-put_session nb z a1.sessions,
      find_session-put_session na y' (put_session na y b.sessions),
      paired,
    )

-- Between paired sessions that are not stale, a text of `a` to its partner `b` goes out sealed, through the server to `b`'s
-- socket under `a`'s name, and `b` reads the text that `a` sent. It wants that OpenSSL seals it, the
-- connections work, and that `b` has the memory for it.
pub text_through_server :
    (env : Env) (rand : ℕ → Option (List ℕ)) (clock : ℕ → ℕ) (link : ℕ → Outcome Bool)
    → (fuel : ℕ) (a b : Client) (t u : E2ESession) (s : Server) (sa sb : ℕ) (na : List ℕ)
      (cb : Connection)
    → (str nonce cipher tag : List ℕ) → IsHealthy env
    → (a.online ≡ true) × (find_session a.partner a.sessions ≡ some t)
    → find_session na b.sessions ≡ some u
    → Paired t u
    → t.seqno < 2 ^ 32
    → is_stale env.minute (env.clock a.asked) t ≡ false
    → env.rand (a.asked + 1) ≡ some nonce
    → IsSealed env.ssl env.limits nonce str cipher tag t.crypto.key
    → IsValid s.usernames
    → get_sid na s.usernames.holders ≡ some sa
    → (get_sid a.partner s.usernames.holders ≡ some sb)
      × (get_elem? s.connections sb ≡ some cb)
      × (can_send cb ≡ true)
    → (m : MessagePacket) × (a1 : Client) × (send_text env fuel str a ≡ returns a.cur_seqno a1)
      × (a1.sent ≡ a.sent ++ (message m ∷ []))
      × (m.payload.type ≡ e2e_msg)
      × (Server.handle_message sa m s
          ≡ Prelude.ok (s, (sb, message (record m { sender = na })) ∷ []))
      × (decrypt_message
            (record env { rand = rand; clock = clock; link = link })
            (record m { sender = na })
            b
          ≡ returns str b)
unfolding send_text decrypt_message
text_through_server env rand clock link fuel a b t u s sa sb na cb str nonce cipher tag va (ua, fa)
      fb paired hn fresh hr sealed v ha (hb, gb, ob) =
    let (pl, e, k, d) =
      decrypt_text-encrypt_text env.ssl env.limits nonce str cipher tag t u sealed paired hn in
    let m : MessagePacket = record {
      head = record { packet_type = message_type; seq = a.cur_seqno };
      sender = [];
      receiver = a.partner;
      payload = pl;
    } in
    let other : Env = record env { rand = rand; clock = clock; link = link } in
    let asking : Client = record a { cur_seqno = (a.cur_seqno + 1) % 2 ^ 64 } in
    let again : Client = record asking { asked = a.asked + 1 } in
    let ready : Client = record asking { asked = a.asked + 1 + 1 } in
    (
      m,
      record ready { sent = a.sent ++ (message m ∷ []); asked = a.asked + 1 + 1 + 1 },
      rw (
        ◌>>=◌,
        session_of-found env a.partner t asking fa,
        fresh,
        session_of-found env a.partner t again fa,
        hr,
        e,
        send_packet-healthy env (message m) ready va ua,
      ),
      refl,
      k,
      routed sa sb na m s cb v ha hb gb ob,
      rw (decrypt_message, ◌>>=◌, session_of-found other na u b fb, d),
    )
