-- ===== src/Client/Delivery.antt =====
-- From a typed line of one user to the screen of another: chat/UI.cpp, chat/client.cpp and
-- chat/server.cpp together.
use leaky_chat.Prelude.{
  ℕ, suc, ◌+◌, ◌-◌, ◌%◌, ◌^◌, ◌≤◌, ◌<◌, ◌≡◌, refl, sym, ap, ◌∙◌, arith, Bool, true, false, List, [],
  ◌∷◌, ◌++◌, Option, none, some, All, ◌==◌, ◌||◌, ◌&&◌, if◌then◌else◌, Outcome, get_elem?, not,
  length,
}
use leaky_chat.Prelude
use leaky_chat.Buffer.Codec.{is_e2e_control, e2e_msg}
use leaky_chat.Packet.{MessagePacket, message}
use leaky_chat.Session.{E2ESession, is_stale}
use leaky_chat.Session.Handshake.{Paired}
use leaky_chat.Session.Messages.{IsSealed}
use leaky_chat.Server
use leaky_chat.Server.{Server, Connection, get_sid, can_send}
use leaky_chat.Server.Names.{IsValid}
use leaky_chat.Ui.{
  Ui, ClientRequest, send_message, sent_as, add_message, try_get_request, process_input,
}
use leaky_chat.Ui.Editing.{IsPrintable}
use leaky_chat.Ui.Sending.{IsNameCharacter, typed_message}
use leaky_chat.Client.Monad.{Env, Client, returns, delivers, ◌>>=◌, poll, receive}
use leaky_chat.Client.{find_session, connect_to, send_text, decrypt_message}
use leaky_chat.Client.Loop.{handle_request, serve_requests, handle_packet, drain}
use leaky_chat.Client.Waiting.{listening}
use leaky_chat.Client.Steps.{IsHealthy}
use leaky_chat.Client.Conversation.{text_through_server}

-- A client that chose its partner and looked at the clock.
abbrev pub facing : List ℕ → Client → Client
facing peer c = record c { partner = peer; asked = c.asked + 1 }

connect_to_fresh :
    (env : Env) (fuel : ℕ) (peer : List ℕ) (t : E2ESession) (c : Client)
    → find_session peer c.sessions ≡ some t
    → is_stale env.minute (env.clock c.asked) t ≡ false
    → connect_to env fuel peer c ≡ returns true (facing peer c)
unfolding connect_to
connect_to_fresh env fuel peer t c h e = rw (h, e)

-- The request to send a text, served by a client.
abbrev pub text_request : ℕ → List ℕ → List ℕ → ClientRequest
text_request id peer str = record { type = send_message; id = id; username = peer; message = str }

handle_request-send_text :
    (env : Env) (fuel id : ℕ) (peer str : List ℕ) (ui : Ui) (c c' : Client) (seq : ℕ)
    → connect_to env fuel peer c ≡ returns true (facing peer c)
    → send_text env fuel str (facing peer c) ≡ returns seq c'
    → handle_request env fuel (text_request id peer str) ui c ≡ returns (ui, true) c'
unfolding handle_request
handle_request-send_text env fuel id peer str ui c c' seq h e = rw (◌>>=◌, h, e)

-- One text on its way to the screen.
drain-text :
    (env : Env) (fuel rounds : ℕ) (m : MessagePacket) (str : List ℕ) (ui : Ui) (b : Client)
    → m.payload.type ≡ e2e_msg
    → decrypt_message env m (listening [] b) ≡ returns str (listening [] b)
    → drain env fuel (suc (suc rounds)) ui (listening (delivers (message m) ∷ []) b)
      ≡ returns (add_message (sent_as 0 m.sender str) ui) (listening [] b)
unfolding drain handle_packet poll receive is_e2e_control
drain-text env fuel rounds m str ui b h e =
    let plain : is_e2e_control m.payload ≡ false = ground arith in
    rw (poll, receive, handle_packet, plain, ◌>>=◌, e)

try_get_request_one :
    (r : ClientRequest) (ui : Ui)
    → ui.running ≡ true
    → ui.requests ≡ r ∷ []
    → try_get_request ui ≡ (some r, record ui { requests = [] })
unfolding try_get_request
try_get_request_one r ui up h = simp (up, h)

try_get_request_empty :
    (ui : Ui)
    → ui.running ≡ true
    → try_get_request (record ui { requests = [] }) ≡ (none, record ui { requests = [] })
unfolding try_get_request
try_get_request_empty ui up = simp up

serve_one :
    (env : Env) (fuel rounds : ℕ) (r : ClientRequest) (ui : Ui) (c c' : Client)
    → ui.running ≡ true
    → ui.requests ≡ r ∷ []
    → handle_request env fuel r (record ui { requests = [] }) c
      ≡ returns (record ui { requests = [] }, true) c'
    → serve_requests env fuel (suc (suc rounds)) ui c
      ≡ returns (record ui { requests = [] }, true) c'
unfolding serve_requests
serve_one env fuel rounds r ui c c' up h e =
    let one = try_get_request_one r ui up h in
    let no_more = try_get_request_empty ui up in
    rw (serve_requests, one, ◌>>=◌, one, e, no_more, ◌>>=◌, no_more)

-- Who types `@name text` on an empty line of a UI with no other request, and presses Enter, in a session
-- that is not stale with the one who holds the name, has the text sent by the backend, through the server, to
-- the peer's socket; and the peer's backend, once the message has arrived, puts the text, under the name
-- of who typed it, at the end of the messages on the peer's screen.
pub typed_line_shown :
    (env : Env) (rand : ℕ → Option (List ℕ)) (clock : ℕ → ℕ) (link : ℕ → Outcome Bool)
    → (fuel rounds : ℕ) (a b : Client) (t u : E2ESession) (s : Server) (sa sb : ℕ) (na : List ℕ)
      (cb : Connection)
    → (x : ℕ) (name : List ℕ) (y : ℕ) (text nonce cipher tag left : List ℕ) (ui screen : Ui)
    → IsHealthy env
    → (a.online ≡ true) × (find_session (x ∷ name) a.sessions ≡ some t)
    → find_session na b.sessions ≡ some u
    → Paired t u
    → t.seqno < 2 ^ 32
    → ((n : ℕ) → is_stale env.minute (env.clock n) t ≡ false)
    → env.rand (a.asked + 1 + 1) ≡ some nonce
    → IsSealed env.ssl env.limits nonce (y ∷ text) cipher tag t.crypto.key
    → IsValid s.usernames
    → get_sid na s.usernames.holders ≡ some sa
    → (get_sid (x ∷ name) s.usernames.holders ≡ some sb)
      × (get_elem? s.connections sb ≡ some cb)
      × (can_send cb ≡ true)
    → All IsNameCharacter (x ∷ name) × All IsPrintable (y ∷ text)
    → (ui.input ≡ []) × (ui.cursor ≡ 0) × (ui.requests ≡ []) × (ui.running ≡ true)
    → (m : MessagePacket) × (typed served : Ui) × (a1 : Client) × (process_input left
          ((64 ∷ ((x ∷ name) ++ (32 ∷ (y ∷ text)))) ++ (10 ∷ []))
          ui
        ≡ Prelude.ok typed)
      × (serve_requests env fuel (suc (suc rounds)) typed a ≡ returns (served, true) a1)
      × (a1.sent ≡ a.sent ++ (message m ∷ []))
      × (Server.handle_message sa m s
          ≡ Prelude.ok (s, (sb, message (record m { sender = na })) ∷ []))
      × (drain
            (record env { rand = rand; clock = clock; link = link })
            fuel
            (suc (suc rounds))
            screen
            (listening (delivers (message (record m { sender = na })) ∷ []) b)
          ≡ returns (add_message (sent_as 0 na (y ∷ text)) screen) (listening [] b))
typed_line_shown env rand clock link fuel rounds a b t u s sa sb na cb x name y text nonce cipher
      tag left ui screen va (ua, fa) fb paired hn fresh hr sealed v ha hb (cn, ct)
      (hi, hc, hq, up) =
    let (typed, e, q, _, k) = typed_message left x name y text ui cn ct hi hc in
    let r : ClientRequest = text_request ui.next_request_id (x ∷ name) (y ∷ text) in
    let (m, a1, sends, out, type, routes, reads) =
      text_through_server env rand clock link fuel (facing (x ∷ name) a) (listening [] b) t u s sa
        sb na cb (y ∷ text) nonce cipher tag va (ua, fa) fb paired hn (fresh (a.asked + 1)) hr
        sealed v ha hb in
    let served : Ui = record typed { requests = [] } in
    (
      m,
      typed,
      served,
      a1,
      e,
      serve_one env fuel rounds r typed a a1 (k ∙ up) (q ∙ ap (λ rs. rs ++ (r ∷ [])) hq) (
          handle_request-send_text env fuel ui.next_request_id (x ∷ name) (y ∷ text) served a a1
            a.cur_seqno (connect_to_fresh env fuel (x ∷ name) t a fa (fresh a.asked)) sends),
      out,
      routes,
      drain-text (record env { rand = rand; clock = clock; link = link }) fuel rounds
          (record m { sender = na }) (y ∷ text) screen b type reads,
    )
