-- ===== src/Client.antt =====
-- chat/client.h and chat/client.cpp: the backend of the client. What the server sends, what becomes
-- of a `sendPacket`, the clock and the random bytes are the environment's; a loop that waits runs on
-- fuel, and `waits` says that it still waits when the fuel is used up. The threads, the semaphore, the
-- connecting and the member `username`, which nothing uses, are left out.
pub mod Monad
pub mod Loop
pub mod Connecting
pub mod Waiting
pub mod Steps
pub mod Conversation
pub mod Delivery
pub mod Failure
use leaky_chat.Prelude.{
  ℕ, zero, suc, ◌+◌, ◌%◌, ◌^◌, List, [], ◌∷◌, ◌++◌, Option, none, some, Bool, true, false, not,
  ◌&&◌, ◌||◌, ◌==◌, if◌then◌else◌, eq_bytes, Outcome,
}
use leaky_chat.Buffer.Codec.{Payload, e2e_init, e2e_ack, is_e2e_control}
use leaky_chat.Packet.{
  Packet, Header, MessagePacket, ControlPacket, base, message, request, field_req, user_list,
  connection_setup, control, header, message_type, request_type, field_req_type, user_list_type,
  set_username, request_userlist, disconnect, ack,
}
use leaky_chat.Session.{
  E2ESession, E2EState, uninitialized, new_session, initiate, refresh, handle_init, handle_ack,
  encrypt_text, decrypt_text, is_stale,
}
use Monad.{
  Env, Client, M, pure, ◌>>=◌, ◌>>◌, lift, draw, tick, next_seq, send_packet, poll, push, waiting,
}

-- The session of a peer, `none` where the map has no such key.
unfoldable pub find_session : List ℕ → List (List ℕ × E2ESession) → Option E2ESession
find_session peer [] = none
find_session peer ((k, s) ∷ rest) = if eq_bytes k peer then some s else find_session peer rest

unfoldable pub put_session :
    List ℕ → E2ESession → List (List ℕ × E2ESession) → List (List ℕ × E2ESession)
put_session peer s [] = (peer, s) ∷ []
put_session peer s ((k, t) ∷ rest) =
    if eq_bytes k peer then (k, s) ∷ rest else (k, t) ∷ put_session peer s rest

abbrev pub store : List ℕ → E2ESession → M (Unit {0})
store peer s c = Monad.returns tt (record c { sessions = put_session peer s c.sessions })

-- `MessagePacket(receiver, payload)` with its number.
abbrev pub message_to : List ℕ → Payload → ℕ → Packet
message_to receiver pl seq = message (record {
  head = record { packet_type = message_type; seq = seq };
  sender = [];
  receiver = receiver;
  payload = pl;
})

abbrev pub request_of : ℕ → ℕ → Packet
request_of type seq =
    request (record { head = record { packet_type = request_type; seq = seq }; request = type })

abbrev pub is_uninitialized : E2ESession → Bool
is_uninitialized s = elim s.state [
  | E2EState.uninitialized ↦ true
  | E2EState.init_sent ↦ false
  | E2EState.established ↦ false
  | E2EState.refresh_sent ↦ false
]

-- `mE2ESessions.contains(name)` with a session that has begun.
abbrev pub has_begun : Option E2ESession → Bool
has_begun none = false
has_begun (some s) = not (is_uninitialized s)

abbrev pub as_control : Packet → Option ControlPacket
as_control (control k) = some k
as_control (base h) = none
as_control (message m) = none
as_control (request r) = none
as_control (field_req f) = none
as_control (user_list u) = none
as_control (connection_setup h) = none

abbrev pub is_setup_type : ℕ → Bool
is_setup_type t = t == e2e_ack || t == e2e_init

-- `isE2ePkt` of `setupE2E`.
abbrev pub is_e2e_packet : List ℕ → Packet → Bool
is_e2e_packet peer (message m) = is_setup_type m.payload.type && eq_bytes m.sender peer
is_e2e_packet peer (base h) = false
is_e2e_packet peer (request r) = false
is_e2e_packet peer (field_req f) = false
is_e2e_packet peer (user_list u) = false
is_e2e_packet peer (connection_setup h) = false
is_e2e_packet peer (control k) = false

-- A number and what is sent under it.
abbrev pub send_numbered : Env → (ℕ → Packet) → M Bool
send_numbered env p = next_seq >>= λ seq. send_packet env (p seq)

module _ (env : Env) where
  -- `mE2ESessions[peer]` makes a session where there is none.
  unfoldable pub session_of : List ℕ → M E2ESession
  session_of peer c = elim (find_session peer c.sessions) [
    | some s ↦ Monad.returns s c
    | none ↦
        (do r ← draw env; r' ← draw env; s ← lift (new_session env.ssl r r'); store peer s; pure s)
          c
  ]

  -- `session.initiate()` of the session of `peer`, and the offer on its way.
  unfoldable pub offer_to : List ℕ → M Bool
  offer_to peer = do
    s ← session_of peer
    now ← tick env
    (s', pl) ← lift (initiate env.ssl now s)
    store peer s'
    send_numbered env (message_to peer pl)

  unfoldable pub initiate_e2e : List ℕ → M Bool
  unfolding offer_to
  initiate_e2e peer c =
      if has_begun (find_session peer c.sessions) then Monad.returns true c else offer_to peer c

  unfoldable pub refresh_e2e : List ℕ → M Bool
  refresh_e2e peer = do
    s ← session_of peer
    r ← draw env
    now ← tick env
    (s', pl) ← lift (refresh env.ssl r now s)
    store peer s'
    send_numbered env (message_to peer pl)

  abbrev answer_to : List ℕ → Option Payload → M Bool
  answer_to peer none = pure false
  answer_to peer (some pl) = send_numbered env (message_to peer pl) >>= λ _. pure true

  unfoldable pub handle_e2e_init : MessagePacket → M Bool
  handle_e2e_init p = do
    s ← session_of p.sender
    r ← draw env
    (s', response) ← lift (handle_init env.ssl env.limits r p.payload s)
    store p.sender s'
    answer_to p.sender response

  unfoldable pub handle_e2e_ack : MessagePacket → M (Unit {0})
  handle_e2e_ack p = do
    s ← session_of p.sender
    s' ← lift (handle_ack env.ssl env.limits p.payload s)
    store p.sender s'

  unfoldable pub handle_e2e_packet : MessagePacket → M (Unit {0})
  unfolding handle_e2e_init handle_e2e_ack
  handle_e2e_packet p =
      if p.payload.type == e2e_init
      then (handle_e2e_init p >>= λ _. pure tt)
      else if p.payload.type == e2e_ack
      then handle_e2e_ack p
      else pure tt

  -- A control packet for another number was moved from, and a null pointer goes to the queue.
  unfoldable pub wait_until_ack : ℕ → ℕ → M Bool
  unfolding poll
  wait_until_ack zero seq = waiting
  wait_until_ack (suc fuel) seq =
      let again = wait_until_ack fuel seq in
      poll >>= λ polled. elim polled [
        | none ↦ again
        | some p ↦ elim (as_control p) [
          | none ↦ push (some p) >> again
          | some k ↦ if k.reply_to == seq then pure (k.control == ack) else (push none >> again)
        ]
      ]

  unfoldable pub wait_for_pred : ℕ → (Packet → Bool) → M Packet
  unfolding poll
  wait_for_pred zero pred = waiting
  wait_for_pred (suc fuel) pred =
      let again = wait_for_pred fuel pred in
      poll >>= λ polled. elim polled [
        | none ↦ again
        | some p ↦ if pred p then pure p else (push (some p) >> again)
      ]

  unfoldable pub wait_for_type : ℕ → ℕ → M Packet
  unfolding wait_for_pred header
  wait_for_type fuel type = wait_for_pred fuel (λ p. (header p).packet_type == type)

  -- A message is what the predicate of `setupE2E` lets through; another class is a wrong cast.
  abbrev as_message : Packet → M MessagePacket
  as_message (message m) c = Monad.returns m c
  as_message (base h) c = Monad.undefined
  as_message (request r) c = Monad.undefined
  as_message (field_req f) c = Monad.undefined
  as_message (user_list u) c = Monad.undefined
  as_message (connection_setup h) c = Monad.undefined
  as_message (control k) c = Monad.undefined

  unfoldable pub wait_for_e2e : ℕ → List ℕ → M MessagePacket
  unfolding wait_for_pred
  wait_for_e2e fuel peer = do p ← wait_for_pred fuel (is_e2e_packet peer); as_message p

  -- An offer that crosses ours: it is taken, or ours stands and the answer is waited for.
  unfoldable pub settle : ℕ → List ℕ → MessagePacket → M Bool
  unfolding handle_e2e_init handle_e2e_ack wait_for_e2e
  settle fuel peer m =
      if m.payload.type == e2e_init
      then (do
        taken ← handle_e2e_init m
        if taken then pure true else (do a ← wait_for_e2e fuel peer; handle_e2e_ack a; pure true))
      else if m.payload.type == e2e_ack
      then (handle_e2e_ack m >> pure true)
      else pure false

  unfoldable pub setup_e2e : ℕ → List ℕ → Bool → M Bool
  unfolding initiate_e2e refresh_e2e wait_for_e2e settle
  setup_e2e fuel peer fresh = do
    sent ← if fresh then refresh_e2e peer else initiate_e2e peer
    if sent then (wait_for_e2e fuel peer >>= λ m. settle fuel peer m) else pure false

  unfoldable pub login : ℕ → List ℕ → M Bool
  unfolding send_packet wait_until_ack
  login fuel name = do
    seq ← next_seq
    done ← send_packet env (
        field_req (record {
          head = record { packet_type = field_req_type; seq = seq };
          request = set_username;
          field = name;
        }))
    wait_until_ack fuel seq

  abbrev refresh_if : Bool → ℕ → List ℕ → M (Unit {0})
  refresh_if true fuel peer = setup_e2e fuel peer true >>= λ _. pure tt
  refresh_if false fuel peer = pure tt

  abbrev pub choose : List ℕ → M (Unit {0})
  choose peer c = Monad.returns tt (record c { partner = peer })

  abbrev connected_session : ℕ → List ℕ → Option E2ESession → M Bool
  connected_session fuel peer none = pure true
  connected_session fuel peer (some s) = do
    now ← tick env
    refresh_if (is_stale env.minute now s) fuel peer
    pure true

  unfoldable pub connect_to : ℕ → List ℕ → M Bool
  unfolding setup_e2e is_stale
  connect_to fuel peer =
      choose peer >> (λ c. connected_session fuel peer (find_session peer c.sessions) c)

  -- `send`: the session is a reference into the map, and is read again after the refresh.
  unfoldable pub send_text : ℕ → List ℕ → M ℕ
  unfolding setup_e2e is_stale
  send_text fuel text = do
    seq ← next_seq
    (λ c.
        (do
          s ← session_of c.partner
          now ← tick env
          refresh_if (is_stale env.minute now s) fuel c.partner
          s' ← session_of c.partner
          r ← draw env
          pl ← lift (encrypt_text env.ssl r text s')
          done ← send_packet env (message_to c.partner pl seq)
          pure seq)
          c)

  abbrev users_of : Packet → M (List (List ℕ))
  users_of (user_list u) c = Monad.returns u.users c
  users_of (base h) c = Monad.undefined
  users_of (message m) c = Monad.undefined
  users_of (request r) c = Monad.undefined
  users_of (field_req f) c = Monad.undefined
  users_of (connection_setup h) c = Monad.undefined
  users_of (control k) c = Monad.undefined

  unfoldable pub get_users : ℕ → M (List (List ℕ))
  unfolding wait_for_type
  get_users fuel = do
    sent ← send_numbered env (request_of request_userlist)
    if sent then (wait_for_type fuel user_list_type >>= λ p. users_of p) else pure []

  unfoldable pub decrypt_message : MessagePacket → M (List ℕ)
  decrypt_message p = do s ← session_of p.sender; lift (decrypt_text env.ssl env.limits p.payload s)

  unfoldable pub quit : M (Unit {0})
  quit = send_numbered env (request_of disconnect) >>= λ _. pure tt
