-- ===== src/Tests/Clients.antt =====
-- Alice and Bob at the server: waiting for an answer, a session, and a text.
use leaky_chat.Prelude.{
  ℕ, ◌≡◌, refl, arith, true, List, [], ◌∷◌, ◌++◌, some, ok, replicate, eq_bytes,
}
use leaky_chat.Packet.{MessagePacket, ControlPacket, message, control, control_type, ack}
use leaky_chat.Session.{E2ESession, is_stale}
use leaky_chat.Session.Handshake.{Paired}
use leaky_chat.Server
use leaky_chat.Server.{get_sid, insert, ensure, assign}
use leaky_chat.Client.Monad.{Env, Client, delivers, silent, returns, waits}
use leaky_chat.Client.{find_session, initiate_e2e, handle_e2e_packet, login, wait_until_ack}
use leaky_chat.Client.Steps.{IsHealthy}
use leaky_chat.Client.Waiting.{listening, wait_until_ack_lem, login_hangs}
use leaky_chat.Client.Conversation.{setup_through_server}
use leaky_chat.Ui.{Ui, process_input, sent_as, add_message}
use leaky_chat.Client.Loop.{serve_requests, drain}
use leaky_chat.Client.Delivery.{typed_line_shown}
use leaky_chat.Tests.Editor.{blank}
use leaky_chat.Client.Failure.{IsTampered, tampered_message_ends}
use leaky_chat.Client.Monad.{throws}
use leaky_chat.Crypto.{Ssl, EncryptedData}
use leaky_chat.Session.Payloads.{sealed, msg_payload}
use leaky_chat.Prelude.{Option, none, if◌then◌else◌, eq_bytes_refl, runtime_error}
use leaky_chat.Tests.Servers.{to_bob}
use leaky_chat.Tests.Samples.{toy, toy-Digests, granting}
use leaky_chat.Tests.Packets.{hello}
use leaky_chat.Tests.Sessions.{hi, nonce, hi-IsSealed, ready, ready-Paired}
use leaky_chat.Tests.Servers.{online, alice, bob, two_names-IsValid, two_seats}

-- Nothing fails, the clock stands at 120, and a minute is 60 ticks.
abbrev calm : Env
calm = record {
  ssl = toy;
  limits = granting;
  minute = 60;
  rand = λ n. some nonce;
  clock = λ n. 120;
  link = λ n. ok true;
}

calm-IsHealthy : IsHealthy calm
calm-IsHealthy = record { rand = λ n. (nonce, refl); clock = λ n. omega arith; link = λ n. refl }

-- A client that has just connected, and one in a session with `peer`.
abbrev new_client : Client
new_client = record {
  partner = [];
  queue = [];
  cur_seqno = 0;
  sessions = [];
  online = true;
  incoming = [];
  sent = [];
  asked = 0;
}

abbrev talking : List ℕ → ℕ → Client
talking peer n = record new_client { partner = peer; sessions = (peer, ready n) ∷ [] }

abbrev answer_to : ℕ → ControlPacket
answer_to n = record {
  head = record { packet_type = control_type; seq = 0 };
  control = ack;
  reply_to = n;
}

wait_until_ack_lem_example :
    wait_until_ack calm 5 3 (
      listening
        (silent
          ∷ delivers (control (answer_to 2))
          ∷ delivers (control (answer_to 3))
          ∷ delivers hello
          ∷ [])
        new_client)
    ≡ returns true (listening (delivers hello ∷ []) new_client)
wait_until_ack_lem_example =
    wait_until_ack_lem calm 5 3 (silent ∷ delivers (control (answer_to 2)) ∷ [])
      (delivers hello ∷ []) (answer_to 3) new_client (tt, ((λ e. ground arith), tt)) refl
      (omega arith)

login_hangs_example :
    login calm 1000 alice (
      listening
        (silent
          ∷ delivers (control (answer_to 7))
          ∷ delivers hello
          ∷ delivers (control (answer_to 0))
          ∷ [])
        new_client)
    ≡ waits
login_hangs_example =
    login_hangs calm 1000 alice (silent ∷ delivers (control (answer_to 7)) ∷ []) hello
      (delivers (control (answer_to 0)) ∷ []) new_client refl (tt, ((λ e. ground arith), tt)) refl

setup_through_server_example :
    (offer answer : MessagePacket) × (a1 a2 b1 : Client) × (t u : E2ESession) × (initiate_e2e calm
        bob new_client
      ≡ returns true a1)
    × (a1.sent ≡ message offer ∷ [])
    × (Server.handle_message 0 offer two_seats
        ≡ ok (two_seats, (1, message (record offer { sender = alice })) ∷ []))
    × (handle_e2e_packet calm (record offer { sender = alice }) new_client ≡ returns tt b1)
    × (b1.sent ≡ message answer ∷ [])
    × (Server.handle_message 1 answer two_seats
        ≡ ok (two_seats, (0, message (record answer { sender = bob })) ∷ []))
    × (handle_e2e_packet calm (record answer { sender = bob }) a1 ≡ returns tt a2)
    × (find_session bob a2.sessions ≡ some t)
    × (find_session alice b1.sessions ≡ some u)
    × Paired t u
unfolding find_session get_sid insert ensure assign eq_bytes
setup_through_server_example =
    setup_through_server calm calm.rand calm.clock calm.link new_client new_client two_seats 0 1
      alice bob online online calm-IsHealthy calm-IsHealthy toy-Digests refl (refl, refl)
      (refl, refl) two_names-IsValid (refl, refl, refl) (refl, refl, refl)

-- Alice types `@b hi`.
typed_line_shown_example :
    (m : MessagePacket) × (typed served : Ui) × (a1 : Client) × (process_input []
        ((64 ∷ (bob ++ (32 ∷ hi))) ++ (10 ∷ []))
        blank
      ≡ ok typed)
    × (serve_requests calm 9 3 typed (talking bob 3) ≡ returns (served, true) a1)
    × (a1.sent ≡ message m ∷ [])
    × (Server.handle_message 0 m two_seats
        ≡ ok (two_seats, (1, message (record m { sender = alice })) ∷ []))
    × (drain calm 9 3 blank
          (listening (delivers (message (record m { sender = alice })) ∷ []) (talking alice 5))
        ≡ returns (add_message (sent_as 0 alice hi) blank) (listening [] (talking alice 5)))
unfolding find_session get_sid insert ensure assign eq_bytes is_stale
typed_line_shown_example =
    typed_line_shown calm calm.rand calm.clock calm.link 9 1 (talking bob 3) (talking alice 5)
      (ready 3) (ready 5) two_seats 0 1 alice online 98 [] 104 (105 ∷ []) nonce hi (replicate 16 0)
      [] blank blank calm-IsHealthy (refl, refl) refl ready-Paired (omega arith) (λ n. refl) refl
      hi-IsSealed two_names-IsValid refl (refl, refl, refl) (omega arith, omega arith)
      (refl, refl, refl, refl)

opened : List ℕ → List ℕ → Option (List ℕ)
opened cipher tag = if eq_bytes tag (replicate 16 0) then some cipher else none

opened_sealed :
    (text cipher tag : List ℕ)
    → text ≡ cipher
    → replicate 16 0 ≡ tag
    → opened cipher tag ≡ some text
unfolding opened
opened_sealed text cipher tag same zeros = rw (← same, ← zeros, eq_bytes_refl (replicate 16 0))

-- As `toy`, but it opens what has its own tag alone.
strict : Ssl
strict = record toy {
  gcm_open = λ key nonce cipher tag. opened cipher tag;
  gcm_open-gcm_seal = λ key nonce text cipher tag h.
      let e : text ≡ cipher = ground arith in
      let f : replicate 16 0 ≡ tag = ground arith in opened_sealed text cipher tag e f;
}

abbrev forged : EncryptedData
forged = record { nonce = nonce; ciphertext = hi; tag = replicate 16 1 }

forged-IsTampered : IsTampered (record calm { ssl = strict }) 1 forged (ready 5)
unfolding strict opened eq_bytes
forged-IsTampered = record {
  number = omega arith;
  nonce_size = refl;
  tag_size = refl;
  text_size = omega arith;
  granted = refl;
  keyed = refl;
  refused = refl;
}

tampered_message_ends_example :
    drain
      (record calm { ssl = strict })
      9
      1
      blank
      (listening
        (delivers (
            message (record to_bob {
              sender = alice;
              payload = msg_payload (record { seqno = 1; body = sealed forged });
            }))
          ∷ [])
        (talking alice 5))
    ≡ throws runtime_error
unfolding find_session eq_bytes
tampered_message_ends_example =
    tampered_message_ends (record calm { ssl = strict }) 9 0 1 forged (ready 5)
      (record to_bob { sender = alice }) blank (talking alice 5) [] refl refl forged-IsTampered
