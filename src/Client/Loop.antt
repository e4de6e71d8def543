-- ===== src/Client/Loop.antt =====
-- `clientLoop` of chat/client.cpp: requests of the UI, packets of the server, and the end of the
-- connection. A result's last part is the backend's flag `running`.
use leaky_chat.Prelude.{
  ℕ, zero, suc, List, [], ◌∷◌, ◌++◌, none, some, Bool, true, false, if◌then◌else◌, bytes_of,
}
use leaky_chat.Buffer.Codec.{is_e2e_control}
use leaky_chat.Packet.{
  Packet, base, message, request, field_req, user_list, connection_setup, control,
}
use leaky_chat.Ui.{
  Ui, RequestType, ClientRequest, add_message, edit_message, try_get_request, sent_as, in_red,
}
use leaky_chat.Client.Monad.{Env, M, returns, pure, ◌>>=◌, ◌>>◌, poll, waiting}
use leaky_chat.Client.{
  login, connect_to, send_text, get_users, setup_e2e, quit, handle_e2e_packet, decrypt_message,
}

-- `msg.text += text` for the message of a request.
abbrev pub extend : ℕ → List ℕ → Ui → Ui
extend id text ui = edit_message id (λ m. record m { text = m.text ++ text }) ui

abbrev pub logged_in : Bool → List ℕ
logged_in true = 10 ∷ bytes_of "  Login Succeeded"
logged_in false = 10 ∷ 32 ∷ 32 ∷ in_red (bytes_of "Login Failed. Please retry")

abbrev pub set_up : Bool → List ℕ
set_up true = 10 ∷ bytes_of " E2E Connection Succeeded"
set_up false = 10 ∷ bytes_of " E2E Connection Failed"

abbrev pub user_lines : List (List ℕ) → List ℕ
user_lines [] = 10 ∷ []
user_lines (u ∷ us) = 32 ∷ 32 ∷ (u ++ (10 ∷ user_lines us))

abbrev pub active_users : List (List ℕ) → List ℕ
active_users us = (10 ∷ bytes_of "Active Users: ") ++ (10 ∷ user_lines us)

module _ (env : Env) (fuel : ℕ) where
  abbrev pub answer_request : RequestType → ClientRequest → Ui → M (Ui × Bool)
  answer_request RequestType.login r ui = do
    done ← login env fuel r.username
    pure (extend r.id (logged_in done) ui, true)
  answer_request RequestType.send_message r ui = do
    chosen ← connect_to env fuel r.username
    seq ← send_text env fuel r.message
    pure (ui, true)
  answer_request RequestType.get_users r ui = do
    users ← get_users env fuel
    pure (extend r.id (active_users users) ui, true)
  answer_request RequestType.e2e r ui = do
    done ← setup_e2e env fuel r.username false
    pure (extend r.id (set_up done) ui, true)
  answer_request RequestType.quit r ui = do quit env; pure (ui, false)

  -- The `switch` on a request.
  unfoldable pub handle_request : ClientRequest → Ui → M (Ui × Bool)
  handle_request r ui = answer_request r.type r ui

  -- The requests that the UI has, `rounds` of them at most.
  unfoldable pub serve_requests : ℕ → Ui → M (Ui × Bool)
  serve_requests zero ui = waiting
  serve_requests (suc rounds) ui =
      let (next, ui') = try_get_request ui in
      elim next [
        | none ↦ pure (ui', true)
        | some r ↦ handle_request r ui' >>= λ out.
            let rest = serve_requests rounds out.0 in if out.1 then rest else pure out
      ]

  -- A message is for the session or is shown; any other packet is dropped.
  unfoldable pub handle_packet : Packet → Ui → M Ui
  handle_packet (message m) ui =
      if is_e2e_control m.payload
      then (handle_e2e_packet env m >> pure ui)
      else (decrypt_message env m >>= λ text. pure (add_message (sent_as 0 m.sender text) ui))
  handle_packet (base h) ui = pure ui
  handle_packet (request r) ui = pure ui
  handle_packet (field_req f) ui = pure ui
  handle_packet (user_list u) ui = pure ui
  handle_packet (connection_setup h) ui = pure ui
  handle_packet (control k) ui = pure ui

  -- The packets that are there, `rounds` of them at most; a null pointer in the queue ends it, too.
  unfoldable pub drain : ℕ → Ui → M Ui
  drain zero ui = waiting
  drain (suc rounds) ui = poll >>= λ polled. elim polled [
    | none ↦ pure ui
    | some p ↦ handle_packet p ui >>= λ ui'. drain rounds ui'
  ]

  -- Without a connection the loop says so and ends.
  abbrev pub check_connection : Ui → M (Ui × Bool)
  check_connection ui c =
      if c.online
      then returns (ui, true) c
      else returns (add_message (sent_as 0 [] (bytes_of "Server desconnected")) ui, false) c

  -- One round of the loop, from the semaphore to the next.
  unfoldable pub backend_round : Ui → M (Ui × Bool)
  backend_round ui = do
    (ui', go_on) ← serve_requests fuel ui
    if go_on then (drain fuel ui' >>= λ ui''. check_connection ui'') else pure (ui', false)
