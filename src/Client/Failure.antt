-- ===== src/Client/Failure.antt =====
-- A message that cannot be opened, at the backend of chat/client.cpp.
use leaky_chat.Prelude.{
  ℕ, suc, ◌^◌, ◌<◌, ◌≡◌, refl, sym, arith, true, false, List, [], ◌∷◌, length, none, some, ◌==◌,
  runtime_error,
}
use leaky_chat.Prelude
use leaky_chat.Buffer.Codec.{is_e2e_control}
use leaky_chat.Packet.{MessagePacket, message}
use leaky_chat.Crypto.{EncryptedData, decrypt, gcm_decrypt}
use leaky_chat.Session.{E2ESession, established, decrypt_text}
use leaky_chat.Session.Payloads.{E2EMsg, sealed, msg_payload, get_msg}
use leaky_chat.Session.Codec.{get_msg-msg_payload}
use leaky_chat.Session.Messages.{picked}
use leaky_chat.Ui.{Ui}
use leaky_chat.Client.Monad.{Env, Client, Event, delivers, throws, ◌>>=◌, poll, receive}
use leaky_chat.Client.{find_session, decrypt_message}
use leaky_chat.Client.Loop.{handle_packet, drain}
use leaky_chat.Client.Waiting.{listening}
use leaky_chat.Client.Steps.{session_of-found}

-- Sealed data that can be read, but not opened under the key that the session picks for its number.
pub record IsTampered (env : Env) (seqno : ℕ) (e : EncryptedData) (u : E2ESession) : Type 0 where
  pub number : seqno < 2 ^ 32
  pub nonce_size : length e.nonce ≡ 12
  pub tag_size : length e.tag ≡ 16
  pub text_size : length e.ciphertext < 2 ^ 60
  pub granted : env.limits.bytes (length e.ciphertext) ≡ true
  pub keyed : (picked seqno u).established ≡ true
  pub refused : env.ssl.gcm_open (picked seqno u).key e.nonce e.ciphertext e.tag ≡ none

decrypt_text-tampered :
    (env : Env) (seqno : ℕ) (e : EncryptedData) (u : E2ESession)
    → u.state ≡ established
    → IsTampered env seqno e u
    → decrypt_text env.ssl env.limits (msg_payload (record { seqno = seqno; body = sealed e })) u
      ≡ Prelude.throws runtime_error
unfolding decrypt_text decrypt gcm_decrypt msg_payload
decrypt_text-tampered env seqno e u est v =
    let msg : E2EMsg = record { seqno = seqno; body = sealed e } in
    let back : get_msg env.limits (msg_payload msg) ≡ Prelude.ok msg =
      get_msg-msg_payload env.limits msg v.number (v.nonce_size, v.tag_size, v.text_size)
        v.granted in
    rw (back, Prelude.◌>>=◌, est, v.keyed, v.refused)

-- A message in an established session whose sealed data OpenSSL refuses, be it damaged, forged or
-- sealed under another key, is not passed over: the exception of `decrypt` leaves the loop of the
-- backend, whatever waits behind the message.
pub tampered_message_ends :
    (env : Env) (fuel rounds seqno : ℕ) (e : EncryptedData) (u : E2ESession) (m : MessagePacket)
    (ui : Ui) (b : Client)
    → (rest : List Event) → find_session m.sender b.sessions ≡ some u
    → u.state ≡ established
    → IsTampered env seqno e u
    → drain env fuel (suc rounds) ui (
        listening
          (delivers (
              message
                (record m { payload = msg_payload (record { seqno = seqno; body = sealed e }) }))
            ∷ rest)
          b)
      ≡ throws runtime_error
unfolding drain handle_packet poll receive is_e2e_control decrypt_message msg_payload
tampered_message_ends env fuel rounds seqno e u m ui b rest found est v = rw (
  poll,
  receive,
  handle_packet,
  ◌>>=◌,
  decrypt_message,
  session_of-found env m.sender u (listening rest b) found,
  decrypt_text-tampered env seqno e u est v,
)
