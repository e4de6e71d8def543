-- ===== src/Session/Payloads.antt =====
-- The structs that travel in a payload, and their operators << and >>.
use leaky_chat.Prelude.{ℕ, ◌==◌, List, if◌then◌else◌, Outcome, ok, throws, undefined}
use leaky_chat.Buffer.{null_buffer, live}
use leaky_chat.Buffer.Reader.{Reader, ◌>>=◌, pure}
use leaky_chat.Buffer.Codec.{
  Limits, Payload, plain_text, e2e_init, e2e_ack, e2e_msg, put_int, put_array, put_string,
  put_bytes, put_payload, get_byte, get_int, get_new_array, get_string, get_bytes, ◌<<◌,
}
use leaky_chat.Crypto.{EncryptedData}

pub record E2EInit : Type 0 where
  pub seqno : ℕ
  pub timestamp : ℕ
  pub key : List ℕ

pub record E2EAck : Type 0 where
  pub seqno : ℕ
  pub key : List ℕ

-- The std::variant of E2EMsg.
pub data Body : Type 0 where
  text : List ℕ → Body
  sealed : EncryptedData → Body

pub record E2EMsg : Type 0 where
  pub seqno : ℕ
  pub body : Body

unfoldable pub init_payload : E2EInit → Payload
init_payload i = record {
  type = e2e_init;
  content = live (null_buffer << put_int 4 i.seqno << put_int 8 i.timestamp << put_bytes i.key);
}

unfoldable pub ack_payload : E2EAck → Payload
ack_payload a = record {
  type = e2e_ack;
  content = live (null_buffer << put_int 4 a.seqno << put_bytes a.key);
}

abbrev pub body_payload : ℕ → Body → Payload
body_payload seqno (text s) = record {
  type = plain_text;
  content = live (null_buffer << put_int 4 seqno << put_string s);
}
body_payload seqno (sealed e) = record {
  type = e2e_msg;
  content = live (
      null_buffer
      << put_int 4 seqno
      << put_array e.nonce
      << put_array e.tag
      << put_bytes e.ciphertext);
}

unfoldable pub msg_payload : E2EMsg → Payload
msg_payload m = body_payload m.seqno m.body

-- The value that a reader gets out of the payload, written to a new buffer.
unfoldable pub read_payload : {A : Type 0} → Reader A → Payload → Outcome A
read_payload r pl = elim (r (null_buffer << put_payload pl)) [
  | ok (a, b) ↦ ok a
  | throws e ↦ throws e
  | undefined ↦ undefined
]

module _ (lim : Limits) where
  unfoldable pub init_fields : Reader E2EInit
  init_fields = do
    str_size ← get_int 8
    seqno ← get_int 4
    timestamp ← get_int 8
    key ← get_bytes lim
    pure (record { seqno = seqno; timestamp = timestamp; key = key })

  unfoldable pub get_init : Payload → Outcome E2EInit
  unfolding read_payload init_fields
  get_init =
      read_payload do type ← get_byte; if type == e2e_init then init_fields else λ b. undefined

  unfoldable pub ack_fields : Reader E2EAck
  ack_fields = do
    str_size ← get_int 8
    seqno ← get_int 4
    key ← get_bytes lim
    pure (record { seqno = seqno; key = key })

  unfoldable pub get_ack : Payload → Outcome E2EAck
  unfolding read_payload ack_fields
  get_ack = read_payload do type ← get_byte; if type == e2e_ack then ack_fields else λ b. undefined

  unfoldable pub text_body : Reader Body
  text_body = do s ← get_string lim; pure (text s)

  -- The arrays of a new EncryptedData have no value before they are read.
  unfoldable pub sealed_body : Reader Body
  sealed_body = do
    nonce ← get_new_array 12
    tag ← get_new_array 16
    ciphertext ← get_bytes lim
    pure (sealed (record { nonce = nonce; ciphertext = ciphertext; tag = tag }))

  -- The variant is told by the payload's type.
  unfoldable pub get_msg : Payload → Outcome E2EMsg
  unfolding read_payload text_body sealed_body
  get_msg pl =
      read_payload
        (do
          type ← get_byte
          str_size ← get_int 8
          seqno ← get_int 4
          body ← if pl.type == plain_text then text_body else sealed_body
          pure (record { seqno = seqno; body = body }))
        pl
