-- ===== src/Session.antt =====
-- utils/E2ESession.hh and utils/E2ESession.cc: the end-to-end session with one peer. The clock, the
-- random bytes and the allocator's answers are arguments.
pub mod Payloads
pub mod Codec
pub mod Offers
pub mod Machine
pub mod Handshake
pub mod Crossing
pub mod Messages
use leaky_chat.Prelude.{
  ℕ, ◌+◌, ◌-◌, ◌%◌, ◌^◌, List, [], Option, none, some, Bool, true, false, ◌||◌, ◌&&◌, not, ◌==◌,
  ltb, if◌then◌else◌, Outcome, ok, throws, bad_variant_access, ◌>>=◌,
}
use leaky_chat.Buffer.Codec.{Limits, Payload, plain_text, e2e_msg}
use leaky_chat.Crypto.{
  Ssl, EncryptedData, CryptoSession, new_crypto, public_key, establish, encrypt, decrypt,
}
use Payloads.{
  E2EInit, E2EAck, E2EMsg, Body, text, sealed, init_payload, ack_payload, msg_payload, get_init,
  get_ack, get_msg,
}

pub data E2EState : Type 0 where
  uninitialized init_sent established refresh_sent : E2EState

pub record E2ESession : Type 0 where
  pub crypto : CryptoSession
  pub old_crypto : CryptoSession
  pub timestamp : ℕ
  pub state : E2EState
  pub seqno : ℕ

abbrev pub is_established : E2EState → Bool
is_established established = true
is_established uninitialized = false
is_established init_sent = false
is_established refresh_sent = false

abbrev pub is_waiting : E2EState → Bool
is_waiting init_sent = true
is_waiting refresh_sent = true
is_waiting uninitialized = false
is_waiting established = false

abbrev is_uninitialized : E2EState → Bool
is_uninitialized uninitialized = true
is_uninitialized init_sent = false
is_uninitialized established = false
is_uninitialized refresh_sent = false

-- `++sequenceNo` on 32 bits.
abbrev pub next_seqno : ℕ → ℕ
next_seqno n = (n + 1) % 2 ^ 32

-- `std::get<T>(variant)` throws std::bad_variant_access.
abbrev get_text : Body → Outcome (List ℕ)
get_text (text s) = ok s
get_text (sealed e) = throws bad_variant_access

abbrev get_sealed : Body → Outcome EncryptedData
get_sealed (sealed e) = ok e
get_sealed (text s) = throws bad_variant_access

-- The test by which `handleInit` takes an offer.
abbrev pub is_newer : E2EInit → E2ESession → Bool
is_newer i s = ltb s.seqno i.seqno || (i.seqno == s.seqno && ltb i.timestamp s.timestamp)

module _ (ssl : Ssl) where
  -- `E2ESession()`: two new crypto sessions, and the timestamp is -1.
  unfoldable pub new_session : Option (List ℕ) → Option (List ℕ) → Outcome E2ESession
  new_session rand rand' = do
    c ← new_crypto ssl rand
    o ← new_crypto ssl rand'
    ok (record {
      crypto = c;
      old_crypto = o;
      timestamp = 2 ^ 64 - 1;
      state = uninitialized;
      seqno = 0;
    })

  unfoldable pub initiate : ℕ → E2ESession → Outcome (E2ESession × Payload)
  initiate now s = do
    key ← public_key ssl s.crypto
    let n = next_seqno s.seqno
    let i = init_payload (record { seqno = n; timestamp = now; key = key })
    ok (record s { seqno = n; state = init_sent; timestamp = now }, i)

  unfoldable pub refresh : Option (List ℕ) → ℕ → E2ESession → Outcome (E2ESession × Payload)
  refresh rand now s = do
    fresh ← new_crypto ssl rand
    key ← public_key ssl fresh
    let n = next_seqno s.seqno
    let i = init_payload (record { seqno = n; timestamp = now; key = key })
    ok (
      record s {
        old_crypto = s.crypto;
        crypto = fresh;
        seqno = n;
        state = refresh_sent;
        timestamp = now;
      },
      i,
    )

  -- An established session keeps its crypto session as the old one and makes a new one.
  unfoldable pub renew_crypto : Option (List ℕ) → E2ESession → Outcome E2ESession
  renew_crypto rand s =
      if is_established s.state
      then (new_crypto ssl rand >>= λ c. ok (record s { old_crypto = s.crypto; crypto = c }))
      else ok s

  unfoldable pub accept_init :
      Option (List ℕ) → E2EInit → E2ESession → Outcome (E2ESession × Option Payload)
  accept_init rand i s = do
    r ← renew_crypto rand s
    c ← establish ssl r.crypto i.key
    key ← public_key ssl c
    ok (
      record r { crypto = c; state = established; timestamp = i.timestamp; seqno = i.seqno },
      some (ack_payload (record { seqno = i.seqno; key = key })),
    )

  unfoldable pub handle_init :
      Limits → Option (List ℕ) → Payload → E2ESession → Outcome (E2ESession × Option Payload)
  handle_init lim rand pl s = do
    i ← get_init lim pl
    if is_newer i s then accept_init rand i s else ok (s, none)

  unfoldable pub accept_ack : E2EAck → E2ESession → Outcome E2ESession
  accept_ack a s =
      if a.seqno == s.seqno
      then (establish ssl s.crypto a.key >>= λ c. ok (record s { crypto = c; state = established }))
      else ok s

  -- It never answers.
  unfoldable pub handle_ack : Limits → Payload → E2ESession → Outcome E2ESession
  unfolding accept_ack
  handle_ack lim pl s =
      if is_waiting s.state then (get_ack lim pl >>= λ a. accept_ack a s) else ok s

  -- `encrypt` without a key sends the text as it is.
  unfoldable pub encrypt_text : Option (List ℕ) → List ℕ → E2ESession → Outcome Payload
  encrypt_text rand str s =
      if is_established s.state
      then (encrypt ssl s.crypto rand str >>= λ e.
          ok (msg_payload (record { seqno = s.seqno; body = sealed e })))
      else ok (msg_payload (record { seqno = s.seqno; body = text str }))

  -- A message of another sequence number is for the old key.
  unfoldable pub decrypt_text : Limits → Payload → E2ESession → Outcome (List ℕ)
  decrypt_text lim pl s = do
    m ← get_msg lim pl
    if is_established s.state && pl.type == e2e_msg
        then (get_sealed m.body >>= λ e.
            decrypt ssl (if m.seqno == s.seqno then s.crypto else s.old_crypto) e)
        else if pl.type == plain_text
        then get_text m.body
        else ok []

-- `isStale()`: 60 seconds in clock ticks, added to the timestamp on 64 bits.
unfoldable pub is_stale : ℕ → ℕ → E2ESession → Bool
is_stale minute now s =
    if is_uninitialized s.state then false else ltb ((s.timestamp + minute) % 2 ^ 64) now
