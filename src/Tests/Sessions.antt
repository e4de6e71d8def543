-- ===== src/Tests/Sessions.antt =====
-- Sessions of two parties, before, during and after a handshake.
use leaky_chat.Prelude.{
  ℕ, ◌-◌, ◌<◌, ◌^◌, ◌≡◌, ◌⊎◌, refl, arith, none, some, List, [], ◌∷◌, replicate, ok, ◌>>=◌,
}
use leaky_chat.Buffer.Codec.{Payload, e2e_msg, plain_text, le_bytes, from_le}
use leaky_chat.Crypto.{
  prime, mod_exp, establish, public_key, new_crypto, new_dh, compute_shared_secret, derive_key,
  dh_public_key, mod_exp_loop,
}
use leaky_chat.Session.{
  E2ESession, uninitialized, init_sent, established, refresh_sent, initiate, refresh, handle_init,
  handle_ack, accept_init, accept_ack, renew_crypto, encrypt_text, decrypt_text,
}
use leaky_chat.Session.Payloads.{
  E2EInit, E2EAck, text, init_payload, ack_payload, get_init, get_msg,
}
use leaky_chat.Session.Codec.{get_init-init_payload, get_ack-ack_payload}
use leaky_chat.Session.Machine.{TakenAck, handle_init_cases, handle_ack_cases, handle_init_replayed}
use leaky_chat.Session.Offers.{Supersedes, IsOutdated, TakenInit}
use leaky_chat.Session.Crossing.{crossing_offers}
use leaky_chat.Session.Handshake.{Paired, OnOffer, handshake}
use leaky_chat.Session.Messages.{IsSealed, decrypt_text-encrypt_text, late_message, refresh_leaks}
use leaky_chat.Tests.Samples.{toy, toy-Digests, granting}
use leaky_chat.Tests.Cryptography.{fresh, keyed, fresh-IsFresh}

-- A session before its first offer.
abbrev idle : ℕ → E2ESession
idle n = record {
  crypto = fresh n;
  old_crypto = fresh 1;
  timestamp = 2 ^ 64 - 1;
  state = uninitialized;
  seqno = 0;
}

-- A session that offered number 1 at the time `t`.
abbrev waiting : ℕ → ℕ → E2ESession
waiting n t = record (idle n) { timestamp = t; state = init_sent; seqno = 1 }

-- A session that is established on number 1.
abbrev pub ready : ℕ → E2ESession
ready n = record (idle n) { crypto = keyed n; timestamp = 100; state = established; seqno = 1 }

handshake_example :
    (a' b' a'' : E2ESession) × (offer answer : Payload) × (initiate toy 100 (idle 3)
      ≡ ok (a', offer))
    × (handle_init toy granting none offer (idle 5) ≡ ok (b', some answer))
    × (handle_ack toy granting answer a' ≡ ok a'')
    × Paired a'' b'
handshake_example =
    handshake toy granting 100 none (idle 3) (idle 5) toy-Digests (fresh-IsFresh 3)
      (fresh-IsFresh 5) refl (omega arith) (omega arith) (omega arith) refl

pub ready-Paired : Paired (ready 3) (ready 5)
ready-Paired = record { states = (refl, refl); keyed = (refl, refl); seqno = refl; key = refl }

abbrev pub hi : List ℕ
hi = 104 ∷ 105 ∷ []

abbrev pub nonce : List ℕ
nonce = replicate 12 9

pub hi-IsSealed : IsSealed toy granting nonce hi hi (replicate 16 0) (replicate 32 7)
hi-IsSealed = record { fits = omega arith; granted = refl; nonce_size = refl; seals = refl }

decrypt_text-encrypt_text_example :
    (pl : Payload) × (encrypt_text toy (some nonce) hi (ready 3) ≡ ok pl)
    × (pl.type ≡ e2e_msg)
    × (decrypt_text toy granting pl (ready 5) ≡ ok hi)
decrypt_text-encrypt_text_example =
    decrypt_text-encrypt_text toy granting nonce hi hi (replicate 16 0) (ready 3) (ready 5)
      hi-IsSealed ready-Paired (omega arith)

-- An offer of number `n` at the time `t`, with the key 1.
abbrev offer : ℕ → ℕ → E2EInit
offer n t = record { seqno = n; timestamp = t; key = 1 ∷ [] }

get_offer :
    (n t : ℕ)
    → n < 2 ^ 32
    → t < 2 ^ 64
    → get_init granting (init_payload (offer n t)) ≡ ok (offer n t)
get_offer n t hn ht = get_init-init_payload granting (offer n t) hn ht (omega arith) refl

-- An established session takes an offer of number 2.
abbrev renewed : E2ESession
renewed = record {
  crypto = keyed 0;
  old_crypto = keyed 5;
  timestamp = 200;
  state = established;
  seqno = 2;
}

abbrev taken_answer : Payload
taken_answer = ack_payload (record { seqno = 2; key = le_bytes 256 1 })

key_zero :
    (new_crypto toy (some []) ≡ ok (fresh 0))
    × (establish toy (fresh 0) (1 ∷ []) ≡ ok (keyed 0))
    × (public_key toy (keyed 0) ≡ ok (le_bytes 256 1))
unfolding new_crypto new_dh establish compute_shared_secret derive_key public_key dh_public_key
    mod_exp mod_exp_loop prime from_le
key_zero = (refl, refl, refl)

takes :
    handle_init toy granting (some []) (init_payload (offer 2 200)) (ready 5)
    ≡ ok (renewed, some taken_answer)
unfolding handle_init accept_init renew_crypto
takes = rw (get_offer 2 200 (omega arith) (omega arith), ◌>>=◌, key_zero.0, key_zero.1, key_zero.2)

handle_init_cases_example :
    (Supersedes (offer 2 200) (ready 5)
      × TakenInit toy (some []) (offer 2 200) (ready 5) renewed (some taken_answer))
    ⊎ (IsOutdated (offer 2 200) (ready 5) × (renewed ≡ ready 5) × (some taken_answer ≡ none))
handle_init_cases_example =
    handle_init_cases toy granting (some []) (init_payload (offer 2 200)) (offer 2 200) (ready 5)
      renewed (some taken_answer) (get_offer 2 200 (omega arith) (omega arith)) takes

handle_init_replayed_example :
    handle_init toy granting none (init_payload (offer 2 200)) renewed ≡ ok (renewed, none)
handle_init_replayed_example =
    handle_init_replayed toy granting (some []) none (init_payload (offer 2 200)) (ready 5) renewed
      taken_answer takes

abbrev answer : E2EAck
answer = record { seqno = 1; key = 1 ∷ [] }

abbrev answered : E2ESession
answered = record (waiting 0 100) { crypto = keyed 0; state = established }

takes_answer : handle_ack toy granting (ack_payload answer) (waiting 0 100) ≡ ok answered
unfolding handle_ack accept_ack
takes_answer =
    rw (get_ack-ack_payload granting answer (omega arith) (omega arith) refl, ◌>>=◌, key_zero.1)

handle_ack_cases_example :
    (answered.seqno ≡ 1)
    × (answered.timestamp ≡ 100)
    × (answered.old_crypto ≡ fresh 1)
    × ((answered ≡ waiting 0 100)
        ⊎ TakenAck toy granting (ack_payload answer) (waiting 0 100) answered)
handle_ack_cases_example =
    handle_ack_cases toy granting (ack_payload answer) (waiting 0 100) answered takes_answer

-- Both offer number 1, one at the time 100 and the other at 101.
crossing_offers_example :
    (a' b' a'' b'' : E2ESession) × (early late ack : Payload) × (initiate toy 100 (idle 3)
      ≡ ok (a', early))
    × (initiate toy 101 (idle 5) ≡ ok (b', late))
    × (handle_init toy granting none early b' ≡ ok (b'', some ack))
    × (handle_init toy granting none late a' ≡ ok (a', none))
    × (handle_ack toy granting ack a' ≡ ok a'')
    × (handle_init toy granting none late a'' ≡ ok (a'', none))
    × Paired a'' b''
    × OnOffer 1 100 a''
    × OnOffer 1 100 b''
crossing_offers_example =
    crossing_offers toy granting 100 101 none none (idle 3) (idle 5) toy-Digests (fresh-IsFresh 3)
      (fresh-IsFresh 5) refl (omega arith) (omega arith) refl

late_message_example :
    (pl : Payload) × (encrypt_text toy (some nonce) hi (ready 3) ≡ ok pl)
    × (pl.type ≡ e2e_msg)
    × (decrypt_text toy granting pl renewed ≡ ok hi)
late_message_example =
    late_message toy granting nonce hi hi (replicate 16 0) (some []) (init_payload (offer 2 200))
      taken_answer (ready 3) (ready 5) renewed hi-IsSealed ready-Paired (omega arith) takes
      (λ e. omega arith)

abbrev refreshing : E2ESession
refreshing = record {
  crypto = fresh 0;
  old_crypto = keyed 3;
  timestamp = 200;
  state = refresh_sent;
  seqno = 2;
}

abbrev new_offer : Payload
new_offer = init_payload (record { seqno = 2; timestamp = 200; key = le_bytes 256 1 })

fresh_key : public_key toy (fresh 0) ≡ ok (le_bytes 256 1)
unfolding public_key dh_public_key prime
fresh_key = refl

refreshes : refresh toy (some []) 200 (ready 3) ≡ ok (refreshing, new_offer)
unfolding refresh
refreshes = rw (key_zero.0, ◌>>=◌, fresh_key)

refresh_leaks_example :
    (pl : Payload) × (encrypt_text toy none hi refreshing ≡ ok pl)
    × (pl.type ≡ plain_text)
    × (get_msg granting pl ≡ ok (record { seqno = 2; body = text hi }))
refresh_leaks_example =
    refresh_leaks toy granting (some []) none 200 hi (ready 3) refreshing new_offer refreshes
      (omega arith) refl
