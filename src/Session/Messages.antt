-- ===== src/Session/Messages.antt =====
-- Messages between two sessions: delivered, delivered late, or sent without a key.
use leaky_chat.Prelude.{
  ℕ, ◌^◌, ◌<◌, ◌≡◌, ◌≢◌, refl, sym, arith, true, false, Option, some, List, length, ok, ◌>>=◌,
  >>=-eq-ok, ◌==◌, inl, inr, if◌then◌else◌,
}
use leaky_chat.Buffer.Codec.{Limits, Payload, plain_text, e2e_msg}
use leaky_chat.Crypto.{
  Ssl, CryptoSession, EncryptedData, new_crypto, public_key, encrypt, decrypt, gcm_encrypt,
  gcm_decrypt,
}
use leaky_chat.Session.{
  E2ESession, established, refresh_sent, refresh, handle_init, encrypt_text, decrypt_text,
}
use leaky_chat.Session.Payloads.{E2EMsg, text, sealed, msg_payload, get_init, get_msg}
use leaky_chat.Session.Codec.{get_msg-msg_payload}
use leaky_chat.Session.Handshake.{Paired}
use leaky_chat.Session.Offers.{Renews}
use leaky_chat.Session.Machine.{handle_init_cases}

-- The session that `decrypt` picks for a message of number `n`.
abbrev pub picked : ℕ → E2ESession → CryptoSession
picked n t = if n == t.seqno then t.crypto else t.old_crypto

module _ (ssl : Ssl) (lim : Limits) (nonce m cipher tag : List ℕ) where
  -- A text that fits, is granted memory, and is sealed by OpenSSL under `key`.
  pub record IsSealed (key : List ℕ) : Type 0 where
    pub fits : length m < 2 ^ 60
    pub granted : lim.bytes (length m) ≡ true
    pub nonce_size : length nonce ≡ 12
    pub seals : ssl.gcm_seal key nonce m ≡ some (cipher, tag)

  sealed_data : EncryptedData
  sealed_data = record { nonce = nonce; ciphertext = cipher; tag = tag }

  -- A message goes through if the receiver picks a session with the sender's key.
  deliver :
      (s t : E2ESession)
      → IsSealed s.crypto.key
      → s.state ≡ established
      → s.crypto.established ≡ true
      → s.seqno < 2 ^ 32
      → t.state ≡ established
      → (picked s.seqno t).established ≡ true
      → (picked s.seqno t).key ≡ s.crypto.key
      → (pl : Payload) × (encrypt_text ssl (some nonce) m s ≡ ok pl)
        × (pl.type ≡ e2e_msg)
        × (decrypt_text ssl lim pl t ≡ ok m)
  unfolding encrypt_text decrypt_text encrypt decrypt gcm_encrypt gcm_decrypt sealed_data
      msg_payload
  deliver s t v hs he hn ht hp hk =
      let (lc, lt) = ssl.gcm_seal_shape s.crypto.key nonce m cipher tag v.seals in
      let msg : E2EMsg = record { seqno = s.seqno; body = sealed sealed_data } in
      let back : get_msg lim (msg_payload msg) ≡ ok msg =
        get_msg-msg_payload lim msg hn (v.nonce_size, lt, omega (arith, lc, v.fits))
          (rw lc v.granted) in
      let opens : ssl.gcm_open (picked s.seqno t).key nonce cipher tag ≡ some m =
        rw hk (ssl.gcm_open-gcm_seal s.crypto.key nonce m cipher tag v.seals) in
      (msg_payload msg, rw (hs, he, v.seals), refl, rw (back, ◌>>=◌, ht, hp, opens))

  -- Between paired sessions a message goes out as E2E_MSG and arrives as it was sent, if OpenSSL
  -- seals it and the receiver has the memory for it.
  pub decrypt_text-encrypt_text :
      (s t : E2ESession)
      → IsSealed s.crypto.key
      → Paired s t
      → s.seqno < 2 ^ 32
      → (pl : Payload) × (encrypt_text ssl (some nonce) m s ≡ ok pl)
        × (pl.type ≡ e2e_msg)
        × (decrypt_text ssl lim pl t ≡ ok m)
  decrypt_text-encrypt_text s t v p hn =
      let same : (s.seqno == t.seqno) ≡ true = ground arith in
      deliver s t v p.states.0 p.keyed.0 hn p.states.1 (rw same p.keyed.1) (rw same (sym p.key))

established_old :
    (ssl : Ssl) (rand : Option (List ℕ)) (s : E2ESession) (c old : CryptoSession)
    → s.state ≡ established
    → Renews ssl rand s c old
    → old ≡ s.crypto
established_old ssl rand s c old h (inl (_, _, e)) = e
established_old ssl rand s c old h (inr (n, _, _)) = absurd (n h)

-- A message that one of two paired sessions sealed before the other took an offer of another number
-- is still read after it.
pub late_message :
    (ssl : Ssl) (lim : Limits) (nonce m cipher tag : List ℕ) (rand : Option (List ℕ))
    (offer ack : Payload) (s b t : E2ESession)
    → IsSealed ssl lim nonce m cipher tag s.crypto.key
    → Paired s b
    → s.seqno < 2 ^ 32
    → handle_init ssl lim rand offer b ≡ ok (t, some ack)
    → t.seqno ≢ b.seqno
    → (pl : Payload) × (encrypt_text ssl (some nonce) m s ≡ ok pl)
      × (pl.type ≡ e2e_msg)
      × (decrypt_text ssl lim pl t ≡ ok m)
unfolding handle_init
late_message ssl lim nonce m cipher tag rand offer ack s b t v p hn h ne =
    let (i, e, h1) = >>=-eq-ok (get_init lim offer) _ h in
    elim (handle_init_cases ssl lim rand offer i b t (some ack) e h) [
      | inl (_, a) ↦
          let (c, _, w) = a.key in
          let old : t.old_crypto ≡ b.crypto =
            established_old ssl rand b c t.old_crypto p.states.1 w in
          let other : (s.seqno == t.seqno) ≡ false = ground arith in
          deliver ssl lim nonce m cipher tag s t v p.states.0 p.keyed.0 hn a.state
            (rw (other, old) p.keyed.1) (rw (other, old) (sym p.key))
      | inr (_, _, q) ↦ absurd (cc)
    ]

-- From the moment a session asks for new keys until the answer comes, it sends the text as it is.
pub refresh_leaks :
    (ssl : Ssl) (lim : Limits) (rand rand' : Option (List ℕ)) (now : ℕ) (m : List ℕ)
    (s t : E2ESession) (offer : Payload)
    → refresh ssl rand now s ≡ ok (t, offer)
    → length m < 2 ^ 60
    → lim.text (length m) ≡ true
    → (pl : Payload) × (encrypt_text ssl rand' m t ≡ ok pl)
      × (pl.type ≡ plain_text)
      × (get_msg lim pl ≡ ok (record { seqno = t.seqno; body = text m }))
unfolding refresh encrypt_text msg_payload
refresh_leaks ssl lim rand rand' now m s t offer h hm hl =
    let (c, _, h1) = >>=-eq-ok (new_crypto ssl rand) _ h in
    let (k, _, h2) = >>=-eq-ok (public_key ssl c) _ h1 in
    let waits : t.state ≡ refresh_sent = ground arith in
    let small : t.seqno < 2 ^ 32 = ground arith in
    (
      msg_payload (record { seqno = t.seqno; body = text m }),
      rw waits,
      refl,
      get_msg-msg_payload lim (record { seqno = t.seqno; body = text m }) small hm hl,
    )
