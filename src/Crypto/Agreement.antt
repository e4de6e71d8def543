-- ===== src/Crypto/Agreement.antt =====
-- Two parties derive the same key from each other's public keys.
use leaky_chat.Prelude.{
  ℕ, ◌%◌, ◌^◌, ◌<◌, ◌≡◌, refl, sym, ap, ◌∙◌, arith, true, false, some, List, length, replicate, ok,
  throws, runtime_error,
}
use leaky_chat.Crypto.{
  Ssl, DhKeyExchange, CryptoSession, prime, generator, new_dh, dh_public_key, or_throw,
  EncryptedData, gcm_encrypt, gcm_decrypt, compute_shared_secret, derive_key, new_crypto,
  public_key, establish, encrypt, decrypt,
}
use leaky_chat.Crypto.Powers.{mod_exp_lem, pow_comm_mod}

prime_bounds : (1 < prime) × (prime < 256 ^ 256)
unfolding prime
prime_bounds = omega arith

-- The public number belongs to the private one.
abbrev pub IsDh : DhKeyExchange → Type 0
IsDh d = d.public_key ≡ generator ^ d.private_key % prime

module _ (ssl : Ssl) where
  -- The constructor succeeds on any 32 random bytes, with a matching pair.
  pub new_dh-IsDh : (rand : List ℕ) → (d : DhKeyExchange) × (new_dh ssl (some rand) ≡ ok d) × IsDh d
  unfolding new_dh
  new_dh-IsDh rand = (
    record { private_key = ssl.bin2bn rand; public_key = generator ^ ssl.bin2bn rand % prime },
    rw (mod_exp_lem ssl generator (ssl.bin2bn rand) prime prime_bounds.0),
    refl,
  )

  -- A public key is 256 bytes that stand for the public number.
  public_key_bytes :
      (d : DhKeyExchange)
      → IsDh d
      → (p : List ℕ) × (dh_public_key ssl d ≡ ok p)
        × (ssl.bin2bn p ≡ generator ^ d.private_key % prime)
        × (length p ≡ 256)
  unfolding dh_public_key
  public_key_bytes d v =
      let fits : d.public_key < 256 ^ 256 = omega (arith, prime_bounds) in
      let (p, e, n) = ssl.bn2binpad_fits d.public_key 256 fits in
      (p, ap or_throw e, ssl.bin2bn-bn2binpad d.public_key 256 p e ∙ v, n)

  shared :
      (d : DhKeyExchange) (peer : List ℕ)
      → (s : List ℕ) × (compute_shared_secret ssl d peer ≡ ok s)
        × (ssl.bn2binpad (ssl.bin2bn peer ^ d.private_key % prime) 256 ≡ some s)
  unfolding compute_shared_secret
  shared d peer =
      let n : ℕ = ssl.bin2bn peer ^ d.private_key % prime in
      let fits : n < 256 ^ 256 = omega (arith, prime_bounds) in
      let (s, e, _) = ssl.bn2binpad_fits n 256 fits in
      (s, rw (mod_exp_lem ssl (ssl.bin2bn peer) d.private_key prime prime_bounds.0, e), e)

  -- Diffie and Hellman: each side's secret from the other's public key is the same 256 bytes, and
  -- no call fails.
  pub dh_agreement :
      (a b : DhKeyExchange)
      → IsDh a
      → IsDh b
      → (pa pb s : List ℕ) × (dh_public_key ssl a ≡ ok pa)
        × (dh_public_key ssl b ≡ ok pb)
        × (length pa ≡ 256)
        × (length pb ≡ 256)
        × (compute_shared_secret ssl a pb ≡ ok s)
        × (compute_shared_secret ssl b pa ≡ ok s)
  dh_agreement a b va vb =
      let (pa, ea, na, la) = public_key_bytes a va in
      let (pb, eb, nb, lb) = public_key_bytes b vb in
      let (s, es, ks) = shared a pb in
      let (t, et, kt) = shared b pa in
      let same : some s ≡ some t =
        sym ks
        ∙ ap (λ n. ssl.bn2binpad n 256)
            (ap (λ n. n ^ a.private_key % prime) nb
              ∙ pow_comm_mod generator b.private_key a.private_key prime
              ∙ sym (ap (λ n. n ^ b.private_key % prime) na))
        ∙ kt in
      (pa, pb, s, ea, eb, la, lb, es, et ∙ cc)

  -- A session that was made and not yet established.
  pub record IsFresh (c : CryptoSession) : Type 0 where
    pub pair : IsDh c.dh
    pub idle : c.established ≡ false

  pub new_crypto-IsFresh :
      (rand : List ℕ) → (c : CryptoSession) × (new_crypto ssl (some rand) ≡ ok c) × IsFresh c
  unfolding new_crypto
  new_crypto-IsFresh rand =
      let (d, e, v) = new_dh-IsDh rand in
      (
        record { dh = d; key = replicate 32 0; established = false },
        rw e,
        record { pair = v; idle = refl },
      )

-- SHA-256 never fails, and its digest has 32 bytes.
abbrev pub Digests : Ssl → Type 0
Digests ssl = (xs : List ℕ) → (k : List ℕ) × (ssl.sha256 xs ≡ some k) × (length k ≡ 32)

module _ (ssl : Ssl) (digests : Digests ssl) where
  -- Establishing against any peer key succeeds once, with the digest of the shared secret.
  establish_from :
      (c : CryptoSession) (peer s : List ℕ)
      → c.established ≡ false
      → compute_shared_secret ssl c.dh peer ≡ ok s
      → establish ssl c peer ≡ ok (record c { key = (digests s).0; established = true })
  unfolding establish derive_key
  establish_from c peer s h e = let (k, ek, nk) = digests s in ground (arith, ek, nk)

  -- Two fresh sessions that exchange public keys both end established, with the same key.
  pub crypto_agreement :
      (a b : CryptoSession)
      → IsFresh ssl a
      → IsFresh ssl b
      → (pa pb key : List ℕ) × (public_key ssl a ≡ ok pa)
        × (public_key ssl b ≡ ok pb)
        × (length pa ≡ 256)
        × (length pb ≡ 256)
        × (establish ssl a pb ≡ ok (record a { key = key; established = true }))
        × (establish ssl b pa ≡ ok (record b { key = key; established = true }))
  unfolding public_key
  crypto_agreement a b va vb =
      let (pa, pb, s, ea, eb, la, lb, es, et) = dh_agreement ssl a.dh b.dh va.pair vb.pair in
      (
        pa,
        pb,
        (digests s).0,
        ea,
        eb,
        la,
        lb,
        establish_from a pb s va.idle es,
        establish_from b pa s vb.idle et,
      )

-- An established session is not established again.
pub establish_twice :
    (ssl : Ssl) (c : CryptoSession) (peer : List ℕ)
    → c.established ≡ true
    → establish ssl c peer ≡ throws runtime_error
unfolding establish
establish_twice ssl c peer h = rw h

-- What a session encrypts, a session with the same key decrypts to the same text.
pub decrypt-encrypt :
    (ssl : Ssl) (a b : CryptoSession) (nonce text : List ℕ) (e : EncryptedData)
    → a.established ≡ true
    → b.established ≡ true
    → a.key ≡ b.key
    → encrypt ssl a (some nonce) text ≡ ok e
    → decrypt ssl b e ≡ ok text
unfolding encrypt decrypt gcm_encrypt gcm_decrypt
decrypt-encrypt ssl a b nonce text e ha hb k h =
    ground (arith, ssl.gcm_open-gcm_seal a.key nonce text e.ciphertext e.tag)
