-- ===== src/Crypto.antt =====
-- utils/Cryptography: AESGCM, KeyDerivation, DHKeyExchange and CryptoSession. OpenSSL is the
-- parameter `Ssl`: a BIGNUM is the number that it holds, and allocation of OpenSSL objects succeeds.
-- Random bytes are arguments, `none` where RAND_bytes fails.
pub mod Powers
pub mod Agreement
use leaky_chat.Prelude.{
  ℕ, zero, suc, ◌+◌, ◌*◌, ◌/◌, ◌%◌, ◌^◌, ◌<◌, ◌≤◌, ◌≡◌, Bool, true, false, Option, none, some, List,
  [], length, replicate, if◌then◌else◌, ◌==◌, Outcome, ok, throws, runtime_error, ◌>>=◌,
}

-- What the code calls of OpenSSL, with what its manual says of each call. The chains of EVP calls
-- that make up a digest, an encryption and a decryption are one operation each, `none` where one of
-- the calls reports a failure: the code throws the same exception after each.
pub record Ssl : Type 0 where
  -- BN_mod, BN_mod_mul, BN_rshift1, BN_is_odd, BN_is_zero
  pub bn_mod : ℕ → ℕ → ℕ
  pub bn_mod_mul : ℕ → ℕ → ℕ → ℕ
  pub bn_rshift1 : ℕ → ℕ
  pub bn_is_odd : ℕ → Bool
  pub bn_is_zero : ℕ → Bool
  -- BN_bin2bn and BN_bn2binpad
  pub bin2bn : List ℕ → ℕ
  pub bn2binpad : ℕ → ℕ → Option (List ℕ)
  -- SHA-256, and AES-256-GCM by key, nonce, text and tag
  pub sha256 : List ℕ → Option (List ℕ)
  pub gcm_seal : List ℕ → List ℕ → List ℕ → Option (List ℕ × List ℕ)
  pub gcm_open : List ℕ → List ℕ → List ℕ → List ℕ → Option (List ℕ)
  pub bn_mod_lem : (a m : ℕ) → bn_mod a m ≡ a % m
  pub bn_mod_mul_lem : (a b m : ℕ) → bn_mod_mul a b m ≡ a * b % m
  pub bn_rshift1_lem : (a : ℕ) → bn_rshift1 a ≡ a / 2
  pub bn_is_odd_lem : (a : ℕ) → bn_is_odd a ≡ (a % 2 == 1)
  pub bn_is_zero_lem : (a : ℕ) → bn_is_zero a ≡ (a == 0)
  pub bn2binpad_fits :
      (a k : ℕ) → a < 256 ^ k → (xs : List ℕ) × (bn2binpad a k ≡ some xs) × (length xs ≡ k)
  pub bin2bn-bn2binpad : (a k : ℕ) (xs : List ℕ) → bn2binpad a k ≡ some xs → bin2bn xs ≡ a
  pub gcm_seal_shape :
      (key nonce text cipher tag : List ℕ)
      → gcm_seal key nonce text ≡ some (cipher, tag)
      → (length cipher ≡ length text) × (length tag ≡ 16)
  pub gcm_open-gcm_seal :
      (key nonce text cipher tag : List ℕ)
      → gcm_seal key nonce text ≡ some (cipher, tag)
      → gcm_open key nonce cipher tag ≡ some text

-- `throw std::runtime_error` where a call reports a failure.
abbrev pub or_throw {ℓ} : {A : Type ℓ} → Option A → Outcome A
or_throw none = throws runtime_error
or_throw (some a) = ok a

-- AESGCM::EncryptedData; a nonce has 12 bytes and a tag 16.
pub record EncryptedData : Type 0 where
  pub nonce : List ℕ
  pub ciphertext : List ℕ
  pub tag : List ℕ

-- GROUP14_PRIME, the 2048-bit group of RFC 3526.
unfoldable pub prime : ℕ
prime =
    0xFFFFFFFFFFFFFFFFC90FDAA22168C234C4C6628B80DC1CD129024E088A67CC74020BBEA63B139B22514A08798E3404DDEF9519B3CD3A431B302B0A6DF25F14374FE1356D6D51C245E485B576625E7EC6F44C42E9A637ED6B0BFF5CB6F406B7EDEE386BFB5A899FA5AE9F24117C4B1FE649286651ECE45B3DC2007CB8A163BF0598DA48361C55D39A69163FA8FD24CF5F83655D23DCA3AD961C62F356208552BB9ED529077096966D670C354E4ABC9804F1746C08CA18217C32905E462E36CE3BE39E772C180E86039B2783A2EC07A28FB5C55DF06F4C52C9DE2BCBF6955817183995497CEA956AE515D2261898FA051015728E5A8AACAA68FFFFFFFFFFFFFFFF

abbrev pub generator : ℕ
generator = 2

-- DHKeyExchange.
pub record DhKeyExchange : Type 0 where
  pub private_key : ℕ
  pub public_key : ℕ

-- CryptoSession. The key is an array of 32 zeros until it is established.
pub record CryptoSession : Type 0 where
  pub dh : DhKeyExchange
  pub key : List ℕ
  pub established : Bool

module _ (ssl : Ssl) where
  -- The `while` of `modExp`, on fuel.
  unfoldable pub mod_exp_loop : ℕ → ℕ → ℕ → ℕ → ℕ → Option ℕ
  mod_exp_loop zero result b e modulus = none
  mod_exp_loop (suc fuel) result b e modulus =
      let result' = if ssl.bn_is_odd e then ssl.bn_mod_mul result b modulus else result in
      let rest =
        mod_exp_loop fuel result' (ssl.bn_mod_mul b b modulus) (ssl.bn_rshift1 e) modulus in
      if ssl.bn_is_zero e then some result else rest

  -- The exponent is halved in each round, so more rounds than its value are never made.
  unfoldable pub mod_exp : ℕ → ℕ → ℕ → Option ℕ
  mod_exp base exponent modulus =
      mod_exp_loop (suc exponent) 1 (ssl.bn_mod base modulus) exponent modulus

  -- DHKeyExchange() over the 32 bytes that RAND_bytes gave.
  unfoldable pub new_dh : Option (List ℕ) → Outcome DhKeyExchange
  new_dh rand = do
    bytes ← or_throw rand
    public ← or_throw (mod_exp generator (ssl.bin2bn bytes) prime)
    ok (record { private_key = ssl.bin2bn bytes; public_key = public })

  unfoldable pub dh_public_key : DhKeyExchange → Outcome (List ℕ)
  dh_public_key d = or_throw (ssl.bn2binpad d.public_key 256)

  unfoldable pub compute_shared_secret : DhKeyExchange → List ℕ → Outcome (List ℕ)
  compute_shared_secret d peer = do
    shared ← or_throw (mod_exp (ssl.bin2bn peer) d.private_key prime)
    or_throw (ssl.bn2binpad shared 256)

  -- KeyDerivation::deriveKey, with its test of the digest's length.
  unfoldable pub derive_key : List ℕ → Outcome (List ℕ)
  derive_key secret = do
    digest ← or_throw (ssl.sha256 secret)
    if length digest == 32 then ok digest else throws runtime_error

  unfoldable pub gcm_encrypt : List ℕ → Option (List ℕ) → List ℕ → Outcome EncryptedData
  gcm_encrypt key rand text = do
    nonce ← or_throw rand
    (cipher, tag) ← or_throw (ssl.gcm_seal key nonce text)
    ok (record { nonce = nonce; ciphertext = cipher; tag = tag })

  unfoldable pub gcm_decrypt : List ℕ → EncryptedData → Outcome (List ℕ)
  gcm_decrypt key e = or_throw (ssl.gcm_open key e.nonce e.ciphertext e.tag)

  unfoldable pub new_crypto : Option (List ℕ) → Outcome CryptoSession
  unfolding new_dh
  new_crypto rand = do
    d ← new_dh rand
    ok (record { dh = d; key = replicate 32 0; established = false })

  unfoldable pub public_key : CryptoSession → Outcome (List ℕ)
  unfolding dh_public_key
  public_key c = dh_public_key c.dh

  unfoldable pub establish : CryptoSession → List ℕ → Outcome CryptoSession
  unfolding compute_shared_secret derive_key
  establish c peer = if c.established then throws runtime_error else do
    secret ← compute_shared_secret c.dh peer
    key ← derive_key secret
    ok (record c { key = key; established = true })

  unfoldable pub encrypt : CryptoSession → Option (List ℕ) → List ℕ → Outcome EncryptedData
  unfolding gcm_encrypt
  encrypt c rand text = if c.established then gcm_encrypt c.key rand text else throws runtime_error

  unfoldable pub decrypt : CryptoSession → EncryptedData → Outcome (List ℕ)
  unfolding gcm_decrypt
  decrypt c e = if c.established then gcm_decrypt c.key e else throws runtime_error
