-- ===== src/Network/Certificates.antt =====
-- utils/Cryptography/Certificate.hh and Certificate.cc: certificates, over the calls of OpenSSL on
-- them, which are parameters.
use leaky_chat.Prelude.{
  ℕ, ◌≡◌, List, Option, none, some, Bool, true, false, if◌then◌else◌, Outcome, ok, throws,
  runtime_error, ◌>>=◌,
}

-- What OpenSSL makes of certificates and keys; `none` is a call that fails. `load_store` is a new
-- store with the certificates of a path, `verify_cert` runs on a new context, and the digests are
-- SHA-256. The law is what EVP_DigestSign and EVP_DigestVerify promise for a private key and its public key.
pub record Pki : Type 1 where
  pub Cert : Type 0
  pub Store : Type 0
  pub PublicKey : Type 0
  pub PrivateKey : Type 0
  pub read_x509 : List ℕ → Option Cert
  pub load_store : List ℕ → Option Store
  pub verify_cert : Store → Cert → Option Bool
  pub check_ip : Cert → List ℕ → Bool
  pub get_pubkey : Cert → Option PublicKey
  pub read_private_key : List ℕ → Option PrivateKey
  pub digest_sign : PrivateKey → List ℕ → Option (List ℕ)
  pub digest_verify : PublicKey → List ℕ → List ℕ → Option Bool
  pub IsPair : PrivateKey → PublicKey → Type 0
  pub digest_verify-digest_sign :
      (k : PrivateKey) (p : PublicKey) (bytes sig : List ℕ)
      → IsPair k p
      → digest_sign k bytes ≡ some sig
      → digest_verify p bytes sig ≡ some true

-- A null pointer throws.
abbrev pub wanted {ℓ} : {A : Type ℓ} → Option A → Outcome A
wanted none = throws runtime_error
wanted (some a) = ok a

module _ (pki : Pki) where
  -- `Certificate(data)`; and `Certificate(path)`, with the files that can be opened.
  unfoldable pub new_certificate : List ℕ → Outcome pki.Cert
  new_certificate bytes = wanted (pki.read_x509 bytes)

  unfoldable pub certificate_at : (List ℕ → Option (List ℕ)) → List ℕ → Outcome pki.Cert
  certificate_at files path = wanted (files path) >>= λ text. wanted (pki.read_x509 text)

  unfoldable pub verify : List ℕ → List ℕ → pki.Cert → Outcome Bool
  verify ca_path identity cert = do
    store ← wanted (pki.load_store ca_path)
    trusted ← wanted (pki.verify_cert store cert)
    ok (if trusted then pki.check_ip cert identity else false)

  unfoldable pub sign : (List ℕ → Option (List ℕ)) → List ℕ → List ℕ → Outcome (List ℕ)
  sign files path bytes = do
    text ← wanted (files path)
    key ← wanted (pki.read_private_key text)
    wanted (pki.digest_sign key bytes)

  unfoldable pub verify_signature : List ℕ → List ℕ → pki.Cert → Outcome Bool
  verify_signature bytes sig cert = do
    key ← wanted (pki.get_pubkey cert)
    wanted (pki.digest_verify key bytes sig)
