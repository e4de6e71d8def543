-- ===== src/Tests/Handshakes.antt =====
-- Handshakes, with and without a relay, and a client that connects.
use leaky_chat.Prelude.{
  ℕ, ◌≡◌, refl, sym, ap, ◌∙◌, arith, true, List, [], ◌∷◌, ◌++◌, length, All, Option, some, ok,
  replicate, eq_bytes, eq_bytes_refl, append-nil,
}
use leaky_chat.Buffer.Encoding.{string_bytes, length-string_bytes}
use leaky_chat.Crypto.{CryptoSession, new_crypto, public_key, establish}
use leaky_chat.Crypto.Agreement.{IsFresh, new_crypto-IsFresh, crypto_agreement}
use leaky_chat.Network.{NetworkHandler, new_handler}
use leaky_chat.Network.Certificates.{Pki}
use leaky_chat.Network.Line.{Line, ◌>>=◌, returns, Reception, chunk, again}
use leaky_chat.Network.Reassembly.{text_of, Flows, Flows-chunk}
use leaky_chat.Network.Handshake.{secured, client_handshake, server_handshake, connect}
use leaky_chat.Network.Authentication.{IsCertified, client_handshake_lem}
use leaky_chat.Network.Relay.{IsMade, agreed, keyed_by, handshake_agreement, relay_unnoticed}
use leaky_chat.Tests.Samples.{toy, toy-Digests, granting}

pub verifies :
    (k p xs sig : List ℕ)
    → k ≡ p
    → some (k ++ xs) ≡ some sig
    → some (eq_bytes (p ++ xs) sig) ≡ some true
verifies k p xs sig e h =
    let f : k ++ xs ≡ sig = ground arith in rw (← f, ← e) (ap some (eq_bytes_refl (k ++ xs)))

-- Certificates that are their own keys; a signature is the key and what is signed.
abbrev pub toy_pki : Pki
toy_pki = record {
  Cert = List ℕ;
  Store = List ℕ;
  PublicKey = List ℕ;
  PrivateKey = List ℕ;
  read_x509 = λ xs. some xs;
  load_store = λ path. some path;
  verify_cert = λ store cert. some true;
  check_ip = λ cert host. eq_bytes cert host;
  get_pubkey = λ cert. some cert;
  read_private_key = λ xs. some xs;
  digest_sign = λ key xs. some (key ++ xs);
  digest_verify = λ key xs sig. some (eq_bytes (key ++ xs) sig);
  IsPair = λ k p. k ≡ p;
  digest_verify-digest_sign = verifies;
}

abbrev pub crt : List ℕ
crt = 10 ∷ 0 ∷ 0 ∷ 1 ∷ []

abbrev pub challenge : List ℕ
challenge = replicate 32 4

abbrev pub files : List ℕ → Option (List ℕ)
files path = some crt

abbrev pub all_taken : ℕ → ℕ → Option ℕ
all_taken k n = some n

pub crt-IsCertified :
    IsCertified toy toy_pki granting all_taken files crt crt challenge (crt ++ challenge)
crt-IsCertified = record {
  cert = crt;
  store = _;
  private_key = crt;
  pubkey = crt;
  pem = crt;
  crt_file = refl;
  key_file = refl;
  reads = refl;
  reads_key = refl;
  has_key = refl;
  pair = refl;
  loads = refl;
  trusted = refl;
  address = eq_bytes_refl crt;
  crt_fits = omega arith;
  crt_granted = refl;
  challenge_size = refl;
  challenge_granted = refl;
  signs = refl;
  sig_fits = omega arith;
  sig_granted = refl;
}

-- The crypto session of some random bytes, its public key and what is known of them.
abbrev pub seed : ℕ → List ℕ
seed n = replicate 32 n

pub party : ℕ → CryptoSession
party n = (new_crypto-IsFresh toy (seed n)).0

party-IsFresh : (n : ℕ) → IsFresh toy (party n)
unfolding party
party-IsFresh n = let (c, e, v) = new_crypto-IsFresh toy (seed n) in v

pub party_made : (n : ℕ) → new_crypto toy (some (seed n)) ≡ ok (party n)
unfolding party
party_made n = let (c, e, v) = new_crypto-IsFresh toy (seed n) in e

has_key : (n : ℕ) → (key : List ℕ) × (public_key toy (party n) ≡ ok key) × (length key ≡ 256)
has_key n =
    let (pa, pb, key, ea, eb, la, lb, ka, kb) =
      crypto_agreement toy toy-Digests (party n) (party n) (party-IsFresh n) (party-IsFresh n) in
    (pa, ea, la)

pub key_of : ℕ → List ℕ
key_of n = (has_key n).0

pub length-key_of : (n : ℕ) → length (key_of n) ≡ 256
unfolding key_of
length-key_of n = let (k, e, l) = has_key n in l

pub party-IsMade : (n : ℕ) → IsMade toy (seed n) (party n) (key_of n)
unfolding key_of
party-IsMade n = record { made = party_made n; public = let (k, e, l) = has_key n in e }

-- The challenge and a key, in pieces.
abbrev pub to_server : ℕ → List Reception
to_server n = chunk (string_bytes challenge) ∷ again ∷ chunk (key_of n) ∷ []

pub to_server-Flows : (n : ℕ) → All Flows (to_server n)
to_server-Flows n = (
  Flows-chunk (string_bytes challenge) (omega (arith, length-string_bytes challenge)),
  (tt, (Flows-chunk (key_of n) (omega (arith, length-key_of n)), tt)),
)

pub text_of-to_server : (n : ℕ) → text_of (to_server n) ≡ string_bytes challenge ++ key_of n
text_of-to_server n = ap (λ k. string_bytes challenge ++ k) (append-nil (key_of n))

abbrev pub to_client : ℕ → Line
to_client n = record {
  incoming =
      chunk (string_bytes crt) ∷ chunk (string_bytes (crt ++ challenge)) ∷ chunk (key_of n) ∷ [];
  sent = [];
}

handshake_agreement_example :
    (key : List ℕ) × (rest : List Reception) × (client_handshake toy toy_pki granting all_taken crt
        (some challenge)
        (some (seed 3))
        new_handler
        (to_client 5)
      ≡ returns
          (true, secured (keyed_by key (party 3)) new_handler)
          (record { incoming = []; sent = string_bytes challenge ∷ key_of 3 ∷ [] }))
    × (server_handshake toy toy_pki granting all_taken files
          (some (seed 5))
          new_handler
          (record { incoming = to_server 3; sent = [] })
        ≡ returns
            (true, secured (keyed_by key (party 5)) new_handler)
            (record {
              incoming = rest;
              sent = string_bytes crt ∷ string_bytes (crt ++ challenge) ∷ key_of 5 ∷ [];
            }))
    × (text_of rest ≡ [])
handshake_agreement_example =
    handshake_agreement toy toy_pki granting all_taken files crt crt challenge (crt ++ challenge)
      (seed 3) (seed 5) (party 3) (party 5) (key_of 3) (key_of 5) new_handler new_handler
      (to_server 3) toy-Digests crt-IsCertified (λ k n. refl) (party-IsMade 3) (party-IsMade 5)
      (to_server-Flows 3) (text_of-to_server 3)

-- The relay has the parties 7, towards the client, and 9, towards the server.
relay_unnoticed_example :
    (for_client for_server : List ℕ) × (rest : List Reception) × (client_handshake toy toy_pki
        granting all_taken crt
        (some challenge)
        (some (seed 3))
        new_handler
        (to_client 7)
      ≡ returns
          (true, secured (keyed_by for_client (party 3)) new_handler)
          (record { incoming = []; sent = string_bytes challenge ∷ key_of 3 ∷ [] }))
    × (server_handshake toy toy_pki granting all_taken files
          (some (seed 5))
          new_handler
          (record { incoming = to_server 9; sent = [] })
        ≡ returns
            (true, secured (keyed_by for_server (party 5)) new_handler)
            (record {
              incoming = rest;
              sent = string_bytes crt ∷ string_bytes (crt ++ challenge) ∷ key_of 5 ∷ [];
            }))
    × (establish toy (party 7) (key_of 3) ≡ ok (keyed_by for_client (party 7)))
    × (establish toy (party 9) (key_of 5) ≡ ok (keyed_by for_server (party 9)))
relay_unnoticed_example =
    relay_unnoticed toy toy_pki granting all_taken files crt crt challenge (crt ++ challenge)
      (seed 3) (seed 5) (seed 7) (seed 9) (party 3) (party 5) (party 7) (party 9) (key_of 3)
      (key_of 5) (key_of 7) (key_of 9) new_handler new_handler (to_server 9) toy-Digests
      crt-IsCertified (λ k n. refl) (party-IsMade 3) (party-IsMade 5) (party-IsMade 7)
      (party-IsMade 9) (to_server-Flows 9) (text_of-to_server 9)

-- A client that connects to the server.
abbrev pub socketed : NetworkHandler
socketed = record new_handler { socket = some 4; connected = true }

pub shared : List ℕ
shared =
    (agreed toy toy-Digests (seed 3) (seed 5) (party 3) (party 5) (key_of 3) (key_of 5)
      (party-IsMade 3) (party-IsMade 5)).0

abbrev pub finished : Line
finished = record { incoming = []; sent = string_bytes challenge ∷ key_of 3 ∷ [] }

connect-client_handshake :
    (rand fresh : Option (List ℕ)) (h' : NetworkHandler) (l l' : Line)
    → client_handshake toy toy_pki granting all_taken crt rand fresh socketed l
      ≡ returns (true, h') l'
    → connect toy toy_pki granting all_taken (some 4) true crt rand fresh new_handler l
      ≡ returns (true, h') l'
unfolding connect
connect-client_handshake rand fresh h' l l' e = rw (connect, ◌>>=◌, e)

pub connects :
    connect toy toy_pki granting all_taken
      (some 4)
      true
      crt
      (some challenge)
      (some (seed 3))
      new_handler
      (to_client 5)
    ≡ returns (true, secured (keyed_by shared (party 3)) socketed) finished
unfolding shared
connects =
    let (key, la, lb, ka, kb) =
      agreed toy toy-Digests (seed 3) (seed 5) (party 3) (party 5) (key_of 3) (key_of 5)
        (party-IsMade 3) (party-IsMade 5) in
    connect-client_handshake (some challenge) (some (seed 3))
      (secured (keyed_by key (party 3)) socketed) (to_client 5) finished
      (client_handshake_lem toy toy_pki granting all_taken files crt crt challenge
        (crt ++ challenge) crt-IsCertified (λ k n. refl) (some (seed 3)) (party 3)
        (keyed_by key (party 3)) (key_of 3) (key_of 5) socketed [] [] (party_made 3)
        (party-IsMade 3).public (lb ∙ sym la) ka)
