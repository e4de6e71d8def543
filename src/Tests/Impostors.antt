-- ===== src/Tests/Impostors.antt =====
-- Mallory in the server's place, on the toy certificates.
use leaky_chat.Prelude.{
  ℕ, ◌+◌, ◌≤◌, ◌<◌, ◌⊎◌, ◌≡◌, refl, arith, true, List, [], ◌∷◌, ◌++◌, length, All, Option, some,
  none, joined, append-nil, ok, if◌then◌else◌, eq_bytes, undefined, false,
}
use leaky_chat.Buffer.{MemBuffer, new_buffer, live}
use leaky_chat.Buffer.Codec
use leaky_chat.Buffer.Encoding.{string_bytes, length-string_bytes}
use leaky_chat.Network.{new_handler, close}
use leaky_chat.Network.Certificates.{Pki}
use leaky_chat.Network.Line.{returns, Reception, chunk, again}
use leaky_chat.Network.Reassembly.{text_of, Flows, Flows-chunk}
use leaky_chat.Network.Handshake.{connect}
use leaky_chat.Phases.Buffer.{put_bytes, put_int, put_each, write_bytes, ensure_free_space, resize}
use leaky_chat.Phases.Buffer.Contract.{new_buffer-put_bytes}
use leaky_chat.Phases.Impostor.{
  MalloryProxy, Sending, took, interrupted, send_vector, receive_vector,
  run_fake_certificate_attack, run_stolen_certificate_attack,
}
use leaky_chat.Phases.Impostor.Vectors.{receive_vector-send_vector}
use leaky_chat.Phases.Impostor.Refusal.{fake_certificate_refused}
use leaky_chat.Phases.Impostor.Stolen.{stolen_certificate_refused}
use leaky_chat.Tests.Samples.{toy, granting}
use leaky_chat.Tests.Handshakes.{toy_pki, crt, challenge, all_taken}

new_buffer-put_bytes_example :
    ((8 + length crt ≤ 16 + 16)
      × ((b : MemBuffer) × (put_bytes crt (new_buffer 16) ≡ ok b)
          × (live b ≡ live (Codec.put_bytes crt (new_buffer 16)))))
    ⊎ ((16 + 16 < 8 + length crt) × (put_bytes crt (new_buffer 16) ≡ undefined))
new_buffer-put_bytes_example = new_buffer-put_bytes crt 16 (omega arith) (omega arith) (omega arith)

-- Eight bytes of size and one element fill a buffer of four bytes beyond its block.
overrun : put_bytes (7 ∷ []) (new_buffer 4) ≡ undefined
unfolding put_bytes put_int write_bytes ensure_free_space new_buffer Codec.le_bytes resize put_each
overrun = refl

abbrev sending : List Sending
sending = took 3 ∷ interrupted ∷ took 100 ∷ []

abbrev cut : List Reception
cut = chunk (string_bytes crt) ∷ again ∷ chunk (9 ∷ []) ∷ []

cut-Flows : All Flows cut
cut-Flows =
    (Flows-chunk (string_bytes crt) (omega (arith, length-string_bytes crt)), (tt, (tt, tt)))

receive_vector-send_vector_example :
    (pieces : List (List ℕ)) × (rest : List Reception) × (send_vector sending crt
        (record { incoming = []; sent = [] })
      ≡ returns true (record { incoming = []; sent = pieces }))
    × (text_of cut ≡ joined pieces ++ (9 ∷ []))
    × (receive_vector (record { incoming = cut; sent = [] })
        ≡ returns (some crt) (record { incoming = rest; sent = [] }))
    × (text_of rest ≡ 9 ∷ [])
receive_vector-send_vector_example =
    receive_vector-send_vector sending crt (9 ∷ []) cut (record { incoming = []; sent = [] }) []
      (tt, (tt, (tt, tt))) (omega arith) (omega arith) cut-Flows refl

-- The certificate authority vouches for `crt` alone.
abbrev strict_pki : Pki
strict_pki = record toy_pki { verify_cert = λ store cert. some (eq_bytes cert crt) }

abbrev fake : List ℕ
fake = 66 ∷ 66 ∷ []

abbrev mallory : MalloryProxy
mallory = record {
  fake_certificate_path = 1 ∷ [];
  legitimate_certificate_path = 2 ∷ [];
  mallory_private_key_path = 3 ∷ [];
}

abbrev her_files : List ℕ → Option (List ℕ)
her_files path = if eq_bytes path (2 ∷ []) then some crt else some fake

fake_certificate_refused_example :
    (pieces : List (List ℕ)) × (run_fake_certificate_attack strict_pki her_files mallory true true
        sending
        (record { incoming = []; sent = [] })
      ≡ returns 0 (record { incoming = []; sent = pieces }))
    × (joined pieces ≡ string_bytes fake)
    × (connect toy strict_pki granting all_taken
          (some 4)
          true
          crt
          (some challenge)
          none
          new_handler
          (record { incoming = chunk (joined pieces) ∷ []; sent = [] })
        ≡ returns (false, close new_handler) (record { incoming = []; sent = [] }))
unfolding eq_bytes
fake_certificate_refused_example =
    fake_certificate_refused toy strict_pki granting all_taken her_files mallory fake crt sending 4
      (some challenge) none new_handler [] refl (omega arith) (omega arith) (tt, (tt, (tt, tt)))
      (omega arith)
      (record {
        cert = fake;
        store = _;
        reads = refl;
        loads = refl;
        untrusted = refl;
        granted = refl;
      })
      refl

abbrev to_mallory : List Reception
to_mallory = chunk (string_bytes challenge) ∷ []

stolen_certificate_refused_example :
    (first second : List (List ℕ)) × (rs' : List Reception) × (run_stolen_certificate_attack
        strict_pki her_files mallory true true sending sending
        (record { incoming = to_mallory; sent = [] })
      ≡ returns 0 (record { incoming = rs'; sent = first ++ second }))
    × (connect toy strict_pki granting all_taken
          (some 4)
          true
          crt
          (some challenge)
          none
          new_handler
          (record { incoming = chunk (joined first) ∷ chunk (joined second) ∷ []; sent = [] })
        ≡ returns
            (false, close new_handler)
            (record { incoming = []; sent = string_bytes challenge ∷ [] }))
unfolding eq_bytes
stolen_certificate_refused_example =
    stolen_certificate_refused toy strict_pki granting all_taken crt crt fake challenge
      (fake ++ challenge)
      (record {
        cert = crt;
        store = _;
        pubkey = crt;
        own_key = fake;
        reads = refl;
        loads = refl;
        trusted = refl;
        address = refl;
        has_key = refl;
        reads_key = refl;
        signs = refl;
        forged = refl;
        challenge_size = refl;
        crt_size = omega arith;
        sig_size = omega arith;
        granted = (refl, refl);
      })
      her_files mallory sending sending 4 none new_handler to_mallory [] (λ k n. refl) refl refl
      (tt, (tt, (tt, tt))) (omega arith) (tt, (tt, (tt, tt))) (omega arith)
      (Flows-chunk (string_bytes challenge) (omega (arith, length-string_bytes challenge)), tt)
      (append-nil (string_bytes challenge)) refl
