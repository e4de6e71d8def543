-- ===== src/Phases/Impostor.antt =====
-- .phases/phase3/src/chat/mallory/MalloryProxy.cpp and .hh: the two attacks on the certificates, of
-- Mallory in the server's place. Left out are the printed lines and the closing of the sockets, after
-- which the program ends.
pub mod Vectors
pub mod Refusal
pub mod Stolen
use leaky_chat.Prelude.{
  ℕ, zero, suc, ◌-◌, ◌==◌, ltb, List, [], ◌∷◌, ◌++◌, length, take, drop, Option, none, some, Bool,
  true, false, ◌&&◌, if◌then◌else◌,
}
use leaky_chat.Buffer.{new_buffer, live}
use leaky_chat.Buffer.Codec.{from_le}
use leaky_chat.Phases.Buffer.{put_bytes}
use leaky_chat.Network.Certificates.{Pki}
use leaky_chat.Network.Line.{
  Line, M, pure, returns, blocks, ◌>>=◌, lift, Reception, chunk, again, failed,
}

-- The paths; the port and the host decide nothing here.
pub record MalloryProxy : Type 0 where
  pub fake_certificate_path : List ℕ
  pub legitimate_certificate_path : List ℕ
  pub mallory_private_key_path : List ℕ

-- What one call of `send` does: it takes some bytes, is interrupted, or fails.
pub data Sending : Type 0 where
  took : ℕ → Sending
  interrupted refused : Sending

abbrev pub is_empty : List ℕ → Bool
is_empty [] = true
is_empty (x ∷ xs) = false

abbrev pub wire : Line → List ℕ → Line
wire l xs = record l { sent = l.sent ++ (xs ∷ []) }

-- The loop of `sendAll`, over what its calls of `send` do.
unfoldable pub send_all : List Sending → List ℕ → M Bool
send_all [] xs l = if is_empty xs then returns true l else blocks
send_all (took zero ∷ rest) xs l = returns (is_empty xs) l
send_all (took (suc n) ∷ rest) xs l =
    let next = send_all rest (drop (suc n) xs) (wire l (take (suc n) xs)) in
    if is_empty xs then returns true l else next
send_all (interrupted ∷ rest) xs l =
    let next = send_all rest xs l in if is_empty xs then returns true l else next
send_all (refused ∷ rest) xs l = returns (is_empty xs) l

-- The loop of `receiveAll`, `left` bytes to go; `none` is its `false`. A piece that is longer than what is
-- to go stays for the next call.
unfoldable pub receive_from : ℕ → List ℕ → List Reception → M (Option (List ℕ))
receive_from left got [] l =
    if left == 0 then returns (some got) (record l { incoming = [] }) else blocks
receive_from left got (chunk [] ∷ rest) l =
    if left == 0
    then returns (some got) (record l { incoming = chunk [] ∷ rest })
    else returns none (record l { incoming = rest })
receive_from left got (chunk (x ∷ xs) ∷ rest) l =
    let whole = receive_from (left - suc (length xs)) (got ++ (x ∷ xs)) rest l in
    if left == 0
    then returns (some got) (record l { incoming = chunk (x ∷ xs) ∷ rest })
    else if ltb left (suc (length xs))
    then returns (some (got ++ take left (x ∷ xs)))
        (record l { incoming = chunk (drop left (x ∷ xs)) ∷ rest })
    else whole
receive_from left got (again ∷ rest) l =
    let next = receive_from left got rest l in
    if left == 0 then returns (some got) (record l { incoming = again ∷ rest }) else next
receive_from left got (failed ∷ rest) l =
    if left == 0
    then returns (some got) (record l { incoming = failed ∷ rest })
    else returns none (record l { incoming = rest })

abbrev pub receive_all : ℕ → M (Option (List ℕ))
receive_all size l = receive_from size [] l.incoming l

unfoldable pub send_vector : List Sending → List ℕ → M Bool
send_vector sending xs = lift (put_bytes xs (new_buffer 1024)) >>= λ b. send_all sending (live b)

-- The bytes that follow the announced size.
abbrev pub receive_body : Option (List ℕ) → M (Option (List ℕ))
receive_body none = pure none
receive_body (some head) =
    let size = from_le head in
    if ltb 65536 size then pure none else if size == 0 then pure (some []) else receive_all size

unfoldable pub receive_vector : M (Option (List ℕ))
receive_vector = receive_all 8 >>= receive_body

-- `readFile`, with the files that can be opened and read.
abbrev pub read_file : (List ℕ → Option (List ℕ)) → List ℕ → List ℕ
read_file files path = elim (files path) [ none ↦ [] | some xs ↦ xs ]

module _ (pki : Pki) (files : List ℕ → Option (List ℕ)) (m : MalloryProxy) where
  -- `sign`, which returns nothing where a call fails.
  abbrev pub sign_with : List ℕ → Option pki.PrivateKey → List ℕ
  sign_with xs none = []
  sign_with xs (some key) = elim (pki.digest_sign key xs) [ none ↦ [] | some sig ↦ sig ]

  unfoldable pub sign : List ℕ → List ℕ → List ℕ
  sign path xs = elim (files path) [
    | none ↦ []
    | some pem ↦ sign_with xs (pki.read_private_key pem)
  ]

  -- The exit code, for what `sendVector` returned.
  abbrev pub code : Bool → ℕ
  code true = 0
  code false = 1

  abbrev pub send_certificate : List Sending → List ℕ → Bool → M ℕ
  send_certificate sending [] up = pure 1
  send_certificate sending (x ∷ xs) up =
      if up then (send_vector sending (x ∷ xs) >>= λ done. pure (code done)) else pure 1

  -- With whether there is a listening socket, and whether `accept` gave a connection.
  unfoldable pub run_fake_certificate_attack : Bool → Bool → List Sending → M ℕ
  run_fake_certificate_attack listening accepted sending =
      send_certificate sending (read_file files m.fake_certificate_path) (listening && accepted)

  abbrev pub send_signature : List Sending → List ℕ → M ℕ
  send_signature sending [] = pure 1
  send_signature sending (x ∷ xs) = send_vector sending (x ∷ xs) >>= λ done. pure (code done)

  abbrev pub answer : List Sending → Option (List ℕ) → M ℕ
  answer sending none = pure 1
  answer sending (some challenge) =
      send_signature sending (sign m.mallory_private_key_path challenge)

  abbrev pub impersonate : List Sending → List Sending → List ℕ → Bool → M ℕ
  impersonate sending sending' [] up = pure 1
  impersonate sending sending' (x ∷ xs) up =
      if up
      then (send_vector sending (x ∷ xs) >>= λ done.
          if done then (receive_vector >>= answer sending') else pure 1)
      else pure 1

  unfoldable pub run_stolen_certificate_attack : Bool → Bool → List Sending → List Sending → M ℕ
  run_stolen_certificate_attack listening accepted sending sending' =
      impersonate sending sending' (read_file files m.legitimate_certificate_path)
        (listening && accepted)
