-- ===== src/Phases/Impostor/Vectors.antt =====
-- sendVector and receiveVector of .phases/phase3/src/chat/mallory/MalloryProxy.cpp.
use leaky_chat.Prelude.{
  ℕ, zero, suc, ◌+◌, ◌-◌, ◌≤◌, ◌≡◌, refl, sym, ap, ◌∙◌, arith, ◌==◌, ltb, List, [], ◌∷◌, ◌++◌,
  length, take, drop, All, Option, some, true, false, append-nil, append_assoc, length-append,
  take-append, drop-append, length-drop, joined, take-append-drop,
}
use leaky_chat.Buffer.Codec.{le_bytes, from_le}
use leaky_chat.Buffer.Encoding.{
  string_bytes, length-string_bytes, length-le_bytes, from_le-le_bytes,
}
use leaky_chat.Phases.Buffer.{put_bytes}
use leaky_chat.Phases.Buffer.Contract.{put_bytes-Fills, new_buffer-Fills}
use leaky_chat.Network.Line.{Line, Run, returns, ◌>>=◌, lift, Reception, chunk, again, failed}
use leaky_chat.Network.Line
use leaky_chat.Network.Reassembly.{text_of, Flows, receive_from_lem}
use leaky_chat.Phases.Impostor.{
  Sending, took, interrupted, refused, wire, send_all, receive_from, receive_all, send_vector,
  receive_body, receive_vector,
}

-- A call of `send` that takes bytes or is to be made again; and how many bytes some calls take.
abbrev pub Progresses : Sending → Type 0
Progresses (took zero) = ⊥
Progresses (took (suc n)) = Unit {0}
Progresses interrupted = Unit {0}
Progresses refused = ⊥

abbrev pub taking : List Sending → ℕ
taking [] = 0
taking (took n ∷ rest) = n + taking rest
taking (interrupted ∷ rest) = taking rest
taking (refused ∷ rest) = taking rest

-- All that was to be sent is on the wire, in pieces.
abbrev Delivered : List Sending → List ℕ → Line → Type 0
Delivered sending xs l =
    (pieces : List (List ℕ)) × (send_all sending xs l
      ≡ returns true (record l { sent = l.sent ++ pieces }))
    × (joined pieces ≡ xs)

nothing_left : (sending : List Sending) (l : Line) → All Progresses sending → Delivered sending [] l
unfolding send_all
nothing_left [] l h = ([], rw (append-nil l.sent), refl)
nothing_left (took zero ∷ rest) l h = absurd h.0
nothing_left (took (suc n) ∷ rest) l h = ([], rw (append-nil l.sent), refl)
nothing_left (interrupted ∷ rest) l h = ([], rw (append-nil l.sent), refl)
nothing_left (refused ∷ rest) l h = absurd h.0

-- However few bytes a call takes, and whatever calls are interrupted, `sendAll` sends all.
send_all_lem :
    (sending : List Sending) (xs : List ℕ) (l : Line)
    → All Progresses sending
    → length xs ≤ taking sending
    → Delivered sending xs l
unfolding send_all
send_all_lem sending [] l h k = nothing_left sending l h
send_all_lem [] (x ∷ xs) l h k = absurd (omega arith)
send_all_lem (took zero ∷ rest) (x ∷ xs) l h k = absurd h.0
send_all_lem (took (suc n) ∷ rest) (x ∷ xs) l h k =
    let (pieces, q, j) =
      send_all_lem rest (drop n xs) (wire l (x ∷ take n xs)) h.1
        (omega (arith, length-drop n xs)) in
    (
      (x ∷ take n xs) ∷ pieces,
      rw q (
          ap (λ s. returns true (record l { sent = s }))
            (append_assoc l.sent ((x ∷ take n xs) ∷ []) pieces)),
      rw j (ap (◌∷◌ x) (take-append-drop n xs)),
    )
send_all_lem (interrupted ∷ rest) (x ∷ xs) l h k = send_all_lem rest (x ∷ xs) l h.1 k
send_all_lem (refused ∷ rest) (x ∷ xs) l h k = absurd h.0

-- A vector that fits the buffer goes out whole.
pub send_vector_lem :
    (sending : List Sending) (xs : List ℕ) (l : Line)
    → All Progresses sending
    → length xs + 8 ≤ taking sending
    → length xs + 8 ≤ 2048
    → (pieces : List (List ℕ)) × (send_vector sending xs l
        ≡ returns true (record l { sent = l.sent ++ pieces }))
      × (joined pieces ≡ string_bytes xs)
unfolding send_vector
send_vector_lem sending xs l h k fits =
    let n = length-string_bytes xs in
    let (b, e, q) =
      new_buffer-Fills (put_bytes xs) (string_bytes xs) 1024 (put_bytes-Fills xs) (omega arith)
        (omega arith) (omega (arith, n)) in
    let (pieces, p, j) = send_all_lem sending (string_bytes xs) l h (omega (arith, n)) in
    (pieces, rw (e, q) p, j)

-- Where nothing fails, `receiveAll` is `receiveBytes` of NetworkHandler.
receive_from-Flows :
    (n : ℕ) (got : List ℕ) (rs : List Reception) (l : Line)
    → All Flows rs
    → receive_from n got rs l ≡ Line.receive_from n got rs l
unfolding receive_from Line.receive_from
receive_from-Flows n got [] l h = refl
receive_from-Flows n got (chunk [] ∷ rs) l h = refl
receive_from-Flows n got (chunk (x ∷ xs) ∷ rs) l h =
    rw (receive_from-Flows (n - suc (length xs)) (got ++ (x ∷ xs)) rs l h.1)
receive_from-Flows n got (again ∷ rs) l h = rw (receive_from-Flows n got rs l h.1)
receive_from-Flows n got (failed ∷ rs) l h = absurd h.0

pub receive_all_lem :
    (xs after : List ℕ) (rs : List Reception) (s : List (List ℕ))
    → All Flows rs
    → text_of rs ≡ xs ++ after
    → (rest : List Reception) × All Flows rest
      × (text_of rest ≡ after)
      × (receive_all (length xs) (record { incoming = rs; sent = s })
          ≡ returns (some xs) (record { incoming = rest; sent = s }))
receive_all_lem xs after rs s h e =
    let l : Line = record { incoming = rs; sent = s } in
    let (rest, fl, t, q) =
      receive_from_lem (length xs) [] rs l h (rw e (omega (arith, length-append xs after))) in
    (
      rest,
      fl,
      rw e at t ∙ drop-append (length xs) xs after refl,
      receive_from-Flows (length xs) [] rs l h
          ∙ (rw (e, take-append (length xs) xs after refl) at q),
    )

receive_body_lem :
    (xs after : List ℕ) (rs : List Reception) (s : List (List ℕ))
    → length xs ≤ 65536
    → All Flows rs
    → text_of rs ≡ xs ++ after
    → (rest : List Reception) × All Flows rest
      × (text_of rest ≡ after)
      × (receive_body (some (le_bytes 8 (length xs))) (record { incoming = rs; sent = s })
          ≡ returns (some xs) (record { incoming = rest; sent = s }))
receive_body_lem [] after rs s n h e = (rs, h, e, rw (from_le-le_bytes 8 0 (omega arith)))
receive_body_lem (x ∷ xs) after rs s n h e =
    let size : from_le (le_bytes 8 (suc (length xs))) ≡ suc (length xs) =
      from_le-le_bytes 8 (suc (length xs)) (omega arith) in
    let small : ltb 65536 (suc (length xs)) ≡ false = ground arith in
    let some_left : (suc (length xs) == 0) ≡ false = ground arith in
    let (rest, fl, t, q) = receive_all_lem (x ∷ xs) after rs s h e in
    (rest, fl, t, rw (size, small, some_left) q)

after_head :
    (l l' : Line) (head : List ℕ) (r : Run (Option (List ℕ)))
    → receive_all 8 l ≡ returns (some head) l'
    → receive_body (some head) l' ≡ r
    → receive_vector l ≡ r
unfolding receive_vector
after_head l l' head r e q = rw (receive_vector, ◌>>=◌, e) q

-- A vector of at most 65536 bytes is read, in whatever pieces it comes, and what follows it stays.
pub receive_vector_lem :
    (xs after : List ℕ) (rs : List Reception) (s : List (List ℕ))
    → length xs ≤ 65536
    → All Flows rs
    → text_of rs ≡ string_bytes xs ++ after
    → (rest : List Reception) × All Flows rest
      × (text_of rest ≡ after)
      × (receive_vector (record { incoming = rs; sent = s })
          ≡ returns (some xs) (record { incoming = rest; sent = s }))
unfolding string_bytes
receive_vector_lem xs after rs s n h e =
    let (mid, fm, tm, qm) =
      receive_all_lem (le_bytes 8 (length xs)) (xs ++ after) rs s h
        (e ∙ append_assoc (le_bytes 8 (length xs)) xs after) in
    let (rest, fl, t, q) = receive_body_lem xs after mid s n fm tm in
    let qm' = rw (length-le_bytes 8 (length xs)) at qm in
    (
      rest,
      fl,
      t,
      after_head (record { incoming = rs; sent = s }) (record { incoming = mid; sent = s })
          (le_bytes 8 (length xs)) _ qm' q,
    )

-- What `sendVector` puts on the wire, `receiveVector` reads back, for a vector that with its size takes at
-- most 2048 bytes: however the calls of `send` and of `recv` cut it, and whatever follows it.
pub receive_vector-send_vector :
    (sending : List Sending) (xs after : List ℕ) (rs : List Reception) (l : Line)
    (s : List (List ℕ))
    → All Progresses sending
    → length xs + 8 ≤ taking sending
    → length xs + 8 ≤ 2048
    → All Flows rs
    → text_of rs ≡ string_bytes xs ++ after
    → (pieces : List (List ℕ)) × (rest : List Reception) × (send_vector sending xs l
        ≡ returns true (record l { sent = l.sent ++ pieces }))
      × (text_of rs ≡ joined pieces ++ after)
      × (receive_vector (record { incoming = rs; sent = s })
          ≡ returns (some xs) (record { incoming = rest; sent = s }))
      × (text_of rest ≡ after)
receive_vector-send_vector sending xs after rs l s h k fits fl e =
    let (pieces, q, j) = send_vector_lem sending xs l h k fits in
    let (rest, _, t, p) = receive_vector_lem xs after rs s (omega arith) fl e in
    (pieces, rest, q, e ∙ ap (λ ys. ys ++ after) (sym j), p, t)
