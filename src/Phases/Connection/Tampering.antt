-- ===== src/Phases/Connection/Tampering.antt =====
-- What the `tamper` of sendPacket in .phases/phase2/src/utils/NetworkHandler.cpp does to a packet.
use leaky_chat.Prelude.{
  ℕ, ◌+◌, ◌/◌, ◌%◌, ◌^◌, ◌≤◌, ◌<◌, ◌≡◌, refl, sym, ap, ◌∙◌, arith, List, [], ◌∷◌, ◌++◌, length,
  take, drop, none, some, true, false, ◌==◌, ok, throws, runtime_error, length-append, length-take,
  length-replicate, replicate, take_all, append_assoc, take-append-drop,
}
use leaky_chat.Buffer.{MemBuffer, write_bytes}
use leaky_chat.Buffer.Fifo.{IsValid, contents}
use leaky_chat.Buffer.Read.{read_lem, after_read}
use leaky_chat.Buffer.Reader.{◌>>=◌}
use leaky_chat.Buffer.Codec.{Limits, le_bytes, get_array}
use leaky_chat.Buffer.Encoding.{string_bytes, length-le_bytes, get_array-Reads, get_bytes-Reads}
use leaky_chat.Buffer.Stream.{Writes-write_bytes}
use leaky_chat.Crypto.{Ssl, EncryptedData, CryptoSession, decrypt, gcm_decrypt}
use leaky_chat.Packet.{Unset}
use leaky_chat.Packet.Wire.{header_bytes}
use leaky_chat.Network.{NetworkHandler, arrived, buffer_of}
use leaky_chat.Network.Frame.{get_sealed, sealed_bytes}
use leaky_chat.Network.Transport.{IsLinked, live-new_buffer}
use leaky_chat.Phases.Packets.{Packet}
use leaky_chat.Phases.Packets.Wire.{wire_bytes}
use leaky_chat.Phases.Connection.Transport.{
  flip, flip_at, tampered, send_packet, open_packet, receive_packet,
}
use leaky_chat.Phases.Connection.Delivery.{
  IsSendable, sealed, sealed-IsSized, buffer_with_lem, send_packet_lem,
}

flip_at-append : (xs ys : List ℕ) → flip_at (length xs) (xs ++ ys) ≡ xs ++ flip_at 0 ys
unfolding flip_at
flip_at-append [] ys = refl
flip_at-append (x ∷ xs) ys = ap (◌∷◌ x) (flip_at-append xs ys)

-- Flipping the lowest bit of the lowest byte of a number flips that of the number.
flip-le_bytes : (n : ℕ) (ys : List ℕ) → flip_at 0 (le_bytes 8 n ++ ys) ≡ le_bytes 8 (flip n) ++ ys
unfolding flip_at le_bytes
flip-le_bytes n ys =
    let low : flip (n % 256) ≡ flip n % 256 = ground arith in
    let high : flip n / 256 ≡ n / 256 = ground arith in rw (low, high)

tampered_bytes :
    (nonce cipher tag : List ℕ)
    → 0 < length cipher
    → tampered true
        (record { nonce = nonce; ciphertext = cipher; tag = tag })
        (sealed_bytes (record { nonce = nonce; ciphertext = cipher; tag = tag }))
      ≡ nonce ++ (le_bytes 8 (flip (length cipher)) ++ (cipher ++ tag))
unfolding sealed_bytes string_bytes
tampered_bytes nonce cipher tag h =
    let any : (length cipher == 0) ≡ false = ground arith in
    rw
      (
        any,
        append_assoc (le_bytes 8 (length cipher)) cipher tag,
        flip_at-append nonce (le_bytes 8 (length cipher) ++ (cipher ++ tag)),
      )
      (ap (λ zs. nonce ++ zs) (flip-le_bytes (length cipher) (cipher ++ tag)))

-- A read into an array of zeros that may find fewer bytes.
get_array_short :
    (n : ℕ) (b : MemBuffer)
    → IsValid b
    → (b' : MemBuffer) × (get_array (replicate n 0) b
        ≡ ok (take n (contents b) ++ drop (length (take n (contents b))) (replicate n 0), b'))
unfolding get_array
get_array_short n b v =
    let size : length (replicate {A = ℕ} n 0) ≡ n = length-replicate n 0 in
    let (p, _, _) = read_lem n v in (after_read n b, rw (◌>>=◌, size, p))

-- Sealed data whose size field says `k`, before the rest `ys` of the frame.
abbrev pub cut_at : ℕ → List ℕ → List ℕ → EncryptedData
cut_at k nonce ys =
    let tail = take 16 (drop k ys) in
    record {
      nonce = nonce;
      ciphertext = take k ys;
      tag = tail ++ drop (length tail) (replicate 16 0);
    }

get_cut :
    (lim : Limits) (k : ℕ) (nonce ys : List ℕ) (b : MemBuffer)
    → length nonce ≡ 12
    → k ≤ length ys
    → lim.bytes k ≡ true
    → IsValid b
    → contents b ≡ nonce ++ (le_bytes 8 k ++ ys)
    → (b' : MemBuffer) × (get_sealed lim b ≡ ok (cut_at k nonce ys, b'))
unfolding get_sealed string_bytes
get_cut lim k nonce ys b hn h granted v e =
    let size : length (take k ys) ≡ k = omega (arith, length-take k ys) in
    let split : le_bytes 8 k ++ ys ≡ string_bytes (take k ys) ++ drop k ys =
      rw (size, append_assoc (le_bytes 8 k) (take k ys) (drop k ys), take-append-drop k ys) in
    let (b1, q1, v1, e1) =
      get_array-Reads (replicate 12 0) nonce (sym hn) b (string_bytes (take k ys) ++ drop k ys) v
        (e ∙ ap (λ zs. nonce ++ zs) split) in
    let (b2, q2, v2, e2) = get_bytes-Reads lim (take k ys) (rw size granted) b1 (drop k ys) v1 e1 in
    let (b3, q3) = get_array_short 16 b2 v2 in
    let q3' = rw e2 at q3 in (b3, rw (◌>>=◌, q1, q2, q3'))

some_bytes : (p : Packet) → 0 < length (wire_bytes p)
unfolding wire_bytes header_bytes
some_bytes p = omega arith

-- The sealed data that the receiver reads off a tampered packet.
abbrev pub seen : Packet → List ℕ → List ℕ → List ℕ → EncryptedData
seen p nonce cipher tag = cut_at (flip (length (wire_bytes p))) nonce (cipher ++ tag)

-- A frame of any bytes in a buffer of its own.
buffer_of-IsValid :
    (xs : List ℕ) → length xs < 2 ^ 61 → IsValid (buffer_of xs) × (contents (buffer_of xs) ≡ xs)
buffer_of-IsValid xs h =
    live-new_buffer (write_bytes xs) xs (length xs) (Writes-write_bytes xs) (omega arith) h

module _ (ssl : Ssl) (lim : Limits) (unset : Unset) where
  open_cut :
      (c : CryptoSession) (k : ℕ) (nonce ys : List ℕ)
      → c.established ≡ true
      → length nonce ≡ 12
      → k ≤ length ys
      → length ys < 4096
      → lim.bytes k ≡ true
      → ssl.gcm_open c.key nonce (cut_at k nonce ys).ciphertext (cut_at k nonce ys).tag ≡ none
      → open_packet ssl lim unset c (buffer_of (nonce ++ (le_bytes 8 k ++ ys)))
        ≡ throws runtime_error
  unfolding open_packet decrypt gcm_decrypt
  open_cut c k nonce ys keyed hn h small granted refused =
      let (v, e) = buffer_of-IsValid (nonce ++ (le_bytes 8 k ++ ys)) (
        omega (
          arith,
          length-append nonce (le_bytes 8 k ++ ys),
          length-append (le_bytes 8 k) ys,
          length-le_bytes 8 k,
        )) in
      let (b, q) =
        get_cut lim k nonce ys (buffer_of (nonce ++ (le_bytes 8 k ++ ys))) hn h granted v e in
      rw (q, ◌>>=◌, keyed, refused)

  -- A tampered packet differs from what it was in the size of the ciphertext: the receiver takes one byte
  -- more or one byte less for the ciphertext, and the rest for the tag. If OpenSSL does not accept these
  -- together, the receiver drops the packet, and keeps the connection.
  pub tampered_refused :
      (p : Packet) (nonce cipher tag : List ℕ) (a b : NetworkHandler) (ca cb : CryptoSession)
      → IsLinked a b ca cb
      → IsSendable ssl lim unset p nonce cipher tag ca.key
      → lim.bytes (flip (length (wire_bytes p))) ≡ true
      → ssl.gcm_open ca.key nonce (seen p nonce cipher tag).ciphertext (seen p nonce cipher tag).tag
        ≡ none
      → (xs : List ℕ) × (length xs ≡ length (wire_bytes p) + 36)
        × (send_packet ssl (some nonce) (some (length xs)) p true a ≡ ok (true, xs))
        × (receive_packet ssl lim unset (arrived xs) b ≡ ok (none, b))
  unfolding receive_packet
  tampered_refused p nonce cipher tag a b ca cb l v granted refused =
      let (z, lc) = sealed-IsSized ssl lim unset p nonce cipher tag ca.key v in
      let k : ℕ = flip (length (wire_bytes p)) in
      let bytes = tampered_bytes nonce cipher tag (omega (arith, lc, some_bytes p)) in
      let bytes' : tampered true (sealed ssl lim unset p nonce cipher tag)
            (sealed_bytes (sealed ssl lim unset p nonce cipher tag))
          ≡ nonce ++ (le_bytes 8 k ++ (cipher ++ tag)) =
        bytes ∙ ap (λ n. nonce ++ (le_bytes 8 (flip n) ++ (cipher ++ tag))) lc in
      let ys = length-append cipher tag in
      let small : flip (length (wire_bytes p)) ≤ length (wire_bytes p) + 1 = ground arith in
      let len : length (nonce ++ (le_bytes 8 k ++ (cipher ++ tag))) ≡ length (wire_bytes p) + 36 =
        omega (
          arith,
          length-append nonce (le_bytes 8 k ++ (cipher ++ tag)),
          length-append (le_bytes 8 k) (cipher ++ tag),
          length-le_bytes 8 k,
          ys,
          lc,
          z.nonce,
          z.tag,
        ) in
      let opened : open_packet ssl lim unset cb
            (buffer_of (nonce ++ (le_bytes 8 k ++ (cipher ++ tag))))
          ≡ throws runtime_error =
        open_cut cb k nonce (cipher ++ tag) l.keyed.1 v.nonce_size
          (omega (arith, ys, small, lc, z.tag)) (omega (arith, ys, lc, z.tag, v.fits)) granted
          (rw l.key at refused) in
      (
        nonce ++ (le_bytes 8 k ++ (cipher ++ tag)),
        len,
        send_packet_lem ssl lim unset p nonce cipher tag a ca
              (length (nonce ++ (le_bytes 8 k ++ (cipher ++ tag)))) true l.ready.0 l.sessions.0
              l.keyed.0 v
            ∙ ap (λ zs. ok (true, zs)) (rw bytes' (take_all _ _ (omega arith))),
        simp (
          l.ready.1,
          l.sessions.1,
          buffer_with_lem (nonce ++ (le_bytes 8 k ++ (cipher ++ tag))) (omega (arith, len, v.fits)),
          opened,
        ),
      )
