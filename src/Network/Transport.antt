-- ===== src/Network/Transport.antt =====
-- A packet that one side sends, the other receives.
use leaky_chat.Prelude.{
  ℕ, ◌+◌, ◌^◌, ◌≤◌, ◌<◌, ◌≡◌, ◌≢◌, ◌⊎◌, inl, inr, refl, ap, ◌∙◌, arith, true, Option, none, some,
  List, [], ◌++◌, length, take, length-append, take_all, append-nil, Outcome, ok, throws, undefined,
  ◌>>=◌, Bool-cases, Option-cases,
}
use leaky_chat.Buffer.{MemBuffer, new_buffer, write_bytes}
use leaky_chat.Buffer.Fifo.{
  IsValid, contents, new_buffer-IsValid, contents-new_buffer, live-eq-contents,
}
use leaky_chat.Buffer.Reader.{Reader}
use leaky_chat.Buffer.Codec.{Limits}
use leaky_chat.Buffer.Stream.{Writes, Writes-write_bytes, Reads}
use leaky_chat.Packet.{Packet, Unset, header, error_type, serialise, get_packet_factory}
use leaky_chat.Packet.Wire.{packet_bytes, serialise-Writes}
use leaky_chat.Packet.RoundTrip.{IsPacket, received, factory-Reads}
use leaky_chat.Crypto.{
  Ssl, EncryptedData, CryptoSession, encrypt, decrypt, gcm_encrypt, gcm_decrypt,
}
use leaky_chat.Network.Frame.{
  put_sealed, get_sealed, sealed_bytes, IsSized, length-sealed_bytes, put_sealed-Writes,
  get_sealed-Reads,
}
use leaky_chat.Network.{
  NetworkHandler, is_ready, close, caught, Arrival, no_data, hung_up, arrived, plaintext, frame,
  buffer_of, send_packet, open_packet, receive_packet,
}

-- What is inserted into a new buffer is what its view shows.
pub live-new_buffer :
    (f : MemBuffer → MemBuffer) (xs : List ℕ) (sz : ℕ)
    → Writes f xs
    → sz < 2 ^ 62
    → length xs < 2 ^ 61
    → IsValid (f (new_buffer sz)) × (contents (f (new_buffer sz)) ≡ xs)
live-new_buffer f xs sz w hs hx =
    let (v, e) =
      w (new_buffer sz) (new_buffer-IsValid sz (omega arith))
        (omega (arith, ap length (contents-new_buffer sz))) in
    (v, e ∙ ap (λ ys. ys ++ xs) (contents-new_buffer sz))

plaintext_lem : (p : Packet) → length (packet_bytes p) < 2 ^ 61 → plaintext p ≡ packet_bytes p
plaintext_lem p h =
    let (v, e) =
      live-new_buffer (serialise p) (packet_bytes p) 1024 (serialise-Writes p) (omega arith) h in
    live-eq-contents v ∙ e

frame_lem : (e : EncryptedData) → length (sealed_bytes e) < 2 ^ 61 → frame e ≡ sealed_bytes e
frame_lem e h =
    let (v, q) =
      live-new_buffer (put_sealed e) (sealed_bytes e) 1024 (put_sealed-Writes e) (omega arith) h in
    live-eq-contents v ∙ q

-- An extraction from the buffer of some bytes, whatever they have at their end.
pub Reads-buffer_of :
    {A : Type 0} (g : Reader A) (xs rest : List ℕ) (a : A)
    → Reads g xs a
    → length (xs ++ rest) < 2 ^ 61
    → (b : MemBuffer) × (g (buffer_of (xs ++ rest)) ≡ ok (a, b))
Reads-buffer_of g xs rest a r h =
    let (v, e) =
      live-new_buffer (write_bytes (xs ++ rest)) (xs ++ rest) (length (xs ++ rest))
        (Writes-write_bytes (xs ++ rest)) (omega arith) h in
    let (b, q, _, _) = r (buffer_of (xs ++ rest)) rest v e in (b, q)

-- Two ends of a connection: both ready, with the same key.
pub record IsLinked (a b : NetworkHandler) (ca cb : CryptoSession) : Type 0 where
  pub ready : (is_ready a ≡ true) × (is_ready b ≡ true)
  pub sessions : (a.crypto ≡ some ca) × (b.crypto ≡ some cb)
  pub keyed : (ca.established ≡ true) × (cb.established ≡ true)
  pub key : ca.key ≡ cb.key

module _ (ssl : Ssl) (lim : Limits) (unset : Unset) (p : Packet) (nonce cipher tag : List ℕ) where
  -- A packet that is read back, that OpenSSL seals under the key, and that the receiver has the memory
  -- for; with its frame it fits one `recv`.
  pub record IsSendable (key : List ℕ) : Type 0 where
    pub made : IsPacket lim p
    pub readable : (header p).packet_type ≢ error_type
    pub nonce_size : length nonce ≡ 12
    pub seals : ssl.gcm_seal key nonce (packet_bytes p) ≡ some (cipher, tag)
    pub granted : lim.bytes (length (packet_bytes p)) ≡ true
    pub fits : length (packet_bytes p) + 36 ≤ 65536

  sealed : EncryptedData
  sealed = record { nonce = nonce; ciphertext = cipher; tag = tag }

  sealed-IsSized :
      (key : List ℕ) → IsSendable key → IsSized sealed × (length cipher ≡ length (packet_bytes p))
  unfolding sealed
  sealed-IsSized key v =
      let (lc, lt) = ssl.gcm_seal_shape key nonce (packet_bytes p) cipher tag v.seals in
      (record { nonce = v.nonce_size; tag = lt }, lc)

  open_sealed :
      (c : CryptoSession) (rest : List ℕ)
      → IsSendable c.key
      → c.established ≡ true
      → length (sealed_bytes sealed ++ rest) < 2 ^ 61
      → open_packet ssl lim unset c (sealed_bytes sealed ++ rest) ≡ ok (received unset p)
  unfolding open_packet decrypt gcm_decrypt sealed
  open_sealed c rest v hc h =
      let (z, n) = sealed-IsSized c.key v in
      let (b, q) =
        Reads-buffer_of (get_sealed lim) (sealed_bytes sealed) rest sealed
          (get_sealed-Reads lim sealed z (rw n v.granted)) h in
      let opens : ssl.gcm_open c.key nonce cipher tag ≡ some (packet_bytes p) =
        ssl.gcm_open-gcm_seal c.key nonce (packet_bytes p) cipher tag v.seals in
      let (b', k) =
        Reads-buffer_of (get_packet_factory lim unset) (packet_bytes p) [] (received unset p)
          (factory-Reads lim unset p v.made v.readable)
          (omega (arith, v.fits, length-append (packet_bytes p) [])) in
      let k' : get_packet_factory lim unset (buffer_of (packet_bytes p))
          ≡ ok (received unset p, b') =
        rw (append-nil (packet_bytes p)) at k in
      rw (q, ◌>>=◌, hc, opens, k')

  -- A packet goes out as 36 bytes more than its serialised form, and the other end of the connection
  -- makes of them the packet as the factory reads it. What arrives in the same `recv` behind it, such as
  -- the next packet, is dropped: neither the result nor the connection depends on it.
  pub receive_packet-send_packet :
      (a b : NetworkHandler) (ca cb : CryptoSession) (rest : List ℕ)
      → IsLinked a b ca cb
      → IsSendable ca.key
      → length rest < 2 ^ 60
      → (xs : List ℕ) × (length xs ≡ length (packet_bytes p) + 36)
        × (send_packet ssl (some nonce) (some (length xs)) p a ≡ ok (true, xs))
        × (receive_packet ssl lim unset (arrived (xs ++ rest)) b ≡ ok (some (received unset p), b))
  unfolding send_packet receive_packet encrypt gcm_encrypt sealed
  receive_packet-send_packet a b ca cb rest l v h =
      let (z, n) = sealed-IsSized ca.key v in
      let len : length (sealed_bytes sealed) ≡ length (packet_bytes p) + 36 =
        omega (arith, length-sealed_bytes sealed z, n) in
      let text : plaintext p ≡ packet_bytes p = plaintext_lem p (omega (arith, v.fits)) in
      let bytes : frame sealed ≡ sealed_bytes sealed =
        frame_lem sealed (omega (arith, len, v.fits)) in
      let whole : take (length (sealed_bytes sealed)) (sealed_bytes sealed) ≡ sealed_bytes sealed =
        take_all (length (sealed_bytes sealed)) (sealed_bytes sealed) (omega arith) in
      let opened : open_packet ssl lim unset cb (sealed_bytes sealed ++ rest)
          ≡ ok (received unset p) =
        open_sealed cb rest (rw l.key at v) l.keyed.1
          (omega (arith, length-append (sealed_bytes sealed) rest, len, v.fits)) in
      (
        sealed_bytes sealed,
        len,
        rw (l.ready.0, l.sessions.0, l.keyed.0, text, v.seals, bytes, whole),
        simp (l.ready.1, l.sessions.1, opened),
      )

caught_cases :
    {A : Type 0} (m : Outcome A) → (caught m ≡ undefined) ⊎ ((r : Option A) × (caught m ≡ ok r))
caught_cases (ok a) = inr (some a, refl)
caught_cases (throws e) = inr (none, refl)
caught_cases undefined = inl refl

caught_undefined : {A : Type 0} {m : Outcome A} → caught m ≡ undefined → m ≡ undefined
caught_undefined {m = ok a} h = absurd (cc)
caught_undefined {m = throws e} h = absurd (cc)
caught_undefined {m = undefined} h = refl

-- What `receivePacket` does with bytes where it is undefined: there is no crypto session to read them
-- with, or their decoding is undefined, as it is for bytes that end before the size of the ciphertext.
abbrev pub IsUndefined : Ssl → Limits → Unset → Arrival → NetworkHandler → Type 0
IsUndefined ssl lim unset a h =
    (xs : List ℕ) × (a ≡ arrived xs)
    × (is_ready h ≡ true)
    × ((h.crypto ≡ none)
        ⊎ ((c : CryptoSession) × (h.crypto ≡ some c)
            × (open_packet ssl lim unset c xs ≡ undefined)))

-- Whatever arrives, `receivePacket` lets no exception through, and where its behaviour is defined it
-- leaves the connection as it was or closes it, the latter only at the end of the stream and then without
-- a packet. It is undefined only when bytes arrive on a connection that is ready, and that has no crypto
-- session, or bytes whose decoding is undefined, such as a frame that is too short to have the size of
-- its ciphertext.
pub receive_packet_cases :
    (ssl : Ssl) (lim : Limits) (unset : Unset) (a : Arrival) (h : NetworkHandler)
    → ((receive_packet ssl lim unset a h ≡ undefined) × IsUndefined ssl lim unset a h)
      ⊎ (((r : Option Packet) × (receive_packet ssl lim unset a h ≡ ok (r, h)))
          ⊎ ((a ≡ hung_up) × (receive_packet ssl lim unset a h ≡ ok (none, close h))))
unfolding receive_packet
receive_packet_cases ssl lim unset a h = elim (Bool-cases (is_ready h)) [
  | inr idle ↦ inr (inl (none, rw idle))
  | inl ready ↦ by_arrival a ready
]
  where
    by_arrival :
        (a : Arrival)
        → is_ready h ≡ true
        → ((receive_packet ssl lim unset a h ≡ undefined) × IsUndefined ssl lim unset a h)
          ⊎ (((r : Option Packet) × (receive_packet ssl lim unset a h ≡ ok (r, h)))
              ⊎ ((a ≡ hung_up) × (receive_packet ssl lim unset a h ≡ ok (none, close h))))
    by_arrival no_data ready = inr (inl (none, rw ready))
    by_arrival hung_up ready = inr (inr (refl, rw ready))
    by_arrival (arrived xs) ready = elim (Option-cases h.crypto) [
      | inl e ↦ inl (rw (ready, e), (xs, refl, ready, inl e))
      | inr (c, e) ↦ elim (caught_cases (open_packet ssl lim unset c xs)) [
        | inl u ↦ inl (rw (ready, e, u), (xs, refl, ready, inr (c, e, caught_undefined u)))
        | inr (r, q) ↦ inr (inl (r, simp (ready, e, q)))
      ]
    ]
