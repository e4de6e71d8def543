-- ===== src/Phases/Connection/Delivery.antt =====
-- A packet between two connections of .phases/phase2/src/utils/NetworkHandler.cpp.
use leaky_chat.Prelude.{
  ℕ, ◌+◌, ◌^◌, ◌≤◌, ◌<◌, ◌≡◌, ◌≢◌, ap, ◌∙◌, arith, List, [], ◌++◌, length, take, Option, some, Bool,
  true, false, leb, ok, ◌>>=◌, length-append, undefined, Bool-cases, inl, inr, length-replicate,
  replicate, take_all, append-nil,
}
use leaky_chat.Buffer.{MemBuffer, new_buffer, live, sub_size}
use leaky_chat.Buffer
use leaky_chat.Buffer.Codec.{Limits}
use leaky_chat.Buffer.Encoding.{string_bytes}
use leaky_chat.Crypto.{
  Ssl, EncryptedData, CryptoSession, encrypt, decrypt, gcm_encrypt, gcm_decrypt,
}
use leaky_chat.Packet.{Unset, error_type}
use leaky_chat.Network.{NetworkHandler, is_ready, arrived, buffer_of}
use leaky_chat.Network.Frame.{
  get_sealed, sealed_bytes, IsSized, length-sealed_bytes, get_sealed-Reads,
}
use leaky_chat.Network.Transport.{IsLinked, Reads-buffer_of}
use leaky_chat.Phases.Buffer.{ensure_free_space, write_bytes, put_array, put_bytes}
use leaky_chat.Phases.Buffer.Contract.{
  Fills, Fills-seq, put_array-Fills, put_bytes-Fills, new_buffer-Fills, new_buffer-overrun,
}
use leaky_chat.Phases.Packets.{Packet, header, serialise}
use leaky_chat.Phases.Packets.Factory.{get_packet_factory}
use leaky_chat.Phases.Packets.Wire.{
  wire_bytes, IsWellFormed, received, serialise-Fills, factory-Reads,
}
use leaky_chat.Phases.Connection.Transport.{
  put_sealed, tampered, send_packet, buffer_with, open_packet, receive_packet,
}

put_sealed-Fills : (e : EncryptedData) → Fills (put_sealed e) (sealed_bytes e)
unfolding put_sealed sealed_bytes
put_sealed-Fills e =
    Fills-seq (put_array e.nonce) (λ b1. put_bytes e.ciphertext b1 >>= put_array e.tag) e.nonce
      (string_bytes e.ciphertext ++ e.tag) (put_array-Fills e.nonce)
      (Fills-seq (put_bytes e.ciphertext) (put_array e.tag) (string_bytes e.ciphertext) e.tag
        (put_bytes-Fills e.ciphertext) (put_array-Fills e.tag))

-- A buffer of just the size of what it is filled with is as one of today.
pub buffer_with_lem : (xs : List ℕ) → length xs < 2 ^ 61 → buffer_with xs ≡ ok (buffer_of xs)
unfolding write_bytes ensure_free_space new_buffer Buffer.write_bytes Buffer.ensure_free_space
buffer_with_lem xs h =
    let block : length (replicate {A = ℕ} (length xs) 0) ≡ length xs =
      length-replicate (length xs) 0 in
    let same : ensure_free_space (length xs) (new_buffer (length xs)) ≡ new_buffer (length xs) =
      ground arith in
    let same' : Buffer.ensure_free_space (length xs) (new_buffer (length xs))
        ≡ new_buffer (length xs) =
      ground arith in
    let fits : leb (0 + length xs) (length (replicate {A = ℕ} (length xs) 0)) ≡ true =
      ground (arith, block) in
    rw (write_bytes, same, fits, Buffer.write_bytes, same')

module _ (ssl : Ssl) (lim : Limits) (unset : Unset) (p : Packet) (nonce cipher tag : List ℕ) where
  -- A packet that is read back, that OpenSSL seals under the key, that the receiver has the memory for, and
  -- that with its frame fits the sender's buffer.
  pub record IsSendable (key : List ℕ) : Type 0 where
    pub made : IsWellFormed lim p
    pub readable : (header p).packet_type ≢ error_type
    pub nonce_size : length nonce ≡ 12
    pub seals : ssl.gcm_seal key nonce (wire_bytes p) ≡ some (cipher, tag)
    pub granted : lim.bytes (length (wire_bytes p)) ≡ true
    pub fits : length (wire_bytes p) + 36 ≤ 2048

  abbrev pub sealed : EncryptedData
  sealed = record { nonce = nonce; ciphertext = cipher; tag = tag }

  pub sealed-IsSized :
      (key : List ℕ) → IsSendable key → IsSized sealed × (length cipher ≡ length (wire_bytes p))
  sealed-IsSized key v =
      let (lc, lt) = ssl.gcm_seal_shape key nonce (wire_bytes p) cipher tag v.seals in
      (record { nonce = v.nonce_size; tag = lt }, lc)

  -- What is on the wire.
  pub send_packet_lem :
      (a : NetworkHandler) (ca : CryptoSession) (n : ℕ) (tamper : Bool)
      → is_ready a ≡ true
      → a.crypto ≡ some ca
      → ca.established ≡ true
      → IsSendable ca.key
      → send_packet ssl (some nonce) (some n) p tamper a
        ≡ ok (true, take n (tampered tamper sealed (sealed_bytes sealed)))
  unfolding send_packet encrypt gcm_encrypt
  send_packet_lem a ca n tamper ready held keyed v =
      let (z, lc) = sealed-IsSized ca.key v in
      let (b, e, q) =
        new_buffer-Fills (serialise p) (wire_bytes p) 1024 (serialise-Fills p) (omega arith)
          (omega arith) (omega (arith, v.fits)) in
      let (f, e', q') =
        new_buffer-Fills (put_sealed sealed) (sealed_bytes sealed) 1024 (put_sealed-Fills sealed)
          (omega arith) (omega arith) (omega (arith, v.fits, length-sealed_bytes sealed z, lc)) in
      rw (ready, held, e, ◌>>=◌, keyed, q, v.seals, ◌>>=◌, e', ◌>>=◌, q')

  -- A packet that with its frame takes more than 2048 bytes is written past a buffer: past that of the packet
  -- if it takes more than 2048 bytes itself, past that of the frame otherwise.
  pub send_packet_overruns :
      (a : NetworkHandler) (ca : CryptoSession) (taken : Option ℕ) (tamper : Bool)
      → is_ready a ≡ true
      → a.crypto ≡ some ca
      → ca.established ≡ true
      → length nonce ≡ 12
      → ssl.gcm_seal ca.key nonce (wire_bytes p) ≡ some (cipher, tag)
      → 2048 < length (wire_bytes p) + 36
      → length (wire_bytes p) < 2 ^ 62
      → send_packet ssl (some nonce) taken p tamper a ≡ undefined
  unfolding send_packet encrypt gcm_encrypt
  send_packet_overruns a ca taken tamper ready held keyed size seals past n =
      let (lc, lt) = ssl.gcm_seal_shape ca.key nonce (wire_bytes p) cipher tag seals in
      let len = length-sealed_bytes sealed (record { nonce = size; tag = lt }) in
      elim (Bool-cases (leb (length (wire_bytes p)) 2048)) [
        | inl short ↦
            let (b, e, q) =
              new_buffer-Fills (serialise p) (wire_bytes p) 1024 (serialise-Fills p) (omega arith)
                (omega arith) (ground arith) in
            let over : put_sealed sealed (new_buffer 1024) ≡ undefined =
              new_buffer-overrun (put_sealed sealed) (sealed_bytes sealed) 1024
                (put_sealed-Fills sealed) (omega arith) (omega arith) (omega (arith, len, lc))
                (omega (arith, len, lc)) in
            rw (ready, held, e, ◌>>=◌, keyed, q, seals, ◌>>=◌, over)
        | inr long ↦
            let over : serialise p (new_buffer 1024) ≡ undefined =
              new_buffer-overrun (serialise p) (wire_bytes p) 1024 (serialise-Fills p) (omega arith)
                (omega arith) (omega arith) (ground arith) in
            rw (ready, held, over)
      ]

  open_sealed :
      (c : CryptoSession) (rest : List ℕ)
      → IsSendable c.key
      → c.established ≡ true
      → length (sealed_bytes sealed ++ rest) < 2 ^ 61
      → open_packet ssl lim unset c (buffer_of (sealed_bytes sealed ++ rest))
        ≡ ok (received unset p)
  unfolding open_packet decrypt gcm_decrypt
  open_sealed c rest v hc h =
      let (z, n) = sealed-IsSized c.key v in
      let (b, q) =
        Reads-buffer_of (get_sealed lim) (sealed_bytes sealed) rest sealed
          (get_sealed-Reads lim sealed z (rw n v.granted)) h in
      let opens : ssl.gcm_open c.key nonce cipher tag ≡ some (wire_bytes p) =
        ssl.gcm_open-gcm_seal c.key nonce (wire_bytes p) cipher tag v.seals in
      let (b', k) =
        Reads-buffer_of (get_packet_factory lim unset) (wire_bytes p) [] (received unset p)
          (factory-Reads lim unset p v.made v.readable)
          (omega (arith, v.fits, length-append (wire_bytes p) [])) in
      let k' : get_packet_factory lim unset (buffer_of (wire_bytes p)) ≡ ok (received unset p, b') =
        rw (append-nil (wire_bytes p)) at k in
      rw (q, ◌>>=◌, hc, opens, buffer_with_lem (wire_bytes p) (omega (arith, v.fits)), k')

  -- A packet of at most 2012 bytes arrives as the factory reads it, whatever comes in the same `recv`
  -- behind it.
  pub receive_packet-send_packet :
      (a b : NetworkHandler) (ca cb : CryptoSession) (rest : List ℕ)
      → IsLinked a b ca cb
      → IsSendable ca.key
      → length rest < 2 ^ 60
      → (xs : List ℕ) × (length xs ≡ length (wire_bytes p) + 36)
        × (send_packet ssl (some nonce) (some (length xs)) p false a ≡ ok (true, xs))
        × (receive_packet ssl lim unset (arrived (xs ++ rest)) b ≡ ok (some (received unset p), b))
  unfolding receive_packet
  receive_packet-send_packet a b ca cb rest l v h =
      let (z, n) = sealed-IsSized ca.key v in
      let len : length (sealed_bytes sealed) ≡ length (wire_bytes p) + 36 =
        omega (arith, length-sealed_bytes sealed z, n) in
      let bound : length (sealed_bytes sealed ++ rest) < 2 ^ 61 =
        omega (arith, length-append (sealed_bytes sealed) rest, len, v.fits) in
      let opened : open_packet ssl lim unset cb (buffer_of (sealed_bytes sealed ++ rest))
          ≡ ok (received unset p) =
        open_sealed cb rest (rw l.key at v) l.keyed.1 bound in
      (
        sealed_bytes sealed,
        len,
        send_packet_lem a ca (length (sealed_bytes sealed)) false l.ready.0 l.sessions.0 l.keyed.0 v
            ∙ ap (λ ys. ok (true, ys))
                (take_all (length (sealed_bytes sealed)) (sealed_bytes sealed) (omega arith)),
        simp (l.ready.1, l.sessions.1, buffer_with_lem (sealed_bytes sealed ++ rest) bound, opened),
      )
