-- ===== src/Phases/Connection/Transport.antt =====
-- sendPacket and receivePacket of .phases/phase2/src/utils/NetworkHandler.cpp.
use leaky_chat.Prelude.{
  ℕ, zero, suc, ◌+◌, ◌-◌, ◌%◌, ◌==◌, List, [], ◌∷◌, length, take, Option, none, some, Bool, true,
  false, if◌then◌else◌, Outcome, ok, undefined, ◌>>=◌,
}
use leaky_chat.Buffer.{MemBuffer, new_buffer, live}
use leaky_chat.Buffer.Codec.{Limits}
use leaky_chat.Crypto.{Ssl, EncryptedData, CryptoSession, encrypt, decrypt}
use leaky_chat.Packet.{Unset}
use leaky_chat.Network.{NetworkHandler, is_ready, caught, Arrival, no_data, hung_up, arrived}
use leaky_chat.Network.Frame.{get_sealed}
use leaky_chat.Phases.Buffer.{write_bytes, put_array, put_bytes}
use leaky_chat.Phases.Packets.{Packet, serialise}
use leaky_chat.Phases.Packets.Factory.{get_packet_factory}
use leaky_chat.Phases.Connection.{close}

unfoldable pub put_sealed : EncryptedData → MemBuffer → Outcome MemBuffer
put_sealed e b = put_array e.nonce b >>= λ b1. (put_bytes e.ciphertext b1 >>= put_array e.tag)

-- `^= 0x01`, at a place.
abbrev pub flip : ℕ → ℕ
flip x = if x % 2 == 0 then x + 1 else x - 1

unfoldable pub flip_at : ℕ → List ℕ → List ℕ
flip_at i [] = []
flip_at zero (x ∷ xs) = flip x ∷ xs
flip_at (suc i) (x ∷ xs) = x ∷ flip_at i xs

-- What `tamper` does to the frame of some sealed data.
abbrev pub tampered : Bool → EncryptedData → List ℕ → List ℕ
tampered false e xs = xs
tampered true e xs = if length e.ciphertext == 0 then xs else flip_at (length e.nonce) xs

-- A new buffer of the size of the bytes, which is filled with them.
abbrev pub buffer_with : List ℕ → Outcome MemBuffer
buffer_with xs = write_bytes xs (new_buffer (length xs))

module _ (ssl : Ssl) where
  -- The result is whether `sendPacket` returns 0, and what is on the wire.
  unfoldable pub send_packet :
      Option (List ℕ) → Option ℕ → Packet → Bool → NetworkHandler → Outcome (Bool × List ℕ)
  send_packet rand taken p tamper h =
      if is_ready h
      then elim h.crypto [
        | none ↦ undefined
        | some c ↦ do
          b ← serialise p (new_buffer 1024)
          e ← encrypt ssl c rand (live b)
          f ← put_sealed e (new_buffer 1024)
          elim taken [
            | none ↦ ok (false, [])
            | some n ↦ ok (true, take n (tampered tamper e (live f)))
          ]
      ]
      else ok (false, [])

  -- The body of the `try` of `receivePacket`; what its buffer is filled with comes before it.
  unfoldable pub open_packet : Limits → Unset → CryptoSession → MemBuffer → Outcome Packet
  open_packet lim unset c b = do
    (e, _) ← get_sealed lim b
    text ← decrypt ssl c e
    b' ← buffer_with text
    (p, _) ← get_packet_factory lim unset b'
    ok p

  unfoldable pub receive_packet :
      Limits → Unset → Arrival → NetworkHandler → Outcome (Option Packet × NetworkHandler)
  unfolding close
  receive_packet lim unset a h =
      if is_ready h
      then elim a [
        | no_data ↦ ok (none, h)
        | hung_up ↦ ok (none, close h)
        | arrived xs ↦ elim h.crypto [
          | none ↦ undefined
          | some c ↦ do b ← buffer_with xs; r ← caught (open_packet lim unset c b); ok (r, h)
        ]
      ]
      else ok (none, h)
