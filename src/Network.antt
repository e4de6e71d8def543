-- ===== src/Network.antt =====
-- utils/NetworkHandler.hh and utils/NetworkHandler.cpp: a connection, with what the system calls
-- answer as arguments. The host, the port and the paths are left out where nothing reads them, and so
-- is `mRecvBuffer`, which nothing uses.
pub mod Frame
pub mod Transport
pub mod Certificates
pub mod Line
pub mod Handshake
pub mod Reassembly
pub mod Authentication
pub mod Relay
pub mod Runs
pub mod Trust
use leaky_chat.Prelude.{
  ℕ, List, [], length, take, Option, none, some, Bool, true, false, ◌&&◌, if◌then◌else◌, Outcome,
  ok, throws, undefined, ◌>>=◌,
}
use leaky_chat.Buffer.{MemBuffer, new_buffer, write_bytes, live}
use leaky_chat.Buffer.Codec.{Limits}
use Frame.{put_sealed, get_sealed}
use leaky_chat.Packet.{Packet, Unset, serialise, get_packet_factory}
use leaky_chat.Crypto.{Ssl, EncryptedData, CryptoSession, encrypt, decrypt}

pub data CryptoState : Type 0 where
  disconnected handshaking established : CryptoState

-- `socket` is `none` for -1, and `crypto` for a null pointer.
pub record NetworkHandler : Type 0 where
  pub socket : Option ℕ
  pub initialized : Bool
  pub connected : Bool
  pub crypto : Option CryptoSession
  pub state : CryptoState

abbrev pub is_established : CryptoState → Bool
is_established established = true
is_established handshaking = false
is_established disconnected = false

-- The guard of `sendPacket` and `receivePacket`.
abbrev pub is_ready : NetworkHandler → Bool
is_ready h = h.connected && is_established h.state

-- `NetworkHandler()`, `setSocket` and `close`.
abbrev pub new_handler : NetworkHandler
new_handler = record {
  socket = none;
  initialized = true;
  connected = false;
  crypto = none;
  state = disconnected;
}

unfoldable pub set_socket : ℕ → NetworkHandler → NetworkHandler
set_socket fd h = record h { socket = some fd; connected = true }

unfoldable pub close : NetworkHandler → NetworkHandler
close h = record h { connected = false; socket = none; crypto = none; state = disconnected }

-- The move constructor and the move assignment: the new object and what is left of the old one, whose
-- state is not reset.
unfoldable pub move_handler : NetworkHandler → NetworkHandler × NetworkHandler
move_handler other = (other, record other { socket = none; connected = false; crypto = none })

-- What a catch of std::exception makes of a call.
abbrev pub caught {ℓ} : {A : Type ℓ} → Outcome A → Outcome (Option A)
caught (ok a) = ok (some a)
caught (throws e) = ok none
caught undefined = undefined

-- What `select` and `recv` answer: nothing, or an error; the end of the stream; or bytes.
pub data Arrival : Type 0 where
  no_data hung_up : Arrival
  arrived : List ℕ → Arrival

-- The serialised packet in its buffer of 1024 bytes, and the sealed data in its own.
abbrev pub plaintext : Packet → List ℕ
plaintext p = live (serialise p (new_buffer 1024))

abbrev pub frame : EncryptedData → List ℕ
frame e = live (put_sealed e (new_buffer 1024))

-- A new buffer of the size of the bytes, which hold them.
abbrev pub buffer_of : List ℕ → MemBuffer
buffer_of xs = write_bytes xs (new_buffer (length xs))

module _ (ssl : Ssl) where
  -- `send` takes some of the bytes, `none` for an error; that it took fewer than all goes unseen.
  -- The result is whether `sendPacket` returns 0, and what is on the wire.
  unfoldable pub send_packet :
      Option (List ℕ) → Option ℕ → Packet → NetworkHandler → Outcome (Bool × List ℕ)
  send_packet rand taken p h =
      if is_ready h
      then elim h.crypto [
        | none ↦ undefined
        | some c ↦ do
          e ← encrypt ssl c rand (plaintext p)
          elim taken [ none ↦ ok (false, []) | some n ↦ ok (true, take n (frame e)) ]
      ]
      else ok (false, [])

  -- The body of the `try` of `receivePacket`.
  unfoldable pub open_packet : Limits → Unset → CryptoSession → List ℕ → Outcome Packet
  open_packet lim unset c xs = do
    (e, _) ← get_sealed lim (buffer_of xs)
    text ← decrypt ssl c e
    (p, _) ← get_packet_factory lim unset (buffer_of text)
    ok p

  -- A buffer that is not read to its end is dropped with what is left in it.
  unfoldable pub receive_packet :
      Limits → Unset → Arrival → NetworkHandler → Outcome (Option Packet × NetworkHandler)
  unfolding open_packet close
  receive_packet lim unset a h =
      if is_ready h
      then elim a [
        | no_data ↦ ok (none, h)
        | hung_up ↦ ok (none, close h)
        | arrived xs ↦ elim h.crypto [
          | none ↦ undefined
          | some c ↦ caught (open_packet lim unset c xs) >>= λ r. ok (r, h)
        ]
      ]
      else ok (none, h)
