-- ===== src/Client/Monad.antt =====
-- The state of chat/client.cpp's Client, and its effects.
use leaky_chat.Prelude.{
  ℕ, suc, ◌+◌, ◌%◌, ◌^◌, List, [], ◌∷◌, ◌++◌, Option, none, some, Bool, true, false, if◌then◌else◌,
  Outcome, Exception,
}
use leaky_chat.Prelude
use leaky_chat.Buffer.Codec.{Limits}
use leaky_chat.Packet.{Packet}
use leaky_chat.Crypto.{Ssl}
use leaky_chat.Session.{E2ESession}

-- What `receivePacket` makes of the network: a packet, nothing, or the end of the stream, on which it
-- closes the connection.
pub data Event : Type 0 where
  delivers : Packet → Event
  silent ends : Event

-- The members of Client, and what the environment knows of it: whether the connection stands, what
-- arrives on it, in order, and then nothing more; what was sent; and how often the environment was asked.
pub record Client : Type 0 where
  pub partner : List ℕ
  pub queue : List (Option Packet)
  pub cur_seqno : ℕ
  pub sessions : List (List ℕ × E2ESession)
  pub online : Bool
  pub incoming : List Event
  pub sent : List Packet
  pub asked : ℕ

-- The answers by the number of the question: random bytes, the clock, and what a `sendPacket` on a
-- connection that stands returns or throws.
pub record Env : Type 0 where
  pub ssl : Ssl
  pub limits : Limits
  pub minute : ℕ
  pub rand : ℕ → Option (List ℕ)
  pub clock : ℕ → ℕ
  pub link : ℕ → Outcome Bool

pub data Run (A : Type 0) : Type 0 where
  returns : A → Client → Run A
  throws : Exception → Run A
  undefined waits : Run A

abbrev pub M : Type 0 → Type 0
M A = Client → Run A

abbrev pub pure : {A : Type 0} → A → M A
pure a c = returns a c

infixl 5 ◌>>=◌ ◌>>◌
abbrev pub ◌>>=◌ : {A B : Type 0} → M A → (A → M B) → M B
◌>>=◌ m f c = elim (m c) [
  | returns a c' ↦ f a c'
  | throws e ↦ throws e
  | undefined ↦ undefined
  | waits ↦ waits
]

abbrev pub ◌>>◌ : {B : Type 0} → M (Unit {0}) → M B → M B
m >> k = m >>= λ _. k

abbrev pub waiting : {A : Type 0} → M A
waiting c = waits

-- A call that does not touch the client.
abbrev pub lift : {A : Type 0} → Outcome A → M A
lift (Prelude.ok a) c = returns a c
lift (Prelude.throws e) c = throws e
lift Prelude.undefined c = undefined

-- `curSeqNo++` on 64 bits.
abbrev pub next_seq : M ℕ
next_seq c = returns c.cur_seqno (record c { cur_seqno = (c.cur_seqno + 1) % 2 ^ 64 })

abbrev pub draw : Env → M (Option (List ℕ))
draw env c = returns (env.rand c.asked) (record c { asked = c.asked + 1 })

abbrev pub tick : Env → M ℕ
tick env c = returns (env.clock c.asked) (record c { asked = c.asked + 1 })

-- `serverSocket.sendPacket(p) == 0`.
unfoldable pub send_packet : Env → Packet → M Bool
send_packet env p c =
    if c.online
    then elim (env.link c.asked) [
      | Prelude.ok true ↦ returns true (record c { sent = c.sent ++ (p ∷ []); asked = c.asked + 1 })
      | Prelude.ok false ↦ returns false (record c { asked = c.asked + 1 })
      | Prelude.throws e ↦ throws e
      | Prelude.undefined ↦ undefined
    ]
    else returns false c

-- `serverSocket.receivePacket(true)`.
abbrev receive_from : List Event → Client → Run (Option Packet)
receive_from [] c = returns none c
receive_from (delivers p ∷ rest) c = returns (some p) (record c { incoming = rest })
receive_from (silent ∷ rest) c = returns none (record c { incoming = rest })
receive_from (ends ∷ rest) c = returns none (record c { incoming = rest; online = false })

unfoldable pub receive : M (Option Packet)
receive c = if c.online then receive_from c.incoming c else returns none c

abbrev poll_from : List (Option Packet) → Client → Run (Option Packet)
poll_from [] c = receive c
poll_from (p ∷ rest) c = returns p (record c { queue = rest })

-- `poll()`: the queue comes first, and what is in it may be a null pointer.
unfoldable pub poll : M (Option Packet)
unfolding receive
poll c = poll_from c.queue c

abbrev pub push : Option Packet → M (Unit {0})
push p c = returns tt (record c { queue = c.queue ++ (p ∷ []) })
