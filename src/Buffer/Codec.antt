-- ===== src/Buffer/Codec.antt =====
-- The operators << and >> of MemBuffer.h and MemBuffer.cpp. Integers lie in memory lowest byte
-- first, as on the x86-64 and ARM64 hosts that the program is built for. A byte is only moved.
use leaky_chat.Prelude.{
  ℕ, zero, suc, ◌+◌, ◌*◌, ◌/◌, ◌%◌, Bool, List, [], ◌∷◌, ◌++◌, drop, replicate, length, ltb, ◌==◌,
  ◌||◌, if◌then◌else◌, undefined,
}
use leaky_chat.Buffer.{MemBuffer, write_bytes, read}
use leaky_chat.Buffer.Reader.{Reader, ◌>>=◌, ◌>>◌, pure, allocate}

-- What the allocator grants: whether `resize(n)` of a string, of a vector of bytes and of a vector
-- of strings returns.
pub record Limits : Type 0 where
  pub text : ℕ → Bool
  pub bytes : ℕ → Bool
  pub texts : ℕ → Bool

-- The `k` bytes of an unsigned integer, and the integer of some bytes.
unfoldable pub le_bytes : ℕ → ℕ → List ℕ
le_bytes zero n = []
le_bytes (suc k) n = (n % 256) ∷ le_bytes k (n / 256)

unfoldable pub from_le : List ℕ → ℕ
from_le [] = 0
from_le (x ∷ xs) = x + 256 * from_le xs

-- `Payload`; `Payload::Type` is an enumeration over uint8_t, and any byte may be cast to it.
pub record Payload : Type 0 where
  pub type : ℕ
  pub content : List ℕ

abbrev pub plain_text : ℕ
plain_text = 0

abbrev pub e2e_init : ℕ
e2e_init = 1

abbrev pub e2e_ack : ℕ
e2e_ack = 2

abbrev pub e2e_msg : ℕ
e2e_msg = 3

unfoldable pub is_e2e_control : Payload → Bool
is_e2e_control p = p.type == e2e_init || p.type == e2e_ack

-- `b << f` inserts by `f`.
infixl 20 ◌<<◌
abbrev pub ◌<<◌ : MemBuffer → (MemBuffer → MemBuffer) → MemBuffer
b << f = f b

unfoldable pub put_byte : ℕ → MemBuffer → MemBuffer
put_byte x b = write_bytes (x ∷ []) b

-- `operator<<(T val)` at a T of `k` bytes.
unfoldable pub put_int : ℕ → ℕ → MemBuffer → MemBuffer
put_int k n b = write_bytes (le_bytes k n) b

unfoldable pub put_array : List ℕ → MemBuffer → MemBuffer
put_array xs b = write_bytes xs b

unfoldable pub put_string : List ℕ → MemBuffer → MemBuffer
put_string s b = b << put_int 8 (length s) << write_bytes s

unfoldable pub put_each : List ℕ → MemBuffer → MemBuffer
put_each [] b = b
put_each (x ∷ xs) b = put_each xs (b << put_byte x)

-- `operator<<(const std::vector<T>&)` at uint8_t.
unfoldable pub put_bytes : List ℕ → MemBuffer → MemBuffer
unfolding put_each
put_bytes xs b = b << put_int 8 (length xs) << put_each xs

unfoldable pub put_each_string : List (List ℕ) → MemBuffer → MemBuffer
put_each_string [] b = b
put_each_string (s ∷ ss) b = put_each_string ss (b << put_string s)

unfoldable pub put_strings : List (List ℕ) → MemBuffer → MemBuffer
unfolding put_each_string
put_strings ss b = b << put_int 8 (length ss) << put_each_string ss

unfoldable pub put_payload : Payload → MemBuffer → MemBuffer
put_payload p b = b << put_byte p.type << put_string p.content

-- `operator>>(T&)` into a variable that was never set: it has a value only if all `k` bytes come.
unfoldable pub get_int : ℕ → Reader ℕ
get_int k = do xs ← read k; if length xs == k then pure (from_le xs) else λ b. undefined

unfoldable pub get_byte : Reader ℕ
unfolding get_int
get_byte = get_int 1

-- `operator>>(std::array<T, N>&)` over an array that holds `old`; a short read keeps its end.
unfoldable pub get_array : List ℕ → Reader (List ℕ)
get_array old = do xs ← read (length old); pure (xs ++ drop (length xs) old)

-- The same into an array of `n` bytes that was never set.
unfoldable pub get_new_array : ℕ → Reader (List ℕ)
get_new_array n = do xs ← read n; if length xs == n then pure xs else λ b. undefined

-- The elements of a vector that `resize` filled with zeros.
unfoldable pub get_each : ℕ → Reader (List ℕ)
get_each zero = pure []
get_each (suc n) = do x ← get_array (0 ∷ []); xs ← get_each n; pure (x ++ xs)

module _ (lim : Limits) where
  -- `str.resize(sz)` fills with zeros, and a short read leaves them.
  unfoldable pub get_string : Reader (List ℕ)
  get_string = do
    sz ← get_int 8
    allocate (lim.text sz)
    if ltb 0 sz then get_array (replicate sz 0) else pure []

  unfoldable pub get_bytes : Reader (List ℕ)
  get_bytes = do sz ← get_int 8; allocate (lim.bytes sz); get_each sz

  unfoldable pub get_each_string : ℕ → Reader (List (List ℕ))
  get_each_string zero = pure []
  get_each_string (suc n) = do s ← get_string; ss ← get_each_string n; pure (s ∷ ss)

  unfoldable pub get_strings : Reader (List (List ℕ))
  get_strings = do sz ← get_int 8; allocate (lim.texts sz); get_each_string sz

  unfoldable pub get_payload : Reader Payload
  get_payload = do t ← get_byte; s ← get_string; pure (record { type = t; content = s })
