-- ===== src/Network/Frame.antt =====
-- How NetworkHandler.cpp lays sealed data out on the wire.
use leaky_chat.Prelude.{ℕ, ◌+◌, ◌≡◌, sym, arith, true, List, ◌++◌, length, replicate, length-append}
use leaky_chat.Buffer.{MemBuffer}
use leaky_chat.Buffer.Reader.{Reader, ◌>>=◌, pure}
use leaky_chat.Buffer.Codec.{Limits, put_array, put_bytes, get_array, get_bytes, ◌<<◌}
use leaky_chat.Buffer.Stream.{Writes, Writes-seq, Reads, Reads-bind, Reads-map}
use leaky_chat.Buffer.Encoding.{
  string_bytes, length-string_bytes, put_array-Writes, put_bytes-Writes, get_array-Reads,
  get_bytes-Reads,
}
use leaky_chat.Crypto.{EncryptedData}

unfoldable pub put_sealed : EncryptedData → MemBuffer → MemBuffer
put_sealed e b = b << put_array e.nonce << put_bytes e.ciphertext << put_array e.tag

-- `encrypted{}` sets the arrays to zero before they are read.
unfoldable pub get_sealed : Limits → Reader EncryptedData
get_sealed lim = do
  nonce ← get_array (replicate 12 0)
  ciphertext ← get_bytes lim
  tag ← get_array (replicate 16 0)
  pure (record { nonce = nonce; ciphertext = ciphertext; tag = tag })

unfoldable pub sealed_bytes : EncryptedData → List ℕ
sealed_bytes e = e.nonce ++ (string_bytes e.ciphertext ++ e.tag)

-- The arrays have the sizes of their types.
pub record IsSized (e : EncryptedData) : Type 0 where
  pub nonce : length e.nonce ≡ 12
  pub tag : length e.tag ≡ 16

pub length-sealed_bytes :
    (e : EncryptedData) → IsSized e → length (sealed_bytes e) ≡ length e.ciphertext + 36
unfolding sealed_bytes
length-sealed_bytes e v = omega (
  arith,
  v.nonce,
  v.tag,
  length-append e.nonce (string_bytes e.ciphertext ++ e.tag),
  length-append (string_bytes e.ciphertext) e.tag,
  length-string_bytes e.ciphertext,
)

pub put_sealed-Writes : (e : EncryptedData) → Writes (put_sealed e) (sealed_bytes e)
unfolding put_sealed sealed_bytes
put_sealed-Writes e =
    Writes-seq (put_array e.nonce) (λ b. b << put_bytes e.ciphertext << put_array e.tag) _ _
      (put_array-Writes e.nonce)
      (Writes-seq (put_bytes e.ciphertext) (put_array e.tag) _ _ (put_bytes-Writes e.ciphertext)
        (put_array-Writes e.tag))

pub get_sealed-Reads :
    (lim : Limits) (e : EncryptedData)
    → IsSized e
    → lim.bytes (length e.ciphertext) ≡ true
    → Reads (get_sealed lim) (sealed_bytes e) e
unfolding get_sealed sealed_bytes
get_sealed-Reads lim e v h =
    Reads-bind (get_array (replicate 12 0)) _ e.nonce _ e.nonce e
      (get_array-Reads (replicate 12 0) e.nonce (sym v.nonce))
      (Reads-bind (get_bytes lim) _ (string_bytes e.ciphertext) _ e.ciphertext e
        (get_bytes-Reads lim e.ciphertext h)
        (Reads-map (get_array (replicate 16 0))
          (λ t. record { nonce = e.nonce; ciphertext = e.ciphertext; tag = t }) e.tag e.tag
          (get_array-Reads (replicate 16 0) e.tag (sym v.tag))))
