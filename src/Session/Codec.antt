-- ===== src/Session/Codec.antt =====
-- Each struct of the session comes back from the payload that it was put in.
use leaky_chat.Prelude.{
  ℕ, ◌+◌, ◌^◌, ◌<◌, ◌≡◌, sym, ap, subst, ◌∙◌, arith, true, List, [], ◌++◌, length, length-append,
  append-nil, ok,
}
use leaky_chat.Buffer.{MemBuffer, null_buffer, live}
use leaky_chat.Buffer.Fifo.{live-eq-contents, null_buffer-IsValid}
use leaky_chat.Buffer.Reader.{Reader}
use leaky_chat.Buffer.Codec.{
  Limits, Payload, le_bytes, put_int, put_array, put_string, put_bytes, put_payload, get_int,
  get_new_array, get_string, get_bytes, ◌<<◌,
}
use leaky_chat.Buffer.Stream.{Writes, Writes-seq, Reads, Reads-bind, Reads-map}
use leaky_chat.Buffer.Encoding.{
  string_bytes, payload_bytes, length-string_bytes, length-le_bytes, length-payload_bytes, Admits,
  put_int-Writes, put_array-Writes, put_string-Writes, put_bytes-Writes, put_payload-Writes,
  get_int-Reads, get_new_array-Reads, get_string-Reads, get_bytes-Reads, Reads-payload_type,
  Reads-content,
}
use leaky_chat.Crypto.{EncryptedData}
use leaky_chat.Session.Payloads.{
  E2EInit, E2EAck, E2EMsg, Body, text, sealed, body_payload, init_payload, ack_payload, msg_payload,
  read_payload, get_init, get_ack, get_msg, init_fields, ack_fields, text_body, sealed_body,
}

-- What insertions into a new buffer leave in its view.
live-of_Writes :
    (f : MemBuffer → MemBuffer) (xs : List ℕ)
    → Writes f xs
    → length xs < 2 ^ 62
    → live (f null_buffer) ≡ xs
live-of_Writes f xs w h =
    let (v, e) = w null_buffer null_buffer-IsValid (omega arith) in live-eq-contents v ∙ e

read_payload-Reads :
    {A : Type 0} (r : Reader A) (pl : Payload) (a : A)
    → Reads r (payload_bytes pl) a
    → length pl.content < 2 ^ 61
    → read_payload r pl ≡ ok a
unfolding read_payload
read_payload-Reads r pl a rd h =
    let (v, e) =
      put_payload-Writes pl null_buffer null_buffer-IsValid
        (omega (arith, length-payload_bytes pl)) in
    let (b', p, _, _) =
      rd (put_payload pl null_buffer) [] v (e ∙ sym (append-nil (payload_bytes pl))) in
    rw (p, read_payload)

-- The fields of each struct, as bytes.
init_bytes : E2EInit → List ℕ
init_bytes i = le_bytes 4 i.seqno ++ (le_bytes 8 i.timestamp ++ string_bytes i.key)

ack_bytes : E2EAck → List ℕ
ack_bytes a = le_bytes 4 a.seqno ++ string_bytes a.key

body_bytes : Body → List ℕ
body_bytes (text s) = string_bytes s
body_bytes (sealed e) = e.nonce ++ (e.tag ++ string_bytes e.ciphertext)

length-init_bytes : (i : E2EInit) → length (init_bytes i) ≡ 20 + length i.key
unfolding init_bytes
length-init_bytes i = omega (
  arith,
  length-append (le_bytes 4 i.seqno) (le_bytes 8 i.timestamp ++ string_bytes i.key),
  length-append (le_bytes 8 i.timestamp) (string_bytes i.key),
  length-le_bytes 4 i.seqno,
  length-le_bytes 8 i.timestamp,
  length-string_bytes i.key,
)

length-ack_bytes : (a : E2EAck) → length (ack_bytes a) ≡ 12 + length a.key
unfolding ack_bytes
length-ack_bytes a = omega (
  arith,
  length-append (le_bytes 4 a.seqno) (string_bytes a.key),
  length-le_bytes 4 a.seqno,
  length-string_bytes a.key,
)

init-content : (i : E2EInit) → length i.key < 2 ^ 60 → (init_payload i).content ≡ init_bytes i
unfolding init_payload init_bytes
init-content i h =
    live-of_Writes (λ b. b << put_int 4 i.seqno << put_int 8 i.timestamp << put_bytes i.key) _
      (Writes-seq (put_int 4 i.seqno) (λ b. b << put_int 8 i.timestamp << put_bytes i.key) _ _
        (put_int-Writes 4 i.seqno)
        (Writes-seq (put_int 8 i.timestamp) (put_bytes i.key) _ _ (put_int-Writes 8 i.timestamp)
          (put_bytes-Writes i.key)))
      (omega (arith, length-init_bytes i))

ack-content : (a : E2EAck) → length a.key < 2 ^ 60 → (ack_payload a).content ≡ ack_bytes a
unfolding ack_payload ack_bytes
ack-content a h =
    live-of_Writes (λ b. b << put_int 4 a.seqno << put_bytes a.key) _
      (Writes-seq (put_int 4 a.seqno) (put_bytes a.key) _ _ (put_int-Writes 4 a.seqno)
        (put_bytes-Writes a.key))
      (omega (arith, length-ack_bytes a))

-- How many bytes a body has: the text, or the parts of the sealed data.
abbrev pub IsBody : Body → Type 0
IsBody (text s) = length s < 2 ^ 60
IsBody (sealed e) = (length e.nonce ≡ 12) × (length e.tag ≡ 16) × (length e.ciphertext < 2 ^ 60)

length-body_bytes : (x : Body) → IsBody x → length (body_bytes x) < 2 ^ 60 + 64
unfolding body_bytes
length-body_bytes (text s) h = omega (arith, length-string_bytes s)
length-body_bytes (sealed e) (n, t, c) = omega (
  arith,
  length-append e.nonce (e.tag ++ string_bytes e.ciphertext),
  length-append e.tag (string_bytes e.ciphertext),
  length-string_bytes e.ciphertext,
)

length-msg_bytes : (n : ℕ) (x : Body) → IsBody x → length (le_bytes 4 n ++ body_bytes x) < 2 ^ 61
length-msg_bytes n x h =
    omega (
      arith,
      length-append (le_bytes 4 n) (body_bytes x),
      length-le_bytes 4 n,
      length-body_bytes x h,
    )

body-content :
    (n : ℕ) (x : Body) → IsBody x → (body_payload n x).content ≡ le_bytes 4 n ++ body_bytes x
unfolding body_bytes
body-content n (text s) h =
    live-of_Writes (λ b. b << put_int 4 n << put_string s) _
      (Writes-seq (put_int 4 n) (put_string s) _ _ (put_int-Writes 4 n) (put_string-Writes s))
      (omega (arith, length-msg_bytes n (text s) h))
body-content n (sealed e) h =
    live-of_Writes
      (λ b. b << put_int 4 n << put_array e.nonce << put_array e.tag << put_bytes e.ciphertext) _
      (Writes-seq (put_int 4 n)
        (λ b. b << put_array e.nonce << put_array e.tag << put_bytes e.ciphertext) _ _
        (put_int-Writes 4 n)
        (Writes-seq (put_array e.nonce) (λ b. b << put_array e.tag << put_bytes e.ciphertext) _ _
          (put_array-Writes e.nonce)
          (Writes-seq (put_array e.tag) (put_bytes e.ciphertext) _ _ (put_array-Writes e.tag)
            (put_bytes-Writes e.ciphertext))))
      (omega (arith, length-msg_bytes n (sealed e) h))

module _ (lim : Limits) where
  init_fields-Reads :
      (i : E2EInit)
      → i.seqno < 2 ^ 32
      → i.timestamp < 2 ^ 64
      → lim.bytes (length i.key) ≡ true
      → Reads (init_fields lim) (string_bytes (init_bytes i)) i
  unfolding init_fields init_bytes
  init_fields-Reads i hs ht ha = Reads-content _ (init_bytes i) i (
      Reads-bind (get_int 4) _ (le_bytes 4 i.seqno) _ i.seqno i (get_int-Reads 4 i.seqno hs) (
        Reads-bind (get_int 8) _ (le_bytes 8 i.timestamp) _ i.timestamp i
          (get_int-Reads 8 i.timestamp ht)
          (Reads-map (get_bytes lim)
            (λ k. record { seqno = i.seqno; timestamp = i.timestamp; key = k }) _ i.key
            (get_bytes-Reads lim i.key ha))))

  ack_fields-Reads :
      (a : E2EAck)
      → a.seqno < 2 ^ 32
      → lim.bytes (length a.key) ≡ true
      → Reads (ack_fields lim) (string_bytes (ack_bytes a)) a
  unfolding ack_fields ack_bytes
  ack_fields-Reads a hs ha = Reads-content _ (ack_bytes a) a (
      Reads-bind (get_int 4) _ (le_bytes 4 a.seqno) _ a.seqno a (get_int-Reads 4 a.seqno hs) (
        Reads-map (get_bytes lim) (λ k. record { seqno = a.seqno; key = k }) _ a.key
          (get_bytes-Reads lim a.key ha)))

  -- What `>>` reads out of an INIT payload is what `<<` put in, if its number and time fit their
  -- words and the reader has the memory for its key.
  pub get_init-init_payload :
      (i : E2EInit)
      → i.seqno < 2 ^ 32
      → i.timestamp < 2 ^ 64
      → length i.key < 2 ^ 60
      → lim.bytes (length i.key) ≡ true
      → get_init lim (init_payload i) ≡ ok i
  unfolding get_init init_payload
  get_init-init_payload i hs ht hk ha =
      let e : (init_payload i).content ≡ init_bytes i = init-content i hk in
      read_payload-Reads _ (init_payload i) i
        (Reads-payload_type _ (init_payload i) i (
          subst (λ xs. Reads (init_fields lim) (string_bytes xs) i) (sym e)
            (init_fields-Reads i hs ht ha)))
        (omega (arith, ap length e, length-init_bytes i))

  -- What `>>` reads out of an ACK payload is what `<<` put in, if its number fits its word and the
  -- reader has the memory for its key.
  pub get_ack-ack_payload :
      (a : E2EAck)
      → a.seqno < 2 ^ 32
      → length a.key < 2 ^ 60
      → lim.bytes (length a.key) ≡ true
      → get_ack lim (ack_payload a) ≡ ok a
  unfolding get_ack ack_payload
  get_ack-ack_payload a hs hk ha =
      let e : (ack_payload a).content ≡ ack_bytes a = ack-content a hk in
      read_payload-Reads _ (ack_payload a) a
        (Reads-payload_type _ (ack_payload a) a (
          subst (λ xs. Reads (ack_fields lim) (string_bytes xs) a) (sym e)
            (ack_fields-Reads a hs ha)))
        (omega (arith, ap length e, length-ack_bytes a))

  -- The reader gets the memory for the text or for the ciphertext.
  abbrev pub GrantsBody : Body → Type 0
  GrantsBody (text s) = Admits lim s
  GrantsBody (sealed e) = lim.bytes (length e.ciphertext) ≡ true

  text_body-Reads :
      (s : List ℕ) → Admits lim s → Reads (text_body lim) (body_bytes (text s)) (text s)
  unfolding text_body body_bytes
  text_body-Reads s h = Reads-map (get_string lim) text _ s (get_string-Reads lim s h)

  sealed_body-Reads :
      (e : EncryptedData)
      → IsBody (sealed e)
      → lim.bytes (length e.ciphertext) ≡ true
      → Reads (sealed_body lim) (body_bytes (sealed e)) (sealed e)
  unfolding sealed_body body_bytes
  sealed_body-Reads e (hn, ht, hc) h =
      Reads-bind (get_new_array 12) _ e.nonce _ e.nonce (sealed e)
        (get_new_array-Reads 12 e.nonce (sym hn))
        (Reads-bind (get_new_array 16) _ e.tag _ e.tag (sealed e)
          (get_new_array-Reads 16 e.tag (sym ht))
          (Reads-map (get_bytes lim)
            (λ c. sealed (record { nonce = e.nonce; ciphertext = c; tag = e.tag })) _ e.ciphertext
            (get_bytes-Reads lim e.ciphertext h)))

  msg_round :
      (n : ℕ) (x : Body)
      → n < 2 ^ 32
      → IsBody x
      → GrantsBody x
      → get_msg lim (body_payload n x) ≡ ok (record { seqno = n; body = x })
  unfolding get_msg
  msg_round n (text s) hs hb hg =
      let e : (body_payload n (text s)).content ≡ le_bytes 4 n ++ body_bytes (text s) =
        body-content n (text s) hb in
      let m : E2EMsg = record { seqno = n; body = text s } in
      read_payload-Reads _ (body_payload n (text s)) m
        (Reads-payload_type _ (body_payload n (text s)) m (
          Reads-content _ (body_payload n (text s)).content m (
            rw e (
              Reads-bind (get_int 4) _ (le_bytes 4 n) _ n m (get_int-Reads 4 n hs) (
                Reads-map (text_body lim) (λ x. record { seqno = n; body = x }) _ (text s)
                  (text_body-Reads s hg))))))
        (omega (arith, ap length e, length-msg_bytes n (text s) hb))
  msg_round n (sealed d) hs hb hg =
      let e : (body_payload n (sealed d)).content ≡ le_bytes 4 n ++ body_bytes (sealed d) =
        body-content n (sealed d) hb in
      let m : E2EMsg = record { seqno = n; body = sealed d } in
      read_payload-Reads _ (body_payload n (sealed d)) m
        (Reads-payload_type _ (body_payload n (sealed d)) m (
          Reads-content _ (body_payload n (sealed d)).content m (
            rw e (
              Reads-bind (get_int 4) _ (le_bytes 4 n) _ n m (get_int-Reads 4 n hs) (
                Reads-map (sealed_body lim) (λ x. record { seqno = n; body = x }) _ (sealed d)
                  (sealed_body-Reads d hb hg))))))
        (omega (arith, ap length e, length-msg_bytes n (sealed d) hb))

  -- What `>>` reads out of the payload of a message, plain or sealed, is what `<<` put in, if its
  -- number fits its word, nonce and tag have their lengths, and the reader has the memory.
  pub get_msg-msg_payload :
      (m : E2EMsg)
      → m.seqno < 2 ^ 32
      → IsBody m.body
      → GrantsBody m.body
      → get_msg lim (msg_payload m) ≡ ok m
  unfolding msg_payload
  get_msg-msg_payload m hs hb hg = msg_round m.seqno m.body hs hb hg
