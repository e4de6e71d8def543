-- ===== src/Buffer/Encoding.antt =====
-- The wire form of each type that << and >> handle, and that both follow it.
use leaky_chat.Prelude.{
  ℕ, zero, suc, ◌+◌, ◌/◌, ◌^◌, ◌≤◌, ◌<◌, ◌≡◌, refl, sym, ap, subst, ◌∙◌, arith, Bool, true, List,
  [], ◌∷◌, ◌++◌, replicate, length, length-append, length-replicate, drop_all, append-nil, ok, ltb,
  if◌then◌else◌, All,
}
use native.Mathlib.Nat.{pow-suc}
use leaky_chat.Buffer.{write_bytes}
use leaky_chat.Buffer.Fifo.{length-contents}
use leaky_chat.Buffer.Reader.{Reader, ◌>>=◌, pure, allocate}
use leaky_chat.Buffer.Codec.{
  Limits, le_bytes, from_le, Payload, put_byte, put_int, put_array, put_string, put_each, put_bytes,
  put_each_string, put_strings, put_payload, get_int, get_byte, get_array, get_new_array, get_each,
  get_bytes, get_string, get_each_string, get_strings, get_payload,
}
use leaky_chat.Buffer.Stream.{
  Writes, Reads, Writes-write_bytes, Writes-id, Writes-seq, Reads-pure, Reads-bind, Reads-read,
  Reads-map, Reads-then,
}

unfoldable pub string_bytes : List ℕ → List ℕ
string_bytes s = le_bytes 8 (length s) ++ s

unfoldable pub each_string_bytes : List (List ℕ) → List ℕ
each_string_bytes [] = []
each_string_bytes (s ∷ ss) = string_bytes s ++ each_string_bytes ss

unfoldable pub strings_bytes : List (List ℕ) → List ℕ
strings_bytes ss = le_bytes 8 (length ss) ++ each_string_bytes ss

unfoldable pub payload_bytes : Payload → List ℕ
payload_bytes p = (p.type ∷ []) ++ string_bytes p.content

pub length-le_bytes : (k n : ℕ) → length (le_bytes k n) ≡ k
unfolding le_bytes
length-le_bytes zero n = refl
length-le_bytes (suc k) n = omega (arith, length-le_bytes k (n / 256))

-- Reading back the `k` bytes of a number that fits them.
pub from_le-le_bytes : (k n : ℕ) → n < 256 ^ k → from_le (le_bytes k n) ≡ n
unfolding from_le le_bytes
from_le-le_bytes zero n h = omega arith
from_le-le_bytes (suc k) n h =
    let small : n / 256 < 256 ^ k = omega (arith, pow-suc 256 k) in
    omega (arith, from_le-le_bytes k (n / 256) small)

-- What << writes.

pub put_byte-Writes : (x : ℕ) → Writes (put_byte x) (x ∷ [])
unfolding put_byte
put_byte-Writes x = Writes-write_bytes (x ∷ [])

pub put_int-Writes : (k n : ℕ) → Writes (put_int k n) (le_bytes k n)
unfolding put_int
put_int-Writes k n = Writes-write_bytes (le_bytes k n)

pub put_array-Writes : (xs : List ℕ) → Writes (put_array xs) xs
unfolding put_array
put_array-Writes xs = Writes-write_bytes xs

pub put_string-Writes : (s : List ℕ) → Writes (put_string s) (string_bytes s)
unfolding put_string string_bytes
put_string-Writes s =
    Writes-seq (put_int 8 (length s)) (write_bytes s) _ _ (put_int-Writes 8 (length s))
      (Writes-write_bytes s)

put_each-Writes : (xs : List ℕ) → Writes (put_each xs) xs
unfolding put_each
put_each-Writes [] = Writes-id
put_each-Writes (x ∷ xs) =
    Writes-seq (put_byte x) (put_each xs) (x ∷ []) xs (put_byte-Writes x) (put_each-Writes xs)

-- A vector of bytes goes out as a string does.
pub put_bytes-Writes : (xs : List ℕ) → Writes (put_bytes xs) (string_bytes xs)
unfolding put_bytes string_bytes
put_bytes-Writes xs =
    Writes-seq (put_int 8 (length xs)) (put_each xs) _ _ (put_int-Writes 8 (length xs))
      (put_each-Writes xs)

put_each_string-Writes : (ss : List (List ℕ)) → Writes (put_each_string ss) (each_string_bytes ss)
unfolding put_each_string each_string_bytes
put_each_string-Writes [] = Writes-id
put_each_string-Writes (s ∷ ss) =
    Writes-seq (put_string s) (put_each_string ss) _ _ (put_string-Writes s)
      (put_each_string-Writes ss)

pub put_strings-Writes : (ss : List (List ℕ)) → Writes (put_strings ss) (strings_bytes ss)
unfolding put_strings strings_bytes
put_strings-Writes ss =
    Writes-seq (put_int 8 (length ss)) (put_each_string ss) _ _ (put_int-Writes 8 (length ss))
      (put_each_string-Writes ss)

pub put_payload-Writes : (p : Payload) → Writes (put_payload p) (payload_bytes p)
unfolding put_payload payload_bytes
put_payload-Writes p =
    Writes-seq (put_byte p.type) (put_string p.content) _ _ (put_byte-Writes p.type)
      (put_string-Writes p.content)

-- What >> reads.

get_int-Reads_any : (k : ℕ) (xs : List ℕ) → k ≡ length xs → Reads (get_int k) xs (from_le xs)
unfolding get_int
get_int-Reads_any k xs h b rest v e =
    let (b', p, v', q) = Reads-read k xs h b rest v e in (b', rw (p, ◌>>=◌) (ground arith), v', q)

pub get_int-Reads : (k n : ℕ) → n < 256 ^ k → Reads (get_int k) (le_bytes k n) n
get_int-Reads k n h =
    subst (λ a. Reads (get_int k) (le_bytes k n) a) (from_le-le_bytes k n h)
      (get_int-Reads_any k (le_bytes k n) (sym (length-le_bytes k n)))

pub get_byte-Reads : (x : ℕ) → Reads get_byte (x ∷ []) x
unfolding get_byte from_le
get_byte-Reads x b rest v e =
    let (b', p, v', q) = get_int-Reads_any 1 (x ∷ []) refl b rest v e in
    (b', p ∙ ap (λ y. ok (y, b')) (omega arith), v', q)

pub get_array-Reads : (old xs : List ℕ) → length old ≡ length xs → Reads (get_array old) xs xs
unfolding get_array
get_array-Reads old xs h b rest v e =
    let (b', p, v', q) = Reads-read (length old) xs h b rest v e in
    (
      b',
      rw (p, ◌>>=◌)
          (ap (λ ys. ok (ys, b')) (rw (drop_all (length xs) old (omega arith)) (append-nil xs))),
      v',
      q,
    )

pub get_new_array-Reads : (n : ℕ) (xs : List ℕ) → n ≡ length xs → Reads (get_new_array n) xs xs
unfolding get_new_array
get_new_array-Reads n xs h b rest v e =
    let (b', p, v', q) = Reads-read n xs h b rest v e in (b', rw (p, ◌>>=◌) (ground arith), v', q)

get_each-Reads : (xs : List ℕ) → Reads (get_each (length xs)) xs xs
unfolding get_each
get_each-Reads [] = Reads-pure []
get_each-Reads (x ∷ xs) =
    Reads-bind (get_array (0 ∷ [])) _ (x ∷ []) xs (x ∷ []) (x ∷ xs)
      (get_array-Reads (0 ∷ []) (x ∷ []) refl)
      (Reads-map (get_each (length xs)) (λ ys. (x ∷ []) ++ ys) xs xs (get_each-Reads xs))

allocate-Reads : (fits : Bool) → fits ≡ true → Reads (allocate fits) [] tt
allocate-Reads fits h b rest v e = (b, rw h, v, e)

-- A count before at least as many bytes: what a buffer holds is always less than 2 ^ 64.
Reads-counted :
    {B : Type 0} (f : ℕ → Reader B) (n : ℕ) (ys : List ℕ) (c : B)
    → n ≤ length ys
    → Reads (f n) ys c
    → Reads (get_int 8 >>= f) (le_bytes 8 n ++ ys) c
Reads-counted f n ys c h r b rest v e =
    Reads-bind (get_int 8) f (le_bytes 8 n) ys n c (get_int-Reads 8 n small) r b rest v e
  where
    small : n < 256 ^ 8
    small = omega (
      arith,
      ap length e,
      length-contents v,
      v.small,
      v.room,
      length-append (le_bytes 8 n ++ ys) rest,
      length-append (le_bytes 8 n) ys,
    )

module _ (lim : Limits) where
  -- The reading side gets the memory that the strings ask for.
  abbrev pub Admits : List ℕ → Type 0
  Admits s = lim.text (length s) ≡ true

  fill-Reads :
      (s : List ℕ)
      → Reads (if ltb 0 (length s) then get_array (replicate (length s) 0) else pure []) s s
  fill-Reads [] = Reads-pure []
  fill-Reads (x ∷ xs) =
      Reads-then (ltb 0 (suc (length xs))) (get_array (replicate (suc (length xs)) 0)) (pure [])
        (x ∷ xs) (x ∷ xs) (ground arith)
        (get_array-Reads (replicate (suc (length xs)) 0) (x ∷ xs)
          (length-replicate (suc (length xs)) 0))

  pub get_string-Reads : (s : List ℕ) → Admits s → Reads (get_string lim) (string_bytes s) s
  unfolding get_string string_bytes
  get_string-Reads s h = Reads-counted _ (length s) s s (omega arith) (
      Reads-bind (allocate (lim.text (length s)))
        (λ _. if ltb 0 (length s) then get_array (replicate (length s) 0) else pure []) [] s tt s
        (allocate-Reads _ h) (fill-Reads s))

  pub get_bytes-Reads :
      (xs : List ℕ) → lim.bytes (length xs) ≡ true → Reads (get_bytes lim) (string_bytes xs) xs
  unfolding get_bytes string_bytes
  get_bytes-Reads xs h = Reads-counted _ (length xs) xs xs (omega arith) (
      Reads-bind (allocate (lim.bytes (length xs))) (λ _. get_each (length xs)) [] xs tt xs
        (allocate-Reads _ h) (get_each-Reads xs))

  get_each_string-Reads :
      (ss : List (List ℕ))
      → All Admits ss
      → Reads (get_each_string lim (length ss)) (each_string_bytes ss) ss
  unfolding get_each_string each_string_bytes
  get_each_string-Reads [] h = Reads-pure []
  get_each_string-Reads (s ∷ ss) h =
      Reads-bind (get_string lim) _ (string_bytes s) (each_string_bytes ss) s (s ∷ ss)
        (get_string-Reads s h.0)
        (Reads-map (get_each_string lim (length ss)) (λ ys. s ∷ ys) (each_string_bytes ss) ss
          (get_each_string-Reads ss h.1))

  length-le-each_string_bytes : (ss : List (List ℕ)) → length ss ≤ length (each_string_bytes ss)
  unfolding each_string_bytes string_bytes
  length-le-each_string_bytes [] = omega arith
  length-le-each_string_bytes (s ∷ ss) = omega (
    arith,
    length-le-each_string_bytes ss,
    length-append (string_bytes s) (each_string_bytes ss),
    length-append (le_bytes 8 (length s)) s,
    length-le_bytes 8 (length s),
  )

  pub get_strings-Reads :
      (ss : List (List ℕ))
      → lim.texts (length ss) ≡ true
      → All Admits ss
      → Reads (get_strings lim) (strings_bytes ss) ss
  unfolding get_strings strings_bytes
  get_strings-Reads ss h hs =
      Reads-counted _ (length ss) (each_string_bytes ss) ss (length-le-each_string_bytes ss) (
        Reads-bind (allocate (lim.texts (length ss))) (λ _. get_each_string lim (length ss)) []
          (each_string_bytes ss) tt ss (allocate-Reads _ h) (get_each_string-Reads ss hs))

  pub get_payload-Reads :
      (p : Payload) → Admits p.content → Reads (get_payload lim) (payload_bytes p) p
  unfolding get_payload payload_bytes
  get_payload-Reads p h =
      Reads-bind get_byte _ (p.type ∷ []) (string_bytes p.content) p.type p (get_byte-Reads p.type)
        (Reads-map (get_string lim) (λ s. record { type = p.type; content = s })
          (string_bytes p.content) p.content (get_string-Reads p.content h))

pub length-string_bytes : (s : List ℕ) → length (string_bytes s) ≡ 8 + length s
unfolding string_bytes
length-string_bytes s =
    omega (arith, length-append (le_bytes 8 (length s)) s, length-le_bytes 8 (length s))

pub length-payload_bytes : (p : Payload) → length (payload_bytes p) ≡ 9 + length p.content
unfolding payload_bytes
length-payload_bytes p = omega (arith, length-string_bytes p.content)

-- The type byte of a payload, and the size of its content.
pub Reads-payload_type :
    {B : Type 0} (f : ℕ → Reader B) (p : Payload) (c : B)
    → Reads (f p.type) (string_bytes p.content) c
    → Reads (get_byte >>= f) (payload_bytes p) c
unfolding payload_bytes
Reads-payload_type f p c r =
    Reads-bind get_byte f (p.type ∷ []) (string_bytes p.content) p.type c (get_byte-Reads p.type) r

pub Reads-content :
    {B : Type 0} (f : ℕ → Reader B) (s : List ℕ) (c : B)
    → Reads (f (length s)) s c
    → Reads (get_int 8 >>= f) (string_bytes s) c
unfolding string_bytes
Reads-content f s c r = Reads-counted f (length s) s c (omega arith) r
