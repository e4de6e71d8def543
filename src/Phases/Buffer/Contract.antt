-- ===== src/Phases/Buffer/Contract.antt =====
-- What the earlier MemBuffer (.phases/phase2/src/utils/MemBuffer.cpp) makes of what is written, on both
-- sides of its limit.
use leaky_chat.Prelude.{
  ℕ, ◌⊎◌, ◌+◌, ◌^◌, ◌≤◌, ◌<◌, ◌≡◌, refl, sym, ◌∙◌, arith, List, [], ◌∷◌, ◌++◌, length, leb, Outcome,
  ok, undefined, ◌>>=◌, true, false, inl, inr, Bool-cases, length-append, append-nil, append_assoc,
}
use leaky_chat.Buffer.{MemBuffer, add_size, new_buffer, live, copy_to}
use leaky_chat.Buffer.Codec.{le_bytes}
use leaky_chat.Buffer.Codec
use leaky_chat.Network.Authentication.{packed_lem}
use leaky_chat.Buffer.Encoding.{string_bytes, length-string_bytes, each_string_bytes, strings_bytes}
use leaky_chat.Phases.Buffer.{
  ensure_free_space, write_bytes, put_int, put_string, put_each, put_bytes, put_byte, put_array,
  put_each_string, put_strings,
}
use leaky_chat.Phases.Buffer.Doubling.{
  Holds, new_buffer-Holds, live-Holds, doubled_by, length-doubled_by, doubled_by-Holds,
  ensure_free_space_lem, append-Holds,
}

-- What a writer makes of such a buffer: it writes whole, or past the block.
abbrev pub Fills : (MemBuffer → Outcome MemBuffer) → List ℕ → Type 0
Fills f xs =
    (cap : ℕ) (ys : List ℕ) (b : MemBuffer)
    → Holds cap ys b
    → length xs < 2 ^ 63
    → (length ys + length xs ≤ cap + cap
        → (b' : MemBuffer) × (f b ≡ ok b') × Holds cap (ys ++ xs) b')
      × (cap + cap < length ys + length xs → f b ≡ undefined)

-- What `write_bytes` does once there is room, or none.
after_room :
    (cap : ℕ) (ys src : List ℕ) (b r : MemBuffer)
    → ensure_free_space (length src) b ≡ r
    → Holds cap ys r
    → (length ys + length src ≤ cap) ⊎ (length r.bytes ≡ cap + cap)
    → (length ys + length src ≤ cap + cap
        → (b' : MemBuffer) × (write_bytes src b ≡ ok b') × Holds cap (ys ++ src) b')
      × (cap + cap < length ys + length src → write_bytes src b ≡ undefined)
unfolding write_bytes
after_room cap ys src b r e v k = (
  λ h.
      let room : length ys + length src ≤ length r.bytes = elim k [
        | inl x ↦ omega (arith, v.block)
        | inr q ↦ omega (arith, q)
      ] in
      let fits : leb (r.end + length src) (length r.bytes) ≡ true = ground (arith, v.written) in
      (
        record r { bytes = copy_to r.bytes r.end src; end = add_size r.end (length src) },
        rw (write_bytes, e, fits),
        append-Holds cap ys src r v room k,
      ),
  λ h.
      let over : leb (r.end + length src) (length r.bytes) ≡ false =
        ground (arith, v.written, v.block) in
      rw (write_bytes, e, over),
)

-- `write_bytes` appends as long as all that was written takes at most twice the capacity, and writes past
-- the block as soon as it takes more.
pub write_bytes-Fills : (src : List ℕ) → Fills (write_bytes src) src
write_bytes-Fills src cap ys b v n = elim (ensure_free_space_lem cap (length src) ys b v n) [
  | inl (e, k) ↦ after_room cap ys src b b e v (inl k)
  | inr (inl (e, k)) ↦
      after_room cap ys src b (doubled_by cap ys) e (doubled_by-Holds cap ys v.some_room k)
        (inr (length-doubled_by cap ys k))
  | inr (inr (e, k)) ↦ after_room cap ys src b b e v (inr (v.doubled k))
]

pub Fills-seq :
    (f g : MemBuffer → Outcome MemBuffer) (xs zs : List ℕ)
    → Fills f xs
    → Fills g zs
    → Fills (λ b. f b >>= g) (xs ++ zs)
Fills-seq f g xs zs wf wg cap ys b v n =
    let l = length-append xs zs in
    let (fits, over) = wf cap ys b v (omega (arith, l)) in
    let second : length ys + length xs ≤ cap + cap
        → (c : MemBuffer) × (f b ≡ ok c)
          × (length ys + length (xs ++ zs) ≤ cap + cap
              → (b' : MemBuffer) × (g c ≡ ok b') × Holds cap (ys ++ (xs ++ zs)) b')
          × (cap + cap < length ys + length (xs ++ zs) → g c ≡ undefined) =
      λ h.
        let (c, e, w) = fits h in
        let m = length-append ys xs in
        let (fits', over') = wg cap (ys ++ xs) c w (omega (arith, l)) in
        (
          c,
          e,
          λ k. rw (append_assoc ys xs zs) at (fits' (omega (arith, l, m))),
          λ k. over' (omega (arith, l, m)),
        ) in
    (
      λ h.
          let (c, e, done, _) = second (omega (arith, l)) in
          let (b', q, w) = done h in (b', rw (e, ◌>>=◌) q, w),
      λ h. elim (Bool-cases (leb (length ys + length xs) (cap + cap))) [
        | inl k ↦ let (c, e, _, past) = second (ground arith) in rw (e, ◌>>=◌) (past h)
        | inr k ↦ let u : f b ≡ undefined = over (ground arith) in rw (u, ◌>>=◌)
      ],
    )

Fills-nil : Fills ok []
Fills-nil cap ys b v n =
    (λ h. (b, refl, rw (append-nil ys) v), λ h. absurd (omega (arith, v.room, v.block)))

put_each-Fills : (xs : List ℕ) → Fills (put_each xs) xs
unfolding put_each
put_each-Fills [] = Fills-nil
put_each-Fills (x ∷ xs) =
    Fills-seq (write_bytes (x ∷ [])) (put_each xs) (x ∷ []) xs (write_bytes-Fills (x ∷ []))
      (put_each-Fills xs)

pub put_bytes-Fills : (xs : List ℕ) → Fills (put_bytes xs) (string_bytes xs)
unfolding put_bytes string_bytes put_int
put_bytes-Fills xs =
    Fills-seq (put_int 8 (length xs)) (put_each xs) (le_bytes 8 (length xs)) xs
      (write_bytes-Fills (le_bytes 8 (length xs))) (put_each-Fills xs)

pub put_string-Fills : (s : List ℕ) → Fills (put_string s) (string_bytes s)
unfolding put_string string_bytes put_int
put_string-Fills s =
    Fills-seq (put_int 8 (length s)) (write_bytes s) (le_bytes 8 (length s)) s
      (write_bytes-Fills (le_bytes 8 (length s))) (write_bytes-Fills s)

pub put_byte-Fills : (x : ℕ) → Fills (put_byte x) (x ∷ [])
unfolding put_byte
put_byte-Fills x = write_bytes-Fills (x ∷ [])

pub put_int-Fills : (k n : ℕ) → Fills (put_int k n) (le_bytes k n)
unfolding put_int
put_int-Fills k n = write_bytes-Fills (le_bytes k n)

pub put_array-Fills : (xs : List ℕ) → Fills (put_array xs) xs
unfolding put_array
put_array-Fills xs = write_bytes-Fills xs

put_each_string-Fills : (ss : List (List ℕ)) → Fills (put_each_string ss) (each_string_bytes ss)
unfolding put_each_string each_string_bytes
put_each_string-Fills [] = Fills-nil
put_each_string-Fills (s ∷ ss) =
    Fills-seq (put_string s) (put_each_string ss) (string_bytes s) (each_string_bytes ss)
      (put_string-Fills s) (put_each_string-Fills ss)

pub put_strings-Fills : (ss : List (List ℕ)) → Fills (put_strings ss) (strings_bytes ss)
unfolding put_strings strings_bytes
put_strings-Fills ss =
    Fills-seq (put_int 8 (length ss)) (put_each_string ss) (le_bytes 8 (length ss))
      (each_string_bytes ss) (put_int-Fills 8 (length ss)) (put_each_string-Fills ss)

-- What was written to a new buffer.
pub new_buffer-Fills :
    (f : MemBuffer → Outcome MemBuffer) (xs : List ℕ) (cap : ℕ)
    → Fills f xs
    → 0 < cap
    → cap < 2 ^ 62
    → length xs ≤ cap + cap
    → (b : MemBuffer) × (f (new_buffer cap) ≡ ok b) × (live b ≡ xs)
new_buffer-Fills f xs cap w h k n =
    let (fits, _) = w cap [] (new_buffer cap) (new_buffer-Holds cap h k) (omega arith) in
    let (b, e, v) = fits (omega (arith, n)) in (b, e, live-Holds cap xs b v)

pub new_buffer-overrun :
    (f : MemBuffer → Outcome MemBuffer) (xs : List ℕ) (cap : ℕ)
    → Fills f xs
    → 0 < cap
    → cap < 2 ^ 62
    → length xs < 2 ^ 63
    → cap + cap < length xs
    → f (new_buffer cap) ≡ undefined
new_buffer-overrun f xs cap w h k n past =
    let (_, over) = w cap [] (new_buffer cap) (new_buffer-Holds cap h k) n in
    over (omega (arith, past))

-- A vector goes into a new buffer of the earlier kind, and is there as in a buffer of today, if it takes at
-- most twice the capacity with its size; a longer one is written past the block.
pub new_buffer-put_bytes :
    (xs : List ℕ) (cap : ℕ)
    → 0 < cap
    → cap < 2 ^ 59
    → length xs < 2 ^ 62
    → ((8 + length xs ≤ cap + cap)
        × ((b : MemBuffer) × (put_bytes xs (new_buffer cap) ≡ ok b)
            × (live b ≡ live (Codec.put_bytes xs (new_buffer cap)))))
      ⊎ ((cap + cap < 8 + length xs) × (put_bytes xs (new_buffer cap) ≡ undefined))
new_buffer-put_bytes xs cap h k n =
    let l = length-string_bytes xs in
    elim (Bool-cases (leb (8 + length xs) (cap + cap))) [
      | inl f ↦
          let fits : 8 + length xs ≤ cap + cap = ground arith in
          let (b, e, q) =
            new_buffer-Fills (put_bytes xs) (string_bytes xs) cap (put_bytes-Fills xs) h
              (omega arith) (omega (arith, l)) in
          inl (fits, (b, e, q ∙ sym (packed_lem cap xs (omega arith) (omega arith))))
      | inr f ↦
          let past : cap + cap < 8 + length xs = ground arith in
          inr (
            past,
            new_buffer-overrun (put_bytes xs) (string_bytes xs) cap (put_bytes-Fills xs) h
                (omega arith) (omega (arith, l)) (omega (arith, l)),
          )
    ]
