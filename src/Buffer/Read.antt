-- ===== src/Buffer/Read.antt =====
-- MemBuffer's reading side: `consume` and `read`.
use leaky_chat.Prelude.{
  ℕ, ◌+◌, ◌-◌, ◌≤◌, ◌<◌, min, ◌≡◌, sym, ap, ◌∙◌, arith, take, drop, length, drop-drop, drop-take,
  ok, throws, out_of_range, ◌==◌, if◌then◌else◌, ltb, Bool-cases, inl, inr, take-take-min, drop_all,
  drop-min, drop-zero, take-zero,
}
use leaky_chat.Buffer.{MemBuffer, consume, read, add_size}
use leaky_chat.Buffer.Fifo.{IsValid, contents, length-contents, size-length}

-- The buffer that `consume` leaves.
abbrev pub consumed : ℕ → MemBuffer → MemBuffer
consumed len b =
    if add_size b.begin len == b.end
    then record b { begin = 0; end = 0 }
    else record b { begin = add_size b.begin len }

consumed-IsValid :
    {b : MemBuffer} (len : ℕ) → IsValid b → b.begin + len ≤ b.end → IsValid (consumed len b)
consumed-IsValid len v h = ground arith

contents-consumed :
    {b : MemBuffer} (len : ℕ)
    → IsValid b
    → b.begin + len ≤ b.end
    → contents (consumed len b) ≡ drop len (contents b)
contents-consumed {b} len v h = elim (Bool-cases (add_size b.begin len == b.end)) [
  | inl e ↦ rw e (sym (drop_all len (contents b) (ground (arith, length-contents v))))
  | inr e ↦ rw e (
      let e' : add_size b.begin len ≡ b.begin + len = omega arith in
      let k : b.end - (b.begin + len) ≡ b.end - b.begin - len = omega arith in
      rw (
        e',
        k,
        drop-take len (b.end - b.begin) (drop b.begin b.bytes),
        drop-drop len b.begin b.bytes,
      ))
]

-- `consume(len)` drops the `len` oldest bytes, or throws if there are fewer and changes nothing.
pub consume_lem :
    {b : MemBuffer} (len : ℕ)
    → IsValid b
    → len ≤ length (contents b)
    → (consume len b ≡ ok (consumed len b))
      × IsValid (consumed len b)
      × (contents (consumed len b) ≡ drop len (contents b))
unfolding consume
consume_lem {b} len v h = (
  ground (arith, length-contents v),
  consumed-IsValid len v (omega (arith, length-contents v)),
  contents-consumed len v (omega (arith, length-contents v)),
)

pub consume_underflow :
    {b : MemBuffer} (len : ℕ)
    → IsValid b
    → length (contents b) < len
    → consume len b ≡ throws out_of_range
unfolding consume
consume_underflow {b} len v h = ground (arith, length-contents v)

-- The buffer that `read` leaves.
pub after_read : ℕ → MemBuffer → MemBuffer
after_read len b =
    if ltb 0 (min len (b.end - b.begin)) then consumed (min len (b.end - b.begin)) b else b

module _ {b : MemBuffer} (v : IsValid b) (len : ℕ) where
  least : ℕ
  least = min len (b.end - b.begin)

  take-least : take least (drop b.begin b.bytes) ≡ take len (contents b)
  unfolding least
  take-least = sym (take-take-min len (b.end - b.begin) (drop b.begin b.bytes))

  drop-least : drop least (contents b) ≡ drop len (contents b)
  unfolding least
  drop-least =
      ap (λ k. drop (min len k) (contents b)) (sym (length-contents v)) ∙ drop-min len (contents b)

  read_some :
      0 < least
      → (read len b ≡ ok (take len (contents b), consumed least b))
        × IsValid (consumed least b)
        × (contents (consumed least b) ≡ drop len (contents b))
  unfolding read least
  read_some h =
      let (c, w, e) = consume_lem least v (omega (arith, length-contents v)) in
      (ground (arith, c, take-least, size-length v, length-contents v), w, e ∙ drop-least)

  read_none :
      least ≡ 0
      → (read len b ≡ ok (take len (contents b), b)) × (contents b ≡ drop len (contents b))
  unfolding read least
  read_none h = (
    ground (
      arith,
      take-least,
      take-zero least (drop b.begin b.bytes),
      size-length v,
      length-contents v,
    ),
    sym (drop-zero least (contents b) h) ∙ drop-least,
  )

-- `read(dest, len)` never throws: it moves the `len` oldest bytes, or all there are, and keeps the
-- rest in order.
pub read_lem :
    {b : MemBuffer} (len : ℕ)
    → IsValid b
    → (read len b ≡ ok (take len (contents b), after_read len b))
      × IsValid (after_read len b)
      × (contents (after_read len b) ≡ drop len (contents b))
unfolding read_some read_none least after_read
read_lem {b} len v = ground (arith, read_some v len, read_none v len)
