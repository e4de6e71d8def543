-- ===== src/Buffer/Fifo.antt =====
-- The invariant of MemBuffer, and the byte queue that a valid buffer stands for.
use leaky_chat.Prelude.{
  ℕ, ◌+◌, ◌-◌, ◌^◌, ◌≤◌, ◌<◌, ◌≡◌, refl, ap, ◌∙◌, arith, List, [], ◌++◌, take, drop, length,
  length-append, length-take, length-drop, length-replicate, take-append,
}
use leaky_chat.Buffer.{MemBuffer, new_buffer, null_buffer, size, copy_to, live, sub_size}

-- What is between the two marks lies in the block, and the block is smaller than any object may be.
pub record IsValid (b : MemBuffer) : Type 0 where
  pub block : length b.bytes ≡ b.cap
  pub marks : b.begin ≤ b.end
  pub room : b.end ≤ b.cap
  pub small : b.cap < 2 ^ 63

-- The bytes written and not yet read, oldest first.
abbrev pub contents : MemBuffer → List ℕ
contents b = take (b.end - b.begin) (drop b.begin b.bytes)

pub size-length : {b : MemBuffer} → IsValid b → size b ≡ length (contents b)
unfolding size
size-length {b} v =
    omega (arith, length-take (b.end - b.begin) (drop b.begin b.bytes), length-drop b.begin b.bytes)

pub null_buffer-IsValid : IsValid null_buffer
null_buffer-IsValid = omega arith

pub new_buffer-IsValid : (sz : ℕ) → sz < 2 ^ 63 → IsValid (new_buffer sz)
unfolding new_buffer
new_buffer-IsValid sz h = record {
  block = length-replicate sz 0;
  marks = omega arith;
  room = omega arith;
  small = h;
}

pub contents-new_buffer : (sz : ℕ) → contents (new_buffer sz) ≡ []
unfolding new_buffer
contents-new_buffer sz = refl

pub live-eq-contents : {b : MemBuffer} → IsValid b → live b ≡ contents b
live-eq-contents {b} v =
    let e : sub_size b.end b.begin ≡ b.end - b.begin = omega arith in
    ap (λ k. take k (drop b.begin b.bytes)) e

pub length-contents : {b : MemBuffer} → IsValid b → length (contents b) ≡ b.end - b.begin
length-contents {b} v =
    omega (arith, length-take (b.end - b.begin) (drop b.begin b.bytes), length-drop b.begin b.bytes)

pub length-copy_to :
    (dst : List ℕ) (at : ℕ) (src : List ℕ)
    → at + length src ≤ length dst
    → length (copy_to dst at src) ≡ length dst
length-copy_to dst at src h = omega (
  arith,
  length-append (take at dst) (src ++ drop (at + length src) dst),
  length-append src (drop (at + length src) dst),
  length-take at dst,
  length-drop (at + length src) dst,
)

-- A buffer whose live bytes were moved to the front of a block of `cap` bytes.
module _ {b : MemBuffer} (v : IsValid b) (block : List ℕ) (cap : ℕ) where
  unfoldable pub moved : MemBuffer
  moved = record {
    bytes = copy_to block 0 (live b);
    begin = 0;
    end = sub_size b.end b.begin;
    cap = cap;
  }

  pub moved-IsValid : length block ≡ cap → b.end - b.begin ≤ cap → cap < 2 ^ 63 → IsValid moved
  unfolding moved
  moved-IsValid e h k = record {
    block =
        length-copy_to block 0 (live b)
          (omega (arith, ap length (live-eq-contents v), length-contents v))
        ∙ e;
    marks = omega arith;
    room = omega arith;
    small = k;
  }

  pub contents-moved : contents moved ≡ contents b
  unfolding moved
  contents-moved =
      take-append (sub_size b.end b.begin - 0) (live b) (drop (0 + length (live b)) block)
        (omega (arith, ap length (live-eq-contents v), length-contents v))
      ∙ live-eq-contents v
