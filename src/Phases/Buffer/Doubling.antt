-- ===== src/Phases/Buffer/Doubling.antt =====
-- The block of the earlier MemBuffer (.phases/phase2/src/utils/MemBuffer.cpp) and how it is doubled.
use leaky_chat.Prelude.{
  ℕ, ◌⊎◌, ◌+◌, ◌^◌, ◌≤◌, ◌<◌, ◌≡◌, refl, ◌∙◌, arith, List, [], ◌++◌, length, take, drop, replicate,
  ltb, leb, true, false, inl, inr, Bool-cases, length-append, length-replicate, length-drop,
  take-append, append_assoc,
}
use leaky_chat.Buffer.{MemBuffer, add_size, sub_size, new_buffer, size, live, relocate, copy_to}
use leaky_chat.Buffer.Fifo.{length-copy_to}
use leaky_chat.Phases.Buffer.{resize, ensure_free_space}

-- A buffer that was made with `cap` bytes and into which `xs` were written, none of which were read. Its
-- block may have been doubled once.
pub record Holds (cap : ℕ) (xs : List ℕ) (b : MemBuffer) : Type 0 where
  pub front : b.begin ≡ 0
  pub written : b.end ≡ length xs
  pub capacity : b.cap ≡ cap
  pub some_room : (0 < cap) × (cap < 2 ^ 62)
  pub block : (length b.bytes ≡ cap) ⊎ (length b.bytes ≡ cap + cap)
  pub doubled : cap < length xs → length b.bytes ≡ cap + cap
  pub room : length xs ≤ length b.bytes
  pub bytes : take (length xs) b.bytes ≡ xs

pub new_buffer-Holds : (cap : ℕ) → 0 < cap → cap < 2 ^ 62 → Holds cap [] (new_buffer cap)
unfolding new_buffer
new_buffer-Holds cap h k = record {
  front = refl;
  written = refl;
  capacity = refl;
  some_room = (h, k);
  block = inl (length-replicate cap 0);
  doubled = λ z. absurd (omega arith);
  room = omega arith;
  bytes = refl;
}

pub live-Holds : (cap : ℕ) (xs : List ℕ) (b : MemBuffer) → Holds cap xs b → live b ≡ xs
live-Holds cap xs b v =
    let e : sub_size b.end b.begin ≡ length xs =
      omega (arith, v.front, v.written, v.room, v.block, v.some_room) in
    rw (e, v.front) v.bytes

-- A block of twice the size with the bytes in front.
abbrev pub doubled_by : ℕ → List ℕ → MemBuffer
doubled_by cap ys = record {
  bytes = ys ++ drop (0 + length ys) (replicate (cap + cap) 0);
  begin = 0;
  end = length ys;
  cap = cap;
}

pub length-doubled_by :
    (cap : ℕ) (ys : List ℕ) → length ys ≤ cap → length (doubled_by cap ys).bytes ≡ cap + cap
length-doubled_by cap ys h = omega (
  arith,
  length-append ys (drop (0 + length ys) (replicate (cap + cap) 0)),
  length-drop {A = ℕ} (0 + length ys) (replicate (cap + cap) 0),
  length-replicate {A = ℕ} (cap + cap) 0,
)

pub doubled_by-Holds :
    (cap : ℕ) (ys : List ℕ)
    → (0 < cap) × (cap < 2 ^ 62)
    → length ys ≤ cap
    → Holds cap ys (doubled_by cap ys)
doubled_by-Holds cap ys c h =
    let n = length-doubled_by cap ys h in
    record {
      front = refl;
      written = refl;
      capacity = refl;
      some_room = c;
      block = inr n;
      doubled = λ z. n;
      room = omega (arith, n);
      bytes = take-append (length ys) ys (drop (0 + length ys) (replicate (cap + cap) 0)) refl;
    }

resize_lem :
    (cap : ℕ) (ys : List ℕ) (b : MemBuffer)
    → Holds cap ys b
    → length ys ≤ cap
    → resize (cap + cap) b ≡ doubled_by cap ys
unfolding resize size
resize_lem cap ys b v h =
    let s : sub_size b.end b.begin ≡ length ys =
      omega (arith, v.front, v.written, v.room, v.block, v.some_room) in
    let l : take (length ys) (drop b.begin b.bytes) ≡ ys = rw v.front v.bytes in
    let small : ltb (length ys) (cap + cap) ≡ true = ground (arith, v.some_room) in
    rw (resize, s, small, l, v.capacity)

-- `ensureFreeSpace(n)` does nothing while `n` more fit the first block, and nothing once the second one
-- is in use; between the two it doubles the block.
pub ensure_free_space_lem :
    (cap n : ℕ) (ys : List ℕ) (b : MemBuffer)
    → Holds cap ys b
    → n < 2 ^ 63
    → ((ensure_free_space n b ≡ b) × (length ys + n ≤ cap))
      ⊎ (((ensure_free_space n b ≡ doubled_by cap ys) × (length ys ≤ cap))
          ⊎ ((ensure_free_space n b ≡ b) × (cap < length ys)))
unfolding ensure_free_space size relocate
ensure_free_space_lem cap n ys b v h =
    let s : sub_size b.end b.begin ≡ length ys =
      omega (arith, v.front, v.written, v.room, v.block, v.some_room) in
    let c : add_size b.cap b.cap ≡ cap + cap = omega (arith, v.some_room, v.capacity) in
    let front : ltb 0 b.begin ≡ false = ground (arith, v.front) in
    elim (Bool-cases (leb (length ys + n) cap)) [
      | inl fits ↦
          let e : ltb (sub_size b.cap (length ys)) n ≡ false = ground (arith, v.capacity) in
          let d : ltb (sub_size b.cap b.end) n ≡ false = ground (arith, v.capacity, v.written) in
          inl (rw (ensure_free_space, s, e, d), ground arith)
      | inr beyond ↦ elim (Bool-cases (leb (length ys) cap)) [
        | inl first ↦
            let e : ltb (sub_size b.cap (length ys)) n ≡ true =
              ground (arith, v.some_room, v.capacity) in
            let k : length ys ≤ cap = ground arith in
            inr (inl (rw (ensure_free_space, s, e, c) (resize_lem cap ys b v k), k))
        | inr second ↦
            let e : ltb (sub_size b.cap (length ys)) n ≡ false =
              ground (arith, v.capacity, v.some_room, v.room, v.block) in
            let d : ltb (sub_size b.cap b.end) n ≡ false =
              ground (arith, v.capacity, v.written, v.some_room, v.room, v.block) in
            inr (inr (rw (ensure_free_space, s, e, d), ground arith))
      ]
    ]

-- Behind the bytes of a buffer whose block has room.
pub append-Holds :
    (cap : ℕ) (ys src : List ℕ) (b : MemBuffer)
    → Holds cap ys b
    → length ys + length src ≤ length b.bytes
    → (length ys + length src ≤ cap) ⊎ (length b.bytes ≡ cap + cap)
    → Holds cap
        (ys ++ src)
        (record b { bytes = copy_to b.bytes b.end src; end = add_size b.end (length src) })
append-Holds cap ys src b v h k =
    let n = length-append ys src in
    let l : length (copy_to b.bytes b.end src) ≡ length b.bytes =
      length-copy_to b.bytes b.end src (omega (arith, v.written)) in
    record {
      front = v.front;
      written = omega (arith, v.written, n, v.some_room, v.block);
      capacity = v.capacity;
      some_room = v.some_room;
      block = rw l v.block;
      doubled = λ z. l ∙ elim k [ inl x ↦ absurd (omega (arith, n)) | inr e ↦ e ];
      room = omega (arith, l, n);
      bytes =
          rw (v.written, v.bytes, ← append_assoc ys src (drop (length ys + length src) b.bytes))
            (take-append (length (ys ++ src)) (ys ++ src) (drop (length ys + length src) b.bytes)
              refl);
    }
