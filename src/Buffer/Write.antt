-- ===== src/Buffer/Write.antt =====
-- MemBuffer's writing side: `relocate`, `resize`, `ensureFreeSpace` and `write_bytes`.
use leaky_chat.Prelude.{
  ℕ, ◌+◌, ◌-◌, ◌^◌, ◌≤◌, ◌<◌, max, ◌≡◌, ap, ◌∙◌, arith, List, ◌++◌, take, drop, replicate, length,
  length-append, length-take, length-replicate, take-append, drop-append_le, drop-take,
  append_assoc,
}
use leaky_chat.Buffer.{
  MemBuffer, resize, relocate, ensure_free_space, write_bytes, copy_to, add_size,
}
use leaky_chat.Buffer.Fifo.{
  IsValid, contents, length-contents, length-copy_to, moved, moved-IsValid, contents-moved,
}

-- What `ensureFreeSpace(sz)` is for: the same bytes, and `sz` free places behind them.
pub record HasRoom (sz : ℕ) (b e : MemBuffer) : Type 0 where
  pub valid : IsValid e
  pub same : contents e ≡ contents b
  pub fits : e.end + sz ≤ e.cap

relocate-HasRoom :
    {b : MemBuffer} (sz : ℕ)
    → IsValid b
    → b.end - b.begin + sz ≤ b.cap
    → b.cap < b.end + sz
    → HasRoom sz b (relocate b)
unfolding relocate moved
relocate-HasRoom {b} sz v h k =
    ground (arith, moved-IsValid v b.bytes b.cap, contents-moved v b.bytes b.cap)

resize-HasRoom :
    {b : MemBuffer} (sz cap : ℕ)
    → IsValid b
    → b.cap < cap
    → b.end - b.begin + sz ≤ cap
    → cap < 2 ^ 63
    → HasRoom sz b (resize cap b)
unfolding resize moved
resize-HasRoom {b} sz cap v g h k = ground (
  arith,
  moved-IsValid v (replicate cap 0) cap (length-replicate cap 0),
  contents-moved v (replicate cap 0) cap,
)

-- `ensureFreeSpace(sz)` keeps the bytes and leaves room for `sz` more, whichever way it takes; no
-- sum of sizes wraps, as long as the buffer is to hold less than 2 ^ 62 bytes.
pub ensure_free_space-HasRoom :
    {b : MemBuffer} (sz : ℕ)
    → IsValid b
    → length (contents b) + sz < 2 ^ 62
    → HasRoom sz b (ensure_free_space sz b)
unfolding ensure_free_space
ensure_free_space-HasRoom {b} sz v h = ground (
  arith,
  length-contents v,
  relocate-HasRoom sz v,
  resize-HasRoom sz (max (add_size b.cap b.cap) (add_size sz b.cap)) v,
)

-- Writing behind the last byte appends.
append-IsValid :
    {b : MemBuffer} (src : List ℕ)
    → IsValid b
    → b.end + length src ≤ b.cap
    → let w = record b { bytes = copy_to b.bytes b.end src; end = add_size b.end (length src) } in
      IsValid w × (contents w ≡ contents b ++ src)
append-IsValid {b} src v h = (
  record {
    block = length-copy_to b.bytes b.end src (omega arith) ∙ v.block;
    marks = omega arith;
    room = omega arith;
    small = v.small;
  },
  tail_moves,
)
  where
    rest : List ℕ
    rest = drop (b.end + length src) b.bytes

    tail_moves :
        take (add_size b.end (length src) - b.begin) (drop b.begin (copy_to b.bytes b.end src))
        ≡ contents b ++ src
    tail_moves =
        rw
          (
            drop-append_le b.begin (take b.end b.bytes) (src ++ rest)
                (omega (arith, length-take b.end b.bytes)),
            drop-take b.begin b.end b.bytes,
            ← append_assoc (contents b) src rest,
          )
          (take-append _ (contents b ++ src) rest
            (omega (arith, length-append (contents b) src, length-contents v)))

-- `write_bytes` appends the bytes to the queue and keeps the buffer valid, for every size below
-- 2 ^ 62 in all.
pub write_bytes_lem :
    {b : MemBuffer} (src : List ℕ)
    → IsValid b
    → length (contents b) + length src < 2 ^ 62
    → IsValid (write_bytes src b) × (contents (write_bytes src b) ≡ contents b ++ src)
unfolding write_bytes
write_bytes_lem {b} src v h =
    let r = ensure_free_space-HasRoom (length src) v h in
    let (w, e) = append-IsValid src r.valid r.fits in (w, e ∙ ap (λ xs. xs ++ src) r.same)
