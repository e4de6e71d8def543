-- ===== src/Buffer.antt =====
-- utils/MemBuffer.h and utils/MemBuffer.cpp: a growing byte buffer that is written at `end` and read
-- at `begin`. A `char` is a number below 256; the block `data_` is the list of its bytes, and a
-- null pointer is the empty list. `size_t` keeps its wrap-around. `new char[n]` is taken to succeed,
-- and what it leaves unset is written 0 here.
pub mod Fifo
pub mod Write
pub mod Read
pub mod Reader
pub mod Codec
pub mod Stream
pub mod Encoding
use leaky_chat.Prelude.{
  ℕ, ◌+◌, ◌-◌, ◌%◌, ◌^◌, ◌≤◌, min, max, Bool, List, [], ◌++◌, take, drop, replicate, length, leb,
  ltb, ◌==◌, if◌then◌else◌, Outcome, ok, throws, out_of_range, ◌>>=◌,
}

pub record MemBuffer : Type 0 where
  pub bytes : List ℕ
  pub begin : ℕ
  pub end : ℕ
  pub cap : ℕ

-- `size_t` arithmetic.
abbrev pub add_size : ℕ → ℕ → ℕ
add_size a b = (a + b) % 2 ^ 64

abbrev pub sub_size : ℕ → ℕ → ℕ
sub_size a b = (a + 2 ^ 64 - b) % 2 ^ 64

-- `MemBuffer()` and `MemBuffer(sz)`.
abbrev pub null_buffer : MemBuffer
null_buffer = record { bytes = []; begin = 0; end = 0; cap = 0 }

unfoldable pub new_buffer : ℕ → MemBuffer
new_buffer sz = record { bytes = replicate sz 0; begin = 0; end = 0; cap = sz }

-- The move constructor: the new object and what is left of the old one.
pub move_from : MemBuffer → MemBuffer × MemBuffer
move_from other = (other, null_buffer)

-- `if (data_)`: a block of capacity 0 and a null pointer are not told apart by what follows.
unfoldable pub free : MemBuffer → MemBuffer
free b = null_buffer

unfoldable pub size : MemBuffer → ℕ
size b = sub_size b.end b.begin

unfoldable pub available_space : MemBuffer → ℕ
available_space b = sub_size b.cap b.end

unfoldable pub free_space : MemBuffer → ℕ
unfolding size
free_space b = sub_size b.cap (size b)

-- `memcpy(dst + at, src, src.size())` and `memmove`: the bytes of `dst` before and behind stay.
abbrev pub copy_to : List ℕ → ℕ → List ℕ → List ℕ
copy_to dst at src = take at dst ++ (src ++ drop (at + length src) dst)

-- The bytes `[data_ + begin, data_ + end)`.
abbrev pub live : MemBuffer → List ℕ
live b = take (sub_size b.end b.begin) (drop b.begin b.bytes)

unfoldable pub resize : ℕ → MemBuffer → MemBuffer
resize sz b =
    if ltb b.cap sz
    then record {
      bytes = copy_to (replicate sz 0) 0 (live b);
      begin = 0;
      end = sub_size b.end b.begin;
      cap = sz;
    }
    else b

unfoldable pub relocate : MemBuffer → MemBuffer
relocate b =
    if ltb 0 b.begin
    then record b { bytes = copy_to b.bytes 0 (live b); begin = 0; end = sub_size b.end b.begin }
    else b

-- `2*capacity_` and `sz + capacity_` wrap.
unfoldable pub ensure_free_space : ℕ → MemBuffer → MemBuffer
unfolding size available_space free_space
ensure_free_space sz b =
    if leb sz (available_space b)
    then b
    else if leb sz (free_space b)
    then relocate b
    else resize (max (add_size b.cap b.cap) (add_size sz b.cap)) b

unfoldable pub write_bytes : List ℕ → MemBuffer → MemBuffer
unfolding ensure_free_space
write_bytes src b =
    let r = ensure_free_space (length src) b in
    record r { bytes = copy_to r.bytes r.end src; end = add_size r.end (length src) }

unfoldable pub consume : ℕ → MemBuffer → Outcome MemBuffer
unfolding size
consume len b =
    let begin' = add_size b.begin len in
    if ltb (size b) len
    then throws out_of_range
    else if begin' == b.end
    then ok (record b { begin = 0; end = 0 })
    else ok (record b { begin = begin' })

-- `read`: the bytes that it copies to `dest`, and the buffer. Fewer than `len` come from a shorter
-- buffer, and the rest of `dest` keeps what it had.
unfoldable pub read : ℕ → MemBuffer → Outcome (List ℕ × MemBuffer)
unfolding size
read len b =
    let n = min len (size b) in
    if ltb 0 n then (consume n b >>= λ b'. ok (take n (drop b.begin b.bytes), b')) else ok ([], b)
