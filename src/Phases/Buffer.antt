-- ===== src/Phases/Buffer.antt =====
-- MemBuffer of the phases 1 to 3, by .phases/phase2/src/utils/MemBuffer.h and MemBuffer.cpp, where it
-- is not the MemBuffer of Buffer: `resize`, `ensureFreeSpace` and what writes. The length of `bytes`
-- is the size of the block, which `capacity_` does not follow. Copying past the block is undefined.
pub mod Doubling
pub mod Contract
use leaky_chat.Prelude.{
  ℕ, ◌⊎◌, ◌+◌, ◌-◌, ◌*◌, ◌^◌, ◌≤◌, ◌<◌, ◌≡◌, refl, sym, ◌∙◌, ap, arith, List, [], ◌∷◌, ◌++◌, length,
  take, drop, replicate, ltb, leb, if◌then◌else◌, Outcome, ok, undefined, ◌>>=◌, true, false, inl,
  inr, Bool-cases, length-append, length-replicate, length-take, length-drop, take-append,
  append-nil, append_assoc,
}
use leaky_chat.Buffer.{MemBuffer, add_size, sub_size, new_buffer, size, live, relocate, copy_to}
use leaky_chat.Buffer.Fifo.{length-copy_to}
use leaky_chat.Buffer.Codec.{le_bytes}
use leaky_chat.Buffer.Encoding.{string_bytes}

-- `capacity_` is not set.
unfoldable pub resize : ℕ → MemBuffer → MemBuffer
unfolding size
resize sz b =
    if ltb (size b) sz
    then record b {
      bytes = copy_to (replicate sz 0) 0 (live b);
      begin = 0;
      end = sub_size b.end b.begin;
    }
    else b

unfoldable pub ensure_free_space : ℕ → MemBuffer → MemBuffer
unfolding size relocate
ensure_free_space sz b =
    if ltb (sub_size b.cap (size b)) sz
    then resize (add_size b.cap b.cap) b
    else if ltb (sub_size b.cap b.end) sz
    then relocate b
    else b

unfoldable pub write_bytes : List ℕ → MemBuffer → Outcome MemBuffer
write_bytes src b =
    let r = ensure_free_space (length src) b in
    if leb (r.end + length src) (length r.bytes)
    then ok (record r { bytes = copy_to r.bytes r.end src; end = add_size r.end (length src) })
    else undefined

-- `operator<<` at an integer of `k` bytes, at a string and at a vector of bytes.
unfoldable pub put_int : ℕ → ℕ → MemBuffer → Outcome MemBuffer
put_int k n b = write_bytes (le_bytes k n) b

unfoldable pub put_string : List ℕ → MemBuffer → Outcome MemBuffer
put_string s b = put_int 8 (length s) b >>= write_bytes s

unfoldable pub put_each : List ℕ → MemBuffer → Outcome MemBuffer
put_each [] b = ok b
put_each (x ∷ xs) b = write_bytes (x ∷ []) b >>= put_each xs

unfoldable pub put_bytes : List ℕ → MemBuffer → Outcome MemBuffer
put_bytes xs b = put_int 8 (length xs) b >>= put_each xs

unfoldable pub put_byte : ℕ → MemBuffer → Outcome MemBuffer
put_byte x b = write_bytes (x ∷ []) b

unfoldable pub put_array : List ℕ → MemBuffer → Outcome MemBuffer
put_array xs b = write_bytes xs b

unfoldable pub put_each_string : List (List ℕ) → MemBuffer → Outcome MemBuffer
put_each_string [] b = ok b
put_each_string (s ∷ ss) b = put_string s b >>= put_each_string ss

unfoldable pub put_strings : List (List ℕ) → MemBuffer → Outcome MemBuffer
put_strings ss b = put_int 8 (length ss) b >>= put_each_string ss
