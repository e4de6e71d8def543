-- ===== src/Tests/Buffers.antt =====
-- A buffer that has been written and read.
use leaky_chat.Prelude.{ℕ, ◌≡◌, refl, arith, List, [], ◌∷◌, ◌++◌, take, drop, ok}
use leaky_chat.Buffer.{MemBuffer, write_bytes, read, consume}
use leaky_chat.Buffer.Fifo.{IsValid, contents}
use leaky_chat.Buffer.Write.{HasRoom, ensure_free_space-HasRoom, write_bytes_lem}
use leaky_chat.Buffer.Read.{consumed, consume_lem, after_read, read_lem}
use leaky_chat.Buffer.{ensure_free_space, resize}

-- 6 and 7 of a block of four bytes.
abbrev used : MemBuffer
used = record { bytes = 5 ∷ 6 ∷ 7 ∷ 8 ∷ []; begin = 1; end = 3; cap = 4 }

used-IsValid : IsValid used
used-IsValid = record { block = refl; marks = omega arith; room = omega arith; small = omega arith }

abbrev news : List ℕ
news = 1 ∷ 2 ∷ 3 ∷ []

write_grows :
    write_bytes news used
    ≡ record { bytes = 6 ∷ 7 ∷ 1 ∷ 2 ∷ 3 ∷ 0 ∷ 0 ∷ 0 ∷ []; begin = 0; end = 5; cap = 8 }
unfolding write_bytes resize
write_grows = refl

write_bytes_lem_example :
    IsValid (write_bytes news used) × (contents (write_bytes news used) ≡ contents used ++ news)
write_bytes_lem_example = write_bytes_lem news used-IsValid (omega arith)

read_lem_example :
    (read 5 used ≡ ok (take 5 (contents used), after_read 5 used))
    × IsValid (after_read 5 used)
    × (contents (after_read 5 used) ≡ drop 5 (contents used))
read_lem_example = read_lem 5 used-IsValid

consume_lem_example :
    (consume 1 used ≡ ok (consumed 1 used))
    × IsValid (consumed 1 used)
    × (contents (consumed 1 used) ≡ drop 1 (contents used))
consume_lem_example = consume_lem 1 used-IsValid (omega arith)

ensure_free_space-HasRoom_example : HasRoom 2 used (ensure_free_space 2 used)
ensure_free_space-HasRoom_example = ensure_free_space-HasRoom 2 used-IsValid (omega arith)
