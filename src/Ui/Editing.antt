-- ===== src/Ui/Editing.antt =====
-- The line editor: the cursor stays in the line, and typing appends.
use leaky_chat.Prelude.{
  ℕ, zero, suc, ◌+◌, ◌-◌, ◌≤◌, ◌<◌, ◌≡◌, inl, inr, refl, ◌∙◌, arith, true, false, List, [], ◌∷◌,
  ◌++◌, take, drop, length, take_all, drop_all, length-append, length-take, All, append_assoc,
  append-nil, ok, leb, ltb, ◌==◌, ◌||◌, ◌&&◌, Bool-cases,
}
use leaky_chat.Ui.{
  Ui, submit, submit_input, erase_at, insert_at, pred_size, backspace, type_key, handle_key,
  process_input,
}

-- The cursor is in the line or behind its last character.
pub record IsValid (s : Ui) : Type 0 where
  pub inside : s.cursor ≤ length s.input

submit-IsValid : (left line : List ℕ) (s : Ui) → IsValid s → IsValid (submit left line s)
submit-IsValid left [] s v = v
submit-IsValid left (c ∷ rest) s v = record { inside = omega arith }

pred_size_lem : (n : ℕ) → 0 < n → pred_size n ≡ n - 1
pred_size_lem zero h = absurd (omega arith)
pred_size_lem (suc n) h = omega arith

backspace_ok : (s : Ui) → IsValid s → (t : Ui) × (backspace s ≡ ok t) × IsValid t
unfolding backspace erase_at
backspace_ok s v = elim (Bool-cases (ltb 0 s.cursor)) [
  | inl h ↦
      let back : pred_size s.cursor ≡ s.cursor - 1 = pred_size_lem s.cursor (ground arith) in
      let inside : ltb (length s.input) (s.cursor - 1) ≡ false = ground (arith, v.inside) in
      let line : List ℕ = take (s.cursor - 1) s.input ++ drop (s.cursor - 1 + 1) s.input in
      (
        record s { input = line; cursor = s.cursor - 1 },
        rw (h, back, inside),
        record {
          inside = ground (
            arith,
            v.inside,
            length-append (take (s.cursor - 1) s.input) (drop (s.cursor - 1 + 1) s.input),
            length-take (s.cursor - 1) s.input,
          );
        },
      )
  | inr h ↦ (s, rw h, v)
]

type_key_ok : (c : ℕ) (s : Ui) → IsValid s → (t : Ui) × (type_key c s ≡ ok t) × IsValid t
unfolding type_key insert_at
type_key_ok c s v = elim (Bool-cases (leb 32 c && leb c 126)) [
  | inl h ↦
      let inside : ltb (length s.input) s.cursor ≡ false = ground (arith, v.inside) in
      let line : List ℕ = take s.cursor s.input ++ (c ∷ drop s.cursor s.input) in
      (
        record s { input = line; cursor = s.cursor + 1 },
        rw (h, inside),
        record {
          inside = ground (
            arith,
            v.inside,
            length-append (take s.cursor s.input) (c ∷ drop s.cursor s.input),
            length-take s.cursor s.input,
          );
        },
      )
  | inr h ↦ (s, rw h, v)
]

handle_key_ok :
    (left : List ℕ) (c : ℕ) (s : Ui)
    → IsValid s
    → (t : Ui) × (handle_key left c s ≡ ok t) × IsValid t
unfolding handle_key submit_input
handle_key_ok left c s v = elim (Bool-cases (c == 10 || c == 13)) [
  | inl h ↦ (submit_input left s, rw h, submit-IsValid left s.input s v)
  | inr h ↦ elim (Bool-cases (c == 127 || c == 8)) [
    | inl k ↦ let (t, e, w) = backspace_ok s v in (t, rw (h, k) e, w)
    | inr k ↦ elim (Bool-cases (c == 3)) [
      | inl j ↦ (
        record s { running = false; released = s.released + 1 },
        rw (h, k, j),
        record { inside = v.inside },
      )
      | inr j ↦ let (t, e, w) = type_key_ok c s v in (t, rw (h, k, j) e, w)
    ]
  ]
]

-- Whatever is typed, no key throws and the cursor stays in the line, from any state where it is, and
-- whatever a moved-from string holds.
pub process_input_ok :
    (left keys : List ℕ) (s : Ui)
    → IsValid s
    → (t : Ui) × (process_input left keys s ≡ ok t) × IsValid t
unfolding process_input
process_input_ok left [] s v = (s, refl, v)
process_input_ok left (c ∷ cs) s v =
    let (t, e, w) = handle_key_ok left c s v in
    let (u, k, x) = process_input_ok left cs t w in (u, rw e k, x)

-- A printable character.
abbrev pub IsPrintable : ℕ → Type 0
IsPrintable c = (31 < c) × (c < 127)

insert_at-length : (c : ℕ) (line : List ℕ) → insert_at (length line) c line ≡ ok (line ++ (c ∷ []))
unfolding insert_at
insert_at-length c line =
    let inside : ltb (length line) (length line) ≡ false = ground arith in
    rw
      (inside, take_all (length line) line (omega arith), drop_all (length line) line (omega arith))

handle_key_printable :
    (left : List ℕ) (c : ℕ) (s : Ui)
    → IsPrintable c
    → s.cursor ≡ length s.input
    → handle_key left c s ≡ ok (record s { input = s.input ++ (c ∷ []); cursor = s.cursor + 1 })
unfolding handle_key type_key
handle_key_printable left c s h e =
    let ends : (c == 10 || c == 13) ≡ false = ground arith in
    let rubs : (c == 127 || c == 8) ≡ false = ground arith in
    let stops : (c == 3) ≡ false = ground arith in
    let shows : (leb 32 c && leb c 126) ≡ true = ground arith in
    rw (ends, rubs, stops, shows, e, insert_at-length c s.input)

-- Printable characters typed at the end of the line are appended to it.
pub process_input-append :
    (left keys more : List ℕ) (s : Ui)
    → All IsPrintable keys
    → s.cursor ≡ length s.input
    → process_input left (keys ++ more) s
      ≡ process_input left more
          (record s { input = s.input ++ keys; cursor = s.cursor + length keys })
unfolding process_input
process_input-append left [] more s h e =
    let k : s.cursor + 0 ≡ s.cursor = omega arith in rw (append-nil s.input, k)
process_input-append left (c ∷ cs) more s h e =
    let k : s.cursor + 1 + length cs ≡ s.cursor + suc (length cs) = omega arith in
    rw (handle_key_printable left c s h.0 e) (
      process_input-append left cs more
        (record s { input = s.input ++ (c ∷ []); cursor = s.cursor + 1 }) h.1
        (omega (arith, e, length-append s.input (c ∷ [])))
      ∙ rw (append_assoc s.input (c ∷ []) cs, k))
