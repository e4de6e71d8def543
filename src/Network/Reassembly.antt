-- ===== src/Network/Reassembly.antt =====
-- `receiveBytes` puts together what comes in pieces.
use leaky_chat.Prelude.{
  ℕ, zero, suc, ◌-◌, ◌≤◌, ◌<◌, ◌≡◌, refl, sym, ap, ◌∙◌, arith, ◌==◌, ltb, List, [], ◌∷◌, ◌++◌,
  length, take, drop, All, some, true, false, inl, inr, Bool-cases, length-append, length-drop,
  append-nil, append_assoc, take-append_le, drop-append_le,
}
use leaky_chat.Network.Line.{Line, returns, exits, Reception, chunk, again, failed, receive_from}

-- All bytes that arrive.
abbrev pub text_of : List Reception → List ℕ
text_of [] = []
text_of (chunk xs ∷ rs) = xs ++ text_of rs
text_of (again ∷ rs) = text_of rs
text_of (failed ∷ rs) = text_of rs

-- A `recv` that brings bytes or is to be tried again.
abbrev pub Flows : Reception → Type 0
Flows (chunk []) = ⊥
Flows (chunk (x ∷ xs)) = Unit {0}
Flows again = Unit {0}
Flows failed = ⊥

-- A tape from which `n` bytes were taken, after `got`.
abbrev pub Taken : ℕ → List ℕ → List Reception → Line → Type 0
Taken n got rs l =
    (rest : List Reception) × All Flows rest
    × (text_of rest ≡ drop n (text_of rs))
    × (receive_from n got rs l
        ≡ returns (some (got ++ take n (text_of rs))) (record l { incoming = rest }))

take-append_ge :
    (n : ℕ) (xs ys : List ℕ) → length xs ≤ n → take n (xs ++ ys) ≡ xs ++ take (n - length xs) ys
take-append_ge n [] ys h = ap (λ k. take k ys) (omega arith)
take-append_ge zero (x ∷ xs) ys h = absurd (omega arith)
take-append_ge (suc n) (x ∷ xs) ys h =
    let e : n - length xs ≡ suc n - suc (length xs) = omega arith in
    ap (◌∷◌ x) (take-append_ge n xs ys (omega arith) ∙ ap (λ k. xs ++ take k ys) e)

drop-append_ge :
    (n : ℕ) (xs ys : List ℕ) → length xs ≤ n → drop n (xs ++ ys) ≡ drop (n - length xs) ys
drop-append_ge n [] ys h = ap (λ k. drop k ys) (omega arith)
drop-append_ge zero (x ∷ xs) ys h = absurd (omega arith)
drop-append_ge (suc n) (x ∷ xs) ys h =
    let e : n - length xs ≡ suc n - suc (length xs) = omega arith in
    drop-append_ge n xs ys (omega arith) ∙ ap (λ k. drop k ys) e

full : (got : List ℕ) (rs : List Reception) (l : Line) → All Flows rs → Taken 0 got rs l
unfolding receive_from
full got [] l h = ([], tt, refl, rw (append-nil got))
full got (chunk [] ∷ rs) l h = absurd h.0
full got (chunk (x ∷ xs) ∷ rs) l h = (chunk (x ∷ xs) ∷ rs, h, refl, rw (append-nil got))
full got (again ∷ rs) l h = (again ∷ rs, h, refl, rw (append-nil got))
full got (failed ∷ rs) l h = absurd h.0

pub Flows-chunk : (xs : List ℕ) → 0 < length xs → Flows (chunk xs)
Flows-chunk [] h = absurd (omega arith)
Flows-chunk (x ∷ xs) h = tt

-- A piece with more than is wanted.
split :
    (n x : ℕ) (xs got : List ℕ) (rs : List Reception) (l : Line)
    → All Flows rs
    → suc n < suc (length xs)
    → Taken (suc n) got (chunk (x ∷ xs) ∷ rs) l
unfolding receive_from
split n x xs got rs l h lt =
    let some_left : (suc n == 0) ≡ false = ground arith in
    let more : ltb (suc n) (suc (length xs)) ≡ true = ground arith in
    let le : n ≤ length xs = omega arith in
    (
      chunk (drop n xs) ∷ rs,
      (Flows-chunk (drop n xs) (omega (arith, length-drop n xs)), h),
      sym (drop-append_le n xs (text_of rs) le),
      rw (some_left, more, take-append_le n xs (text_of rs) le),
    )

-- However the bytes come in pieces, and whatever calls are interrupted, `receiveBytes` returns, with as
-- many bytes as asked for, when that many arrive and neither an error nor the end of the stream is among
-- what arrives; the rest stays for the next call.
pub receive_from_lem :
    (n : ℕ) (got : List ℕ) (rs : List Reception) (l : Line)
    → All Flows rs
    → n ≤ length (text_of rs)
    → Taken n got rs l
unfolding receive_from
receive_from_lem zero got rs l h e = full got rs l h
receive_from_lem (suc n) got [] l h e = absurd (omega arith)
receive_from_lem (suc n) got (chunk [] ∷ rs) l h e = absurd h.0
receive_from_lem (suc n) got (failed ∷ rs) l h e = absurd h.0
receive_from_lem (suc n) got (again ∷ rs) l h e =
    let some_left : (suc n == 0) ≡ false = ground arith in
    let (rest, fl, t, q) = receive_from_lem (suc n) got rs l h.1 e in (rest, fl, t, rw some_left q)
receive_from_lem (suc n) got (chunk (x ∷ xs) ∷ rs) l h e =
    elim (Bool-cases (ltb (suc n) (suc (length xs)))) [
      | inl m ↦ split n x xs got rs l h.1 (ground arith)
      | inr m ↦
          let (rest, fl, t, q) =
            receive_from_lem (n - length xs) (got ++ (x ∷ xs)) rs l h.1
              (omega (arith, e, length-append xs (text_of rs))) in
          let some_left : (suc n == 0) ≡ false = ground arith in
          let index : suc n - suc (length xs) ≡ n - length xs = omega arith in
          let ge : length xs ≤ n = ground arith in
          (
            rest,
            fl,
            t ∙ sym (drop-append_ge n xs (text_of rs) ge),
            rw (some_left, m, index, take-append_ge n xs (text_of rs) ge)
                (rw (append_assoc got (x ∷ xs) (take (n - length xs) (text_of rs))) at q),
          )
    ]

-- An error before enough bytes came ends the program.
pub receive_from_exits :
    (n : ℕ) (got : List ℕ) (rs rest : List Reception) (l : Line)
    → All Flows rs
    → length (text_of rs) < n
    → receive_from n got (rs ++ (failed ∷ rest)) l ≡ exits
unfolding receive_from
receive_from_exits zero got rs rest l h e = absurd (omega arith)
receive_from_exits (suc n) got [] rest l h e =
    let some_left : (suc n == 0) ≡ false = ground arith in rw some_left
receive_from_exits (suc n) got (chunk [] ∷ rs) rest l h e = absurd h.0
receive_from_exits (suc n) got (failed ∷ rs) rest l h e = absurd h.0
receive_from_exits (suc n) got (again ∷ rs) rest l h e =
    let some_left : (suc n == 0) ≡ false = ground arith in
    rw some_left (receive_from_exits (suc n) got rs rest l h.1 e)
receive_from_exits (suc n) got (chunk (x ∷ xs) ∷ rs) rest l h e =
    let size = length-append xs (text_of rs) in
    let some_left : (suc n == 0) ≡ false = ground arith in
    let short : ltb (suc n) (suc (length xs)) ≡ false = ground (arith, size) in
    rw (some_left, short)
      (receive_from_exits (suc n - suc (length xs)) (got ++ (x ∷ xs)) rs rest l h.1
        (omega (arith, e, size)))
