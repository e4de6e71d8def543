-- ===== src/Buffer/Stream.antt =====
-- What an insertion writes and what an extraction reads, as byte strings: two contracts that compose
-- along << and >>, and the contracts of the operators.
use leaky_chat.Prelude.{
  ℕ, ◌+◌, ◌^◌, ◌<◌, ◌≡◌, refl, sym, ap, ◌∙◌, arith, Bool, true, false, List, [], ◌++◌, length,
  length-append, take-append, drop-append, append-nil, append_assoc, ok, if◌then◌else◌,
}
use leaky_chat.Buffer.{MemBuffer, write_bytes, read}
use leaky_chat.Buffer.Fifo.{IsValid, contents}
use leaky_chat.Buffer.Write.{write_bytes_lem}
use leaky_chat.Buffer.Read.{read_lem, after_read}
use leaky_chat.Buffer.Reader.{Reader, ◌>>=◌, pure}

-- `f` appends `xs` to the queue, if that stays below 2 ^ 62 bytes.
abbrev pub Writes : (MemBuffer → MemBuffer) → List ℕ → Type 0
Writes f xs =
    (b : MemBuffer)
    → IsValid b
    → length (contents b) + length xs < 2 ^ 62
    → IsValid (f b) × (contents (f b) ≡ contents b ++ xs)

-- `g` takes `xs` off the queue and returns `a`, whatever follows.
abbrev pub Reads : {A : Type 0} → Reader A → List ℕ → A → Type 0
Reads g xs a =
    (b : MemBuffer) (rest : List ℕ)
    → IsValid b
    → contents b ≡ xs ++ rest
    → (b' : MemBuffer) × (g b ≡ ok (a, b')) × IsValid b' × (contents b' ≡ rest)

pub Writes-write_bytes : (xs : List ℕ) → Writes (write_bytes xs) xs
Writes-write_bytes xs b v h = write_bytes_lem xs v h

pub Writes-id : Writes (λ b. b) []
Writes-id b v h = (v, sym (append-nil (contents b)))

pub Writes-seq :
    (f g : MemBuffer → MemBuffer) (xs ys : List ℕ)
    → Writes f xs
    → Writes g ys
    → Writes (λ b. g (f b)) (xs ++ ys)
Writes-seq f g xs ys wf wg b v h =
    let (v', e) = wf b v (omega (arith, length-append xs ys)) in
    let (v'', e') =
      wg (f b) v'
        (omega (arith, ap length e, length-append (contents b) xs, length-append xs ys)) in
    (v'', e' ∙ ap (λ zs. zs ++ ys) e ∙ append_assoc (contents b) xs ys)

pub Reads-pure : {A : Type 0} (a : A) → Reads (pure a) [] a
Reads-pure a b rest v e = (b, refl, v, e)

pub Reads-bind :
    {A B : Type 0} (m : Reader A) (f : A → Reader B) (xs ys : List ℕ) (a : A) (c : B)
    → Reads m xs a
    → Reads (f a) ys c
    → Reads (m >>= f) (xs ++ ys) c
Reads-bind m f xs ys a c rm rf b rest v e =
    let (b', p, v', e') = rm b (ys ++ rest) v (e ∙ append_assoc xs ys rest) in
    let (b'', q, v'', e'') = rf b' rest v' e' in (b'', rw (p, ◌>>=◌) q, v'', e'')

-- The value computed from what was read.
pub Reads-map :
    {A B : Type 0} (m : Reader A) (f : A → B) (xs : List ℕ) (a : A)
    → Reads m xs a
    → Reads (m >>= λ x. pure (f x)) xs (f a)
Reads-map m f xs a rm b rest v e =
    let (b', p, v', e') = rm b rest v e in (b', rw (p, ◌>>=◌), v', e')

pub Reads-then :
    {A : Type 0} (t : Bool) (m n : Reader A) (xs : List ℕ) (a : A)
    → t ≡ true
    → Reads m xs a
    → Reads (if t then m else n) xs a
Reads-then true m n xs a h r = r
Reads-then false m n xs a h r = absurd (cc)

-- A read of as many bytes as the first part has.
pub Reads-read : (n : ℕ) (xs : List ℕ) → n ≡ length xs → Reads (read n) xs xs
Reads-read n xs h b rest v e =
    let (p, v', q) = read_lem n v in
    (
      after_read n b,
      p ∙ ap (λ ys. ok (ys, after_read n b)) (rw e (take-append n xs rest h)),
      v',
      q ∙ rw e (drop-append n xs rest h),
    )
