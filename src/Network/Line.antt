-- ===== src/Network/Line.antt =====
-- A connection during the handshake of NetworkHandler.cpp: what `recv` gives and what was sent.
use leaky_chat.Prelude.{
  ℕ, zero, suc, ◌+◌, ◌-◌, ◌==◌, ltb, List, [], ◌∷◌, ◌++◌, length, take, drop, Option, none, some,
  Bool, true, false, if◌then◌else◌, Outcome, Exception,
}
use leaky_chat.Prelude

-- What a `recv` finds: bytes, none of them for the end of the stream; an interrupted call, which may
-- be made again; or an error. What does not fit the reader's buffer stays for the next call.
pub data Reception : Type 0 where
  chunk : List ℕ → Reception
  again failed : Reception

-- What arrives, in order, and what each `send` has put on the wire.
pub record Line : Type 0 where
  pub incoming : List Reception
  pub sent : List (List ℕ)

-- `exits` is `exit(1)`, and `blocks` a `recv` on which nothing arrives.
pub data Run (A : Type 0) : Type 0 where
  returns : A → Line → Run A
  throws : Exception → Line → Run A
  undefined exits blocks : Run A

abbrev pub M : Type 0 → Type 0
M A = Line → Run A

abbrev pub pure : {A : Type 0} → A → M A
pure a l = returns a l

abbrev pub exit : {A : Type 0} → M A
exit l = exits

infixl 5 ◌>>=◌
abbrev pub ◌>>=◌ : {A B : Type 0} → M A → (A → M B) → M B
◌>>=◌ m f l = elim (m l) [
  | returns a l' ↦ f a l'
  | throws e l' ↦ throws e l'
  | undefined ↦ undefined
  | exits ↦ exits
  | blocks ↦ blocks
]

-- A `try` whose `catch` returns -1.
abbrev pub catching : M Bool → M Bool
catching m l = elim (m l) [
  | returns a l' ↦ returns a l'
  | throws e l' ↦ returns false l'
  | undefined ↦ undefined
  | exits ↦ exits
  | blocks ↦ blocks
]

abbrev pub lift : {A : Type 0} → Outcome A → M A
lift (Prelude.ok a) l = returns a l
lift (Prelude.throws e) l = throws e l
lift Prelude.undefined l = undefined

-- What the reader of `n` bytes leaves of some bytes.
abbrev pub leftover : ℕ → List ℕ → List Reception → List Reception
leftover n xs rest = if ltb n (length xs) then chunk (drop n xs) ∷ rest else rest

-- One `recv` of at most `n` bytes.
abbrev recv_from : ℕ → List Reception → M Reception
recv_from n [] l = blocks
recv_from n (chunk xs ∷ rest) l =
    returns (chunk (take n xs)) (record l { incoming = leftover n xs rest })
recv_from n (again ∷ rest) l = returns again (record l { incoming = rest })
recv_from n (failed ∷ rest) l = returns failed (record l { incoming = rest })

unfoldable pub recv : ℕ → M Reception
recv n l = recv_from n l.incoming l

-- A `send`: how many bytes it takes, by the number of the call and the size, or `none` for an error.
unfoldable pub send : (ℕ → ℕ → Option ℕ) → List ℕ → M (Option ℕ)
send taken xs l = elim (taken (length l.sent) (length xs)) [
  | none ↦ returns none l
  | some n ↦ returns (some n) (record l { sent = l.sent ++ (take n xs ∷ []) })
]

-- The loop of `receiveBytes`, `left` bytes to go: it tries again where it may, and an error ends the
-- program.
unfoldable pub receive_from : ℕ → List ℕ → List Reception → M (Option (List ℕ))
receive_from left got [] l =
    if left == 0 then returns (some got) (record l { incoming = [] }) else blocks
receive_from left got (chunk [] ∷ rest) l =
    if left == 0
    then returns (some got) (record l { incoming = chunk [] ∷ rest })
    else returns none (record l { incoming = rest })
receive_from left got (chunk (x ∷ xs) ∷ rest) l =
    let whole = receive_from (left - suc (length xs)) (got ++ (x ∷ xs)) rest l in
    if left == 0
    then returns (some got) (record l { incoming = chunk (x ∷ xs) ∷ rest })
    else if ltb left (suc (length xs))
    then returns (some (got ++ take left (x ∷ xs)))
        (record l { incoming = chunk (drop left (x ∷ xs)) ∷ rest })
    else whole
receive_from left got (again ∷ rest) l =
    let next = receive_from left got rest l in
    if left == 0 then returns (some got) (record l { incoming = again ∷ rest }) else next
receive_from left got (failed ∷ rest) l =
    if left == 0 then returns (some got) (record l { incoming = failed ∷ rest }) else exits

abbrev pub receive_bytes : ℕ → M (Option (List ℕ))
receive_bytes size l = receive_from size [] l.incoming l
