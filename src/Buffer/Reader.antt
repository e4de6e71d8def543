-- ===== src/Buffer/Reader.antt =====
-- Extraction from a buffer as a monad: the value, and the buffer that is left.
use leaky_chat.Prelude.{Outcome, ok, throws, undefined, bad_alloc, Bool, if◌then◌else◌}
use leaky_chat.Buffer.{MemBuffer}

abbrev pub Reader : Type 0 → Type 0
Reader A = MemBuffer → Outcome (A × MemBuffer)

infixl 5 ◌>>=◌ ◌>>◌
abbrev pub ◌>>=◌ : {A B : Type 0} → Reader A → (A → Reader B) → Reader B
◌>>=◌ m f b = elim (m b) [ ok (a, b') ↦ f a b' | throws e ↦ throws e | undefined ↦ undefined ]

abbrev pub ◌>>◌ : {B : Type 0} → Reader (Unit {0}) → Reader B → Reader B
m >> k = m >>= λ _. k

abbrev pub pure : {A : Type 0} → A → Reader A
pure a b = ok (a, b)

-- A `resize` that the allocator may refuse.
abbrev pub allocate : Bool → Reader (Unit {0})
allocate fits b = if fits then ok (tt, b) else throws bad_alloc
