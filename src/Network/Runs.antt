-- ===== src/Network/Runs.antt =====
-- What is known of a handshake that returns, from the way it is put together (Network/Line).
use leaky_chat.Prelude.{ℕ, ◌≡◌, refl, arith, Bool, true, false, if◌then◌else◌, Outcome, ok}
use leaky_chat.Prelude
use leaky_chat.Network.{NetworkHandler}
use leaky_chat.Network.Line.{
  M, Line, Run, returns, throws, undefined, exits, blocks, ◌>>=◌, catching, lift, pure,
}

pub run_returns :
    {A B : Type 0} (r : Run A) (f : A → M B) (l'' : Line) (b : B)
    → (elim r as (λ x. Run B) [
      | returns a l' ↦ f a l'
      | throws e l' ↦ throws e l'
      | undefined ↦ undefined
      | exits ↦ exits
      | blocks ↦ blocks
    ])
      ≡ returns b l''
    → (a : A) × (l' : Line) × (r ≡ returns a l') × (f a l' ≡ returns b l'')
run_returns (returns a l') f l'' b h = (a, l', refl, h)
run_returns (throws e l') f l'' b h = absurd (ground arith)
run_returns undefined f l'' b h = absurd (ground arith)
run_returns exits f l'' b h = absurd (ground arith)
run_returns blocks f l'' b h = absurd (ground arith)

-- A sequence that returns is made of parts that return.
pub bind_returns :
    {A B : Type 0} (m : M A) (f : A → M B) (l l'' : Line) (b : B)
    → (m >>= f) l ≡ returns b l''
    → (a : A) × (l' : Line) × (m l ≡ returns a l') × (f a l' ≡ returns b l'')
bind_returns m f l l'' b h = run_returns (m l) f l'' b h

run_caught :
    (r : Run Bool) (l' : Line)
    → (elim r as (λ x. Run Bool) [
      | returns a k ↦ returns a k
      | throws e k ↦ returns false k
      | undefined ↦ undefined
      | exits ↦ exits
      | blocks ↦ blocks
    ])
      ≡ returns true l'
    → r ≡ returns true l'
run_caught (returns a k) l' h = h
run_caught (throws x k) l' h = absurd (ground arith)
run_caught undefined l' h = h
run_caught exits l' h = h
run_caught blocks l' h = h

pub catching_lem :
    (m : M Bool) (l l' : Line) → catching m l ≡ returns true l' → m l ≡ returns true l'
catching_lem m l l' h = run_caught (m l) l' h

pub lift_returns :
    {A : Type 0} (o : Outcome A) (l l' : Line) (a : A) → lift o l ≡ returns a l' → o ≡ ok a
lift_returns (ok b) l l' a h = ground arith
lift_returns (Prelude.throws e) l l' a h = absurd (ground arith)
lift_returns Prelude.undefined l l' a h = absurd (ground arith)

pub under_test :
    (b : Bool) (m : M Bool) (l l' : Line)
    → (if b then m else pure false) l ≡ returns true l'
    → (b ≡ true) × (m l ≡ returns true l')
under_test true m l l' h = (refl, h)
under_test false m l l' h = absurd (ground arith)

pub unless_failed :
    (b : Bool) (m : M (Bool × NetworkHandler)) (k h' : NetworkHandler) (l l' : Line)
    → (if b then m else pure (false, k)) l ≡ returns (true, h') l'
    → (b ≡ true) × (m l ≡ returns (true, h') l')
unless_failed true m k h' l l' e = (refl, e)
unless_failed false m k h' l l' e = absurd (ground arith)
