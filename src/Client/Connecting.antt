-- ===== src/Client/Connecting.antt =====
-- setupConnection of src/chat/client.cpp, and the loop at the start of clientLoop, which calls it until it
-- succeeds.
use leaky_chat.Prelude.{
  ℕ, ◌↔◌, ◌≡◌, refl, ap, subst, arith, List, [], ◌∷◌, ◌++◌, All, Option, none, some, Bool, true,
  false,
}
use leaky_chat.Buffer.Codec.{Limits}
use leaky_chat.Crypto.{Ssl}
use leaky_chat.Network.{NetworkHandler, new_handler}
use leaky_chat.Network.Certificates.{Pki}
use leaky_chat.Network.Line.{Line, Run, M, returns, throws, undefined, exits, blocks}
use leaky_chat.Network.Handshake.{connect}
use leaky_chat.Network.Trust.{IsAuthentic, IsSecured, connect_sound}

-- What an attempt meets: what `socket` and `connect` answer, the random bytes of the challenge and of the
-- crypto session, and the line of the new connection.
pub record Attempt : Type 0 where
  pub socket : Option ℕ
  pub accepted : Bool
  pub rand : Option (List ℕ)
  pub fresh : Option (List ℕ)
  pub line : Line

module _ (ssl : Ssl) (pki : Pki) (lim : Limits) (taken : ℕ → ℕ → Option ℕ) (host : List ℕ) where
  -- A new NetworkHandler takes the place of the old one.
  unfoldable pub setup_connection : Attempt → Run (Bool × NetworkHandler)
  setup_connection a =
      connect ssl pki lim taken a.socket a.accepted host a.rand a.fresh new_handler a.line

  -- With `none` while it has not succeeded. What an attempt throws, ends the loop.
  unfoldable pub connect_until : List Attempt → M (Option NetworkHandler)
  connect_until [] l = returns none l
  connect_until (a ∷ more) l = elim (setup_connection a) [
    | returns (true, h) l' ↦ returns (some h) l'
    | returns (false, h) l' ↦ connect_until more l'
    | throws e l' ↦ throws e l'
    | undefined ↦ undefined
    | exits ↦ exits
    | blocks ↦ blocks
  ]

  -- An attempt that fails in the way that the loop goes on after.
  abbrev pub Fails : Attempt → Type 0
  Fails a = (h : NetworkHandler) × (l : Line) × (setup_connection a ≡ returns (false, h) l)

  -- The attempts up to the one that succeeded.
  pub record Connects (more : List Attempt) (h : NetworkHandler) (l : Line) : Type 0 where
    pub before : List Attempt
    pub last : Attempt
    pub after : List Attempt
    pub attempts : more ≡ before ++ (last ∷ after)
    pub failed : All Fails before
    pub succeeded : setup_connection last ≡ returns (true, h) l
    pub authentic : IsAuthentic ssl pki lim taken host last.rand
    pub secured : IsSecured ssl pki lim taken h

  by_outcome :
      (a : Attempt) (more : List Attempt) (r : Run (Bool × NetworkHandler)) (h : NetworkHandler)
      (l l' : Line)
      → setup_connection a ≡ r
      → ((k : Line) → connect_until more k ≡ returns (some h) l' → Connects more h l')
      → (elim r as (λ x. Run (Option NetworkHandler)) [
        | returns (true, h') k ↦ returns (some h') k
        | returns (false, h') k ↦ connect_until more k
        | throws e k ↦ throws e k
        | undefined ↦ undefined
        | exits ↦ exits
        | blocks ↦ blocks
      ])
        ≡ returns (some h) l'
      → Connects (a ∷ more) h l'
  unfolding setup_connection
  by_outcome a more (returns (true, h') k) h l l' e rest q =
      let here : Connects (a ∷ more) h' k =
        let (authentic, secured) =
          connect_sound ssl pki lim taken a.socket a.accepted host a.rand a.fresh new_handler h'
            a.line k e in
        record {
          before = [];
          last = a;
          after = more;
          attempts = refl;
          failed = tt;
          succeeded = e;
          authentic = authentic;
          secured = secured;
        } in
      let same : h' ≡ h = ground arith in
      let same' : k ≡ l' = ground arith in
      subst (λ x. Connects (a ∷ more) x l') same (subst (λ x. Connects (a ∷ more) h' x) same' here)
  by_outcome a more (returns (false, h') k) h l l' e rest q =
      let c = rest k q in
      record {
        before = a ∷ c.before;
        last = c.last;
        after = c.after;
        attempts = ap (◌∷◌ a) c.attempts;
        failed = ((h', k, e), c.failed);
        succeeded = c.succeeded;
        authentic = c.authentic;
        secured = c.secured;
      }
  by_outcome a more (throws x k) h l l' e rest q = absurd (ground arith)
  by_outcome a more undefined h l l' e rest q = absurd (ground arith)
  by_outcome a more exits h l l' e rest q = absurd (ground arith)
  by_outcome a more blocks h l l' e rest q = absurd (ground arith)

  connect_until_sound :
      (attempts : List Attempt) (h : NetworkHandler) (l l' : Line)
      → connect_until attempts l ≡ returns (some h) l'
      → Connects attempts h l'
  unfolding connect_until
  connect_until_sound [] h l l' e = absurd (ground arith)
  connect_until_sound (a ∷ more) h l l' e =
      by_outcome a more (setup_connection a) h l l' refl (λ k q. connect_until_sound more h k l' q)
        e

  -- Attempts that fail do not keep it from one that succeeds.
  connect_until_reaches :
      (before after : List Attempt) (a : Attempt) (h : NetworkHandler) (l l' : Line)
      → All Fails before
      → setup_connection a ≡ returns (true, h) l'
      → connect_until (before ++ (a ∷ after)) l ≡ returns (some h) l'
  unfolding connect_until
  connect_until_reaches [] after a h l l' failed e = rw (connect_until, e)
  connect_until_reaches (b ∷ before) after a h l l' ((h', k, e'), failed) e =
      rw (connect_until, e') (connect_until_reaches before after a h k l' failed e)

  -- The loop ends with a connection exactly if one of its attempts succeeds, after attempts that failed. Then
  -- the certificate authority vouches for a certificate at the host, its key signed the challenge of that
  -- attempt, and the connection is established with a key.
  pub connect_until_iff :
      (attempts : List Attempt) (h : NetworkHandler) (l l' : Line)
      → (connect_until attempts l ≡ returns (some h) l') ↔ Connects attempts h l'
  connect_until_iff attempts h l l' = (
    connect_until_sound attempts h l l',
    λ c. rw c.attempts (connect_until_reaches c.before c.after c.last h l l' c.failed c.succeeded),
  )
