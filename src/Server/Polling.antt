-- ===== src/Server/Polling.antt =====
-- Which socket `waitForRead` serves.
use leaky_chat.Prelude.{
  ℕ, zero, suc, ◌+◌, ◌%◌, ◌<◌, ◌≤◌, ◌≡◌, ◌⊎◌, inl, inr, refl, ap, arith, Bool, true, false, Option,
  none, some, List, [], ◌∷◌, length, get_elem?, get_elem?_of_lt, lt_of_get_elem?, ok, undefined,
  All, ◌==◌,
}
use leaky_chat.Server.{Connection, active, scan, wait_for_read}

abbrev pub AllConnected : List (Connection × Bool) → Type 0
AllConnected = All (λ p. p.0.connected ≡ true)

length-active : (cs : List (Connection × Bool)) → AllConnected cs → length (active cs) ≡ length cs
unfolding active
length-active [] h = refl
length-active ((c, r) ∷ cs) h = rw h.0 (ap suc (length-active cs h.1))

-- While all are connected, place `i` of what `poll` looks at belongs to socket `i`.
get_elem?-active :
    (cs : List (Connection × Bool)) (i : ℕ)
    → AllConnected cs
    → get_elem? (active cs) i ≡ some true
    → (c : Connection) × (get_elem? cs i ≡ some (c, true))
unfolding active
get_elem?-active [] i h e = absurd (cc)
get_elem?-active ((c, r) ∷ cs) zero h e = (c, ground (arith, h.0))
get_elem?-active ((c, r) ∷ cs) (suc i) h e = get_elem?-active cs i h.1 (ground (arith, h.0))

-- What `scan` may return over `n` places.
record Scanned (act : List Bool) (n : ℕ) (r : Option ℕ × ℕ) : Type 0 where
  place : r.1 < n
  found : (r.0 ≡ none) ⊎ ((r.0 ≡ some r.1) × (get_elem? act r.1 ≡ some true))

-- A round of the loop, by what `poll` says of its place.
scan_round :
    (act : List Bool) (n left idx : ℕ)
    → idx < n
    → (b : Bool) × (get_elem? act idx ≡ some b)
    → (r : Option ℕ × ℕ) × (scan act n left ((idx + 1) % n) ≡ ok r) × Scanned act n r
    → (r : Option ℕ × ℕ) × (scan act n (suc left) idx ≡ ok r) × Scanned act n r
unfolding scan
scan_round act n left idx h (true, q) rest =
    ((some idx, idx), rw (scan, q), record { place = h; found = inr (refl, q) })
scan_round act n left idx h (false, q) (r, e, s) = (r, rw (scan, q, e), s)

scan-Scanned :
    (act : List Bool) (n left idx : ℕ)
    → length act ≡ n
    → idx < n
    → (r : Option ℕ × ℕ) × (scan act n left idx ≡ ok r) × Scanned act n r
unfolding scan
scan-Scanned act n zero idx e h = ((none, idx), refl, record { place = h; found = inl refl })
scan-Scanned act n (suc left) idx e h =
    scan_round act n left idx h (get_elem?_of_lt act idx (omega (arith, e)))
      (scan-Scanned act n left ((idx + 1) % n) e (omega arith))

-- What `waitForRead` may answer: nothing, or a socket that is there and has data waiting, which is
-- where it starts the next time.
pub record Served (cs : List (Connection × Bool)) (r : Option ℕ × ℕ) : Type 0 where
  pub place : r.1 < length cs
  pub ready :
      (r.0 ≡ none) ⊎ ((r.0 ≡ some r.1) × ((c : Connection) × (get_elem? cs r.1 ≡ some (c, true))))

Scanned-Served :
    (cs : List (Connection × Bool)) (r : Option ℕ × ℕ)
    → AllConnected cs
    → Scanned (active cs) (length cs) r
    → Served cs r
Scanned-Served cs r h s = record {
  place = s.place;
  ready = elim s.found [ inl e ↦ inl e | inr (e, q) ↦ inr (e, get_elem?-active cs r.1 h q) ];
}

-- While no socket has left and the place to start from is one of them, `waitForRead` returns, it
-- never reads out of bounds, and what it answers is none or a socket with data waiting.
pub wait_for_read_ok :
    (cs : List (Connection × Bool)) (idx : ℕ)
    → AllConnected cs
    → idx < length cs
    → (r : Option ℕ × ℕ) × (wait_for_read cs idx ≡ ok r) × Served cs r
unfolding wait_for_read
wait_for_read_ok cs idx h k =
    let n : (length (active cs) == 0) ≡ false = ground (arith, length-active cs h) in
    let (r, e, s) = scan-Scanned (active cs) (length cs) (length cs) idx (length-active cs h) k in
    (r, rw (n, e), Scanned-Served cs r h s)

get_elem?_of_le : (xs : List Bool) (i : ℕ) → length xs ≤ i → get_elem? xs i ≡ none
get_elem?_of_le [] i h = refl
get_elem?_of_le (x ∷ xs) zero h = absurd (omega arith)
get_elem?_of_le (x ∷ xs) (suc i) h = get_elem?_of_le xs i (omega arith)

scan_outside :
    (act : List Bool) (n left idx : ℕ)
    → 0 < left
    → length act ≤ idx
    → scan act n left idx ≡ undefined
unfolding scan
scan_outside act n zero idx k h = absurd (omega arith)
scan_outside act n (suc left) idx k h = rw (scan, get_elem?_of_le act idx h)

scan_hit :
    (act : List Bool) (n left idx : ℕ)
    → 0 < left
    → get_elem? act idx ≡ some true
    → scan act n left idx ≡ ok (some idx, idx)
unfolding scan
scan_hit act n zero idx k h = absurd (omega arith)
scan_hit act n (suc left) idx k h = rw (scan, h)

active-get_elem? :
    (cs : List (Connection × Bool)) (i : ℕ) (c : Connection)
    → AllConnected cs
    → get_elem? cs i ≡ some (c, true)
    → get_elem? (active cs) i ≡ some true
unfolding active
active-get_elem? [] i c h e = absurd (cc)
active-get_elem? ((d, r) ∷ cs) zero c h e = ground (arith, h.0)
active-get_elem? ((d, r) ∷ cs) (suc i) c h e = rw h.0 (active-get_elem? cs i c h.1 e)

-- Once socket 0 has left, data on socket 1 is taken for data on socket 0, by a search that starts
-- at place 0.
wait_after_leave :
    (c d : Connection) (r : Bool) (rest : List (Connection × Bool))
    → c.connected ≡ false
    → d.connected ≡ true
    → wait_for_read ((c, r) ∷ (d, true) ∷ rest) 0 ≡ ok (some 0, 0)
unfolding wait_for_read active scan
wait_after_leave c d r rest hc hd = ground (arith, hc, hd)

-- Once a socket has left, a place that was the last one may lie behind what `poll` looked at.
pub wait_out_of_bounds :
    (cs : List (Connection × Bool)) (idx : ℕ)
    → length (active cs) ≤ idx
    → 0 < length (active cs)
    → 0 < length cs
    → wait_for_read cs idx ≡ undefined
unfolding wait_for_read scan
wait_out_of_bounds cs idx h k j =
    let n : (length (active cs) == 0) ≡ false = ground arith in
    rw n (scan_outside (active cs) (length cs) (length cs) idx j h)

-- While no socket has left, a socket with data waiting where the last search ended is served again,
-- whatever waits elsewhere.
wait_again :
    (cs : List (Connection × Bool)) (idx : ℕ) (c : Connection)
    → AllConnected cs
    → get_elem? cs idx ≡ some (c, true)
    → wait_for_read cs idx ≡ ok (some idx, idx)
unfolding wait_for_read scan
wait_again cs idx c h e =
    let k : idx < length cs = lt_of_get_elem? cs idx (c, true) e in
    let n : (length (active cs) == 0) ≡ false = ground (arith, length-active cs h) in
    rw n (
      scan_hit (active cs) (length cs) (length cs) idx (omega arith)
        (active-get_elem? cs idx c h e))
