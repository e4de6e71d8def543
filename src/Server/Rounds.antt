-- ===== src/Server/Rounds.antt =====
-- `Server::run` of chat/server.cpp round by round: the count of its active connections.
use leaky_chat.Prelude.{
  ℕ, ◌+◌, ◌-◌, ◌%◌, ◌^◌, ◌≤◌, ◌<◌, ◌≡◌, inl, inr, refl, ap, ◌∙◌, arith, ltb, List, ◌++◌, length,
  get_elem?, replicate, Option, none, some, Bool, true, ok, >>=-eq-ok, Bool-cases, length-append,
  length-replicate,
}
use leaky_chat.Buffer.Codec.{Limits}
use leaky_chat.Crypto.{Ssl}
use leaky_chat.Server.{Connection, Server, Sent, Received, serve, active, wait_for_read}
use leaky_chat.Server.Reachable.{IsReachable, initial, begins, receives}
use leaky_chat.Server.Accepting.{Caller, ready, Grows, process_connections, process_connections_lem}
use leaky_chat.Network.Certificates.{Pki}
use leaky_chat.Network.Line.{Line, returns}
use leaky_chat.Server.Loop.{Loop, has_active, beside, admit, serve_found, run_round}
use leaky_chat.Server.Counting.{
  connected_count, active-beside, connected_count-length, connected_count-append,
  connected_count-positive, serve_connections, IsCounted, after_serve,
}

-- What a round does to the connections and their count.
abbrev Keeps : Loop → Loop → Type 0
Keeps m l =
    (length l.server.connections ≡ length m.server.connections)
    × (IsCounted m.num_active m.server.connections → IsCounted l.num_active l.server.connections)

abbrev loop_with : Loop → Server → Loop
loop_with m s = record m { server = s }

serve_found-Keeps :
    (unset : ℕ) (received : ℕ → Received) (found : Option ℕ) (m l : Loop) (out : Sent)
    → m.num_active ≡ connected_count m.server.connections
    → serve_found unset received found m ≡ ok (l, out)
    → Keeps m l
serve_found-Keeps unset received none m l out c h =
    let same : m ≡ l = ground arith in rw (← same) (refl, λ v. v)
serve_found-Keeps unset received (some sid) m l out c h =
    let (r, e, k) = >>=-eq-ok (serve unset sid (received sid) m.server) _ h in
    let (len, v) =
      after_serve m.server.connections r.0.connections sid
        (serve_connections unset sid (received sid) m.server r.0 r.1 e) in
    let same : loop_with m r.0 ≡ l = ground arith in rw (← same) (len, λ w. rw c v)

run_round-Keeps :
    (unset : ℕ) (polled : List Bool) (received : ℕ → Received) (m l : Loop) (out : Sent)
    → run_round unset polled received m ≡ ok (l, out)
    → Keeps m l
unfolding run_round
run_round-Keeps unset polled received m l out h = elim (Bool-cases (has_active m)) [
  | inr idle ↦ let same : m ≡ l = ground arith in rw (← same) (refl, λ v. v)
  | inl busy ↦
      let act : ℕ = length (active (beside m.server.connections polled)) in
      let count : act ≡ connected_count m.server.connections =
        active-beside m.server.connections polled in
      let (r, e, k) =
        >>=-eq-ok (wait_for_read (beside m.server.connections polled) m.place)
          (λ r. serve_found unset received r.0 (record m { num_active = act; place = r.1 }))
          (ground arith) in
      let (len, v) =
        serve_found-Keeps unset received r.0 (record m { num_active = act; place = r.1 }) l out
          count k in
      (
        len,
        λ w. v (record {
          above = omega (arith, count);
          below = omega (arith, count, connected_count-length m.server.connections);
        }),
      )
]

admit-IsCounted :
    (m : ℕ) (s : Server) (l : Loop)
    → Grows m l.server s
    → length s.connections < 2 ^ 64
    → IsCounted l.num_active l.server.connections
    → IsCounted (admit s l).num_active s.connections
admit-IsCounted m s l (n, le, g) h v =
    let cs : List Connection = l.server.connections in
    let conns : s.connections ≡ cs ++ replicate n ready = ap (λ x. x.connections) g in
    let len : length s.connections ≡ length cs + n =
      ap length conns
      ∙ omega (arith, length-append cs (replicate n ready), length-replicate n ready) in
    let added : (l.num_active + (length s.connections - length cs)) % 2 ^ 64 ≡ l.num_active + n =
      omega (arith, len, v.below) in
    let count : connected_count s.connections ≡ connected_count cs + n =
      ap connected_count conns ∙ connected_count-append cs n in
    record {
      above = omega (arith, added, count, v.above);
      below = omega (arith, added, len, v.below);
    }

positive : (n : ℕ) → 0 < n → ltb 0 n ≡ true
positive n h = ground arith

Grows-length : (m : ℕ) (s s' : Server) → Grows m s s' → length s.connections ≤ length s'.connections
Grows-length m s s' (n, le, g) =
    omega (arith, ap (λ x. length x.connections) g, length-append s.connections (replicate n ready))

serve_found-IsReachable :
    (unset : ℕ) (received : ℕ → Received) (found : Option ℕ) (m l : Loop) (out : Sent)
    → IsReachable m.server
    → serve_found unset received found m ≡ ok (l, out)
    → IsReachable l.server
serve_found-IsReachable unset received none m l out v h =
    let same : m ≡ l = ground arith in rw (← same) v
serve_found-IsReachable unset received (some sid) m l out v h =
    let (r, e, k) = >>=-eq-ok (serve unset sid (received sid) m.server) _ h in
    let same : loop_with m r.0 ≡ l = ground arith in
    rw (← same) (receives unset sid (received sid) m.server r.0 r.1 v e)

run_round-IsReachable :
    (unset : ℕ) (polled : List Bool) (received : ℕ → Received) (m l : Loop) (out : Sent)
    → IsReachable m.server
    → run_round unset polled received m ≡ ok (l, out)
    → IsReachable l.server
unfolding run_round
run_round-IsReachable unset polled received m l out v h = elim (Bool-cases (has_active m)) [
  | inr idle ↦ let same : m ≡ l = ground arith in rw (← same) v
  | inl busy ↦
      let act : ℕ = length (active (beside m.server.connections polled)) in
      let (r, e, k) =
        >>=-eq-ok (wait_for_read (beside m.server.connections polled) m.place)
          (λ r. serve_found unset received r.0 (record m { num_active = act; place = r.1 }))
          (ground arith) in
      serve_found-IsReachable unset received r.0 (record m { num_active = act; place = r.1 }) l out
        v k
]

module _ (ssl : Ssl) (pki : Pki) (lim : Limits) (taken : ℕ → ℕ → Option ℕ)
    (files : List ℕ → Option (List ℕ)) where
  -- The loop at the start of a round, after rounds with whatever callers and packets.
  pub data IsRunning : Loop → Type 0 where
    starts : IsRunning (record { server = initial; num_active = 0; place = 0 })
    rounds :
        (cs : List Caller) (l m : Loop) (s : Server) (k k' : Line)
        → (unset : ℕ) (polled : List Bool) (received : ℕ → Received) (out : Sent) → IsRunning l
        → process_connections ssl pki lim taken files cs l.server k ≡ returns s k'
        → run_round unset polled received (admit s l) ≡ ok (m, out)
        → IsRunning m

  -- The servers of the loop are those that the server can come to.
  IsRunning-IsReachable : (l : Loop) → IsRunning l → IsReachable l.server
  IsRunning-IsReachable _ starts = begins
  IsRunning-IsReachable _ (rounds cs l m s k k' unset polled received out v e h) =
      let (reached, _) =
        process_connections_lem ssl pki lim taken files cs l.server s k k'
          (IsRunning-IsReachable l v) e in
      run_round-IsReachable unset polled received (admit s l) m out reached h

  admitted :
      (cs : List Caller) (l : Loop) (s : Server) (k k' : Line)
      → IsRunning l
      → process_connections ssl pki lim taken files cs l.server k ≡ returns s k'
      → Grows (length cs) l.server s
  admitted cs l s k k' v e =
      (process_connections_lem ssl pki lim taken files cs l.server s k k'
        (IsRunning-IsReachable l v) e).1

  IsRunning-IsCounted :
      (l : Loop)
      → IsRunning l
      → length l.server.connections < 2 ^ 64
      → IsCounted l.num_active l.server.connections
  unfolding connected_count
  IsRunning-IsCounted _ starts h = record { above = omega arith; below = omega arith }
  IsRunning-IsCounted _ (rounds cs l m s k k' unset polled received out v e r) h =
      let g = admitted cs l s k k' v e in
      let (len, keeps) = run_round-Keeps unset polled received (admit s l) m out r in
      let shorter : length l.server.connections ≤ length s.connections =
        Grows-length (length cs) l.server s g in
      keeps (
        admit-IsCounted (length cs) s l g (omega (arith, h, len))
          (IsRunning-IsCounted l v (omega (arith, h, len, shorter))))

  -- The server does not pass its clients over: whatever came before, when connections were accepted and one
  -- of all is connected, `hasActive` holds, so that the round polls and does not sleep. It wants fewer
  -- than 2 ^ 64 connections, all that were ever accepted counted.
  pub has_active_lem :
      (cs : List Caller) (l : Loop) (s : Server) (k k' : Line) (sid : ℕ) (c : Connection)
      → IsRunning l
      → process_connections ssl pki lim taken files cs l.server k ≡ returns s k'
      → length s.connections < 2 ^ 64
      → get_elem? s.connections sid ≡ some c
      → c.connected ≡ true
      → has_active (admit s l) ≡ true
  has_active_lem cs l s k k' sid c v e h found up =
      let g = admitted cs l s k k' v e in
      let shorter : length l.server.connections ≤ length s.connections =
        Grows-length (length cs) l.server s g in
      let counted =
        admit-IsCounted (length cs) s l g h (IsRunning-IsCounted l v (omega (arith, h, shorter))) in
      let some_up : 0 < connected_count s.connections =
        connected_count-positive s.connections sid c found up in
      positive (admit s l).num_active (omega (arith, some_up, counted.above))
