-- ===== src/Server/Counting.antt =====
-- How many connections of the server are connected, and what a step does to them.
use leaky_chat.Prelude.{
  ℕ, zero, suc, ◌+◌, ◌≤◌, ◌<◌, ◌≡◌, ◌⊎◌, inl, inr, refl, ap, arith, ◌==◌, List, [], ◌∷◌, ◌++◌,
  length, get_elem?, set, replicate, some, Bool, true, if◌then◌else◌, ok, Bool-cases, length-set,
}
use leaky_chat.Packet.{
  Packet, base, message, request, field_req, user_list, connection_setup, control, disconnect,
}
use leaky_chat.Server.{
  Connection, Server, Sent, closed, Received, packet, nothing, hung_up, serve, dispatch,
  handle_login, handle_quit, get_user_list, active,
}
use leaky_chat.Server.Routing.{get_user_list-same, handle_message-same}
use leaky_chat.Server.Accepting.{ready}
use leaky_chat.Server.Loop.{beside}

unfoldable pub connected_count : List Connection → ℕ
connected_count [] = 0
connected_count (c ∷ cs) = let rest = connected_count cs in if c.connected then suc rest else rest

pub active-beside :
    (cs : List Connection) (flags : List Bool)
    → length (active (beside cs flags)) ≡ connected_count cs
unfolding active beside connected_count
active-beside [] flags = refl
active-beside (c ∷ cs) [] = ground (arith, active-beside cs [])
active-beside (c ∷ cs) (f ∷ fs) = ground (arith, active-beside cs fs)

pub connected_count-length : (cs : List Connection) → connected_count cs ≤ length cs
unfolding connected_count
connected_count-length [] = omega arith
connected_count-length (c ∷ cs) = ground (arith, connected_count-length cs)

pub connected_count-append :
    (cs : List Connection) (n : ℕ)
    → connected_count (cs ++ replicate n ready) ≡ connected_count cs + n
unfolding connected_count
connected_count-append [] zero = refl
connected_count-append [] (suc n) = omega (arith, connected_count-append [] n)
connected_count-append (c ∷ cs) n = ground (arith, connected_count-append cs n)

connected_count-set :
    (cs : List Connection) (i : ℕ) → connected_count (set cs i closed) ≤ connected_count cs
unfolding connected_count
connected_count-set [] i = omega arith
connected_count-set (d ∷ cs) zero = ground arith
connected_count-set (d ∷ cs) (suc i) = ground (arith, connected_count-set cs i)

pub connected_count-positive :
    (cs : List Connection) (sid : ℕ) (c : Connection)
    → get_elem? cs sid ≡ some c
    → c.connected ≡ true
    → 0 < connected_count cs
unfolding connected_count
connected_count-positive [] sid c h e = absurd (ground arith)
connected_count-positive (d ∷ cs) zero c h e = ground arith
connected_count-positive (d ∷ cs) (suc sid) c h e =
    ground (arith, connected_count-positive cs sid c h e)

-- A step closes the connection that it serves, or none.
dispatch_connections :
    (unset sid : ℕ) (p : Packet) (s t : Server) (out : Sent)
    → dispatch unset sid p s ≡ ok (t, out)
    → (t.connections ≡ s.connections) ⊎ (t.connections ≡ set s.connections sid closed)
unfolding dispatch
dispatch_connections unset sid (field_req f) s t out h = inl (unfold handle_login in ground arith)
dispatch_connections unset sid (request r) s t out h = elim (Bool-cases (r.request == disconnect)) [
  | inl e ↦ inr (unfold handle_quit in ground arith)
  | inr e ↦ inl (
      let h' : get_user_list unset sid s ≡ ok (t, out) = ground arith in
      ap (λ x. x.connections) (get_user_list-same unset sid s t out h'))
]
dispatch_connections unset sid (message m) s t out h =
    inl (ap (λ x. x.connections) (handle_message-same sid m s t out h))
dispatch_connections unset sid (base x) s t out h = inl (ground arith)
dispatch_connections unset sid (user_list x) s t out h = inl (ground arith)
dispatch_connections unset sid (connection_setup x) s t out h = inl (ground arith)
dispatch_connections unset sid (control x) s t out h = inl (ground arith)

pub serve_connections :
    (unset sid : ℕ) (r : Received) (s t : Server) (out : Sent)
    → serve unset sid r s ≡ ok (t, out)
    → (t.connections ≡ s.connections) ⊎ (t.connections ≡ set s.connections sid closed)
unfolding serve
serve_connections unset sid (packet p) s t out h = dispatch_connections unset sid p s t out h
serve_connections unset sid nothing s t out h = inl (ground arith)
serve_connections unset sid hung_up s t out h = inr (ground arith)

-- The count lies between the connected and all connections.
pub record IsCounted (num : ℕ) (cs : List Connection) : Type 0 where
  pub above : connected_count cs ≤ num
  pub below : num ≤ length cs

pub after_serve :
    (cs ds : List Connection) (sid : ℕ)
    → (ds ≡ cs) ⊎ (ds ≡ set cs sid closed)
    → (length ds ≡ length cs) × IsCounted (connected_count cs) ds
after_serve cs ds sid (inl e) =
    rw e (refl, record { above = omega arith; below = connected_count-length cs })
after_serve cs ds sid (inr e) = rw e (
  length-set cs sid closed,
  record {
    above = connected_count-set cs sid;
    below = omega (arith, connected_count-length cs, length-set cs sid closed);
  },
)
