-- ===== src/Server/Loop.antt =====
-- A round of `Server::run` of chat/server.cpp, with the count `numActiveConnections` of
-- utils/SocketSet.cpp, by which a round is skipped.
use leaky_chat.Prelude.{
  ℕ, ◌+◌, ◌-◌, ◌%◌, ◌^◌, ltb, List, [], ◌∷◌, length, Option, none, some, Bool, false, if◌then◌else◌,
  Outcome, ok, ◌>>=◌,
}
use leaky_chat.Server.{Connection, Server, Sent, Received, serve, active, wait_for_read}

-- The server, the count, and the place of `waitForRead`.
pub record Loop : Type 0 where
  pub server : Server
  pub num_active : ℕ
  pub place : ℕ

-- `hasActive()`.
abbrev pub has_active : Loop → Bool
has_active l = ltb 0 l.num_active

-- What `poll` reports, beside each connection.
unfoldable pub beside : List Connection → List Bool → List (Connection × Bool)
beside [] flags = []
beside (c ∷ cs) [] = (c, false) ∷ beside cs []
beside (c ∷ cs) (f ∷ fs) = (c, f) ∷ beside cs fs

-- The connections that were accepted; each `insert` counts one.
abbrev pub admit : Server → Loop → Loop
admit s l = record l {
  server = s;
  num_active = (l.num_active + (length s.connections - length l.server.connections)) % 2 ^ 64;
}

abbrev pub serve_found : ℕ → (ℕ → Received) → Option ℕ → Loop → Outcome (Loop × Sent)
serve_found unset received none l = ok (l, [])
serve_found unset received (some sid) l =
    serve unset sid (received sid) l.server >>= λ r. ok (record l { server = r.0 }, r.1)

-- A round after `handleConnect`: what `poll` reports, and what each connection would give.
unfoldable pub run_round : ℕ → List Bool → (ℕ → Received) → Loop → Outcome (Loop × Sent)
unfolding beside
run_round unset polled received l =
    if has_active l
    then (wait_for_read (beside l.server.connections polled) l.place >>= λ r.
        serve_found unset received r.0 (record l {
          num_active = length (active (beside l.server.connections polled));
          place = r.1;
        }))
    else ok (l, [])
