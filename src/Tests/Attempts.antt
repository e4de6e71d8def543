-- ===== src/Tests/Attempts.antt =====
-- A client that finds the server at the second attempt.
use leaky_chat.Prelude.{◌≡◌, ◌↔◌, [], ◌∷◌, some, true, false}
use leaky_chat.Network.Line.{Line, returns}
use leaky_chat.Network.Handshake.{connect, secured}
use leaky_chat.Network.Relay.{keyed_by}
use leaky_chat.Client.Connecting.{
  Attempt, setup_connection, connect_until, Connects, connect_until_iff,
}
use leaky_chat.Tests.Samples.{toy, granting}
use leaky_chat.Tests.Handshakes.{
  toy_pki, crt, challenge, all_taken, seed, party, shared, socketed, to_client, finished, connects,
}

abbrev no_line : Line
no_line = record { incoming = []; sent = [] }

-- The server does not accept.
abbrev offline : Attempt
offline = record {
  socket = some 4;
  accepted = false;
  rand = some challenge;
  fresh = some (seed 3);
  line = no_line;
}

abbrev online : Attempt
online = record offline { accepted = true; line = to_client 5 }

second_attempt :
    connect_until toy toy_pki granting all_taken crt (offline ∷ online ∷ []) no_line
    ≡ returns (some (secured (keyed_by shared (party 3)) socketed)) finished
unfolding connect_until setup_connection connect
second_attempt = rw (connect_until, setup_connection, connects)

connect_until_iff_example :
    (connect_until toy toy_pki granting all_taken crt (offline ∷ online ∷ []) no_line
      ≡ returns (some (secured (keyed_by shared (party 3)) socketed)) finished)
    ↔ Connects toy toy_pki granting all_taken crt
        (offline ∷ online ∷ [])
        (secured (keyed_by shared (party 3)) socketed)
        finished
connect_until_iff_example =
    connect_until_iff toy toy_pki granting all_taken crt (offline ∷ online ∷ [])
      (secured (keyed_by shared (party 3)) socketed) no_line finished
