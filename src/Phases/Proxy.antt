-- ===== src/Phases/Proxy.antt =====
-- .phases/phase2/src/chat/mallory/MalloryProxy.hh and MalloryProxy.cpp: Mallory between a client and the
-- server. What the system calls answer is an argument. The two directions run in threads of their own in the program,
-- and are two functions here. Left out are the printed lines, but for what Mallory hears.
pub mod Run
pub mod Interception
pub mod Overhearing
pub mod Conversation
pub mod Replies
use leaky_chat.Prelude.{
  ℕ, ◌==◌, List, [], ◌∷◌, ◌++◌, Option, none, some, Bool, true, false, ◌&&◌, if◌then◌else◌, Outcome,
  ok, ◌>>=◌,
}
use leaky_chat.Crypto.{Ssl}
use leaky_chat.Buffer.Codec.{Limits}
use leaky_chat.Packet.{Unset, message_type}
use leaky_chat.Network.{NetworkHandler, Arrival}
use leaky_chat.Phases.Packets.{
  Packet, base, message, request, field_req, user_list, connection_setup, control,
}
use leaky_chat.Phases.Connection.{close}
use leaky_chat.Phases.Connection.Transport.{send_packet, receive_packet}

pub record MalloryProxy : Type 0 where
  pub client_side : NetworkHandler
  pub server_side : NetworkHandler
  pub tamper_client_to_server : Bool

-- `inspectPacket`: the receiver and the text of a message.
unfoldable pub inspect_packet : Packet → List (List ℕ × List ℕ)
inspect_packet (message m) =
    if m.head.packet_type == message_type then (m.receiver, m.message) ∷ [] else []
inspect_packet (base h) = []
inspect_packet (request r) = []
inspect_packet (field_req f) = []
inspect_packet (user_list u) = []
inspect_packet (connection_setup h) = []
inspect_packet (control c) = []

-- What a round of a relay meets: what arrives, the random bytes of the seal, and what `send` answers.
pub record Round : Type 0 where
  pub arrival : Arrival
  pub nonce : Option (List ℕ)
  pub taken : Option ℕ

-- The proxy, what it has heard, and what it has put on the wire of the direction.
pub record Relayed : Type 0 where
  pub proxy : MalloryProxy
  pub heard : List (List ℕ × List ℕ)
  pub wire : List (List ℕ)

abbrev pub both_connected : MalloryProxy → Bool
both_connected m = m.client_side.connected && m.server_side.connected

-- The end of both relays.
unfoldable pub hang_up : Relayed → Relayed
unfolding close
hang_up s = record s {
  proxy = record s.proxy {
    client_side = close s.proxy.client_side;
    server_side = close s.proxy.server_side;
  };
}

-- After a packet was sent on, or could not be.
abbrev pub sent_on : Packet → Bool × List ℕ → Relayed → Bool × Relayed
sent_on p (sent, xs) s = (
  sent,
  record s {
    heard = s.heard ++ inspect_packet p;
    wire = if sent then s.wire ++ (xs ∷ []) else s.wire;
  },
)

module _ (ssl : Ssl) (lim : Limits) (unset : Unset) where
  abbrev forward_to_server : Round → Option Packet → Relayed → Outcome (Bool × Relayed)
  forward_to_server r none s = ok (s.proxy.client_side.connected, s)
  forward_to_server r (some p) s =
      send_packet ssl r.nonce r.taken p s.proxy.tamper_client_to_server s.proxy.server_side
      >>= λ done. ok (sent_on p done s)

  -- A round of `relayClientToServer`, with whether the loop goes on.
  unfoldable pub step_to_server : Round → Relayed → Outcome (Bool × Relayed)
  step_to_server r s = do
    (packet, side) ← receive_packet ssl lim unset r.arrival s.proxy.client_side
    forward_to_server r packet (record s { proxy = record s.proxy { client_side = side } })

  unfoldable pub relay_client_to_server : List Round → Relayed → Outcome Relayed
  relay_client_to_server [] s = ok s
  relay_client_to_server (r ∷ rs) s =
      if both_connected s.proxy
      then (step_to_server r s >>= λ next.
          if next.0 then relay_client_to_server rs next.1 else ok (hang_up next.1))
      else ok (hang_up s)

  abbrev forward_to_client : Round → Option Packet → Relayed → Outcome (Bool × Relayed)
  forward_to_client r none s = ok (s.proxy.server_side.connected, s)
  forward_to_client r (some p) s =
      send_packet ssl r.nonce r.taken p false s.proxy.client_side >>= λ done. ok (sent_on p done s)

  -- A round of `relayServerToClient`.
  unfoldable pub step_to_client : Round → Relayed → Outcome (Bool × Relayed)
  step_to_client r s = do
    (packet, side) ← receive_packet ssl lim unset r.arrival s.proxy.server_side
    forward_to_client r packet (record s { proxy = record s.proxy { server_side = side } })

  unfoldable pub relay_server_to_client : List Round → Relayed → Outcome Relayed
  relay_server_to_client [] s = ok s
  relay_server_to_client (r ∷ rs) s =
      if both_connected s.proxy
      then (step_to_client r s >>= λ next.
          if next.0 then relay_server_to_client rs next.1 else ok (hang_up next.1))
      else ok (hang_up s)
