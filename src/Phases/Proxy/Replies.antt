-- ===== src/Phases/Proxy/Replies.antt =====
-- What Mallory hears on the way from the server to the client in .phases/phase2.
use leaky_chat.Prelude.{
  ℕ, ◌+◌, ◌≡◌, List, [], ◌∷◌, ◌++◌, length, map, All, some, true, false, ok, append-nil,
  append_assoc, ◌>>=◌,
}
use leaky_chat.Crypto.{Ssl, CryptoSession}
use leaky_chat.Buffer.Codec.{Limits}
use leaky_chat.Packet.{Unset, message_type}
use leaky_chat.Network.{NetworkHandler, arrived}
use leaky_chat.Network.Transport.{IsLinked}
use leaky_chat.Phases.Packets.{message}
use leaky_chat.Phases.Packets.Wire.{wire_bytes}
use leaky_chat.Phases.Connection.Transport.{send_packet, receive_packet}
use leaky_chat.Phases.Proxy.{
  Relayed, both_connected, inspect_packet, sent_on, forward_to_client, step_to_client,
  relay_server_to_client,
}
use leaky_chat.Phases.Proxy.Overhearing.{
  Passage, said, connected_of_ready, IsPassable, round, rounds, Sent, Given, passed,
}

module _ (ssl : Ssl) (lim : Limits) (unset : Unset) where
  step_lem :
      (q : Passage) (s : Relayed) (xs ys : List ℕ)
      → q.packet.head.packet_type ≡ message_type
      → receive_packet ssl lim unset (arrived xs) s.proxy.server_side
        ≡ ok (some (message q.packet), s.proxy.server_side)
      → length ys ≡ length (wire_bytes (message q.packet)) + 36
      → send_packet ssl
          (some q.nonce')
          (some (length ys))
          (message q.packet)
          false
          s.proxy.client_side
        ≡ ok (true, ys)
      → step_to_client ssl lim unset (round ssl lim unset q xs) s
        ≡ ok (true, record s { heard = s.heard ++ (said q ∷ []); wire = s.wire ++ (ys ∷ []) })
  unfolding step_to_client inspect_packet
  step_lem q s xs ys is_message r n e =
      let e' = rw n at e in
      let shown : inspect_packet (message q.packet) ≡ said q ∷ [] = rw is_message in
      rw (step_to_client, ◌>>=◌, r, forward_to_client, e', sent_on, shown)

  -- Messages that the server sends to a client, over connections with Mallory on both sides: Mallory hears
  -- receiver and text of each, in order, and the client is given each just as the server sent it, also when
  -- the proxy tampers with the other direction.
  pub replies_overheard :
      (qs : List Passage) (s : Relayed) (k c : NetworkHandler) (sc ms mc cc : CryptoSession)
      → IsLinked k s.proxy.server_side sc ms
      → IsLinked s.proxy.client_side c mc cc
      → All (λ q. q.packet.head.packet_type ≡ message_type) qs
      → All (IsPassable ssl lim unset sc.key mc.key) qs
      → (xss yss : List (List ℕ)) × Sent ssl lim unset k qs xss
        × (relay_server_to_client ssl lim unset (rounds ssl lim unset qs xss) s
            ≡ ok (record s { heard = s.heard ++ map said qs; wire = s.wire ++ yss }))
        × Given ssl lim unset c qs yss
  unfolding relay_server_to_client
  replies_overheard [] s k c sc ms mc cc l l' types v =
      ([], [], tt, rw (append-nil s.heard, append-nil s.wire), tt)
  replies_overheard (q ∷ qs) s k c sc ms mc cc l l' (type, types) ((v, v'), vs) =
      let (xs, n, send, receive) =
        passed ssl lim unset q.packet q.nonce q.cipher q.tag k s.proxy.server_side sc ms l v in
      let (ys, n', send', receive') =
        passed ssl lim unset q.packet q.nonce' q.cipher' q.tag' s.proxy.client_side c mc cc l' v' in
      let step = step_lem q s xs ys type receive n' send' in
      let next : Relayed = record s {
        heard = s.heard ++ (said q ∷ []);
        wire = s.wire ++ (ys ∷ []);
      } in
      let (xss, yss, sent, relayed, given) =
        replies_overheard qs next k c sc ms mc cc l l' types vs in
      let both : both_connected s.proxy ≡ true = rw (
        connected_of_ready s.proxy.server_side l.ready.1,
        connected_of_ready s.proxy.client_side l'.ready.0,
      ) in
      (
        xs ∷ xss,
        ys ∷ yss,
        (send, sent),
        rw (
          relay_server_to_client,
          both,
          ◌>>=◌,
          step,
          relayed,
          append_assoc s.heard (said q ∷ []) (map said qs),
          append_assoc s.wire (ys ∷ []) yss,
        ),
        (receive', given),
      )
