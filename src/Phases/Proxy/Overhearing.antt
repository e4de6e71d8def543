-- ===== src/Phases/Proxy/Overhearing.antt =====
-- What Mallory hears of a conversation in .phases/phase2, and that it goes on unchanged.
use leaky_chat.Prelude.{
  ℕ, ◌+◌, ◌≡◌, arith, List, [], ◌∷◌, ◌++◌, length, map, All, some, true, false, ok, append-nil,
  append_assoc, ◌>>=◌,
}
use leaky_chat.Crypto.{Ssl, CryptoSession}
use leaky_chat.Buffer.Codec.{Limits}
use leaky_chat.Packet.{Unset, message_type}
use leaky_chat.Network.{NetworkHandler, is_ready, arrived}
use leaky_chat.Network.Transport.{IsLinked}
use leaky_chat.Phases.Packets.{MessagePacket, message}
use leaky_chat.Phases.Packets.Wire.{wire_bytes, received}
use leaky_chat.Phases.Connection.Transport.{send_packet, receive_packet}
use leaky_chat.Phases.Connection.Delivery.{IsSendable, receive_packet-send_packet}
use leaky_chat.Phases.Proxy.{
  Relayed, Round, both_connected, inspect_packet, sent_on, forward_to_server, step_to_server,
  relay_client_to_server,
}

-- A message, with what seals it on its two ways.
pub record Passage : Type 0 where
  pub packet : MessagePacket
  pub nonce : List ℕ
  pub cipher : List ℕ
  pub tag : List ℕ
  pub nonce' : List ℕ
  pub cipher' : List ℕ
  pub tag' : List ℕ

-- Receiver and text.
abbrev pub said : Passage → List ℕ × List ℕ
said q = (q.packet.receiver, q.packet.message)

pub connected_of_ready : (h : NetworkHandler) → is_ready h ≡ true → h.connected ≡ true
connected_of_ready h e = ground arith

module _ (ssl : Ssl) (lim : Limits) (unset : Unset) where
  -- It can be sent under both keys.
  abbrev pub IsPassable : List ℕ → List ℕ → Passage → Type 0
  IsPassable key key' q =
      IsSendable ssl lim unset (message q.packet) q.nonce q.cipher q.tag key
      × IsSendable ssl lim unset (message q.packet) q.nonce' q.cipher' q.tag' key'

  abbrev pub round : Passage → List ℕ → Round
  round q xs = record {
    arrival = arrived xs;
    nonce = some q.nonce';
    taken = some (length (wire_bytes (message q.packet)) + 36);
  }

  -- The frames of some messages, one round each.
  abbrev pub rounds : List Passage → List (List ℕ) → List Round
  rounds [] xss = []
  rounds (q ∷ qs) [] = []
  rounds (q ∷ qs) (xs ∷ xss) = round q xs ∷ rounds qs xss

  -- The client sends each message as a frame.
  abbrev pub Sent : NetworkHandler → List Passage → List (List ℕ) → Type 0
  Sent c [] [] = Unit
  Sent c [] (xs ∷ xss) = ⊥
  Sent c (q ∷ qs) [] = ⊥
  Sent c (q ∷ qs) (xs ∷ xss) =
      (send_packet ssl (some q.nonce) (some (length xs)) (message q.packet) false c ≡ ok (true, xs))
      × Sent c qs xss

  -- Each frame is the message to the server.
  abbrev pub Given : NetworkHandler → List Passage → List (List ℕ) → Type 0
  Given k [] [] = Unit
  Given k [] (ys ∷ yss) = ⊥
  Given k (q ∷ qs) [] = ⊥
  Given k (q ∷ qs) (ys ∷ yss) =
      (receive_packet ssl lim unset (arrived ys) k ≡ ok (some (message q.packet), k))
      × Given k qs yss

  -- Over one connection.
  pub passed :
      (q : MessagePacket) (nonce cipher tag : List ℕ) (a b : NetworkHandler) (ca cb : CryptoSession)
      → IsLinked a b ca cb
      → IsSendable ssl lim unset (message q) nonce cipher tag ca.key
      → (xs : List ℕ) × (length xs ≡ length (wire_bytes (message q)) + 36)
        × (send_packet ssl (some nonce) (some (length xs)) (message q) false a ≡ ok (true, xs))
        × (receive_packet ssl lim unset (arrived xs) b ≡ ok (some (message q), b))
  unfolding received
  passed q nonce cipher tag a b ca cb l v =
      let (xs, n, s, r) =
        receive_packet-send_packet ssl lim unset (message q) nonce cipher tag a b ca cb [] l v
          (omega arith) in
      (xs, n, s, rw (append-nil xs) at r)

  step_lem :
      (q : Passage) (s : Relayed) (xs ys : List ℕ)
      → q.packet.head.packet_type ≡ message_type
      → s.proxy.tamper_client_to_server ≡ false
      → receive_packet ssl lim unset (arrived xs) s.proxy.client_side
        ≡ ok (some (message q.packet), s.proxy.client_side)
      → length ys ≡ length (wire_bytes (message q.packet)) + 36
      → send_packet ssl
          (some q.nonce')
          (some (length ys))
          (message q.packet)
          false
          s.proxy.server_side
        ≡ ok (true, ys)
      → step_to_server ssl lim unset (round q xs) s
        ≡ ok (true, record s { heard = s.heard ++ (said q ∷ []); wire = s.wire ++ (ys ∷ []) })
  unfolding step_to_server inspect_packet
  step_lem q s xs ys is_message honest r n e =
      let e' = rw n at e in
      let same : send_packet ssl (some q.nonce')
            (some (length (wire_bytes (message q.packet)) + 36)) (message q.packet)
            s.proxy.tamper_client_to_server s.proxy.server_side
          ≡ ok (true, ys) =
        rw honest e' in
      let shown : inspect_packet (message q.packet) ≡ said q ∷ [] = rw is_message in
      rw (step_to_server, ◌>>=◌, r, forward_to_server, same, sent_on, shown)

  -- Messages that go from a client to Mallory and on to the server, over connections on two keys of which
  -- Mallory has both: Mallory hears receiver and text of each, in order, and the server is given each message just
  -- as the client sent it.
  pub overheard :
      (qs : List Passage) (s : Relayed) (c k : NetworkHandler) (cc mc ms sc : CryptoSession)
      → IsLinked c s.proxy.client_side cc mc
      → IsLinked s.proxy.server_side k ms sc
      → s.proxy.tamper_client_to_server ≡ false
      → All (λ q. q.packet.head.packet_type ≡ message_type) qs
      → All (IsPassable cc.key ms.key) qs
      → (xss yss : List (List ℕ)) × Sent c qs xss
        × (relay_client_to_server ssl lim unset (rounds qs xss) s
            ≡ ok (record s { heard = s.heard ++ map said qs; wire = s.wire ++ yss }))
        × Given k qs yss
  unfolding relay_client_to_server
  overheard [] s c k cc mc ms sc l l' honest types v =
      ([], [], tt, rw (append-nil s.heard, append-nil s.wire), tt)
  overheard (q ∷ qs) s c k cc mc ms sc l l' honest (type, types) ((v, v'), vs) =
      let (xs, n, send, receive) =
        passed q.packet q.nonce q.cipher q.tag c s.proxy.client_side cc mc l v in
      let (ys, n', send', receive') =
        passed q.packet q.nonce' q.cipher' q.tag' s.proxy.server_side k ms sc l' v' in
      let step = step_lem q s xs ys type honest receive n' send' in
      let next : Relayed = record s {
        heard = s.heard ++ (said q ∷ []);
        wire = s.wire ++ (ys ∷ []);
      } in
      let (xss, yss, sent, relayed, given) =
        overheard qs next c k cc mc ms sc l l' honest types vs in
      let both : both_connected s.proxy ≡ true = rw (
        connected_of_ready s.proxy.client_side l.ready.1,
        connected_of_ready s.proxy.server_side l'.ready.0,
      ) in
      (
        xs ∷ xss,
        ys ∷ yss,
        (send, sent),
        rw (
          relay_client_to_server,
          both,
          ◌>>=◌,
          step,
          relayed,
          append_assoc s.heard (said q ∷ []) (map said qs),
          append_assoc s.wire (ys ∷ []) yss,
        ),
        (receive', given),
      )
