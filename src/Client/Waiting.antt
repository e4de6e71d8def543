-- ===== src/Client/Waiting.antt =====
-- The loops of chat/client.cpp that wait for a packet: when they end, and when they never do.
use leaky_chat.Prelude.{
  ℕ, zero, suc, ◌+◌, ◌*◌, ◌%◌, ◌^◌, ◌<◌, ◌≡◌, ◌≢◌, refl, ◌∙◌, arith, true, false, List, [], ◌∷◌,
  ◌++◌, length, All, Option, none, some, ◌==◌, ok,
}
use leaky_chat.Packet.{
  Packet, ControlPacket, base, message, request, field_req, user_list, connection_setup, control,
  ack, field_req_type, set_username,
}
use leaky_chat.Client.Monad.{
  Env, Client, Event, delivers, silent, ends, returns, waits, poll, receive, send_packet,
}
use leaky_chat.Client.{as_control, wait_until_ack, login}

-- An arrival that the wait for the answer to `seq` passes over: nothing, or an answer to another number.
abbrev pub PassesBy : ℕ → Event → Type 0
PassesBy seq silent = Unit {0}
PassesBy seq (delivers (control k)) = k.reply_to ≢ seq
PassesBy seq (delivers (base h)) = ⊥
PassesBy seq (delivers (message m)) = ⊥
PassesBy seq (delivers (request r)) = ⊥
PassesBy seq (delivers (field_req f)) = ⊥
PassesBy seq (delivers (user_list u)) = ⊥
PassesBy seq (delivers (connection_setup h)) = ⊥
PassesBy seq ends = ⊥

-- A client that waits on an empty queue and a connection that stands, for what will arrive.
abbrev pub listening : List Event → Client → Client
listening es c = record c { queue = []; online = true; incoming = es }

-- What `login` sends.
abbrev pub login_request : ℕ → List ℕ → Packet
login_request seq name = field_req (record {
  head = record { packet_type = field_req_type; seq = seq };
  request = set_username;
  field = name;
})

module _ (env : Env) where
  pass_over :
      (fuel seq : ℕ) (j : ControlPacket) (es : List Event) (c : Client)
      → j.reply_to ≢ seq
      → wait_until_ack env (suc (suc fuel)) seq (listening (delivers (control j) ∷ es) c)
        ≡ wait_until_ack env fuel seq (listening es c)
  unfolding wait_until_ack poll receive
  pass_over fuel seq j es c h = let other : (j.reply_to == seq) ≡ false = ground arith in rw other

  -- Waiting for an answer, on an empty queue and a connection that stands: when all that arrives before
  -- it is nothing or answers to other numbers, the wait ends, after at most two rounds for each arrival,
  -- with whether the answer is ACK; what was passed over is gone, and what follows is left.
  pub wait_until_ack_lem :
      (fuel seq : ℕ) (before rest : List Event) (k : ControlPacket) (c : Client)
      → All (PassesBy seq) before
      → k.reply_to ≡ seq
      → 2 * length before < fuel
      → wait_until_ack env fuel seq (listening (before ++ (delivers (control k) ∷ rest)) c)
        ≡ returns (k.control == ack) (listening rest c)
  unfolding wait_until_ack poll receive
  wait_until_ack_lem zero seq before rest k c h hk hf = absurd (omega arith)
  wait_until_ack_lem (suc fuel) seq [] rest k c h hk hf =
      let same : (k.reply_to == seq) ≡ true = ground arith in rw same
  wait_until_ack_lem (suc fuel) seq (silent ∷ before) rest k c h hk hf =
      wait_until_ack_lem fuel seq before rest k c h.1 hk (omega arith)
  wait_until_ack_lem (suc zero) seq (delivers (control j) ∷ before) rest k c h hk hf =
      absurd (omega arith)
  wait_until_ack_lem (suc (suc fuel)) seq (delivers (control j) ∷ before) rest k c h hk hf =
      pass_over fuel seq j (before ++ (delivers (control k) ∷ rest)) c h.0
      ∙ wait_until_ack_lem fuel seq before rest k c h.1 hk (omega arith)
  wait_until_ack_lem (suc fuel) seq (delivers (base x) ∷ before) rest k c h hk hf = absurd h.0
  wait_until_ack_lem (suc fuel) seq (delivers (message x) ∷ before) rest k c h hk hf = absurd h.0
  wait_until_ack_lem (suc fuel) seq (delivers (request x) ∷ before) rest k c h hk hf = absurd h.0
  wait_until_ack_lem (suc fuel) seq (delivers (field_req x) ∷ before) rest k c h hk hf = absurd h.0
  wait_until_ack_lem (suc fuel) seq (delivers (user_list x) ∷ before) rest k c h hk hf = absurd h.0
  wait_until_ack_lem (suc fuel) seq (delivers (connection_setup x) ∷ before) rest k c h hk hf =
      absurd h.0
  wait_until_ack_lem (suc fuel) seq (ends ∷ before) rest k c h hk hf = absurd h.0

  -- A login request and the answer to its number.
  pub login_answered :
      (fuel : ℕ) (name : List ℕ) (before rest : List Event) (k : ControlPacket) (c : Client)
      → env.link c.asked ≡ ok true
      → All (PassesBy c.cur_seqno) before
      → k.reply_to ≡ c.cur_seqno
      → 2 * length before < fuel
      → (d : Client) × (login env fuel name (listening (before ++ (delivers (control k) ∷ rest)) c)
          ≡ returns (k.control == ack) d)
        × (d.sent ≡ c.sent ++ (login_request c.cur_seqno name ∷ []))
        × (d.incoming ≡ rest)
        × (d.queue ≡ [])
  unfolding login send_packet
  login_answered fuel name before rest k c hl h hk hf =
      let c' : Client = record c {
        cur_seqno = (c.cur_seqno + 1) % 2 ^ 64;
        sent = c.sent ++ (login_request c.cur_seqno name ∷ []);
        asked = c.asked + 1;
      } in
      (
        listening rest c',
        rw hl (wait_until_ack_lem fuel c.cur_seqno before rest k c' h hk hf),
        refl,
        refl,
        refl,
      )

  -- A queue in which nothing is waited for: packets that are no answers.
  abbrev pub IsOther : Option Packet → Type 0
  IsOther none = ⊥
  IsOther (some p) = as_control p ≡ none

  IsOther-append :
      (q : List (Option Packet)) (p : Packet)
      → All IsOther q
      → as_control p ≡ none
      → All IsOther (q ++ (some p ∷ []))
  IsOther-append [] p a h = (h, tt)
  IsOther-append (none ∷ q) p a h = absurd a.0
  IsOther-append (some r ∷ q) p a h = (a.0, IsOther-append q p a.1 h)

  turn :
      (fuel seq : ℕ) (p : Packet) (queue : List (Option Packet)) (c : Client)
      → as_control p ≡ none
      → wait_until_ack env (suc fuel) seq (record c { queue = some p ∷ queue })
        ≡ wait_until_ack env fuel seq (record c { queue = queue ++ (some p ∷ []) })
  unfolding wait_until_ack poll
  turn fuel seq p queue c h = ground (arith, h)

  -- Once a packet that is no answer is in the queue, the wait for an answer turns the queue round and
  -- round: it never ends, and it never looks at the network, whatever arrives there.
  pub wait_until_ack_stuck :
      (fuel seq : ℕ) (p : Packet) (queue : List (Option Packet)) (c : Client)
      → as_control p ≡ none
      → All IsOther queue
      → wait_until_ack env fuel seq (record c { queue = some p ∷ queue }) ≡ waits
  unfolding wait_until_ack
  wait_until_ack_stuck zero seq p queue c h a = refl
  wait_until_ack_stuck (suc fuel) seq p [] c h a =
      turn fuel seq p [] c h ∙ wait_until_ack_stuck fuel seq p [] c h tt
  wait_until_ack_stuck (suc fuel) seq p (none ∷ q) c h a = absurd a.0
  wait_until_ack_stuck (suc fuel) seq p (some r ∷ q) c h a =
      turn fuel seq p (some r ∷ q) c h
      ∙ wait_until_ack_stuck fuel seq r (q ++ (some p ∷ [])) c a.0 (IsOther-append q p a.1 h)

  first_queued :
      (fuel seq : ℕ) (p : Packet) (rest : List Event) (c : Client)
      → as_control p ≡ none
      → wait_until_ack env fuel seq (listening (delivers p ∷ rest) c) ≡ waits
  unfolding wait_until_ack poll receive
  first_queued zero seq p rest c h = refl
  first_queued (suc fuel) seq p rest c h =
      ground (arith, h, wait_until_ack_stuck fuel seq p [] (listening rest c) h tt)

  -- A null pointer left by an answer that was passed over is gone after one more round.
  pass_over_once :
      (seq : ℕ) (j : ControlPacket) (es : List Event) (c : Client)
      → j.reply_to ≢ seq
      → wait_until_ack env (suc zero) seq (listening (delivers (control j) ∷ es) c) ≡ waits
  unfolding wait_until_ack poll receive
  pass_over_once seq j es c h = let other : (j.reply_to == seq) ≡ false = ground arith in rw other

  queued :
      (fuel seq : ℕ) (before : List Event) (p : Packet) (rest : List Event) (c : Client)
      → All (PassesBy seq) before
      → as_control p ≡ none
      → wait_until_ack env fuel seq (listening (before ++ (delivers p ∷ rest)) c) ≡ waits
  unfolding wait_until_ack poll receive
  queued zero seq before p rest c b h = refl
  queued (suc fuel) seq [] p rest c b h = first_queued (suc fuel) seq p rest c h
  queued (suc fuel) seq (silent ∷ before) p rest c b h = queued fuel seq before p rest c b.1 h
  queued (suc zero) seq (delivers (control j) ∷ before) p rest c b h =
      pass_over_once seq j (before ++ (delivers p ∷ rest)) c b.0
  queued (suc (suc fuel)) seq (delivers (control j) ∷ before) p rest c b h =
      pass_over fuel seq j (before ++ (delivers p ∷ rest)) c b.0
      ∙ queued fuel seq before p rest c b.1 h
  queued (suc fuel) seq (delivers (base x) ∷ before) p rest c b h = absurd b.0
  queued (suc fuel) seq (delivers (message x) ∷ before) p rest c b h = absurd b.0
  queued (suc fuel) seq (delivers (request x) ∷ before) p rest c b h = absurd b.0
  queued (suc fuel) seq (delivers (field_req x) ∷ before) p rest c b h = absurd b.0
  queued (suc fuel) seq (delivers (user_list x) ∷ before) p rest c b h = absurd b.0
  queued (suc fuel) seq (delivers (connection_setup x) ∷ before) p rest c b h = absurd b.0
  queued (suc fuel) seq (ends ∷ before) p rest c b h = absurd b.0

  -- A login on an empty queue and a connection that takes the request never returns, however long it
  -- goes on, when a packet that is no answer, such as a message, comes before the answer to its number:
  -- be it the first, or after times of silence and answers to other numbers, and whatever comes after.
  pub login_hangs :
      (fuel : ℕ) (name : List ℕ) (before : List Event) (p : Packet) (rest : List Event) (c : Client)
      → env.link c.asked ≡ ok true
      → All (PassesBy c.cur_seqno) before
      → as_control p ≡ none
      → login env fuel name (listening (before ++ (delivers p ∷ rest)) c) ≡ waits
  unfolding login send_packet
  login_hangs fuel name before p rest c hl b h =
      let c' : Client = record c {
        cur_seqno = (c.cur_seqno + 1) % 2 ^ 64;
        sent = c.sent ++ (login_request c.cur_seqno name ∷ []);
        asked = c.asked + 1;
      } in
      rw hl (queued fuel c.cur_seqno before p rest c' b h)
