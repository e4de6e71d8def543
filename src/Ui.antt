-- ===== src/Ui.antt =====
-- chat/UI.h and chat/UI.cpp: the line editor of the client, its commands, and the queue of requests
-- for the backend. A string is the list of its bytes. The thread, the locks and the drawing are left
-- out, and so is the member `username`, which nothing uses. The cursor is a std::size_t: going back
-- wraps at 0, and going on does not wrap, as no string has 2 ^ 64 bytes.
pub mod Editing
pub mod Sending
use leaky_chat.Prelude.{
  ℕ, zero, suc, ◌+◌, ◌-◌, ◌%◌, ◌^◌, List, [], ◌∷◌, ◌++◌, map, take, drop, length, Option, none,
  some, Bool, true, false, not, ◌||◌, ◌&&◌, ◌==◌, leb, ltb, if◌then◌else◌, eq_bytes, Outcome, ok,
  throws, out_of_range, ◌>>=◌,
}

pub data RequestType : Type 0 where
  login send_message get_users e2e quit : RequestType

pub record ClientRequest : Type 0 where
  pub type : RequestType
  pub id : ℕ
  pub username : List ℕ
  pub message : List ℕ

pub record Message : Type 0 where
  pub id : Option ℕ
  pub sender : List ℕ
  pub text : List ℕ
  pub failed : Bool

-- The members of UI, with `ClientRequest::nextRequestId` and how often the semaphore of the backend
-- was released.
pub record Ui : Type 0 where
  pub running : Bool
  pub requests : List ClientRequest
  pub messages : List Message
  pub selected_partner : List ℕ
  pub input : List ℕ
  pub cursor : ℕ
  pub next_request_id : ℕ
  pub released : ℕ

-- The three constructors of Message.
abbrev pub notice : List ℕ → Message
notice text = record { id = none; sender = []; text = text; failed = false }

abbrev pub echo : ℕ → List ℕ → Message
echo id text = record { id = some id; sender = []; text = text; failed = false }

abbrev pub sent_as : ℕ → List ℕ → List ℕ → Message
sent_as id sender text = record { id = some id; sender = sender; text = text; failed = false }

unfoldable pub add_message : Message → Ui → Ui
add_message m s = record s { messages = s.messages ++ (m ∷ []) }

unfoldable pub add_request : ClientRequest → Ui → Ui
add_request r s = record s { requests = s.requests ++ (r ∷ []); released = s.released + 1 }

-- The request, if there is one.
unfoldable pub try_get_request : Ui → Option ClientRequest × Ui
try_get_request s =
    if not s.running
    then (none, s)
    else elim s.requests [ [] ↦ (none, s) | r ∷ rest ↦ (some r, record s { requests = rest }) ]

abbrev has_id : ℕ → Option ℕ → Bool
has_id seq none = false
has_id seq (some id) = id == seq

-- `editMessage`, for a transformation that keeps no state of its own.
unfoldable pub edit_message : ℕ → (Message → Message) → Ui → Ui
edit_message seq transform s = record s {
  messages = map (λ m. if has_id seq m.id then transform m else m) s.messages;
}

-- `start()` and `stop()` of the flag and the semaphore.
unfoldable pub start : Ui → Ui
start s = if s.running then s else record s { running = true }

unfoldable pub stop : Ui → Ui
stop s = if s.running then record s { running = false; released = s.released + 1 } else s

-- A new request takes the next number.
abbrev pub take_id : Ui → Ui
take_id s = record s { next_request_id = (s.next_request_id + 1) % 2 ^ 64 }

abbrev pub post : RequestType → List ℕ → List ℕ → Ui → Ui
post type username message s =
    add_request
      (record { type = type; id = s.next_request_id; username = username; message = message })
      (take_id s)

-- What follows a prefix.
unfoldable pub strip_prefix : List ℕ → List ℕ → Option (List ℕ)
strip_prefix [] s = some s
strip_prefix (x ∷ p) [] = none
strip_prefix (x ∷ p) (y ∷ s) = if x == y then strip_prefix p s else none

-- `/quit`, `/who`, `/login `, `/chat `, `/e2e `.
abbrev pub quit_command : List ℕ
quit_command = 47 ∷ 113 ∷ 117 ∷ 105 ∷ 116 ∷ []

abbrev pub who_command : List ℕ
who_command = 47 ∷ 119 ∷ 104 ∷ 111 ∷ []

abbrev pub login_command : List ℕ
login_command = 47 ∷ 108 ∷ 111 ∷ 103 ∷ 105 ∷ 110 ∷ 32 ∷ []

abbrev pub chat_command : List ℕ
chat_command = 47 ∷ 99 ∷ 104 ∷ 97 ∷ 116 ∷ 32 ∷ []

abbrev pub e2e_command : List ℕ
e2e_command = 47 ∷ 101 ∷ 50 ∷ 101 ∷ 32 ∷ []

-- A command that names a user; without a name it does nothing.
abbrev pub name_command : RequestType → List ℕ → List ℕ → Ui → Ui
name_command type input [] s = s
name_command type input (c ∷ name) s =
    post type (c ∷ name) [] (add_message (echo s.next_request_id input) s)

abbrev pub chat_with : List ℕ → Ui → Ui
chat_with [] s = s
chat_with (c ∷ name) s = record s { selected_partner = c ∷ name }

-- An unknown command is shown in red.
abbrev pub in_red : List ℕ → List ℕ
in_red input = (27 ∷ 91 ∷ 51 ∷ 49 ∷ 109 ∷ []) ++ (input ++ (27 ∷ 91 ∷ 48 ∷ 109 ∷ []))

-- `Message({}, input)` has the number 0.
unfoldable pub handle_command : List ℕ → Ui → Ui
unfolding strip_prefix add_message add_request
handle_command input s =
    if eq_bytes input quit_command
    then record (post quit [] [] (add_message (echo 0 input) s)) { running = false }
    else if eq_bytes input who_command
    then post get_users [] [] (add_message (echo s.next_request_id input) s)
    else elim (strip_prefix login_command input) [
      | some name ↦ name_command login input name s
      | none ↦ elim (strip_prefix chat_command input) [
        | some name ↦ chat_with name (add_message (echo 0 input) s)
        | none ↦ elim (strip_prefix e2e_command input) [
          | some name ↦ name_command e2e input name s
          | none ↦ add_message (echo 0 (in_red input)) s
        ]
      ]
    ]

-- `find(' ')`.
unfoldable pub find_space : List ℕ → Option ℕ
find_space [] = none
find_space (c ∷ s) =
    if c == 32 then some 0 else elim (find_space s) [ none ↦ none | some i ↦ some (suc i) ]

-- `You`.
abbrev pub own_name : List ℕ
own_name = 89 ∷ 111 ∷ 117 ∷ []

abbrev pub send_to_partner : List ℕ → List ℕ → Ui → Ui
send_to_partner recipient [] s = s
send_to_partner recipient (c ∷ message) s = post send_message recipient (c ∷ message) (
    add_message (sent_as s.next_request_id own_name (c ∷ message))
      (record s { selected_partner = recipient }))

-- `handleMessage` of a line that starts with @: without a space it selects the partner.
unfoldable pub handle_message : List ℕ → Ui → Ui
unfolding find_space add_message add_request
handle_message [] s = s
handle_message (c ∷ rest) s = if not (c == 64) then s else elim (find_space (c ∷ rest)) [
  | none ↦ record s { selected_partner = rest }
  | some space ↦
      if leb space 1
      then s
      else send_to_partner (take (space - 1) rest) (drop (space + 1) (c ∷ rest)) s
]

-- `No chat partner selected`.
abbrev pub no_partner : List ℕ
no_partner =
    78 ∷ 111 ∷ 32 ∷ 99 ∷ 104 ∷ 97 ∷ 116 ∷ 32 ∷ 112 ∷ 97 ∷ 114 ∷ 116 ∷ 110 ∷ 101 ∷ 114 ∷ 32 ∷ 115
    ∷ 101 ∷ 108 ∷ 101 ∷ 99 ∷ 116 ∷ 101 ∷ 100 ∷ []

abbrev pub to_selected : List ℕ → List ℕ → Ui → Ui
to_selected [] input s = add_message (notice no_partner) s
to_selected (c ∷ name) input s = handle_message (64 ∷ (c ∷ name) ++ (32 ∷ input)) s

abbrev pub run_line : ℕ → List ℕ → Ui → Ui
run_line c rest s =
    if c == 47
    then handle_command (c ∷ rest) s
    else if c == 64
    then handle_message (c ∷ rest) s
    else to_selected s.selected_partner (c ∷ rest) s

-- The local `input` hides the member, so that `clear()` clears the local one: the member keeps what
-- the move left in it, `left`, which the standard does not say.
abbrev pub submit : List ℕ → List ℕ → Ui → Ui
submit left [] s = s
submit left (c ∷ rest) s = record (run_line c rest (record s { input = left })) { cursor = 0 }

unfoldable pub submit_input : List ℕ → Ui → Ui
unfolding handle_command handle_message add_message
submit_input left s = submit left s.input s

-- `erase(pos, 1)` and `insert(pos, 1, c)` of a string throw behind its end.
unfoldable pub erase_at : ℕ → List ℕ → Outcome (List ℕ)
erase_at pos s =
    if ltb (length s) pos then throws out_of_range else ok (take pos s ++ drop (pos + 1) s)

unfoldable pub insert_at : ℕ → ℕ → List ℕ → Outcome (List ℕ)
insert_at pos c s =
    if ltb (length s) pos then throws out_of_range else ok (take pos s ++ (c ∷ drop pos s))

-- One less on `std::size_t`, which goes from 0 to the largest value.
abbrev pub pred_size : ℕ → ℕ
pred_size zero = 2 ^ 64 - 1
pred_size (suc n) = n

unfoldable pub backspace : Ui → Outcome Ui
unfolding erase_at
backspace s =
    if ltb 0 s.cursor
    then (erase_at (pred_size s.cursor) s.input >>= λ line.
        ok (record s { input = line; cursor = pred_size s.cursor }))
    else ok s

unfoldable pub type_key : ℕ → Ui → Outcome Ui
unfolding insert_at
type_key c s =
    if leb 32 c && leb c 126
    then (insert_at s.cursor c s.input >>= λ line.
        ok (record s { input = line; cursor = s.cursor + 1 }))
    else ok s

-- Newline, carriage return, delete, backspace, Ctrl-C, and the rest.
unfoldable pub handle_key : List ℕ → ℕ → Ui → Outcome Ui
unfolding backspace type_key submit_input
handle_key left c s =
    if c == 10 || c == 13
    then ok (submit_input left s)
    else if c == 127 || c == 8
    then backspace s
    else if c == 3
    then ok (record s { running = false; released = s.released + 1 })
    else type_key c s

-- `processInput` over the bytes that are there to read.
unfoldable pub process_input : List ℕ → List ℕ → Ui → Outcome Ui
unfolding handle_key
process_input left [] s = ok s
process_input left (c ∷ cs) s = handle_key left c s >>= λ t. process_input left cs t
