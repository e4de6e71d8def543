-- ===== src/Ui/Sending.antt =====
-- What a typed line does: a message is queued for its receiver, and `/quit` is queued and never taken.
use leaky_chat.Prelude.{
  ℕ, suc, ◌+◌, ◌-◌, ◌<◌, ◌≡◌, refl, sym, ap, ◌∙◌, arith, false, none, some, List, [], ◌∷◌, ◌++◌,
  take, drop, length, take-append, drop-append, drop-drop, All, ok, leb, ◌==◌, eq_bytes,
}
use leaky_chat.Ui.{
  Ui, send_message, quit, submit, submit_input, handle_key, process_input, handle_message,
  handle_command, find_space, send_to_partner, quit_command, add_message, add_request,
  try_get_request,
}
use leaky_chat.Ui.Editing.{IsPrintable, process_input-append}

-- A character of a name: printable and no space.
abbrev pub IsNameCharacter : ℕ → Type 0
IsNameCharacter c = (32 < c) × (c < 127)

line-IsPrintable :
    (name text : List ℕ)
    → All IsNameCharacter name
    → All IsPrintable text
    → All IsPrintable (name ++ (32 ∷ text))
line-IsPrintable [] text hn ht = ((omega arith, omega arith), ht)
line-IsPrintable (c ∷ name) text hn ht =
    ((omega (arith, hn.0), omega (arith, hn.0)), line-IsPrintable name text hn.1 ht)

find_space-name :
    (name text : List ℕ)
    → All IsNameCharacter name
    → find_space (name ++ (32 ∷ text)) ≡ some (length name)
unfolding find_space
find_space-name [] text h = refl
find_space-name (c ∷ name) text h =
    let k : (c == 32) ≡ false = ground (arith, h.0) in rw (k, find_space-name name text h.1)

-- A line `@name text` goes to `name`.
handle_message-name :
    (n : ℕ) (name text : List ℕ) (s : Ui)
    → All IsNameCharacter (n ∷ name)
    → handle_message (64 ∷ ((n ∷ name) ++ (32 ∷ text))) s ≡ send_to_partner (n ∷ name) text s
unfolding handle_message find_space
handle_message-name n name text s h =
    let k : find_space ((n ∷ name) ++ (32 ∷ text)) ≡ some (suc (length name)) =
      find_space-name (n ∷ name) text h in
    let far : leb (suc (suc (length name))) 1 ≡ false = ground arith in
    let next : suc (suc (length name)) + 1 ≡ suc (suc (suc (length name))) = omega arith in
    let front : take (suc (length name)) ((n ∷ name) ++ (32 ∷ text)) ≡ n ∷ name =
      take-append (suc (length name)) (n ∷ name) (32 ∷ text) refl in
    let last : suc (length name) ≡ length name + 1 = omega arith in
    let back : drop (suc (length name)) (name ++ (32 ∷ text)) ≡ text =
      ap (λ i. drop i (name ++ (32 ∷ text))) last
      ∙ sym (drop-drop 1 (length name) (name ++ (32 ∷ text)))
      ∙ ap (λ xs. drop 1 xs) (drop-append (length name) name (32 ∷ text) refl) in
    let before : suc (suc (length name)) - 1 ≡ suc (length name) = omega arith in
    rw (k, far, next, before, front, back)

-- A printable line typed on an empty one, and Enter.
enter_line :
    (left line : List ℕ) (s : Ui)
    → All IsPrintable line
    → s.input ≡ []
    → s.cursor ≡ 0
    → process_input left (line ++ (10 ∷ [])) s
      ≡ ok (submit left line (record s { input = line; cursor = length line }))
unfolding process_input handle_key submit_input
enter_line left line s h hi hc =
    let same : 0 + length line ≡ length line = omega arith in
    process_input-append left line (10 ∷ []) s h (omega (arith, hc, ap length hi))
    ∙ rw (hi, hc, same)

-- Who types `@name text` on an empty line and presses Enter queues, behind the requests that are
-- there, one to send the text to the name, which is also the selected partner from then on; the UI runs on.
pub typed_message :
    (left : List ℕ) (n : ℕ) (name : List ℕ) (c : ℕ) (text : List ℕ) (s : Ui)
    → All IsNameCharacter (n ∷ name)
    → All IsPrintable (c ∷ text)
    → s.input ≡ []
    → s.cursor ≡ 0
    → (t : Ui) × (process_input left ((64 ∷ ((n ∷ name) ++ (32 ∷ (c ∷ text)))) ++ (10 ∷ [])) s
        ≡ ok t)
      × (t.requests
          ≡ s.requests
            ++ (record {
              type = send_message;
              id = s.next_request_id;
              username = n ∷ name;
              message = c ∷ text;
            }
                ∷ []))
      × (t.selected_partner ≡ n ∷ name)
      × (t.running ≡ s.running)
unfolding add_request add_message
typed_message left n name c text s hn ht hi hc =
    let line : List ℕ = 64 ∷ ((n ∷ name) ++ (32 ∷ (c ∷ text))) in
    let printable : All IsPrintable line =
      ((omega arith, omega arith), line-IsPrintable (n ∷ name) (c ∷ text) hn ht) in
    let s' : Ui = record s { input = left; cursor = length line } in
    let goes : handle_message line s' ≡ send_to_partner (n ∷ name) (c ∷ text) s' =
      handle_message-name n name (c ∷ text) s' hn in
    (_, enter_line left line s printable hi hc, rw goes, rw goes, rw goes)

-- Once the line `/quit` was handled, the request that it queued is not taken any more: the flag that
-- it cleared hides the queue, however many
-- requests are in it.
quit_is_lost :
    (left : List ℕ) (s : Ui)
    → s.input ≡ []
    → s.cursor ≡ 0
    → (t : Ui) × (process_input left (quit_command ++ (10 ∷ [])) s ≡ ok t)
      × (t.requests
          ≡ s.requests
            ++ (record { type = quit; id = s.next_request_id; username = []; message = [] } ∷ []))
      × (try_get_request t ≡ (none, t))
unfolding handle_command eq_bytes add_request add_message try_get_request
quit_is_lost left s hi hc = (_, enter_line left quit_command s (omega arith) hi hc, refl, refl)
