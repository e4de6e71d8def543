-- ===== src/Tests/Editor.antt =====
-- Lines typed at the client.
use leaky_chat.Prelude.{ℕ, ◌≡◌, arith, true, List, [], ◌∷◌, ok}
use leaky_chat.Ui.{Ui, process_input}
use leaky_chat.Ui.Editing.{IsValid, process_input_ok}

abbrev pub blank : Ui
blank = record {
  running = true;
  requests = [];
  messages = [];
  selected_partner = [];
  input = [];
  cursor = 0;
  next_request_id = 1;
  released = 0;
}

abbrev halfway : Ui
halfway = record blank { input = 104 ∷ 105 ∷ []; cursor = 1 }

abbrev keys : List ℕ
keys = 127 ∷ 8 ∷ 120 ∷ 10 ∷ 121 ∷ []

process_input_ok_example : (t : Ui) × (process_input [] keys halfway ≡ ok t) × IsValid t
process_input_ok_example = process_input_ok [] keys halfway (record { inside = omega arith })
