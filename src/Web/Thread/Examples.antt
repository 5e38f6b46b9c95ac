-- ===== src/Web/Thread/Examples.antt =====
-- The theorem on the thread, at a batch of two files, a text and a notice.
use sendself.Base.{ℕ, true, none, some, List, [], ◌∷◌, ◌≡◌, String, txt, sum_by, count, str_eq}
use sendself.Web.Thread.{LocalMessage, LocalEvent, chat_entries}
use sendself.Web.Thread.Drawn.{drawn, is_notice, chat_entries-drawn}

abbrev picked_file : String → ℕ → LocalMessage
picked_file id index = record {
  id = txt id;
  sender_device_id = txt "a";
  batch = some (record { id = txt "b"; index = index; count = 2 });
  text = none;
  created_at = 5;
}

abbrev sample_messages : List LocalMessage
sample_messages =
    picked_file "second" 1
    ∷ picked_file "first" 0
    ∷ record {
      id = txt "m";
      sender_device_id = txt "a";
      batch = none;
      text = some (txt "hi");
      created_at = 9;
    }
    ∷ []

abbrev sample_events : List LocalEvent
sample_events = record { id = txt "e"; created_at = 7 } ∷ []

chat_entries-drawn_example :
    (sum_by (drawn (λ m. str_eq m.id (txt "first"))) (chat_entries sample_messages sample_events)
      ≡ count (λ (m : LocalMessage). str_eq m.id (txt "first")) sample_messages)
    × (count (is_notice (λ e. true)) (chat_entries sample_messages sample_events)
        ≡ count (λ (e : LocalEvent). true) sample_events)
chat_entries-drawn_example =
    chat_entries-drawn (λ m. str_eq m.id (txt "first")) (λ e. true) sample_messages sample_events
