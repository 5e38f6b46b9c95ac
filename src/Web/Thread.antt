-- ===== src/Web/Thread.antt =====
-- apps/web/src/state/grouping.ts: the thread as the chat draws it, from the messages and the notices of
-- a space. A message has the fields that the thread is made by.
pub mod Drawn
pub mod Examples
use sendself.Base.{
  ℕ, zero, suc, Bool, true, false, ◌&&◌, Option, none, some, List, [], ◌∷◌, ◌++◌, map, Text, txt,
  str_eq, length, ltb, order_by, if◌then◌else◌, find, is_some,
}

pub record Batch : Type 0 where
  pub id : Text
  pub index : ℕ
  pub count : ℕ

pub record LocalMessage : Type 0 where
  pub id : Text
  pub sender_device_id : Text
  pub batch : Option Batch
  pub text : Option Text
  pub created_at : ℕ

pub record LocalEvent : Type 0 where
  pub id : Text
  pub created_at : ℕ

-- With the entry's key first; `messages` of an album is never empty.
pub data ChatEntry : Type 0 where
  single : Text → LocalMessage → ChatEntry
  album : Text → List LocalMessage → ℕ → ChatEntry
  notice : Text → LocalEvent → ChatEntry

unfoldable pub entry_time : ChatEntry → ℕ
entry_time (single key m) = m.created_at
entry_time (album key [] expected) = 0
entry_time (album key (m ∷ ms) expected) = m.created_at
entry_time (notice key e) = e.created_at

unfoldable pub same_batch : LocalMessage → LocalMessage → Bool
same_batch a b = elim (a.batch) [
  | none ↦ false
  | some s ↦ elim (b.batch) [
    | none ↦ false
    | some t ↦ str_eq s.id t.id && str_eq a.sender_device_id b.sender_device_id
  ]
]

-- The messages of the run that `first` opens, and those behind it.
unfoldable pub run_after : LocalMessage → List LocalMessage → List LocalMessage
unfolding same_batch
run_after first [] = []
run_after first (m ∷ ms) =
    let rest = run_after first ms in if same_batch first m then m ∷ rest else []

unfoldable pub behind_run : LocalMessage → List LocalMessage → List LocalMessage
unfolding same_batch
behind_run first [] = []
behind_run first (m ∷ ms) =
    let rest = behind_run first ms in if same_batch first m then rest else m ∷ ms

abbrev index_of : LocalMessage → ℕ
index_of m = elim (m.batch) [ none ↦ 0 | some b ↦ b.index ]

abbrev pub index_before : LocalMessage → LocalMessage → Bool
index_before a b = ltb (index_of a) (index_of b)

-- A run of one is not an album.
unfoldable pub run_entry : LocalMessage → ℕ → List LocalMessage → ChatEntry
unfolding order_by
run_entry first expected [] = single first.id first
run_entry first expected (m ∷ ms) =
    album (txt "batch:" ++ first.id) (order_by index_before (first ∷ m ∷ ms)) expected

-- The loop, on the number of messages as fuel: a round takes at least one.
unfoldable pub group_within : ℕ → List LocalMessage → List ChatEntry
unfolding run_after behind_run run_entry
group_within zero list = []
group_within (suc fuel) [] = []
group_within (suc fuel) (first ∷ list) = elim (first.batch) [
  | none ↦ single first.id first ∷ group_within fuel list
  | some b ↦
      run_entry first b.count (run_after first list) ∷ group_within fuel (behind_run first list)
]

unfoldable pub group_messages : List LocalMessage → List ChatEntry
unfolding group_within
group_messages list = group_within (length list) list

abbrev pub time_before : ChatEntry → ChatEntry → Bool
time_before a b = ltb (entry_time a) (entry_time b)

abbrev pub notice_of : LocalEvent → ChatEntry
notice_of e = notice (txt "event:" ++ e.id) e

unfoldable pub chat_entries : List LocalMessage → List LocalEvent → List ChatEntry
unfolding group_messages order_by entry_time
chat_entries list [] = group_messages list
chat_entries list (e ∷ es) = order_by time_before (group_messages list ++ map notice_of (e ∷ es))

-- The first text of an album.
unfoldable pub album_caption : List LocalMessage → Option Text
album_caption [] = none
album_caption (m ∷ ms) =
    let rest = album_caption ms in
    elim (m.text) [ none ↦ rest | some t ↦ if ltb 0 (length t) then some t else rest ]
