-- ===== src/Web/Thread/Drawn.antt =====
-- The thread draws every message and every notice once.
use sendself.Base.{
  ℕ, zero, suc, ◌+◌, ◌≤◌, Bool, false, ◌≡◌, refl, ◌∙◌, inl, inr, List, [], ◌∷◌, ◌++◌, map, length,
  order_by, insert_sorted, sum_by, count, count-append, Bool-cases, Option-cases, arith,
}
use sendself.Web.Thread.{
  LocalMessage, LocalEvent, ChatEntry, single, album, notice, same_batch, run_after, behind_run,
  index_before, run_entry, group_within, group_messages, time_before, notice_of, chat_entries,
}

module _ {A : Type 0} (before : A → A → Bool) where
  count-insert_sorted :
      (p : A → Bool) (x : A) (xs : List A) → count p (insert_sorted before x xs) ≡ count p (x ∷ xs)
  unfolding insert_sorted
  count-insert_sorted p x [] = refl
  count-insert_sorted p x (y ∷ ys) = ground (arith, count-insert_sorted p x ys)

  count-order_by : (p : A → Bool) (xs : List A) → count p (order_by before xs) ≡ count p xs
  unfolding order_by
  count-order_by p [] = refl
  count-order_by p (x ∷ xs) =
      ground (arith, count-insert_sorted p x (order_by before xs), count-order_by p xs)

  sum-insert_sorted :
      (f : A → ℕ) (x : A) (xs : List A) → sum_by f (insert_sorted before x xs) ≡ f x + sum_by f xs
  unfolding insert_sorted
  sum-insert_sorted f x [] = refl
  sum-insert_sorted f x (y ∷ ys) = ground (arith, sum-insert_sorted f x ys)

  sum-order_by : (f : A → ℕ) (xs : List A) → sum_by f (order_by before xs) ≡ sum_by f xs
  unfolding order_by
  sum-order_by f [] = refl
  sum-order_by f (x ∷ xs) =
      omega (arith, sum-insert_sorted f x (order_by before xs), sum-order_by f xs)

-- The messages of an entry that a test picks.
abbrev pub drawn : (LocalMessage → Bool) → ChatEntry → ℕ
drawn p (single key m) = count p (m ∷ [])
drawn p (album key ms expected) = count p ms
drawn p (notice key e) = 0

abbrev pub is_notice : (LocalEvent → Bool) → ChatEntry → Bool
is_notice q (notice key e) = q e
is_notice q _ = false

run_split :
    (p : LocalMessage → Bool) (first : LocalMessage) (list : List LocalMessage)
    → count p (run_after first list) + count p (behind_run first list) ≡ count p list
unfolding run_after behind_run
run_split p first [] = refl
run_split p first (m ∷ ms) = elim (Bool-cases (same_batch first m)) [
  | inl e ↦ rw e (ground (arith, run_split p first ms))
  | inr e ↦ rw e (ground arith)
]

length-behind_run_le :
    (first : LocalMessage) (list : List LocalMessage) → length (behind_run first list) ≤ length list
unfolding behind_run
length-behind_run_le first [] = omega arith
length-behind_run_le first (m ∷ ms) = elim (Bool-cases (same_batch first m)) [
  | inl e ↦ rw e (omega (arith, length-behind_run_le first ms))
  | inr e ↦ rw e (omega arith)
]

drawn-run_entry :
    (p : LocalMessage → Bool) (first : LocalMessage) (expected : ℕ) (run : List LocalMessage)
    → drawn p (run_entry first expected run) ≡ count p (first ∷ run)
unfolding run_entry
drawn-run_entry p first expected [] = refl
drawn-run_entry p first expected (m ∷ ms) = count-order_by index_before p (first ∷ m ∷ ms)

drawn-group_within :
    (p : LocalMessage → Bool) (fuel : ℕ) (list : List LocalMessage)
    → length list ≤ fuel
    → sum_by (drawn p) (group_within fuel list) ≡ count p list
unfolding group_within
drawn-group_within p zero [] l = refl
drawn-group_within p zero (m ∷ ms) l = absurd (omega (arith, l))
drawn-group_within p (suc fuel) [] l = refl
drawn-group_within p (suc fuel) (first ∷ list) l = elim (Option-cases first.batch) [
  | inl e ↦ rw e (ground (arith, drawn-group_within p fuel list (omega (arith, l))))
  | inr (b, e) ↦
      let rest =
        drawn-group_within p fuel (behind_run first list)
          (omega (arith, l, length-behind_run_le first list)) in
      let entry = drawn-run_entry p first b.count (run_after first list) in
      let split = run_split p first list in rw (e, rest, entry) (ground (arith, split))
]

notices-group_within :
    (q : LocalEvent → Bool) (fuel : ℕ) (list : List LocalMessage)
    → count (is_notice q) (group_within fuel list) ≡ 0
unfolding group_within
notices-group_within q zero list = refl
notices-group_within q (suc fuel) [] = refl
notices-group_within q (suc fuel) (first ∷ list) = elim (Option-cases first.batch) [
  | inl e ↦ rw e (notices-group_within q fuel list)
  | inr (b, e) ↦
      rw (e, no_notice (run_after first list) b.count)
        (notices-group_within q fuel (behind_run first list))
]
  where
    no_notice :
        (run : List LocalMessage) (expected : ℕ)
        → is_notice q (run_entry first expected run) ≡ false
    no_notice [] expected = refl
    no_notice (m ∷ ms) expected = refl

drawn-notices :
    (p : LocalMessage → Bool) (events : List LocalEvent)
    → sum_by (drawn p) (map notice_of events) ≡ 0
drawn-notices p [] = refl
drawn-notices p (e ∷ es) = omega (arith, drawn-notices p es)

count-notices :
    (q : LocalEvent → Bool) (events : List LocalEvent)
    → count (is_notice q) (map notice_of events) ≡ count q events
count-notices q [] = refl
count-notices q (e ∷ es) = ground (arith, count-notices q es)

sum-append {ℓ} :
    {A : Type ℓ} (f : A → ℕ) (xs ys : List A) → sum_by f (xs ++ ys) ≡ sum_by f xs + sum_by f ys
sum-append f [] ys = omega arith
sum-append f (x ∷ xs) ys = omega (arith, sum-append f xs ys)

-- Whichever messages and notices are picked, the thread draws each of them as often as it is in the two
-- lists: folding runs into albums, sorting an album and merging the notices in loses none and draws
-- none twice.
pub chat_entries-drawn :
    (p : LocalMessage → Bool) (q : LocalEvent → Bool) (list : List LocalMessage)
    (events : List LocalEvent)
    → (sum_by (drawn p) (chat_entries list events) ≡ count p list)
      × (count (is_notice q) (chat_entries list events) ≡ count q events)
unfolding chat_entries group_messages
chat_entries-drawn p q list [] = (
  drawn-group_within p (length list) list (omega arith),
  notices-group_within q (length list) list,
)
chat_entries-drawn p q list (e ∷ es) =
    let entries = group_within (length list) list in
    let notices = map notice_of (e ∷ es) in
    (
      sum-order_by time_before (drawn p) (entries ++ notices)
          ∙ sum-append (drawn p) entries notices
          ∙ omega (
            arith,
            drawn-group_within p (length list) list (omega arith),
            drawn-notices p (e ∷ es),
          ),
      count-order_by time_before (is_notice q) (entries ++ notices)
          ∙ count-append (is_notice q) entries notices
          ∙ omega (arith, notices-group_within q (length list) list, count-notices q (e ∷ es)),
    )
