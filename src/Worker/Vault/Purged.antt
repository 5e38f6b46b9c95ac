-- ===== src/Worker/Vault/Purged.antt =====
-- The purge of an item ends in its second round, and leaves nothing of its tree alive.
use sendself.Base.{
  ℕ, Bool, false, not, ◌&&◌, ◌≡◌, List, [], ◌∷◌, ◌++◌, Text, any, filter, map, contains,
  update_where,
}
use sendself.Shared.Vault.{VaultItem}
use sendself.Worker.Vault.{Vault, VaultRow, row_id, is_live, stamped, emptied, subtree}

-- The rows after the tombstone of an item: the UPDATE of its row.
module _ (p : VaultRow → Bool) (n now : ℕ) where
  abbrev after : List VaultRow → List VaultRow
  after = update_where p (stamped n (emptied now))

-- What is live in a tree, and not among the items that are still to be purged.
abbrev is_missed : List Text → List Text → VaultRow → Bool
is_missed tree pending r =
    is_live r && contains (row_id r) tree && not (contains (row_id r) pending)

abbrev item_ids : List VaultItem → List Text
item_ids = map (λ (i : VaultItem). i.id)

abbrev all_ids : List (List VaultItem) → List Text
all_ids [] = []
all_ids (slice ∷ slices) = item_ids slice ++ all_ids slices

-- The tree is what it was, and nothing live in it is missed.
abbrev IsLeft : Text → List Text → List Text → Vault → Type 0
IsLeft root tree pending v =
    (subtree root v.rows ≡ tree) × (any (is_missed tree pending) v.rows ≡ false)

abbrev is_walked : List Text → VaultRow → Bool
is_walked tree r = contains (row_id r) tree && is_live r

abbrev walked : List Text → List VaultRow → List VaultItem
walked tree rows = map (λ (r : VaultRow). r.item) (filter (is_walked tree) rows)

-- A live row with one of the ids.
abbrev is_alive_in : List Text → VaultRow → Bool
is_alive_in ids r = is_live r && contains (row_id r) ids
