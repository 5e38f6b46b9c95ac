-- ===== src/Worker/Vault.antt =====
-- apps/worker/src/vault.ts: the vault of one space, its `vault_seq` and `vault_floor` in `groups`, its
-- rows of `vault_items`, and its blobs. Every statement on them names the space, so one space is
-- modelled; the sweep of all spaces is that of each.
pub mod Requests
pub mod Edits
pub mod Changes
pub mod Rows
pub mod Writes
pub mod Pages
pub mod Sample
pub mod Conflicts
pub mod Purged
pub mod Subtree
pub mod Moves
pub mod Examples
use sendself.Base.{
  ℕ, zero, suc, ◌-◌, max, Bool, true, false, ◌&&◌, ◌||◌, not, Option, none, some, List, [], ◌∷◌,
  ◌++◌, map, Text, str_eq, opt_eq, find, filter, any, count, take, length, ltb, ◌==◌, if◌then◌else◌,
  update_where, is_some, is_none, batch_loop, only, lookup_by, fold_max, contains,
}
use sendself.Shared.Vault.{VaultItem, vault_trash_ttl, vault_tombstone_ttl}
use sendself.Worker.Blobs.{Store, BlobId, delete_unclaimed_blobs}

-- A row of `vault_items`: an item, and when it was purged.
pub record VaultRow : Type 0 where
  pub item : VaultItem
  pub removed_at : Option ℕ

pub record Vault : Type 0 where
  pub seq : ℕ
  pub floor : ℕ
  pub rows : List VaultRow
  pub blobs : Store

abbrev pub row_id : VaultRow → Text
row_id r = r.item.id

-- `removed_at IS NULL`
abbrev pub is_live : VaultRow → Bool
is_live r = is_none r.removed_at

-- `WHERE id = ?`; the id is part of the table's primary key.
abbrev pub row_of : Text → List VaultRow → Option VaultRow
row_of = lookup_by row_id

-- The row as an item, where it is live.
abbrev pub live_item : Option VaultRow → Option VaultItem
live_item none = none
live_item (some r) = if is_live r then some r.item else none

unfoldable pub vault_item : Text → Vault → Option VaultItem
vault_item id v = live_item (row_of id v.rows)

-- `nextVaultSeq` and the UPDATE of one row that comes after it in its batch, which stamps the row with
-- the number taken.
abbrev pub stamped : ℕ → (VaultRow → VaultRow) → VaultRow → VaultRow
stamped seq f r = let s = f r in record s { item = record (s.item) { seq = seq } }

abbrev pub is_named : Text → (VaultRow → Bool) → VaultRow → Bool
is_named id p r = str_eq (row_id r) id && p r

unfoldable pub next_vault_seq : Vault → Vault
next_vault_seq v = record v { seq = suc v.seq }

unfoldable pub update_row : Text → (VaultRow → Bool) → (VaultRow → VaultRow) → Vault → Vault
update_row id p f v = record v { rows = update_where (is_named id p) (stamped v.seq f) v.rows }

-- `meta.changes`
unfoldable pub changes : Text → (VaultRow → Bool) → Vault → ℕ
changes id p v = count (is_named id p) v.rows

-- A row whose parent is in the tree.
abbrev pub is_under : List Text → VaultItem → Bool
is_under tree r = elim (r.parent_id) [ none ↦ false | some p ↦ contains p tree ]

abbrev pub is_new_child : List Text → VaultRow → Bool
is_new_child tree r = is_under tree r.item && not (contains (row_id r) tree)

-- `SUBTREE`: the recursion of `UNION`, which ends where a round finds no row that is not there yet.
-- Every round but the last adds a row, so that as many rounds as there are rows, and one, are enough.
unfoldable pub tree_rounds : ℕ → List VaultRow → List Text → List Text
tree_rounds zero rows tree = tree
tree_rounds (suc fuel) rows tree =
    let children = map row_id (filter (is_new_child tree) rows) in
    elim children [ [] ↦ tree | c ∷ cs ↦ tree_rounds fuel rows (c ∷ cs ++ tree) ]

unfoldable pub subtree : Text → List VaultRow → List Text
unfolding tree_rounds
subtree id rows = tree_rounds (suc (length rows)) rows (id ∷ [])

-- The SET of `tombstone`.
abbrev pub emptied : ℕ → VaultRow → VaultRow
emptied now r = record {
  item = record (r.item) {
    trashed_at = none;
    key_epoch = none;
    meta = none;
    meta_iv = none;
    blob_key = none;
    blob_size = 0;
    updated_at = now;
  };
  removed_at = some now;
}

-- `removed_at IS NULL` and the guard.
abbrev pub is_purgeable : (VaultRow → Bool) → VaultRow → Bool
is_purgeable guard r = is_live r && guard r

-- `nextVaultSeq` and `tombstone`, and whether a row changed.
unfoldable pub tombstone : Text → ℕ → (VaultRow → Bool) → Vault → Bool × Vault
unfolding next_vault_seq update_row changes
tombstone id now guard v =
    let taken = next_vault_seq v in
    (
      changes id (is_purgeable guard) taken == 1,
      update_row id (is_purgeable guard) (emptied now) taken,
    )

-- `VAULT_BLOBS.claimed`
abbrev pub is_claimed : Text → Vault → Text → Text → Bool
is_claimed group v g key =
    str_eq g group && any (λ r. opt_eq r.item.blob_key (some key) && is_live r) v.rows

abbrev pub blob_ids : Text → List (Option Text) → List BlobId
blob_ids group [] = []
blob_ids group (none ∷ keys) = blob_ids group keys
blob_ids group (some key ∷ keys) = record { group_id = group; key = key } ∷ blob_ids group keys

-- `deleteUnclaimedBlobs(…).catch(() => {})`
unfoldable pub drop_blobs : Bool → Text → List (Option Text) → Vault → Vault
drop_blobs bucket_up group keys v = record v {
  blobs =
      (delete_unclaimed_blobs (λ b. bucket_up) (is_claimed group v) (blob_ids group keys)
        v.blobs).1;
}

-- The walk: what is live of the item and of everything under it. It starts from nothing where the
-- item has no row.
unfoldable pub live_in_tree : Text → Vault → List VaultItem
unfolding subtree
live_in_tree id v =
    if is_some (row_of id v.rows)
    then map (λ (r : VaultRow). r.item)
        (filter (λ r. contains (row_id r) (subtree id v.rows) && is_live r) v.rows)
    else []

-- `trashed_at < ?`
abbrev pub is_expired : ℕ → VaultItem → Bool
is_expired before i = elim (i.trashed_at) [ none ↦ false | some t ↦ ltb t before ]

module _ (bucket_up : Bool) (group : Text) where
  -- The batch of one slice of the walk: the ids and the blobs of the rows it changed.
  unfoldable pub purge_slice : Text → ℕ → List VaultItem → Vault → List VaultItem × Vault
  unfolding tombstone subtree
  purge_slice root now [] v = ([], v)
  purge_slice root now (i ∷ is) v =
      let done = tombstone i.id now (λ r. contains (row_id r) (subtree root v.rows)) v in
      let rest = purge_slice root now is done.1 in (if done.0 then i ∷ rest.0 else rest.0, rest.1)

  -- The loop over the slices of `PURGE_BATCH_SIZE`, 40.
  unfoldable pub purge_slices : Text → ℕ → List (List VaultItem) → Vault → List Text × Vault
  unfolding purge_slice drop_blobs
  purge_slices root now [] v = ([], v)
  purge_slices root now (slice ∷ slices) v =
      let done = purge_slice root now slice v in
      let rest =
        purge_slices root now slices
          (drop_blobs bucket_up group (map (λ (i : VaultItem). i.blob_key) done.0) done.1) in
      (map (λ (i : VaultItem). i.id) done.0 ++ rest.0, rest.1)

  -- The loop of `purgeVaultItem`, on as many rounds as the fuel allows.
  unfoldable pub purge_vault_item : ℕ → ℕ → Text → Vault → Option (List Text) × Vault
  unfolding live_in_tree purge_slices batch_loop
  purge_vault_item zero now id v = (none, v)
  purge_vault_item (suc fuel) now id v =
      let found = live_in_tree id v in
      elim found [
        | [] ↦ (some [], v)
        | i ∷ is ↦
            let round = purge_slices id now (batch_loop (length (i ∷ is)) 39 (i ∷ is)) v in
            let rest = purge_vault_item fuel now id round.1 in
            (elim (rest.0) [ none ↦ none | some ids ↦ some (round.0 ++ ids) ], rest.1)
      ]

  unfoldable pub purge_expired_vault_item : ℕ → ℕ → ℕ → Text → Vault → Option (List Text) × Vault
  unfolding tombstone drop_blobs purge_vault_item
  purge_expired_vault_item fuel now expired_before id v =
      elim (only (λ r. is_live r && is_expired expired_before r.item) (row_of id v.rows)) [
        | none ↦ (some [], v)
        | some root ↦
            let claim =
              tombstone id now
                (λ r. is_expired expired_before r.item && opt_eq r.item.blob_key root.item.blob_key)
                v in
            let kept = drop_blobs bucket_up group (root.item.blob_key ∷ []) claim.1 in
            let rest = purge_vault_item fuel now id kept in
            if claim.0
            then (elim (rest.0) [ none ↦ none | some ids ↦ some (id ∷ ids) ], rest.1)
            else (some [], claim.1)
      ]

  unfoldable pub purge_all : ℕ → ℕ → ℕ → List Text → Vault → Vault
  unfolding purge_expired_vault_item
  purge_all fuel now expired_before [] v = v
  purge_all fuel now expired_before (id ∷ ids) v =
      purge_all fuel now expired_before ids
        (purge_expired_vault_item fuel now expired_before id v).1

  -- The sweep of the trash, where a purge takes two rounds, the second of which finds nothing, on as many rounds as the fuel allows; nothing where it runs out.
  unfoldable pub purge_trash : ℕ → ℕ → Vault → Option Vault
  unfolding purge_all
  purge_trash zero now v = none
  purge_trash (suc fuel) now v =
      let before = now - vault_trash_ttl in
      let expired =
        take 50 (filter (λ (r : VaultRow). is_expired before r.item && is_live r) v.rows) in
      elim expired [
        | [] ↦ some v
        | r ∷ rs ↦ purge_trash fuel now (purge_all 2 now before (map row_id (r ∷ rs)) v)
      ]

-- `removed_at < ?1`
abbrev pub is_forgotten : ℕ → VaultRow → Bool
is_forgotten before r = elim (r.removed_at) [ none ↦ false | some t ↦ ltb t before ]

-- The batch that forgets tombstones: the floor first.
unfoldable pub forget_tombstones : ℕ → Vault → Vault
forget_tombstones before v = record v {
  floor = fold_max v.floor (λ (r : VaultRow). r.item.seq) (filter (is_forgotten before) v.rows);
  rows = filter (λ r. not (is_forgotten before r)) v.rows;
}

unfoldable pub clean_up_vault : Bool → Text → ℕ → ℕ → Vault → Option Vault
unfolding purge_trash forget_tombstones
clean_up_vault bucket_up group fuel now v = elim (purge_trash bucket_up group fuel now v) [
  | none ↦ none
  | some u ↦ some (forget_tombstones (now - vault_tombstone_ttl) u)
]
