-- ===== src/Worker/Blobs.antt =====
-- apps/worker/src/blobs.ts: the blobs of a space in a bucket, and the accounting that caps them. One
-- `Store` is the accounting table and the bucket that go together; what claims a blob is a test on its
-- space and key that the tables of its owner give (`BlobStore.claimed`).
pub mod Quota
pub mod History
pub mod Claims
pub mod Examples
use sendself.Base.{
  ℕ, zero, suc, ◌+◌, max, Bool, true, false, ◌&&◌, ◌||◌, not, Option, none, some, List, [], ◌∷◌,
  ◌++◌, map, Text, str_eq, find, filter, any, leb, ltb, ◌==◌, if◌then◌else◌, update_where, sum_by,
  take, length, order_by, batch_loop,
}
use sendself.Errors.{Result, ok, err, internal}
use sendself.Worker.Tables.{BlobRow, Object}
use sendself.Worker.Db.{blob_storage_key}

pub record Store : Type 0 where
  pub rows : List BlobRow
  pub objects : List Object

-- `{ groupId, key }`
pub record BlobId : Type 0 where
  pub group_id : Text
  pub key : Text

-- `RESERVED_FOR_DELETION`
abbrev pub reserved_for_deletion : ℕ
reserved_for_deletion = 0

abbrev pub is_row : Text → Text → BlobRow → Bool
is_row group key u = str_eq u.group_id group && str_eq u.r2_key key

abbrev pub is_other : Text → Text → BlobRow → Bool
is_other group key u = str_eq u.group_id group && not (str_eq u.r2_key key)

-- `SUM(size)` of the rows that a test picks.
abbrev pub total : (BlobRow → Bool) → List BlobRow → ℕ
total p rows = sum_by (λ (u : BlobRow). if p u then u.size else 0) rows

-- `ON CONFLICT DO UPDATE … WHERE created_at != RESERVED_FOR_DELETION`
abbrev pub may_refresh : Text → Text → BlobRow → Bool
may_refresh group key u = is_row group key u && not (u.created_at == reserved_for_deletion)

abbrev pub refreshed : ℕ → ℕ → BlobRow → BlobRow
refreshed size now u = record u { size = max u.size size; created_at = now }

abbrev pub new_row : Text → Text → ℕ → ℕ → BlobRow
new_row group key size now = record {
  group_id = group;
  r2_key = key;
  size = size;
  created_at = now;
}

-- The upsert of one row, and whether it changed one.
unfoldable pub upsert : Text → Text → ℕ → ℕ → List BlobRow → Bool × List BlobRow
upsert group key size now rows =
    if any (is_row group key) rows
    then (
      any (may_refresh group key) rows,
      update_where (may_refresh group key) (refreshed size now) rows,
    )
    else (true, rows ++ new_row group key size now ∷ [])

-- `(SELECT size FROM … WHERE group_id = ?1 AND r2_key = ?2)`, 0 where there is none.
unfoldable pub size_of : Text → Text → List BlobRow → ℕ
size_of group key rows = elim (find (is_row group key) rows) [ none ↦ 0 | some u ↦ u.size ]

unfoldable pub reserve_blob : Text → Text → ℕ → ℕ → ℕ → List BlobRow → Bool × List BlobRow
unfolding upsert size_of
reserve_blob group key size quota now rows =
    if leb (total (is_other group key) rows + max size (size_of group key rows)) quota
    then upsert group key size now rows
    else (false, rows)

unfoldable pub record_blob : Text → Text → ℕ → ℕ → List BlobRow → List BlobRow
unfolding upsert
record_blob group key size now rows = (upsert group key size now rows).1

pub blob_size : Text → Text → List BlobRow → Option ℕ
blob_size group key rows = elim (find (is_row group key) rows) [
  | none ↦ none
  | some u ↦ some u.size
]

unfoldable pub forget_blob : Text → Text → List BlobRow → List BlobRow
forget_blob group key rows = filter (λ u. not (is_row group key u)) rows

-- `bucket.delete`
unfoldable pub delete_objects : List BlobId → List Object → List Object
delete_objects blobs objects =
    filter
      (λ (o : Object).
        not (any (λ (b : BlobId). str_eq o.storage_key (blob_storage_key b.group_id b.key)) blobs))
      objects

abbrev pub is_listed : List BlobId → BlobRow → Bool
is_listed blobs u = any (λ (b : BlobId). is_row b.group_id b.key u) blobs

abbrev pub id_of : BlobRow → BlobId
id_of u = record { group_id = u.group_id; key = u.r2_key }

module _ (bucket_up : Bool) where
  -- A store whose bucket expires: the row goes first.
  unfoldable pub delete_expiring : Text → Text → Store → Result (Unit {0}) × Store
  unfolding forget_blob delete_objects
  delete_expiring group key s =
      let t = record s { rows = forget_blob group key s.rows } in
      if bucket_up
      then (
        ok tt,
        record t {
          objects = delete_objects (record { group_id = group; key = key } ∷ []) s.objects;
        },
      )
      else (err internal, t)

-- Whether the bucket carries out a delete depends on the blobs, so that one of several batches may fail.
module _ (bucket_up : List BlobId → Bool) (claimed : Text → Text → Bool) where
  abbrev pub is_reservable : List BlobId → BlobRow → Bool
  is_reservable blobs u = is_listed blobs u && not (claimed u.group_id u.r2_key)

  -- The first batch: nothing may claim these rows from here on.
  pub reserve_rows : List BlobId → List BlobRow → List BlobRow
  reserve_rows blobs rows =
      update_where (is_reservable blobs)
        (λ (u : BlobRow). record u { created_at = reserved_for_deletion }) rows

  -- With what a round reserved, and the rows as the reservation left them.
  pub finish_round : List BlobId → Store → Result (Unit {0}) × Store
  unfolding delete_objects
  finish_round [] s = (ok tt, s)
  finish_round (b ∷ bs) s =
      if bucket_up (b ∷ bs)
      then (
        ok tt,
        record {
          rows =
              filter
                (λ (u : BlobRow).
                  not (is_listed (b ∷ bs) u && u.created_at == reserved_for_deletion))
                s.rows;
          objects = delete_objects (b ∷ bs) s.objects;
        },
      )
      else (err internal, s)

  -- One round of `deleteUnclaimedBlobs`: reserve, delete the objects, drop the rows.
  pub delete_round : List BlobId → Store → Result (Unit {0}) × Store
  unfolding reserve_rows finish_round
  delete_round blobs s =
      finish_round (map id_of (filter (is_reservable blobs) s.rows))
        (record s { rows = reserve_rows blobs s.rows })

  pub delete_rounds : List (List BlobId) → Store → Result (Unit {0}) × Store
  unfolding delete_round
  delete_rounds [] s = (ok tt, s)
  delete_rounds (b ∷ bs) s =
      let r = delete_round b s in elim (r.0) [ ok u ↦ delete_rounds bs r.1 | err e ↦ (err e, r.1) ]

  -- `SWEEP_BATCH_SIZE` is 100.
  pub delete_unclaimed_blobs : List BlobId → Store → Result (Unit {0}) × Store
  unfolding delete_rounds batch_loop
  delete_unclaimed_blobs blobs s = delete_rounds (batch_loop (length blobs) 99 blobs) s

module _ (bucket_up : Bool) where
  module _ (claimed : Text → Text → Bool) where
    unfoldable pub delete_blob : Bool → Text → Text → Store → Result (Unit {0}) × Store
    unfolding delete_expiring delete_unclaimed_blobs
    delete_blob expires group key s =
        if expires
        then delete_expiring bucket_up group key s
        else delete_unclaimed_blobs (λ b. bucket_up) claimed
            (record { group_id = group; key = key } ∷ []) s

    abbrev row_before : BlobRow → BlobRow → Bool
    row_before a b = ltb a.created_at b.created_at

    abbrev pub is_orphan : ℕ → BlobRow → Bool
    is_orphan older_than u = ltb u.created_at older_than && not (claimed u.group_id u.r2_key)

    -- `ORDER BY u.created_at ASC LIMIT ?2`
    pub orphans : ℕ → List BlobRow → List BlobId
    unfolding order_by
    orphans older_than rows =
        map id_of (take 100 (order_by row_before (filter (is_orphan older_than) rows)))

    -- One round of the sweep of a bucket that expires: the rows go, then their objects.
    sweep_expiring : List BlobId → Store → Result (Unit {0}) × Store
    unfolding delete_objects
    sweep_expiring blobs s =
        let t = record s { rows = filter (λ u. not (is_listed blobs u)) s.rows } in
        if bucket_up
        then (ok tt, record t { objects = delete_objects blobs s.objects })
        else (err internal, t)

    sweep_round : Bool → List BlobId → Store → Result (Unit {0}) × Store
    unfolding sweep_expiring delete_unclaimed_blobs
    sweep_round expires blobs s =
        if expires
        then sweep_expiring blobs s
        else delete_unclaimed_blobs (λ b. bucket_up) claimed blobs s

    -- The loop of `purgeOrphanBlobs`, on as many rounds as the fuel allows.
    pub purge_orphans : Bool → ℕ → ℕ → Store → Result (Unit {0}) × Store
    unfolding orphans sweep_round
    purge_orphans expires zero older_than s = (err internal, s)
    purge_orphans expires (suc fuel) older_than s =
        let blobs = orphans older_than s.rows in
        let r = sweep_round expires blobs s in
        elim blobs [
          | [] ↦ (ok tt, s)
          | b ∷ bs ↦ elim (r.0) [
            | ok u ↦ purge_orphans expires fuel older_than r.1
            | err e ↦ (err e, r.1)
          ]
        ]
