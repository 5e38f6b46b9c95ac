-- ===== src/Worker/Blobs/Claims.antt =====
-- `deleteUnclaimedBlobs` of apps/worker/src/blobs.ts: nothing claimed is lost, and no object is left
-- without its row, also where the bucket fails.
use sendself.Base.{
  ◌≡◌, refl, ◌∙◌, inl, inr, Bool, true, false, ◌&&◌, not, List, [], ◌∷◌, arith, Text, str_eq,
  str_eq_iff, any, filter, All, Bool-cases, and-true, any-filter_implied, filter-filter_implied,
  ◌==◌, map, batch_loop, length,
}
use sendself.Errors.{Result, ok, err}
use sendself.Worker.Tables.{BlobRow, Object}
use sendself.Worker.Db.{blob_storage_key}
use sendself.Worker.Blobs.{
  Store, BlobId, is_row, is_listed, id_of, is_reservable, reserve_rows, finish_round, delete_round,
  delete_rounds, delete_unclaimed_blobs, delete_objects, reserved_for_deletion,
}

-- The object is that of the row.
abbrev pub is_object_of : Object → BlobRow → Bool
is_object_of o u = str_eq o.storage_key (blob_storage_key u.group_id u.r2_key)

-- Every object of the bucket has a row that accounts for it.
abbrev pub IsAccounted : Store → Type 0
IsAccounted s = All (λ (o : Object). any (is_object_of o) s.rows ≡ true) s.objects

-- Where a blob's row is dropped, its object is deleted.
listed-object :
    (blobs : List BlobId) (o : Object) (u : BlobRow)
    → is_object_of o u ≡ true
    → is_listed blobs u ≡ true
    → any (λ (b : BlobId). str_eq o.storage_key (blob_storage_key b.group_id b.key)) blobs ≡ true
listed-object [] o u e h = cc
listed-object (b ∷ bs) o u e h = elim (Bool-cases (is_row b.group_id b.key u)) [
  | inl here ↦
      let (same_group, same_key) = and-true _ _ here in
      let g : u.group_id ≡ b.group_id = (str_eq_iff _ _).0 same_group in
      let k : u.r2_key ≡ b.key = (str_eq_iff _ _).0 same_key in
      let e' : str_eq o.storage_key (blob_storage_key b.group_id b.key) ≡ true = rw (← g, ← k) e in
      ground arith
  | inr later ↦ let ih = listed-object bs o u e in ground arith
]

module _ (bucket_up : List BlobId → Bool) (claimed : Text → Text → Bool) where
  any-reserve_rows :
      (blobs : List BlobId) (o : Object) (rows : List BlobRow)
      → any (is_object_of o) (reserve_rows bucket_up claimed blobs rows) ≡ any (is_object_of o) rows
  unfolding reserve_rows
  any-reserve_rows blobs o [] = refl
  any-reserve_rows blobs o (u ∷ us) = ground (arith, any-reserve_rows blobs o us)

  filter-reserve_rows :
      (blobs : List BlobId) (rows : List BlobRow)
      → filter
          (λ (u : BlobRow). claimed u.group_id u.r2_key)
          (reserve_rows bucket_up claimed blobs rows)
        ≡ filter (λ (u : BlobRow). claimed u.group_id u.r2_key) rows
  unfolding reserve_rows
  filter-reserve_rows blobs [] = refl
  filter-reserve_rows blobs (u ∷ us) = ground (arith, filter-reserve_rows blobs us)

  abbrev claimed_rows : List BlobRow → List BlobRow
  claimed_rows = filter λ (u : BlobRow). claimed u.group_id u.r2_key

  -- What a round reserves is unclaimed.
  listed_reserved :
      (blobs : List BlobId) (rows : List BlobRow) (u : BlobRow)
      → is_listed (map id_of (filter (is_reservable bucket_up claimed blobs) rows)) u ≡ true
      → claimed u.group_id u.r2_key ≡ false
  listed_reserved blobs [] u h = cc
  listed_reserved blobs (v ∷ vs) u h = elim (Bool-cases (is_reservable bucket_up claimed blobs v)) [
    | inr skipped ↦ listed_reserved blobs vs u (rw skipped at h)
    | inl taken ↦ elim (Bool-cases (is_row v.group_id v.r2_key u)) [
      | inl same ↦
          let (same_group, same_key) = and-true _ _ same in
          let g : u.group_id ≡ v.group_id = (str_eq_iff _ _).0 same_group in
          let k : u.r2_key ≡ v.r2_key = (str_eq_iff _ _).0 same_key in rw (g, k) (ground arith)
      | inr other ↦ listed_reserved blobs vs u (ground arith)
    ]
  ]

  abbrev Tidy : Store → Result (Unit {0}) × Store → Type 0
  Tidy s r = (claimed_rows r.1.rows ≡ claimed_rows s.rows) × IsAccounted r.1

  -- Where a row of the object stays, and the object with it, the store stays accounted for.
  All-kept :
      (blobs : List BlobId) (rows : List BlobRow) (objects : List Object)
      → All (λ (o : Object). any (is_object_of o) rows ≡ true) objects
      → All
          (λ (o : Object).
            any (is_object_of o) (
              filter
                (λ (u : BlobRow). not (is_listed blobs u && u.created_at == reserved_for_deletion))
                rows)
            ≡ true)
          (delete_objects blobs objects)
  unfolding delete_objects
  All-kept blobs rows [] h = tt
  All-kept blobs rows (o ∷ os) h =
      elim (Bool-cases
        (any (λ (b : BlobId). str_eq o.storage_key (blob_storage_key b.group_id b.key)) blobs)) [
          | inl gone ↦ rw gone (All-kept blobs rows os h.1)
          | inr kept ↦ rw kept (
            any-filter_implied
                  (λ (u : BlobRow).
                    not (is_listed blobs u && u.created_at == reserved_for_deletion))
                  (is_object_of o) (λ u e. ground (arith, listed-object blobs o u)) rows
                ∙ h.0,
            All-kept blobs rows os h.1,
          )
        ]

  finish_round-Tidy :
      (blobs : List BlobId) (s : Store)
      → ((u : BlobRow) → is_listed blobs u ≡ true → claimed u.group_id u.r2_key ≡ false)
      → IsAccounted s
      → Tidy s (finish_round bucket_up claimed blobs s)
  unfolding finish_round
  finish_round-Tidy [] s free h = (refl, h)
  finish_round-Tidy (b ∷ bs) s free h = elim (Bool-cases (bucket_up (b ∷ bs))) [
    | inr down ↦ rw down (refl, h)
    | inl up ↦ rw up (
      filter-filter_implied
          (λ (u : BlobRow). not (is_listed (b ∷ bs) u && u.created_at == reserved_for_deletion))
          (λ (u : BlobRow). claimed u.group_id u.r2_key) (λ u e. ground (arith, free u)) s.rows,
      All-kept (b ∷ bs) s.rows s.objects h,
    )
  ]

  All-reserve_rows :
      (blobs : List BlobId) (rows : List BlobRow) (objects : List Object)
      → All (λ (o : Object). any (is_object_of o) rows ≡ true) objects
      → All
          (λ (o : Object). any (is_object_of o) (reserve_rows bucket_up claimed blobs rows) ≡ true)
          objects
  All-reserve_rows blobs rows [] h = tt
  All-reserve_rows blobs rows (o ∷ os) h =
      (any-reserve_rows blobs o rows ∙ h.0, All-reserve_rows blobs rows os h.1)

  delete_round-Tidy :
      (blobs : List BlobId) (s : Store)
      → IsAccounted s
      → Tidy s (delete_round bucket_up claimed blobs s)
  unfolding delete_round
  delete_round-Tidy blobs s h =
      let (rows, accounted) =
        finish_round-Tidy (map id_of (filter (is_reservable bucket_up claimed blobs) s.rows))
          (record s { rows = reserve_rows bucket_up claimed blobs s.rows })
          (λ u. listed_reserved blobs s.rows u) (All-reserve_rows blobs s.rows s.objects h) in
      (rows ∙ filter-reserve_rows blobs s.rows, accounted)

  delete_rounds-Tidy :
      (rounds : List (List BlobId)) (s : Store)
      → IsAccounted s
      → Tidy s (delete_rounds bucket_up claimed rounds s)
  unfolding delete_rounds
  delete_rounds-Tidy [] s h = (refl, h)
  delete_rounds-Tidy (b ∷ bs) s h =
      go (delete_round bucket_up claimed b s) (delete_round-Tidy b s h)
        (delete_rounds-Tidy bs (delete_round bucket_up claimed b s).1)
    where
      go :
          (r : Result (Unit {0}) × Store)
          → Tidy s r
          → (IsAccounted r.1 → Tidy r.1 (delete_rounds bucket_up claimed bs r.1))
          → Tidy s (elim (r.0) as (λ x. Result (Unit {0}) × Store) [
            | ok u ↦ delete_rounds bucket_up claimed bs r.1
            | err e ↦ (err e, r.1)
          ])
      go (ok u, t) now later = ((later now.1).0 ∙ now.0, (later now.1).1)
      go (err e, t) now later = now

  -- Deleting blobs that nothing claims any more, in whatever batches and whether or not the bucket
  -- carries out the deletion of each batch, keeps every claimed row as it is and leaves no object without a row.
  pub delete_unclaimed_blobs-Tidy :
      (blobs : List BlobId) (s : Store)
      → IsAccounted s
      → (filter
            (λ (u : BlobRow). claimed u.group_id u.r2_key)
            (delete_unclaimed_blobs bucket_up claimed blobs s).1.rows
          ≡ filter (λ (u : BlobRow). claimed u.group_id u.r2_key) s.rows)
        × IsAccounted (delete_unclaimed_blobs bucket_up claimed blobs s).1
  unfolding delete_unclaimed_blobs
  delete_unclaimed_blobs-Tidy blobs s h =
      delete_rounds-Tidy (batch_loop (length blobs) 99 blobs) s h
