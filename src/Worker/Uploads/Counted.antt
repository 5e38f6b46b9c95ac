-- ===== src/Worker/Uploads/Counted.antt =====
-- What counts the objects of a bucket that expires, and how the operations on its table keep it.
use sendself.Base.{
  ℕ, ◌+◌, max, Bool, true, false, not, ◌&&◌, ◌||◌, ◌≡◌, refl, sym, ap₂, ◌∙◌, subst, inl, inr, List,
  [], ◌∷◌, Text, str_eq, str_eq_iff, any, any-append, update_where, All, All-filter, All-map,
  All-append, All-update_where, Bool-cases, and-true, arith, leb, ◌==◌,
}
use sendself.Worker.Tables.{BlobRow, Object}
use sendself.Worker.Db.{blob_storage_key}
use sendself.Worker.Blobs.{
  Store, is_row, is_other, total, size_of, may_refresh, refreshed, new_row, upsert, reserve_blob,
  record_blob, forget_blob, delete_objects, delete_expiring, delete_blob, reserved_for_deletion,
}

-- The row is the object's, and counts at least its size.
abbrev pub counts : Object → BlobRow → Bool
counts o u = str_eq o.storage_key (blob_storage_key u.group_id u.r2_key) && leb o.size u.size

-- The rows of a store that expires are never reserved for a deletion.
abbrev pub IsOpen : BlobRow → Type 0
IsOpen u = (u.created_at == reserved_for_deletion) ≡ false

abbrev pub Counted : (Object → Bool) → List BlobRow → Object → Type 0
Counted spared rows o = (spared o || any (counts o) rows) ≡ true

-- Every object that is not spared is counted by a row.
pub record IsCounted (spared : Object → Bool) (s : Store) : Type 0 where
  pub objects : All (Counted spared s.rows) s.objects
  pub rows : All IsOpen s.rows

-- Every object of the bucket is counted by a row.
abbrev pub IsAccounted : Store → Type 0
IsAccounted = IsCounted λ o. false

-- The object of an upload, of at most a size.
abbrev pub is_upload : Text → Text → ℕ → Object → Bool
is_upload group key n o = str_eq o.storage_key (blob_storage_key group key) && leb o.size n

-- What counts an object whatever rows there are goes on to do so.
recounted :
    (spared : Object → Bool) (rows rows' : List BlobRow)
    → ((o : Object) → any (counts o) rows ≡ true → any (counts o) rows' ≡ true)
    → (objects : List Object) → All (Counted spared rows) objects
    → All (Counted spared rows') objects
recounted spared rows rows' f =
    All-map (Counted spared rows) (Counted spared rows') λ o h. ground (arith, f o, h)

same_key :
    (group key : Text) (u : BlobRow)
    → is_row group key u ≡ true
    → blob_storage_key u.group_id u.r2_key ≡ blob_storage_key group key
same_key group key u e =
    let parts = and-true (str_eq u.group_id group) (str_eq u.r2_key key) e in
    ap₂ blob_storage_key ((str_eq_iff u.group_id group).0 parts.0)
      ((str_eq_iff u.r2_key key).0 parts.1)

module _ (group key : Text) (size now : ℕ) where
  refresh-counts :
      (o : Object) (rows : List BlobRow)
      → any (counts o) rows ≡ true
      → any (counts o) (update_where (may_refresh group key) (refreshed size now) rows) ≡ true
  refresh-counts o [] h = cc
  refresh-counts o (u ∷ us) h = ground (arith, refresh-counts o us, h)

  upsert-counts :
      (o : Object) (rows : List BlobRow)
      → any (counts o) rows ≡ true
      → any (counts o) (upsert group key size now rows).1 ≡ true
  unfolding upsert
  upsert-counts o rows h = elim (Bool-cases (any (is_row group key) rows)) [
    | inl e ↦ rw e (refresh-counts o rows h)
    | inr e ↦ rw e (any-append (counts o) rows (new_row group key size now ∷ []) ∙ rw h refl)
  ]

  upsert-IsOpen :
      (rows : List BlobRow)
      → (now == reserved_for_deletion) ≡ false
      → All IsOpen rows
      → All IsOpen (upsert group key size now rows).1
  unfolding upsert
  upsert-IsOpen rows n h = elim (Bool-cases (any (is_row group key) rows)) [
    | inl e ↦
        rw e
          (All-update_where IsOpen (may_refresh group key) (refreshed size now) (λ u q k. n) rows h)
    | inr e ↦ rw e (All-append IsOpen rows (new_row group key size now ∷ []) h (n, tt))
  ]

  -- The row that an upsert leaves counts the blob.
  refreshed_own :
      (o : Object) (rows : List BlobRow)
      → is_upload group key size o ≡ true
      → All IsOpen rows
      → any (is_row group key) rows ≡ true
      → any (counts o) (update_where (may_refresh group key) (refreshed size now) rows) ≡ true
  refreshed_own o [] h k e = cc
  refreshed_own o (u ∷ us) h k e = elim (Bool-cases (is_row group key u)) [
    | inl q ↦
        let same : str_eq o.storage_key (blob_storage_key u.group_id u.r2_key) ≡ true =
          subst (λ y. str_eq o.storage_key y ≡ true) (sym (same_key group key u q))
            (and-true (str_eq o.storage_key (blob_storage_key group key)) (leb o.size size) h).0 in
        rw (q, k.0) (ground (arith, same, h))
    | inr q ↦ ground (arith, q, refreshed_own o us h k.1, e)
  ]

  upsert_own :
      (o : Object) (rows : List BlobRow)
      → is_upload group key size o ≡ true
      → All IsOpen rows
      → any (counts o) (upsert group key size now rows).1 ≡ true
  unfolding upsert
  upsert_own o rows h k = elim (Bool-cases (any (is_row group key) rows)) [
    | inl e ↦ rw e (refreshed_own o rows h k e)
    | inr e ↦
        rw e (any-append (counts o) rows (new_row group key size now ∷ []) ∙ ground (arith, h))
  ]

  pub recorded-IsAccounted :
      (s : Store)
      → (now == reserved_for_deletion) ≡ false
      → IsCounted (is_upload group key size) s
      → IsAccounted (record s { rows = record_blob group key size now s.rows })
  unfolding record_blob
  recorded-IsAccounted s n h = record {
    objects =
        All-map (Counted (is_upload group key size) s.rows)
          (Counted (λ o. false) (upsert group key size now s.rows).1)
          (λ o c. elim (Bool-cases (is_upload group key size o)) [
            | inl own ↦ upsert_own o s.rows own h.rows
            | inr other ↦ upsert-counts o s.rows (rw other at c)
          ])
          s.objects h.objects;
    rows = upsert-IsOpen s.rows n h.rows;
  }

  pub reserved-IsAccounted :
      (quota : ℕ) (s : Store)
      → (now == reserved_for_deletion) ≡ false
      → IsAccounted s
      → IsAccounted (record s { rows = (reserve_blob group key size quota now s.rows).1 })
  unfolding reserve_blob
  reserved-IsAccounted quota s n h =
      elim (Bool-cases
        (leb (total (is_other group key) s.rows + max size (size_of group key s.rows)) quota)) [
          | inr e ↦ rw e h
          | inl e ↦ rw e (record {
            objects =
                recounted (λ o. false) s.rows (upsert group key size now s.rows).1
                  (λ o. upsert-counts o s.rows) s.objects h.objects;
            rows = upsert-IsOpen s.rows n h.rows;
          })
        ]

module _ (group key : Text) where
  -- What a deletion leaves has its row left.
  kept_row :
      (o : Object) (rows : List BlobRow)
      → str_eq o.storage_key (blob_storage_key group key) ≡ false
      → any (counts o) rows ≡ true
      → any (counts o) (forget_blob group key rows) ≡ true
  unfolding forget_blob
  kept_row o [] d h = cc
  kept_row o (u ∷ us) d h = elim (Bool-cases (is_row group key u)) [
    | inl e ↦
        let other : str_eq o.storage_key (blob_storage_key u.group_id u.r2_key) ≡ false =
          subst (λ y. str_eq o.storage_key y ≡ false) (sym (same_key group key u e)) d in
        rw e (kept_row o us d (rw other at h))
    | inr e ↦ elim (Bool-cases (counts o u)) [
      | inl n ↦ rw (e, n) refl
      | inr n ↦ rw (e, n) (kept_row o us d (rw n at h))
    ]
  ]

  module _ (spared spared' : Object → Bool)
      (still : (o : Object)
        → str_eq o.storage_key (blob_storage_key group key) ≡ false
        → spared o ≡ true
        → spared' o ≡ true) where
    deleted :
        (rows : List BlobRow) (objects : List Object)
        → All (Counted spared rows) objects
        → All
            (Counted spared' (forget_blob group key rows))
            (delete_objects (record { group_id = group; key = key } ∷ []) objects)
    unfolding delete_objects
    deleted rows [] h = tt
    deleted rows (o ∷ os) h =
        elim (Bool-cases (str_eq o.storage_key (blob_storage_key group key))) [
          | inl e ↦ rw e (deleted rows os h.1)
          | inr e ↦ rw e (ground (arith, still o e, kept_row o rows e, h.0), deleted rows os h.1)
        ]

    deleted_spared :
        (claimed : Text → Text → Bool) (s : Store)
        → IsCounted spared s
        → IsCounted spared' (delete_blob true claimed true group key s).1
    unfolding delete_blob delete_expiring forget_blob
    deleted_spared claimed s h = record {
      objects = deleted s.rows s.objects h.objects;
      rows = All-filter IsOpen (λ u. not (is_row group key u)) s.rows h.rows;
    }

  -- A deletion of any blob keeps what is counted and what is spared.
  pub delete_blob-IsCounted :
      (spared : Object → Bool) (claimed : Text → Text → Bool) (s : Store)
      → IsCounted spared s
      → IsCounted spared (delete_blob true claimed true group key s).1
  delete_blob-IsCounted spared = deleted_spared spared spared λ o d h. h

  pub discarded-IsAccounted :
      (n : ℕ) (claimed : Text → Text → Bool) (s : Store)
      → IsCounted (is_upload group key n) s
      → IsAccounted (delete_blob true claimed true group key s).1
  discarded-IsAccounted n =
      deleted_spared (is_upload group key n) (λ o. false) λ o d h. cc (rw d at h)
