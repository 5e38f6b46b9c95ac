-- ===== src/Worker/Uploads/Accounted.antt =====
-- An upload leaves no object in the bucket that no row counts, also where other requests delete its blob
-- while it is in flight.
use sendself.Base.{
  ℕ, Bool, true, false, not, ◌&&◌, ◌≡◌, refl, inl, inr, none, some, List, Text, str_eq, str_eq_refl,
  All, All-filter, All-map, Bool-cases, arith, ltb, ◌==◌, ◌⊎◌,
}
use sendself.Worker.Tables.{BlobRow, Object}
use sendself.Worker.Db.{blob_storage_key}
use sendself.Worker.Blobs.{Store, reserve_blob}
use sendself.Worker.Uploads.{
  Transfer, PutResult, put_ok, put_failed, replaced, put_object, discard_upload, finish_upload,
  transfer, is_exceeded, max_upload_size,
}
use sendself.Worker.Uploads.Counted.{
  IsCounted, IsAccounted, is_upload, Counted, recorded-IsAccounted, reserved-IsAccounted,
  discarded-IsAccounted,
}

-- The size under which a write leaves its object, if any.
abbrev size_of_put : PutResult → ℕ
size_of_put (put_ok n) = n
size_of_put (put_failed none) = 0
size_of_put (put_failed (some n)) = n

PutResult-cases : (p : PutResult) → ((n : ℕ) × (p ≡ put_ok n)) ⊎ ((l : _) × (p ≡ put_failed l))
PutResult-cases (put_ok n) = inl (n, refl)
PutResult-cases (put_failed l) = inr (l, refl)

module _ (group key : Text) where
  spare :
      (n : ℕ) (rows : List BlobRow) (objects : List Object)
      → All (Counted (λ o. false) rows) objects
      → All (Counted (is_upload group key n) rows) objects
  spare n rows =
      All-map (Counted (λ o. false) rows) (Counted (is_upload group key n) rows)
        λ o h. ground (arith, h)

  replaced-Counted :
      (n : ℕ) (rows : List BlobRow) (objects : List Object)
      → All (Counted (λ o. false) rows) objects
      → All (Counted (is_upload group key n) rows) (replaced (blob_storage_key group key) n objects)
  unfolding replaced
  replaced-Counted n rows objects h = (
    ground (arith, str_eq_refl (blob_storage_key group key)),
    All-filter (Counted (is_upload group key n) rows)
        (λ (o : Object). not (str_eq o.storage_key (blob_storage_key group key))) objects
        (spare n rows objects h),
  )

  put-IsCounted :
      (p : PutResult) (s : Store)
      → IsAccounted s
      → IsCounted
          (is_upload group key (size_of_put p))
          (record s { objects = put_object (blob_storage_key group key) p s.objects })
  unfolding put_object
  put-IsCounted (put_ok n) s h = record {
    objects = replaced-Counted n s.rows s.objects h.objects;
    rows = h.rows;
  }
  put-IsCounted (put_failed none) s h = record {
    objects = spare 0 s.rows s.objects h.objects;
    rows = h.rows;
  }
  put-IsCounted (put_failed (some n)) s h = record {
    objects = replaced-Counted n s.rows s.objects h.objects;
    rows = h.rows;
  }

  module _ (claimed : Text → Text → Bool) (now : ℕ) (later : (now == 0) ≡ false) where
    finish_upload-IsAccounted :
        (t : Transfer) (s : Store)
        → IsCounted (is_upload group key (size_of_put t.put)) s
        → IsAccounted (finish_upload true claimed true group key now t s).1
    unfolding finish_upload discard_upload
    finish_upload-IsAccounted t s h =
        elim (Bool-cases (not (not (is_exceeded 0 t.chunks) && t.is_fixed_length))) [
          | inl a ↦ rw a (discarded-IsAccounted group key (size_of_put t.put) claimed s h)
          | inr a ↦ elim (PutResult-cases t.put) [
            | inr (l, c) ↦
                rw (a, c) (discarded-IsAccounted group key (size_of_put t.put) claimed s h)
            | inl (n, c) ↦ elim (Bool-cases (ltb max_upload_size n)) [
              | inl d ↦
                  rw (a, c, d) (discarded-IsAccounted group key (size_of_put t.put) claimed s h)
              | inr d ↦ rw (a, c, d) (recorded-IsAccounted group key n now s later (rw c at h))
            ]
          ]
        ]

    -- In a store that expires, whose bucket carries its deletes out and whose objects are each counted
    -- by a row, at least at its size, where no row is reserved for a deletion: an upload, at any time
    -- but 0, which is the mark of such a reservation, and whatever
    -- becomes of its streams and of the write, leaves every object counted by a row. What other
    -- requests do before the object is there keeps every object counted, and what they do after that
    -- keeps every object counted but that of the upload, which they may leave at its size without its
    -- row, as where one of them has deleted the blob between the two.
    pub transfer-IsAccounted :
        (length quota : ℕ) (t : Transfer) (s : Store)
        → ((u : Store) → IsAccounted u → IsAccounted (t.before u))
        → ((u : Store) (n : ℕ)
            → IsCounted (is_upload group key n) u
            → IsCounted (is_upload group key n) (t.meanwhile u))
        → IsAccounted s
        → IsAccounted (transfer true claimed true group key length quota now t s).1
    unfolding transfer
    transfer-IsAccounted length quota t s before meanwhile h =
        let kept : Store = record s { rows = (reserve_blob group key length quota now s.rows).1 } in
        let reserved : IsAccounted kept =
          reserved-IsAccounted group key length now quota s later h in
        let waited : Store = t.before kept in
        elim (Bool-cases (reserve_blob group key length quota now s.rows).0) [
          | inr e ↦ rw e reserved
          | inl e ↦ rw e (
              finish_upload-IsAccounted t
                (t.meanwhile (record waited {
                  objects = put_object (blob_storage_key group key) t.put waited.objects;
                }))
                (meanwhile _ (size_of_put t.put)
                  (put-IsCounted t.put waited (before kept reserved))))
        ]
