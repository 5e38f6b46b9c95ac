-- ===== src/Worker/Blobs/Quota.antt =====
-- The accounting of apps/worker/src/blobs.ts: a reservation never takes a space past its quota.
use sendself.Base.{
  ℕ, ◌+◌, ◌≤◌, ◌<◌, max, ◌≡◌, refl, inl, inr, true, false, List, [], ◌∷◌, ◌++◌, arith, Text, str_eq,
  str_eq_refl, str_eq_iff, any, update_where, Bool-cases, sym, any-append, ◌∙◌, and-true, subst,
  leb,
}
use sendself.Worker.Tables.{BlobRow}
use sendself.Worker.Blobs.{
  is_row, is_other, total, may_refresh, refreshed, new_row, upsert, size_of, reserve_blob,
}

-- The primary key of the table: one row for each blob.
abbrev pub IsKeyed : List BlobRow → Type 0
IsKeyed [] = Unit {0}
IsKeyed (u ∷ us) = (any (is_row u.group_id u.r2_key) us ≡ false) × IsKeyed us

-- What a space holds.
abbrev pub held : Text → List BlobRow → ℕ
held group = total (λ (u : BlobRow). str_eq u.group_id group)

module _ (group key : Text) where
  held_split :
      (rows : List BlobRow)
      → held group rows ≡ total (is_other group key) rows + total (is_row group key) rows
  held_split [] = omega arith
  held_split (u ∷ us) = ground (arith, held_split us)

  total_of_absent :
      (rows : List BlobRow)
      → any (is_row group key) rows ≡ false
      → total (is_row group key) rows ≡ 0
  total_of_absent [] h = refl
  total_of_absent (u ∷ us) h = ground (arith, total_of_absent us)

  same_row :
      (u : BlobRow) (us : List BlobRow)
      → is_row group key u ≡ true
      → any (is_row u.group_id u.r2_key) us ≡ false
      → any (is_row group key) us ≡ false
  same_row u us e h =
      let (same_group, same_key) = and-true _ _ e in
      subst (λ g. any (is_row g key) us ≡ false) ((str_eq_iff _ _).0 same_group)
        (subst (λ k. any (is_row u.group_id k) us ≡ false) ((str_eq_iff _ _).0 same_key) h)

  total-size_of :
      (rows : List BlobRow) → IsKeyed rows → total (is_row group key) rows ≡ size_of group key rows
  unfolding size_of
  total-size_of [] h = refl
  total-size_of (u ∷ us) h = ground (arith, same_row u us, total_of_absent us, total-size_of us h.1)

  total_others-update :
      (size now : ℕ) (rows : List BlobRow)
      → total (is_other group key) (update_where (may_refresh group key) (refreshed size now) rows)
        ≡ total (is_other group key) rows
  total_others-update size now [] = refl
  total_others-update size now (u ∷ us) = ground (arith, total_others-update size now us)

  total_absent-update :
      (size now : ℕ) (rows : List BlobRow)
      → any (is_row group key) rows ≡ false
      → total (is_row group key) (update_where (may_refresh group key) (refreshed size now) rows)
        ≡ 0
  total_absent-update size now [] h = refl
  total_absent-update size now (u ∷ us) h = ground (arith, total_absent-update size now us)

  total_row-update :
      (size now : ℕ) (rows : List BlobRow)
      → IsKeyed rows
      → total (is_row group key) (update_where (may_refresh group key) (refreshed size now) rows)
        ≤ max size (size_of group key rows)
  unfolding size_of
  total_row-update size now [] h = omega arith
  total_row-update size now (u ∷ us) h =
      ground
        (arith, same_row u us, total_absent-update size now us, total_row-update size now us h.1)

  total_others-append :
      (size now : ℕ) (rows : List BlobRow)
      → total (is_other group key) (rows ++ new_row group key size now ∷ [])
        ≡ total (is_other group key) rows
  total_others-append size now [] = ground (arith, str_eq_refl key)
  total_others-append size now (u ∷ us) = ground (arith, total_others-append size now us)

  total_row-append :
      (size now : ℕ) (rows : List BlobRow)
      → any (is_row group key) rows ≡ false
      → total (is_row group key) (rows ++ new_row group key size now ∷ []) ≡ size
  total_row-append size now [] h = ground (arith, str_eq_refl key, str_eq_refl group)
  total_row-append size now (u ∷ us) h = ground (arith, total_row-append size now us)

  upsert_totals :
      (size now : ℕ) (rows : List BlobRow)
      → IsKeyed rows
      → (total (is_other group key) (upsert group key size now rows).1
          ≡ total (is_other group key) rows)
        × (total (is_row group key) (upsert group key size now rows).1
            ≤ max size (size_of group key rows))
  unfolding upsert
  upsert_totals size now rows h = elim (Bool-cases (any (is_row group key) rows)) [
    | inl e ↦ rw e (total_others-update size now rows, total_row-update size now rows h)
    | inr e ↦
        rw e (total_others-append size now rows, omega (arith, total_row-append size now rows e))
  ]

  -- A reservation that is granted leaves the space within its quota, whatever it held before; one
  -- that the quota refuses changes nothing.
  pub held-reserve_blob :
      (size quota now : ℕ) (rows : List BlobRow)
      → IsKeyed rows
      → ((reserve_blob group key size quota now rows).0 ≡ true
          → held group (reserve_blob group key size quota now rows).1 ≤ quota)
        × (quota < total (is_other group key) rows + max size (size_of group key rows)
            → reserve_blob group key size quota now rows ≡ (false, rows))
  unfolding reserve_blob
  held-reserve_blob size quota now rows h =
      let totals = upsert_totals size now rows h in
      let split = held_split (upsert group key size now rows).1 in (ground arith, ground arith)

  any-update :
      (g k : Text) (size now : ℕ) (rows : List BlobRow)
      → any (is_row g k) (update_where (may_refresh group key) (refreshed size now) rows)
        ≡ any (is_row g k) rows
  any-update g k size now [] = refl
  any-update g k size now (u ∷ us) = ground (arith, any-update g k size now us)

  update-IsKeyed :
      (size now : ℕ) (rows : List BlobRow)
      → IsKeyed rows
      → IsKeyed (update_where (may_refresh group key) (refreshed size now) rows)
  update-IsKeyed size now [] h = tt
  update-IsKeyed size now (u ∷ us) h = elim (Bool-cases (may_refresh group key u)) [
    | inl e ↦
        rw e (any-update u.group_id u.r2_key size now us ∙ h.0, update-IsKeyed size now us h.1)
    | inr e ↦
        rw e (any-update u.group_id u.r2_key size now us ∙ h.0, update-IsKeyed size now us h.1)
  ]

  -- A row that is not the new one's stays the only one of its key.
  append-IsKeyed :
      (size now : ℕ) (rows : List BlobRow)
      → any (is_row group key) rows ≡ false
      → IsKeyed rows
      → IsKeyed (rows ++ new_row group key size now ∷ [])
  append-IsKeyed size now [] e h = (refl, tt)
  append-IsKeyed size now (u ∷ us) e h = (
    ground (
      arith,
      any-append (is_row u.group_id u.r2_key) us (new_row group key size now ∷ []),
      str_eq_iff group u.group_id,
      str_eq_iff u.group_id group,
      str_eq_iff key u.r2_key,
      str_eq_iff u.r2_key key,
    ),
    append-IsKeyed size now us (ground arith) h.1,
  )

  pub upsert-IsKeyed :
      (size now : ℕ) (rows : List BlobRow)
      → IsKeyed rows
      → IsKeyed (upsert group key size now rows).1
  unfolding upsert
  upsert-IsKeyed size now rows h = elim (Bool-cases (any (is_row group key) rows)) [
    | inl e ↦ rw e (update-IsKeyed size now rows h)
    | inr e ↦ rw e (append-IsKeyed size now rows e h)
  ]

  held_other-update :
      (other : Text)
      → str_eq group other ≡ false
      → (size now : ℕ) (rows : List BlobRow)
      → held other (update_where (may_refresh group key) (refreshed size now) rows)
        ≡ held other rows
  held_other-update other ne size now [] = refl
  held_other-update other ne size now (u ∷ us) =
      ground (arith, str_eq_iff u.group_id group, clash u, held_other-update other ne size now us)
    where
      clash : (u : BlobRow) → str_eq u.group_id group ≡ true → str_eq u.group_id other ≡ false
      clash u e = subst (λ g. str_eq g other ≡ false) (sym ((str_eq_iff _ _).0 e)) ne

  held_other-append :
      (other : Text)
      → str_eq group other ≡ false
      → (size now : ℕ) (rows : List BlobRow)
      → held other (rows ++ new_row group key size now ∷ []) ≡ held other rows
  held_other-append other ne size now [] = ground arith
  held_other-append other ne size now (u ∷ us) =
      ground (arith, held_other-append other ne size now us)

  held_other-reserve_blob :
      (other : Text)
      → str_eq group other ≡ false
      → (size quota now : ℕ) (rows : List BlobRow)
      → held other (reserve_blob group key size quota now rows).1 ≡ held other rows
  unfolding reserve_blob upsert
  held_other-reserve_blob other ne size quota now rows =
      ground
        (arith, held_other-update other ne size now rows, held_other-append other ne size now rows)

  pub reserve_blob-IsKeyed :
      (size quota now : ℕ) (rows : List BlobRow)
      → IsKeyed rows
      → IsKeyed (reserve_blob group key size quota now rows).1
  unfolding reserve_blob
  reserve_blob-IsKeyed size quota now rows h =
      elim (Bool-cases
        (leb (total (is_other group key) rows + max size (size_of group key rows)) quota)) [
          | inl e ↦ rw e (upsert-IsKeyed size now rows h)
          | inr e ↦ rw e h
        ]

  pub held_le-reserve_blob :
      (space : Text) (size quota now : ℕ) (rows : List BlobRow)
      → IsKeyed rows
      → held space rows ≤ quota
      → held space (reserve_blob group key size quota now rows).1 ≤ quota
  unfolding reserve_blob
  held_le-reserve_blob space size quota now rows h fits = elim (Bool-cases (str_eq group space)) [
    | inl e ↦
        subst (λ g. held g (reserve_blob group key size quota now rows).1 ≤ quota)
          ((str_eq_iff _ _).0 e)
          (own (subst (λ g. held g rows ≤ quota) (sym ((str_eq_iff _ _).0 e)) fits))
    | inr ne ↦ omega (arith, held_other-reserve_blob space ne size quota now rows)
  ]
    where
      own :
          held group rows ≤ quota
          → held group (reserve_blob group key size quota now rows).1 ≤ quota
      own fits' =
          let totals = upsert_totals size now rows h in
          let split = held_split (upsert group key size now rows).1 in ground arith
