-- ===== src/Worker/Blobs/History.antt =====
-- The accounting of apps/worker/src/blobs.ts over time.
use sendself.Base.{
  ℕ, ◌≤◌, ◌≡◌, refl, inl, inr, Bool, false, not, List, [], ◌∷◌, arith, Text, filter, any,
  Bool-cases,
}
use sendself.Worker.Tables.{BlobRow}
use sendself.Worker.Blobs.{is_row, reserve_blob, forget_blob}
use sendself.Worker.Blobs.Quota.{IsKeyed, held, reserve_blob-IsKeyed, held_le-reserve_blob}

-- Filtering rows out keeps the table keyed and lowers what a space holds.
any-filter-false :
    (p q : BlobRow → Bool) (rows : List BlobRow)
    → any q rows ≡ false
    → any q (filter p rows) ≡ false
any-filter-false p q [] h = refl
any-filter-false p q (u ∷ us) h = ground (arith, any-filter-false p q us)

filter-IsKeyed : (p : BlobRow → Bool) (rows : List BlobRow) → IsKeyed rows → IsKeyed (filter p rows)
filter-IsKeyed p [] h = tt
filter-IsKeyed p (u ∷ us) h = elim (Bool-cases (p u)) [
  | inl e ↦ rw e (any-filter-false p _ us h.0, filter-IsKeyed p us h.1)
  | inr e ↦ rw e (filter-IsKeyed p us h.1)
]

held-filter-le :
    (space : Text) (p : BlobRow → Bool) (rows : List BlobRow)
    → held space (filter p rows) ≤ held space rows
held-filter-le space p [] = omega arith
held-filter-le space p (u ∷ us) = ground (arith, held-filter-le space p us)

-- What happens to an accounting table over time: uploads reserve, deletions drop rows.
pub data Event : Type 0 where
  reserve : Text → Text → ℕ → ℕ → Event
  forget : Text → Text → Event

module _ (quota : ℕ) where
  pub happen : List BlobRow → List Event → List BlobRow
  happen rows [] = rows
  happen rows (reserve group key size now ∷ es) =
      happen (reserve_blob group key size quota now rows).1 es
  happen rows (forget group key ∷ es) = happen (forget_blob group key rows) es

  held-happen :
      (space : Text) (es : List Event) (rows : List BlobRow)
      → IsKeyed rows
      → held space rows ≤ quota
      → held space (happen rows es) ≤ quota
  unfolding happen forget_blob
  held-happen space [] rows k h = h
  held-happen space (reserve group key size now ∷ es) rows k h =
      held-happen space es _ (reserve_blob-IsKeyed group key size quota now rows k)
        (held_le-reserve_blob group key space size quota now rows k h)
  held-happen space (forget group key ∷ es) rows k h =
      let p : BlobRow → Bool = λ u. not (is_row group key u) in
      held-happen space es _ (filter-IsKeyed p rows k) (omega (arith, held-filter-le space p rows))

  -- Whatever uploads are reserved and rows forgotten, in any order and by any spaces, no space ever
  -- holds more than the quota.
  pub held-happen_le : (space : Text) (es : List Event) → held space (happen [] es) ≤ quota
  held-happen_le space es = held-happen space es [] tt (omega arith)
