-- ===== src/Worker/Vault/Pages.antt =====
-- What a page of the changes holds: the rows whose numbers lie between its two cursors, all of them.
use sendself.Base.{
  ℕ, zero, suc, ◌≤◌, ◌<◌, Bool, true, false, ◌≡◌, refl, sym, ap, ◌∙◌, subst, inl, inr, none, List,
  [], ◌∷◌, Text, str_eq, leb, filter, take, length, order_by, insert_sorted, take-take-suc,
  take_all, All, All-map, All-filter, All-insert_sorted, All-order_by, All-take, Bool-cases, arith,
  only, IsKeyedBy, IsKeyedBy-filter, IsKeyedBy-order_by, IsKeyedBy-take, lookup_by-filter,
  lookup_by-order_by,
}
use sendself.Worker.Vault.{Vault, VaultRow, row_id, row_of}
use sendself.Worker.Vault.Changes.{
  row_seq, seq_before, is_after, changed_rows, last_seq, has_more, page_rows,
}
use sendself.Worker.Vault.Rows.{IsUpTo, IsApart, HasOwnSeqs, IsVault}

abbrev IsPast : ℕ → VaultRow → Type 0
IsPast n r = n < row_seq r

-- In the order of their numbers.
abbrev IsSorted : List VaultRow → Type 0
IsSorted [] = Unit
IsSorted (r ∷ rs) = All (IsPast (row_seq r)) rs × IsSorted rs

insert_sorted-IsSorted :
    (r : VaultRow) (rs : List VaultRow)
    → All (IsApart r) rs
    → IsSorted rs
    → IsSorted (insert_sorted seq_before r rs)
unfolding insert_sorted
insert_sorted-IsSorted r [] a s = (tt, tt)
insert_sorted-IsSorted r (q ∷ rs) a s = elim (Bool-cases (seq_before q r)) [
  | inl e ↦ rw e (
    All-insert_sorted (IsPast (row_seq q)) seq_before r rs (ground (arith, e)) s.0,
    insert_sorted-IsSorted r rs a.1 s.1,
  )
  | inr e ↦
      let first : row_seq r < row_seq q = ground (arith, e, a.0) in
      rw e (
        (
          first,
          All-map (IsPast (row_seq q)) (IsPast (row_seq r)) (λ t l. omega (arith, l, first)) rs s.0,
        ),
        s,
      )
]

order_by-IsSorted : (rs : List VaultRow) → HasOwnSeqs rs → IsSorted (order_by seq_before rs)
unfolding order_by
order_by-IsSorted [] h = tt
order_by-IsSorted (r ∷ rs) h =
    insert_sorted-IsSorted r (order_by seq_before rs) (All-order_by (IsApart r) seq_before rs h.0)
      (order_by-IsSorted rs h.1)

pub filter-HasOwnSeqs :
    (p : VaultRow → Bool) (rs : List VaultRow) → HasOwnSeqs rs → HasOwnSeqs (filter p rs)
filter-HasOwnSeqs p [] h = tt
filter-HasOwnSeqs p (r ∷ rs) h = elim (Bool-cases (p r)) [
  | inl e ↦ rw e (All-filter (IsApart r) p rs h.0, filter-HasOwnSeqs p rs h.1)
  | inr e ↦ rw e (filter-HasOwnSeqs p rs h.1)
]

filter-IsPast : (n : ℕ) (rs : List VaultRow) → All (IsPast n) (filter (is_after n) rs)
filter-IsPast n [] = tt
filter-IsPast n (r ∷ rs) = elim (Bool-cases (is_after n r)) [
  | inl e ↦ rw e (ground (arith, e), filter-IsPast n rs)
  | inr e ↦ rw e (filter-IsPast n rs)
]

-- The last number of rows past `n` is not below it.
last_seq-ge : (n : ℕ) (rs : List VaultRow) → IsSorted rs → All (IsPast n) rs → n ≤ last_seq n rs
last_seq-ge n [] s h = omega arith
last_seq-ge n (r ∷ rs) s h = omega (arith, h.0, last_seq-ge (row_seq r) rs s.1 s.0)

last_seq-le : (n m : ℕ) (rs : List VaultRow) → n ≤ m → All (IsUpTo m) rs → last_seq n rs ≤ m
last_seq-le n m [] l h = l
last_seq-le n m (r ∷ rs) l h = last_seq-le (row_seq r) m rs h.0.1 h.1

abbrev is_up_to : ℕ → VaultRow → Bool
is_up_to n r = leb (row_seq r) n

none_up_to :
    (n : ℕ) (x : Text) (rs : List VaultRow)
    → All (IsPast n) rs
    → only (is_up_to n) (row_of x rs) ≡ none
none_up_to n x [] h = refl
none_up_to n x (r ∷ rs) h = ground (arith, h.0, none_up_to n x rs h.1)

take-IsSorted : (k : ℕ) (rs : List VaultRow) → IsSorted rs → IsSorted (take k rs)
take-IsSorted zero rs s = tt
take-IsSorted (suc k) [] s = tt
take-IsSorted (suc k) (r ∷ rs) s = (All-take (IsPast (row_seq r)) k rs s.0, take-IsSorted k rs s.1)

-- What the start of a sorted list has under an id: what the list has up to the last number.
row_of-take :
    (n k : ℕ) (x : Text) (rs : List VaultRow)
    → IsSorted rs
    → All (IsPast n) rs
    → row_of x (take k rs) ≡ only (is_up_to (last_seq n (take k rs))) (row_of x rs)
row_of-take n zero x rs s h = sym (none_up_to n x rs h)
row_of-take n (suc k) x [] s h = refl
row_of-take n (suc k) x (r ∷ rs) s h = elim (Bool-cases (str_eq (row_id r) x)) [
  | inl e ↦
      let first : leb (row_seq r) (last_seq (row_seq r) (take k rs)) ≡ true = ground (
        arith,
        last_seq-ge (row_seq r) (take k rs) (take-IsSorted k rs s.1)
            (All-take (IsPast (row_seq r)) k rs s.0),
      ) in
      rw (e, first) refl
  | inr e ↦ rw e (row_of-take (row_seq r) k x rs s.1 s.0)
]

module _ (v : Vault) (h : IsVault v) (size since : ℕ) where
  abbrev sorted : IsSorted (changed_rows since v.rows)
  sorted =
      order_by-IsSorted (filter (is_after since) v.rows)
        (filter-HasOwnSeqs (is_after since) v.rows h.own_seqs)

  abbrev past : All (IsPast since) (changed_rows since v.rows)
  past =
      All-order_by (IsPast since) seq_before (filter (is_after since) v.rows)
        (filter-IsPast since v.rows)

  abbrev up_to : All (IsUpTo v.seq) (changed_rows since v.rows)
  up_to =
      All-order_by (IsUpTo v.seq) seq_before (filter (is_after since) v.rows)
        (All-filter (IsUpTo v.seq) (is_after since) v.rows h.up_to)

  pub row_of-changed :
      (x : Text) → row_of x (changed_rows since v.rows) ≡ only (is_after since) (row_of x v.rows)
  row_of-changed x =
      lookup_by-order_by row_id seq_before x (filter (is_after since) v.rows)
        (IsKeyedBy-filter row_id (is_after since) v.rows h.keyed)
      ∙ lookup_by-filter row_id (is_after since) x v.rows h.keyed

  -- A page with more behind it is the start of the changes.
  pub page_rows-more :
      has_more size since v.rows ≡ true
      → page_rows size since v.rows ≡ take size (changed_rows since v.rows)
  page_rows-more e = rw e (take-take-suc size (changed_rows since v.rows))

  -- The last page is all of them.
  pub page_rows-last :
      has_more size since v.rows ≡ false → page_rows size since v.rows ≡ changed_rows since v.rows
  page_rows-last e = rw e (take_all size (changed_rows since v.rows) (ground (arith, e)))

  pub row_of-more :
      (x : Text)
      → has_more size since v.rows ≡ true
      → row_of x (page_rows size since v.rows)
        ≡ only
            (is_up_to (last_seq since (page_rows size since v.rows)))
            (only (is_after since) (row_of x v.rows))
  row_of-more x e = rw (page_rows-more e) (
      row_of-take since size x (changed_rows since v.rows) sorted past
      ∙ ap (only (is_up_to (last_seq since (take size (changed_rows since v.rows)))))
          (row_of-changed x))

  pub row_of-last :
      (x : Text)
      → has_more size since v.rows ≡ false
      → row_of x (page_rows size since v.rows) ≡ only (is_after since) (row_of x v.rows)
  row_of-last x e = ap (row_of x) (page_rows-last e) ∙ row_of-changed x

  -- The cursor of a page with more behind it lies past the one that was asked for, by the counter.
  pub cursor-le :
      since ≤ v.seq
      → has_more size since v.rows ≡ true
      → last_seq since (page_rows size since v.rows) ≤ v.seq
  cursor-le l e = rw (page_rows-more e) (
      last_seq-le since v.seq (take size (changed_rows since v.rows)) l
        (All-take (IsUpTo v.seq) size (changed_rows since v.rows) up_to))

  pub cursor-ge :
      has_more size since v.rows ≡ true → since ≤ last_seq since (page_rows size since v.rows)
  cursor-ge e = rw (page_rows-more e) (
      last_seq-ge since (take size (changed_rows since v.rows))
        (take-IsSorted size (changed_rows since v.rows) sorted)
        (All-take (IsPast since) size (changed_rows since v.rows) past))

  keyed_changed : IsKeyedBy row_id (changed_rows since v.rows)
  keyed_changed =
      IsKeyedBy-order_by row_id seq_before (filter (is_after since) v.rows)
        (IsKeyedBy-filter row_id (is_after since) v.rows h.keyed)

  pub page_rows-IsKeyedBy : IsKeyedBy row_id (page_rows size since v.rows)
  page_rows-IsKeyedBy = elim (Bool-cases (has_more size since v.rows)) [
    | inl e ↦
        subst (IsKeyedBy row_id) (sym (page_rows-more e))
          (IsKeyedBy-take row_id size (changed_rows since v.rows) keyed_changed)
    | inr e ↦ subst (IsKeyedBy row_id) (sym (page_rows-last e)) keyed_changed
  ]

  -- A page of at least one row that has more behind it gets on.
  pub cursor-gt :
      0 < size
      → has_more size since v.rows ≡ true
      → since < last_seq since (page_rows size since v.rows)
  cursor-gt l e =
      rw (page_rows-more e)
        (nonempty size (changed_rows since v.rows) l sorted past (ground (arith, e)))
    where
      nonempty :
          (k : ℕ) (rs : List VaultRow)
          → 0 < k
          → IsSorted rs
          → All (IsPast since) rs
          → k < length (take (suc k) rs)
          → since < last_seq since (take k rs)
      nonempty zero rs l s p m = absurd (omega (arith, l))
      nonempty (suc k) [] l s p m = absurd (omega (arith, m))
      nonempty (suc k) (r ∷ rs) l s p m = omega (
        arith,
        p.0,
        last_seq-ge (row_seq r) (take k rs) (take-IsSorted k rs s.1)
            (All-take (IsPast (row_seq r)) k rs s.0),
      )
