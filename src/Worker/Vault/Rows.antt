-- ===== src/Worker/Vault/Rows.antt =====
-- The rows of a vault: what makes a table of them well formed, and how a write changes it.
use sendself.Base.{
  ℕ, suc, ◌≤◌, ◌<◌, Bool, true, false, ◌≡◌, refl, ◌∙◌, subst, ◌⊎◌, inl, inr, Option, none, some,
  List, [], ◌∷◌, ◌++◌, Text, str_eq, str_eq_iff, any, update_where, update_where_idle, All, All-map,
  All-update_where, All-append, ◌==◌, Bool-cases, arith, IsKeyedBy, IsKeyedBy-update_where,
  IsKeyedBy-append, lookup_by-append, if◌then◌else◌,
}
use sendself.Worker.Vault.{
  Vault, VaultRow, row_id, row_of, stamped, is_named, next_vault_seq, update_row,
}
use sendself.Worker.Vault.Changes.{row_seq}

abbrev pub IsUpTo : ℕ → VaultRow → Type 0
IsUpTo n r = (0 < row_seq r) × (row_seq r ≤ n)

abbrev pub IsApart : VaultRow → VaultRow → Type 0
IsApart r q = (row_seq r == row_seq q) ≡ false

-- The unique index on `seq`.
abbrev pub HasOwnSeqs : List VaultRow → Type 0
HasOwnSeqs [] = Unit
HasOwnSeqs (r ∷ rs) = All (IsApart r) rs × HasOwnSeqs rs

-- The primary key, the unique index, and a counter, from 1 on, that no row is ahead of.
pub record IsVault (v : Vault) : Type 0 where
  pub keyed : IsKeyedBy row_id v.rows
  pub own_seqs : HasOwnSeqs v.rows
  pub up_to : All (IsUpTo v.seq) v.rows

-- A row is what it was, or was written after the counter stood at `n`.
abbrev pub RowAdvances : ℕ → Option VaultRow → Option VaultRow → Type 0
RowAdvances n old new = (new ≡ old) ⊎ ((r : VaultRow) × (new ≡ some r) × (n < row_seq r))

pub record Advances (u v : Vault) : Type 0 where
  pub counter : u.seq ≤ v.seq
  pub floor : v.floor ≡ u.floor
  pub rows : (x : Text) → RowAdvances u.seq (row_of x u.rows) (row_of x v.rows)

-- A write: the vault stays well formed, and every row it changes is newer than any before.
abbrev pub Writes : Vault → Vault → Type 0
Writes u v = IsVault v × Advances u v

abbrev pub KeepsId : (VaultRow → VaultRow) → Type 0
KeepsId f = (r : VaultRow) → row_id (f r) ≡ row_id r

pub Writes_refl : (v : Vault) → IsVault v → Writes v v
Writes_refl v h = (h, record { counter = omega arith; floor = refl; rows = λ x. inl refl })

RowAdvances-trans :
    (m n : ℕ) (a b c : Option VaultRow)
    → m ≤ n
    → RowAdvances m a b
    → RowAdvances n b c
    → RowAdvances m a c
RowAdvances-trans m n a b c h (inl e) (inl f) = inl (f ∙ e)
RowAdvances-trans m n a b c h (inr (r, e, l)) (inl f) = inr (r, f ∙ e, l)
RowAdvances-trans m n a b c h k (inr (r, f, l)) = inr (r, f, omega (arith, h, l))

pub Writes_trans : (u v w : Vault) → Writes u v → Writes v w → Writes u w
Writes_trans u v w (_, a) (k, b) = (
  k,
  record {
    counter = omega (arith, a.counter, b.counter);
    floor = b.floor ∙ a.floor;
    rows = λ x. RowAdvances-trans _ _ _ _ _ a.counter (a.rows x) (b.rows x);
  },
)

module _ (id : Text) (p : VaultRow → Bool) (f : VaultRow → VaultRow) (keeps : KeepsId f)
    (n : ℕ) where
  abbrev written : List VaultRow → List VaultRow
  written = update_where (is_named id p) (stamped (suc n) f)

  row_of-written :
      (x : Text) (rows : List VaultRow) → RowAdvances n (row_of x rows) (row_of x (written rows))
  row_of-written x [] = inl refl
  row_of-written x (r ∷ rs) = elim (Bool-cases (is_named id p r)) [
    | inl e ↦ elim (Bool-cases (str_eq (row_id r) x)) [
      | inl q ↦ rw e (inr (stamped (suc n) f r, rw (keeps r, q) refl, omega arith))
      | inr q ↦ rw (e, keeps r, q) (row_of-written x rs)
    ]
    | inr e ↦ elim (Bool-cases (str_eq (row_id r) x)) [
      | inl q ↦ rw (e, q) (inl refl)
      | inr q ↦ rw (e, q) (row_of-written x rs)
    ]
  ]

  -- A row of the id is the only one.
  none_named :
      (r : VaultRow) (rs : List VaultRow)
      → row_of (row_id r) rs ≡ none
      → str_eq (row_id r) id ≡ true
      → any (is_named id p) rs ≡ false
  none_named r [] h e = refl
  none_named r (q ∷ rs) h e = ground (
    arith,
    none_named r rs,
    h,
    e,
    subst (λ y. str_eq (row_id q) (row_id r) ≡ str_eq (row_id q) y) ((str_eq_iff _ _).0 e) refl,
  )

  HasOwnSeqs-written :
      (rows : List VaultRow)
      → IsKeyedBy row_id rows
      → All (IsUpTo n) rows
      → HasOwnSeqs rows
      → HasOwnSeqs (written rows)
  HasOwnSeqs-written [] k b o = tt
  HasOwnSeqs-written (r ∷ rs) k b o = elim (Bool-cases (is_named id p r)) [
    | inl e ↦
        let idle : written rs ≡ rs =
          update_where_idle (is_named id p) (stamped (suc n) f) rs
            (none_named r rs k.0 (ground (arith, e))) in
        rw (e, idle)
          (
            All-map (IsUpTo n) (IsApart (stamped (suc n) f r)) (λ q l. ground (arith, l)) rs b.1,
            o.1,
          )
    | inr e ↦ rw e (
      All-update_where (IsApart r) (is_named id p) (stamped (suc n) f)
          (λ q _ _. ground (arith, b.0)) rs o.0,
      HasOwnSeqs-written rs k.1 b.1 o.1,
    )
  ]

up_to_suc : (n : ℕ) (rows : List VaultRow) → All (IsUpTo n) rows → All (IsUpTo (suc n)) rows
up_to_suc n rows h = All-map (IsUpTo n) (IsUpTo (suc n)) (λ r l. (l.0, omega (arith, l.1))) rows h

-- `nextVaultSeq` alone.
pub next_vault_seq-Writes : (v : Vault) → IsVault v → Writes v (next_vault_seq v)
unfolding next_vault_seq
next_vault_seq-Writes v h = (
  record { keyed = h.keyed; own_seqs = h.own_seqs; up_to = up_to_suc v.seq v.rows h.up_to },
  record { counter = omega arith; floor = refl; rows = λ x. inl refl },
)

-- `nextVaultSeq` and an UPDATE of one row.
pub update_row-Writes :
    (id : Text) (p : VaultRow → Bool) (f : VaultRow → VaultRow) (v : Vault)
    → KeepsId f
    → IsVault v
    → Writes v (update_row id p f (next_vault_seq v))
unfolding next_vault_seq update_row
update_row-Writes id p f v keeps h = (
  record {
    keyed =
        IsKeyedBy-update_where row_id (is_named id p) (stamped (suc v.seq) f) keeps v.rows h.keyed;
    own_seqs = HasOwnSeqs-written id p f keeps v.seq v.rows h.keyed h.up_to h.own_seqs;
    up_to =
        All-update_where (IsUpTo (suc v.seq)) (is_named id p) (stamped (suc v.seq) f)
          (λ q _ _. (omega arith, omega arith)) v.rows (up_to_suc v.seq v.rows h.up_to);
  },
  record {
    counter = omega arith;
    floor = refl;
    rows = λ x. row_of-written id p f keeps v.seq x v.rows;
  },
)

HasOwnSeqs-append :
    (n : ℕ) (rows : List VaultRow) (new : VaultRow)
    → All (IsUpTo n) rows
    → n < row_seq new
    → HasOwnSeqs rows
    → HasOwnSeqs (rows ++ new ∷ [])
HasOwnSeqs-append n [] new b l o = (tt, tt)
HasOwnSeqs-append n (r ∷ rs) new b l o = (
  All-append (IsApart r) rs (new ∷ []) o.0 (ground (arith, l, b.0), tt),
  HasOwnSeqs-append n rs new b.1 l o.1,
)

row_of-append :
    (n : ℕ) (x : Text) (rows : List VaultRow) (new : VaultRow)
    → row_of (row_id new) rows ≡ none
    → n < row_seq new
    → RowAdvances n (row_of x rows) (row_of x (rows ++ new ∷ []))
row_of-append n x rows new free l = elim (Bool-cases (str_eq (row_id new) x)) [
  | inl e ↦
      let gone : row_of x rows ≡ none =
        subst (λ y. row_of y rows ≡ none) ((str_eq_iff _ _).0 e) free in
      inr (new, rw (lookup_by-append row_id x rows new, gone, e) refl, l)
  | inr e ↦ inl (rw (lookup_by-append row_id x rows new) (same (row_of x rows) e))
]
  where
    same :
        (o : Option VaultRow)
        → str_eq (row_id new) x ≡ false
        → elim o as (λ _. Option VaultRow) [
          | none ↦ if str_eq (row_id new) x then some new else none
          | some a ↦ some a
        ]
          ≡ o
    same none e = rw e refl
    same (some a) e = refl

-- `nextVaultSeq` and an INSERT under an id that no row has.
pub append-Writes :
    (new : VaultRow) (v : Vault)
    → IsVault v
    → row_of (row_id new) v.rows ≡ none
    → row_seq new ≡ suc v.seq
    → Writes v (record v { seq = suc v.seq; rows = v.rows ++ new ∷ [] })
append-Writes new v h free e = (
  record {
    keyed = IsKeyedBy-append row_id v.rows new h.keyed free;
    own_seqs = HasOwnSeqs-append v.seq v.rows new h.up_to (omega (arith, e)) h.own_seqs;
    up_to =
        All-append (IsUpTo (suc v.seq)) v.rows (new ∷ []) (up_to_suc v.seq v.rows h.up_to)
          ((omega (arith, e), omega (arith, e)), tt);
  },
  record {
    counter = omega arith;
    floor = refl;
    rows = λ x. row_of-append v.seq x v.rows new free (omega (arith, e));
  },
)
