-- ===== src/Sync/Page.antt =====
-- One page brings a pull from its cursor to the page's.
use sendself.Base.{
  ℕ, max, ◌≤◌, Bool, true, false, not, ◌&&◌, ◌||◌, ◌≡◌, refl, sym, ap, ap₂, ◌∙◌, subst, inl, inr,
  ◌⊎◌, Option, none, some, List, [], ◌∷◌, Text, leb, leb_iff, map, filter, All-find, Bool-cases,
  Option-cases, arith, only, lookup_by-filter, IsKeyedBy, IsKeyedBy-filter, contains, if◌then◌else◌,
  is_some, str_eq_comm,
}
use sendself.Shared.Vault.{VaultItem}
use sendself.Worker.Vault.{Vault, VaultRow, row_id, row_of, live_item, is_live}
use sendself.Worker.Vault.Changes.{row_seq, is_after, page_of, page_rows, has_more, last_seq}
use sendself.Worker.Vault.Rows.{IsVault, IsUpTo}
use sendself.Worker.Vault.Pages.{
  row_of-more, row_of-last, cursor-le, cursor-ge, page_rows-IsKeyedBy,
}
use sendself.Client.Vault.{Pull, item_of, item_id, fold_items, fold_removed}
use sendself.Client.Vault.Lookup.{
  replaced, newer, fold_items-items, fold_items-removed, fold_removed-items, fold_removed-removed,
  fold_removed-rebuilding, fold_items-rebuilding, item_of-delete_all, fold_items-IsKeyed,
  fold_removed-IsKeyed,
}
use sendself.Sync.{AgreesAt, IsOlder, IsOld, known_of, base_of, Follows}

-- A tombstone.
abbrev is_gone : Option VaultRow → Bool
is_gone none = false
is_gone (some r) = not (is_live r)

abbrev opt_item : Option VaultRow → Option VaultItem
opt_item none = none
opt_item (some r) = some r.item

item_of-map :
    (x : Text) (rows : List VaultRow)
    → item_of x (map (λ (r : VaultRow). r.item) rows) ≡ opt_item (row_of x rows)
item_of-map x [] = refl
item_of-map x (r ∷ rs) = ground (arith, item_of-map x rs)

contains-map :
    (x : Text) (rows : List VaultRow) → contains x (map row_id rows) ≡ is_some (row_of x rows)
contains-map x [] = refl
contains-map x (r ∷ rs) = ground (arith, contains-map x rs, str_eq_comm x (row_id r))

map-IsKeyedBy :
    (rows : List VaultRow)
    → IsKeyedBy row_id rows
    → IsKeyedBy item_id (map (λ (r : VaultRow). r.item) rows)
map-IsKeyedBy [] k = tt
map-IsKeyedBy (r ∷ rs) k = (item_of-map (row_id r) rs ∙ ap opt_item k.0, map-IsKeyedBy rs k.1)

module _ (rows : List VaultRow) (keyed : IsKeyedBy row_id rows) (x : Text) where
  listed_items :
      item_of x (map (λ (r : VaultRow). r.item) (filter is_live rows)) ≡ live_item (row_of x rows)
  listed_items =
      item_of-map x (filter is_live rows)
      ∙ ap opt_item (lookup_by-filter row_id is_live x rows keyed)
      ∙ live (row_of x rows)
    where
      live : (o : Option VaultRow) → opt_item (only is_live o) ≡ live_item o
      live none = refl
      live (some r) = ground arith

  listed_ids :
      contains x (map row_id (filter (λ r. not (is_live r)) rows)) ≡ is_gone (row_of x rows)
  listed_ids =
      contains-map x (filter (λ r. not (is_live r)) rows)
      ∙ ap is_some (lookup_by-filter row_id (λ r. not (is_live r)) x rows keyed)
      ∙ gone (row_of x rows)
    where
      gone : (o : Option VaultRow) → is_some (only (λ r. not (is_live r)) o) ≡ is_gone o
      gone none = refl
      gone (some r) = ground arith

-- The rows that a page with these cursors lists.
abbrev in_page : ℕ → ℕ → Option VaultRow → Option VaultRow
in_page c d o = only (λ r. leb (row_seq r) d) (only (is_after c) o)

-- What the pages say of an id, after one more page.
abbrev next_item : Option VaultItem → Option VaultRow → Option VaultItem
next_item it o = replaced (if is_gone o then none else it) (live_item o)

abbrev next_gone : Bool → Option VaultRow → Bool
next_gone gone o = not (is_some (live_item o)) && (is_gone o || gone)

newer-older : (base : Option VaultItem) (i : VaultItem) → IsOlder base i.seq → newer base i ≡ some i
newer-older none i h = refl
newer-older (some k) i h = ground (arith, h)

listed :
    (base it : Option VaultItem) (gone : Bool) (r : VaultRow)
    → IsOlder base (row_seq r)
    → known_of base (next_item it (some r)) (next_gone gone (some r)) ≡ live_item (some r)
listed base it gone r h = elim (Bool-cases (is_live r)) [
  | inl e ↦ rw e (newer-older base r.item h)
  | inr e ↦ rw e refl
]

AgreesAt-page :
    (c d : ℕ) (base it : Option VaultItem) (gone : Bool) (o : Option VaultRow)
    → c ≤ d
    → AgreesAt c (known_of base it gone) o
    → IsOld base o
    → AgreesAt d (known_of base (next_item it (in_page c d o)) (next_gone gone (in_page c d o))) o
AgreesAt-page c d base it gone none l a b = a
AgreesAt-page c d base it gone (some r) l (inl (q, e)) b =
    let out : in_page c d (some r) ≡ none = ground (arith, q) in
    rw out (inl (omega (arith, l, q), e))
AgreesAt-page c d base it gone (some r) l (inr (q, e)) b = elim (Bool-cases (leb (row_seq r) d)) [
  | inl f ↦
      let here : in_page c d (some r) ≡ some r = ground (arith, q, f) in
      rw here (inl ((leb_iff (row_seq r) d).0 f, listed base it gone r b))
  | inr f ↦
      let out : in_page c d (some r) ≡ none = ground (arith, q, f) in
      rw out (inr (ground (arith, f), e))
]

module _ (size : ℕ) (v : Vault) (h : IsVault v) where
  abbrev page_cursor : ℕ → ℕ
  page_cursor c = (page_of size c v).cursor

  -- No row is past the counter.
  none_past :
      (x : Text) (d : ℕ)
      → v.seq ≤ d
      → only (λ r. leb (row_seq r) d) (row_of x v.rows) ≡ row_of x v.rows
  none_past x d l = go (Option-cases (row_of x v.rows))
    where
      go :
          (row_of x v.rows ≡ none) ⊎ ((r : VaultRow) × (row_of x v.rows ≡ some r))
          → only (λ r. leb (row_seq r) d) (row_of x v.rows) ≡ row_of x v.rows
      go (inl e) = rw e refl
      go (inr (r, e)) =
          let low : row_seq r ≤ v.seq = (All-find (IsUpTo v.seq) _ v.rows r h.up_to e).1 in
          rw e (ground (arith, low, l))

  pub cursor_more :
      (c : ℕ) → has_more size c v.rows ≡ true → page_cursor c ≡ last_seq c (page_rows size c v.rows)
  unfolding page_of
  cursor_more c e = rw e refl

  cursor_last : (c : ℕ) → has_more size c v.rows ≡ false → page_cursor c ≡ max v.seq c
  unfolding page_of
  cursor_last c e = rw e refl

  -- A page lists every row between its cursors, and no other.
  listed_row :
      (c : ℕ) (x : Text)
      → row_of x (page_rows size c v.rows) ≡ in_page c (page_cursor c) (row_of x v.rows)
  listed_row c x = elim (Bool-cases (has_more size c v.rows)) [
    | inl e ↦
        subst (λ d. row_of x (page_rows size c v.rows) ≡ in_page c d (row_of x v.rows))
          (sym (cursor_more c e)) (row_of-more v h size c x e)
    | inr e ↦
        subst (λ d. row_of x (page_rows size c v.rows) ≡ in_page c d (row_of x v.rows))
          (sym (cursor_last c e))
          (row_of-last v h size c x e
            ∙ swap (row_of x v.rows) (none_past x (max v.seq c) (omega arith)))
  ]
    where
      swap :
          (o : Option VaultRow)
          → only (λ r. leb (row_seq r) (max v.seq c)) o ≡ o
          → only (is_after c) o ≡ in_page c (max v.seq c) o
      swap none q = refl
      swap (some r) q = ground (arith, q)

  pub page_cursor-bounds : (c : ℕ) → c ≤ v.seq → (c ≤ page_cursor c) × (page_cursor c ≤ v.seq)
  page_cursor-bounds c l = elim (Bool-cases (has_more size c v.rows)) [
    | inl e ↦
        subst (λ d. (c ≤ d) × (d ≤ v.seq)) (sym (cursor_more c e))
          (cursor-ge v h size c e, cursor-le v h size c l e)
    | inr e ↦
        subst (λ d. (c ≤ d) × (d ≤ v.seq)) (sym (cursor_last c e)) (omega arith, omega (arith, l))
  ]

  page_items :
      (c : ℕ) (x : Text)
      → item_of x (page_of size c v).items ≡ live_item (row_of x (page_rows size c v.rows))
  unfolding page_of
  page_items c x = listed_items (page_rows size c v.rows) (page_rows-IsKeyedBy v h size c) x

  page_removed :
      (c : ℕ) (x : Text)
      → contains x (page_of size c v).removed ≡ is_gone (row_of x (page_rows size c v.rows))
  unfolding page_of
  page_removed c x = listed_ids (page_rows size c v.rows) (page_rows-IsKeyedBy v h size c) x

  page_keyed : (c : ℕ) → IsKeyedBy item_id (page_of size c v).items
  unfolding page_of
  page_keyed c =
      map-IsKeyedBy (filter is_live (page_rows size c v.rows))
        (IsKeyedBy-filter row_id is_live (page_rows size c v.rows) (page_rows-IsKeyedBy v h size c))

  module _ (copy : List VaultItem) (c : ℕ) (p : Pull)
      (f : Follows copy (record p { cursor = c }) v) where
    abbrev folded : Pull
    folded = fold_items (page_of size c v).items (fold_removed (page_of size c v).removed p)

    folded-rebuilding : folded.rebuilding ≡ p.rebuilding
    folded-rebuilding =
        fold_items-rebuilding (page_of size c v).items (fold_removed (page_of size c v).removed p)
        ∙ fold_removed-rebuilding (page_of size c v).removed p

    abbrev row_listed : Text → Option VaultRow
    row_listed x = in_page c (page_cursor c) (row_of x v.rows)

    folded-items :
        (x : Text) → item_of x folded.items ≡ next_item (item_of x p.items) (row_listed x)
    folded-items x =
        fold_items-items x (page_of size c v).items (fold_removed (page_of size c v).removed p)
          (page_keyed c)
        ∙ ap₂ replaced
            (ap (item_of x) (fold_removed-items (page_of size c v).removed p)
              ∙ item_of-delete_all x (page_of size c v).removed p.items
              ∙ ap (λ b. if b then none else item_of x p.items)
                  (page_removed c x ∙ ap is_gone (listed_row c x)))
            (page_items c x ∙ ap live_item (listed_row c x))

    folded-removed :
        (x : Text) → contains x folded.removed ≡ next_gone (contains x p.removed) (row_listed x)
    folded-removed x =
        fold_items-removed x (page_of size c v).items (fold_removed (page_of size c v).removed p)
        ∙ ap₂ (λ o b. not (is_some o) && b) (page_items c x ∙ ap live_item (listed_row c x))
            (fold_removed-removed x (page_of size c v).removed p
              ∙ ap (λ b. b || contains x p.removed)
                  (page_removed c x ∙ ap is_gone (listed_row c x)))

    folded-base : (x : Text) → base_of copy folded x ≡ base_of copy p x
    folded-base x = ap (λ b. if b then none else item_of x copy) folded-rebuilding

    -- A page of the changes after `c` takes a pull that stands at `c` to the page's cursor.
    pub folded-Follows : Follows copy (record folded { cursor = page_cursor c }) v
    folded-Follows = record {
      counter = (page_cursor-bounds c f.counter).1;
      keyed =
          fold_items-IsKeyed (page_of size c v).items (fold_removed (page_of size c v).removed p)
            (fold_removed-IsKeyed (page_of size c v).removed p f.keyed);
      agrees = λ x.
          subst (λ k. AgreesAt (page_cursor c) k (row_of x v.rows))
            (sym (
              ap (λ b. known_of b (item_of x folded.items) (contains x folded.removed))
                (folded-base x)
              ∙ ap₂ (known_of (base_of copy p x)) (folded-items x) (folded-removed x)))
            (AgreesAt-page c (page_cursor c) (base_of copy p x) (item_of x p.items)
              (contains x p.removed) (row_of x v.rows) (page_cursor-bounds c f.counter).0
              (f.agrees x) (f.old x));
      old = λ x. subst (λ b. IsOld b (row_of x v.rows)) (sym (folded-base x)) (f.old x);
    }
