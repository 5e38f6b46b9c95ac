-- ===== src/Worker/Vault/Moves.antt =====
-- A move keeps the vault a tree: no folder comes to lie inside itself.
use sendself.Base.{
  some_inj, ℕ, suc, Bool, true, false, not, ◌&&◌, ◌≡◌, refl, sym, ap, ◌∙◌, subst, inl, inr, ◌⊎◌,
  Option, none, some, List, [], ◌∷◌, Text, str_eq, str_eq_iff, str_eq_comm, any, contains,
  update_where, update_where_idle, Bool-cases, Option-cases, and-true, arith, if◌then◌else◌,
}
use sendself.Worker.Vault.{
  Vault, VaultRow, row_id, row_of, is_live, is_named, stamped, next_vault_seq, subtree,
}
use sendself.Worker.Vault.Requests.{live_folder, is_folder}
use sendself.Worker.Vault.Edits.{Edit, may_edit, may_move, edited, write_edit}
use sendself.Worker.Vault.Conflicts.{write_edit-rows, open_to}
use sendself.Worker.Vault.Subtree.{subtree_self, subtree-child}

-- A row whose folders lead to the root.
pub data Rooted (rows : List VaultRow) : Text → Type 0 where
  at_root :
      (x : Text) (r : VaultRow) → row_of x rows ≡ some r → r.item.parent_id ≡ none → Rooted rows x
  below :
      (x p : Text) (r : VaultRow)
      → row_of x rows ≡ some r
      → r.item.parent_id ≡ some p
      → Rooted rows p
      → Rooted rows x

abbrev pub IsTree : List VaultRow → Type 0
IsTree rows = (x : Text) (r : VaultRow) → row_of x rows ≡ some r → Rooted rows x

apart :
    (id : Text) (rows : List VaultRow) (x : Text)
    → contains x (subtree id rows) ≡ false
    → str_eq x id ≡ false
apart id rows x m = elim (Bool-cases (str_eq x id)) [
  | inr d ↦ d
  | inl d ↦ cc (
      sym m
      ∙ subst (λ y. contains y (subtree id rows) ≡ true) (sym ((str_eq_iff x id).0 d))
          (subtree_self id rows))
]

parent_out :
    (id : Text) (rows : List VaultRow) (x p : Text) (r : VaultRow)
    → row_of x rows ≡ some r
    → r.item.parent_id ≡ some p
    → contains x (subtree id rows) ≡ false
    → contains p (subtree id rows) ≡ false
parent_out id rows x p r e q m = elim (Bool-cases (contains p (subtree id rows))) [
  | inr d ↦ d
  | inl d ↦ cc (sym m ∙ subtree-child id rows x p r e q d)
]

-- Where every row keeps its folder, what was rooted is.
same_parents-Rooted :
    (rows rows' : List VaultRow)
    → ((x : Text) (r : VaultRow)
        → row_of x rows ≡ some r
        → (s : VaultRow) × (row_of x rows' ≡ some s) × (s.item.parent_id ≡ r.item.parent_id))
    → (x : Text) → Rooted rows x
    → Rooted rows' x
same_parents-Rooted rows rows' k _ (at_root x r e q) =
    let s = k x r e in at_root x s.0 s.1 (s.2 ∙ q)
same_parents-Rooted rows rows' k _ (below x p r e q up) =
    let s = k x r e in below x p s.0 s.1 (s.2 ∙ q) (same_parents-Rooted rows rows' k p up)

-- Where only the row of `id` changes, what lies outside its tree stays rooted.
outside-Rooted :
    (id : Text) (rows rows' : List VaultRow)
    → ((y : Text) → str_eq y id ≡ false → row_of y rows' ≡ row_of y rows)
    → (x : Text) → Rooted rows x
    → contains x (subtree id rows) ≡ false
    → Rooted rows' x
outside-Rooted id rows rows' k _ (at_root x r e q) m = at_root x r (k x (apart id rows x m) ∙ e) q
outside-Rooted id rows rows' k _ (below x p r e q up) m =
    below x p r (k x (apart id rows x m) ∙ e) q
      (outside-Rooted id rows rows' k p up (parent_out id rows x p r e q m))

-- And where that row is rooted, everything is.
changed-Rooted :
    (id : Text) (rows rows' : List VaultRow)
    → ((y : Text) → str_eq y id ≡ false → row_of y rows' ≡ row_of y rows)
    → Rooted rows' id
    → (x : Text) → Rooted rows x
    → Rooted rows' x
changed-Rooted id rows rows' k i _ (at_root x r e q) = elim (Bool-cases (str_eq x id)) [
  | inl d ↦ subst (Rooted rows') (sym ((str_eq_iff x id).0 d)) i
  | inr d ↦ at_root x r (k x d ∙ e) q
]
changed-Rooted id rows rows' k i _ (below x p r e q up) =
    let above = changed-Rooted id rows rows' k i p up in
    elim (Bool-cases (str_eq x id)) [
      | inl d ↦ subst (Rooted rows') (sym ((str_eq_iff x id).0 d)) i
      | inr d ↦ below x p r (k x d ∙ e) q above
    ]

module _ (id : Text) (p : VaultRow → Bool) (f : VaultRow → VaultRow)
    (keeps : (r : VaultRow) → row_id (f r) ≡ row_id r) where
  other_row :
      (rows : List VaultRow) (y : Text)
      → str_eq y id ≡ false
      → row_of y (update_where (is_named id p) f rows) ≡ row_of y rows
  other_row [] y d = refl
  other_row (r ∷ rs) y d = elim (Bool-cases (str_eq (row_id r) id)) [
    | inl e ↦
        let away : str_eq (row_id r) y ≡ false =
          subst (λ z. str_eq z y ≡ false) (sym ((str_eq_iff (row_id r) id).0 e))
            (str_eq_comm id y ∙ d) in
        elim (Bool-cases (p r)) [
          | inl q ↦ rw (e, q, keeps r, away) (other_row rs y d)
          | inr q ↦ rw (e, q, away) (other_row rs y d)
        ]
    | inr e ↦ rw e (ap (λ o. if str_eq (row_id r) y then some r else o) (other_row rs y d))
  ]

  this_row :
      (rows : List VaultRow) (r : VaultRow)
      → row_of id rows ≡ some r
      → row_of id (update_where (is_named id p) f rows) ≡ some (if p r then f r else r)
  this_row [] r e = cc
  this_row (t ∷ rs) r e = elim (Bool-cases (str_eq (row_id t) id)) [
    | inl d ↦
        let same : t ≡ r = some_inj (rw d at e) in
        elim (Bool-cases (p t)) [
          | inl q ↦
              let stays : str_eq (row_id (f t)) id ≡ true =
                subst (λ y. str_eq y id ≡ true) (sym (keeps t)) d in
              rw (d, q, stays)
                (subst (λ z. some (f t) ≡ some (if p z then f z else z)) same (rw q refl))
          | inr q ↦
              rw (d, q, d) (subst (λ z. some t ≡ some (if p z then f z else z)) same (rw q refl))
        ]
    | inr d ↦ rw (d, d) (this_row rs r (rw d at e))
  ]

-- The folder that a move names is a row.
live_folder-row :
    (p : Text) (rows : List VaultRow)
    → any (λ r. str_eq (row_id r) p && is_folder r.item && is_live r) rows ≡ true
    → (r : VaultRow) × (row_of p rows ≡ some r)
live_folder-row p [] h = cc
live_folder-row p (r ∷ rs) h = elim (Bool-cases (str_eq (row_id r) p)) [
  | inl e ↦ (r, rw e refl)
  | inr e ↦ rw e (live_folder-row p rs (rw e at h))
]

module _ (group id : Text) (revision now : ℕ) (e : Edit) (v : Vault) (tree : IsTree v.rows) where
  abbrev allowed : VaultRow → Bool
  allowed = open_to group id revision now e v

  abbrev moved : VaultRow → VaultRow
  moved = stamped (suc v.seq) (edited now e)

  abbrev rows_after : List VaultRow
  rows_after = update_where (is_named id allowed) moved v.rows

  -- A move to a folder that lies outside the item's tree.
  guarded_move :
      (p : Text) (r : VaultRow)
      → e.move ≡ some (some p)
      → allowed r ≡ true
      → Rooted v.rows p × (contains p (subtree id v.rows) ≡ false)
  unfolding may_edit may_move live_folder next_vault_seq
  guarded_move p r m a =
      let given : may_move id e.move (next_vault_seq v) ≡ true = ground (arith, a) in
      let guard : may_move id (some (some p)) (next_vault_seq v) ≡ true =
        subst (λ t. may_move id t (next_vault_seq v) ≡ true) m given in
      let parts =
        and-true (live_folder p (next_vault_seq v)) (not (contains p (subtree id v.rows))) guard in
      let row = live_folder-row p v.rows parts.0 in (tree p row.0 row.1, ground (arith, parts.1))

  -- A row that is not moved keeps its folder.
  kept_parent :
      (r : VaultRow)
      → (allowed r ≡ false) ⊎ (e.move ≡ none)
      → (if allowed r then moved r else r).item.parent_id ≡ r.item.parent_id
  kept_parent r (inl a) = rw a refl
  kept_parent r (inr m) = elim (Bool-cases (allowed r)) [
    | inl a ↦ rw (a, m) refl
    | inr a ↦ rw a refl
  ]

  unmoved :
      (r : VaultRow)
      → row_of id v.rows ≡ some r
      → (allowed r ≡ false) ⊎ (e.move ≡ none)
      → (x : Text) → Rooted v.rows x
      → Rooted rows_after x
  unmoved r h k = same_parents-Rooted v.rows rows_after λ x t q. elim (Bool-cases (str_eq x id)) [
    | inr d ↦ (t, other_row id allowed moved (λ r. refl) v.rows x d ∙ q, refl)
    | inl d ↦
        let here : row_of id v.rows ≡ some t =
          subst (λ y. row_of y v.rows ≡ some t) ((str_eq_iff x id).0 d) q in
        let same : r ≡ t = some_inj (sym h ∙ here) in
        (
          if allowed t then moved t else t,
          subst (λ y. row_of y rows_after ≡ some (if allowed t then moved t else t))
              (sym ((str_eq_iff x id).0 d)) (this_row id allowed moved (λ r. refl) v.rows t here),
          subst (λ t. (if allowed t then moved t else t).item.parent_id ≡ t.item.parent_id) same
              (kept_parent r k),
        )
  ]

  -- The item that was edited, where it was moved.
  moved-Rooted :
      (r : VaultRow) (to : Option Text)
      → row_of id v.rows ≡ some r
      → allowed r ≡ true
      → e.move ≡ some to
      → Rooted rows_after id
  moved-Rooted r none h a m =
      at_root id (moved r) (this_row id allowed moved (λ r. refl) v.rows r h ∙ rw a refl)
        (rw m refl)
  moved-Rooted r (some p) h a m =
      let guard = guarded_move p r m a in
      below id p (moved r) (this_row id allowed moved (λ r. refl) v.rows r h ∙ rw a refl)
        (rw m refl)
        (outside-Rooted id v.rows rows_after (other_row id allowed moved (λ r. refl) v.rows) p
          guard.0 guard.1)

  Rooted-after :
      (r : VaultRow)
      → row_of id v.rows ≡ some r
      → (x : Text) → Rooted v.rows x
      → Rooted rows_after x
  Rooted-after r h = elim (Bool-cases (allowed r)) [
    | inr a ↦ unmoved r h (inl a)
    | inl a ↦ elim (Option-cases e.move) [
      | inl m ↦ unmoved r h (inr m)
      | inr (to, m) ↦
          changed-Rooted id v.rows rows_after (other_row id allowed moved (λ r. refl) v.rows)
            (moved-Rooted r to h a m)
    ]
  ]

  none_after : row_of id v.rows ≡ none → rows_after ≡ v.rows
  none_after h = update_where_idle (is_named id allowed) moved v.rows (absent v.rows h)
    where
      absent :
          (rows : List VaultRow) → row_of id rows ≡ none → any (is_named id allowed) rows ≡ false
      absent [] h = refl
      absent (r ∷ rs) h = ground (arith, absent rs, h)

  IsTree-after : IsTree rows_after
  IsTree-after x s q = elim (Option-cases (row_of id v.rows)) [
    | inl h ↦ subst IsTree (sym (none_after h)) tree x s q
    | inr (r, h) ↦ elim (Bool-cases (str_eq x id)) [
      | inl d ↦
          subst (Rooted rows_after) (sym ((str_eq_iff x id).0 d))
            (Rooted-after r h id (tree id r h))
      | inr d ↦
          Rooted-after r h x
            (tree x s (sym (other_row id allowed moved (λ r. refl) v.rows x d) ∙ q))
    ]
  ]

  -- An edit, whatever it moves and wherever to, keeps every row's folders leading to the root, where
  -- they did: its guard refuses a folder that lies in the item itself.
  pub write_edit-IsTree : IsTree (write_edit group id revision now e v).1.rows
  write_edit-IsTree = subst IsTree (sym (write_edit-rows group id revision now e v)) IsTree-after
