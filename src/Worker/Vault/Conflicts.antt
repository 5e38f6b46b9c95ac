-- ===== src/Worker/Vault/Conflicts.antt =====
-- The compare-and-swap of an edit: the revision that it names is the item's when it is written.
use sendself.Base.{
  some_inj, ℕ, suc, ◌<◌, All, All-map, Bool, true, false, ◌&&◌, ◌≡◌, refl, sym, ap, ◌∙◌, subst, inl,
  inr, none, some, List, [], ◌∷◌, Text, str_eq, ◌==◌, count, update_where, update_where_idle, any,
  Bool-cases, and-true, arith, count-eq-zero_of_any, any-eq-true_of_count, IsKeyedBy, str_eq_iff,
}
use sendself.Shared.Vault.{VaultItem}
use sendself.Worker.Vault.{
  Vault, VaultRow, row_id, row_of, is_live, is_named, stamped, next_vault_seq, update_row, changes,
  vault_item,
}
use sendself.Worker.Vault.Changes.{row_seq}
use sendself.Worker.Vault.Rows.{IsVault, IsUpTo}
use sendself.Worker.Vault.Edits.{Edit, may_edit, may_move, may_claim, edited, write_edit}

module _ (id : Text) (p : VaultRow → Bool) where
  other_id :
      (r t : VaultRow) (rs : List VaultRow)
      → row_of (row_id r) rs ≡ none
      → row_of id rs ≡ some t
      → str_eq (row_id r) id ≡ false
  other_id r t rs k e = elim (Bool-cases (str_eq (row_id r) id)) [
    | inr d ↦ d
    | inl d ↦ cc (sym e ∙ subst (λ y. row_of y rs ≡ none) ((str_eq_iff (row_id r) id).0 d) k)
  ]

  named_row :
      (rows : List VaultRow)
      → IsKeyedBy row_id rows
      → any (is_named id p) rows ≡ true
      → (r : VaultRow) × (row_of id rows ≡ some r) × (p r ≡ true)
  named_row [] k h = cc
  named_row (r ∷ rs) k h = elim (Bool-cases (is_named id p r)) [
    | inl q ↦ let here = and-true (str_eq (row_id r) id) (p r) q in (r, rw (here.0) refl, here.1)
    | inr q ↦
        let rest = named_row rs k.1 (rw q at h) in
        (rest.0, rw (other_id r rest.0 rs k.0 rest.1) rest.1, rest.2)
  ]

  updated_row :
      (f : VaultRow → VaultRow) (r : VaultRow)
      → row_id (f r) ≡ row_id r
      → p r ≡ true
      → (rows : List VaultRow) → row_of id rows ≡ some r
      → row_of id (update_where (is_named id p) f rows) ≡ some (f r)
  updated_row f r same q [] e = cc
  updated_row f r same q (t ∷ rs) e = elim (Bool-cases (str_eq (row_id t) id)) [
    | inl d ↦
        let eq : t ≡ r = some_inj (rw d at e) in
        let pt : p t ≡ true = subst (λ y. p y ≡ true) (sym eq) q in
        let fd : str_eq (row_id (f t)) id ≡ true =
          subst (λ y. str_eq (row_id (f y)) id ≡ true) (sym eq)
            (subst (λ y. str_eq y id ≡ true) (sym same)
              (subst (λ y. str_eq (row_id y) id ≡ true) eq d)) in
        rw (d, pt, fd) (ap (λ y. some (f y)) eq)
    | inr d ↦ rw (d, d) (updated_row f r same q rs (rw d at e))
  ]

module _ (group id : Text) (revision now : ℕ) (e : Edit) where
  -- The rows that an edit may change.
  abbrev pub open_to : Vault → VaultRow → Bool
  open_to v = may_edit group id revision e (next_vault_seq v)

  write_edit-some :
      (v : Vault) (i : VaultItem)
      → (write_edit group id revision now e v).0 ≡ some i
      → count (is_named id (open_to v)) v.rows ≡ 1
  unfolding write_edit changes next_vault_seq
  write_edit-some v i h = elim (Bool-cases (count (is_named id (open_to v)) v.rows == 1)) [
    | inl q ↦ ground (arith, q)
    | inr q ↦ cc (rw q at h)
  ]

  pub write_edit-rows :
      (v : Vault)
      → (write_edit group id revision now e v).1.rows
        ≡ update_where (is_named id (open_to v)) (stamped (suc v.seq) (edited now e)) v.rows
  unfolding write_edit update_row next_vault_seq
  write_edit-rows v = refl

  -- An edit against a revision that the item does not have any more is refused and changes no row.
  write_edit-stale :
      (v : Vault)
      → any (is_named id (λ r. r.item.revision == revision && is_live r)) v.rows ≡ false
      → ((write_edit group id revision now e v).0 ≡ none)
        × ((write_edit group id revision now e v).1.rows ≡ v.rows)
  unfolding write_edit changes next_vault_seq may_edit
  write_edit-stale v h =
      let idle : any (is_named id (open_to v)) v.rows ≡ false = shut v.rows h in
      (
        rw (count-eq-zero_of_any (is_named id (open_to v)) v.rows idle) refl,
        write_edit-rows v
            ∙ update_where_idle (is_named id (open_to v)) (stamped (suc v.seq) (edited now e))
                v.rows idle,
      )
    where
      shut :
          (rows : List VaultRow)
          → any (is_named id (λ r. r.item.revision == revision && is_live r)) rows ≡ false
          → any (is_named id (open_to v)) rows ≡ false
      shut [] h = refl
      shut (r ∷ rs) h = ground (arith, shut rs, h)

module _ (group id : Text) (revision now : ℕ) (e : Edit) where
  abbrev guards : Vault → Bool
  guards v = may_move id e.move (next_vault_seq v) && may_claim group e.blob (next_vault_seq v)

  guards_hold :
      (v : Vault) (rows : List VaultRow)
      → any (is_named id (open_to group id revision now e v)) rows ≡ true
      → guards v ≡ true
  unfolding may_edit
  guards_hold v [] h = cc
  guards_hold v (r ∷ rs) h = ground (arith, guards_hold v rs)

  -- What an edit has written does not have the revision any more.
  passed_on :
      (v : Vault) (n : ℕ) (rows : List VaultRow)
      → guards v ≡ true
      → any (is_named id (λ r. r.item.revision == revision && is_live r)) (
          update_where
            (is_named id (open_to group id revision now e v))
            (stamped n (edited now e))
            rows)
        ≡ false
  unfolding may_edit
  passed_on v n [] g = refl
  passed_on v n (r ∷ rs) g = elim (Bool-cases (is_named id (open_to group id revision now e v) r)) [
    | inl q ↦ rw q (ground (arith, passed_on v n rs g, q))
    | inr q ↦ rw q (ground (arith, passed_on v n rs g, q, g))
  ]

  newer :
      (v : Vault) (rows : List VaultRow)
      → All (IsUpTo v.seq) rows
      → All (λ (q : VaultRow). row_seq q < suc v.seq) rows
  newer v rows =
      All-map (IsUpTo v.seq) (λ (q : VaultRow). row_seq q < suc v.seq) (λ q up. omega (arith, up.1))
        rows

  -- An edit of a well-formed vault that lands was made against the revision of a live item. The item
  -- that it answers is what the edit makes of the old one, at the next revision and with a change
  -- number that is above that of every row, so that no row had it; and that item is what the vault
  -- then holds under the id.
  pub write_edit-lands :
      (v : Vault) (i : VaultItem)
      → IsVault v
      → (write_edit group id revision now e v).0 ≡ some i
      → (r : VaultRow) × (row_of id v.rows ≡ some r)
        × (r.item.revision ≡ revision)
        × (is_live r ≡ true)
        × (i ≡ (stamped (suc v.seq) (edited now e) r).item)
        × (i.revision ≡ suc revision)
        × All (λ (q : VaultRow). row_seq q < i.seq) v.rows
        × (vault_item id (write_edit group id revision now e v).1 ≡ some i)
  unfolding write_edit changes next_vault_seq update_row may_edit vault_item
  write_edit-lands v i k h =
      let one = write_edit-some group id revision now e v i h in
      let found = named_row id (open_to group id revision now e v) v.rows (k.keyed) (
        any-eq-true_of_count (is_named id (open_to group id revision now e v)) v.rows
          (omega (arith, one))) in
      let allowed : open_to group id revision now e v found.0 ≡ true = found.2 in
      let alive : is_live found.0 ≡ true = ground (arith, allowed) in
      let moved =
        updated_row id (open_to group id revision now e v) (stamped (suc v.seq) (edited now e))
          found.0 refl allowed v.rows found.1 in
      let stored : vault_item id (write_edit group id revision now e v).1
          ≡ some (stamped (suc v.seq) (edited now e) found.0).item =
        rw (moved, alive) refl in
      let answered : (write_edit group id revision now e v).0
          ≡ vault_item id (write_edit group id revision now e v).1 =
        rw one refl in
      let same : i ≡ (stamped (suc v.seq) (edited now e) found.0).item =
        some_inj (sym h ∙ answered ∙ stored) in
      let based : found.0.item.revision ≡ revision = ground (arith, allowed) in
      (
        found.0,
        found.1,
        based,
        alive,
        same,
        ap (λ (j : VaultItem). j.revision) same ∙ ap suc based,
        subst (λ (j : VaultItem). All (λ (q : VaultRow). row_seq q < j.seq) v.rows) (sym same)
            (newer v v.rows (k.up_to)),
        stored ∙ ap some (sym same),
      )

  -- Of two edits against the same revision, whatever is in them, at most one lands: the second is
  -- refused and changes no row.
  pub write_edit-once :
      (v : Vault) (i : VaultItem) (group' : Text) (now' : ℕ) (e' : Edit)
      → (write_edit group id revision now e v).0 ≡ some i
      → ((write_edit group' id revision now' e' (write_edit group id revision now e v).1).0 ≡ none)
        × ((write_edit group' id revision now' e' (write_edit group id revision now e v).1).1.rows
            ≡ (write_edit group id revision now e v).1.rows)
  write_edit-once v i group' now' e' h =
      let guarded : guards v ≡ true = guards_hold v v.rows (
        any-eq-true_of_count (is_named id (open_to group id revision now e v)) v.rows
          (omega (arith, write_edit-some group id revision now e v i h))) in
      let gone =
        subst
          (λ rows. any (is_named id (λ r. r.item.revision == revision && is_live r)) rows ≡ false)
          (sym (write_edit-rows group id revision now e v))
          (passed_on v (suc v.seq) v.rows guarded) in
      write_edit-stale group' id revision now' e' (write_edit group id revision now e v).1 gone
