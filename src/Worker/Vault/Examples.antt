-- ===== src/Worker/Vault/Examples.antt =====
-- The theorems on the vault's writes, at the note of the sample vault.
use sendself.Base.{
  true, All, ◌<◌, none, some, ◌≡◌, refl, subst, inl, inr, txt, str_eq, str_eq_iff, Bool-cases,
}
use sendself.Shared.Vault.{VaultItem, folder, note, file}
use sendself.Worker.Vault.{
  Vault, VaultRow, is_live, row_of, stamped, vault_item, next_vault_seq, update_row, changes,
}
use sendself.Worker.Vault.Edits.{Edit, write_edit, edited, may_edit, may_move, may_claim}
use sendself.Worker.Vault.Conflicts.{write_edit-lands, write_edit-once}
use sendself.Worker.Vault.Moves.{IsTree, Rooted, at_root, below, write_edit-IsTree}
use sendself.Worker.Vault.Sample.{sample_vault, sample_item, sample_row, sample-IsVault}

-- Moves an item to the trash.
abbrev trashing : Edit
trashing = record { move = none; seal = none; blob = none; trash = some (some 7) }

abbrev trashed_note : VaultItem
trashed_note =
    (stamped 5 (edited 7 trashing) (sample_row (sample_item "n" (some (txt "f")) note 3))).item

abbrev edited_vault : Vault
edited_vault = (write_edit (txt "g") (txt "n") 1 7 trashing sample_vault).1

write_edit-lands_example :
    (r : VaultRow) × (row_of (txt "n") sample_vault.rows ≡ some r)
    × (r.item.revision ≡ 1)
    × (is_live r ≡ true)
    × (trashed_note ≡ (stamped 5 (edited 7 trashing) r).item)
    × (trashed_note.revision ≡ 2)
    × All (λ (q : VaultRow). q.item.seq < 5) sample_vault.rows
    × (vault_item (txt "n") edited_vault ≡ some trashed_note)
unfolding write_edit next_vault_seq update_row changes vault_item may_edit may_move may_claim str_eq
write_edit-lands_example =
    write_edit-lands (txt "g") (txt "n") 1 7 trashing sample_vault trashed_note sample-IsVault refl

write_edit-once_example :
    ((write_edit (txt "g") (txt "n") 1 8 trashing edited_vault).0 ≡ none)
    × ((write_edit (txt "g") (txt "n") 1 8 trashing edited_vault).1.rows ≡ edited_vault.rows)
unfolding write_edit next_vault_seq update_row changes vault_item may_edit may_move may_claim str_eq
write_edit-once_example =
    write_edit-once (txt "g") (txt "n") 1 7 trashing sample_vault trashed_note (txt "g") 8 trashing
      refl

-- Moves the note out of the folder.
abbrev moving : Edit
moving = record { move = some none; seal = none; blob = none; trash = none }

sample-IsTree : IsTree sample_vault.rows
unfolding str_eq
sample-IsTree x r e = elim (Bool-cases (str_eq (txt "f") x)) [
  | inl a ↦ subst (Rooted sample_vault.rows) ((str_eq_iff (txt "f") x).0 a) folder_rooted
  | inr a ↦ elim (Bool-cases (str_eq (txt "n") x)) [
    | inl b ↦ subst (Rooted sample_vault.rows) ((str_eq_iff (txt "n") x).0 b) (
        below (txt "n") (txt "f") (sample_row (sample_item "n" (some (txt "f")) note 3)) refl refl
          folder_rooted)
    | inr b ↦ elim (Bool-cases (str_eq (txt "t") x)) [
      | inl c ↦ subst (Rooted sample_vault.rows) ((str_eq_iff (txt "t") x).0 c) (
          at_root (txt "t") (record { item = sample_item "t" none file 4; removed_at = some 900 })
            refl refl)
      | inr c ↦ cc (rw (a, b, c) at e)
    ]
  ]
]
  where
    folder_rooted : Rooted sample_vault.rows (txt "f")
    folder_rooted = at_root (txt "f") (sample_row (sample_item "f" none folder 2)) refl refl

write_edit-IsTree_example : IsTree (write_edit (txt "g") (txt "n") 1 7 moving sample_vault).1.rows
write_edit-IsTree_example =
    write_edit-IsTree (txt "g") (txt "n") 1 7 moving sample_vault sample-IsTree
