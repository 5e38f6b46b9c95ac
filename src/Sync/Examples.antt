-- ===== src/Sync/Examples.antt =====
-- The theorems on the copy, at a vault of three rows and at devices that pull from it.
use sendself.Base.{
  suc, true, false, none, order_by, insert_sorted, some, [], ◌∷◌, ◌≡◌, refl, map, inl, repeat, txt,
  str_eq,
}
use sendself.Http.{str}
use sendself.Shared.Vault.{VaultChangesResponse, folder, note}
use sendself.Worker.Sample.{sample_world, sample_server, owner_header}
use sendself.Worker.Vault.{Vault}
use sendself.Worker.Vault.Requests.{delete_vault_item}
use sendself.Worker.Vault.Changes.{changes_since, must_reset, page_of}
use sendself.Worker.Vault.Rows.{Writes_refl}
use sendself.Worker.Vault.Sample.{sample_vault, sample-IsVault, sample_item}
use sendself.Client.Vault.{
  pull_vault_changes, apply_vault_changes, pull_pages, fold_page, fold_items, fold_removed, put,
  add_id, delete, remove_id,
}
use sendself.Sync.{IsUpToDate, IsAmong, answer_of}
use sendself.Sync.Pulling.{Outcome, pull_vault_changes-Outcome}
use sendself.Sync.Ending.{pull_vault_changes-IsUpToDate}
use sendself.Sync.Session.{started, stepped, deleted, Run-IsUpToDate, Step-keeps, Keeps}
use sendself.Worker.Vault.Rows.{IsVault}

-- What a new device is told.
abbrev first_changes : VaultChangesResponse
first_changes = record {
  items = sample_item "f" none folder 2 ∷ sample_item "n" (some (txt "f")) note 3 ∷ [];
  removed = txt "t" ∷ [];
  cursor = 4;
  more = false;
  reset = true;
  usage = record { bytes = 0; items = 2 };
}

pull_vault_changes-Outcome_example :
    (u : Vault) × IsAmong u (sample_vault ∷ []) × Outcome [] first_changes u
unfolding pull_vault_changes pull_pages fold_page fold_items fold_removed changes_since must_reset
    page_of order_by insert_sorted str_eq put add_id delete remove_id
pull_vault_changes-Outcome_example =
    pull_vault_changes-Outcome [] 0 sample_vault (sample_vault ∷ []) first_changes sample-IsVault
      (inl refl) (Writes_refl sample_vault sample-IsVault, tt) refl

pull_vault_changes-IsUpToDate_example :
    (c : VaultChangesResponse) × (pull_vault_changes (map answer_of (repeat 5 sample_vault)) 0
      ≡ some c)
    × IsUpToDate (apply_vault_changes [] c) sample_vault
pull_vault_changes-IsUpToDate_example =
    pull_vault_changes-IsUpToDate [] 0 sample_vault sample-IsVault (inl refl)

-- The vault after the owner has deleted the folder.
abbrev emptied_vault : Vault
emptied_vault =
    (delete_vault_item sample_world sample_server owner_header (str (txt "f")) sample_vault).1

Step-keeps_example : IsVault emptied_vault × Keeps sample_vault emptied_vault
Step-keeps_example =
    Step-keeps sample_vault emptied_vault sample-IsVault
      (deleted sample_world sample_server owner_header (str (txt "f")) refl)

Run-IsUpToDate_example :
    (r : VaultChangesResponse) × (pull_vault_changes
        (map answer_of (repeat (suc emptied_vault.seq) emptied_vault))
        0
      ≡ some r)
    × IsUpToDate (apply_vault_changes [] r) emptied_vault
Run-IsUpToDate_example = Run-IsUpToDate emptied_vault 0 [] (
    stepped sample_vault emptied_vault 0 [] (started sample_vault sample-IsVault)
      (deleted sample_world sample_server owner_header (str (txt "f")) refl))
