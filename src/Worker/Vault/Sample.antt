-- ===== src/Worker/Vault/Sample.antt =====
-- The vault of the examples: a folder, a note in it, a file in the trash, and a tombstone.
use sendself.Base.{ℕ, none, some, Option, [], ◌∷◌, refl, Text, txt, str_eq, String, arith}
use sendself.Shared.Vault.{VaultItem, VaultItemKind, folder, note, file}
use sendself.Worker.Blobs.{Store}
use sendself.Worker.Vault.{Vault, VaultRow}
use sendself.Worker.Vault.Rows.{IsVault}

abbrev pub sample_item : String → Option Text → VaultItemKind → ℕ → VaultItem
sample_item id parent kind seq = record {
  id = txt id;
  parent_id = parent;
  kind = kind;
  key_epoch = some 1;
  meta = some (txt "meta");
  meta_iv = some (txt "iv");
  blob_key = none;
  blob_size = 0;
  revision = 1;
  created_at = 1;
  updated_at = 1;
  trashed_at = none;
  seq = seq;
}

abbrev pub sample_row : VaultItem → VaultRow
sample_row i = record { item = i; removed_at = none }

abbrev pub sample_store : Store
sample_store = record { rows = []; objects = [] }

abbrev pub sample_vault : Vault
sample_vault = record {
  seq = 4;
  floor = 1;
  rows =
      sample_row (sample_item "f" none folder 2)
      ∷ sample_row (sample_item "n" (some (txt "f")) note 3)
      ∷ record { item = sample_item "t" none file 4; removed_at = some 900 }
      ∷ [];
  blobs = sample_store;
}

pub sample-IsVault : IsVault sample_vault
unfolding str_eq
sample-IsVault = record {
  keyed = (refl, (refl, (refl, tt)));
  own_seqs = ((refl, (refl, tt)), ((refl, tt), (tt, tt)));
  up_to =
      ((omega arith, omega arith), ((omega arith, omega arith), ((omega arith, omega arith), tt)));
}
