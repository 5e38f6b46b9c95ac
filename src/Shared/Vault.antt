-- ===== src/Shared/Vault.antt =====
-- The vault in packages/shared/src/index.ts: its limits, its items, and the answers about them.
use sendself.Base.{ℕ, ◌*◌, Bool, Option, List, Text}

-- `VAULT_MAX_ITEMS`
abbrev pub vault_max_items : ℕ
vault_max_items = 10000

-- `VAULT_PAGE_SIZE`
abbrev pub vault_page_size : ℕ
vault_page_size = 500

-- `VAULT_RESEAL_BATCH`
abbrev pub vault_reseal_batch : ℕ
vault_reseal_batch = 100

-- `VAULT_TRASH_TTL_MS`
abbrev pub vault_trash_ttl : ℕ
vault_trash_ttl = 30 * 24 * 60 * 60 * 1000

-- `VAULT_TOMBSTONE_TTL_MS`
abbrev pub vault_tombstone_ttl : ℕ
vault_tombstone_ttl = 90 * 24 * 60 * 60 * 1000

-- `VAULT_ITEM_KINDS`
pub data VaultItemKind : Type 0 where
  folder note file : VaultItemKind

-- `VaultItemRecord`. The three columns that a purge empties are `Option`s, as in the table: the cast
-- of a row to this record checks nothing.
pub record VaultItem : Type 0 where
  pub id : Text
  pub parent_id : Option Text
  pub kind : VaultItemKind
  pub key_epoch : Option ℕ
  pub meta : Option Text
  pub meta_iv : Option Text
  pub blob_key : Option Text
  pub blob_size : ℕ
  pub revision : ℕ
  pub created_at : ℕ
  pub updated_at : ℕ
  pub trashed_at : Option ℕ
  pub seq : ℕ

pub record VaultUsage : Type 0 where
  pub bytes : ℕ
  pub items : ℕ

pub record VaultChangesResponse : Type 0 where
  pub items : List VaultItem
  pub removed : List Text
  pub cursor : ℕ
  pub more : Bool
  pub reset : Bool
  pub usage : VaultUsage
