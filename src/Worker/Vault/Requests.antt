-- ===== src/Worker/Vault/Requests.antt =====
-- apps/worker/src/routes/vault.ts: the handlers that write to the vault. `announce`, which tells the
-- other devices to sync, changes no state.
use sendself.Base.{
  ℕ, Bool, true, false, ◌&&◌, not, Option, none, some, List, [], ◌∷◌, ◌++◌, Text, txt, str_eq,
  opt_eq, any, count, leb, ltb, ◌==◌, if◌then◌else◌, is_none,
}
use sendself.Errors.{
  Result, ok, err, bad_request, not_found, conflict, key_rotated, quota_exceeded, ◌>>=◌, ◌>>◌,
  refuse_if, or_fail,
}
use sendself.Http.{Value, undefined, null, str, require_string, require_int, require_id}
use sendself.Shared.Vault.{VaultItem, VaultItemKind, folder, note, file, vault_max_items}
use sendself.Worker.Tables.{Server, World}
use sendself.Worker.Auth.{AuthContext, authenticate, rate_limit}
use sendself.Worker.Blobs.{blob_size, is_row, reserved_for_deletion}
use sendself.Worker.Messages.Request.{max_safe_integer}
use sendself.Worker.Vault.{
  Vault, VaultRow, row_id, row_of, is_live, vault_item, next_vault_seq, purge_vault_item,
}

module _ (w : World) (s : Server) where
  unfoldable pub vault_auth : Text → Bool → Result AuthContext
  vault_auth header write = do
    auth ← authenticate w s header
    (if write then rate_limit w else ok tt)
    ok auth

abbrev pub is_kind : Value → Option VaultItemKind
is_kind (str k) =
    if str_eq k (txt "folder")
    then some folder
    else if str_eq k (txt "note")
    then some note
    else if str_eq k (txt "file")
    then some file
    else none
is_kind _ = none

abbrev pub kind_eq : VaultItemKind → VaultItemKind → Bool
kind_eq folder folder = true
kind_eq note note = true
kind_eq file file = true
kind_eq _ _ = false

unfoldable pub require_kind : Value → Result VaultItemKind
require_kind v = or_fail (is_kind v) bad_request

unfoldable pub parent_id_of : Value → Result (Option Text)
parent_id_of undefined = ok none
parent_id_of null = ok none
parent_id_of v = do p ← require_id v; ok (some p)

unfoldable pub require_current_epoch : AuthContext → Value → Result ℕ
require_current_epoch auth v = do
  epoch ← require_int v 1 max_safe_integer
  refuse_if (not (epoch == auth.group_key_epoch)) key_rotated
  ok epoch

abbrev pub is_folder : VaultItem → Bool
is_folder i = kind_eq i.kind folder

unfoldable pub require_folder : Text → Vault → Result (Unit {0})
unfolding vault_item
require_folder id v = do
  parent ← or_fail (vault_item id v) not_found
  refuse_if (not (is_folder parent)) not_found

-- A live item with this blob key.
abbrev pub owns_blob : Text → VaultRow → Bool
owns_blob key r = opt_eq r.item.blob_key (some key) && is_live r

unfoldable pub require_fresh_blob : Text → Text → Vault → Result ℕ
require_fresh_blob group key v = do
  size ← or_fail (blob_size group key v.blobs.rows) bad_request
  refuse_if (any (owns_blob key) v.rows) conflict
  ok size

-- `BLOB_CLAIMABLE`
unfoldable pub blob_claimable : Text → Text → Vault → Bool
blob_claimable group key v =
    not (any (owns_blob key) v.rows)
    && any (λ u. is_row group key u && not (u.created_at == reserved_for_deletion)) v.blobs.rows

-- `LIVE_FOLDER`
unfoldable pub live_folder : Text → Vault → Bool
live_folder id v = any (λ r. str_eq (row_id r) id && is_folder r.item && is_live r) v.rows

-- `? IS NULL OR …`
abbrev pub null_or : (Text → Bool) → Option Text → Bool
null_or p none = true
null_or p (some x) = p x

-- A request's `blobKey` of a new item: a folder has none.
unfoldable pub new_blob_key : VaultItemKind → Value → Result (Option Text)
new_blob_key folder undefined = ok none
new_blob_key folder _ = err bad_request
new_blob_key _ v = do key ← require_id v; ok (some key)

pub record CreateVaultItemRequest : Type 0 where
  pub id : Value
  pub parent_id : Value
  pub kind : Value
  pub key_epoch : Value
  pub meta : Value
  pub meta_iv : Value
  pub blob_key : Value

-- The fields that were checked, and the size of the blob as the check read it.
pub record NewItem : Type 0 where
  pub id : Text
  pub parent_id : Option Text
  pub kind : VaultItemKind
  pub key_epoch : ℕ
  pub meta : Text
  pub meta_iv : Text
  pub blob_key : Option Text

unfoldable pub parse_new_item : AuthContext → CreateVaultItemRequest → Result NewItem
unfolding require_kind parent_id_of require_current_epoch new_blob_key
parse_new_item auth body = do
  id ← require_id body.id
  kind ← require_kind body.kind
  parent ← parent_id_of body.parent_id
  epoch ← require_current_epoch auth body.key_epoch
  meta ← require_string body.meta 8192
  meta_iv ← require_string body.meta_iv 64
  blob_key ← new_blob_key kind body.blob_key
  ok (record {
    id = id;
    parent_id = parent;
    kind = kind;
    key_epoch = epoch;
    meta = meta;
    meta_iv = meta_iv;
    blob_key = blob_key;
  })

-- The same sealed metadata: the request again, retried after its answer was lost.
abbrev pub is_retry : NewItem → VaultItem → Bool
is_retry n i =
    opt_eq i.meta (some n.meta) && opt_eq i.meta_iv (some n.meta_iv) && kind_eq i.kind n.kind

-- The checks before the write: the folder and the size of the blob.
unfoldable pub check_new_item : Text → NewItem → Vault → Result ℕ
unfolding require_folder require_fresh_blob
check_new_item group n v = do
  elim (n.parent_id) [ none ↦ ok tt | some p ↦ require_folder p v ]
  elim (n.blob_key) [ none ↦ ok 0 | some key ↦ require_fresh_blob group key v ]

abbrev pub new_row_of : ℕ → ℕ → NewItem → ℕ → VaultRow
new_row_of size now n seq = record {
  item = record {
    id = n.id;
    parent_id = n.parent_id;
    kind = n.kind;
    key_epoch = some n.key_epoch;
    meta = some n.meta;
    meta_iv = some n.meta_iv;
    blob_key = n.blob_key;
    blob_size = size;
    revision = 1;
    created_at = now;
    updated_at = now;
    trashed_at = none;
    seq = seq;
  };
  removed_at = none;
}

abbrev pub live_count : Vault → ℕ
live_count v = count is_live v.rows

-- The WHERE of the INSERT.
unfoldable pub may_insert_item : Text → NewItem → Vault → Bool
unfolding live_folder blob_claimable
may_insert_item group n v =
    ltb (live_count v) vault_max_items
    && null_or (λ p. live_folder p v) n.parent_id
    && null_or (λ key. blob_claimable group key v) n.blob_key
    && is_none (row_of n.id v.rows)

-- The batch: the change number, and the INSERT where it may.
unfoldable pub insert_item : Text → ℕ → ℕ → NewItem → Vault → Option VaultItem × Vault
unfolding next_vault_seq may_insert_item
insert_item group size now n v =
    let taken = next_vault_seq v in
    let row = new_row_of size now n taken.seq in
    if may_insert_item group n taken
    then (some row.item, record taken { rows = taken.rows ++ row ∷ [] })
    else (none, taken)

-- The write of a new item, and what the request answers.
unfoldable pub create_item : AuthContext → ℕ → NewItem → Vault → Result VaultItem × Vault
unfolding check_new_item insert_item vault_item
create_item auth now n v = elim (vault_item n.id v) [
  | some i ↦ (if is_retry n i then ok i else err conflict, v)
  | none ↦ elim (check_new_item auth.group_id n v) [
    | err e ↦ (err e, v)
    | ok size ↦
        let written = insert_item auth.group_id size now n v in
        elim (written.0) [
          | some i ↦ (ok i, written.1)
          | none ↦ (
            err (if leb vault_max_items (live_count written.1) then quota_exceeded else conflict),
            written.1,
          )
        ]
  ]
]

module _ (w : World) (s : Server) where
  unfoldable pub create_vault_item :
      Text → CreateVaultItemRequest → Vault → Result VaultItem × Vault
  unfolding vault_auth parse_new_item create_item
  create_vault_item header body v = elim (vault_auth w s header true) [
    | err e ↦ (err e, v)
    | ok auth ↦ elim (parse_new_item auth body) [
      | err e ↦ (err e, v)
      | ok n ↦ create_item auth w.now n v
    ]
  ]

  unfoldable pub delete_vault_item : Text → Value → Vault → Result (Option (List Text)) × Vault
  unfolding vault_auth vault_item purge_vault_item
  delete_vault_item header param v = elim (vault_auth w s header true) [
    | err e ↦ (err e, v)
    | ok auth ↦ elim (require_id param) [
      | err e ↦ (err e, v)
      | ok id ↦
          let purged = purge_vault_item w.bucket_up auth.group_id 2 w.now id v in
          if is_none (vault_item id v) then (err not_found, v) else (ok purged.0, purged.1)
    ]
  ]
