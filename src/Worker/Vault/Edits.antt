-- ===== src/Worker/Vault/Edits.antt =====
-- apps/worker/src/routes/vault.ts: the edit of an item, and the sealing of metadata under a new key.
use sendself.Base.{
  contains, ℕ, suc, Bool, true, false, ◌&&◌, ◌||◌, not, Option, none, some, List, [], ◌∷◌, Text,
  str_eq, opt_eq, length, ltb, ◌==◌, if◌then◌else◌, is_none,
}
use sendself.Errors.{
  Result, ok, err, bad_request, not_found, conflict, ◌>>=◌, ◌>>◌, refuse_if, or_fail,
}
use sendself.Http.{Value, undefined, boolean, require_string, require_int, require_id}
use sendself.Shared.Vault.{VaultItem, vault_reseal_batch}
use sendself.Worker.Tables.{Server, World}
use sendself.Worker.Auth.{AuthContext}
use sendself.Worker.Blobs.{delete_blob}
use sendself.Worker.Messages.Request.{max_safe_integer}
use sendself.Worker.Vault.{
  Vault, VaultRow, is_live, vault_item, next_vault_seq, update_row, changes, subtree, is_claimed,
}
use sendself.Worker.Vault.Requests.{
  vault_auth, parent_id_of, require_current_epoch, is_folder, require_folder, require_fresh_blob,
  blob_claimable, live_folder,
}

-- `"parentId" in body` is whether the field `parent_id` is there.
pub record UpdateVaultItemRequest : Type 0 where
  pub revision : Value
  pub parent_id : Option Value
  pub key_epoch : Value
  pub meta : Value
  pub meta_iv : Value
  pub blob_key : Value
  pub trashed : Value

-- What a request seals: the columns that one write sets together.
pub record Seal : Type 0 where
  pub key_epoch : ℕ
  pub meta : Text
  pub meta_iv : Text

pub record NewBlob : Type 0 where
  pub key : Text
  pub size : ℕ

-- `sets` and `guards`: each column that the statement sets, and the new parent that it checks.
pub record Edit : Type 0 where
  pub move : Option (Option Text)
  pub seal : Option Seal
  pub blob : Option NewBlob
  pub trash : Option (Option ℕ)

abbrev is_defined : Value → Bool
is_defined undefined = false
is_defined _ = true

-- The folder that an item is moved to.
unfoldable pub check_folder : Text → Option Text → Vault → Result (Unit {0})
unfolding require_folder
check_folder id none v = ok tt
check_folder id (some p) v = do refuse_if (str_eq p id) bad_request; require_folder p v

unfoldable pub parse_move : Text → VaultItem → Option Value → Vault → Result (Option (Option Text))
unfolding parent_id_of check_folder
parse_move id item none v = ok none
parse_move id item (some field) v = do
  parent ← parent_id_of field
  elim (opt_eq parent item.parent_id) [
    | true ↦ ok none
    | false ↦ do check_folder id parent v; ok (some parent)
  ]

unfoldable pub is_sealing : UpdateVaultItemRequest → Bool
is_sealing body = is_defined body.meta || is_defined body.meta_iv

unfoldable pub parse_seal : AuthContext → UpdateVaultItemRequest → Result (Option Seal)
unfolding is_sealing require_current_epoch
parse_seal auth body = elim (is_sealing body || is_defined body.key_epoch) [
  | false ↦ ok none
  | true ↦ do
    epoch ← require_current_epoch auth body.key_epoch
    meta ← require_string body.meta 8192
    meta_iv ← require_string body.meta_iv 64
    ok (some (record { key_epoch = epoch; meta = meta; meta_iv = meta_iv }))
]

unfoldable pub parse_blob :
    Text → VaultItem → UpdateVaultItemRequest → Vault → Result (Option NewBlob)
unfolding is_sealing require_fresh_blob
parse_blob group item body v = elim (is_defined body.blob_key) [
  | false ↦ ok none
  | true ↦ do
    refuse_if (is_folder item) bad_request
    refuse_if (not (is_sealing body)) bad_request
    key ← require_id body.blob_key
    elim (opt_eq (some key) item.blob_key) [
      | true ↦ ok none
      | false ↦ do
        size ← require_fresh_blob group key v
        ok (some (record { key = key; size = size }))
    ]
]

-- `item.trashedAt ?? Date.now()`
unfoldable pub parse_trash : ℕ → VaultItem → Value → Result (Option (Option ℕ))
parse_trash now item undefined = ok none
parse_trash now item (boolean false) = ok (some none)
parse_trash now item (boolean true) =
    ok (some (some (elim (item.trashed_at) [ none ↦ now | some t ↦ t ])))
parse_trash now item _ = err bad_request

unfoldable pub parse_edit :
    AuthContext → ℕ → VaultItem → UpdateVaultItemRequest → Vault → Result Edit
unfolding parse_move parse_seal parse_blob parse_trash
parse_edit auth now item body v = do
  move ← parse_move item.id item body.parent_id v
  seal ← parse_seal auth body
  blob ← parse_blob auth.group_id item body v
  trash ← parse_trash now item body.trashed
  ok (record { move = move; seal = seal; blob = blob; trash = trash })

-- `sets.length === 0`
abbrev pub is_empty_edit : Edit → Bool
is_empty_edit e = is_none e.move && is_none e.seal && is_none e.blob && is_none e.trash

abbrev or_old : {A : Type 0} → Option A → A → A
or_old none a = a
or_old (some b) a = b

-- The SET of the edit.
abbrev pub edited : ℕ → Edit → VaultRow → VaultRow
edited now e r =
    let i = r.item in
    record r {
      item = record i {
        parent_id = or_old e.move i.parent_id;
        key_epoch = elim (e.seal) [ none ↦ i.key_epoch | some s ↦ some s.key_epoch ];
        meta = elim (e.seal) [ none ↦ i.meta | some s ↦ some s.meta ];
        meta_iv = elim (e.seal) [ none ↦ i.meta_iv | some s ↦ some s.meta_iv ];
        blob_key = elim (e.blob) [ none ↦ i.blob_key | some b ↦ some b.key ];
        blob_size = elim (e.blob) [ none ↦ i.blob_size | some b ↦ b.size ];
        trashed_at = or_old e.trash i.trashed_at;
        revision = suc i.revision;
        updated_at = now;
      };
    }

-- The guards of a move: the new parent is a live folder, and not inside the item.
unfoldable pub may_move : Text → Option (Option Text) → Vault → Bool
unfolding live_folder
may_move id none v = true
may_move id (some none) v = true
may_move id (some (some p)) v = live_folder p v && not (contains p (subtree id v.rows))

unfoldable pub may_claim : Text → Option NewBlob → Vault → Bool
unfolding blob_claimable
may_claim group none v = true
may_claim group (some b) v = blob_claimable group b.key v

-- The WHERE of the edit: the revision it was made against, and the guards.
unfoldable pub may_edit : Text → Text → ℕ → Edit → Vault → VaultRow → Bool
unfolding may_move may_claim
may_edit group id revision e v r =
    r.item.revision == revision && is_live r && may_move id e.move v && may_claim group e.blob v

-- The batch: the change number and the UPDATE, with the row that it wrote.
unfoldable pub write_edit : Text → Text → ℕ → ℕ → Edit → Vault → Option VaultItem × Vault
unfolding next_vault_seq changes update_row may_edit vault_item
write_edit group id revision now e v =
    let taken = next_vault_seq v in
    let written = update_row id (may_edit group id revision e taken) (edited now e) taken in
    (
      if changes id (may_edit group id revision e taken) taken == 1
          then vault_item id written
          else none,
      written,
    )

-- The content that an edit supersedes is deleted; that the delete fails is not the edit's failure.
unfoldable pub drop_replaced : Bool → Text → VaultItem → Edit → Vault → Vault
drop_replaced bucket_up group item e v = elim (e.blob) [
  | none ↦ v
  | some b ↦ elim (item.blob_key) [
    | none ↦ v
    | some old ↦ record v {
      blobs = (delete_blob bucket_up (is_claimed group v) false group old v.blobs).1;
    }
  ]
]

-- The edit of an item, as it was read when the request arrived.
unfoldable pub edit_item :
    AuthContext
    → Bool
    → ℕ
    → ℕ
    → VaultItem
    → UpdateVaultItemRequest
    → Vault
    → Result VaultItem × Vault
unfolding parse_edit write_edit drop_replaced
edit_item auth bucket_up now revision item body v = elim (parse_edit auth now item body v) [
  | err c ↦ (err c, v)
  | ok e ↦ elim (is_empty_edit e) [
    | true ↦ (ok item, v)
    | false ↦
        let written = write_edit auth.group_id item.id revision now e v in
        elim (written.0) [
          | none ↦ (err conflict, written.1)
          | some i ↦ (ok i, drop_replaced bucket_up auth.group_id item e written.1)
        ]
  ]
]

pub record ResealItem : Type 0 where
  pub id : Value
  pub revision : Value
  pub meta : Value
  pub meta_iv : Value

-- One of the items, as checked.
pub record Resealed : Type 0 where
  pub id : Text
  pub revision : ℕ
  pub meta : Text
  pub meta_iv : Text

unfoldable pub parse_reseal : List ResealItem → Result (List Resealed)
parse_reseal [] = ok []
parse_reseal (i ∷ is) = do
  id ← require_id i.id
  revision ← require_int i.revision 1 max_safe_integer
  meta ← require_string i.meta 8192
  meta_iv ← require_string i.meta_iv 64
  rest ← parse_reseal is
  ok (record { id = id; revision = revision; meta = meta; meta_iv = meta_iv } ∷ rest)

-- `revision = ? AND key_epoch < ? AND removed_at IS NULL`
abbrev pub may_reseal : ℕ → Resealed → VaultRow → Bool
may_reseal epoch n r =
    r.item.revision == n.revision
    && elim (r.item.key_epoch) [ none ↦ false | some k ↦ ltb k epoch ]
    && is_live r

abbrev pub resealed : ℕ → ℕ → Resealed → VaultRow → VaultRow
resealed epoch now n r = record r {
  item = record (r.item) {
    key_epoch = some epoch;
    meta = some n.meta;
    meta_iv = some n.meta_iv;
    updated_at = now;
  };
}

-- The batch of a request, and how many rows it changed.
unfoldable pub reseal_items : ℕ → ℕ → List Resealed → Vault → ℕ × Vault
unfolding next_vault_seq update_row changes
reseal_items epoch now [] v = (0, v)
reseal_items epoch now (n ∷ ns) v =
    let taken = next_vault_seq v in
    let rest =
      reseal_items epoch now ns
        (update_row n.id (may_reseal epoch n) (resealed epoch now n) taken) in
    (if ltb 0 (changes n.id (may_reseal epoch n) taken) then suc rest.0 else rest.0, rest.1)

module _ (w : World) (s : Server) where
  -- What an edit's request is checked for before its changes are, and the item as it was read.
  unfoldable pub check_edited : Text → Value → Value → Vault → Result (AuthContext × ℕ × VaultItem)
  unfolding vault_auth vault_item
  check_edited header param field v = do
    auth ← vault_auth w s header true
    id ← require_id param
    revision ← require_int field 1 max_safe_integer
    item ← or_fail (vault_item id v) not_found
    refuse_if (not (item.revision == revision)) conflict
    ok (auth, revision, item)

  unfoldable pub update_vault_item :
      Text → Value → UpdateVaultItemRequest → Vault → Result VaultItem × Vault
  unfolding check_edited edit_item
  update_vault_item header param body v = elim (check_edited header param body.revision v) [
    | err e ↦ (err e, v)
    | ok (auth, revision, item) ↦ edit_item auth w.bucket_up w.now revision item body v
  ]

  -- `items` is nothing where it is not an array.
  unfoldable pub check_reseal : Text → Value → Option (List ResealItem) → Result (ℕ × List Resealed)
  unfolding vault_auth require_current_epoch parse_reseal
  check_reseal header key_epoch items = do
    auth ← vault_auth w s header true
    epoch ← require_current_epoch auth key_epoch
    sent ← or_fail items bad_request
    refuse_if (ltb vault_reseal_batch (length sent)) bad_request
    parsed ← parse_reseal sent
    ok (epoch, parsed)

  unfoldable pub reseal_vault_items :
      Text → Value → Option (List ResealItem) → Vault → Result ℕ × Vault
  unfolding check_reseal reseal_items
  reseal_vault_items header key_epoch items v = elim (check_reseal header key_epoch items) [
    | err e ↦ (err e, v)
    | ok (epoch, parsed) ↦ let done = reseal_items epoch w.now parsed v in (ok done.0, done.1)
  ]
