-- ===== src/Worker/Vault/Changes.antt =====
-- `vaultChanges` of apps/worker/src/routes/vault.ts: what changed after a cursor, a page at a time.
use sendself.Base.{
  ℕ, suc, max, Bool, true, false, ◌&&◌, not, Option, none, some, List, [], ◌∷◌, map, Text, filter,
  take, length, ltb, order_by, if◌then◌else◌, sum_by,
}
use sendself.Errors.{Result, ok, err, bad_request, ◌>>=◌, ◌>>◌, refuse_if}
use sendself.Http.{Value, nat}
use sendself.Shared.Vault.{VaultChangesResponse, vault_page_size}
use sendself.Worker.Tables.{Server, World, BlobRow}
use sendself.Worker.Messages.Request.{max_safe_integer}
use sendself.Worker.Vault.{Vault, VaultRow, row_id, is_live}
use sendself.Worker.Vault.Requests.{vault_auth, live_count}

-- `Number(since)`, as the number that it is; 0 where the parameter is missing.
unfoldable pub require_since : Option Value → Result ℕ
require_since none = ok 0
require_since (some (nat n)) = do refuse_if (ltb max_safe_integer n) bad_request; ok n
require_since (some _) = err bad_request

abbrev pub row_seq : VaultRow → ℕ
row_seq r = r.item.seq

abbrev pub seq_before : VaultRow → VaultRow → Bool
seq_before a b = ltb (row_seq a) (row_seq b)

abbrev pub is_after : ℕ → VaultRow → Bool
is_after since r = ltb since (row_seq r)

-- `WHERE seq > ? ORDER BY seq ASC`
abbrev pub changed_rows : ℕ → List VaultRow → List VaultRow
changed_rows since rows = order_by seq_before (filter (is_after since) rows)

-- The seq of the last row of a page.
abbrev pub last_seq : ℕ → List VaultRow → ℕ
last_seq since [] = since
last_seq since (r ∷ rs) = last_seq (row_seq r) rs

-- `LIMIT ?`
abbrev pub read_rows : ℕ → ℕ → List VaultRow → List VaultRow
read_rows size since rows = take (suc size) (changed_rows since rows)

abbrev pub has_more : ℕ → ℕ → List VaultRow → Bool
has_more size since rows = ltb size (length (read_rows size since rows))

-- `changed.slice(0, VAULT_PAGE_SIZE)` where there is more.
abbrev pub page_rows : ℕ → ℕ → List VaultRow → List VaultRow
page_rows size since rows =
    if has_more size since rows
    then take size (read_rows size since rows)
    else read_rows size since rows

unfoldable pub page_of : ℕ → ℕ → Vault → VaultChangesResponse
unfolding order_by
page_of size since v =
    let more = has_more size since v.rows in
    let page = page_rows size since v.rows in
    record {
      items = map (λ (r : VaultRow). r.item) (filter is_live page);
      removed = map row_id (filter (λ r. not (is_live r)) page);
      cursor = if more then last_seq since page else max v.seq since;
      more = more;
      reset = false;
      usage = record {
        bytes = sum_by (λ (u : BlobRow). u.size) v.blobs.rows;
        items = live_count v;
      };
    }

-- A cursor that is older than the newest tombstone that was forgotten starts over.
unfoldable pub must_reset : ℕ → Bool → Vault → Bool
must_reset requested continuing v = not continuing && ltb 0 requested && ltb requested v.floor

unfoldable pub changes_since : ℕ → Bool → Vault → VaultChangesResponse
unfolding page_of must_reset
changes_since requested continuing v =
    if must_reset requested continuing v
    then record (page_of vault_page_size 0 v) { reset = true }
    else page_of vault_page_size requested v

module _ (w : World) (s : Server) where
  unfoldable pub vault_changes : Text → Option Value → Bool → Vault → Result VaultChangesResponse
  unfolding vault_auth require_since changes_since
  vault_changes header since continuing v = do
    auth ← vault_auth w s header false
    requested ← require_since since
    ok (changes_since requested continuing v)
