-- ===== src/Client/Vault.antt =====
-- packages/client/src/vault.ts: a device's copy of the vault, and how it follows the server's. A `Map`
-- is the list of its values, in the order of their insertion, each id once; a `Set` the list of its
-- elements.
pub mod Lookup
pub mod Tree
use sendself.Base.{
  ℕ, zero, suc, Bool, true, false, ◌&&◌, not, Option, none, some, List, [], ◌∷◌, ◌++◌, Text, str_eq,
  any, filter, leb, ltb, if◌then◌else◌, update_where, lookup_by, contains,
}
use sendself.Shared.Vault.{VaultItem, VaultUsage, VaultChangesResponse}

abbrev pub item_id : VaultItem → Text
item_id i = i.id

-- `Map.get`
abbrev pub item_of : Text → List VaultItem → Option VaultItem
item_of = lookup_by item_id

abbrev pub is_item : Text → VaultItem → Bool
is_item x i = str_eq (item_id i) x

-- `Map.set`
unfoldable pub put : VaultItem → List VaultItem → List VaultItem
put i items =
    if any (is_item i.id) items then update_where (is_item i.id) (λ _. i) items else items ++ i ∷ []

-- `Map.delete`
unfoldable pub delete : Text → List VaultItem → List VaultItem
delete x items = filter (λ i. not (is_item x i)) items

-- `Set.add`
unfoldable pub add_id : Text → List Text → List Text
add_id x ids = if contains x ids then ids else ids ++ x ∷ []

-- `Set.delete`
unfoldable pub remove_id : Text → List Text → List Text
remove_id x ids = filter (λ y. not (str_eq x y)) ids

unfoldable pub delete_all : List Text → List VaultItem → List VaultItem
unfolding delete
delete_all [] items = items
delete_all (x ∷ xs) items = delete_all xs (delete x items)

-- Never older over newer.
unfoldable pub apply_item : VaultItem → List VaultItem → List VaultItem
unfolding put
apply_item i items = elim (item_of i.id items) [
  | none ↦ put i items
  | some known ↦ if leb known.seq i.seq then put i items else items
]

unfoldable pub apply_items : List VaultItem → List VaultItem → List VaultItem
unfolding apply_item
apply_items [] items = items
apply_items (i ∷ is) items = apply_items is (apply_item i items)

unfoldable pub apply_vault_changes : List VaultItem → VaultChangesResponse → List VaultItem
unfolding delete_all apply_items
apply_vault_changes records changes =
    apply_items changes.items (delete_all changes.removed (if changes.reset then [] else records))

-- What `pullVaultChanges` has of the pages so far.
pub record Pull : Type 0 where
  pub items : List VaultItem
  pub removed : List Text
  pub rebuilding : Bool
  pub cursor : ℕ

-- The first inner loop.
unfoldable pub fold_removed : List Text → Pull → Pull
unfolding delete add_id
fold_removed [] p = p
fold_removed (x ∷ xs) p =
    fold_removed xs (record p { items = delete x p.items; removed = add_id x p.removed })

-- The second.
unfoldable pub fold_items : List VaultItem → Pull → Pull
unfolding put remove_id
fold_items [] p = p
fold_items (i ∷ is) p =
    fold_items is (record p { items = put i p.items; removed = remove_id i.id p.removed })

-- `items.clear()` and `removed.clear()`.
abbrev pub restarted : Pull → Pull
restarted p = record { items = []; removed = []; rebuilding = true; cursor = p.cursor }

unfoldable pub fold_page : VaultChangesResponse → Pull → Pull
unfolding fold_removed fold_items
fold_page page p =
    record (fold_items page.items
      (fold_removed page.removed (if page.reset then restarted p else p))) { cursor = page.cursor }

-- What the server answers: a page, for a cursor and the flag `full`.
abbrev pub Answer : Type 0
Answer = ℕ → Bool → VaultChangesResponse

-- The loop, with the answers that its requests get, one after the other; nothing where there are no
-- more of them.
unfoldable pub pull_pages : List Answer → Pull → Option VaultChangesResponse
unfolding fold_page
pull_pages [] p = none
pull_pages (answer ∷ answers) p =
    let page = answer p.cursor (p.rebuilding && ltb 0 p.cursor) in
    let next = fold_page page p in
    let rest = pull_pages answers next in
    if page.more
    then rest
    else some (record {
      items = next.items;
      removed = next.removed;
      cursor = next.cursor;
      more = false;
      reset = next.rebuilding;
      usage = page.usage;
    })

-- `since === 0`
abbrev pub is_zero : ℕ → Bool
is_zero zero = true
is_zero (suc n) = false

abbrev pub pull_start : ℕ → Pull
pull_start since = record { items = []; removed = []; rebuilding = is_zero since; cursor = since }

unfoldable pub pull_vault_changes : List Answer → ℕ → Option VaultChangesResponse
unfolding pull_pages
pull_vault_changes answers since = pull_pages answers (pull_start since)
