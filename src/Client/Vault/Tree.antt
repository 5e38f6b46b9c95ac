-- ===== src/Client/Vault/Tree.antt =====
-- packages/client/src/vault.ts: the tree of folders, as the copy has it.
use sendself.Base.{
  ℕ, zero, suc, Bool, true, false, ◌&&◌, not, Option, none, some, List, [], ◌∷◌, ◌++◌, Text,
  contains, if◌then◌else◌,
}
use sendself.Shared.Vault.{VaultItem}
use sendself.Client.Vault.{item_of}

-- The loop of `isVaultItemVisible`, on what is left of its 256 steps.
unfoldable pub is_visible_within : ℕ → List VaultItem → Option VaultItem → Bool
is_visible_within zero records current = false
is_visible_within (suc depth) records none = false
is_visible_within (suc depth) records (some i) = elim (i.trashed_at) [
  | some t ↦ false
  | none ↦ elim (i.parent_id) [
    | none ↦ true
    | some p ↦ is_visible_within depth records (item_of p records)
  ]
]

unfoldable pub is_vault_item_visible : List VaultItem → VaultItem → Bool
unfolding is_visible_within
is_vault_item_visible records i = is_visible_within 256 records (some i)

-- One pass over the records; it uses what it has found so far.
unfoldable pub subtree_pass : List VaultItem → List Text → List Text
subtree_pass [] tree = tree
subtree_pass (i ∷ is) tree = elim (i.parent_id) [
  | none ↦ subtree_pass is tree
  | some p ↦
      subtree_pass is
        (if contains p tree && not (contains i.id tree) then tree ++ i.id ∷ [] else tree)
]
