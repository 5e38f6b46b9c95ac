-- ===== src/Sync.antt =====
-- A device's copy of the vault against the server's: packages/client/src/vault.ts follows
-- apps/worker/src/routes/vault.ts through the pages that it pulls.
pub mod Page
pub mod Pulling
pub mod Ending
pub mod Session
pub mod Examples
use sendself.Base.{
  ℕ, ◌≤◌, ◌<◌, Bool, true, false, not, ◌≡◌, ◌⊎◌, Option, none, some, List, [], ◌∷◌, Text, contains,
  IsKeyedBy, if◌then◌else◌,
}
use sendself.Shared.Vault.{VaultItem, VaultChangesResponse}
use sendself.Worker.Vault.{Vault, VaultRow, row_of, live_item}
use sendself.Worker.Vault.Changes.{row_seq, changes_since}
use sendself.Worker.Vault.Rows.{Writes}
use sendself.Client.Vault.{Pull, Answer, item_of, item_id}
use sendself.Client.Vault.Lookup.{updated}

-- No newer than a row.
abbrev pub IsOlder : Option VaultItem → ℕ → Type 0
IsOlder none n = Unit
IsOlder (some k) n = k.seq ≤ n

-- What a copy with a cursor has under an id, against the row: the row's item where the cursor has
-- passed it (nothing for a tombstone), and nothing newer than the row where it has not.
abbrev pub AgreesAt : ℕ → Option VaultItem → Option VaultRow → Type 0
AgreesAt c known none = known ≡ none
AgreesAt c known (some r) =
    ((row_seq r ≤ c) × (known ≡ live_item (some r))) ⊎ ((c < row_seq r) × IsOlder known (row_seq r))

-- A copy as of a cursor.
abbrev pub InSync : ℕ → List VaultItem → Vault → Type 0
InSync c copy v = (c ≤ v.seq) × ((x : Text) → AgreesAt c (item_of x copy) (row_of x v.rows))

-- A copy that a pull from its cursor brings up to date: it is in sync, or the pull starts over.
abbrev pub CanResume : ℕ → List VaultItem → Vault → Type 0
CanResume c copy v = (c ≡ 0) ⊎ (((0 < c) × (c < v.floor)) ⊎ InSync c copy v)

-- The copy is exactly what is live.
abbrev pub IsUpToDate : List VaultItem → Vault → Type 0
IsUpToDate copy v = (x : Text) → item_of x copy ≡ live_item (row_of x v.rows)

-- The server's answer to a request.
abbrev pub answer_of : Vault → Answer
answer_of v since full = changes_since since full v

-- A vault that others write to between one request and the next.
abbrev pub AreWrites : Vault → List Vault → Type 0
AreWrites v [] = Unit
AreWrites v (u ∷ us) = Writes v u × AreWrites u us

abbrev pub IsAmong : Vault → List Vault → Type 0
IsAmong v [] = ⊥
IsAmong v (u ∷ us) = (v ≡ u) ⊎ IsAmong v us

-- What the device comes to have, from what it had and from what the pages so far say.
abbrev pub known_of : Option VaultItem → Option VaultItem → Bool → Option VaultItem
known_of base it gone = updated (if gone then none else base) it

-- What is not newer than the row, and nothing where there is none.
abbrev pub IsOld : Option VaultItem → Option VaultRow → Type 0
IsOld base none = base ≡ none
IsOld base (some r) = IsOlder base (row_seq r)

-- What a pull builds on: nothing where it rebuilds the copy.
abbrev pub base_of : List VaultItem → Pull → Text → Option VaultItem
base_of copy p x = if p.rebuilding then none else item_of x copy

-- A pull that has come as far as its cursor.
pub record Follows (copy : List VaultItem) (p : Pull) (v : Vault) : Type 0 where
  pub counter : p.cursor ≤ v.seq
  pub agrees :
      (x : Text)
      → AgreesAt p.cursor
          (known_of (base_of copy p x) (item_of x p.items) (contains x p.removed))
          (row_of x v.rows)
  pub keyed : IsKeyedBy item_id p.items
  pub old : (x : Text) → IsOld (base_of copy p x) (row_of x v.rows)
