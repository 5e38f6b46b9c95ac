-- ===== src/Sync/Ending.antt =====
-- A pull ends: every page but the last takes the cursor further, and no further than the counter.
use sendself.Base.{
  ℕ, zero, suc, ◌+◌, ◌≤◌, ◌<◌, Bool, true, false, ◌&&◌, ◌≡◌, refl, sym, ap, ◌∙◌, subst, inl, inr,
  ◌⊎◌, some, List, map, ltb, repeat, Bool-cases, arith, if◌then◌else◌,
}
use sendself.Shared.Vault.{VaultItem, VaultChangesResponse, vault_page_size}
use sendself.Worker.Vault.{Vault}
use sendself.Worker.Vault.Changes.{page_of, changes_since, must_reset}
use sendself.Worker.Vault.Rows.{IsVault, Writes_refl}
use sendself.Worker.Vault.Pages.{cursor-gt}
use sendself.Client.Vault.{
  Pull, fold_page, fold_removed, pull_pages, pull_start, pull_vault_changes, apply_vault_changes,
  restarted,
}
use sendself.Client.Vault.Lookup.{fold_items-rebuilding, fold_removed-rebuilding}
use sendself.Sync.{CanResume, IsUpToDate, answer_of, AreWrites, IsAmong}
use sendself.Sync.Page.{page_cursor-bounds, cursor_more}
use sendself.Sync.Pulling.{pull_vault_changes-Outcome}

page_gets_on :
    (c : ℕ) (v : Vault)
    → IsVault v
    → c ≤ v.seq
    → (page_of vault_page_size c v).more ≡ true
    → (c < (page_of vault_page_size c v).cursor) × ((page_of vault_page_size c v).cursor ≤ v.seq)
unfolding page_of
page_gets_on c v h l m = (
  subst (λ d. c < d) (sym (cursor_more vault_page_size v h c m))
      (cursor-gt v h vault_page_size c (omega arith) m),
  (page_cursor-bounds vault_page_size v h c l).1,
)

fold_page-rebuilding :
    (page : VaultChangesResponse) (p : Pull)
    → page.reset ≡ false
    → (fold_page page p).rebuilding ≡ p.rebuilding
unfolding fold_page
fold_page-rebuilding page p e =
    fold_items-rebuilding page.items
      (fold_removed page.removed (if page.reset then restarted p else p))
    ∙ fold_removed-rebuilding page.removed (if page.reset then restarted p else p)
    ∙ ap (λ b. (if b then restarted p else p).rebuilding) e

fold_page-restarted :
    (page : VaultChangesResponse) (p : Pull)
    → page.reset ≡ true
    → (fold_page page p).rebuilding ≡ true
unfolding fold_page
fold_page-restarted page p e =
    fold_items-rebuilding page.items
      (fold_removed page.removed (if page.reset then restarted p else p))
    ∙ fold_removed-rebuilding page.removed (if page.reset then restarted p else p)
    ∙ ap (λ b. (if b then restarted p else p).rebuilding) e

fold_page-cursor :
    (page : VaultChangesResponse) (p : Pull) → (fold_page page p).cursor ≡ page.cursor
unfolding fold_page
fold_page-cursor page p = refl

module _ (c : ℕ) (full : Bool) (v : Vault) where
  going_page : must_reset c full v ≡ false → changes_since c full v ≡ page_of vault_page_size c v
  unfolding changes_since
  going_page e = rw e refl

  restarting_page :
      must_reset c full v ≡ true
      → changes_since c full v ≡ record (page_of vault_page_size 0 v) { reset = true }
  unfolding changes_since
  restarting_page e = rw e refl

page_of-reset : (size c : ℕ) (v : Vault) → (page_of size c v).reset ≡ false
unfolding page_of
page_of-reset size c v = refl

Ends : ℕ → Pull → Vault → Type 0
Ends k p v = (c : VaultChangesResponse) × (pull_pages (map answer_of (repeat k v)) p ≡ some c)

-- One more answer is enough where what comes after a page that has more behind it ends.
Ends-after :
    (k : ℕ) (p : Pull) (v : Vault)
    → ((changes_since p.cursor (p.rebuilding && ltb 0 p.cursor) v).more ≡ true
        → Ends k (fold_page (changes_since p.cursor (p.rebuilding && ltb 0 p.cursor) v) p) v)
    → Ends (suc k) p v
unfolding Ends pull_pages
Ends-after k p v rest =
    elim (Bool-cases (changes_since p.cursor (p.rebuilding && ltb 0 p.cursor) v).more) [
      | inl m ↦ rw m (rest m)
      | inr m ↦ rw m (_, refl)
    ]

stays :
    (p : Pull) (v : Vault)
    → (p.rebuilding ≡ true) ⊎ (v.floor ≤ p.cursor)
    → must_reset p.cursor (p.rebuilding && ltb 0 p.cursor) v ≡ false
unfolding must_reset
stays p v (inl e) = ground (arith, e)
stays p v (inr l) = ground (arith, l)

-- A pull that no page starts over ends, with as many answers as the counter is ahead of it, and one.
going-Ends :
    (k : ℕ) (p : Pull) (v : Vault)
    → IsVault v
    → (p.rebuilding ≡ true) ⊎ (v.floor ≤ p.cursor)
    → p.cursor ≤ v.seq
    → v.seq < p.cursor + k
    → Ends k p v
going-Ends zero p v h r l k = absurd (omega (arith, l, k))
going-Ends (suc k) p v h r l b = Ends-after k p v λ m.
    let full : Bool = p.rebuilding && ltb 0 p.cursor in
    let page : VaultChangesResponse = page_of vault_page_size p.cursor v in
    let same : changes_since p.cursor full v ≡ page = going_page p.cursor full v (stays p v r) in
    let bounds = page_gets_on p.cursor v h l (subst (λ t. t.more ≡ true) same m) in
    let next : Pull = fold_page page p in
    let going : (next.rebuilding ≡ true) ⊎ (v.floor ≤ next.cursor) = elim r [
      | inl e ↦ inl (fold_page-rebuilding page p (page_of-reset vault_page_size p.cursor v) ∙ e)
      | inr e ↦ inr (omega (arith, e, bounds.0, fold_page-cursor page p))
    ] in
    let at_cursor : next.cursor ≡ page.cursor = fold_page-cursor page p in
    subst (λ t. Ends k (fold_page t p) v) (sym same)
      (going-Ends k next v h going (omega (arith, at_cursor, bounds.1))
        (omega (arith, at_cursor, bounds.0, b)))

-- A pull that its first page starts over.
restarting-Ends :
    (p : Pull) (v : Vault)
    → IsVault v
    → must_reset p.cursor (p.rebuilding && ltb 0 p.cursor) v ≡ true
    → Ends (suc v.seq) p v
restarting-Ends p v h r = Ends-after v.seq p v λ m.
    let full : Bool = p.rebuilding && ltb 0 p.cursor in
    let page : VaultChangesResponse = record (page_of vault_page_size 0 v) { reset = true } in
    let same : changes_since p.cursor full v ≡ page = restarting_page p.cursor full v r in
    let bounds = page_gets_on 0 v h (omega arith) (subst (λ t. t.more ≡ true) same m) in
    let next : Pull = fold_page page p in
    let at_cursor : next.cursor ≡ page.cursor = fold_page-cursor page p in
    subst (λ t. Ends v.seq (fold_page t p) v) (sym same)
      (going-Ends v.seq next v h (inl (fold_page-restarted page p refl))
        (omega (arith, at_cursor, bounds.1)) (omega (arith, at_cursor, bounds.0)))

floor_of :
    (n : ℕ) (v : Vault) → must_reset (suc n) (false && ltb 0 (suc n)) v ≡ false → v.floor ≤ suc n
unfolding must_reset
floor_of n v e = ground (arith, e)

starting-Ends :
    (copy : List VaultItem) (since : ℕ) (v : Vault)
    → IsVault v
    → CanResume since copy v
    → Ends (suc v.seq) (pull_start since) v
starting-Ends copy zero v h r =
    going-Ends (suc v.seq) (pull_start 0) v h (inl refl) (omega arith) (omega arith)
starting-Ends copy (suc n) v h r =
    elim (Bool-cases (must_reset (suc n) (false && ltb 0 (suc n)) v)) [
      | inl e ↦ restarting-Ends (pull_start (suc n)) v h e
      | inr e ↦
          let floor : v.floor ≤ suc n = floor_of n v e in
          going-Ends (suc v.seq) (pull_start (suc n)) v h (inr floor) (by r floor) (omega arith)
    ]
  where
    by : CanResume (suc n) copy v → v.floor ≤ suc n → suc n ≤ v.seq
    by (inl e) f = absurd (omega (arith, e))
    by (inr (inl (l, k))) f = absurd (omega (arith, k, f))
    by (inr (inr (l, k))) f = l

repeat-AreWrites : (k : ℕ) (v : Vault) → IsVault v → AreWrites v (repeat k v)
repeat-AreWrites zero v h = tt
repeat-AreWrites (suc k) v h = (Writes_refl v h, repeat-AreWrites k v h)

repeat-IsAmong : (k : ℕ) (u v : Vault) → IsAmong u (repeat k v) → u ≡ v
repeat-IsAmong zero u v m = absurd m
repeat-IsAmong (suc k) u v (inl e) = e
repeat-IsAmong (suc k) u v (inr m) = repeat-IsAmong k u v m

-- Where nothing is written to the vault meanwhile, a pull from a copy that can resume ends, and leaves
-- the copy with exactly the items that are live on the server. One request more than the vault has had
-- changes is enough.
pub pull_vault_changes-IsUpToDate :
    (copy : List VaultItem) (since : ℕ) (v : Vault)
    → IsVault v
    → CanResume since copy v
    → (c : VaultChangesResponse) × (pull_vault_changes (map answer_of (repeat (suc v.seq) v)) since
        ≡ some c)
      × IsUpToDate (apply_vault_changes copy c) v
unfolding pull_vault_changes Ends
pull_vault_changes-IsUpToDate copy since v h r =
    let ended = starting-Ends copy since v h r in
    let outcome =
      pull_vault_changes-Outcome copy since v (repeat (suc v.seq) v) ended.0 h r
        (repeat-AreWrites (suc v.seq) v h) ended.1 in
    (
      ended.0,
      ended.1,
      subst (IsUpToDate (apply_vault_changes copy ended.0))
          (repeat-IsAmong (suc v.seq) outcome.0 v outcome.1) outcome.2.1,
    )
