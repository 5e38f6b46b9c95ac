-- ===== src/Sync/Pulling.antt =====
-- A pull from where a copy stands ends, and leaves the copy exactly as the server's vault.
use sendself.Base.{
  some_inj, ℕ, zero, suc, ◌≤◌, ◌<◌, Bool, true, false, ◌&&◌, ◌≡◌, refl, sym, ap, ◌∙◌, subst, inl,
  inr, ◌⊎◌, Option, none, some, List, [], ◌∷◌, Text, ltb, map, All-find, Bool-cases, Option-cases,
  arith, contains, if◌then◌else◌,
}
use sendself.Shared.Vault.{VaultItem, VaultChangesResponse, vault_page_size}
use sendself.Worker.Vault.{Vault, VaultRow, row_of, live_item, is_live}
use sendself.Worker.Vault.Changes.{row_seq, page_of, changes_since, must_reset}
use sendself.Worker.Vault.Rows.{IsVault, IsUpTo, Writes, RowAdvances}
use sendself.Client.Vault.{
  Pull, item_of, fold_page, pull_pages, pull_start, pull_vault_changes, apply_vault_changes,
  restarted, delete_all,
}
use sendself.Client.Vault.Lookup.{updated, item_of-apply_items, item_of-delete_all}
use sendself.Sync.{
  AgreesAt, IsOlder, IsOld, known_of, base_of, Follows, InSync, CanResume, IsUpToDate, answer_of,
  AreWrites, IsAmong,
}
use sendself.Sync.Page.{folded-Follows}

abbrev IsRowUpTo : ℕ → Option VaultRow → Type 0
IsRowUpTo n none = Unit
IsRowUpTo n (some r) = row_seq r ≤ n

row_of-IsRowUpTo : (v : Vault) (x : Text) → IsVault v → IsRowUpTo v.seq (row_of x v.rows)
row_of-IsRowUpTo v x h = elim (Option-cases (row_of x v.rows)) [
  | inl e ↦ rw e tt
  | inr (r, e) ↦ rw e (All-find (IsUpTo v.seq) _ v.rows r h.up_to e).1
]

IsOlder-mono : (known : Option VaultItem) (m n : ℕ) → m ≤ n → IsOlder known m → IsOlder known n
IsOlder-mono none m n l h = tt
IsOlder-mono (some k) m n l h = omega (arith, l, h)

live_item-IsOlder : (r : VaultRow) → IsOlder (live_item (some r)) (row_seq r)
live_item-IsOlder r = elim (Bool-cases (is_live r)) [ inl e ↦ rw e (omega arith) | inr e ↦ rw e tt ]

-- What agrees with a row is not newer than it.
AgreesAt-IsOld :
    (c : ℕ) (known : Option VaultItem) (o : Option VaultRow) → AgreesAt c known o → IsOld known o
AgreesAt-IsOld c known none a = a
AgreesAt-IsOld c known (some r) (inl (l, e)) =
    subst (λ k. IsOlder k (row_seq r)) (sym e) (live_item-IsOlder r)
AgreesAt-IsOld c known (some r) (inr (l, e)) = e

IsOld-IsOlder :
    (known : Option VaultItem) (n m : ℕ) (o : Option VaultRow)
    → IsRowUpTo n o
    → n < m
    → IsOld known o
    → IsOlder known m
IsOld-IsOlder known n m none b l h = subst (λ k. IsOlder k m) (sym h) tt
IsOld-IsOlder known n m (some r) b l h = IsOlder-mono known (row_seq r) m (omega (arith, b, l)) h

IsOld-advance :
    (known : Option VaultItem) (n : ℕ) (o o' : Option VaultRow)
    → IsRowUpTo n o
    → IsOld known o
    → RowAdvances n o o'
    → IsOld known o'
IsOld-advance known n o o' b h (inl e) = subst (IsOld known) (sym e) h
IsOld-advance known n o o' b h (inr (r, e, l)) =
    subst (IsOld known) (sym e) (IsOld-IsOlder known n (row_seq r) o b l h)

AgreesAt-advance :
    (c : ℕ) (known : Option VaultItem) (n : ℕ) (o o' : Option VaultRow)
    → c ≤ n
    → IsRowUpTo n o
    → AgreesAt c known o
    → RowAdvances n o o'
    → AgreesAt c known o'
AgreesAt-advance c known n o o' k b h (inl e) = subst (AgreesAt c known) (sym e) h
AgreesAt-advance c known n o o' k b h (inr (r, e, l)) = subst (AgreesAt c known) (sym e) (
    inr (omega (arith, k, l), IsOld-IsOlder known n (row_seq r) o b l (AgreesAt-IsOld c known o h)))

-- What others write leaves a copy in sync: it is newer than the copy's cursor.
pub InSync-writes :
    (c : ℕ) (copy : List VaultItem) (u v : Vault)
    → IsVault u
    → Writes u v
    → InSync c copy u
    → InSync c copy v
InSync-writes c copy u v h (_, a) (l, f) = (
  omega (arith, l, a.counter),
  λ x.
      AgreesAt-advance c (item_of x copy) u.seq (row_of x u.rows) (row_of x v.rows) l
        (row_of-IsRowUpTo u x h) (f x) (a.rows x),
)

Follows-writes :
    (copy : List VaultItem) (p : Pull) (u v : Vault)
    → IsVault u
    → Writes u v
    → Follows copy p u
    → Follows copy p v
Follows-writes copy p u v h (_, a) f = record {
  counter = omega (arith, f.counter, a.counter);
  keyed = f.keyed;
  agrees = λ x.
      AgreesAt-advance p.cursor _ u.seq (row_of x u.rows) (row_of x v.rows) f.counter
        (row_of-IsRowUpTo u x h) (f.agrees x) (a.rows x);
  old = λ x.
      IsOld-advance (base_of copy p x) u.seq (row_of x u.rows) (row_of x v.rows)
        (row_of-IsRowUpTo u x h) (f.old x) (a.rows x);
}

-- A pull that follows the vault, or that its next page starts over.
abbrev IsReady : List VaultItem → Pull → Vault → Type 0
IsReady copy p v =
    Follows copy p v ⊎ ((p.rebuilding ≡ false) × (0 < p.cursor) × (p.cursor < v.floor))

IsReady-writes :
    (copy : List VaultItem) (p : Pull) (u v : Vault)
    → IsVault u
    → Writes u v
    → IsReady copy p u
    → IsReady copy p v
IsReady-writes copy p u v h w (inl f) = inl (Follows-writes copy p u v h w f)
IsReady-writes copy p u v h (_, a) (inr (r, l, k)) = inr (r, l, omega (arith, k, a.floor))

AgreesAt-start : (v : Vault) (x : Text) → IsVault v → AgreesAt 0 none (row_of x v.rows)
AgreesAt-start v x h = elim (Option-cases (row_of x v.rows)) [
  | inl e ↦ rw e refl
  | inr (r, e) ↦ rw e (inr ((All-find (IsUpTo v.seq) _ v.rows r h.up_to e).0, tt))
]

IsOld-at_start : (o : Option VaultRow) → IsOld none o
IsOld-at_start none = refl
IsOld-at_start (some r) = tt

-- A pull that rebuilds the copy follows any vault from the start.
rebuilds :
    (copy : List VaultItem) (v : Vault)
    → IsVault v
    → Follows copy (record { items = []; removed = []; rebuilding = true; cursor = 0 }) v
rebuilds copy v h = record {
  counter = omega arith;
  keyed = tt;
  agrees = λ x. AgreesAt-start v x h;
  old = λ x. IsOld-at_start (row_of x v.rows);
}

pull_start-IsReady :
    (copy : List VaultItem) (since : ℕ) (v : Vault)
    → IsVault v
    → CanResume since copy v
    → IsReady copy (pull_start since) v
pull_start-IsReady copy zero v h r = inl (rebuilds copy v h)
pull_start-IsReady copy (suc n) v h (inl e) = absurd (omega (arith, e))
pull_start-IsReady copy (suc n) v h (inr (inl (l, k))) = inr (refl, l, k)
pull_start-IsReady copy (suc n) v h (inr (inr (l, f))) = inl (record {
  counter = l;
  keyed = tt;
  agrees = f;
  old = λ x. AgreesAt-IsOld (suc n) (item_of x copy) (row_of x v.rows) (f x);
})

-- The page of a request, folded in, leaves nothing to start over.
page-Follows :
    (copy : List VaultItem) (p : Pull) (v : Vault)
    → IsVault v
    → IsReady copy p v
    → Follows copy (fold_page (changes_since p.cursor (p.rebuilding && ltb 0 p.cursor) v) p) v
unfolding fold_page changes_since must_reset page_of
page-Follows copy p v h r =
    elim (Bool-cases (must_reset p.cursor (p.rebuilding && ltb 0 p.cursor) v)) [
      | inl e ↦
          rw (e, fold_page)
            (folded-Follows vault_page_size v h copy 0 (restarted p) (rebuilds copy v h))
      | inr e ↦ rw (e, fold_page) (folded-Follows vault_page_size v h copy p.cursor p (going r e))
    ]
  where
    going :
        IsReady copy p v
        → must_reset p.cursor (p.rebuilding && ltb 0 p.cursor) v ≡ false
        → Follows copy p v
    going (inl f) e = f
    going (inr (a, l, k)) e = absurd (ground (arith, a, l, k, e))

-- The last page leaves no row past its cursor.
last_cursor_of :
    (size c : ℕ) (v : Vault) → (page_of size c v).more ≡ false → v.seq ≤ (page_of size c v).cursor
unfolding page_of
last_cursor_of size c v e = rw e (omega arith)

last_cursor :
    (c : ℕ) (full : Bool) (v : Vault)
    → (changes_since c full v).more ≡ false
    → v.seq ≤ (changes_since c full v).cursor
unfolding changes_since
last_cursor c full v e = elim (Bool-cases (must_reset c full v)) [
  | inl q ↦ rw q (last_cursor_of vault_page_size 0 v (rw q at e))
  | inr q ↦ rw q (last_cursor_of vault_page_size c v (rw q at e))
]

IsUpToDate-row :
    (c : ℕ) (known : Option VaultItem) (o : Option VaultRow) (n : ℕ)
    → IsRowUpTo n o
    → n ≤ c
    → AgreesAt c known o
    → known ≡ live_item o
IsUpToDate-row c known none n b l a = a
IsUpToDate-row c known (some r) n b l (inl (k, e)) = e
IsUpToDate-row c known (some r) n b l (inr (k, e)) = absurd (omega (arith, b, l, k))

-- What the pages say, applied to the copy.
abbrev response_of : Pull → VaultChangesResponse → VaultChangesResponse
response_of p page = record {
  items = p.items;
  removed = p.removed;
  cursor = p.cursor;
  more = false;
  reset = p.rebuilding;
  usage = page.usage;
}

item_of-applied :
    (copy : List VaultItem) (p : Pull) (page : VaultChangesResponse) (v : Vault) (x : Text)
    → Follows copy p v
    → item_of x (apply_vault_changes copy (response_of p page))
      ≡ known_of (base_of copy p x) (item_of x p.items) (contains x p.removed)
unfolding apply_vault_changes
item_of-applied copy p page v x f =
    item_of-apply_items x p.items (delete_all p.removed (if p.rebuilding then [] else copy)) f.keyed
    ∙ ap (λ k. updated k (item_of x p.items))
        (item_of-delete_all x p.removed (if p.rebuilding then [] else copy)
          ∙ ap (λ k. if contains x p.removed then none else k) base)
  where
    base : item_of x (if p.rebuilding then [] else copy) ≡ base_of copy p x
    base = elim (Bool-cases p.rebuilding) [ inl e ↦ rw e refl | inr e ↦ rw e refl ]

applied-InSync :
    (copy : List VaultItem) (p : Pull) (page : VaultChangesResponse) (v : Vault)
    → Follows copy p v
    → InSync p.cursor (apply_vault_changes copy (response_of p page)) v
applied-InSync copy p page v f = (
  f.counter,
  λ x.
      subst (λ k. AgreesAt p.cursor k (row_of x v.rows)) (sym (item_of-applied copy p page v x f))
        (f.agrees x),
)

abbrev pub Outcome : List VaultItem → VaultChangesResponse → Vault → Type 0
Outcome copy c u =
    InSync c.cursor (apply_vault_changes copy c) u × IsUpToDate (apply_vault_changes copy c) u

pull_pages-Outcome :
    (copy : List VaultItem) (us : List Vault) (p : Pull) (v : Vault) (c : VaultChangesResponse)
    → IsVault v
    → IsReady copy p v
    → AreWrites v us
    → pull_pages (map answer_of us) p ≡ some c
    → (u : Vault) × IsAmong u us × Outcome copy c u
unfolding pull_pages
pull_pages-Outcome copy [] p v c h r w e = cc
pull_pages-Outcome copy (u ∷ us) p v c h r w e =
    let full : Bool = p.rebuilding && ltb 0 p.cursor in
    let page : VaultChangesResponse = changes_since p.cursor full u in
    let next : Pull = fold_page page p in
    let follows : Follows copy next u =
      page-Follows copy p u w.0.0 (IsReady-writes copy p v u h w.0 r) in
    elim (Bool-cases page.more) [
      | inl m ↦
          let rest = pull_pages-Outcome copy us next u c w.0.0 (inl follows) w.1 (rw m at e) in
          (rest.0, inr rest.1, rest.2)
      | inr m ↦ (
        u,
        inl refl,
        subst (λ t. Outcome copy t u) (some_inj (rw m at e))
            (
              applied-InSync copy next page u follows,
              λ x.
                  item_of-applied copy next page u x follows
                  ∙ IsUpToDate-row next.cursor _ (row_of x u.rows) u.seq
                      (row_of-IsRowUpTo u x w.0.0) (last_cursor p.cursor full u m)
                      (follows.agrees x),
            ),
      )
    ]

-- A pull from a copy that can resume, whatever is written to the vault between its requests, leaves
-- the copy in sync with its new cursor, and exactly as the vault was at one of its requests.
pub pull_vault_changes-Outcome :
    (copy : List VaultItem) (since : ℕ) (v : Vault) (us : List Vault) (c : VaultChangesResponse)
    → IsVault v
    → CanResume since copy v
    → AreWrites v us
    → pull_vault_changes (map answer_of us) since ≡ some c
    → (u : Vault) × IsAmong u us × Outcome copy c u
unfolding pull_vault_changes
pull_vault_changes-Outcome copy since v us c h r w e =
    pull_pages-Outcome copy us (pull_start since) v c h (pull_start-IsReady copy since v h r) w e
