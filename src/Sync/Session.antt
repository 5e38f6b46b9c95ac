-- ===== src/Sync/Session.antt =====
-- A device's life with the vault: what others write, what the cleanup forgets, and its own pulls.
use sendself.Base.{
  some_inj, ℕ, zero, suc, ◌-◌, ◌≤◌, Bool, true, not, ◌≡◌, refl, sym, ap, ◌∙◌, subst, inl, inr,
  Option, none, some, List, [], ◌∷◌, Text, map, filter, ltb, fold_max-ge, All-fold_max, All-filter,
  All-find, only, lookup_by-filter, IsKeyedBy-filter, Bool-cases, Option-cases, arith, repeat,
}
use sendself.Http.{Value}
use sendself.Shared.Vault.{VaultItem, VaultChangesResponse, vault_tombstone_ttl}
use sendself.Worker.Tables.{Server, World}
use sendself.Worker.Vault.{
  Vault, VaultRow, row_id, row_of, live_item, is_forgotten, forget_tombstones, clean_up_vault,
  purge_trash,
}
use sendself.Worker.Vault.Changes.{row_seq}
use sendself.Worker.Vault.Requests.{CreateVaultItemRequest, create_vault_item, delete_vault_item}
use sendself.Worker.Vault.Edits.{
  UpdateVaultItemRequest, ResealItem, update_vault_item, reseal_vault_items,
}
use sendself.Worker.Vault.Rows.{IsVault, IsUpTo, Writes, Writes_refl, Writes_trans}
use sendself.Worker.Vault.Pages.{filter-HasOwnSeqs}
use sendself.Worker.Vault.Writes.{
  create_vault_item-Writes, update_vault_item-Writes, reseal_vault_items-Writes,
  delete_vault_item-Writes, purge_trash-Writes,
}
use sendself.Client.Vault.{item_of, pull_vault_changes, apply_vault_changes}
use sendself.Sync.{AgreesAt, InSync, CanResume, IsUpToDate, answer_of, AreWrites, IsAmong}
use sendself.Sync.Pulling.{InSync-writes, pull_vault_changes-Outcome}
use sendself.Sync.Ending.{pull_vault_changes-IsUpToDate}

-- What changes the vault of a space: a request, or the cleanup.
pub data Step (v u : Vault) : Type 0 where
  created :
      (w : World) (s : Server) (header : Text) (body : CreateVaultItemRequest)
      → (create_vault_item w s header body v).1 ≡ u
      → Step v u
  updated :
      (w : World) (s : Server) (header : Text) (param : Value) (body : UpdateVaultItemRequest)
      → (update_vault_item w s header param body v).1 ≡ u
      → Step v u
  resealed :
      (w : World) (s : Server) (header : Text) (epoch : Value) (items : Option (List ResealItem))
      → (reseal_vault_items w s header epoch items v).1 ≡ u
      → Step v u
  deleted :
      (w : World) (s : Server) (header : Text) (param : Value)
      → (delete_vault_item w s header param v).1 ≡ u
      → Step v u
  cleaned :
      (bucket_up : Bool) (group : Text) (fuel now : ℕ)
      → clean_up_vault bucket_up group fuel now v ≡ some u
      → Step v u

abbrev last_of : Vault → List Vault → Vault
last_of v [] = v
last_of v (u ∷ us) = last_of u us

-- A device that starts with an empty copy and the cursor 0, in a vault that others change and whose
-- tombstones the cleanup forgets, and that pulls from its cursor now and then. Requests of others may
-- come between the requests of one pull, the cleanup does not.
pub data Run : Vault → ℕ → List VaultItem → Type 0 where
  started : (v : Vault) → IsVault v → Run v 0 []
  stepped : (v u : Vault) (c : ℕ) (copy : List VaultItem) → Run v c copy → Step v u → Run u c copy
  pulled :
      (v : Vault) (c : ℕ) (copy : List VaultItem) (us : List Vault) (r : VaultChangesResponse)
      → Run v c copy
      → AreWrites v us
      → pull_vault_changes (map answer_of us) c ≡ some r
      → Run (last_of v us) r.cursor (apply_vault_changes copy r)

-- What is forgotten was a tombstone.
forgotten_gone :
    (before : ℕ) (r : VaultRow) → is_forgotten before r ≡ true → live_item (some r) ≡ none
forgotten_gone before r e = elim (Option-cases r.removed_at) [
  | inl q ↦ cc (rw q at e)
  | inr (t, q) ↦ rw q refl
]

-- What the cleanup leaves of a row, and what that means for a copy past the floor.
AgreesAt-forget :
    (c before : ℕ) (known : Option VaultItem) (o : Option VaultRow)
    → ((r : VaultRow) → o ≡ some r → is_forgotten before r ≡ true → row_seq r ≤ c)
    → AgreesAt c known o
    → AgreesAt c known (only (λ r. not (is_forgotten before r)) o)
AgreesAt-forget c before known none f a = a
AgreesAt-forget c before known (some r) f a = elim (Bool-cases (is_forgotten before r)) [
  | inr e ↦ rw e a
  | inl e ↦ rw e (gone a (f r refl e) (forgotten_gone before r e))
]
  where
    gone : AgreesAt c known (some r) → row_seq r ≤ c → live_item (some r) ≡ none → known ≡ none
    gone (inl (l, e)) k d = e ∙ d
    gone (inr (l, e)) k d = absurd (omega (arith, l, k))

module _ (before : ℕ) (v : Vault) (h : IsVault v) where
  pub forget_tombstones-IsVault : IsVault (forget_tombstones before v)
  unfolding forget_tombstones
  forget_tombstones-IsVault = record {
    keyed = IsKeyedBy-filter row_id (λ r. not (is_forgotten before r)) v.rows h.keyed;
    own_seqs = filter-HasOwnSeqs (λ r. not (is_forgotten before r)) v.rows h.own_seqs;
    up_to = All-filter (IsUpTo v.seq) (λ r. not (is_forgotten before r)) v.rows h.up_to;
  }

  -- The floor is no lower than the number of any row that is forgotten.
  forgotten_under :
      (c : ℕ)
      → (forget_tombstones before v).floor ≤ c
      → (x : Text) (r : VaultRow) → row_of x v.rows ≡ some r
      → is_forgotten before r ≡ true
      → row_seq r ≤ c
  unfolding forget_tombstones
  forgotten_under c l x r e f =
      All-find (λ q. row_seq q ≤ c) _ (filter (is_forgotten before) v.rows) r
        (All-fold_max v.floor c row_seq (filter (is_forgotten before) v.rows) l)
        (lookup_by-filter row_id (is_forgotten before) x v.rows h.keyed
          ∙ ap (only (is_forgotten before)) e
          ∙ rw f refl)

  InSync-forget :
      (c : ℕ) (copy : List VaultItem)
      → (forget_tombstones before v).floor ≤ c
      → InSync c copy v
      → InSync c copy (forget_tombstones before v)
  unfolding forget_tombstones
  InSync-forget c copy l (k, f) = (
    k,
    λ x.
        subst (AgreesAt c (item_of x copy))
          (sym (lookup_by-filter row_id (λ r. not (is_forgotten before r)) x v.rows h.keyed))
          (AgreesAt-forget c before (item_of x copy) (row_of x v.rows) (forgotten_under c l x)
            (f x)),
  )

  floor-forget : v.floor ≤ (forget_tombstones before v).floor
  unfolding forget_tombstones
  floor-forget = fold_max-ge v.floor row_seq (filter (is_forgotten before) v.rows)

  forget_tombstones-CanResume :
      (c : ℕ) (copy : List VaultItem)
      → CanResume c copy v
      → CanResume c copy (forget_tombstones before v)
  forget_tombstones-CanResume zero copy r = inl refl
  forget_tombstones-CanResume (suc n) copy (inl e) = absurd (omega (arith, e))
  forget_tombstones-CanResume (suc n) copy (inr (inl (l, k))) =
      inr (inl (l, omega (arith, k, floor-forget)))
  forget_tombstones-CanResume (suc n) copy (inr (inr f)) =
      elim (Bool-cases (ltb (suc n) (forget_tombstones before v).floor)) [
        | inl e ↦ inr (inl (omega arith, ground (arith, e)))
        | inr e ↦ inr (inr (InSync-forget (suc n) copy (ground (arith, e)) f))
      ]

CanResume-writes :
    (c : ℕ) (copy : List VaultItem) (v u : Vault)
    → IsVault v
    → Writes v u
    → CanResume c copy v
    → CanResume c copy u
CanResume-writes c copy v u h w (inl e) = inl e
CanResume-writes c copy v u h (_, a) (inr (inl (l, k))) = inr (inl (l, omega (arith, k, a.floor)))
CanResume-writes c copy v u h w (inr (inr f)) = inr (inr (InSync-writes c copy v u h w f))

abbrev pub Keeps : Vault → Vault → Type 0
Keeps v u = (c : ℕ) (copy : List VaultItem) → CanResume c copy v → CanResume c copy u

written : (v u t : Vault) → IsVault v → Writes v u → u ≡ t → IsVault t × Keeps v t
written v u t h w e =
    subst (λ t. IsVault t × Keeps v t) e (w.0, λ c copy r. CanResume-writes c copy v u h w r)

clean_up_vault-keeps :
    (bucket_up : Bool) (group : Text) (fuel now : ℕ) (v u : Vault)
    → IsVault v
    → clean_up_vault bucket_up group fuel now v ≡ some u
    → IsVault u × Keeps v u
unfolding clean_up_vault
clean_up_vault-keeps bucket_up group fuel now v u h e =
    elim (Option-cases (purge_trash bucket_up group fuel now v)) [
      | inl q ↦ cc (rw (q, clean_up_vault) at e)
      | inr (t, q) ↦
          let w = purge_trash-Writes bucket_up group fuel now v t h q in
          let before = now - vault_tombstone_ttl in
          let same : forget_tombstones before t ≡ u = some_inj (rw (q, clean_up_vault) at e) in
          subst (λ u. IsVault u × Keeps v u) same
            (
              forget_tombstones-IsVault before t w.0,
              λ c copy r.
                  forget_tombstones-CanResume before t w.0 c copy
                    (CanResume-writes c copy v t h w r),
            )
    ]

-- A change of the vault leaves it well formed, and a copy that could resume can resume.
pub Step-keeps : (v u : Vault) → IsVault v → Step v u → IsVault u × Keeps v u
Step-keeps v u h (created w s header body e) =
    written v _ u h (create_vault_item-Writes w s header body v h) e
Step-keeps v u h (updated w s header param body e) =
    written v _ u h (update_vault_item-Writes w s header param body v h) e
Step-keeps v u h (resealed w s header epoch items e) =
    written v _ u h (reseal_vault_items-Writes w s header epoch items v h) e
Step-keeps v u h (deleted w s header param e) =
    written v _ u h (delete_vault_item-Writes w s header param v h) e
Step-keeps v u h (cleaned bucket_up group fuel now e) =
    clean_up_vault-keeps bucket_up group fuel now v u h e

last_of-Writes :
    (v : Vault) (us : List Vault) → IsVault v → AreWrites v us → Writes v (last_of v us)
last_of-Writes v [] h w = Writes_refl v h
last_of-Writes v (u ∷ us) h w = Writes_trans v u (last_of u us) w.0 (last_of-Writes u us w.0.0 w.1)

-- From any of the vaults that a pull sees, only writes lead to the last.
among-Writes :
    (v t : Vault) (us : List Vault)
    → AreWrites v us
    → IsAmong t us
    → IsVault t × Writes t (last_of v us)
among-Writes v t [] w m = absurd m
among-Writes v t (u ∷ us) w (inl e) =
    subst (λ t. IsVault t × Writes t (last_of u us)) (sym e) (w.0.0, last_of-Writes u us w.0.0 w.1)
among-Writes v t (u ∷ us) w (inr m) = among-Writes u t us w.1 m

Run-CanResume :
    (v : Vault) (c : ℕ) (copy : List VaultItem) → Run v c copy → IsVault v × CanResume c copy v
Run-CanResume _ _ _ (started v h) = (h, inl refl)
Run-CanResume _ _ _ (stepped v u c copy run step) =
    let before = Run-CanResume v c copy run in
    let after = Step-keeps v u before.0 step in (after.0, after.1 c copy before.1)
Run-CanResume _ _ _ (pulled v c copy us r run w e) =
    let before = Run-CanResume v c copy run in
    let outcome = pull_vault_changes-Outcome copy c v us r before.0 before.1 w e in
    let rest = among-Writes v outcome.0 us w outcome.1 in
    (
      (last_of-Writes v us before.0 w).0,
      inr (inr (InSync-writes r.cursor _ outcome.0 (last_of v us) rest.0 rest.1 outcome.2.0)),
    )

-- Whatever was created, edited, resealed, deleted and cleaned up in a well-formed vault since a device
-- started with an empty copy, and whatever it has pulled in between: a pull from its cursor, during
-- which nothing is written, ends, and leaves the device with exactly the items that are live.
pub Run-IsUpToDate :
    (v : Vault) (c : ℕ) (copy : List VaultItem)
    → Run v c copy
    → (r : VaultChangesResponse) × (pull_vault_changes (map answer_of (repeat (suc v.seq) v)) c
        ≡ some r)
      × IsUpToDate (apply_vault_changes copy r) v
Run-IsUpToDate v c copy run =
    let now = Run-CanResume v c copy run in pull_vault_changes-IsUpToDate copy c v now.0 now.1
