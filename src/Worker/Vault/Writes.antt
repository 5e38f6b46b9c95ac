-- ===== src/Worker/Vault/Writes.antt =====
-- Every handler of the vault writes as `Writes` says: the table stays well formed, and each row that
-- changes has a change number that no row had before.
use sendself.Base.{
  list_cases, some_inj, ℕ, zero, suc, Bool, true, ◌&&◌, ◌≡◌, refl, inl, inr, Option, none, some,
  List, [], ◌∷◌, Text, Bool-cases, Option-cases, is_none, arith, take, filter, ◌-◌, subst, opt_eq,
  only, batch_loop, length, map,
}
use sendself.Errors.{Result-cases}
use sendself.Http.{Value, require_id}
use sendself.Shared.Vault.{VaultItem, vault_trash_ttl}
use sendself.Worker.Tables.{Server, World}
use sendself.Worker.Auth.{AuthContext}
use sendself.Worker.Blobs.{Store}
use sendself.Worker.Vault.{
  Vault, VaultRow, row_id, row_of, next_vault_seq, vault_item, tombstone, emptied, is_purgeable,
  drop_blobs, purge_slice, purge_slices, purge_vault_item, purge_expired_vault_item, purge_all,
  purge_trash, live_in_tree, is_expired, is_live,
}
use sendself.Worker.Vault.Requests.{
  CreateVaultItemRequest, NewItem, insert_item, create_item, create_vault_item, delete_vault_item,
  may_insert_item, check_new_item, vault_auth, parse_new_item, new_row_of,
}
use sendself.Worker.Vault.Edits.{
  Edit, UpdateVaultItemRequest, ResealItem, Resealed, write_edit, drop_replaced, edit_item,
  update_vault_item, reseal_items, reseal_vault_items, may_edit, edited, parse_edit, may_reseal,
  resealed, check_edited, check_reseal, is_empty_edit,
}
use sendself.Worker.Vault.Rows.{
  IsVault, Writes, Writes_refl, Writes_trans, next_vault_seq-Writes, update_row-Writes,
  append-Writes,
}

-- What follows a write.
abbrev then_Writes : (u v w : Vault) → Writes u v → (IsVault v → Writes v w) → Writes u w
then_Writes u v w a b = Writes_trans u v w a (b a.0)

blobs-Writes : (blobs : Store) (v : Vault) → IsVault v → Writes v (record v { blobs = blobs })
blobs-Writes blobs v h = (
  record { keyed = h.keyed; own_seqs = h.own_seqs; up_to = h.up_to },
  (let same = (Writes_refl v h).1 in
      record { counter = same.counter; floor = same.floor; rows = same.rows }),
)

tombstone-Writes :
    (id : Text) (now : ℕ) (guard : VaultRow → Bool) (v : Vault)
    → IsVault v
    → Writes v (tombstone id now guard v).1
unfolding tombstone
tombstone-Writes id now guard v h =
    update_row-Writes id (is_purgeable guard) (emptied now) v (λ r. refl) h

module _ (bucket_up : Bool) (group : Text) where
  drop_blobs-Writes :
      (keys : List (Option Text)) (v : Vault)
      → IsVault v
      → Writes v (drop_blobs bucket_up group keys v)
  unfolding drop_blobs
  drop_blobs-Writes keys v h = blobs-Writes _ v h

  purge_slice-Writes :
      (root : Text) (now : ℕ) (slice : List VaultItem) (v : Vault)
      → IsVault v
      → Writes v (purge_slice bucket_up group root now slice v).1
  unfolding purge_slice
  purge_slice-Writes root now [] v h = Writes_refl v h
  purge_slice-Writes root now (i ∷ is) v h =
      then_Writes v _ _ (tombstone-Writes i.id now _ v h) (purge_slice-Writes root now is _)

  purge_slices-Writes :
      (root : Text) (now : ℕ) (slices : List (List VaultItem)) (v : Vault)
      → IsVault v
      → Writes v (purge_slices bucket_up group root now slices v).1
  unfolding purge_slices
  purge_slices-Writes root now [] v h = Writes_refl v h
  purge_slices-Writes root now (slice ∷ slices) v h =
      then_Writes v _ _ (purge_slice-Writes root now slice v h) (λ k.
        then_Writes _ _ _
          (drop_blobs-Writes
            (map (λ (i : VaultItem). i.blob_key) (purge_slice bucket_up group root now slice v).0) _
            k)
          (purge_slices-Writes root now slices _))

  pub purge_vault_item-Writes :
      (fuel now : ℕ) (id : Text) (v : Vault)
      → IsVault v
      → Writes v (purge_vault_item bucket_up group fuel now id v).1
  unfolding purge_vault_item
  purge_vault_item-Writes zero now id v h = Writes_refl v h
  purge_vault_item-Writes (suc fuel) now id v h = elim (list_cases (live_in_tree id v)) [
    | inl e ↦ rw (e, purge_vault_item) (Writes_refl v h)
    | inr (i, is, e) ↦
        rw (e, purge_vault_item)
          (then_Writes v _ _
            (purge_slices-Writes id now (batch_loop (length (i ∷ is)) 39 (i ∷ is)) v h)
            (purge_vault_item-Writes fuel now id _))
  ]

  purge_expired_vault_item-Writes :
      (fuel now before : ℕ) (id : Text) (v : Vault)
      → IsVault v
      → Writes v (purge_expired_vault_item bucket_up group fuel now before id v).1
  unfolding purge_expired_vault_item
  purge_expired_vault_item-Writes fuel now before id v h =
      elim (Option-cases (only (λ r. is_live r && is_expired before r.item) (row_of id v.rows))) [
        | inl e ↦ rw (e, purge_expired_vault_item) (Writes_refl v h)
        | inr (root, e) ↦
            let guard : VaultRow → Bool =
              λ r. is_expired before r.item && opt_eq r.item.blob_key root.item.blob_key in
            let claim = tombstone-Writes id now guard v h in
            let rest = then_Writes v _ _ claim (λ k.
              then_Writes _ _ _ (drop_blobs-Writes (root.item.blob_key ∷ []) _ k)
                (purge_vault_item-Writes fuel now id _)) in
            elim (Bool-cases (tombstone id now guard v).0) [
              | inl q ↦ rw (e, purge_expired_vault_item, q) rest
              | inr q ↦ rw (e, purge_expired_vault_item, q) claim
            ]
      ]

  purge_all-Writes :
      (fuel now before : ℕ) (ids : List Text) (v : Vault)
      → IsVault v
      → Writes v (purge_all bucket_up group fuel now before ids v)
  unfolding purge_all
  purge_all-Writes fuel now before [] v h = Writes_refl v h
  purge_all-Writes fuel now before (id ∷ ids) v h =
      then_Writes v _ _ (purge_expired_vault_item-Writes fuel now before id v h)
        (purge_all-Writes fuel now before ids _)

  pub purge_trash-Writes :
      (fuel now : ℕ) (v u : Vault)
      → IsVault v
      → purge_trash bucket_up group fuel now v ≡ some u
      → Writes v u
  unfolding purge_trash
  purge_trash-Writes zero now v u h e = cc
  purge_trash-Writes (suc fuel) now v u h e =
      elim (list_cases (
        take 50 (
          filter (λ (r : VaultRow). is_expired (now - vault_trash_ttl) r.item && is_live r)
            v.rows))) [
              | inl q ↦ subst (Writes v) (some_inj (rw (q, purge_trash) at e)) (Writes_refl v h)
              | inr (r, rs, q) ↦
                  then_Writes v _ _
                    (purge_all-Writes 2 now (now - vault_trash_ttl) (map row_id (r ∷ rs)) v h)
                    (λ k. purge_trash-Writes fuel now _ u k (rw (q, purge_trash) at e))
            ]

-- An INSERT that is let through is under an id that no row has.
insert_free :
    (group : Text) (n : NewItem) (v : Vault)
    → may_insert_item group n (next_vault_seq v) ≡ true
    → row_of n.id v.rows ≡ none
unfolding may_insert_item next_vault_seq
insert_free group n v e = none_of (row_of n.id v.rows) (ground (arith, e))
  where
    none_of : (o : Option VaultRow) → is_none o ≡ true → o ≡ none
    none_of none h = refl
    none_of (some r) h = cc

insert_item-Writes :
    (group : Text) (size now : ℕ) (n : NewItem) (v : Vault)
    → IsVault v
    → Writes v (insert_item group size now n v).1
unfolding insert_item next_vault_seq
insert_item-Writes group size now n v h =
    elim (Bool-cases (may_insert_item group n (next_vault_seq v))) [
      | inr e ↦ rw (e, insert_item) (next_vault_seq-Writes v h)
      | inl e ↦
          rw (e, insert_item)
            (append-Writes (new_row_of size now n (suc v.seq)) v h (insert_free group n v e) refl)
    ]

-- What a request comes to writes nothing or what one of its branches writes.
create_item-Writes :
    (auth : AuthContext) (now : ℕ) (n : NewItem) (v : Vault)
    → IsVault v
    → Writes v (create_item auth now n v).1
unfolding create_item
create_item-Writes auth now n v h = elim (Option-cases (vault_item n.id v)) [
  | inr (i, e) ↦ rw (e, create_item) (Writes_refl v h)
  | inl e ↦ elim (Result-cases (check_new_item auth.group_id n v)) [
    | inl (c, q) ↦ rw (e, create_item, q) (Writes_refl v h)
    | inr (size, q) ↦
        let wrote = insert_item-Writes auth.group_id size now n v h in
        elim (Option-cases (insert_item auth.group_id size now n v).0) [
          | inl o ↦ rw (e, create_item, q, o) wrote
          | inr (i, o) ↦ rw (e, create_item, q, o) wrote
        ]
  ]
]

write_edit-Writes :
    (group id : Text) (revision now : ℕ) (e : Edit) (v : Vault)
    → IsVault v
    → Writes v (write_edit group id revision now e v).1
unfolding write_edit
write_edit-Writes group id revision now e v h =
    update_row-Writes id (may_edit group id revision e (next_vault_seq v)) (edited now e) v
      (λ r. refl) h

drop_replaced-Writes :
    (bucket_up : Bool) (group : Text) (item : VaultItem) (e : Edit) (v : Vault)
    → IsVault v
    → Writes v (drop_replaced bucket_up group item e v)
unfolding drop_replaced
drop_replaced-Writes bucket_up group item e v h = elim (Option-cases e.blob) [
  | inl q ↦ rw q (Writes_refl v h)
  | inr (b, q) ↦ elim (Option-cases item.blob_key) [
    | inl o ↦ rw (q, o) (Writes_refl v h)
    | inr (k, o) ↦ rw (q, o) (blobs-Writes _ v h)
  ]
]

edit_item-Writes :
    (auth : AuthContext) (bucket_up : Bool) (now revision : ℕ) (item : VaultItem)
    (body : UpdateVaultItemRequest) (v : Vault)
    → IsVault v
    → Writes v (edit_item auth bucket_up now revision item body v).1
unfolding edit_item
edit_item-Writes auth bucket_up now revision item body v h =
    elim (Result-cases (parse_edit auth now item body v)) [
      | inl (c, q) ↦ rw (q, edit_item) (Writes_refl v h)
      | inr (e, q) ↦ elim (Bool-cases (is_empty_edit e)) [
        | inl d ↦ rw (q, edit_item, d) (Writes_refl v h)
        | inr d ↦
            let wrote = write_edit-Writes auth.group_id item.id revision now e v h in
            elim (Option-cases (write_edit auth.group_id item.id revision now e v).0) [
              | inl o ↦ rw (q, edit_item, d, o) wrote
              | inr (i, o) ↦
                  rw (q, edit_item, d, o)
                    (then_Writes v _ _ wrote
                      (drop_replaced-Writes bucket_up auth.group_id item e _))
            ]
      ]
    ]

reseal_items-Writes :
    (epoch now : ℕ) (ns : List Resealed) (v : Vault)
    → IsVault v
    → Writes v (reseal_items epoch now ns v).1
unfolding reseal_items
reseal_items-Writes epoch now [] v h = Writes_refl v h
reseal_items-Writes epoch now (n ∷ ns) v h =
    then_Writes v _ _
      (update_row-Writes n.id (may_reseal epoch n) (resealed epoch now n) v (λ r. refl) h)
      (reseal_items-Writes epoch now ns _)

module _ (w : World) (s : Server) where
  pub create_vault_item-Writes :
      (header : Text) (body : CreateVaultItemRequest) (v : Vault)
      → IsVault v
      → Writes v (create_vault_item w s header body v).1
  unfolding create_vault_item
  create_vault_item-Writes header body v h = elim (Result-cases (vault_auth w s header true)) [
    | inl (c, q) ↦ rw (q, create_vault_item) (Writes_refl v h)
    | inr (auth, q) ↦ elim (Result-cases (parse_new_item auth body)) [
      | inl (c, o) ↦ rw (q, create_vault_item, o) (Writes_refl v h)
      | inr (n, o) ↦ rw (q, create_vault_item, o) (create_item-Writes auth w.now n v h)
    ]
  ]

  pub update_vault_item-Writes :
      (header : Text) (param : Value) (body : UpdateVaultItemRequest) (v : Vault)
      → IsVault v
      → Writes v (update_vault_item w s header param body v).1
  unfolding update_vault_item
  update_vault_item-Writes header param body v h =
      elim (Result-cases (check_edited w s header param body.revision v)) [
        | inl (c, q) ↦ rw (q, update_vault_item) (Writes_refl v h)
        | inr ((auth, revision, item), q) ↦
            rw (q, update_vault_item)
              (edit_item-Writes auth w.bucket_up w.now revision item body v h)
      ]

  pub reseal_vault_items-Writes :
      (header : Text) (epoch : Value) (items : Option (List ResealItem)) (v : Vault)
      → IsVault v
      → Writes v (reseal_vault_items w s header epoch items v).1
  unfolding reseal_vault_items
  reseal_vault_items-Writes header epoch items v h =
      elim (Result-cases (check_reseal w s header epoch items)) [
        | inl (c, q) ↦ rw (q, reseal_vault_items) (Writes_refl v h)
        | inr ((current, parsed), q) ↦
            rw (q, reseal_vault_items) (reseal_items-Writes current w.now parsed v h)
      ]

  pub delete_vault_item-Writes :
      (header : Text) (param : Value) (v : Vault)
      → IsVault v
      → Writes v (delete_vault_item w s header param v).1
  unfolding delete_vault_item
  delete_vault_item-Writes header param v h = elim (Result-cases (vault_auth w s header true)) [
    | inl (c, q) ↦ rw (q, delete_vault_item) (Writes_refl v h)
    | inr (auth, q) ↦ elim (Result-cases (require_id param)) [
      | inl (c, o) ↦ rw (q, delete_vault_item, o) (Writes_refl v h)
      | inr (id, o) ↦ elim (Bool-cases (is_none (vault_item id v))) [
        | inl d ↦ rw (q, delete_vault_item, o, d) (Writes_refl v h)
        | inr d ↦
            rw (q, delete_vault_item, o, d)
              (purge_vault_item-Writes w.bucket_up auth.group_id 2 w.now id v h)
      ]
    ]
  ]
