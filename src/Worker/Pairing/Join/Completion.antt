-- ===== src/Worker/Pairing/Join/Completion.antt =====
-- What the batch of `completePairing` in apps/worker/src/routes/pairing.ts leaves.
use sendself.Base.{
  ◌≡◌, refl, sym, ◌∙◌, subst, inl, inr, Bool, not, true, false, ◌&&◌, some, List, [], ◌∷◌, arith,
  str_eq, str_eq_refl, opt_eq, any, any-append, ◌==◌, update_where, update_where_idle,
  any-update_where, Bool-cases, and-true,
}
use sendself.Errors.{Result, ok, err, conflict, internal, ApiErrorCode}
use sendself.Worker.Tables.{Server, Device, Slot, is_active_in}
use sendself.Worker.Auth.{is_owner, is_admin}
use sendself.Worker.Keys.{group_epoch_is}
use sendself.Worker.Pairing.Join.{
  Join, join, fill, may_insert, is_open_slot, hash_taken, may_update, upsert_device, device_changed,
  may_fill, filled, joined,
}

-- The device is in the space, active, a member, at the key epoch of its package.
abbrev pub is_joined : Join → Device → Bool
is_joined j d =
    str_eq d.id j.device.id
    && is_active_in j.group_id d
    && not (is_owner d.role)
    && not (is_admin d.role)
    && d.key_epoch == j.key_epoch
    && str_eq d.public_key j.device.public_key

-- The slot holds the package.
abbrev pub is_filled : Join → Slot → Bool
is_filled j p =
    str_eq p.pairing_id j.pairing_id
    && opt_eq p.wrapped_package (some j.wrapped_package)
    && opt_eq p.ephemeral_public_key (some j.ephemeral_public_key)

-- Everything is there or nothing has been written.
pub data Outcome (j : Join) (s : Server) : Result (Unit {0}) × Server → Type 0 where
  complete :
      (t : Server)
      → any (is_joined j) t.devices ≡ true
      → any (is_filled j) t.slots ≡ true
      → group_epoch_is j.group_id j.key_epoch t.groups ≡ true
      → Outcome j s (ok tt, t)
  refused : (e : ApiErrorCode) → Outcome j s (err e, s)

module _ (j : Join) (s : Server) where
  -- The second statement finds no row without the first one's conditions.
  no_fill-may_insert :
      (devices : List Device) (slots : List Slot)
      → (group_epoch_is j.group_id j.key_epoch s.groups && any (is_open_slot j.pairing_id) slots)
        ≡ false
      → any (may_fill j s devices) slots ≡ false
  no_fill-may_insert devices [] h = refl
  no_fill-may_insert devices (p ∷ ps) h = ground (arith, no_fill-may_insert devices ps)

  no_fill-absent :
      (devices : List Device) (slots : List Slot)
      → any (λ (d : Device). str_eq d.id j.device.id && is_active_in j.group_id d) devices ≡ false
      → any (may_fill j s devices) slots ≡ false
  no_fill-absent devices [] h = refl
  no_fill-absent devices (p ∷ ps) h = ground (arith, no_fill-absent devices ps)

  any-may_fill :
      (devices : List Device) (slots : List Slot)
      → group_epoch_is j.group_id j.key_epoch s.groups ≡ true
      → any (is_open_slot j.pairing_id) slots ≡ true
      → any (λ (d : Device). str_eq d.id j.device.id && is_active_in j.group_id d) devices ≡ true
      → any (may_fill j s devices) slots ≡ true
  any-may_fill devices [] g o d = cc
  any-may_fill devices (p ∷ ps) g o d = ground (arith, any-may_fill devices ps)

  fill-refused :
      (devices : List Device) (changed : Bool)
      → any (may_fill j s devices) s.slots ≡ false
      → devices ≡ s.devices
      → fill j devices changed s ≡ (err conflict, s)
  unfolding fill
  fill-refused devices true h e = rw (h, update_where_idle _ (filled j) s.slots h, e) refl
  fill-refused devices false h e = rw (update_where_idle _ (filled j) s.slots h, e) refl

  fill_complete :
      (devices : List Device)
      → any (may_fill j s devices) s.slots ≡ true
      → any (is_joined j) devices ≡ true
      → group_epoch_is j.group_id j.key_epoch s.groups ≡ true
      → Outcome j s (fill j devices true s)
  unfolding fill
  fill_complete devices h d g = rw h (
      complete
        (record s {
          devices = devices;
          slots = update_where (may_fill j s devices) (filled j) s.slots;
        })
        d
        (any-update_where (may_fill j s devices) (is_filled j) (filled j) (λ p e. filled_is p e)
          s.slots h)
        g)
    where
      filled_is : (p : Slot) → may_fill j s devices p ≡ true → is_filled j (filled j p) ≡ true
      filled_is p e =
          ground (arith, str_eq_refl j.wrapped_package, str_eq_refl j.ephemeral_public_key)

-- The row of the device, inserted or brought up to date, is that of the join.
joined-is_joined : (j : Join) → is_joined j (joined j) ≡ true
joined-is_joined j =
    ground (arith, str_eq_refl j.device.id, str_eq_refl j.group_id, str_eq_refl j.device.public_key)

upsert_device-joined :
    (j : Join) (ds : List Device)
    → device_changed j ds ≡ true
    → any (is_joined j) (upsert_device j ds) ≡ true
upsert_device-joined j ds h = elim (Bool-cases (any (λ (d : Device). str_eq d.id j.device.id) ds)) [
  | inl e ↦ rw e (
      any-update_where (may_update j) (is_joined j)
        (λ d. record (joined j) { created_at = d.created_at }) (λ d _. joined-is_joined j) ds
        (rw e at h))
  | inr e ↦ rw e (any-append (is_joined j) ds (joined j ∷ []) ∙ ground (arith, joined-is_joined j))
]

-- Where no row changed, another space has the device's id.
upsert_device-absent :
    (j : Join) (ds : List Device)
    → device_changed j ds ≡ false
    → (upsert_device j ds ≡ ds)
      × (any (λ (d : Device). str_eq d.id j.device.id && is_active_in j.group_id d) ds ≡ false)
upsert_device-absent j ds h = elim (Bool-cases (any (λ (d : Device). str_eq d.id j.device.id) ds)) [
  | inl e ↦
      let none_updated : any (may_update j) ds ≡ false = rw e at h in
      (rw e (update_where_idle _ _ ds none_updated), inactive ds none_updated)
  | inr e ↦ cc (rw e at h)
]
  where
    inactive :
        (ds : List Device)
        → any (may_update j) ds ≡ false
        → any (λ (d : Device). str_eq d.id j.device.id && is_active_in j.group_id d) ds ≡ false
    inactive [] h = refl
    inactive (d ∷ ds) h = ground (arith, inactive ds)

any-is_joined :
    (j : Join) (ds : List Device)
    → any (is_joined j) ds ≡ true
    → any (λ (d : Device). str_eq d.id j.device.id && is_active_in j.group_id d) ds ≡ true
any-is_joined j [] h = cc
any-is_joined j (d ∷ ds) h = ground (arith, any-is_joined j ds)

-- The batch that completes a pairing, whatever ran between its checks and itself: it either answers
-- with a success, and the device is in the space, active, a member and at the space's key epoch, and the slot
-- holds its package, or it answers with an error and has written nothing.
pub join-Outcome : (j : Join) (s : Server) → Outcome j s (join j s)
unfolding join
join-Outcome j s = elim (Bool-cases (may_insert j s)) [
  | inr e ↦
      rw (e, join)
        (subst (Outcome j s)
          (sym (fill-refused j s s.devices false (no_fill-may_insert j s s.devices s.slots e) refl))
          (refused conflict))
  | inl e ↦
      let (at_epoch, is_open) = and-true _ _ e in
      elim (Bool-cases (any (hash_taken j) s.devices)) [
        | inl k ↦ rw (e, k, join) (refused internal)
        | inr k ↦ elim (Bool-cases (device_changed j s.devices)) [
          | inl c ↦
              let devices = upsert_device j s.devices in
              let in_space = upsert_device-joined j s.devices c in
              rw (e, k, c, join)
                (fill_complete j s devices
                  (any-may_fill j s devices s.slots at_epoch is_open
                    (any-is_joined j devices in_space))
                  in_space at_epoch)
          | inr c ↦
              let (same, inactive) = upsert_device-absent j s.devices c in
              rw (e, k, c, same, join)
                (subst (Outcome j s)
                  (sym (
                    fill-refused j s s.devices false (no_fill-absent j s s.devices s.slots inactive)
                      refl))
                  (refused conflict))
        ]
      ]
]
