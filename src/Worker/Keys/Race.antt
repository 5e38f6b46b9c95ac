-- ===== src/Worker/Keys/Race.antt =====
-- Rotations of apps/worker/src/routes/keys.ts that something overtakes between their checks and
-- their batch.
use sendself.Base.{
  ◌+◌, ◌≡◌, refl, inl, inr, true, false, some, List, [], ◌∷◌, any, Bool-cases, ◌++◌, ◌&&◌, not,
  Bool, Text, str_eq, str_eq_refl, subst, some_inj, any-append, arith, ◌∙◌,
}
use sendself.Errors.{err, conflict}
use sendself.Worker.Tables.{Server, Device, Group, KeyRow, is_active_in}
use sendself.Worker.Keys.{
  Rotation, KeyWrap, rotate, exchange, adopters, swapped, insert_wraps, swaps, is_rotating_device,
  all_reached, group_epoch_is, same_key_row, key_row,
}

module _ (r : Rotation) where
  -- Without a group at the previous epoch, no INSERT adds a row.
  insert_wraps-skip :
      (s : Server) (ks : List KeyWrap) (keys : List KeyRow)
      → group_epoch_is r.group_id r.previous s.groups ≡ false
      → insert_wraps r s ks keys ≡ some keys
  unfolding insert_wraps
  insert_wraps-skip s [] keys h = refl
  insert_wraps-skip s (k ∷ ks) keys h = rw h (insert_wraps-skip s ks keys h)

  any-swaps_stale :
      (devices : List Device) (keys : List KeyRow) (gs : List Group)
      → group_epoch_is r.group_id r.previous gs ≡ false
      → any (swaps r devices keys) gs ≡ false
  any-swaps_stale devices keys [] h = refl
  any-swaps_stale devices keys (g ∷ gs) h = ground (arith, any-swaps_stale devices keys gs)

  any-swaps_unreached :
      (devices : List Device) (keys : List KeyRow) (gs : List Group)
      → all_reached r devices keys ≡ false
      → any (swaps r devices keys) gs ≡ false
  any-swaps_unreached devices keys [] h = refl
  any-swaps_unreached devices keys (g ∷ gs) h = ground (arith, any-swaps_unreached devices keys gs)

  -- Where no group is exchanged, the groups are as they were.
  swapped-idle :
      (devices : List Device) (keys : List KeyRow) (gs : List Group)
      → any (swaps r devices keys) gs ≡ false
      → swapped r devices keys gs ≡ gs
  swapped-idle devices keys [] h = refl
  swapped-idle devices keys (g ∷ gs) h = ground (arith, swapped-idle devices keys gs)

  exchange-idle :
      (keys : List KeyRow) (s : Server)
      → any (swaps r (adopters r s.devices) keys) s.groups ≡ false
      → exchange r keys s ≡ (err conflict, record s { keys = keys; devices = adopters r s.devices })
  unfolding exchange
  exchange-idle keys s h = rw (h, swapped-idle (adopters r s.devices) keys s.groups h) refl

-- A rotation whose space is no longer at the epoch that it started from is refused, and adds no
-- wrapped key and changes no group. The one thing that it writes is the epoch of the caller's own
-- row, where that row is active and still at the epoch that the rotation started from.
pub rotate-stale :
    (r : Rotation) (s : Server)
    → group_epoch_is r.group_id r.previous s.groups ≡ false
    → rotate r s ≡ (err conflict, record s { devices = adopters r s.devices })
unfolding rotate
rotate-stale r s h =
    rw (insert_wraps-skip r s r.wraps s.keys h, rotate)
      (exchange-idle r s.keys s (any-swaps_stale r (adopters r s.devices) s.keys s.groups h))

module _ (r : Rotation) where
  all_reached-adopters :
      (devices : List Device) (keys : List KeyRow)
      → all_reached r (adopters r devices) keys ≡ all_reached r devices keys
  all_reached-adopters [] keys = refl
  all_reached-adopters (d ∷ ds) keys = elim (Bool-cases (is_rotating_device r r.previous d)) [
    | inl e ↦ rw e (ground (arith, all_reached-adopters ds keys))
    | inr e ↦ rw e (ground (arith, all_reached-adopters ds keys))
  ]

  any-adopters :
      (devices : List Device)
      → any (is_rotating_device r r.previous) devices ≡ true
      → any (is_rotating_device r (r.previous + 1)) (adopters r devices) ≡ true
  any-adopters [] h = cc
  any-adopters (d ∷ ds) h = ground (arith, any-adopters ds)

abbrev is_active_device : Rotation → Server → Text → Bool
is_active_device r s id =
    any (λ (d : Device). str_eq d.id id && is_active_in r.group_id d) s.devices

abbrev is_stored : Rotation → List KeyRow → Text → Bool
is_stored r keys id = any (same_key_row r.group_id (r.previous + 1) id) keys

-- The INSERTs of a space at the previous epoch, where they pass.
module _ (r : Rotation) (s : Server)
    (at : group_epoch_is r.group_id r.previous s.groups ≡ true) where
  insert_wraps-kept :
      (id : Text) (ks : List KeyWrap) (keys out : List KeyRow)
      → insert_wraps r s ks keys ≡ some out
      → is_stored r keys id ≡ true
      → is_stored r out id ≡ true
  unfolding insert_wraps
  insert_wraps-kept id [] keys out e h = subst (λ ys. is_stored r ys id ≡ true) (some_inj e) h
  insert_wraps-kept id (k ∷ ks) keys out e h =
      elim (Bool-cases (is_active_device r s k.device_id)) [
        | inr a ↦ insert_wraps-kept id ks keys out (rw (at, a) at e) h
        | inl a ↦ elim (Bool-cases (is_stored r keys k.device_id)) [
          | inl b ↦ cc (rw (at, a, b) at e)
          | inr b ↦ insert_wraps-kept id ks (keys ++ key_row r k ∷ []) out (rw (at, a, b) at e) (
              any-append (same_key_row r.group_id (r.previous + 1) id) keys (key_row r k ∷ [])
              ∙ rw h refl)
        ]
      ]

  insert_wraps_stored :
      (ks : List KeyWrap) (keys out : List KeyRow)
      → insert_wraps r s ks keys ≡ some out
      → any
          (λ (k : KeyWrap). is_active_device r s k.device_id && not (is_stored r out k.device_id))
          ks
        ≡ false
  unfolding insert_wraps
  insert_wraps_stored [] keys out e = refl
  insert_wraps_stored (k ∷ ks) keys out e = elim (Bool-cases (is_active_device r s k.device_id)) [
    | inr a ↦ rw a (insert_wraps_stored ks keys out (rw (at, a) at e))
    | inl a ↦ elim (Bool-cases (is_stored r keys k.device_id)) [
      | inl b ↦ cc (rw (at, a, b) at e)
      | inr b ↦
          let e' : insert_wraps r s ks (keys ++ key_row r k ∷ []) ≡ some out = rw (at, a, b) at e in
          let own : is_stored r (keys ++ key_row r k ∷ []) k.device_id ≡ true =
            any-append (same_key_row r.group_id (r.previous + 1) k.device_id) keys
              (key_row r k ∷ [])
            ∙ rw b (ground (arith, str_eq_refl r.group_id, str_eq_refl k.device_id)) in
          rw (a, insert_wraps-kept k.device_id ks (keys ++ key_row r k ∷ []) out e' own)
            (insert_wraps_stored ks (keys ++ key_row r k ∷ []) out e')
    ]
  ]

-- A rotation whose INSERTs pass but leave an active device without a wrapped key, as where one has
-- joined between its checks and its batch, in a space that is still at the previous epoch, as the
-- caller's active row is: the answer is `conflict` and the groups stay as they are, so that the space
-- stays at the previous epoch. But every wrap for an active device is stored as its wrapped key of
-- the next epoch, and the caller's row is at the next epoch.
pub rotate-overtaken :
    (r : Rotation) (s : Server) (keys : List KeyRow)
    → group_epoch_is r.group_id r.previous s.groups ≡ true
    → insert_wraps r s r.wraps s.keys ≡ some keys
    → all_reached r s.devices keys ≡ false
    → any (is_rotating_device r r.previous) s.devices ≡ true
    → (rotate r s ≡ (err conflict, record s { keys = keys; devices = adopters r s.devices }))
      × (group_epoch_is r.group_id r.previous (rotate r s).1.groups ≡ true)
      × (any
            (λ (k : KeyWrap).
              any (λ (d : Device). str_eq d.id k.device_id && is_active_in r.group_id d) s.devices
              && not
                  (any (same_key_row r.group_id (r.previous + 1) k.device_id) (rotate r s).1.keys))
            r.wraps
          ≡ false)
      × (any (is_rotating_device r (r.previous + 1)) (rotate r s).1.devices ≡ true)
unfolding rotate
rotate-overtaken r s keys at e h k =
    rw refused
      (refl, at, insert_wraps_stored r s at r.wraps s.keys keys e, any-adopters r s.devices k)
  where
    refused : rotate r s ≡ (err conflict, record s { keys = keys; devices = adopters r s.devices })
    refused =
        rw (e, rotate)
          (exchange-idle r keys s (
            any-swaps_unreached r (adopters r s.devices) keys s.groups
              (all_reached-adopters r s.devices keys ∙ h)))
