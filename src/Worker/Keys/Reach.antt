-- ===== src/Worker/Keys/Reach.antt =====
-- What a rotation of apps/worker/src/routes/keys.ts that succeeds has reached.
use sendself.Base.{
  ◌+◌, ◌≡◌, ap, subst, ◌⊎◌, inl, inr, Bool, true, ◌&&◌, not, List, [], ◌∷◌, str_eq, any, ◌==◌,
  filter, All, Bool-cases, Option-cases, arith,
}
use sendself.Errors.{Result, ok}
use sendself.Worker.Tables.{Server, Device, Group, KeyRow, is_active_in}
use sendself.Worker.Keys.{
  Rotation, rotate, exchange, adopters, swapped, insert_wraps, swaps, same_key_row,
  is_rotating_device, all_reached,
}

-- A device of the space can read the new epoch: the caller has adopted it, and for every
-- other device a wrapped key waits.
abbrev pub IsReached : Rotation → Server → Device → Type 0
IsReached r s d =
    (str_eq d.id r.device_id ≡ true)
    ⊎ (any (same_key_row r.group_id (r.previous + 1) d.id) s.keys ≡ true)

-- The group after the exchange.
abbrev pub is_rotated : Rotation → Group → Bool
is_rotated r g = str_eq g.id r.group_id && g.key_epoch == r.previous + 1 && not g.rotation_pending

module _ (r : Rotation) where
  any-swaps :
      (devices : List Device) (keys : List KeyRow) (gs : List Group)
      → any (swaps r devices keys) gs ≡ true
      → (any (is_rotating_device r (r.previous + 1)) devices ≡ true)
        × (all_reached r devices keys ≡ true)
  any-swaps devices keys [] h = cc
  any-swaps devices keys (g ∷ gs) h = ground (arith, any-swaps devices keys gs)

  any-is_rotated :
      (devices : List Device) (keys : List KeyRow) (gs : List Group)
      → any (swaps r devices keys) gs ≡ true
      → any (is_rotated r) (swapped r devices keys gs) ≡ true
  any-is_rotated devices keys [] h = cc
  any-is_rotated devices keys (g ∷ gs) h = ground (arith, any-is_rotated devices keys gs)

  All-IsReached :
      (devices : List Device) (s : Server)
      → all_reached r devices s.keys ≡ true
      → All (IsReached r s) (filter (is_active_in r.group_id) devices)
  All-IsReached [] s h = tt
  All-IsReached (d ∷ ds) s h = elim (Bool-cases (is_active_in r.group_id d)) [
    | inr a ↦ rw a (All-IsReached ds s (ground arith))
    | inl a ↦ rw a (here a, All-IsReached ds s (ground arith))
  ]
    where
      here : is_active_in r.group_id d ≡ true → IsReached r s d
      here a = elim (Bool-cases (str_eq d.id r.device_id)) [
        | inl e ↦ inl e
        | inr e ↦ inr (ground arith)
      ]

-- What a space is after the rotation.
pub record IsRotated (r : Rotation) (t : Server) : Type 0 where
  pub group : any (is_rotated r) t.groups ≡ true
  pub caller : any (is_rotating_device r (r.previous + 1)) t.devices ≡ true
  pub reached : All (IsReached r t) (filter (is_active_in r.group_id) t.devices)

rotated :
    (r : Rotation) (s : Server) (devices : List Device) (keys : List KeyRow)
    → any (swaps r devices keys) s.groups ≡ true
    → IsRotated r
        (record s { keys = keys; devices = devices; groups = swapped r devices keys s.groups })
rotated r s devices keys h = record {
  group = any-is_rotated r devices keys s.groups h;
  caller = (any-swaps r devices keys s.groups h).0;
  reached =
      All-IsReached r devices (record s { keys = keys }) (any-swaps r devices keys s.groups h).1;
}

exchange-IsRotated :
    (r : Rotation) (keys : List KeyRow) (s t : Server)
    → exchange r keys s ≡ (ok tt, t)
    → IsRotated r t
unfolding exchange
exchange-IsRotated r keys s t h =
    elim (Bool-cases (any (swaps r (adopters r s.devices) keys) s.groups)) [
      | inl e ↦
          subst (IsRotated r) (ap (λ (x : Result (Unit {0}) × Server). x.1) h)
            (rotated r s (adopters r s.devices) keys e)
      | inr e ↦ cc (rw e at h)
    ]

-- A rotation that succeeds, whatever ran between its checks and its batch: the group is at the next
-- epoch with no rotation pending, the caller's row has adopted that epoch, and for every other
-- active device of the space a wrapped key of it waits.
pub rotate-IsRotated : (r : Rotation) (s t : Server) → rotate r s ≡ (ok tt, t) → IsRotated r t
unfolding rotate
rotate-IsRotated r s t h = elim (Option-cases (insert_wraps r s r.wraps s.keys)) [
  | inl e ↦ cc (rw (e, rotate) at h)
  | inr (keys, e) ↦ exchange-IsRotated r keys s t (rw (e, rotate) at h)
]
