-- ===== src/Worker/Devices/Revocation.antt =====
-- Who may revoke whom in apps/worker/src/routes/devices.ts, and what a revocation leaves.
use sendself.Base.{
  ◌≡◌, ◌≢◌, refl, sym, ap, ◌∙◌, subst, ◌⊎◌, inl, inr, Bool, true, false, ◌&&◌, not, some, List, [],
  ◌∷◌, arith, Text, str_eq, str_eq_iff, find, any, filter, update_where, is_none,
  any-filter_disjoint, any-find,
}
use sendself.Errors.{
  Result, ok, bad_request, not_found, forbidden, when_bound, when_passed, or_fail, or_fail-eq-ok,
  ok_inj,
}
use sendself.Http.{Value, require_id}
use sendself.Worker.Tables.{
  Server, World, Device, Delivery, KeyRow, PushRow, Group, DeviceRole, owner, admin, member,
}
use sendself.Worker.Auth.{AuthContext, authenticate, require_admin, is_owner, is_admin}
use sendself.Worker.Auth.Access.{authenticate-IsDeviceOf, require_admin_iff}
use sendself.Worker.Db.Shrink.{IsShrunk, purge_delivered_messages-IsShrunk}
use sendself.Worker.Devices.{check_revocation, revoke_rows, revoke_device, is_target}

-- Why a revocation was let through.
pub record MayRevoke (w : World) (s : Server) (header : Text) (auth : AuthContext) (id : Text)
    : Type 0 where
  pub authentic : authenticate w s header ≡ ok auth
  pub target : Device
  pub found : find (is_target auth.group_id id) s.devices ≡ some target
  pub other : str_eq id auth.device_id ≡ false
  pub by_admin : auth.role ≢ member
  pub below : (target.role ≡ member) ⊎ ((target.role ≡ admin) × (auth.role ≡ owner))

module _ (w : World) (header : Text) (param : Value) (s : Server) (auth : AuthContext)
    (id : Text) where
  admitted :
      (a : AuthContext) (i : Text) (d : Device)
      → authenticate w s header ≡ ok a
      → a.role ≢ member
      → str_eq i a.device_id ≡ false
      → find (is_target a.group_id i) s.devices ≡ some d
      → is_owner d.role ≡ false
      → (is_admin d.role && not (is_owner a.role)) ≡ false
      → ◌≡◌ {A = Result (AuthContext × Text)} (ok (a, i)) (ok (auth, id))
      → MayRevoke w s header auth id
  admitted a i d e₁ e₂ e₃ e₄ e₅ e₆ e =
      subst (λ (x : AuthContext × Text). MayRevoke w s header x.0 x.1) (ok_inj e)
        (record {
          authentic = e₁;
          target = d;
          found = e₄;
          other = e₃;
          by_admin = e₂;
          below = below_of d.role a.role e₅ e₆;
        })
    where
      below_of :
          (of caller : DeviceRole)
          → is_owner of ≡ false
          → (is_admin of && not (is_owner caller)) ≡ false
          → (of ≡ member) ⊎ ((of ≡ admin) × (caller ≡ owner))
      below_of owner caller h k = cc
      below_of member caller h k = inl refl
      below_of admin owner h k = inr (refl, refl)
      below_of admin admin h k = cc
      below_of admin member h k = cc

  -- A revocation is let through only where a device of the space that is no member revokes another
  -- active device of the same space that is not its owner, and an administrator only where the
  -- caller is the owner.
  pub check_revocation-MayRevoke :
      check_revocation w header param s ≡ ok (auth, id) → MayRevoke w s header auth id
  unfolding check_revocation
  check_revocation-MayRevoke h = when_bound (authenticate w s header) h λ a e₁ h₁.
      when_bound (require_admin a) h₁ λ u e₂ h₂. when_bound (require_id param) h₂ λ i _ h₃.
        when_passed (str_eq i a.device_id) bad_request h₃ λ e₃ h₄.
          when_bound (or_fail (find (is_target a.group_id i) s.devices) not_found) h₄ λ d e₄ h₅.
            when_passed (is_owner d.role) forbidden h₅ λ e₅ h₆.
              when_passed (is_admin d.role && not (is_owner a.role)) forbidden h₆ λ e₆ h₇.
                admitted a i d e₁ ((require_admin_iff a).0 e₂) e₃ (or_fail-eq-ok _ _ d e₄) e₅ e₆ h₇

-- What is left of a revoked device.
pub record IsRevoked (group id : Text) (t : Server) : Type 0 where
  pub inactive : any (is_target group id) t.devices ≡ false
  pub no_delivery :
      any (λ (d : Delivery). str_eq d.device_id id && is_none d.downloaded_at) t.deliveries ≡ false
  pub no_key : any (λ (k : KeyRow). str_eq k.device_id id && str_eq k.group_id group) t.keys ≡ false
  pub no_push :
      any (λ (p : PushRow). str_eq p.device_id id && str_eq p.group_id group) t.pushes ≡ false
  pub owes_rotation :
      any (λ (g : Group). str_eq g.id group && not g.rotation_pending) t.groups ≡ false

any-filter-not :
    {A : Type 0} (p : A → Bool) (xs : List A) → any p (filter (λ x. not (p x)) xs) ≡ false
any-filter-not p xs = any-filter_disjoint (λ x. not (p x)) p (λ a e. ap not e) xs

module _ (w : World) (group id : Text) where
  inactive-revoke_rows :
      (ds : List Device)
      → any (is_target group id) (
          update_where
            (λ (d : Device). str_eq d.id id && str_eq d.group_id group)
            (λ (d : Device). record d { revoked_at = some w.now })
            ds)
        ≡ false
  inactive-revoke_rows [] = refl
  inactive-revoke_rows (d ∷ ds) = ground (arith, inactive-revoke_rows ds)

  owing-revoke_rows :
      (gs : List Group)
      → any
          (λ (g : Group). str_eq g.id group && not g.rotation_pending)
          (update_where
            (λ (g : Group). str_eq g.id group)
            (λ (g : Group). record g { rotation_pending = true })
            gs)
        ≡ false
  owing-revoke_rows [] = refl
  owing-revoke_rows (g ∷ gs) = ground (arith, owing-revoke_rows gs)

  revoke_rows-IsRevoked : (s : Server) → IsRevoked group id (revoke_rows w group id s)
  unfolding revoke_rows
  revoke_rows-IsRevoked s = record {
    inactive = inactive-revoke_rows s.devices;
    no_delivery =
        any-filter-not (λ (d : Delivery). str_eq d.device_id id && is_none d.downloaded_at)
          s.deliveries;
    no_key =
        any-filter-not (λ (k : KeyRow). str_eq k.device_id id && str_eq k.group_id group) s.keys;
    no_push =
        any-filter-not (λ (p : PushRow). str_eq p.device_id id && str_eq p.group_id group) s.pushes;
    owes_rotation = owing-revoke_rows s.groups;
  }

  IsRevoked-IsShrunk : {s t : Server} → IsRevoked group id s → IsShrunk s t → IsRevoked group id t
  IsRevoked-IsShrunk h k = record {
    inactive = ap (any (is_target group id)) k.same_devices ∙ h.inactive;
    no_delivery =
        k.fewer (λ (d : Delivery). str_eq d.device_id id && is_none d.downloaded_at) h.no_delivery;
    no_key =
        ap (any λ (x : KeyRow). str_eq x.device_id id && str_eq x.group_id group) k.same_keys
        ∙ h.no_key;
    no_push =
        ap (any λ (p : PushRow). str_eq p.device_id id && str_eq p.group_id group) k.same_pushes
        ∙ h.no_push;
    owes_rotation =
        ap (any λ (g : Group). str_eq g.id group && not g.rotation_pending) k.same_groups
        ∙ h.owes_rotation;
  }

module _ (w : World) (header : Text) (param : Value) (s : Server) (auth : AuthContext)
    (id : Text) where
  -- A revocation that was let through, also one whose clean-up fails afterwards: the device is no
  -- longer active, nothing waits for it, its push endpoints are gone, and its space owes a rotation.
  pub revoke_device-IsRevoked :
      check_revocation w header param s ≡ ok (auth, id)
      → IsRevoked auth.group_id id (revoke_device w header param s).1
  unfolding revoke_device
  revoke_device-IsRevoked h =
      rw (h, revoke_device)
        (IsRevoked-IsShrunk w auth.group_id id (revoke_rows-IsRevoked w auth.group_id id s)
          (purge_delivered_messages-IsShrunk w auth.group_id (revoke_rows w auth.group_id id s)))

  -- After a revocation that was let through, no token is accepted as the revoked device's: whoever
  -- the server lets in on the tables that it leaves, at whatever time, is not that device of that
  -- space.
  pub revoke_device-shut_out :
      (later : World) (presented : Text) (caller : AuthContext)
      → check_revocation w header param s ≡ ok (auth, id)
      → authenticate later (revoke_device w header param s).1 presented ≡ ok caller
      → caller.group_id ≡ auth.group_id
      → caller.device_id ≢ id
  revoke_device-shut_out later presented caller h e same_group same_id =
      let t = (revoke_device w header param s).1 in
      let k = authenticate-IsDeviceOf later t presented caller e in
      let is_id : str_eq k.device.id id ≡ true = (str_eq_iff _ _).1 (sym k.same_device ∙ same_id) in
      let is_group : str_eq k.device.group_id auth.group_id ≡ true =
        (str_eq_iff _ _).1 (sym k.same_group ∙ same_group) in
      let is_active : is_none k.device.revoked_at ≡ true = ap is_none k.active in
      cc (
        any-find (is_target auth.group_id id) _ t.devices k.device k.found (ground arith),
        (revoke_device-IsRevoked h).inactive,
      )
