-- ===== src/Worker/Devices/Roles.antt =====
-- What a change of roles in apps/worker/src/routes/devices.ts never does.
use sendself.Base.{
  ◌≡◌, ◌≢◌, refl, sym, ap, subst, inl, inr, true, false, ◌&&◌, not, some, List, [], ◌∷◌, arith,
  Text, txt, str_eq, str_eq_iff, str_eq_comm, find, any, filter, update_where, map, All, Bool-cases,
}
use sendself.Errors.{
  ok, bad_request, not_found, when_bound, when_passed, or_fail, or_fail-eq-ok, ok_inj,
}
use sendself.Http.{
  Value, str, undefined, null, fraction, compound, nat, negative, boolean, require_id,
}
use sendself.Worker.Tables.{Server, World, Device, DeviceRole, owner, admin, member, is_active_in}
use sendself.Worker.Action.{guarded_keeps}
use sendself.Worker.Auth.{AuthContext, authenticate, require_owner, is_owner, is_admin}
use sendself.Worker.Auth.Access.{require_owner_iff}
use sendself.Worker.Keys.{has_duplicate}
use sendself.Worker.Devices.{check_role, parse_role, set_role, update_device_role, may_change}

-- No device is both an administrator and send-only.
abbrev pub AdminsRead : List Device → Type 0
AdminsRead = All (λ (d : Device). (is_admin d.role && d.send_only) ≡ false)

-- The id of every device is its own, as the table's primary key has it.
abbrev pub HaveOwnId : List Device → Type 0
HaveOwnId ds = has_duplicate (map (λ (d : Device). d.id) ds) ≡ false

-- Why a change of role was let through.
pub record MaySetRole (w : World) (s : Server) (header : Text) (auth : AuthContext) (id : Text)
    (role : DeviceRole) : Type 0 where
  pub authentic : authenticate w s header ≡ ok auth
  pub by_owner : auth.role ≡ owner
  pub other : str_eq id auth.device_id ≡ false
  pub assignable : role ≢ owner
  pub target : Device
  pub found : find (may_change auth.group_id id) s.devices ≡ some target
  pub reads : (is_admin role && target.send_only) ≡ false

assignable_role : (v : Value) (r : DeviceRole) → parse_role v ≡ ok r → r ≢ owner
unfolding parse_role
assignable_role (str t) owner h k = elim (Bool-cases (str_eq t (txt "admin"))) [
  | inl e ↦ cc (rw e at h)
  | inr e ↦ elim (Bool-cases (str_eq t (txt "member"))) [
    | inl f ↦ cc (rw (e, f) at h)
    | inr f ↦ cc (rw (e, f) at h)
  ]
]
assignable_role v admin h k = cc
assignable_role v member h k = cc
assignable_role undefined owner h k = cc
assignable_role null owner h k = cc
assignable_role fraction owner h k = cc
assignable_role compound owner h k = cc
assignable_role (boolean b) owner h k = cc
assignable_role (nat n) owner h k = cc
assignable_role (negative n) owner h k = cc

module _ (w : World) (header : Text) (param body : Value) (s : Server) where
  -- A change of role is let through only for the space's owner, for another active device of the
  -- space that is no owner, to a role other than owner, and to administrator only where that device
  -- reads.
  pub check_role-MaySetRole :
      (auth : AuthContext) (id : Text) (role : DeviceRole)
      → check_role w header param body s ≡ ok (auth, id, role)
      → MaySetRole w s header auth id role
  unfolding check_role
  check_role-MaySetRole auth id role h = when_bound (authenticate w s header) h λ a e₁ h₁.
      when_bound (require_owner a) h₁ λ u e₂ h₂. when_bound (require_id param) h₂ λ i _ h₃.
        when_passed (str_eq i a.device_id) bad_request h₃ λ e₃ h₄.
          when_bound (parse_role body) h₄ λ r e₄ h₅.
            when_bound (or_fail (find (may_change a.group_id i) s.devices) not_found) h₅ λ d e₅ h₆.
              when_passed (is_admin r && d.send_only) bad_request h₆ λ e₆ h₇.
                subst (λ (x : AuthContext × Text × DeviceRole). MaySetRole w s header x.0 x.1 x.2)
                  (ok_inj h₇)
                  (record {
                    authentic = e₁;
                    by_owner = (require_owner_iff a).0 e₂;
                    other = e₃;
                    assignable = assignable_role body r e₄;
                    target = d;
                    found = or_fail-eq-ok _ _ d e₅;
                    reads = e₆;
                  })

is_owner-assignable : (r : DeviceRole) → r ≢ owner → is_owner r ≡ false
is_owner-assignable owner h = absurd (h refl)
is_owner-assignable admin h = refl
is_owner-assignable member h = refl

module _ (group id : Text) (role : DeviceRole) where
  assign : List Device → List Device
  assign = update_where (may_change group id) λ (d : Device). record d { role = role }

  owners-assign :
      (ds : List Device)
      → is_owner role ≡ false
      → filter (λ (d : Device). is_owner d.role) (assign ds)
        ≡ filter (λ (d : Device). is_owner d.role) ds
  unfolding assign
  owners-assign [] h = refl
  owners-assign (d ∷ ds) h = elim (Bool-cases (may_change group id d)) [
    | inl e ↦
        let no_owner : is_owner d.role ≡ false = ground arith in
        rw (e, no_owner, h) (owners-assign ds h)
    | inr e ↦ elim (Bool-cases (is_owner d.role)) [
      | inl o ↦ rw (e, o) (ap (λ xs. d ∷ xs) (owners-assign ds h))
      | inr o ↦ rw (e, o) (owners-assign ds h)
    ]
  ]

  -- No other row has the id.
  assign-idle :
      (x : Text) (ds : List Device)
      → str_eq x id ≡ true
      → any (str_eq x) (map (λ (d : Device). d.id) ds) ≡ false
      → assign ds ≡ ds
  unfolding assign
  assign-idle x [] e h = refl
  assign-idle x (d ∷ ds) e h =
      let other : may_change group id d ≡ false =
        subst
          (λ (y : Text). (str_eq d.id y && is_active_in group d && not (is_owner d.role)) ≡ false)
          ((str_eq_iff x id).0 e) (ground (arith, str_eq_comm d.id x)) in
      rw other (ap (λ xs. d ∷ xs) (assign-idle x ds e (ground arith)))

  AdminsRead-assign :
      (ds : List Device) (target : Device)
      → HaveOwnId ds
      → find (may_change group id) ds ≡ some target
      → (is_admin role && target.send_only) ≡ false
      → AdminsRead ds
      → AdminsRead (assign ds)
  unfolding assign has_duplicate
  AdminsRead-assign [] target own e reads h = tt
  AdminsRead-assign (d ∷ ds) target own e reads h = elim (Bool-cases (may_change group id d)) [
    | inl k ↦
        let same : target ≡ d = cc (rw k at e) in
        let rest = assign-idle d.id ds (ground arith) (ground arith) in
        rw k (
          subst (λ (t : Device). (is_admin role && t.send_only) ≡ false) same reads,
          subst AdminsRead (sym rest) h.1,
        )
    | inr k ↦ rw k (h.0, AdminsRead-assign ds target (ground arith) (rw k at e) reads h.1)
  ]

module _ (w : World) (header : Text) (param body : Value) (s : Server) where
  -- A change of role, let through or not, leaves the owners' rows as they are: nobody becomes owner
  -- and no owner stops being one.
  pub update_device_role-owners :
      filter (λ (d : Device). is_owner d.role) (update_device_role w header param body s).1.devices
      ≡ filter (λ (d : Device). is_owner d.role) s.devices
  unfolding update_device_role set_role assign
  update_device_role-owners =
      guarded_keeps {A = AuthContext × Text × DeviceRole} {B = Unit {0}}
        (λ (t : Server).
          filter (λ (d : Device). is_owner d.role) t.devices
          ≡ filter (λ (d : Device). is_owner d.role) s.devices)
        (check_role w header param body s) (λ a. set_role a.0.group_id a.1 a.2) s refl
        λ a e. owners-assign a.0.group_id a.1 a.2 s.devices (
          is_owner-assignable a.2
            (check_role-MaySetRole w header param body s a.0 a.1 a.2 e).assignable)

  -- Where every device has an id of its own, a change of role never makes a send-only device an
  -- administrator.
  pub update_device_role-AdminsRead :
      HaveOwnId s.devices
      → AdminsRead s.devices
      → AdminsRead (update_device_role w header param body s).1.devices
  unfolding update_device_role set_role assign
  update_device_role-AdminsRead own h =
      guarded_keeps {A = AuthContext × Text × DeviceRole} {B = Unit {0}}
        (λ (t : Server). AdminsRead t.devices) (check_role w header param body s)
        (λ a. set_role a.0.group_id a.1 a.2) s h
        λ a e.
          let k = check_role-MaySetRole w header param body s a.0 a.1 a.2 e in
          AdminsRead-assign a.0.group_id a.1 a.2 s.devices k.target own k.found k.reads h
