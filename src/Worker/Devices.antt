-- ===== src/Worker/Devices.antt =====
-- apps/worker/src/routes/devices.ts: revoking a device, publishing a signing key, changing a role.
pub mod Revocation
pub mod Roles
pub mod Examples
use sendself.Base.{
  ℕ, Bool, true, false, ◌&&◌, ◌||◌, not, Option, none, some, List, [], ◌∷◌, Text, str_eq, opt_eq,
  find, filter, any, is_none, txt, if◌then◌else◌, update_where,
}
use sendself.Errors.{
  Result, ok, err, bad_request, conflict, forbidden, not_found, ◌>>=◌, ◌>>◌, refuse_if, or_fail,
}
use sendself.Http.{Value, str, require_id, require_string}
use sendself.Worker.Tables.{
  Server, World, Device, Group, Delivery, KeyRow, PushRow, DeviceRole, owner, admin, member,
  is_active_in,
}
use sendself.Worker.Action.{Action, guarded}
use sendself.Worker.Auth.{
  AuthContext, authenticate, require_admin, require_owner, is_owner, is_admin,
}
use sendself.Worker.Db.{purge_delivered_messages}

-- `WHERE id = ? AND group_id = ? AND revoked_at IS NULL`
abbrev pub is_target : Text → Text → Device → Bool
is_target group id d = str_eq d.id id && is_active_in group d

abbrev pub may_publish : AuthContext → Text → Device → Bool
may_publish auth key d =
    is_target auth.group_id auth.device_id d
    && (is_none d.signing_public_key || opt_eq d.signing_public_key (some key))

pub set_signing_key : AuthContext → Text → Action (Unit {0})
set_signing_key auth key s = (
  if any (may_publish auth key) s.devices then ok tt else err conflict,
  record s {
    devices =
        update_where (may_publish auth key)
          (λ (d : Device). record d { signing_public_key = some key }) s.devices;
  },
)

-- `body.role !== "admin" && body.role !== "member"`
pub parse_role : Value → Result DeviceRole
parse_role (str s) =
    if str_eq s (txt "admin")
    then ok admin
    else (if str_eq s (txt "member") then ok member else err bad_request)
parse_role _ = err bad_request

abbrev pub may_change : Text → Text → Device → Bool
may_change group id d = is_target group id d && not (is_owner d.role)

-- The UPDATE, over the tables as they are when it runs.
pub set_role : Text → Text → DeviceRole → Action (Unit {0})
set_role group id role s = (
  if any (may_change group id) s.devices then ok tt else err not_found,
  record s {
    devices =
        update_where (may_change group id) (λ (d : Device). record d { role = role }) s.devices;
  },
)

module _ (w : World) where
  pub check_revocation : Text → Value → Server → Result (AuthContext × Text)
  check_revocation header param s = do
    auth ← authenticate w s header
    require_admin auth
    id ← require_id param
    refuse_if (str_eq id auth.device_id) bad_request
    target ← or_fail (find (is_target auth.group_id id) s.devices) not_found
    refuse_if (is_owner target.role) forbidden
    refuse_if (is_admin target.role && not (is_owner auth.role)) forbidden
    ok (auth, id)

  -- The batch of `revokeDevice`.
  pub revoke_rows : Text → Text → Server → Server
  revoke_rows group id s = record s {
    devices =
        update_where (λ (d : Device). str_eq d.id id && str_eq d.group_id group)
          (λ (d : Device). record d { revoked_at = some w.now }) s.devices;
    deliveries =
        filter (λ (d : Delivery). not (str_eq d.device_id id && is_none d.downloaded_at))
          s.deliveries;
    keys = filter (λ (k : KeyRow). not (str_eq k.device_id id && str_eq k.group_id group)) s.keys;
    pushes =
        filter (λ (p : PushRow). not (str_eq p.device_id id && str_eq p.group_id group)) s.pushes;
    groups =
        update_where (λ (g : Group). str_eq g.id group)
          (λ (g : Group). record g { rotation_pending = true }) s.groups;
  }

  pub revoke_device : Text → Value → Action (Unit {0})
  unfolding check_revocation revoke_rows
  revoke_device header param s =
      guarded (check_revocation header param s)
        (λ (auth, id) t. purge_delivered_messages w auth.group_id (revoke_rows auth.group_id id t))
        s

  check_publication : Text → Value → Server → Result (AuthContext × Text)
  check_publication header body s = do
    auth ← authenticate w s header
    key ← require_string body 2048
    ok (auth, key)

  pub publish_signing_key : Text → Value → Action (Unit {0})
  unfolding check_publication set_signing_key
  publish_signing_key header body s =
      guarded (check_publication header body s) (λ (auth, key). set_signing_key auth key) s

  pub check_role : Text → Value → Value → Server → Result (AuthContext × Text × DeviceRole)
  unfolding parse_role
  check_role header param body s = do
    auth ← authenticate w s header
    require_owner auth
    id ← require_id param
    refuse_if (str_eq id auth.device_id) bad_request
    role ← parse_role body
    target ← or_fail (find (may_change auth.group_id id) s.devices) not_found
    refuse_if (is_admin role && target.send_only) bad_request
    ok (auth, id, role)

  pub update_device_role : Text → Value → Value → Action (Unit {0})
  unfolding check_role set_role
  update_device_role header param body s =
      guarded (check_role header param body s) (λ (auth, id, role). set_role auth.group_id id role)
        s
