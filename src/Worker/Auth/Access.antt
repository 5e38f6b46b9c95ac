-- ===== src/Worker/Auth/Access.antt =====
-- What a context that `authenticate` of apps/worker/src/auth.ts returns rests on.
use sendself.Base.{
  ◌≡◌, ◌≢◌, ◌↔◌, not, ◌&&◌, none, some, arith, Text, str_eq, str_eq_iff, find, find-true, refl,
  is_some, Option-cases, inl, inr,
}
use sendself.Errors.{ok, ◌>>=◌, device_revoked, forbidden, refuse_if}
use sendself.Worker.Tables.{
  Server, World, Device, Group, DeviceRole, owner, admin, member, group_of,
}
use sendself.Worker.Auth.{
  AuthContext, bearer, authenticate, require_admin, require_owner, is_owner, is_admin,
}

-- The row behind an accepted request.
pub record IsDeviceOf (w : World) (s : Server) (header : Text) (auth : AuthContext) : Type 0 where
  pub token : Text
  pub device : Device
  pub group : Group
  pub presented : bearer header ≡ some token
  pub hashed : device.auth_token_hash ≡ w.sha256_hex token
  pub found :
      find (λ (d : Device). str_eq d.auth_token_hash (w.sha256_hex token)) s.devices ≡ some device
  pub grouped : group_of s device.group_id ≡ some group
  pub active : device.revoked_at ≡ none
  pub same_device : auth.device_id ≡ device.id
  pub same_group : auth.group_id ≡ device.group_id
  pub same_role : auth.role ≡ device.role
  pub same_epoch : auth.key_epoch ≡ device.key_epoch
  pub current_epoch : auth.group_key_epoch ≡ group.key_epoch
  pub pending : auth.rotation_pending ≡ group.rotation_pending

abbrev context : Device → Group → AuthContext
context d g = record {
  group_id = d.group_id;
  device_id = d.id;
  role = d.role;
  key_epoch = d.key_epoch;
  group_key_epoch = g.key_epoch;
  rotation_pending = g.rotation_pending;
  has_signing_key = is_some d.signing_public_key;
  vault_seq = g.vault_seq;
}

module _ {w : World} {s : Server} {header : Text} {auth : AuthContext} where
  admitted :
      (token : Text) (d : Device) (g : Group)
      → bearer header ≡ some token
      → find (λ (d : Device). str_eq d.auth_token_hash (w.sha256_hex token)) s.devices ≡ some d
      → group_of s d.group_id ≡ some g
      → (refuse_if (is_some d.revoked_at) device_revoked >>= λ _. ok (context d g)) ≡ ok auth
      → IsDeviceOf w s header auth
  admitted token d g e₁ e₂ e₃ e = record {
    token = token;
    device = d;
    group = g;
    presented = e₁;
    hashed = (str_eq_iff _ _).0 (find-true _ s.devices d e₂);
    found = e₂;
    grouped = e₃;
    active = ground arith;
    same_device = ground arith;
    same_group = ground arith;
    same_role = ground arith;
    same_epoch = ground arith;
    current_epoch = ground arith;
    pending = ground arith;
  }

-- An accepted request presents the token of a row that is not revoked and whose group exists, and
-- the context is that row's.
pub authenticate-IsDeviceOf :
    (w : World) (s : Server) (header : Text) (auth : AuthContext)
    → authenticate w s header ≡ ok auth
    → IsDeviceOf w s header auth
unfolding authenticate
authenticate-IsDeviceOf w s header auth e = elim (Option-cases (bearer header)) [
  | inl n ↦ cc (rw (n, authenticate) at e)
  | inr (token, e₁) ↦
      elim (Option-cases
        (find (λ (d : Device). str_eq d.auth_token_hash (w.sha256_hex token)) s.devices)) [
          | inl n ↦ cc (rw (e₁, n) at e)
          | inr (d, e₂) ↦ elim (Option-cases (group_of s d.group_id)) [
            | inl n ↦ cc (rw (e₁, e₂, n) at e)
            | inr (g, e₃) ↦ admitted token d g e₁ e₂ e₃ (rw (e₁, e₂, e₃) at e)
          ]
        ]
]

-- Who passes the two role checks.
pub require_admin_iff : (auth : AuthContext) → (require_admin auth ≡ ok tt) ↔ (auth.role ≢ member)
unfolding require_admin
require_admin_iff auth = go auth.role
  where
    go :
        (r : DeviceRole)
        → (refuse_if (not (is_owner r) && not (is_admin r)) forbidden ≡ ok tt) ↔ (r ≢ member)
    go owner = ((λ h. cc), λ h. refl)
    go admin = ((λ h. cc), λ h. refl)
    go member = ((λ h. cc), λ h. absurd (h refl))

pub require_owner_iff : (auth : AuthContext) → (require_owner auth ≡ ok tt) ↔ (auth.role ≡ owner)
unfolding require_owner
require_owner_iff auth = go auth.role
  where
    go : (r : DeviceRole) → (refuse_if (not (is_owner r)) forbidden ≡ ok tt) ↔ (r ≡ owner)
    go owner = ((λ h. refl), λ h. refl)
    go admin = ((λ h. cc), λ h. cc)
    go member = ((λ h. cc), λ h. cc)

-- Only the spaces and devices decide who a request comes from.
pub authenticate_congr :
    (w : World) (s t : Server) (header : Text)
    → t.groups ≡ s.groups
    → t.devices ≡ s.devices
    → authenticate w t header ≡ authenticate w s header
unfolding authenticate
authenticate_congr w s t header g d = rw (g, d) refl
