-- ===== src/Worker/Devices/Examples.antt =====
-- The theorems on revocations and roles at concrete inputs.
use sendself.Base.{◌≡◌, ◌≢◌, refl, txt, str_eq, filter}
use sendself.Errors.{ok}
use sendself.Http.{Value, str, require_string, require_id, is_id_char}
use sendself.Worker.Tables.{Device, admin}
use sendself.Worker.Auth.{
  authenticate, require_admin, require_owner, is_owner, bearer, is_space, is_line_end, trim_start,
  trim_end, strip_prefix, last_matches,
}
use sendself.Worker.Auth.Access.{authenticate_congr}
use sendself.Worker.Db.{purge_delivered_messages}
use sendself.Worker.Db.Shrink.{purge_delivered_messages-IsShrunk}
use sendself.Worker.Keys.{has_duplicate}
use sendself.Worker.Devices.{
  check_revocation, revoke_rows, revoke_device, check_role, parse_role, update_device_role,
}
use sendself.Worker.Devices.Revocation.{
  MayRevoke, IsRevoked, check_revocation-MayRevoke, revoke_device-IsRevoked, revoke_device-shut_out,
}
use sendself.Worker.Devices.Roles.{
  AdminsRead, MaySetRole, check_role-MaySetRole, update_device_role-owners,
  update_device_role-AdminsRead,
}
use sendself.Worker.Sample.{sample_world, sample_server, sample_auth, owner_header}

abbrev revoked_id : Value
revoked_id = str (txt "b")

revocation_passes :
    check_revocation sample_world owner_header revoked_id sample_server ≡ ok (sample_auth, txt "b")
unfolding check_revocation authenticate require_admin require_id require_string is_id_char bearer
    is_space is_line_end trim_start trim_end strip_prefix last_matches str_eq
revocation_passes = refl

check_revocation-MayRevoke_example :
    MayRevoke sample_world sample_server owner_header sample_auth (txt "b")
check_revocation-MayRevoke_example =
    check_revocation-MayRevoke sample_world owner_header revoked_id sample_server sample_auth
      (txt "b") revocation_passes

revoke_device-IsRevoked_example :
    IsRevoked
      (txt "g")
      (txt "b")
      (revoke_device sample_world owner_header revoked_id sample_server).1
revoke_device-IsRevoked_example =
    revoke_device-IsRevoked sample_world owner_header revoked_id sample_server sample_auth (txt "b")
      revocation_passes

-- The owner is still let in.
owner_later :
    authenticate sample_world
      (revoke_device sample_world owner_header revoked_id sample_server).1
      owner_header
    ≡ ok sample_auth
unfolding revoke_device revoke_rows authenticate bearer is_space is_line_end trim_start trim_end
    strip_prefix last_matches str_eq
owner_later =
    let t = revoke_rows sample_world (txt "g") (txt "b") sample_server in
    let k = purge_delivered_messages-IsShrunk sample_world (txt "g") t in
    rw (revocation_passes, revoke_device)
      (authenticate_congr sample_world t (purge_delivered_messages sample_world (txt "g") t).1
        owner_header k.same_groups k.same_devices)

revoke_device-shut_out_example : txt "a" ≢ txt "b"
revoke_device-shut_out_example =
    revoke_device-shut_out sample_world owner_header revoked_id sample_server sample_auth (txt "b")
      sample_world owner_header sample_auth revocation_passes owner_later refl

role_passes :
    check_role sample_world owner_header revoked_id (str (txt "admin")) sample_server
    ≡ ok (sample_auth, txt "b", admin)
unfolding check_role parse_role authenticate require_owner require_id require_string is_id_char
    bearer is_space is_line_end trim_start trim_end strip_prefix last_matches str_eq
role_passes = refl

check_role-MaySetRole_example :
    MaySetRole sample_world sample_server owner_header sample_auth (txt "b") admin
check_role-MaySetRole_example =
    check_role-MaySetRole sample_world owner_header revoked_id (str (txt "admin")) sample_server
      sample_auth (txt "b") admin role_passes

update_device_role-owners_example :
    filter
      (λ (d : Device). is_owner d.role)
      (update_device_role sample_world owner_header revoked_id
        (str (txt "admin"))
        sample_server).1.devices
    ≡ filter (λ (d : Device). is_owner d.role) sample_server.devices
update_device_role-owners_example =
    update_device_role-owners sample_world owner_header revoked_id (str (txt "admin")) sample_server

update_device_role-AdminsRead_example :
    AdminsRead
      (update_device_role sample_world owner_header revoked_id
        (str (txt "admin"))
        sample_server).1.devices
unfolding has_duplicate str_eq
update_device_role-AdminsRead_example =
    update_device_role-AdminsRead sample_world owner_header revoked_id (str (txt "admin"))
      sample_server refl (refl, (refl, (refl, tt)))
