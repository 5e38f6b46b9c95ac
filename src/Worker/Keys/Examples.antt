-- ===== src/Worker/Keys/Examples.antt =====
-- The theorems on key rotation at concrete inputs.
use sendself.Base.{◌≡◌, refl, true, false, List, [], ◌∷◌, txt, str_eq, any, ◌&&◌, not}
use sendself.Errors.{err, conflict}
use sendself.Worker.Tables.{Server, Device, KeyRow, member, is_active_in}
use sendself.Worker.Keys.{
  Rotation, KeyWrap, rotate, exchange, insert_wraps, adopters, is_rotating_device, group_epoch_is,
  same_key_row,
}
use sendself.Worker.Keys.Reach.{IsRotated, rotate-IsRotated}
use sendself.Worker.Keys.Race.{rotate-stale, rotate-overtaken}
use sendself.Worker.Sample.{sample_server, sample_group, sample_devices, sample_device}

abbrev wrap_for_b : KeyWrap
wrap_for_b = record {
  device_id = txt "b";
  wrapped_key = txt "wrapped";
  ephemeral_public_key = txt "eph";
}

abbrev wrap_for_c : KeyWrap
wrap_for_c = record wrap_for_b { device_id = txt "c" }

-- The owner's rotation to the second epoch.
abbrev sample_rotation : Rotation
sample_rotation = record {
  group_id = txt "g";
  device_id = txt "a";
  previous = 1;
  wraps = wrap_for_b ∷ wrap_for_c ∷ [];
  now = 10;
}

rotate-IsRotated_example : IsRotated sample_rotation (rotate sample_rotation sample_server).1
unfolding rotate insert_wraps exchange str_eq
rotate-IsRotated_example =
    rotate-IsRotated sample_rotation sample_server (rotate sample_rotation sample_server).1 refl

-- Another device's rotation has been there.
abbrev rotated_server : Server
rotated_server = record sample_server {
  groups = record sample_group { key_epoch = 2; rotation_pending = false } ∷ [];
}

rotate-stale_example :
    rotate sample_rotation rotated_server
    ≡ (err conflict, record rotated_server { devices = adopters sample_rotation sample_devices })
unfolding str_eq
rotate-stale_example = rotate-stale sample_rotation rotated_server refl

-- A device has joined since the recipients were read.
abbrev joined_server : Server
joined_server = record sample_server { devices = sample_device "n" member ∷ sample_devices }

abbrev key_for : KeyWrap → KeyRow
key_for k = record {
  group_id = txt "g";
  epoch = 2;
  device_id = k.device_id;
  wrapped_key = k.wrapped_key;
  ephemeral_public_key = k.ephemeral_public_key;
  created_at = 10;
}

abbrev sample_keys : List KeyRow
sample_keys = key_for wrap_for_b ∷ key_for wrap_for_c ∷ []

rotate-overtaken_example :
    (rotate sample_rotation joined_server ≡ (
      err conflict,
      record joined_server {
        keys = sample_keys;
        devices = adopters sample_rotation joined_server.devices;
      },
    ))
    × (group_epoch_is (txt "g") 1 (rotate sample_rotation joined_server).1.groups ≡ true)
    × (any
          (λ (k : KeyWrap).
            any
              (λ (d : Device). str_eq d.id k.device_id && is_active_in (txt "g") d)
              joined_server.devices
            && not (
                any
                  (same_key_row (txt "g") 2 k.device_id)
                  (rotate sample_rotation joined_server).1.keys))
          (wrap_for_b ∷ wrap_for_c ∷ [])
        ≡ false)
    × (any (is_rotating_device sample_rotation 2) (rotate sample_rotation joined_server).1.devices
        ≡ true)
unfolding insert_wraps str_eq
rotate-overtaken_example =
    rotate-overtaken sample_rotation joined_server sample_keys refl refl refl refl
