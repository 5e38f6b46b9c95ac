-- ===== src/Worker/Pairing/Join.antt =====
-- `completePairing` of apps/worker/src/routes/pairing.ts: its checks, and the batch that registers
-- the device and fills the slot.
pub mod Completion
use sendself.Base.{
  ℕ, Bool, true, false, ◌&&◌, ◌||◌, not, Option, none, some, List, [], ◌∷◌, ◌++◌, Text, str_eq,
  opt_eq, find, filter, any, is_none, is_some, ◌==◌, if◌then◌else◌, update_where,
}
use sendself.Errors.{
  Result, ok, err, bad_request, conflict, internal, key_rotated, not_found, ◌>>=◌, ◌>>◌, refuse_if,
  or_fail,
}
use sendself.Http.{
  Value, undefined, boolean, require_id, require_int, require_sha256_hex, require_string,
  optional_string,
}
use sendself.Worker.Tables.{
  Server, World, Device, DeviceAttestation, Slot, SlotDevice, member, is_active_in,
}
use sendself.Worker.Action.{Action, guarded}
use sendself.Worker.Auth.{AuthContext, authenticate, require_admin, rate_limit}
use sendself.Worker.Attestation.{AttestationBody, Expected, optional_attestation}
use sendself.Worker.Keys.{group_epoch_is}
use sendself.Worker.Messages.Request.{max_safe_integer}
use sendself.Worker.Pairing.Slot.{slot_of}

pub record PairingCompleteBody : Type 0 where
  pub wrapped_package : Value
  pub ephemeral_public_key : Value
  pub scanned_public_key : Value
  pub scanned_signing_public_key : Value
  pub encrypted_name : Value
  pub name_iv : Value
  pub device_auth_token_hash : Value
  pub key_epoch : Value
  pub attestation : AttestationBody

-- What the batch of `completePairing` is built from.
pub record Join : Type 0 where
  pub pairing_id : Text
  pub group_id : Text
  pub device : SlotDevice
  pub name_enc : Text
  pub name_iv : Text
  pub attestation : Option DeviceAttestation
  pub token_hash : Text
  pub key_epoch : ℕ
  pub wrapped_package : Text
  pub ephemeral_public_key : Text
  pub now : ℕ

abbrev pub signer_is : Text → Option DeviceAttestation → Bool
signer_is device none = true
signer_is device (some a) = str_eq a.signer_device_id device

-- The row that the INSERT would add.
abbrev pub joined : Join → Device
joined j = record {
  id = j.device.id;
  group_id = j.group_id;
  name_enc = j.name_enc;
  name_iv = j.name_iv;
  public_key = j.device.public_key;
  signing_public_key = j.device.signing_public_key;
  attestation = j.attestation;
  auth_token_hash = j.token_hash;
  role = member;
  revoked_at = none;
  key_epoch = j.key_epoch;
  name_key_epoch = j.key_epoch;
  send_only = j.device.send_only;
  created_at = j.now;
}

abbrev pub has_device : Server → Text → Bool
has_device s id = any (λ (d : Device). str_eq d.id id) s.devices

-- `EXISTS (SELECT 1 FROM pairing WHERE pairing_id = ? AND wrapped_package IS NULL)`
abbrev pub is_open_slot : Text → Slot → Bool
is_open_slot id p = str_eq p.pairing_id id && is_none p.wrapped_package

-- Another device has the token's hash, which the unique index refuses.
abbrev pub hash_taken : Join → Device → Bool
hash_taken j d = str_eq d.auth_token_hash j.token_hash && not (str_eq d.id j.device.id)

abbrev pub may_update : Join → Device → Bool
may_update j d = str_eq d.id j.device.id && str_eq d.group_id j.group_id

-- `ON CONFLICT(id) DO UPDATE … WHERE devices.group_id = excluded.group_id`; the row keeps the time
-- that it was created.
abbrev pub upsert_device : Join → List Device → List Device
upsert_device j devices =
    if any (λ (d : Device). str_eq d.id j.device.id) devices
    then update_where (may_update j)
        (λ (d : Device). record (joined j) { created_at = d.created_at }) devices
    else devices ++ joined j ∷ []

abbrev pub device_changed : Join → List Device → Bool
device_changed j devices =
    if any (λ (d : Device). str_eq d.id j.device.id) devices
    then any (may_update j) devices
    else true

-- The second statement of the batch, on the devices that the first one left.
abbrev pub may_fill : Join → Server → List Device → Slot → Bool
may_fill j s devices p =
    is_open_slot j.pairing_id p
    && group_epoch_is j.group_id j.key_epoch s.groups
    && any (λ (d : Device). str_eq d.id j.device.id && is_active_in j.group_id d) devices

abbrev pub filled : Join → Slot → Slot
filled j p = record p {
  group_id = some j.group_id;
  wrapped_package = some j.wrapped_package;
  ephemeral_public_key = some j.ephemeral_public_key;
}

-- The condition of the INSERT: the space is at the epoch and the slot is open.
abbrev pub may_insert : Join → Server → Bool
may_insert j s =
    group_epoch_is j.group_id j.key_epoch s.groups && any (is_open_slot j.pairing_id) s.slots

-- The second statement, after a first one that left `devices` and has changed a row or not. Both
-- must change one for the answer to be a success, and what either wrote stays.
pub fill : Join → List Device → Bool → Action (Unit {0})
fill j devices changed s = (
  if changed && any (may_fill j s devices) s.slots then ok tt else err conflict,
  record s { devices = devices; slots = update_where (may_fill j s devices) (filled j) s.slots },
)

-- The batch, over the tables as they are when it runs.
pub join : Join → Action (Unit {0})
unfolding fill
join j s =
    if may_insert j s
    then (if any (hash_taken j) s.devices
        then (err internal, s)
        else fill j (upsert_device j s.devices) (device_changed j s.devices) s)
    else fill j s.devices false s

module _ (w : World) where
  pub check_completion : Text → Value → PairingCompleteBody → Server → Result Join
  check_completion header param body s = do
    auth ← authenticate w s header
    require_admin auth
    pairing_id ← require_id param
    wrapped_package ← require_string body.wrapped_package 65536
    ephemeral_public_key ← require_string body.ephemeral_public_key 2048
    scanned_public_key ← require_string body.scanned_public_key 2048
    scanned_signing_public_key ← optional_string body.scanned_signing_public_key 2048
    name_enc ← require_string body.encrypted_name 1024
    name_iv ← require_string body.name_iv 128
    token_hash ← require_sha256_hex body.device_auth_token_hash
    key_epoch ← require_int body.key_epoch 1 max_safe_integer
    refuse_if (not (key_epoch == auth.group_key_epoch)) key_rotated
    slot ← or_fail (slot_of s pairing_id) not_found
    device ← or_fail slot.new_device not_found
    refuse_if (is_some slot.wrapped_package) conflict
    refuse_if (not (str_eq device.public_key scanned_public_key)) conflict
    refuse_if (not (opt_eq device.signing_public_key scanned_signing_public_key)) conflict
    attestation ← optional_attestation body.attestation (record {
      group_id = auth.group_id;
      device_id = device.id;
      public_key = device.public_key;
      signing_public_key = device.signing_public_key;
    })
    refuse_if (not (signer_is auth.device_id attestation)) bad_request
    refuse_if
        (any (λ (d : Device). str_eq d.id device.id && not (str_eq d.group_id auth.group_id))
          s.devices)
        conflict
    ok (record {
      pairing_id = pairing_id;
      group_id = auth.group_id;
      device = device;
      name_enc = name_enc;
      name_iv = name_iv;
      attestation = attestation;
      token_hash = token_hash;
      key_epoch = key_epoch;
      wrapped_package = wrapped_package;
      ephemeral_public_key = ephemeral_public_key;
      now = w.now;
    })

  -- The handler where nothing else runs between its reads and its batch.
  pub complete_pairing : Text → Value → PairingCompleteBody → Action (Unit {0})
  unfolding check_completion join
  complete_pairing header param body s = guarded (check_completion header param body s) join s
