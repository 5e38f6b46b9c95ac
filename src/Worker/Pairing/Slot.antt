-- ===== src/Worker/Pairing/Slot.antt =====
-- The pairing slot of apps/worker/src/routes/pairing.ts: reserving it, polling it, deleting it.
pub mod Reservation
use sendself.Base.{
  ℕ, Bool, true, false, ◌&&◌, ◌||◌, not, Option, none, some, List, [], ◌∷◌, ◌++◌, Text, str_eq,
  opt_eq, find, filter, any, is_none, is_some, ◌==◌, if◌then◌else◌, update_where,
}
use sendself.Errors.{
  Result, ok, err, bad_request, conflict, internal, key_rotated, not_found, ◌>>=◌, ◌>>◌, refuse_if,
  or_fail,
}
use sendself.Http.{
  Value, undefined, boolean, require_id, require_int, require_sha256_hex, require_string,
  optional_string,
}
use sendself.Worker.Tables.{
  Server, World, Device, DeviceAttestation, Slot, SlotDevice, member, is_active_in,
}
use sendself.Worker.Action.{Action, guarded, modify}
use sendself.Worker.Auth.{AuthContext, authenticate, require_admin, rate_limit}
use sendself.Worker.Attestation.{AttestationBody, Expected, optional_attestation}
use sendself.Worker.Keys.{group_epoch_is}
use sendself.Worker.Messages.Request.{max_safe_integer}

-- `body.device` and its fields; nothing where it is missing or no object.
pub record DeviceBody : Type 0 where
  pub id : Value
  pub public_key : Value
  pub signing_public_key : Value

pub record PairingRequestBody : Type 0 where
  pub device : Option DeviceBody
  pub send_only : Value
  pub invite : Value

parse_send_only : Value → Result Bool
parse_send_only undefined = ok false
parse_send_only (boolean b) = ok b
parse_send_only _ = err bad_request

-- The checks run in the order of the code: the descriptor's id and key come after the rest.
pub parse_request : PairingRequestBody → Result SlotDevice
unfolding parse_send_only
parse_request body = do
  device ← or_fail body.device bad_request
  signing_public_key ← optional_string device.signing_public_key 2048
  send_only ← parse_send_only body.send_only
  invite ← optional_string body.invite 4096
  id ← require_id device.id
  public_key ← require_string device.public_key 2048
  ok (record {
    id = id;
    public_key = public_key;
    signing_public_key = signing_public_key;
    send_only = send_only;
    invite = invite;
  })

abbrev pub same_bool : Bool → Bool → Bool
same_bool true b = b
same_bool false b = not b

-- The serialised descriptors are the same text.
abbrev pub same_device : SlotDevice → SlotDevice → Bool
same_device a b =
    str_eq a.id b.id
    && str_eq a.public_key b.public_key
    && opt_eq a.signing_public_key b.signing_public_key
    && same_bool a.send_only b.send_only
    && opt_eq a.invite b.invite

abbrev pub slot_of : Server → Text → Option Slot
slot_of s id = find (λ (p : Slot). str_eq p.pairing_id id) s.slots

abbrev pub device_of : Option Slot → Option SlotDevice
device_of none = none
device_of (some p) = p.new_device

abbrev pub holds_device : SlotDevice → Option SlotDevice → Bool
holds_device d none = false
holds_device d (some e) = same_device e d

abbrev pub new_slot : Text → SlotDevice → ℕ → Slot
new_slot id d now = record {
  pairing_id = id;
  group_id = none;
  wrapped_package = none;
  ephemeral_public_key = none;
  new_device = some d;
  created_at = now;
}

-- `INSERT … ON CONFLICT(pairing_id) DO NOTHING`, and the comparison where it inserted nothing.
unfoldable pub reserve_slot : Text → SlotDevice → ℕ → Action (Unit {0})
reserve_slot id d now s =
    if is_some (slot_of s id)
    then (if holds_device d (device_of (slot_of s id)) then (ok tt, s) else (err conflict, s))
    else (ok tt, record s { slots = s.slots ++ new_slot id d now ∷ [] })

module _ (w : World) where
  check_request : Value → PairingRequestBody → Result (Text × SlotDevice)
  check_request param body = do
    rate_limit w
    id ← require_id param
    d ← parse_request body
    ok (id, d)

  pub request_pairing : Value → PairingRequestBody → Action (Unit {0})
  unfolding check_request reserve_slot
  request_pairing param body s =
      guarded (check_request param body) (λ (id, d). reserve_slot id d w.now) s

  -- The answer of `pairingJoiner`: an invited device that still waits.
  invited : Option Slot → Option SlotDevice
  invited none = none
  invited (some p) = elim p.new_device [
    | none ↦ none
    | some d ↦ if is_none d.invite || is_some p.wrapped_package then none else some d
  ]

  pub pairing_joiner : Text → Value → Server → Result (Option SlotDevice)
  unfolding invited
  pairing_joiner header param s = do
    auth ← authenticate w s header
    require_admin auth
    id ← require_id param
    ok (invited (slot_of s id))

  package_of : Option Slot → Option (Text × Text)
  package_of none = none
  package_of (some p) = elim p.wrapped_package [
    | none ↦ none
    | some wrapped ↦ elim p.ephemeral_public_key [ none ↦ none | some eph ↦ some (wrapped, eph) ]
  ]

  pub poll_pairing : Value → Server → Result (Option (Text × Text))
  unfolding package_of
  poll_pairing param s = do rate_limit w; id ← require_id param; ok (package_of (slot_of s id))

  pub delete_pairing : Value → Action (Unit {0})
  delete_pairing param s =
      guarded (require_id param)
        (λ id.
          modify
            (λ t. record t { slots = filter (λ (p : Slot). not (str_eq p.pairing_id id)) t.slots }))
        s
