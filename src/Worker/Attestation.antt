-- ===== src/Worker/Attestation.antt =====
-- apps/worker/src/attestation.ts: the checks of an introducer's attestation.
use sendself.Base.{Bool, false, ◌||◌, not, Option, none, some, Text, str_eq}
use sendself.Errors.{Result, ok, err, bad_request, ◌>>=◌, ◌>>◌, refuse_if}
use sendself.Http.{Value, require_id, require_int, require_string}
use sendself.Worker.Tables.{DeviceAttestation}
use sendself.Worker.Messages.Request.{max_safe_integer}

pub record AttestationFields : Type 0 where
  pub group_id : Value
  pub device_id : Value
  pub public_key : Value
  pub signing_public_key : Value
  pub signer_device_id : Value
  pub issued_at : Value
  pub signature : Value

-- `undefined` and `null` are `absent`.
pub data AttestationBody : Type 0 where
  absent not_object : AttestationBody
  fields : AttestationFields → AttestationBody

-- The device that the attestation is stored for.
pub record Expected : Type 0 where
  pub group_id : Text
  pub device_id : Text
  pub public_key : Text
  pub signing_public_key : Option Text

abbrev signing_key_differs : Option Text → Text → Bool
signing_key_differs none key = false
signing_key_differs (some expected) key = not (str_eq key expected)

abbrev pub differs : Expected → DeviceAttestation → Bool
differs e a =
    not (str_eq a.group_id e.group_id)
    || not (str_eq a.device_id e.device_id)
    || not (str_eq a.public_key e.public_key)
    || signing_key_differs e.signing_public_key a.signing_public_key

-- `MAX_PUBLIC_KEY` is 2048 and `MAX_SIGNATURE` is 512.
unfoldable pub optional_attestation : AttestationBody → Expected → Result (Option DeviceAttestation)
optional_attestation absent expected = ok none
optional_attestation not_object expected = err bad_request
optional_attestation (fields raw) expected = do
  group_id ← require_id raw.group_id
  device_id ← require_id raw.device_id
  public_key ← require_string raw.public_key 2048
  signing_public_key ← require_string raw.signing_public_key 2048
  signer_device_id ← require_id raw.signer_device_id
  issued_at ← require_int raw.issued_at 0 max_safe_integer
  signature ← require_string raw.signature 512
  let a : DeviceAttestation = record {
    group_id = group_id;
    device_id = device_id;
    public_key = public_key;
    signing_public_key = signing_public_key;
    signer_device_id = signer_device_id;
    issued_at = issued_at;
    signature = signature;
  }
  refuse_if (differs expected a) bad_request
  ok (some a)
