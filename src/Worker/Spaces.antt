-- ===== src/Worker/Spaces.antt =====
-- apps/worker/src/routes/groups.ts and challenge.ts: a new space and its first device. What Turnstile
-- answers is a parameter.
pub mod Founding
pub mod Examples
use sendself.Base.{
  ℕ, Bool, true, false, ◌&&◌, ◌||◌, not, Option, none, some, List, [], ◌∷◌, ◌++◌, Text, str_eq,
  length, ltb, ◌==◌, any, is_some, if◌then◌else◌,
}
use sendself.Errors.{
  Result, ok, err, bad_request, conflict, internal, challenge_failed, ◌>>=◌, ◌>>◌, refuse_if,
}
use sendself.Http.{Value, str, require_id, require_sha256_hex, require_string, optional_string}
use sendself.Worker.Tables.{Server, World, Group, Device, DeviceAttestation, owner, group_of}
use sendself.Worker.Action.{Action, guarded}
use sendself.Worker.Auth.{rate_limit}
use sendself.Worker.Attestation.{AttestationBody, Expected, optional_attestation}

-- What Siteverify answers: nothing that can be read, or whether it was a success and for this action.
pub data SiteAnswer : Type 0 where
  unavailable : SiteAnswer
  answered : Bool → Bool → SiteAnswer

-- The deployment's challenge: whether both keys are there, and what the token is answered with.
pub record Challenge : Type 0 where
  pub is_configured : Bool
  pub verify : Text → SiteAnswer

unfoldable pub verify_answer : SiteAnswer → Result (Unit {0})
verify_answer unavailable = err internal
verify_answer (answered success same_action) =
    refuse_if (not success || not same_action) challenge_failed

-- `MAX_TOKEN_LENGTH` is 2048.
unfoldable pub verify_token : Challenge → Value → Result (Unit {0})
unfolding verify_answer
verify_token c (str token) = do
  refuse_if (length token == 0 || ltb 2048 (length token)) challenge_failed
  verify_answer (c.verify token)
verify_token c _ = err challenge_failed

unfoldable pub verify_space_challenge : Challenge → Value → Result (Unit {0})
unfolding verify_token
verify_space_challenge c token = elim (c.is_configured) [
  | false ↦ ok tt
  | true ↦ verify_token c token
]

-- The fields of a `CreateGroupRequest`; its device is nothing where it is not an object.
pub record NewDeviceBody : Type 0 where
  pub id : Value
  pub public_key : Value
  pub signing_public_key : Value

pub record CreateGroupRequest : Type 0 where
  pub group_id : Value
  pub device_auth_token_hash : Value
  pub device : Option NewDeviceBody
  pub encrypted_name : Value
  pub name_iv : Value
  pub attestation : AttestationBody
  pub challenge_token : Value

-- The fields that were checked.
pub record NewSpace : Type 0 where
  pub group_id : Text
  pub token_hash : Text
  pub device_id : Text
  pub public_key : Text
  pub signing_public_key : Option Text
  pub name_enc : Text
  pub name_iv : Text
  pub attestation : Option DeviceAttestation

unfoldable pub parse_device : Option NewDeviceBody → Result NewDeviceBody
parse_device none = err bad_request
parse_device (some d) = ok d

unfoldable pub parse_new_space : CreateGroupRequest → Result NewSpace
unfolding parse_device
parse_new_space body = do
  group_id ← require_id body.group_id
  token_hash ← require_sha256_hex body.device_auth_token_hash
  device ← parse_device body.device
  device_id ← require_id device.id
  public_key ← require_string device.public_key 2048
  signing_public_key ← optional_string device.signing_public_key 2048
  name_enc ← require_string body.encrypted_name 1024
  name_iv ← require_string body.name_iv 128
  attestation ← optional_attestation body.attestation (record {
    group_id = group_id;
    device_id = device_id;
    public_key = public_key;
    signing_public_key = signing_public_key;
  })
  ok (record {
    group_id = group_id;
    token_hash = token_hash;
    device_id = device_id;
    public_key = public_key;
    signing_public_key = signing_public_key;
    name_enc = name_enc;
    name_iv = name_iv;
    attestation = attestation;
  })

abbrev pub founded_group : ℕ → NewSpace → Group
founded_group now n = record {
  id = n.group_id;
  created_at = now;
  key_epoch = 1;
  rotation_pending = false;
  vault_seq = 0;
  vault_floor = 0;
  space_name = none;
}

abbrev pub founding_device : ℕ → NewSpace → Device
founding_device now n = record {
  id = n.device_id;
  group_id = n.group_id;
  name_enc = n.name_enc;
  name_iv = n.name_iv;
  public_key = n.public_key;
  signing_public_key = n.signing_public_key;
  attestation = n.attestation;
  auth_token_hash = n.token_hash;
  role = owner;
  revoked_at = none;
  key_epoch = 1;
  name_key_epoch = 1;
  send_only = false;
  created_at = now;
}

-- A device that the primary key or the unique index of the table refuses the new one for.
abbrev pub clashes : NewSpace → Device → Bool
clashes n d = str_eq d.id n.device_id || str_eq d.auth_token_hash n.token_hash

-- The batch, which the constraints of the tables roll back whole.
unfoldable pub insert_space : ℕ → NewSpace → Action (Unit {0})
insert_space now n s = if any (clashes n) s.devices then (err internal, s) else (
  ok tt,
  record s {
    groups = s.groups ++ founded_group now n ∷ [];
    devices = s.devices ++ founding_device now n ∷ [];
  },
)

module _ (w : World) (c : Challenge) where
  unfoldable pub check_new_space : CreateGroupRequest → Server → Result NewSpace
  unfolding parse_new_space verify_space_challenge
  check_new_space body s = do
    rate_limit w
    n ← parse_new_space body
    verify_space_challenge c body.challenge_token
    refuse_if (is_some (group_of s n.group_id)) conflict
    ok n

  unfoldable pub create_group : CreateGroupRequest → Action (Unit {0})
  unfolding check_new_space insert_space
  create_group body s = guarded (check_new_space body s) (λ n. insert_space w.now n) s
