-- ===== src/Worker/Tables.antt =====
-- The D1 tables of apps/worker/migrations and the R2 buckets. A column that SQL allows to be NULL
-- is an `Option`, a 0/1 column a `Bool`. D1 and R2 are not implemented here: a statement is the
-- function on the tables that it stands for, and a `batch` is one transaction, so one function.
use sendself.Base.{ℕ, Bool, ◌&&◌, Option, none, some, List, Text, str_eq, find, is_none}

-- `DEVICE_ROLES`
pub data DeviceRole : Type 0 where
  owner admin member : DeviceRole

-- The four name columns of `groups`, which one statement sets together.
pub record SpaceName : Type 0 where
  pub encrypted_name : Option Text
  pub name_iv : Option Text
  pub name_key_epoch : ℕ
  pub updated_at : ℕ

pub record Group : Type 0 where
  pub id : Text
  pub created_at : ℕ
  pub key_epoch : ℕ
  pub rotation_pending : Bool
  pub vault_seq : ℕ
  pub vault_floor : ℕ
  pub space_name : Option SpaceName

-- `DeviceAttestation` of packages/shared/src/index.ts.
pub record DeviceAttestation : Type 0 where
  pub group_id : Text
  pub device_id : Text
  pub public_key : Text
  pub signing_public_key : Text
  pub signer_device_id : Text
  pub issued_at : ℕ
  pub signature : Text

-- `attestation` is stored as JSON: the record stands for the text.
pub record Device : Type 0 where
  pub id : Text
  pub group_id : Text
  pub name_enc : Text
  pub name_iv : Text
  pub public_key : Text
  pub signing_public_key : Option Text
  pub attestation : Option DeviceAttestation
  pub auth_token_hash : Text
  pub role : DeviceRole
  pub revoked_at : Option ℕ
  pub key_epoch : ℕ
  pub name_key_epoch : ℕ
  pub send_only : Bool
  pub created_at : ℕ

pub record Message : Type 0 where
  pub id : Text
  pub group_id : Text
  pub sender_device_id : Text
  pub encrypted_payload : Option Text
  pub iv : Option Text
  pub file_r2_key : Option Text
  pub file_iv : Option Text
  pub file_meta : Option Text
  pub file_meta_iv : Option Text
  pub key_epoch : ℕ
  pub signature : Option Text
  pub deletes_message_id : Option Text
  pub created_at : ℕ

-- `delivery_status`
pub record Delivery : Type 0 where
  pub message_id : Text
  pub device_id : Text
  pub downloaded_at : Option ℕ

-- `key_distribution`
pub record KeyRow : Type 0 where
  pub group_id : Text
  pub epoch : ℕ
  pub device_id : Text
  pub wrapped_key : Text
  pub ephemeral_public_key : Text
  pub created_at : ℕ

-- The JSON of `pairing.new_device`, whose serialisation is injective: the record stands for it.
pub record SlotDevice : Type 0 where
  pub id : Text
  pub public_key : Text
  pub signing_public_key : Option Text
  pub send_only : Bool
  pub invite : Option Text

-- `pairing`
pub record Slot : Type 0 where
  pub pairing_id : Text
  pub group_id : Option Text
  pub wrapped_package : Option Text
  pub ephemeral_public_key : Option Text
  pub new_device : Option SlotDevice
  pub created_at : ℕ

-- `uploads` and `vault_blobs`, the accounting of one bucket each.
pub record BlobRow : Type 0 where
  pub group_id : Text
  pub r2_key : Text
  pub size : ℕ
  pub created_at : ℕ

-- An object of a bucket, under its storage key.
pub record Object : Type 0 where
  pub storage_key : Text
  pub size : ℕ

-- `push_subscriptions`
pub record PushRow : Type 0 where
  pub device_id : Text
  pub group_id : Text
  pub endpoint : Text

pub record Server : Type 0 where
  pub groups : List Group
  pub devices : List Device
  pub messages : List Message
  pub deliveries : List Delivery
  pub keys : List KeyRow
  pub slots : List Slot
  pub uploads : List BlobRow
  pub files : List Object
  pub pushes : List PushRow

-- What a request takes from outside: the clock, the hash of a token, the answer of the rate limit,
-- and whether the bucket carries out a delete.
pub record World : Type 0 where
  pub now : ℕ
  pub sha256_hex : Text → Text
  pub within_limit : Bool
  pub bucket_up : Bool

-- `WHERE revoked_at IS NULL` and the group.
abbrev pub is_active_in : Text → Device → Bool
is_active_in group d = str_eq d.group_id group && is_none d.revoked_at

abbrev pub group_of : Server → Text → Option Group
group_of s group = find (λ (g : Group). str_eq g.id group) s.groups

-- `(SELECT key_epoch FROM groups WHERE id = ?)`
abbrev pub epoch_of : Server → Text → Option ℕ
epoch_of s group = elim (group_of s group) [ none ↦ none | some g ↦ some g.key_epoch ]
