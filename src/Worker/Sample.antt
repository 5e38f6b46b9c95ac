-- ===== src/Worker/Sample.antt =====
-- The server of the examples: one space with an owner, a member and an administrator, a message that
-- the member has not downloaded, and a message that everybody has.
use sendself.Base.{true, false, none, some, List, [], ◌∷◌, Text, txt, String}
use sendself.Worker.Tables.{
  Group, Device, Message, Delivery, SlotDevice, Server, World, DeviceRole, owner, admin, member,
}
use sendself.Worker.Auth.{AuthContext}

-- A world whose hash is the identity.
abbrev pub sample_world : World
sample_world = record { now = 1000; sha256_hex = λ t. t; within_limit = true; bucket_up = true }

abbrev pub sample_device : String → DeviceRole → Device
sample_device id role = record {
  id = txt id;
  group_id = txt "g";
  name_enc = txt "name";
  name_iv = txt "iv";
  public_key = txt "key";
  signing_public_key = none;
  attestation = none;
  auth_token_hash = txt id;
  role = role;
  revoked_at = none;
  key_epoch = 1;
  name_key_epoch = 1;
  send_only = false;
  created_at = 1;
}

abbrev pub sample_group : Group
sample_group = record {
  id = txt "g";
  created_at = 1;
  key_epoch = 1;
  rotation_pending = true;
  vault_seq = 0;
  vault_floor = 0;
  space_name = none;
}

abbrev pub sample_message : String → Message
sample_message id = record {
  id = txt id;
  group_id = txt "g";
  sender_device_id = txt "a";
  encrypted_payload = some (txt "text");
  iv = some (txt "iv");
  file_r2_key = none;
  file_iv = none;
  file_meta = none;
  file_meta_iv = none;
  key_epoch = 1;
  signature = none;
  deletes_message_id = none;
  created_at = 5;
}

abbrev pub sample_delivery : String → Delivery
sample_delivery id = record { message_id = txt id; device_id = txt "b"; downloaded_at = none }

abbrev pub sample_devices : List Device
sample_devices = sample_device "a" owner ∷ sample_device "b" member ∷ sample_device "c" admin ∷ []

-- One message, which waits for the member.
abbrev pub sample_server : Server
sample_server = record {
  groups = sample_group ∷ [];
  devices = sample_devices;
  messages = sample_message "m" ∷ [];
  deliveries = sample_delivery "m" ∷ [];
  keys = [];
  slots = [];
  uploads = [];
  files = [];
  pushes = [];
}

abbrev pub sample_slot_device : SlotDevice
sample_slot_device = record {
  id = txt "n";
  public_key = txt "key";
  signing_public_key = none;
  send_only = false;
  invite = none;
}

-- The context of the owner's requests.
abbrev pub sample_auth : AuthContext
sample_auth = record {
  group_id = txt "g";
  device_id = txt "a";
  role = owner;
  key_epoch = 1;
  group_key_epoch = 1;
  rotation_pending = true;
  has_signing_key = false;
  vault_seq = 0;
}

abbrev pub owner_header : Text
owner_header = txt "Bearer a"
