-- ===== src/Worker/Messages.antt =====
-- apps/worker/src/routes/messages.ts: sending, polling and acknowledging.
pub mod Request
pub mod Checks
pub mod Delivered
pub mod Sent
pub mod Waiting
pub mod Received
use sendself.Base.{
  ℕ, Bool, true, false, ◌&&◌, ◌||◌, not, Option, none, some, List, [], ◌∷◌, ◌++◌, map, Text, str_eq,
  find, filter, any, is_some, is_none, ltb, if◌then◌else◌, take, order_by, update_where,
}
use sendself.Errors.{Result, ok, err, bad_request, conflict, not_found, internal, refuse_if}
use sendself.Http.{Value, require_id}
use sendself.Worker.Tables.{
  Server, World, Device, Message, Delivery, BlobRow, Object, SpaceName, KeyRow, Group, group_of,
}
use sendself.Worker.Action.{Action, guarded, pure, checked, ◌>>=◌, ◌>>◌}
use sendself.Worker.Auth.{AuthContext, authenticate}
use sendself.Worker.Db.{
  message_recipients, delete_group_message, delete_message_by_id, blob_storage_key, is_pending,
}
use sendself.Worker.Messages.Request.{SendMessageRequest, Draft, has_message, check_send}

-- What `notifySpace` is called with: the space, the device that is skipped, and whom to push.
pub record Notice : Type 0 where
  pub group_id : Text
  pub exclude : Text
  pub push : List Text

abbrev pub stored : AuthContext → Draft → ℕ → Message
stored auth m now = record {
  id = m.id;
  group_id = auth.group_id;
  sender_device_id = auth.device_id;
  encrypted_payload = m.encrypted_payload;
  iv = m.iv;
  file_r2_key = m.file_r2_key;
  file_iv = m.file_iv;
  file_meta = m.file_meta;
  file_meta_iv = m.file_meta_iv;
  key_epoch = m.key_epoch;
  signature = m.signature;
  deletes_message_id = m.deletes_message_id;
  created_at = now;
}

abbrev pub pending_delivery : Text → Text → Delivery
pending_delivery message device = record {
  message_id = message;
  device_id = device;
  downloaded_at = none;
}

-- The batch of INSERTs. A duplicate key of either table rolls it back.
unfoldable pub insert_message : AuthContext → Draft → ℕ → List Text → Action (Unit {0})
insert_message auth m now recipients s =
    if has_message s m.id
      || any (λ (d : Delivery). str_eq d.message_id m.id && any (str_eq d.device_id) recipients)
          s.deliveries
    then (err conflict, s)
    else (
      ok tt,
      record s {
        messages = s.messages ++ stored auth m now ∷ [];
        deliveries = s.deliveries ++ map (pending_delivery m.id) recipients;
      },
    )

-- `env.FILES.head`
abbrev pub has_object : Server → Text → Bool
has_object s key = any (λ (o : Object). str_eq o.storage_key key) s.files

module _ (w : World) where
  unfoldable pub delete_target : AuthContext → Draft → Action (Unit {0})
  delete_target auth m s = elim m.deletes_message_id [
    | none ↦ (ok tt, s)
    | some id ↦ (delete_group_message w auth.group_id id >>= λ _. pure tt) s
  ]

  -- `deleteBlob` of apps/worker/src/blobs.ts in the bucket that expires: the row, then the object.
  pub drop_upload : Text → Text → Action (Unit {0})
  drop_upload group key s =
      let t = record s {
        uploads =
            filter (λ (u : BlobRow). not (str_eq u.group_id group && str_eq u.r2_key key))
              s.uploads;
      } in
      if w.bucket_up
      then (
        ok tt,
        record t {
          files =
              filter (λ (o : Object). not (str_eq o.storage_key (blob_storage_key group key)))
                s.files;
        },
      )
      else (err internal, t)

  pub drop_upload_of : AuthContext → Draft → Action (Unit {0})
  unfolding drop_upload
  drop_upload_of auth m s = elim m.file_r2_key [
    | none ↦ (ok tt, s)
    | some key ↦ drop_upload auth.group_id key s
  ]

  abbrev pub is_uploaded : AuthContext → Draft → Server → Bool
  is_uploaded auth m s = elim m.file_r2_key [
    | none ↦ true
    | some key ↦ has_object s (blob_storage_key auth.group_id key)
  ]

  -- Storing the message for its recipients, and whom to notify.
  unfoldable pub store : AuthContext → Draft → List Text → Action (Option Notice)
  unfolding drop_upload_of insert_message
  store auth m [] = drop_upload_of auth m >> pure none
  store auth m (r ∷ rs) = do
    checked (λ s. refuse_if (not (is_uploaded auth m s)) bad_request)
    insert_message auth m w.now (r ∷ rs)
    pure (
        some (record {
          group_id = auth.group_id;
          exclude = auth.device_id;
          push = if is_some m.deletes_message_id then [] else r ∷ rs;
        }))

  unfoldable pub deliver : AuthContext → Draft → Action (Option Notice)
  unfolding store
  deliver auth m s = store auth m (message_recipients s auth.group_id auth.device_id) s

  unfoldable pub send_message : Text → SendMessageRequest → Action (Option Notice)
  unfolding delete_target deliver
  send_message header body s =
      guarded (check_send w header body s) (λ (auth, m). delete_target auth m >> deliver auth m) s

  -- The reads of `ackMessage` before its write.
  pub check_ack : Text → Value → Server → Result (AuthContext × Text)
  check_ack header param s = elim (authenticate w s header) [
    | err e ↦ err e
    | ok auth ↦ elim (require_id param) [
      | err e ↦ err e
      | ok id ↦
          if any (λ (m : Message). str_eq m.id id && str_eq m.group_id auth.group_id) s.messages
          then ok (auth, id)
          else err not_found
    ]
  ]

  -- The UPDATE of this device's own row.
  pub mark_downloaded : Text → Text → Server → Server
  mark_downloaded device id s = record s {
    deliveries =
        update_where
          (λ (d : Delivery).
            str_eq d.message_id id && str_eq d.device_id device && is_none d.downloaded_at)
          (λ (d : Delivery). record d { downloaded_at = some w.now }) s.deliveries;
  }

  -- The message goes with its last pending delivery.
  pub settle : Text → Action Bool
  settle id s = if is_pending s id then (ok false, s) else delete_message_by_id w id s

  pub ack_message : Text → Value → Action Bool
  unfolding check_ack mark_downloaded settle
  ack_message header param s =
      guarded (check_ack header param s)
        (λ (auth, id) t. settle id (mark_downloaded auth.device_id id t)) s

-- One message of a poll's answer: the row, and the sender's name where the device is still there.
pub record PendingMessage : Type 0 where
  pub message : Message
  pub sender_name : Option (Text × Text × ℕ)

-- `LEFT JOIN devices d ON d.id = m.sender_device_id AND d.group_id = m.group_id`
abbrev sender_name_of : Server → Message → Option (Text × Text × ℕ)
sender_name_of s m =
    elim (find (λ (d : Device). str_eq d.id m.sender_device_id && str_eq d.group_id m.group_id)
      s.devices) [ none ↦ none | some d ↦ some (d.name_enc, d.name_iv, d.name_key_epoch) ]

abbrev pub created_before : Message → Message → Bool
created_before a b = ltb a.created_at b.created_at

abbrev pub is_waiting_for : Server → Text → ℕ → Message → Bool
is_waiting_for s device since m =
    any
      (λ (d : Delivery).
        str_eq d.message_id m.id && str_eq d.device_id device && is_none d.downloaded_at)
      s.deliveries
    && ltb since m.created_at

-- `ORDER BY m.created_at ASC LIMIT 200`. A device has one delivery of a message at most.
pub waiting_messages : Server → Text → ℕ → List PendingMessage
unfolding order_by
waiting_messages s device since =
    map (λ m. record { message = m; sender_name = sender_name_of s m })
      (take 200 (order_by created_before (filter (is_waiting_for s device since) s.messages)))

-- `pendingKeysFor` of apps/worker/src/routes/keys.ts.
pub pending_keys_for : Server → Text → Text → List KeyRow
unfolding order_by
pending_keys_for s group device =
    order_by (λ (a b : KeyRow). ltb a.epoch b.epoch)
      (filter (λ (k : KeyRow). str_eq k.group_id group && str_eq k.device_id device) s.keys)

pub record PendingMessagesResponse : Type 0 where
  pub messages : List PendingMessage
  pub keys : List KeyRow
  pub key_epoch : ℕ
  pub rotation_pending : Bool
  pub space_name : Option SpaceName
  pub vault_seq : ℕ

-- `Number(since)`. A fraction counts as the next integer below it: the times that it is compared
-- with, by `created_at > since`, are integers.
pub data SinceNumber : Type 0 where
  since_not_finite since_below_zero : SinceNumber
  since_at_least : ℕ → SinceNumber

-- 0 where the parameter is missing or empty.
parse_since : Option SinceNumber → Result ℕ
parse_since none = ok 0
parse_since (some since_not_finite) = err bad_request
parse_since (some since_below_zero) = err bad_request
parse_since (some (since_at_least n)) = ok n

-- `spaceNameRecord` of apps/worker/src/routes/space.ts.
unfoldable pub space_name_record : Server → Text → Option SpaceName
space_name_record s group = elim (group_of s group) [ none ↦ none | some g ↦ g.space_name ]

pub pending_messages : World → Text → Option SinceNumber → Server → Result PendingMessagesResponse
unfolding waiting_messages pending_keys_for parse_since space_name_record
pending_messages w header since s = elim (authenticate w s header) [
  | err e ↦ err e
  | ok auth ↦ elim (parse_since since) [
    | err e ↦ err e
    | ok from ↦ ok (record {
      messages = waiting_messages s auth.device_id from;
      keys = pending_keys_for s auth.group_id auth.device_id;
      key_epoch = auth.group_key_epoch;
      rotation_pending = auth.rotation_pending;
      space_name = space_name_record s auth.group_id;
      vault_seq = auth.vault_seq;
    })
  ]
]
