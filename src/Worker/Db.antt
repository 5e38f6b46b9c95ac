-- ===== src/Worker/Db.antt =====
-- apps/worker/src/db.ts: the active devices and recipients of a space, and the deletion of messages
-- with their deliveries, uploads and files.
pub mod Purge
pub mod Single
pub mod Shrink
use sendself.Base.{
  ℕ, zero, suc, ◌+◌, Bool, true, false, ◌&&◌, ◌||◌, not, Option, none, some, List, [], ◌∷◌, ◌++◌,
  map, Text, txt, str_eq, opt_eq, find, filter, any, is_none, is_some, ltb, ◌==◌, if◌then◌else◌,
  take, order_by, batch_loop, length,
}
use sendself.Errors.{Result, ok, err, internal}
use sendself.Worker.Tables.{Server, World, Device, Message, Delivery, BlobRow, Object, is_active_in}
use sendself.Worker.Action.{Action, pure, throw, ◌>>=◌, ◌>>◌}

-- `DELETE_BATCH_SIZE`
abbrev pub delete_batch_size : ℕ
delete_batch_size = 100

pub active_devices : Server → Text → List Device
active_devices s group = filter (is_active_in group) s.devices

-- `WHERE group_id = ? AND revoked_at IS NULL AND send_only = 0 AND id != ?`
abbrev pub is_recipient : Text → Text → Device → Bool
is_recipient group sender d = is_active_in group d && not d.send_only && not (str_eq d.id sender)

unfoldable pub message_recipients : Server → Text → Text → List Text
message_recipients s group sender = map (λ d. d.id) (filter (is_recipient group sender) s.devices)

-- `blobStorageKey` of apps/worker/src/blobs.ts.
unfoldable pub blob_storage_key : Text → Text → Text
blob_storage_key group key = group ++ (b'/' ∷ key)

-- The columns that a deletion needs.
pub record Target : Type 0 where
  pub id : Text
  pub group_id : Text
  pub file_key : Option Text

abbrev pub target_of : Message → Target
target_of m = record { id = m.id; group_id = m.group_id; file_key = m.file_r2_key }

-- `m.id` is among the batch's.
abbrev pub listed : List Target → Text → Bool
listed batch id = any (λ (t : Target). str_eq t.id id) batch

abbrev owns_upload : BlobRow → Target → Bool
owns_upload u t = str_eq t.group_id u.group_id && opt_eq t.file_key (some u.r2_key)

owns_object : Object → Target → Bool
unfolding blob_storage_key
owns_object o t = elim t.file_key [
  | none ↦ false
  | some k ↦ str_eq (blob_storage_key t.group_id k) o.storage_key
]

-- The statements of one batch: one transaction.
unfoldable pub forget_rows : List Target → Server → Server
forget_rows batch s = record s {
  deliveries = filter (λ (d : Delivery). not (listed batch d.message_id)) s.deliveries;
  messages = filter (λ (m : Message). not (listed batch m.id)) s.messages;
  uploads = filter (λ (u : BlobRow). not (any (owns_upload u) batch)) s.uploads;
}

-- `env.FILES.delete` of the batch's files.
pub drop_files : List Target → Server → Server
unfolding owns_object
drop_files batch s = record s {
  files = filter (λ (o : Object). not (any (owns_object o) batch)) s.files;
}

abbrev pub has_file : Target → Bool
has_file t = is_some t.file_key

-- SQLite's order of ASCII texts.
abbrev text_lt : Text → Text → Bool
text_lt [] [] = false
text_lt [] (d ∷ ds) = true
text_lt (c ∷ cs) [] = false
text_lt (c ∷ cs) (d ∷ ds) = ltb c d || (c == d && text_lt cs ds)

-- `ORDER BY created_at ASC, id ASC`
pub message_before : Message → Message → Bool
message_before a b =
    ltb a.created_at b.created_at || (a.created_at == b.created_at && text_lt a.id b.id)

-- The message still has a recipient that has not downloaded it.
abbrev pub is_pending : Server → Text → Bool
is_pending s id =
    any (λ (d : Delivery). str_eq d.message_id id && is_none d.downloaded_at) s.deliveries

abbrev pub is_delivered : Server → Text → Message → Bool
is_delivered s group m = str_eq m.group_id group && not (is_pending s m.id)

-- `WHERE … ORDER BY created_at ASC, id ASC LIMIT ?`
abbrev pub oldest : (Message → Bool) → List Message → List Message
oldest p messages = take delete_batch_size (order_by message_before (filter p messages))

module _ (w : World) where
  pub delete_batch : List Target → Action (Unit {0})
  unfolding forget_rows drop_files
  delete_batch batch s =
      if any has_file batch
      then (if w.bucket_up
          then (ok tt, drop_files batch (forget_rows batch s))
          else (err internal, forget_rows batch s))
      else (ok tt, forget_rows batch s)

  delete_batches : List (List Target) → Action (Unit {0})
  delete_batches [] = pure tt
  delete_batches (b ∷ bs) = delete_batch b >> delete_batches bs

  pub delete_messages : List Target → Action (Unit {0})
  unfolding batch_loop delete_batches
  delete_messages targets = delete_batches (batch_loop (length targets) 99 targets)

  -- One round of a purge: it ends where its query finds nothing, and goes on otherwise.
  pub purge_round : List Message → Action (Unit {0}) → Action (Unit {0})
  purge_round [] rest = pure tt
  purge_round (m ∷ ms) rest = delete_messages (map target_of (m ∷ ms)) >> rest

  -- `LIMIT ?` of the oldest delivered messages, until there is none.
  pub purge_delivered : ℕ → Text → Action (Unit {0})
  unfolding purge_round
  purge_delivered zero group s = (err internal, s)
  purge_delivered (suc fuel) group s =
      purge_round (oldest (is_delivered s group) s.messages) (purge_delivered fuel group) s

  -- As many rounds as there are messages are enough.
  pub purge_delivered_messages : Text → Action (Unit {0})
  purge_delivered_messages group s = purge_delivered (suc (length s.messages)) group s

  pub delete_message_by_id : Text → Action Bool
  delete_message_by_id id s = elim (find (λ (m : Message). str_eq m.id id) s.messages) [
    | none ↦ (ok false, s)
    | some m ↦ (delete_messages (target_of m ∷ []) >> pure true) s
  ]

  pub delete_group_message : Text → Text → Action Bool
  delete_group_message group id s =
      elim (find (λ (m : Message). str_eq m.id id && str_eq m.group_id group) s.messages) [
        | none ↦ (ok false, s)
        | some m ↦ (delete_messages (target_of m ∷ []) >> pure true) s
      ]

  pub purge_expired : ℕ → ℕ → Action (Unit {0})
  unfolding purge_round
  purge_expired zero older_than s = (err internal, s)
  purge_expired (suc fuel) older_than s =
      purge_round (oldest (λ (m : Message). ltb m.created_at older_than) s.messages)
        (purge_expired fuel older_than) s

  pub purge_expired_messages : ℕ → Action (Unit {0})
  purge_expired_messages older_than s = purge_expired (suc (length s.messages)) older_than s
