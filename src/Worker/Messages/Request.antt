-- ===== src/Worker/Messages/Request.antt =====
-- What `sendMessage` of apps/worker/src/routes/messages.ts checks before its first write.
use sendself.Base.{
  ℕ, ◌^◌, ◌-◌, Bool, ◌&&◌, ◌||◌, not, Option, none, some, Text, str_eq, opt_eq, any, is_some,
  is_none, ◌==◌,
}
use sendself.Errors.{Result, ok, bad_request, conflict, key_rotated, ◌>>=◌, ◌>>◌, refuse_if}
use sendself.Http.{Value, undefined, require_int, require_id, optional_string}
use sendself.Worker.Tables.{Server, World, Message}
use sendself.Worker.Auth.{AuthContext, authenticate, rate_limit}

-- `Number.MAX_SAFE_INTEGER`
abbrev pub max_safe_integer : ℕ
max_safe_integer = 2 ^ 53 - 1

-- The fields of a `SendMessageRequest`, as parsed and not yet checked.
pub record SendMessageRequest : Type 0 where
  pub id : Value
  pub key_epoch : Value
  pub encrypted_payload : Value
  pub iv : Value
  pub file_r2_key : Value
  pub file_iv : Value
  pub file_meta : Value
  pub file_meta_iv : Value
  pub signature : Value
  pub deletes_message_id : Value

-- The fields that were checked.
pub record Draft : Type 0 where
  pub id : Text
  pub key_epoch : ℕ
  pub encrypted_payload : Option Text
  pub iv : Option Text
  pub file_r2_key : Option Text
  pub file_iv : Option Text
  pub file_meta : Option Text
  pub file_meta_iv : Option Text
  pub signature : Option Text
  pub deletes_message_id : Option Text

-- `value === undefined ? undefined : requireId(value)`
unfoldable pub optional_id : Value → Result (Option Text)
optional_id undefined = ok none
optional_id v = do id ← require_id v; ok (some id)

unfoldable pub parse_fields : SendMessageRequest → Result Draft
unfolding optional_id
parse_fields body = do
  id ← require_id body.id
  key_epoch ← require_int body.key_epoch 1 max_safe_integer
  encrypted_payload ← optional_string body.encrypted_payload 1_000_000
  iv ← optional_string body.iv 128
  file_r2_key ← optional_id body.file_r2_key
  file_iv ← optional_string body.file_iv 128
  file_meta ← optional_string body.file_meta 8192
  file_meta_iv ← optional_string body.file_meta_iv 128
  signature ← optional_string body.signature 512
  deletes_message_id ← optional_id body.deletes_message_id
  ok (record {
    id = id;
    key_epoch = key_epoch;
    encrypted_payload = encrypted_payload;
    iv = iv;
    file_r2_key = file_r2_key;
    file_iv = file_iv;
    file_meta = file_meta;
    file_meta_iv = file_meta_iv;
    signature = signature;
    deletes_message_id = deletes_message_id;
  })

-- The checks on how the fields go together, in the order of the code.
unfoldable pub check_shape : Bool → Draft → Result (Unit {0})
check_shape has_signing_key m = do
  refuse_if (is_none m.encrypted_payload && is_some m.iv) bad_request
  refuse_if (is_none m.file_r2_key && is_some m.file_iv) bad_request
  refuse_if
      ((is_some m.file_meta && is_none m.file_meta_iv)
        || (is_none m.file_meta && is_some m.file_meta_iv))
      bad_request
  refuse_if
      (is_some m.file_r2_key
        && (is_none m.file_iv || is_none m.file_meta || is_none m.file_meta_iv))
      bad_request
  refuse_if (has_signing_key && is_none m.signature) bad_request
  refuse_if
      (is_some m.deletes_message_id
        && (is_some m.encrypted_payload || is_some m.file_r2_key || is_some m.file_meta))
      bad_request
  refuse_if (opt_eq m.deletes_message_id (some m.id)) bad_request
  refuse_if (is_none m.encrypted_payload && is_none m.file_r2_key && is_none m.deletes_message_id)
      bad_request
  refuse_if (is_some m.encrypted_payload && is_none m.iv) bad_request
  refuse_if (is_some m.file_r2_key && is_none m.file_iv) bad_request

abbrev pub has_message : Server → Text → Bool
has_message s id = any (λ (m : Message). str_eq m.id id) s.messages

module _ (w : World) where
  -- Everything up to the first write.
  unfoldable pub check_send : Text → SendMessageRequest → Server → Result (AuthContext × Draft)
  check_send header body s = do
    auth ← authenticate w s header
    rate_limit w
    m ← parse_fields body
    check_shape auth.has_signing_key m
    refuse_if (has_message s m.id) conflict
    refuse_if (not (m.key_epoch == auth.group_key_epoch)) key_rotated
    ok (auth, m)
