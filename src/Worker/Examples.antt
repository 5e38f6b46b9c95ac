-- ===== src/Worker/Examples.antt =====
-- The theorems at concrete inputs: messages and authentication.
use sendself.Base.{refl, none, some, [], ◌∷◌, txt, str_eq}
use sendself.Http.{
  undefined, nat, str, require_string, optional_string, require_int, require_id, is_id_char,
}
use sendself.Worker.Tables.{Server}
use sendself.Worker.Auth.{
  authenticate, rate_limit, bearer, is_space, is_line_end, trim_start, trim_end, strip_prefix,
  last_matches,
}
use sendself.Worker.Auth.Access.{IsDeviceOf, authenticate-IsDeviceOf}
use sendself.Worker.Db.{purge_delivered_messages}
use sendself.Worker.Db.Purge.{Purged, purge_delivered_messages-Purged}
use sendself.Worker.Messages.{Notice, send_message, ack_message}
use sendself.Worker.Messages.Request.{
  SendMessageRequest, Draft, check_send, parse_fields, check_shape, optional_id,
}
use sendself.Worker.Messages.Checks.{MaySend, check_send-MaySend}
use sendself.Worker.Messages.Delivered.{IsOutstanding, ack_message-IsOutstanding}
use sendself.Worker.Messages.Sent.{send_message-IsOutstanding}
use sendself.Worker.Sample.{sample_world, sample_server, sample_auth, owner_header, sample_message}

authenticate-IsDeviceOf_example : IsDeviceOf sample_world sample_server owner_header sample_auth
unfolding authenticate bearer is_space is_line_end trim_start trim_end strip_prefix last_matches
    str_eq
authenticate-IsDeviceOf_example =
    authenticate-IsDeviceOf sample_world sample_server owner_header sample_auth refl

sample-IsOutstanding : IsOutstanding sample_server
unfolding str_eq
sample-IsOutstanding = (refl, tt)

ack_message-IsOutstanding_example :
    IsOutstanding (ack_message sample_world (txt "Bearer b") (str (txt "m")) sample_server).1
ack_message-IsOutstanding_example =
    ack_message-IsOutstanding sample_world (txt "Bearer b") (str (txt "m")) sample_server
      sample-IsOutstanding

-- A text of the owner's.
abbrev sample_request : SendMessageRequest
sample_request = record {
  id = str (txt "x");
  key_epoch = nat 1;
  encrypted_payload = str (txt "text");
  iv = str (txt "iv");
  file_r2_key = undefined;
  file_iv = undefined;
  file_meta = undefined;
  file_meta_iv = undefined;
  signature = undefined;
  deletes_message_id = undefined;
}

abbrev sample_draft : Draft
sample_draft = record {
  id = txt "x";
  key_epoch = 1;
  encrypted_payload = some (txt "text");
  iv = some (txt "iv");
  file_r2_key = none;
  file_iv = none;
  file_meta = none;
  file_meta_iv = none;
  signature = none;
  deletes_message_id = none;
}

check_send-MaySend_example :
    MaySend sample_world sample_server owner_header sample_auth sample_draft
unfolding check_send parse_fields check_shape optional_id require_string optional_string require_int
    require_id is_id_char authenticate rate_limit bearer is_space is_line_end trim_start trim_end
    strip_prefix last_matches str_eq
check_send-MaySend_example =
    check_send-MaySend sample_world owner_header sample_request sample_server sample_auth
      sample_draft refl

send_message-IsOutstanding_example :
    IsOutstanding (send_message sample_world owner_header sample_request sample_server).1
send_message-IsOutstanding_example =
    send_message-IsOutstanding sample_world owner_header sample_request sample_server
      sample-IsOutstanding

-- Both other devices are told of it.
abbrev sample_notice : Notice
sample_notice = record { group_id = txt "g"; exclude = txt "a"; push = txt "b" ∷ txt "c" ∷ [] }

abbrev sent_server : Server
sent_server = (send_message sample_world owner_header sample_request sample_server).1

-- The message that everybody has is beside the one that waits.
abbrev delivered_server : Server
delivered_server = record sample_server { messages = sample_message "n" ∷ sample_message "m" ∷ [] }

purge_delivered_messages-Purged_example :
    Purged
      (txt "g")
      delivered_server
      (purge_delivered_messages sample_world (txt "g") delivered_server)
purge_delivered_messages-Purged_example =
    purge_delivered_messages-Purged sample_world refl (txt "g") delivered_server
