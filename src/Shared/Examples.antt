-- ===== src/Shared/Examples.antt =====
-- The theorems on signed statements at concrete inputs.
use sendself.Base.{◌≡◌, ◌≢◌, refl, none, some, txt}
use sendself.Shared.Statements.{
  AttestationFields, DeleteSignatureFields, MessageSignatureFields, attestation_statement,
  delete_signature_statement, message_signature_statement,
}
use sendself.Shared.Statements.Injective.{attestation_statement_inj, delete_signature_statement_inj}
use sendself.Shared.Statements.Message.{message_signature_statement_inj, statements_apart}

abbrev sample_attestation : AttestationFields
sample_attestation = record {
  group_id = txt "g";
  device_id = txt "d";
  public_key = txt "key";
  signing_public_key = txt "signs";
  signer_device_id = txt "s";
  issued_at = 12;
}

attestation_statement_inj_example : sample_attestation ≡ sample_attestation
attestation_statement_inj_example =
    attestation_statement_inj sample_attestation sample_attestation (refl, refl, refl, refl, refl)
      (refl, refl, refl, refl, refl) refl

abbrev sample_deletion : DeleteSignatureFields
sample_deletion = record {
  group_id = txt "g";
  message_id = txt "m";
  sender_device_id = txt "s";
  key_epoch = 3;
  deletes_message_id = txt "t";
}

delete_signature_statement_inj_example : sample_deletion ≡ sample_deletion
delete_signature_statement_inj_example =
    delete_signature_statement_inj sample_deletion sample_deletion (refl, refl, refl, refl)
      (refl, refl, refl, refl) refl

abbrev sample_fields : MessageSignatureFields
sample_fields = record {
  group_id = txt "g";
  message_id = txt "m";
  sender_device_id = txt "s";
  key_epoch = 3;
  encrypted_payload = some (txt "text");
  iv = some (txt "iv");
  file_r2_key = none;
  file_iv = none;
  file_meta = none;
  file_meta_iv = none;
}

message_signature_statement_inj_example : sample_fields ≡ sample_fields
message_signature_statement_inj_example =
    message_signature_statement_inj sample_fields sample_fields
      ((refl, refl, refl), (refl, refl), (tt, tt), (tt, tt))
      ((refl, refl, refl), (refl, refl), (tt, tt), (tt, tt)) refl

statements_apart_example :
    (message_signature_statement sample_fields ≢ delete_signature_statement sample_deletion)
    × (message_signature_statement sample_fields ≢ attestation_statement sample_attestation)
    × (delete_signature_statement sample_deletion ≢ attestation_statement sample_attestation)
statements_apart_example = statements_apart sample_fields sample_deletion sample_attestation
