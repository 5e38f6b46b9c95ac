-- ===== src/Shared/Statements.antt =====
-- The signed statements of packages/shared/src/index.ts: the texts that a signature covers, built the
-- same way by signer and verifier.
pub mod Injective
pub mod Message
use sendself.Base.{
  ℕ, Bool, true, false, Option, none, some, List, [], ◌∷◌, ◌++◌, Text, txt, length, if◌then◌else◌,
}
use sendself.Shared.Decimal.{decimal}

-- `[first, …].join(":")`
pub join : Text → List Text → Text
join first [] = first
join first (next ∷ parts) = first ++ 58 ∷ join next parts

-- `Omit<DeviceAttestation, "signature">`
pub record AttestationFields : Type 0 where
  pub group_id : Text
  pub device_id : Text
  pub public_key : Text
  pub signing_public_key : Text
  pub signer_device_id : Text
  pub issued_at : ℕ

pub record DeleteSignatureFields : Type 0 where
  pub group_id : Text
  pub message_id : Text
  pub sender_device_id : Text
  pub key_epoch : ℕ
  pub deletes_message_id : Text

pub record MessageSignatureFields : Type 0 where
  pub group_id : Text
  pub message_id : Text
  pub sender_device_id : Text
  pub key_epoch : ℕ
  pub encrypted_payload : Option Text
  pub iv : Option Text
  pub file_r2_key : Option Text
  pub file_iv : Option Text
  pub file_meta : Option Text
  pub file_meta_iv : Option Text

pub record InviteSealFields : Type 0 where
  pub pairing_id : Text
  pub device_id : Text
  pub public_key : Text
  pub signing_public_key : Text
  pub send_only : Bool

abbrev pub attestation_parts : AttestationFields → List Text
attestation_parts f =
    f.group_id
    ∷ f.device_id
    ∷ f.public_key
    ∷ f.signing_public_key
    ∷ f.signer_device_id
    ∷ decimal f.issued_at
    ∷ []

pub attestation_statement : AttestationFields → Text
unfolding join
attestation_statement f = join (txt "fs-device-attestation:1") (attestation_parts f)

abbrev pub delete_parts : DeleteSignatureFields → List Text
delete_parts f =
    f.group_id ∷ f.message_id ∷ f.sender_device_id ∷ decimal f.key_epoch ∷ f.deletes_message_id ∷ []

pub delete_signature_statement : DeleteSignatureFields → Text
unfolding join
delete_signature_statement f = join (txt "fs-message-delete:1") (delete_parts f)

-- A text is prefixed by its length; a hyphen stands for one that is absent.
pub part : Option Text → Text
part none = txt "-"
part (some v) = decimal (length v) ++ 46 ∷ v

abbrev pub message_parts : MessageSignatureFields → List Text
message_parts f =
    f.group_id
    ∷ f.message_id
    ∷ f.sender_device_id
    ∷ decimal f.key_epoch
    ∷ part f.encrypted_payload
    ∷ part f.iv
    ∷ part f.file_r2_key
    ∷ part f.file_iv
    ∷ part f.file_meta
    ∷ part f.file_meta_iv
    ∷ []

pub message_signature_statement : MessageSignatureFields → Text
unfolding join part
message_signature_statement f = join (txt "fs-message:1") (message_parts f)

abbrev pub invite_parts : InviteSealFields → List Text
invite_parts f =
    f.pairing_id
    ∷ f.device_id
    ∷ f.public_key
    ∷ f.signing_public_key
    ∷ (if f.send_only then txt "send-only" else txt "full")
    ∷ []

pub invite_seal_statement : InviteSealFields → Text
unfolding join
invite_seal_statement f = join (txt "fs-pairing-invite:1") (invite_parts f)
