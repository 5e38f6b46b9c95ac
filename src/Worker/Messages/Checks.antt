-- ===== src/Worker/Messages/Checks.antt =====
-- Which messages `sendMessage` of apps/worker/src/routes/messages.ts lets through.
use sendself.Base.{
  ◌≡◌, ◌≢◌, ◌⊎◌, inl, inr, refl, Bool, true, false, not, none, some, arith, Text, str_eq_iff,
  is_some, ◌==◌, Option-cases, subst,
}
use sendself.Errors.{ok, conflict, key_rotated, when_bound, when_passed, ok_inj}
use sendself.Worker.Tables.{Server, World}
use sendself.Worker.Auth.{AuthContext, authenticate, rate_limit}
use sendself.Worker.Messages.Request.{
  Draft, SendMessageRequest, check_shape, check_send, parse_fields, has_message,
}

-- The two kinds of message. A tombstone carries nothing but the id of another message; content has
-- text or a file, each ciphertext with its IV, and a file with its metadata.
pub record IsTombstone (m : Draft) (target : Text) : Type 0 where
  pub deletes : m.deletes_message_id ≡ some target
  pub other : target ≢ m.id
  pub no_text : (m.encrypted_payload ≡ none) × (m.iv ≡ none)
  pub no_file : (m.file_r2_key ≡ none) × (m.file_iv ≡ none)
  pub no_meta : (m.file_meta ≡ none) × (m.file_meta_iv ≡ none)

pub record IsContent (m : Draft) : Type 0 where
  pub no_target : m.deletes_message_id ≡ none
  pub text_paired : is_some m.encrypted_payload ≡ is_some m.iv
  pub file_paired : is_some m.file_r2_key ≡ is_some m.file_iv
  pub meta_paired : is_some m.file_meta ≡ is_some m.file_meta_iv
  pub file_described : (m.file_r2_key ≡ none) ⊎ (is_some m.file_meta ≡ true)
  pub not_empty : (is_some m.encrypted_payload ≡ true) ⊎ (is_some m.file_r2_key ≡ true)

module _ (signs : Bool) (m : Draft) where
  check_shape-IsTombstone :
      (target : Text)
      → m.deletes_message_id ≡ some target
      → check_shape signs m ≡ ok tt
      → IsTombstone m target
  unfolding check_shape
  check_shape-IsTombstone target e h = record {
    deletes = e;
    other = λ same. ground (arith, str_eq_iff target m.id);
    no_text = ground arith;
    no_file = ground arith;
    no_meta = ground arith;
  }

  check_shape-IsContent : m.deletes_message_id ≡ none → check_shape signs m ≡ ok tt → IsContent m
  unfolding check_shape
  check_shape-IsContent e h = record {
    no_target = e;
    text_paired = ground arith;
    file_paired = ground arith;
    meta_paired = ground arith;
    file_described = elim (Option-cases m.file_r2_key) [
      | inl n ↦ inl n
      | inr (k, e') ↦ inr (ground arith)
    ];
    not_empty = ground arith;
  }

shape_of :
    (signs : Bool) (m : Draft)
    → check_shape signs m ≡ ok tt
    → IsContent m ⊎ ((target : Text) × IsTombstone m target)
shape_of signs m h = elim (Option-cases m.deletes_message_id) [
  | inl e ↦ inl (check_shape-IsContent signs m e h)
  | inr (target, e) ↦ inr (target, check_shape-IsTombstone signs m target e h)
]

signed_of :
    (signs : Bool) (m : Draft)
    → check_shape signs m ≡ ok tt
    → (signs ≡ false) ⊎ (is_some m.signature ≡ true)
unfolding check_shape
signed_of true m h = inr (ground arith)
signed_of false m h = inl refl

-- Why a message was let through.
pub record MaySend (w : World) (s : Server) (header : Text) (auth : AuthContext) (m : Draft)
    : Type 0 where
  pub authentic : authenticate w s header ≡ ok auth
  pub shape : IsContent m ⊎ ((target : Text) × IsTombstone m target)
  pub signed : (auth.has_signing_key ≡ false) ⊎ (is_some m.signature ≡ true)
  pub fresh : has_message s m.id ≡ false
  pub current : m.key_epoch ≡ auth.group_key_epoch

-- A message is let through only from an authenticated device, under an id that no stored message
-- has and the space's current key epoch, signed where the device has published a signing key, and
-- only where it is either content, with each ciphertext's IV and each file's metadata, or a
-- tombstone of another message that carries no content.
pub check_send-MaySend :
    (w : World) (header : Text) (body : SendMessageRequest) (s : Server) (auth : AuthContext)
    (m : Draft)
    → check_send w header body s ≡ ok (auth, m)
    → MaySend w s header auth m
unfolding check_send
check_send-MaySend w header body s auth m h = when_bound (authenticate w s header) h λ a e₁ h₁.
    when_bound (rate_limit w) h₁ λ _ _ h₂. when_bound (parse_fields body) h₂ λ d _ h₃.
      when_bound (check_shape a.has_signing_key d) h₃ λ _ e₂ h₄.
        when_passed (has_message s d.id) conflict h₄ λ e₃ h₅.
          when_passed (not (d.key_epoch == a.group_key_epoch)) key_rotated h₅ λ e₄ h₆.
            subst (λ (x : AuthContext × Draft). MaySend w s header x.0 x.1) (ok_inj h₆)
              (record {
                authentic = e₁;
                shape = shape_of a.has_signing_key d e₂;
                signed = signed_of a.has_signing_key d e₂;
                fresh = e₃;
                current = ground arith;
              })
