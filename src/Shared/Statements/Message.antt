-- ===== src/Shared/Statements/Message.antt =====
-- The statement over a message in packages/shared/src/index.ts determines its fields, and no statement
-- is one of another kind.
use sendself.Base.{
  ℕ, ◌≡◌, ◌≢◌, refl, sym, ap, ◌∙◌, true, Option, none, some, [], ◌∷◌, ◌++◌, arith, Text, txt,
  length, any, any-append, All, drop, ◌==◌,
}
use sendself.Shared.Decimal.{decimal, decimal_inj}
use sendself.Shared.Statements.{
  join, AttestationFields, DeleteSignatureFields, MessageSignatureFields, attestation_statement,
  delete_signature_statement, part, message_parts, message_signature_statement,
}
use sendself.Shared.Statements.Injective.{Lacks, nth, separated, parts_inj, no_colon, no_point}

-- A length is followed by a point, which an absent text does not have.
no_hyphen : (n : ℕ) (w : Text) → decimal n ++ 46 ∷ w ≢ txt "-"
no_hyphen n w e =
    let point : any (λ d. d == 46) (decimal n ++ 46 ∷ w) ≡ true =
      any-append (λ d. d == 46) (decimal n) (46 ∷ w) ∙ ground arith in
    cc point

part_inj : (a b : Option Text) → part a ≡ part b → a ≡ b
unfolding part
part_inj none none e = refl
part_inj none (some w) e = absurd (no_hyphen (length w) w (sym e))
part_inj (some v) none e = absurd (no_hyphen (length v) v e)
part_inj (some v) (some w) e =
    ap some (separated 46 _ _ v w (no_point (length v)) (no_point (length w)) e).1

-- Where a text that may be absent has no colon, neither has its part.
abbrev pub LacksIn : Option Text → Type 0
LacksIn none = Unit
LacksIn (some v) = Lacks 58 v

part-Lacks : (o : Option Text) → LacksIn o → Lacks 58 (part o)
unfolding part
part-Lacks none h = refl
part-Lacks (some v) h =
    rw (any-append (λ d. d == 58) (decimal (length v)) (46 ∷ v), no_colon (length v)) h

-- No field of the message has a colon.
abbrev pub MessageIsPlain : MessageSignatureFields → Type 0
MessageIsPlain f =
    (Lacks 58 f.group_id × Lacks 58 f.message_id × Lacks 58 f.sender_device_id)
    × (LacksIn f.encrypted_payload × LacksIn f.iv)
    × (LacksIn f.file_r2_key × LacksIn f.file_iv)
    × (LacksIn f.file_meta × LacksIn f.file_meta_iv)

plain_parts : (f : MessageSignatureFields) → MessageIsPlain f → All (Lacks 58) (message_parts f)
plain_parts f h = (
  h.0.0,
  (
    h.0.1,
    (
      h.0.2,
      (
        no_colon f.key_epoch,
        (
          part-Lacks f.encrypted_payload h.1.0,
          (
            part-Lacks f.iv h.1.1,
            (
              part-Lacks f.file_r2_key h.2.0,
              (
                part-Lacks f.file_iv h.2.1,
                (part-Lacks f.file_meta h.3.0, (part-Lacks f.file_meta_iv h.3.1, tt)),
              ),
            ),
          ),
        ),
      ),
    ),
  ),
)

-- Two messages without a colon in their fields that have the same statement are the same, an absent
-- text and an empty one included.
pub message_signature_statement_inj :
    (a b : MessageSignatureFields)
    → MessageIsPlain a
    → MessageIsPlain b
    → message_signature_statement a ≡ message_signature_statement b
    → a ≡ b
unfolding message_signature_statement nth
message_signature_statement_inj a b h k e i = record {
  group_id = nth 0 (parts i);
  message_id = nth 1 (parts i);
  sender_device_id = nth 2 (parts i);
  key_epoch = decimal_inj a.key_epoch b.key_epoch (ap (nth 3) parts) i;
  encrypted_payload = part_inj a.encrypted_payload b.encrypted_payload (ap (nth 4) parts) i;
  iv = part_inj a.iv b.iv (ap (nth 5) parts) i;
  file_r2_key = part_inj a.file_r2_key b.file_r2_key (ap (nth 6) parts) i;
  file_iv = part_inj a.file_iv b.file_iv (ap (nth 7) parts) i;
  file_meta = part_inj a.file_meta b.file_meta (ap (nth 8) parts) i;
  file_meta_iv = part_inj a.file_meta_iv b.file_meta_iv (ap (nth 9) parts) i;
}
  where
    parts : message_parts a ≡ message_parts b
    parts =
        parts_inj (txt "fs-message:1") (message_parts a) (message_parts b) refl (plain_parts a h)
          (plain_parts b k) e

abbrev unit_at : ℕ → Text → ℕ
unit_at n t = elim (drop n t) [ [] ↦ 0 | c ∷ cs ↦ c ]

-- Whatever their fields are, a statement over a message is no statement that asks for a deletion, and
-- neither of them is an attestation.
pub statements_apart :
    (m : MessageSignatureFields) (d : DeleteSignatureFields) (a : AttestationFields)
    → (message_signature_statement m ≢ delete_signature_statement d)
      × (message_signature_statement m ≢ attestation_statement a)
      × (delete_signature_statement d ≢ attestation_statement a)
unfolding message_signature_statement delete_signature_statement attestation_statement join
statements_apart m d a = (
  λ e. colon_hyphen (ap (unit_at 10) e),
  λ e. m_d (ap (unit_at 3) e),
  λ e. m_d (ap (unit_at 3) e),
)
  where
    colon_hyphen : ◌≢◌ {A = ℕ} 58 45
    colon_hyphen e = absurd (omega arith)

    m_d : ◌≢◌ {A = ℕ} 109 100
    m_d e = absurd (omega arith)
