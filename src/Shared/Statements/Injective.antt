-- ===== src/Shared/Statements/Injective.antt =====
-- A signed statement of packages/shared/src/index.ts determines its fields.
use sendself.Base.{
  ℕ, zero, suc, ◌≡◌, refl, ap, false, ◌||◌, List, [], ◌∷◌, ◌++◌, arith, Text, txt, length, any, All,
  drop, ltb, ◌==◌,
}
use sendself.Shared.Decimal.{decimal, decimal_inj, decimal-plain}
use sendself.Shared.Statements.{
  join, AttestationFields, DeleteSignatureFields, attestation_parts, attestation_statement,
  delete_parts, delete_signature_statement,
}

-- The part at a position.
unfoldable pub nth : ℕ → List Text → Text
nth n [] = []
nth zero (t ∷ ts) = t
nth (suc n) (t ∷ ts) = nth n ts

-- The text does not contain the code unit.
abbrev pub Lacks : ℕ → Text → Type 0
Lacks c t = any (λ d. d == c) t ≡ false

-- Where neither text has the separator, what stands on its two sides is determined.
pub separated :
    (c : ℕ) (p q x y : Text) → Lacks c p → Lacks c q → p ++ c ∷ x ≡ q ++ c ∷ y → (p ≡ q) × (x ≡ y)
separated c [] [] x y hp hq e = (refl, ap (drop 1) e)
separated c [] (b ∷ q) x y hp hq e = absurd (ground arith)
separated c (a ∷ p) [] x y hp hq e = absurd (ground arith)
separated c (a ∷ p) (b ∷ q) x y hp hq e =
    let rest = separated c p q x y (ground arith) (ground arith) (ap (drop 1) e) in
    (cc (rest.0, e), rest.1)

-- Texts without a colon are determined by what `join` makes of them, if there are as many.
join-parts :
    (p q : Text) (ps qs : List Text)
    → length ps ≡ length qs
    → Lacks 58 p
    → Lacks 58 q
    → All (Lacks 58) ps
    → All (Lacks 58) qs
    → join p ps ≡ join q qs
    → (p ≡ q) × (ps ≡ qs)
unfolding join
join-parts p q [] [] n hp hq hs ks e = (e, refl)
join-parts p q [] (k ∷ ks') n hp hq hs ks e = absurd (omega arith)
join-parts p q (h ∷ hs') [] n hp hq hs ks e = absurd (omega arith)
join-parts p q (h ∷ hs') (k ∷ ks') n hp hq hs ks e =
    let (first, rest) = separated 58 p q (join h hs') (join k ks') hp hq e in
    let (second, others) = join-parts h k hs' ks' (omega arith) hs.0 ks.0 hs.1 ks.1 rest in
    (first, cc (second, others))

-- The same of a statement, whose first part is fixed and has a colon.
prefixed :
    (prefix : Text) (p q : Text) (ps qs : List Text)
    → join prefix (p ∷ ps) ≡ join prefix (q ∷ qs)
    → join p ps ≡ join q qs
unfolding join
prefixed [] p q ps qs e = ap (drop 1) e
prefixed (c ∷ prefix) p q ps qs e = prefixed prefix p q ps qs (ap (drop 1) e)

-- A statement with its fixed prefix determines its parts.
pub parts_inj :
    (prefix : Text) (ps qs : List Text)
    → length ps ≡ length qs
    → All (Lacks 58) ps
    → All (Lacks 58) qs
    → join prefix ps ≡ join prefix qs
    → ps ≡ qs
parts_inj prefix [] [] n h k e = refl
parts_inj prefix [] (q ∷ qs) n h k e = absurd (omega arith)
parts_inj prefix (p ∷ ps) [] n h k e = absurd (omega arith)
parts_inj prefix (p ∷ ps) (q ∷ qs) n h k e =
    let (first, rest) =
      join-parts p q ps qs (omega arith) h.0 k.0 h.1 k.1 (prefixed prefix p q ps qs e) in
    cc (first, rest)

pub no_colon : (n : ℕ) → Lacks 58 (decimal n)
no_colon n = lacks (decimal n) (decimal-plain n)
  where
    lacks : (t : Text) → any (λ c. ltb c 48 || ltb 57 c) t ≡ false → Lacks 58 t
    lacks [] h = refl
    lacks (c ∷ cs) h = ground (arith, lacks cs)

pub no_point : (n : ℕ) → Lacks 46 (decimal n)
no_point n = lacks (decimal n) (decimal-plain n)
  where
    lacks : (t : Text) → any (λ c. ltb c 48 || ltb 57 c) t ≡ false → Lacks 46 t
    lacks [] h = refl
    lacks (c ∷ cs) h = ground (arith, lacks cs)

-- No id or key of the fields has a colon.
abbrev pub AttestationIsPlain : AttestationFields → Type 0
AttestationIsPlain f =
    Lacks 58 f.group_id
    × Lacks 58 f.device_id
    × Lacks 58 f.public_key
    × Lacks 58 f.signing_public_key
    × Lacks 58 f.signer_device_id

abbrev pub DeleteIsPlain : DeleteSignatureFields → Type 0
DeleteIsPlain f =
    Lacks 58 f.group_id
    × Lacks 58 f.message_id
    × Lacks 58 f.sender_device_id
    × Lacks 58 f.deletes_message_id

-- Two attestations without a colon in their fields that have the same statement are the same.
pub attestation_statement_inj :
    (a b : AttestationFields)
    → AttestationIsPlain a
    → AttestationIsPlain b
    → attestation_statement a ≡ attestation_statement b
    → a ≡ b
unfolding attestation_statement nth
attestation_statement_inj a b h k e i = record {
  group_id = nth 0 (parts i);
  device_id = nth 1 (parts i);
  public_key = nth 2 (parts i);
  signing_public_key = nth 3 (parts i);
  signer_device_id = nth 4 (parts i);
  issued_at = decimal_inj a.issued_at b.issued_at (ap (nth 5) parts) i;
}
  where
    parts : attestation_parts a ≡ attestation_parts b
    parts =
        parts_inj (txt "fs-device-attestation:1") (attestation_parts a) (attestation_parts b) refl
          (h.0, (h.1, (h.2, (h.3, (h.4, (no_colon a.issued_at, tt))))))
          (k.0, (k.1, (k.2, (k.3, (k.4, (no_colon b.issued_at, tt)))))) e

-- Two requests to delete a message, without a colon in their fields, that have the same statement are
-- the same.
pub delete_signature_statement_inj :
    (a b : DeleteSignatureFields)
    → DeleteIsPlain a
    → DeleteIsPlain b
    → delete_signature_statement a ≡ delete_signature_statement b
    → a ≡ b
unfolding delete_signature_statement nth
delete_signature_statement_inj a b h k e i = record {
  group_id = nth 0 (parts i);
  message_id = nth 1 (parts i);
  sender_device_id = nth 2 (parts i);
  key_epoch = decimal_inj a.key_epoch b.key_epoch (ap (nth 3) parts) i;
  deletes_message_id = nth 4 (parts i);
}
  where
    parts : delete_parts a ≡ delete_parts b
    parts =
        parts_inj (txt "fs-message-delete:1") (delete_parts a) (delete_parts b) refl
          (h.0, (h.1, (h.2, (no_colon a.key_epoch, (h.3, tt)))))
          (k.0, (k.1, (k.2, (no_colon b.key_epoch, (k.3, tt))))) e
