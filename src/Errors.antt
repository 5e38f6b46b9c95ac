-- ===== src/Errors.antt =====
-- apps/worker/src/errors.ts and the error codes of packages/shared/src/index.ts: a request either
-- has a result or throws an `ApiError`, of which the code is kept and the message is not.
use sendself.Base.{Bool, true, false, ◌≡◌, refl, ap, ◌⊎◌, inl, inr, Option, none, some}

pub data ApiErrorCode : Type 0 where
  bad_request unauthorized forbidden device_revoked not_found conflict : ApiErrorCode
  key_rotated payload_too_large quota_exceeded challenge_failed rate_limited : ApiErrorCode
  internal : ApiErrorCode

-- What a request comes to.
pub data Result {ℓ} (A : Type ℓ) : Type ℓ where
  err : ApiErrorCode → Result A
  ok : A → Result A

-- `if (test) throw new ApiError(e, …)`.
abbrev pub refuse_if : Bool → ApiErrorCode → Result (Unit {0})
refuse_if true e = err e
refuse_if false e = ok tt

infixl 5 ◌>>=◌
-- What runs where nothing was thrown.
abbrev pub ◌>>=◌ {ℓ κ} : {A : Type ℓ} {B : Type κ} → Result A → (A → Result B) → Result B
err thrown >>= rest = err thrown
ok value >>= rest = rest value

infixl 5 ◌>>◌
abbrev pub ◌>>◌ {κ} : {B : Type κ} → Result (Unit {0}) → Result B → Result B
check >> rest = check >>= λ _. rest

-- `if (!row) throw new ApiError(e, …)`.
abbrev pub or_fail {ℓ} : {A : Type ℓ} → Option A → ApiErrorCode → Result A
or_fail none e = err e
or_fail (some a) e = ok a

module _ {ℓ κ} {A : Type ℓ} {B : Type κ} where
  pub >>=-eq-ok :
      (m : Result A) (f : A → Result B) (b : B)
      → (m >>= f) ≡ ok b
      → (a : A) × (m ≡ ok a) × (f a ≡ ok b)
  >>=-eq-ok (ok a) f b h = (a, refl, h)
  >>=-eq-ok (err e) f b h = cc

pub or_fail-eq-ok {ℓ} :
    {A : Type ℓ} (o : Option A) (e : ApiErrorCode) (a : A) → or_fail o e ≡ ok a → o ≡ some a
or_fail-eq-ok none e a h = cc
or_fail-eq-ok (some b) e a h = cc

pub ok_inj {ℓ} : {A : Type ℓ} {a b : A} → ok a ≡ ok b → a ≡ b
ok_inj {a} e = ap (λ r. elim r [ ok x ↦ x | err c ↦ a ]) e

module _ {ℓ κ ι} {A : Type ℓ} {B : Type κ} {C : Type ι} {f : A → Result B} {b : B} where
  -- A success of a chain, in continuation style: what its first step returned, and the rest.
  pub when_bound : (m : Result A) → (m >>= f) ≡ ok b → ((a : A) → m ≡ ok a → f a ≡ ok b → C) → C
  when_bound m h k = let r = >>=-eq-ok m f b h in k r.0 r.1 r.2

module _ {κ ι} {B : Type κ} {C : Type ι} {k : Result B} {b : B} where
  -- The same past a guard.
  pub when_passed :
      (t : Bool) (e : ApiErrorCode) → (refuse_if t e >> k) ≡ ok b → (t ≡ false → k ≡ ok b → C) → C
  when_passed true e h c = cc
  when_passed false e h c = c refl h

pub Result-cases {ℓ} :
    {A : Type ℓ} (r : Result A) → ((e : ApiErrorCode) × (r ≡ err e)) ⊎ ((a : A) × (r ≡ ok a))
Result-cases (err e) = inl (e, refl)
Result-cases (ok a) = inr (a, refl)
