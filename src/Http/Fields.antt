-- ===== src/Http/Fields.antt =====
-- What the field checks of apps/worker/src/http.ts let through.
use sendself.Base.{ℕ, ◌≤◌, ◌≡◌, ◌↔◌, true, arith, length, all, Text}
use sendself.Errors.{ok}
use sendself.Http.{
  Value, undefined, nat, str, require_string, require_sha256_hex, require_int, require_id,
  is_id_char, is_lower_hex,
}

-- A string field is accepted exactly when it is a string of 1 to `n` code units, as it stands.
pub require_string_iff :
    (v : Value) (n : ℕ) (s : Text)
    → (require_string v n ≡ ok s) ↔ ((v ≡ str s) × (1 ≤ length s) × (length s ≤ n))
unfolding require_string
require_string_iff (str t) n s =
    (λ h. (ground arith, ground arith, ground arith), λ h. ground arith)
require_string_iff undefined n s = ground arith
require_string_iff _ n s = ground arith

pub require_int_iff :
    (v : Value) (lo hi n : ℕ) → (require_int v lo hi ≡ ok n) ↔ ((v ≡ nat n) × (lo ≤ n) × (n ≤ hi))
unfolding require_int
require_int_iff (nat m) lo hi n = ground arith
require_int_iff undefined lo hi n = ground arith
require_int_iff _ lo hi n = ground arith

-- An id is accepted exactly when it is a string of 1 to 256 URL-safe characters.
pub require_id_iff :
    (v : Value) (s : Text)
    → (require_id v ≡ ok s)
      ↔ ((v ≡ str s) × (1 ≤ length s) × (length s ≤ 256) × (all is_id_char s ≡ true))
unfolding require_id require_string
require_id_iff (str t) s =
    (λ h. (ground arith, ground arith, ground arith, ground arith), λ h. ground arith)
require_id_iff undefined s = ground arith
require_id_iff _ s = ground arith

-- A digest is accepted exactly when it is a string of 64 lowercase hexadecimal digits.
pub require_sha256_hex_iff :
    (v : Value) (s : Text)
    → (require_sha256_hex v ≡ ok s) ↔ ((v ≡ str s) × (length s ≡ 64) × (all is_lower_hex s ≡ true))
unfolding require_sha256_hex require_string
require_sha256_hex_iff (str t) s =
    (λ h. (ground arith, ground arith, ground arith), λ h. ground arith)
require_sha256_hex_iff undefined s = ground arith
require_sha256_hex_iff _ s = ground arith
