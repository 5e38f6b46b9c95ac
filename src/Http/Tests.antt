-- ===== src/Http/Tests.antt =====
-- The theorems on request fields and bodies at concrete inputs.
use sendself.Base.{◌≡◌, ◌↔◌, ◌≤◌, true, all, length, [], ◌∷◌, Text, txt}
use sendself.Errors.{ok}
use sendself.Http.{str, require_id, require_sha256_hex, read_chunks, is_id_char, is_lower_hex}
use sendself.Http.Fields.{require_id_iff, require_sha256_hex_iff}
use sendself.Http.Body.{read_chunks_lem}

read_chunks_lem_example : read_chunks 0 [] ((1 ∷ []) ∷ (2 ∷ 3 ∷ []) ∷ []) ≡ ok (1 ∷ 2 ∷ 3 ∷ [])
read_chunks_lem_example = read_chunks_lem ((1 ∷ []) ∷ (2 ∷ 3 ∷ []) ∷ [])

require_id_iff_example : (require_id (str (txt "a-1")) ≡ ok (txt "a-1")) ↔ (
    (str (txt "a-1") ≡ str (txt "a-1")) × (1 ≤ 3) × (3 ≤ 256) × (all is_id_char (txt "a-1") ≡ true))
require_id_iff_example = require_id_iff (str (txt "a-1")) (txt "a-1")

abbrev sample_hash : Text
sample_hash = txt "0123456789abcdef0123456789abcdef0123456789abcdef0123456789abcdef"

require_sha256_hex_iff_example : (require_sha256_hex (str sample_hash) ≡ ok sample_hash) ↔ (
    (str sample_hash ≡ str sample_hash)
    × (length sample_hash ≡ 64)
    × (all is_lower_hex sample_hash ≡ true))
require_sha256_hex_iff_example = require_sha256_hex_iff (str sample_hash) sample_hash
