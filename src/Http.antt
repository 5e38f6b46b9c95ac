-- ===== src/Http.antt =====
-- apps/worker/src/http.ts: the bounded read of a body, and the checks of a request's fields.
pub mod Fields
pub mod Body
mod Tests
use sendself.Base.{
  ℕ, zero, suc, ◌+◌, ◌*◌, Bool, true, false, ◌&&◌, ◌||◌, Option, none, some, List, [], ◌∷◌, ◌++◌,
  leb, ltb, ◌==◌, if◌then◌else◌, length, all, Text, txt, not,
}
use sendself.Errors.{Result, ok, err, bad_request, payload_too_large, ◌>>=◌, ◌>>◌, refuse_if}

-- A field of a parsed JSON body. An integer is `nat n` or `negative n`, which stands for -(n + 1);
-- `fraction` is a number for which `Number.isInteger` is false; `compound` an array or an object.
pub data Value : Type 0 where
  undefined null fraction compound : Value
  boolean : Bool → Value
  nat : ℕ → Value
  negative : ℕ → Value
  str : Text → Value

unfoldable pub require_string : Value → ℕ → Result Text
require_string (str s) max_len = do
  refuse_if (length s == 0) bad_request
  refuse_if (ltb max_len (length s)) bad_request
  ok s
require_string _ max_len = err bad_request

unfoldable pub optional_string : Value → ℕ → Result (Option Text)
unfolding require_string
optional_string undefined max_len = ok none
optional_string null max_len = ok none
optional_string v max_len = do s ← require_string v max_len; ok (some s)

abbrev between : ℕ → ℕ → ℕ → Bool
between lo hi c = leb lo c && leb c hi

-- `[0-9a-f]`
unfoldable pub is_lower_hex : ℕ → Bool
is_lower_hex c = between b'0' b'9' c || between b'a' b'f' c

-- `[A-Za-z0-9_-]`
unfoldable pub is_id_char : ℕ → Bool
is_id_char c =
    between b'A' b'Z' c || between b'a' b'z' c || between b'0' b'9' c || c == b'_' || c == b'-'

unfoldable pub require_sha256_hex : Value → Result Text
unfolding require_string
require_sha256_hex v = do
  s ← require_string v 64
  refuse_if (not (length s == 64 && all is_lower_hex s)) bad_request
  ok s

-- `min` is never below 0 where the server calls it.
unfoldable pub require_int : Value → ℕ → ℕ → Result ℕ
require_int (nat n) lo hi = do refuse_if (ltb n lo || ltb hi n) bad_request; ok n
require_int _ lo hi = err bad_request

unfoldable pub require_id : Value → Result Text
unfolding require_string
require_id v = do s ← require_string v 256; refuse_if (not (all is_id_char s)) bad_request; ok s

-- `MAX_JSON_BODY_SIZE`
abbrev pub max_json_body_size : ℕ
max_json_body_size = 2 * 1024 * 1024

-- What `Number` makes of a Content-Length header.
pub data HeaderNumber : Type 0 where
  not_finite below_zero : HeaderNumber
  at_most : ℕ → HeaderNumber

-- The check of the header, where there is one. A fraction counts as the next integer above it.
check_content_length : Option HeaderNumber → Result (Unit {0})
check_content_length none = ok tt
check_content_length (some not_finite) = err bad_request
check_content_length (some below_zero) = err bad_request
check_content_length (some (at_most n)) = refuse_if (ltb max_json_body_size n) payload_too_large

-- The loop over the stream's chunks: what was read so far, and its size.
pub read_chunks : ℕ → List ℕ → List (List ℕ) → Result (List ℕ)
read_chunks size read [] = ok read
read_chunks size read (chunk ∷ chunks) =
    let rest = read_chunks (size + length chunk) (read ++ chunk) chunks in
    if ltb max_json_body_size (size + length chunk) then err payload_too_large else rest

-- `JSON.parse` over the decoded bytes is a parameter: nothing where it throws. The body is absent
-- where the request has none.
module _ {J : Type 0} (parse : List ℕ → Option J) where
  pub read_json : Option HeaderNumber → Option (List (List ℕ)) → Result J
  unfolding check_content_length read_chunks
  read_json header none = do check_content_length header; err bad_request
  read_json header (some chunks) = do
    check_content_length header
    bytes ← read_chunks 0 [] chunks
    elim (parse bytes) [ none ↦ err bad_request | some j ↦ ok j ]
