-- ===== src/Worker/Uploads.antt =====
-- apps/worker/src/routes/files.ts: a blob that a device streams into a bucket. The streams of the
-- platform, the length that `FixedLengthStream` holds a body to and what the bucket makes of it, are
-- parameters of a request (`Transfer`).
pub mod Counted
pub mod Accounted
pub mod Examples
use sendself.Base.{
  ℕ, ◌+◌, ◌*◌, Bool, true, false, ◌&&◌, not, Option, none, some, List, [], ◌∷◌, ◌++◌, Text, str_eq,
  filter, leb, ltb, ◌==◌, if◌then◌else◌,
}
use sendself.Errors.{
  Result, ok, err, bad_request, payload_too_large, quota_exceeded, not_found, internal, ◌>>=◌, ◌>>◌,
  refuse_if, or_fail,
}
use sendself.Http.{Value, HeaderNumber, not_finite, below_zero, at_most, require_id}
use sendself.Worker.Tables.{Server, World, Object}
use sendself.Worker.Auth.{AuthContext, authenticate, rate_limit}
use sendself.Worker.Db.{blob_storage_key}
use sendself.Worker.Blobs.{Store, reserve_blob, record_blob, delete_blob}

-- `MAX_UPLOAD_SIZE`
abbrev pub max_upload_size : ℕ
max_upload_size = 50 * 1024 * 1024 + 1024

-- `SPACE_PENDING_BYTES_QUOTA`
abbrev pub space_pending_bytes_quota : ℕ
space_pending_bytes_quota = 2 * 1024 * 1024 * 1024

-- `boundedUploadBody` on the sizes of the chunks: whether the body goes over the limit.
unfoldable pub is_exceeded : ℕ → List ℕ → Bool
is_exceeded size [] = false
is_exceeded size (chunk ∷ chunks) =
    let rest = is_exceeded (size + chunk) chunks in
    if ltb max_upload_size (size + chunk) then true else rest

-- The bucket's write: the size of the object, or a failure with what it may have left under the key.
pub data PutResult : Type 0 where
  put_ok : ℕ → PutResult
  put_failed : Option ℕ → PutResult

-- What comes from outside: the chunks of the body, whether the fixed-length stream took them, the
-- bucket's write, and what other requests make of the table and the bucket while this one waits, before
-- the object is there and after that.
pub record Transfer : Type 0 where
  pub chunks : List ℕ
  pub is_fixed_length : Bool
  pub put : PutResult
  pub before : Store → Store
  pub meanwhile : Store → Store

-- The Content-Length, where there is one; 0 is refused like a negative one.
unfoldable pub require_length : Option HeaderNumber → Result ℕ
require_length none = err bad_request
require_length (some not_finite) = err bad_request
require_length (some below_zero) = err bad_request
require_length (some (at_most n)) = do
  refuse_if (n == 0) bad_request
  refuse_if (ltb max_upload_size n) payload_too_large
  ok n

-- The bucket with an object in place of what was under its key.
unfoldable pub replaced : Text → ℕ → List Object → List Object
replaced key size objects =
    record { storage_key = key; size = size }
    ∷ filter (λ (o : Object). not (str_eq o.storage_key key)) objects

-- The bucket after the write.
unfoldable pub put_object : Text → PutResult → List Object → List Object
unfolding replaced
put_object key (put_ok size) objects = replaced key size objects
put_object key (put_failed none) objects = objects
put_object key (put_failed (some size)) objects = replaced key size objects

module _ (bucket_up : Bool) (claimed : Text → Text → Bool) (expires : Bool) where
  -- `discardUpload`: the delete's failure is passed over.
  unfoldable pub discard_upload : Text → Text → Store → Store
  discard_upload group key s = (delete_blob bucket_up claimed expires group key s).1

  -- What follows once both streams have ended.
  unfoldable pub finish_upload : Text → Text → ℕ → Transfer → Store → Result (Unit {0}) × Store
  unfolding is_exceeded discard_upload
  finish_upload group key now t s =
      if not (not (is_exceeded 0 t.chunks) && t.is_fixed_length)
      then (
        err (if is_exceeded 0 t.chunks then payload_too_large else bad_request),
        discard_upload group key s,
      )
      else elim (t.put) [
        | put_failed left ↦ (err internal, discard_upload group key s)
        | put_ok size ↦
            if ltb max_upload_size size
            then (
              elim ((delete_blob bucket_up claimed expires group key s).0) [
                | ok u ↦ err payload_too_large
                | err e ↦ err e
              ],
              (delete_blob bucket_up claimed expires group key s).1,
            )
            else (ok tt, record s { rows = record_blob group key size now s.rows })
      ]

  -- From the reservation on. Other requests run between the reservation and the write, and between the
  -- write and what follows it.
  unfoldable pub transfer : Text → Text → ℕ → ℕ → ℕ → Transfer → Store → Result (Unit {0}) × Store
  unfolding put_object finish_upload
  transfer group key length quota now t s =
      let reserved = reserve_blob group key length quota now s.rows in
      let kept = record s { rows = reserved.1 } in
      let waited = t.before kept in
      let written = record waited {
        objects = put_object (blob_storage_key group key) t.put waited.objects;
      } in
      if reserved.0
      then finish_upload group key now t (t.meanwhile written)
      else (err quota_exceeded, kept)

module _ (w : World) (s : Server) where
  -- The checks: the body is there or not.
  unfoldable pub check_upload :
      Text → Value → Option HeaderNumber → Bool → Result (AuthContext × Text × ℕ)
  unfolding require_length
  check_upload header param length has_body = do
    auth ← authenticate w s header
    rate_limit w
    key ← require_id param
    size ← require_length length
    refuse_if (not has_body) bad_request
    ok (auth, key, size)

  unfoldable pub receive_blob :
      (Text → Text → Bool)
      → Bool
      → ℕ
      → Text
      → Value
      → Option HeaderNumber
      → Option Transfer
      → Store
      → Result (Unit {0}) × Store
  unfolding check_upload transfer
  receive_blob claimed expires quota header param length none store =
      elim (check_upload header param length false) [
        | err e ↦ (err e, store)
        | ok r ↦ (err bad_request, store)
      ]
  receive_blob claimed expires quota header param length (some t) store =
      elim (check_upload header param length true) [
        | err e ↦ (err e, store)
        | ok (auth, key, size) ↦
            transfer w.bucket_up claimed expires auth.group_id key size quota w.now t store
      ]

  -- A message attachment: its store expires.
  unfoldable pub upload_file :
      (Text → Text → Bool)
      → Text
      → Value
      → Option HeaderNumber
      → Option Transfer
      → Store
      → Result (Unit {0}) × Store
  unfolding receive_blob
  upload_file claimed = receive_blob claimed true space_pending_bytes_quota
