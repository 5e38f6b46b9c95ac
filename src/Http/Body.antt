-- ===== src/Http/Body.antt =====
-- The bounded read of a request's body in apps/worker/src/http.ts.
use mathlib.Core.List.{append-nil, append_assoc}
use sendself.Base.{
  ℕ, ◌+◌, ◌≤◌, ◌<◌, ◌≡◌, inl, inr, List, [], ◌∷◌, ◌++◌, arith, length, length-append, leb,
  if◌then◌else◌, Bool-cases,
}
use sendself.Errors.{ok, err, payload_too_large}
use sendself.Http.{read_chunks, max_json_body_size}

abbrev pub concat : List (List ℕ) → List ℕ
concat [] = []
concat (c ∷ cs) = c ++ concat cs

read_chunks_fits :
    (chunks : List (List ℕ)) (size : ℕ) (read : List ℕ)
    → size + length (concat chunks) ≤ max_json_body_size
    → read_chunks size read chunks ≡ ok (read ++ concat chunks)
unfolding read_chunks
read_chunks_fits [] size read h = rw append-nil
read_chunks_fits (c ∷ cs) size read h = ground (
  arith,
  length-append c (concat cs),
  append_assoc read c (concat cs),
  read_chunks_fits cs (size + length c) (read ++ c),
)

read_chunks_too_large :
    (chunks : List (List ℕ)) (size : ℕ) (read : List ℕ)
    → size ≤ max_json_body_size
    → max_json_body_size < size + length (concat chunks)
    → read_chunks size read chunks ≡ err payload_too_large
unfolding read_chunks
read_chunks_too_large [] size read h k = absurd (omega arith)
read_chunks_too_large (c ∷ cs) size read h k =
    ground
      (arith, length-append c (concat cs), read_chunks_too_large cs (size + length c) (read ++ c))

-- A body without a Content-Length is read whole where it fits, and refused as too large otherwise,
-- however it is cut into chunks.
pub read_chunks_lem :
    (chunks : List (List ℕ))
    → read_chunks 0 [] chunks ≡ (
        if leb (length (concat chunks)) max_json_body_size
        then ok (concat chunks)
        else err payload_too_large)
read_chunks_lem chunks = elim (Bool-cases (leb (length (concat chunks)) max_json_body_size)) [
  | inl e ↦ rw e (read_chunks_fits chunks 0 [] (ground arith))
  | inr e ↦ rw e (read_chunks_too_large chunks 0 [] (omega arith) (ground arith))
]
