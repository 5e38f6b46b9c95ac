-- ===== src/Worker/Blobs/Examples.antt =====
-- The theorems on blobs at concrete inputs.
use sendself.Base.{◌≡◌, ◌≤◌, refl, Bool, not, any, List, [], ◌∷◌, Text, txt, str_eq, filter}
use sendself.Worker.Tables.{BlobRow}
use sendself.Worker.Db.{blob_storage_key}
use sendself.Worker.Blobs.{Store, BlobId, delete_unclaimed_blobs}
use sendself.Worker.Blobs.Quota.{held}
use sendself.Worker.Blobs.History.{Event, reserve, happen, held-happen_le}
use sendself.Worker.Blobs.Claims.{IsAccounted, delete_unclaimed_blobs-Tidy}

-- The second reservation does not fit.
abbrev sample_events : List Event
sample_events = reserve (txt "g") (txt "k") 60 1 ∷ reserve (txt "g") (txt "l") 60 2 ∷ []

held-happen_le_example : held (txt "g") (happen 100 [] sample_events) ≤ 100
held-happen_le_example = held-happen_le 100 (txt "g") sample_events

abbrev row_of : Text → BlobRow
row_of key = record { group_id = txt "g"; r2_key = key; size = 5; created_at = 3 }

abbrev id_for : Text → BlobId
id_for key = record { group_id = txt "g"; key = key }

abbrev sample_store : Store
sample_store = record {
  rows = row_of (txt "k") ∷ row_of (txt "l") ∷ [];
  objects = record { storage_key = txt "g/l"; size = 5 } ∷ [];
}

-- What a message names is claimed.
abbrev claims_k : Text → Text → Bool
claims_k group key = str_eq key (txt "k")

-- The bucket carries out the deletions that leave `k` alone.
abbrev up_to_k : List BlobId → Bool
up_to_k blobs = not (any (λ (b : BlobId). str_eq b.key (txt "k")) blobs)

delete_unclaimed_blobs-Tidy_example :
    (filter
        (λ (u : BlobRow). claims_k u.group_id u.r2_key)
        (delete_unclaimed_blobs up_to_k claims_k
          (id_for (txt "k") ∷ id_for (txt "l") ∷ [])
          sample_store).1.rows
      ≡ filter (λ (u : BlobRow). claims_k u.group_id u.r2_key) sample_store.rows)
    × IsAccounted
        (delete_unclaimed_blobs up_to_k claims_k
          (id_for (txt "k") ∷ id_for (txt "l") ∷ [])
          sample_store).1
unfolding blob_storage_key str_eq
delete_unclaimed_blobs-Tidy_example =
    delete_unclaimed_blobs-Tidy up_to_k claims_k (id_for (txt "k") ∷ id_for (txt "l") ∷ [])
      sample_store (refl, tt)
