-- ===== src/Worker/Uploads/Examples.antt =====
-- The theorem on uploads, at a bucket with one file and a second one that is deleted while it is sent.
use sendself.Base.{true, false, [], ◌∷◌, refl, txt, str_eq}
use sendself.Worker.Db.{blob_storage_key}
use sendself.Worker.Blobs.{Store, delete_blob}
use sendself.Worker.Uploads.{Transfer, put_ok, transfer}
use sendself.Worker.Uploads.Counted.{IsAccounted, delete_blob-IsCounted}
use sendself.Worker.Uploads.Accounted.{transfer-IsAccounted}

abbrev one_file : Store
one_file = record {
  rows = record { group_id = txt "g"; r2_key = txt "k"; size = 3; created_at = 1 } ∷ [];
  objects = record { storage_key = txt "g/k"; size = 3 } ∷ [];
}

-- Another request deletes the blob before it is there, and a third one the first file after that.
abbrev overtaken : Transfer
overtaken = record {
  chunks = 5 ∷ [];
  is_fixed_length = true;
  put = put_ok 5;
  before = λ s. (delete_blob true (λ g k. false) true (txt "g") (txt "n") s).1;
  meanwhile = λ s. (delete_blob true (λ g k. false) true (txt "g") (txt "k") s).1;
}

transfer-IsAccounted_example :
    IsAccounted (transfer true (λ g k. false) true (txt "g") (txt "n") 5 100 7 overtaken one_file).1
unfolding str_eq blob_storage_key
transfer-IsAccounted_example =
    transfer-IsAccounted (txt "g") (txt "n") (λ g k. false) 7 refl 5 100 overtaken one_file
      (delete_blob-IsCounted (txt "g") (txt "n") (λ o. false) (λ g k. false))
      (λ u n. delete_blob-IsCounted (txt "g") (txt "k") _ (λ g k. false) u)
      (record { objects = (refl, tt); rows = (refl, tt) })
