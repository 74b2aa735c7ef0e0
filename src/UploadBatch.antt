-- ===== src/UploadBatch.antt =====
-- infrastructure/code/upload_batch.go, and `groupInBatches` of infrastructure/code/bundle_uploader.go:
-- the missing files of a bundle, split into requests of a bounded size. Contents and paths are lists
-- of bytes. The progress reports are left out.
pub mod Complete
pub mod Size
pub mod Tests
use khulnasoft_lab_vulnmap_l.Prelude.Maps.{TextMap, lookup, store}
use khulnasoft_lab_vulnmap_l.Prelude.{
  ℕ, ◌+◌, ◌-◌, ltb, Text, codes, Bool, true, false, List, [], ◌∷◌, ◌++◌, none, some, length,
  if◌then◌else◌,
}

pub record BundleFile : Type 0 where
  pub hash : Text
  pub content : Text

pub record UploadBatch : Type 0 where
  pub hash : Text
  pub documents : TextMap BundleFile
  pub size : ℕ

-- 1024*1024*4 - 1024
abbrev pub max_upload_batch_size : ℕ
max_upload_batch_size = 4193280

abbrev json_overhead_request : Text
json_overhead_request = codes "{\"files\":{}}"

abbrev json_hash_size_per_file : Text
json_hash_size_per_file =
    codes "\"hash\":\"0123456789012345678901234567890123456789012345678901234567890123\""

-- `jsonUriOverhead + jsonContentOverhead`
abbrev json_overhead_per_file : Text
json_overhead_per_file = codes "\"\":{}" ++ codes ",\"content\":\"\""

abbrev pub new_upload_batch : UploadBatch
new_upload_batch = record { hash = []; documents = []; size = 0 }

-- `getTotalDocPayloadSize`
abbrev pub get_total_doc_payload_size : Text → Text → ℕ
get_total_doc_payload_size document_uri content =
    length json_hash_size_per_file
    + length json_overhead_per_file
    + length document_uri
    + length content

-- `getSize`: at least one document where the number of documents is lowered.
abbrev pub get_size : UploadBatch → ℕ
get_size b = elim b.documents [
  | [] ↦ 0
  | document ∷ documents ↦ length json_overhead_request + length documents + b.size
]

-- `hasContent`
abbrev pub has_content : UploadBatch → Bool
has_content b = elim b.documents [ [] ↦ false | document ∷ documents ↦ true ]

-- `canFitFile`: the answer, and the batch. The size grows whatever the answer is.
abbrev pub can_fit_file : Text → Text → UploadBatch → Bool × UploadBatch
can_fit_file uri content b =
    let doc_payload_size = get_total_doc_payload_size uri content in
    (
      ltb (doc_payload_size + get_size b) max_upload_batch_size,
      record b { size = b.size + doc_payload_size },
    )

-- `files[filePath]`, with the zero value for a file that is not there
unfoldable pub file_at : TextMap BundleFile → Text → BundleFile
unfolding lookup
file_at files path = elim (lookup path files) [
  | none ↦ record { hash = []; content = [] }
  | some file ↦ file
]

abbrev pub with_document : Text → BundleFile → UploadBatch → UploadBatch
with_document path file b = record b { documents = store path file b.documents }

module _ (files : TextMap BundleFile) where
  -- The loop, with the batch that is being filled; the earlier ones do not change any more.
  unfoldable pub group_from : UploadBatch → List Text → List UploadBatch
  unfolding store file_at
  group_from current [] = current ∷ []
  group_from current (path ∷ paths) =
      elim (can_fit_file path (file_at files path).content current).0 [
        | true ↦
            group_from
              (with_document path (file_at files path)
                (can_fit_file path (file_at files path).content current).1)
              paths
        | false ↦
            (can_fit_file path (file_at files path).content current).1
            ∷ group_from (with_document path (file_at files path) new_upload_batch) paths
      ]

  -- `groupInBatches` of the missing files: no batch if none is missing.
  unfoldable pub group_in_batches : List Text → List UploadBatch
  unfolding group_from
  group_in_batches [] = []
  group_in_batches (path ∷ paths) = group_from new_upload_batch (path ∷ paths)
