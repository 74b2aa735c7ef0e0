-- ===== src/UploadBatch/Tests.antt =====
-- A grouping of two files, and instances of the theorems about the batches.
use khulnasoft_lab_vulnmap_l.Prelude.Maps.{TextMap, lookup}
use khulnasoft_lab_vulnmap_l.Prelude.Strings.{text_eq}
use khulnasoft_lab_vulnmap_l.Prelude.{◌+◌, ◌≤◌, Text, codes, ◌≡◌, refl, List, [], ◌∷◌, All, arith}
use khulnasoft_lab_vulnmap_l.UploadBatch.{
  BundleFile, max_upload_batch_size, file_at, group_in_batches,
}
use khulnasoft_lab_vulnmap_l.UploadBatch.Complete.{
  documents_of, with_files, group_in_batches-documents,
}
use khulnasoft_lab_vulnmap_l.UploadBatch.Size.{counted_size, group_in_batches-counted_size}

abbrev files : TextMap BundleFile
files =
    (codes "a.go", record { hash = codes "1"; content = codes "package a" })
    ∷ (codes "a.go.in", record { hash = codes "2"; content = codes "package b" })
    ∷ []

abbrev missing : List Text
missing = codes "a.go" ∷ codes "a.go.in" ∷ []

group_in_batches-documents_example :
    documents_of (group_in_batches files missing) ≡ with_files files missing
group_in_batches-documents_example =
    group_in_batches-documents files missing ((λ e. cc e, tt), (tt, tt))

group_in_batches-counted_size_example :
    All
      (λ g. counted_size g.documents ≤ max_upload_batch_size + 11 + 200)
      (group_in_batches files missing)
unfolding file_at lookup text_eq
group_in_batches-counted_size_example =
    group_in_batches-counted_size files 200 missing (omega arith, (omega arith, tt))

both_are_found : with_files files missing ≡ files
unfolding file_at lookup text_eq
both_are_found = refl
