-- ===== src/CodeBundle.antt =====
-- infrastructure/code/bundle.go, and the upload loop of infrastructure/code/bundle_uploader.go. What
-- surrounds the code is a state that the calls change: the backend behind the interface
-- `VulnmapCodeClient`, the clock, the context and the file system. A cancellation that comes between
-- two calls is one that comes during the call before.
pub mod Upload
pub mod Endless
pub mod Actions
pub mod Analysis
pub mod Creation
pub mod Scan
pub mod Tests
use khulnasoft_lab_vulnmap_l.Prelude.Maps.{TextMap}
use khulnasoft_lab_vulnmap_l.Prelude.{
  ℕ, zero, suc, Text, codes, Bool, true, false, List, [], ◌∷◌, ◌++◌, Option, none, some,
  if◌then◌else◌,
}
use khulnasoft_lab_vulnmap_l.Vulnmap.Issue.{Issue}
use khulnasoft_lab_vulnmap_l.UploadBatch.{BundleFile, UploadBatch, has_content, group_in_batches}

-- A value or an error.
pub data Answer (A : Type 0) : Type 0 where
  failed : Text → Answer A
  answered : A → Answer A

-- `AnalysisStatus`
pub record AnalysisStatus : Type 0 where
  pub message : Text
  pub percentage : ℕ

-- `AnalysisOptions`; the severity is always 0
pub record AnalysisOptions : Type 0 where
  pub bundle_hash : Text
  pub shard_key : Text
  pub limit_to_files : List Text

-- `FiltersResponse`
pub record Filters : Type 0 where
  pub extensions : List Text
  pub config_files : List Text

-- The text of a cancelled context's error.
abbrev pub cancellation : Text
cancellation = codes "context canceled"

-- The surroundings in a state `W`.
pub record World (W : Type 0) : Type 0 where
  -- `ctx.Err() != nil`
  pub cancelled : W → Bool
  -- `time.Now()`, in nanoseconds, and `time.Sleep(1 * time.Second)`
  pub now : W → ℕ
  pub sleep : W → W
  -- `os.ReadFile`
  pub read_file : W → Text → Option Text
  -- the methods of `VulnmapCodeClient` that the scan calls; the second and the third return the
  -- bundle's hash and the files that the backend misses
  pub get_filters : W → W × Answer Filters
  pub create_bundle : TextMap Text → W → W × Answer (Text × List Text)
  pub extend_bundle : Text → TextMap BundleFile → W → W × Answer (Text × List Text)
  pub run_analysis : AnalysisOptions → Text → W → W × Answer (List Issue × AnalysisStatus)

pub record Bundle : Type 0 where
  pub bundle_hash : Text
  pub upload_batches : List UploadBatch
  pub files : TextMap BundleFile
  pub missing_files : List Text
  pub limit_to_files : List Text
  pub root_path : Text

-- A value is passed to the rest, and an error ends the work.
abbrev pub after : {W A R : Type 0} → W × Answer A → (A → W → R) → (W → Text → R) → R
after (w, failed e) continue stop = stop w e
after (w, answered a) continue stop = continue a w

-- The check for a round without batches.
abbrev pub or_stop : {R : Type 0} → List UploadBatch → R → R → R
or_stop [] stop go = stop
or_stop (batch ∷ batches) stop go = go

-- What `extendBundle` assigns, and `Upload` of the bundle: the batch is appended if there was no error.
unfoldable pub after_extension : UploadBatch → Bundle → Answer (Text × List Text) → Answer Bundle
after_extension batch b (failed e) = failed e
after_extension batch b (answered (hash, missing)) = answered (record b {
  bundle_hash = hash;
  missing_files = missing;
  upload_batches = b.upload_batches ++ (batch ∷ []);
})

module _ {W : Type 0} (x : World W) where
  -- `extendBundle` and `Upload` of the bundle. An empty batch is not sent.
  unfoldable pub upload_batch : UploadBatch → Bundle → W → W × Answer Bundle
  unfolding after_extension
  upload_batch batch b w =
      if has_content batch
      then (
        (x.extend_bundle b.bundle_hash batch.documents w).0,
        after_extension batch b (x.extend_bundle b.bundle_hash batch.documents w).1,
      )
      else (w, answered (record b { upload_batches = b.upload_batches ++ (batch ∷ []) }))

  -- The inner loop of `Upload`: the batches of one round.
  unfoldable pub upload_round : List UploadBatch → Bundle → W → W × Answer Bundle
  unfolding upload_batch
  upload_round [] b w = (w, answered b)
  upload_round (batch ∷ batches) b w = elim (x.cancelled w) [
    | true ↦ (w, failed cancellation)
    | false ↦ after (upload_batch batch b w) (upload_round batches) (λ w' e. (w', failed e))
  ]

  -- `Upload` of the uploader, its outer loop on fuel: `none` means that the fuel ran out.
  unfoldable pub upload : TextMap BundleFile → ℕ → Bundle → W → Option (W × Answer Bundle)
  unfolding upload_round group_in_batches
  upload files zero b w = none
  upload files (suc fuel) b w = elim b.missing_files [
    | [] ↦ some (w, answered b)
    | path ∷ paths ↦ or_stop (group_in_batches files (path ∷ paths)) (some (w, answered b)) (
        after (upload_round (group_in_batches files (path ∷ paths)) b w) (upload files fuel)
          (λ w' e. some (w', failed e)))
  ]
