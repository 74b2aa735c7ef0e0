-- ===== src/CodeBundle/Scan.antt =====
-- infrastructure/code/code.go, `UploadAndAnalyze`: the phases of a code scan, with its errors. The
-- metrics are the number of files; the trackers of the upload and of the collection are left out. The
-- loops run on fuel, and `none` means that one ran out.
pub mod Ends
use khulnasoft_lab_vulnmap_l.Prelude.Maps.{TextMap}
use khulnasoft_lab_vulnmap_l.Prelude.{
  ℕ, Text, codes, Bool, true, false, List, [], ◌∷◌, ◌++◌, Option, none, some, length,
}
use khulnasoft_lab_vulnmap_l.Vulnmap.Issue.{Issue}
use khulnasoft_lab_vulnmap_l.CodeBundle.{World, Bundle, Answer, failed, answered, upload}
use khulnasoft_lab_vulnmap_l.CodeBundle.Analysis.{
  ScanEvent, error_captured, analysis_is_ready, AnalysisSettings, Retrieval, retrieve_analysis,
}
use khulnasoft_lab_vulnmap_l.CodeBundle.Creation.{
  CodeScanState, Creation, no_files_to_scan, creation_failed, created, create_bundle,
}

abbrev pub is_success : Answer (List Issue) → Bool
is_success (failed e) = false
is_success (answered issues) = true

module _ {W : Type 0} where
  -- `trackResult`
  unfoldable pub track_result : Bool → ℕ → CodeScanState W → CodeScanState W
  track_result success file_count s = record s {
    events = s.events ++ (analysis_is_ready success file_count ∷ []);
  }

  -- `handleCreationAndUploadError`, which is called with an error
  unfoldable pub handle_error : Text → Text → Text → ℕ → CodeScanState W → CodeScanState W
  unfolding track_result
  handle_error path err msg file_count s =
      track_result false file_count
        (record s { events = s.events ++ (error_captured path (msg ++ (codes ": " ++ err)) ∷ []) })

-- The number of rounds that the upload is given, and of the analysis' polls.
pub record ScanFuel : Type 0 where
  pub rounds : ℕ
  pub polls : ℕ

module _ {W : Type 0} (x : World W) (settings : AnalysisSettings) (path : Text) where
  -- After `FetchDiagnosticsData`.
  unfoldable pub after_analysis :
      ℕ → CodeScanState W → Option (Retrieval W) → Option (CodeScanState W × Answer (List Issue))
  unfolding track_result
  after_analysis file_count s none = none
  after_analysis file_count s (some (w, events, answer)) = elim (x.cancelled w) [
    | true ↦ some (record s { world = w; events = s.events ++ events }, answered [])
    | false ↦ some (
      track_result (is_success answer) file_count
          (record s { world = w; events = s.events ++ events }),
      answer,
    )
  ]

  -- After `Upload`, with the condition as it stands.
  unfoldable pub after_upload :
      ℕ
      → Bundle
      → CodeScanState W
      → Option (W × Answer Bundle)
      → Option (CodeScanState W × Answer (List Issue))
  unfolding handle_error after_analysis retrieve_analysis
  after_upload polls b s none = none
  after_upload polls b s (some (w, failed e)) = elim (x.cancelled w) [
    | true ↦ some (
      handle_error path e (codes "error uploading files...") (length b.files)
          (record s { world = w }),
      failed e,
    )
    | false ↦ some (record s { world = w }, answered [])
  ]
  after_upload polls b s (some (w, answered b')) = elim b'.bundle_hash [
    | [] ↦ some (record s { world = w }, answered [])
    | c ∷ hash ↦
        after_analysis (length b.files) (record s { world = w })
          (retrieve_analysis x settings polls b' w)
  ]

  -- After `createBundle`.
  unfoldable pub after_creation :
      ScanFuel → CodeScanState W × Creation → Option (CodeScanState W × Answer (List Issue))
  unfolding handle_error after_upload upload
  after_creation fuel (s, no_files_to_scan) = some (s, answered [])
  after_creation fuel (s, creation_failed e) = elim (x.cancelled s.world) [
    | true ↦ some (s, answered [])
    | false ↦ some (handle_error path e (codes "error creating bundle...") 0 s, failed e)
  ]
  after_creation fuel (s, created b) =
      after_upload fuel.polls b s (upload x b.files fuel.rounds b s.world)

  -- `UploadAndAnalyze` of the files and the changed ones among them.
  unfoldable pub upload_and_analyze :
      ScanFuel
      → List Text
      → List Text
      → CodeScanState W
      → Option (CodeScanState W × Answer (List Issue))
  unfolding after_creation create_bundle
  upload_and_analyze fuel files changed_files s = elim (x.cancelled s.world) [
    | true ↦ some (s, answered [])
    | false ↦ after_creation fuel (create_bundle x settings.hash path changed_files files s)
  ]
