-- ===== src/CodeBundle/Analysis.antt =====
-- infrastructure/code/bundle.go, `FetchDiagnosticsData` and `retrieveAnalysis`: the loop that asks the
-- backend for the analysis of a bundle. The loop runs on fuel.
pub mod Outcome
use khulnasoft_lab_vulnmap_l.Prelude.{
  ℕ, zero, suc, ◌-◌, ltb, Text, text_eq, codes, Bool, true, false, List, [], ◌∷◌, ◌++◌, Option,
  none, some, if◌then◌else◌,
}
use khulnasoft_lab_vulnmap_l.Vulnmap.Issue.{Issue}
use khulnasoft_lab_vulnmap_l.CodeBundle.{
  World, Bundle, Answer, failed, answered, AnalysisStatus, AnalysisOptions,
}
use khulnasoft_lab_vulnmap_l.CodeBundle.Actions.{ActionSource, add_issue_actions}

-- What a scan tells the client and the error reporter.
pub data ScanEvent : Type 0 where
  -- `BeginWithMessage`, `Report` and `EndWithMessage` of the tracker
  tracker_begun : Text → Text → ScanEvent
  tracker_reported : ℕ → ScanEvent
  tracker_ended : Text → ScanEvent
  -- `CaptureErrorAndReportAsIssue`
  error_captured : Text → Text → ScanEvent
  -- `AnalysisIsReady` of the analytics: the success, and the number of files; the duration is left out
  analysis_is_ready : Bool → ℕ → ScanEvent

pub record AnalysisSettings : Type 0 where
  -- `VulnmapCodeAnalysisTimeout`, in nanoseconds
  pub timeout : ℕ
  pub token : Text
  -- `util.Hash`
  pub hash : Text → Text
  pub actions : ActionSource

-- `getShardKey`
unfoldable pub get_shard_key : (Text → Text) → Text → Text → Text
get_shard_key hash (c ∷ root_path) auth_token = hash (c ∷ root_path)
get_shard_key hash [] (c ∷ auth_token) = hash (c ∷ auth_token)
get_shard_key hash [] [] = []

abbrev pub timed_out : Text
timed_out = codes "analysis call timed out"

-- Where a retrieval stands: the surroundings, what was told, and the answer.
abbrev pub Retrieval : Type 0 → Type 0
Retrieval W = W × List ScanEvent × Answer (List Issue)

abbrev pub tell : {W : Type 0} → ScanEvent → Option (Retrieval W) → Option (Retrieval W)
tell event none = none
tell event (some (w, events, answer)) = some (w, event ∷ events, answer)

module _ {W : Type 0} (x : World W) (settings : AnalysisSettings) (root_path : Text) where
  -- The end of a retrieval that fails: the error is captured, and the tracker ended.
  unfoldable pub fail_analysis : Text → Text → W → Option (Retrieval W)
  fail_analysis err message w =
      some (w, error_captured root_path err ∷ tracker_ended message ∷ [], failed err)

  -- The rest of the loop's body, after the backend's answer.
  unfoldable pub judge :
      (W → Option (Retrieval W))
      → ℕ
      → W × Answer (List Issue × AnalysisStatus)
      → Option (Retrieval W)
  unfolding fail_analysis add_issue_actions text_eq
  judge poll start (w, failed e) = fail_analysis e (codes "Analysis failed: " ++ e) w
  judge poll start (w, answered (issues, status)) =
      elim (text_eq status.message (codes "COMPLETE")) [
        | true ↦ some (
          w,
          tracker_ended (codes "Analysis complete.") ∷ [],
          answered (add_issue_actions settings.actions issues),
        )
        | false ↦ elim (ltb settings.timeout (x.now w - start)) [
          | true ↦ fail_analysis timed_out (codes "Vulnmap Code Analysis timed out") w
          | false ↦ tell (tracker_reported status.percentage) (poll (x.sleep w))
        ]
      ]

  -- The loop; `none` means that the fuel ran out.
  unfoldable pub poll_analysis : ℕ → AnalysisOptions → ℕ → W → Option (Retrieval W)
  unfolding judge
  poll_analysis zero options start w = none
  poll_analysis (suc fuel) options start w = elim (x.cancelled w) [
    | true ↦ some (w, [], answered [])
    | false ↦ judge (poll_analysis fuel options start) start (x.run_analysis options root_path w)
  ]

  abbrev pub analysis_options : Bundle → AnalysisOptions
  analysis_options b = record {
    bundle_hash = b.bundle_hash;
    shard_key = get_shard_key settings.hash root_path settings.token;
    limit_to_files = b.limit_to_files;
  }

-- `retrieveAnalysis`
unfoldable pub retrieve_analysis :
    {W : Type 0} → World W → AnalysisSettings → ℕ → Bundle → W → Option (Retrieval W)
unfolding poll_analysis get_shard_key
retrieve_analysis x settings fuel b w = elim b.bundle_hash [
  | [] ↦ some (w, [], answered [])
  | c ∷ hash ↦
      tell
        (tracker_begun (codes "Vulnmap Code analysis for " ++ b.root_path)
          (codes "Retrieving results..."))
        (poll_analysis x settings b.root_path fuel (analysis_options x settings b.root_path b)
          (x.now w) w)
]
