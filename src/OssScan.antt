-- ===== src/OssScan.antt =====
-- infrastructure/oss/cli_scanner.go and internal/scans/scan_progress.go: a scan of a directory replaces
-- the one that runs there. Any number of calls of `Scan` run at once; a step is one critical section
-- of a call, what a call does between two, or a signal. A call is known by a number. The command line
-- tool's answer is an argument of the step that receives it, the conversion of its JSON a parameter.
-- The listener of a scan is always there in time, so that the timeouts of `CancelScan` and `SetDone`
-- are left out, and so are the tracker and the refresh scan once its timer has fired.
pub mod Errors
pub mod Lifecycle
pub mod Exclusion
pub mod Listener
pub mod Tests
use khulnasoft_lab_vulnmap_l.Prelude.Maps.{TextMap, lookup, store}
use khulnasoft_lab_vulnmap_l.Prelude.{
  ℕ, ◌+◌, ◌==◌, Text, text_eq, codes, Bool, true, false, not, ◌≡◌, ◌||◌, ◌&&◌, List, [], ◌∷◌, ◌++◌,
  Option, none, some, if◌then◌else◌,
}
use khulnasoft_lab_vulnmap_l.Uri.{clean}
use khulnasoft_lab_vulnmap_l.Vulnmap.Issue.{Issue}
use khulnasoft_lab_vulnmap_l.PathEncoding.{join_two}
use khulnasoft_lab_vulnmap_l.CodeBundle.{Answer, failed, answered}
use khulnasoft_lab_vulnmap_l.CodeBundle.Creation.{is_member, has_slash, path_base}
use khulnasoft_lab_vulnmap_l.CodeScan.{update}

-- `supportedFiles`
abbrev pub supported_files : List Text
supported_files =
    codes "yarn.lock"
    ∷ codes "package-lock.json"
    ∷ codes "package.json"
    ∷ codes "Gemfile"
    ∷ codes "Gemfile.lock"
    ∷ codes "pom.xml"
    ∷ codes "build.gradle"
    ∷ codes "build.gradle.kts"
    ∷ codes "build.sbt"
    ∷ codes "Pipfile"
    ∷ codes "requirements.txt"
    ∷ codes "Gopkg.lock"
    ∷ codes "go.mod"
    ∷ codes "vendor/vendor.json"
    ∷ codes "obj/project.assets.json"
    ∷ codes "project.assets.json"
    ∷ codes "packages.config"
    ∷ codes "paket.dependencies"
    ∷ codes "composer.lock"
    ∷ codes "Podfile"
    ∷ codes "Podfile.lock"
    ∷ codes "poetry.lock"
    ∷ codes "mix.exs"
    ∷ codes "mix.lock"
    ∷ []

-- `lockFilesToManifestMap`
abbrev lock_files_to_manifest : TextMap Text
lock_files_to_manifest =
    (codes "Gemfile.lock", codes "Gemfile")
    ∷ (codes "package-lock.json", codes "package.json")
    ∷ (codes "yarn.lock", codes "package.json")
    ∷ (codes "Gopkg.lock", codes "Gopkg.toml")
    ∷ (codes "go.sum", codes "go.mod")
    ∷ (codes "composer.lock", codes "composer.json")
    ∷ (codes "Podfile.lock", codes "Podfile")
    ∷ (codes "poetry.lock", codes "pyproject.toml")
    ∷ []

-- What a call tells the client, the error reporter and the analytics.
pub data OssEvent : Type 0 where
  -- `CaptureErrorAndReportAsIssue`, `SendErrorDiagnostic`, `AnalysisIsReady`
  oss_error_captured : Text → Text → OssEvent
  error_diagnostic_sent : Text → Text → OssEvent
  oss_analysis_ready : OssEvent
  -- `scheduleRefreshScan`
  refresh_scheduled : Text → OssEvent

-- The error of a run of the tool: an `exec.ExitError` with its exit code, its standard error and its
-- text, or another one, with its text and whether it is `context.Canceled`.
pub data CliError : Type 0 where
  exit_error : ℕ → Text → Text → CliError
  -- an exit error whose code is -1: a signal has ended the process
  signal_error : Text → Text → CliError
  other_error : Text → Bool → CliError

pub record CliResult : Type 0 where
  pub output : Text
  pub error : Option CliError

abbrev pub error_text : CliError → Text
error_text (exit_error code stderr text) = text
error_text (signal_error stderr text) = text
error_text (other_error text is_canceled) = text

-- The print of a slice of strings with `%v`.
unfoldable pub spaced : List Text → Text
spaced [] = []
spaced (t ∷ []) = t
spaced (t ∷ u ∷ ts) = t ++ (codes " " ++ spaced (u ∷ ts))

-- `newError` of `handleError`; its parts are joined by line breaks.
unfoldable pub exit_error_text : List Text → Text → Text → Text → Text
unfolding spaced
exit_error_text cmd output stderr text =
    codes "Vulnmap CLI error returned status code > 0 for command ["
    ++ spaced cmd
    ++ codes "]. Output: "
    ++ output
    ++ (10 ∷ 10 ∷ 10 ∷ [])
    ++ codes "STDERR:"
    ++ (10 ∷ [])
    ++ stderr
    ++ (10 ∷ [])
    ++ text

-- `handleError`: whether the run failed, and what is told.
unfoldable pub handle_cli_error : Text → CliError → Text → List Text → Bool × List OssEvent
unfolding exit_error_text
handle_cli_error path (other_error text true) output cmd = (true, [])
handle_cli_error path (other_error text false) output cmd =
    (true, oss_error_captured path text ∷ [])
handle_cli_error path (signal_error stderr text) output cmd =
    (true, oss_error_captured path (exit_error_text cmd output stderr text) ∷ [])
handle_cli_error path (exit_error code stderr text) output cmd =
    if code == 1
    then (false, [])
    else if code == 2
    then (true, error_diagnostic_sent path (exit_error_text cmd output stderr text) ∷ [])
    else if code == 3
    then (true, [])
    else (true, oss_error_captured path (exit_error_text cmd output stderr text) ∷ [])

-- `filepath.Dir`: up to the last separator, cleaned.
unfoldable pub dir_part : Text → Text
unfolding has_slash
dir_part [] = []
dir_part (c ∷ s) = let rest = dir_part s in if has_slash (c ∷ s) then c ∷ rest else []

unfoldable pub path_dir : Text → Text
unfolding dir_part clean
path_dir path = clean (dir_part path)

-- `determineTargetFile`
unfoldable pub determine_target_file : Text → Text
unfolding lookup
determine_target_file display_target_file =
    elim (lookup display_target_file lock_files_to_manifest) [
      | none ↦ display_target_file
      | some target_file ↦ target_file
    ]

-- `prepareScanCommand`, with the path of the tool, the additional parameters, and the tool's own
-- `ExpandParametersFromConfig`.
unfoldable pub without_empty : List Text → List Text
without_empty [] = []
without_empty ([] ∷ ts) = without_empty ts
without_empty ((c ∷ t) ∷ ts) = (c ∷ t) ∷ without_empty ts

unfoldable pub prepare_scan_command :
    (List Text → List Text) → Text → List Text → List Text → List Text
unfolding without_empty
prepare_scan_command expand cli_path additional args =
    expand (cli_path ∷ codes "test" ∷ [])
    ++ args
    ++ (codes "--json" ∷ [])
    ++ without_empty additional
