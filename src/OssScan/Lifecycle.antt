-- ===== src/OssScan/Lifecycle.antt =====
-- infrastructure/oss/cli_scanner.go, `Scan` and `scanInternal`, with the `ScanProgress` of
-- internal/scans/scan_progress.go, as a step relation on any number of calls.
use khulnasoft_lab_vulnmap_l.Prelude.Maps.{TextMap, lookup, store}
use khulnasoft_lab_vulnmap_l.Prelude.{
  ℕ, suc, Text, Bool, true, false, not, ◌≡◌, ◌||◌, ◌&&◌, List, [], ◌∷◌, ◌++◌, Option, none, some,
  if◌then◌else◌,
}
use khulnasoft_lab_vulnmap_l.Vulnmap.Issue.{Issue}
use khulnasoft_lab_vulnmap_l.PathEncoding.{join_two}
use khulnasoft_lab_vulnmap_l.CodeBundle.{Answer, failed, answered}
use khulnasoft_lab_vulnmap_l.CodeBundle.Creation.{is_member, path_base}
use khulnasoft_lab_vulnmap_l.CodeScan.{update}
use khulnasoft_lab_vulnmap_l.OssScan.{
  supported_files, OssEvent, oss_error_captured, oss_analysis_ready, refresh_scheduled, CliError,
  CliResult, error_text, handle_cli_error, path_dir, determine_target_file,
}

-- What a call returns: issues, where `none` is the nil slice, or an error.
pub data OssAnswer : Type 0 where
  found_issues : Option (List Issue) → OssAnswer
  scan_error : Text → OssAnswer

-- Where a call of `Scan` stands.
pub data OssPhase : Type 0 where
  arrived ready executing : OssPhase
  retrieved : Option (List Issue) → OssPhase
  returned : OssAnswer → OssPhase

-- A call, with its `ScanProgress` and its context. `is_signalled`: the listener has the signal, and is
-- about to cancel the context.
pub record OssProcess : Type 0 where
  pub phase : OssPhase
  pub is_done : Bool
  pub is_signalled : Bool
  pub is_cancelled : Bool

pub record OssScanner : Type 0 where
  pub running_scans : TextMap ℕ
  pub scan_count : ℕ
  pub process : ℕ → OssProcess
  pub events : List OssEvent

-- `NewCLIScanner`, with calls that have not begun.
abbrev pub new_cli_scanner : OssScanner
new_cli_scanner = record {
  running_scans = [];
  scan_count = 1;
  process =
      λ n. record { phase = arrived; is_done = false; is_signalled = false; is_cancelled = false };
  events = [];
}

abbrev pub put_process : ℕ → OssProcess → OssScanner → OssScanner
put_process n p s = record s { process = update n p s.process }

abbrev pub set_phase : ℕ → OssPhase → OssScanner → OssScanner
set_phase n ph s = put_process n (record (s.process n) { phase = ph }) s

-- What the calls find around them: the directories, the absolute path, the files, the JSON of the
-- tool with the target file of each result, the conversion of a result, and the scan command.
pub record OssWorld (R : Type 0) : Type 0 where
  pub is_directory : Text → Bool
  pub absolute : Text → Text
  pub read_file : Text → Option Text
  pub unmarshal : Text → Answer (List R)
  pub display_target_file : R → Text
  pub convert : R → Text → Text → List Issue
  pub scan_command : List Text → List Text

module _ {R : Type 0} (x : OssWorld R) where
  -- `isSupported`
  unfoldable pub is_scannable : Text → Bool
  unfolding is_member path_base
  is_scannable path = x.is_directory path || is_member (path_base path) supported_files

  -- `workDir`
  unfoldable pub work_dir : Text → Text
  unfolding path_dir
  work_dir path =
      if x.is_directory (x.absolute path) then x.absolute path else path_dir (x.absolute path)

  abbrev pub content_of : Option Text → Text
  content_of none = []
  content_of (some content) = content

  abbrev pub target_path : Text → Text → Text → Text
  target_path path dir [] = path
  target_path path dir (c ∷ target_file) = join_two dir (c ∷ target_file)

  -- The loop of `unmarshallAndRetrieveAnalysis`.
  unfoldable pub retrieve_all : Text → Text → List R → List Issue
  unfolding determine_target_file join_two
  retrieve_all path dir [] = []
  retrieve_all path dir (r ∷ results) =
      x.convert r (target_path path dir (determine_target_file (x.display_target_file r))) (
        content_of
          (x.read_file (target_path path dir (determine_target_file (x.display_target_file r)))))
      ++ retrieve_all path dir results

  -- A slice that was appended to stays nil while it is empty.
  abbrev pub appended : List Issue → Option (List Issue)
  appended [] = none
  appended (i ∷ issues) = some (i ∷ issues)

  -- `unmarshallAndRetrieveAnalysis`, with its context's state.
  unfoldable pub retrieve_analysis_of :
      Bool → Text → Text → Answer (List R) → Option (List Issue) × List OssEvent
  unfolding retrieve_all
  retrieve_analysis_of true path dir results = (none, [])
  retrieve_analysis_of false path dir (failed e) = (none, oss_error_captured path e ∷ [])
  retrieve_analysis_of false path dir (answered results) =
      (appended (retrieve_all path dir results), [])

  -- After `Execute` and the error handling: the analysis, and the success for the analytics.
  unfoldable pub analyze : Bool → Text → Text → OssPhase × List OssEvent
  unfolding retrieve_analysis_of
  analyze is_cancelled path output =
      let (issues, told) =
        retrieve_analysis_of is_cancelled (x.absolute path) (work_dir path) (x.unmarshal output) in
      (retrieved issues, told ++ (oss_analysis_ready ∷ []))

  -- The verdict of `handleError`, and what follows it.
  unfoldable pub after_verdict :
      Bool → Text → Text → CliError → Bool × List OssEvent → OssPhase × List OssEvent
  unfolding analyze
  after_verdict is_cancelled path output err (true, told) =
      (returned (scan_error (error_text err)), told)
  after_verdict is_cancelled path output err (false, told) =
      ((analyze is_cancelled path output).0, told ++ (analyze is_cancelled path output).1)

  -- From `Execute` to `trackResult`. The context is asked twice: after the tool has ended, and, where
  -- the scan goes on, before the tool's output is read; `meanwhile` says that it was cancelled between.
  unfoldable pub receive : Bool → Bool → Text → Text → Option CliError → OssPhase × List OssEvent
  unfolding after_verdict handle_cli_error
  receive is_cancelled meanwhile path output none = analyze (is_cancelled || meanwhile) path output
  receive true meanwhile path output (some err) = (returned (found_issues (some [])), [])
  receive false meanwhile path output (some err) =
      after_verdict meanwhile path output err
        (handle_cli_error (x.absolute path) err output (x.scan_command (work_dir path ∷ [])))

  module _ (request : ℕ → Text) where
    -- `Scan` and the start of `scanInternal`.
    unfoldable pub begin_oss_scan : ℕ → OssScanner → OssScanner
    unfolding is_scannable
    begin_oss_scan n s =
        if is_scannable (request n) && not (s.process n).is_cancelled
        then set_phase n ready s
        else set_phase n (returned (found_issues none)) s

    -- `CancelScan` of the scan that the map holds, unless it is done.
    unfoldable pub cancel_previous : Option ℕ → OssScanner → OssScanner
    cancel_previous none s = s
    cancel_previous (some m) s =
        if (s.process m).is_done
        then s
        else put_process m (record (s.process m) { is_done = true; is_signalled = true }) s

    -- The section that locks `mutex`, with `NewScanProgress`.
    unfoldable pub register_oss_scan : ℕ → OssScanner → OssScanner
    unfolding cancel_previous work_dir lookup store
    register_oss_scan n s =
        put_process n
          (record (s.process n) { phase = executing; is_done = false; is_signalled = false })
          (record (cancel_previous (lookup (work_dir (request n)) s.running_scans) s) {
            running_scans = store (work_dir (request n)) n s.running_scans;
            scan_count = suc s.scan_count;
          })

    -- The command line tool answers.
    unfoldable pub receive_result : ℕ → Bool → CliResult → OssScanner → OssScanner
    unfolding receive
    receive_result n meanwhile result s =
        let (ph, told) =
          receive (s.process n).is_cancelled meanwhile (request n) result.output result.error in
        record (set_phase n ph s) { events = s.events ++ told }

    abbrev pub refresh_events : Text → Option (List Issue) → List OssEvent
    refresh_events path none = []
    refresh_events path (some issues) = refresh_scheduled path ∷ []

    -- `SetDone`, and the end of `scanInternal`.
    unfoldable pub finish_oss_scan : ℕ → Option (List Issue) → OssScanner → OssScanner
    finish_oss_scan n issues s =
        record (put_process n
          (record (s.process n) { phase = returned (found_issues issues); is_done = true }) s) {
            events = s.events ++ refresh_events (x.absolute (request n)) issues;
          }

    -- The context ends: by the listener that has the signal, or by the client.
    unfoldable pub cancel_context : ℕ → OssScanner → OssScanner
    cancel_context n s = put_process n (record (s.process n) { is_cancelled = true }) s

    pub data OssStep (s : OssScanner) : OssScanner → Type 0 where
      begins : (n : ℕ) → (s.process n).phase ≡ arrived → OssStep s (begin_oss_scan n s)
      registers : (n : ℕ) → (s.process n).phase ≡ ready → OssStep s (register_oss_scan n s)
      receives :
          (n : ℕ) (meanwhile : Bool) (result : CliResult)
          → (s.process n).phase ≡ executing
          → OssStep s (receive_result n meanwhile result s)
      finishes :
          (n : ℕ) (issues : Option (List Issue))
          → (s.process n).phase ≡ retrieved issues
          → OssStep s (finish_oss_scan n issues s)
      cancels : (n : ℕ) → OssStep s (cancel_context n s)

    pub data OssReach : OssScanner → Type 0 where
      start : OssReach new_cli_scanner
      later : {s t : OssScanner} → OssReach s → OssStep s t → OssReach t
