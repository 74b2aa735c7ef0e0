-- ===== src/OssScan/Errors.antt =====
-- Which runs of the command line tool fail a scan, and what is told of them.
use khulnasoft_lab_vulnmap_l.Prelude.{
  ◌==◌, Text, Bool, true, false, ◌≡◌, refl, ap, ◌∙◌, List, [], ◌∷◌, Option, none, some, All, arith,
  not, ◌&&◌,
}
use khulnasoft_lab_vulnmap_l.OssScan.{
  OssEvent, oss_analysis_ready, CliError, exit_error, signal_error, other_error, handle_cli_error,
}
use khulnasoft_lab_vulnmap_l.OssScan.Lifecycle.{
  OssPhase, retrieved, returned, found_issues, scan_error, OssWorld, retrieve_analysis_of, analyze,
  after_verdict, receive, work_dir,
}

-- The runs that fail a scan: every error but the exit code 1, which says that there are issues.
abbrev pub is_failure : Option CliError → Bool
is_failure none = false
is_failure (some (exit_error code stderr text)) = not (code == 1)
is_failure (some (signal_error stderr text)) = true
is_failure (some (other_error text is_canceled)) = true

-- The failures that nobody is told of: no supported project, and a cancellation.
abbrev pub is_silent : Option CliError → Bool
is_silent none = false
is_silent (some (exit_error code stderr text)) = code == 3
is_silent (some (signal_error stderr text)) = false
is_silent (some (other_error text is_canceled)) = is_canceled

abbrev pub has_failed : OssPhase → Bool
has_failed (returned (scan_error e)) = true
has_failed _ = false

abbrev pub is_told : List OssEvent → Bool
is_told [] = false
is_told (e ∷ es) = true

verdict-failure :
    (path output : Text) (cmd : List Text) (err : CliError)
    → (handle_cli_error path err output cmd).0 ≡ is_failure (some err)
unfolding handle_cli_error
verdict-failure path output cmd (exit_error code stderr text) = ground arith
verdict-failure path output cmd (signal_error stderr text) = refl
verdict-failure path output cmd (other_error text true) = refl
verdict-failure path output cmd (other_error text false) = refl

verdict-silent :
    (path output : Text) (cmd : List Text) (err : CliError)
    → is_failure (some err) ≡ true
    → is_told (handle_cli_error path err output cmd).1 ≡ not (is_silent (some err))
unfolding handle_cli_error
verdict-silent path output cmd (exit_error code stderr text) e = ground arith
verdict-silent path output cmd (signal_error stderr text) e = refl
verdict-silent path output cmd (other_error text true) e = refl
verdict-silent path output cmd (other_error text false) e = refl

-- No error is told.
abbrev pub IsQuiet : List OssEvent → Type 0
IsQuiet es = All (λ e. e ≡ oss_analysis_ready) es

abbrev pub HasNoIssues : OssPhase → Type 0
HasNoIssues (retrieved none) = Unit
HasNoIssues (returned (found_issues (some []))) = Unit
HasNoIssues _ = ⊥

module _ {R : Type 0} (x : OssWorld R) where
  analyze-failed : (c : Bool) (path output : Text) → has_failed (analyze x c path output).0 ≡ false
  unfolding analyze
  analyze-failed c path output = refl

  after_verdict-failed :
      (m : Bool) (path output : Text) (err : CliError) (fails : Bool) (told : List OssEvent)
      → (has_failed (after_verdict x m path output err (fails, told)).0 ≡ fails)
        × (fails ≡ true → (after_verdict x m path output err (fails, told)).1 ≡ told)
  unfolding after_verdict
  after_verdict-failed m path output err true told = (refl, λ e. refl)
  after_verdict-failed m path output err false told = (analyze-failed m path output, λ e. cc e)

  receive-failure :
      (m : Bool) (path output : Text) (err : Option CliError)
      → (has_failed (receive x false m path output err).0 ≡ is_failure err)
        × (is_failure err ≡ true
            → is_told (receive x false m path output err).1 ≡ not (is_silent err))
  unfolding receive
  receive-failure m path output none = (analyze-failed m path output, λ e. cc e)
  receive-failure m path output (some err) =
      let cmd : List Text = x.scan_command (work_dir x path ∷ []) in
      let v : Bool × List OssEvent = handle_cli_error (x.absolute path) err output cmd in
      (
        (after_verdict-failed m path output err v.0 v.1).0
            ∙ verdict-failure (x.absolute path) output cmd err,
        λ e.
            ap is_told (
              (after_verdict-failed m path output err v.0 v.1).1
                (verdict-failure (x.absolute path) output cmd err ∙ e))
            ∙ verdict-silent (x.absolute path) output cmd err e,
      )

  receive_cancelled :
      (m : Bool) (path output : Text) (err : Option CliError)
      → HasNoIssues (receive x true m path output err).0
        × IsQuiet (receive x true m path output err).1
  unfolding receive analyze retrieve_analysis_of
  receive_cancelled m path output none = (tt, (refl, tt))
  receive_cancelled m path output (some err) = (tt, tt)

  cancelled-failed :
      (m : Bool) (path output : Text) (err : Option CliError)
      → has_failed (receive x true m path output err).0 ≡ false
  unfolding receive analyze
  cancelled-failed m path output none = refl
  cancelled-failed m path output (some err) = refl

  -- A verdict that is no failure tells nothing.
  verdict-IsQuiet :
      (path output : Text) (cmd : List Text) (err : CliError)
      → is_failure (some err) ≡ false
      → handle_cli_error path err output cmd ≡ (false, [])
  unfolding handle_cli_error
  verdict-IsQuiet path output cmd (exit_error code stderr text) e = ground arith
  verdict-IsQuiet path output cmd (signal_error stderr text) e = cc e
  verdict-IsQuiet path output cmd (other_error text true) e = cc e
  verdict-IsQuiet path output cmd (other_error text false) e = cc e

  receive_late :
      (path output : Text) (err : Option CliError)
      → is_failure err ≡ false
      → HasNoIssues (receive x false true path output err).0
        × IsQuiet (receive x false true path output err).1
  unfolding receive analyze retrieve_analysis_of after_verdict
  receive_late path output none e = (tt, (refl, tt))
  receive_late path output (some err) e =
      rw (verdict-IsQuiet (x.absolute path) output (x.scan_command (work_dir x path ∷ [])) err e)
        (tt, (refl, tt))

  -- What a scan makes of the tool's answer. A scan that is cancelled when the tool ends has no issues
  -- and no error, and no error is told. Any other scan fails exactly for the tool's errors but the
  -- exit code 1, and of a failure something is told unless the exit code is 3 or the error a
  -- cancellation; if it does not fail but is cancelled before the output is read, it has no issues,
  -- and no error is told.
  pub receive-outcome :
      (is_cancelled meanwhile : Bool) (path output : Text) (err : Option CliError)
      → (has_failed (receive x is_cancelled meanwhile path output err).0
          ≡ not is_cancelled && is_failure err)
        × (is_cancelled ≡ true
            → HasNoIssues (receive x is_cancelled meanwhile path output err).0
              × IsQuiet (receive x is_cancelled meanwhile path output err).1)
        × (is_cancelled ≡ false
            → is_failure err ≡ true
            → is_told (receive x is_cancelled meanwhile path output err).1 ≡ not (is_silent err))
        × (is_failure err ≡ false
            → meanwhile ≡ true
            → HasNoIssues (receive x is_cancelled meanwhile path output err).0
              × IsQuiet (receive x is_cancelled meanwhile path output err).1)
  receive-outcome false m path output err = (
    (receive-failure m path output err).0,
    λ e. cc e,
    λ e f. (receive-failure m path output err).1 f,
    λ f e. rw e (receive_late path output err f),
  )
  receive-outcome true m path output err = (
    cancelled-failed m path output err,
    λ e. receive_cancelled m path output err,
    λ e. cc e,
    λ f e. receive_cancelled m path output err,
  )
