-- ===== src/Progress.antt =====
-- internal/progress/progress.go: the tracker of one piece of work. Times are nanoseconds, percentages
-- natural numbers; a call has the times at which it looks at the clock, and the UUID that it makes.
pub mod Reports
pub mod Tests
use khulnasoft_lab_vulnmap_l.Prelude.{
  ℕ, suc, ◌+◌, ltb, leb, Text, Bool, true, false, ◌||◌, List, [], ◌∷◌, ◌++◌, Option, none, some,
  if◌then◌else◌,
}

pub record Tracker : Type 0 where
  pub token : Text
  pub cancellable : Bool
  pub last_report : ℕ
  pub last_report_percentage : ℕ
  pub finished : Bool

-- `lsp.ProgressParams` with its token and its value
pub data ProgressMessage : Type 0 where
  no_value : Text → ProgressMessage
  work_done_begin : Text → Text → Text → Bool → ℕ → ProgressMessage
  work_done_report : Text → ℕ → Text → ProgressMessage
  work_done_end : Text → Text → ProgressMessage

-- `NewTracker`
unfoldable pub new_tracker : Bool → Tracker
new_tracker cancellable = record {
  token = [];
  cancellable = cancellable;
  last_report = 0;
  last_report_percentage = 0;
  finished = false;
}

-- `newProgressParams`
unfoldable pub new_progress_params : Text → Text → Text → Bool → Bool → ProgressMessage
new_progress_params id title message cancellable unquantifiable_length =
    work_done_begin id title message cancellable (if unquantifiable_length then 0 else 1)

-- `begin`
unfoldable pub begin_progress :
    Text → ℕ → Text → Text → Bool → Tracker → Tracker × List ProgressMessage
unfolding new_progress_params
begin_progress id now title message unquantifiable_length t = (
  record t { token = id; last_report = now },
  no_value id ∷ new_progress_params id title message t.cancellable unquantifiable_length ∷ [],
)

abbrev pub one_second : ℕ
one_second = 1000000000

-- `ReportWithMessage`
unfoldable pub report_with_message : ℕ → ℕ → ℕ → Text → Tracker → Tracker × List ProgressMessage
report_with_message now after percentage message t =
    if ltb now (t.last_report + one_second) || leb percentage t.last_report_percentage
    then (t, [])
    else (
      record t { last_report = after; last_report_percentage = percentage },
      work_done_report t.token percentage message ∷ [],
    )

-- `EndWithMessage`; `none` is the panic.
unfoldable pub end_with_message : Text → Tracker → Option (Tracker × List ProgressMessage)
end_with_message message t =
    if t.finished
    then none
    else some (record t { finished = true }, work_done_end t.token message ∷ [])

-- The methods of the tracker that send: `Begin` and its siblings, `Report`, `End`.
pub data TrackerCall : Type 0 where
  begins : Text → ℕ → Text → Text → Bool → TrackerCall
  reports : ℕ → ℕ → ℕ → Text → TrackerCall
  ends : Text → TrackerCall

unfoldable pub perform : TrackerCall → Tracker → Option (Tracker × List ProgressMessage)
unfolding begin_progress report_with_message end_with_message
perform (begins id now title message unquantifiable) t =
    some (begin_progress id now title message unquantifiable t)
perform (reports now after percentage message) t =
    some (report_with_message now after percentage message t)
perform (ends message) t = end_with_message message t

abbrev pub and_send :
    List ProgressMessage
    → Option (Tracker × List ProgressMessage)
    → Option (Tracker × List ProgressMessage)
and_send sent none = none
and_send sent (some (t, later)) = some (t, sent ++ later)

abbrev pub and_then :
    Option (Tracker × List ProgressMessage)
    → (Tracker → Option (Tracker × List ProgressMessage))
    → Option (Tracker × List ProgressMessage)
and_then none continue = none
and_then (some (t, sent)) continue = and_send sent (continue t)

-- Calls in turn; a panic ends them.
unfoldable pub perform_all : List TrackerCall → Tracker → Option (Tracker × List ProgressMessage)
unfolding perform
perform_all [] t = some (t, [])
perform_all (call ∷ calls) t = and_then (perform call t) (perform_all calls)
