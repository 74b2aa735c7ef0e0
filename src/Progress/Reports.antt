-- ===== src/Progress/Reports.antt =====
-- What a tracker reports.
use mathlib.Core.Path.{subst}
use khulnasoft_lab_vulnmap_l.Prelude.{
  ℕ, suc, ◌+◌, ◌≤◌, ◌<◌, ltb, leb, Text, Bool, true, false, ◌||◌, ◌≡◌, refl, ap, ◌∙◌, ◌⊎◌, inl, inr,
  List, [], ◌∷◌, ◌++◌, some, arith, Bool-cases,
}
use khulnasoft_lab_vulnmap_l.Progress.{
  Tracker, ProgressMessage, work_done_report, work_done_end, new_tracker, new_progress_params,
  begin_progress, report_with_message, end_with_message, TrackerCall, begins, reports, ends,
  perform, and_send, and_then, one_second, perform_all,
}

-- The percentages of the reports, in order.
abbrev pub reported : List ProgressMessage → List ℕ
reported [] = []
reported (work_done_report token percentage message ∷ sent) = percentage ∷ reported sent
reported (_ ∷ sent) = reported sent

-- Each is greater than the one before it, the first than `low`.
abbrev pub Ascends : ℕ → List ℕ → Type 0
Ascends low [] = Unit {0}
Ascends low (p ∷ ps) = (low < p) × Ascends p ps

abbrev pub ends_of : List TrackerCall → ℕ
ends_of [] = 0
ends_of (ends message ∷ calls) = suc (ends_of calls)
ends_of (_ ∷ calls) = ends_of calls

abbrev ends_left : Bool → ℕ
ends_left true = 0
ends_left false = 1

-- The calls go through, and the reports ascend.
abbrev Succeeds : List TrackerCall → Tracker → Type 0
Succeeds calls t =
    (t' : Tracker) × (sent : List ProgressMessage) × (perform_all calls t ≡ some (t', sent))
    × Ascends t.last_report_percentage (reported sent)

performed :
    (call : TrackerCall) (calls : List TrackerCall) (t t1 t2 : Tracker)
    (sent later : List ProgressMessage)
    → perform call t ≡ some (t1, sent)
    → perform_all calls t1 ≡ some (t2, later)
    → perform_all (call ∷ calls) t ≡ some (t2, sent ++ later)
unfolding perform_all
performed call calls t t1 t2 sent later e f =
    ap (λ o. and_then o (perform_all calls)) e ∙ ap (and_send sent) f

reported_call :
    (now after percentage : ℕ) (message : Text) (t : Tracker)
    → (report_with_message now after percentage message t ≡ (t, []))
      ⊎ ((t.last_report_percentage < percentage)
          × (report_with_message now after percentage message t ≡ (
            record t { last_report = after; last_report_percentage = percentage },
            work_done_report t.token percentage message ∷ [],
          )))
unfolding report_with_message
reported_call now after percentage message t =
    elim (Bool-cases
      (ltb now (t.last_report + one_second) || leb percentage t.last_report_percentage)) [
        | inl dropped ↦ inl (rw dropped refl)
        | inr sent ↦ inr (ground arith, rw sent refl)
      ]

no_end : (n : ℕ) → suc n ≤ 0 → ⊥
no_end n h = omega arith

last_end : (n : ℕ) → suc n ≤ 1 → n ≤ 0
last_end n h = omega arith

perform_all-Succeeds :
    (calls : List TrackerCall) (t : Tracker)
    → ends_of calls ≤ ends_left t.finished
    → Succeeds calls t
unfolding perform begin_progress new_progress_params end_with_message perform_all
perform_all-Succeeds [] t h = (t, [], refl, tt)
perform_all-Succeeds (begins id now title message u ∷ calls) t h =
    let begun : List ProgressMessage = (begin_progress id now title message u t).1 in
    let (t', sent, e, up) =
      perform_all-Succeeds calls (record t { token = id; last_report = now }) h in
    (
      t',
      begun ++ sent,
      performed (begins id now title message u) calls t (record t { token = id; last_report = now })
          t' begun sent refl e,
      up,
    )
perform_all-Succeeds (reports now after percentage message ∷ calls) t h =
    elim (reported_call now after percentage message t) [
      | inl dropped ↦
          let (t', sent, e, up) = perform_all-Succeeds calls t h in
          (
            t',
            sent,
            performed (reports now after percentage message) calls t t t' [] sent (ap some dropped)
                e,
            up,
          )
      | inr (more, kept) ↦
          let (t', sent, e, up) =
            perform_all-Succeeds calls
              (record t { last_report = after; last_report_percentage = percentage }) h in
          (
            t',
            work_done_report t.token percentage message ∷ sent,
            performed (reports now after percentage message) calls t _ t' _ sent (ap some kept) e,
            (more, up),
          )
    ]
perform_all-Succeeds (ends message ∷ calls) t h = elim (Bool-cases t.finished) [
  | inl over ↦
      absurd (no_end (ends_of calls) (subst (λ b. suc (ends_of calls) ≤ ends_left b) over h))
  | inr open_still ↦
      let (t', sent, e, up) =
        perform_all-Succeeds calls (record t { finished = true })
          (last_end (ends_of calls)
            (subst (λ b. suc (ends_of calls) ≤ ends_left b) open_still h)) in
      (
        t',
        work_done_end t.token message ∷ sent,
        performed (ends message) calls t (record t { finished = true }) t'
            (work_done_end t.token message ∷ []) sent (rw open_still refl) e,
        up,
      )
]

-- Whatever a tracker is asked to begin and to report, in any order and at any time, as long as it is
-- ended at most once: no call panics, and the percentages that are reported are all positive and
-- strictly increase from each report to the next.
pub perform_all-Ascends :
    (cancellable : Bool) (calls : List TrackerCall)
    → ends_of calls ≤ 1
    → (t : Tracker) × (sent : List ProgressMessage) × (perform_all calls (new_tracker cancellable)
        ≡ some (t, sent))
      × Ascends 0 (reported sent)
unfolding new_tracker
perform_all-Ascends cancellable calls h = perform_all-Succeeds calls (new_tracker cancellable) h
