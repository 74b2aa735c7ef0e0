-- ===== src/Progress/Tests.antt =====
-- A tracker that begins, reports and ends, and an instance of the theorem about it.
use khulnasoft_lab_vulnmap_l.Prelude.{
  ◌≤◌, codes, true, false, ◌≡◌, refl, List, [], ◌∷◌, none, some, arith,
}
use khulnasoft_lab_vulnmap_l.Progress.{
  Tracker, ProgressMessage, new_tracker, end_with_message, TrackerCall, begins, reports, ends,
  perform, perform_all,
}
use khulnasoft_lab_vulnmap_l.Progress.Reports.{reported, Ascends, ends_of, perform_all-Ascends}

-- The second report comes too early, the third does not advance.
abbrev calls : List TrackerCall
calls =
    begins (codes "id") 5000000000 (codes "Scanning") [] false
    ∷ reports 7000000000 7000000001 10 (codes "a")
    ∷ reports 7500000000 7500000001 20 (codes "b")
    ∷ reports 9000000000 9000000001 10 (codes "c")
    ∷ reports 9500000000 9500000001 30 (codes "d")
    ∷ ends (codes "done")
    ∷ []

once : ends_of calls ≤ 1
once = omega arith

ended_twice_panics : perform_all (ends [] ∷ ends [] ∷ []) (new_tracker true) ≡ none
unfolding perform_all perform end_with_message new_tracker
ended_twice_panics = refl

perform_all-Ascends_example :
    (t : Tracker) × (sent : List ProgressMessage) × (perform_all calls (new_tracker true)
      ≡ some (t, sent))
    × Ascends 0 (reported sent)
perform_all-Ascends_example = perform_all-Ascends true calls once
