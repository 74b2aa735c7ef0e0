-- ===== src/CodeBundle/Analysis/Outcome.antt =====
-- How a retrieval ends: in time, and with what it tells.
use khulnasoft_lab_vulnmap_l.Prelude.{
  ℕ, zero, suc, ◌+◌, ◌-◌, ◌*◌, ◌≤◌, ◌<◌, ltb, Text, text_eq, codes, Bool, true, false, ◌≡◌, refl,
  ◌⊎◌, inl, inr, List, [], ◌∷◌, ◌++◌, Option, none, some, Any, arith,
}
use khulnasoft_lab_vulnmap_l.Vulnmap.Issue.{Issue}
use khulnasoft_lab_vulnmap_l.Progress.{one_second}
use khulnasoft_lab_vulnmap_l.CodeBundle.{
  World, Bundle, Answer, failed, answered, AnalysisStatus, AnalysisOptions,
}
use khulnasoft_lab_vulnmap_l.CodeBundle.Analysis.{
  ScanEvent, tracker_begun, tracker_reported, tracker_ended, error_captured, AnalysisSettings,
  Retrieval, tell, fail_analysis, timed_out, judge, poll_analysis, analysis_options,
  retrieve_analysis,
}

abbrev pub begun : List ScanEvent → ℕ
begun [] = 0
begun (tracker_begun title message ∷ es) = suc (begun es)
begun (_ ∷ es) = begun es

abbrev pub ended : List ScanEvent → ℕ
ended [] = 0
ended (tracker_ended message ∷ es) = suc (ended es)
ended (_ ∷ es) = ended es

abbrev pub captured : List ScanEvent → ℕ
captured [] = 0
captured (error_captured path err ∷ es) = suc (captured es)
captured (_ ∷ es) = captured es

module _ {W : Type 0} (x : World W) (settings : AnalysisSettings) where
  -- The clock does not go back during a call, and a pause takes a second.
  pub record IsClock : Type 0 where
    pub run_analysis-now :
        (options : AnalysisOptions) (root : Text) (w : W)
        → x.now w ≤ x.now (x.run_analysis options root w).0
    pub sleep-now : (w : W) → x.now w + one_second ≤ x.now (x.sleep w)

  -- A retrieval that returns, with the number of trackers that are open when it begins. A failure is
  -- captured and leaves no tracker open; a success captures nothing and leaves none open, unless it
  -- is the empty answer of a cancelled scan, which leaves one open.
  abbrev pub Concludes : ℕ → Text → Option (Retrieval W) → Type 0
  Concludes pending root none = ⊥
  Concludes pending root (some (w, es, failed e)) =
      Any (λ event. event ≡ error_captured root e) es × (ended es ≡ pending + begun es)
  Concludes pending root (some (w, es, answered issues)) =
      (captured es ≡ 0)
      × ((ended es ≡ pending + begun es)
          ⊎ ((suc (ended es) ≡ pending + begun es) × (issues ≡ []) × (x.cancelled w ≡ true)))

  tell_reported :
      (pending percentage : ℕ) (root : Text) (r : Option (Retrieval W))
      → Concludes pending root r
      → Concludes pending root (tell (tracker_reported percentage) r)
  tell_reported pending percentage root none c = c
  tell_reported pending percentage root (some (w, es, failed e)) c = (inr c.0, c.1)
  tell_reported pending percentage root (some (w, es, answered issues)) c = c

  tell_begun :
      (title message root : Text) (r : Option (Retrieval W))
      → Concludes 1 root r
      → Concludes 0 root (tell (tracker_begun title message) r)
  tell_begun title message root none c = c
  tell_begun title message root (some (w, es, failed e)) c = (inr c.0, omega (arith, c.1))
  tell_begun title message root (some (w, es, answered issues)) (c, inl e) =
      (c, inl (omega (arith, e)))
  tell_begun title message root (some (w, es, answered issues)) (c, inr e) =
      (c, inr (omega (arith, e.0), e.1, e.2))

  fail-Concludes :
      (root err message : Text) (w : W)
      → Concludes 1 root (fail_analysis x settings root err message w)
  unfolding fail_analysis
  fail-Concludes root err message w = (inl refl, refl)

  by_status :
      (root : Text) (complete late : Bool) (complete_end fail go : Option (Retrieval W))
      → Concludes 1 root complete_end
      → Concludes 1 root fail
      → (late ≡ false → Concludes 1 root go)
      → Concludes 1 root
          (elim complete [ true ↦ complete_end | false ↦ elim late [ true ↦ fail | false ↦ go ] ])
  by_status root true late complete_end fail go d f g = d
  by_status root false true complete_end fail go d f g = f
  by_status root false false complete_end fail go d f g = g refl

  judge-Concludes :
      (root : Text) (poll : W → Option (Retrieval W)) (start : ℕ)
      (r : W × Answer (List Issue × AnalysisStatus))
      → (x.now r.0 ≤ start + settings.timeout → Concludes 1 root (poll (x.sleep r.0)))
      → Concludes 1 root (judge x settings root poll start r)
  unfolding judge
  judge-Concludes root poll start (w, failed e) later = fail-Concludes root _ _ w
  judge-Concludes root poll start (w, answered (issues, status)) later =
      by_status root (text_eq status.message (codes "COMPLETE"))
        (ltb settings.timeout (x.now w - start)) _ _ _ (refl, inl refl)
        (fail-Concludes root timed_out (codes "Vulnmap Code Analysis timed out") w)
        (λ early.
          tell_reported 1 status.percentage root (poll (x.sleep w)) (later (ground (arith, early))))

  running :
      (root : Text) (c : Bool) (w : W) (go : Option (Retrieval W))
      → x.cancelled w ≡ c
      → Concludes 1 root go
      → Concludes 1 root (elim c [ true ↦ some (w, [], answered []) | false ↦ go ])
  running root true w go e h = (refl, inr (refl, refl, e))
  running root false w go e h = h

  poll-Concludes :
      IsClock
      → (root : Text) (options : AnalysisOptions) (start n : ℕ) (w : W)
      → start + settings.timeout < x.now w + n * one_second
      → Concludes 1 root (poll_analysis x settings root (suc n) options start w)
  unfolding poll_analysis
  poll-Concludes clock root options start zero w enough = running root (x.cancelled w) w _ refl (
      judge-Concludes root (poll_analysis x settings root 0 options start) start
        (x.run_analysis options root w)
        (λ early. absurd (omega (arith, early, enough, clock.run_analysis-now options root w))))
  poll-Concludes clock root options start (suc n) w enough = running root (x.cancelled w) w _ refl (
      judge-Concludes root (poll_analysis x settings root (suc n) options start) start
        (x.run_analysis options root w)
        (λ early.
          poll-Concludes clock root options start n (x.sleep (x.run_analysis options root w).0) (
            omega (
              arith,
              enough,
              clock.run_analysis-now options root w,
              clock.sleep-now (x.run_analysis options root w).0,
            ))))

  -- If calls do not turn the clock back and a pause takes a second, then the loop ends once it is
  -- given more rounds than the timeout has seconds. If it fails, the error was captured and every
  -- tracker begun was ended; if it succeeds, nothing was captured and every tracker was ended, or the
  -- scan was cancelled, in which case the answer is empty and the tracker stays open.
  pub retrieve_analysis-Concludes :
      IsClock
      → (n : ℕ) (b : Bundle) (w : W) → settings.timeout < n * one_second
      → Concludes 0 b.root_path (retrieve_analysis x settings (suc n) b w)
  unfolding retrieve_analysis
  retrieve_analysis-Concludes clock n b w enough =
      by_hash b.bundle_hash
        (poll_analysis x settings b.root_path (suc n) (analysis_options x settings b.root_path b)
          (x.now w) w)
        (poll-Concludes clock b.root_path (analysis_options x settings b.root_path b) (x.now w) n w
          (omega (arith, enough)))
    where
      by_hash :
          (hash : Text) (r : Option (Retrieval W))
          → Concludes 1 b.root_path r
          → Concludes 0 b.root_path (elim hash [
            | [] ↦ some (w, [], answered [])
            | c ∷ hash' ↦
                tell
                  (tracker_begun
                    (codes "Vulnmap Code analysis for " ++ b.root_path)
                    (codes "Retrieving results..."))
                  r
          ])
      by_hash [] r h = (refl, inl refl)
      by_hash (c ∷ hash') r h = tell_begun _ _ b.root_path r h
