-- ===== src/CodeScan/Exclusion.antt =====
-- The throttling holds in every state that the calls reach: two scans of a folder never overlap.
use khulnasoft_lab_vulnmap_l.Prelude.Maps.{lookup}
use khulnasoft_lab_vulnmap_l.Prelude.{
  ℕ, Text, Bool, true, false, ◌≡◌, refl, inl, inr, Option, none, some, arith, if◌then◌else◌,
}
use khulnasoft_lab_vulnmap_l.CodeScan.{
  new_scan_status, ScanRequest, arrived, failed, marked, turned_away, ready, waiting, Scanner, put,
  mark_changed, begin_scan, proceed, already_waiting, wait_for, admission, admit, register_scan,
  collect, Step, begins, registers, wakes, collects, finishes, Reach, start, later,
}
use khulnasoft_lab_vulnmap_l.CodeScan.Throttle.{
  status_of, active, folder_of, IsThrottled, new_scanner-IsThrottled, outside-IsThrottled,
  other_changes-IsThrottled, wake-IsThrottled, collected-IsThrottled, finish-IsThrottled,
}
use khulnasoft_lab_vulnmap_l.CodeScan.Throttle.Entry.{entered, entered-IsThrottled}

module _ (is_directory : Text → Bool) (request : ℕ → ScanRequest) where
  begin-IsThrottled :
      (n : ℕ) (s : Scanner)
      → (s.process n).phase ≡ arrived
      → IsThrottled request s
      → IsThrottled request (begin_scan (request n) n s)
  unfolding begin_scan mark_changed
  begin-IsThrottled n s e h = by_answer (request n).sast_enabled
    where
      by_answer :
          (b : Option Bool)
          → IsThrottled request (elim b [
            | none ↦ put n failed new_scan_status s
            | some false ↦ put n failed new_scan_status s
            | some true ↦ mark_changed (request n) n s
          ])
      by_answer none = outside-IsThrottled request n failed s (ground arith) refl h
      by_answer (some false) = outside-IsThrottled request n failed s (ground arith) refl h
      by_answer (some true) =
          outside-IsThrottled request n marked _ (ground arith) refl
            (other_changes-IsThrottled request _ s h)

  register-IsThrottled :
      (n : ℕ) (s : Scanner)
      → (s.process n).phase ≡ marked
      → IsThrottled request s
      → IsThrottled request (register_scan (request n) n s)
  unfolding register_scan admission admit entered
  register-IsThrottled n s e h = by_lookup (lookup (folder_of request n) s.running_scans) refl
    where
      by_status :
          (p : ℕ)
          → lookup (folder_of request n) s.running_scans ≡ some p
          → (running pending : Bool) → (s.process p).status.is_running ≡ running
          → (s.process p).status.is_pending ≡ pending
          → IsThrottled request (
              admit
                (if running then (if pending then already_waiting else wait_for p) else proceed)
                (request n)
                n
                s)
      by_status p at true true er ep =
          outside-IsThrottled request n turned_away s (ground arith) refl h
      by_status p at true false er ep =
          entered-IsThrottled request n (waiting p) (status_of (waiting p)) s refl (ground arith)
            refl (λ r el. (ground (arith, h.statuses p), λ a. ground arith))
            (λ q eq. ground (arith, h.statuses p, h.current (folder_of request n) p)) h
      by_status p at false pending er ep =
          entered-IsThrottled request n ready (status_of ready) s refl (ground arith) refl
            (λ r el. (ground (arith, h.statuses p), λ a. ground (arith, h.statuses p)))
            (λ q eq. cc eq) h

      by_lookup :
          (o : Option ℕ)
          → lookup (folder_of request n) s.running_scans ≡ o
          → IsThrottled request (admit (admission o s.process) (request n) n s)
      by_lookup none at =
          entered-IsThrottled request n ready (status_of ready) s refl (ground arith) refl
            (λ r el. cc (at, el)) (λ q eq. cc eq) h
      by_lookup (some p) at =
          by_status p at (s.process p).status.is_running (s.process p).status.is_pending refl refl

  Step-IsThrottled :
      (s t : Scanner)
      → Step is_directory request s t
      → IsThrottled request s
      → IsThrottled request t
  unfolding collect
  Step-IsThrottled s _ (begins n e) h = begin-IsThrottled n s e h
  Step-IsThrottled s _ (registers n e) h = register-IsThrottled n s e h
  Step-IsThrottled s _ (wakes n p e done) h = wake-IsThrottled request n s h p e done
  Step-IsThrottled s _ (collects n e) h =
      collected-IsThrottled request n _ (other_changes-IsThrottled request _ s h) _ e
  Step-IsThrottled s _ (finishes n fs e) h = finish-IsThrottled request n s h fs e

  pub reachable-IsThrottled : (s : Scanner) → Reach is_directory request s → IsThrottled request s
  reachable-IsThrottled _ start = new_scanner-IsThrottled request
  reachable-IsThrottled _ (later r step) = Step-IsThrottled _ _ step (reachable-IsThrottled _ r)

  -- However the calls of `Scan` interleave, no two of them are at the same time past their wait and
  -- not yet finished for one folder.
  pub one_active_scan :
      (s : Scanner) (n m : ℕ)
      → Reach is_directory request s
      → active (s.process n).phase ≡ true
      → active (s.process m).phase ≡ true
      → (request n).folder_path ≡ (request m).folder_path
      → n ≡ m
  one_active_scan s n m r an am same = both (reachable-IsThrottled s r)
    where
      both : IsThrottled request s → n ≡ m
      both h = elim (h.actives n an) [
        | inl e ↦ elim (h.actives m am) [ inl e' ↦ ground arith | inr (q, at, w) ↦ ground (arith) ]
        | inr (p, at, w) ↦ elim (h.actives m am) [
          | inl e' ↦ ground (arith)
          | inr (q, at', w') ↦ ground (arith)
        ]
      ]

  -- However the calls of `Scan` interleave, no two of them wait at the same time for one folder.
  pub one_waiting_scan :
      (s : Scanner) (n m p q : ℕ)
      → Reach is_directory request s
      → (s.process n).phase ≡ waiting p
      → (s.process m).phase ≡ waiting q
      → (request n).folder_path ≡ (request m).folder_path
      → n ≡ m
  one_waiting_scan s n m p q r en em same = both (reachable-IsThrottled s r)
    where
      both : IsThrottled request s → n ≡ m
      both h = ground (arith, h.waiters n p, h.waiters m q)
