-- ===== src/CodeScan/Pending.antt =====
-- No changed path is forgotten.
use khulnasoft_lab_vulnmap_l.Prelude.Maps.{lookup, store, lookup-store}
use khulnasoft_lab_vulnmap_l.Prelude.{
  ℕ, ◌==◌, Text, text_eq, text_eq_iff, Bool, true, false, ◌≡◌, refl, ◌⊎◌, inl, inr, [], Option,
  none, some, arith, if◌then◌else◌, Bool-cases,
}
use khulnasoft_lab_vulnmap_l.CodeScan.{
  ScanStatus, new_scan_status, ScanRequest, Phase, arrived, failed, marked, turned_away, ready,
  returned, waiting, collected, Scanner, put, add_path, changes_of, mark_changed, begin_scan,
  proceed, already_waiting, wait_for, admission, admit, register_scan, wake, collect, finish, Step,
  begins, registers, wakes, collects, finishes, Reach, start, later,
}
use khulnasoft_lab_vulnmap_l.CodeScan.Throttle.{status_of, folder_of, IsThrottled}
use khulnasoft_lab_vulnmap_l.CodeScan.Exclusion.{reachable-IsThrottled}

-- The call has still to take the changed paths out.
abbrev pub to_collect : Phase → Bool
to_collect marked = true
to_collect ready = true
to_collect (waiting p) = true
to_collect _ = false

pending_waits : (ph : Phase) → (status_of ph).is_pending ≡ true → to_collect ph ≡ true
pending_waits (waiting p) e = refl
pending_waits arrived e = cc e
pending_waits failed e = cc e
pending_waits marked e = cc e
pending_waits turned_away e = cc e
pending_waits ready e = refl
pending_waits returned e = cc e
pending_waits (collected fs) e = cc e

module _ (request : ℕ → ScanRequest) where
  abbrev pub Collects : Scanner → Text → ℕ → Type 0
  Collects s k n = (folder_of request n ≡ k) × (to_collect (s.process n).phase ≡ true)

  abbrev pub IsPending : Scanner → Type 0
  IsPending s = (k : Text) → (changes_of k s ≡ []) ⊎ ((n : ℕ) × Collects s k n)

  -- A call that goes on, and has not just taken the paths.
  kept-IsPending :
      (n : ℕ) (ph : Phase) (st : ScanStatus) (s : Scanner)
      → (to_collect (s.process n).phase ≡ true → to_collect ph ≡ true)
      → IsPending s
      → IsPending (put n ph st s)
  kept-IsPending n ph st s keep h k = elim (h k) [
    | inl e ↦ inl e
    | inr (m, (fm, cm)) ↦ inr (m, (fm, ground arith))
  ]

  mark-IsPending :
      (n : ℕ) (s : Scanner)
      → (s.process n).phase ≡ arrived
      → IsPending s
      → IsPending (mark_changed (request n) n s)
  unfolding mark_changed
  mark-IsPending n s e h k = elim (Bool-cases (text_eq (folder_of request n) k)) [
    | inl same ↦ inr (n, ((text_eq_iff (folder_of request n) k).0 same, ground arith))
    | inr other ↦ elim (h k) [
      | inl none_left ↦ inl (
          ground (
            arith,
            lookup-store (folder_of request n) k
                (add_path (request n).path (changes_of (folder_of request n) s)) s.changed_paths,
          ))
      | inr (m, (fm, cm)) ↦ inr (m, (fm, ground arith))
    ]
  ]

  collect-IsPending :
      (is_directory : Text → Bool) (n : ℕ) (s : Scanner)
      → (s.process n).phase ≡ ready
      → IsPending s
      → IsPending (collect is_directory (request n) n s)
  unfolding collect
  collect-IsPending is_directory n s e h k = elim (Bool-cases (text_eq (folder_of request n) k)) [
    | inl same ↦ inl (ground (arith, lookup-store (folder_of request n) k [] s.changed_paths))
    | inr other ↦ elim (h k) [
      | inl none_left ↦
          inl (ground (arith, lookup-store (folder_of request n) k [] s.changed_paths))
      | inr (m, (fm, cm)) ↦ inr (m, (fm, ground (arith, text_eq_iff (folder_of request n) k)))
    ]
  ]

  register-IsPending :
      (n : ℕ) (s : Scanner)
      → (s.process n).phase ≡ marked
      → IsThrottled request s
      → IsPending s
      → IsPending (register_scan (request n) n s)
  unfolding register_scan admission admit
  register-IsPending n s e t h = by_lookup (lookup (folder_of request n) s.running_scans) refl
    where
      in_line : Scanner
      in_line = record s { running_scans = store (folder_of request n) n s.running_scans }

      -- A call that is turned away leaves the paths to the one that waits.
      away :
          (p : ℕ)
          → lookup (folder_of request n) s.running_scans ≡ some p
          → (s.process p).status.is_pending ≡ true
          → IsPending (put n turned_away (record new_scan_status { is_running = true }) s)
      away p at pending k = elim (h k) [
        | inl e ↦ inl e
        | inr (m, (fm, cm)) ↦ elim (Bool-cases (n == m)) [
          | inl same ↦ inr (
            p,
            (
              ground (arith, t.current (folder_of request n) p),
              ground (arith, t.statuses p, pending_waits (s.process p).phase),
            ),
          )
          | inr other ↦ inr (m, (fm, ground arith))
        ]
      ]

      by_status :
          (p : ℕ)
          → lookup (folder_of request n) s.running_scans ≡ some p
          → (running pending : Bool) → (s.process p).status.is_pending ≡ pending
          → IsPending (
              admit
                (if running then (if pending then already_waiting else wait_for p) else proceed)
                (request n)
                n
                s)
      by_status p at true true ep = away p at ep
      by_status p at true false ep =
          kept-IsPending n (waiting p) (status_of (waiting p)) in_line (λ c. refl) h
      by_status p at false pending ep =
          kept-IsPending n ready (status_of ready) in_line (λ c. refl) h

      by_lookup :
          (o : Option ℕ)
          → lookup (folder_of request n) s.running_scans ≡ o
          → IsPending (admit (admission o s.process) (request n) n s)
      by_lookup none at = kept-IsPending n ready (status_of ready) in_line (λ c. refl) h
      by_lookup (some p) at =
          by_status p at (s.process p).status.is_running (s.process p).status.is_pending refl

  begin-IsPending :
      (n : ℕ) (s : Scanner)
      → (s.process n).phase ≡ arrived
      → IsPending s
      → IsPending (begin_scan (request n) n s)
  unfolding begin_scan
  begin-IsPending n s e h = by_answer (request n).sast_enabled
    where
      by_answer :
          (b : Option Bool)
          → IsPending (elim b [
            | none ↦ put n failed new_scan_status s
            | some false ↦ put n failed new_scan_status s
            | some true ↦ mark_changed (request n) n s
          ])
      by_answer none = kept-IsPending n failed new_scan_status s (λ c. ground arith) h
      by_answer (some false) = kept-IsPending n failed new_scan_status s (λ c. ground arith) h
      by_answer (some true) = mark-IsPending n s e h

module _ (is_directory : Text → Bool) (request : ℕ → ScanRequest) where
  Step-IsPending :
      (s t : Scanner)
      → Step is_directory request s t
      → IsThrottled request s
      → IsPending request s
      → IsPending request t
  unfolding wake finish
  Step-IsPending s _ (begins n e) t h = begin-IsPending request n s e h
  Step-IsPending s _ (registers n e) t h = register-IsPending request n s e t h
  Step-IsPending s _ (wakes n p e done) t h = kept-IsPending request n ready _ s (λ c. refl) h
  Step-IsPending s _ (collects n e) t h = collect-IsPending request is_directory n s e h
  Step-IsPending s _ (finishes n fs e) t h =
      kept-IsPending request n returned _ s (λ c. ground arith) h

  reachable-IsPending : (s : Scanner) → Reach is_directory request s → IsPending request s
  unfolding lookup
  reachable-IsPending _ start = λ k. inl refl
  reachable-IsPending _ (later {s} r step) =
      Step-IsPending s _ step (reachable-IsThrottled is_directory request s r)
        (reachable-IsPending s r)

  -- However the calls of `Scan` interleave: as long as a changed path of a folder has not been taken
  -- out, there is a call for that folder that has still to take it out. So no change is lost with a
  -- call that is turned away because another one waits.
  pub no_change_forgotten :
      (s : Scanner) (k : Text)
      → Reach is_directory request s
      → (changes_of k s ≡ [])
        ⊎ ((n : ℕ) × (((request n).folder_path ≡ k) × (to_collect (s.process n).phase ≡ true)))
  no_change_forgotten s k r = reachable-IsPending s r k
