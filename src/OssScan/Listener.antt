-- ===== src/OssScan/Listener.antt =====
-- Whose listener is told that its scan is over.
use khulnasoft_lab_vulnmap_l.Prelude.Maps.{lookup}
use khulnasoft_lab_vulnmap_l.Prelude.{
  ℕ, Text, Bool, true, false, not, ◌&&◌, ◌≡◌, refl, ◌⊎◌, inl, inr, arith, Bool-cases,
}
use khulnasoft_lab_vulnmap_l.OssScan.Lifecycle.{
  OssPhase, arrived, ready, returned, OssProcess, OssScanner, OssWorld, work_dir, set_phase,
  put_process, is_scannable, found_issues, scan_error, begin_oss_scan, register_oss_scan,
  receive_result, finish_oss_scan, cancel_context, OssStep, begins, registers, receives, finishes,
  cancels, OssReach, start, later,
}
use khulnasoft_lab_vulnmap_l.OssScan.Exclusion.{
  cancel_previous-phase, cancel_previous-signal, cancel_previous-done,
}

-- Returned without an error.
abbrev pub has_result : OssPhase → Bool
has_result (returned (found_issues issues)) = true
has_result _ = false

module _ {R : Type 0} (x : OssWorld R) (request : ℕ → Text) where
  -- A scan that is done was stopped, or has returned without an error.
  abbrev IsAccounted : OssScanner → Type 0
  IsAccounted s =
      (n : ℕ)
      → (s.process n).is_done ≡ true
      → ((s.process n).is_signalled ≡ true) ⊎ (has_result (s.process n).phase ≡ true)

  put-IsAccounted :
      (n : ℕ) (p : OssProcess) (s : OssScanner)
      → (p.is_done ≡ true → (p.is_signalled ≡ true) ⊎ (has_result p.phase ≡ true))
      → IsAccounted s
      → IsAccounted (put_process n p s)
  put-IsAccounted n p s own h m = ground (arith, own, h m)

  -- A step of a call that has no result yet and keeps its flags.
  phase-IsAccounted :
      (n : ℕ) (ph : OssPhase) (s : OssScanner)
      → has_result (s.process n).phase ≡ false
      → IsAccounted s
      → IsAccounted (set_phase n ph s)
  phase-IsAccounted n ph s e h = put-IsAccounted n _ s (λ d. ground (arith, h n d, e)) h

  register-IsAccounted :
      (n : ℕ) (s : OssScanner) → IsAccounted s → IsAccounted (register_oss_scan x request n s)
  unfolding register_oss_scan
  register-IsAccounted n s h m = ground (
    arith,
    cancel_previous-phase x request (lookup (work_dir x (request n)) s.running_scans) s m,
    cancel_previous-signal x request (lookup (work_dir x (request n)) s.running_scans) s m,
    cancel_previous-done x request (lookup (work_dir x (request n)) s.running_scans) s m,
    h m,
  )

  begin-IsAccounted :
      (n : ℕ) (s : OssScanner)
      → (s.process n).phase ≡ arrived
      → IsAccounted s
      → IsAccounted (begin_oss_scan x request n s)
  unfolding begin_oss_scan
  begin-IsAccounted n s e h =
      elim (Bool-cases (is_scannable x (request n) && not (s.process n).is_cancelled)) [
        | inl c ↦ rw c (phase-IsAccounted n ready s (ground (arith, e)) h)
        | inr c ↦ rw c (phase-IsAccounted n _ s (ground (arith, e)) h)
      ]

  Step-IsAccounted : (s t : OssScanner) → OssStep x request s t → IsAccounted s → IsAccounted t
  unfolding finish_oss_scan cancel_context receive_result
  Step-IsAccounted s _ (begins n e) h = begin-IsAccounted n s e h
  Step-IsAccounted s _ (registers n e) h = register-IsAccounted n s h
  Step-IsAccounted s _ (receives n meanwhile result e) h =
      phase-IsAccounted n _ s (ground (arith, e)) h
  Step-IsAccounted s _ (finishes n issues e) h = put-IsAccounted n _ s (λ d. inr refl) h
  Step-IsAccounted s _ (cancels n) h = put-IsAccounted n _ s (λ d. h n d) h

  reachable-IsAccounted : (s : OssScanner) → OssReach x request s → IsAccounted s
  reachable-IsAccounted _ start = λ n d. cc d
  reachable-IsAccounted _ (later r step) = Step-IsAccounted _ _ step (reachable-IsAccounted _ r)

  -- However the calls interleave: a scan that has returned an error, and that no later scan of its
  -- directory has stopped, is never marked as done, so its listener still waits.
  pub failed_scan_not_done :
      (s : OssScanner) (n : ℕ) (err : Text)
      → OssReach x request s
      → (s.process n).phase ≡ returned (scan_error err)
      → (s.process n).is_signalled ≡ false
      → (s.process n).is_done ≡ false
  failed_scan_not_done s n err r e calm = elim (Bool-cases (s.process n).is_done) [
    | inr open_still ↦ open_still
    | inl d ↦ elim (reachable-IsAccounted s r n d) [
      | inl signalled ↦ cc (signalled, calm)
      | inr result ↦ ground (arith, result, e)
    ]
  ]
