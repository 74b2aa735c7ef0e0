-- ===== src/OssScan/Exclusion.antt =====
-- Two scans of a directory overlap only while one of them is being stopped.
use khulnasoft_lab_vulnmap_l.Prelude.Maps.{TextMap, lookup, lookup-store}
use khulnasoft_lab_vulnmap_l.Prelude.{
  ℕ, Text, text_eq, text_eq_iff, text_eq_refl, Bool, true, false, not, ◌≡◌, refl, sym, ap, ◌∙◌, ◌⊎◌,
  inl, inr, Option, none, some, arith, Bool-cases, ◌&&◌,
}
use khulnasoft_lab_vulnmap_l.OssScan.{CliResult}
use khulnasoft_lab_vulnmap_l.OssScan.Lifecycle.{
  OssPhase, arrived, ready, executing, retrieved, OssProcess, OssScanner, OssWorld, work_dir,
  put_process, is_scannable, begin_oss_scan, cancel_previous, register_oss_scan, receive_result,
  finish_oss_scan, cancel_context, OssStep, begins, registers, receives, finishes, cancels,
  OssReach, start, later,
}

-- Registered, and not returned.
abbrev pub in_flight : OssPhase → Bool
in_flight executing = true
in_flight (retrieved issues) = true
in_flight _ = false

pub cancel_previous-phase :
    {R : Type 0} (x : OssWorld R) (request : ℕ → Text) (o : Option ℕ) (s : OssScanner) (m : ℕ)
    → ((cancel_previous x request o s).process m).phase ≡ (s.process m).phase
unfolding cancel_previous
cancel_previous-phase x request none s m = refl
cancel_previous-phase x request (some k) s m = ground arith

pub cancel_previous-signal :
    {R : Type 0} (x : OssWorld R) (request : ℕ → Text) (o : Option ℕ) (s : OssScanner) (m : ℕ)
    → ((cancel_previous x request o s).process m).is_signalled ≡ false
    → (s.process m).is_signalled ≡ false
unfolding cancel_previous
cancel_previous-signal x request none s m e = e
cancel_previous-signal x request (some k) s m e = ground arith

pub cancel_previous-done :
    {R : Type 0} (x : OssWorld R) (request : ℕ → Text) (o : Option ℕ) (s : OssScanner) (m : ℕ)
    → ((cancel_previous x request o s).process m).is_done ≡ true
    → ((s.process m).is_done ≡ true)
      ⊎ (((cancel_previous x request o s).process m).is_signalled ≡ true)
unfolding cancel_previous
cancel_previous-done x request none s m e = inl e
cancel_previous-done x request (some k) s m e = ground arith

cancel_previous-own :
    {R : Type 0} (x : OssWorld R) (request : ℕ → Text) (s : OssScanner) (m : ℕ)
    → ((s.process m).is_done ≡ true)
      ⊎ (((cancel_previous x request (some m) s).process m).is_signalled ≡ true)
unfolding cancel_previous
cancel_previous-own x request s m = ground arith

module _ {R : Type 0} (x : OssWorld R) (request : ℕ → Text) where
  -- A scan in flight that nobody stopped is the one that the map holds for its directory, and one
  -- that is done was stopped.
  pub record IsExclusive (running : TextMap ℕ) (process : ℕ → OssProcess) : Type 0 where
    pub current :
        (n : ℕ)
        → in_flight (process n).phase ≡ true
        → (process n).is_signalled ≡ false
        → lookup (work_dir x (request n)) running ≡ some n
    pub stopped :
        (n : ℕ)
        → in_flight (process n).phase ≡ true
        → (process n).is_done ≡ true
        → (process n).is_signalled ≡ true

  abbrev Exclusive : OssScanner → Type 0
  Exclusive s = IsExclusive s.running_scans s.process

  -- A call that is not in flight after its step, or that was before and kept its flags.
  put-IsExclusive :
      (n : ℕ) (p : OssProcess) (s : OssScanner)
      → (in_flight p.phase ≡ true
          → (in_flight (s.process n).phase ≡ true)
            × (p.is_signalled ≡ (s.process n).is_signalled)
            × (p.is_done ≡ (s.process n).is_done))
      → Exclusive s
      → Exclusive (put_process n p s)
  put-IsExclusive n p s kept h = record {
    current = λ m. ground (arith, kept, h.current m);
    stopped = λ m. ground (arith, kept, h.stopped m);
  }

  begin-IsExclusive :
      (n : ℕ) (s : OssScanner)
      → (s.process n).phase ≡ arrived
      → Exclusive s
      → Exclusive (begin_oss_scan x request n s)
  unfolding begin_oss_scan
  begin-IsExclusive n s e h =
      elim (Bool-cases (is_scannable x (request n) && not (s.process n).is_cancelled)) [
        | inl c ↦ rw c (put-IsExclusive n _ s (λ f. cc f) h)
        | inr c ↦ rw c (put-IsExclusive n _ s (λ f. cc f) h)
      ]

  abbrev previous_of : ℕ → OssScanner → Option ℕ
  previous_of n s = lookup (work_dir x (request n)) s.running_scans

  abbrev after_cancel : ℕ → OssScanner → ℕ → OssProcess
  after_cancel n s = (cancel_previous x request (previous_of n s) s).process

  -- A scan that goes on beside the cancelled one belongs to another directory.
  other_directory :
      (n : ℕ) (s : OssScanner)
      → Exclusive s
      → (m : ℕ) → in_flight (after_cancel n s m).phase ≡ true
      → (after_cancel n s m).is_signalled ≡ false
      → text_eq (work_dir x (request n)) (work_dir x (request m)) ≡ false
  other_directory n s h m f quiet =
      elim (Bool-cases (text_eq (work_dir x (request n)) (work_dir x (request m)))) [
        | inr other ↦ other
        | inl same ↦
            clash (ap in_flight (sym (cancel_previous-phase x request (previous_of n s) s m)) ∙ f)
              (cancel_previous-signal x request (previous_of n s) s m quiet)
              ((text_eq_iff _ _).0 same)
      ]
    where
      stops :
          (s.process m).is_signalled ≡ false
          → in_flight (s.process m).phase ≡ true
          → previous_of n s ≡ some m
          → text_eq (work_dir x (request n)) (work_dir x (request m)) ≡ false
      stops calm flies at = elim (cancel_previous-own x request s m) [
        | inl d ↦ cc (h.stopped m flies d, calm)
        | inr signalled ↦ cc (
            sym quiet
            ∙ ap (λ o. ((cancel_previous x request o s).process m).is_signalled) at
            ∙ signalled)
      ]

      clash :
          in_flight (s.process m).phase ≡ true
          → (s.process m).is_signalled ≡ false
          → work_dir x (request n) ≡ work_dir x (request m)
          → text_eq (work_dir x (request n)) (work_dir x (request m)) ≡ false
      clash flies calm same =
          stops calm flies (ap (λ dir. lookup dir s.running_scans) same ∙ h.current m flies calm)

  register-IsExclusive :
      (n : ℕ) (s : OssScanner)
      → (s.process n).phase ≡ ready
      → Exclusive s
      → Exclusive (register_oss_scan x request n s)
  unfolding register_oss_scan
  register-IsExclusive n s e h = record {
    current = λ m f quiet. ground (
      arith,
      lookup-store (work_dir x (request n)) (work_dir x (request m)) n s.running_scans,
      other_directory n s h m,
      cancel_previous-phase x request (previous_of n s) s m,
      cancel_previous-signal x request (previous_of n s) s m,
      h.current m,
      text_eq_refl (work_dir x (request n)),
    );
    stopped = λ m f d. ground (
      arith,
      cancel_previous-phase x request (previous_of n s) s m,
      cancel_previous-signal x request (previous_of n s) s m,
      cancel_previous-done x request (previous_of n s) s m,
      h.stopped m,
    );
  }

  receive-IsExclusive :
      (n : ℕ) (meanwhile : Bool) (result : CliResult) (s : OssScanner)
      → (s.process n).phase ≡ executing
      → Exclusive s
      → Exclusive (receive_result x request n meanwhile result s)
  unfolding receive_result
  receive-IsExclusive n meanwhile result s e h =
      put-IsExclusive n _ s (λ f. (ground (arith, e), refl, refl)) h

  Step-IsExclusive : (s t : OssScanner) → OssStep x request s t → Exclusive s → Exclusive t
  unfolding finish_oss_scan cancel_context
  Step-IsExclusive s _ (begins n e) h = begin-IsExclusive n s e h
  Step-IsExclusive s _ (registers n e) h = register-IsExclusive n s e h
  Step-IsExclusive s _ (receives n meanwhile result e) h =
      receive-IsExclusive n meanwhile result s e h
  Step-IsExclusive s _ (finishes n issues e) h = put-IsExclusive n _ s (λ f. cc f) h
  Step-IsExclusive s _ (cancels n) h = put-IsExclusive n _ s (λ f. (f, refl, refl)) h

  reachable-IsExclusive : (s : OssScanner) → OssReach x request s → Exclusive s
  reachable-IsExclusive _ start = record { current = λ n f. cc f; stopped = λ n f. cc f }
  reachable-IsExclusive _ (later r step) = Step-IsExclusive _ _ step (reachable-IsExclusive _ r)

  -- However the calls of `Scan` interleave: of two calls that are both in flight for one directory,
  -- one has had its context's listener told to cancel it.
  pub one_scan_in_flight :
      (s : OssScanner) (n m : ℕ)
      → OssReach x request s
      → in_flight (s.process n).phase ≡ true
      → in_flight (s.process m).phase ≡ true
      → work_dir x (request n) ≡ work_dir x (request m)
      → (n ≡ m) ⊎ (((s.process n).is_signalled ≡ true) ⊎ ((s.process m).is_signalled ≡ true))
  one_scan_in_flight s n m r fn fm same = both (reachable-IsExclusive s r)
    where
      both :
          Exclusive s
          → (n ≡ m) ⊎ (((s.process n).is_signalled ≡ true) ⊎ ((s.process m).is_signalled ≡ true))
      both h = ground (arith, h.current n fn, h.current m fm, same)
