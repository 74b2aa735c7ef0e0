-- ===== src/CodeScan/Throttle.antt =====
-- One scan of a folder at a time.
pub mod Entry
use khulnasoft_lab_vulnmap_l.Prelude.Maps.{TextMap, lookup, store, lookup-store, lookup-store_self}
use khulnasoft_lab_vulnmap_l.Prelude.{
  ℕ, ◌==◌, Text, text_eq, text_eq_iff, Bool, true, false, ◌≡◌, refl, ◌⊎◌, inl, inr, List, Option,
  none, some, arith, Bool-cases,
}
use khulnasoft_lab_vulnmap_l.CodeScan.{
  ScanStatus, new_scan_status, ScanRequest, Phase, arrived, failed, marked, turned_away, ready,
  returned, waiting, collected, Scanner, put, new_scanner, wake, finish,
}

-- The status that a call in this phase has.
abbrev pub status_of : Phase → ScanStatus
status_of arrived = new_scan_status
status_of failed = new_scan_status
status_of marked = new_scan_status
status_of turned_away = record new_scan_status { is_running = true }
status_of ready = record new_scan_status { is_running = true }
status_of returned = record new_scan_status { finished = true }
status_of (waiting p) = record new_scan_status { is_running = true; is_pending = true }
status_of (collected fs) = record new_scan_status { is_running = true }

-- Between the end of the wait and the end of the scan.
abbrev pub active : Phase → Bool
active ready = true
active (collected fs) = true
active _ = false

abbrev pub waits_for : Phase → Option ℕ
waits_for (waiting p) = some p
waits_for _ = none

-- It has been put into `runningScans`.
abbrev pub registered : Phase → Bool
registered ready = true
registered returned = true
registered (waiting p) = true
registered (collected fs) = true
registered _ = false

pub waits-registered : (ph : Phase) (p : ℕ) → waits_for ph ≡ some p → registered ph ≡ true
waits-registered (waiting q) p e = refl
waits-registered arrived p e = cc e
waits-registered failed p e = cc e
waits-registered marked p e = cc e
waits-registered turned_away p e = cc e
waits-registered ready p e = refl
waits-registered returned p e = refl
waits-registered (collected fs) p e = refl

active-registered : (ph : Phase) → active ph ≡ true → registered ph ≡ true
active-registered ready e = refl
active-registered (collected fs) e = refl
active-registered arrived e = cc e
active-registered failed e = cc e
active-registered marked e = cc e
active-registered turned_away e = cc e
active-registered returned e = refl
active-registered (waiting p) e = refl

module _ (request : ℕ → ScanRequest) where
  abbrev pub folder_of : ℕ → Text
  folder_of n = (request n).folder_path

  pub record IsThrottled (s : Scanner) : Type 0 where
    pub statuses : (n : ℕ) → (s.process n).status ≡ status_of (s.process n).phase
    pub waiters :
        (n p : ℕ)
        → waits_for (s.process n).phase ≡ some p
        → (lookup (folder_of n) s.running_scans ≡ some n)
          × (folder_of p ≡ folder_of n)
          × (registered (s.process p).phase ≡ true)
          × (waits_for (s.process p).phase ≡ none)
    pub actives :
        (n : ℕ)
        → active (s.process n).phase ≡ true
        → (lookup (folder_of n) s.running_scans ≡ some n)
          ⊎ ((r : ℕ) × (lookup (folder_of n) s.running_scans ≡ some r)
              × (waits_for (s.process r).phase ≡ some n))
    pub current :
        (k : Text) (r : ℕ)
        → lookup k s.running_scans ≡ some r
        → (folder_of r ≡ k) × (registered (s.process r).phase ≡ true)

  pub new_scanner-IsThrottled : IsThrottled new_scanner
  unfolding lookup
  new_scanner-IsThrottled = record {
    statuses = λ n. refl;
    waiters = λ n p e. cc e;
    actives = λ n e. cc e;
    current = λ k r e. cc e;
  }

  -- A call that has not registered, and does not register now.
  module _ (n : ℕ) (ph : Phase) (s : Scanner) where
    pub outside-IsThrottled :
        registered (s.process n).phase ≡ false
        → registered ph ≡ false
        → IsThrottled s
        → IsThrottled (put n ph (status_of ph) s)
    outside-IsThrottled out still h = record {
      statuses = λ m. ground (arith, h.statuses m);
      waiters = λ m p e. ground (arith, h.waiters m p, waits-registered ph p);
      actives = λ m e. elim (Bool-cases (n == m)) [
        | inl same ↦ ground (arith, active-registered ph)
        | inr other ↦ elim (h.actives m (ground arith)) [
          | inl own ↦ inl own
          | inr (r, at, w) ↦ inr (r, at, ground (arith, waits-registered (s.process r).phase m))
        ]
      ];
      current = λ k r e. ground (arith, h.current k r);
    }

  -- The changed paths play no part.
  pub other_changes-IsThrottled :
      (paths : TextMap (List Text)) (s : Scanner)
      → IsThrottled s
      → IsThrottled (record s { changed_paths = paths })
  other_changes-IsThrottled paths s h = record {
    statuses = h.statuses;
    waiters = h.waiters;
    actives = h.actives;
    current = h.current;
  }

  abbrev pub Owns : ℕ → Scanner → Type 0
  Owns n s =
      (lookup (folder_of n) s.running_scans ≡ some n)
      ⊎ ((r : ℕ) × (lookup (folder_of n) s.running_scans ≡ some r)
          × (waits_for (s.process r).phase ≡ some n))

  -- A registered call that goes on without waiting.
  inside-IsThrottled :
      (n : ℕ) (ph : Phase) (st : ScanStatus) (s : Scanner)
      → st ≡ status_of ph
      → registered ph ≡ true
      → waits_for ph ≡ none
      → (active ph ≡ true → Owns n s)
      → ((m : ℕ) → waits_for (s.process n).phase ≡ some m → active (s.process m).phase ≡ false)
      → IsThrottled s
      → IsThrottled (put n ph st s)
  inside-IsThrottled n ph st s est now on owns free h = record {
    statuses = λ m. ground (arith, h.statuses m);
    waiters = λ m p e. ground (arith, h.waiters m p);
    actives = λ m e. elim (Bool-cases (n == m)) [
      | inl same ↦ elim (owns (ground arith)) [
        | inl own ↦ inl (ground arith)
        | inr (r, at, w) ↦ inr (r, ground arith, ground (arith, h.waiters n n))
      ]
      | inr other ↦ elim (h.actives m (ground arith)) [
        | inl own ↦ inl own
        | inr (r, at, w) ↦ inr (r, at, ground (arith, free m))
      ]
    ];
    current = λ k r e. ground (arith, h.current k r);
  }

  module _ (n : ℕ) (s : Scanner) (h : IsThrottled s) where
    pub wake-IsThrottled :
        (p : ℕ)
        → (s.process n).phase ≡ waiting p
        → (s.process p).status.finished ≡ true
        → IsThrottled (wake n s)
    unfolding wake
    wake-IsThrottled p e done =
        inside-IsThrottled n ready (record (s.process n).status { is_pending = false }) s
          (ground (arith, h.statuses n)) refl refl (λ a. inl (h.waiters n p (ground arith)).0)
          (λ m w. (ground (arith, h.statuses p, h.waiters n p))) h

    pub collected-IsThrottled :
        (fs : Option (List Text))
        → (s.process n).phase ≡ ready
        → IsThrottled (put n (collected fs) (s.process n).status s)
    collected-IsThrottled fs e =
        inside-IsThrottled n (collected fs) (s.process n).status s (ground (arith, h.statuses n))
          refl refl (λ a. h.actives n (ground arith)) (λ m w. (ground arith)) h

    pub finish-IsThrottled :
        (fs : Option (List Text)) → (s.process n).phase ≡ collected fs → IsThrottled (finish n s)
    unfolding finish
    finish-IsThrottled fs e =
        inside-IsThrottled n returned
          (record (s.process n).status { is_running = false; finished = true }) s
          (ground (arith, h.statuses n)) refl refl (λ a. cc a) (λ m w. (ground arith)) h
