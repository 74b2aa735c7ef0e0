-- ===== src/CodeScan/Throttle/Entry.antt =====
-- A call of `Scan` that registers.
use khulnasoft_lab_vulnmap_l.Prelude.Maps.{lookup, store, lookup-store, lookup-store_self}
use khulnasoft_lab_vulnmap_l.Prelude.{
  ℕ, ◌==◌, Text, text_eq, text_eq_iff, true, false, ◌≡◌, inl, inr, none, some, arith, Bool-cases,
}
use khulnasoft_lab_vulnmap_l.CodeScan.{ScanStatus, ScanRequest, Phase, Scanner, put}
use khulnasoft_lab_vulnmap_l.CodeScan.Throttle.{
  status_of, active, waits_for, registered, waits-registered, folder_of, IsThrottled, Owns,
}

module _ (request : ℕ → ScanRequest) where
  -- A call that puts itself into `runningScans`, in the place of one that it waits for or that is
  -- over.
  module _ (n : ℕ) (ph : Phase) (st : ScanStatus) (s : Scanner) (est : st ≡ status_of ph)
      (out : registered (s.process n).phase ≡ false) (now : registered ph ≡ true)
      (before : (r : ℕ)
        → lookup (folder_of request n) s.running_scans ≡ some r
        → (waits_for (s.process r).phase ≡ none)
          × (active (s.process r).phase ≡ true → waits_for ph ≡ some r))
      (awaited : (p : ℕ)
        → waits_for ph ≡ some p
        → (folder_of request p ≡ folder_of request n)
          × (registered (s.process p).phase ≡ true)
          × (waits_for (s.process p).phase ≡ none))
      (h : IsThrottled request s) where
    unfoldable pub entered : Scanner
    entered =
        put n ph st (record s { running_scans = store (folder_of request n) n s.running_scans })

    entered-waiters :
        (m p : ℕ)
        → waits_for (entered.process m).phase ≡ some p
        → (lookup (folder_of request m) entered.running_scans ≡ some m)
          × (folder_of request p ≡ folder_of request m)
          × (registered (entered.process p).phase ≡ true)
          × (waits_for (entered.process p).phase ≡ none)
    unfolding entered
    entered-waiters m p e = elim (Bool-cases (n == m)) [
      | inl same ↦
          ground (arith, awaited p, lookup-store_self (folder_of request n) n s.running_scans)
      | inr other ↦ ground (
        arith,
        h.waiters m p,
        before m,
        lookup-store (folder_of request n) (folder_of request m) n s.running_scans,
        text_eq_iff (folder_of request n) (folder_of request m),
      )
    ]

    entered-actives : (m : ℕ) → active (entered.process m).phase ≡ true → Owns request m entered
    unfolding entered
    entered-actives m e = elim (Bool-cases (n == m)) [
      | inl same ↦ inl (ground (arith, lookup-store_self (folder_of request n) n s.running_scans))
      | inr other ↦ elim (Bool-cases (text_eq (folder_of request n) (folder_of request m))) [
        | inl here ↦ elim (h.actives m (ground arith)) [
          | inl own ↦ inr (
            n,
            ground (
              arith,
              lookup-store (folder_of request n) (folder_of request m) n s.running_scans,
              text_eq_iff (folder_of request n) (folder_of request m),
            ),
            ground (arith, before m, text_eq_iff (folder_of request n) (folder_of request m)),
          )
          | inr (r, at, w) ↦
              ground (arith, before r, text_eq_iff (folder_of request n) (folder_of request m))
        ]
        | inr away ↦ elim (h.actives m (ground arith)) [
          | inl own ↦ inl (
              ground
                (arith, lookup-store (folder_of request n) (folder_of request m) n s.running_scans))
          | inr (r, at, w) ↦ inr (
            r,
            ground
                (arith, lookup-store (folder_of request n) (folder_of request m) n s.running_scans),
            ground (arith, waits-registered (s.process r).phase m),
          )
        ]
      ]
    ]

    entered-current :
        (k : Text) (r : ℕ)
        → lookup k entered.running_scans ≡ some r
        → (folder_of request r ≡ k) × (registered (entered.process r).phase ≡ true)
    unfolding entered
    entered-current k r e = ground (
      arith,
      h.current k r,
      lookup-store (folder_of request n) k n s.running_scans,
      text_eq_iff (folder_of request n) k,
    )

    entered-statuses : (m : ℕ) → (entered.process m).status ≡ status_of (entered.process m).phase
    unfolding entered
    entered-statuses m = ground (arith, h.statuses m)

    pub entered-IsThrottled : IsThrottled request entered
    entered-IsThrottled = record {
      statuses = entered-statuses;
      waiters = entered-waiters;
      actives = entered-actives;
      current = entered-current;
    }
