-- ===== src/Scanner/Lost.antt =====
-- What a race between two goroutines of a scan can break: `processResults` loads the cached list of a
-- file, appends to it and stores it, and no lock is held over the three.
use khulnasoft_lab_vulnmap_l.Prelude.Maps.{TextMap, lookup, store, lookup-store_self}
use khulnasoft_lab_vulnmap_l.Prelude.{
  ℕ, suc, Text, true, false, ◌≡◌, refl, ap, ◌∙◌, List, [], ◌∷◌, ◌++◌, map, none,
}
use khulnasoft_lab_vulnmap_l.Externals.{Externals}
use khulnasoft_lab_vulnmap_l.Vulnmap.Product.{Product}
use khulnasoft_lab_vulnmap_l.Vulnmap.Issue.{Issue}
use khulnasoft_lab_vulnmap_l.Config.{Config}
use khulnasoft_lab_vulnmap_l.Folder.{Folder, ScanData, Effect}
use khulnasoft_lab_vulnmap_l.Folder.Results.{
  Counts, or_empty, member, unique_issue_id, create_dedup_map,
}
use khulnasoft_lab_vulnmap_l.Scanner.{ProductScanner, enabled_products_of}
use khulnasoft_lab_vulnmap_l.Scanner.Goroutines.{
  waiting, completed, Task, scanning, updating, sending, ScanState, called_on, prepare,
  begin_product_scans, list_after, counts_after, store_issue, emit, publication, deliver, end_scan,
  prepares, loads, stores, publishes, sends, leaves, begins, works, ends, goes_on, returns, Reach,
  start, later,
}

-- A product scanner returns one issue.
abbrev pub found : Product → Issue → ScanData
found p i = record {
  product = p;
  issues = i ∷ [];
  err = none;
  duration_ms = 0;
  timestamp_finished = 0;
}

module _ (x : Externals) (c : Config) (scanners : List ProductScanner) (f : Folder) where
  -- A state is reached in which the scan waits for these tasks, with this cache and these deliveries.
  abbrev ReachesWaiting : List Task → TextMap (List Issue) → List ScanData → Type 0
  ReachesWaiting tasks cache delivered =
      (n : ℕ) × (s : ScanState) × Reach x c scanners f n s
      × (s.phase ≡ waiting)
      × (s.tasks ≡ tasks)
      × (s.cache ≡ cache)
      × (s.delivered ≡ delivered)

  -- The goroutine at the head sends what it has to send, and ends.
  sends_all :
      (es : List Effect) (rest : List Task) (m : TextMap (List Issue)) (ds : List ScanData)
      → ReachesWaiting (sending es ∷ rest) m ds
      → ReachesWaiting rest m ds
  unfolding emit
  sends_all [] rest m ds (n, s, r, e, at, same, told) = (
    suc n,
    _,
    later r (goes_on (works [] rest (sending []) [] s e at leaves)),
    e,
    refl,
    same,
    told,
  )
  sends_all (a ∷ es) rest m ds (n, s, r, e, at, same, told) = sends_all es rest m ds (
    suc n,
    _,
    later r (goes_on (works [] rest (sending (a ∷ es)) _ _ e at (sends a es))),
    e,
    refl,
    same,
    told,
  )

  -- The goroutine at the head has no issue left: it publishes, and ends.
  publishes_all :
      (d : ScanData) (dedup : List Text) (counts : Counts) (rest : List Task)
      (m : TextMap (List Issue)) (ds : List ScanData)
      → ReachesWaiting (updating d dedup counts [] ∷ rest) m ds
      → ReachesWaiting rest m ds
  publishes_all d dedup counts rest m ds (n, s, r, e, at, same, told) =
      sends_all (publication x c f m d counts) rest m ds (
        suc n,
        _,
        later r (
            goes_on
              (works [] rest (updating d dedup counts []) _ s e at (publishes d dedup counts m))),
        e,
        refl,
        same,
        told,
      )

  module _ (p q : Product) (i j : Issue) where
    abbrev known : List Text
    known = create_dedup_map f.cache

    -- The list of an issue's file after a store that knows only what was there before the scan.
    abbrev stored_for : Issue → List Issue
    stored_for k = list_after known k (or_empty (lookup k.affected_file_path f.cache))

    abbrev raced : TextMap (List Issue)
    raced =
        store j.affected_file_path (stored_for j)
          (store i.affected_file_path (stored_for i) f.cache)

    -- Both goroutines load, and then both store.
    both_stored :
        enabled_products_of scanners ≡ p ∷ q ∷ []
        → ReachesWaiting
            (updating (found p i) known (counts_after known i []) []
              ∷ updating (found q j) known (counts_after known j []) []
              ∷ [])
            raced
            (found q j ∷ found p i ∷ [])
    unfolding called_on begin_product_scans deliver prepare store_issue
    both_stored enabled = (
      9,
      _,
      later
          (later
            (later
              (later
                (later
                  (later
                    (later
                      (later (later start (goes_on (begins true false refl)))
                        (returns [] (scanning q ∷ []) (found p i) refl (ap (map scanning) enabled)))
                      (returns (_ ∷ []) [] (found q j) refl refl))
                    (goes_on (works [] _ _ _ _ refl refl (prepares (found p i) f.cache))))
                  (goes_on (works (_ ∷ []) _ _ _ _ refl refl (prepares (found q j) f.cache))))
                (goes_on (works [] _ _ _ _ refl refl (loads (found p i) known [] i []))))
              (goes_on (works (_ ∷ []) _ _ _ _ refl refl (loads (found q j) known [] j []))))
            (goes_on (works [] _ _ _ _ refl refl (stores (found p i) known [] i [] _))))
          (goes_on (works (_ ∷ []) _ _ _ _ refl refl (stores (found q j) known [] j [] _))),
      refl,
      refl,
      refl,
      refl,
    )

    ends_with :
        (m : TextMap (List Issue)) (ds : List ScanData)
        → ReachesWaiting [] m ds
        → (n : ℕ) × (s : ScanState) × Reach x c scanners f n s
          × (s.phase ≡ completed)
          × (s.cache ≡ m)
          × (s.delivered ≡ ds)
    unfolding end_scan
    ends_with m ds (n, s, r, e, at, same, told) =
        (suc n, end_scan s, later r (goes_on (ends e at)), refl, same, told)

    raced_list :
        i.affected_file_path ≡ j.affected_file_path
        → member (unique_issue_id j) known ≡ false
        → or_empty (lookup i.affected_file_path raced)
          ≡ or_empty (lookup i.affected_file_path f.cache) ++ (j ∷ [])
    unfolding list_after
    raced_list same new =
        rw same
          (ap or_empty (lookup-store_self j.affected_file_path (stored_for j) _) ∙ rw new refl)

    -- If two scanners are enabled and each of them returns one issue, both issues are of the same
    -- file and the second was not cached before, then a completed scan is reached after which the
    -- cached list of the file has only the second issue behind what it had before: the first issue,
    -- which was delivered without an error, is lost.
    pub found_issue_lost :
        enabled_products_of scanners ≡ p ∷ q ∷ []
        → i.affected_file_path ≡ j.affected_file_path
        → member (unique_issue_id j) (create_dedup_map f.cache) ≡ false
        → (n : ℕ) × (s : ScanState) × Reach x c scanners f n s
          × (s.phase ≡ completed)
          × (s.delivered ≡ found q j ∷ found p i ∷ [])
          × (or_empty (lookup i.affected_file_path s.cache)
              ≡ or_empty (lookup i.affected_file_path f.cache) ++ (j ∷ []))
    found_issue_lost enabled same new =
        let (n, s, r, e, cached, told) = ends_with raced (found q j ∷ found p i ∷ []) (
          publishes_all (found q j) known (counts_after known j []) [] _ _ (
            publishes_all (found p i) known (counts_after known i []) _ _ _
              (both_stored enabled))) in
        (n, s, r, e, told, rw cached (raced_list same new))
