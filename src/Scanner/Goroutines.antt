-- ===== src/Scanner/Goroutines.antt =====
-- domain/vulnmap/scanner.go, `Scan`, and domain/ide/workspace/folder.go, `processResults`, which the
-- goroutines of a scan call without a lock. A step is what one goroutine does between two accesses of
-- what they share: the load of a cached list, its store, or one message; a run is any interleaving of
-- such steps. The cache is a concurrent map whose loads and stores are atomic, and whose iteration
-- need not see a snapshot: what an iteration sees is left open, as `seen`. Lists are values: that two
-- appends can meet in one Go array, by which a found issue can be lost as well, is left out.
use khulnasoft_lab_vulnmap_l.Prelude.Maps.{TextMap, lookup, store}
use khulnasoft_lab_vulnmap_l.Prelude.{
  ℕ, suc, Text, Bool, true, false, not, ◌||◌, ◌≡◌, List, [], ◌∷◌, ◌++◌, map, none, some,
  if◌then◌else◌,
}
use khulnasoft_lab_vulnmap_l.Externals.{Externals}
use khulnasoft_lab_vulnmap_l.Vulnmap.Product.{Product}
use khulnasoft_lab_vulnmap_l.Vulnmap.Issue.{Issue}
use khulnasoft_lab_vulnmap_l.Config.{Config}
use khulnasoft_lab_vulnmap_l.ScanNotifier.{send_error}
use khulnasoft_lab_vulnmap_l.Folder.{Folder, ScanData, Effect, scan_message}
use khulnasoft_lab_vulnmap_l.Folder.Results.{
  Counts, or_empty, member, unique_issue_id, create_dedup_map, increment_severity_count,
  send_analytics,
}
use khulnasoft_lab_vulnmap_l.Folder.Publish.{filter_and_publish_cached_diagnostics}
use khulnasoft_lab_vulnmap_l.Scanner.{
  ProductScanner, ScanEffect, folder_effect, enabled_products_of, get_enabled_analysis_types,
  announcement, refreshes,
}

-- Where the call of `Scan` is: `rejected` without a token or with a cancelled context.
pub data ScanPhase : Type 0 where
  called rejected waiting completed : ScanPhase

-- Where the goroutine of a product scanner is.
pub data Task : Type 0 where
  -- in `s.Scan`
  scanning : Product → Task
  -- `processResults` is called
  received : ScanData → Task
  -- before the load for the first of the issues that are left, with the dedup map and the counts
  updating : ScanData → List Text → Counts → List Issue → Task
  -- between the load for an issue and its store, with the issues left after it and what was loaded
  loaded : ScanData → List Text → Counts → Issue → List Issue → List Issue → Task
  -- after the loop, with what there is to send
  sending : List Effect → Task

-- What the goroutines share, with what the product scanners have returned, the latest first.
pub record ScanState : Type 0 where
  pub phase : ScanPhase
  pub tasks : List Task
  pub cancelled : Bool
  pub delivered : List ScanData
  pub cache : TextMap (List Issue)
  pub sent : List ScanEffect

unfoldable pub called_on : Folder → ScanState
called_on f = record {
  phase = called;
  tasks = [];
  cancelled = false;
  delivered = [];
  cache = f.cache;
  sent = [];
}

-- `processResults` up to its loop.
unfoldable pub prepare : Text → TextMap (List Issue) → ScanData → Task
prepare path seen d = elim d.err [
  | some e ↦ sending (map scan_message (send_error d.product path))
  | none ↦ updating d (create_dedup_map seen) [] d.issues
]

-- The list that is stored for an issue, and the counts after it.
unfoldable pub list_after : List Text → Issue → List Issue → List Issue
list_after dedup i cached = if member (unique_issue_id i) dedup then cached else cached ++ (i ∷ [])

unfoldable pub counts_after : List Text → Issue → Counts → Counts
counts_after dedup i counts =
    if member (unique_issue_id i) dedup then counts else increment_severity_count i counts

-- `documentDiagnosticCache.Store`
unfoldable pub store_issue : List Text → Issue → List Issue → ScanState → ScanState
unfolding list_after
store_issue dedup i cached s = record s {
  cache = store i.affected_file_path (list_after dedup i cached) s.cache;
}

unfoldable pub emit : Effect → ScanState → ScanState
emit e s = record s { sent = s.sent ++ (folder_effect e ∷ []) }

-- `processResults` after its loop: the analytics, and what is published of the cache that is seen.
unfoldable pub publication :
    Externals → Config → Folder → TextMap (List Issue) → ScanData → Counts → List Effect
publication x c f seen d counts =
    send_analytics d counts
    ++ filter_and_publish_cached_diagnostics x c d.product (record f { cache = seen })

module _ (x : Externals) (c : Config) (f : Folder) where
  -- What a goroutine does by itself: the task, what it becomes (nothing once it has ended), and the
  -- shared state.
  pub data Move (s : ScanState) : Task → List Task → ScanState → Type 0 where
    prepares :
        (d : ScanData) (seen : TextMap (List Issue))
        → Move s (received d) (prepare f.path seen d ∷ []) s
    loads :
        (d : ScanData) (dedup : List Text) (counts : Counts) (i : Issue) (left : List Issue)
        → Move s
            (updating d dedup counts (i ∷ left))
            (loaded d dedup counts i left (or_empty (lookup i.affected_file_path s.cache)) ∷ [])
            s
    stores :
        (d : ScanData) (dedup : List Text) (counts : Counts) (i : Issue) (left cached : List Issue)
        → Move s
            (loaded d dedup counts i left cached)
            (updating d dedup (counts_after dedup i counts) left ∷ [])
            (store_issue dedup i cached s)
    publishes :
        (d : ScanData) (dedup : List Text) (counts : Counts) (seen : TextMap (List Issue))
        → Move s (updating d dedup counts []) (sending (publication x c f seen d counts) ∷ []) s
    sends : (e : Effect) (es : List Effect) → Move s (sending (e ∷ es)) (sending es ∷ []) (emit e s)
    leaves : Move s (sending []) [] s

-- A product scanner returns issues or an error, whatever they are.
unfoldable pub deliver : List Task → List Task → ScanData → ScanState → ScanState
deliver before after d s = record s {
  tasks = before ++ (received d ∷ after);
  delivered = d ∷ s.delivered;
}

-- After the wait.
unfoldable pub end_scan : ScanState → ScanState
end_scan s = record s { phase = completed; sent = s.sent ++ refreshes }

module _ (x : Externals) (c : Config) (scanners : List ProductScanner) (f : Folder) where
  -- `Scan` up to the wait.
  unfoldable pub begin_product_scans : Bool → Bool → ScanState → ScanState
  begin_product_scans authenticated cancelled s =
      if not authenticated || cancelled then record s { phase = rejected } else record s {
        phase = waiting;
        tasks = map scanning (enabled_products_of scanners);
        sent = s.sent ++ announcement f.path (get_enabled_analysis_types c scanners);
      }

  -- The steps of the scan's own code.
  pub data OwnStep (s : ScanState) : ScanState → Type 0 where
    begins :
        (authenticated cancelled : Bool)
        → s.phase ≡ called
        → OwnStep s (begin_product_scans authenticated cancelled s)
    works :
        (before after : List Task) (t : Task) (ts : List Task) (s' : ScanState)
        → s.phase ≡ waiting
        → s.tasks ≡ before ++ (t ∷ after)
        → Move x c f s t ts s'
        → OwnStep s (record s' { tasks = before ++ (ts ++ after) })
    ends : s.phase ≡ waiting → s.tasks ≡ [] → OwnStep s (end_scan s)

  pub data Step (s : ScanState) : ScanState → Type 0 where
    goes_on : {t : ScanState} → OwnStep s t → Step s t
    -- the token changes; the goroutine that listens ends with it
    token_changes : s.phase ≡ waiting → s.cancelled ≡ false → Step s (record s { cancelled = true })
    returns :
        (before after : List Task) (d : ScanData)
        → s.phase ≡ waiting
        → s.tasks ≡ before ++ (scanning d.product ∷ after)
        → Step s (deliver before after d s)

  -- The states that a call on the folder reaches, with the number of steps.
  pub data Reach : ℕ → ScanState → Type 0 where
    start : Reach 0 (called_on f)
    later : {n : ℕ} {s t : ScanState} → Reach n s → Step s t → Reach (suc n) t
