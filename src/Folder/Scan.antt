-- ===== src/Folder/Scan.antt =====
-- folder.go: `processResults`, `scan`, `ScanFolder` and `ScanFile`. The scanner delivers its results
-- by calls of `processResults`: the list `deliveries` holds them in the order in which they arrive.
use khulnasoft_lab_vulnmap_l.Prelude.{
  Text, List, [], ◌∷◌, ◌++◌, map, Option, none, some, if◌then◌else◌,
}
use khulnasoft_lab_vulnmap_l.Externals.{Externals}
use khulnasoft_lab_vulnmap_l.Vulnmap.Product.{unknown}
use khulnasoft_lab_vulnmap_l.Vulnmap.Issue.{Issue}
use khulnasoft_lab_vulnmap_l.Config.{Config}
use khulnasoft_lab_vulnmap_l.ScanNotifier.{send_error}
use khulnasoft_lab_vulnmap_l.Folder.{
  Folder, ScanData, Effect, scan_message, scanned, set_status, is_trusted,
  document_diagnostics_from_cache,
}
use khulnasoft_lab_vulnmap_l.Folder.Results.{updated, send_analytics}
use khulnasoft_lab_vulnmap_l.Folder.Publish.{filter_and_publish_cached_diagnostics}

-- The data that `scan` makes of cached issues: every other field is zero.
abbrev pub cached_data : List Issue → ScanData
cached_data is = record {
  product = unknown;
  issues = is;
  err = none;
  duration_ms = 0;
  timestamp_finished = 0;
}

module _ (x : Externals) (c : Config) where
  process_without_error : ScanData → Folder → Folder × List Effect
  unfolding updated send_analytics
  process_without_error d f =
      let (cache, counts) = updated d.issues f.cache in
      let f' = record f { cache = cache } in
      (f', send_analytics d counts ++ filter_and_publish_cached_diagnostics x c d.product f')

  unfoldable pub process_by : Option Text → ScanData → Folder → Folder × List Effect
  unfolding process_without_error
  process_by (some e) d f = (f, map scan_message (send_error d.product f.path))
  process_by none d f = process_without_error d f

  -- `processResults`
  unfoldable pub process_results : ScanData → Folder → Folder × List Effect
  unfolding process_by
  process_results d f = process_by d.err d f

  unfoldable pub process_all : List ScanData → Folder → Folder × List Effect
  unfolding process_results
  process_all [] f = (f, [])
  process_all (d ∷ ds) f =
      let (f', sent) = process_results d f in
      let (f'', later) = process_all ds f' in (f'', sent ++ later)

  unfoldable pub scan_uncached : Option (List Issue) → List ScanData → Folder → Folder × List Effect
  unfolding process_all
  scan_uncached (some is) deliveries f = process_results (cached_data is) f
  scan_uncached none deliveries f = process_all deliveries f

  -- `scan`
  unfoldable pub scan : Text → List ScanData → Folder → Folder × List Effect
  unfolding scan_uncached document_diagnostics_from_cache is_trusted
  scan path deliveries f =
      if is_trusted c f
      then scan_uncached (document_diagnostics_from_cache f path) deliveries f
      else (f, [])

  -- `ScanFolder`
  unfoldable pub scan_folder : List ScanData → Folder → Folder × List Effect
  unfolding scan set_status
  scan_folder deliveries f =
      let (f', sent) = scan f.path deliveries f in (set_status scanned f', sent)
