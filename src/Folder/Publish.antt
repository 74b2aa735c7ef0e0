-- ===== src/Folder/Publish.antt =====
-- folder.go: `FilterIssues`, and what `FilterAndPublishCachedDiagnostics` sends.
use khulnasoft_lab_vulnmap_l.Prelude.Maps.{TextMap}
use khulnasoft_lab_vulnmap_l.Prelude.{
  Text, Bool, false, ◌&&◌, List, [], ◌∷◌, ◌++◌, map, if◌then◌else◌,
}
use khulnasoft_lab_vulnmap_l.Externals.{Externals}
use khulnasoft_lab_vulnmap_l.Vulnmap.Product.{Product, unknown}
use khulnasoft_lab_vulnmap_l.Vulnmap.Issue.{
  Issue, Severity, critical, high, medium, low, beyond_low, get_filterable_issue_type,
}
use khulnasoft_lab_vulnmap_l.Config.{Config, SeverityFilter, displayable_issue_types}
use khulnasoft_lab_vulnmap_l.Converter.{to_diagnostics, to_hovers_document}
use khulnasoft_lab_vulnmap_l.ScanNotifier.{send_success, send_success_for_all_products}
use khulnasoft_lab_vulnmap_l.Folder.{
  Folder, Effect, publish_diagnostics, publish_hovers, scan_message,
}

unfoldable pub visible : SeverityFilter → Severity → Bool
visible s critical = s.critical
visible s high = s.high
visible s medium = s.medium
visible s low = s.low
visible s (beyond_low n) = false

-- `isVisibleSeverity`
unfoldable pub is_visible_severity : Config → Issue → Bool
unfolding visible
is_visible_severity c i = visible c.filter_severity i.severity

-- The condition of `FilterIssues`, with the supported types that `filterCachedDiagnostics` passes.
unfoldable pub is_shown : Config → Issue → Bool
unfolding is_visible_severity displayable_issue_types get_filterable_issue_type
is_shown c i = is_visible_severity c i && displayable_issue_types c (get_filterable_issue_type i)

-- `FilterIssues`
unfoldable pub filter_issues : Config → List Issue → List Issue
unfolding is_shown
filter_issues c [] = []
filter_issues c (i ∷ is) = let rest = filter_issues c is in if is_shown c i then i ∷ rest else rest

-- `filterCachedDiagnostics`
unfoldable pub filter_cached_diagnostics : Config → TextMap (List Issue) → TextMap (List Issue)
unfolding filter_issues
filter_cached_diagnostics c [] = []
filter_cached_diagnostics c ((file, issues) ∷ m) =
    (file, filter_issues c issues) ∷ filter_cached_diagnostics c m

-- `sendHovers`
unfoldable pub send_hovers : TextMap (List Issue) → List Effect
send_hovers [] = []
send_hovers ((path, issues) ∷ m) = publish_hovers (to_hovers_document path issues) ∷ send_hovers m

-- `productIssues` of `sendScanResults`
all_issues : TextMap (List Issue) → List Issue
all_issues [] = []
all_issues ((path, issues) ∷ m) = issues ++ all_issues m

module _ (x : Externals) where
  -- `sendDiagnosticsForFile`
  unfoldable pub send_diagnostics_for_file : Text → List Issue → Effect
  send_diagnostics_for_file path issues =
      publish_diagnostics (x.path_to_uri path) (to_diagnostics issues)

  -- `sendDiagnostics`
  unfoldable pub send_diagnostics : TextMap (List Issue) → List Effect
  unfolding send_diagnostics_for_file
  send_diagnostics [] = []
  send_diagnostics ((path, issues) ∷ m) = send_diagnostics_for_file path issues ∷ send_diagnostics m

  unfoldable pub results_for : Product → Text → List Issue → List Effect
  results_for unknown path issues = map scan_message (send_success_for_all_products x path issues)
  results_for p path issues = map scan_message (send_success x p path issues)

  -- `sendScanResults`
  unfoldable pub send_scan_results : Product → Text → TextMap (List Issue) → List Effect
  unfolding results_for all_issues
  send_scan_results p path issues_by_file = results_for p path (all_issues issues_by_file)

  -- `publishDiagnostics`
  unfoldable pub publish_all : Product → Text → TextMap (List Issue) → List Effect
  unfolding send_diagnostics send_scan_results send_hovers
  publish_all p path issues_by_file =
      send_diagnostics issues_by_file
      ++ (send_scan_results p path issues_by_file ++ send_hovers issues_by_file)

  -- `FilterAndPublishCachedDiagnostics`
  unfoldable pub filter_and_publish_cached_diagnostics : Config → Product → Folder → List Effect
  unfolding publish_all filter_cached_diagnostics
  filter_and_publish_cached_diagnostics c p f =
      publish_all p f.path (filter_cached_diagnostics c f.cache)
