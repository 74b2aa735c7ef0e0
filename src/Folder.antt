-- ===== src/Folder.antt =====
-- domain/ide/workspace/folder.go: a workspace folder with its cache of issues by file. An operation
-- returns the folder and the effects that it has, in order. The scanner, the notifier, the hover
-- channel, the scan notifier and the analytics are reached through these effects.
pub mod Results
pub mod Publish
pub mod Scan
pub mod Clear
pub mod Invariant
pub mod Operations
pub mod Removal
pub mod Filter
pub mod Notices
pub mod Rescan
pub mod Trust
pub mod Tests
use khulnasoft_lab_vulnmap_l.Prelude.Strings.{contains, has_prefix, trim_suffix}
use khulnasoft_lab_vulnmap_l.Prelude.Maps.{TextMap, lookup, store, delete}
use khulnasoft_lab_vulnmap_l.Prelude.{
  ℕ, suc, Text, codes, text_eq, Bool, true, false, not, ◌&&◌, ◌||◌, ◌==◌, List, [], ◌∷◌, ◌++◌, map,
  Option, none, some, if◌then◌else◌, length,
}
use khulnasoft_lab_vulnmap_l.Vulnmap.Range.{Range, overlaps}
use khulnasoft_lab_vulnmap_l.Vulnmap.Product.{Product}
use khulnasoft_lab_vulnmap_l.Vulnmap.Issue.{Issue}
use khulnasoft_lab_vulnmap_l.Config.{Config}
use khulnasoft_lab_vulnmap_l.Lsp.{Diagnostic, VulnmapScanParams}
use khulnasoft_lab_vulnmap_l.Hover.Model.{DocumentHovers}

pub data FolderStatus : Type 0 where
  unscanned scanned : FolderStatus

pub record Folder : Type 0 where
  pub path : Text
  pub name : Text
  pub status : FolderStatus
  pub cache : TextMap (List Issue)

pub record SeverityCount : Type 0 where
  pub critical_count : ℕ
  pub high_count : ℕ
  pub medium_count : ℕ
  pub low_count : ℕ

-- `ScanData`, with `some` for a non-nil error and the counts of `SeverityCount` beside it.
pub record ScanData : Type 0 where
  pub product : Product
  pub issues : List Issue
  pub err : Option Text
  pub duration_ms : ℕ
  pub timestamp_finished : ℕ

pub data Effect : Type 0 where
  -- `notifier.Send(lsp.PublishDiagnosticsParams{…})`
  publish_diagnostics : Text → List Diagnostic → Effect
  -- `hoverService.Channel() <- …`
  publish_hovers : DocumentHovers → Effect
  -- a message of the scan notifier
  scan_message : VulnmapScanParams → Effect
  -- `scanner.ClearInlineValues(path)`
  clear_inline_values : Text → Effect
  -- the event that `SendAnalyticsToAPI` posts: product, counts, duration and time
  scan_done_event : Product → SeverityCount → ℕ → ℕ → Effect
  -- `notifier.Send(lsp.VulnmapTrustedFoldersParams{…})`
  send_trusted_folders : List Text → Effect
  -- `hoverService.ClearAllHovers()`
  reset_hovers : Effect

-- `NewFolder`
unfoldable pub new_folder : Text → Text → Folder
unfolding trim_suffix
new_folder path name = record {
  path = trim_suffix path (codes "/");
  name = name;
  status = unscanned;
  cache = [];
}

-- `IsScanned`
unfoldable pub is_scanned : Folder → Bool
is_scanned f = elim f.status [ unscanned ↦ false | scanned ↦ true ]

-- `SetStatus`, and `ClearScannedStatus`
unfoldable pub set_status : FolderStatus → Folder → Folder
set_status s f = record f { status = s }

-- `DocumentDiagnosticsFromCache`, and `AllIssuesFor`: `none` is nil.
unfoldable pub document_diagnostics_from_cache : Folder → Text → Option (List Issue)
unfolding lookup
document_diagnostics_from_cache f file = lookup file f.cache

overlapping : Range → List Issue → List Issue
unfolding overlaps
overlapping r [] = []
overlapping r (i ∷ is) =
    let rest = overlapping r is in if overlaps i.range r then i ∷ rest else rest

-- `IssuesFor`
unfoldable pub issues_for : Folder → Text → Range → List Issue
unfolding overlapping document_diagnostics_from_cache
issues_for f file r = elim (document_diagnostics_from_cache f file) [
  | none ↦ []
  | some is ↦ overlapping r is
]

unfoldable pub has_trusted_prefix : Text → List Text → Bool
unfolding has_prefix
has_trusted_prefix path [] = false
has_trusted_prefix path (t ∷ ts) = if has_prefix path t then true else has_trusted_prefix path ts

-- `IsTrusted`
unfoldable pub is_trusted : Config → Folder → Bool
unfolding has_trusted_prefix
is_trusted c f =
    if not c.trusted_folders_feature_enabled
    then true
    else has_trusted_prefix f.path c.trusted_folders
