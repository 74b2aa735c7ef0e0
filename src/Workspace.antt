-- ===== src/Workspace.antt =====
-- domain/ide/workspace/workspace.go, workspace_trust.go and domain/ide/command/trust.go. `go
-- folder.ScanFolder(ctx)` is a scan that runs at its place here; the scanner's deliveries for a
-- folder are a function of its path.
pub mod Laws
pub mod Trust
pub mod Tests
use khulnasoft_lab_vulnmap_l.Prelude.Maps.{TextMap, lookup, store, delete}
use khulnasoft_lab_vulnmap_l.Prelude.{
  Text, codes, text_eq, Bool, true, false, List, [], ◌∷◌, ◌++◌, map, Option, none, some,
  if◌then◌else◌,
}
use khulnasoft_lab_vulnmap_l.Externals.{Externals}
use khulnasoft_lab_vulnmap_l.Uri.{folder_contains}
use khulnasoft_lab_vulnmap_l.Vulnmap.Range.{Range}
use khulnasoft_lab_vulnmap_l.Vulnmap.Product.{FilterableIssueType}
use khulnasoft_lab_vulnmap_l.Vulnmap.Issue.{Issue}
use khulnasoft_lab_vulnmap_l.Config.{Config, set_trusted_folders}
use khulnasoft_lab_vulnmap_l.Folder.{
  Folder, ScanData, Effect, send_trusted_folders, reset_hovers, unscanned, set_status, new_folder,
  is_trusted, issues_for,
}
use khulnasoft_lab_vulnmap_l.Folder.Scan.{scan_folder}
use khulnasoft_lab_vulnmap_l.Folder.Clear.{
  clear_diagnostics, clear_diagnostics_from_file, clear_diagnostics_from_path_recursively,
  clear_diagnostics_by_issue_type,
}

pub record Workspace : Type 0 where
  pub folders : TextMap Folder
  pub trust_request_ongoing : Bool

-- `New`
unfoldable pub new_workspace : Workspace
new_workspace = record { folders = []; trust_request_ongoing = false }

-- `AddFolder`
unfoldable pub add_folder : Folder → Workspace → Workspace
add_folder f w = record w { folders = store f.path f w.folders }

-- `GetFolderContaining`: the first in the order of the map.
unfoldable pub first_containing : Text → TextMap Folder → Option Folder
first_containing path [] = none
first_containing path ((key, f) ∷ m) =
    let rest = first_containing path m in if folder_contains f.path path then some f else rest

unfoldable pub get_folder_containing : Text → Workspace → Option Folder
unfolding first_containing
get_folder_containing path w = first_containing path w.folders

-- `IssuesFor`
unfoldable pub workspace_issues_for : Text → Range → Workspace → List Issue
workspace_issues_for path r w = elim (get_folder_containing path w) [
  | none ↦ []
  | some f ↦ issues_for f path r
]

-- A folder is a pointer, shared with the map: its new state stands under its key.
abbrev pub write_back : Folder × List Effect → Workspace → Workspace × List Effect
write_back (f, sent) w = (record w { folders = store f.path f w.folders }, sent)

-- `StartRequestTrustCommunication`, `EndRequestTrustCommunication`
unfoldable pub set_trust_request : Bool → Workspace → Workspace
set_trust_request b w = record w { trust_request_ongoing = b }

-- `GetFolderTrust`
unfoldable pub trusted_among : Config → TextMap Folder → List Folder
trusted_among c [] = []
trusted_among c ((key, f) ∷ m) =
    let rest = trusted_among c m in if is_trusted c f then f ∷ rest else rest

unfoldable pub untrusted_among : Config → TextMap Folder → List Folder
untrusted_among c [] = []
untrusted_among c ((key, f) ∷ m) =
    let rest = untrusted_among c m in if is_trusted c f then rest else f ∷ rest

unfoldable pub get_folder_trust : Config → Workspace → List Folder × List Folder
get_folder_trust c w = (trusted_among c w.folders, untrusted_among c w.folders)

-- A range over all folders, each of which the body changes in place.
unfoldable pub each_folder :
    (Folder → Folder × List Effect) → TextMap Folder → TextMap Folder × List Effect
each_folder body [] = ([], [])
each_folder body ((key, f) ∷ m) =
    let (f', sent) = body f in
    let (m', later) = each_folder body m in ((key, f') ∷ m', sent ++ later)

module _ (x : Externals) where
  unfoldable pub remove_found : Option Folder → Text → Workspace → Workspace × List Effect
  remove_found none folder_path w = (w, [])
  remove_found (some f) folder_path w =
      let (w', sent) = write_back (clear_diagnostics_from_path_recursively x folder_path f) w in
      (record w' { folders = delete folder_path w'.folders }, sent)

  -- `RemoveFolder`
  unfoldable pub remove_folder : Text → Workspace → Workspace × List Effect
  unfolding remove_found
  remove_folder folder_path w = remove_found (get_folder_containing folder_path w) folder_path w

  delete_in : Option Folder → Text → Workspace → Workspace × List Effect
  delete_in none file_path w = (w, [])
  delete_in (some f) file_path w = write_back (clear_diagnostics_from_file x file_path f) w

  -- `DeleteFile`
  unfoldable pub delete_file : Text → Workspace → Workspace × List Effect
  unfolding delete_in
  delete_file file_path w = delete_in (get_folder_containing file_path w) file_path w

  unfoldable pub clear_issues_of : Folder → Folder × List Effect
  clear_issues_of f = clear_diagnostics x (set_status unscanned f)

  -- `ClearIssues`
  unfoldable pub clear_issues : Workspace → Workspace × List Effect
  unfolding each_folder clear_issues_of
  clear_issues w =
      let (m, sent) = each_folder clear_issues_of w.folders in
      (record w { folders = m }, sent ++ (reset_hovers ∷ []))

  -- `ClearIssuesByType`
  unfoldable pub clear_issues_by_type : FilterableIssueType → Workspace → Workspace × List Effect
  unfolding each_folder
  clear_issues_by_type t w =
      let (m, sent) = each_folder (clear_diagnostics_by_issue_type x t) w.folders in
      (record w { folders = m }, sent)

  module _ (c : Config) (deliveries : Text → List ScanData) where
    scan_one : Folder → Folder × List Effect
    scan_one f = scan_folder x c (deliveries f.path) f

    unfoldable pub scan_if_trusted : Folder → Folder × List Effect
    unfolding scan_one
    scan_if_trusted f = if is_trusted c f then scan_one f else (f, [])

    -- `ScanWorkspace`
    unfoldable pub scan_workspace : Workspace → Workspace × List Effect
    unfolding each_folder scan_if_trusted
    scan_workspace w =
        let (m, sent) = each_folder scan_if_trusted w.folders in (record w { folders = m }, sent)

  remove_each : List Text → Workspace → Workspace × List Effect
  unfolding remove_folder
  remove_each [] w = (w, [])
  remove_each (uri ∷ uris) w =
      let (w', sent) = remove_folder (x.path_from_uri uri) w in
      let (w'', later) = remove_each uris w' in (w'', sent ++ later)

  add_each : List (Text × Text) → Workspace → Workspace
  unfolding add_folder
  add_each [] w = w
  add_each ((uri, name) ∷ rest) w =
      add_each rest (add_folder (new_folder (x.path_from_uri uri) name) w)

  -- `ChangeWorkspaceFolders`: the removed URIs, and the added ones with their names.
  unfoldable pub change_workspace_folders :
      Config
      → (Text → List ScanData)
      → List Text
      → List (Text × Text)
      → Workspace
      → Workspace × List Effect
  unfolding remove_each add_each scan_workspace
  change_workspace_folders c deliveries removed added w =
      let (w', sent) = remove_each removed w in
      let w'' = add_each added w' in
      let (scanned, later) = scan_workspace c deliveries w'' in
      if c.automatic_scanning then (scanned, sent ++ later) else (w'', sent)
