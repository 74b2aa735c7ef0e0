-- ===== src/Workspace/Laws.antt =====
-- Scanning, clearing and removing the folders of a workspace.
use khulnasoft_lab_vulnmap_l.Prelude.Maps.{
  TextMap, lookup, store, delete, lookup-store, lookup-delete,
}
use khulnasoft_lab_vulnmap_l.Prelude.{
  Text, text_eq_iff, ◌≡◌, ◌≢◌, refl, Bool, true, false, List, [], ◌∷◌, Option, none, some, arith,
}
use khulnasoft_lab_vulnmap_l.Externals.{Externals}
use khulnasoft_lab_vulnmap_l.Vulnmap.Issue.{Issue}
use khulnasoft_lab_vulnmap_l.Config.{Config}
use khulnasoft_lab_vulnmap_l.Folder.{Folder, ScanData, Effect, unscanned, set_status, is_trusted}
use khulnasoft_lab_vulnmap_l.Folder.Clear.{
  clear_diagnostics, clear_each, clear_diagnostics_from_path_recursively,
}
use khulnasoft_lab_vulnmap_l.Folder.Removal.{clear_diagnostics-empty}
use khulnasoft_lab_vulnmap_l.Workspace.{
  Workspace, each_folder, scan_workspace, scan_if_trusted, clear_issues, clear_issues_of,
  remove_folder, remove_found, get_folder_containing,
}

-- A range over the folders changes the folder of each key by the body.
pub each_folder-lookup :
    (body : Folder → Folder × List Effect) (m : TextMap Folder) (k : Text) (f : Folder)
    → lookup k m ≡ some f
    → lookup k (each_folder body m).0 ≡ some (body f).0
unfolding each_folder lookup
each_folder-lookup body [] k f h = cc
each_folder-lookup body ((key, g) ∷ m) k f h = ground (arith, each_folder-lookup body m k f)

pub each_folder-lookup-none :
    (body : Folder → Folder × List Effect) (m : TextMap Folder) (k : Text)
    → lookup k m ≡ none
    → lookup k (each_folder body m).0 ≡ none
unfolding each_folder lookup
each_folder-lookup-none body [] k h = refl
each_folder-lookup-none body ((key, g) ∷ m) k h = ground (arith, each_folder-lookup-none body m k)

-- Scanning the workspace leaves a folder that is not trusted exactly as it was, whatever the
-- scanner would deliver for it.
pub scan_workspace-untrusted :
    (x : Externals) (c : Config) (deliveries : Text → List ScanData) (w : Workspace) (k : Text)
    (f : Folder)
    → lookup k w.folders ≡ some f
    → is_trusted c f ≡ false
    → lookup k (scan_workspace x c deliveries w).0.folders ≡ some f
unfolding scan_workspace
scan_workspace-untrusted x c deliveries w k f h t =
    rw (each_folder-lookup (scan_if_trusted x c deliveries) w.folders k f h)
      (unfold scan_if_trusted in rw t)

-- What the clearing of a folder leaves alone.
clear_each-keeps :
    (x : Externals) (m : TextMap (List Issue)) (f : Folder)
    → ((clear_each x m f).0.path ≡ f.path)
      × ((clear_each x m f).0.name ≡ f.name)
      × ((clear_each x m f).0.status ≡ f.status)
unfolding clear_each
clear_each-keeps x [] f = (refl, refl, refl)
clear_each-keeps x ((key, is) ∷ m) f =
    clear_each-keeps x m (record f { cache = delete key f.cache })

cleared :
    (x : Externals) (f : Folder)
    → (clear_issues_of x f).0 ≡ record f { status = unscanned; cache = [] }
unfolding clear_issues_of clear_diagnostics set_status
cleared x f = ground (
  arith,
  clear_each-keeps x f.cache (record f { status = unscanned }),
  (clear_diagnostics-empty x (record f { status = unscanned })).0,
)

-- After `ClearIssues` every folder of the workspace is unscanned and has an empty cache; its path
-- and its name are what they were.
pub clear_issues-lookup :
    (x : Externals) (w : Workspace) (k : Text) (f : Folder)
    → lookup k w.folders ≡ some f
    → lookup k (clear_issues x w).0.folders ≡ some (record f { status = unscanned; cache = [] })
unfolding clear_issues
clear_issues-lookup x w k f h =
    rw (each_folder-lookup (clear_issues_of x) w.folders k f h, cleared x f)

-- Whether the map has a folder under the key.
abbrev pub has_folder : Text → TextMap Folder → Bool
has_folder k m = elim (lookup k m) [ none ↦ false | some f ↦ true ]

-- Removing a folder takes out no other key: the key is compared byte by byte, so a path that
-- differs from the folder's by a trailing separator removes no folder.
pub remove_folder-keeps :
    (x : Externals) (folder_path : Text) (w : Workspace) (k : Text)
    → folder_path ≢ k
    → has_folder k w.folders ≡ true
    → has_folder k (remove_folder x folder_path w).0.folders ≡ true
unfolding remove_folder
remove_folder-keeps x folder_path w k ne h = go (get_folder_containing folder_path w)
  where
    go : (o : Option Folder) → has_folder k (remove_found x o folder_path w).0.folders ≡ true
    go none = h
    go (some f) =
        let g = (clear_diagnostics_from_path_recursively x folder_path f).0 in
        ground (
          arith,
          text_eq_iff folder_path k,
          lookup-delete folder_path k (store g.path g w.folders),
          lookup-store g.path k g w.folders,
        )
