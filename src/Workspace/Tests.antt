-- ===== src/Workspace/Tests.antt =====
-- Runs of a workspace, and instances of the theorems about it.
use khulnasoft_lab_vulnmap_l.Prelude.Maps.{lookup}
use khulnasoft_lab_vulnmap_l.Prelude.Strings.{has_suffix, has_prefix}
use khulnasoft_lab_vulnmap_l.Prelude.{
  Text, codes, text_eq, ◌≡◌, refl, ◌↔◌, true, false, List, [], ◌∷◌, some,
}
use khulnasoft_lab_vulnmap_l.Externals.{sample}
use khulnasoft_lab_vulnmap_l.Uri.{clean, folder_contains}
use khulnasoft_lab_vulnmap_l.Uri.Laws.{LiesIn, folder_contains_iff}
use khulnasoft_lab_vulnmap_l.Config.{Config, default_severity_filter}
use khulnasoft_lab_vulnmap_l.Folder.{Folder, ScanData, unscanned}
use khulnasoft_lab_vulnmap_l.Workspace.{Workspace, remove_folder, untrusted_among}
use khulnasoft_lab_vulnmap_l.Workspace.Laws.{has_folder, remove_folder-keeps}
use khulnasoft_lab_vulnmap_l.Workspace.Trust.{
  do_trust, handle_untrusted_folders, accepted_dialog_trusts_all,
}

abbrev config : Config
config = record {
  filter_severity = default_severity_filter;
  oss_enabled = true;
  code_enabled = true;
  code_quality_enabled = false;
  code_security_enabled = false;
  iac_enabled = true;
  trusted_folders_feature_enabled = true;
  trusted_folders = [];
  automatic_scanning = true;
}

abbrev folder : Folder
folder = record { path = codes "/w"; name = codes "w"; status = unscanned; cache = [] }

abbrev workspace : Workspace
workspace = record { folders = (codes "/w", folder) ∷ []; trust_request_ongoing = false }

abbrev nothing : Text → List ScanData
nothing path = []

cleans : clean (codes "/a/./b//c/../d/") ≡ codes "/a/b/d"
unfolding clean text_eq has_prefix
cleans = refl

cleans_relative : clean (codes "../x/../..") ≡ codes "../.."
unfolding clean text_eq has_prefix
cleans_relative = refl

folder_contains_iff_example :
    (folder_contains (codes "/a/b") (codes "/a/bc") ≡ true) ↔ LiesIn (codes "/a/bc") (codes "/a/b")
unfolding clean has_suffix text_eq has_prefix
folder_contains_iff_example = folder_contains_iff (codes "/a/b") (codes "/a/bc") refl refl refl

remove_folder-keeps_example :
    has_folder (codes "/w") (remove_folder sample (codes "/w/") workspace).0.folders ≡ true
unfolding lookup text_eq
remove_folder-keeps_example =
    remove_folder-keeps sample (codes "/w/") workspace (codes "/w") (λ e. cc e) refl

accepted_dialog_trusts_all_example :
    untrusted_among
      (handle_untrusted_folders sample nothing (some do_trust) config workspace).0
      workspace.folders
    ≡ []
accepted_dialog_trusts_all_example = accepted_dialog_trusts_all sample nothing config workspace refl
