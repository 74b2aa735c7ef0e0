-- ===== src/Folder/Tests.antt =====
-- Runs of a folder, and instances of the theorems about it.
use khulnasoft_lab_vulnmap_l.Prelude.Maps.{lookup, store}
use khulnasoft_lab_vulnmap_l.Prelude.{
  codes, text_eq, ◌≡◌, ◌≢◌, refl, ◌⊎◌, ◌↔◌, true, false, List, [], ◌∷◌, none, some, All, Any,
}
use khulnasoft_lab_vulnmap_l.Externals.{sample}
use khulnasoft_lab_vulnmap_l.Vulnmap.Range.{Range}
use khulnasoft_lab_vulnmap_l.Vulnmap.Product.{open_source, unknown, open_source_type}
use khulnasoft_lab_vulnmap_l.Vulnmap.Issue.{
  Issue, high, dependency_vulnerability, no_data, get_filterable_issue_type,
}
use khulnasoft_lab_vulnmap_l.Config.{Config, default_severity_filter}
use khulnasoft_lab_vulnmap_l.Folder.{Folder, ScanData, new_folder, scanned, is_trusted}
use khulnasoft_lab_vulnmap_l.Folder.Results.{
  or_empty, process_issues, create_dedup_map, updated, unique_issue_id, member,
}
use khulnasoft_lab_vulnmap_l.Folder.Publish.{filter_issues, filter_and_publish_cached_diagnostics}
use khulnasoft_lab_vulnmap_l.Folder.Scan.{process_results}
use khulnasoft_lab_vulnmap_l.Folder.Clear.{clear_diagnostics_by_issue_type}
use khulnasoft_lab_vulnmap_l.Folder.Rescan.{process_results_twice}
use khulnasoft_lab_vulnmap_l.Folder.Invariant.{IsFiled}
use khulnasoft_lab_vulnmap_l.Folder.Operations.{
  Operation, deliver, scan_file, clear_path, clear_all, run, reachable-IsFiled,
}
use khulnasoft_lab_vulnmap_l.Folder.Removal.{clear_by_type-lookup, without_in}
use khulnasoft_lab_vulnmap_l.Folder.Notices.{
  published, hovered, shown_diagnostics, shown_hovers, publish_every_file,
}
use khulnasoft_lab_vulnmap_l.Folder.Filter.{Occurs, SeverityIsOn, ProductIsOn, filter_issues_iff}
use khulnasoft_lab_vulnmap_l.Folder.Trust.{BeginsWith, is_trusted_iff}

abbrev somewhere : Range
somewhere = record {
  start = record { line = 3; character = 0 };
  end = record { line = 3; character = 9 };
}

abbrev issue : Issue
issue = record {
  id = codes "VULN-1";
  severity = high;
  issue_type = dependency_vulnerability;
  range = somewhere;
  message = codes "bad";
  formatted_message = codes "";
  affected_file_path = codes "/w/pom.xml";
  product = open_source;
  references = [];
  issue_description_url = none;
  code_actions = [];
  codelens_commands = [];
  ecosystem = codes "maven";
  cwes = [];
  cves = [];
  additional_data = no_data;
}

abbrev config : Config
config = record {
  filter_severity = default_severity_filter;
  oss_enabled = true;
  code_enabled = false;
  code_quality_enabled = false;
  code_security_enabled = false;
  iac_enabled = true;
  trusted_folders_feature_enabled = true;
  trusted_folders = codes "/w" ∷ [];
  automatic_scanning = true;
}

abbrev found : ScanData
found = record {
  product = open_source;
  issues = issue ∷ issue ∷ [];
  err = none;
  duration_ms = 5;
  timestamp_finished = 7;
}

abbrev folder : Folder
folder = record {
  path = codes "/w";
  name = codes "w";
  status = scanned;
  cache = (codes "/w/pom.xml", issue ∷ []) ∷ (codes "/w/a/go.mod", []) ∷ [];
}

-- Within one delivery the same issue is stored as often as it is reported.
duplicates_kept :
    lookup (codes "/w/pom.xml") (updated (issue ∷ issue ∷ []) []).0 ≡ some (issue ∷ issue ∷ [])
unfolding updated create_dedup_map process_issues lookup store member text_eq unique_issue_id
duplicates_kept = refl

process_results_twice_example :
    (process_results sample config found (process_results sample config found folder).0).0
    ≡ (process_results sample config found folder).0
process_results_twice_example = process_results_twice sample config found folder

abbrev steps : List (Config × Operation)
steps =
    (config, deliver found)
    ∷ (config, clear_path (codes "/w/a"))
    ∷ (config, scan_file (codes "/w/pom.xml") [])
    ∷ (config, clear_all)
    ∷ []

reachable-IsFiled_example : IsFiled (run sample steps (new_folder (codes "/w/") (codes "w"))).cache
reachable-IsFiled_example = reachable-IsFiled sample (codes "/w/") (codes "w") steps

clear_by_type-lookup_example :
    (lookup
        (codes "/w/pom.xml")
        (clear_diagnostics_by_issue_type sample open_source_type folder).0.cache
      ≡ without_in open_source_type (lookup (codes "/w/pom.xml") folder.cache))
    × All
        (λ i. get_filterable_issue_type i ≢ open_source_type)
        (or_empty (
          lookup
            (codes "/w/pom.xml")
            (clear_diagnostics_by_issue_type sample open_source_type folder).0.cache))
unfolding lookup text_eq
clear_by_type-lookup_example =
    clear_by_type-lookup sample open_source_type folder (codes "/w/pom.xml") (refl, (refl, tt))

publish_every_file_example :
    (published (filter_and_publish_cached_diagnostics sample config unknown folder)
      ≡ shown_diagnostics sample config folder.cache)
    × (hovered (filter_and_publish_cached_diagnostics sample config unknown folder)
        ≡ shown_hovers config folder.cache)
publish_every_file_example = publish_every_file sample config unknown folder

filter_issues_iff_example : Occurs issue (filter_issues config (issue ∷ [])) ↔ (
    Occurs issue (issue ∷ [])
    × SeverityIsOn config issue.severity
    × ProductIsOn config issue.product issue.issue_type)
filter_issues_iff_example = filter_issues_iff config issue (issue ∷ [])

-- `/wrong` is trusted because `/w` is.
abbrev neighbour : Folder
neighbour = record folder { path = codes "/wrong" }

is_trusted_iff_example : (is_trusted config neighbour ≡ true) ↔ (
    (config.trusted_folders_feature_enabled ≡ false)
    ⊎ Any (BeginsWith neighbour.path) config.trusted_folders)
is_trusted_iff_example = is_trusted_iff config neighbour
