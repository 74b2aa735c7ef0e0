-- ===== src/Scanner/Tests.antt =====
-- A scan by two product scanners that find an issue of one file each, and instances of the theorems.
use mathlib.Core.List.{Perm}
use khulnasoft_lab_vulnmap_l.Prelude.Maps.{lookup, UniqueKeys}
use khulnasoft_lab_vulnmap_l.Prelude.{
  ℕ, Text, codes, true, false, ◌≡◌, refl, ◌↔◌, List, [], ◌∷◌, ◌++◌, none, some, Any,
}
use khulnasoft_lab_vulnmap_l.Externals.{sample}
use khulnasoft_lab_vulnmap_l.Vulnmap.Range.{Range}
use khulnasoft_lab_vulnmap_l.Vulnmap.Product.{open_source, infrastructure_as_code}
use khulnasoft_lab_vulnmap_l.Vulnmap.Issue.{Issue, high, dependency_vulnerability, no_data}
use khulnasoft_lab_vulnmap_l.Config.{Config, default_severity_filter}
use khulnasoft_lab_vulnmap_l.Folder.{Folder, new_folder}
use khulnasoft_lab_vulnmap_l.Folder.Results.{or_empty, member, create_dedup_map}
use khulnasoft_lab_vulnmap_l.Scanner.{
  InlineValue, ProductScanner, get_inline_values, enabled_products_of, refreshes,
}
use khulnasoft_lab_vulnmap_l.Scanner.Goroutines.{completed, ScanState, Reach}
use khulnasoft_lab_vulnmap_l.Scanner.Races.{IsGrown}
use khulnasoft_lab_vulnmap_l.Scanner.Completed.{products_of, IsTold, completed-scan}
use khulnasoft_lab_vulnmap_l.Scanner.Lost.{found, found_issue_lost}
use khulnasoft_lab_vulnmap_l.Scanner.InlineValues.{Occurs, Gives, get_inline_values-errors}

abbrev line : Range
line = record {
  start = record { line = 3; character = 0 };
  end = record { line = 3; character = 9 };
}

abbrev value : InlineValue
value = record { path = codes "/w/pom.xml"; range = line; text = codes "2 vulnerabilities" }

abbrev oss_scanner : ProductScanner
oss_scanner = record {
  product = open_source;
  is_enabled = true;
  get_inline_values = some (λ path r. some (value ∷ []));
}

abbrev iac_scanner : ProductScanner
iac_scanner = record {
  product = infrastructure_as_code;
  is_enabled = true;
  get_inline_values = some (λ path r. none);
}

abbrev scanners : List ProductScanner
scanners = iac_scanner ∷ oss_scanner ∷ []

abbrev config : Config
config = record {
  filter_severity = default_severity_filter;
  oss_enabled = true;
  code_enabled = false;
  code_quality_enabled = false;
  code_security_enabled = false;
  iac_enabled = false;
  trusted_folders_feature_enabled = false;
  trusted_folders = [];
  automatic_scanning = true;
}

abbrev folder : Folder
folder = new_folder (codes "/w") (codes "w")

abbrev first_issue : Issue
first_issue = record {
  id = codes "VULN-1";
  severity = high;
  issue_type = dependency_vulnerability;
  range = line;
  message = codes "bad";
  formatted_message = codes "";
  affected_file_path = codes "/w/pom.xml";
  product = infrastructure_as_code;
  references = [];
  issue_description_url = none;
  code_actions = [];
  codelens_commands = [];
  ecosystem = codes "maven";
  cwes = [];
  cves = [];
  additional_data = no_data;
}

abbrev second_issue : Issue
second_issue = record first_issue { id = codes "VULN-2"; product = open_source }

found_issue_lost_example :
    (n : ℕ) × (s : ScanState) × Reach sample config scanners folder n s
    × (s.phase ≡ completed)
    × (s.delivered ≡ found open_source second_issue ∷ found infrastructure_as_code first_issue ∷ [])
    × (or_empty (lookup (codes "/w/pom.xml") s.cache)
        ≡ or_empty (lookup (codes "/w/pom.xml") folder.cache) ++ (second_issue ∷ []))
unfolding enabled_products_of new_folder create_dedup_map member
found_issue_lost_example =
    found_issue_lost sample config scanners folder infrastructure_as_code open_source first_issue
      second_issue refl refl refl

-- The run in which the first issue is lost.
abbrev run :
    (n : ℕ) × (s : ScanState) × Reach sample config scanners folder n s × (s.phase ≡ completed)
unfolding enabled_products_of new_folder create_dedup_map member
run =
    let (n, s, r, e, told, cached) =
      found_issue_lost sample config scanners folder infrastructure_as_code open_source first_issue
        second_issue refl refl refl in
    (n, s, r, e)

completed-scan_example :
    ((p : Text) → IsGrown folder run.1.delivered p (or_empty (lookup p run.1.cache)))
    × (UniqueKeys folder.cache → UniqueKeys run.1.cache)
    × Perm (products_of run.1.delivered) (enabled_products_of scanners)
    × IsTold sample config scanners folder refreshes run.1.sent
completed-scan_example = completed-scan sample config scanners folder run.0 run.1 run.2 run.3

get_inline_values-errors_example :
    ((get_inline_values scanners (codes "/w/pom.xml") line).1 ≡ none)
    × (Occurs value (get_inline_values scanners (codes "/w/pom.xml") line).0
        ↔ Any (Gives (codes "/w/pom.xml") line value) scanners)
get_inline_values-errors_example = get_inline_values-errors (codes "/w/pom.xml") line value scanners
